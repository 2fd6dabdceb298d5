-- ===== src/Examples/Instances.antt =====
-- The theorems on the small system, where their hypotheses hold.
use capdl.Base.{
  [], ◌∷◌, true, ◌*◌, ◌%◌, ◌==◌, ◌&&◌, ℕ, ◌+◌, ◌-◌, ◌≤◌, ◌<◌, ◌^◌, ◌≡◌, refl, false, ◌++◌, length,
  leb, if◌then◌else◌, arith,
}
use mathlib.Core.List.{Perm}
use capdl.Base.Words.{wrap}
use capdl.Spec.Types.{ObjectType, is_type}
use capdl.Platform.{word_size, word_size_of}
use capdl.Exec.{World, Stop, ok, halt, world}
use capdl.Loader.Caps.{is_duplicated, duplicate_caps, create_sched_ctrl_caps}
use capdl.Loader.Caps.Dups.{dup_count, Duplicated, AcceptsCopy, duplicate_caps_lem}
use capdl.Loader.Caps.SchedCtrl.{sched_ctrl_count, create_sched_ctrl_caps_lem}
use capdl.Loader.Irq.{start_threads}
use capdl.Loader.Irq.Start.{resumes, AcceptsResume, start_threads_lem}
use capdl.Loader.Untyped.{sort_untypeds}
use capdl.Loader.Untyped.Classes.{num_normal, slots_by_size, normal_slots}
use capdl.Loader.Untyped.Placing.{slice}
use capdl.Loader.Untyped.Sorted.{sort_untypeds_sorts}
use capdl.Loader.Frames.{block_copy_len, is_fill_too_long}
use capdl.Loader.Frames.Bounds.{
  block_copy_len_bounds, is_fill_too_long_iff, is_fill_too_long_past_end,
}
use capdl.Loader.System.{init_system}
use capdl.Loader.Phases.Order.{ResumesLast, init_system-ResumesLast}
use capdl.Spec.Types.{CapType, is_cap_type}
use capdl.Base.Words.{through_int}
use capdl.Platform.{word_bytes}
use capdl.Exec.{◌>>◌}
use capdl.Exec.Emits.{Emits}
use capdl.Exec.Reads.{ReadsAt, Any}
use capdl.Loader.Slots.{CapTable, table_size, write_table, add_sel4_cap}
use capdl.Loader.Slots.Tables.{lookup, same_table, entry_of, add_sel4_cap-lookup}
use capdl.Loader.Lookup.{get_cap_at}
use capdl.Loader.Lookup.Find.{Found, get_cap_at-Found}
use capdl.Loader.Cspace.{CnodeMode, init_cnode_slot}
use capdl.Loader.Cspace.Once.{fills, IntoCnode, CallsOnce, init_cnode_slot-CallsOnce}
use capdl.Loader.Frames.{fill_frame}
use capdl.Loader.Frames.Blocks.{WritesWithin, fill_frame-Emits-WritesWithin}
use capdl.Loader.Registers.{stack_alignment_bytes, pad_stack}
use capdl.Loader.Registers.Stack.{padding, pad_stack_lem}
use capdl.Exec.Ends.{Ends, ends_rules}
use capdl.Loader.Slots.{get_spec_object, orig_caps}
use capdl.Loader.Device.{find_device_object, search_untypeds}
use capdl.Loader.Create.{create_loop}
use capdl.Loader.Create.Rounds.{DevicesEnd, Ends-create_loop}
use capdl.Platform.Calls.{Invocation, call}
use capdl.Spec.Access.{cap_rights}
use capdl.Loader.Vspace.{cap_ptr, map_page}
use capdl.Loader.Vspace.Copied.{AcceptsMaps, MapsCopy}
use capdl.Loader.Vspace.Maps.{map_page_lem}
use capdl.Examples.{
  frame_slot, one_frame, no_untypeds, thread_with_vspace, vspace_slot, machine, bootinfo, start,
  object, fill_at,
}

resuming : AcceptsResume machine
resuming = record { accepts = λ _ _. refl }

copying : AcceptsCopy machine
copying = record { accepts = λ _ _ _. refl }

init_system-ResumesLast_example : ResumesLast start (world (init_system machine 9 9 bootinfo start))
init_system-ResumesLast_example = init_system-ResumesLast machine 9 9 bootinfo start

sort_untypeds_sorts_example :
    (a : ℕ → ℕ) × (sort_untypeds machine bootinfo start
      ≡ ok (num_normal bootinfo.untyped_list) (record start { untyped_cptrs = a }))
    × (slice a 0 (num_normal bootinfo.untyped_list)
        ≡ slots_by_size
            (word_size machine)
            bootinfo.untyped.start
            (word_size machine - 1)
            0
            bootinfo.untyped_list)
    × Perm
        (slice a 0 (num_normal bootinfo.untyped_list))
        (normal_slots (word_size machine) bootinfo.untyped.start 0 bootinfo.untyped_list)
unfolding num_normal word_size_of
sort_untypeds_sorts_example =
    sort_untypeds_sorts machine bootinfo start
      (
        λ _. (omega arith, omega arith),
        (λ _. (omega arith, omega arith), (λ _. (omega arith, omega arith), tt)),
      )
      refl (omega arith) (omega arith)

start_threads_lem_example :
    start_threads machine start
    ≡ ok tt (record start {
      trace = start.trace ++ resumes start.capdl_to_sel4_orig start.spec.objects 0;
    })
start_threads_lem_example = start_threads_lem machine start resuming (omega arith)

duplicate_caps_lem_example :
    (v : World) × (duplicate_caps machine start ≡ ok tt v)
    × Duplicated machine start (length start.spec.objects) v
unfolding dup_count is_duplicated is_type
duplicate_caps_lem_example =
    duplicate_caps_lem machine start copying (omega arith) (omega arith) (omega arith)

create_sched_ctrl_caps_lem_example :
    (sched_ctrl_count machine bootinfo < machine.max_num_nodes
      → (t : ℕ → ℕ) × (create_sched_ctrl_caps machine bootinfo start
          ≡ ok tt (record start { capdl_to_sched_ctrl = t }))
        × ((j : ℕ)
            → t j ≡ (
                if leb j (sched_ctrl_count machine bootinfo)
                then wrap (word_size machine) (j + bootinfo.schedcontrol.start)
                else start.capdl_to_sched_ctrl j)))
    × (machine.max_num_nodes ≤ sched_ctrl_count machine bootinfo
        → (v : World) × (create_sched_ctrl_caps machine bootinfo start ≡ halt Stop.undefined v))
create_sched_ctrl_caps_lem_example = create_sched_ctrl_caps_lem machine bootinfo start refl

block_copy_len_bounds_example :
    (block_copy_len machine 100 40 30 ≤ 30)
    × (40 ≤ 100 → 40 + block_copy_len machine 100 40 30 ≤ 100)
    × (100 < 40 → block_copy_len machine 100 40 30 ≡ 0)
    × (40 + 30 ≤ 100 → block_copy_len machine 100 40 30 ≡ 30)
block_copy_len_bounds_example = block_copy_len_bounds machine 100 40 30

is_fill_too_long_iff_example :
    (is_fill_too_long machine (object ObjectType.frame false) (fill_at 0 1) ≡ false → 0 + 1 ≤ 2 ^ 0)
    × (0 + 1 ≤ 2 ^ 0
        → is_fill_too_long machine (object ObjectType.frame false) (fill_at 0 1) ≡ false)
unfolding word_size_of
is_fill_too_long_iff_example =
    is_fill_too_long_iff machine (object ObjectType.frame false) (fill_at 0 1) (omega arith)
      (omega arith)

is_fill_too_long_past_end_example :
    (is_fill_too_long machine (object ObjectType.frame false) (fill_at 4096 4096) ≡ false
      → 4096 ≤ 2 ^ word_size machine - (4096 - 2 ^ 0))
    × (4096 ≤ 2 ^ word_size machine - (4096 - 2 ^ 0)
        → is_fill_too_long machine (object ObjectType.frame false) (fill_at 4096 4096) ≡ false)
unfolding word_size_of
is_fill_too_long_past_end_example =
    is_fill_too_long_past_end machine (object ObjectType.frame false) (fill_at 4096 4096)
      (omega arith) (omega arith)

add_sel4_cap-lookup_example :
    (2 < table_size machine CapTable.dup
      → (add_sel4_cap machine 2 CapTable.dup 70 >> lookup machine CapTable.dup 2) start
        ≡ ok
            (if same_table CapTable.dup CapTable.dup && (2 == 2)
              then 70
              else entry_of CapTable.dup start 2)
            (write_table CapTable.dup 2 70 start))
    × (table_size machine CapTable.dup ≤ 2
        → add_sel4_cap machine 2 CapTable.dup 70 start ≡ halt Stop.undefined start)
unfolding table_size
add_sel4_cap-lookup_example =
    add_sel4_cap-lookup machine CapTable.dup CapTable.dup 2 2 70 start (omega arith)

get_cap_at-Found_example : Found (thread_with_vspace).slots 1 (get_cap_at thread_with_vspace 1)
get_cap_at-Found_example = get_cap_at-Found thread_with_vspace 1 (omega arith)

init_cnode_slot-CallsOnce_example :
    (fills CnodeMode.copy (is_cap_type vspace_slot.cap.type CapType.irq_control_cap) ≡ true
      → CallsOnce
          (IntoCnode machine 2 (through_int (word_size machine) vspace_slot.slot) start)
          start
          (init_cnode_slot machine CnodeMode.copy 2 vspace_slot start))
    × (fills CnodeMode.copy (is_cap_type vspace_slot.cap.type CapType.irq_control_cap) ≡ false
        → ReadsAt Any start (init_cnode_slot machine CnodeMode.copy 2 vspace_slot start))
init_cnode_slot-CallsOnce_example =
    init_cnode_slot-CallsOnce machine CnodeMode.copy 2 vspace_slot start

fill_frame-Emits-WritesWithin_example :
    Emits (WritesWithin 8192 (2 ^ 0)) (fill_frame machine 8192 (fill_at 0 1))
unfolding is_fill_too_long word_size_of
fill_frame-Emits-WritesWithin_example =
    fill_frame-Emits-WritesWithin machine (object ObjectType.frame false) 8192 (fill_at 0 1)
      (omega arith) (omega arith) refl

pad_stack_lem_example :
    (pad_stack machine 5 4096 ≡ 4096 - padding machine 5 * word_bytes machine)
    × ((padding machine 5 + 5) * word_bytes machine % stack_alignment_bytes ≡ 0)
unfolding word_size_of
pad_stack_lem_example = pad_stack_lem machine 5 4096 (omega arith) (omega arith)

-- without untypeds there is nothing to search
no_device : DevicesEnd machine 9 no_untypeds
unfolding find_device_object search_untypeds word_size_of get_spec_object orig_caps
no_device = record { ends = λ paddr type size slot id. search ends_rules depth 12 }

Ends-create_loop_example : Ends (create_loop machine 6 9 no_untypeds 4 1 0 0 0)
Ends-create_loop_example =
    Ends-create_loop machine 9 no_untypeds no_device 4 1 (omega arith) (omega arith) 6 0 0 0
      (omega arith)

mapping_all : AcceptsMaps machine
mapping_all = record {
  copies = λ _ _ _. refl;
  maps = λ _ _ _ _ _ _. refl;
  tables = λ _ _ _ _ _. refl;
  keeps = record { cleans = λ _ _ _ _. refl; unifies = λ _ _ _ _. refl };
}

map_page_lem_example :
    (is_cap_type frame_slot.cap.type CapType.frame_cap ≡ true
      → (v : World) × (map_page machine (cap_ptr 0 0) 0 (cap_rights frame_slot.cap) 4096 one_frame
          ≡ ok tt v)
        × MapsCopy machine 0 0 41 40
            (object ObjectType.frame false)
            (cap_rights frame_slot.cap)
            0
            4096
            one_frame
            v)
    × (is_cap_type frame_slot.cap.type CapType.pt_cap ≡ true
        → map_page machine (cap_ptr 0 0) 0 (cap_rights frame_slot.cap) 4096 one_frame
          ≡ ok tt (record one_frame {
            trace = one_frame.trace ++ call (Invocation.page_table_map 41 40 4096 0) ∷ [];
          }))
    × (is_cap_type frame_slot.cap.type CapType.frame_cap ≡ false
        → is_cap_type frame_slot.cap.type CapType.pt_cap ≡ false
        → map_page machine (cap_ptr 0 0) 0 (cap_rights frame_slot.cap) 4096 one_frame
          ≡ halt Stop.fatal one_frame)
unfolding word_size_of
map_page_lem_example =
    map_page_lem machine 0 0 0 (cap_rights frame_slot.cap) 4096 one_frame
      (record (object ObjectType.pd false) { slots = frame_slot ∷ [] })
      (object ObjectType.frame false) frame_slot mapping_all refl refl (omega arith) (omega arith)
      refl refl (omega arith) (omega arith)

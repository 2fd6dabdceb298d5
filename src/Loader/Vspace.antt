-- ===== src/Loader/Vspace.antt =====
-- `map_page` of main.c, and the recursion over the levels of an address space in 64-bit and RISC-V
-- configurations. A `CDL_Cap *` into a paging structure is the object's number and the position in
-- its array of slots, since the loader writes to the cap through it.
pub mod Legacy
pub mod Upkeep
pub mod Copied
pub mod Maps
pub mod Entry
pub mod Mapped
use capdl.Base.{
  ℕ, zero, suc, ◌+◌, ◌-◌, ◌*◌, ◌/◌, ◌%◌, ◌^◌, min, Bool, true, false, not, ◌&&◌, ◌||◌, Option, none,
  some, List, [], ◌∷◌, ◌++◌, length, get_elem?, set, take, drop, ltb, leb, ◌==◌, if◌then◌else◌,
}
use capdl.Base.Words.{wrap, wrap_sub, u8, u32, through_int}
use capdl.Spec.{
  CapData, Cap, CapSlot, TcbExtraInfo, FrameFillElement, Object, UntypedDerivation, Model,
}
use capdl.Spec.Types.{CapType, ObjectType, FillType, is_cap_type, is_type, object_type_value}
use capdl.Spec.Access.{
  CapRights, cap_rights, obj_paddr, num_slots, get_slot, tcb_ctable_slot, tcb_vtable_slot,
  tcb_ipcbuffer_slot, tcb_fault_ep_slot, tcb_sc_slot, tcb_temporal_fault_ep_slot, tcb_vcpu_slot,
}
use capdl.Platform.{
  Platform, Arch, Config, BootInfo, UntypedDesc, Header, word_size, word_bytes, is_x86, is_arm,
  is_riscv, pt_num_levels,
}
use capdl.Platform.Calls.{Invocation, UserContext, Reply, Effect}
use capdl.Exec.{
  World, Stop, Exec, pure, ◌>>=◌, ◌>>◌, stop, gets, modify, when, fatal_if, fatal_iferr, assert,
  deref, effect, invoke, invoke_checked, for_range, for_each,
}
use capdl.Loader.Slots.{
  get_free_slot, next_free_slot, orig_caps, dup_caps, irq_caps, sched_ctrl_caps, CapTable,
  add_sel4_cap, get_spec_object, get_cap_data, update,
}
use Prim.Native.Nat.{bit_or, bit_and}
use capdl.Loader.Caps.{for_objects}

pub record CapPtr : Type 0 where
  pub object : ℕ
  pub index : ℕ

abbrev pub cap_ptr : ℕ → ℕ → CapPtr
cap_ptr o i = record { object = o; index = i }

-- *CDL_Obj_GetSlot(obj, index)
unfoldable pub read_slot : CapPtr → Exec CapSlot
read_slot ptr = do obj ← get_spec_object ptr.object; deref (get_slot obj ptr.index)

unfoldable pub set_mapped : ℕ → CapSlot → CapSlot
set_mapped v s = record s { cap = record s.cap { mapped_frame_cap = v } }

unfoldable pub set_mapped_at : List CapSlot → ℕ → ℕ → List CapSlot
unfolding set_mapped
set_mapped_at [] i v = []
set_mapped_at (s ∷ rest) zero v = set_mapped v s ∷ rest
set_mapped_at (s ∷ rest) (suc i) v = s ∷ set_mapped_at rest i v

unfoldable pub set_mapped_in : List Object → ℕ → ℕ → ℕ → List Object
unfolding set_mapped_at
set_mapped_in [] o i v = []
set_mapped_in (obj ∷ rest) zero i v = record obj { slots = set_mapped_at obj.slots i v } ∷ rest
set_mapped_in (obj ∷ rest) (suc o) i v = obj ∷ set_mapped_in rest o i v

-- page_cap->mapped_frame_cap = v
unfoldable pub write_mapped_frame_cap : CapPtr → ℕ → Exec (Unit {0})
unfolding set_mapped_in
write_mapped_frame_cap ptr v = modify (λ w. record w {
  spec = record w.spec { objects = set_mapped_in w.spec.objects ptr.object ptr.index v };
})

module _ (p : Platform) where
  -- CONFIG_CAPDL_LOADER_WRITEABLE_PAGES: what may be executed may be written
  unfoldable pub writeable_rights : CapRights → CapRights
  writeable_rights rights =
      if p.writeable_pages && rights.grant then record rights { write = true } else rights

  -- a mapping that may be written may be read
  unfoldable pub readable_rights : CapRights → CapRights
  readable_rights rights = if rights.write then record rights { read = true } else rights

  unfoldable pub frame_attribs : CapRights → (vm_attribs : ℕ) → ℕ
  frame_attribs rights vm_attribs =
      if is_arm p.arch && not rights.grant then bit_or vm_attribs p.execute_never else vm_attribs

  -- the cache maintenance of ARM, for frames in the first memory region
  unfoldable pub clean_frame : (page sel4_page : ℕ) → CapRights → (vm_attribs : ℕ) → Exec (Unit {0})
  clean_frame page sel4_page rights vm_attribs = do
    obj ← get_spec_object page
    assert (leb obj.size_bits (word_size p - 1))
    addr ← invoke p (Invocation.page_get_address sel4_page)
    let to = wrap (word_size p) (2 ^ obj.size_bits)
    let uncached = bit_and vm_attribs p.page_cacheable == 0 && obj_paddr obj == 0
    when (leb p.memory_region_start addr.paddr && leb addr.paddr p.memory_region_end) (do
      when uncached (invoke_checked p (Invocation.page_clean_invalidate_data sel4_page 0 to))
      when rights.grant (invoke_checked p (Invocation.page_unify_instruction sel4_page 0 to)))

  -- the branch of `map_page` for a frame: every mapping has a copy of the cap of its own. Where the
  -- kernel refuses, the loader asks for the frame's address, for its message, and stops.
  unfoldable pub map_frame :
      CapPtr → (page sel4_page sel4_pd : ℕ) → CapRights → (vm_attribs vaddr : ℕ) → Exec (Unit {0})
  unfolding readable_rights frame_attribs clean_frame
  map_frame ptr page sel4_page sel4_pd rights vm_attribs vaddr = do
    slot ← get_free_slot
    let dest_index = through_int (word_size p) slot
    let root = p.cap_init_thread_cnode
    invoke_checked p (
        Invocation.cnode_copy root dest_index (word_size p) root sel4_page (word_size p)
          p.all_rights)
    next_free_slot p
    let mapped_rights = readable_rights rights
    let attribs = frame_attribs mapped_rights vm_attribs
    write_mapped_frame_cap ptr dest_index
    r ← invoke p (Invocation.page_map dest_index sel4_pd vaddr mapped_rights attribs)
    when (not (r.error == 0))
        (do invoke p (Invocation.page_get_address dest_index); stop Stop.fatal)
    when (is_arm p.arch) (clean_frame page dest_index mapped_rights attribs)

  unfoldable pub map_page : CapPtr → (pd_id : ℕ) → CapRights → (vaddr : ℕ) → Exec (Unit {0})
  unfolding map_frame writeable_rights
  map_page ptr pd_id rights vaddr = do
    slot ← read_slot ptr
    let page_cap = slot.cap
    sel4_page ← orig_caps p page_cap.obj_id
    sel4_pd ← orig_caps p pd_id
    let table =
        invoke_checked p (Invocation.page_table_map sel4_page sel4_pd vaddr page_cap.vm_attribs)
    let frame =
        map_frame ptr page_cap.obj_id sel4_page sel4_pd (writeable_rights rights)
          page_cap.vm_attribs vaddr
    if is_cap_type page_cap.type CapType.pt_cap
        then table
        else if is_cap_type page_cap.type CapType.frame_cap
        then frame
        else stop Stop.fatal

  -- CDL_PT_LEVEL_1_IndexBits to CDL_PT_LEVEL_3_IndexBits
  unfoldable pub level_1_index_bits : ℕ
  level_1_index_bits = elim p.arch [
    | Arch.aarch64 ↦ p.pud_index_bits
    | Arch.x86_64 ↦ p.pdpt_index_bits
    | _ ↦ p.page_table_index_bits
  ]

  unfoldable pub level_2_index_bits : ℕ
  level_2_index_bits = if is_riscv p.arch then p.page_table_index_bits else p.page_dir_index_bits

  unfoldable pub level_3_index_bits : ℕ
  level_3_index_bits = p.page_table_index_bits

  -- the address that a slot stands for, in a structure whose slots are 2 ^ shift bytes apart
  unfoldable pub slot_address : (base slot shift : ℕ) → ℕ
  slot_address base slot shift = wrap (word_size p) (base + wrap (word_size p) (slot * 2 ^ shift))

  unfoldable pub init_level_3 : (level_0_obj base obj : ℕ) → Exec (Unit {0})
  unfolding slot_address
  init_level_3 level_0_obj level_3_base level_3_obj = do
    obj ← get_spec_object level_3_obj
    for_range (num_slots obj) 0 (λ i. do
      slot ← read_slot (cap_ptr level_3_obj i)
      let base = slot_address level_3_base slot.slot p.page_bits
      map_page (cap_ptr level_3_obj i) level_0_obj (cap_rights slot.cap) base)

  -- the slot holds a large frame, or a structure of the next level, which is mapped and walked; the
  -- result of the mapping is not looked at
  unfoldable pub init_slot :
      (level level_0_obj : ℕ)
      → CapPtr
      → Cap
      → (base : ℕ) → (ℕ → ℕ → ℕ → Exec (Unit {0}))
      → Exec (Unit {0})
  init_slot level level_0_obj ptr cap base next = do
    let frame = map_page ptr level_0_obj (cap_rights cap) base
    let table = (do
      sel4_table ← orig_caps p cap.obj_id
      sel4_top ← orig_caps p level_0_obj
      invoke p (Invocation.level_map level sel4_table sel4_top base cap.vm_attribs)
      next level_0_obj base cap.obj_id)
    if is_cap_type cap.type CapType.frame_cap then frame else table

  unfoldable pub init_level_2 : (level_0_obj base obj : ℕ) → Exec (Unit {0})
  unfolding slot_address init_slot
  init_level_2 level_0_obj level_2_base level_2_obj = do
    obj ← get_spec_object level_2_obj
    for_range (num_slots obj) 0 (λ i. do
      slot ← read_slot (cap_ptr level_2_obj i)
      let base = slot_address level_2_base slot.slot (level_3_index_bits + p.page_bits)
      init_slot 3 level_0_obj (cap_ptr level_2_obj i) slot.cap base init_level_3)

  unfoldable pub init_level_1 : (level_0_obj base obj : ℕ) → Exec (Unit {0})
  unfolding slot_address init_slot
  init_level_1 level_0_obj level_1_base level_1_obj = do
    obj ← get_spec_object level_1_obj
    for_range (num_slots obj) 0 (λ i. do
      slot ← read_slot (cap_ptr level_1_obj i)
      let base =
          slot_address level_1_base slot.slot
            (level_2_index_bits + level_3_index_bits + p.page_bits)
      init_slot 2 level_0_obj (cap_ptr level_1_obj i) slot.cap base init_level_2)

  -- CDL_PT_LEVEL_1_MAP is not defined where the top level is a PUD.
  unfoldable pub has_level_1_map : Bool
  has_level_1_map = not (is_arm p.arch && p.arm_hypervisor_support && p.arm_pa_size_bits_40)

  -- Here the shift is of the sum of base and slot.
  unfoldable pub init_level_0 : (level_0_obj base : ℕ) → Exec (Unit {0})
  init_level_0 level_0_obj level_0_base = do
    obj ← get_spec_object level_0_obj
    for_range (num_slots obj) 0 (λ i. do
      slot ← read_slot (cap_ptr level_0_obj i)
      let shift = level_1_index_bits + level_2_index_bits + level_3_index_bits + p.page_bits
      let base = wrap (word_size p) (wrap (word_size p) (level_0_base + slot.slot) * 2 ^ shift)
      fatal_if (not has_level_1_map)
      sel4_table ← orig_caps p slot.cap.obj_id
      sel4_top ← orig_caps p level_0_obj
      invoke p (Invocation.level_map 1 sel4_table sel4_top base slot.cap.vm_attribs)
      init_level_1 level_0_obj base slot.cap.obj_id)

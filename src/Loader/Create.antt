-- ===== src/Loader/Create.antt =====
-- `create_object` and both versions of `create_objects` of main.c.
pub mod Rounds
use capdl.Base.{
  ℕ, zero, suc, ◌+◌, Bool, true, false, not, ◌&&◌, List, [], ◌∷◌, length, drop, ltb, ◌==◌,
  if◌then◌else◌,
}
use capdl.Base.Words.{wrap, wrap_sub, u32}
use capdl.Spec.{Object, UntypedDerivation}
use capdl.Spec.Types.{ObjectType, is_type}
use capdl.Spec.Access.{obj_paddr}
use capdl.Platform.{Platform, BootInfo, word_size, is_x86, is_arm}
use capdl.Platform.Calls.{Invocation}
use capdl.Exec.{
  Stop, Exec, pure, ◌>>=◌, ◌>>◌, stop, gets, modify, fatal_if, fatal_iferr, invoke_checked,
}
use capdl.Loader.Slots.{orig_caps, CapTable, add_sel4_cap, get_spec_object}
use capdl.Loader.Untyped.{sort_untypeds}
use capdl.Loader.Device.{
  find_device_object, is_device_object, retype_untyped, kernel_type, kernel_size,
}

-- MAX_STREAM_IDS
abbrev pub max_stream_ids : ℕ
max_stream_ids = 60

unfoldable pub requires_creation : Platform → ObjectType → Bool
requires_creation p ObjectType.interrupt = false
requires_creation p ObjectType.io_device = not (is_x86 p.arch)
requires_creation p ObjectType.ioapic_interrupt = not (is_x86 p.arch)
requires_creation p ObjectType.msi_interrupt = not (is_x86 p.arch)
requires_creation p ObjectType.arm_io_device = not (is_arm p.arch)
requires_creation p ObjectType.arm_interrupt = not (is_arm p.arch)
requires_creation p _ = true

module _ (p : Platform) where
  unfoldable pub create_io_ports : Object → (free_slot : ℕ) → Exec ℕ
  create_io_ports obj free_slot = do
    invoke_checked p (
        Invocation.io_port_control_issue p.cap_io_port_control obj.start obj.end
          p.cap_init_thread_cnode free_slot (word_size p))
    pure 0

  unfoldable pub create_sid : (free_slot : ℕ) → Exec ℕ
  create_sid free_slot = do
    sid_number ← gets (λ w. w.sid_number)
    invoke_checked p (
        Invocation.sid_control_get_sid p.cap_smmu_sid_control sid_number p.cap_init_thread_cnode
          free_slot (word_size p))
    modify (λ w. record w { sid_number = u32 (w.sid_number + 1) })
    next ← gets (λ w. w.sid_number)
    fatal_if (ltb max_stream_ids next)
    pure 0

  unfoldable pub create_cb : Object → (free_slot : ℕ) → Exec ℕ
  create_cb obj free_slot = do
    invoke_checked p (
        Invocation.cb_control_get_cb p.cap_smmu_cb_control obj.cb_extra.bank p.cap_init_thread_cnode
          free_slot (word_size p))
    modify (λ w. record w { sid_number = 0 })
    pure 0

  unfoldable pub create_device :
      (fuel : ℕ) → Object → (id : ℕ) → BootInfo → (free_slot : ℕ) → Exec ℕ
  create_device fuel obj id info free_slot = do
    err ←
        find_device_object p fuel (obj_paddr obj) (kernel_type p obj) (kernel_size p obj) free_slot
          id info
    fatal_iferr err
    pure 0

  -- The error code of the retype, or 0. `fuel` bounds the allocations from a device untyped.
  unfoldable pub create_object :
      (fuel : ℕ) → Object → (id : ℕ) → BootInfo → (untyped_slot free_slot : ℕ) → Exec ℕ
  unfolding create_io_ports create_sid create_cb create_device
  create_object fuel obj id info untyped_slot free_slot =
      let slot = u32 free_slot in
      if is_x86 p.arch && is_type obj.type ObjectType.io_ports
      then create_io_ports obj slot
      else if p.arm_smmu && is_type obj.type ObjectType.sid
      then create_sid slot
      else if p.arm_smmu && is_type obj.type ObjectType.cb
      then create_cb obj slot
      else if not p.static_alloc && is_device_object p obj
      then create_device fuel obj id info slot
      else retype_untyped p slot untyped_slot (kernel_type p obj) (kernel_size p obj)

  -- the backing untypeds turned into ASID pools, from `asid_slots[1]` on
  unfoldable pub create_asid_pools : List ℕ → (free_slot_index : ℕ) → Exec ℕ
  create_asid_pools [] free_slot_index = pure free_slot_index
  create_asid_pools (obj_id ∷ rest) free_slot_index = do
    asid_ut ← orig_caps p obj_id
    start ← gets (λ w. w.free_slot_start)
    let asid_slot = wrap (word_size p) (start + free_slot_index)
    invoke_checked p (
        Invocation.asid_control_make_pool p.cap_asid_control asid_ut p.cap_init_thread_cnode
          asid_slot (word_size p))
    add_sel4_cap p obj_id CapTable.orig asid_slot
    create_asid_pools rest (u32 (free_slot_index + 1))

  -- what both versions of `create_objects` end with
  unfoldable pub finish_creation : (free_slot_index : ℕ) → Exec (Unit {0})
  unfolding create_asid_pools
  finish_creation free_slot_index = do
    asid_slots ← gets (λ w. w.spec.asid_slots)
    used ← create_asid_pools (drop 1 asid_slots) free_slot_index
    modify (λ w. record w { free_slot_start = wrap (word_size p) (w.free_slot_start + used) })

  -- while (obj_id_index < spec->num && ut_index < num_normal_untypes), with the three indices.
  -- Where the untyped is exhausted, `obj_id_index` is counted down and up again.
  unfoldable pub create_loop :
      (fuel device_fuel : ℕ)
      → BootInfo
      → (num num_untypes obj_id_index free_slot_index ut_index : ℕ) → Exec (ℕ × ℕ)
  create_loop zero dev info num num_untypes obj_id slots ut = stop Stop.out_of_fuel
  create_loop (suc fuel) dev info num num_untypes obj_id slots ut =
      if ltb obj_id num && ltb ut num_untypes
      then (do
        start ← gets (λ w. w.free_slot_start)
        let free_slot = wrap (word_size p) (start + slots)
        untyped_cptr ← gets (λ w. w.untyped_cptrs ut)
        obj ← get_spec_object obj_id
        let after = u32 (obj_id + 1)
        let again = u32 (wrap_sub 32 obj_id 1 + 1)
        let create = (do
          err ← create_object dev obj obj_id info untyped_cptr free_slot
          let created = (do
            add_sel4_cap p obj_id CapTable.orig free_slot
            create_loop fuel dev info num num_untypes after (u32 (slots + 1)) ut)
          let exhausted = create_loop fuel dev info num num_untypes again slots (u32 (ut + 1))
          if err == 0
              then created
              else if err == p.not_enough_memory
              then exhausted
              else stop Stop.fatal)
        let skipped = create_loop fuel dev info num num_untypes after slots ut
        if requires_creation p obj.type then create else skipped)
      else pure (obj_id, slots)

  -- Each round moves on to the next object or to the next untyped, which is what the fuel counts.
  unfoldable pub create_objects_dynamic : (device_fuel : ℕ) → BootInfo → Exec (Unit {0})
  unfolding create_loop finish_creation
  create_objects_dynamic dev info = do
    num_untypes ← sort_untypeds p info
    num ← gets (λ w. length w.spec.objects)
    (obj_id, slots) ← create_loop (num + num_untypes + 1) dev info num num_untypes 0 0 0
    fatal_if (not (obj_id == num))
    finish_creation slots

  -- the children of one untyped; no device objects are looked for
  unfoldable pub create_children :
      BootInfo → (untyped_cptr : ℕ) → List ℕ → (free_slot_index : ℕ) → Exec ℕ
  create_children info untyped_cptr [] slots = pure slots
  create_children info untyped_cptr (obj_id ∷ rest) slots = do
    start ← gets (λ w. w.free_slot_start)
    let free_slot = wrap (word_size p) (start + slots)
    obj ← get_spec_object obj_id
    fatal_if (not (requires_creation p obj.type))
    err ← create_object 0 obj obj_id info untyped_cptr free_slot
    fatal_iferr err
    add_sel4_cap p obj_id CapTable.orig free_slot
    create_children info untyped_cptr rest (u32 (slots + 1))

  unfoldable pub derive_untypeds :
      BootInfo → (ut_index : ℕ) → List UntypedDerivation → (free_slot_index : ℕ) → Exec ℕ
  unfolding create_children
  derive_untypeds info ut_index [] slots = pure slots
  derive_untypeds info ut_index (ud ∷ rest) slots = do
    untyped_cptr ← gets (λ w. w.untyped_cptrs ut_index)
    used ← create_children info untyped_cptr ud.children slots
    derive_untypeds info (ut_index + 1) rest used

  unfoldable pub create_objects_static : BootInfo → Exec (Unit {0})
  unfolding derive_untypeds finish_creation
  create_objects_static info = do
    untyped ← gets (λ w. w.spec.untyped)
    slots ← derive_untypeds info 0 untyped 0
    finish_creation slots

  unfoldable pub create_objects : (device_fuel : ℕ) → BootInfo → Exec (Unit {0})
  unfolding create_objects_static create_objects_dynamic
  create_objects dev info =
      if p.static_alloc then create_objects_static info else create_objects_dynamic dev info

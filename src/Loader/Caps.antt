-- ===== src/Loader/Caps.antt =====
-- Caps that the loader makes for itself: interrupt handlers, badged copies, the duplicates of CNodes
-- and TCBs, and the table of scheduling control caps.
pub mod Dups
pub mod Each
pub mod SchedCtrl
use capdl.Base.{
  ℕ, ◌+◌, ◌-◌, ◌^◌, Bool, not, ◌&&◌, ◌||◌, length, get_elem?, ltb, ◌==◌, if◌then◌else◌,
}
use capdl.Base.Words.{wrap, wrap_sub, through_int}
use capdl.Spec.{Object}
use capdl.Spec.Types.{ObjectType, is_type}
use capdl.Platform.{Platform, BootInfo, word_size, is_x86, is_arm}
use capdl.Platform.Calls.{Invocation}
use capdl.Exec.{Exec, ◌>>=◌, ◌>>◌, gets, when, deref, invoke_checked, for_range}
use capdl.Loader.Slots.{
  get_free_slot, next_free_slot, orig_caps, CapTable, add_sel4_cap, get_spec_object,
}

module _ (p : Platform) where
  -- the call that makes the handler cap, in slot `index` of the loader's CNode
  unfoldable pub irq_control_call : Object → (irq index : ℕ) → Invocation
  irq_control_call obj irq index =
      let root = p.cap_init_thread_cnode in
      let depth = word_size p in
      let control = p.cap_irq_control in
      if is_x86 p.arch && is_type obj.type ObjectType.ioapic_interrupt
      then Invocation.irq_control_get_ioapic control root index depth obj.ioapicirq_extra.ioapic
          obj.ioapicirq_extra.ioapic_pin obj.ioapicirq_extra.level obj.ioapicirq_extra.polarity irq
      else if is_x86 p.arch && is_type obj.type ObjectType.msi_interrupt
      then Invocation.irq_control_get_msi control root index depth obj.msiirq_extra.pci_bus
          obj.msiirq_extra.pci_dev obj.msiirq_extra.pci_fun obj.msiirq_extra.handle irq
      else if is_arm p.arch && is_type obj.type ObjectType.arm_interrupt
      then (if ltb 1 p.max_num_nodes
          then Invocation.irq_control_get_trigger_core control irq obj.armirq_extra.trigger root
              index depth obj.armirq_extra.target
          else Invocation.irq_control_get_trigger control irq obj.armirq_extra.trigger root index
              depth)
      else Invocation.irq_control_get control irq root index depth

  unfoldable pub create_irq_cap : (irq : ℕ) → Object → (free_slot : ℕ) → Exec (Unit {0})
  create_irq_cap irq obj free_slot = do
    let index = through_int (word_size p) free_slot
    invoke_checked p (irq_control_call obj irq index)
    add_sel4_cap p irq CapTable.irq index

  -- INVALID_OBJ_ID
  unfoldable pub invalid_obj_id : ℕ
  invalid_obj_id = 2 ^ word_size p - 1

  -- for (irq = 0; irq < spec->num_irqs; irq++), with a body for the entries that name an object
  unfoldable pub for_irqs : (ℕ → Exec (Unit {0})) → Exec (Unit {0})
  unfolding invalid_obj_id
  for_irqs body = do
    num ← gets (λ w. length w.spec.irqs)
    for_range num 0 (λ irq. do
      irqs ← gets (λ w. w.spec.irqs)
      obj_id ← deref (get_elem? irqs irq)
      when (not (obj_id == invalid_obj_id)) (body irq))

  -- spec->objects[spec->irqs[irq]]
  unfoldable pub irq_object : ℕ → Exec Object
  irq_object irq = do
    irqs ← gets (λ w. w.spec.irqs)
    obj_id ← deref (get_elem? irqs irq)
    get_spec_object obj_id

  unfoldable pub create_irq_caps : Exec (Unit {0})
  create_irq_caps = for_irqs (λ irq. do
    free_slot ← get_free_slot
    obj ← irq_object irq
    create_irq_cap irq obj free_slot
    next_free_slot p)

  unfoldable pub mint_cap : (object_id free_slot badge : ℕ) → Exec (Unit {0})
  mint_cap object_id free_slot badge = do
    let root = p.cap_init_thread_cnode
    let depth = word_size p
    src ← orig_caps p object_id
    invoke_checked p (
        Invocation.cnode_mint root (through_int depth free_slot) depth root (through_int depth src)
          depth p.all_rights badge)

  -- the copy of the cap in slot `src` to slot `dest` of the loader's CNode
  unfoldable pub duplicate_call : (dest src : ℕ) → Invocation
  duplicate_call dest src =
      let root = p.cap_init_thread_cnode in
      Invocation.cnode_copy root dest (word_size p) root src (word_size p) p.all_rights

  unfoldable pub duplicate_cap : (object_id free_slot : ℕ) → Exec (Unit {0})
  duplicate_cap object_id free_slot = do
    let dest_index = through_int (word_size p) free_slot
    src ← orig_caps p object_id
    invoke_checked p (duplicate_call dest_index (through_int (word_size p) src))
    add_sel4_cap p object_id CapTable.dup dest_index

  -- a body for each object of the specification, with its number
  unfoldable pub for_objects : (ℕ → Object → Exec (Unit {0})) → Exec (Unit {0})
  for_objects body = do
    num ← gets (λ w. length w.spec.objects)
    for_range num 0 (λ obj_id. do obj ← get_spec_object obj_id; body obj_id obj)

  unfoldable pub is_duplicated : ObjectType → Bool
  is_duplicated t = is_type t ObjectType.cnode || is_type t ObjectType.tcb

  unfoldable pub duplicate_caps : Exec (Unit {0})
  duplicate_caps = for_objects (λ obj_id obj. when (is_duplicated obj.type) (do
    free_slot ← get_free_slot
    duplicate_cap obj_id (through_int (word_size p) free_slot)
    next_free_slot p))

  -- for (i = 0; i <= end - start; i++): the region's end is left out of it, and the loop goes there.
  unfoldable pub create_sched_ctrl_caps : BootInfo → Exec (Unit {0})
  create_sched_ctrl_caps bi = when p.kernel_mcs (
      for_range (wrap_sub (word_size p) bi.schedcontrol.end bi.schedcontrol.start + 1) 0 (λ i.
        add_sel4_cap p i CapTable.sched_ctrl (wrap (word_size p) (i + bi.schedcontrol.start))))

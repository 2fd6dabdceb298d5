-- ===== src/Loader/Irq.antt =====
-- Binding interrupt handlers to notifications, assigning ASIDs, and starting the threads.
pub mod Start
use capdl.Base.{ℕ, Bool, not, ◌&&◌, ◌||◌, ltb, ◌==◌, if◌then◌else◌}
use capdl.Base.Words.{through_int}
use capdl.Spec.{Cap}
use capdl.Spec.Types.{ObjectType, is_type}
use capdl.Spec.Access.{num_slots, get_slot}
use capdl.Platform.{Platform, Arch, word_size, is_x86, is_arm}
use capdl.Platform.Calls.{Invocation}
use capdl.Exec.{Exec, pure, ◌>>=◌, ◌>>◌, when, fatal_if, assert, deref, invoke_checked}
use capdl.Loader.Slots.{get_free_slot, next_free_slot, orig_caps, irq_caps, get_cap_data}
use capdl.Loader.Caps.{for_irqs, for_objects, irq_object, mint_cap}

module _ (p : Platform) where
  unfoldable pub is_irq_type : ObjectType → Bool
  is_irq_type t =
      is_type t ObjectType.interrupt
      || is_x86 p.arch
        && (is_type t ObjectType.ioapic_interrupt || is_type t ObjectType.msi_interrupt)
      || is_arm p.arch && is_type t ObjectType.arm_interrupt

  -- the slot that holds the notification: a badged copy of the cap, or the original
  unfoldable pub notification_slot : Cap → Exec ℕ
  notification_slot endpoint_cap = do
    badge ← get_cap_data p endpoint_cap.cap_data
    let unbadged = orig_caps p endpoint_cap.obj_id
    let badged = (do
      endpoint_cptr ← get_free_slot
      mint_cap p endpoint_cap.obj_id (through_int (word_size p) endpoint_cptr) badge
      next_free_slot p
      pure endpoint_cptr)
    if badge == 0 then unbadged else badged

  unfoldable pub init_irq : (irq_no : ℕ) → Exec (Unit {0})
  unfolding notification_slot
  init_irq irq_no = do
    irq_handler_cap ← irq_caps p irq_no
    cdl_irq ← irq_object p irq_no
    assert (is_irq_type cdl_irq.type)
    fatal_if (not (cdl_irq.size_bits == 0))
    fatal_if (ltb 1 (num_slots cdl_irq))
    when (num_slots cdl_irq == 1) (do
      slot ← deref (get_slot cdl_irq 0)
      endpoint_cptr ← notification_slot slot.cap
      invoke_checked p (Invocation.irq_handler_set_notification irq_handler_cap endpoint_cptr))

  unfoldable pub init_irqs : Exec (Unit {0})
  unfolding init_irq
  init_irqs = for_irqs p init_irq

  unfoldable pub set_asid : (page : ℕ) → Exec (Unit {0})
  set_asid page = do
    sel4_page ← orig_caps p page
    invoke_checked p (Invocation.asid_pool_assign p.cap_init_thread_asid_pool sel4_page)

  -- CDL_TOP_LEVEL_PD
  unfoldable pub top_level_pd : ObjectType
  top_level_pd = elim p.arch [
    | Arch.aarch64 ↦
        if p.arm_hypervisor_support && p.arm_pa_size_bits_40 then ObjectType.pud else ObjectType.pgd
    | Arch.x86_64 ↦ ObjectType.pml4
    | Arch.riscv32 ↦ ObjectType.pt_root_alias
    | Arch.riscv64 ↦ ObjectType.pt_root_alias
    | _ ↦ ObjectType.pd
  ]

  unfoldable pub init_pd_asids : Exec (Unit {0})
  unfolding set_asid
  init_pd_asids =
      for_objects p (λ obj_id obj. when (is_type obj.type top_level_pd) (set_asid obj_id))

  unfoldable pub start_threads : Exec (Unit {0})
  start_threads = for_objects p (λ obj_id obj.
      when (is_type obj.type ObjectType.tcb && obj.tcb_extra.resume)
        (do tcb ← orig_caps p obj_id; invoke_checked p (Invocation.tcb_resume tcb)))

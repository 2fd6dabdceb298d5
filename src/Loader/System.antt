-- ===== src/Loader/System.antt =====
-- `mark_vspace_roots`, `init_system` and `main` of main.c.
use capdl.Base.{ℕ, zero, suc, List, [], ◌∷◌}
use capdl.Spec.{Object}
use capdl.Spec.Types.{ObjectType, is_type}
use capdl.Spec.Access.{tcb_vtable_slot}
use capdl.Platform.{Platform, BootInfo, is_riscv}
use capdl.Platform.Calls.{Invocation}
use capdl.Exec.{Exec, pure, ◌>>=◌, ◌>>◌, modify, when, deref, invoke}
use capdl.Loader.Slots.{get_spec_object}
use capdl.Loader.Lookup.{get_cap_at}
use capdl.Loader.Bootinfo.{
  cache_extended_bootinfo_headers, init_copy_addr, init_copy_frame, parse_bootinfo,
}
use capdl.Loader.Create.{create_objects}
use capdl.Loader.Caps.{for_objects, create_irq_caps, create_sched_ctrl_caps, duplicate_caps}
use capdl.Loader.Irq.{init_irqs, init_pd_asids, start_threads}
use capdl.Loader.Frames.{init_frames}
use capdl.Loader.Vspace.Legacy.{init_vspace}
use capdl.Loader.Tcb.{init_scs}
use capdl.Loader.Registers.{init_tcbs}
use capdl.Loader.Cspace.{init_cspace}

unfoldable pub set_type_at : List Object → ℕ → ObjectType → List Object
set_type_at [] i t = []
set_type_at (obj ∷ rest) zero t = record obj { type = t } ∷ rest
set_type_at (obj ∷ rest) (suc i) t = obj ∷ set_type_at rest i t

module _ (p : Platform) where
  unfoldable pub mark_vspace_roots : Exec (Unit {0})
  unfolding set_type_at
  mark_vspace_roots = for_objects p (λ obj_id obj. when (is_type obj.type ObjectType.tcb) (do
    cap ← deref (get_cap_at obj tcb_vtable_slot)
    root ← get_spec_object cap.obj_id
    modify (λ w. record w {
      spec = record w.spec {
        objects = set_type_at w.spec.objects cap.obj_id ObjectType.pt_root_alias;
      };
    })))

  -- everything before the threads are started; the two counts of rounds bound the walk over the
  -- extended headers and the allocations from a device untyped
  unfoldable pub set_up : (header_fuel device_fuel : ℕ) → BootInfo → Exec (Unit {0})
  unfolding mark_vspace_roots
  set_up header_fuel device_fuel bootinfo = do
    cache_extended_bootinfo_headers p bootinfo header_fuel
    init_copy_addr p bootinfo
    init_copy_frame p bootinfo
    parse_bootinfo p bootinfo
    create_objects p device_fuel bootinfo
    when (is_riscv p.arch) mark_vspace_roots
    create_irq_caps p
    when p.kernel_mcs (create_sched_ctrl_caps p bootinfo)
    duplicate_caps p
    init_irqs p
    init_pd_asids p
    init_frames p
    init_vspace p
    init_scs p
    init_tcbs p
    init_cspace p

  unfoldable pub init_system : (header_fuel device_fuel : ℕ) → BootInfo → Exec (Unit {0})
  unfolding set_up
  init_system header_fuel device_fuel bootinfo = do
    set_up header_fuel device_fuel bootinfo
    start_threads p

  unfoldable pub main : (header_fuel device_fuel : ℕ) → BootInfo → Exec (Unit {0})
  unfolding init_system
  main header_fuel device_fuel bootinfo = do
    init_system header_fuel device_fuel bootinfo
    invoke p (Invocation.tcb_suspend p.cap_init_thread_tcb)
    pure tt

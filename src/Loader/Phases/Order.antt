-- ===== src/Loader/Phases/Order.antt =====
-- What `init_system` does, in order.
use mathlib.Core.List.{append-nil}
use capdl.Base.{[], ◌∙◌, ap, sym, ℕ, ◌≡◌, ◌++◌, List}
use capdl.Base.All.{All}
use capdl.Platform.{Platform, BootInfo}
use capdl.Platform.Calls.{Invocation, Effect, call}
use capdl.Exec.{World, Exec, Outcome, ok, halt, world, and_then}
use capdl.Exec.Emits.{Emits, Extends, emits_rules}
use capdl.Loader.Irq.{start_threads}
use capdl.Loader.Caps.{for_objects}
use capdl.Loader.Slots.{get_spec_object, orig_caps}
use capdl.Loader.System.{set_up, init_system}
use capdl.Loader.Phases.Basics.{
  IsSetup, Setup, Setup-when, Setup-parse_bootinfo, Setup-init_copy_addr,
  Setup-cache_extended_bootinfo_headers, Setup-init_copy_frame, Setup-create_irq_caps,
  Setup-create_sched_ctrl_caps, Setup-duplicate_caps,
}
use capdl.Loader.Phases.Creation.{Setup-create_objects}
use capdl.Loader.Phases.Spaces.{Setup-init_vspace, Setup-init_cspace}
use capdl.Loader.Phases.Threads.{
  Setup-init_irqs, Setup-init_pd_asids, Setup-init_frames, Setup-init_scs, Setup-init_tcbs,
  Setup-mark_vspace_roots,
}

-- a call that resumes a thread
abbrev pub IsResume : Effect → Type 0
IsResume (call (Invocation.tcb_resume _)) = Unit
IsResume _ = ⊥

module _ (p : Platform) where
  pub Setup-set_up : (headers dev : ℕ) (bi : BootInfo) → Setup (set_up p headers dev bi)
  unfolding set_up
  Setup-set_up headers dev bi =
      search
        (
          emits_rules, Setup-when, Setup-cache_extended_bootinfo_headers, Setup-init_copy_addr,
          Setup-init_copy_frame, Setup-parse_bootinfo, Setup-create_objects,
          Setup-mark_vspace_roots, Setup-create_irq_caps, Setup-create_sched_ctrl_caps,
          Setup-duplicate_caps, Setup-init_irqs, Setup-init_pd_asids, Setup-init_frames,
          Setup-init_vspace, Setup-init_scs, Setup-init_tcbs, Setup-init_cspace,
        )
        depth 24

  Emits-start_threads : Emits IsResume (start_threads p)
  unfolding start_threads for_objects orig_caps get_spec_object
  Emits-start_threads = search (emits_rules, tt) depth 12

-- The trace of `v` is that of `w`, then what sets up the system, then resumed threads.
abbrev pub ResumesLast : World → World → Type 0
ResumesLast w v =
    (before : List Effect) × (after : List Effect) × (v.trace ≡ w.trace ++ before ++ after)
    × All IsSetup before
    × All IsResume after

resumes_last :
    {w : World} (r : Outcome (Unit {0})) (k : Exec (Unit {0}))
    → Extends IsSetup w (world r)
    → Emits IsResume k
    → ResumesLast w (world (and_then r λ _. k))
resumes_last {w} (ok a v) k s h =
    let e = h.at v in (s.added, e.added, e.trace ∙ ap (λ t. t ++ e.added) s.trace, s.each, e.each)
resumes_last {w} (halt x v) k s h =
    (s.added, [], s.trace ∙ sym (append-nil (w.trace ++ s.added)), s.each, tt)

-- No thread runs before the system is set up. From any state, on any kernel and whether or not it
-- gets to the end, all that `init_system` does is to set up, where it neither resumes a thread, also not
-- by the resume flag of a write of its registers, nor suspends one, nor mutates a cap, and then to
-- resume threads and nothing else.
pub init_system-ResumesLast :
    (p : Platform) (headers dev : ℕ) (bi : BootInfo) (w : World)
    → ResumesLast w (world (init_system p headers dev bi w))
unfolding init_system
init_system-ResumesLast p headers dev bi w =
    resumes_last (set_up p headers dev bi w) (start_threads p)
      ((Setup-set_up p headers dev bi).at w) (Emits-start_threads p)

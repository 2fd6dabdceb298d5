-- ===== src/Loader/Irq/Start.antt =====
-- `start_threads` of main.c: which threads are resumed, and in which order.
use mathlib.Core.List.{append-nil, append_assoc}
use capdl.Base.{
  ℕ, ◌+◌, ◌≤◌, ◌≡◌, refl, Bool, ◌&&◌, List, [], ◌∷◌, ◌++◌, length, get_elem?_lt, arith,
  if◌then◌else◌, ◌∙◌, sym, ap, lt→ltb, Bool-cases, inl, inr,
}
use capdl.Spec.{Object}
use capdl.Spec.Types.{ObjectType, is_type}
use capdl.Platform.{Platform}
use capdl.Platform.Calls.{Invocation, Effect, call}
use capdl.Exec.{World, Exec, ok, when, invoke_checked, invoke, ◌>>=◌}
use capdl.Loader.Slots.{orig_caps}
use capdl.Loader.Caps.Each.{fold_objects, Steps, for_objects-fold}
use capdl.Loader.Irq.{start_threads}

-- a thread that the specification wants running
abbrev pub is_started : Object → Bool
is_started o = is_type o.type ObjectType.tcb && o.tcb_extra.resume

-- the calls that resume them, in the order of the objects, which are numbered from `i` on
unfoldable pub resumes : (slot : ℕ → ℕ) → List Object → (i : ℕ) → List Effect
resumes slot [] i = []
resumes slot (o ∷ os) i =
    let rest = resumes slot os (i + 1) in
    if is_started o then call (Invocation.tcb_resume (slot i)) ∷ rest else rest

-- the kernel resumes every thread that it is asked to
pub record AcceptsResume (p : Platform) : Type 0 where
  pub accepts : (t : List Effect) (slot : ℕ) → (p.kernel t (Invocation.tcb_resume slot)).error ≡ 0

module _ (p : Platform) (accepts : AcceptsResume p) (w : World)
    (room : length w.spec.objects ≤ p.max_objects) where
  abbrev resumed_one : ℕ → World → World
  resumed_one i v = record v {
    trace = v.trace ++ call (Invocation.tcb_resume (v.capdl_to_sel4_orig i)) ∷ [];
  }

  resumed : ℕ → Object → World → World
  resumed i o v = if is_started o then resumed_one i v else v

  abbrev body : ℕ → Object → Exec (Unit {0})
  body obj_id o =
      when (is_started o)
        (orig_caps p obj_id >>= λ tcb. invoke_checked p (Invocation.tcb_resume tcb))

  start-Steps : Steps w.spec.objects (λ _ v. v.spec.objects ≡ w.spec.objects) body resumed
  unfolding resumed orig_caps invoke_checked invoke
  start-Steps = record {
    reads = λ i v h. h;
    runs = λ i o v here h. elim (Bool-cases (is_started o)) [
      | inl started ↦
          let inside =
            lt→ltb i p.max_objects (omega (arith, get_elem?_lt w.spec.objects i o here)) in
          simp (started, inside, accepts.accepts v.trace (v.capdl_to_sel4_orig i))
      | inr skipped ↦ simp skipped
    ];
    keeps = λ i o v here h. elim (Bool-cases (is_started o)) [
      | inl started ↦ simp started h
      | inr skipped ↦ simp skipped h
    ];
  }

  fold-resumed :
      (os : List Object) (i : ℕ) (v : World)
      → fold_objects resumed os i v
        ≡ record v { trace = v.trace ++ resumes v.capdl_to_sel4_orig os i }
  unfolding resumed fold_objects resumes
  fold-resumed [] i v = ap (λ t. record v { trace = t }) (sym (append-nil v.trace))
  fold-resumed (o ∷ os) i v = elim (Bool-cases (is_started o)) [
    | inl started ↦ simp started (
        fold-resumed os (i + 1) (resumed_one i v)
        ∙ ap (λ t. record v { trace = t })
            (append_assoc v.trace (call (Invocation.tcb_resume (v.capdl_to_sel4_orig i)) ∷ [])
              (resumes v.capdl_to_sel4_orig os (i + 1))))
    | inr skipped ↦ simp skipped (fold-resumed os (i + 1) v)
  ]

-- Where the kernel accepts to resume threads, and there is an entry in the table for every object,
-- `start_threads` succeeds; it resumes exactly the threads that the specification wants running, in the
-- order of their numbers, each by the slot that the table has for it, and changes no variable.
pub start_threads_lem :
    (p : Platform) (w : World)
    → AcceptsResume p
    → length w.spec.objects ≤ p.max_objects
    → start_threads p w
      ≡ ok tt (record w { trace = w.trace ++ resumes w.capdl_to_sel4_orig w.spec.objects 0 })
unfolding start_threads
start_threads_lem p w accepts room =
    (for_objects-fold w.spec.objects _ (body p accepts w room) (resumed p accepts w room)
      (start-Steps p accepts w room) p w refl).0
    ∙ ap (ok tt) (fold-resumed p accepts w room w.spec.objects 0 w)

-- ===== src/Loader/Caps/Each.antt =====
-- `for_objects` as a fold over the objects, for bodies whose effect on the variables is known.
use capdl.Base.{ℕ, suc, ◌+◌, ◌≡◌, refl, some, List, [], ◌∷◌, length, get_elem?, arith, ◌∙◌, sym, ap}
use capdl.Spec.{Object}
use capdl.Platform.{Platform}
use capdl.Exec.{World, Exec, ok, for_range, ◌>>=◌}
use capdl.Loader.Slots.{get_spec_object}
use capdl.Loader.Caps.{for_objects}

-- the variables after `f` for each object, numbered from `i` on
unfoldable pub fold_objects : (ℕ → Object → World → World) → List Object → (i : ℕ) → World → World
fold_objects f [] i w = w
fold_objects f (o ∷ os) i w = fold_objects f os (i + 1) (f i o w)

-- `body` does `f`, from states with `I`, which say how many objects are behind.
pub record Steps (objects : List Object) (I : ℕ → World → Type 0)
    (body : ℕ → Object → Exec (Unit {0})) (f : ℕ → Object → World → World) : Type 0 where
  pub reads : (i : ℕ) (w : World) → I i w → w.spec.objects ≡ objects
  pub runs :
      (i : ℕ) (o : Object) (w : World)
      → get_elem? objects i ≡ some o
      → I i w
      → body i o w ≡ ok tt (f i o w)
  pub keeps :
      (i : ℕ) (o : Object) (w : World) → get_elem? objects i ≡ some o → I i w → I (i + 1) (f i o w)

module _ (objects : List Object) (I : ℕ → World → Type 0) (body : ℕ → Object → Exec (Unit {0}))
    (f : ℕ → Object → World → World) (s : Steps objects I body f) where
  fold_from :
      (os : List Object) (i : ℕ) (w : World)
      → ((j : ℕ) → get_elem? os j ≡ get_elem? objects (i + j))
      → I i w
      → (for_range (length os) i (λ j. get_spec_object j >>= λ o. body j o) w
          ≡ ok tt (fold_objects f os i w))
        × I (i + length os) (fold_objects f os i w)
  unfolding for_range get_spec_object fold_objects
  fold_from [] i w at h = let none_left : i + 0 ≡ i = omega arith in (refl, rw none_left h)
  fold_from (o ∷ os) i w at h =
      let start : i ≡ i + 0 = omega arith in
      let here : get_elem? objects i ≡ some o = ap (get_elem? objects) start ∙ sym (at 0) in
      let further : (j : ℕ) → i + suc j ≡ i + 1 + j = λ j. omega arith in
      let (run, end) =
        fold_from os (i + 1) (f i o w) (λ j. at (suc j) ∙ ap (get_elem? objects) (further j))
          (s.keeps i o w here h) in
      (simp (s.reads i w h, here, s.runs i o w here h) run, rw (further (length os)) end)

  pub for_objects-fold :
      (p : Platform) (w : World)
      → I 0 w
      → (for_objects p body w ≡ ok tt (fold_objects f objects 0 w))
        × I (length objects) (fold_objects f objects 0 w)
  unfolding for_objects
  for_objects-fold p w h =
      let same : (j : ℕ) → j ≡ 0 + j = λ j. omega arith in
      let (run, end) = fold_from objects 0 w (λ j. ap (get_elem? objects) (same j)) h in
      (simp (s.reads 0 w h) run, rw (same (length objects)) end)

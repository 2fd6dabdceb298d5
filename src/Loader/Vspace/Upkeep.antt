-- ===== src/Loader/Vspace/Upkeep.antt =====
-- The cache maintenance of `map_page` on ARM, as the calls that it makes.
use mathlib.Core.List.{append-nil, append_assoc}
use capdl.Base.{
  ℕ, ◌-◌, ◌^◌, ◌≡◌, sym, ap, ◌∙◌, Bool, true, false, ◌&&◌, some, List, [], ◌∷◌, ◌++◌, get_elem?,
  leb, ◌==◌, if◌then◌else◌,
}
use capdl.Base.Words.{wrap}
use capdl.Spec.{Object}
use capdl.Spec.Access.{CapRights, obj_paddr}
use capdl.Platform.{Platform, word_size}
use capdl.Platform.Calls.{Invocation, Effect, call}
use capdl.Exec.{World, ok, and_then, ◌>>◌, when, invoke, invoke_checked}
use capdl.Loader.Slots.{get_spec_object}
use capdl.Loader.Vspace.{clean_frame}
use Prim.Native.Nat.{bit_and}

-- the kernel cleans and unifies what it is asked to
pub record AcceptsUpkeep (p : Platform) : Type 0 where
  pub cleans :
      (t : List Effect) (cap from to : ℕ)
      → (p.kernel t (Invocation.page_clean_invalidate_data cap from to)).error ≡ 0
  pub unifies :
      (t : List Effect) (cap from to : ℕ)
      → (p.kernel t (Invocation.page_unify_instruction cap from to)).error ≡ 0

-- the effect of a call that is made where `b` holds
abbrev pub made : Bool → Invocation → List Effect
made b i = if b then call i ∷ [] else []

-- What is asked of the kernel for the frame `page`, mapped with `cap` from the world `w` on: where it is,
-- and, for a frame in the first region of memory, to clean it where it is mapped uncached and is not at
-- an address that the specification chose, and to unify it where it may be executed.
abbrev pub upkeep :
    Platform → (page : Object) → (cap : ℕ) → (grant : Bool) → (attribs : ℕ) → World → List Effect
upkeep p page cap grant attribs w =
    let addr = p.kernel w.trace (Invocation.page_get_address cap) in
    let inside = leb p.memory_region_start addr.paddr && leb addr.paddr p.memory_region_end in
    let uncached = bit_and attribs p.page_cacheable == 0 && obj_paddr page == 0 in
    let to = wrap (word_size p) (2 ^ page.size_bits) in
    call (Invocation.page_get_address cap)
      ∷ made (inside && uncached) (Invocation.page_clean_invalidate_data cap 0 to)
    ++ made (inside && grant) (Invocation.page_unify_instruction cap 0 to)

abbrev pub after : World → List Effect → World
after w t = record w { trace = w.trace ++ t }

module _ (p : Platform) where
  when-made :
      (b : Bool) (i : Invocation) (w : World)
      → (p.kernel w.trace i).error ≡ 0
      → when b (invoke_checked p i) w ≡ ok tt (after w (made b i))
  unfolding invoke_checked invoke
  when-made true i w h = simp h
  when-made false i w h = ap (λ t. ok tt (record w { trace = t })) (sym (append-nil w.trace))

  when_both :
      (inside a b : Bool) (i j : Invocation) (w : World)
      → ((t : List Effect) → (p.kernel t i).error ≡ 0)
      → ((t : List Effect) → (p.kernel t j).error ≡ 0)
      → when inside (when a (invoke_checked p i) >> when b (invoke_checked p j)) w
        ≡ ok tt (after w (made (inside && a) i ++ made (inside && b) j))
  when_both true a b i j w hi hj =
      ap (λ r. and_then r λ _. when b (invoke_checked p j)) (when-made a i w (hi w.trace))
      ∙ when-made b j (after w (made a i)) (hj (w.trace ++ made a i))
      ∙ ap (λ t. ok tt (record w { trace = t })) (append_assoc w.trace (made a i) (made b j))
  when_both false a b i j w hi hj =
      ap (λ t. ok tt (record w { trace = t })) (sym (append-nil w.trace))

  pub clean_frame-upkeep :
      (page cap : ℕ) (rights : CapRights) (attribs : ℕ) (obj : Object) (w : World)
      → AcceptsUpkeep p
      → get_elem? w.spec.objects page ≡ some obj
      → leb obj.size_bits (word_size p - 1) ≡ true
      → clean_frame p page cap rights attribs w
        ≡ ok tt (after w (upkeep p obj cap rights.grant attribs w))
  unfolding clean_frame get_spec_object invoke
  clean_frame-upkeep page cap rights attribs obj w accepts here fits =
      let ask = call (Invocation.page_get_address cap) in
      let addr = p.kernel w.trace (Invocation.page_get_address cap) in
      let to = wrap (word_size p) (2 ^ obj.size_bits) in
      let clean = Invocation.page_clean_invalidate_data cap 0 to in
      let unify = Invocation.page_unify_instruction cap 0 to in
      let inside = leb p.memory_region_start addr.paddr && leb addr.paddr p.memory_region_end in
      let uncached = bit_and attribs p.page_cacheable == 0 && obj_paddr obj == 0 in
      simp (here, fits)
        (when_both inside uncached rights.grant clean unify (after w (ask ∷ []))
            (λ t. accepts.cleans t cap 0 to) (λ t. accepts.unifies t cap 0 to)
          ∙ ap (λ t. ok tt (record w { trace = t }))
              (append_assoc w.trace (ask ∷ [])
                (made (inside && uncached) clean ++ made (inside && rights.grant) unify)))

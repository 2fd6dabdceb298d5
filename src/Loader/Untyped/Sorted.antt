-- ===== src/Loader/Untyped/Sorted.antt =====
-- `sort_untypeds` as a whole.
use mathlib.Core.List.{Perm, perm_middle}
use mathlib.Core.List.Perm
use capdl.Base.{
  ℕ, zero, suc, ◌+◌, ◌-◌, ◌≤◌, ◌<◌, ◌^◌, ◌≡◌, refl, true, false, some, List, [], ◌∷◌, ◌++◌, length,
  arith, Bool-cases, inl, inr, ◌∙◌, ap, sym,
}
use mathlib.Core.Path.{ap₂}
use native.Mathlib.Decide.{dec_lt}
use capdl.Base.Words.{wrap, wrap_sub, u32, u32_small}
use capdl.Platform.{Platform, BootInfo, UntypedDesc, word_size}
use capdl.Exec.{World, ok}
use capdl.Loader.Untyped.{Placed, start_indices, sorted_untypeds, sort_untypeds}
use capdl.Loader.Untyped.Classes.{
  is_of_size, size_count, slots_of_size, slots_by_size, normal_slots, num_normal, SizesInRange,
  count_sizes_lem, sum_above, sum_above_self, sum_above_step, sum_above_lt, start_indices_lem,
  num_normal_lem, is_of_size_self, not_of_size, slots_of_size_hit, slots_of_size_miss,
  is_of_size_ne,
}
use capdl.Loader.Untyped.Placing.{slice, slice-append, HasRoom, place_untypeds_lem}

module _ (w max start : ℕ) (us : List UntypedDesc) where
  abbrev counts : ℕ → ℕ
  counts s = size_count s us

  -- what the second loop leaves in `c` gives every size its place
  HasRoom-starts :
      (c : ℕ → ℕ)
      → ((s : ℕ) → 0 < s → s ≤ w - 1 → c s ≡ sum_above counts (w - 1) s)
      → sum_above counts (w - 1) 0 ≤ max
      → HasRoom w max start c us
  HasRoom-starts c h fits = record {
    fits = λ s p q.
        omega (arith, h s p (omega arith), sum_above_lt counts (w - 1) 0 s p (omega arith));
    apart = λ s t p q r. inr (
        omega (
          arith,
          h s p (omega arith),
          h t (omega arith) (omega arith),
          sum_above_lt counts (w - 1) s t q (omega arith),
        ));
  }

  -- the places in a row, from size `s` down
  slice_by_size :
      (a c : ℕ → ℕ) (s : ℕ)
      → ((t : ℕ) → 0 < t → t ≤ w - 1 → c t ≡ sum_above counts (w - 1) t)
      → ((t : ℕ) → 0 < t → t < w → slice a (c t) (size_count t us) ≡ slots_of_size w start t 0 us)
      → s ≤ w - 1
      → slice a (sum_above counts (w - 1) s) (sum_above counts s 0) ≡ slots_by_size w start s 0 us
  unfolding slots_by_size
  slice_by_size a c zero h places q = unfold sum_above slice in refl
  slice_by_size a c (suc s) h places q =
      let top = sum_above counts (w - 1) (suc s) in
      let n = counts (suc s) in
      let below = sum_above counts s 0 in
      let e1 : sum_above counts (suc s) 0 ≡ n + below = unfold sum_above in ground arith in
      let e2 : top + n ≡ sum_above counts (w - 1) s =
        omega (arith, sum_above_step counts (w - 1) s q) in
      let this : slice a top n ≡ slots_of_size w start (suc s) 0 us =
        ap (λ k. slice a k n) (sym (h (suc s) (omega arith) q))
        ∙ places (suc s) (omega arith) (omega arith) in
      let rest : slice a (top + n) below ≡ slots_by_size w start s 0 us =
        ap (λ k. slice a k below) e2 ∙ slice_by_size a c s h places (omega arith) in
      ap (slice a top) e1 ∙ slice-append a top n below ∙ ap₂ ◌++◌ this rest

  -- the three loops find every untyped and put the largest in front
  sorted_untypeds_lem :
      (cptrs : ℕ → ℕ)
      → SizesInRange w us
      → num_normal us ≤ max
      → (r : Placed) × (sorted_untypeds w max start (length us) us cptrs ≡ some r)
        × (r.num ≡ num_normal us)
        × (slice r.cptrs 0 (num_normal us) ≡ slots_by_size w start (w - 1) 0 us)
  unfolding sorted_untypeds
  sorted_untypeds_lem cptrs sizes fits =
      let (count, counting, is_count) = count_sizes_lem w us (λ _. 0) sizes in
      let c = start_indices (w - 1) 0 count in
      let starts : (t : ℕ) → 0 < t → t ≤ w - 1 → c t ≡ sum_above counts (w - 1) t = λ t p q.
        start_indices_lem counts (w - 1) 0 count t (λ u _. is_count u ∙ omega arith) p q
        ∙ omega arith in
      let total = num_normal_lem w us sizes in
      let before : Placed = record { cptrs = cptrs; num = 0 } in
      let (r, run, filled) =
        place_untypeds_lem w max start us 0 c before sizes
          (HasRoom-starts c starts (omega (arith, total))) in
      let nothing_above : sum_above counts (w - 1) (w - 1) ≡ 0 =
        sum_above_self counts (w - 1) (w - 1) (omega arith) in
      (
        r,
        rw (counting, sorted_untypeds) run,
        filled.counted ∙ omega arith,
        ap₂ (slice r.cptrs) (sym nothing_above) total
            ∙ slice_by_size r.cptrs c (w - 1) starts filled.places (omega arith),
      )

module _ (w start : ℕ) (d : UntypedDesc) (rest : List UntypedDesc) where
  slots_by_size_skip :
      (s i : ℕ)
      → ((t : ℕ) → 0 < t → t ≤ s → is_of_size t d ≡ false)
      → slots_by_size w start s i (d ∷ rest) ≡ slots_by_size w start s (i + 1) rest
  unfolding slots_by_size
  slots_by_size_skip zero i h = refl
  slots_by_size_skip (suc s) i h =
      ap₂ ◌++◌ (slots_of_size_miss w start (suc s) i d rest (h (suc s) (omega arith) (omega arith)))
        (slots_by_size_skip s i λ t p q. h t p (omega arith))

  slots_by_size_add :
      (s i : ℕ)
      → d.is_device ≡ false
      → 0 < d.size_bits
      → d.size_bits ≤ s
      → Perm
          (wrap w (start + i) ∷ slots_by_size w start s (i + 1) rest)
          (slots_by_size w start s i (d ∷ rest))
  unfolding slots_by_size
  slots_by_size_add zero i n p q = absurd (omega arith)
  slots_by_size_add (suc s) i n p q = elim (dec_lt d.size_bits (suc s)) [
    | yes below ↦
        let here = slots_of_size w start (suc s) (i + 1) rest in
        rw (slots_of_size_miss w start (suc s) i d rest (is_of_size_ne d (suc s) (omega arith))) (
          Perm.trans (Perm.symm (perm_middle here (slots_by_size w start s (i + 1) rest)))
            (Perm.append_left here (slots_by_size_add s i n p (omega arith))))
    | no last ↦
        let same : d.size_bits ≡ suc s = omega arith in
        let hit : is_of_size (suc s) d ≡ true = rw (← same) (is_of_size_self d n) in
        rw
          (
            slots_of_size_hit w start (suc s) i d rest hit,
            slots_by_size_skip s i (λ t a b. is_of_size_ne d t (omega arith)),
          )
          (Perm.refl (wrap w (start + i) ∷ slots_by_size w start (suc s) (i + 1) rest))
  ]

module _ (w start : ℕ) where
  slots_by_size-nil : (s i : ℕ) → slots_by_size w start s i [] ≡ []
  unfolding slots_by_size slots_of_size
  slots_by_size-nil zero i = refl
  slots_by_size-nil (suc s) i = slots_by_size-nil s i

  -- Ordered by size, the slots are a permutation of those in the order of the boot information.
  slots_by_size-perm :
      (us : List UntypedDesc) (i : ℕ)
      → SizesInRange w us
      → Perm (slots_by_size w start (w - 1) i us) (normal_slots w start i us)
  unfolding normal_slots
  slots_by_size-perm [] i h = rw (slots_by_size-nil (w - 1) i) (Perm.refl [])
  slots_by_size-perm (d ∷ rest) i h = elim (Bool-cases d.is_device) [
    | inl device ↦
        rw (slots_by_size_skip w start d rest (w - 1) i (λ t p q. not_of_size d t device), device)
          (slots_by_size-perm rest (i + 1) h.1)
    | inr normal ↦
        let (pos, small) = h.0 normal in
        simp normal (
          Perm.trans
            (Perm.symm (slots_by_size_add w start d rest (w - 1) i normal pos (omega arith)))
            (Perm.cons (wrap w (start + i)) (slots_by_size-perm rest (i + 1) h.1)))
  ]

-- With untypeds of sizes from 1 to the word size less one, the length of the list that the region of
-- slots says, an array with room for those that are not device memory, and fewer than 2 ^ 32 of them:
-- `sort_untypeds` succeeds, returns how many they are, changes no variable but `untyped_cptrs`, and
-- leaves there their slots, from the largest size to the smallest, each size in the order given, which
-- is a permutation of their slots in the order given.
pub sort_untypeds_sorts :
    (p : Platform) (bi : BootInfo) (wd : World)
    → SizesInRange (word_size p) bi.untyped_list
    → length bi.untyped_list ≡ wrap_sub (word_size p) bi.untyped.end bi.untyped.start
    → num_normal bi.untyped_list ≤ p.max_untyped_caps
    → num_normal bi.untyped_list < 2 ^ 32
    → (a : ℕ → ℕ) × (sort_untypeds p bi wd
        ≡ ok (num_normal bi.untyped_list) (record wd { untyped_cptrs = a }))
      × (slice a 0 (num_normal bi.untyped_list)
          ≡ slots_by_size (word_size p) bi.untyped.start (word_size p - 1) 0 bi.untyped_list)
      × Perm
          (slice a 0 (num_normal bi.untyped_list))
          (normal_slots (word_size p) bi.untyped.start 0 bi.untyped_list)
unfolding sort_untypeds
sort_untypeds_sorts p bi wd sizes region fits small =
    let (r, run, num, sorted) =
      sorted_untypeds_lem (word_size p) p.max_untyped_caps bi.untyped.start bi.untyped_list
        wd.untyped_cptrs sizes fits in
    let ran : sorted_untypeds (word_size p) p.max_untyped_caps bi.untyped.start
          (wrap_sub (word_size p) bi.untyped.end bi.untyped.start) bi.untyped_list wd.untyped_cptrs
        ≡ some r =
      rw (← region) run in
    (
      r.cptrs,
      rw ran
          (ap (λ n. ok n (record wd { untyped_cptrs = r.cptrs })) (ap u32 num ∙ u32_small _ small)),
      sorted,
      rw sorted (slots_by_size-perm (word_size p) bi.untyped.start bi.untyped_list 0 sizes),
    )

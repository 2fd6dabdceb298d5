-- ===== src/Loader/Untyped.antt =====
-- `sort_untypeds` of main.c: a counting sort of the untypeds that are not device memory, from the
-- largest to the smallest. An array is a function; an index past its end is `none`, undefined in C.
pub mod Classes
pub mod Placing
pub mod Sorted
use capdl.Base.{ℕ, zero, suc, ◌+◌, ◌-◌, ◌&&◌, Option, none, some, List, [], ◌∷◌, ltb, if◌then◌else◌}
use capdl.Base.Words.{wrap, wrap_sub, u32}
use capdl.Platform.{Platform, BootInfo, UntypedDesc, word_size}
use capdl.Exec.{Exec, pure, ◌>>=◌, ◌>>◌, gets, modify, deref}
use capdl.Loader.Slots.{update}

-- The untypeds are read in order, so each loop walks the list from `untyped_index` on; `rounds` is
-- what is left of `untyped_end - untyped_start`. The counters stay below 2 ^ CONFIG_WORD_SIZE, as
-- the number of rounds does.
unfoldable pub count_sizes : (word_bits rounds : ℕ) → List UntypedDesc → (ℕ → ℕ) → Option (ℕ → ℕ)
count_sizes word_bits zero untypeds count = some count
count_sizes word_bits (suc rounds) [] count = none
count_sizes word_bits (suc rounds) (d ∷ rest) count =
    let skipped = count_sizes word_bits rounds rest count in
    let counted =
      count_sizes word_bits rounds rest (update count d.size_bits (count d.size_bits + 1)) in
    if d.is_device then skipped else if ltb d.size_bits word_bits then counted else none

-- for (size = CONFIG_WORD_SIZE - 1; size != 0; size--)
unfoldable pub start_indices : (size total : ℕ) → (ℕ → ℕ) → ℕ → ℕ
start_indices zero total count = count
start_indices (suc s) total count =
    start_indices s (total + count (suc s)) (update count (suc s) total)

-- the array `untyped_cptrs` and `num_normal_untypes`
pub record Placed : Type 0 where
  pub cptrs : ℕ → ℕ
  pub num : ℕ

module _ (word_bits max_untyped_caps untyped_start : ℕ) where
  unfoldable pub place_untypeds :
      (rounds untyped_index : ℕ) → List UntypedDesc → (ℕ → ℕ) → Placed → Option Placed
  place_untypeds zero i untypeds count placed = some placed
  place_untypeds (suc rounds) i [] count placed = none
  place_untypeds (suc rounds) i (d ∷ rest) count placed =
      let skipped = place_untypeds rounds (i + 1) rest count placed in
      let done =
        place_untypeds rounds (i + 1) rest (update count d.size_bits (count d.size_bits + 1))
          (record {
            cptrs = update placed.cptrs (count d.size_bits) (wrap word_bits (untyped_start + i));
            num = placed.num + 1;
          }) in
      if d.is_device
      then skipped
      else if ltb d.size_bits word_bits && ltb (count d.size_bits) max_untyped_caps
      then done
      else none

-- the three loops in a row
unfoldable pub sorted_untypeds :
    (word_bits max_untyped_caps untyped_start rounds : ℕ)
    → List UntypedDesc
    → (ℕ → ℕ)
    → Option Placed
unfolding count_sizes start_indices place_untypeds
sorted_untypeds word_bits max_untyped_caps untyped_start rounds untypeds cptrs =
    elim (count_sizes word_bits rounds untypeds (λ _. 0)) [
      | none ↦ none
      | some count ↦
          place_untypeds word_bits max_untyped_caps untyped_start rounds 0 untypeds
            (start_indices (word_bits - 1) 0 count) (record { cptrs = cptrs; num = 0 })
    ]

unfoldable pub sort_untypeds : Platform → BootInfo → Exec ℕ
unfolding sorted_untypeds
sort_untypeds p bootinfo = do
  cptrs ← gets (λ w. w.untyped_cptrs)
  placed ← deref (
      sorted_untypeds (word_size p) p.max_untyped_caps bootinfo.untyped.start
        (wrap_sub (word_size p) bootinfo.untyped.end bootinfo.untyped.start) bootinfo.untyped_list
        cptrs)
  modify (λ w. record w { untyped_cptrs = placed.cptrs })
  pure (u32 placed.num)

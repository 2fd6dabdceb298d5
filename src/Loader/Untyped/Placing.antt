-- ===== src/Loader/Untyped/Placing.antt =====
-- The third loop of `sort_untypeds` fills the place of each size in order.
use capdl.Base.{
  ℕ, zero, suc, ◌+◌, ◌≤◌, ◌<◌, ◌≡◌, ◌≢◌, refl, true, false, some, List, [], ◌∷◌, ◌++◌, length,
  arith, lt→ltb, Bool-cases, inl, inr, ◌∙◌, ◌⊎◌, ap,
}
use native.Mathlib.Decide.{ℕ_discrete}
use native.Mathlib.Nat.{add-zero}
use Prim.Native.Nat.add
use capdl.Base.Words.{wrap}
use capdl.Platform.{UntypedDesc}
use capdl.Loader.Slots.{update}
use capdl.Loader.Untyped.{Placed, place_untypeds}
use capdl.Loader.Untyped.Classes.{
  is_of_size, size_count, slots_of_size, num_normal, SizesInRange, size_count_hit, size_count_miss,
  slots_of_size_hit, slots_of_size_miss, is_of_size_self, is_of_size_ne, not_of_size,
}

-- `len` entries of an array, from index `k` on
unfoldable pub slice : (ℕ → ℕ) → (k len : ℕ) → List ℕ
slice a k zero = []
slice a k (suc len) = a k ∷ slice a (k + 1) len

cons_eq : {a b : ℕ} {l m : List ℕ} → a ≡ b → l ≡ m → (a ∷ l) ≡ (b ∷ m)
cons_eq p q = cc

pub slice-append : (a : ℕ → ℕ) (k m n : ℕ) → slice a k (m + n) ≡ slice a k m ++ slice a (k + m) n
unfolding slice
slice-append a k zero n = rw (add.zero n, add-zero k)
slice-append a k (suc m) n = rw (add.suc m n) (
    ap (λ l. a k ∷ l)
      (slice-append a (k + 1) m n ∙ ap (λ j. slice a (k + 1) m ++ slice a j n) (omega arith)))

module _ (w max start : ℕ) where
  -- The counters `c` point at places for the untypeds `us` that do not overlap and end by `max`.
  pub record HasRoom (c : ℕ → ℕ) (us : List UntypedDesc) : Type 0 where
    pub fits : (s : ℕ) → 0 < s → s < w → c s + size_count s us ≤ max
    pub apart :
        (s t : ℕ)
        → 0 < s
        → s < t
        → t < w
        → (c s + size_count s us ≤ c t) ⊎ (c t + size_count t us ≤ c s)

  -- index `k` is in none of those places
  abbrev pub Outside : (ℕ → ℕ) → List UntypedDesc → ℕ → Type 0
  Outside c us k = (s : ℕ) → 0 < s → s < w → (k < c s) ⊎ (c s + size_count s us ≤ k)

  pub record Filled (i : ℕ) (us : List UntypedDesc) (c : ℕ → ℕ) (before after : Placed)
      : Type 0 where
    pub places :
        (s : ℕ)
        → 0 < s
        → s < w
        → slice after.cptrs (c s) (size_count s us) ≡ slots_of_size w start s i us
    pub same : (k : ℕ) → Outside c us k → after.cptrs k ≡ before.cptrs k
    pub counted : after.num ≡ before.num + num_normal us

  -- the counters and the array after one untyped
  abbrev next : (ℕ → ℕ) → UntypedDesc → ℕ → ℕ
  next c d = update c d.size_bits (c d.size_bits + 1)

  abbrev place : ℕ → (ℕ → ℕ) → UntypedDesc → Placed → Placed
  place i c d before = record {
    cptrs = update before.cptrs (c d.size_bits) (wrap w (start + i));
    num = before.num + 1;
  }

  room-device :
      (d : UntypedDesc) (rest : List UntypedDesc) (c : ℕ → ℕ)
      → d.is_device ≡ true
      → HasRoom c (d ∷ rest)
      → HasRoom c rest
  unfolding size_count is_of_size
  room-device d rest c device room = record {
    fits = λ s p q. ground (arith, room.fits s);
    apart = λ s t p q r. ground (arith, room.apart s t p q r);
  }

  room-next :
      (d : UntypedDesc) (rest : List UntypedDesc) (c : ℕ → ℕ)
      → d.is_device ≡ false
      → 0 < d.size_bits
      → d.size_bits < w
      → HasRoom c (d ∷ rest)
      → HasRoom (next c d) rest
  unfolding size_count is_of_size update
  room-next d rest c normal pos small room = record {
    fits = λ s p q. ground (arith, room.fits s);
    apart = λ s t p q r. ground (arith, room.apart s t p q r);
  }

  Filled-nil : (i : ℕ) (c : ℕ → ℕ) (before : Placed) → Filled i [] c before before
  unfolding size_count slots_of_size slice num_normal
  Filled-nil i c before = record {
    places = λ s p q. refl;
    same = λ k o. refl;
    counted = omega arith;
  }

  Filled-device :
      (d : UntypedDesc) (rest : List UntypedDesc) (i : ℕ) (c : ℕ → ℕ) (before after : Placed)
      → d.is_device ≡ true
      → Filled (i + 1) rest c before after
      → Filled i (d ∷ rest) c before after
  unfolding num_normal
  Filled-device d rest i c before after device filled = record {
    places = λ s p q.
        let miss = not_of_size d s device in
        rw (size_count_miss w start s i d rest miss, slots_of_size_miss w start s i d rest miss)
          (filled.places s p q);
    same = λ k o.
        filled.same k
          λ s p q. rw (size_count_miss w start s i d rest (not_of_size d s device)) at (o s p q);
    counted = rw device (omega (arith, filled.counted));
  }

  module _ (d : UntypedDesc) (rest : List UntypedDesc) (i : ℕ) (c : ℕ → ℕ) (before after : Placed)
      (normal : d.is_device ≡ false) (pos : 0 < d.size_bits) (small : d.size_bits < w)
      (room : HasRoom c (d ∷ rest)) where
    -- the entry that is written is out of reach of the later ones
    first_Outside : Outside (next c d) rest (c d.size_bits)
    unfolding update size_count is_of_size
    first_Outside s p q =
        ground (arith, room.apart s d.size_bits, room.apart d.size_bits s, room.fits s)

    Outside-next : (k : ℕ) → Outside c (d ∷ rest) k → Outside (next c d) rest k
    unfolding update size_count is_of_size
    Outside-next k o s p q = ground (arith, o s p q)

    first_fits : c d.size_bits < max
    first_fits =
        let hit = size_count_hit w start d.size_bits i d rest (is_of_size_self d normal) in
        omega (arith, room.fits d.size_bits pos small, hit)

    Outside-here : (k : ℕ) → Outside c (d ∷ rest) k → c d.size_bits ≢ k
    Outside-here k o =
        let hit = size_count_hit w start d.size_bits i d rest (is_of_size_self d normal) in
        omega (arith, o d.size_bits pos small, hit)

    module _ (filled : Filled (i + 1) rest (next c d) (place i c d before) after) where
      places_self :
          slice after.cptrs (c d.size_bits) (size_count d.size_bits (d ∷ rest))
          ≡ slots_of_size w start d.size_bits i (d ∷ rest)
      unfolding slice update
      places_self =
          let s = d.size_bits in
          let hit = is_of_size_self d normal in
          let first : after.cptrs (c s) ≡ wrap w (start + i) =
            filled.same (c s) first_Outside ∙ ground arith in
          let later : slice after.cptrs (c s + 1) (size_count s rest)
              ≡ slots_of_size w start s (i + 1) rest =
            ap (λ k. slice after.cptrs k (size_count s rest)) (ground arith)
            ∙ filled.places s pos small in
          rw (size_count_hit w start s i d rest hit, slots_of_size_hit w start s i d rest hit)
            (cons_eq first later)

      places_ne :
          (s : ℕ)
          → s ≢ d.size_bits
          → 0 < s
          → s < w
          → slice after.cptrs (c s) (size_count s (d ∷ rest)) ≡ slots_of_size w start s i (d ∷ rest)
      unfolding update
      places_ne s ne p q =
          let miss = is_of_size_ne d s ne in
          rw (size_count_miss w start s i d rest miss, slots_of_size_miss w start s i d rest miss)
            (ap (λ k. slice after.cptrs k (size_count s rest)) (ground arith) ∙ filled.places s p q)

      Filled-next : Filled i (d ∷ rest) c before after
      unfolding num_normal update
      Filled-next = record {
        places = λ s p q. elim (ℕ_discrete s d.size_bits) [
          | yes e ↦ rw e places_self
          | no ne ↦ places_ne s ne p q
        ];
        same = λ k o. filled.same k (Outside-next k o) ∙ ground (arith, Outside-here k o);
        counted = simp normal (omega (arith, filled.counted));
      }

  pub place_untypeds_lem :
      (us : List UntypedDesc) (i : ℕ) (c : ℕ → ℕ) (before : Placed)
      → SizesInRange w us
      → HasRoom c us
      → (after : Placed) × (place_untypeds w max start (length us) i us c before ≡ some after)
        × Filled i us c before after
  unfolding place_untypeds
  place_untypeds_lem [] i c before h room = (before, refl, Filled-nil i c before)
  place_untypeds_lem (d ∷ rest) i c before h room = elim (Bool-cases d.is_device) [
    | inl device ↦
        let (after, run, filled) =
          place_untypeds_lem rest (i + 1) c before h.1 (room-device d rest c device room) in
        (after, rw device run, Filled-device d rest i c before after device filled)
    | inr normal ↦
        let (pos, small) = h.0 normal in
        let (after, run, filled) =
          place_untypeds_lem rest (i + 1) (next c d) (place i c d before) h.1
            (room-next d rest c normal pos small room) in
        let in_array =
          lt→ltb (c d.size_bits) max (first_fits d rest i c before after normal pos small room) in
        (
          after,
          rw (normal, lt→ltb d.size_bits w small, in_array) run,
          Filled-next d rest i c before after normal pos small room filled,
        )
  ]

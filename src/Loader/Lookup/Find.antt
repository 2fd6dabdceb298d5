-- ===== src/Loader/Lookup/Find.antt =====
-- `get_cap_at` of main.c against the list of slots.
use capdl.Base.{
  ℕ, zero, suc, ◌<◌, ◌^◌, ◌≡◌, ◌≢◌, refl, Option, none, some, List, [], ◌∷◌, get_elem?, ◌==◌, arith,
  Bool-cases, inl, inr,
}
use mathlib.Core.Option.{none-ne-some}
use capdl.Base.Words.{u32_small}
use capdl.Spec.{Cap, CapSlot, Object}
use capdl.Loader.Lookup.{find_slot, get_cap_at}

-- the first entry of the list for a slot
pub record FirstAt (slots : List CapSlot) (slot : ℕ) (cap : Cap) : Type 0 where
  pub index : ℕ
  pub entry : CapSlot
  pub there : get_elem? slots index ≡ some entry
  pub is_slot : entry.slot ≡ slot
  pub is_cap : entry.cap ≡ cap
  pub first : (j : ℕ) (e : CapSlot) → j < index → get_elem? slots j ≡ some e → e.slot ≢ slot

-- What a search gives: the cap of the first entry, or nothing where there is no entry.
abbrev pub Found : List CapSlot → ℕ → Option Cap → Type 0
Found slots slot none = (j : ℕ) (e : CapSlot) → get_elem? slots j ≡ some e → e.slot ≢ slot
Found slots slot (some cap) = FirstAt slots slot cap

module _ (s : CapSlot) (rest : List CapSlot) (slot : ℕ) (ne : s.slot ≢ slot) where
  none_cons :
      ((j : ℕ) (e : CapSlot) → get_elem? rest j ≡ some e → e.slot ≢ slot)
      → (j : ℕ) (e : CapSlot) → get_elem? (s ∷ rest) j ≡ some e
      → e.slot ≢ slot
  none_cons h zero e at same = let here : s.slot ≡ slot = cc in ne here
  none_cons h (suc j) e at same = h j e at same

  first_cons :
      (n : ℕ)
      → ((j : ℕ) (e : CapSlot) → j < n → get_elem? rest j ≡ some e → e.slot ≢ slot)
      → (j : ℕ) (e : CapSlot) → j < suc n
      → get_elem? (s ∷ rest) j ≡ some e
      → e.slot ≢ slot
  first_cons n h zero e before at same = let here : s.slot ≡ slot = cc in ne here
  first_cons n h (suc j) e before at same = h j e (omega arith) at same

  Found-cons : (r : Option Cap) → Found rest slot r → Found (s ∷ rest) slot r
  Found-cons none h = none_cons h
  Found-cons (some cap) h = record {
    index = suc h.index;
    entry = h.entry;
    there = h.there;
    is_slot = h.is_slot;
    is_cap = h.is_cap;
    first = first_cons h.index h.first;
  }

find_slot-Found : (slots : List CapSlot) (slot : ℕ) → Found slots slot (find_slot slots slot)
unfolding find_slot
find_slot-Found [] slot = λ j e h. absurd (none-ne-some e h)
find_slot-Found (s ∷ rest) slot = elim (Bool-cases (s.slot == slot)) [
  | inl here ↦ simp here (record {
    index = 0;
    entry = s;
    there = refl;
    is_slot = ground arith;
    is_cap = refl;
    first = λ j e before. absurd (omega arith);
  })
  | inr other ↦
      simp other
        (Found-cons s rest slot (ground arith) (find_slot rest slot) (find_slot-Found rest slot))
]

-- For a slot number that an `unsigned int` holds, `get_cap_at` gives the cap of the first entry for
-- that slot, and NULL exactly where the object has no entry for it.
pub get_cap_at-Found :
    (obj : Object) (slot : ℕ) → slot < 2 ^ 32 → Found obj.slots slot (get_cap_at obj slot)
unfolding get_cap_at
get_cap_at-Found obj slot small = rw (u32_small slot small) (find_slot-Found obj.slots slot)

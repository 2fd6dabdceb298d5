-- ===== src/Loader/Vspace/Entry.antt =====
-- The search of `get_cap_at` for a slot after the note of the mapped cap was made in it.
use mathlib.Core.Option
use mathlib.Core.Option.{Option, none-ne-some, some-injective}
use capdl.Base.{
  ℕ, zero, suc, ◌<◌, ◌^◌, ◌≡◌, ◌≢◌, refl, sym, ap, ◌∙◌, Bool, true, false, none, some, List, [],
  ◌∷◌, get_elem?, ◌==◌, arith, Bool-cases, inl, inr,
}
use capdl.Base.Words.{u32_small}
use capdl.Spec.{CapSlot, Object}
use capdl.Loader.Lookup.{find_slot, get_cap_at}
use capdl.Loader.Vspace.Mapped.{changed, noted, same_self, IsNoted}

-- entry `i` is the first of the slots with the number `n`
pub record IsFirst (slots : List CapSlot) (i n : ℕ) (s : CapSlot) : Type 0 where
  pub there : get_elem? slots i ≡ some s
  pub is_slot : s.slot ≡ n
  pub first : (j : ℕ) (e : CapSlot) → j < i → get_elem? slots j ≡ some e → e.slot ≢ n

find_slot_here :
    (x s : CapSlot) (xs : List CapSlot) (n : ℕ)
    → x ≡ s
    → s.slot ≡ n
    → find_slot (x ∷ xs) n ≡ some s.cap
unfolding find_slot
find_slot_here x s xs n same is = rw (same, is, same_self n) refl

find_slot_first :
    (slots : List CapSlot) (i n : ℕ) (s : CapSlot)
    → IsFirst slots i n s
    → find_slot slots n ≡ some s.cap
unfolding find_slot
find_slot_first [] i n s h = absurd (none-ne-some s h.there)
find_slot_first (x ∷ xs) zero n s h = find_slot_here x s xs n (some-injective x s h.there) h.is_slot
find_slot_first (x ∷ xs) (suc i) n s h =
    let ne : x.slot ≢ n = h.first 0 x (omega arith) refl in
    let not_here : (x.slot == n) ≡ false = ground arith in
    simp not_here (
      find_slot_first xs i n s (record {
        there = h.there;
        is_slot = h.is_slot;
        first = λ j e before at. h.first (suc j) e (omega arith) at;
      }))

slot-changed : (b : Bool) (v : ℕ) (s : CapSlot) → (changed b (noted v) s).slot ≡ s.slot
slot-changed true v s = refl
slot-changed false v s = refl

other_slot :
    (o : Option CapSlot) (b : Bool) (v n : ℕ) (e : CapSlot)
    → Option.map (changed b (noted v)) o ≡ some e
    → ((s : CapSlot) → o ≡ some s → s.slot ≢ n)
    → e.slot ≢ n
other_slot none b v n e h ne = absurd (none-ne-some e h)
other_slot (some s) b v n e h ne = λ same.
    let is : changed b (noted v) s ≡ e = some-injective (changed b (noted v) s) e h in
    ne s refl (sym (slot-changed b v s) ∙ ap (λ x. x.slot) is ∙ same)

noted-IsFirst :
    (before after : List CapSlot) (i n v : ℕ) (s : CapSlot)
    → ((j : ℕ) → get_elem? after j ≡ Option.map (changed (i == j) (noted v)) (get_elem? before j))
    → IsFirst before i n s
    → IsFirst after i n (noted v s)
noted-IsFirst before after i n v s each h = record {
  there = each i ∙ simp (h.there, same_self i);
  is_slot = h.is_slot;
  first = λ j e earlier at.
      other_slot (get_elem? before j) (i == j) v n e (sym (each j) ∙ at) λ x. h.first j x earlier;
}

-- After the note of `v` in entry `i` of an object, which is the first for slot `n`, the cap that
-- `get_cap_at` finds for that slot is that of the entry with the note.
pub get_cap_at-noted :
    (o i n v : ℕ) (before after : List Object) (holder : Object) (s : CapSlot)
    → IsNoted o i v before after
    → get_elem? before o ≡ some holder
    → IsFirst holder.slots i n s
    → n < 2 ^ 32
    → (obj : Object) × (get_elem? after o ≡ some obj) × (get_cap_at obj n ≡ some (noted v s).cap)
unfolding get_cap_at
get_cap_at-noted o i n v before after holder s h held first small =
    let found = h.holder holder held in
    (
      record holder { slots = found.0 },
      found.1,
      rw (u32_small n small) (
          find_slot_first found.0 i n (noted v s)
            (noted-IsFirst holder.slots found.0 i n v s found.2 first)),
    )

-- the size of an object is as before the note
pub noted-size_bits :
    (o i v q : ℕ) (before after : List Object) (obj : Object)
    → IsNoted o i v before after
    → get_elem? before q ≡ some obj
    → (x : Object) × (get_elem? after q ≡ some x) × (x.size_bits ≡ obj.size_bits)
noted-size_bits o i v q before after obj h at = elim (Bool-cases (o == q)) [
  | inl same ↦
      let is : q ≡ o = ground arith in
      let found = h.holder obj (rw (← is) at) in
      (record obj { slots = found.0 }, rw is found.1, refl)
  | inr other ↦ (obj, h.others q other ∙ at, refl)
]

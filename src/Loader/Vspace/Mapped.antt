-- ===== src/Loader/Vspace/Mapped.antt =====
-- The note of main.c in the specification of the cap that a frame is mapped with, and how it is read.
use capdl.Base.{
  ℕ, zero, suc, ◌≡◌, refl, sym, ◌∙◌, Bool, true, false, none, some, List, [], ◌∷◌, get_elem?, ◌==◌,
  arith,
}
use mathlib.Core.Option
use mathlib.Core.Option.{Option}
use capdl.Spec.{CapSlot, Object}
use capdl.Loader.Vspace.{set_mapped, set_mapped_at, set_mapped_in}

pub same_self : (o : ℕ) → (o == o) ≡ true
same_self o = ground arith

same_next : (i j : ℕ) → (suc i == suc j) ≡ (i == j)
same_next i j = ground arith

zero_next : (j : ℕ) → (0 == suc j) ≡ false
zero_next j = ground arith

next_zero : (i : ℕ) → (suc i == 0) ≡ false
next_zero i = ground arith

-- what has become of a value: `f` of it where it is the one that was changed
abbrev pub changed : {A : Type 0} → (is_it : Bool) → (A → A) → A → A
changed true f a = f a
changed false f a = a

map-unchanged : {A : Type 0} (f : A → A) (o : Option A) → o ≡ Option.map (changed false f) o
map-unchanged f none = refl
map-unchanged f (some a) = refl

get_elem?-set_mapped_at :
    (slots : List CapSlot) (i j v : ℕ)
    → get_elem? (set_mapped_at slots i v) j
      ≡ Option.map (changed (i == j) (set_mapped v)) (get_elem? slots j)
unfolding set_mapped_at
get_elem?-set_mapped_at [] i j v = refl
get_elem?-set_mapped_at (x ∷ xs) zero zero v = refl
get_elem?-set_mapped_at (x ∷ xs) zero (suc j) v =
    rw (zero_next j) (map-unchanged (set_mapped v) (get_elem? xs j))
get_elem?-set_mapped_at (x ∷ xs) (suc i) zero v = rw (next_zero i) refl
get_elem?-set_mapped_at (x ∷ xs) (suc i) (suc j) v =
    rw (same_next i j) (get_elem?-set_mapped_at xs i j v)

abbrev pub mapped_object : (i v : ℕ) → Object → Object
mapped_object i v obj = record obj { slots = set_mapped_at obj.slots i v }

pub get_elem?-set_mapped_in :
    (objs : List Object) (o q i v : ℕ)
    → get_elem? (set_mapped_in objs o i v) q
      ≡ Option.map (changed (o == q) (mapped_object i v)) (get_elem? objs q)
unfolding set_mapped_in
get_elem?-set_mapped_in [] o q i v = refl
get_elem?-set_mapped_in (x ∷ xs) zero zero i v = refl
get_elem?-set_mapped_in (x ∷ xs) zero (suc q) i v =
    rw (zero_next q) (map-unchanged (mapped_object i v) (get_elem? xs q))
get_elem?-set_mapped_in (x ∷ xs) (suc o) zero i v = rw (next_zero o) refl
get_elem?-set_mapped_in (x ∷ xs) (suc o) (suc q) i v =
    rw (same_next o q) (get_elem?-set_mapped_in xs o q i v)

-- a slot after the loader has noted in its cap the slot that it is mapped with
abbrev pub noted : (slot : ℕ) → CapSlot → CapSlot
noted slot s = record s { cap = record s.cap { mapped_frame_cap = slot } }

-- How the objects are after the note: entry `i` of object `o` has it, and every other entry, every other
-- object and all else in them is as before.
pub record IsNoted (o i slot : ℕ) (before after : List Object) : Type 0 where
  pub others : (q : ℕ) → (o == q) ≡ false → get_elem? after q ≡ get_elem? before q
  pub holder :
      (obj : Object)
      → get_elem? before o ≡ some obj
      → (slots : List CapSlot) × (get_elem? after o ≡ some (record obj { slots = slots }))
        × ((j : ℕ)
            → get_elem? slots j
              ≡ Option.map (changed (i == j) (noted slot)) (get_elem? obj.slots j))

pub set_mapped_in-IsNoted :
    (objs : List Object) (o i slot : ℕ) → IsNoted o i slot objs (set_mapped_in objs o i slot)
unfolding set_mapped
set_mapped_in-IsNoted objs o i slot = record {
  others = λ q other.
      simp other at (get_elem?-set_mapped_in objs o q i slot)
      ∙ sym (map-unchanged (mapped_object i slot) (get_elem? objs q));
  holder = λ obj here. (
    set_mapped_at obj.slots i slot,
    simp (here, same_self o) at (get_elem?-set_mapped_in objs o o i slot),
    λ j. get_elem?-set_mapped_at obj.slots i j slot,
  );
}

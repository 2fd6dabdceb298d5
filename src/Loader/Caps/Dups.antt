-- ===== src/Loader/Caps/Dups.antt =====
-- `duplicate_caps` of main.c: which objects get a second cap, and in which slots.
use mathlib.Core.Option.{none-ne-some}
use mathlib.Core.List.{append-nil, append_assoc}
use capdl.Base.{
  ℕ, zero, suc, ◌+◌, ◌≤◌, ◌<◌, ◌^◌, ◌≡◌, ◌≢◌, refl, true, false, Option, none, some, List, [], ◌∷◌,
  ◌++◌, length, get_elem?, get_elem?_lt, arith, ◌==◌, if◌then◌else◌, ◌∙◌, sym, ap, lt→ltb, lt→leb,
  Bool-cases, inl, inr,
}
use capdl.Base.Words.{wrap_small, through_int, through_int_small}
use capdl.Spec.{Object}
use capdl.Platform.{Arch, word_size_of, Platform, word_size}
use capdl.Platform.Calls.{Invocation, Effect, call}
use capdl.Exec.{World, Exec, ok, when, invoke_checked, invoke, ◌>>=◌, ◌>>◌}
use capdl.Loader.Slots.{orig_caps, add_sel4_cap, update, get_free_slot, next_free_slot}
use capdl.Loader.Caps.{duplicate_call, duplicate_cap, is_duplicated, duplicate_caps}
use capdl.Loader.Caps.Each.{fold_objects, Steps, for_objects-fold}

module _ (p : Platform) where
  -- how many of the first `i` objects are duplicated
  unfoldable pub dup_count : List Object → (i : ℕ) → ℕ
  dup_count os zero = 0
  dup_count [] (suc i) = 0
  dup_count (o ∷ os) (suc i) =
      let rest = dup_count os i in if is_duplicated p o.type then rest + 1 else rest

  dup_count_step :
      (os : List Object) (i : ℕ) (o : Object)
      → get_elem? os i ≡ some o
      → dup_count os (suc i)
        ≡ (if is_duplicated p o.type then dup_count os i + 1 else dup_count os i)
  unfolding dup_count
  dup_count_step [] i o h = absurd (none-ne-some o h)
  dup_count_step (x ∷ os) zero o h = cc
  dup_count_step (x ∷ os) (suc i) o h = ground (arith, dup_count_step os i o h)

  pub dup_count_le : (os : List Object) (i : ℕ) → dup_count os i ≤ dup_count os (length os)
  unfolding dup_count
  dup_count_le os zero = omega arith
  dup_count_le [] (suc i) = omega arith
  dup_count_le (o ∷ os) (suc i) = ground (arith, dup_count_le os i)

pub word_size_of_wide : (a : Arch) → 2 ^ 32 ≤ 2 ^ word_size_of a
unfolding word_size_of
word_size_of_wide Arch.ia32 = omega arith
word_size_of_wide Arch.x86_64 = omega arith
word_size_of_wide Arch.aarch32 = omega arith
word_size_of_wide Arch.aarch64 = omega arith
word_size_of_wide Arch.riscv32 = omega arith
word_size_of_wide Arch.riscv64 = omega arith

-- the kernel makes every copy that `duplicate_cap` asks for
pub record AcceptsCopy (p : Platform) : Type 0 where
  pub accepts :
      (t : List Effect) (dest src : ℕ) → (p.kernel t (duplicate_call p dest src)).error ≡ 0

-- the copy that is asked for object `i`, if it is duplicated: of its original, to the next slot in a row
dup_calls_of : Platform → World → (i : ℕ) → Option Object → List Effect
dup_calls_of p w i none = []
dup_calls_of p w i (some o) =
    let root = p.cap_init_thread_cnode in
    let slot = w.free_slot_start + dup_count p w.spec.objects i in
    let original = through_int (word_size p) (w.capdl_to_sel4_orig i) in
    if is_duplicated p o.type
    then call
        (Invocation.cnode_copy root slot (word_size p) root original (word_size p) p.all_rights)
      ∷ []
    else []

-- the copies that are asked for the first `i` objects, in the order of their numbers
unfoldable pub dup_calls : Platform → World → (i : ℕ) → List Effect
unfolding dup_calls_of
dup_calls p w zero = []
dup_calls p w (suc i) = dup_calls p w i ++ dup_calls_of p w i (get_elem? w.spec.objects i)

-- What `duplicate_caps` has done after the first `i` objects, from `w`: a slot of its own for each of
-- those that are duplicated, in a row.
pub record Duplicated (p : Platform) (w : World) (i : ℕ) (v : World) : Type 0 where
  pub same_spec : v.spec ≡ w.spec
  pub same_orig : v.capdl_to_sel4_orig ≡ w.capdl_to_sel4_orig
  pub same_end : v.free_slot_end ≡ w.free_slot_end
  pub next : v.free_slot_start ≡ w.free_slot_start + dup_count p w.spec.objects i
  pub filled :
      (j : ℕ) (o : Object)
      → j < i
      → get_elem? w.spec.objects j ≡ some o
      → is_duplicated p o.type ≡ true
      → v.capdl_to_sel4_copy j ≡ w.free_slot_start + dup_count p w.spec.objects j
  pub trace : v.trace ≡ w.trace ++ dup_calls p w i
  pub others :
      (j : ℕ) (o : Object)
      → get_elem? w.spec.objects j ≡ some o
      → is_duplicated p o.type ≡ false
      → v.capdl_to_sel4_copy j ≡ w.capdl_to_sel4_copy j

module _ (p : Platform) (w : World) where
  abbrev copied : ℕ → World → World
  copied i v = record v {
    capdl_to_sel4_copy = update v.capdl_to_sel4_copy i v.free_slot_start;
    free_slot_start = v.free_slot_start + 1;
    trace =
        v.trace
        ++ call (
            duplicate_call p v.free_slot_start (through_int (word_size p) (v.capdl_to_sel4_orig i)))
          ∷ [];
  }

  duplicated : ℕ → Object → World → World
  duplicated i o v = if is_duplicated p o.type then copied i v else v

  -- the body of the loop of `duplicate_caps`
  abbrev body : ℕ → Object → Exec (Unit {0})
  body obj_id obj = when (is_duplicated p obj.type) (
      get_free_slot >>= λ free_slot.
      duplicate_cap p obj_id (through_int (word_size p) free_slot) >> next_free_slot p)

  copy_runs :
      (i : ℕ) (v : World)
      → AcceptsCopy p
      → i < p.max_objects
      → v.free_slot_start + 1 < v.free_slot_end
      → v.free_slot_end < 2 ^ 31
      → (get_free_slot >>= λ free_slot.
            duplicate_cap p i (through_int (word_size p) free_slot) >> next_free_slot p)
          v
        ≡ ok tt (copied i v)
  unfolding get_free_slot duplicate_cap orig_caps invoke_checked invoke add_sel4_cap next_free_slot
  copy_runs i v accepts inside room small =
      let s = v.free_slot_start in
      let once = through_int_small (word_size p) s (omega arith) in
      let wide : s + 1 < 2 ^ word_size p = omega (arith, word_size_of_wide p.arch) in
      simp (
        once,
        lt→ltb i p.max_objects inside,
        accepts.accepts v.trace s (through_int (word_size p) (v.capdl_to_sel4_orig i)),
        wrap_small (2 ^ word_size p) (s + 1) wide,
        lt→leb v.free_slot_end (s + 1) room,
      )

  module _ (accepts : AcceptsCopy p) (table : length w.spec.objects ≤ p.max_objects)
      (room : w.free_slot_start + dup_count p w.spec.objects (length w.spec.objects)
        < w.free_slot_end)
      (small : w.free_slot_end < 2 ^ 31) where
    copy_next :
        (i : ℕ) (o : Object)
        → get_elem? w.spec.objects i ≡ some o
        → is_duplicated p o.type ≡ true
        → dup_count p w.spec.objects (i + 1) ≡ dup_count p w.spec.objects i + 1
    copy_next i o here dup =
        let next : i + 1 ≡ suc i = omega arith in
        rw next (simp dup at (dup_count_step p w.spec.objects i o here))

    -- of one object it is not said both that it is duplicated and that it is not
    apart :
        (i j : ℕ) (o a : Object)
        → get_elem? w.spec.objects i ≡ some o
        → is_duplicated p o.type ≡ true
        → get_elem? w.spec.objects j ≡ some a
        → is_duplicated p a.type ≡ false
        → i ≢ j
    apart i j o a here dup at not_dup same = cc

    copy_Duplicated :
        (i : ℕ) (o : Object) (v : World)
        → get_elem? w.spec.objects i ≡ some o
        → is_duplicated p o.type ≡ true
        → Duplicated p w i v
        → Duplicated p w (i + 1) (copied i v)
    unfolding update dup_calls duplicate_call
    copy_Duplicated i o v here dup h = record {
      same_spec = h.same_spec;
      same_orig = h.same_orig;
      same_end = h.same_end;
      next = omega (arith, h.next, copy_next i o here dup);
      filled = λ j a before at is. elim (Bool-cases (i == j)) [
        | inl e ↦
            let same : i ≡ j = ground arith in
            simp e (h.next ∙ ap (λ k. w.free_slot_start + dup_count p w.spec.objects k) same)
        | inr e ↦ simp e (h.filled j a (ground arith) at is)
      ];
      trace =
          let next : i + 1 ≡ suc i = omega arith in
          let original : v.capdl_to_sel4_orig i ≡ w.capdl_to_sel4_orig i =
            ap (λ f. f i) h.same_orig in
          let asked = call (
            duplicate_call p v.free_slot_start
              (through_int (word_size p) (v.capdl_to_sel4_orig i))) in
          ap (λ t. t ++ asked ∷ []) h.trace
          ∙ append_assoc w.trace (dup_calls p w i) (asked ∷ [])
          ∙ rw next (simp (here, dup, h.next, original));
      others =
          λ j a at is_not. ground (arith, h.others j a at is_not, apart i j o a here dup at is_not);
    }

    skip_Duplicated :
        (i : ℕ) (o : Object) (v : World)
        → get_elem? w.spec.objects i ≡ some o
        → is_duplicated p o.type ≡ false
        → Duplicated p w i v
        → Duplicated p w (i + 1) v
    unfolding dup_calls
    skip_Duplicated i o v here not_dup h = record {
      same_spec = h.same_spec;
      same_orig = h.same_orig;
      same_end = h.same_end;
      next =
          let next : i + 1 ≡ suc i = omega arith in
          h.next
          ∙ ap (λ n. w.free_slot_start + n)
              (sym (rw next (simp not_dup at (dup_count_step p w.spec.objects i o here))));
      filled =
          λ j a before at is. h.filled j a (omega (arith, apart j i a o at is here not_dup)) at is;
      trace =
          let next : i + 1 ≡ suc i = omega arith in
          rw next (h.trace ∙ simp (here, not_dup, append-nil));
      others = h.others;
    }

    duplicate-Steps : Steps w.spec.objects (Duplicated p w) body duplicated
    unfolding duplicated
    duplicate-Steps = record {
      reads = λ i v h. ap (λ s. s.objects) h.same_spec;
      runs = λ i o v here h. elim (Bool-cases (is_duplicated p o.type)) [
        | inl dup ↦
            let inside = get_elem?_lt w.spec.objects i o here in
            let bound = dup_count_le p w.spec.objects (i + 1) in
            simp dup (
              copy_runs i v accepts (omega arith)
                (omega (arith, h.next, h.same_end, copy_next i o here dup))
                (omega (arith, h.same_end)))
        | inr skip ↦ simp skip
      ];
      keeps = λ i o v here h. elim (Bool-cases (is_duplicated p o.type)) [
        | inl dup ↦ simp dup (copy_Duplicated i o v here dup h)
        | inr skip ↦ simp skip (skip_Duplicated i o v here skip h)
      ];
    }

-- Where the kernel makes the copies, the tables have an entry for every object, more free slots are left
-- than there are CNodes and TCBs, and these slots are below 2 ^ 31: `duplicate_caps` succeeds; each of
-- these objects has the next free slot in its turn, to which its original is copied by one call, and no
-- other calls are made; the entries of the other objects are as before, and so are the specification and
-- the table of originals.
pub duplicate_caps_lem :
    (p : Platform) (w : World)
    → AcceptsCopy p
    → length w.spec.objects ≤ p.max_objects
    → w.free_slot_start + dup_count p w.spec.objects (length w.spec.objects) < w.free_slot_end
    → w.free_slot_end < 2 ^ 31
    → (v : World) × (duplicate_caps p w ≡ ok tt v) × Duplicated p w (length w.spec.objects) v
unfolding duplicate_caps
duplicate_caps_lem p w accepts table room small =
    let start : Duplicated p w 0 w = record {
      same_spec = refl;
      same_orig = refl;
      same_end = refl;
      next = unfold dup_count in omega arith;
      filled = λ j o before at is. absurd (omega arith);
      trace = unfold dup_calls in sym (append-nil w.trace);
      others = λ j o at is. refl;
    } in
    let (run, end) =
      for_objects-fold w.spec.objects (Duplicated p w) (body p w) (duplicated p w)
        (duplicate-Steps p w accepts table room small) p w start in
    (fold_objects (duplicated p w) w.spec.objects 0 w, run, end)

-- ===== src/Loader/Cspace/Once.antt =====
-- `init_cnode_slot` of main.c: in which of the two rounds a slot is filled, and how.
use capdl.Base.{
  ℕ, ◌≡◌, refl, Bool, true, false, not, ◌==◌, [], ◌∷◌, ◌++◌, ◌∙◌, sym, ap, Bool-cases, inl, inr,
  if◌then◌else◌, get_elem?, some,
}
use mathlib.Core.Bool.{or-true}
use capdl.Base.Words.{through_int, u8}
use capdl.Spec.{Cap, CapSlot, Object}
use capdl.Spec.Types.{CapType, is_cap_type}
use capdl.Platform.{Platform, word_size}
use capdl.Platform.Calls.{Invocation, call, cnode_move, cnode_mint}
use capdl.Exec.{World, Exec, Outcome, ok, halt, and_then, ◌>>=◌, invoke, invoke_checked}
use capdl.Exec.Reads.{Reads-pure, Reads-bind, Reads, ReadsAt, Any, Reads-bind-with}
use capdl.Loader.Cspace.{
  CnodeMode, CnodeSource, Dest, dest_at, cnode_source, mapped_frame_slot, move_to, mint_to,
  move_slot, copy_slot, install, init_cnode_slot,
}
use capdl.Spec.Access.{cap_rights}
use capdl.Loader.Slots.{get_spec_object, get_cap_data, dup_caps}
use capdl.Loader.Cspace.Source.{
  Reads-get_spec_object, Reads-get_spec_object_found, Reads-get_cap_data, Reads-dup_caps,
  Reads-mapped_frame_slot, Reads-cnode_source,
}

-- a call that moves a cap, or makes a copy of one, from a slot of the loader's CNode, named at the depth
-- of a word, into the slot at `index`, at the depth `depth`, of the CNode `root`
abbrev pub Into : Platform → (root index depth : ℕ) → Invocation → Type 0
Into p root index depth (cnode_move r i d from _ n) =
    (r ≡ root) × (i ≡ index) × (d ≡ depth) × (from ≡ p.cap_init_thread_cnode) × (n ≡ word_size p)
Into p root index depth (cnode_mint r i d from _ n _ _) =
    (r ≡ root) × (i ≡ index) × (d ≡ depth) × (from ≡ p.cap_init_thread_cnode) × (n ≡ word_size p)
Into p root index depth _ = ⊥

-- such a call for a CNode of the specification, named by its duplicate, at the depth of its size
abbrev pub IntoCnode : Platform → (cnode_id index : ℕ) → World → Invocation → Type 0
IntoCnode p cnode_id index w i =
    (obj : Object) × (get_elem? w.spec.objects cnode_id ≡ some obj)
    × Into p (w.capdl_to_sel4_copy cnode_id) index (u8 obj.size_bits) i

-- Where the action returns, it has made one call, with `P`, and has had no other effect.
abbrev pub CallsOnce : {A : Type 0} → (Invocation → Type 0) → World → Outcome A → Type 0
CallsOnce P w (ok _ v) = (i : Invocation) × P i × (v.trace ≡ w.trace ++ call i ∷ [])
CallsOnce P w (halt _ _) = Unit

CallsOnce-map :
    {A : Type 0} {P Q : Invocation → Type 0} (w : World) (r : Outcome A)
    → ((i : Invocation) → P i → Q i)
    → CallsOnce P w r
    → CallsOnce Q w r
CallsOnce-map w (ok a v) f h = (h.0, f h.0 h.1, h.2)
CallsOnce-map w (halt s v) f h = tt

module _ {A B : Type 0} (R : World → A → Type 0) (P : Invocation → Type 0) where
  and_then-CallsOnce :
      (w : World) (r : Outcome A) (k : A → Exec B)
      → ReadsAt R w r
      → ((a : A) → R w a → CallsOnce P w (k a w))
      → CallsOnce P w (and_then r k)
  and_then-CallsOnce w (ok a v) k h hk = rw h.0 (hk a h.1)
  and_then-CallsOnce w (halt s v) k h hk = tt

module _ (p : Platform) (P : Invocation → Type 0) where
  invoke_checked-CallsOnce :
      (i : Invocation) (w : World) → P i → CallsOnce P w (invoke_checked p i w)
  unfolding invoke_checked invoke
  invoke_checked-CallsOnce i w h = elim (Bool-cases ((p.kernel w.trace i).error == 0)) [
    | inl accepted ↦ simp accepted (i, h, refl)
    | inr refused ↦ simp refused tt
  ]

pub record Calls {A : Type 0} (P : World → Invocation → Type 0) (m : Exec A) : Type 0 where
  pub at : (w : World) → CallsOnce (P w) w (m w)

module _ {A : Type 0} {P : World → Invocation → Type 0} where
  Calls-if : (b : Bool) (m n : Exec A) → Calls P m → Calls P n → Calls P (if b then m else n)
  Calls-if true m n hm hn = hm
  Calls-if false m n hm hn = hn

  Calls-bind-with :
      {B : Type 0} {R : World → B → Type 0} (m : Exec B) (k : B → Exec A)
      → Reads R m
      → ((w : World) (b : B) → R w b → CallsOnce (P w) w (k b w))
      → Calls P (m >>= k)
  Calls-bind-with {R = R} m k hm hk = record {
    at = λ w. and_then-CallsOnce R (P w) w (m w) k (hm.at w) (hk w);
  }

  Calls-bind :
      {B : Type 0} (m : Exec B) (k : B → Exec A)
      → Reads Any m
      → ((b : B) → Calls P (k b))
      → Calls P (m >>= k)
  Calls-bind m k hm hk = Calls-bind-with {R = Any} m k hm λ w b _. (hk b).at w

module _ {P : World → Invocation → Type 0} where
  Calls-invoke_checked :
      (p : Platform) (i : Invocation) → ((w : World) → P w i) → Calls P (invoke_checked p i)
  Calls-invoke_checked p i h = record { at = λ w. invoke_checked-CallsOnce p (P w) i w (h w) }

-- the round in which a slot is filled: the second one, which moves, for the cap to IRQ control alone
unfoldable pub fills : CnodeMode → (is_control : Bool) → Bool
fills CnodeMode.move is_control = is_control
fills CnodeMode.copy is_control = not is_control

not-true : (b : Bool) → not b ≡ true → b ≡ false
not-true false h = refl
not-true true h = sym h

not-false : (b : Bool) → not b ≡ false → b ≡ true
not-false true h = refl
not-false false h = sym h

module _ (p : Platform) (d : Dest) (cap : Cap) (s : CnodeSource) where
  abbrev IntoDest : World → Invocation → Type 0
  IntoDest _ = Into p d.root d.index d.depth

  Calls-move_slot : s.is_irq_handler_cap ≡ true → Calls IntoDest (move_slot p d cap s)
  unfolding move_slot
  Calls-move_slot irq =
      simp (irq, or-true)
        (Calls-invoke_checked p (move_to p d s.src_index) λ w. (refl, refl, refl, refl, refl))

  Calls-copy_slot : Calls IntoDest (copy_slot p d cap s)
  unfolding copy_slot
  Calls-copy_slot =
      Calls-if _ _ _
        (Calls-bind (mapped_frame_slot p cap) _ (Reads-mapped_frame_slot p cap)
          λ slot. Calls-invoke_checked p (move_to p d slot) λ w. (refl, refl, refl, refl, refl))
        (Calls-invoke_checked p (mint_to p d s.src_index (cap_rights cap) s.target_cap_data)
          λ w. (refl, refl, refl, refl, refl))

  Calls-install :
      (mode : CnodeMode)
      → (s.move_cap ≡ true → s.is_irq_handler_cap ≡ true)
      → fills mode s.move_cap ≡ true
      → Calls IntoDest (install p mode d cap s)
  unfolding install fills
  Calls-install CnodeMode.move irq h = simp h (Calls-move_slot (irq h))
  Calls-install CnodeMode.copy irq h = simp (not-true s.move_cap h) Calls-copy_slot

  Reads-install :
      (mode : CnodeMode) → fills mode s.move_cap ≡ false → Reads Any (install p mode d cap s)
  unfolding install fills
  Reads-install CnodeMode.move h = simp h (Reads-pure tt λ _. tt)
  Reads-install CnodeMode.copy h = simp (not-false s.move_cap h) (Reads-pure tt λ _. tt)

-- In one of the two rounds, the second for the cap to IRQ control and the first for any other,
-- `init_cnode_slot` makes exactly one call where it returns: a call that puts a cap into that slot of
-- the CNode, which it names by its duplicate and at the depth of its size, from a slot of the loader's
-- CNode. In the other round it has no effect.
pub init_cnode_slot-CallsOnce :
    (p : Platform) (mode : CnodeMode) (cnode_id : ℕ) (s : CapSlot) (w : World)
    → (fills mode (is_cap_type s.cap.type CapType.irq_control_cap) ≡ true
        → CallsOnce
            (IntoCnode p cnode_id (through_int (word_size p) s.slot) w)
            w
            (init_cnode_slot p mode cnode_id s w))
      × (fills mode (is_cap_type s.cap.type CapType.irq_control_cap) ≡ false
          → ReadsAt Any w (init_cnode_slot p mode cnode_id s w))
unfolding init_cnode_slot
init_cnode_slot-CallsOnce p mode cnode_id s w =
    let index = through_int (word_size p) s.slot in
    let t = s.cap.type in
    (
      λ round.
          let installing : (given root depth : ℕ)
              → Calls (λ _. Into p root index depth)
                  (cnode_source p t s.cap given >>= λ a.
                    install p mode (dest_at root index depth) s.cap
                      (record a { src_index = through_int (word_size p) a.src_index })) =
            λ given root depth.
              Calls-bind-with (cnode_source p t s.cap given) _ (Reads-cnode_source p t s.cap given)
                λ w a source.
                  (Calls-install p (dest_at root index depth) s.cap _ mode source.1
                      (ap (fills mode) source.0 ∙ round)).at
                    w in
          let all : Calls (IntoCnode p cnode_id index) (init_cnode_slot p mode cnode_id s) =
            Calls-bind (get_cap_data p s.cap.cap_data) _ (Reads-get_cap_data p s.cap.cap_data)
              λ given.
                Calls-bind-with (get_spec_object cnode_id) _ (Reads-get_spec_object_found cnode_id)
                  λ w obj there.
                    and_then-CallsOnce (λ v root. root ≡ v.capdl_to_sel4_copy cnode_id)
                      (IntoCnode p cnode_id index w) w (dup_caps p cnode_id w) _
                      ((Reads-dup_caps p cnode_id).at w)
                      λ root is_copy.
                        CallsOnce-map w _ (λ i into. (obj, there, rw (← is_copy) into))
                          ((installing given root (u8 obj.size_bits)).at w) in
          all.at w,
      λ round.
          let installing : (given root depth : ℕ)
              → Reads Any (
                  cnode_source p t s.cap given >>= λ a.
                  install p mode (dest_at root index depth) s.cap
                    (record a { src_index = through_int (word_size p) a.src_index })) =
            λ given root depth.
              Reads-bind-with (cnode_source p t s.cap given) _ (Reads-cnode_source p t s.cap given)
                λ w a source.
                  (Reads-install p (dest_at root index depth) s.cap _ mode
                      (ap (fills mode) source.0 ∙ round)).at
                    w in
          let all : Reads Any (init_cnode_slot p mode cnode_id s) =
            Reads-bind (get_cap_data p s.cap.cap_data) _ (Reads-get_cap_data p s.cap.cap_data)
              λ given.
                Reads-bind (get_spec_object cnode_id) _ (Reads-get_spec_object cnode_id) λ obj.
                  Reads-bind-with (dup_caps p cnode_id) _ (Reads-dup_caps p cnode_id)
                    λ w root _. (installing given root (u8 obj.size_bits)).at w in
          all.at w,
    )

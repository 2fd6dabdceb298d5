-- ===== src/Exec/Emits.antt =====
-- What an action adds to the trace, one rule for each way to build an action.
use mathlib.Core.List.{append-nil, append_assoc}
use capdl.Base.{
  ℕ, zero, suc, ◌+◌, Bool, true, false, Option, none, some, List, [], ◌∷◌, ◌++◌, ◌≡◌, refl, sym,
  ◌∙◌, ap, ◌==◌, if◌then◌else◌,
}
use capdl.Base.All.{All, All-append}
use capdl.Platform.{Platform}
use capdl.Platform.Calls.{Invocation, Effect, call}
use capdl.Exec.{
  World, Stop, Outcome, ok, halt, Exec, pure, and_then, ◌>>=◌, stop, world, gets, modify, fatal_if,
  fatal_iferr, assert, deref, effect, invoke, invoke_checked, for_range, for_each,
}

-- The trace of `v` is that of `w` and then effects with `P`.
pub record Extends (P : Effect → Type 0) (w v : World) : Type 0 where
  pub added : List Effect
  pub each : All P added
  pub trace : v.trace ≡ w.trace ++ added

-- Whatever the start, and whether it finishes or stops, `m` adds only effects with `P`.
pub record Emits {A : Type 0} (P : Effect → Type 0) (m : Exec A) : Type 0 where
  pub at : (w : World) → Extends P w (world (m w))

module _ {P : Effect → Type 0} where
  pub Extends-refl : (w : World) → Extends P w w
  Extends-refl w = record { added = []; each = tt; trace = sym (append-nil w.trace) }

  pub Extends-trans : {u v w : World} → Extends P u v → Extends P v w → Extends P u w
  Extends-trans {u} a b = record {
    added = a.added ++ b.added;
    each = All-append P a.added b.added a.each b.each;
    trace = b.trace ∙ ap (λ t. t ++ b.added) a.trace ∙ append_assoc u.trace a.added b.added;
  }

  pub Emits-pure : {A : Type 0} (a : A) → Emits P (pure a)
  Emits-pure a = record { at = Extends-refl }

  pub Emits-stop : {A : Type 0} (s : Stop) → Emits P (stop {A = A} s)
  Emits-stop s = record { at = Extends-refl }

  pub Emits-gets : {A : Type 0} (f : World → A) → Emits P (gets f)
  Emits-gets f = record { at = Extends-refl }

  -- a write to a variable, which leaves the trace alone
  pub Emits-modify :
      (f : World → World) → ((w : World) → (f w).trace ≡ w.trace) → Emits P (modify f)
  Emits-modify f same = record {
    at = λ w. record { added = []; each = tt; trace = same w ∙ sym (append-nil w.trace) };
  }

  pub Emits-effect : (e : Effect) → P e → Emits P (effect e)
  Emits-effect e p = record { at = λ w. record { added = e ∷ []; each = (p, tt); trace = refl } }

  pub Emits-invoke : (p : Platform) (i : Invocation) → P (call i) → Emits P (invoke p i)
  unfolding invoke
  Emits-invoke p i h = record {
    at = λ w. record { added = call i ∷ []; each = (h, tt); trace = refl };
  }

  pub Emits-deref : {A : Type 0} (o : Option A) → Emits P (deref o)
  Emits-deref none = Emits-stop Stop.undefined
  Emits-deref (some a) = Emits-pure a

  pub Emits-if :
      {A : Type 0} (b : Bool) (m n : Exec A)
      → (b ≡ true → Emits P m)
      → (b ≡ false → Emits P n)
      → Emits P (if b then m else n)
  Emits-if true m n km kn = km refl
  Emits-if false m n km kn = kn refl

  pub Emits-fatal_if : (b : Bool) → Emits P (fatal_if b)
  Emits-fatal_if true = Emits-stop Stop.fatal
  Emits-fatal_if false = Emits-pure tt

  pub Emits-assert : (b : Bool) → Emits P (assert b)
  Emits-assert true = Emits-pure tt
  Emits-assert false = Emits-stop Stop.fatal

  pub Emits-fatal_iferr : (e : ℕ) → Emits P (fatal_iferr e)
  Emits-fatal_iferr e =
      Emits-if (e == 0) (pure tt) (stop Stop.fatal) (λ _. Emits-pure tt)
        (λ _. Emits-stop Stop.fatal)

module _ {P : Effect → Type 0} {A B : Type 0} where
  and_then-Extends :
      {w : World} (r : Outcome A) (k : A → Exec B)
      → Extends P w (world r)
      → ((a : A) → Emits P (k a))
      → Extends P w (world (and_then r k))
  and_then-Extends (ok a v) k h kk = Extends-trans h ((kk a).at v)
  and_then-Extends (halt s v) k h kk = h

  pub Emits-bind :
      (m : Exec A) (k : A → Exec B) → Emits P m → ((a : A) → Emits P (k a)) → Emits P (m >>= k)
  Emits-bind m k hm hk = record { at = λ w. and_then-Extends (m w) k (hm.at w) hk }

module _ {P : Effect → Type 0} where
  pub Emits-invoke_checked :
      (p : Platform) (i : Invocation) → P (call i) → Emits P (invoke_checked p i)
  unfolding invoke_checked
  Emits-invoke_checked p i h =
      Emits-bind (invoke p i) (λ r. fatal_iferr r.error) (Emits-invoke p i h)
        λ r. Emits-fatal_iferr r.error

  pub Emits-for_range :
      (rounds i : ℕ) (body : ℕ → Exec (Unit {0}))
      → ((j : ℕ) → Emits P (body j))
      → Emits P (for_range rounds i body)
  unfolding for_range
  Emits-for_range zero i body h = Emits-pure tt
  Emits-for_range (suc n) i body h =
      Emits-bind (body i) (λ _. for_range n (i + 1) body) (h i)
        λ _. Emits-for_range n (i + 1) body h

  pub Emits-for_each :
      {A : Type 0} (xs : List A) (body : A → Exec (Unit {0}))
      → ((a : A) → Emits P (body a))
      → Emits P (for_each xs body)
  unfolding for_each
  Emits-for_each [] body h = Emits-pure tt
  Emits-for_each (x ∷ xs) body h =
      Emits-bind (body x) (λ _. for_each xs body) (h x) λ _. Emits-for_each xs body h

-- What `m` returns, where it does return, has `Q`.
abbrev pub OnOk : {A : Type 0} → (A → Type 0) → Outcome A → Type 0
OnOk Q (ok a _) = Q a
OnOk Q (halt _ _) = Unit

pub record Returns {A : Type 0} (Q : A → Type 0) (m : Exec A) : Type 0 where
  pub at : (w : World) → OnOk Q (m w)

module _ {A : Type 0} {Q : A → Type 0} where
  pub Returns-pure : (a : A) → Q a → Returns Q (pure a)
  Returns-pure a q = record { at = λ w. q }

  pub Returns-if :
      (b : Bool) (m n : Exec A) → Returns Q m → Returns Q n → Returns Q (if b then m else n)
  Returns-if true m n hm hn = hm
  Returns-if false m n hm hn = hn

  and_then-OnOk :
      {B : Type 0} (r : Outcome B) (k : B → Exec A)
      → ((b : B) → Returns Q (k b))
      → OnOk Q (and_then r k)
  and_then-OnOk (ok b v) k h = (h b).at v
  and_then-OnOk (halt s v) k h = tt

  pub Returns-bind :
      {B : Type 0} (m : Exec B) (k : B → Exec A) → ((b : B) → Returns Q (k b)) → Returns Q (m >>= k)
  Returns-bind m k h = record { at = λ w. and_then-OnOk (m w) k h }

  keeps-Extends :
      {B : Type 0} {P : Effect → Type 0} {w : World} (r : Outcome A) (k : A → Exec B)
      → Extends P w (world r)
      → OnOk Q r
      → ((a : A) → Q a → Emits P (k a))
      → Extends P w (world (and_then r k))
  keeps-Extends (ok a v) k h q hk = Extends-trans h ((hk a q).at v)
  keeps-Extends (halt s v) k h q hk = h

  -- the rule for a sequence, where the second part relies on what the first returns
  pub Emits-bind-Returns :
      {B : Type 0} {P : Effect → Type 0} (m : Exec A) (k : A → Exec B)
      → Emits P m
      → Returns Q m
      → ((a : A) → Q a → Emits P (k a))
      → Emits P (m >>= k)
  Emits-bind-Returns m k hm q hk = record { at = λ w. keeps-Extends (m w) k (hm.at w) (q.at w) hk }

pub ruleset emits_rules = (
  Emits-pure, Emits-stop, Emits-gets, Emits-effect, Emits-invoke, Emits-deref, Emits-if,
  Emits-fatal_if, Emits-assert, Emits-fatal_iferr, Emits-bind, Emits-invoke_checked,
  Emits-for_range, Emits-for_each,
)

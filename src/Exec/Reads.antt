-- ===== src/Exec/Reads.antt =====
-- Actions that only read the variables, and what they return, one rule for each way to build one.
use capdl.Base.{if◌then◌else◌, ◌≡◌, refl, Bool, true, false, Option, none, some}
use capdl.Platform.Calls.{Effect}
use capdl.Exec.Emits.{Extends, Extends-refl, Emits, OnOk, Returns}
use capdl.Exec.{
  world, World, Stop, Outcome, ok, halt, Exec, pure, and_then, ◌>>=◌, stop, gets, assert, deref,
}

-- Where the action returns, it returns a value with `Q`; the variables are those of `w` all the same
-- where it stops.
abbrev pub ReadsAt : {A : Type 0} → (World → A → Type 0) → World → Outcome A → Type 0
ReadsAt Q w (ok a v) = (v ≡ w) × Q w a
ReadsAt Q w (halt _ v) = v ≡ w

pub record Reads {A : Type 0} (Q : World → A → Type 0) (m : Exec A) : Type 0 where
  pub at : (w : World) → ReadsAt Q w (m w)

abbrev pub Any : {A : Type 0} → World → A → Type 0
Any _ _ = Unit

module _ {A : Type 0} {Q : World → A → Type 0} where
  pub Reads-pure : (a : A) → ((w : World) → Q w a) → Reads Q (pure a)
  Reads-pure a q = record { at = λ w. (refl, q w) }

  pub Reads-stop : (s : Stop) → Reads Q (stop s)
  Reads-stop s = record { at = λ w. refl }

  pub Reads-gets : (f : World → A) → ((w : World) → Q w (f w)) → Reads Q (gets f)
  Reads-gets f q = record { at = λ w. (refl, q w) }

  pub Reads-if : (b : Bool) (m n : Exec A) → Reads Q m → Reads Q n → Reads Q (if b then m else n)
  Reads-if true m n hm hn = hm
  Reads-if false m n hm hn = hn

  pub Reads-deref : (o : Option A) → ((w : World) (a : A) → Q w a) → Reads Q (deref o)
  Reads-deref none q = record { at = λ w. refl }
  Reads-deref (some a) q = record { at = λ w. (refl, q w a) }

pub Reads-assert : (b : Bool) → Reads Any (assert b)
Reads-assert true = record { at = λ w. (refl, tt) }
Reads-assert false = record { at = λ w. refl }

module _ {A B : Type 0} (R : World → A → Type 0) (Q : World → B → Type 0) where
  pub and_then-ReadsAt :
      (w : World) (r : Outcome A) (k : A → Exec B)
      → ReadsAt R w r
      → ((a : A) → R w a → ReadsAt Q w (k a w))
      → ReadsAt Q w (and_then r k)
  and_then-ReadsAt w (ok a v) k h hk = rw h.0 (hk a h.1)
  and_then-ReadsAt w (halt s v) k h hk = h

module _ {A B : Type 0} {R : World → A → Type 0} {Q : World → B → Type 0} where
  pub Reads-bind-with :
      (m : Exec A) (k : A → Exec B)
      → Reads R m
      → ((w : World) (a : A) → R w a → ReadsAt Q w (k a w))
      → Reads Q (m >>= k)
  Reads-bind-with m k hm hk = record { at = λ w. and_then-ReadsAt R Q w (m w) k (hm.at w) (hk w) }

module _ {A B : Type 0} {Q : World → B → Type 0} where
  pub Reads-bind :
      (m : Exec A) (k : A → Exec B) → Reads Any m → ((a : A) → Reads Q (k a)) → Reads Q (m >>= k)
  Reads-bind m k hm hk = record {
    at = λ w. and_then-ReadsAt Any Q w (m w) k (hm.at w) λ a _. (hk a).at w;
  }

pub ruleset reads_rules =
    (Reads-pure, Reads-stop, Reads-gets, Reads-if, Reads-deref, Reads-assert, Reads-bind)

module _ {A : Type 0} (Q : World → A → Type 0) (P : Effect → Type 0) where
  ReadsAt-Extends : (w : World) (r : Outcome A) → ReadsAt Q w r → Extends P w (world r)
  ReadsAt-Extends w (ok a v) h = rw h.0 (Extends-refl w)
  ReadsAt-Extends w (halt s v) h = rw h (Extends-refl w)

module _ {A : Type 0} (Q : A → Type 0) where
  ReadsAt-OnOk : (w : World) (r : Outcome A) → ReadsAt (λ _ a. Q a) w r → OnOk Q r
  ReadsAt-OnOk w (ok a v) h = h.1
  ReadsAt-OnOk w (halt s v) h = tt

-- what only reads has no effects
pub Emits-Reads :
    {A : Type 0} {Q : World → A → Type 0} {P : Effect → Type 0} (m : Exec A) → Reads Q m → Emits P m
Emits-Reads {Q = Q} {P = P} m h = record { at = λ w. ReadsAt-Extends Q P w (m w) (h.at w) }

pub Returns-Reads : {A : Type 0} {Q : A → Type 0} (m : Exec A) → Reads (λ _ a. Q a) m → Returns Q m
Returns-Reads {Q = Q} m h = record { at = λ w. ReadsAt-OnOk Q w (m w) (h.at w) }

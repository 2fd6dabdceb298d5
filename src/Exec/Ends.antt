-- ===== src/Exec/Ends.antt =====
-- Actions that do not run out of rounds, one rule for each way to build one.
use capdl.Base.{◌≡◌, refl, ℕ, Bool, true, false, Option, none, some, ◌==◌, if◌then◌else◌}
use capdl.Platform.{Platform}
use capdl.Platform.Calls.{Invocation}
use capdl.Exec.{
  World, Stop, Outcome, ok, halt, Exec, pure, and_then, ◌>>=◌, stop, gets, modify, fatal_if,
  fatal_iferr, assert, deref, invoke, invoke_checked,
}

-- the outcome is not that the rounds of a loop are used up
abbrev pub HasEnd : {A : Type 0} → Outcome A → Type 0
HasEnd (ok _ _) = Unit
HasEnd (halt Stop.fatal _) = Unit
HasEnd (halt Stop.undefined _) = Unit
HasEnd (halt Stop.out_of_fuel _) = ⊥

pub record Ends {A : Type 0} (m : Exec A) : Type 0 where
  pub at : (w : World) → HasEnd (m w)

module _ {A : Type 0} where
  pub Ends-pure : (a : A) → Ends (pure a)
  Ends-pure a = record { at = λ w. tt }

  pub Ends-gets : (f : World → A) → Ends (gets f)
  Ends-gets f = record { at = λ w. tt }

  pub Ends-fatal : Ends (stop {A = A} Stop.fatal)
  Ends-fatal = record { at = λ w. tt }

  pub Ends-undefined : Ends (stop {A = A} Stop.undefined)
  Ends-undefined = record { at = λ w. tt }

  pub Ends-deref : (o : Option A) → Ends (deref o)
  Ends-deref none = Ends-undefined
  Ends-deref (some a) = Ends-pure a

  pub Ends-if :
      (b : Bool) (m n : Exec A)
      → (b ≡ true → Ends m)
      → (b ≡ false → Ends n)
      → Ends (if b then m else n)
  Ends-if true m n hm hn = hm refl
  Ends-if false m n hm hn = hn refl

module _ {A B : Type 0} where
  and_then-HasEnd :
      (r : Outcome A) (k : A → Exec B) → HasEnd r → ((a : A) → Ends (k a)) → HasEnd (and_then r k)
  and_then-HasEnd (ok a w) k h hk = (hk a).at w
  and_then-HasEnd (halt Stop.fatal w) k h hk = tt
  and_then-HasEnd (halt Stop.undefined w) k h hk = tt
  and_then-HasEnd (halt Stop.out_of_fuel w) k h hk = h

  pub Ends-bind : (m : Exec A) (k : A → Exec B) → Ends m → ((a : A) → Ends (k a)) → Ends (m >>= k)
  Ends-bind m k hm hk = record { at = λ w. and_then-HasEnd (m w) k (hm.at w) hk }

pub Ends-modify : (f : World → World) → Ends (modify f)
Ends-modify f = record { at = λ w. tt }

pub Ends-fatal_if : (b : Bool) → Ends (fatal_if b)
Ends-fatal_if true = Ends-fatal
Ends-fatal_if false = Ends-pure tt

pub Ends-assert : (b : Bool) → Ends (assert b)
Ends-assert true = Ends-pure tt
Ends-assert false = Ends-fatal

pub Ends-fatal_iferr : (e : ℕ) → Ends (fatal_iferr e)
Ends-fatal_iferr e =
    Ends-if (e == 0) (pure tt) (stop Stop.fatal) (λ _. Ends-pure tt) (λ _. Ends-fatal)

pub Ends-invoke : (p : Platform) (i : Invocation) → Ends (invoke p i)
unfolding invoke
Ends-invoke p i = record { at = λ w. tt }

pub Ends-invoke_checked : (p : Platform) (i : Invocation) → Ends (invoke_checked p i)
unfolding invoke_checked
Ends-invoke_checked p i =
    Ends-bind (invoke p i) (λ r. fatal_iferr r.error) (Ends-invoke p i)
      λ r. Ends-fatal_iferr r.error

pub ruleset ends_rules = (
  Ends-pure, Ends-gets, Ends-fatal, Ends-undefined, Ends-deref, Ends-if, Ends-bind, Ends-modify,
  Ends-fatal_if, Ends-assert, Ends-fatal_iferr, Ends-invoke, Ends-invoke_checked,
)

-- ===== src/Exec.antt =====
-- The loader's variables, and its functions as actions on them that may stop the loader.
pub mod Emits
pub mod Reads
pub mod Ends
use capdl.Base.{
  ℕ, zero, suc, ◌+◌, Bool, true, false, Option, none, some, List, [], ◌∷◌, ◌++◌, ◌==◌,
  if◌then◌else◌,
}
use capdl.Spec.{Model}
use capdl.Platform.{Platform, Header}
use capdl.Platform.Calls.{Invocation, Reply, Effect, call}

-- The static variables of main.c, with the specification, to which the loader writes too. `trace` is
-- what the loader has done so far, in order.
pub record World : Type 0 where
  pub spec : Model
  pub capdl_to_sel4_orig : ℕ → ℕ
  pub capdl_to_sel4_copy : ℕ → ℕ
  pub capdl_to_sel4_irq : ℕ → ℕ
  pub capdl_to_sched_ctrl : ℕ → ℕ
  pub untyped_cptrs : ℕ → ℕ
  pub free_slot_start : ℕ
  pub free_slot_end : ℕ
  pub first_arm_iospace : ℕ
  pub copy_addr : ℕ
  pub sid_number : ℕ
  pub extended_bootinfo_table : ℕ → Option (ℕ × Header)
  pub trace : List Effect

-- Why the loader stopped: ZF_LOGF or a false assert; behaviour that C leaves undefined, such as an
-- array access out of bounds or a null pointer; a loop of the model that ran out of its rounds.
pub data Stop : Type 0 where
  fatal undefined out_of_fuel : Stop

pub data Outcome (A : Type 0) : Type 0 where
  ok : A → World → Outcome A
  halt : Stop → World → Outcome A

abbrev pub Exec : Type 0 → Type 0
Exec A = World → Outcome A

abbrev pub pure : {A : Type 0} → A → Exec A
pure = ok

module _ {A B : Type 0} where
  abbrev pub and_then : Outcome A → (A → Exec B) → Outcome B
  and_then (ok a w) k = k a w
  and_then (halt s w) k = halt s w

  infixl 5 ◌>>=◌ ◌>>◌
  abbrev pub ◌>>=◌ : Exec A → (A → Exec B) → Exec B
  m >>= k = λ w. and_then (m w) k

  abbrev pub ◌>>◌ : Exec A → Exec B → Exec B
  m >> n = m >>= λ _. n

abbrev pub stop : {A : Type 0} → Stop → Exec A
stop = halt

-- the world that an outcome leaves behind, finished or not
abbrev pub world : {A : Type 0} → Outcome A → World
world (ok _ w) = w
world (halt _ w) = w

abbrev pub gets : {A : Type 0} → (World → A) → Exec A
gets f w = ok (f w) w

abbrev pub modify : (World → World) → Exec (Unit {0})
modify f w = ok tt (f w)

abbrev pub when : Bool → Exec (Unit {0}) → Exec (Unit {0})
when b m = if b then m else pure tt

-- ZF_LOGF_IF(c)
abbrev pub fatal_if : Bool → Exec (Unit {0})
fatal_if b = if b then stop Stop.fatal else pure tt

-- ZF_LOGF_IFERR(error)
abbrev pub fatal_iferr : ℕ → Exec (Unit {0})
fatal_iferr e = if e == 0 then pure tt else stop Stop.fatal

-- assert(c)
abbrev pub assert : Bool → Exec (Unit {0})
assert b = if b then pure tt else stop Stop.fatal

-- an access through a pointer or to an array element, `none` if there is no such thing
abbrev pub deref : {A : Type 0} → Option A → Exec A
deref none = stop Stop.undefined
deref (some a) = pure a

abbrev pub effect : Effect → Exec (Unit {0})
effect e w = ok tt (record w { trace = w.trace ++ e ∷ [] })

-- a system call
unfoldable pub invoke : Platform → Invocation → Exec Reply
invoke p i w = ok (p.kernel w.trace i) (record w { trace = w.trace ++ call i ∷ [] })

-- a system call whose error is fatal
unfoldable pub invoke_checked : Platform → Invocation → Exec (Unit {0})
unfolding invoke
invoke_checked p i = do r ← invoke p i; fatal_iferr r.error

-- for (i = first; i < first + rounds; i++) body(i)
unfoldable pub for_range : ℕ → ℕ → (ℕ → Exec (Unit {0})) → Exec (Unit {0})
for_range zero i body = pure tt
for_range (suc rounds) i body = do body i; for_range rounds (i + 1) body

unfoldable pub for_each : {A : Type 0} → List A → (A → Exec (Unit {0})) → Exec (Unit {0})
for_each [] body = pure tt
for_each (x ∷ xs) body = do body x; for_each xs body

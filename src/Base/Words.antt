-- ===== src/Base/Words.antt =====
-- C's integers as native numbers: wrap-around, shifts, conversions and single bits.
use Prim.Native.Nat.{ℕ, ◌+◌, ◌-◌, ◌/◌, ◌%◌, ◌^◌, ◌<◌, ◌≤◌}
use mathlib.Core.Bool.{Bool}
use mathlib.Core.Path.{◌≡◌, ◌∙◌}
use native.Mathlib.Omega.{arith}
use capdl.Base.Tests.{ltb, ◌==◌, if◌then◌else◌}

-- the value of `n` in an unsigned type of `w` bits
abbrev pub wrap : ℕ → ℕ → ℕ
wrap w n = n % 2 ^ w

-- `a - b` in an unsigned type of `w` bits
abbrev pub wrap_sub : ℕ → ℕ → ℕ → ℕ
wrap_sub w a b = (a + 2 ^ w - b % 2 ^ w) % 2 ^ w

-- a conversion to `uint8_t` and to `unsigned int`
abbrev pub u8 : ℕ → ℕ
u8 n = n % 256

abbrev pub u32 : ℕ → ℕ
u32 n = n % 2 ^ 32

-- a word of `w` bits that went through an `int` of 32 bits: the low half, sign-extended
abbrev pub through_int : ℕ → ℕ → ℕ
through_int w n = let l = n % 2 ^ 32 in if ltb l (2 ^ 31) then l else l + (2 ^ w - 2 ^ 32)

-- `(n >> k) & 1`, and `!!(n & BIT(k))`
abbrev pub has_bit : ℕ → ℕ → Bool
has_bit n k = n / 2 ^ k % 2 == 1

pub through_int_small : (w n : ℕ) → n < 2 ^ 31 → through_int w n ≡ n
through_int_small w n h = ground arith

pub u32_small : (n : ℕ) → n < 2 ^ 32 → u32 n ≡ n
u32_small n h = omega arith

pub wrap_small : (m a : ℕ) → a < m → a % m ≡ a
wrap_small m a h = grind arith

mod_once : (m a : ℕ) → m ≤ a → a < m + m → a % m ≡ a - m
mod_once m a h k = grind arith

module _ (w a b : ℕ) where
  pub wrap_sub_ge : b ≤ a → a < 2 ^ w → wrap_sub w a b ≡ a - b
  wrap_sub_ge h k =
      let same : b % 2 ^ w ≡ b = wrap_small (2 ^ w) b (omega arith) in
      rw same (mod_once (2 ^ w) (a + 2 ^ w - b) (omega arith) (omega arith) ∙ omega arith)

  pub wrap_sub_lt : a < b → b < 2 ^ w → wrap_sub w a b ≡ a + 2 ^ w - b
  wrap_sub_lt h k =
      let same : b % 2 ^ w ≡ b = wrap_small (2 ^ w) b k in
      rw same (wrap_small (2 ^ w) (a + 2 ^ w - b) (omega arith))

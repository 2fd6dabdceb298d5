-- ===== src/Loader/Registers/Stack.antt =====
-- The arguments that `configure_tcb` writes to the stack of a new thread.
use capdl.Base.{
  ◌⊎◌, inl, inr, Bool-cases, ℕ, ◌+◌, ◌-◌, ◌*◌, ◌/◌, ◌%◌, ◌≤◌, ◌<◌, ◌^◌, ◌≡◌, refl, ◌==◌, arith,
  if◌then◌else◌,
}
use capdl.Base.Words.{wrap_sub, wrap_sub_ge}
use capdl.Platform.{Arch, Platform, word_size, word_size_of, word_bytes}
use capdl.Loader.Registers.{stack_alignment_bytes, pad_stack}

-- the words of padding before `n` arguments
abbrev pub padding : Platform → ℕ → ℕ
padding p n =
    let per = stack_alignment_bytes / word_bytes p in if n % per == 0 then 0 else per - n % per

word_bytes-cases : (a : Arch) → (word_size_of a / 8 ≡ 4) ⊎ (word_size_of a / 8 ≡ 8)
unfolding word_size_of
word_bytes-cases Arch.ia32 = inl refl
word_bytes-cases Arch.x86_64 = inr refl
word_bytes-cases Arch.aarch32 = inl refl
word_bytes-cases Arch.aarch64 = inr refl
word_bytes-cases Arch.riscv32 = inl refl
word_bytes-cases Arch.riscv64 = inr refl

pad_by_four :
    (w n sp : ℕ)
    → (if n % 4 == 0 then 0 else 4 - n % 4) * 4 ≤ sp
    → sp < 2 ^ w
    → ((if n % 4 == 0 then sp else wrap_sub w sp ((4 - n % 4) * 4))
        ≡ sp - (if n % 4 == 0 then 0 else 4 - n % 4) * 4)
      × (((if n % 4 == 0 then 0 else 4 - n % 4) + n) * 4 % 16 ≡ 0)
pad_by_four w n sp room word = elim (Bool-cases (n % 4 == 0)) [
  | inl whole ↦ simp whole (omega arith, ground arith)
  | inr part ↦
      let fits = simp part at room in
      simp part (wrap_sub_ge w sp ((4 - n % 4) * 4) fits word, ground arith)
]

pad_by_two :
    (w n sp : ℕ)
    → (if n % 2 == 0 then 0 else 2 - n % 2) * 8 ≤ sp
    → sp < 2 ^ w
    → ((if n % 2 == 0 then sp else wrap_sub w sp ((2 - n % 2) * 8))
        ≡ sp - (if n % 2 == 0 then 0 else 2 - n % 2) * 8)
      × (((if n % 2 == 0 then 0 else 2 - n % 2) + n) * 8 % 16 ≡ 0)
pad_by_two w n sp room word = elim (Bool-cases (n % 2 == 0)) [
  | inl whole ↦ simp whole (omega arith, ground arith)
  | inr part ↦
      let fits = simp part at room in
      simp part (wrap_sub_ge w sp ((2 - n % 2) * 8) fits word, ground arith)
]

-- For a stack pointer that is a word, with room below it: the padding goes below the stack pointer, and
-- with the padding the arguments take a multiple of STACK_ALIGNMENT_BYTES bytes.
pub pad_stack_lem :
    (p : Platform) (n sp : ℕ)
    → padding p n * word_bytes p ≤ sp
    → sp < 2 ^ word_size p
    → (pad_stack p n sp ≡ sp - padding p n * word_bytes p)
      × ((padding p n + n) * word_bytes p % stack_alignment_bytes ≡ 0)
unfolding pad_stack
pad_stack_lem p n sp room word = elim (word_bytes-cases p.arch) [
  | inl four ↦ simp four (pad_by_four (word_size p) n sp (simp four at room) word)
  | inr eight ↦ simp eight (pad_by_two (word_size p) n sp (simp eight at room) word)
]

-- ===== src/Loader/Untyped/Classes.antt =====
-- The untypeds of each size, and what the first two loops of `sort_untypeds` compute from them.
use capdl.Base.{
  ℕ, zero, suc, ◌+◌, ◌-◌, ◌≤◌, ◌<◌, ◌≡◌, refl, Bool, true, false, not, ◌&&◌, some, List, [], ◌∷◌,
  ◌++◌, length, arith, leb, ◌==◌, if◌then◌else◌, lt→ltb, Bool-cases, inl, inr, ◌∙◌, sym, ◌≢◌,
}
use native.Mathlib.Decide.{dec_lt}
use capdl.Base.Words.{wrap}
use capdl.Platform.{UntypedDesc}
use capdl.Loader.Slots.{update}
use capdl.Loader.Untyped.{count_sizes, start_indices}

unfoldable pub is_of_size : ℕ → UntypedDesc → Bool
is_of_size s d = not d.is_device && d.size_bits == s

-- how many untypeds of size `s` there are, device memory left aside
unfoldable pub size_count : ℕ → List UntypedDesc → ℕ
size_count s [] = 0
size_count s (d ∷ rest) = (if is_of_size s d then 1 else 0) + size_count s rest

-- their slots, in the order of the boot information, from untyped `i` on
unfoldable pub slots_of_size : (word_bits start s i : ℕ) → List UntypedDesc → List ℕ
slots_of_size w start s i [] = []
slots_of_size w start s i (d ∷ rest) =
    let more = slots_of_size w start s (i + 1) rest in
    if is_of_size s d then wrap w (start + i) ∷ more else more

-- the slots of all sizes from `s` down to 1: the largest untypeds first
unfoldable pub slots_by_size : (word_bits start s i : ℕ) → List UntypedDesc → List ℕ
slots_by_size w start zero i us = []
slots_by_size w start (suc s) i us =
    slots_of_size w start (suc s) i us ++ slots_by_size w start s i us

-- the slots of all untypeds that are not device memory, in the order of the boot information
unfoldable pub normal_slots : (word_bits start i : ℕ) → List UntypedDesc → List ℕ
normal_slots w start i [] = []
normal_slots w start i (d ∷ rest) =
    let more = normal_slots w start (i + 1) rest in
    if d.is_device then more else wrap w (start + i) ∷ more

-- how many untypeds are not device memory
unfoldable pub num_normal : List UntypedDesc → ℕ
num_normal [] = 0
num_normal (d ∷ rest) = (if d.is_device then 0 else 1) + num_normal rest

-- every untyped that is not device memory has a size from 1 to word_bits - 1
abbrev pub SizesInRange : ℕ → List UntypedDesc → Type 0
SizesInRange w [] = Unit
SizesInRange w (d ∷ rest) =
    (d.is_device ≡ false → (0 < d.size_bits) × (d.size_bits < w)) × SizesInRange w rest

module _ (w : ℕ) where
  -- the first loop counts each size
  pub count_sizes_lem :
      (us : List UntypedDesc) (c : ℕ → ℕ)
      → SizesInRange w us
      → (r : ℕ → ℕ) × (count_sizes w (length us) us c ≡ some r)
        × ((s : ℕ) → r s ≡ c s + size_count s us)
  unfolding count_sizes size_count is_of_size update
  count_sizes_lem [] c h = (c, refl, λ s. omega arith)
  count_sizes_lem (d ∷ rest) c h = elim (Bool-cases d.is_device) [
    | inl device ↦
        let (r, run, counts) = count_sizes_lem rest c h.1 in
        (r, rw device run, λ s. rw device (ground (arith, counts s)))
    | inr normal ↦
        let size = d.size_bits in
        let c' = update c size (c size + 1) in
        let (r, run, counts) = count_sizes_lem rest c' h.1 in
        let fits = lt→ltb size w (h.0 normal).1 in
        (r, rw (normal, fits) run, λ s. rw normal (ground (arith, counts s)))
  ]

-- Σ f t for the t above `s` and up to `top`
unfoldable pub sum_above : (f : ℕ → ℕ) → (top s : ℕ) → ℕ
sum_above f zero s = 0
sum_above f (suc top) s = (if leb (suc top) s then 0 else f (suc top)) + sum_above f top s

pub sum_above_ext :
    (f g : ℕ → ℕ) (top s : ℕ)
    → ((t : ℕ) → 0 < t → t ≤ top → f t ≡ g t)
    → sum_above f top s ≡ sum_above g top s
unfolding sum_above
sum_above_ext f g zero s h = refl
sum_above_ext f g (suc top) s h =
    ground (arith, h (suc top), sum_above_ext f g top s (λ t p q. h t p (omega arith)))

pub sum_above_self : (f : ℕ → ℕ) (top s : ℕ) → top ≤ s → sum_above f top s ≡ 0
unfolding sum_above
sum_above_self f zero s h = refl
sum_above_self f (suc top) s h = ground (arith, sum_above_self f top s)

pub sum_above_step :
    (f : ℕ → ℕ) (top s : ℕ) → suc s ≤ top → sum_above f top s ≡ f (suc s) + sum_above f top (suc s)
unfolding sum_above
sum_above_step f zero s h = absurd (omega arith)
sum_above_step f (suc top) s h = elim (dec_lt s top) [
  | yes below ↦ ground (arith, sum_above_step f top s)
  | no last ↦ ground (arith, sum_above_self f top s, sum_above_self f top (suc s))
]

pub sum_above_lt :
    (f : ℕ → ℕ) (top s t : ℕ) → s < t → t ≤ top → f t + sum_above f top t ≤ sum_above f top s
unfolding sum_above
sum_above_lt f zero s t p q = absurd (omega arith)
sum_above_lt f (suc top) s t p q = elim (dec_lt t (suc top)) [
  | yes below ↦ ground (arith, sum_above_lt f top s t)
  | no last ↦ ground (arith, sum_above_self f top t)
]

-- sizes above the one that is reached keep their entry
start_indices_above :
    (top total : ℕ) (c : ℕ → ℕ) (s : ℕ) → top < s → start_indices top total c s ≡ c s
unfolding start_indices update
start_indices_above zero total c s h = refl
start_indices_above (suc top) total c s h =
    start_indices_above top (total + c (suc top)) (update c (suc top) total) s (omega arith)
    ∙ ground arith

-- the second loop turns the counts into the index at which each size starts
pub start_indices_lem :
    (f : ℕ → ℕ) (top total : ℕ) (c : ℕ → ℕ) (s : ℕ)
    → ((t : ℕ) → t ≤ top → c t ≡ f t)
    → 0 < s
    → s ≤ top
    → start_indices top total c s ≡ total + sum_above f top s
unfolding start_indices sum_above update
start_indices_lem f zero total c s h p q = absurd (omega arith)
start_indices_lem f (suc top) total c s h p q =
    let c' = update c (suc top) total in
    let total' = total + c (suc top) in
    elim (dec_lt s (suc top)) [
      | yes below ↦
          start_indices_lem f top total' c' s (λ t b. ground (arith, h t)) p (omega arith)
          ∙ ground (arith, h (suc top))
      | no last ↦
          start_indices_above top total' c' s (omega arith) ∙ ground (arith, sum_above_self f top s)
    ]

sum_above_add :
    (f g : ℕ → ℕ) (top s : ℕ)
    → sum_above (λ t. f t + g t) top s ≡ sum_above f top s + sum_above g top s
unfolding sum_above
sum_above_add f g zero s = refl
sum_above_add f g (suc top) s = ground (arith, sum_above_add f g top s)

abbrev one_at : UntypedDesc → ℕ → ℕ
one_at d t = if is_of_size t d then 1 else 0

sum_one_at_zero :
    (d : UntypedDesc) (top : ℕ)
    → ((t : ℕ) → 0 < t → t ≤ top → is_of_size t d ≡ false)
    → sum_above (one_at d) top 0 ≡ 0
unfolding sum_above
sum_one_at_zero d zero h = refl
sum_one_at_zero d (suc top) h =
    rw (h (suc top) (omega arith) (omega arith))
      (ground (arith, sum_one_at_zero d top (λ t p q. h t p (omega arith))))

sum_one_at :
    (d : UntypedDesc) (top : ℕ)
    → d.is_device ≡ false
    → 0 < d.size_bits
    → d.size_bits ≤ top
    → sum_above (one_at d) top 0 ≡ 1
unfolding sum_above is_of_size
sum_one_at d zero n p q = absurd (omega arith)
sum_one_at d (suc top) n p q = elim (dec_lt d.size_bits (suc top)) [
  | yes below ↦ ground (arith, sum_one_at d top)
  | no last ↦ ground (arith, sum_one_at_zero d top (λ t a b. ground arith))
]

sum_above_const : (top : ℕ) → sum_above (λ _. 0) top 0 ≡ 0
unfolding sum_above
sum_above_const zero = refl
sum_above_const (suc top) = ground (arith, sum_above_const top)

pub not_of_size : (d : UntypedDesc) (t : ℕ) → d.is_device ≡ true → is_of_size t d ≡ false
unfolding is_of_size
not_of_size d t device = rw device

-- every untyped that is not device memory is counted at one size
pub num_normal_lem :
    (w : ℕ) (us : List UntypedDesc)
    → SizesInRange w us
    → num_normal us ≡ sum_above (λ s. size_count s us) (w - 1) 0
unfolding num_normal size_count
num_normal_lem w [] h = sym (sum_above_const (w - 1))
num_normal_lem w (d ∷ rest) h =
    let others = λ (s : ℕ). size_count s rest in
    let split = sym (sum_above_add (one_at d) others (w - 1) 0) in
    let ih = num_normal_lem w rest h.1 in
    elim (Bool-cases d.is_device) [
      | inl device ↦
          simp device
            (omega (arith, ih, sum_one_at_zero d (w - 1) (λ t a b. not_of_size d t device)))
          ∙ split
      | inr normal ↦
          let (pos, small) = h.0 normal in
          simp normal (omega (arith, ih, sum_one_at d (w - 1) normal pos (omega arith))) ∙ split
    ]

-- one untyped more or less of a size
module _ (w start s i : ℕ) (d : UntypedDesc) (rest : List UntypedDesc) where
  pub size_count_hit : is_of_size s d ≡ true → size_count s (d ∷ rest) ≡ suc (size_count s rest)
  unfolding size_count
  size_count_hit h = rw h (omega arith)

  pub size_count_miss : is_of_size s d ≡ false → size_count s (d ∷ rest) ≡ size_count s rest
  unfolding size_count
  size_count_miss h = rw h (omega arith)

  pub slots_of_size_hit :
      is_of_size s d ≡ true
      → slots_of_size w start s i (d ∷ rest)
        ≡ wrap w (start + i) ∷ slots_of_size w start s (i + 1) rest
  unfolding slots_of_size
  slots_of_size_hit h = rw h

  pub slots_of_size_miss :
      is_of_size s d ≡ false
      → slots_of_size w start s i (d ∷ rest) ≡ slots_of_size w start s (i + 1) rest
  unfolding slots_of_size
  slots_of_size_miss h = rw h

pub is_of_size_self : (d : UntypedDesc) → d.is_device ≡ false → is_of_size d.size_bits d ≡ true
unfolding is_of_size
is_of_size_self d h = ground arith

pub is_of_size_ne : (d : UntypedDesc) (s : ℕ) → s ≢ d.size_bits → is_of_size s d ≡ false
unfolding is_of_size
is_of_size_ne d s h = ground arith

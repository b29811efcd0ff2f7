-- ===== src/Firmware/Words.antt =====
-- Where the words of the firmware's image come from: the low halves are the blocks of 0x4000
-- 16-bit words at even places, the high halves those at odd places.
use apple_silicon_platforms.Prelude.{
  ℕ, zero, suc, ◌+◌, ◌*◌, ◌/◌, ◌%◌, ◌^◌, ◌≤◌, ◌<◌, ◌≡◌, ◌↔◌, ◌⊎◌, inl, inr, ap, ◌∙◌, true, false,
  none, some, List, get_elem?, bit_or, bit_and-pow, bit_or-pow, bit_or-halves, nothing-bit_or, ltb,
  if◌then◌else◌, arith,
}
use native.Mathlib.Nat.{pow-suc}
use native.Mathlib.Decide.{dec_lt}
use apple_silicon_platforms.Firmware.Upload.{next_index}

-- The place of the k-th word's low half.
abbrev pub position : ℕ → ℕ
position k = k / 0x4000 * 0x8000 + k % 0x4000

-- The number of words in the image of so many halves.
abbrev pub word_count : ℕ → ℕ
word_count chunks =
    chunks / 0x8000 * 0x4000 + (if ltb (chunks % 0x8000) 0x4000 then chunks % 0x8000 else 0x4000)

-- A 16-bit half of the image, 0 behind its end.
abbrev pub half : List ℕ → ℕ → ℕ
half firmware i = elim (get_elem? firmware i) [ none ↦ 0 | some h ↦ h ]

-- The k-th word of the image.
abbrev pub word : List ℕ → ℕ → ℕ
word firmware k = half firmware (position k) + half firmware (position k + 0x4000) * 2 ^ 16

pub next_index-position : (k : ℕ) → position k < 2 ^ 62 → next_index (position k) ≡ position (k + 1)
unfolding next_index
next_index-position k small = ground (arith, bit_and-pow 14 (position k + 1))

pub bit_or-position : (k : ℕ) → bit_or (position k) 0x4000 ≡ position k + 0x4000
bit_or-position k = omega (arith, bit_or-pow 14 (position k))

pub position-lt_iff : (k chunks : ℕ) → (ltb (position k) chunks ≡ true) ↔ (k < word_count chunks)
position-lt_iff k chunks = ground arith

pub position-not_lt : (k chunks : ℕ) → word_count chunks ≤ k → ltb (position k) chunks ≡ false
position-not_lt k chunks h = ground arith

-- The halves of two numbers that do not overlap.
pub bit_or-disjoint : (n a b : ℕ) → a < 2 ^ n → bit_or a (b * 2 ^ n) ≡ a + b * 2 ^ n
bit_or-disjoint zero a b h =
    let e : a ≡ 0 = omega arith in rw e (nothing-bit_or (b * 2 ^ 0) ∙ omega arith)
bit_or-disjoint (suc n) a b h = omega (
  arith,
  bit_or-halves a (b * 2 ^ suc n),
  pow-suc 2 n,
  ap (bit_or (a / 2)) (half_shift n b),
  double n b,
  bit_or-disjoint n (a / 2) b (omega (arith, pow-suc 2 n)),
)
  where
    double : (n b : ℕ) → b * 2 ^ suc n ≡ b * 2 ^ n * 2
    double n b = grind (arith, pow-suc 2 n)

    half_shift : (n b : ℕ) → b * 2 ^ suc n / 2 ≡ b * 2 ^ n
    half_shift n b = omega (arith, double n b)

-- Each half of the image is the low or the high half of exactly one word.
pub position_covers :
    (j chunks : ℕ)
    → j < chunks
    → (k : ℕ) × (k < word_count chunks) × ((position k ≡ j) ⊎ (position k + 0x4000 ≡ j))
position_covers j chunks h = (
  j / 0x8000 * 0x4000 + j % 0x4000,
  ground arith,
  elim (dec_lt (j % 0x8000) 0x4000) [ yes p ↦ inl (omega arith) | no p ↦ inr (omega arith) ],
)

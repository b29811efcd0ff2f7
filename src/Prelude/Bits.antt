-- ===== src/Prelude/Bits.antt =====
-- Laws of the bit operations at variables. `bit k x` is bit k of x; the laws reduce a claim about
-- `bit_and` and `bit_or` to one about single bits, and a mask of low bits to `%`.
use Prim.Native.Nat.{ℕ, zero, suc, ◌+◌, ◌-◌, ◌*◌, ◌/◌, ◌%◌, ◌^◌, ◌≤◌, ◌<◌, min, max}
use Prim.Native.Nat.{bit_and, bit_or, digits, bit_and-bitwise, bit_or-bitwise}
use mathlib.Core.Path.{◌≡◌, refl, ◌∙◌, ap, subst}
use mathlib.Core.Bool.{Bool, true, false}
use mathlib.Core.Logic.{ite, ◌↔◌}
use native.Mathlib.Decide.{ℕ_discrete, dec_lt}
use native.Mathlib.Omega.{arith}
use native.Mathlib.Nat.{pow-suc, div-add-mod, div-div-eq-div-mul, mul_comm}

-- More fuel than the first number's digits changes nothing.
abbrev top_up : ℕ → ℕ → ℕ
top_up zero n = n
top_up (suc c) n = suc (top_up c n)

top_up-sum : (c n : ℕ) → top_up c n ≡ n + c
top_up-sum zero n = omega arith
top_up-sum (suc c) n = omega (arith, top_up-sum c n)

module _ (tail : ℕ → ℕ) (op : ℕ → ℕ → ℕ) where
  spare : (a b n : ℕ) → a ≤ n → digits tail op (suc n) a b ≡ digits tail op n a b
  spare zero b zero h = refl
  spare zero b (suc n) h = refl
  spare (suc a) b zero h = elim h [ ]
  spare (suc a) b (suc n) h =
      ap (λ (t : ℕ). t * 2 + op (suc a % 2) (b % 2)) (spare (suc a / 2) (b / 2) n (omega arith))

  surplus : (c n a b : ℕ) → a ≤ n → digits tail op (top_up c n) a b ≡ digits tail op n a b
  surplus zero n a b h = refl
  surplus (suc c) n a b h =
      spare a b (top_up c n) (omega (arith, top_up-sum c n)) ∙ surplus c n a b h

  -- The lowest digit apart from the rest.
  halves :
      (a b : ℕ)
      → digits tail op (suc a) (suc a) b
        ≡ digits tail op (suc a / 2) (suc a / 2) (b / 2) * 2 + op (suc a % 2) (b % 2)
  halves a b =
      let h : ℕ = suc a / 2 in
      ap (λ (t : ℕ). t * 2 + op (suc a % 2) (b % 2))
        (subst (λ n. digits tail op n h (b / 2) ≡ digits tail op h h (b / 2))
          (omega (arith, top_up-sum (a - h) h)) (surplus (a - h) h h (b / 2) (omega arith)))

nothing-bit_and : (b : ℕ) → bit_and 0 b ≡ 0
nothing-bit_and b = bit_and-bitwise 0 b

pub bit_and-halves : (a b : ℕ) → bit_and a b ≡ min (a % 2) (b % 2) + 2 * bit_and (a / 2) (b / 2)
bit_and-halves zero b = omega (arith, nothing-bit_and b, nothing-bit_and (b / 2))
bit_and-halves (suc a) b =
    let rest = bit_and-bitwise (suc a / 2) (b / 2) in
    omega (arith, halves (λ _. 0) min a b, rest, bit_and-bitwise (suc a) b)

pub nothing-bit_or : (b : ℕ) → bit_or 0 b ≡ b
nothing-bit_or b = bit_or-bitwise 0 b

pub bit_or-halves : (a b : ℕ) → bit_or a b ≡ max (a % 2) (b % 2) + 2 * bit_or (a / 2) (b / 2)
bit_or-halves zero b = omega (arith, nothing-bit_or b, nothing-bit_or (b / 2))
bit_or-halves (suc a) b =
    let rest = bit_or-bitwise (suc a / 2) (b / 2) in
    omega (arith, halves (λ y. y) max a b, rest, bit_or-bitwise (suc a) b)

abbrev pub bit : ℕ → ℕ → ℕ
bit zero x = x % 2
bit (suc k) x = bit k (x / 2)

pub bit-bit_and : (k a b : ℕ) → bit k (bit_and a b) ≡ min (bit k a) (bit k b)
bit-bit_and zero a b = omega (arith, bit_and-halves a b)
bit-bit_and (suc k) a b =
    ap (bit k) (omega (arith, bit_and-halves a b)) ∙ bit-bit_and k (a / 2) (b / 2)

pub bit-bit_or : (k a b : ℕ) → bit k (bit_or a b) ≡ max (bit k a) (bit k b)
bit-bit_or zero a b = omega (arith, bit_or-halves a b)
bit-bit_or (suc k) a b =
    ap (bit k) (omega (arith, bit_or-halves a b)) ∙ bit-bit_or k (a / 2) (b / 2)

pub bit-lt : (k a : ℕ) → bit k a < 2
bit-lt zero a = omega arith
bit-lt (suc k) a = bit-lt k (a / 2)

-- `ones k` is the mask of the k low bits, 2 ^ k - 1.
abbrev pub ones : ℕ → ℕ
ones zero = 0
ones (suc k) = ones k * 2 + 1

bounded : (n b a : ℕ) → a ≤ n → bit_and a b ≤ b
bounded n b zero h = omega (arith, nothing-bit_and b)
bounded zero b (suc a) h = elim h [ ]
bounded (suc n) b (suc a) h =
    let rest = bounded n (b / 2) (suc a / 2) (omega arith) in
    omega (arith, rest, bit_and-halves (suc a) b)

pub bit_and-le : (a b : ℕ) → bit_and a b ≤ b
bit_and-le a b = bounded a b a (omega arith)

pub bit_and-zero : (a : ℕ) → bit_and a 0 ≡ 0
bit_and-zero a = omega (arith, bit_and-le a 0)

mod-double : (x m : ℕ) → x % (m * 2) ≡ x / 2 % m * 2 + x % 2
mod-double x m = omega (
  arith,
  div-add-mod x (m * 2),
  div-add-mod (x / 2) m,
  ap (λ (t : ℕ). m * t) (div-div-eq-div-mul x 2 m),
  ap (λ (t : ℕ). m * (x / t)) (mul_comm 2 m),
)

mod_pow-suc : (k x : ℕ) → x % 2 ^ suc k ≡ x / 2 % 2 ^ k * 2 + x % 2
mod_pow-suc k x = rw (pow-suc 2 k) (mod-double x (2 ^ k))

-- A mask of k low bits is the remainder by 2 ^ k.
pub bit_and-ones : (k x : ℕ) → bit_and x (ones k) ≡ x % 2 ^ k
bit_and-ones zero x = bit_and-zero x ∙ omega arith
bit_and-ones (suc k) x = omega (
  arith,
  bit_and-halves x (ones (suc k)),
  ap (bit_and (x / 2)) (half_ones k),
  bit_and-ones k (x / 2),
  mod_pow-suc k x,
)
  where
    half_ones : (k : ℕ) → ones (suc k) / 2 ≡ ones k
    half_ones k = omega arith

-- The low bits survive a remainder.
pub bit-mod : (k n x : ℕ) → k < n → bit k (x % 2 ^ n) ≡ bit k x
bit-mod k zero x h = absurd (omega arith)
bit-mod zero (suc n) x h = omega (arith, mod_pow-suc n x)
bit-mod (suc k) (suc n) x h =
    ap (bit k) (omega (arith, mod_pow-suc n x)) ∙ bit-mod k n (x / 2) (omega arith)

-- Low bits of a bitwise or are 0 where those of both operands are.
pub bit_or-mod_zero : (k a b : ℕ) → (bit_or a b % 2 ^ k ≡ 0) ↔ ((a % 2 ^ k ≡ 0) × (b % 2 ^ k ≡ 0))
bit_or-mod_zero zero a b = (λ h. (omega arith, omega arith), λ h. omega arith)
bit_or-mod_zero (suc k) a b = (
  λ h.
      let both = (bit_or-mod_zero k (a / 2) (b / 2)).0 (omega (arith, split_or, h)) in
      (
        omega (arith, both.0, split_or, h, mod_pow-suc k a),
        omega (arith, both.1, split_or, h, mod_pow-suc k b),
      ),
  λ h.
      let both =
        (bit_or-mod_zero k (a / 2) (b / 2)).1
          (omega (arith, h.0, mod_pow-suc k a), omega (arith, h.1, mod_pow-suc k b)) in
      omega (arith, both, split_or, h.0, h.1, mod_pow-suc k a, mod_pow-suc k b),
)
  where
    half_or : (a b : ℕ) → bit_or a b / 2 ≡ bit_or (a / 2) (b / 2)
    half_or a b = omega (arith, bit_or-halves a b)

    split_or : bit_or a b % 2 ^ suc k ≡ bit_or (a / 2) (b / 2) % 2 ^ k * 2 + max (a % 2) (b % 2)
    split_or =
        mod_pow-suc k (bit_or a b)
        ∙ omega (arith, bit_or-halves a b, ap (λ (t : ℕ). t % 2 ^ k) (half_or a b))

half_pow : (k : ℕ) → 2 ^ suc k / 2 ≡ 2 ^ k
half_pow k = omega (arith, pow-suc 2 k)

-- A single-bit mask picks that bit out.
pub bit_and-pow : (k x : ℕ) → bit_and x (2 ^ k) ≡ bit k x * 2 ^ k
bit_and-pow zero x = omega (arith, bit_and-halves x 1, bit_and-zero (x / 2))
bit_and-pow (suc k) x = omega (
  arith,
  bit_and-halves x (2 ^ suc k),
  pow-suc 2 k,
  ap (bit_and (x / 2)) (half_pow k),
  bit_and-pow k (x / 2),
  ap (λ (t : ℕ). bit k (x / 2) * t) (pow-suc 2 k),
)

-- Over a small range two functions are compared by evaluation.
module _ (f g : ℕ → ℕ) where
  unfoldable pub agree_below : ℕ → Bool
  unfolding ℕ_discrete
  agree_below zero = true
  agree_below (suc n) = ite (ℕ_discrete (f n) (g n)) (agree_below n) false

  pub agree_below→eq : (n : ℕ) → agree_below n ≡ true → (i : ℕ) → i < n → f i ≡ g i
  unfolding agree_below
  agree_below→eq zero e i h = absurd (omega arith)
  agree_below→eq (suc n) e i h = ground (arith, agree_below→eq n (ground arith) i)

below-bit_or_zero : (n a : ℕ) → a ≤ n → bit_or a 0 ≡ a
below-bit_or_zero zero a h = let e : a ≡ 0 = omega arith in rw e (nothing-bit_or 0)
below-bit_or_zero (suc n) a h = elim (dec_lt 0 a) [
  | yes p ↦ omega (arith, bit_or-halves a 0, below-bit_or_zero n (a / 2) (omega arith))
  | no p ↦ below-bit_or_zero n a (omega arith)
]

pub bit_or-zero : (a : ℕ) → bit_or a 0 ≡ a
bit_or-zero a = below-bit_or_zero a a (omega arith)

-- A bit that is set, or was set already.
pub bit_or-pow : (k x : ℕ) → bit_or x (2 ^ k) + bit k x * 2 ^ k ≡ x + 2 ^ k
bit_or-pow zero x = omega (arith, bit_or-halves x 1, bit_or-zero (x / 2))
bit_or-pow (suc k) x = omega (
  arith,
  bit_or-halves x (2 ^ suc k),
  pow-suc 2 k,
  ap (bit_or (x / 2)) (half_pow k),
  bit_or-pow k (x / 2),
  ap (λ (t : ℕ). bit k (x / 2) * t) (pow-suc 2 k),
)

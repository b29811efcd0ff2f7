-- ===== src/Timer/Control.antt =====
-- The words that the timer libraries write to a control register.
use apple_silicon_platforms.Prelude.{
  ℕ, ◌%◌, ◌^◌, ◌<◌, ◌≡◌, refl, ◌∙◌, bit, bit_and, bit_or, bit-bit_and, bit-bit_or, bit-lt, bit-mod,
  arith, agree_below, agree_below→eq, if◌then◌else◌, ◌==◌,
}
use apple_silicon_platforms.Platform.Io.{not64}
use apple_silicon_platforms.Timer.{KeepsFrom}

-- TimerCtrlReg |= ARM_ARCH_TIMER_ENABLE, and TimerCtrlReg &= ~ARM_ARCH_TIMER_ENABLE
abbrev pub with_enable : ℕ → ℕ
with_enable v = bit_or v 1

abbrev pub without_enable : ℕ → ℕ
without_enable v = bit_and v (not64 1)

-- TimerCtrlReg &= ~ARM_ARCH_TIMER_IMASK
abbrev pub without_imask : ℕ → ℕ
without_imask v = bit_and v (not64 2)

-- The bits of the three masks.
bit-one : (k : ℕ) → k < 64 → bit k 1 ≡ (if k == 0 then 1 else 0)
unfolding agree_below
bit-one k q = agree_below→eq (λ k. bit k 1) (λ k. if k == 0 then 1 else 0) 64 refl k q

bit-not_one : (k : ℕ) → k < 64 → bit k (not64 1) ≡ (if k == 0 then 0 else 1)
unfolding agree_below
bit-not_one k q = agree_below→eq (λ k. bit k (not64 1)) (λ k. if k == 0 then 0 else 1) 64 refl k q

bit-not_two : (k : ℕ) → k < 64 → bit k (not64 2) ≡ (if k == 1 then 0 else 1)
unfolding agree_below
bit-not_two k q = agree_below→eq (λ k. bit k (not64 2)) (λ k. if k == 1 then 0 else 1) 64 refl k q

bit-with_enable :
    (v k : ℕ) → k < 64 → bit k (with_enable v % 2 ^ 64) ≡ (if k == 0 then 1 else bit k v)
bit-with_enable v k q =
    bit-mod k 64 (with_enable v) q ∙ bit-bit_or k v 1 ∙ ground (arith, bit-one k q, bit-lt k v)

bit-without_enable :
    (v k : ℕ) → k < 64 → bit k (without_enable v % 2 ^ 64) ≡ (if k == 0 then 0 else bit k v)
bit-without_enable v k q =
    bit-mod k 64 (without_enable v) q
    ∙ bit-bit_and k v (not64 1)
    ∙ ground (arith, bit-not_one k q, bit-lt k v)

bit-without_imask :
    (v k : ℕ) → k < 64 → bit k (without_imask v % 2 ^ 64) ≡ (if k == 1 then 0 else bit k v)
bit-without_imask v k q =
    bit-mod k 64 (without_imask v) q
    ∙ bit-bit_and k v (not64 2)
    ∙ ground (arith, bit-not_two k q, bit-lt k v)

pub with_enable-bits :
    (v : ℕ) → (bit 0 (with_enable v % 2 ^ 64) ≡ 1) × KeepsFrom 1 v (with_enable v % 2 ^ 64)
with_enable-bits v =
    (bit-with_enable v 0 (omega arith), λ k p q. ground (arith, bit-with_enable v k q))

pub without_enable-bits :
    (v : ℕ) → (bit 0 (without_enable v % 2 ^ 64) ≡ 0) × KeepsFrom 1 v (without_enable v % 2 ^ 64)
without_enable-bits v =
    (bit-without_enable v 0 (omega arith), λ k p q. ground (arith, bit-without_enable v k q))

-- TimerCtrlReg is a UINTN, so the value in between is taken below 2 ^ 64.
pub reenabled-bits :
    (v : ℕ)
    → (bit 0 (without_imask (with_enable v % 2 ^ 64) % 2 ^ 64) ≡ 1)
      × (bit 1 (without_imask (with_enable v % 2 ^ 64) % 2 ^ 64) ≡ 0)
      × KeepsFrom 2 v (without_imask (with_enable v % 2 ^ 64) % 2 ^ 64)
reenabled-bits v = (
  at 0 (omega arith) ∙ bit-with_enable v 0 (omega arith),
  at 1 (omega arith),
  λ k p q. ground (arith, at k q, bit-with_enable v k q),
)
  where
    at :
        (k : ℕ)
        → k < 64
        → bit k (without_imask (with_enable v % 2 ^ 64) % 2 ^ 64)
          ≡ (if k == 1 then 0 else bit k (with_enable v % 2 ^ 64))
    at k q = bit-without_imask (with_enable v % 2 ^ 64) k q

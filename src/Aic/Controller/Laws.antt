-- ===== src/Aic/Controller/Laws.antt =====
-- What the shared register accesses do, and where.
use apple_silicon_platforms.Prelude.{
  ℕ, ◌+◌, ◌*◌, ◌/◌, ◌%◌, ◌^◌, ◌<◌, ◌≡◌, refl, true, false, ◌∷◌, ltb, if◌then◌else◌, arith, bit_and,
  bit_and-le, agree_below, agree_below→eq,
}
use apple_silicon_platforms.Platform.Io.{Device, Trace, ret, mmio, store}
use apple_silicon_platforms.Aic.Regs.{
  AicVersion, AicInfo, version1, version2, aic_mask_reg, aic_mask_bit,
}
use native.Mathlib.Nat.{div-eq_of_lt, mod-eq_of_lt}
use apple_silicon_platforms.Aic.Controller.{
  is_timer_source, cpu_die_offset, irq_num, irq_register, mask_interrupt, unmask_interrupt,
}

-- The 64 values of the mask, by evaluation.
mask_table : agree_below (λ k. bit_and (2 ^ k) 31) (λ k. if ltb k 5 then 2 ^ k else 0) 64 ≡ true
unfolding agree_below
mask_table = refl

-- AIC_MASK_BIT (num) is bit `num % 64` where that is below 5, and 0 everywhere else.
pub aic_mask_bit_lem :
    (num : ℕ) → aic_mask_bit num ≡ (if ltb (num % 64) 5 then 2 ^ (num % 64) else 0)
unfolding aic_mask_bit
aic_mask_bit_lem num = agree_below→eq _ _ 64 mask_table (num % 64) (omega arith)

pub cpu_die_offset-first_die :
    (version : AicVersion) (info : AicInfo) (source : ℕ)
    → source < info.max_irqs
    → cpu_die_offset version info source ≡ 0
unfolding cpu_die_offset
cpu_die_offset-first_die version2 info source h = rw (div-eq_of_lt h) (omega arith)
cpu_die_offset-first_die version1 info source h = refl
cpu_die_offset-first_die _ info source h = refl

pub irq_num-first_die :
    (info : AicInfo) (source : ℕ)
    → source < info.max_irqs
    → info.max_irqs < 2 ^ 16
    → irq_num info source ≡ source
unfolding irq_num
irq_num-first_die info source h m = rw (mod-eq_of_lt h) (omega arith)

-- On an IRQ of the first die every access goes to word `source / 32` of its block.
pub irq_register-first_die :
    (version : AicVersion) (info : AicInfo) (base offset source : ℕ)
    → source < info.max_irqs
    → info.max_irqs < 2 ^ 16
    → base + offset + 2 ^ 16 < 2 ^ 64
    → irq_register version info base offset source ≡ base + offset + 4 * (source / 32)
unfolding irq_register aic_mask_reg
irq_register-first_die version info base offset source h m b =
    rw (cpu_die_offset-first_die version info source h, irq_num-first_die info source h m)
      (omega arith)

-- The two writes: none for a timer FIQ, and else one, of the IRQ's mask to the IRQ's register.
module _ (version : AicVersion) (info : AicInfo) (base source offset : ℕ) (d : Device)
    (t : Trace) where
  pub mask_interrupt-timer :
      is_timer_source source ≡ true → mask_interrupt version info base source offset d t ≡ ret tt t
  unfolding mask_interrupt
  mask_interrupt-timer e = rw e

  pub mask_interrupt-irq :
      is_timer_source source ≡ false
      → mask_interrupt version info base source offset d t
        ≡ ret tt (
            store
              (mmio (irq_register version info base offset source))
              (aic_mask_bit (irq_num info source) % 2 ^ 32)
            ∷ t)
  unfolding mask_interrupt
  mask_interrupt-irq e = rw e

  pub unmask_interrupt-timer :
      is_timer_source source ≡ true
      → unmask_interrupt version info base source offset d t ≡ ret tt t
  unfolding unmask_interrupt
  unmask_interrupt-timer e = rw e

  pub unmask_interrupt-irq :
      is_timer_source source ≡ false
      → unmask_interrupt version info base source offset d t
        ≡ ret tt (
            store
              (mmio (irq_register version info base offset source))
              (aic_mask_bit (irq_num info source) % 2 ^ 32)
            ∷ t)
  unfolding unmask_interrupt
  unmask_interrupt-irq e = rw e

pub aic_mask_bit-lt : (num : ℕ) → aic_mask_bit num < 32
unfolding aic_mask_bit
aic_mask_bit-lt num = omega (arith, bit_and-le (2 ^ (num % 64)) 31)

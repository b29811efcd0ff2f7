-- ===== src/Aic/Driver/Masking.antt =====
-- AppleAicV2MaskInterrupt and AppleAicV2UnmaskInterrupt over a laid-out register map: which word
-- they write, and with what.
use apple_silicon_platforms.Prelude.{
  ℕ, ltb, if◌then◌else◌, ◌+◌, ◌*◌, ◌/◌, ◌%◌, ◌^◌, ◌≤◌, ◌<◌, ◌≡◌, true, false, ◌∷◌, arith,
}
use apple_silicon_platforms.Platform.Status.{success, unsupported}
use apple_silicon_platforms.Platform.Io.{Device, Trace, ret, mmio, store, asserted}
use apple_silicon_platforms.Aic.Controller.{is_timer_source}
use apple_silicon_platforms.Aic.Controller.Laws.{
  mask_interrupt-irq, mask_interrupt-timer, unmask_interrupt-irq, unmask_interrupt-timer,
  aic_mask_bit_lem, irq_register-first_die, irq_num-first_die, aic_mask_bit-lt,
}
use apple_silicon_platforms.Aic.Driver.{AicState, v2_mask_interrupt, v2_unmask_interrupt}
use apple_silicon_platforms.Aic.Driver.Layout.{IsLaidOut}

-- The word of a block that holds the bit of an IRQ.
abbrev pub word_at : AicState → ℕ → ℕ → ℕ
word_at s offset source = s.base + offset + 4 * (source / 32)

-- What is written for an IRQ: its bit of the word where its number modulo 64 is below 5, and 0, which
-- neither masks nor unmasks anything, where it is 5 or more.
abbrev pub value_written : ℕ → ℕ
value_written source = if ltb (source % 64) 5 then 2 ^ (source % 64) else 0

module _ (s : AicState) (source : ℕ) (d : Device) (t : Trace) where
  pub v2_mask_interrupt-refused :
      s.info.max_irqs ≤ source → v2_mask_interrupt s source d t ≡ ret unsupported (asserted ∷ t)
  unfolding v2_mask_interrupt
  v2_mask_interrupt-refused h = ground arith

  pub v2_mask_interrupt-timer :
      source < s.info.max_irqs
      → is_timer_source source ≡ true
      → v2_mask_interrupt s source d t ≡ ret success t
  unfolding v2_mask_interrupt
  v2_mask_interrupt-timer h e =
      ground
        (arith, mask_interrupt-timer s.lib_version s.info s.base source s.irq_mask_set_offset d t e)

  -- An accepted IRQ that is no timer: one write, to the IRQ's word of the MASK_SET block.
  pub v2_mask_interrupt-irq :
      IsLaidOut s
      → s.base + s.hw_state_offset + 2 ^ 16 < 2 ^ 64
      → source < s.info.max_irqs
      → is_timer_source source ≡ false
      → v2_mask_interrupt s source d t
        ≡ ret success
            (store (mmio (word_at s s.irq_mask_set_offset source)) (value_written source) ∷ t)
  unfolding v2_mask_interrupt
  v2_mask_interrupt-irq laid room h e = ground (
    arith,
    mask_interrupt-irq s.lib_version s.info s.base source s.irq_mask_set_offset d t e,
    irq_register-first_die s.lib_version s.info s.base s.irq_mask_set_offset source h laid.few_irqs
        (omega arith),
    irq_num-first_die s.info source h laid.few_irqs,
    aic_mask_bit_lem source,
    aic_mask_bit-lt source,
  )

  pub v2_unmask_interrupt-refused :
      s.info.max_irqs ≤ source → v2_unmask_interrupt s source d t ≡ ret unsupported (asserted ∷ t)
  unfolding v2_unmask_interrupt
  v2_unmask_interrupt-refused h = ground arith

  pub v2_unmask_interrupt-timer :
      source < s.info.max_irqs
      → is_timer_source source ≡ true
      → v2_unmask_interrupt s source d t ≡ ret success t
  unfolding v2_unmask_interrupt
  v2_unmask_interrupt-timer h e = ground (
    arith,
    unmask_interrupt-timer s.lib_version s.info s.base source s.irq_mask_clear_offset d t e,
  )

  pub v2_unmask_interrupt-irq :
      IsLaidOut s
      → s.base + s.hw_state_offset + 2 ^ 16 < 2 ^ 64
      → source < s.info.max_irqs
      → is_timer_source source ≡ false
      → v2_unmask_interrupt s source d t
        ≡ ret success
            (store (mmio (word_at s s.irq_mask_clear_offset source)) (value_written source) ∷ t)
  unfolding v2_unmask_interrupt
  v2_unmask_interrupt-irq laid room h e = ground (
    arith,
    unmask_interrupt-irq s.lib_version s.info s.base source s.irq_mask_clear_offset d t e,
    irq_register-first_die s.lib_version s.info s.base s.irq_mask_clear_offset source h
        laid.few_irqs (omega arith),
    irq_num-first_die s.info source h laid.few_irqs,
    aic_mask_bit_lem source,
    aic_mask_bit-lt source,
  )

-- Where the number of IRQs is a multiple of 32, the word that a mask writes lies in the MASK_SET
-- block, and the word that an unmask writes in the MASK_CLEAR block.
word_in_block :
    (s : AicState) (source : ℕ)
    → IsLaidOut s
    → s.info.max_irqs % 32 ≡ 0
    → source < s.info.max_irqs
    → (s.base + s.irq_mask_set_offset ≤ word_at s s.irq_mask_set_offset source)
      × (word_at s s.irq_mask_set_offset source + 4 ≤ s.base + s.irq_mask_clear_offset)
      × (s.base + s.irq_mask_clear_offset ≤ word_at s s.irq_mask_clear_offset source)
      × (word_at s s.irq_mask_clear_offset source + 4 ≤ s.base + s.hw_state_offset)
word_in_block s source laid m h = omega arith

-- AIC_MASK_BIT (num) expands to `BIT (num) & GENMASK (4, 0)`, not to `BIT (num & GENMASK (4, 0))`:
-- for a source whose number modulo 64 is 5 or more, a mask and an unmask report success and write
-- the value 0, which names no IRQ.
mask_and_unmask_write_zero :
    (s : AicState) (source : ℕ) (d : Device) (t : Trace)
    → IsLaidOut s
    → s.base + s.hw_state_offset + 2 ^ 16 < 2 ^ 64
    → source < s.info.max_irqs
    → is_timer_source source ≡ false
    → 5 ≤ source % 64
    → (v2_mask_interrupt s source d t
        ≡ ret success (store (mmio (word_at s s.irq_mask_set_offset source)) 0 ∷ t))
      × (v2_unmask_interrupt s source d t
          ≡ ret success (store (mmio (word_at s s.irq_mask_clear_offset source)) 0 ∷ t))
mask_and_unmask_write_zero s source d t laid room h e high = (
  rw (v2_mask_interrupt-irq s source d t laid room h e, no_bit),
  rw (v2_unmask_interrupt-irq s source d t laid room h e, no_bit),
)
  where
    no_bit : value_written source ≡ 0
    no_bit = ground arith

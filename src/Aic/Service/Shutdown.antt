-- ===== src/Aic/Service/Shutdown.antt =====
-- Masking every IRQ: the start of the driver and ExitBootServices.
use apple_silicon_platforms.Prelude.{
  ℕ, zero, suc, ap, ◌∙◌, ◌+◌, ◌%◌, ◌^◌, ◌≤◌, ◌<◌, ◌≡◌, inl, inr, refl, false, ◌∷◌, arith,
  Bool-cases, bit, bit_and, bit-bit_and, bit_and-le,
}
use native.Mathlib.Decide.{ℕ_discrete}
use apple_silicon_platforms.Platform.Io.{
  Device, Trace, Event, load, store, mmio, Occurs, Returns, Returns-proceed, not32,
}
use apple_silicon_platforms.Aic.Regs.{aic_v2_config}
use apple_silicon_platforms.Aic.Controller.{is_timer_source}
use apple_silicon_platforms.Aic.Driver.{AicState}
use apple_silicon_platforms.Aic.Driver.Layout.{IsLaidOut}
use apple_silicon_platforms.Aic.Driver.Masking.{
  word_at, value_written, v2_mask_interrupt-irq, v2_mask_interrupt-timer,
}
use apple_silicon_platforms.Aic.Service.{mask_all, exit_boot_services}

-- The write by which an IRQ is to be masked.
abbrev pub mask_of : AicState → ℕ → Event
mask_of s source = store (mmio (word_at s s.irq_mask_set_offset source)) (value_written source)

module _ (s : AicState) (laid : IsLaidOut s)
    (room : s.base + s.hw_state_offset + 2 ^ 16 < 2 ^ 64) where
  mask_all_keeps :
      (d : Device) (e : Event) (rounds i : ℕ) (t : Trace)
      → i + rounds ≤ s.info.max_irqs
      → Occurs e t
      → Returns (λ _ t'. Occurs e t') (mask_all s i rounds d t)
  unfolding mask_all
  mask_all_keeps d e zero i t h o = o
  mask_all_keeps d e (suc rounds) i t h o = elim (Bool-cases (is_timer_source i)) [
    | inl p ↦
        rw (v2_mask_interrupt-timer s i d t (omega arith) p)
          (mask_all_keeps d e rounds (i + 1) t (omega arith) o)
    | inr n ↦
        rw (v2_mask_interrupt-irq s i d t laid room (omega arith) n)
          (mask_all_keeps d e rounds (i + 1) (mask_of s i ∷ t) (omega arith) (inr o))
  ]

  mask_all_masks :
      (d : Device) (rounds i source : ℕ) (t : Trace)
      → i + rounds ≤ s.info.max_irqs
      → i ≤ source
      → source < i + rounds
      → is_timer_source source ≡ false
      → Returns (λ _ t'. Occurs (mask_of s source) t') (mask_all s i rounds d t)
  unfolding mask_all
  mask_all_masks d zero i source t h lo hi e = absurd (omega arith)
  mask_all_masks d (suc rounds) i source t h lo hi e = elim (ℕ_discrete i source) [
    | yes p ↦
        rw (v2_mask_interrupt-irq s i d t laid room (omega arith) (ap is_timer_source p ∙ e)) (
          mask_all_keeps d (mask_of s source) rounds (i + 1) (mask_of s i ∷ t) (omega arith)
            (inl (ap (mask_of s) p)))
    | no ne ↦ elim (Bool-cases (is_timer_source i)) [
      | inl p ↦
          rw (v2_mask_interrupt-timer s i d t (omega arith) p)
            (mask_all_masks d rounds (i + 1) source t (omega arith) (omega arith) (omega arith) e)
      | inr n ↦ rw (v2_mask_interrupt-irq s i d t laid room (omega arith) n) (
          mask_all_masks d rounds (i + 1) source (mask_of s i ∷ t) (omega arith) (omega arith)
            (omega arith) e)
    ]
  ]

-- ExitBootServices, over a laid-out register map and with no more configured than supported IRQs:
-- the event comes to its end, and the last thing done is a write of the configuration register with
-- the enable bit clear. Before it, for every configured IRQ that is no timer, the IRQ's word of the
-- MASK_SET block is written: with the IRQ's bit where its number modulo 64 is below 5, and with 0,
-- which does not mask it, where it is 5 or more.
pub exit_boot_services_lem :
    (s : AicState) (source : ℕ) (d : Device) (t : Trace)
    → IsLaidOut s
    → s.base + s.hw_state_offset + 2 ^ 16 < 2 ^ 64
    → s.info.num_irqs ≤ s.info.max_irqs
    → source < s.info.num_irqs
    → is_timer_source source ≡ false
    → Returns
        (λ _ t'.
          (v : ℕ) × (before : Trace) × (t'
            ≡ store (mmio ((s.base + aic_v2_config) % 2 ^ 64)) v ∷ before)
          × (bit 0 v ≡ 0)
          × Occurs (mask_of s source) before)
        (exit_boot_services s d t)
unfolding exit_boot_services
exit_boot_services_lem s source d t laid room few inside device =
    let t1 = load (mmio s.event_reg) ∷ t in
    Returns-proceed _ _ (mask_all s 0 s.info.num_irqs d t1) _ d
      (mask_all_masks s laid room d s.info.num_irqs 0 source t1 (omega arith) (omega arith)
        (omega arith) device)
      λ _ t2 masked.
        let a : ℕ = (s.base + aic_v2_config) % 2 ^ 64 in
        let v : ℕ = d.value t2 (mmio a) % 2 ^ 32 in
        (
          bit_and v (not32 1) % 2 ^ 32,
          load (mmio a) ∷ t2,
          refl,
          omega (arith, bit-bit_and 0 v (not32 1), bit_and-le v (not32 1)),
          inr masked,
        )

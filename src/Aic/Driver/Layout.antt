-- ===== src/Aic/Driver/Layout.antt =====
-- The register map that AppleAicV2CalculateRegisterOffsets computes.
use apple_silicon_platforms.Prelude.{
  ℕ, ◌+◌, ◌*◌, ◌^◌, ◌≤◌, ◌<◌, ◌≡◌, refl, Option, arith, bit_and, bit_and-le,
}
use apple_silicon_platforms.Platform.Io.{Device, Trace, Ensures, Ensures-proceed, Ensures-after}
use apple_silicon_platforms.Platform.Adt.{Adt, node_reg, node_u32}
use apple_silicon_platforms.Aic.Regs.{
  AicVersion, version1, version2, AicInfo, num_and_max_irqs_mask,
}
use apple_silicon_platforms.Aic.Controller.{assert_node, get_num_interrupts, get_max_interrupts}
use apple_silicon_platforms.Aic.Driver.{
  AicState, block_size, place_registers, count_dies, find_event_register,
  calculate_register_offsets,
}

-- The blocks of bit registers stand in a row behind the IRQ_CFG words, HW_STATE one block further
-- on, and the die stride ends where HW_STATE begins.
pub record IsLaidOut (s : AicState) : Type 0 where
  pub few_irqs : s.info.max_irqs < 2 ^ 16
  pub start_low : s.irq_cfg_offset ≤ 0x3000
  pub software_set : s.software_set_offset ≡ s.irq_cfg_offset + 4 * s.info.max_irqs
  pub software_clear : s.software_clear_offset ≡ s.software_set_offset + block_size s.info.max_irqs
  pub mask_set : s.irq_mask_set_offset ≡ s.software_clear_offset + block_size s.info.max_irqs
  pub mask_clear : s.irq_mask_clear_offset ≡ s.irq_mask_set_offset + block_size s.info.max_irqs
  pub hw_state : s.hw_state_offset ≡ s.irq_mask_clear_offset + 2 * block_size s.info.max_irqs
  pub stride : s.irq_cfg_offset + s.info.die_stride ≡ s.hw_state_offset

place_registers-IsLaidOut :
    (s : AicState)
    → s.info.max_irqs < 2 ^ 16
    → s.irq_cfg_offset ≤ 0x3000
    → IsLaidOut (place_registers s s.irq_cfg_offset)
unfolding place_registers
place_registers-IsLaidOut s m b = omega arith

masked_small : (v : ℕ) → bit_and v num_and_max_irqs_mask < 2 ^ 16
masked_small v = omega (arith, bit_and-le v num_and_max_irqs_mask)

get_max_interrupts_small :
    (version : AicVersion) (base : ℕ) (d : Device) (t : Trace)
    → Ensures (λ m _. m < 2 ^ 16) (get_max_interrupts version base d t)
unfolding get_max_interrupts
get_max_interrupts_small version2 base d t = masked_small _
get_max_interrupts_small version1 base d t = omega arith
get_max_interrupts_small _ base d t = omega arith

count_dies-max_irqs :
    (version : AicVersion) (base : ℕ) (info : AicInfo) (d : Device) (t : Trace)
    → Ensures (λ info' _. info'.max_irqs ≡ info.max_irqs) (count_dies version base info d t)
unfolding count_dies
count_dies-max_irqs version1 base info d t = refl
count_dies-max_irqs version2 base info d t = refl
count_dies-max_irqs _ base info d t = refl

find_event_register_keeps :
    (version : AicVersion) (adt : Adt) (n : Option ℕ) (s : AicState) (d : Device) (t : Trace)
    → Ensures
        (λ s' _. (s'.info.max_irqs ≡ s.info.max_irqs) × (s'.irq_cfg_offset ≤ 0x3000))
        (find_event_register version adt n s d t)
unfolding find_event_register
find_event_register_keeps version1 adt n s d t = (refl, omega arith)
find_event_register_keeps version2 adt n s d t =
    Ensures-after _ (node_u32 adt n "aic-iack-offset" 0 d t) _ d (λ iack u. (refl, omega arith))
find_event_register_keeps _ adt n s d t = (refl, omega arith)

-- Whatever the device tree and the registers say, a run of AppleAicV2CalculateRegisterOffsets that
-- comes to its end leaves the register map laid out.
calculate_register_offsets-IsLaidOut :
    (adt : Adt) (s : AicState) (d : Device) (t : Trace)
    → Ensures (λ s' _. IsLaidOut s') (calculate_register_offsets adt s d t)
unfolding calculate_register_offsets
calculate_register_offsets-IsLaidOut adt s d t =
    Ensures-after _ (assert_node (adt.get "aic") d t) _ d λ _ t1.
      Ensures-after _ (node_reg adt (adt.get "aic") 0 s.base d t1) _ d λ base t2.
        Ensures-after _ (get_num_interrupts s.lib_version base d t2) _ d λ num t3.
          Ensures-proceed _ _ (get_max_interrupts s.lib_version base d t3) _ d
            (get_max_interrupts_small s.lib_version base d t3)
            λ most t4 small.
              Ensures-proceed _ _ (count_dies s.version base _ d t4) _ d
                (count_dies-max_irqs s.version base _ d t4)
                λ info t5 kept.
                  Ensures-proceed _ _ (find_event_register s.version adt (adt.get "aic") _ d t5) _ d
                    (find_event_register_keeps s.version adt (adt.get "aic") _ d t5)
                    λ s' t6 found. place_registers-IsLaidOut s' (omega arith) found.1

-- ===== src/Aic/Controller.antt =====
-- Drivers/AppleAicDxe/AppleAicLib.c: the register accesses that AICv1 and AICv2 share.
-- `lib_version` is that file's own mAicVersion, which only `get_aic_version` writes.
pub mod Laws
use apple_silicon_platforms.Prelude.{
  ℕ, ◌+◌, ◌*◌, ◌/◌, ◌%◌, ◌^◌, Bool, false, not, ◌||◌, Option, none, some, ◌==◌, if◌then◌else◌,
  bit_and,
}
use apple_silicon_platforms.Platform.Io.{
  Io, pure, ◌>>=◌, ◌>>◌, emit, asserted, mmio_read32, mmio_write32, read_sys, midr,
}
use apple_silicon_platforms.Platform.Adt.{Adt, node_text}
use apple_silicon_platforms.Aic.Regs.{
  AicVersion, version1, version2, version_unknown, AicInfo, aic_max_irq, aic_v1_hw_info,
  aic_v2_info_reg1, aic_v2_info_reg3, num_and_max_irqs_mask, aic_mask_reg, aic_mask_bit,
}
use text.Mathlib.Text.{◌==◌ as str_eq}

-- if (!InterruptControllerNode) ASSERT (FALSE);
abbrev pub assert_node : Option ℕ → Io (Unit {0})
assert_node none = emit asserted
assert_node (some n) = pure tt

-- AppleArmGetAicVersion
unfoldable pub get_aic_version : Adt → Io AicVersion
get_aic_version adt = do
  id ← read_sys midr
  let node = adt.get "aic"
  if bit_and (id % 2 ^ 32) 0x61000000 == 0 then pure version_unknown else do
    assert_node node
    compatible ← node_text adt node "compatible"
    if str_eq compatible "aic,2" || str_eq compatible "aic,3" then pure version2 else pure version1

-- AppleAicAcknowledgeInterrupt
abbrev pub acknowledge_interrupt : ℕ → Io ℕ
acknowledge_interrupt event_reg = mmio_read32 event_reg

-- AppleAicGetNumInterrupts
unfoldable pub get_num_interrupts : AicVersion → ℕ → Io ℕ
get_num_interrupts version2 base = do
  v ← mmio_read32 ((base + aic_v2_info_reg1) % 2 ^ 64)
  pure (bit_and v num_and_max_irqs_mask)
get_num_interrupts version1 base = do
  v ← mmio_read32 ((base + aic_v1_hw_info) % 2 ^ 64)
  pure (bit_and v num_and_max_irqs_mask)
get_num_interrupts _ base = pure 0

-- AppleAicGetMaxInterrupts
unfoldable pub get_max_interrupts : AicVersion → ℕ → Io ℕ
get_max_interrupts version2 base = do
  v ← mmio_read32 ((base + aic_v2_info_reg3) % 2 ^ 64)
  pure (bit_and v num_and_max_irqs_mask)
get_max_interrupts version1 base = pure aic_max_irq
get_max_interrupts _ base = pure 0

-- (Source == 17) || (Source == 18) || (Source == 19): the numbers reserved for the timer FIQs.
unfoldable pub is_timer_source : ℕ → Bool
is_timer_source source = source == 17 || source == 18 || source == 19

-- CpuDieNum: only AICv2 has more than one die. The division and the product are on UINTN, the
-- variable is a UINT32.
unfoldable pub cpu_die_offset : AicVersion → AicInfo → ℕ → ℕ
cpu_die_offset version2 info source = source / info.max_irqs * info.die_stride % 2 ^ 32
cpu_die_offset _ info source = 0

-- The address at which the three accesses below find an IRQ's word, and its number on its die.
unfoldable pub irq_num : AicInfo → ℕ → ℕ
irq_num info source = source % info.max_irqs % 2 ^ 32

unfoldable pub irq_register : AicVersion → AicInfo → ℕ → ℕ → ℕ → ℕ
irq_register version info base offset source =
    (base + offset + cpu_die_offset version info source + aic_mask_reg (irq_num info source))
    % 2 ^ 64

module _ (lib_version : AicVersion) (info : AicInfo) (base source : ℕ) where
  -- AppleAicMaskInterrupt
  unfoldable pub mask_interrupt : ℕ → Io (Unit {0})
  mask_interrupt mask_set_offset =
      if is_timer_source source
      then pure tt
      else mmio_write32 (irq_register lib_version info base mask_set_offset source)
          (aic_mask_bit (irq_num info source))

  -- AppleAicUnmaskInterrupt
  unfoldable pub unmask_interrupt : ℕ → Io (Unit {0})
  unmask_interrupt mask_clear_offset =
      if is_timer_source source
      then pure tt
      else mmio_write32 (irq_register lib_version info base mask_clear_offset source)
          (aic_mask_bit (irq_num info source))

  -- AppleAicReadInterruptState
  unfoldable pub read_interrupt_state : ℕ → Io Bool
  read_interrupt_state hw_state_offset = do
    v ← mmio_read32 (irq_register lib_version info base hw_state_offset source)
    pure (not (bit_and v (aic_mask_bit (irq_num info source)) == 0))

-- ===== src/Aic/Regs.antt =====
-- Include/Library/AppleAicLib.h: versions, the controller's description, registers and masks.
use apple_silicon_platforms.Prelude.{ℕ, ◌*◌, ◌/◌, ◌^◌, bit_and}
use apple_silicon_platforms.Platform.Macros.{bit_at, genmask}

-- APPLE_AIC_VERSION
pub data AicVersion : Type 0 where
  version1 version2 version3 version_unknown : AicVersion

-- AIC_INFO_STRUCT
pub record AicInfo : Type 0 where
  pub num_irqs : ℕ
  pub num_cpu_dies : ℕ
  pub max_irqs : ℕ
  pub max_cpu_dies : ℕ
  pub die_stride : ℕ
  pub reg_size : ℕ

-- AIC_MAX_IRQ, AIC_TARGET_CPU, AIC_V1_HW_INFO
abbrev pub aic_max_irq : ℕ
aic_max_irq = 0x400

abbrev pub aic_target_cpu : ℕ
aic_target_cpu = 0x3000

abbrev pub aic_v1_hw_info : ℕ
aic_v1_hw_info = 0x4

-- AIC_V2_INFO_REG1, AIC_V2_INFO_REG3, AIC_V2_CONFIG, AIC_V2_IRQ_CFG_REG
abbrev pub aic_v2_info_reg1 : ℕ
aic_v2_info_reg1 = 0x4

abbrev pub aic_v2_info_reg3 : ℕ
aic_v2_info_reg3 = 0xc

abbrev pub aic_v2_config : ℕ
aic_v2_config = 0x14

abbrev pub aic_v2_irq_cfg_reg : ℕ
aic_v2_irq_cfg_reg = 0x2000

-- AIC_V2_NUM_AND_MAX_IRQS_MASK
abbrev pub num_and_max_irqs_mask : ℕ
num_and_max_irqs_mask = genmask 15 0

-- AIC_V2_INFO_REG3_MAX_DIE_COUNT_BITFIELD and AIC_V2_INFO_REG1_LAST_CPU_DIE_BITFIELD
abbrev pub die_count_bitfield : ℕ
die_count_bitfield = genmask 27 24

-- AIC_V2_CFG_ENABLE
abbrev pub aic_v2_cfg_enable : ℕ
aic_v2_cfg_enable = bit_at 0

-- AIC_MASK_REG (num)
unfoldable pub aic_mask_reg : ℕ → ℕ
aic_mask_reg num = 4 * (num / 2 ^ 5)

-- AIC_MASK_BIT (num), which expands to `BIT (num) & GENMASK (4, 0)`
unfoldable pub aic_mask_bit : ℕ → ℕ
aic_mask_bit num = bit_and (bit_at num) (genmask 4 0)

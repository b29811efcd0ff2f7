-- ===== src/Aic/Driver.antt =====
-- Drivers/AppleAicDxe/AicV2/AppleAicV2Dxe.c, the handler table of AppleAicCommonDxe.c, and the
-- selector AppleAicDxe.c. The drivers' static variables are the fields of `AicState`.
pub mod Layout
pub mod Masking
pub mod Sources
use apple_silicon_platforms.Prelude.{
  ℕ, zero, suc, ◌+◌, ◌-◌, ◌*◌, ◌/◌, ◌%◌, ◌^◌, Bool, true, false, ◌&&◌, ◌||◌, Option, none, some,
  List, [], ltb, leb, ◌==◌, if◌then◌else◌, bit_and, bit_or, get_elem?, set, replicate,
}
use apple_silicon_platforms.Platform.Status.{
  Status, success, unsupported, invalid_parameter, already_started, out_of_resources, is_error,
}
use apple_silicon_platforms.Platform.Io.{
  Io, pure, ◌>>=◌, ◌>>◌, emit, crash, deref, asserted, mmio_read32, mmio_and32, mmio_or32, read_sys,
  write_sys, cntp_ctl, call_service, create_event, create_notify_event, allocate_pool,
  install_protocols, not64, not32,
}
use apple_silicon_platforms.Platform.Adt.{Adt, node_u32, node_reg}
use apple_silicon_platforms.Platform.Macros.{bit_at, field_get}
use apple_silicon_platforms.Timer.Phys.{phys_disable_timer}
use apple_silicon_platforms.Aic.Regs.{
  AicVersion, version1, version2, AicInfo, aic_target_cpu, aic_v2_info_reg1, aic_v2_info_reg3,
  aic_v2_config, aic_v2_irq_cfg_reg, die_count_bitfield, aic_v2_cfg_enable,
}
use apple_silicon_platforms.Aic.Controller.{
  assert_node, acknowledge_interrupt, get_num_interrupts, get_max_interrupts, is_timer_source,
  mask_interrupt, unmask_interrupt, read_interrupt_state,
}

-- The static variables of the three files. `lib_version` is AppleAicLib's mAicVersion, and
-- `handlers` is AicRegisteredInterruptHandlers: NULL entries are `none`.
pub record AicState : Type 0 where
  pub lib_version : AicVersion
  pub version : AicVersion
  pub base : ℕ
  pub info : AicInfo
  pub irq_cfg_offset : ℕ
  pub software_set_offset : ℕ
  pub software_clear_offset : ℕ
  pub irq_mask_set_offset : ℕ
  pub irq_mask_clear_offset : ℕ
  pub hw_state_offset : ℕ
  pub event_reg : ℕ
  pub handlers : List (Option ℕ)

-- AppleAicV2MaskInterrupt
unfoldable pub v2_mask_interrupt : AicState → ℕ → Io Status
v2_mask_interrupt s source =
    if leb s.info.max_irqs source
    then emit asserted >> pure unsupported
    else mask_interrupt s.lib_version s.info s.base source s.irq_mask_set_offset >> pure success

-- AppleAicV2UnmaskInterrupt
unfoldable pub v2_unmask_interrupt : AicState → ℕ → Io Status
v2_unmask_interrupt s source =
    if leb s.info.max_irqs source
    then emit asserted >> pure unsupported
    else unmask_interrupt s.lib_version s.info s.base source s.irq_mask_clear_offset >> pure success

-- AppleAicV2GetInterruptState; the second part is what goes to *State
unfoldable pub v2_get_interrupt_state : AicState → ℕ → Io (Status × Option Bool)
v2_get_interrupt_state s source =
    if leb s.info.max_irqs source then emit asserted >> pure (unsupported, none) else do
      on ← read_interrupt_state s.lib_version s.info s.base source s.hw_state_offset
      pure (success, some on)

-- AppleAicV2EndOfInterrupt
unfoldable pub v2_end_of_interrupt : AicState → ℕ → Io Status
v2_end_of_interrupt s source =
    if is_timer_source source
    -- ArmGenericTimerDisableTimer: the firmware links the physical timer's library
    then phys_disable_timer >> pure success
    else unmask_interrupt s.lib_version s.info s.base source s.irq_mask_clear_offset >> pure success

-- The size of one block of bit registers, `sizeof (UINT32) * (MaxIrqs >> 5)`
abbrev pub block_size : ℕ → ℕ
block_size max_irqs = 4 * (max_irqs / 2 ^ 5)

-- The part of AppleAicV2CalculateRegisterOffsets behind `StartOffset = ...`: the offsets of the
-- register blocks from the start offset and the number of IRQs.
unfoldable pub place_registers : AicState → ℕ → AicState
place_registers s start =
    let size = block_size s.info.max_irqs in
    let software_set : ℕ = start + 4 * s.info.max_irqs in
    let software_clear : ℕ = software_set + size in
    let mask_set : ℕ = software_clear + size in
    let mask_clear : ℕ = mask_set + size in
    let hw_state : ℕ = mask_clear + size + size in
    let info = s.info in
    record s {
      info = record info {
        die_stride = (hw_state - start) % 2 ^ 32;
        reg_size = ((s.event_reg + 2 ^ 64 - s.base) % 2 ^ 64 + 4) % 2 ^ 32;
      };
      software_set_offset = software_set;
      software_clear_offset = software_clear;
      irq_mask_set_offset = mask_set;
      irq_mask_clear_offset = mask_clear;
      hw_state_offset = hw_state;
    }

-- MaxCpuDies and NumCpuDies
unfoldable pub count_dies : AicVersion → ℕ → AicInfo → Io AicInfo
count_dies version1 base info = pure (record info { max_cpu_dies = 1; num_cpu_dies = 1 })
count_dies version2 base info = do
  r3 ← mmio_read32 ((base + aic_v2_info_reg3) % 2 ^ 64)
  r1 ← mmio_read32 ((base + aic_v2_info_reg1) % 2 ^ 64)
  pure (record info {
    max_cpu_dies = field_get die_count_bitfield r3;
    num_cpu_dies = field_get die_count_bitfield r1 + 1;
  })
count_dies _ base info = pure info

-- mAicV2EventReg, and mAicV2IrqCfgOffset, which is the start offset too: that of AIC_TARGET_CPU on
-- AICv1, and else that of the IRQ_CFG register.
unfoldable pub find_event_register : AicVersion → Adt → Option ℕ → AicState → Io AicState
find_event_register version1 adt aic_node s =
    pure (record s { irq_cfg_offset = aic_target_cpu; event_reg = s.base })
find_event_register version2 adt aic_node s = do
  iack ← node_u32 adt aic_node "aic-iack-offset" 0
  pure (record s { irq_cfg_offset = aic_v2_irq_cfg_reg; event_reg = (s.base + iack) % 2 ^ 64 })
find_event_register _ adt aic_node s = pure (record s { irq_cfg_offset = aic_v2_irq_cfg_reg })

-- AppleAicV2CalculateRegisterOffsets, which returns EFI_SUCCESS always
unfoldable pub calculate_register_offsets : Adt → AicState → Io AicState
calculate_register_offsets adt s = do
  let node = adt.get "aic"
  assert_node node
  base ← node_reg adt node 0 s.base
  num ← get_num_interrupts s.lib_version base
  most ← get_max_interrupts s.lib_version base
  let info = s.info
  info' ← count_dies s.version base (record info { num_irqs = num; max_irqs = most })
  s' ← find_event_register s.version adt node (record s { base = base; info = info' })
  pure (place_registers s' s'.irq_cfg_offset)

-- The part of RegisterInterruptSource behind the bounds check, on the table's entry `old`
unfoldable pub update_handler : AicState → ℕ → Option ℕ → Option ℕ → Io (AicState × Status)
update_handler s source none none = pure (s, invalid_parameter)
update_handler s source (some old) (some handler) = pure (s, already_started)
update_handler s source (some old) none = do
  let s' = record s { handlers = set s.handlers source none }
  status ← v2_mask_interrupt s' source
  pure (s', status)
update_handler s source none (some handler) = do
  let s' = record s { handlers = set s.handlers source (some handler) }
  status ← v2_unmask_interrupt s' source
  pure (s', status)

-- RegisterInterruptSource of AppleAicCommonDxe.c. `handler` is none for NULL. An index past the
-- end of the table is an access out of bounds.
unfoldable pub register_interrupt_source : AicState → ℕ → Option ℕ → Io (AicState × Status)
register_interrupt_source s source handler =
    if leb s.info.max_irqs source
    then emit asserted >> pure (s, unsupported)
    else deref (get_elem? s.handlers source) >>= λ old. update_handler s source old handler

-- InstallAndRegisterInterruptService of AppleAicCommonDxe.c: the table has one entry for each of
-- the NumIrqs configured interrupts.
unfoldable pub install_and_register : AicState → Io (AicState × Status)
install_and_register s = do
  room ← call_service (allocate_pool (8 * s.info.num_irqs))
  if is_error room then pure (s, out_of_resources) else do
    let s' = record s { handlers = replicate s.info.num_irqs none }
    installed ← call_service install_protocols
    if is_error installed then pure (s', installed) else do
      _ ← call_service create_notify_event
      created ← call_service create_event
      pure (s', created)

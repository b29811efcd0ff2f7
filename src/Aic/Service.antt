-- ===== src/Aic/Service.antt =====
-- Drivers/AppleAicDxe/AicV2/AppleAicV2Dxe.c: the CPU interrupt handler, trigger types, the
-- ExitBootServices event and the start of the driver; AppleAicDxe.c, its entry point; and
-- CpuArchProtocolNotify of AppleAicCommonDxe.c.
pub mod Dispatch
pub mod Trigger
pub mod Shutdown
use apple_silicon_platforms.Prelude.{
  ℕ, zero, suc, ◌+◌, ◌-◌, ◌%◌, ◌^◌, Bool, true, false, not, ◌&&◌, Option, none, some, ltb, ◌==◌,
  if◌then◌else◌, bit_and, bit_or, get_elem?,
}
use apple_silicon_platforms.Platform.Status.{Status, success, unsupported, is_error}
use apple_silicon_platforms.Platform.Io.{
  Io, pure, ◌>>=◌, ◌>>◌, emit, crash, deref, asserted, invoke, mmio_and32, mmio_or32, read_sys,
  write_sys, cntp_ctl, cntv_ctl, ipi_status, pmcr0, upmcr0, upmsr, call_service, allocate_pool,
  locate_cpu_arch, register_cpu_handler, close_event, InterruptType, irq, fiq, not64, not32,
}
use apple_silicon_platforms.Platform.Adt.{Adt, node_u32}
use apple_silicon_platforms.Platform.Macros.{bit_at, genmask, field_get}
use apple_silicon_platforms.Aic.Regs.{
  AicVersion, version1, version2, aic_v2_config, aic_v2_cfg_enable,
}
use apple_silicon_platforms.Aic.Controller.{assert_node, get_aic_version, acknowledge_interrupt}
use apple_silicon_platforms.Aic.Driver.{
  AicState, v2_mask_interrupt, v2_end_of_interrupt, calculate_register_offsets,
  install_and_register,
}

-- (ArmReadCntXCtl () & (ENABLE | IMASK | ISTATUS)) == (ENABLE | ISTATUS), for the timer's control
-- register: bits 0, 1 and 2.
unfoldable pub timer_is_pending : ℕ → Bool
timer_is_pending ctl = bit_and ctl 7 == 5

-- The branch for a pending timer: its handler is entry 17 or 18 of the table.
unfoldable pub run_timer_handler : ℕ → Option ℕ → Io (Unit {0})
run_timer_handler source none = emit asserted
run_timer_handler source (some handler) = emit (invoke handler source)

unfoldable pub serve_timer : AicState → ℕ → Io (Unit {0})
serve_timer s source = deref (get_elem? s.handlers source) >>= run_timer_handler source

-- Fast IPIs are acknowledged only.
unfoldable pub ack_fast_ipi : Io (Unit {0})
ack_fast_ipi = do
  v ← read_sys ipi_status
  if bit_and v (bit_at 0) == 0 then pure tt else write_sys ipi_status (bit_at 0)

unfoldable pub serve_timers : AicState → Io (Unit {0})
serve_timers s = do
  phys ← read_sys cntp_ctl
  if timer_is_pending phys
      then serve_timer s 17
      else do virt ← read_sys cntv_ctl; if timer_is_pending virt then serve_timer s 18 else pure tt

-- APPLE_UPMCR0_IMODE
abbrev pub upmcr0_imode : ℕ
upmcr0_imode = genmask 18 16

-- Performance counters are acknowledged only. BIT16, BIT17 and BIT18 together are 0x70000.
unfoldable pub ack_counters : Io (Unit {0})
ack_counters = do
  pmc ← read_sys pmcr0
  uncore ← read_sys upmcr0
  if not (bit_and pmc 0x800 == 0)
      then write_sys pmcr0 (bit_or (bit_and pmc (not64 0x70000)) 0x70001)
      else if field_get upmcr0_imode uncore == 4
      then (do
        status ← read_sys upmsr
        if bit_and status (bit_at 0) == 0
            then pure tt
            else write_sys upmcr0 (bit_or (bit_and uncore (not64 upmcr0_imode)) 0))
      else pure tt

-- The IRQ branch, on the table's entry for the interrupt
unfoldable pub serve_irq : AicState → ℕ → Option ℕ → Io (Unit {0})
serve_irq s interrupt none = do _ ← v2_end_of_interrupt s interrupt; pure tt
serve_irq s interrupt (some handler) = emit (invoke handler interrupt)

-- AppleAicV2InterruptHandler. The table is indexed by the event register's value before the type
-- of the exception is looked at.
unfoldable pub interrupt_handler : AicState → InterruptType → Io (Unit {0})
interrupt_handler s type = do
  interrupt ← acknowledge_interrupt s.event_reg
  handler ← deref (get_elem? s.handlers interrupt)
  elim type [
    | fiq ↦ (do ack_fast_ipi; serve_timers s; ack_counters)
    | irq ↦ serve_irq s interrupt handler
    | _ ↦ pure tt
  ]

-- EFI_HARDWARE_INTERRUPT2_TRIGGER_TYPE, the two that the driver answers with
pub data TriggerType : Type 0 where
  level_high edge_rising : TriggerType

-- The loop of AppleAicV2GetIrqTriggerType over `rounds` more numbers from `n` on. IrqNum is a
-- UINT64 that starts at a UINT32 and stops at a UINT32, so it does not wrap.
unfoldable pub search_msi : ℕ → ℕ → ℕ → Bool
search_msi source n zero = false
search_msi source n (suc rounds) =
    let rest = search_msi source (n + 1) rounds in if source == n then true else rest

-- AppleAicV2GetIrqTriggerType; the end of the range is a sum of UINT32s. The result is what goes
-- to *TriggerType, and the status is EFI_SUCCESS.
unfoldable pub get_irq_trigger_type : Adt → ℕ → Io TriggerType
get_irq_trigger_type adt source = do
  let node = adt.get "apcie"
  assert_node node
  start ← node_u32 adt node "msi-vector-offset" 0
  count ← node_u32 adt node "msi-vectors" 0
  pure (
      if search_msi source start ((start + count) % 2 ^ 32 - start)
      then edge_rising
      else level_high)

-- for (InterruptIndex = 0; ...; InterruptIndex++) AppleAicV2MaskInterrupt (..., InterruptIndex),
-- with `rounds` rounds left at index `i`. The statuses are dropped.
unfoldable pub mask_all : AicState → ℕ → ℕ → Io (Unit {0})
mask_all s i zero = pure tt
mask_all s i (suc rounds) = v2_mask_interrupt s i >>= λ _. mask_all s (i + 1) rounds

-- AppleAicV2ExitBootServicesEvent
unfoldable pub exit_boot_services : AicState → Io (Unit {0})
exit_boot_services s = do
  _ ← acknowledge_interrupt s.event_reg
  mask_all s 0 s.info.num_irqs
  mmio_and32 ((s.base + aic_v2_config) % 2 ^ 64) (not32 aic_v2_cfg_enable)

-- AppleAicV2DxeInit. AllocatePool answers NULL on an error, and the next step stores through it;
-- what that step reads before the store is left out of the trace.
unfoldable pub v2_dxe_init : Adt → AicState → AicVersion → Io (AicState × Status)
v2_dxe_init adt s version = do
  room ← call_service (allocate_pool 24)
  if is_error room then crash else do
    s' ← calculate_register_offsets adt (record s { version = version })
    mmio_or32 ((s'.base + aic_v2_config) % 2 ^ 64) aic_v2_cfg_enable
    mask_all s' 0 s'.info.num_irqs
    install_and_register s'

-- The switch of InterruptDxeInitialize. AppleAicLib has stored the version that it found.
unfoldable pub select_version : Adt → AicState → AicVersion → Io (AicState × Status)
select_version adt s version1 = v2_dxe_init adt (record s { lib_version = version1 }) version1
select_version adt s version2 = v2_dxe_init adt (record s { lib_version = version2 }) version2
select_version adt s _ = pure (s, unsupported)

-- InterruptDxeInitialize of AppleAicDxe.c
unfoldable pub interrupt_dxe_initialize : Adt → AicState → Io (AicState × Status)
interrupt_dxe_initialize adt s = get_aic_version adt >>= select_version adt s

-- CpuArchProtocolNotify of AppleAicCommonDxe.c, for the CPU handler `handler`
unfoldable pub cpu_arch_protocol_notify : ℕ → Io (Unit {0})
cpu_arch_protocol_notify handler = do
  located ← call_service locate_cpu_arch
  if is_error located then pure tt else do
    _ ← call_service (register_cpu_handler irq none)
    removed ← call_service (register_cpu_handler fiq none)
    if is_error removed then pure tt else do
      _ ← call_service (register_cpu_handler irq (some handler))
      added ← call_service (register_cpu_handler fiq (some handler))
      if is_error added then pure tt else (do _ ← call_service close_event; pure tt)

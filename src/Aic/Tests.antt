-- ===== src/Aic/Tests.antt =====
-- The interrupt controller's theorems at concrete inputs: an AICv2 with 64 interrupts.
use apple_silicon_platforms.Prelude.{
  ℕ, ◌≡◌, refl, false, true, Option, none, some, List, [], ◌∷◌, ◌++◌, replicate, bit, arith,
}
use apple_silicon_platforms.Platform.Status.{success}
use apple_silicon_platforms.Platform.Io.{
  Device, Trace, SysReg, ret, mmio, sys, store, midr, cntp_ctl, fiq, Returns, Occurs,
}
use apple_silicon_platforms.Platform.Adt.{Adt}
use apple_silicon_platforms.Aic.Regs.{AicInfo, version2}
use apple_silicon_platforms.Aic.Controller.{is_timer_source}
use apple_silicon_platforms.Aic.Driver.{AicState, register_interrupt_source}
use apple_silicon_platforms.Aic.Driver.Layout.{IsLaidOut}
use apple_silicon_platforms.Aic.Driver.Sources.{with_handler, register_interrupt_source_refines}
use apple_silicon_platforms.Aic.Service.{
  interrupt_handler, exit_boot_services, get_irq_trigger_type, edge_rising,
}
use apple_silicon_platforms.Aic.Service.Dispatch.{Calls, timer_call, interrupt_handler-fiq}
use apple_silicon_platforms.Aic.Service.Shutdown.{mask_of, exit_boot_services_lem}
use apple_silicon_platforms.Aic.Service.Trigger.{get_irq_trigger_type_lem}

abbrev info : AicInfo
info = record {
  num_irqs = 40;
  num_cpu_dies = 1;
  max_irqs = 64;
  max_cpu_dies = 1;
  die_stride = 296;
  reg_size = 4;
}

-- The handler table: the physical timer at 17, a device at 3.
abbrev table : List (Option ℕ)
table = none ∷ none ∷ none ∷ some 900 ∷ (replicate 13 none ++ (some 700 ∷ replicate 22 none))

abbrev state : AicState
state = record {
  lib_version = version2;
  version = version2;
  base = 0x28e100000;
  info = info;
  irq_cfg_offset = 0x2000;
  software_set_offset = 0x2100;
  software_clear_offset = 0x2108;
  irq_mask_set_offset = 0x2110;
  irq_mask_clear_offset = 0x2118;
  hw_state_offset = 0x2128;
  event_reg = 0x28e10c000;
  handlers = table;
}

state-IsLaidOut : IsLaidOut state
state-IsLaidOut = omega arith

-- The physical timer is pending and MIDR has Apple's implementer code.
abbrev regs : SysReg → ℕ
regs cntp_ctl = 5
regs midr = 0x61000000
regs _ = 0

-- The event register of the first device reads 3; that of the second has the type bits of a
-- hardware interrupt too.
abbrev device : Device
device = record { value = λ t l. elim l [ sys r ↦ regs r | _ ↦ 3 ]; reply = λ t s. success }

abbrev typed_device : Device
typed_device = record {
  value = λ t l. elim l [ sys r ↦ regs r | _ ↦ 0x10003 ];
  reply = λ t s. success;
}

abbrev tree : Adt
tree = record {
  get = λ name. some 1;
  text = λ node name. some "aic,2";
  words = λ node name. none;
  u32 = λ node name i. some 24;
  reg = λ node i. some 0x28e100000;
}

register_interrupt_source_refines_example :
    register_interrupt_source state 37 (some 901) device []
    ≡ ret (with_handler state 37 (some 901), success) (store (mmio 0x28e10211c) 0 ∷ [])
register_interrupt_source_refines_example =
    register_interrupt_source_refines state 37 (some 901) none device [] state-IsLaidOut
      (omega arith) (omega arith) timer refl
  where
    timer : is_timer_source 37 ≡ false
    timer = unfold is_timer_source in refl

device_37 : is_timer_source 37 ≡ false
unfolding is_timer_source
device_37 = refl

device_6 : is_timer_source 6 ≡ false
unfolding is_timer_source
device_6 = refl

timer_18 : is_timer_source 18 ≡ true
unfolding is_timer_source
timer_18 = refl

interrupt_handler-fiq_example :
    Calls (timer_call state 5 0) [] (interrupt_handler state fiq device [])
interrupt_handler-fiq_example =
    interrupt_handler-fiq state regs device [] (λ u r. refl) (omega arith) (omega arith)

exit_boot_services_lem_example :
    Returns
      (λ _ t'.
        (v : ℕ) × (before : Trace) × (t' ≡ store (mmio 0x28e100014) v ∷ before)
        × (bit 0 v ≡ 0)
        × Occurs (mask_of state 37) before)
      (exit_boot_services state device [])
exit_boot_services_lem_example =
    exit_boot_services_lem state 37 device [] state-IsLaidOut (omega arith) (omega arith)
      (omega arith) device_37

get_irq_trigger_type_lem_example : get_irq_trigger_type tree 30 device [] ≡ ret edge_rising []
get_irq_trigger_type_lem_example =
    get_irq_trigger_type_lem tree 30 1 24 24 device [] refl refl refl (omega arith)

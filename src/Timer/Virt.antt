-- ===== src/Timer/Virt.antt =====
-- Library/AppleArmGenericTimerVirtCounterLib: the virtual timer.
use apple_silicon_platforms.Prelude.{◌%◌, ◌^◌, refl}
use apple_silicon_platforms.Platform.Io.{
  Io, ◌>>=◌, read_sys, write_sys, cntfrq, cntvct, cntv_ctl, cntv_tval, cntv_cval,
}
use apple_silicon_platforms.Timer.{CounterLib, IsTimerControl}
use apple_silicon_platforms.Timer.Control.{
  with_enable, without_enable, without_imask, with_enable-bits, without_enable-bits, reenabled-bits,
}

-- ArmGenericTimerEnableTimer
unfoldable pub virt_enable_timer : Io (Unit {0})
virt_enable_timer = do ctrl ← read_sys cntv_ctl; write_sys cntv_ctl (with_enable ctrl)

-- ArmGenericTimerReenableTimer
unfoldable pub virt_reenable_timer : Io (Unit {0})
virt_reenable_timer = do
  ctrl ← read_sys cntv_ctl
  write_sys cntv_ctl (without_imask (with_enable ctrl % 2 ^ 64))

-- ArmGenericTimerDisableTimer
unfoldable pub virt_disable_timer : Io (Unit {0})
virt_disable_timer = do ctrl ← read_sys cntv_ctl; write_sys cntv_ctl (without_enable ctrl)

-- The library, its other functions being accesses to one register.
abbrev pub virt_counter_lib : CounterLib
virt_counter_lib = record {
  enable_timer = virt_enable_timer;
  reenable_timer = virt_reenable_timer;
  disable_timer = virt_disable_timer;
  set_timer_freq = write_sys cntfrq;
  get_timer_freq = read_sys cntfrq;
  get_timer_val = read_sys cntv_tval;
  set_timer_val = write_sys cntv_tval;
  get_system_count = read_sys cntvct;
  get_timer_ctrl_reg = read_sys cntv_ctl;
  set_timer_ctrl_reg = write_sys cntv_ctl;
  get_compare_val = read_sys cntv_cval;
  set_compare_val = write_sys cntv_cval;
}

-- The library of the virtual timer keeps the contract of a timer's control on its own control
-- register: enabling, enabling anew and disabling change the enable bit (enabling anew also
-- clears the interrupt mask) and no other bit of the 64, and touch
-- no other register; and the frequency is the one in CNTFRQ.
virt_counter_lib-IsTimerControl : IsTimerControl virt_counter_lib cntv_ctl
unfolding virt_enable_timer virt_reenable_timer virt_disable_timer
virt_counter_lib-IsTimerControl = record {
  enables = λ d t. (_, refl, with_enable-bits _);
  reenables = λ d t. (_, refl, reenabled-bits _);
  disables = λ d t. (_, refl, without_enable-bits _);
  frequency = λ d t. refl;
}

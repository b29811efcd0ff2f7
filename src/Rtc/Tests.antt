-- ===== src/Rtc/Tests.antt =====
-- The clock's theorems at concrete inputs: a 24 MHz counter, 30 days and 3661 seconds after the
-- start of the processor.
use apple_silicon_platforms.Prelude.{ℕ, ◌*◌, ◌≡◌, true, false, some, [], arith}
use apple_silicon_platforms.Platform.Status.{success}
use apple_silicon_platforms.Platform.Io.{
  Device, SysReg, Returns, sys, cntfrq, cntp_ctl, performance_counter,
}
use apple_silicon_platforms.Timer.Phys.{phys_counter_lib, phys_counter_lib-IsTimerControl}
use apple_silicon_platforms.Rtc.{EfiTime, BaseTime, lib_get_time, lib_rtc_initialize}
use apple_silicon_platforms.Rtc.Time.{IsEfiTime, seconds_of, lib_get_time_lem}

abbrev regs : SysReg → ℕ
regs cntfrq = 24000000
regs performance_counter = 24000000 * 2595661
regs _ = 0

abbrev device : Device
device = record { value = λ t l. elim l [ sys r ↦ regs r | _ ↦ 0 ]; reply = λ t s. success }

abbrev blank : BaseTime
blank = record { base_year = 0; base_month = 0 }

lib_get_time_lem_example :
    Returns
      (λ r u.
        (r.0 ≡ success)
        × (x : EfiTime) × (r.1.time ≡ some x)
        × IsEfiTime x
        × (seconds_of x ≡ 176461))
      (lib_get_time phys_counter_lib (lib_rtc_initialize blank).0 true false device [])
lib_get_time_lem_example =
    lib_get_time_lem phys_counter_lib cntp_ctl phys_counter_lib-IsTimerControl blank false device []
      (omega arith)

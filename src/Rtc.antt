-- ===== src/Rtc.antt =====
-- Library/VirtualRealTimeClockLib of Silicon/Apple/AppleSiliconPkg: the clock, which counts from
-- the start of the processor. The timer library that it uses is a parameter.
pub mod Time
mod Tests
use apple_silicon_platforms.Prelude.{
  ℕ, ◌+◌, ◌*◌, ◌/◌, ◌%◌, ◌^◌, Bool, true, false, not, Option, none, some, ◌==◌, if◌then◌else◌,
}
use apple_silicon_platforms.Platform.Status.{
  Status, success, invalid_parameter, device_error, unsupported,
}
use apple_silicon_platforms.Platform.Io.{
  Io, pure, ◌>>=◌, ◌>>◌, emit, asserted, read_sys, performance_counter,
}
use apple_silicon_platforms.Timer.{CounterLib}

-- EFI_TIME
pub record EfiTime : Type 0 where
  pub year : ℕ
  pub month : ℕ
  pub day : ℕ
  pub hour : ℕ
  pub minute : ℕ
  pub second : ℕ
  pub nanosecond : ℕ
  pub time_zone : ℕ
  pub daylight : ℕ

-- EFI_TIME_CAPABILITIES
pub record EfiTimeCapabilities : Type 0 where
  pub resolution : ℕ
  pub accuracy : ℕ
  pub sets_to_zero : Bool

-- BaseTime, of which the library uses the year and the month
pub record BaseTime : Type 0 where
  pub base_year : ℕ
  pub base_month : ℕ

-- The output arguments: those that LibGetTime has written.
pub record TimeOutput : Type 0 where
  pub time : Option EfiTime
  pub capabilities : Option EfiTimeCapabilities

abbrev pub nothing_written : TimeOutput
nothing_written = record { time = none; capabilities = none }

-- SECONDS_PER_DAY, SECONDS_PER_HOUR, SECONDS_PER_MINUTE
abbrev pub seconds_per_day : ℕ
seconds_per_day = 24 * 60 * 60

abbrev pub seconds_per_hour : ℕ
seconds_per_hour = 60 * 60

abbrev pub seconds_per_minute : ℕ
seconds_per_minute = 60

-- The fields that LibGetTime writes for a number of elapsed seconds, each cut to its width.
unfoldable pub time_at : BaseTime → ℕ → EfiTime
time_at base elapsed =
    let in_day = elapsed % seconds_per_day in
    let in_hour = in_day % seconds_per_hour in
    record {
      year = base.base_year;
      month = base.base_month;
      day = (1 + elapsed / seconds_per_day % 28) % 256;
      hour = in_day / seconds_per_hour % 256;
      minute = in_hour / seconds_per_minute % 256;
      second = in_hour % seconds_per_minute % 256;
      nanosecond = 0;
      time_zone = 0;
      daylight = 0;
    }

-- Capabilities->Accuracy, Resolution and SetsToZero, where the caller passed a buffer
unfoldable pub report_capabilities : Bool → ℕ → Option EfiTimeCapabilities
report_capabilities wanted freq =
    if wanted then some (record { resolution = freq; accuracy = 0; sets_to_zero = false }) else none

-- LibGetTime; `has_time` and `has_capabilities` say which of its pointers are not NULL.
unfoldable pub lib_get_time : CounterLib → BaseTime → Bool → Bool → Io (Status × TimeOutput)
lib_get_time lib base has_time has_capabilities = do
  wide ← lib.get_timer_freq
  let freq = wide % 2 ^ 32
  if not has_time
      then pure (invalid_parameter, nothing_written)
      else if freq == 0
      then emit asserted >> pure (device_error, nothing_written)
      else do
        counter ← read_sys performance_counter
        pure (
          success,
          record {
            time = some (time_at base (counter / freq));
            capabilities = report_capabilities has_capabilities freq;
          },
        )

-- LibSetTime, LibGetWakeupTime and LibSetWakeupTime
unfoldable pub lib_set_time : EfiTime → Status
lib_set_time time = unsupported

unfoldable pub lib_get_wakeup_time : Status
lib_get_wakeup_time = unsupported

unfoldable pub lib_set_wakeup_time : Bool → EfiTime → Status
lib_set_wakeup_time enabled time = unsupported

-- LibRtcInitialize
unfoldable pub lib_rtc_initialize : BaseTime → BaseTime × Status
lib_rtc_initialize base = (record { base_year = 2019; base_month = 1 }, success)

-- ===== src/Rtc/Time.antt =====
-- The dates that LibGetTime reports, against the elapsed time that they stand for.
use apple_silicon_platforms.Prelude.{
  ℕ, ◌+◌, ◌-◌, ◌*◌, ◌/◌, ◌%◌, ◌^◌, ◌≤◌, ◌<◌, ◌≡◌, ◌≢◌, ◌⊎◌, inl, inr, refl, Bool, true, false, some,
  ◌∷◌, ==-false, ==_iff, arith,
}
use apple_silicon_platforms.Platform.Status.{success, is_error}
use apple_silicon_platforms.Platform.Io.{
  Device, Trace, Returns, load, SysReg, sys, cntfrq, performance_counter,
}
use apple_silicon_platforms.Timer.{CounterLib, IsTimerControl}
use apple_silicon_platforms.Rtc.{
  EfiTime, BaseTime, nothing_written, time_at, lib_get_time, lib_rtc_initialize,
}

low_word : (v : ℕ) → v % 2 ^ 64 % 2 ^ 32 ≡ v % 2 ^ 32
low_word v = omega arith

-- What the UEFI specification asks of the fields that the clock reports, for any month.
pub record IsEfiTime (x : EfiTime) : Type 0 where
  pub year_range : (1900 ≤ x.year) × (x.year ≤ 9999)
  pub month_range : (1 ≤ x.month) × (x.month ≤ 12)
  pub day_range : (1 ≤ x.day) × (x.day ≤ 28)
  pub hour_range : x.hour < 24
  pub minute_range : x.minute < 60
  pub second_range : x.second < 60

-- The seconds since the start of the month.
abbrev pub seconds_of : EfiTime → ℕ
seconds_of x = (x.day - 1) * 86400 + x.hour * 3600 + x.minute * 60 + x.second

-- After LibRtcInitialize every date that LibGetTime can write is one of the UEFI specification's,
-- whatever the number of elapsed seconds, and it stands for that number modulo 28 days.
time_at_lem :
    (base : BaseTime) (elapsed : ℕ)
    → IsEfiTime (time_at (lib_rtc_initialize base).0 elapsed)
      × (seconds_of (time_at (lib_rtc_initialize base).0 elapsed) ≡ elapsed % 2419200)
unfolding time_at lib_rtc_initialize
time_at_lem base elapsed = (
  record {
    year_range = (omega arith, omega arith);
    month_range = (omega arith, omega arith);
    day_range = (omega arith, omega arith);
    hour_range = omega arith;
    minute_range = omega arith;
    second_range = omega arith;
  },
  omega arith,
)

module _ (lib : CounterLib) (ctl : SysReg) (timer : IsTimerControl lib ctl) where
  -- LibGetTime over any timer library that keeps the contract, after LibRtcInitialize, with a
  -- buffer for the time, where the low 32 bits of the frequency are not 0: it succeeds with a date
  -- of the UEFI specification that stands for the counter divided by those 32 bits, modulo 28 days.
  pub lib_get_time_lem :
      (base : BaseTime) (has_capabilities : Bool) (d : Device) (t : Trace)
      → d.value t (sys cntfrq) % 2 ^ 32 ≢ 0
      → Returns
          (λ r u.
            (r.0 ≡ success)
            × (x : EfiTime) × (r.1.time ≡ some x)
            × IsEfiTime x
            × (seconds_of x
                ≡ d.value (load (sys cntfrq) ∷ t) (sys performance_counter)
                  % 2 ^ 64
                  / (d.value t (sys cntfrq) % 2 ^ 32)
                  % 2419200))
          (lib_get_time lib (lib_rtc_initialize base).0 true has_capabilities d t)
  unfolding lib_get_time
  lib_get_time_lem base has_capabilities d t runs = rw (timer.frequency d t) (
      rw (low_word (d.value t (sys cntfrq)))
        (rw (==-false _ 0 runs) (refl, _, refl, (time_at_lem base _).0, (time_at_lem base _).1)))

  -- LibGetTime over such a library, without a buffer for the time or with a frequency whose low 32
  -- bits are 0: it comes to its end with an error, and has written neither a time nor capabilities.
  lib_get_time-is_error :
      (base : BaseTime) (has_time has_capabilities : Bool) (d : Device) (t : Trace)
      → (has_time ≡ false) ⊎ (d.value t (sys cntfrq) % 2 ^ 32 ≡ 0)
      → Returns
          (λ r u. (is_error r.0 ≡ true) × (r.1 ≡ nothing_written))
          (lib_get_time lib base has_time has_capabilities d t)
  unfolding lib_get_time
  lib_get_time-is_error base false has_capabilities d t refused =
      rw (timer.frequency d t) (refl, refl)
  lib_get_time-is_error base true has_capabilities d t (inl e) = cc
  lib_get_time-is_error base true has_capabilities d t (inr e) =
      rw (timer.frequency d t)
        (rw (low_word (d.value t (sys cntfrq))) (rw ((==_iff _ 0).1 e) (refl, refl)))

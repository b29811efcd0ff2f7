-- ===== src/Timer.antt =====
-- The timer libraries of Silicon/Apple/AppleSiliconPkg, over the system registers of the Arm
-- generic timer: Library/AppleArmGenericTimerPhyCounterLib and AppleArmGenericTimerVirtCounterLib,
-- and what a caller of either may rely on.
pub mod Control
pub mod Phys
pub mod Virt
use apple_silicon_platforms.Prelude.{ℕ, ◌%◌, ◌^◌, ◌<◌, ◌≤◌, ◌≡◌, bit, ◌∷◌}
use apple_silicon_platforms.Platform.Io.{Io, SysReg, cntfrq, Device, Trace, ret, load, store, sys}

-- The functions of ArmGenericTimerCounterLib.h
pub record CounterLib : Type 0 where
  pub enable_timer : Io (Unit {0})
  pub reenable_timer : Io (Unit {0})
  pub disable_timer : Io (Unit {0})
  pub set_timer_freq : ℕ → Io (Unit {0})
  pub get_timer_freq : Io ℕ
  pub get_timer_val : Io ℕ
  pub set_timer_val : ℕ → Io (Unit {0})
  pub get_system_count : Io ℕ
  pub get_timer_ctrl_reg : Io ℕ
  pub set_timer_ctrl_reg : ℕ → Io (Unit {0})
  pub get_compare_val : Io ℕ
  pub set_compare_val : ℕ → Io (Unit {0})

-- `run` replaces the word in register `r` by one that `P` relates to it, and does nothing else.
abbrev pub Updates : SysReg → (ℕ → ℕ → Type 0) → Io (Unit {0}) → Type 0
Updates r P run =
    (d : Device) (t : Trace)
    → (w : ℕ) × (run d t ≡ ret tt (store (sys r) w ∷ load (sys r) ∷ t))
      × P (d.value t (sys r) % 2 ^ 64) w

-- The bits from `n` on are kept.
abbrev pub KeepsFrom : ℕ → ℕ → ℕ → Type 0
KeepsFrom n v w = (k : ℕ) → n ≤ k → k < 64 → bit k w ≡ bit k v

-- Bit 0 of a control register enables the timer, bit 1 masks its interrupt. The frequency is that
-- of the counter, for either timer.
pub record IsTimerControl (lib : CounterLib) (ctl : SysReg) : Type 0 where
  pub enables : Updates ctl (λ v w. (bit 0 w ≡ 1) × KeepsFrom 1 v w) lib.enable_timer
  pub reenables :
      Updates ctl (λ v w. (bit 0 w ≡ 1) × (bit 1 w ≡ 0) × KeepsFrom 2 v w) lib.reenable_timer
  pub disables : Updates ctl (λ v w. (bit 0 w ≡ 0) × KeepsFrom 1 v w) lib.disable_timer
  pub frequency :
      (d : Device) (t : Trace)
      → lib.get_timer_freq d t ≡ ret (d.value t (sys cntfrq) % 2 ^ 64) (load (sys cntfrq) ∷ t)

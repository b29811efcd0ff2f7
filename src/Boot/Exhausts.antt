-- ===== src/Boot/Exhausts.antt =====
-- WindowsAutoBootReadyToBoot: no volume that can start Windows is passed over.
use apple_silicon_platforms.Prelude.{ℕ, ◌≡◌, ◌⊎◌, true, false, List, All}
use apple_silicon_platforms.Boot.AutoBoot.{Firmware, BootState}
use apple_silicon_platforms.Boot.Tidy.{IsEligible}
use apple_silicon_platforms.Boot.Notify.{HasStarted}
use apple_silicon_platforms.Boot.Attempts.{IsAttempted}

module _ (w : Firmware) where
  -- Windows was started, by an image that came back without an error, or every handle of the list that
  -- can start Windows was attempted.
  abbrev pub Exhausts : List ℕ → BootState → Type 0
  Exhausts hs st =
      ((st.windows_started ≡ true) × HasStarted w st.log)
      ⊎ ((st.windows_started ≡ false)
          × All (λ h. IsEligible w h → w.device_path h ≡ true → IsAttempted w h st.log) hs)

-- ===== src/Boot/Starts.antt =====
-- What the automatic start may start, and that it leaves no image behind.
use apple_silicon_platforms.Prelude.{ℕ, ◌≡◌, false, some, []}
use apple_silicon_platforms.Boot.AutoBoot.{Firmware, BootState, file_system_notify, ready_to_boot}
use apple_silicon_platforms.Boot.Tidy.{
  empty, IsTidy, file_system_notify-IsTidy, ready_to_boot-IsTidy,
}

-- The driver's callbacks, in any order and as often as the firmware signals them.
pub data Callback (w : Firmware) : BootState → BootState → Type 0 where
  notify :
      (fuel : ℕ) {st st' : BootState} → file_system_notify w fuel st ≡ some st' → Callback w st st'
  ready : (st : BootState) → Callback w st (ready_to_boot w st)

pub data Reach (w : Firmware) : BootState → Type 0 where
  begun : Reach w (record { windows_started = false; log = [] })
  after : {st st' : BootState} → Reach w st → Callback w st st' → Reach w st'

Callback-IsTidy :
    {w : Firmware} {st st' : BootState} → Callback w st st' → IsTidy w st → IsTidy w st'
Callback-IsTidy {w} (notify fuel {st = st} e) tidy = file_system_notify-IsTidy w fuel st tidy e
Callback-IsTidy {w} (ready st) tidy = ready_to_boot-IsTidy w st tidy

-- Behind WindowsAutoBootDxeInitialize and any sequence of file system and ready-to-boot callbacks,
-- on any firmware: every image that LoadImage has loaded without an error has been unloaded, that
-- image and before anything else was done; it was started at most once in between, and only where its
-- handle is that of a file system on a medium that is present and not removable, with the loader's
-- file, and with its load options cleared just before. The images that stay loaded are those for
-- which LoadImage has answered EFI_SECURITY_VIOLATION.
pub Reach-IsTidy : {w : Firmware} {st : BootState} → Reach w st → IsTidy w st
Reach-IsTidy begun = empty
Reach-IsTidy (after r c) = Callback-IsTidy c (Reach-IsTidy r)

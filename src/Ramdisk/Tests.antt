-- ===== src/Ramdisk/Tests.antt =====
-- The RAM disk driver's theorem at concrete inputs, and what a window under a page does.
use apple_silicon_platforms.Prelude.{ℕ, ◌≡◌, refl, true, none, some, arith}
use apple_silicon_platforms.Platform.Status.{success}
use apple_silicon_platforms.Ramdisk.Helper.{
  RamdiskFirmware, preloaded_ramdisk_magic, same_bytes, register_ramdisk, register_preloaded,
  boot_ramdisk_helper_initialize,
}
use apple_silicon_platforms.Ramdisk.Window.{IsInWindow, preloaded-IsInWindow}

-- A window of some size, with an image of 64 KB.
abbrev window : ℕ → RamdiskFirmware
window max_size = record {
  initialize_ramdisk = true;
  preloaded_ramdisk_base = 0x900000000;
  preloaded_ramdisk_max_size = max_size;
  header_at = λ a. record { magic = preloaded_ramdisk_magic; size = 0x10000 };
  embedded_ramdisk = none;
  copy_pool = λ n. 0;
  locate_ram_disk = success;
  register = λ a n. success;
}

preloaded-IsInWindow_example : IsInWindow (window 0x100000) 0x900001000 0x10000
unfolding boot_ramdisk_helper_initialize register_preloaded register_ramdisk same_bytes
preloaded-IsInWindow_example =
    preloaded-IsInWindow (window 0x100000) refl (omega arith) refl (omega arith) (omega arith)
      (omega arith) refl

-- The limit of a window under a page is near 4 GB: the range ends far behind the window.
small_window :
    boot_ramdisk_helper_initialize (window 0x800) ≡ (success, some (0x900001000, 0x10000))
unfolding boot_ramdisk_helper_initialize register_preloaded register_ramdisk same_bytes
small_window = refl

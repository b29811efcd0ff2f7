-- ===== src/Ramdisk/Window.antt =====
-- The range that the RAM disk driver registers lies in the window of the preloaded image.
use apple_silicon_platforms.Prelude.{
  ℕ, ◌+◌, ◌-◌, ◌%◌, ◌^◌, ◌≤◌, ◌<◌, ◌≡◌, ◌≢◌, refl, sym, ap, ◌∙◌, Bool, true, false, ◌||◌, Option,
  none, some, ◌==◌, ltb, if◌then◌else◌, arith, ==-false,
}
use apple_silicon_platforms.Platform.Status.{Status, unsupported, is_error}
use apple_silicon_platforms.Ramdisk.Helper.{
  PreloadedRamdiskHeader, RamdiskFirmware, volume_corrupted, preloaded_ramdisk_magic,
  preloaded_ramdisk_payload_offset, same_bytes, register_ramdisk, register_preloaded,
  register_embedded, boot_ramdisk_helper_initialize,
}

-- A range inside the window, behind the header's page.
pub record IsInWindow (w : RamdiskFirmware) (address size : ℕ) : Type 0 where
  pub behind_header : w.preloaded_ramdisk_base + preloaded_ramdisk_payload_offset ≤ address
  pub some_bytes : 0 < size
  pub in_window : address + size ≤ w.preloaded_ramdisk_base + w.preloaded_ramdisk_max_size

module _ (w : RamdiskFirmware) where
  register_ramdisk-range :
      (a n : ℕ) {address size : ℕ}
      → (register_ramdisk w a n).1 ≡ some (address, size)
      → (a ≡ address) × (n ≡ size)
  unfolding register_ramdisk
  register_ramdisk-range a n = pick (is_error w.locate_ram_disk)
    where
      pick :
          (b : Bool) {address size : ℕ}
          → (let r : Status × Option (ℕ × ℕ) =
                if b then (w.locate_ram_disk, none) else (w.register a n, some (a, n)) in
              r.1)
            ≡ some (address, size)
          → (a ≡ address) × (n ≡ size)
      pick true e = cc
      pick false e = (cc, cc)

  -- The limit of the size.
  abbrev limit : ℕ
  limit =
      (w.preloaded_ramdisk_max_size % 2 ^ 32 + (2 ^ 32 - preloaded_ramdisk_payload_offset)) % 2 ^ 32

  register_preloaded-range :
      (h : PreloadedRamdiskHeader) {address size : ℕ}
      → (register_preloaded w h).1 ≡ some (address, size)
      → ((w.preloaded_ramdisk_base + preloaded_ramdisk_payload_offset) % 2 ^ 64 ≡ address)
        × (0 < size)
        × (size ≤ limit)
  unfolding register_preloaded
  register_preloaded-range h = pick (h.size == 0 || ltb limit h.size) refl
    where
      start : ℕ
      start = (w.preloaded_ramdisk_base + preloaded_ramdisk_payload_offset) % 2 ^ 64

      pick :
          (b : Bool) {address size : ℕ}
          → (h.size == 0 || ltb limit h.size) ≡ b
          → (let r : Status × Option (ℕ × ℕ) =
                if b then (volume_corrupted, none) else register_ramdisk w start h.size in
              r.1)
            ≡ some (address, size)
          → (start ≡ address) × (0 < size) × (size ≤ limit)
      pick true f e = cc
      pick false f e =
          let (same, same_size) = register_ramdisk-range start h.size e in
          (same, ground arith, ground arith)

  taken :
      w.initialize_ramdisk ≡ true
      → w.preloaded_ramdisk_base ≢ 0
      → same_bytes (w.header_at w.preloaded_ramdisk_base).magic preloaded_ramdisk_magic ≡ true
      → boot_ramdisk_helper_initialize w
        ≡ register_preloaded w (w.header_at w.preloaded_ramdisk_base)
  unfolding boot_ramdisk_helper_initialize
  taken on based magic =
      pick w.initialize_ramdisk (w.preloaded_ramdisk_base == 0)
        (same_bytes (w.header_at w.preloaded_ramdisk_base).magic preloaded_ramdisk_magic) on
        (==-false w.preloaded_ramdisk_base 0 based) magic
    where
      preloaded : Status × Option (ℕ × ℕ)
      preloaded = register_preloaded w (w.header_at w.preloaded_ramdisk_base)

      pick :
          (b c d : Bool)
          → b ≡ true
          → c ≡ false
          → d ≡ true
          → (if b
              then if c then register_embedded w else if d then preloaded else register_embedded w
              else (unsupported, none))
            ≡ preloaded
      pick true false true e f g = refl
      pick false c d e f g = cc
      pick true true d e f g = cc
      pick true false false e f g = cc

  -- Where an image was preloaded, into a window of at least one page below the end of the address
  -- space, and the driver hands a range to the RAM disk protocol: the range is not empty, begins
  -- behind the header's page and ends in the window.
  pub preloaded-IsInWindow :
      {address size : ℕ}
      → w.initialize_ramdisk ≡ true
      → w.preloaded_ramdisk_base ≢ 0
      → same_bytes (w.header_at w.preloaded_ramdisk_base).magic preloaded_ramdisk_magic ≡ true
      → preloaded_ramdisk_payload_offset ≤ w.preloaded_ramdisk_max_size
      → w.preloaded_ramdisk_max_size < 2 ^ 32
      → w.preloaded_ramdisk_base + w.preloaded_ramdisk_max_size < 2 ^ 64
      → (boot_ramdisk_helper_initialize w).1 ≡ some (address, size)
      → IsInWindow w address size
  preloaded-IsInWindow {address} {size} on based magic page small fits e =
      let (start, some_bytes, bounded) =
        register_preloaded-range (w.header_at w.preloaded_ramdisk_base)
          (ap (λ r. r.1) (sym (taken on based magic)) ∙ e) in
      record {
        behind_header = omega (arith, start, fits, page);
        some_bytes = some_bytes;
        in_window = omega (arith, start, fits, page, small, bounded);
      }

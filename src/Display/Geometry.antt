-- ===== src/Display/Geometry.antt =====
-- What the checks of the display accept, and that the frame buffer driver stays within them.
use apple_silicon_platforms.Prelude.{
  ℕ, zero, suc, ◌+◌, ◌*◌, ◌/◌, ◌%◌, ◌^◌, ◌≤◌, ◌<◌, ◌≡◌, ◌↔◌, ◌⊎◌, refl, ap, true, false, Option,
  none, some, ◌∷◌, ltb, bit_or, arith, Bool-cases, inl, inr, bit_and-ones, bit_or-mod_zero,
}
use native.Mathlib.Nat.{mul_comm, mul_assoc}
use apple_silicon_platforms.Platform.Status.{Status, is_error}
use apple_silicon_platforms.Platform.Io.{
  Device, Trace, Returns, Returns-proceed, Returns-weaken, Ends, call, install_protocols,
}
use apple_silicon_platforms.Display.Validation.{validate_geometry, validate_framebuffer_range}
use apple_silicon_platforms.Display.SimpleFb.{
  BootVideo, DisplayMode, accepts, mode_for, allocate_mode, publish, configure_blt,
  assert_efi_error, simple_fb_dxe_initialize,
}

-- A geometry is accepted exactly if it has pixels, 32 bits for each, and scan lines of whole
-- pixels, long enough for the width.
validate_geometry_iff :
    (width height stride depth : ℕ)
    → width < 2 ^ 32
    → (validate_geometry width height stride depth ≡ true)
      ↔ ((0 < width) × (0 < height) × (depth ≡ 32) × (stride % 4 ≡ 0) × (4 * width ≤ stride))
unfolding validate_geometry
validate_geometry_iff width height stride depth small = ground (arith, bit_and-ones 2 stride)

-- A frame buffer is accepted exactly if its address is not 0, its size is not 0 and below 4 GB, both
-- are multiples of the page size, it lies within system memory, and system memory ends below 2 ^ 64.
pub validate_framebuffer_range_iff :
    (base size memory_base memory_size : ℕ)
    → base < 2 ^ 64
    → size < 2 ^ 64
    → memory_base < 2 ^ 64
    → memory_size < 2 ^ 64
    → (validate_framebuffer_range base size memory_base memory_size ≡ true) ↔ (
        (0 < base)
        × (0 < size)
        × (size < 2 ^ 32)
        × (base % 0x1000 ≡ 0)
        × (size % 0x1000 ≡ 0)
        × (memory_base ≤ base)
        × (base + size ≤ memory_base + memory_size)
        × (memory_base + memory_size < 2 ^ 64))
unfolding validate_framebuffer_range
validate_framebuffer_range_iff base size memory_base memory_size p q r s =
    ground (arith, bit_and-ones 12 (bit_or base size), bit_or-mod_zero 12 base size)

-- Every pixel of the resolution has its four bytes within the frame buffer.
abbrev pub IsInside : DisplayMode → Type 0
IsInside m =
    (x y : ℕ)
    → x < m.info.horizontal_resolution
    → y < m.info.vertical_resolution
    → (y * m.info.pixels_per_scan_line + x) * 4 + 4 ≤ m.frame_buffer_size

rows_below : (s y h : ℕ) → y < h → y * s + s ≤ s * h
rows_below s y zero p = absurd (omega arith)
rows_below s y (suc h) p = elim (Bool-cases (ltb y h)) [
  | inl e ↦ omega (arith, rows_below s y h (ground arith))
  | inr e ↦ omega (arith, mul_comm h s, ap (λ (z : ℕ). z * s) (same e))
]
  where
    same : ltb y h ≡ false → y ≡ h
    same e = ground arith

-- The product of two 32-bit numbers.
product_small : (s h : ℕ) → s < 2 ^ 32 → h < 2 ^ 32 → s * h < 2 ^ 64
product_small s h p q = omega (arith, scaled s h p)
  where
    scaled : (s h : ℕ) → s < 2 ^ 32 → s * h ≤ 0xffffffff * h
    scaled s zero p = omega arith
    scaled s (suc h) p = omega (arith, scaled s h p)

pixel_inside :
    (s w h x y : ℕ)
    → s < 2 ^ 32
    → h < 2 ^ 32
    → s % 4 ≡ 0
    → 4 * w ≤ s
    → x < w
    → y < h
    → (y * (s / 4) + x) * 4 + 4 ≤ s * h % 2 ^ 64
pixel_inside s w h x y p q whole wide in_row in_column = omega (
  arith,
  product_small s h p q,
  rows_below (s / 4) y h in_column,
  ap (λ (z : ℕ). z * h) four,
  mul_assoc 4 (s / 4) h,
)
  where
    four : s ≡ 4 * (s / 4)
    four = omega (arith, whole)

accepts-geometry :
    (v : BootVideo)
    → accepts v ≡ true
    → validate_geometry
        (v.fb_width % 2 ^ 32)
        (v.fb_height % 2 ^ 32)
        (v.fb_stride % 2 ^ 32)
        (v.fb_depth % 2 ^ 32)
      ≡ true
unfolding accepts
accepts-geometry v e = ground arith

accepts-IsInside : (v : BootVideo) → accepts v ≡ true → IsInside (mode_for v)
unfolding mode_for
accepts-IsInside v e x y in_row in_column =
    let geometry =
      (validate_geometry_iff (v.fb_width % 2 ^ 32) (v.fb_height % 2 ^ 32) (v.fb_stride % 2 ^ 32)
          (v.fb_depth % 2 ^ 32) (omega arith)).0
        (accepts-geometry v e) in
    pixel_inside (v.fb_stride % 2 ^ 32) (v.fb_width % 2 ^ 32) (v.fb_height % 2 ^ 32) x y
      (omega arith) (omega arith) geometry.3 geometry.4 in_row in_column

assert-Ends : (status : Status) (d : Device) (t : Trace) → Ends (assert_efi_error status d t)
unfolding assert_efi_error
assert-Ends status d t = ground arith

configure_blt-Ends : (base : ℕ) (d : Device) (t : Trace) → Ends (configure_blt base d t)
unfolding configure_blt
configure_blt-Ends base d t = ground arith

allocate_mode-Ends : (d : Device) (t : Trace) → Ends (allocate_mode none d t)
unfolding allocate_mode assert_efi_error
allocate_mode-Ends d t = ground arith

publish_mode :
    (v : BootVideo) (d : Device) (t : Trace)
    → Returns (λ r u. r.0 ≡ some (mode_for v)) (publish v d t)
unfolding publish
publish_mode v d t =
    Returns-proceed _ _ (configure_blt (mode_for v).frame_buffer_base d t) _ d
      (configure_blt-Ends (mode_for v).frame_buffer_base d t)
      λ configured t1 h1.
        Returns-proceed _ _ (assert_efi_error configured d t1) _ d (assert-Ends configured d t1)
          λ _ t2 h2.
            Returns-proceed _ _
              (assert_efi_error (d.reply t2 install_protocols) d (call install_protocols ∷ t2)) _ d
              (assert-Ends (d.reply t2 install_protocols) d (call install_protocols ∷ t2))
              λ _ t3 h3. refl

-- An error, or a mode all of whose pixels are inside.
abbrev pub Published : Option DisplayMode × Status → Trace → Type 0
Published r u = (is_error r.1 ≡ true) ⊎ ((m : DisplayMode) × (r.0 ≡ some m) × IsInside m)

-- SimpleFbDxeInitialize, run for the first time on any boot arguments: it comes to its end with an
-- error, or has published a mode all of whose pixels lie within its frame buffer.
pub simple_fb_dxe_initialize-IsInside :
    (video : Option BootVideo) (d : Device) (t : Trace)
    → Returns Published (simple_fb_dxe_initialize none video d t)
unfolding simple_fb_dxe_initialize
simple_fb_dxe_initialize-IsInside none d t = inl refl
simple_fb_dxe_initialize-IsInside (some v) d t = elim (Bool-cases (accepts v)) [
  | inl ok ↦ rw ok (
      Returns-proceed (λ _ _. Unit {0}) Published (allocate_mode none d t) _ d
        (allocate_mode-Ends d t)
        λ room u h. elim (Bool-cases (is_error room)) [
          | inl e ↦ rw e (inl e)
          | inr e ↦ rw e (
              Returns-weaken (λ r w. r.0 ≡ some (mode_for v)) Published (publish v d u)
                (publish_mode v d u) (λ r w same. inr (mode_for v, same, accepts-IsInside v ok)))
        ])
  | inr refused ↦ rw refused (inl refl)
]

-- ===== src/Display/Tests.antt =====
-- The display's theorems at concrete inputs: a frame buffer of 2560 by 1600 pixels.
use apple_silicon_platforms.Prelude.{
  ℕ, ◌+◌, ◌%◌, ◌^◌, ◌≤◌, ◌<◌, ◌≡◌, ◌↔◌, true, none, some, [], arith,
}
use apple_silicon_platforms.Platform.Status.{success}
use apple_silicon_platforms.Platform.Io.{Device, Returns}
use apple_silicon_platforms.Display.Validation.{validate_framebuffer_range}
use apple_silicon_platforms.Display.SimpleFb.{BootVideo, simple_fb_dxe_initialize}
use apple_silicon_platforms.Display.Geometry.{
  validate_framebuffer_range_iff, Published, simple_fb_dxe_initialize-IsInside,
}

abbrev video : BootVideo
video = record {
  fb_base = 0x9e0df8000;
  fb_width = 2560;
  fb_height = 1600;
  fb_stride = 10240;
  fb_depth = 32;
}

abbrev device : Device
device = record { value = λ t l. 0; reply = λ t s. success }

abbrev depth : ℕ
depth = 32

validate_framebuffer_range_iff_example :
    (validate_framebuffer_range 0x9e0000000 0x1000000 0x800000000 0x200000000 ≡ true) ↔ (
      (0 < 0x9e0000000)
      × (0 < 0x1000000)
      × (0x1000000 < 2 ^ 32)
      × (0x9e0000000 % 0x1000 ≡ 0)
      × (0x1000000 % 0x1000 ≡ 0)
      × (0x800000000 ≤ 0x9e0000000)
      × (0x9e0000000 + 0x1000000 ≤ 0x800000000 + 0x200000000)
      × (0x800000000 + 0x200000000 < 2 ^ 64))
validate_framebuffer_range_iff_example =
    validate_framebuffer_range_iff 0x9e0000000 0x1000000 0x800000000 0x200000000 (omega arith)
      (omega arith) (omega arith) (omega arith)

simple_fb_dxe_initialize-IsInside_example :
    Returns Published (simple_fb_dxe_initialize none (some video) device [])
simple_fb_dxe_initialize-IsInside_example = simple_fb_dxe_initialize-IsInside (some video) device []

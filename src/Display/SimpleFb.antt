-- ===== src/Display/SimpleFb.antt =====
-- Drivers/SimpleFbDxe: the graphics output protocol over the boot loader's frame buffer.
-- FrameBufferBltLib is not part of the repository: its calls are services.
use apple_silicon_platforms.Prelude.{
  ℕ, ◌*◌, ◌/◌, ◌%◌, ◌^◌, Bool, not, ◌||◌, Option, none, some, ltb, ◌==◌, if◌then◌else◌,
}
use apple_silicon_platforms.Platform.Status.{
  Status, success, invalid_parameter, buffer_too_small, is_error,
}
use apple_silicon_platforms.Platform.Io.{
  Io, pure, ◌>>=◌, ◌>>◌, emit, deref, asserted, call_service, allocate_pool, install_protocols,
  raise_tpl, restore_tpl, frame_buffer_blt, frame_buffer_blt_configure,
}
use apple_silicon_platforms.Display.Validation.{
  max_uint32, validate_query, validate_set_mode, validate_geometry,
}

-- The `video` part of struct boot_args
pub record BootVideo : Type 0 where
  pub fb_base : ℕ
  pub fb_width : ℕ
  pub fb_height : ℕ
  pub fb_stride : ℕ
  pub fb_depth : ℕ

-- EFI_GRAPHICS_OUTPUT_MODE_INFORMATION; the pixel format is always PixelBlueGreenRedReserved8BitPerColor
pub record ModeInfo : Type 0 where
  pub version : ℕ
  pub horizontal_resolution : ℕ
  pub vertical_resolution : ℕ
  pub pixels_per_scan_line : ℕ

-- EFI_GRAPHICS_OUTPUT_PROTOCOL_MODE with its Info
pub record DisplayMode : Type 0 where
  pub max_mode : ℕ
  pub mode : ℕ
  pub info : ModeInfo
  pub frame_buffer_base : ℕ
  pub frame_buffer_size : ℕ

-- ASSERT_EFI_ERROR
unfoldable pub assert_efi_error : Status → Io (Unit {0})
assert_efi_error status = if is_error status then emit asserted else pure tt

-- The part of DisplayQueryMode behind the checks; `mode` is This->Mode, and what goes to *Info is
-- the second part of the result.
unfoldable pub copy_info : Option DisplayMode → Io (Status × Option ModeInfo)
copy_info display = do
  room ← call_service (allocate_pool 36)
  assert_efi_error room
  if is_error room then pure (room, none) else do m ← deref display; pure (success, some m.info)

-- DisplayQueryMode
unfoldable pub display_query_mode :
    Option DisplayMode → Bool → ℕ → Bool → Bool → Io (Status × Option ModeInfo)
display_query_mode display this mode size_of_info info =
    let status = validate_query this mode size_of_info info in
    if is_error status then pure (status, none) else copy_info display

-- DisplaySetMode
unfoldable pub display_set_mode : Bool → ℕ → Status
display_set_mode this mode = validate_set_mode this mode

-- DisplayBlt
unfoldable pub display_blt : Io Status
display_blt = do
  tpl ← call_service raise_tpl
  status ← call_service frame_buffer_blt
  restored ← call_service restore_tpl
  pure (if is_error status then invalid_parameter else success)

-- The sanity check of SimpleFbDxeInitialize
unfoldable pub accepts : BootVideo → Bool
accepts v = not (
    v.fb_base == 0
    || ltb max_uint32 v.fb_width
    || ltb max_uint32 v.fb_height
    || ltb max_uint32 v.fb_stride
    || ltb max_uint32 v.fb_depth
    || not (
        validate_geometry (v.fb_width % 2 ^ 32) (v.fb_height % 2 ^ 32) (v.fb_stride % 2 ^ 32)
          (v.fb_depth % 2 ^ 32)))

-- The mode that SimpleFbDxeInitialize sets up
unfoldable pub mode_for : BootVideo → DisplayMode
mode_for v = record {
  max_mode = 1;
  mode = 0;
  info = record {
    version = 0;
    horizontal_resolution = v.fb_width % 2 ^ 32;
    vertical_resolution = v.fb_height % 2 ^ 32;
    pixels_per_scan_line = v.fb_stride % 2 ^ 32 / 4;
  };
  frame_buffer_base = v.fb_base;
  frame_buffer_size = (v.fb_stride % 2 ^ 32) * (v.fb_height % 2 ^ 32) % 2 ^ 64;
}

-- FrameBufferBltConfigure, once more with a buffer where the first call asks for one
unfoldable pub configure_blt : ℕ → Io Status
configure_blt base = do
  status ← call_service (frame_buffer_blt_configure base)
  elim status [
    | buffer_too_small ↦ (do
      room ← call_service (allocate_pool 0)
      if is_error room
          then pure buffer_too_small
          else call_service (frame_buffer_blt_configure base))
    | other ↦ pure other
  ]

-- The part of SimpleFbDxeInitialize from `Set information` on
unfoldable pub publish : BootVideo → Io (Option DisplayMode × Status)
publish v = do
  configured ← configure_blt (mode_for v).frame_buffer_base
  assert_efi_error configured
  installed ← call_service install_protocols
  assert_efi_error installed
  pure (some (mode_for v), installed)

-- The two allocations for mDisplay.Mode and its Info; `display` is mDisplay.Mode before, with its
-- Info. The entry point runs once, so the mode without Info that an error of the second one leaves
-- behind is not seen again, and it is `none` here.
unfoldable pub allocate_mode : Option DisplayMode → Io Status
allocate_mode (some m) = pure success
allocate_mode none = do
  mode_room ← call_service (allocate_pool 40)
  assert_efi_error mode_room
  if is_error mode_room then pure mode_room else do
    info_room ← call_service (allocate_pool 36)
    assert_efi_error info_room
    pure info_room

-- SimpleFbDxeInitialize; `video` is none where the boot arguments' pointer is NULL.
unfoldable pub simple_fb_dxe_initialize :
    Option DisplayMode → Option BootVideo → Io (Option DisplayMode × Status)
simple_fb_dxe_initialize display none = pure (display, invalid_parameter)
simple_fb_dxe_initialize display (some v) =
    if not (accepts v)
    then pure (display, invalid_parameter)
    else do room ← allocate_mode display; if is_error room then pure (display, room) else publish v

-- ===== src/Display/Validation.antt =====
-- Include/Library/VirtualDisplayValidation.h; a Boolean argument says that a pointer is not NULL.
use apple_silicon_platforms.Prelude.{
  ℕ, ◌+◌, ◌-◌, ◌*◌, ◌%◌, ◌^◌, Bool, false, not, ◌&&◌, ◌||◌, leb, ltb, ◌==◌, if◌then◌else◌, bit_and,
  bit_or,
}
use apple_silicon_platforms.Platform.Status.{Status, success, invalid_parameter, unsupported}

abbrev pub max_uint32 : ℕ
max_uint32 = 0xffffffff

abbrev pub max_uint64 : ℕ
max_uint64 = 0xffffffffffffffff

abbrev pub page_mask : ℕ
page_mask = 0xfff

abbrev pub display_bpp : ℕ
display_bpp = 32

abbrev pub byte_depth : ℕ
byte_depth = 4

-- VirtualDisplayValidateQuery
unfoldable pub validate_query : Bool → ℕ → Bool → Bool → Status
validate_query this mode size_of_info info =
    if not this || not size_of_info || not info
    then invalid_parameter
    else if mode == 0
    then success
    else unsupported

-- VirtualDisplayValidateSetMode
unfoldable pub validate_set_mode : Bool → ℕ → Status
validate_set_mode this mode =
    if not this then invalid_parameter else if mode == 0 then success else unsupported

-- VirtualDisplayValidateGeometry
unfoldable pub validate_geometry : ℕ → ℕ → ℕ → ℕ → Bool
validate_geometry width height stride depth =
    if width == 0 || height == 0 || not (depth == display_bpp)
    then false
    else if not (bit_and stride (byte_depth - 1) == 0)
    then false
    else leb (width * byte_depth % 2 ^ 64) stride

-- VirtualDisplayValidateFramebufferRange
unfoldable pub validate_framebuffer_range : ℕ → ℕ → ℕ → ℕ → Bool
validate_framebuffer_range base size memory_base memory_size =
    if base == 0
      || size == 0
      || ltb max_uint32 size
      || not (bit_and (bit_or base size) page_mask == 0)
    then false
    else if ltb (max_uint64 - size) base || ltb (max_uint64 - memory_size) memory_base
    then false
    else leb memory_base base && leb ((base + size) % 2 ^ 64) ((memory_base + memory_size) % 2 ^ 64)

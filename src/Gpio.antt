-- ===== src/Gpio.antt =====
-- Drivers/AppleEmbeddedGpioControllerDxe of Silicon/Apple/AppleSiliconPkg: the pin controller. The
-- driver's table of controllers is a list; EDK2's EMBEDDED_GPIO_PIN is a UINTN.
pub mod Locate
pub mod Modes
mod Tests
use apple_silicon_platforms.Prelude.{
  ℕ, ◌+◌, ◌*◌, ◌/◌, ◌%◌, ◌^◌, Bool, true, false, not, ◌&&◌, Option, none, some, List, [], ◌∷◌, ltb,
  leb, ◌==◌, if◌then◌else◌, bit_and, bit_or,
}
use apple_silicon_platforms.Platform.Status.{
  Status, success, not_found, invalid_parameter, unsupported, out_of_resources, is_error,
}
use apple_silicon_platforms.Platform.Io.{
  Io, pure, ◌>>=◌, ◌>>◌, emit, deref, asserted, mmio_read32, mmio_write32, read_sys, midr,
  call_service, locate_platform_gpio, allocate_pool, install_protocols, not64,
}
use apple_silicon_platforms.Platform.Adt.{Adt, node_u32, node_reg}
use apple_silicon_platforms.Platform.Macros.{bit_at, genmask, field_get, field_prep}

-- GPIO_CONTROLLER
pub record GpioController : Type 0 where
  pub register_base : ℕ
  pub gpio_index : ℕ
  pub internal_gpio_count : ℕ

-- EMBEDDED_GPIO_MODE; the special functions are one constructor
pub data GpioMode : Type 0 where
  gpio_input output0 output1 special_function : GpioMode

-- The output arguments of AppleEmbeddedGpioControllerLocate
pub record Located : Type 0 where
  pub controller_index : ℕ
  pub controller_offset : ℕ
  pub base : ℕ

-- (Gpio >= GpioIndex) && (Gpio < GpioIndex + InternalGpioCount)
unfoldable pub holds_pin : ℕ → GpioController → Bool
holds_pin pin c = leb c.gpio_index pin && ltb pin ((c.gpio_index + c.internal_gpio_count) % 2 ^ 64)

-- The loop of AppleEmbeddedGpioControllerLocate from controller `index` on; `found` is what the
-- output arguments hold. The first controller without the pin ends it with EFI_NOT_FOUND.
unfoldable pub locate_from : ℕ → ℕ → Option Located → List GpioController → Status × Option Located
locate_from pin index found [] = (success, found)
locate_from pin index found (c ∷ cs) =
    let rest =
      locate_from pin (index + 1)
        (some (record {
          controller_index = index;
          controller_offset = pin % c.internal_gpio_count;
          base = c.register_base;
        }))
        cs in
    if holds_pin pin c then rest else (not_found, found)

-- AppleEmbeddedGpioControllerLocate
unfoldable pub locate : List GpioController → ℕ → Status × Option Located
locate controllers pin = locate_from pin 0 none controllers

-- GPIO_REG (x), added to the base
abbrev pub gpio_reg : ℕ → ℕ → ℕ
gpio_reg base offset = (base + offset * 4 % 2 ^ 64) % 2 ^ 64

-- GPIOx_REG_DATA, GPIOx_MODE, GPIOx_OUT_MODE, GPIOx_IN_MODE_IRQ_OFF, GPIOx_PERIPHERAL,
-- GPIOx_INPUT_ENABLE
abbrev pub gpiox_reg_data : ℕ
gpiox_reg_data = bit_at 0

abbrev pub gpiox_mode : ℕ
gpiox_mode = genmask 3 1

abbrev pub gpiox_out_mode : ℕ
gpiox_out_mode = 1

abbrev pub gpiox_in_mode_irq_off : ℕ
gpiox_in_mode_irq_off = 7

abbrev pub gpiox_input_enable : ℕ
gpiox_input_enable = bit_at 9

-- AppleEmbeddedGpioControllerGetRegister
unfoldable pub get_register : ℕ → ℕ → Io ℕ
get_register base offset = mmio_read32 (gpio_reg base offset)

-- AppleEmbeddedGpioControllerSetRegister. It reads the register and merges the old value under
-- the bitmask with the new one into UpdatedValue, which only the debug message uses; what it
-- writes is the new value.
unfoldable pub set_register : ℕ → ℕ → ℕ → ℕ → Io (Unit {0})
set_register base offset bitmask value = do
  original ← mmio_read32 (gpio_reg base offset)
  let updated = bit_or (bit_and original (not64 bitmask)) value
  mmio_write32 (gpio_reg base offset) value

-- The head of the three operations: locate the pin, and assert that this went well. Without a
-- controller that held the pin the base and the offset are not initialised.
unfoldable pub locate_pin : List GpioController → ℕ → Io (Option Located)
locate_pin controllers pin =
    let (status, found) = locate controllers pin in
    if is_error status then emit asserted >> pure found else pure found

-- AppleEmbeddedGpioGetGpio; `wanted` says that the output pointer is not NULL
unfoldable pub get_gpio : List GpioController → ℕ → Bool → Io (Status × Option ℕ)
get_gpio controllers pin wanted = do
  found ← locate_pin controllers pin
  if not wanted then pure (invalid_parameter, none) else do
    at ← deref found
    v ← get_register at.base at.controller_offset
    pure (success, some v)

-- The value that AppleEmbeddedGpioSetGpio writes for a mode, and none for one that it refuses
unfoldable pub mode_value : GpioMode → Option ℕ
mode_value gpio_input =
    some (bit_or (field_prep gpiox_mode gpiox_in_mode_irq_off) gpiox_input_enable)
mode_value output0 = some (field_prep gpiox_mode gpiox_out_mode)
mode_value output1 = some (bit_or (field_prep gpiox_mode gpiox_out_mode) gpiox_reg_data)
mode_value special_function = none

-- GPIOx_PERIPHERAL | GPIOx_MODE | GPIOx_INPUT_ENABLE | GPIOx_REG_DATA
abbrev pub mode_mask : ℕ
mode_mask = bit_or (bit_or (bit_or (genmask 6 5) gpiox_mode) gpiox_input_enable) gpiox_reg_data

-- The switch of AppleEmbeddedGpioSetGpio
unfoldable pub apply_mode : Option Located → Option ℕ → Io Status
apply_mode found none = pure unsupported
apply_mode found (some value) = do
  at ← deref found
  set_register at.base at.controller_offset mode_mask value
  pure success

-- AppleEmbeddedGpioSetGpio
unfoldable pub set_gpio : List GpioController → ℕ → GpioMode → Io Status
set_gpio controllers pin mode = do
  found ← locate_pin controllers pin
  apply_mode found (mode_value mode)

-- What AppleEmbeddedGpioControllerGetMode makes of a register's value
unfoldable pub mode_of : ℕ → GpioMode
mode_of v =
    if field_get gpiox_mode v == gpiox_out_mode
    then if bit_and v gpiox_reg_data == 0 then output0 else output1
    else gpio_input

-- AppleEmbeddedGpioControllerGetMode
unfoldable pub get_mode : List GpioController → ℕ → Bool → Io (Status × Option GpioMode)
get_mode controllers pin wanted = do
  found ← locate_pin controllers pin
  if not wanted then pure (invalid_parameter, none) else do
    at ← deref found
    v ← get_register at.base at.controller_offset
    pure (success, some (mode_of v))

-- AppleEmbeddedGpioControllerSetPull
unfoldable pub set_pull : List GpioController → ℕ → Status
set_pull controllers pin = unsupported

-- The node `gpio`, or else `gpio0`
unfoldable pub pin_node : Adt → Option ℕ
pin_node adt = elim (adt.get "gpio") [ some n ↦ some n | none ↦ adt.get "gpio0" ]

-- The part of AppleEmbeddedGpioControllerDxeInitialize behind the node's lookup. `junk` is what
-- the local variable PinCtrlApReg holds before dt_node_reg; NumberOfGpioPins is a UINT8.
unfoldable pub set_up : Adt → ℕ → Option ℕ → Io (List GpioController × Status)
set_up adt junk none = pure ([], not_found)
set_up adt junk (some n) = do
  pins ← node_u32 adt (some n) "#gpio-pins" 0
  room ← call_service (allocate_pool 48)
  if is_error room then pure ([], out_of_resources) else do
    base ← node_reg adt (some n) 0 junk
    installed ← call_service install_protocols
    pure (
      record { register_base = base; gpio_index = 0; internal_gpio_count = pins % 256 } ∷ [],
      if is_error installed then out_of_resources else installed,
    )

-- AppleEmbeddedGpioControllerDxeInitialize. `present` are the controllers of a platform GPIO
-- protocol that is installed already.
unfoldable pub gpio_dxe_initialize :
    Adt → ℕ → List GpioController → Io (List GpioController × Status)
gpio_dxe_initialize adt junk present = do
  id ← read_sys midr
  located ← call_service locate_platform_gpio
  elim located [
    | not_found ↦
        if bit_and (id % 2 ^ 32 / 2 ^ 24) 0x61 == 0
        then pure ([], not_found)
        else set_up adt junk (pin_node adt)
    | other ↦ pure (present, other)
  ]

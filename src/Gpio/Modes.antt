-- ===== src/Gpio/Modes.antt =====
-- The modes of a pin: AppleEmbeddedGpioSetGpio, the register that it writes, and
-- AppleEmbeddedGpioControllerGetMode; and the table that the driver's start leaves behind.
use apple_silicon_platforms.Prelude.{
  ℕ, ◌%◌, ◌/◌, ◌^◌, ◌<◌, ◌≡◌, ◌↔◌, ◌≢◌, ◌⊎◌, refl, true, Option, some, List, [], ◌∷◌, ==-false,
  if◌then◌else◌, arith, bit, bit_and,
}
use mathlib.Core.Path.{subst}
use apple_silicon_platforms.Platform.Status.{
  Status, success, not_found, unsupported, out_of_resources, is_error,
}
use apple_silicon_platforms.Platform.Io.{
  Device, Trace, Io, ret, ◌>>=◌, pure, load, store, mmio, sys, midr, call, allocate_pool,
  install_protocols, locate_platform_gpio, Returns, asserted,
}
use apple_silicon_platforms.Platform.Adt.{Adt}
use apple_silicon_platforms.Gpio.{
  GpioController, GpioMode, gpio_input, output0, output1, special_function, locate, gpio_reg,
  set_gpio, get_mode, get_register, set_register, mode_value, mode_of, apply_mode, locate_pin,
  set_up, pin_node, gpio_dxe_initialize,
}
use apple_silicon_platforms.Gpio.Locate.{locate_single}

-- The register of a pin.
abbrev pub pin_register : GpioController → ℕ → ℕ
pin_register c pin = gpio_reg c.register_base pin

module _ (c : GpioController) (pin : ℕ) (first : c.gpio_index ≡ 0)
    (small : c.internal_gpio_count < 2 ^ 64) (in_range : pin < c.internal_gpio_count) where
  pub locate_pin_single :
      (d : Device) (t : Trace)
      → locate_pin (c ∷ []) pin d t
        ≡ ret
            (some
              (record { controller_index = 0; controller_offset = pin; base = c.register_base }))
            t
  unfolding locate_pin
  locate_pin_single d t = rw (locate_single c pin first small) (ground arith)

  pub set_gpio_single :
      (mode : GpioMode) (v : ℕ) (d : Device) (t : Trace)
      → mode_value mode ≡ some v
      → set_gpio (c ∷ []) pin mode d t
        ≡ ret success
            (store (mmio (pin_register c pin)) (v % 2 ^ 32) ∷ load (mmio (pin_register c pin)) ∷ t)
  unfolding set_gpio apply_mode set_register
  set_gpio_single mode v d t e = rw (locate_pin_single d t) (rw e refl)

  get_mode_single :
      (d : Device) (t : Trace)
      → get_mode (c ∷ []) pin true d t
        ≡ ret
            (success, some (mode_of (d.value t (mmio (pin_register c pin)) % 2 ^ 32)))
            (load (mmio (pin_register c pin)) ∷ t)
  unfolding get_mode get_register
  get_mode_single d t = rw (locate_pin_single d t) refl

-- Reading the word of a mode back gives the mode, and the word has no bit of the pull field.
abbrev IsWordOf : GpioMode → ℕ → Type 0
IsWordOf mode v =
    (mode_of (v % 2 ^ 32 % 2 ^ 32) ≡ mode) × (bit 7 (v % 2 ^ 32) ≡ 0) × (bit 8 (v % 2 ^ 32) ≡ 0)

at_word : (mode : GpioMode) (x v : ℕ) → IsWordOf mode x → some x ≡ some v → IsWordOf mode v
at_word mode x v h e = subst (IsWordOf mode) same h
  where
    same : x ≡ v
    same = cc

mode_value-IsWordOf : (mode : GpioMode) (v : ℕ) → mode_value mode ≡ some v → IsWordOf mode v
unfolding mode_of mode_value
mode_value-IsWordOf gpio_input v e = at_word gpio_input 526 v (refl, refl, refl) e
mode_value-IsWordOf output0 v e = at_word output0 2 v (refl, refl, refl) e
mode_value-IsWordOf output1 v e = at_word output1 3 v (refl, refl, refl) e
mode_value-IsWordOf special_function v e = cc

-- A caller that sets a mode and then asks for it.
abbrev pub set_then_get :
    List GpioController → ℕ → GpioMode → Io (Status × Status × Option GpioMode)
set_then_get controllers pin mode = do
  status ← set_gpio controllers pin mode
  got ← get_mode controllers pin true
  pure (status, got.0, got.1)

-- On the controller that the driver sets up, for a pin in range, a mode other than a special
-- function, and a device whose register then holds the word last written: AppleEmbeddedGpioSetGpio
-- succeeds, and AppleEmbeddedGpioControllerGetMode reports the mode that was set.
pub set_gpio-get_mode :
    (c : GpioController) (pin : ℕ) (mode : GpioMode) (v : ℕ) (d : Device) (t : Trace)
    → c.gpio_index ≡ 0
    → c.internal_gpio_count < 2 ^ 64
    → pin < c.internal_gpio_count
    → mode_value mode ≡ some v
    → ((u : Trace) (w : ℕ)
        → d.value (store (mmio (pin_register c pin)) w ∷ u) (mmio (pin_register c pin)) ≡ w)
    → set_then_get (c ∷ []) pin mode d t
      ≡ ret
          (success, success, some mode)
          (load (mmio (pin_register c pin))
            ∷ store (mmio (pin_register c pin)) (v % 2 ^ 32)
            ∷ load (mmio (pin_register c pin))
            ∷ t)
set_gpio-get_mode c pin mode v d t first small in_range e memory =
    rw (set_gpio_single c pin first small in_range mode v d t e) (
      rw (get_mode_single c pin first small in_range d _) (
        rw (memory (load (mmio (pin_register c pin)) ∷ t) (v % 2 ^ 32))
          (rw (mode_value-IsWordOf mode v e).0 refl)))

-- Whatever the pin's register held, AppleEmbeddedGpioSetGpio replaces it by a word whose pull bits
-- 7 and 8 are 0: the value read, which it merges with the new one, is not used.
set_gpio_clears_pull :
    (c : GpioController) (pin : ℕ) (mode : GpioMode) (v : ℕ) (d : Device) (t : Trace)
    → c.gpio_index ≡ 0
    → c.internal_gpio_count < 2 ^ 64
    → pin < c.internal_gpio_count
    → mode_value mode ≡ some v
    → (w : ℕ) × (set_gpio (c ∷ []) pin mode d t
        ≡ ret success (store (mmio (pin_register c pin)) w ∷ load (mmio (pin_register c pin)) ∷ t))
      × (bit 7 w ≡ 0)
      × (bit 8 w ≡ 0)
set_gpio_clears_pull c pin mode v d t first small in_range e = (
  v % 2 ^ 32,
  set_gpio_single c pin first small in_range mode v d t e,
  (mode_value-IsWordOf mode v e).1,
  (mode_value-IsWordOf mode v e).2,
)

-- A special function is refused, before any access to a register, whatever the table.
set_gpio-special_function :
    (controllers : List GpioController) (pin : ℕ) (d : Device) (t : Trace)
    → Returns
        (λ status u. (status ≡ unsupported) × ((u ≡ t) ⊎ (u ≡ asserted ∷ t)))
        (set_gpio controllers pin special_function d t)
unfolding set_gpio apply_mode mode_value locate_pin
set_gpio-special_function controllers pin d t = ground arith

abbrev controller : ℕ → ℕ → GpioController
controller base pins = record {
  register_base = base;
  gpio_index = 0;
  internal_gpio_count = pins % 2 ^ 32 % 256;
}

found_below :
    (base pins pin : ℕ)
    → ((locate (controller base pins ∷ []) pin).0 ≡ success) ↔ (pin < pins % 256)
found_below base pins pin =
    rw (locate_single (controller base pins) pin refl (omega arith)) (ground arith)

kept : (s : Status) → ((if is_error s then out_of_resources else s) ≡ success) ↔ (s ≡ success)
kept s = ground arith

-- AppleEmbeddedGpioControllerDxeInitialize on an Apple processor, with a node that has
-- `#gpio-pins`, no platform GPIO protocol yet and memory for the table: it comes to its end, with
-- a success exactly if the protocol installs, and from then on the pins that are found are those
-- below the low byte of `#gpio-pins`.
pub gpio_dxe_initialize_lem :
    (adt : Adt) (junk n pins : ℕ) (present : List GpioController) (d : Device) (t : Trace)
    → bit_and (d.value t (sys midr) % 2 ^ 64 % 2 ^ 32 / 2 ^ 24) 0x61 ≢ 0
    → d.reply (load (sys midr) ∷ t) locate_platform_gpio ≡ not_found
    → pin_node adt ≡ some n
    → adt.u32 n "#gpio-pins" 0 ≡ some pins
    → d.reply (call locate_platform_gpio ∷ load (sys midr) ∷ t) (allocate_pool 48) ≡ success
    → Returns
        (λ r u.
          ((r.1 ≡ success) ↔ (
            d.reply
              (call (allocate_pool 48) ∷ call locate_platform_gpio ∷ load (sys midr) ∷ t)
              install_protocols
            ≡ success))
          × ((pin : ℕ) → ((locate r.0 pin).0 ≡ success) ↔ (pin < pins % 256)))
        (gpio_dxe_initialize adt junk present d t)
unfolding gpio_dxe_initialize set_up
gpio_dxe_initialize_lem adt junk n pins present d t apple absent node count room = rw absent (
    rw (==-false _ _ apple) (
      rw node
        (rw count (rw room (kept (d.reply _ install_protocols), λ pin. found_below _ pins pin)))))

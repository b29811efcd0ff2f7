-- ===== src/Gpio/Locate.antt =====
-- AppleEmbeddedGpioControllerLocate: when it finds a pin.
use apple_silicon_platforms.Prelude.{
  ℕ, ◌+◌, ◌^◌, ◌≤◌, ◌<◌, ◌≡◌, none, some, [], ◌∷◌, ltb, if◌then◌else◌, arith,
}
use native.Mathlib.Nat.{mod-eq_of_lt}
use apple_silicon_platforms.Platform.Status.{success, not_found}
use apple_silicon_platforms.Gpio.{GpioController, holds_pin, locate_from, locate}

-- With two controllers whose ranges do not meet, first `a` and then `b`, no pin is found, not
-- even one that `a` or `b` has.
locate_two_controllers :
    (a b : GpioController) (pin : ℕ)
    → a.gpio_index + a.internal_gpio_count ≤ b.gpio_index
    → b.gpio_index + b.internal_gpio_count < 2 ^ 64
    → (locate (a ∷ b ∷ []) pin).0 ≡ not_found
unfolding locate locate_from holds_pin
locate_two_controllers a b pin apart small = ground arith

-- The one controller that the driver sets up: a pin below its count is found, with the pin itself
-- as its offset and the controller's base; any other pin is not.
pub locate_single :
    (c : GpioController) (pin : ℕ)
    → c.gpio_index ≡ 0
    → c.internal_gpio_count < 2 ^ 64
    → locate (c ∷ []) pin ≡ (
        if ltb pin c.internal_gpio_count
        then (
          success,
          some (record { controller_index = 0; controller_offset = pin; base = c.register_base }),
        )
        else (not_found, none))
unfolding locate locate_from holds_pin
locate_single c pin first small = ground (arith, mod-eq_of_lt {n = pin} {m = c.internal_gpio_count})

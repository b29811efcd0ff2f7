-- ===== src/Gpio/Tests.antt =====
-- The pin controller's theorems at concrete inputs.
use apple_silicon_platforms.Prelude.{ℕ, ◌<◌, ◌≡◌, ◌↔◌, refl, none, some, [], ◌∷◌, arith}
use apple_silicon_platforms.Platform.Status.{Status, success, not_found}
use apple_silicon_platforms.Platform.Io.{
  Device, Trace, Service, ret, mmio, sys, load, store, Returns, locate_platform_gpio,
}
use apple_silicon_platforms.Platform.Adt.{Adt}
use apple_silicon_platforms.Gpio.{
  GpioController, output1, locate, mode_value, pin_node, gpio_dxe_initialize,
}
use apple_silicon_platforms.Gpio.Modes.{set_then_get, set_gpio-get_mode, gpio_dxe_initialize_lem}

abbrev low : GpioController
low = record { register_base = 0x23c100000; gpio_index = 0; internal_gpio_count = 212 }

abbrev high : GpioController
high = record { register_base = 0x24e820000; gpio_index = 212; internal_gpio_count = 42 }

-- A processor of Apple's whose registers all hold `word`; no GPIO protocol is installed.
abbrev answer : Service → Status
answer locate_platform_gpio = not_found
answer _ = success

abbrev last_stored : Trace → ℕ
last_stored [] = 0
last_stored (store l v ∷ t) = v
last_stored (_ ∷ t) = last_stored t

abbrev device : Device
device = record {
  value = λ t l. elim l [ sys r ↦ 0x61000000 | _ ↦ last_stored t ];
  reply = λ t s. answer s;
}

abbrev tree : Adt
tree = record {
  get = λ name. some 1;
  text = λ node name. none;
  words = λ node name. none;
  u32 = λ node name i. some 212;
  reg = λ node i. some 0x23c100000;
}

value_of_output1 : mode_value output1 ≡ some 3
unfolding mode_value
value_of_output1 = refl

set_gpio-get_mode_example :
    set_then_get (low ∷ []) 150 output1 device []
    ≡ ret
        (success, success, some output1)
        (load (mmio 0x23c100258) ∷ store (mmio 0x23c100258) 3 ∷ load (mmio 0x23c100258) ∷ [])
set_gpio-get_mode_example =
    set_gpio-get_mode low 150 output1 3 device [] refl (omega arith) (omega arith) value_of_output1
      (λ u w. refl)

node_of_tree : pin_node tree ≡ some 1
unfolding pin_node
node_of_tree = refl

gpio_dxe_initialize_lem_example :
    Returns
      (λ r u.
        ((r.1 ≡ success) ↔ (success ≡ success))
        × ((pin : ℕ) → ((locate r.0 pin).0 ≡ success) ↔ (pin < 212)))
      (gpio_dxe_initialize tree 0 [] device [])
gpio_dxe_initialize_lem_example =
    gpio_dxe_initialize_lem tree 0 1 212 [] device [] (omega arith) refl node_of_tree refl refl

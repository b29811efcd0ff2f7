-- ===== src/Usb/Tests.antt =====
-- The USB Type-C driver's theorem at concrete inputs: four controllers whose nodes are all there,
-- and a device whose registers all read as the identification of a core.
use apple_silicon_platforms.Prelude.{refl, none, some, []}
use apple_silicon_platforms.Platform.Status.{success}
use apple_silicon_platforms.Platform.Io.{Device, Returns}
use apple_silicon_platforms.Platform.Adt.{Adt}
use apple_silicon_platforms.Usb.Bringup.{bringup_callback}
use apple_silicon_platforms.Usb.Confined.{Confined, IsControllerRegister, bringup_callback-Confined}

abbrev tree : Adt
tree = record {
  get = λ name. some 5;
  text = λ node name. none;
  words = λ node name. none;
  u32 = λ node name i. none;
  reg = λ node i. some 0x502280000;
}

abbrev core : Device
core = record { value = λ t at. 0x33311800; reply = λ t s. success }

bringup_callback-Confined_example :
    Returns
      (Confined (IsControllerRegister tree (λ text i. text) 4))
      (bringup_callback tree (λ text i. text) 4 77 core [])
bringup_callback-Confined_example =
    bringup_callback-Confined tree (λ text i. text) 4 core (λ i node e. (0x502280000, refl)) 77

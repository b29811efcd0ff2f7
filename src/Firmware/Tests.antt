-- ===== src/Firmware/Tests.antt =====
-- The firmware upload's theorems at concrete inputs.
use apple_silicon_platforms.Prelude.{ℕ, ◌+◌, ◌<◌, ◌≡◌, ◌⊎◌, refl, true, List, [], ◌∷◌, arith}
use apple_silicon_platforms.Platform.Status.{success, unsupported}
use apple_silicon_platforms.Platform.Io.{
  Device, ret, Returns, load, pci_configuration, call, open_pci_io, close_pci_io, pci_get_location,
}
use apple_silicon_platforms.Firmware.Upload.{upload_words, binding_supported}
use apple_silicon_platforms.Firmware.Words.{position}
use apple_silicon_platforms.Firmware.Transfer.{
  IsResponsive, programmed, last_address, upload_words_lem,
}
use apple_silicon_platforms.Firmware.Binding.{binding_supported_lem}

-- A controller that moves its address register on by 2.
abbrev controller : Device
controller = record { value = λ t l. last_address t + 2; reply = λ t s. success }

controller-IsResponsive : IsResponsive controller
controller-IsResponsive = record { reliable = λ t. refl; moves = λ t a w e. absurd (omega arith) }

abbrev small_image : List ℕ
small_image = 0x1234 ∷ 0x5678 ∷ 0x9ABC ∷ []

upload_words_lem_example :
    Returns
      (λ complete u.
        (complete ≡ true) × (programmed u ≡ (4, 0x9ABC) ∷ (2, 0x5678) ∷ (0, 0x1234) ∷ []))
      (upload_words 10000 4 small_image 3 0 0 controller [])
    × ((j : ℕ) → j < 3 → (k : ℕ) × (k < 3) × ((position k ≡ j) ⊎ (position k + 0x4000 ≡ j)))
upload_words_lem_example =
    upload_words_lem controller small_image 9999 4 [] controller-IsResponsive (omega arith)
      (omega arith) (omega arith)

-- A device of another vendor, 0x106B.
abbrev other_device : Device
other_device = record { value = λ t l. 0x100C106B; reply = λ t s. success }

binding_supported_lem_example :
    binding_supported 10000 4 0 small_image 6 other_device []
    ≡ ret unsupported (
        call close_pci_io
        ∷ call pci_get_location
        ∷ load (pci_configuration 0)
        ∷ call open_pci_io
        ∷ [])
binding_supported_lem_example =
    binding_supported_lem other_device 10000 4 0 small_image 6 [] refl (λ u. refl) (λ u. refl)
      (omega arith)

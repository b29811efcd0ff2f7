-- ===== src/Firmware/Binding.antt =====
-- The driver binding on a device that is not the controller.
use apple_silicon_platforms.Prelude.{
  ℕ, ◌%◌, ◌^◌, ◌≡◌, ◌≢◌, refl, false, List, ◌∷◌, bit_and-ones, arith,
}
use apple_silicon_platforms.Platform.Status.{unsupported, is_error}
use apple_silicon_platforms.Platform.Io.{
  Device, Trace, ret, load, call, pci_configuration, pci_access, pci_get_location, open_pci_io,
  close_pci_io,
}
use apple_silicon_platforms.Firmware.Upload.{is_asmedia, identify_and_load, binding_supported}

is_asmedia-false : (id : ℕ) → id % 2 ^ 16 ≢ 0x1B21 → is_asmedia id ≡ false
unfolding is_asmedia
is_asmedia-false id h = ground (arith, bit_and-ones 16 id)

-- The driver binding's Supported on a PCI device whose vendor, the low 16 bits of its first
-- configuration word, is not ASMedia's, where the protocol opens and the reads succeed: it refuses
-- the device, closes the protocol, keeps the binding installed, and has written nothing.
pub binding_supported_lem :
    (d : Device) (rounds fuel garbage : ℕ) (firmware : List ℕ) (size : ℕ) (t : Trace)
    → is_error (d.reply t open_pci_io) ≡ false
    → ((u : Trace) → is_error (d.reply u pci_access) ≡ false)
    → ((u : Trace) → is_error (d.reply u pci_get_location) ≡ false)
    → d.value (call open_pci_io ∷ t) (pci_configuration 0) % 2 ^ 16 ≢ 0x1B21
    → binding_supported rounds fuel garbage firmware size d t
      ≡ ret unsupported (
          call close_pci_io
          ∷ call pci_get_location
          ∷ load (pci_configuration 0)
          ∷ call open_pci_io
          ∷ t)
unfolding binding_supported identify_and_load
binding_supported_lem d rounds fuel garbage firmware size t opens reads located other =
    let t1 : Trace = call open_pci_io ∷ t in
    let id : ℕ = d.value t1 (pci_configuration 0) % 2 ^ 32 in
    rw opens (
      rw (reads t1) (
        rw (located (load (pci_configuration 0) ∷ t1))
          (rw (is_asmedia-false id (λ e. other (omega (arith, e)))) refl)))

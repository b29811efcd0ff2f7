-- ===== src/Firmware/Registers.antt =====
-- The controller's registers: the constants of AppleBootTimeEmbeddedFirmwareHelperXhciDxe.h, the
-- PCI I/O protocol's calls, and the indirect registers behind BAR 0. Each call of the protocol gives
-- a status, which mostly only feeds an assertion; what a failed read leaves in the variable is the
-- device's value as well, which may be anything. PollMem is the protocol's: its status is a reply.
use apple_silicon_platforms.Prelude.{
  ℕ, zero, suc, ◌%◌, ◌^◌, Bool, true, false, ◌∷◌, ◌==◌, if◌then◌else◌,
}
use apple_silicon_platforms.Platform.Status.{Status, is_error}
use apple_silicon_platforms.Platform.Io.{
  Io, ret, pure, ◌>>=◌, ◌>>◌, emit, load, store, asserted, call_service, pci_memory,
  pci_configuration, pci_access, pci_poll_memory,
}
use apple_silicon_platforms.Platform.Macros.{bit_at}

-- The PCI I/O protocol's Mem.Read and Mem.Write on BAR 0, and Pci.Read and Pci.Write, with the
-- width in bits
abbrev pub mem_read : ℕ → ℕ → Io (Status × ℕ)
mem_read width offset d t =
    ret (d.reply t pci_access, d.value t (pci_memory offset) % 2 ^ width)
      (load (pci_memory offset) ∷ t)

abbrev pub mem_write : ℕ → ℕ → ℕ → Io Status
mem_write width offset v d t =
    ret (d.reply t pci_access) (store (pci_memory offset) (v % 2 ^ width) ∷ t)

abbrev pub config_read : ℕ → ℕ → Io (Status × ℕ)
config_read width offset d t =
    ret (d.reply t pci_access, d.value t (pci_configuration offset) % 2 ^ width)
      (load (pci_configuration offset) ∷ t)

abbrev pub config_write : ℕ → ℕ → ℕ → Io Status
config_write width offset v d t =
    ret (d.reply t pci_access) (store (pci_configuration offset) (v % 2 ^ width) ∷ t)

-- ASSERT_EFI_ERROR
abbrev pub assert_efi_error : Status → Io (Unit {0})
assert_efi_error status = if is_error status then emit asserted else pure tt

abbrev pub asmedia_register_addr : ℕ
asmedia_register_addr = 0x3000

abbrev pub asmedia_register_write_data : ℕ
asmedia_register_write_data = 0x3004

abbrev pub asmedia_register_read_data : ℕ
asmedia_register_read_data = 0x3008

abbrev pub asmedia_register_status : ℕ
asmedia_register_status = 0x3009

abbrev pub asmedia_register_status_busy : ℕ
asmedia_register_status_busy = bit_at 7

abbrev pub asmedia_register_code_write_data : ℕ
asmedia_register_code_write_data = 0x3010

abbrev pub timeout_usec : ℕ
timeout_usec = 10000

-- PollMem of the status register until it is not busy
abbrev pub wait_not_busy : Io (Unit {0})
wait_not_busy = do
  status ← call_service (pci_poll_memory asmedia_register_status asmedia_register_status_busy)
  assert_efi_error status

-- AppleAsmediaReadRegister
unfoldable pub read_register : ℕ → Io ℕ
read_register address = do
  wait_not_busy
  status ← mem_write 16 asmedia_register_addr address
  assert_efi_error status
  wait_not_busy
  r ← mem_read 8 asmedia_register_read_data
  assert_efi_error r.0
  pure r.1

-- The loop that verifies a write, with `rounds` to go: whether the value was read
unfoldable pub verify_register : ℕ → ℕ → ℕ → Io Bool
verify_register zero address value = pure false
verify_register (suc rounds) address value = do
  r ← read_register address
  elim (r == value) [ true ↦ pure true | false ↦ verify_register rounds address value ]

-- AppleAsmediaWriteRegister; `rounds` is TIMEOUT_USEC
unfoldable pub write_register : ℕ → ℕ → ℕ → Bool → Io (Unit {0})
write_register rounds address value wait = do
  status ← mem_write 16 asmedia_register_addr address
  assert_efi_error status
  wait_not_busy
  status2 ← mem_write 8 asmedia_register_write_data value
  assert_efi_error status2
  wait_not_busy
  if wait
      then (do
        verified ← verify_register rounds address value
        if verified then pure tt else emit asserted)
      else pure tt

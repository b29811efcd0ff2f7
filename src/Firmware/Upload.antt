-- ===== src/Firmware/Upload.antt =====
-- The reset of the controller, the upload of its firmware, and the driver binding that starts it.
use apple_silicon_platforms.Prelude.{
  ℕ, zero, suc, ◌+◌, ◌*◌, ◌/◌, ◌%◌, ◌^◌, Bool, true, false, List, get_elem?, bit_and, bit_or, ltb,
  ◌==◌, if◌then◌else◌,
}
use apple_silicon_platforms.Platform.Status.{
  Status, success, invalid_parameter, unsupported, is_error,
}
use apple_silicon_platforms.Platform.Io.{
  Io, pure, ◌>>=◌, ◌>>◌, emit, wedge, deref, delay, asserted, call_service, pci_poll_memory,
  pci_attributes, pci_get_location, open_pci_io, close_pci_io, install_driver_binding,
  uninstall_driver_binding,
}
use apple_silicon_platforms.Platform.Macros.{bit_at}
use apple_silicon_platforms.Firmware.Registers.{
  mem_read, mem_write, config_read, config_write, assert_efi_error,
  asmedia_register_code_write_data, write_register,
}
use apple_silicon_platforms.Firmware.Mailbox.{check_firmware_is_loaded}

abbrev pub asmedia_configuration_sram_addr_reg : ℕ
asmedia_configuration_sram_addr_reg = 0xE2

abbrev pub asmedia_configuration_sram_access_reg : ℕ
asmedia_configuration_sram_access_reg = 0xEF

abbrev pub asmedia_configuration_sram_access_enable_bit : ℕ
asmedia_configuration_sram_access_enable_bit = bit_at 7

abbrev pub asmedia_mmio_cpu_misc : ℕ
asmedia_mmio_cpu_misc = 0x500E

abbrev pub asmedia_mmio_cpu_misc_code_ram_wr : ℕ
asmedia_mmio_cpu_misc_code_ram_wr = bit_at 0

abbrev pub asmedia_mmio_cpu_mode_next : ℕ
asmedia_mmio_cpu_mode_next = 0x5040

abbrev pub asmedia_mmio_cpu_mode_ram : ℕ
asmedia_mmio_cpu_mode_ram = bit_at 0

abbrev pub asmedia_mmio_cpu_mode_halfspeed : ℕ
asmedia_mmio_cpu_mode_halfspeed = bit_at 1

abbrev pub asmedia_mmio_cpu_exec_control : ℕ
asmedia_mmio_cpu_exec_control = 0x5042

abbrev pub asmedia_mmio_cpu_exec_control_reset : ℕ
asmedia_mmio_cpu_exec_control_reset = bit_at 0

abbrev pub asmedia_mmio_cpu_exec_control_halt : ℕ
asmedia_mmio_cpu_exec_control_halt = bit_at 1

abbrev pub asmedia_firmware_upload_chunk_size : ℕ
asmedia_firmware_upload_chunk_size = 0x4000

abbrev pub xhc_usbcmd_reset : ℕ
xhc_usbcmd_reset = bit_at 1

-- The kick behind a reset that timed out: SRAM access on, off, and the poll again
unfoldable pub kick_reset : ℕ → Io Status
kick_reset command = do
  on ←
      config_write 8 asmedia_configuration_sram_access_reg
        asmedia_configuration_sram_access_enable_bit
  if is_error on then pure on else (do
    off ← config_write 8 asmedia_configuration_sram_access_reg 0
    if is_error off then pure off else call_service (pci_poll_memory command xhc_usbcmd_reset))

-- AppleAsmediaWaitReset
unfoldable pub wait_reset : Io Status
wait_reset = do
  caplength ← mem_read 8 0
  if is_error caplength.0 then pure caplength.0 else (do
    polled ← call_service (pci_poll_memory caplength.1 xhc_usbcmd_reset)
    if is_error polled then kick_reset caplength.1 else pure success)

-- ++Index, past the block whose words went out as high halves
unfoldable pub next_index : ℕ → ℕ
next_index index =
    let next = (index + 1) % 2 ^ 64 in
    if bit_and next asmedia_firmware_upload_chunk_size == 0
    then next
    else (next + asmedia_firmware_upload_chunk_size) % 2 ^ 64

-- The two halves of a word
unfoldable pub firmware_word : List ℕ → ℕ → ℕ → Io ℕ
firmware_word firmware chunks index = do
  low ← deref (get_elem? firmware index)
  if ltb (bit_or index asmedia_firmware_upload_chunk_size) chunks
      then (do
        high ← deref (get_elem? firmware (bit_or index asmedia_firmware_upload_chunk_size))
        pure (bit_or low (high * 2 ^ 16 % 2 ^ 32)))
      else pure low

-- The loop that waits for the address register to move on, with `rounds` to go: the last read
unfoldable pub wait_address : ℕ → ℕ → ℕ → Io ℕ
wait_address zero addr last = pure last
wait_address (suc rounds) addr last = do
  r ← config_read 16 asmedia_configuration_sram_addr_reg
  assert_efi_error r.0
  elim (r.1 == addr) [ false ↦ pure r.1 | true ↦ (do emit (delay 1); wait_address rounds addr r.1) ]

-- The upload of the words from an index on: whether it was not broken off. `rounds` is
-- TIMEOUT_USEC, and `chunks` is FirmwareChunks.
unfoldable pub upload_words : ℕ → ℕ → List ℕ → ℕ → ℕ → ℕ → Io Bool
upload_words rounds zero firmware chunks index addr = wedge
upload_words rounds (suc fuel) firmware chunks index addr = elim (ltb index chunks) [
  | false ↦ pure true
  | true ↦ (do
    word ← firmware_word firmware chunks index
    s0 ← config_write 16 asmedia_configuration_sram_addr_reg addr
    assert_efi_error s0
    s1 ← mem_write 32 asmedia_register_code_write_data word
    assert_efi_error s1
    moved ← wait_address rounds addr 0
    elim (moved == addr) [
      | true ↦ pure false
      | false ↦ upload_words rounds fuel firmware chunks (next_index index) ((addr + 2) % 2 ^ 64)
    ])
]

-- The calls of Attributes in front of the upload
unfoldable pub enable_device : Io (Unit {0})
enable_device = do
  got ← call_service pci_attributes
  supported ← call_service pci_attributes
  if is_error supported then pure tt else (do enabled ← call_service pci_attributes; pure tt)

-- AppleAsmediaLoadFirmware in front of the upload
unfoldable pub prepare_upload : ℕ → Io (Unit {0})
prepare_upload rounds = do
  enable_device
  write_register rounds asmedia_mmio_cpu_mode_next asmedia_mmio_cpu_mode_halfspeed false
  write_register rounds asmedia_mmio_cpu_exec_control asmedia_mmio_cpu_exec_control_reset false
  reset ← wait_reset
  assert_efi_error reset
  write_register rounds asmedia_mmio_cpu_exec_control asmedia_mmio_cpu_exec_control_halt false
  write_register rounds asmedia_mmio_cpu_misc asmedia_mmio_cpu_misc_code_ram_wr true
  s ←
      config_write 8 asmedia_configuration_sram_access_reg
        asmedia_configuration_sram_access_enable_bit
  assert_efi_error s

-- AppleAsmediaLoadFirmware behind the upload
unfoldable pub finish_upload : ℕ → Io (Unit {0})
finish_upload rounds = do
  s ← config_write 8 asmedia_configuration_sram_access_reg 0
  assert_efi_error s
  write_register rounds asmedia_mmio_cpu_misc 0 true
  write_register rounds asmedia_mmio_cpu_mode_next
      (bit_or asmedia_mmio_cpu_mode_ram asmedia_mmio_cpu_mode_halfspeed) false
  write_register rounds asmedia_mmio_cpu_exec_control 0 false
  reset ← wait_reset
  assert_efi_error reset

-- AppleAsmediaLoadFirmware: whether *FirmwareUploadSuccessful was set
unfoldable pub load_firmware : ℕ → ℕ → List ℕ → ℕ → Io Bool
load_firmware rounds fuel firmware size = do
  prepare_upload rounds
  complete ← upload_words rounds fuel firmware (size / 2) 0 0
  if complete then (do finish_upload rounds; pure true) else pure false

-- The driver binding's Supported behind the checks of the controller's identity: whether the
-- controller runs its firmware
unfoldable pub bootstrap_firmware : ℕ → ℕ → ℕ → List ℕ → ℕ → Io Bool
bootstrap_firmware rounds fuel garbage firmware size = do
  current ← call_service pci_attributes
  supported ← call_service pci_attributes
  loaded ← check_firmware_is_loaded rounds garbage
  if loaded then pure true else (do
    successful ← load_firmware rounds fuel firmware size
    again ← check_firmware_is_loaded rounds garbage
    pure successful)

-- PCI_VENDOR_ID_ASMEDIA and PCI_DEVICE_ID_ASMEDIA_2214A
unfoldable pub is_asmedia : ℕ → Bool
is_asmedia id = if bit_and id 0xFFFF == 0x1B21 then id / 2 ^ 16 == 0x2142 else false

-- The controller's identity, and the upload if it is the one
unfoldable pub identify_and_load : ℕ → ℕ → ℕ → List ℕ → ℕ → Io Bool
identify_and_load rounds fuel garbage firmware size = do
  id ← config_read 32 0
  if is_error id.0 then pure false else (do
    location ← call_service pci_get_location
    if is_error location
        then pure false
        else (if is_asmedia id.1
            then bootstrap_firmware rounds fuel garbage firmware size
            else pure false))

-- AppleBootTimeEmbeddedFirmwareDriverBindingSupported
unfoldable pub binding_supported : ℕ → ℕ → ℕ → List ℕ → ℕ → Io Status
binding_supported rounds fuel garbage firmware size = do
  opened ← call_service open_pci_io
  if is_error opened then pure opened else (do
    successful ← identify_and_load rounds fuel garbage firmware size
    closed ← call_service close_pci_io
    if successful
        then (do removed ← call_service uninstall_driver_binding; pure unsupported)
        else pure unsupported)

-- AppleBootTimeEmbeddedFirmwareDriverBindingStart
unfoldable pub binding_start : Io Status
binding_start = do emit asserted; pure invalid_parameter

-- AppleBootTimeEmbeddedFirmwareDriverBindingStop
unfoldable pub binding_stop : Io Status
binding_stop = do emit asserted; pure success

-- AppleBootTimeEmbeddedFirmwareHelperDxeInitialize
unfoldable pub firmware_helper_initialize : Io Status
firmware_helper_initialize = call_service install_driver_binding

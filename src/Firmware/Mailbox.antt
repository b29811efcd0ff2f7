-- ===== src/Firmware/Mailbox.antt =====
-- The controller's mailbox in its configuration space: messages, and the firmware's version.
use apple_silicon_platforms.Prelude.{
  ℕ, zero, suc, ◌+◌, ◌*◌, ◌/◌, ◌%◌, ◌^◌, Bool, true, false, not, Option, none, some, bit_and, ◌==◌,
  if◌then◌else◌,
}
use apple_silicon_platforms.Platform.Status.{Status, success, timeout, is_error}
use apple_silicon_platforms.Platform.Io.{Io, pure, ◌>>=◌, ◌>>◌, emit, delay, asserted}
use apple_silicon_platforms.Platform.Macros.{bit_at}
use apple_silicon_platforms.Firmware.Registers.{config_read, config_write, assert_efi_error}

abbrev pub asmedia_configuration_control_reg : ℕ
asmedia_configuration_control_reg = 0xE0

abbrev pub asmedia_configuration_control_write_bit : ℕ
asmedia_configuration_control_write_bit = bit_at 1

abbrev pub asmedia_configuration_control_read_bit : ℕ
asmedia_configuration_control_read_bit = bit_at 0

abbrev pub asmedia_configuration_data_read_reg_0 : ℕ
asmedia_configuration_data_read_reg_0 = 0xF0

abbrev pub asmedia_configuration_data_read_reg_1 : ℕ
asmedia_configuration_data_read_reg_1 = 0xF4

abbrev pub asmedia_configuration_data_write_reg_0 : ℕ
asmedia_configuration_data_write_reg_0 = 0xF8

abbrev pub asmedia_configuration_data_write_reg_1 : ℕ
asmedia_configuration_data_write_reg_1 = 0xFC

abbrev pub asmedia_command_get_firmware_version : ℕ
asmedia_command_get_firmware_version = 0x8000060840

abbrev pub asmedia_rom_firmware_revision : ℕ
asmedia_rom_firmware_revision = 0x010250090816

-- The loop over the control register until a bit is clear, with `rounds` to go: the last status and
-- the last value read. No round at all leaves the variables as they were, which does not occur.
unfoldable pub wait_operation : ℕ → ℕ → Status × ℕ → Io (Status × ℕ)
wait_operation zero mask last = pure last
wait_operation (suc rounds) mask last = do
  r ← config_read 8 asmedia_configuration_control_reg
  elim (bit_and r.1 mask == 0) [
    | true ↦ pure r
    | false ↦ (do emit (delay 1); wait_operation rounds mask r)
  ]

-- AppleAsmediaSendMessage; `rounds` is TIMEOUT_USEC
unfoldable pub send_message : ℕ → ℕ → Io Status
send_message rounds message = do
  r ← wait_operation rounds asmedia_configuration_control_write_bit (success, 0)
  assert_efi_error r.0
  elim (bit_and r.1 asmedia_configuration_control_write_bit == 0) [
    | false ↦ pure timeout
    | true ↦ (do
      s0 ← config_write 32 asmedia_configuration_data_write_reg_0 (message % 2 ^ 32)
      assert_efi_error s0
      s1 ← config_write 32 asmedia_configuration_data_write_reg_1 (message / 2 ^ 32)
      assert_efi_error s1
      s2 ← config_write 8 asmedia_configuration_control_reg asmedia_configuration_control_write_bit
      assert_efi_error s2
      pure success)
  ]

-- AppleAsmediaReceiveMessage: its status, and the message if one was stored
unfoldable pub receive_message : ℕ → Io (Status × Option ℕ)
receive_message rounds = do
  r ← wait_operation rounds asmedia_configuration_control_read_bit (success, 0)
  assert_efi_error r.0
  elim (bit_and r.1 asmedia_configuration_control_read_bit == 0) [
    | false ↦ pure (timeout, none)
    | true ↦ (do
      low ← config_read 32 asmedia_configuration_data_read_reg_0
      assert_efi_error low.0
      high ← config_read 32 asmedia_configuration_data_read_reg_1
      assert_efi_error high.0
      s ← config_write 8 asmedia_configuration_control_reg asmedia_configuration_control_read_bit
      assert_efi_error s
      pure (success, some (high.1 * 2 ^ 32 + low.1)))
  ]

-- The outcome of AppleAsmediaGetFirmwareVersion: EFI_ABORTED is `aborted`. The version is there if
-- the second message was received.
pub record VersionAnswer : Type 0 where
  pub aborted : Bool
  pub version : Option ℕ

abbrev pub no_version : VersionAnswer
no_version = record { aborted = true; version = none }

-- The two messages that are received, the command's echo and the version
unfoldable pub receive_version : ℕ → Io VersionAnswer
receive_version rounds = do
  echo ← receive_message rounds
  if is_error echo.0 then pure no_version else (do
    v ← receive_message rounds
    if is_error v.0
        then pure no_version
        else pure (record {
          aborted = elim echo.1 [
            | none ↦ true
            | some c ↦ not (c == asmedia_command_get_firmware_version)
          ];
          version = v.1;
        }))

-- AppleAsmediaGetFirmwareVersion
unfoldable pub get_firmware_version : ℕ → Io VersionAnswer
get_firmware_version rounds = do
  s0 ← send_message rounds asmedia_command_get_firmware_version
  if is_error s0 then pure no_version else (do
    s1 ← send_message rounds 0
    if is_error s1 then pure no_version else receive_version rounds)

-- AppleAsmediaCheckFirmwareIsLoaded; `garbage` is what the variable holds if no version is stored
unfoldable pub check_firmware_is_loaded : ℕ → ℕ → Io Bool
check_firmware_is_loaded rounds garbage = do
  v ← get_firmware_version rounds
  if v.aborted then emit asserted else pure tt
  pure (not (elim v.version [ none ↦ garbage | some n ↦ n ] == asmedia_rom_firmware_revision))

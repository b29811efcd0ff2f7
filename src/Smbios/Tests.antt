-- ===== src/Smbios/Tests.antt =====
-- The SMBIOS driver's theorems at concrete inputs: a header that lays the fields out as bytes, and a
-- protocol that numbers the records.
use apple_silicon_platforms.Prelude.{
  ℕ, ◌+◌, ◌*◌, ◌%◌, ◌^◌, ◌≡◌, refl, true, false, none, some, List, [], ◌∷◌, length, arith,
}
use apple_silicon_platforms.Platform.Status.{success}
use apple_silicon_platforms.Smbios.Record.{
  Template, template_bytes, StringPack, SmbiosServices, record_size, copy_mem, build_record,
}
use apple_silicon_platforms.Smbios.RoundTrip.{read_record, build_record-read_record}
use apple_silicon_platforms.Smbios.Tables.{SmbiosHeader}
use apple_silicon_platforms.Smbios.Driver.{
  SmbiosPlatform, mapped_starting_address, mapped_ending_address, smbios_table_dxe_initialize,
}
use apple_silicon_platforms.Smbios.Added.{
  IsWorking, add_encoded, expected_records, smbios_table_dxe_initialize_lem, mapped_address-range,
}

abbrev cache : Template
cache = record { kind = 7; body = 1 ∷ 2 ∷ [] }

abbrev names : StringPack
names = (0x4C ∷ 0x31 ∷ []) ∷ (0x4C ∷ 0x32 ∷ []) ∷ []

build_record-read_record_example :
    (bytes : List ℕ) × (build_record cache (some names) ≡ some bytes)
    × (read_record bytes ≡ some (template_bytes cache, names))
build_record-read_record_example = build_record-read_record cache names refl

-- Without an array of strings the loop reads through NULL.
no_strings : build_record cache none ≡ none
unfolding build_record copy_mem record_size
no_strings = refl

abbrev header : SmbiosHeader
header = record {
  layout = λ kind fields. fields;
  system_wakeup_type_unknown = 2;
  base_board_type_mother_board = 10;
  chassis_state_unknown = 2;
  central_processor = 3;
  processor_family_indicator_family2 = 0xFE;
  processor_upgrade_other = 1;
  processor_family_arm = 0x100;
  cache_error_parity = 4;
  cache_type_instruction = 3;
  cache_type_data = 4;
  cache_type_unified = 5;
  cache_associativity8_way = 7;
  cache_associativity16_way = 8;
  memory_array_location_system_board = 3;
  memory_array_use_system_memory = 3;
  memory_error_correction_none = 3;
  memory_form_factor_row_of_chips = 11;
  memory_type_lpddr4 = 0x1E;
}

abbrev mac : SmbiosPlatform
mac = record {
  header = header;
  version_string = λ n old. (0x31 ∷ [], n);
  build_date_string = λ n old. (0x32 ∷ [], n);
  system_memory_base = 0x800000000;
  system_memory_size = 0x200000000;
}

abbrev numbering : SmbiosServices
numbering = record {
  locate_smbios = success;
  allocates = λ size. true;
  add = λ added bytes. (success, length added % 2 ^ 16);
}

numbering-IsWorking : IsWorking numbering (λ n. n % 2 ^ 16)
numbering-IsWorking = record {
  located = refl;
  allocated = λ size. refl;
  handles = λ n. omega (arith);
  adds = λ added bytes. refl;
}

smbios_table_dxe_initialize_lem_example :
    smbios_table_dxe_initialize mac numbering
      (record { processor_handle = 77; memory_array_handle = 78 })
      (record { added = []; asserted = false })
    ≡ some (
      success,
      record {
        added = add_encoded mac (expected_records mac (λ n. n % 2 ^ 16)) [];
        asserted = false;
      },
    )
smbios_table_dxe_initialize_lem_example =
    smbios_table_dxe_initialize_lem mac numbering-IsWorking
      (record { processor_handle = 77; memory_array_handle = 78 })

mapped_address-range_example :
    (mapped_starting_address mac * 1024 ≡ 0x800000000)
    × ((mapped_ending_address mac + 1) * 1024 ≡ 0xA00000000)
mapped_address-range_example = mapped_address-range mac refl refl (omega arith) (omega arith)

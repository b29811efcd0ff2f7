-- ===== src/Acpi/Tests.antt =====
-- The ACPI platform driver's theorems at concrete inputs: two volumes, of which the second has the
-- files, with one or two tables of 12 bytes in each.
use apple_silicon_platforms.Prelude.{
  ℕ, ◌+◌, ◌-◌, ◌%◌, ◌<◌, ◌≡◌, refl, true, false, none, some, List, [], ◌∷◌, get_elem?, arith,
}
use apple_silicon_platforms.Platform.Status.{success, not_found}
use apple_silicon_platforms.Acpi.Checksum.{ChecksumLib, sum, header_length, acpi_platform_checksum}
use apple_silicon_platforms.Acpi.Volumes.{
  StorageFile, device_file, soc_file, generic_file, device_family_file, FirmwareVolume,
}
use apple_silicon_platforms.Acpi.Install.{AcpiServices, next, acpi_platform_entry_point}
use apple_silicon_platforms.Acpi.Blocks.{IsSection, Tables, Stored}
use apple_silicon_platforms.Acpi.Order.{acpi_platform_entry_point_lem}

abbrev twos_complement : List ℕ → ℕ
twos_complement bytes = (256 - sum bytes % 256) % 256

twos_complement-lt : (bytes : List ℕ) → twos_complement bytes < 256
twos_complement-lt bytes = omega arith

twos_complement-sum : (bytes : List ℕ) → (sum bytes + twos_complement bytes) % 256 ≡ 0
twos_complement-sum bytes = omega arith

abbrev checksum_lib : ChecksumLib
checksum_lib = record {
  checksum8 = twos_complement;
  checksum8-lt = twos_complement-lt;
  checksum8-sum = twos_complement-sum;
}

abbrev table_a : List ℕ
table_a = 65 ∷ 66 ∷ 67 ∷ 68 ∷ 12 ∷ 0 ∷ 0 ∷ 0 ∷ 1 ∷ 99 ∷ 7 ∷ 8 ∷ 200 ∷ []

abbrev table_b : List ℕ
table_b = 70 ∷ 65 ∷ 67 ∷ 80 ∷ 11 ∷ 0 ∷ 0 ∷ 0 ∷ 6 ∷ 0 ∷ 9 ∷ []

table_a-IsSection : IsSection table_a
unfolding header_length
table_a-IsSection = record { size = 12; header = refl; holds = omega arith; fits = omega arith }

table_b-IsSection : IsSection table_b
unfolding header_length
table_b-IsSection = record { size = 11; header = refl; holds = omega arith; fits = omega arith }

-- The checksum replaces the byte 99, and the byte behind the table stays as it is.
checksum_of_table_a :
    acpi_platform_checksum checksum_lib table_a 12
    ≡ some (65 ∷ 66 ∷ 67 ∷ 68 ∷ 12 ∷ 0 ∷ 0 ∷ 0 ∷ 1 ∷ 218 ∷ 7 ∷ 8 ∷ 200 ∷ [])
unfolding acpi_platform_checksum
checksum_of_table_a = refl

abbrev sections_of : StorageFile → List (List ℕ)
sections_of device_file = table_a ∷ table_b ∷ []
sections_of soc_file = table_b ∷ []
sections_of generic_file = table_a ∷ []
sections_of device_family_file = table_b ∷ []

abbrev empty_volume : FirmwareVolume
empty_volume = record { read_file = λ file. not_found; read_section = λ file i. none }

abbrev full_volume : FirmwareVolume
full_volume = record {
  read_file = λ file. success;
  read_section = λ file i. get_elem? (sections_of file) i;
}

abbrev services : List FirmwareVolume → AcpiServices
services volumes = record {
  add_memory_space = success;
  locate_acpi_table = success;
  handles = record { status = success; volumes = volumes };
  install_acpi_table = λ ts t. success;
  checksum_lib = checksum_lib;
}

abbrev both : List FirmwareVolume
both = empty_volume ∷ full_volume ∷ []

device-Stored : Stored (services both).handles device_file (table_a ∷ table_b ∷ [])
device-Stored = record {
  volume = full_volume;
  before = empty_volume ∷ [];
  after = [];
  split = refl;
  lacks = (refl, tt);
  has = refl;
  holds = λ i. refl;
  tables = (table_a-IsSection, (table_b-IsSection, tt));
}

soc-Stored : Stored (services both).handles soc_file (table_b ∷ [])
soc-Stored = record {
  volume = full_volume;
  before = empty_volume ∷ [];
  after = [];
  split = refl;
  lacks = (refl, tt);
  has = refl;
  holds = λ i. refl;
  tables = (table_b-IsSection, tt);
}

generic-Stored : Stored (services both).handles generic_file (table_a ∷ [])
generic-Stored = record {
  volume = full_volume;
  before = empty_volume ∷ [];
  after = [];
  split = refl;
  lacks = (refl, tt);
  has = refl;
  holds = λ i. refl;
  tables = (table_a-IsSection, tt);
}

device_family-Stored : Stored (services both).handles device_family_file (table_b ∷ [])
device_family-Stored = record {
  volume = full_volume;
  before = empty_volume ∷ [];
  after = [];
  split = refl;
  lacks = (refl, tt);
  has = refl;
  holds = λ i. refl;
  tables = (table_b-IsSection, tt);
}

acpi_platform_entry_point_lem_example :
    (ts : List (List ℕ)) × Tables (table_a ∷ table_b ∷ table_b ∷ table_a ∷ table_b ∷ []) ts
    × (acpi_platform_entry_point (services both) 3
        ≡ (next, record { ecam_uncached = true; tables = ts; asserted = false }))
acpi_platform_entry_point_lem_example =
    acpi_platform_entry_point_lem (services both) 3 (table_a ∷ table_b ∷ []) (table_b ∷ [])
      (table_a ∷ []) (table_b ∷ []) (λ ts t. refl) refl refl device-Stored soc-Stored generic-Stored
      device_family-Stored (omega arith) (omega arith) (omega arith) (omega arith)

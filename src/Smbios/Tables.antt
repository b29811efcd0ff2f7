-- ===== src/Smbios/Tables.antt =====
-- The fixed tables of SmbiosInfoDxe.c. A table's fields are the values of its initialiser behind
-- the header, in their order, those of nested braces among them, and its strings are ASCII codes.
-- The structures' layouts and the enumerations are the EDK2 header's: the record SmbiosHeader.
use apple_silicon_platforms.Prelude.{ℕ, List, [], ◌∷◌, ◌++◌, replicate}

-- IndustryStandard/SmBios.h
pub record SmbiosHeader : Type 0 where
  -- the bytes of a structure of a type behind its header, from its fields; the rest is 0
  pub layout : ℕ → List ℕ → List ℕ
  pub system_wakeup_type_unknown : ℕ
  pub base_board_type_mother_board : ℕ
  pub chassis_state_unknown : ℕ
  pub central_processor : ℕ
  pub processor_family_indicator_family2 : ℕ
  pub processor_upgrade_other : ℕ
  pub processor_family_arm : ℕ
  pub cache_error_parity : ℕ
  pub cache_type_instruction : ℕ
  pub cache_type_data : ℕ
  pub cache_type_unified : ℕ
  pub cache_associativity8_way : ℕ
  pub cache_associativity16_way : ℕ
  pub memory_array_location_system_board : ℕ
  pub memory_array_use_system_memory : ℕ
  pub memory_error_correction_none : ℕ
  pub memory_form_factor_row_of_chips : ℕ
  pub memory_type_lpddr4 : ℕ

pub record FixedTable : Type 0 where
  pub kind : ℕ
  pub fields : List ℕ
  pub strings : List (List ℕ)

-- "Apple Inc."
abbrev pub apple_inc : List ℕ
apple_inc = 0x41 ∷ 0x70 ∷ 0x70 ∷ 0x6c ∷ 0x65 ∷ 0x20 ∷ 0x49 ∷ 0x6e ∷ 0x63 ∷ 0x2e ∷ []

-- "Not Specified"
abbrev pub not_specified : List ℕ
not_specified =
    0x4e ∷ 0x6f ∷ 0x74 ∷ 0x20 ∷ 0x53 ∷ 0x70 ∷ 0x65 ∷ 0x63 ∷ 0x69 ∷ 0x66 ∷ 0x69 ∷ 0x65 ∷ 0x64 ∷ []

-- "Placeholder Version"
abbrev pub version_placeholder : List ℕ
version_placeholder =
    0x50 ∷ 0x6c ∷ 0x61 ∷ 0x63 ∷ 0x65 ∷ 0x68 ∷ 0x6f ∷ 0x6c ∷ 0x64 ∷ 0x65 ∷ 0x72 ∷ 0x20 ∷ 0x56 ∷ 0x65
    ∷ 0x72 ∷ 0x73 ∷ 0x69 ∷ 0x6f ∷ 0x6e ∷ []

-- "Placeholder Release Date"
abbrev pub date_placeholder : List ℕ
date_placeholder =
    0x50 ∷ 0x6c ∷ 0x61 ∷ 0x63 ∷ 0x65 ∷ 0x68 ∷ 0x6f ∷ 0x6c ∷ 0x64 ∷ 0x65 ∷ 0x72 ∷ 0x20 ∷ 0x52 ∷ 0x65
    ∷ 0x6c ∷ 0x65 ∷ 0x61 ∷ 0x73 ∷ 0x65 ∷ 0x20 ∷ 0x44 ∷ 0x61 ∷ 0x74 ∷ 0x65 ∷ []

-- mBIOSInfoType0, with the version and the date among its strings
unfoldable pub bios_info_type0 : List ℕ → List ℕ → FixedTable
bios_info_type0 version date = record {
  kind = 0;
  fields =
      (1 ∷ 2 ∷ 0xE000 ∷ 3 ∷ 0x7F ∷ [])
      ++ (0 ∷ 0 ∷ 0 ∷ 0 ∷ 0 ∷ 0 ∷ 1 ∷ 0 ∷ 0 ∷ 0 ∷ 1 ∷ 1 ∷ 0 ∷ 0 ∷ 0 ∷ 1 ∷ [])
      ++ (0 ∷ 0 ∷ 1 ∷ 1 ∷ 0 ∷ 0 ∷ 0 ∷ 0 ∷ 0 ∷ 1 ∷ 1 ∷ 0 ∷ 0 ∷ 0 ∷ 0 ∷ 0 ∷ [])
      ++ (0x03 ∷ 0x05 ∷ [])
      ++ (0x01 ∷ 0x05 ∷ 0xFF ∷ 0xFF ∷ []);
  strings =
      (0x41 ∷ 0x70 ∷ 0x70 ∷ 0x6c ∷ 0x65 ∷ 0x20 ∷ 0x53 ∷ 0x69 ∷ 0x6c ∷ 0x69 ∷ 0x63 ∷ 0x6f ∷ 0x6e
        ∷ 0x20 ∷ 0x57 ∷ 0x69 ∷ 0x6e ∷ 0x64 ∷ 0x6f ∷ 0x77 ∷ 0x73 ∷ 0x20 ∷ 0x50 ∷ 0x72 ∷ 0x6f ∷ 0x6a
        ∷ 0x65 ∷ 0x63 ∷ 0x74 ∷ 0x20 ∷ 0x44 ∷ 0x65 ∷ 0x76 ∷ [])
      ∷ version
      ∷ date
      ∷ [];
}

-- mSysInfoType1
unfoldable pub sys_info_type1 : SmbiosHeader → FixedTable
sys_info_type1 hdr = record {
  kind = 1;
  fields =
      (1 ∷ 2 ∷ 3 ∷ 4 ∷ [])
      ++ (0xC08AC5FB ∷ 0x2A54 ∷ 0x4369 ∷ [])
      ++ (0x8C ∷ 0x51 ∷ 0xAF ∷ 0x7D ∷ 0x06 ∷ 0x0A ∷ 0x93 ∷ 0xCC ∷ [])
      ++ (hdr.system_wakeup_type_unknown ∷ 5 ∷ 6 ∷ []);
  strings =
      apple_inc ∷ not_specified ∷ not_specified ∷ not_specified ∷ not_specified ∷ not_specified
      ∷ [];
}

-- mBoardInfoType2
unfoldable pub board_info_type2 : SmbiosHeader → FixedTable
board_info_type2 hdr = record {
  kind = 2;
  fields =
      (1 ∷ 2 ∷ 3 ∷ 4 ∷ 5 ∷ [])
      ++ (1 ∷ 0 ∷ 0 ∷ 0 ∷ 0 ∷ 0 ∷ [])
      ++ (6 ∷ 0 ∷ hdr.base_board_type_mother_board ∷ 0 ∷ 0 ∷ []);
  strings =
      apple_inc ∷ not_specified ∷ not_specified ∷ not_specified ∷ not_specified ∷ not_specified
      ∷ [];
}

-- mEnclosureInfoType3
unfoldable pub enclosure_info_type3 : SmbiosHeader → FixedTable
enclosure_info_type3 hdr = record {
  kind = 3;
  fields =
      (1 ∷ 0x0A ∷ 2 ∷ 3 ∷ 4 ∷ [])
      ++ replicate 4 hdr.chassis_state_unknown
      ++ (0 ∷ 0 ∷ 0 ∷ 0 ∷ [])
      ++ (0 ∷ 0 ∷ 0 ∷ 0 ∷ 0 ∷ []);
  strings = apple_inc ∷ not_specified ∷ not_specified ∷ not_specified ∷ [];
}

-- mProcessorInfoType4, with the three cache handles
unfoldable pub processor_info_type4 : SmbiosHeader → ℕ → ℕ → ℕ → FixedTable
processor_info_type4 hdr l1 l2 l3 = record {
  kind = 4;
  fields =
      (1 ∷ hdr.central_processor ∷ hdr.processor_family_indicator_family2 ∷ 2 ∷ [])
      ++ replicate 8 0
      ++ replicate 31 0
      ++ (3 ∷ [])
      ++ replicate 6 0
      ++ (0 ∷ 3228 ∷ 0 ∷ 0x41 ∷ hdr.processor_upgrade_other ∷ [])
      ++ (l1 ∷ l2 ∷ l3 ∷ [])
      ++ (0 ∷ 0 ∷ 4 ∷ 6 ∷ 6 ∷ 6 ∷ 0xAC ∷ hdr.processor_family_arm ∷ []);
  strings =
      (0x41 ∷ 0x70 ∷ 0x70 ∷ 0x6c ∷ 0x65 ∷ []) ∷ apple_inc ∷ not_specified ∷ not_specified ∷ [];
}

-- mCacheInfoType7_L1IC
unfoldable pub cache_info_type7_l1ic : SmbiosHeader → FixedTable
cache_info_type7_l1ic hdr = record {
  kind = 7;
  fields =
      (1 ∷ 0x0280 ∷ 0x0140 ∷ 0x0140 ∷ [])
      ++ replicate 8 0
      ++ replicate 8 0
      ++ (0 ∷ hdr.cache_error_parity ∷ hdr.cache_type_instruction ∷ hdr.cache_associativity16_way
          ∷ []);
  strings =
      (0x43 ∷ 0x6f ∷ 0x6d ∷ 0x62 ∷ 0x69 ∷ 0x6e ∷ 0x65 ∷ 0x64 ∷ 0x20 ∷ 0x4c ∷ 0x31 ∷ 0x20 ∷ 0x49
        ∷ 0x6e ∷ 0x73 ∷ 0x74 ∷ 0x72 ∷ 0x75 ∷ 0x63 ∷ 0x74 ∷ 0x69 ∷ 0x6f ∷ 0x6e ∷ 0x20 ∷ 0x43 ∷ 0x61
        ∷ 0x63 ∷ 0x68 ∷ 0x65 ∷ [])
      ∷ [];
}

-- mCacheInfoType7_L1DC
unfoldable pub cache_info_type7_l1dc : SmbiosHeader → FixedTable
cache_info_type7_l1dc hdr = record {
  kind = 7;
  fields =
      (1 ∷ 0x0280 ∷ 0x0C0 ∷ 0x0C0 ∷ [])
      ++ replicate 8 0
      ++ replicate 8 0
      ++ (0 ∷ hdr.cache_error_parity ∷ hdr.cache_type_data ∷ hdr.cache_associativity16_way ∷ []);
  strings =
      (0x43 ∷ 0x6f ∷ 0x6d ∷ 0x62 ∷ 0x69 ∷ 0x6e ∷ 0x65 ∷ 0x64 ∷ 0x20 ∷ 0x4c ∷ 0x31 ∷ 0x20 ∷ 0x44
        ∷ 0x61 ∷ 0x74 ∷ 0x61 ∷ 0x20 ∷ 0x43 ∷ 0x61 ∷ 0x63 ∷ 0x68 ∷ 0x65 ∷ [])
      ∷ [];
}

-- mCacheInfoType7_L2C
unfoldable pub cache_info_type7_l2c : SmbiosHeader → FixedTable
cache_info_type7_l2c hdr = record {
  kind = 7;
  fields =
      (1 ∷ 0x0281 ∷ 0x8100 ∷ 0x8100 ∷ [])
      ++ replicate 8 0
      ++ replicate 8 0
      ++ (0 ∷ hdr.cache_error_parity ∷ hdr.cache_type_unified ∷ hdr.cache_associativity8_way ∷ []);
  strings =
      (0x43 ∷ 0x6f ∷ 0x6d ∷ 0x62 ∷ 0x69 ∷ 0x6e ∷ 0x65 ∷ 0x64 ∷ 0x20 ∷ 0x4c ∷ 0x32 ∷ 0x20 ∷ 0x43
        ∷ 0x61 ∷ 0x63 ∷ 0x68 ∷ 0x65 ∷ [])
      ∷ [];
}

-- mCacheInfoType7_L3C
unfoldable pub cache_info_type7_l3c : SmbiosHeader → FixedTable
cache_info_type7_l3c hdr = record {
  kind = 7;
  fields =
      (1 ∷ 0x0282 ∷ 0x8080 ∷ 0x8080 ∷ [])
      ++ replicate 8 0
      ++ replicate 8 0
      ++ (0 ∷ hdr.cache_error_parity ∷ hdr.cache_type_unified ∷ hdr.cache_associativity8_way ∷ []);
  strings =
      (0x4c ∷ 0x33 ∷ 0x2f ∷ 0x53 ∷ 0x79 ∷ 0x73 ∷ 0x74 ∷ 0x65 ∷ 0x6d ∷ 0x20 ∷ 0x53 ∷ 0x68 ∷ 0x61
        ∷ 0x72 ∷ 0x65 ∷ 0x64 ∷ 0x20 ∷ 0x43 ∷ 0x61 ∷ 0x63 ∷ 0x68 ∷ 0x65 ∷ [])
      ∷ [];
}

-- mPhyMemArrayInfoType16
unfoldable pub phy_mem_array_info_type16 : SmbiosHeader → FixedTable
phy_mem_array_info_type16 hdr = record {
  kind = 16;
  fields =
      (hdr.memory_array_location_system_board ∷ hdr.memory_array_use_system_memory ∷ [])
      ++ (hdr.memory_error_correction_none ∷ 0x80000000 ∷ 0xFFFE ∷ 1 ∷ 0x200000000 ∷ []);
  strings = [];
}

-- mMemDevInfoType17, with the handle of the memory array
unfoldable pub mem_dev_info_type17 : SmbiosHeader → ℕ → FixedTable
mem_dev_info_type17 hdr array = record {
  kind = 17;
  fields =
      (array ∷ 0xFFFE ∷ 0xFFFF ∷ 0xFFFF ∷ 0x2000 ∷ hdr.memory_form_factor_row_of_chips ∷ 0xFF ∷ [])
      ++ (0 ∷ 1 ∷ hdr.memory_type_lpddr4 ∷ [])
      ++ (0 ∷ 0 ∷ 1 ∷ 0 ∷ 0 ∷ 0 ∷ 0 ∷ 0 ∷ 0 ∷ 0 ∷ 0 ∷ 0 ∷ 0 ∷ 0 ∷ 0 ∷ 0 ∷ [])
      ++ (4266 ∷ 2 ∷ 3 ∷ 4 ∷ 5 ∷ 0 ∷ 0 ∷ 0 ∷ []);
  strings =
      (0x4f ∷ 0x6e ∷ 0x20 ∷ 0x53 ∷ 0x6f ∷ 0x43 ∷ [])
      ∷ (0x42 ∷ 0x61 ∷ 0x6e ∷ 0x6b ∷ 0x20 ∷ 0x30 ∷ [])
      ∷ (0x4d ∷ 0x69 ∷ 0x63 ∷ 0x72 ∷ 0x6f ∷ 0x6e ∷ [])
      ∷ not_specified
      ∷ not_specified
      ∷ (0x48 ∷ 0x39 ∷ 0x48 ∷ 0x4b ∷ 0x4e ∷ 0x4e ∷ 0x4e ∷ 0x45 ∷ 0x42 ∷ 0x4d ∷ 0x41 ∷ 0x56 ∷ 0x41
          ∷ 0x52 ∷ 0x2d ∷ 0x4e ∷ 0x45 ∷ 0x48 ∷ [])
      ∷ [];
}

-- mMemArrMapInfoType19, with its two addresses
unfoldable pub mem_arr_map_info_type19 : ℕ → ℕ → FixedTable
mem_arr_map_info_type19 starting_address ending_address = record {
  kind = 19;
  fields = (starting_address ∷ ending_address ∷ 0 ∷ 0 ∷ 0x800000000 ∷ 0xA00000000 ∷ []);
  strings = [];
}

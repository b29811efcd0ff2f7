-- ===== src/Smbios/Driver.antt =====
-- The driver of SmbiosInfoDxe.c: the tables that it adds, one behind the other. MuUefiVersionLib,
-- which writes the version and the date, is a parameter.
use apple_silicon_platforms.Prelude.{ℕ, ◌+◌, ◌-◌, ◌/◌, ◌%◌, ◌^◌, Option, none, some, List}
use apple_silicon_platforms.Platform.Status.{Status, success}
use apple_silicon_platforms.Smbios.Record.{
  Template, SmbiosServices, SmbiosState, Logged, log_smbios_data,
}
use apple_silicon_platforms.Smbios.Tables.{
  SmbiosHeader, FixedTable, version_placeholder, date_placeholder, bios_info_type0, sys_info_type1,
  board_info_type2, enclosure_info_type3, processor_info_type4, cache_info_type7_l1ic,
  cache_info_type7_l1dc, cache_info_type7_l2c, cache_info_type7_l3c, phy_mem_array_info_type16,
  mem_dev_info_type17, mem_arr_map_info_type19,
}

-- What the driver is built with: the header, the version library, and the memory's PCDs.
-- A function of the library takes the buffer's length and what is in it, and gives both back.
pub record SmbiosPlatform : Type 0 where
  pub header : SmbiosHeader
  pub version_string : ℕ → List ℕ → List ℕ × ℕ
  pub build_date_string : ℕ → List ℕ → List ℕ × ℕ
  pub system_memory_base : ℕ
  pub system_memory_size : ℕ

-- What the two local handles hold before they are written.
pub record Garbage : Type 0 where
  pub processor_handle : ℕ
  pub memory_array_handle : ℕ

infixl 5 ◌>>=◌
abbrev pub ◌>>=◌ : {A B : Type 0} → Option A → (A → Option B) → Option B
none >>= f = none
some a >>= f = f a

module _ (p : SmbiosPlatform) where
  abbrev pub template : FixedTable → Template
  template t = record { kind = t.kind; body = p.header.layout t.kind t.fields }

  -- StartingAddress and EndingAddress of MemArrMapInfoUpdateSmbiosType19
  unfoldable pub mapped_starting_address : ℕ
  mapped_starting_address = p.system_memory_base / 1024 % 2 ^ 32

  unfoldable pub mapped_ending_address : ℕ
  mapped_ending_address =
      (p.system_memory_size + p.system_memory_base + (2 ^ 64 - 1)) % 2 ^ 64 / 1024 % 2 ^ 32

module _ (p : SmbiosPlatform) (w : SmbiosServices) where
  unfoldable pub log_table : FixedTable → ℕ → SmbiosState → Option Logged
  log_table t handle st = log_smbios_data w (template p t) (some t.strings) handle st

  -- A call with NULL for the handle
  unfoldable pub log_only : FixedTable → SmbiosState → Option SmbiosState
  log_only t st = do r ← log_table t 0 st; some r.state

  -- BIOSInfoUpdateSmbiosType0: the date is written with the version's length.
  unfoldable pub bios_info_update_smbios_type0 : SmbiosState → Option SmbiosState
  bios_info_update_smbios_type0 st =
      let version = p.version_string 15 version_placeholder in
      let date = p.build_date_string version.1 date_placeholder in
      log_only (bios_info_type0 version.0 date.0) st

  -- ProcessorInfoUpdateSmbiosType4
  unfoldable pub processor_info_update_smbios_type4 : ℕ → SmbiosState → Option SmbiosState
  processor_info_update_smbios_type4 handle st = do
    l1 ← log_table (cache_info_type7_l1dc p.header) handle st
    l2 ← log_table (cache_info_type7_l2c p.header) l1.handle l1.state
    l3 ← log_table (cache_info_type7_l3c p.header) l2.handle l2.state
    log_only
        (processor_info_type4 p.header (l1.handle % 2 ^ 16) (l2.handle % 2 ^ 16)
          (l3.handle % 2 ^ 16))
        l3.state

  -- PhyMemArrayInfoUpdateSmbiosType16, and MemDevInfoUpdateSmbiosType17 with the handle it leaves
  unfoldable pub memory_update_smbios_type16_17 : ℕ → SmbiosState → Option SmbiosState
  memory_update_smbios_type16_17 handle st = do
    array ← log_table (phy_mem_array_info_type16 p.header) handle st
    log_only (mem_dev_info_type17 p.header (array.handle % 2 ^ 16)) array.state

  -- SmBiosTableDxeInitialize
  unfoldable pub smbios_table_dxe_initialize : Garbage → SmbiosState → Option (Status × SmbiosState)
  smbios_table_dxe_initialize g st = do
    st ← bios_info_update_smbios_type0 st
    st ← log_only (sys_info_type1 p.header) st
    st ← log_only (board_info_type2 p.header) st
    st ← log_only (enclosure_info_type3 p.header) st
    st ← processor_info_update_smbios_type4 g.processor_handle st
    st ← log_only (cache_info_type7_l1ic p.header) st
    st ← memory_update_smbios_type16_17 g.memory_array_handle st
    st ← log_only (mem_arr_map_info_type19 (mapped_starting_address p) (mapped_ending_address p)) st
    some (success, st)

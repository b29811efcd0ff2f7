-- ===== src/Smbios/Added.antt =====
-- The records that the driver of SmbiosInfoDxe.c adds, and the range of the last of them.
use apple_silicon_platforms.Prelude.{
  ℕ, suc, ◌+◌, ◌-◌, ◌*◌, ◌/◌, ◌%◌, ◌^◌, ◌≤◌, ◌<◌, ◌≡◌, refl, ap, ◌∙◌, true, false, Option, some,
  List, [], ◌∷◌, ◌++◌, length, arith,
}
use apple_silicon_platforms.Platform.Status.{success}
use apple_silicon_platforms.Smbios.Record.{
  template_bytes, SmbiosServices, record_size, add_record, log_smbios_data,
}
use apple_silicon_platforms.Smbios.Encode.{packed, terminator, build_record_lem}
use apple_silicon_platforms.Smbios.Tables.{
  FixedTable, version_placeholder, date_placeholder, bios_info_type0, sys_info_type1,
  board_info_type2, enclosure_info_type3, processor_info_type4, cache_info_type7_l1ic,
  cache_info_type7_l1dc, cache_info_type7_l2c, cache_info_type7_l3c, phy_mem_array_info_type16,
  mem_dev_info_type17, mem_arr_map_info_type19,
}
use apple_silicon_platforms.Smbios.Driver.{
  SmbiosPlatform, Garbage, template, log_table, log_only, bios_info_update_smbios_type0,
  processor_info_update_smbios_type4, memory_update_smbios_type16_17, mapped_starting_address,
  mapped_ending_address, smbios_table_dxe_initialize, ◌>>=◌,
}

-- The services that the driver uses work: the protocol is there, the pool has room, and Add takes
-- each record and gives a handle by the number of those before it.
pub record IsWorking (w : SmbiosServices) (handle_at : ℕ → ℕ) : Type 0 where
  pub located : w.locate_smbios ≡ success
  pub allocated : (size : ℕ) → w.allocates size ≡ true
  pub handles : (n : ℕ) → handle_at n < 2 ^ 16
  pub adds :
      (added : List (List ℕ)) (bytes : List ℕ)
      → w.add added bytes ≡ (success, handle_at (length added))

module _ (p : SmbiosPlatform) where
  -- A table's record.
  unfoldable pub encoded : FixedTable → List ℕ
  encoded t = template_bytes (template p t) ++ (packed t.strings ++ terminator t.strings)

  -- The records in the order of the driver's calls, the processor's with the handles of the three
  -- cache records before it, and the memory device's with that of the memory array.
  abbrev pub expected_records : (ℕ → ℕ) → List FixedTable
  expected_records handle_at =
      let version = p.version_string 15 version_placeholder in
      let date = p.build_date_string version.1 date_placeholder in
      bios_info_type0 version.0 date.0
      ∷ sys_info_type1 p.header
      ∷ board_info_type2 p.header
      ∷ enclosure_info_type3 p.header
      ∷ cache_info_type7_l1dc p.header
      ∷ cache_info_type7_l2c p.header
      ∷ cache_info_type7_l3c p.header
      ∷ processor_info_type4 p.header (handle_at 4) (handle_at 5) (handle_at 6)
      ∷ cache_info_type7_l1ic p.header
      ∷ phy_mem_array_info_type16 p.header
      ∷ mem_dev_info_type17 p.header (handle_at 9)
      ∷ mem_arr_map_info_type19 (p.system_memory_base / 1024 % 2 ^ 32)
          ((p.system_memory_size + p.system_memory_base + (2 ^ 64 - 1)) % 2 ^ 64 / 1024 % 2 ^ 32)
      ∷ []

  -- Records of tables added behind others.
  abbrev pub add_encoded : List FixedTable → List (List ℕ) → List (List ℕ)
  add_encoded [] added = added
  add_encoded (t ∷ ts) added = add_encoded ts (encoded t ∷ added)

  module _ {w : SmbiosServices} {handle_at : ℕ → ℕ} (works : IsWorking w handle_at) where
    log_table-works :
        (t : FixedTable) (handle : ℕ) (added : List (List ℕ))
        → log_table p w t handle (record { added = added; asserted = false })
          ≡ some (record {
            status = success;
            handle = handle_at (length added);
            state = record { added = encoded t ∷ added; asserted = false };
          })
    unfolding log_table log_smbios_data add_record encoded
    log_table-works t handle added = rw works.located (
        rw (works.allocated (record_size (template p t) (some t.strings)))
          (rw (build_record_lem (template p t) t.strings) (rw (works.adds added (encoded t)) refl)))

    log_only-works :
        (t : FixedTable) (added : List (List ℕ))
        → log_only p w t (record { added = added; asserted = false })
          ≡ some (record { added = encoded t ∷ added; asserted = false })
    unfolding log_only
    log_only-works t added = rw (log_table-works t 0 added) refl

    -- The step behind a part of a run that gives a result.
    then_step :
        {A B : Type 0} {o : Option A} {a : A} (f : A → Option B) → o ≡ some a → (o >>= f) ≡ f a
    then_step f e = ap (λ o. o >>= f) e

    same_handle : (n : ℕ) → handle_at n % 2 ^ 16 ≡ handle_at n
    same_handle n = omega (arith, works.handles n)

    memory-works :
        (handle : ℕ) (added : List (List ℕ))
        → memory_update_smbios_type16_17 p w handle (record { added = added; asserted = false })
          ≡ some (record {
            added =
                encoded (mem_dev_info_type17 p.header (handle_at (length added)))
                ∷ encoded (phy_mem_array_info_type16 p.header)
                ∷ added;
            asserted = false;
          })
    unfolding memory_update_smbios_type16_17
    memory-works handle added =
        then_step _ (log_table-works (phy_mem_array_info_type16 p.header) handle added)
        ∙ ap
            (λ h. log_only p w (mem_dev_info_type17 p.header h) (record {
              added = encoded (phy_mem_array_info_type16 p.header) ∷ added;
              asserted = false;
            }))
            (same_handle (length added))
        ∙ log_only-works _ _

    processor-works :
        (handle : ℕ) (added : List (List ℕ))
        → processor_info_update_smbios_type4 p w handle (record { added = added; asserted = false })
          ≡ some (record {
            added =
                encoded (
                  processor_info_type4 p.header
                    (handle_at (length added))
                    (handle_at (suc (length added)))
                    (handle_at (suc (suc (length added)))))
                ∷ encoded (cache_info_type7_l3c p.header)
                ∷ encoded (cache_info_type7_l2c p.header)
                ∷ encoded (cache_info_type7_l1dc p.header)
                ∷ added;
            asserted = false;
          })
    unfolding processor_info_update_smbios_type4
    processor-works handle added =
        then_step _ (log_table-works (cache_info_type7_l1dc p.header) handle added)
        ∙ then_step _ (log_table-works (cache_info_type7_l2c p.header) _ _)
        ∙ then_step _ (log_table-works (cache_info_type7_l3c p.header) _ _)
        ∙ log_only-works _ _
        ∙ rw (same_handle (length added)) (
            rw (same_handle (suc (length added)))
              (rw (same_handle (suc (suc (length added)))) refl))

    -- SmBiosTableDxeInitialize adds twelve records, in the order of its calls, and succeeds, where
    -- the SMBIOS protocol takes each record and gives it a handle: each record is its table's
    -- structure and strings; the processor's record names the data cache's, the L2 cache's and the
    -- L3 cache's by the handles that they were given, and the memory device's that of the memory
    -- array; whatever the local handles hold before.
    pub smbios_table_dxe_initialize_lem :
        (g : Garbage)
        → smbios_table_dxe_initialize p w g (record { added = []; asserted = false })
          ≡ some (
            success,
            record { added = add_encoded (expected_records handle_at) []; asserted = false },
          )
    unfolding smbios_table_dxe_initialize bios_info_update_smbios_type0 mapped_starting_address
        mapped_ending_address
    smbios_table_dxe_initialize_lem g =
        then_step _ (log_only-works _ _)
        ∙ then_step _ (log_only-works _ _)
        ∙ then_step _ (log_only-works _ _)
        ∙ then_step _ (log_only-works _ _)
        ∙ then_step _ (processor-works g.processor_handle _)
        ∙ then_step _ (log_only-works _ _)
        ∙ then_step _ (memory-works g.memory_array_handle _)
        ∙ then_step _ (log_only-works _ _)

  -- For a memory of whole KB that is not empty and ends at 4 TB or below, the two addresses in KB of
  -- the memory array's mapped range are the first and the last KB of the memory.
  pub mapped_address-range :
      p.system_memory_base % 1024 ≡ 0
      → p.system_memory_size % 1024 ≡ 0
      → 0 < p.system_memory_size
      → p.system_memory_base + p.system_memory_size ≤ 2 ^ 42
      → (mapped_starting_address p * 1024 ≡ p.system_memory_base)
        × ((mapped_ending_address p + 1) * 1024 ≡ p.system_memory_base + p.system_memory_size)
  unfolding mapped_starting_address mapped_ending_address
  mapped_address-range aligned whole some_size fits = (omega arith, omega arith)

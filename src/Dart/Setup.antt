-- ===== src/Dart/Setup.antt =====
-- AppleDartIoMmuDxeInitialize, the TLB flushes, and the protocol's functions, whose bodies are
-- commented out.
use apple_silicon_platforms.Prelude.{
  ℕ, zero, suc, ◌+◌, ◌-◌, ◌*◌, ◌/◌, ◌%◌, ◌^◌, Bool, true, false, ◌||◌, Option, none, some, List,
  get_elem?, set, replicate, ◌==◌, if◌then◌else◌, bit_and, bit_or,
}
use Prim.Native.String.{String}
use text.Mathlib.Text.{◌==◌ as str_eq}
use apple_silicon_platforms.Platform.Status.{Status, success, not_found}
use apple_silicon_platforms.Platform.Io.{
  Io, pure, ◌>>=◌, ◌>>◌, emit, deref, wedge, barrier, asserted, mmio_read32, mmio_write32, read_sys,
  midr,
}
use apple_silicon_platforms.Platform.Adt.{Adt, node_text, node_reg}
use apple_silicon_platforms.Platform.Macros.{bit_at}
use apple_silicon_platforms.Dart.Regs.{
  TlbFlush, DartInfo, dart_page_size, size_4gb, dart_params2, params2_bypass_support, t8110_params4,
  t8110_params4_nsid_mask, t8020_tlb_cmd, t8020_tlb_cmd_flush, t8020_tlb_cmd_busy,
  t8020_tlb_sidmask, t8110_tlb_cmd, t8110_tlb_cmd_busy, t8110_tlb_cmd_flush_all, dart_reg, dart_tcr,
  dart_ttbr, dart_all_streams, t8020_tlb_flush, t8110_tlb_flush,
}

-- while (MmioRead32 (address) & busy) continue;
unfoldable pub wait_while_busy : ℕ → ℕ → ℕ → Io (Unit {0})
wait_while_busy zero address busy = wedge
wait_while_busy (suc fuel) address busy =
    let rest = wait_while_busy fuel address busy in
    (do v ← mmio_read32 address; if bit_and v busy == 0 then pure tt else rest)

-- AppleDartT8020TlbFlush and AppleDartT8110TlbFlush; `dsb sy` is a barrier. The second one takes
-- the command DART_T8110_TLB_CMD_FLUSH_ALL for the offset of the register too.
unfoldable pub flush_tlb : TlbFlush → ℕ → DartInfo → Io (Unit {0})
flush_tlb t8020_tlb_flush fuel s = do
  emit barrier
  mmio_write32 (dart_reg s.base_address t8020_tlb_sidmask) (dart_all_streams s)
  mmio_write32 (dart_reg s.base_address t8020_tlb_cmd) t8020_tlb_cmd_flush
  wait_while_busy fuel (dart_reg s.base_address t8020_tlb_cmd) t8020_tlb_cmd_busy
flush_tlb t8110_tlb_flush fuel s = do
  emit barrier
  mmio_write32 (dart_reg s.base_address t8110_tlb_cmd_flush_all) t8110_tlb_cmd_flush_all
  wait_while_busy fuel (dart_reg s.base_address t8110_tlb_cmd) t8110_tlb_cmd_busy

-- The fields that depend on the generation, for "dart,t8110" and for the others
unfoldable pub generation : Bool → DartInfo → Io DartInfo
generation true s = do
  params4 ← mmio_read32 (dart_reg s.base_address t8110_params4)
  pure (record s {
    nsid = bit_and params4 t8110_params4_nsid_mask;
    nttbr = 1;
    sid_enable_base = 0xc00;
    tcr_base = 0x1000;
    tcr_translate_enable = bit_at 0;
    tcr_bypass = bit_or (bit_at 2) (bit_at 1);
    ttbr_base = 0x1400;
    ttbr_is_valid = bit_at 0;
    bypass_mode = false;
    tlb_flush = t8110_tlb_flush;
  })
generation false s = pure (record s {
  nsid = 16;
  nttbr = 4;
  sid_enable_base = 0xfc;
  tcr_base = 0x100;
  tcr_translate_enable = bit_at 7;
  tcr_bypass = bit_or (bit_at 12) (bit_at 8);
  ttbr_base = 0x200;
  ttbr_is_valid = bit_at 31;
  bypass_mode = false;
  tlb_flush = t8020_tlb_flush;
})

-- A loop over the streams, with `rounds` to go from stream `sid` on, that writes `v` to each TCR
unfoldable pub write_tcrs : DartInfo → ℕ → ℕ → ℕ → Io (Unit {0})
write_tcrs s v zero sid = pure tt
write_tcrs s v (suc rounds) sid = do
  mmio_write32 (dart_reg s.base_address (dart_tcr s sid)) v
  write_tcrs s v rounds (sid + 1)

-- The two loops that clear the TTBRs
unfoldable pub clear_stream_ttbrs : DartInfo → ℕ → ℕ → ℕ → Io (Unit {0})
clear_stream_ttbrs s sid zero i = pure tt
clear_stream_ttbrs s sid (suc rounds) i = do
  mmio_write32 (dart_reg s.base_address (dart_ttbr s sid i)) 0
  clear_stream_ttbrs s sid rounds (i + 1)

unfoldable pub clear_ttbrs : DartInfo → ℕ → ℕ → Io (Unit {0})
clear_ttbrs s zero sid = pure tt
clear_ttbrs s (suc rounds) sid = do
  clear_stream_ttbrs s sid s.nttbr 0
  clear_ttbrs s rounds (sid + 1)

-- From the read of DART_PARAMS2 on
unfoldable pub enable_bypass : DartInfo → Io DartInfo
enable_bypass s = do
  params2 ← mmio_read32 (dart_reg s.base_address dart_params2)
  if bit_and params2 params2_bypass_support == 0
      then pure s
      else do write_tcrs s s.tcr_bypass s.nsid 0; pure (record s { bypass_mode = true })

-- The registers of a DART whose description is complete: the loops that clear, the flush and the
-- bypass
unfoldable pub program_dart : ℕ → DartInfo → Io DartInfo
program_dart fuel s = do
  write_tcrs s 0 s.nsid 0
  clear_ttbrs s s.nsid 0
  flush_tlb s.tlb_flush fuel s
  enable_bypass s

-- One round of the second loop of AppleDartIoMmuDxeInitialize, behind its two `continue`s
unfoldable pub setup_dart : Adt → ℕ → ℕ → ℕ → DartInfo → Io DartInfo
setup_dart adt fuel dart_node reg s = do
  compatible ← node_text adt (some dart_node) "compatible"
  s1 ← generation (str_eq compatible "dart,t8110") (record s { base_address = reg })
  program_dart fuel (record s1 {
    shift =
        if str_eq compatible "dart,t8110" || str_eq compatible "dart,t6000" then 4 else s1.shift;
    dma_virt_addr_base = dart_page_size;
    dma_virt_addr_end = size_4gb - dart_page_size;
  })

-- DartIndex == 0 || DartIndex == 1 || DartIndex == 4 || DartIndex == 5
unfoldable pub is_dfu_dart : ℕ → Bool
is_dfu_dart i = i == 0 || i == 1 || i == 4 || i == 5

-- AsciiSPrint of "dart-usb%d" for the controllers that a platform has
unfoldable pub dart_name : ℕ → String
dart_name zero = "dart-usb0"
dart_name (suc zero) = "dart-usb1"
dart_name (suc (suc zero)) = "dart-usb2"
dart_name (suc (suc (suc _))) = "dart-usb3"

-- The first loop, with `rounds` controllers to go from `i` on: DartNode and DartReg. An entry of
-- DartReg without a node, or without a `reg`, keeps what it held.
unfoldable pub find_darts : Adt → ℕ → ℕ → List (Option ℕ) → List ℕ → Io (List (Option ℕ) × List ℕ)
find_darts adt zero i nodes regs = pure (nodes, regs)
find_darts adt (suc rounds) i nodes regs =
    let rest = find_darts adt rounds (i + 1) in
    elim (adt.get (dart_name i)) [
      | none ↦ rest (set nodes i none) regs
      | some n ↦ (do
        old0 ← deref (get_elem? regs (2 * i))
        reg0 ← node_reg adt (some n) 0 old0
        old1 ← deref (get_elem? regs (2 * i + 1))
        reg1 ← node_reg adt (some n) 1 old1
        rest (set nodes i (some n)) (set (set regs (2 * i) reg0) (2 * i + 1) reg1))
    ]

-- One round of the second loop, with its `continue`s
unfoldable pub visit_dart :
    Adt → ℕ → List (Option ℕ) → List ℕ → ℕ → List DartInfo → Io (List DartInfo)
visit_dart adt fuel nodes regs i infos = if is_dfu_dart i then pure infos else do
  found ← deref (get_elem? nodes (i / 2))
  elim found [
    | none ↦ pure infos
    | some n ↦ (do
      reg ← deref (get_elem? regs i)
      s ← deref (get_elem? infos i)
      s' ← setup_dart adt fuel n reg s
      pure (set infos i s'))
  ]

unfoldable pub visit_darts :
    Adt → ℕ → List (Option ℕ) → List ℕ → ℕ → ℕ → List DartInfo → Io (List DartInfo)
visit_darts adt fuel nodes regs zero i infos = pure infos
visit_darts adt fuel nodes regs (suc rounds) i infos = do
  infos' ← visit_dart adt fuel nodes regs i infos
  visit_darts adt fuel nodes regs rounds (i + 1) infos'

-- AppleDartIoMmuDxeInitialize for `controllers` = PcdAppleNumDwc3Controllers; `regs` is what the
-- array DartReg holds before.
unfoldable pub dart_dxe_initialize :
    Adt → ℕ → ℕ → List ℕ → List DartInfo → Io (List DartInfo × Status)
dart_dxe_initialize adt fuel controllers regs infos = do
  id ← read_sys midr
  if bit_and (id % 2 ^ 32 / 2 ^ 24) 0x61 == 0 then emit asserted >> pure (infos, not_found) else do
    found ← find_darts adt controllers 0 (replicate controllers none) regs
    infos' ← visit_darts adt fuel found.0 found.1 (controllers * 2) 0 infos
    pure (infos', success)

-- AppleDartIoMmuSetAttribute, AppleDartIoMmuMap, AppleDartIoMmuUnmap, AppleDartIoMmuAllocateBuffer,
-- AppleDartIoMmuFreeBuffer
unfoldable pub dart_set_attribute : ℕ → Status
dart_set_attribute access = success

unfoldable pub dart_map : ℕ → Status
dart_map host_address = success

unfoldable pub dart_unmap : ℕ → Status
dart_unmap mapping = success

unfoldable pub dart_allocate_buffer : ℕ → Status
dart_allocate_buffer pages = success

unfoldable pub dart_free_buffer : ℕ → ℕ → Status
dart_free_buffer pages host_address = success

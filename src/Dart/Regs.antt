-- ===== src/Dart/Regs.antt =====
-- Include/Drivers/AppleDartIoMmuDxe.h: a DART's description and its registers.
use apple_silicon_platforms.Prelude.{ℕ, ◌+◌, ◌-◌, ◌*◌, ◌%◌, ◌^◌, Bool}
use apple_silicon_platforms.Platform.Macros.{bit_at}

-- The function that TlbFlush points to
pub data TlbFlush : Type 0 where
  t8020_tlb_flush : TlbFlush
  t8110_tlb_flush : TlbFlush

-- APPLE_DART_INFO, without the page tables of the code that is commented out
pub record DartInfo : Type 0 where
  pub base_address : ℕ
  pub bypass_mode : Bool
  pub shift : ℕ
  pub dma_virt_addr_base : ℕ
  pub dma_virt_addr_end : ℕ
  pub nsid : ℕ
  pub nttbr : ℕ
  pub sid_enable_base : ℕ
  pub tcr_base : ℕ
  pub tcr_translate_enable : ℕ
  pub tcr_bypass : ℕ
  pub ttbr_base : ℕ
  pub ttbr_is_valid : ℕ
  pub tlb_flush : TlbFlush

-- DART_PAGE_SIZE and SIZE_4GB
abbrev pub dart_page_size : ℕ
dart_page_size = 0x4000

abbrev pub size_4gb : ℕ
size_4gb = 2 ^ 32

abbrev pub dart_params2 : ℕ
dart_params2 = 4

abbrev pub params2_bypass_support : ℕ
params2_bypass_support = bit_at 0

abbrev pub t8110_params4 : ℕ
t8110_params4 = 0xc

abbrev pub t8110_params4_nsid_mask : ℕ
t8110_params4_nsid_mask = 0x1ff

abbrev pub t8020_tlb_cmd : ℕ
t8020_tlb_cmd = 0x20

abbrev pub t8020_tlb_cmd_flush : ℕ
t8020_tlb_cmd_flush = bit_at 20

abbrev pub t8020_tlb_cmd_busy : ℕ
t8020_tlb_cmd_busy = bit_at 2

abbrev pub t8020_tlb_sidmask : ℕ
t8020_tlb_sidmask = 0x34

abbrev pub t8110_tlb_cmd : ℕ
t8110_tlb_cmd = 0x80

abbrev pub t8110_tlb_cmd_busy : ℕ
t8110_tlb_cmd_busy = bit_at 31

abbrev pub t8110_tlb_cmd_flush_all : ℕ
t8110_tlb_cmd_flush_all = bit_at 8

abbrev pub dart_reg : ℕ → ℕ → ℕ
dart_reg base offset = (base + offset) % 2 ^ 64

-- DART_TCR (DartInfo, sid) and DART_TTBR (DartInfo, sid, idx)
abbrev pub dart_tcr : DartInfo → ℕ → ℕ
dart_tcr s sid = s.tcr_base + 4 * sid

abbrev pub dart_ttbr : DartInfo → ℕ → ℕ → ℕ
dart_ttbr s sid idx = s.ttbr_base + 4 * s.nttbr * sid + 4 * idx

-- DART_ALL_STREAMS (DartInfo)
abbrev pub dart_all_streams : DartInfo → ℕ
dart_all_streams s = (2 ^ (s.nsid % 32) + 2 ^ 32 - 1) % 2 ^ 32

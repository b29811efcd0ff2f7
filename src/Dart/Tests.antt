-- ===== src/Dart/Tests.antt =====
-- The DART driver's theorems at concrete inputs: DARTs whose registers read as 1.
use apple_silicon_platforms.Prelude.{◌≡◌, refl, false, none, some, [], arith}
use apple_silicon_platforms.Platform.Status.{success}
use apple_silicon_platforms.Platform.Io.{Device, Returns}
use apple_silicon_platforms.Platform.Adt.{Adt}
use apple_silicon_platforms.Dart.Regs.{DartInfo, TlbFlush, t8020_tlb_flush, t8110_tlb_flush}
use apple_silicon_platforms.Dart.Setup.{setup_dart}
use apple_silicon_platforms.Dart.Streams.{FlushEnds}
use apple_silicon_platforms.Dart.Bypass.{IsProgrammed, setup_dart_lem}

abbrev device : Device
device = record { value = λ t l. 1; reply = λ t s. success }

abbrev tree : Adt
tree = record {
  get = λ name. some 1;
  text = λ node name. some "dart,t8110";
  words = λ node name. none;
  u32 = λ node name i. none;
  reg = λ node i. some 0x382f80000;
}

abbrev blank : DartInfo
blank = record {
  base_address = 0;
  bypass_mode = false;
  shift = 0;
  dma_virt_addr_base = 0;
  dma_virt_addr_end = 0;
  nsid = 0;
  nttbr = 0;
  sid_enable_base = 0;
  tcr_base = 0;
  tcr_translate_enable = 0;
  tcr_bypass = 0;
  ttbr_base = 0;
  ttbr_is_valid = 0;
  tlb_flush = t8020_tlb_flush;
}

flushes_end :
    (kind : TlbFlush) → FlushEnds kind 4 device (record blank { base_address = 0x382f80000 })
flushes_end t8020_tlb_flush = λ t. (0, omega arith, refl)
flushes_end t8110_tlb_flush = λ t. (0, omega arith, refl)

setup_dart_lem_example :
    Returns
      (λ s' u. (s'.base_address ≡ 0x382f80000) × IsProgrammed device s' u)
      (setup_dart tree 4 7 0x382f80000 blank device [])
setup_dart_lem_example =
    setup_dart_lem device tree 4 7 0x382f80000 "dart,t8110" blank [] refl flushes_end

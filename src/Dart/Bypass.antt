-- ===== src/Dart/Bypass.antt =====
-- What the DART driver makes of a DART: every stream in bypass, or else every stream off.
use apple_silicon_platforms.Prelude.{
  ℕ, ◌+◌, ◌*◌, ◌%◌, ◌^◌, ◌<◌, ◌≡◌, refl, ap, ◌∙◌, false, some, ◌∷◌, ◌==◌, if◌then◌else◌, bit_and,
  arith, Bool-cases, inl, inr, bit_and-le,
}
use Prim.Native.String.{String}
use text.Mathlib.Text.{◌==◌ as str_eq}
use apple_silicon_platforms.Platform.Io.{
  Device, Trace, Returns, Returns-proceed, Returns-weaken, Returns-all, barrier, mmio,
}
use apple_silicon_platforms.Platform.Adt.{Adt}
use apple_silicon_platforms.Dart.Regs.{
  DartInfo, TlbFlush, t8020_tlb_flush, t8110_tlb_flush, dart_reg, dart_tcr, dart_params2,
  params2_bypass_support, t8110_params4, t8110_params4_nsid_mask, t8110_tlb_cmd, t8110_tlb_cmd_busy,
}
use apple_silicon_platforms.Dart.Setup.{
  flush_tlb, write_tcrs, clear_ttbrs, enable_bypass, program_dart, generation, setup_dart,
  wait_while_busy,
}
use apple_silicon_platforms.Dart.Streams.{
  last_store, Avoids, FlushEnds, Keeps, reads, flush_tlb-Keeps, flush_tlb-Ends, write_tcrs-each,
  write_tcrs-Ends, clear_ttbrs-again, clear_ttbrs-Ends, flushed10, wait-reads, last_store-reads,
  store-other, store-same,
}

-- What a stream's TCR is left at.
abbrev pub tcr_value : DartInfo → ℕ
tcr_value s = if s.bypass_mode then s.tcr_bypass else 0

abbrev pub IsStreamSet : ℕ → DartInfo → Trace → Type 0
IsStreamSet k s u = last_store (dart_reg s.base_address (dart_tcr s k)) u ≡ some (tcr_value s)

-- What the description of either generation has.
record IsDescribed (s : DartInfo) : Type 0 where
  quiet : (k : ℕ) → k < s.nsid → Avoids s.tlb_flush s (dart_reg s.base_address (dart_tcr s k))
  narrow : s.tcr_bypass % 2 ^ 32 ≡ s.tcr_bypass
  off : s.bypass_mode ≡ false

-- The bypass changes neither the base nor the number of streams.
abbrev IsSame : DartInfo → DartInfo → Trace → Type 0
IsSame s s' u = (s'.base_address ≡ s.base_address) × (s'.nsid ≡ s.nsid)

module _ (d : Device) where
  enable_bypass-IsSame : (s : DartInfo) (t : Trace) → Returns (IsSame s) (enable_bypass s d t)
  unfolding enable_bypass
  enable_bypass-IsSame s t =
      elim (Bool-cases (
        bit_and (d.value t (mmio (dart_reg s.base_address dart_params2)) % 2 ^ 32)
          params2_bypass_support
        == 0)) [
          | inl e ↦ rw e (refl, refl)
          | inr e ↦ rw e (
              Returns-proceed (λ _ _. Unit {0}) (IsSame s) (write_tcrs s s.tcr_bypass s.nsid 0 d _)
                _ d (write_tcrs-Ends d s s.tcr_bypass s.nsid 0 _) (λ _ u h. (refl, refl)))
        ]

  enable_bypass-IsStreamSet :
      (s : DartInfo) (k : ℕ) (t : Trace)
      → IsDescribed s
      → k < s.nsid
      → last_store (dart_reg s.base_address (dart_tcr s k)) t ≡ some 0
      → Returns (IsStreamSet k) (enable_bypass s d t)
  unfolding enable_bypass
  enable_bypass-IsStreamSet s k t known below h =
      elim (Bool-cases (
        bit_and (d.value t (mmio (dart_reg s.base_address dart_params2)) % 2 ^ 32)
          params2_bypass_support
        == 0)) [
          | inl e ↦ rw e (rw known.off h)
          | inr e ↦ rw e (
              Returns-proceed
                (λ _ u.
                  last_store (dart_reg s.base_address (dart_tcr s k)) u
                  ≡ some (s.tcr_bypass % 2 ^ 32))
                (IsStreamSet k) (write_tcrs s s.tcr_bypass s.nsid 0 d _) _ d
                (write_tcrs-each d s s.tcr_bypass s.nsid 0 k _ (omega arith) (omega arith))
                (λ _ u g. g ∙ ap some known.narrow))
        ]

  program_dart-IsSame :
      (fuel : ℕ) (s : DartInfo) (t : Trace)
      → FlushEnds s.tlb_flush fuel d s
      → Returns (IsSame s) (program_dart fuel s d t)
  unfolding program_dart
  program_dart-IsSame fuel s t ends =
      Returns-proceed _ (IsSame s) (write_tcrs s 0 s.nsid 0 d t) _ d
        (write_tcrs-Ends d s 0 s.nsid 0 t)
        λ _ t1 h1.
          Returns-proceed _ (IsSame s) (clear_ttbrs s s.nsid 0 d t1) _ d
            (clear_ttbrs-Ends d s s.nsid 0 t1)
            λ _ t2 h2.
              Returns-proceed _ (IsSame s) (flush_tlb s.tlb_flush fuel s d t2) _ d
                (flush_tlb-Ends d s.tlb_flush fuel s t2 ends) λ _ t3 h3. enable_bypass-IsSame s t3

  program_dart-IsStreamSet :
      (fuel : ℕ) (s : DartInfo) (k : ℕ) (t : Trace)
      → IsDescribed s
      → FlushEnds s.tlb_flush fuel d s
      → k < s.nsid
      → Returns (IsStreamSet k) (program_dart fuel s d t)
  unfolding program_dart
  program_dart-IsStreamSet fuel s k t known ends below =
      let a : ℕ = dart_reg s.base_address (dart_tcr s k) in
      Returns-proceed (λ _ u. last_store a u ≡ some 0) (IsStreamSet k) (write_tcrs s 0 s.nsid 0 d t)
        _ d (write_tcrs-each d s 0 s.nsid 0 k t (omega arith) (omega arith))
        λ _ t1 h1.
          Returns-proceed (λ _ u. last_store a u ≡ some 0) (IsStreamSet k)
            (clear_ttbrs s s.nsid 0 d t1) _ d (clear_ttbrs-again d s a s.nsid 0 t1 h1)
            λ _ t2 h2.
              Returns-proceed (Keeps a t2) (IsStreamSet k) (flush_tlb s.tlb_flush fuel s d t2) _ d
                (flush_tlb-Keeps d s.tlb_flush a fuel s t2 (known.quiet k below) ends)
                λ _ t3 h3. enable_bypass-IsStreamSet s k t3 known below (h3 ∙ h2)

  -- Every stream of a DART, or none of them, ends up in bypass.
  abbrev pub IsProgrammed : DartInfo → Trace → Type 0
  IsProgrammed s u = (k : ℕ) → k < s.nsid → IsStreamSet k s u

  program_dart-IsProgrammed :
      (fuel : ℕ) (s : DartInfo) (t : Trace)
      → IsDescribed s
      → FlushEnds s.tlb_flush fuel d s
      → Returns
          (λ s' u. (s'.base_address ≡ s.base_address) × IsProgrammed s' u)
          (program_dart fuel s d t)
  program_dart-IsProgrammed fuel s t known ends =
      Returns-weaken (λ s' u. IsSame s s' u × ((k : ℕ) → k < s.nsid → IsStreamSet k s' u)) _
        (program_dart fuel s d t)
        (Returns-all (IsSame s) (λ k. k < s.nsid) IsStreamSet (program_dart fuel s d t)
          (program_dart-IsSame fuel s t ends)
          (λ k below. program_dart-IsStreamSet fuel s k t known ends below))
        (λ s' u h. (h.0.0, λ k below. h.1 k (omega (arith, below, h.0.1))))

  -- One DART's round of AppleDartIoMmuDxeInitialize, where its node has a `compatible` and each TLB
  -- flush becomes idle within the fuel: it comes to its end with the base address recorded, and
  -- the newest store to the TCR of every stream is the bypass value if the DART is recorded as in
  -- bypass, and 0 if it is not. This is so for both generations and for any number of streams that
  -- a T8110 reports.
  pub setup_dart_lem :
      (adt : Adt) (fuel n reg : ℕ) (compatible : String) (s : DartInfo) (t : Trace)
      → adt.text n "compatible" ≡ some compatible
      → ((kind : TlbFlush) → FlushEnds kind fuel d (record s { base_address = reg }))
      → Returns
          (λ s' u. (s'.base_address ≡ reg) × IsProgrammed s' u)
          (setup_dart adt fuel n reg s d t)
  unfolding setup_dart generation
  setup_dart_lem adt fuel n reg compatible s t text ends =
      rw text (elim (Bool-cases (str_eq compatible "dart,t8110")) [
        | inl e ↦ rw e (
            program_dart-IsProgrammed fuel _ _
              (record {
                quiet = λ k below f.
                    far reg k
                      (omega (
                        arith,
                        below,
                        bit_and-le (d.value t (mmio (dart_reg reg t8110_params4)) % 2 ^ 32)
                            t8110_params4_nsid_mask,
                      ))
                      f;
                narrow = refl;
                off = refl;
              })
              (ends t8110_tlb_flush))
        | inr e ↦ rw e (
            program_dart-IsProgrammed fuel _ _
              (record {
                quiet = λ k below. (λ f. near_mask reg k below f, λ f. near_cmd reg k below f);
                narrow = refl;
                off = refl;
              })
              (ends t8020_tlb_flush))
      ])
    where
      far : (reg k : ℕ) → k < 512 → dart_reg reg 0x100 ≡ dart_reg reg (0x1000 + 4 * k) → ⊥
      far reg k below f = omega arith

      near_mask : (reg k : ℕ) → k < 16 → dart_reg reg 0x34 ≡ dart_reg reg (0x100 + 4 * k) → ⊥
      near_mask reg k below f = omega arith

      near_cmd : (reg k : ℕ) → k < 16 → dart_reg reg 0x20 ≡ dart_reg reg (0x100 + 4 * k) → ⊥
      near_cmd reg k below f = omega arith

  -- AppleDartT8110TlbFlush, where it ends: it leaves the command register at offset 0x80 as it was
  -- and stores 0x100, the command, at offset 0x100, which is the error register.
  flush_tlb_misses_command :
      (fuel : ℕ) (s : DartInfo) (t : Trace)
      → FlushEnds t8110_tlb_flush fuel d s
      → Returns
          (λ _ u.
            (last_store (dart_reg s.base_address t8110_tlb_cmd) u
              ≡ last_store (dart_reg s.base_address t8110_tlb_cmd) t)
            × (last_store (dart_reg s.base_address 0x100) u ≡ some 0x100))
          (flush_tlb t8110_tlb_flush fuel s d t)
  unfolding flush_tlb
  flush_tlb_misses_command fuel s t ends =
      let cmd : ℕ = dart_reg s.base_address t8110_tlb_cmd in
      let err : ℕ = dart_reg s.base_address 0x100 in
      Returns-weaken (λ _ u. (n : ℕ) × (u ≡ reads cmd n (flushed10 d s t)))
        (λ _ u. (last_store cmd u ≡ last_store cmd t) × (last_store err u ≡ some 0x100))
        (wait_while_busy fuel cmd t8110_tlb_cmd_busy d (flushed10 d s t))
        (wait-reads d fuel (ends (flushed10 d s t)).0 cmd t8110_tlb_cmd_busy (flushed10 d s t)
          (ends (flushed10 d s t)).1 (ends (flushed10 d s t)).2)
        (λ _ u h. (
          rw h.1 (
              last_store-reads cmd cmd h.0 (flushed10 d s t)
              ∙ store-other cmd err 0x100 (barrier ∷ t) (λ e. apart s.base_address e)),
          rw h.1
              (last_store-reads err cmd h.0 (flushed10 d s t) ∙ store-same err 0x100 (barrier ∷ t)),
        ))
    where
      apart : (base : ℕ) → dart_reg base 0x100 ≡ dart_reg base 0x80 → ⊥
      apart base e = omega arith

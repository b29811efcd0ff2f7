-- ===== src/Dart/Streams.antt =====
-- What the DART driver leaves in the registers of the streams: the newest store to a register.
use apple_silicon_platforms.Prelude.{
  ℕ, zero, suc, ◌+◌, ◌%◌, ◌^◌, ◌≤◌, ◌<◌, ◌≡◌, ◌≢◌, refl, ◌∙◌, false, Option, none, some, [], ◌∷◌,
  ◌==◌, ==-false, ==-self, if◌then◌else◌, bit_and, arith, Bool-cases, inl, inr, ltb,
}
use mathlib.Core.Path.{subst}
use apple_silicon_platforms.Platform.Io.{
  Device, Trace, Ends, Ends-proceed, Returns, Returns-proceed, Returns-weaken, load, store, barrier,
  mmio,
}
use apple_silicon_platforms.Dart.Regs.{
  DartInfo, TlbFlush, t8020_tlb_flush, t8110_tlb_flush, dart_reg, dart_tcr, dart_all_streams,
  t8020_tlb_cmd, t8020_tlb_cmd_busy, t8020_tlb_sidmask, t8110_tlb_cmd, t8110_tlb_cmd_busy,
  t8110_tlb_cmd_flush_all, t8020_tlb_cmd_flush,
}
use apple_silicon_platforms.Dart.Setup.{
  wait_while_busy, flush_tlb, write_tcrs, clear_stream_ttbrs, clear_ttbrs,
}

-- The newest value that a trace has stored at an address.
abbrev pub last_store : ℕ → Trace → Option ℕ
last_store a [] = none
last_store a (store (mmio b) v ∷ t) = if b == a then some v else last_store a t
last_store a (_ ∷ t) = last_store a t

-- `n` more reads of one register.
abbrev pub reads : ℕ → ℕ → Trace → Trace
reads a zero t = t
reads a (suc n) t = reads a n (load (mmio a) ∷ t)

-- Whenever it is read, one of the next `fuel` reads of the register shows no busy bit.
abbrev pub BecomesIdle : ℕ → Device → ℕ → ℕ → Type 0
BecomesIdle fuel d a busy =
    (t : Trace)
    → (k : ℕ) × (k < fuel) × (bit_and (d.value (reads a k t) (mmio a) % 2 ^ 32) busy ≡ 0)

-- The registers that a flush writes are not `a`.
abbrev pub Avoids : TlbFlush → DartInfo → ℕ → Type 0
Avoids t8020_tlb_flush s a =
    (dart_reg s.base_address t8020_tlb_sidmask ≢ a) × (dart_reg s.base_address t8020_tlb_cmd ≢ a)
Avoids t8110_tlb_flush s a = dart_reg s.base_address t8110_tlb_cmd_flush_all ≢ a

-- Each flush of the DART ends within the fuel.
abbrev pub FlushEnds : TlbFlush → ℕ → Device → DartInfo → Type 0
FlushEnds t8020_tlb_flush fuel d s =
    BecomesIdle fuel d (dart_reg s.base_address t8020_tlb_cmd) t8020_tlb_cmd_busy
FlushEnds t8110_tlb_flush fuel d s =
    BecomesIdle fuel d (dart_reg s.base_address t8110_tlb_cmd) t8110_tlb_cmd_busy

pub store-other :
    (a b v : ℕ) (t : Trace) → b ≢ a → last_store a (store (mmio b) v ∷ t) ≡ last_store a t
store-other a b v t h = rw (==-false b a h) refl

pub store-same : (a v : ℕ) (t : Trace) → last_store a (store (mmio a) v ∷ t) ≡ some v
store-same a v t = rw (==-self a) refl

-- A store of the value that the register has already.
store-again :
    (a b v : ℕ) (t : Trace) → last_store a t ≡ some v → last_store a (store (mmio b) v ∷ t) ≡ some v
store-again a b v t h = elim (Bool-cases (b == a)) [ inl e ↦ rw e refl | inr e ↦ rw e h ]

pub last_store-reads : (a b n : ℕ) (t : Trace) → last_store a (reads b n t) ≡ last_store a t
last_store-reads a b zero t = refl
last_store-reads a b (suc n) t = last_store-reads a b n (load (mmio b) ∷ t)

-- The run ends, and what was last stored at `a` is still there.
abbrev pub Keeps : {A : Type 0} → ℕ → Trace → A → Trace → Type 0
Keeps a t x u = last_store a u ≡ last_store a t

module _ (d : Device) where
  pub wait-reads :
      (fuel k address busy : ℕ) (t : Trace)
      → k < fuel
      → bit_and (d.value (reads address k t) (mmio address) % 2 ^ 32) busy ≡ 0
      → Returns (λ _ u. (n : ℕ) × (u ≡ reads address n t)) (wait_while_busy fuel address busy d t)
  unfolding wait_while_busy
  wait-reads zero k address busy t bound idle = absurd (omega arith)
  wait-reads (suc fuel) zero address busy t bound idle = rw idle (1, refl)
  wait-reads (suc fuel) (suc k) address busy t bound idle =
      elim (Bool-cases (bit_and (d.value t (mmio address) % 2 ^ 32) busy == 0)) [
        | inl e ↦ rw e (1, refl)
        | inr e ↦ rw e (
            Returns-weaken (λ _ u. (n : ℕ) × (u ≡ reads address n (load (mmio address) ∷ t)))
              (λ _ u. (n : ℕ) × (u ≡ reads address n t))
              (wait_while_busy fuel address busy d (load (mmio address) ∷ t))
              (wait-reads fuel k address busy (load (mmio address) ∷ t) (omega arith) idle)
              (λ _ u h. (suc h.0, h.1)))
      ]

  wait-Keeps :
      (a fuel address busy : ℕ) (t : Trace)
      → BecomesIdle fuel d address busy
      → Returns (Keeps a t) (wait_while_busy fuel address busy d t)
  wait-Keeps a fuel address busy t idle =
      Returns-weaken (λ _ u. (n : ℕ) × (u ≡ reads address n t)) (Keeps a t)
        (wait_while_busy fuel address busy d t)
        (wait-reads fuel (idle t).0 address busy t (idle t).1 (idle t).2)
        (λ _ u h. rw h.1 (last_store-reads a address h.0 t))

  -- The trace behind the stores of a flush.
  abbrev flushed20 : DartInfo → Trace → Trace
  flushed20 s t =
      store (mmio (dart_reg s.base_address t8020_tlb_cmd)) t8020_tlb_cmd_flush
      ∷ store (mmio (dart_reg s.base_address t8020_tlb_sidmask)) (dart_all_streams s % 2 ^ 32)
      ∷ barrier
      ∷ t

  abbrev pub flushed10 : DartInfo → Trace → Trace
  flushed10 s t =
      store (mmio (dart_reg s.base_address t8110_tlb_cmd_flush_all)) t8110_tlb_cmd_flush_all
      ∷ barrier
      ∷ t

  -- A flush of either generation touches no register but its own.
  pub flush_tlb-Keeps :
      (kind : TlbFlush) (a fuel : ℕ) (s : DartInfo) (t : Trace)
      → Avoids kind s a
      → FlushEnds kind fuel d s
      → Returns (Keeps a t) (flush_tlb kind fuel s d t)
  unfolding flush_tlb
  flush_tlb-Keeps t8020_tlb_flush a fuel s t (p, q) idle20 =
      Returns-weaken (Keeps a (flushed20 s t)) (Keeps a t)
        (wait_while_busy fuel (dart_reg s.base_address t8020_tlb_cmd) t8020_tlb_cmd_busy d
          (flushed20 s t))
        (wait-Keeps a fuel (dart_reg s.base_address t8020_tlb_cmd) t8020_tlb_cmd_busy
          (flushed20 s t) idle20)
        (λ _ u h.
          h
          ∙ store-other a (dart_reg s.base_address t8020_tlb_cmd) t8020_tlb_cmd_flush
              (store (mmio (dart_reg s.base_address t8020_tlb_sidmask))
                  (dart_all_streams s % 2 ^ 32)
                ∷ barrier
                ∷ t)
              q
          ∙ store-other a (dart_reg s.base_address t8020_tlb_sidmask) (dart_all_streams s % 2 ^ 32)
              (barrier ∷ t) p)
  flush_tlb-Keeps t8110_tlb_flush a fuel s t r idle10 =
      Returns-weaken (Keeps a (flushed10 s t)) (Keeps a t)
        (wait_while_busy fuel (dart_reg s.base_address t8110_tlb_cmd) t8110_tlb_cmd_busy d
          (flushed10 s t))
        (wait-Keeps a fuel (dart_reg s.base_address t8110_tlb_cmd) t8110_tlb_cmd_busy
          (flushed10 s t) idle10)
        (λ _ u h. h ∙ store-other a _ t8110_tlb_cmd_flush_all (barrier ∷ t) r)

  pub flush_tlb-Ends :
      (kind : TlbFlush) (fuel : ℕ) (s : DartInfo) (t : Trace)
      → FlushEnds kind fuel d s
      → Ends (flush_tlb kind fuel s d t)
  unfolding flush_tlb
  flush_tlb-Ends t8020_tlb_flush fuel s t idle =
      Returns-weaken _ _
        (wait_while_busy fuel (dart_reg s.base_address t8020_tlb_cmd) t8020_tlb_cmd_busy d
          (flushed20 s t))
        (wait-Keeps 0 fuel (dart_reg s.base_address t8020_tlb_cmd) t8020_tlb_cmd_busy
          (flushed20 s t) idle)
        (λ _ u h. tt)
  flush_tlb-Ends t8110_tlb_flush fuel s t idle =
      Returns-weaken _ _
        (wait_while_busy fuel (dart_reg s.base_address t8110_tlb_cmd) t8110_tlb_cmd_busy d
          (flushed10 s t))
        (wait-Keeps 0 fuel (dart_reg s.base_address t8110_tlb_cmd) t8110_tlb_cmd_busy
          (flushed10 s t) idle)
        (λ _ u h. tt)

  pub write_tcrs-Ends :
      (s : DartInfo) (v rounds sid : ℕ) (t : Trace) → Ends (write_tcrs s v rounds sid d t)
  unfolding write_tcrs
  write_tcrs-Ends s v zero sid t = tt
  write_tcrs-Ends s v (suc rounds) sid t = write_tcrs-Ends s v rounds (sid + 1) _

  clear_stream_ttbrs-Ends :
      (s : DartInfo) (sid rounds i : ℕ) (t : Trace) → Ends (clear_stream_ttbrs s sid rounds i d t)
  unfolding clear_stream_ttbrs
  clear_stream_ttbrs-Ends s sid zero i t = tt
  clear_stream_ttbrs-Ends s sid (suc rounds) i t = clear_stream_ttbrs-Ends s sid rounds (i + 1) _

  pub clear_ttbrs-Ends :
      (s : DartInfo) (rounds sid : ℕ) (t : Trace) → Ends (clear_ttbrs s rounds sid d t)
  unfolding clear_ttbrs
  clear_ttbrs-Ends s zero sid t = tt
  clear_ttbrs-Ends s (suc rounds) sid t =
      Ends-proceed (clear_stream_ttbrs s sid s.nttbr 0 d t) _ d
        (clear_stream_ttbrs-Ends s sid s.nttbr 0 t) (λ _ u. clear_ttbrs-Ends s rounds (sid + 1) u)

  -- The loop over the TCRs reaches each stream of its range, and undoes no earlier store of its
  -- value.
  pub write_tcrs-again :
      (s : DartInfo) (a v rounds sid : ℕ) (t : Trace)
      → last_store a t ≡ some (v % 2 ^ 32)
      → Returns (λ _ u. last_store a u ≡ some (v % 2 ^ 32)) (write_tcrs s v rounds sid d t)
  unfolding write_tcrs
  write_tcrs-again s a v zero sid t h = h
  write_tcrs-again s a v (suc rounds) sid t h =
      write_tcrs-again s a v rounds (sid + 1) _ (store-again a _ (v % 2 ^ 32) t h)

  pub write_tcrs-each :
      (s : DartInfo) (v rounds sid k : ℕ) (t : Trace)
      → sid ≤ k
      → k < sid + rounds
      → Returns
          (λ _ u. last_store (dart_reg s.base_address (dart_tcr s k)) u ≡ some (v % 2 ^ 32))
          (write_tcrs s v rounds sid d t)
  unfolding write_tcrs
  write_tcrs-each s v zero sid k t low high = absurd (omega arith)
  write_tcrs-each s v (suc rounds) sid k t low high = elim (Bool-cases (ltb sid k)) [
    | inl later ↦ write_tcrs-each s v rounds (sid + 1) k _ (ground arith) (omega arith)
    | inr here ↦ write_tcrs-again s (dart_reg s.base_address (dart_tcr s k)) v rounds (sid + 1) _ (
        subst
          (λ j.
            last_store (dart_reg s.base_address (dart_tcr s j))
              (store (mmio (dart_reg s.base_address (dart_tcr s sid))) (v % 2 ^ 32) ∷ t)
            ≡ some (v % 2 ^ 32))
          (same_sid here) (store-same (dart_reg s.base_address (dart_tcr s sid)) (v % 2 ^ 32) t))
  ]
    where
      same_sid : ltb sid k ≡ false → sid ≡ k
      same_sid e = ground arith

  pub clear_ttbrs-again :
      (s : DartInfo) (a rounds sid : ℕ) (t : Trace)
      → last_store a t ≡ some 0
      → Returns (λ _ u. last_store a u ≡ some 0) (clear_ttbrs s rounds sid d t)
  unfolding clear_ttbrs clear_stream_ttbrs
  clear_ttbrs-again s a zero sid t h = h
  clear_ttbrs-again s a (suc rounds) sid t h =
      Returns-proceed (λ _ u. last_store a u ≡ some 0) _ (clear_stream_ttbrs s sid s.nttbr 0 d t) _
        d (clear_stream_ttbrs-again s.nttbr 0 t h)
        (λ _ u g. clear_ttbrs-again s a rounds (sid + 1) u g)
    where
      clear_stream_ttbrs-again :
          (rounds i : ℕ) (t : Trace)
          → last_store a t ≡ some 0
          → Returns (λ _ u. last_store a u ≡ some 0) (clear_stream_ttbrs s sid rounds i d t)
      clear_stream_ttbrs-again zero i t h = h
      clear_stream_ttbrs-again (suc rounds) i t h =
          clear_stream_ttbrs-again rounds (i + 1) _ (store-again a _ 0 t h)

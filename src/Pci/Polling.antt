-- ===== src/Pci/Polling.antt =====
-- The polling loops of the PCIe driver: how long they wait, and what their outcome tells.
use apple_silicon_platforms.Prelude.{
  ℕ, zero, suc, ◌+◌, ◌*◌, ◌%◌, ◌^◌, ◌≤◌, ◌<◌, ◌≡◌, ◌≢◌, ◌⊎◌, refl, ap, ◌∙◌, Bool, true, false, not,
  [], ◌∷◌, ◌++◌, ◌==◌, ==_iff, bit_and, arith, Bool-cases, inl, inr,
}
use apple_silicon_platforms.Platform.Io.{
  Device, Trace, Returns, Returns-weaken, load, store, delay, invoke, call, interrupts_off,
  interrupts_on, barrier, asserted, mmio,
}
use apple_silicon_platforms.Pci.Regs.{poll_rounds, poll_bit}

-- The bits of a mask that a read of a register gives, behind the trace `t`.
abbrev pub bits_of : Device → ℕ → ℕ → Trace → ℕ
bits_of d a mask t = bit_and (d.value t (mmio a) % 2 ^ 32) mask

-- A read of the register that had a bit of the mask stands in the trace.
abbrev pub Seen : Device → ℕ → ℕ → Trace → Type 0
Seen d a mask [] = ⊥
Seen d a mask (e ∷ t) = ((e ≡ load (mmio a)) × (bits_of d a mask t ≢ 0)) ⊎ Seen d a mask t

-- The microseconds that a trace has waited.
abbrev pub waited : Trace → ℕ
waited [] = 0
waited (delay n ∷ t) = n + waited t
waited (_ ∷ t) = waited t

-- `u` is `t` with more events, which wait for at most `c` microseconds.
abbrev pub Later : ℕ → Trace → Trace → Type 0
Later c t u = (w : Trace) × (u ≡ w ++ t) × (waited w ≤ c)

append_assoc : (xs ys zs : Trace) → xs ++ (ys ++ zs) ≡ (xs ++ ys) ++ zs
append_assoc [] ys zs = refl
append_assoc (x ∷ xs) ys zs = ap (λ us. x ∷ us) (append_assoc xs ys zs)

waited-append : (u t : Trace) → waited (u ++ t) ≡ waited u + waited t
waited-append [] t = omega arith
waited-append (delay n ∷ u) t = omega (arith, waited-append u t)
waited-append (load l ∷ u) t = waited-append u t
waited-append (store l v ∷ u) t = waited-append u t
waited-append (invoke h n ∷ u) t = waited-append u t
waited-append (call s ∷ u) t = waited-append u t
waited-append (interrupts_off ∷ u) t = waited-append u t
waited-append (interrupts_on ∷ u) t = waited-append u t
waited-append (barrier ∷ u) t = waited-append u t
waited-append (asserted ∷ u) t = waited-append u t

pub Later-trans : (a b : ℕ) (t u v : Trace) → Later a t u → Later b u v → Later (a + b) t v
Later-trans a b t u v (w, e, h) (x, f, k) =
    (x ++ w, f ∙ ap (λ y. x ++ y) e ∙ append_assoc x w t, omega (arith, h, k, waited-append x w))

pub Later-weaken : (a b : ℕ) (t u : Trace) → a ≤ b → Later a t u → Later b t u
Later-weaken a b t u le (w, e, h) = (w, e, omega (arith, h, le))

pub Later-waited : (c : ℕ) (t u : Trace) → Later c t u → waited u ≤ waited t + c
Later-waited c t u (w, e, h) = rw e (omega (arith, waited-append w t, h))

-- What was seen stays seen.
pub Seen-Later :
    (d : Device) (a mask c : ℕ) (t u : Trace) → Later c t u → Seen d a mask t → Seen d a mask u
Seen-Later d a mask c t u (w, e, h) seen = rw e (on_top w)
  where
    on_top : (w : Trace) → Seen d a mask (w ++ t)
    on_top [] = seen
    on_top (x ∷ w) = inr (on_top w)

pub true≢false : {b : Bool} → b ≡ true → b ≡ false → ⊥
true≢false p q = cc

pub ≢-of_test : (a b : ℕ) → (a == b) ≡ false → a ≢ b
≢-of_test a b h e = true≢false ((==_iff a b).1 e) h

module _ (d : Device) (a mask : ℕ) where
  -- The loop took `n` rounds from `t` on.
  abbrev pub rounds_from : ℕ → Trace → Trace
  rounds_from zero t = t
  rounds_from (suc n) t = rounds_from n (load (mmio a) ∷ delay 100 ∷ t)

  rounds_from-Later : (n : ℕ) (t : Trace) → Later (n * 100) t (rounds_from n t)
  rounds_from-Later zero t = ([], refl, omega arith)
  rounds_from-Later (suc n) t =
      Later-weaken (100 + n * 100) (suc n * 100) t (rounds_from (suc n) t) (omega arith) (
        Later-trans 100 (n * 100) t (load (mmio a) ∷ delay 100 ∷ t) (rounds_from (suc n) t)
          (load (mmio a) ∷ delay 100 ∷ [], refl, omega arith)
          (rounds_from-Later n (load (mmio a) ∷ delay 100 ∷ t)))

  -- The outcome of a loop with at most `bound` rounds: a read with the bit ended it, or all of its
  -- rounds went by and no read had the bit.
  abbrev pub Polled : ℕ → Trace → Bool → Trace → Type 0
  Polled bound t ok u =
      (n : ℕ) × (n ≤ bound)
      × (u ≡ rounds_from n t)
      × (ok ≡ true → Seen d a mask u)
      × (ok ≡ false
          → (n ≡ bound) × ((k : ℕ) → k < n → bits_of d a mask (delay 100 ∷ rounds_from k t) ≡ 0))

  one_round :
      (bound : ℕ) (t : Trace) (ok : Bool) (u : Trace)
      → bits_of d a mask (delay 100 ∷ t) ≡ 0
      → Polled bound (load (mmio a) ∷ delay 100 ∷ t) ok u
      → Polled (suc bound) t ok u
  one_round bound t ok u clear (n, few, same, hit, miss) = (
    suc n,
    omega (arith, few),
    same,
    hit,
    λ failed. (ap suc (miss failed).0, λ k h. all k h (miss failed).1),
  )
    where
      all :
          (k : ℕ)
          → k < suc n
          → ((k : ℕ)
              → k < n
              → bits_of d a mask (delay 100 ∷ rounds_from k (load (mmio a) ∷ delay 100 ∷ t)) ≡ 0)
          → bits_of d a mask (delay 100 ∷ rounds_from k t) ≡ 0
      all zero h rest = clear
      all (suc k) h rest = rest k (omega arith)

  last_round :
      (t : Trace) (b : Bool)
      → (bits_of d a mask (delay 100 ∷ t) == 0) ≡ b
      → Polled 1 t (not b) (load (mmio a) ∷ delay 100 ∷ t)
  last_round t true e = (1, omega arith, refl, λ passed. cc, λ failed. (refl, λ k h. first k h))
    where
      first : (k : ℕ) → k < 1 → bits_of d a mask (delay 100 ∷ rounds_from k t) ≡ 0
      first zero h = (==_iff _ 0).0 e
      first (suc k) h = absurd (omega arith)
  last_round t false e = (1, omega arith, refl, λ passed. inl (refl, ≢-of_test _ 0 e), λ failed. cc)

  poll_rounds-Polled :
      (rounds : ℕ) (t : Trace) → Returns (Polled (suc rounds) t) (poll_rounds rounds a mask d t)
  unfolding poll_rounds
  poll_rounds-Polled zero t = last_round t (bits_of d a mask (delay 100 ∷ t) == 0) refl
  poll_rounds-Polled (suc rounds) t = elim (Bool-cases (bits_of d a mask (delay 100 ∷ t) == 0)) [
    | inl clear ↦ rw clear (
        Returns-weaken (Polled (suc rounds) (load (mmio a) ∷ delay 100 ∷ t))
          (Polled (suc (suc rounds)) t)
          (poll_rounds rounds a mask d (load (mmio a) ∷ delay 100 ∷ t))
          (poll_rounds-Polled rounds (load (mmio a) ∷ delay 100 ∷ t))
          (λ ok u h. one_round (suc rounds) t ok u ((==_iff _ 0).0 clear) h))
    | inr set_bit ↦
        rw set_bit (1, omega arith, refl, λ passed. inl (refl, ≢-of_test _ 0 set_bit), λ failed. cc)
  ]

  -- A read that had the bit; or reads that all lacked it, up to the bound. In either case the time
  -- is bounded.
  abbrev pub PollResult : ℕ → Trace → Bool → Trace → Type 0
  PollResult bound t ok u =
      (((ok ≡ true) × Seen d a mask u)
        ⊎ ((ok ≡ false)
            × (bits_of d a mask t ≡ 0)
            × (u ≡ rounds_from (bound + 1) (load (mmio a) ∷ t))
            × ((k : ℕ)
                → k < bound + 1
                → bits_of d a mask (delay 100 ∷ rounds_from k (load (mmio a) ∷ t)) ≡ 0)))
      × Later ((bound + 1) * 100) t u

  from_rounds :
      (bound : ℕ) (t : Trace) (ok : Bool) (u : Trace)
      → bits_of d a mask t ≡ 0
      → Polled (suc bound) (load (mmio a) ∷ t) ok u
      → PollResult bound t ok u
  from_rounds bound t ok u clear (n, few, same, hit, miss) = (
    by_outcome ok refl,
    Later-weaken (0 + n * 100) ((bound + 1) * 100) t u (omega (arith, few)) (
        Later-trans 0 (n * 100) t (load (mmio a) ∷ t) u (load (mmio a) ∷ [], refl, omega arith)
          (rw same (rounds_from-Later n (load (mmio a) ∷ t)))),
  )
    where
      all_of : ok ≡ false → n ≡ bound + 1
      all_of failed = omega (arith, (miss failed).0)

      by_outcome :
          (b : Bool)
          → ok ≡ b
          → ((ok ≡ true) × Seen d a mask u)
            ⊎ ((ok ≡ false)
                × (bits_of d a mask t ≡ 0)
                × (u ≡ rounds_from (bound + 1) (load (mmio a) ∷ t))
                × ((k : ℕ)
                    → k < bound + 1
                    → bits_of d a mask (delay 100 ∷ rounds_from k (load (mmio a) ∷ t)) ≡ 0))
      by_outcome true passed = inl (passed, hit passed)
      by_outcome false failed = inr (
        failed,
        clear,
        same ∙ ap (λ k. rounds_from k (load (mmio a) ∷ t)) (all_of failed),
        λ k h. (miss failed).1 k (omega (arith, all_of failed, h)),
      )

  -- A loop with a bound comes to its end, within bound + 1 rounds of 100 microseconds. It reports
  -- the bit only if a read showed it. If it does not report it, then neither the read ahead of the
  -- loop nor any of its bound + 1 reads showed it.
  pub poll_bit_lem :
      (bound : ℕ) (t : Trace) → Returns (PollResult bound t) (poll_bit bound a mask d t)
  unfolding poll_bit
  poll_bit_lem bound t = elim (Bool-cases (bits_of d a mask t == 0)) [
    | inl clear ↦ rw clear (
        Returns-weaken (Polled (suc bound) (load (mmio a) ∷ t)) (PollResult bound t)
          (poll_rounds bound a mask d (load (mmio a) ∷ t))
          (poll_rounds-Polled bound (load (mmio a) ∷ t))
          (λ ok u h. from_rounds bound t ok u ((==_iff _ 0).0 clear) h))
    | inr set_bit ↦
        rw set_bit
          (inl (refl, inl (refl, ≢-of_test _ 0 set_bit)), (load (mmio a) ∷ [], refl, omega arith))
  ]

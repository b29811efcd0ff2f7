-- ===== src/Aic/Service/Dispatch.antt =====
-- Which handler AppleAicV2InterruptHandler calls, and how a timer interrupt ends.
use apple_silicon_platforms.Prelude.{
  ℕ, ◌%◌, ◌^◌, ◌≤◌, ◌<◌, ◌≡◌, ◌↔◌, ◌∙◌, refl, true, false, Option, none, ap, some, List, [], ◌∷◌,
  ◌++◌, if◌then◌else◌, arith, length, get_elem?, get_elem?-none, get_elem?-some, bit, bit_and,
  bit_and-le, bit_and-ones, bit-bit_and, Bool-cases, inl, inr,
}
use native.Mathlib.Nat.{le_trans}
use apple_silicon_platforms.Platform.Status.{success}
use apple_silicon_platforms.Platform.Io.{
  Device, Trace, Res, ret, fault, mmio, sys, load, store, SysReg, cntp_ctl, cntv_ctl, fiq, Returns,
  Returns-proceed, Returns-weaken, invocations, not64, InterruptType,
}
use apple_silicon_platforms.Timer.Phys.{phys_disable_timer}
use apple_silicon_platforms.Aic.Controller.{is_timer_source}
use apple_silicon_platforms.Aic.Driver.{AicState, v2_end_of_interrupt}
use apple_silicon_platforms.Aic.Service.{
  timer_is_pending, run_timer_handler, serve_timer, serve_timers, ack_fast_ipi, ack_counters,
  interrupt_handler,
}

-- A timer is pending exactly when it is enabled (bit 0), its condition is met (bit 2) and its
-- interrupt is not masked (bit 1).
timer_is_pending_iff :
    (ctl : ℕ)
    → (timer_is_pending ctl ≡ true) ↔ ((bit 0 ctl ≡ 1) × (bit 1 ctl ≡ 0) × (bit 2 ctl ≡ 1))
unfolding timer_is_pending
timer_is_pending_iff ctl = ground (arith, bit_and-ones 3 ctl)

-- ArmGenericTimerDisableTimer clears bit 0.
cleared : ℕ → ℕ
cleared v = bit_and v (not64 1)

cleared_not_pending : (v : ℕ) → timer_is_pending (cleared v) ≡ false
unfolding cleared
cleared_not_pending v = elim (Bool-cases (timer_is_pending (bit_and v (not64 1)))) [
  | inl p ↦ absurd (omega (arith, (timer_is_pending_iff _).0 p, bit-bit_and 0 v (not64 1)))
  | inr n ↦ n
]

-- A table entry that is there and set.
abbrev pub call_of_entry : ℕ → Option (Option ℕ) → List (ℕ × ℕ)
call_of_entry n (some (some h)) = (h, n) ∷ []
call_of_entry n (some none) = []
call_of_entry n none = []

abbrev pub call_of : AicState → ℕ → List (ℕ × ℕ)
call_of s n = call_of_entry n (get_elem? s.handlers n)

-- The timer's handler that a FIQ calls: the physical timer's if that is pending, and else the
-- virtual timer's if that is.
abbrev pub timer_call : AicState → ℕ → ℕ → List (ℕ × ℕ)
timer_call s phys virt =
    if timer_is_pending phys
    then call_of s 17
    else if timer_is_pending virt
    then call_of s 18
    else []

-- The run comes to its end and calls the handlers `calls`.
abbrev pub Calls : List (ℕ × ℕ) → Trace → Res (Unit {0}) → Type 0
Calls calls t r = Returns (λ _ t'. invocations t' ≡ calls ++ invocations t) r

ack_fast_ipi-Calls : (d : Device) (t : Trace) → Calls [] t (ack_fast_ipi d t)
unfolding ack_fast_ipi
ack_fast_ipi-Calls d t = ground arith

ack_counters-Calls : (d : Device) (t : Trace) → Calls [] t (ack_counters d t)
unfolding ack_counters
ack_counters-Calls d t = ground arith

serve_timer-Calls :
    (s : AicState) (n : ℕ) (d : Device) (t : Trace)
    → n < length s.handlers
    → Calls (call_of s n) t (serve_timer s n d t)
unfolding serve_timer run_timer_handler
serve_timer-Calls s n d t h = serve_entry (get_elem?-some s.handlers n h)
  where
    serve_entry :
        (o : Option ℕ) × (get_elem? s.handlers n ≡ some o)
        → Calls (call_of s n) t (serve_timer s n d t)
    serve_entry (none, e) = rw e refl
    serve_entry (some o, e) = rw e refl

serve_timers-Calls :
    (s : AicState) (regs : SysReg → ℕ) (d : Device) (t : Trace)
    → ((u : Trace) (r : SysReg) → d.value u (sys r) ≡ regs r)
    → 18 < length s.handlers
    → Calls (timer_call s (regs cntp_ctl % 2 ^ 64) (regs cntv_ctl % 2 ^ 64)) t (serve_timers s d t)
unfolding serve_timers
serve_timers-Calls s regs d t steady h =
    let phys = load (sys cntp_ctl) ∷ t in
    let virt = load (sys cntv_ctl) ∷ phys in
    rw (steady t cntp_ctl) (elim (Bool-cases (timer_is_pending (regs cntp_ctl % 2 ^ 64))) [
      | inl p ↦ rw p (serve_timer-Calls s 17 d phys (omega arith))
      | inr q ↦
          rw (q, steady phys cntv_ctl)
            (elim (Bool-cases (timer_is_pending (regs cntv_ctl % 2 ^ 64))) [
              | inl p ↦ rw p (serve_timer-Calls s 18 d virt h)
              | inr n ↦ rw n
            ])
    ])

-- A FIQ, with a table of 19 entries at least, an event value inside the table, and system
-- registers that read the same throughout: the handler comes to its end, and the handlers that it
-- has called are the physical timer's (source 17) if that timer is pending, and else the virtual
-- timer's (source 18) if that one is, each only if it is registered, and no others.
pub interrupt_handler-fiq :
    (s : AicState) (regs : SysReg → ℕ) (d : Device) (t : Trace)
    → ((u : Trace) (r : SysReg) → d.value u (sys r) ≡ regs r)
    → 18 < length s.handlers
    → d.value t (mmio s.event_reg) % 2 ^ 32 < length s.handlers
    → Calls
        (timer_call s (regs cntp_ctl % 2 ^ 64) (regs cntv_ctl % 2 ^ 64))
        t
        (interrupt_handler s fiq d t)
unfolding interrupt_handler
interrupt_handler-fiq s regs d t steady many inside =
    let (o, e) = get_elem?-some s.handlers _ inside in
    let t0 = load (mmio s.event_reg) ∷ t in
    rw e (
      Returns-proceed _ _ (ack_fast_ipi d t0) _ d (ack_fast_ipi-Calls d t0) λ _ t1 e1.
        Returns-proceed _ _ (serve_timers s d t1) _ d (serve_timers-Calls s regs d t1 steady many)
          λ _ t2 e2. Returns-weaken _ _ (ack_counters d t2) (ack_counters-Calls d t2) λ _ t3 e3.
            e3
            ∙ e2
            ∙ ap
                (λ (l : List (ℕ × ℕ)).
                  timer_call s (regs cntp_ctl % 2 ^ 64) (regs cntv_ctl % 2 ^ 64) ++ l)
                e1)

-- An event value past the end of the table is an access out of bounds. The AIC puts the type of an
-- event into bits 16 to 23 and the die into bits 24 to 31, and the handler does not mask them off.
interrupt_handler-typed_event :
    (s : AicState) (type : InterruptType) (d : Device) (t : Trace)
    → length s.handlers ≤ 2 ^ 16
    → 2 ^ 16 ≤ d.value t (mmio s.event_reg) % 2 ^ 32
    → interrupt_handler s type d t ≡ fault (load (mmio s.event_reg) ∷ t)
unfolding interrupt_handler
interrupt_handler-typed_event s type d t short typed =
    rw (get_elem?-none s.handlers _ (le_trans short typed))

-- The end of a timer interrupt, whichever of the sources 17, 18 and 19 it is: the physical timer's
-- control register is read and written back with the enable bit cleared and the mask and status
-- bits kept, so that the value written is not pending; nothing else is touched.
v2_end_of_interrupt-timer :
    (s : AicState) (source : ℕ) (d : Device) (t : Trace)
    → is_timer_source source ≡ true
    → (w : ℕ) × (v2_end_of_interrupt s source d t
        ≡ ret success (store (sys cntp_ctl) w ∷ load (sys cntp_ctl) ∷ t))
      × (timer_is_pending w ≡ false)
      × (bit 0 w ≡ 0)
      × (bit 1 w ≡ bit 1 (d.value t (sys cntp_ctl)))
      × (bit 2 w ≡ bit 2 (d.value t (sys cntp_ctl)))
unfolding v2_end_of_interrupt phys_disable_timer cleared
v2_end_of_interrupt-timer s source d t e =
    let v : ℕ = d.value t (sys cntp_ctl) % 2 ^ 64 in
    let w : ℕ = bit_and v (not64 1) in
    (
      w,
      rw (e, fits v),
      cleared_not_pending v,
      omega (arith, bit-bit_and 0 v (not64 1)),
      omega (arith, bit-bit_and 1 v (not64 1)),
      omega (arith, bit-bit_and 2 v (not64 1)),
    )
  where
    fits : (v : ℕ) → bit_and v (not64 1) % 2 ^ 64 ≡ bit_and v (not64 1)
    fits v = omega (arith, bit_and-le v (not64 1))

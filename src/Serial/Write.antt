-- ===== src/Serial/Write.antt =====
-- SerialPortWrite and SerialPortInitialize: what goes out, and when the polling loops end.
use apple_silicon_platforms.Prelude.{
  rev_onto, ℕ, zero, suc, ◌+◌, ◌-◌, ◌*◌, ◌%◌, ◌^◌, ◌≤◌, ◌<◌, ◌≡◌, ◌≢◌, refl, ap, ◌∙◌, some, List,
  [], ◌∷◌, ◌++◌, get_elem?, length, length-append, All, ◌==◌, ==-false, ==_iff, if◌then◌else◌,
  bit_and, arith, Bool-cases, inl, inr,
}
use apple_silicon_platforms.Platform.Status.{success}
use apple_silicon_platforms.Platform.Io.{
  Device, Trace, hang, Returns, Returns-proceed, Returns-weaken, load, store, mmio, interrupts_off,
  interrupts_on,
}
use apple_silicon_platforms.Serial.{
  uart_reg, uart_transfer_status, uart_tx_byte, uart_baud_rate_config, transfer_status_txe,
  transfer_status_txbe, wait_for, calculate_baud_rate_config, serial_port_flush,
  serial_port_initialize, write_bytes, serial_port_write,
}

-- The bytes that a trace has sent, newest first.
abbrev pub sent : ℕ → Trace → List ℕ
sent base [] = []
sent base (store (mmio a) v ∷ t) =
    if a == uart_reg base uart_tx_byte then v ∷ sent base t else sent base t
sent base (_ ∷ t) = sent base t

-- `n` more reads of the status register.
abbrev pub polls : ℕ → ℕ → Trace → Trace
polls base zero t = t
polls base (suc n) t = polls base n (load (mmio (uart_reg base uart_transfer_status)) ∷ t)

abbrev pub status_bits : Device → ℕ → ℕ → Trace → ℕ
status_bits d base mask t =
    bit_and (d.value t (mmio (uart_reg base uart_transfer_status)) % 2 ^ 32) mask

-- Behind `t` one of the next `fuel` reads of the status register has a bit of the mask.
abbrev pub BecomesReady : ℕ → Device → ℕ → ℕ → Trace → Type 0
BecomesReady fuel d base mask t =
    (k : ℕ) × (k < fuel) × (status_bits d base mask (polls base k t) ≢ 0)

sent-polls : (base n : ℕ) (t : Trace) → sent base (polls base n t) ≡ sent base t
sent-polls base zero t = refl
sent-polls base (suc n) t = sent-polls base n (load _ ∷ t)

abbrev Polled : ℕ → Trace → Trace → Type 0
Polled base t u = (n : ℕ) × (u ≡ polls base n t)

wait_for-after :
    (fuel k base mask : ℕ) (d : Device) (t : Trace)
    → k < fuel
    → status_bits d base mask (polls base k t) ≢ 0
    → Returns (λ _ u. Polled base t u) (wait_for fuel base mask d t)
unfolding wait_for
wait_for-after zero k base mask d t bound at = absurd (omega arith)
wait_for-after (suc fuel) zero base mask d t bound at =
    rw (==-false (status_bits d base mask t) 0 at) (1, refl)
wait_for-after (suc fuel) (suc k) base mask d t bound at =
    elim (Bool-cases (status_bits d base mask t == 0)) [
      | inl busy ↦ rw busy (
          Returns-weaken _ _ (wait_for fuel base mask d (load _ ∷ t))
            (wait_for-after fuel k base mask d (load _ ∷ t) (omega arith) at)
            (λ _ u p. (suc p.0, p.1)))
      | inr free ↦ rw free (1, refl)
    ]

pub wait_for-polls :
    (fuel base mask : ℕ) (d : Device) (t : Trace)
    → BecomesReady fuel d base mask t
    → Returns (λ _ u. Polled base t u) (wait_for fuel base mask d t)
wait_for-polls fuel base mask d t ready = wait_for-after fuel ready.0 base mask d t ready.1 ready.2

-- With a status that never shows the bits the loop does not end, whatever the fuel.
wait_for-hangs :
    (fuel base mask : ℕ) (d : Device) (t : Trace)
    → ((k : ℕ) → status_bits d base mask (polls base k t) ≡ 0)
    → (n : ℕ) × (wait_for fuel base mask d t ≡ hang (polls base n t))
unfolding wait_for
wait_for-hangs zero base mask d t never = (0, refl)
wait_for-hangs (suc fuel) base mask d t never =
    let h = wait_for-hangs fuel base mask d (load _ ∷ t) (λ k. never (suc k)) in
    (suc h.0, rw (never 0) h.1)

nth : (before after : List ℕ) (b : ℕ) → get_elem? (before ++ (b ∷ after)) (length before) ≡ some b
nth [] after b = refl
nth (x ∷ xs) after b = nth xs after b

shift : (before after : List ℕ) (b : ℕ) → before ++ (b ∷ after) ≡ (before ++ (b ∷ [])) ++ after
shift [] after b = refl
shift (x ∷ xs) after b = ap (λ ys. x ∷ ys) (shift xs after b)

module _ (fuel base : ℕ) (d : Device)
    (ready : (t : Trace) → BecomesReady fuel d base transfer_status_txbe t) where
  abbrev Sent : List ℕ → Trace → ℕ → Trace → Type 0
  Sent bytes t n u = (n ≡ 0) × (sent base u ≡ rev_onto bytes (sent base t))

  sent-byte :
      (b : ℕ) (t u : Trace)
      → b < 256
      → Polled base t u
      → sent base (store (mmio (uart_reg base uart_tx_byte)) (b % 2 ^ 32) ∷ u) ≡ b ∷ sent base t
  sent-byte b t u byte polled =
      rw ((==_iff (uart_reg base uart_tx_byte) (uart_reg base uart_tx_byte)).1 refl)
        (rw polled.1 (rw (sent-polls base polled.0 t) (ap (λ x. x ∷ sent base t) (omega arith))))

  write_bytes-Sent :
      (bytes before buffer : List ℕ) (i remaining : ℕ) (t : Trace)
      → buffer ≡ before ++ bytes
      → i ≡ length before
      → remaining ≡ length bytes
      → length bytes < 2 ^ 64
      → All (λ b. b < 256) bytes
      → Returns (Sent bytes t) (write_bytes fuel base buffer i (length bytes) remaining d t)
  unfolding write_bytes
  write_bytes-Sent [] before buffer i remaining t e at count small bytes8 = (count, refl)
  write_bytes-Sent (b ∷ bs) before buffer i remaining t e at count small bytes8 =
      Returns-proceed _ _ (wait_for fuel base transfer_status_txbe d t) _ d
        (wait_for-polls fuel base transfer_status_txbe d t (ready t))
        λ _ u polled.
          let put = sent-byte b t u bytes8.0 polled in
          let rest =
            write_bytes-Sent bs (before ++ (b ∷ [])) buffer (i + 1)
              ((remaining + 2 ^ 64 - 1) % 2 ^ 64)
              (store (mmio (uart_reg base uart_tx_byte)) (b % 2 ^ 32) ∷ u) (e ∙ shift before bs b)
              (omega (arith, at, length-append before (b ∷ []))) (omega (arith, count))
              (omega arith) bytes8.1 in
          rw nth_byte (
            Returns-weaken (Sent bs (store (mmio (uart_reg base uart_tx_byte)) (b % 2 ^ 32) ∷ u))
              (Sent (b ∷ bs) t)
              (write_bytes fuel base buffer (i + 1) (length bs) ((remaining + 2 ^ 64 - 1) % 2 ^ 64)
                d (store (mmio (uart_reg base uart_tx_byte)) (b % 2 ^ 32) ∷ u))
              rest (λ n v h. (h.0, h.1 ∙ ap (rev_onto bs) put)))
    where
      nth_byte : get_elem? buffer i ≡ some b
      nth_byte = rw e (rw at (nth before bs b))

  -- SerialPortWrite of a whole buffer, of less than 2 ^ 64 bytes, to a port that shows room in its
  -- transmit buffer within `fuel` reads at any time: it comes to its end with interrupts on
  -- again, and the port has been sent the bytes in their order and nothing else.
  pub serial_port_write_lem :
      (bytes : List ℕ) (t : Trace)
      → length bytes < 2 ^ 64
      → All (λ b. b < 256) bytes
      → Returns
          (λ _ u.
            (sent base u ≡ rev_onto bytes (sent base t)) × (w : Trace) × (u ≡ interrupts_on ∷ w))
          (serial_port_write fuel base bytes (length bytes) d t)
  unfolding serial_port_write
  serial_port_write_lem bytes t small bytes8 =
      Returns-proceed _ _
        (write_bytes fuel base bytes 0 (length bytes) (length bytes) d (interrupts_off ∷ t)) _ d
        (write_bytes-Sent bytes [] bytes 0 (length bytes) (interrupts_off ∷ t) refl refl refl small
          bytes8)
        λ n u h. (h.1, u, refl)

-- SerialPortWrite to a port that never shows room in its transmit buffer does not come to its end,
-- whatever the fuel, unless there is nothing to write; interrupts are off meanwhile.
serial_port_write-hangs :
    (fuel base : ℕ) (d : Device) (buffer : List ℕ) (n : ℕ) (t : Trace)
    → ((k : ℕ) → status_bits d base transfer_status_txbe (polls base k (interrupts_off ∷ t)) ≡ 0)
    → (k : ℕ) × (serial_port_write fuel base buffer (suc n) d t
        ≡ hang (polls base k (interrupts_off ∷ t)))
unfolding serial_port_write write_bytes
serial_port_write-hangs fuel base d buffer n t never =
    let h = wait_for-hangs fuel base transfer_status_txbe d (interrupts_off ∷ t) never in
    (h.0, rw h.1 refl)

-- SerialPortInitialize: where the transmitter drains within `fuel` reads, it programs the divisor
-- of 115200 baud, the 24 MHz clock by 16 times the rate, less one, rounded to the nearest.
serial_port_initialize_lem :
    (fuel base : ℕ) (d : Device) (t : Trace)
    → BecomesReady fuel d base transfer_status_txe t
    → Returns
        (λ status u.
          (status ≡ success)
          × (n : ℕ) × (w : ℕ) × (u
              ≡ store (mmio (uart_reg base uart_baud_rate_config)) w ∷ polls base n t)
          × (2 * 24000000 ≤ (2 * (w + 1) + 1) * (16 * 115200))
          × ((2 * (w + 1) - 1) * (16 * 115200) ≤ 2 * 24000000))
        (serial_port_initialize fuel base d t)
unfolding serial_port_initialize serial_port_flush calculate_baud_rate_config
serial_port_initialize_lem fuel base d t ready =
    Returns-proceed (λ _ u. Polled base t u) _ (serial_port_flush fuel base d t) _ d
      (Returns-proceed _ _ (wait_for fuel base transfer_status_txe d t) _ d
        (wait_for-polls fuel base transfer_status_txe d t ready) λ _ u polled. polled)
      λ _ u polled. (
        refl,
        polled.0,
        12,
        ap (λ v. store (mmio (uart_reg base uart_baud_rate_config)) 12 ∷ v) polled.1,
        omega arith,
        omega arith,
      )

-- ===== src/Serial/Read.antt =====
-- SerialPortRead: which bytes it takes from the receiver, and when it stops.
use apple_silicon_platforms.Prelude.{
  rev_onto, ℕ, zero, suc, ◌+◌, ◌%◌, ◌^◌, ◌≤◌, ◌≡◌, ◌⊎◌, refl, sym, ap, ◌∙◌, List, [], ◌∷◌, ◌++◌,
  length, ◌==◌, ==-false, ==_iff, if◌then◌else◌, arith, Bool-cases, inl, inr,
}
use apple_silicon_platforms.Platform.Io.{Device, Trace, Returns, Returns-weaken, load, mmio}
use apple_silicon_platforms.Serial.{
  uart_reg, uart_transfer_status, uart_rx_byte, transfer_status_rxd, serial_port_poll, read_bytes,
  serial_port_read,
}
use apple_silicon_platforms.Serial.Write.{status_bits}

-- The bytes that the receive register gave, newest first.
abbrev pub received : ℕ → Device → Trace → List ℕ
received base d [] = []
received base d (load (mmio a) ∷ t) =
    if a == uart_reg base uart_rx_byte
    then d.value t (mmio a) % 2 ^ 32 % 2 ^ 8 ∷ received base d t
    else received base d t
received base d (_ ∷ t) = received base d t

-- The newest event is a read of the status register that showed no byte.
abbrev pub EndsEmpty : ℕ → Device → Trace → Type 0
EndsEmpty base d u =
    (w : Trace) × (u ≡ load (mmio (uart_reg base uart_transfer_status)) ∷ w)
    × (status_bits d base transfer_status_rxd w ≡ 0)

append_nil : (xs : List ℕ) → xs ++ [] ≡ xs
append_nil [] = refl
append_nil (x ∷ xs) = ap (λ ys. x ∷ ys) (append_nil xs)

append_assoc : (xs ys zs : List ℕ) → (xs ++ ys) ++ zs ≡ xs ++ (ys ++ zs)
append_assoc [] ys zs = refl
append_assoc (x ∷ xs) ys zs = ap (λ us. x ∷ us) (append_assoc xs ys zs)

module _ (base : ℕ) (d : Device) where
  received-status :
      (t : Trace)
      → received base d (load (mmio (uart_reg base uart_transfer_status)) ∷ t) ≡ received base d t
  received-status t =
      rw (==-false (uart_reg base uart_transfer_status) (uart_reg base uart_rx_byte) (omega arith))
        refl

  received-byte :
      (t : Trace)
      → received base d (load (mmio (uart_reg base uart_rx_byte)) ∷ t)
        ≡ d.value t (mmio (uart_reg base uart_rx_byte)) % 2 ^ 32 % 2 ^ 8 ∷ received base d t
  received-byte t =
      rw ((==_iff (uart_reg base uart_rx_byte) (uart_reg base uart_rx_byte)).1 refl) refl

  -- What `rounds` rounds of the loop from `t` on add to the count and the buffer.
  abbrev Took : ℕ → ℕ → List ℕ → Trace → ℕ × List ℕ → Trace → Type 0
  Took rounds count buffer t r u =
      (bytes : List ℕ) × (r.0 ≡ count + length bytes)
      × (r.1 ≡ buffer ++ bytes)
      × (length bytes ≤ rounds)
      × (received base d u ≡ rev_onto bytes (received base d t))
      × ((length bytes ≡ rounds) ⊎ EndsEmpty base d u)

  -- The trace behind a round that takes a byte, and the byte.
  abbrev after_byte : Trace → Trace
  after_byte t =
      load (mmio (uart_reg base uart_rx_byte))
      ∷ load (mmio (uart_reg base uart_transfer_status))
      ∷ t

  abbrev byte_after : Trace → ℕ
  byte_after t =
      d.value (load (mmio (uart_reg base uart_transfer_status)) ∷ t)
        (mmio (uart_reg base uart_rx_byte))
      % 2 ^ 32
      % 2 ^ 8

  one_more :
      (rounds count : ℕ) (buffer : List ℕ) (t : Trace) (r : ℕ × List ℕ) (u : Trace)
      → Took rounds (count + 1) (buffer ++ (byte_after t ∷ [])) (after_byte t) r u
      → Took (suc rounds) count buffer t r u
  one_more rounds count buffer t r u (bytes, counted, stored, few, same, stop) = (
    byte_after t ∷ bytes,
    omega (arith, counted),
    stored ∙ append_assoc buffer (byte_after t ∷ []) bytes,
    omega (arith, few),
    same
        ∙ ap (rev_onto bytes) (
            received-byte (load (mmio (uart_reg base uart_transfer_status)) ∷ t)
            ∙ ap (λ bs. byte_after t ∷ bs) (received-status t)),
    elim stop [ inl e ↦ inl (ap suc e) | inr h ↦ inr h ],
  )

  read_bytes-Took :
      (rounds count : ℕ) (buffer : List ℕ) (t : Trace)
      → Returns (Took rounds count buffer t) (read_bytes base rounds count buffer d t)
  unfolding read_bytes serial_port_poll
  read_bytes-Took zero count buffer t =
      ([], omega arith, sym (append_nil buffer), omega arith, refl, inl refl)
  read_bytes-Took (suc rounds) count buffer t =
      elim (Bool-cases (status_bits d base transfer_status_rxd t == 0)) [
        | inl empty ↦ rw empty (
          [],
          omega arith,
          sym (append_nil buffer),
          omega arith,
          received-status t,
          inr (t, refl, (==_iff _ 0).0 empty),
        )
        | inr waiting ↦ rw waiting (
            Returns-weaken (Took rounds (count + 1) (buffer ++ (byte_after t ∷ [])) (after_byte t))
              (Took (suc rounds) count buffer t)
              (read_bytes base rounds (count + 1) (buffer ++ (byte_after t ∷ [])) d (after_byte t))
              (read_bytes-Took rounds (count + 1) (buffer ++ (byte_after t ∷ [])) (after_byte t))
              (one_more rounds count buffer t))
      ]

  -- SerialPortRead of `n` bytes comes to its end with at most `n` bytes: the count that it returns
  -- is their number, they are what the receive register gave, in that order, and the call stops
  -- short of `n` only behind a read of the status register that shows no byte.
  pub serial_port_read_lem :
      (n : ℕ) (t : Trace)
      → Returns
          (λ r u.
            (r.0 ≡ length r.1)
            × (r.0 ≤ n)
            × (received base d u ≡ rev_onto r.1 (received base d t))
            × ((r.0 ≡ n) ⊎ EndsEmpty base d u))
          (serial_port_read base n d t)
  unfolding serial_port_read
  serial_port_read_lem n t =
      Returns-weaken (Took n 0 [] t) _ (read_bytes base n 0 [] d t) (read_bytes-Took n 0 [] t)
        λ r u took. from_start r u took
    where
      from_start :
          (r : ℕ × List ℕ) (u : Trace)
          → Took n 0 [] t r u
          → (r.0 ≡ length r.1)
            × (r.0 ≤ n)
            × (received base d u ≡ rev_onto r.1 (received base d t))
            × ((r.0 ≡ n) ⊎ EndsEmpty base d u)
      from_start r u (bytes, counted, stored, few, same, stop) = (
        omega (arith, counted, ap length (sym stored)),
        omega (arith, counted),
        same ∙ ap (λ bs. rev_onto bs (received base d t)) (sym stored),
        elim stop [ inl e ↦ inl (omega (arith, counted, e)) | inr h ↦ inr h ],
      )

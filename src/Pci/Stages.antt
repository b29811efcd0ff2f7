-- ===== src/Pci/Stages.antt =====
-- How the stages of a port's bring-up compose: each ends, in bounded time, whatever the device.
use apple_silicon_platforms.Prelude.{
  ℕ, ◌+◌, ◌*◌, ◌^◌, ◌<◌, ◌≡◌, refl, true, false, some, [], ◌∷◌, if◌then◌else◌, arith, inl, inr,
}
use apple_silicon_platforms.Platform.Io.{
  Io, Device, Trace, Returns, Returns-proceed, Returns-weaken, delay, pure, ◌>>=◌,
}
use apple_silicon_platforms.Gpio.{
  GpioController, GpioMode, mode_value, get_gpio, set_gpio, get_register,
}
use apple_silicon_platforms.Gpio.Modes.{locate_pin_single, set_gpio_single}
use apple_silicon_platforms.Pci.Regs.{
  pcie_set_bits, pcie_clear_bits, poll_bit, is_t602x, micro_second_delay,
}
use apple_silicon_platforms.Pci.Port.{unless_t602x}
use apple_silicon_platforms.Pci.Polling.{
  Seen, true≢false, Later, Later-trans, poll_bit_lem, PollResult,
}

-- The run ends, waits for at most `c` microseconds, and `R` holds of its result and trace.
abbrev pub Stage : {A : Type 0} → Device → ℕ → (A → Trace → Type 0) → Io A → Type 0
Stage d c R m = (t : Trace) → Returns (λ a u. R a u × Later c t u) (m d t)

abbrev pub Anything : {A : Type 0} → A → Trace → Type 0
Anything a u = Unit {0}

module _ {A B : Type 0} (d : Device) (a b : ℕ) (R : A → Trace → Type 0)
    (S : B → Trace → Type 0) where
  -- A run behind a stage, which may use what the stage has shown.
  pub proceed_at :
      (m : Io A) (f : A → Io B) (t : Trace)
      → Returns (λ x u. R x u × Later a t u) (m d t)
      → ((x : A) (u : Trace) → R x u → Later a t u → Returns (λ y v. S y v × Later b u v) (f x d u))
      → Returns (λ y v. S y v × Later (a + b) t v) ((m >>= f) d t)
  proceed_at m f t h k =
      Returns-proceed (λ x u. R x u × Later a t u) (λ y v. S y v × Later (a + b) t v) (m d t) f d h
        λ x u r.
          Returns-weaken (λ y v. S y v × Later b u v) (λ y v. S y v × Later (a + b) t v) (f x d u)
            (k x u r.0 r.1) (λ y v s. (s.0, Later-trans a b t u v r.1 s.1))

  pub Stage-proceed :
      (m : Io A) (f : A → Io B)
      → Stage d a R m
      → ((x : A) (u : Trace) → R x u → Returns (λ y v. S y v × Later b u v) (f x d u))
      → Stage d (a + b) S (m >>= f)
  Stage-proceed m f h k t = proceed_at m f t (h t) (λ x u r later. k x u r)

module _ {B : Type 0} (d : Device) (b : ℕ) (S : B → Trace → Type 0) where
  -- A step that shows nothing.
  pub after :
      {A : Type 0} (a : ℕ) (m : Io A) (f : A → Io B)
      → Stage d a Anything m
      → ((x : A) → Stage d b S (f x))
      → Stage d (a + b) S (m >>= f)
  after a m f h k = Stage-proceed d a b Anything S m f h (λ x u r. k x u)

module _ (d : Device) where
  pub set_bits_stage : (bits address : ℕ) → Stage d 0 Anything (pcie_set_bits bits address)
  unfolding pcie_set_bits
  set_bits_stage bits address t = (tt, (_ ∷ _ ∷ _ ∷ [], refl, omega arith))

  pub clear_bits_stage : (bits address : ℕ) → Stage d 0 Anything (pcie_clear_bits bits address)
  unfolding pcie_clear_bits
  clear_bits_stage bits address t = (tt, (_ ∷ _ ∷ _ ∷ [], refl, omega arith))

  pub nothing_stage : Stage d 0 Anything (pure tt)
  nothing_stage t = (tt, ([], refl, omega arith))

  pub delay_stage : (n : ℕ) → Stage d n Anything (micro_second_delay n)
  unfolding micro_second_delay
  delay_stage n t = (tt, (delay n ∷ [], refl, omega arith))

  pub unless_stage :
      (soc : ℕ) (m : Io (Unit {0})) → Stage d 0 Anything m → Stage d 0 Anything (unless_t602x soc m)
  unfolding unless_t602x
  unless_stage soc m h =
      elim (is_t602x soc) as (λ b. Stage d 0 Anything (if b then pure tt else m)) [
        | true ↦ nothing_stage
        | false ↦ h
      ]

  pub poll_stage :
      (bound address mask : ℕ)
      → Stage d
          ((bound + 1) * 100)
          (λ ok u. ok ≡ true → Seen d address mask u)
          (poll_bit bound address mask)
  poll_stage bound address mask t =
      Returns-weaken (PollResult d address mask bound t) _ (poll_bit bound address mask d t)
        (poll_bit_lem d address mask bound t)
        (λ ok u h. (λ e. elim h.0 [ inl p ↦ p.1 | inr q ↦ absurd (true≢false e q.0) ], h.1))

-- The reset pin is one of the controller's.
module _ (d : Device) (c : GpioController) (pin : ℕ) (first : c.gpio_index ≡ 0)
    (small : c.internal_gpio_count < 2 ^ 64) (in_range : pin < c.internal_gpio_count) where
  pub set_gpio_stage :
      (mode : GpioMode) (v : ℕ)
      → mode_value mode ≡ some v
      → Stage d 0 Anything (set_gpio (c ∷ []) pin mode)
  set_gpio_stage mode v e t =
      rw (set_gpio_single c pin first small in_range mode v d t e)
        (tt, (_ ∷ _ ∷ [], refl, omega arith))

  pub get_gpio_stage : Stage d 0 Anything (get_gpio (c ∷ []) pin true)
  unfolding get_gpio get_register
  get_gpio_stage t =
      rw (locate_pin_single c pin first small in_range d t) (tt, (_ ∷ [], refl, omega arith))

-- ===== src/Pci/Handshake.antt =====
-- The bring-up of a port whose reset pin belongs to the controller that the GPIO driver sets up:
-- it always comes to its end, in bounded time, and it succeeds only behind the three handshakes.
use apple_silicon_platforms.Prelude.{
  ℕ, ◌+◌, ◌%◌, ◌^◌, ◌≤◌, ◌<◌, ◌≡◌, ◌⊎◌, refl, Bool, true, false, not, some, List, [], ◌∷◌, ◌++◌,
  get_elem?, ◌==◌, if◌then◌else◌, arith, inl, inr,
}
use apple_silicon_platforms.Platform.Status.{Status, success, timeout, is_error}
use apple_silicon_platforms.Platform.Io.{
  Io, Device, Trace, Event, Occurs, Returns, Returns-weaken, store, call, mmio, pure, ◌>>=◌,
  allocate_pool, locate_gpio,
}
use apple_silicon_platforms.Platform.Adt.{Adt}
use apple_silicon_platforms.Gpio.{GpioController, output0, output1, mode_value, get_gpio, set_gpio}
use apple_silicon_platforms.Pci.Regs.{
  PcieComplexInfo, PciePortInfo, core_phy_default_base, phy_lane_cfg, refclk0ack, refclk1ack,
  port_ltssmctl, port_ltssmctl_start, port_linksts, port_linksts_up, refclkcgen, port_refclk,
  port_refclk_cgdis, port_appclk, port_appclk_cgdis, port_status, port_status_ready, reg_at,
  pcie_set_bits, pcie_clear_bits, poll_bit, is_t602x, micro_second_delay,
}
use apple_silicon_platforms.Pci.Port.{
  unless_t602x, assert_perst, request_refclk0, request_refclk1, release_perst, start_link,
  finish_link, bring_up, describe_port, get_reset_gpios, setup_pcie_port,
}
use apple_silicon_platforms.Pci.Polling.{Seen, waited, Later, Later-trans, Later-waited, Seen-Later}
use apple_silicon_platforms.Pci.Stages.{
  Stage, Anything, Stage-proceed, proceed_at, after, set_bits_stage, clear_bits_stage,
  nothing_stage, delay_stage, unless_stage, poll_stage, set_gpio_stage, get_gpio_stage,
}

Occurs-Later : (e : Event) (c : ℕ) (t u : Trace) → Later c t u → Occurs e t → Occurs e u
Occurs-Later e c t u (w, same, h) found = rw same (on_top w)
  where
    on_top : (w : Trace) → Occurs e (w ++ t)
    on_top [] = found
    on_top (x ∷ w) = inr (on_top w)

value_of_output0 : mode_value output0 ≡ some 2
unfolding mode_value
value_of_output0 = refl

value_of_output1 : mode_value output1 ≡ some 3
unfolding mode_value
value_of_output1 = refl

-- What a success of the bring-up stands for: reads that showed both clock acknowledgements and the
-- port's ready bit, and the start of the link training.
abbrev pub IsHandshaken : Device → PciePortInfo → Trace → Type 0
IsHandshaken d port u =
    Seen d (reg_at port.device_phy_base phy_lane_cfg) refclk0ack u
    × Seen d (reg_at port.device_phy_base phy_lane_cfg) refclk1ack u
    × Seen d (reg_at port.device_base port_status) port_status_ready u
    × Occurs (store (mmio (reg_at port.device_base port_ltssmctl)) port_ltssmctl_start) u

abbrev pub BringUp : Device → PciePortInfo → Status → Trace → Type 0
BringUp d port status u = ((status ≡ success) × IsHandshaken d port u) ⊎ (status ≡ timeout)

module _ (d : Device) (c : GpioController) (soc : ℕ) (port : PciePortInfo)
    (first : c.gpio_index ≡ 0) (small : c.internal_gpio_count < 2 ^ 64)
    (in_range : port.reset_gpio.gpio_num < c.internal_gpio_count) where
  assert_perst_stage : Stage d 0 Anything (assert_perst (c ∷ []) port)
  unfolding assert_perst
  assert_perst_stage = after d 0 Anything 0 (pcie_set_bits _ _) _ (set_bits_stage d _ _) λ _.
      after d 0 Anything 0 (get_gpio (c ∷ []) _ true) _ (get_gpio_stage d c _ first small in_range)
        λ _.
          after d 0 Anything 0 (set_gpio (c ∷ []) _ output0) _
            (set_gpio_stage d c _ first small in_range output0 2 value_of_output0)
            λ _.
              after d 0 Anything 0 (get_gpio (c ∷ []) _ true) _
                (get_gpio_stage d c _ first small in_range) λ _. nothing_stage d

  abbrev Acked : ℕ → ℕ → Bool → Trace → Type 0
  Acked address mask ok u = ok ≡ true → Seen d address mask u

  request_refclk0_stage :
      Stage d 50100
        (Acked (reg_at port.device_phy_base phy_lane_cfg) refclk0ack)
        (request_refclk0 soc port)
  unfolding request_refclk0
  request_refclk0_stage =
      after d 50100 (Acked (reg_at port.device_phy_base phy_lane_cfg) refclk0ack) 0
        (unless_t602x soc _) _ (unless_stage d soc _ (set_bits_stage d _ _))
        λ _.
          after d 50100 (Acked (reg_at port.device_phy_base phy_lane_cfg) refclk0ack) 0
            (pcie_set_bits _ _) _ (set_bits_stage d _ _) λ _. poll_stage d 500 _ refclk0ack

  request_refclk1_stage :
      Stage d 50100
        (Acked (reg_at port.device_phy_base phy_lane_cfg) refclk1ack)
        (request_refclk1 port)
  unfolding request_refclk1
  request_refclk1_stage =
      after d 50100 (Acked (reg_at port.device_phy_base phy_lane_cfg) refclk1ack) 0
        (pcie_set_bits _ _) _ (set_bits_stage d _ _) λ _. poll_stage d 500 _ refclk1ack

  release_perst_stage :
      Stage d 350200
        (Acked (reg_at port.device_base port_status) port_status_ready)
        (release_perst (c ∷ []) soc port)
  unfolding release_perst
  release_perst_stage =
      after d 350200 (Acked (reg_at port.device_base port_status) port_status_ready) 0
        (unless_t602x soc _) _ (unless_stage d soc _ (clear_bits_stage d _ _))
        λ _.
          after d 350200 (Acked (reg_at port.device_base port_status) port_status_ready) 0
            (pcie_set_bits _ _) _ (set_bits_stage d _ _)
            λ _.
              after d 350200 (Acked (reg_at port.device_base port_status) port_status_ready) 0
                (unless_t602x soc _) _ (unless_stage d soc _ (set_bits_stage d _ _))
                λ _.
                  after d 350100 (Acked (reg_at port.device_base port_status) port_status_ready) 100
                    (micro_second_delay 100) _ (delay_stage d 100)
                    λ _.
                      after d 350100 (Acked (reg_at port.device_base port_status) port_status_ready)
                        0 (pcie_set_bits _ _) _ (set_bits_stage d _ _)
                        λ _.
                          after d 350100
                            (Acked (reg_at port.device_base port_status) port_status_ready) 0
                            (set_gpio (c ∷ []) _ output1) _
                            (set_gpio_stage d c _ first small in_range output1 3 value_of_output1)
                            λ _.
                              after d 250100
                                (Acked (reg_at port.device_base port_status) port_status_ready)
                                100000 (micro_second_delay 100000) _ (delay_stage d 100000)
                                λ _. poll_stage d 2500 _ port_status_ready

  abbrev Succeeds : Status → Trace → Type 0
  Succeeds status u = status ≡ success

  finish_link_stage : Stage d 100100 Succeeds (finish_link soc port)
  unfolding finish_link
  finish_link_stage =
      Stage-proceed d 100100 0 (Acked (reg_at port.device_base port_linksts) port_linksts_up)
        Succeeds (poll_bit 1000 (reg_at port.device_base port_linksts) port_linksts_up) _
        (poll_stage d 1000 (reg_at port.device_base port_linksts) port_linksts_up)
        λ up u r. clocks (is_t602x soc) u
    where
      last : Stage d 0 Succeeds (
          pcie_clear_bits port_appclk_cgdis (reg_at port.device_base port_appclk) >>= λ _.
          pure success)
      last =
          after d 0 Succeeds 0 (pcie_clear_bits port_appclk_cgdis _) (λ _. pure success)
            (clear_bits_stage d port_appclk_cgdis _) (λ _ t. (refl, ([], refl, omega arith)))

      clocks :
          (b : Bool)
          → Stage d 0 Succeeds (
              (if b
                then pcie_set_bits refclkcgen (reg_at port.device_phy_base phy_lane_cfg)
                else pcie_clear_bits port_refclk_cgdis (reg_at port.device_base port_refclk))
              >>= λ _.
                  pcie_clear_bits port_appclk_cgdis (reg_at port.device_base port_appclk) >>= λ _.
                  pure success)
      clocks true =
          after d 0 Succeeds 0 (pcie_set_bits refclkcgen _) _ (set_bits_stage d refclkcgen _)
            (λ _. last)
      clocks false =
          after d 0 Succeeds 0 (pcie_clear_bits port_refclk_cgdis _) _
            (clear_bits_stage d port_refclk_cgdis _) (λ _. last)

  abbrev started : Trace → Trace
  started u = store (mmio (reg_at port.device_base port_ltssmctl)) port_ltssmctl_start ∷ u

  -- Behind the ready bit.
  start_link-BringUp :
      (u : Trace)
      → Seen d (reg_at port.device_phy_base phy_lane_cfg) refclk0ack u
      → Seen d (reg_at port.device_phy_base phy_lane_cfg) refclk1ack u
      → Seen d (reg_at port.device_base port_status) port_status_ready u
      → Returns (λ s v. BringUp d port s v × Later 100100 u v) (start_link soc port d u)
  unfolding start_link
  start_link-BringUp u ack0 ack1 ready =
      Returns-weaken (λ s v. (s ≡ success) × Later 100100 (started u) v)
        (λ s v. BringUp d port s v × Later 100100 u v) (finish_link soc port d (started u))
        (finish_link_stage (started u))
        (λ s v h. (
          inl (h.0, at_end v h.1),
          Later-trans 0 100100 u (started u) v (_ ∷ [], refl, omega arith) h.1,
        ))
    where
      at_end : (v : Trace) → Later 100100 (started u) v → IsHandshaken d port v
      at_end v later = (
        Seen-Later d _ refclk0ack 100100 (started u) v later (inr ack0),
        Seen-Later d _ refclk1ack 100100 (started u) v later (inr ack1),
        Seen-Later d _ port_status_ready 100100 (started u) v later (inr ready),
        Occurs-Later _ 100100 (started u) v later (inl refl),
      )

  -- The end of a stage that may time out: `rest` goes on behind a success.
  stop_or :
      (b : ℕ) (ok : Bool) (rest : Io Status) (u : Trace)
      → (ok ≡ true → Returns (λ s v. BringUp d port s v × Later b u v) (rest d u))
      → Returns
          (λ s v. BringUp d port s v × Later b u v)
          ((if not ok then pure timeout else rest) d u)
  stop_or b true rest u h = h refl
  stop_or b false rest u h = (inr refl, ([], refl, omega arith))

  -- The bring-up of a port, its reset pin being one of the controller's: on any device it comes to
  -- its end, having waited for at most 550500 microseconds, with a timeout, or else with a success
  -- behind reads that showed both clock acknowledgements and the ready bit, and behind the start
  -- of the link training.
  bring_up_lem :
      (t : Trace)
      → Returns (λ s v. BringUp d port s v × Later 550500 t v) (bring_up (c ∷ []) soc port d t)
  unfolding bring_up
  bring_up_lem t =
      after d 550500 (BringUp d port) 0 (assert_perst (c ∷ []) port) _ assert_perst_stage
        (λ _.
          Stage-proceed d 50100 500400 (Acked (reg_at port.device_phy_base phy_lane_cfg) refclk0ack)
            (BringUp d port) (request_refclk0 soc port) _ request_refclk0_stage
            λ ok0 u0 r0. stop_or 500400 ok0 _ u0 λ e0. second u0 (r0 e0))
        t
    where
      third :
          (u : Trace)
          → Seen d (reg_at port.device_phy_base phy_lane_cfg) refclk0ack u
          → Seen d (reg_at port.device_phy_base phy_lane_cfg) refclk1ack u
          → Returns
              (λ s v. BringUp d port s v × Later 450300 u v)
              ((release_perst (c ∷ []) soc port >>= λ ready.
                  if not ready then pure timeout else start_link soc port)
                d u)
      third u ack0 ack1 =
          proceed_at d 350200 100100 (Acked (reg_at port.device_base port_status) port_status_ready)
            (BringUp d port) (release_perst (c ∷ []) soc port) _ u (release_perst_stage u)
            λ ok v r later. stop_or 100100 ok _ v λ e.
              start_link-BringUp v (Seen-Later d _ refclk0ack 350200 u v later ack0)
                (Seen-Later d _ refclk1ack 350200 u v later ack1) (r e)

      second :
          (u : Trace)
          → Seen d (reg_at port.device_phy_base phy_lane_cfg) refclk0ack u
          → Returns
              (λ s v. BringUp d port s v × Later 500400 u v)
              ((request_refclk1 port >>= λ acked1.
                  if not acked1
                  then pure timeout
                  else (release_perst (c ∷ []) soc port >>= λ ready.
                      if not ready then pure timeout else start_link soc port))
                d u)
      second u ack0 =
          proceed_at d 50100 450300 (Acked (reg_at port.device_phy_base phy_lane_cfg) refclk1ack)
            (BringUp d port) (request_refclk1 port) _ u (request_refclk1_stage u)
            λ ok v r later.
              stop_or 450300 ok _ v
                λ e. third v (Seen-Later d _ refclk0ack 50100 u v later ack0) (r e)

-- The port that the driver describes for bridge `index`, with its base and words 2 and 3 of
-- `function-perst`.
abbrev pub described : PcieComplexInfo → ℕ → ℕ → ℕ → ℕ → PciePortInfo
described complex index base num polarity = record {
  device_base = base;
  device_phy_base = (complex.rc_region_base + core_phy_default_base index % 2 ^ 32) % 2 ^ 64;
  reset_gpio = record {
    gpio_num = num % 2 ^ 32;
    gpio_active_polarity = if polarity % 2 ^ 32 == 0 then 1 else 0;
  };
}

-- AppleSiliconPciePlatformDxeSetupPciePort of a bridge with memory for its data, a GPIO protocol, a
-- `function-perst` whose word 2 is a pin of the controller, and an index within the four port
-- bases, on any device: it comes to its end within 550500 microseconds of waiting, with EFI_TIMEOUT,
-- or with EFI_SUCCESS and then only where reads of the port's registers have shown both clock
-- acknowledgements and the ready bit, and the start of the link training was written.
pub setup_pcie_port_lem :
    (adt : Adt) (d : Device) (c : GpioController) (soc : ℕ) (complex : PcieComplexInfo)
    (sub_node index base num polarity : ℕ) (perst : List ℕ) (t : Trace)
    → c.gpio_index ≡ 0
    → c.internal_gpio_count < 2 ^ 64
    → is_error (d.reply t (allocate_pool 48)) ≡ false
    → is_error (d.reply (call (allocate_pool 48) ∷ t) locate_gpio) ≡ false
    → adt.words sub_node "function-perst" ≡ some perst
    → get_elem? perst 2 ≡ some num
    → get_elem? perst 3 ≡ some polarity
    → num % 2 ^ 32 < c.internal_gpio_count
    → get_elem? complex.port_region_base index ≡ some base
    → Returns
        (λ status u.
          BringUp d (described complex index base num polarity) status u
          × (waited u ≤ waited t + 550500))
        (setup_pcie_port adt (c ∷ []) soc complex (some sub_node) index d t)
unfolding setup_pcie_port describe_port get_reset_gpios
setup_pcie_port_lem adt d c soc complex sub_node index base num polarity perst t first small room
      located words num_at pol_at in_range base_at =
    rw located (
      rw room (
        rw words (
          rw num_at (
            rw pol_at (
              rw base_at (
                Returns-weaken
                  (λ s v.
                    BringUp d (described complex index base num polarity) s v
                    × Later 550500 (call locate_gpio ∷ call (allocate_pool 48) ∷ t) v)
                  _
                  (bring_up (c ∷ []) soc (described complex index base num polarity) d
                    (call locate_gpio ∷ call (allocate_pool 48) ∷ t))
                  (bring_up_lem d c soc (described complex index base num polarity) first small
                    in_range (call locate_gpio ∷ call (allocate_pool 48) ∷ t))
                  (λ s v h. (
                    h.0,
                    Later-waited 550500 (call locate_gpio ∷ call (allocate_pool 48) ∷ t) v h.1,
                  ))))))))

-- ===== src/Usb/Confined.antt =====
-- Which registers the USB Type-C driver writes.
use apple_silicon_platforms.Prelude.{
  ℕ, zero, suc, ◌+◌, ◌%◌, ◌^◌, ◌≤◌, ◌<◌, ◌≡◌, ◌≢◌, refl, false, ◌||◌, some, [], ◌∷◌, ◌==◌, bit_and,
  arith, inl, inr, Bool-cases, Option-cases,
}
use Prim.Native.String.{String}
use apple_silicon_platforms.Platform.Status.{is_error}
use apple_silicon_platforms.Platform.Io.{
  Device, Trace, mmio, store, call, close_event, Returns, Returns-proceed,
}
use apple_silicon_platforms.Platform.Adt.{Adt}
use apple_silicon_platforms.Usb.Bringup.{
  dwc3_reg_offset, dwc3_gsnpsid_mask, dwc3_synopsys_alt_id, g_snps_id, g_ctl, g_usb2_phy_cfg,
  g_usb3_pipe_ctl, g_fl_adj, g_s_bus_cfg0, g_s_bus_cfg1, offset_by, dwc3_xhci_set_beat_burst_length,
  dwc3_set_fladj, dwc3_set_mode, dwc3_apple_setup_cio, dwc3_controller_soft_reset,
  dwc3_xhci_core_init, finish_usb_controller, initialize_usb_controller, register_controller,
  bringup_controllers, bringup_callback,
}

-- Each register that is written is one of `P`.
abbrev pub StoresIn : (ℕ → Type 0) → Trace → Type 0
StoresIn P [] = Unit {0}
StoresIn P (store (mmio a) v ∷ t) = P a × StoresIn P t
StoresIn P (_ ∷ t) = StoresIn P t

-- The window of a controller: from its global registers to those for CIO, as a 64-bit address.
abbrev pub InWindow : ℕ → ℕ → Type 0
InWindow base a =
    (offset : ℕ) × (dwc3_reg_offset ≤ offset) × (offset < 0xCD44) × (a ≡ (base + offset) % 2 ^ 64)

offset_by-twice : (base a b : ℕ) → offset_by (offset_by base a) b ≡ (base + (a + b)) % 2 ^ 64
offset_by-twice base a b = omega arith

-- The run ends, and the registers written are those of `P`.
abbrev pub Confined : {A : Type 0} → (ℕ → Type 0) → A → Trace → Type 0
Confined P x u = StoresIn P u

module _ (P : ℕ → Type 0) (d : Device) where
  module _ (base : ℕ) (window : (a : ℕ) → InWindow base a → P a) where
    -- A register behind the controller's address.
    behind : (r : ℕ) → r < 0xC44 → P (offset_by (offset_by base dwc3_reg_offset) r)
    behind r small = window _ (
      dwc3_reg_offset + r,
      omega arith,
      omega (arith, small),
      offset_by-twice base dwc3_reg_offset r,
    )

    finish_usb_controller-Confined :
        (t : Trace) → StoresIn P t → Returns (Confined P) (finish_usb_controller base d t)
    unfolding finish_usb_controller dwc3_apple_setup_cio dwc3_set_mode dwc3_set_fladj
        dwc3_xhci_set_beat_burst_length
    finish_usb_controller-Confined t s = (
      behind (g_s_bus_cfg1) (omega arith),
      (
        behind (g_s_bus_cfg0) (omega arith),
        (
          behind (g_fl_adj) (omega arith),
          (
            behind (g_ctl) (omega arith),
            (
              behind (g_usb2_phy_cfg) (omega arith),
              (
                window _ (0xCD40, omega arith, omega arith, refl),
                (
                  window _ (0xCD3C, omega arith, omega arith, refl),
                  (window _ (0xCD38, omega arith, omega arith, refl), s),
                ),
              ),
            ),
          ),
        ),
      ),
    )

    dwc3_xhci_core_init-Confined :
        (t : Trace)
        → StoresIn P t
        → Returns (Confined P) (dwc3_xhci_core_init (offset_by base dwc3_reg_offset) d t)
    unfolding dwc3_xhci_core_init dwc3_controller_soft_reset
    dwc3_xhci_core_init-Confined t s =
        elim (Bool-cases (
          bit_and (d.value t (mmio (offset_by (offset_by base dwc3_reg_offset) g_snps_id)) % 2 ^ 32)
            dwc3_gsnpsid_mask
          == dwc3_synopsys_alt_id)) [
            | inr e ↦ rw e s
            | inl e ↦ rw e (
              behind (g_ctl) (omega arith),
              (
                behind (g_ctl) (omega arith),
                (
                  behind (g_usb2_phy_cfg) (omega arith),
                  (
                    behind (g_usb3_pipe_ctl) (omega arith),
                    (
                      behind (g_usb2_phy_cfg) (omega arith),
                      (behind (g_usb3_pipe_ctl) (omega arith), (behind (g_ctl) (omega arith), s)),
                    ),
                  ),
                ),
              ),
            )
          ]

    initialize_usb_controller-Confined :
        (t : Trace) → StoresIn P t → Returns (Confined P) (initialize_usb_controller base d t)
    unfolding initialize_usb_controller
    initialize_usb_controller-Confined t s =
        Returns-proceed (Confined P) (Confined P)
          (dwc3_xhci_core_init (offset_by base dwc3_reg_offset) d t) _ d
          (dwc3_xhci_core_init-Confined t s)
          (λ status u k. elim (Bool-cases (is_error status)) [
            | inl e ↦ rw e k
            | inr e ↦ rw e (
                Returns-proceed (Confined P) (Confined P) (finish_usb_controller base d u) _ d
                  (finish_usb_controller-Confined u k) (λ _ v h. h))
          ])

module _ (adt : Adt) (print : String → ℕ → String) where
  -- A register of a controller that may be brought up: it is not controller 0, its node is in the
  -- tree, and the register lies in the window at the node's address.
  pub record IsControllerRegister (controllers : ℕ) (a : ℕ) : Type 0 where
    pub controller : ℕ
    pub node : ℕ
    pub base : ℕ
    pub in_range : controller < controllers
    pub not_dfu : controller ≢ 0
    pub present : adt.get (print "usb-drd%d" controller) ≡ some node
    pub address : adt.reg node 0 ≡ some base
    pub window : InWindow (base % 2 ^ 64) a

  module _ (controllers : ℕ) (d : Device)
      (addressed : (i node : ℕ)
        → adt.get (print "usb-drd%d" i) ≡ some node
        → (base : ℕ) × (adt.reg node 0 ≡ some base)) where
    register_controller-Confined :
        (i node old : ℕ) (t : Trace)
        → i < controllers
        → (i == 0 || i == 2) ≡ false
        → adt.get (print "usb-drd%d" i) ≡ some node
        → StoresIn (IsControllerRegister controllers) t
        → Returns
            (Confined (IsControllerRegister controllers))
            (register_controller adt node old d t)
    unfolding register_controller
    register_controller-Confined i node old t bound other at s =
        let (base, e) = addressed i node at in
        rw e (
          Returns-proceed (Confined (IsControllerRegister controllers))
            (Confined (IsControllerRegister controllers))
            (initialize_usb_controller (base % 2 ^ 64) d t) _ d
            (initialize_usb_controller-Confined (IsControllerRegister controllers) d (base % 2 ^ 64)
              (λ a w. record {
                controller = i;
                node = node;
                base = base;
                in_range = bound;
                not_dfu = ground arith;
                present = at;
                address = e;
                window = w;
              })
              t s)
            (λ status u k. k))

    bringup_controllers-Confined :
        (rounds i old : ℕ) (t : Trace)
        → i + rounds ≤ controllers
        → StoresIn (IsControllerRegister controllers) t
        → Returns
            (Confined (IsControllerRegister controllers))
            (bringup_controllers adt print rounds i old d t)
    unfolding bringup_controllers
    bringup_controllers-Confined zero i old t bound s = s
    bringup_controllers-Confined (suc rounds) i old t bound s =
        elim (Bool-cases (i == 0 || i == 2)) [
          | inl e ↦ rw e (bringup_controllers-Confined rounds (i + 1) old t (omega arith) s)
          | inr e ↦ elim (Option-cases (adt.get (print "usb-drd%d" i))) [
            | inl f ↦
                rw e (rw f (bringup_controllers-Confined rounds (i + 1) old t (omega arith) s))
            | inr (node, f) ↦ rw e (
                rw f (
                  Returns-proceed (Confined (IsControllerRegister controllers))
                    (Confined (IsControllerRegister controllers))
                    (register_controller adt node old d t) _ d
                    (register_controller-Confined i node old t (omega arith) e f s)
                    (λ base u k.
                      bringup_controllers-Confined rounds (i + 1) base u (omega arith) k)))
          ]
        ]

    -- The callback at the end of DXE ends, whatever the devices answer and however many controllers
    -- there are, where each node that is in the tree has an address; and each register that it has
    -- written is in the window, from the global registers to those for CIO, at the address of a
    -- controller's node that is in the tree, in 64-bit addresses; and that controller is not 0.
    pub bringup_callback-Confined :
        (old : ℕ)
        → Returns
            (Confined (IsControllerRegister controllers))
            (bringup_callback adt print controllers old d [])
    unfolding bringup_callback
    bringup_callback-Confined old =
        Returns-proceed (Confined (IsControllerRegister controllers))
          (Confined (IsControllerRegister controllers))
          (bringup_controllers adt print controllers 0 old d (call close_event ∷ [])) _ d
          (bringup_controllers-Confined controllers 0 old (call close_event ∷ []) (omega arith) tt)
          (λ base u k. k)

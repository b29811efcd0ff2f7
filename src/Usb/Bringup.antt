-- ===== src/Usb/Bringup.antt =====
-- AppleUsbTypeCBringupDxe.c, with the register structure and the constants of
-- Include/Drivers/AppleUsbTypeCBringupDxe.h. AsciiSPrint is a parameter.
use apple_silicon_platforms.Prelude.{
  ℕ, zero, suc, ◌+◌, ◌*◌, ◌/◌, ◌%◌, ◌^◌, ◌||◌, none, some, ◌==◌, ltb, if◌then◌else◌, bit_and,
  bit_or,
}
use Prim.Native.String.{String}
use apple_silicon_platforms.Platform.Status.{Status, success, not_found, device_error, is_error}
use apple_silicon_platforms.Platform.Io.{
  Io, pure, ◌>>=◌, ◌>>◌, emit, delay, barrier, close_event, create_event_ex, register_mmio_device,
  mmio_read32, mmio_write32, mmio_or32, mmio_and32, call_service, not32,
}
use apple_silicon_platforms.Platform.Adt.{Adt, node_reg}

-- DWC3_REG_OFFSET, and the offsets in DWC3_CONTROLLER
abbrev pub dwc3_reg_offset : ℕ
dwc3_reg_offset = 0xC100

abbrev pub g_s_bus_cfg0 : ℕ
g_s_bus_cfg0 = 0x0

abbrev pub g_s_bus_cfg1 : ℕ
g_s_bus_cfg1 = 0x4

abbrev pub g_ctl : ℕ
g_ctl = 0x10

abbrev pub g_snps_id : ℕ
g_snps_id = 0x20

abbrev pub g_hw_params1 : ℕ
g_hw_params1 = 0x44

abbrev pub g_usb2_phy_cfg : ℕ
g_usb2_phy_cfg = 0x100

abbrev pub g_usb3_pipe_ctl : ℕ
g_usb3_pipe_ctl = 0x1C0

abbrev pub g_fl_adj : ℕ
g_fl_adj = 0x530

-- The registers' fields
abbrev pub dwc3_gsnpsid_mask : ℕ
dwc3_gsnpsid_mask = 0xFFFF0000

abbrev pub dwc3_synopsys_alt_id : ℕ
dwc3_synopsys_alt_id = 0x33310000

abbrev pub dwc3_release_mask : ℕ
dwc3_release_mask = 0xFFFF

abbrev pub dwc3_release_190a : ℕ
dwc3_release_190a = 0x190A

abbrev pub dwc3_gctl_u2rstecn : ℕ
dwc3_gctl_u2rstecn = 2 ^ 16

abbrev pub dwc3_gctl_prtcapdir : ℕ → ℕ
dwc3_gctl_prtcapdir n = n * 2 ^ 12

abbrev pub dwc3_gctl_prtcap_host : ℕ
dwc3_gctl_prtcap_host = 1

abbrev pub dwc3_gctl_prtcap_otg : ℕ
dwc3_gctl_prtcap_otg = 3

abbrev pub dwc3_gctl_coresoftreset : ℕ
dwc3_gctl_coresoftreset = 2 ^ 11

abbrev pub dwc3_gctl_scaledown_mask : ℕ
dwc3_gctl_scaledown_mask = 3 * 2 ^ 4

abbrev pub dwc3_gctl_disscramble : ℕ
dwc3_gctl_disscramble = 2 ^ 3

abbrev pub dwc3_gctl_dsblclkgtng : ℕ
dwc3_gctl_dsblclkgtng = 2 ^ 0

abbrev pub dwc3_ghwparams1_en_pwropt : ℕ → ℕ
dwc3_ghwparams1_en_pwropt n = bit_and n (3 * 2 ^ 24) / 2 ^ 24

abbrev pub dwc3_ghwparams1_en_pwropt_clk : ℕ
dwc3_ghwparams1_en_pwropt_clk = 1

-- DWC3_GUSB2PHYCFG_PHYSOFTRST and DWC3_GUSB3PIPECTL_PHYSOFTRST
abbrev pub dwc3_physoftrst : ℕ
dwc3_physoftrst = 2 ^ 31

abbrev pub gfladj_30mhz_reg_sel : ℕ
gfladj_30mhz_reg_sel = 2 ^ 7

abbrev pub gfladj_30mhz : ℕ → ℕ
gfladj_30mhz n = bit_and n 0x3F

abbrev pub gfladj_30mhz_default : ℕ
gfladj_30mhz_default = 0x20

abbrev pub usb3_enable_beat_burst : ℕ
usb3_enable_beat_burst = 0xF

abbrev pub usb3_enable_beat_burst_mask : ℕ
usb3_enable_beat_burst_mask = 0xFF

abbrev pub usb3_set_beat_burst_limit : ℕ
usb3_set_beat_burst_limit = 0xF00

abbrev pub apple_dwc3_cio_lfps_offset : ℕ
apple_dwc3_cio_lfps_offset = 0xCD38

abbrev pub apple_dwc3_cio_bw_ngt_offset : ℕ
apple_dwc3_cio_bw_ngt_offset = 0xCD3C

abbrev pub apple_dwc3_cio_link_timer : ℕ
apple_dwc3_cio_link_timer = 0xCD40

-- UINTN arithmetic on an address, which wraps at 2^64
abbrev pub offset_by : ℕ → ℕ → ℕ
offset_by address offset = (address + offset) % 2 ^ 64

-- MmioAndThenOr32 of IoLib
abbrev pub mmio_and_then_or32 : ℕ → ℕ → ℕ → Io (Unit {0})
mmio_and_then_or32 a m n = do v ← mmio_read32 a; mmio_write32 a (bit_or (bit_and v m) n)

-- `controller` is the address of the DWC3_CONTROLLER.
unfoldable pub dwc3_xhci_set_beat_burst_length : ℕ → Io (Unit {0})
dwc3_xhci_set_beat_burst_length controller = do
  mmio_and_then_or32 (offset_by controller g_s_bus_cfg0) (not32 usb3_enable_beat_burst_mask)
      usb3_enable_beat_burst
  mmio_or32 (offset_by controller g_s_bus_cfg1) usb3_set_beat_burst_limit

unfoldable pub dwc3_set_fladj : ℕ → ℕ → Io (Unit {0})
dwc3_set_fladj controller value =
    mmio_or32 (offset_by controller g_fl_adj) (bit_or gfladj_30mhz_reg_sel (gfladj_30mhz value))

unfoldable pub dwc3_set_mode : ℕ → ℕ → Io (Unit {0})
dwc3_set_mode controller mode =
    mmio_and_then_or32 (offset_by controller g_ctl)
      (not32 (dwc3_gctl_prtcapdir dwc3_gctl_prtcap_otg)) (dwc3_gctl_prtcapdir mode)

-- Dwc3AppleSetupCio, of the base of the controller's registers
unfoldable pub dwc3_apple_setup_cio : ℕ → Io (Unit {0})
dwc3_apple_setup_cio base = do
  mmio_write32 (offset_by base apple_dwc3_cio_lfps_offset) 0x0F800F80
  mmio_write32 (offset_by base apple_dwc3_cio_bw_ngt_offset) 0x0FC00FC0
  mmio_and_then_or32 (offset_by base apple_dwc3_cio_link_timer) (not32 0x00FFFFFF) 0x00140A10

unfoldable pub dwc3_controller_soft_reset : ℕ → Io (Unit {0})
dwc3_controller_soft_reset controller = do
  mmio_or32 (offset_by controller g_ctl) dwc3_gctl_coresoftreset
  mmio_or32 (offset_by controller g_usb3_pipe_ctl) dwc3_physoftrst
  mmio_or32 (offset_by controller g_usb2_phy_cfg) dwc3_physoftrst
  emit barrier
  emit (delay (100 * 1000))
  mmio_and32 (offset_by controller g_usb3_pipe_ctl) (not32 dwc3_physoftrst)
  mmio_and32 (offset_by controller g_usb2_phy_cfg) (not32 dwc3_physoftrst)
  emit barrier
  emit (delay (100 * 1000))
  mmio_and32 (offset_by controller g_ctl) (not32 dwc3_gctl_coresoftreset)

-- The value of GCtl, from the revision, GHwParams1 and the old value
unfoldable pub core_control : ℕ → ℕ → ℕ → ℕ
core_control revision params old =
    let plain =
      bit_and (bit_and old (not32 dwc3_gctl_scaledown_mask)) (not32 dwc3_gctl_disscramble) in
    let gated =
      if dwc3_ghwparams1_en_pwropt params == dwc3_ghwparams1_en_pwropt_clk
      then bit_and plain (not32 dwc3_gctl_dsblclkgtng)
      else plain in
    if ltb (bit_and revision dwc3_release_mask) dwc3_release_190a
    then bit_or gated dwc3_gctl_u2rstecn
    else gated

-- Dwc3XhciCoreInit
unfoldable pub dwc3_xhci_core_init : ℕ → Io Status
dwc3_xhci_core_init controller = do
  revision ← mmio_read32 (offset_by controller g_snps_id)
  if bit_and revision dwc3_gsnpsid_mask == dwc3_synopsys_alt_id
      then (do
        dwc3_controller_soft_reset controller
        params ← mmio_read32 (offset_by controller g_hw_params1)
        old ← mmio_read32 (offset_by controller g_ctl)
        mmio_write32 (offset_by controller g_ctl) (core_control revision params old)
        pure success)
      else pure not_found

-- AppleUsbTypeCBringupDxeInitializeUsbController behind a successful Dwc3XhciCoreInit
unfoldable pub finish_usb_controller : ℕ → Io (Unit {0})
finish_usb_controller base = do
  dwc3_apple_setup_cio base
  phy ← mmio_read32 (offset_by (offset_by base dwc3_reg_offset) g_usb2_phy_cfg)
  mmio_write32 (offset_by (offset_by base dwc3_reg_offset) g_usb2_phy_cfg) phy
  dwc3_set_mode (offset_by base dwc3_reg_offset) dwc3_gctl_prtcap_host
  dwc3_set_fladj (offset_by base dwc3_reg_offset) gfladj_30mhz_default
  dwc3_xhci_set_beat_burst_length (offset_by base dwc3_reg_offset)

-- AppleUsbTypeCBringupDxeInitializeUsbController
unfoldable pub initialize_usb_controller : ℕ → Io Status
initialize_usb_controller base = do
  status ← dwc3_xhci_core_init (offset_by base dwc3_reg_offset)
  if is_error status then pure device_error else do finish_usb_controller base; pure status

-- One round of the callback's loop for a node that is there: the new Dwc3ControllerBaseAddr, from
-- the old one. The status of the bring-up is handed over as the initialisation callback.
unfoldable pub register_controller : Adt → ℕ → ℕ → Io ℕ
register_controller adt node old = do
  base ← node_reg adt (some node) 0 old
  status ← initialize_usb_controller base
  _ ← call_service (register_mmio_device base 0x100000 status)
  pure base

-- The callback's loop, with `rounds` controllers to go from `i` on; `print` is AsciiSPrint.
unfoldable pub bringup_controllers : Adt → (String → ℕ → String) → ℕ → ℕ → ℕ → Io ℕ
bringup_controllers adt print zero i base = pure base
bringup_controllers adt print (suc rounds) i base =
    let rest = bringup_controllers adt print rounds (i + 1) in
    if i == 0 || i == 2 then rest base else elim (adt.get (print "usb-drd%d" i)) [
      | none ↦ rest base
      | some node ↦ register_controller adt node base >>= rest
    ]

-- AppleUsbTypeCBringupDxeBringupCallback for PcdAppleNumDwc3Controllers; `base` is what
-- Dwc3ControllerBaseAddr holds before it is written.
unfoldable pub bringup_callback : Adt → (String → ℕ → String) → ℕ → ℕ → Io (Unit {0})
bringup_callback adt print controllers base = do
  _ ← call_service close_event
  _ ← bringup_controllers adt print controllers 0 base
  pure tt

-- AppleUsbTypeCBringupDxeInitialize
unfoldable pub usb_bringup_initialize : Io Status
usb_bringup_initialize = call_service create_event_ex

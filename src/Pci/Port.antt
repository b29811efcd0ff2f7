-- ===== src/Pci/Port.antt =====
-- AppleSiliconPciePlatformDxeSetupPciePort in its stages, and the driver's entry point. `soc` is
-- PcdAppleSocIdentifier, `controllers` the table behind the GPIO protocol.
use apple_silicon_platforms.Prelude.{
  ℕ, zero, suc, ◌+◌, ◌*◌, ◌%◌, ◌^◌, Bool, true, not, Option, none, some, List, [], ◌∷◌, get_elem?,
  set, ◌==◌, if◌then◌else◌,
}
use Prim.Native.String.{String}
use apple_silicon_platforms.Platform.Status.{Status, success, timeout, is_error}
use apple_silicon_platforms.Platform.Io.{
  Io, pure, ◌>>=◌, ◌>>◌, emit, crash, deref, asserted, mmio_write32, call_service, locate_gpio,
  allocate_pool, add_memory_space, set_memory_space_attributes,
}
use apple_silicon_platforms.Platform.Adt.{Adt, node_reg}
use apple_silicon_platforms.Gpio.{GpioController, output0, output1, get_gpio, set_gpio}
use apple_silicon_platforms.Pci.Regs.{
  PcieComplexInfo, PcieGpioDesc, PciePortInfo, core_phy_default_base, phy_lane_cfg, refclk0req,
  refclk1req, refclk0ack, refclk1ack, refclken, refclkcgen, phy_lane_ctl, phy_lane_ctl_cfgacc,
  port_ltssmctl, port_ltssmctl_start, port_linksts, port_linksts_up, port_appclk, port_appclk_en,
  port_appclk_cgdis, port_status, port_status_ready, port_refclk, port_refclk_en, port_refclk_cgdis,
  port_perst, port_t602x_perst, port_perst_off, reg_at, pcie_set_bits, pcie_clear_bits, poll_bit,
  is_t602x, micro_second_delay,
}

-- AppleSiliconPciePlatformDxeGetResetGpios: words 2 and 3 of `function-perst`
unfoldable pub get_reset_gpios : Adt → ℕ → Io PcieGpioDesc
get_reset_gpios adt sub_node = do
  perst ← deref (adt.words sub_node "function-perst")
  num ← deref (get_elem? perst 2)
  polarity ← deref (get_elem? perst 3)
  pure (record {
    gpio_num = num % 2 ^ 32;
    gpio_active_polarity = if polarity % 2 ^ 32 == 0 then 1 else 0;
  })

-- Clock on, and PERST# asserted through the reset pin
unfoldable pub assert_perst : List GpioController → PciePortInfo → Io (Unit {0})
assert_perst controllers port = do
  pcie_set_bits port_appclk_en (reg_at port.device_base port_appclk)
  before ← get_gpio controllers port.reset_gpio.gpio_num true
  status ← set_gpio controllers port.reset_gpio.gpio_num output0
  now ← get_gpio controllers port.reset_gpio.gpio_num true
  pure tt

-- A switch over the SoC whose cases 0x6020 to 0x6022 do nothing
unfoldable pub unless_t602x : ℕ → Io (Unit {0}) → Io (Unit {0})
unless_t602x soc step = if is_t602x soc then pure tt else step

-- Set up REFCLK, up to the loop for REFCLK0ACK
unfoldable pub request_refclk0 : ℕ → PciePortInfo → Io Bool
request_refclk0 soc port = do
  unless_t602x soc (pcie_set_bits phy_lane_ctl_cfgacc (reg_at port.device_phy_base phy_lane_ctl))
  pcie_set_bits refclk0req (reg_at port.device_phy_base phy_lane_cfg)
  poll_bit 500 (reg_at port.device_phy_base phy_lane_cfg) refclk0ack

unfoldable pub request_refclk1 : PciePortInfo → Io Bool
request_refclk1 port = do
  pcie_set_bits refclk1req (reg_at port.device_phy_base phy_lane_cfg)
  poll_bit 500 (reg_at port.device_phy_base phy_lane_cfg) refclk1ack

-- From the second switch on, up to the loop for PORT_STATUS_READY
unfoldable pub release_perst : List GpioController → ℕ → PciePortInfo → Io Bool
release_perst controllers soc port = do
  unless_t602x soc (pcie_clear_bits phy_lane_ctl_cfgacc (reg_at port.device_phy_base phy_lane_ctl))
  pcie_set_bits refclken (reg_at port.device_phy_base phy_lane_cfg)
  unless_t602x soc (pcie_set_bits port_refclk_en (reg_at port.device_base port_refclk))
  micro_second_delay 100
  pcie_set_bits port_perst_off
      (reg_at port.device_base (if is_t602x soc then port_t602x_perst else port_perst))
  status ← set_gpio controllers port.reset_gpio.gpio_num output1
  micro_second_delay 100000
  poll_bit 2500 (reg_at port.device_base port_status) port_status_ready

-- Behind the write of PORT_LTSSMCTL. The link may stay down: the code for that case is commented
-- out.
unfoldable pub finish_link : ℕ → PciePortInfo → Io Status
finish_link soc port = do
  link_up ← poll_bit 1000 (reg_at port.device_base port_linksts) port_linksts_up
  if is_t602x soc
      then pcie_set_bits refclkcgen (reg_at port.device_phy_base phy_lane_cfg)
      else pcie_clear_bits port_refclk_cgdis (reg_at port.device_base port_refclk)
  pcie_clear_bits port_appclk_cgdis (reg_at port.device_base port_appclk)
  pure success

unfoldable pub start_link : ℕ → PciePortInfo → Io Status
start_link soc port = do
  mmio_write32 (reg_at port.device_base port_ltssmctl) port_ltssmctl_start
  finish_link soc port

-- From `Begin bringing up the PCIe device` on
unfoldable pub bring_up : List GpioController → ℕ → PciePortInfo → Io Status
bring_up controllers soc port = do
  assert_perst controllers port
  acked0 ← request_refclk0 soc port
  if not acked0 then pure timeout else do
    acked1 ← request_refclk1 port
    if not acked1 then pure timeout else do
      ready ← release_perst controllers soc port
      if not ready then pure timeout else start_link soc port

-- The middle of AppleSiliconPciePlatformDxeSetupPciePort, from the lookup of the reset pin on, with
-- the port's data allocated or not: a failure is a write through NULL.
unfoldable pub describe_port : Adt → PcieComplexInfo → ℕ → ℕ → Status → Io PciePortInfo
describe_port adt complex sub_node index room = if is_error room then crash else do
  gpio ← get_reset_gpios adt sub_node
  base ← deref (get_elem? complex.port_region_base index)
  pure (record {
    device_base = base;
    device_phy_base = (complex.rc_region_base + core_phy_default_base index % 2 ^ 32) % 2 ^ 64;
    reset_gpio = gpio;
  })

-- AppleSiliconPciePlatformDxeSetupPciePort
unfoldable pub setup_pcie_port :
    Adt → List GpioController → ℕ → PcieComplexInfo → Option ℕ → ℕ → Io Status
setup_pcie_port adt controllers soc complex none index = pure success
setup_pcie_port adt controllers soc complex (some sub_node) index = do
  room ← call_service (allocate_pool 48)
  located ← call_service locate_gpio
  if is_error located
      then pure located
      else do port ← describe_port adt complex sub_node index room; bring_up controllers soc port

-- AsciiSPrint of "pci-bridge%d" for the indices that occur
unfoldable pub bridge_name : ℕ → String
bridge_name zero = "pci-bridge0"
bridge_name (suc zero) = "pci-bridge1"
bridge_name (suc (suc zero)) = "pci-bridge2"
bridge_name (suc (suc (suc _))) = "pci-bridge3"

-- ASSERT_EFI_ERROR
unfoldable pub assert_status : Status → Io (Unit {0})
assert_status status = if is_error status then emit asserted else pure tt

-- The loop over the ports, with `rounds` to go from port `i` on; PciePortIndex is equal to `i`.
unfoldable pub setup_ports :
    Adt → List GpioController → ℕ → Option ℕ → ℕ → ℕ → PcieComplexInfo → Io (Unit {0})
setup_ports adt controllers soc apcie zero i complex = pure tt
setup_ports adt controllers soc apcie (suc rounds) i complex = do
  old ← deref (get_elem? complex.port_region_base i)
  base ← node_reg adt apcie (6 + i * 5) old
  let complex1 = record complex { port_region_base = set complex.port_region_base i base }
  elim (adt.get (bridge_name i)) [
    | none ↦ pure tt
    | some sub_node ↦ (do
      status ← setup_pcie_port adt controllers soc complex1 (some sub_node) i
      assert_status status
      setup_ports adt controllers soc apcie rounds (i + 1) complex1)
  ]

-- The memory space of the emulated NVMe controller's configuration region
unfoldable pub add_ecam_space : Io (Unit {0})
add_ecam_space = do
  added ← call_service (add_memory_space 0x690000000 0x100000)
  if is_error added
      then pure tt
      else call_service (set_memory_space_attributes 0x690000000 0x100000) >>= λ _. pure tt

-- AppleSiliconPciPlatformDxeInitialize. Without memory for the complex's data the base of the rc
-- region goes through NULL.
unfoldable pub pci_platform_dxe_initialize : Adt → List GpioController → ℕ → Io Status
pci_platform_dxe_initialize adt controllers soc = do
  let apcie = adt.get "apcie"
  room ← call_service (allocate_pool 56)
  add_ecam_space
  ecam ← node_reg adt apcie 0 0
  if is_error room then crash else do
    rc ← node_reg adt apcie 1 0
    let complex : PcieComplexInfo = record {
      ecam_region_base = ecam;
      rc_region_base = rc;
      port_region_base = 0 ∷ 0 ∷ 0 ∷ 0 ∷ [];
    }
    unused ← setup_pcie_port adt controllers soc complex none 0
    setup_ports adt controllers soc apcie 4 0 complex
    pure success

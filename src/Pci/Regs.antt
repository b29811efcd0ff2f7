-- ===== src/Pci/Regs.antt =====
-- Include/Drivers/AppleSiliconPciPlatformDxe.h, and the accesses to a port's registers.
use apple_silicon_platforms.Prelude.{
  ℕ, zero, suc, ◌+◌, ◌*◌, ◌%◌, ◌^◌, Bool, true, not, ◌||◌, List, ◌==◌, if◌then◌else◌, bit_and,
  bit_or,
}
use apple_silicon_platforms.Platform.Io.{
  Io, pure, ◌>>=◌, ◌>>◌, emit, delay, mmio_read32, mmio_write32, not32,
}
use apple_silicon_platforms.Platform.Macros.{bit_at}

-- APPLE_PCIE_COMPLEX_INFO, whose PortRegionBase has four entries
pub record PcieComplexInfo : Type 0 where
  pub ecam_region_base : ℕ
  pub rc_region_base : ℕ
  pub port_region_base : List ℕ

-- APPLE_PCIE_GPIO_DESC
pub record PcieGpioDesc : Type 0 where
  pub gpio_num : ℕ
  pub gpio_active_polarity : ℕ

-- The parts of APPLE_PCIE_DEVICE_PORT_INFO that the driver reads again
pub record PciePortInfo : Type 0 where
  pub device_base : ℕ
  pub device_phy_base : ℕ
  pub reset_gpio : PcieGpioDesc

-- CORE_PHY_DEFAULT_BASE (port), an int
abbrev pub core_phy_default_base : ℕ → ℕ
core_phy_default_base port = 0x84000 + 0x4000 * port

abbrev pub phy_lane_cfg : ℕ
phy_lane_cfg = 0

abbrev pub refclk0req : ℕ
refclk0req = bit_at 0

abbrev pub refclk1req : ℕ
refclk1req = bit_at 1

abbrev pub refclk0ack : ℕ
refclk0ack = bit_at 2

abbrev pub refclk1ack : ℕ
refclk1ack = bit_at 3

abbrev pub refclken : ℕ
refclken = bit_or (bit_at 9) (bit_at 10)

abbrev pub refclkcgen : ℕ
refclkcgen = bit_or (bit_at 30) (bit_at 31)

abbrev pub phy_lane_ctl : ℕ
phy_lane_ctl = 4

abbrev pub phy_lane_ctl_cfgacc : ℕ
phy_lane_ctl_cfgacc = bit_at 15

abbrev pub port_ltssmctl : ℕ
port_ltssmctl = 0x80

abbrev pub port_ltssmctl_start : ℕ
port_ltssmctl_start = bit_at 0

abbrev pub port_linksts : ℕ
port_linksts = 0x208

abbrev pub port_linksts_up : ℕ
port_linksts_up = bit_at 0

abbrev pub port_appclk : ℕ
port_appclk = 0x800

abbrev pub port_appclk_en : ℕ
port_appclk_en = bit_at 0

abbrev pub port_appclk_cgdis : ℕ
port_appclk_cgdis = bit_at 8

abbrev pub port_status : ℕ
port_status = 0x804

abbrev pub port_status_ready : ℕ
port_status_ready = bit_at 0

abbrev pub port_refclk : ℕ
port_refclk = 0x810

abbrev pub port_refclk_en : ℕ
port_refclk_en = bit_at 0

abbrev pub port_refclk_cgdis : ℕ
port_refclk_cgdis = bit_at 8

abbrev pub port_perst : ℕ
port_perst = 0x814

abbrev pub port_t602x_perst : ℕ
port_t602x_perst = 0x82c

abbrev pub port_perst_off : ℕ
port_perst_off = bit_at 0

-- base + offset
abbrev pub reg_at : ℕ → ℕ → ℕ
reg_at base offset = (base + offset) % 2 ^ 64

-- AppleSiliconPcieSetBits (BitsToSet, Address)
unfoldable pub pcie_set_bits : ℕ → ℕ → Io (Unit {0})
pcie_set_bits bits address = do
  original ← mmio_read32 address
  mmio_write32 address (bit_or original bits)
  updated ← mmio_read32 address
  pure tt

-- AppleSiliconPcieClearBits (BitsToClear, Address)
unfoldable pub pcie_clear_bits : ℕ → ℕ → Io (Unit {0})
pcie_clear_bits bits address = do
  original ← mmio_read32 address
  mmio_write32 address (bit_and original (not32 bits))
  updated ← mmio_read32 address
  pure tt

-- MicroSecondDelay
unfoldable pub micro_second_delay : ℕ → Io (Unit {0})
micro_second_delay n = emit (delay n)

-- One of the loops that wait for a bit, where `rounds` is its bound less `i`: it breaks behind a
-- read that has the bit, and in the round where `i` has reached the bound.
unfoldable pub poll_rounds : ℕ → ℕ → ℕ → Io Bool
poll_rounds zero address mask = do
  emit (delay 100)
  v ← mmio_read32 address
  pure (not (bit_and v mask == 0))
poll_rounds (suc rounds) address mask =
    let rest = poll_rounds rounds address mask in
    (do emit (delay 100); v ← mmio_read32 address; if bit_and v mask == 0 then rest else pure true)

-- The read ahead of the loop, and the loop from i = 0 on
unfoldable pub poll_bit : ℕ → ℕ → ℕ → Io Bool
poll_bit bound address mask = do
  v ← mmio_read32 address
  if bit_and v mask == 0 then poll_rounds bound address mask else pure true

-- The SoCs of the cases 0x6020, 0x6021 and 0x6022
unfoldable pub is_t602x : ℕ → Bool
is_t602x soc = soc == 0x6020 || soc == 0x6021 || soc == 0x6022

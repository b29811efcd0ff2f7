-- ===== src/Pci/Tests.antt =====
-- The PCIe driver's theorems at concrete inputs: a port whose registers read as all ones, and a
-- polling loop on a register that reads as zero.
use apple_silicon_platforms.Prelude.{◌≤◌, refl, none, some, [], ◌∷◌, arith}
use apple_silicon_platforms.Platform.Status.{success}
use apple_silicon_platforms.Platform.Io.{Device, Returns}
use apple_silicon_platforms.Platform.Adt.{Adt}
use apple_silicon_platforms.Gpio.{GpioController}
use apple_silicon_platforms.Pci.Regs.{PcieComplexInfo, PciePortInfo, poll_bit}
use apple_silicon_platforms.Pci.Port.{setup_pcie_port}
use apple_silicon_platforms.Pci.Polling.{PollResult, waited, poll_bit_lem}
use apple_silicon_platforms.Pci.Handshake.{BringUp, described, setup_pcie_port_lem}

abbrev pins : GpioController
pins = record { register_base = 0x23c100000; gpio_index = 0; internal_gpio_count = 212 }

abbrev ready_device : Device
ready_device = record { value = λ t l. 0xffffffff; reply = λ t s. success }

abbrev dead_device : Device
dead_device = record { value = λ t l. 0; reply = λ t s. success }

abbrev tree : Adt
tree = record {
  get = λ name. some 1;
  text = λ node name. none;
  words = λ node name. some (0 ∷ 0 ∷ 150 ∷ 1 ∷ []);
  u32 = λ node name i. none;
  reg = λ node i. none;
}

abbrev complex : PcieComplexInfo
complex = record {
  ecam_region_base = 0x690000000;
  rc_region_base = 0x680000000;
  port_region_base = 0x681000000 ∷ 0x682000000 ∷ 0x683000000 ∷ 0 ∷ [];
}

abbrev port_0 : PciePortInfo
port_0 = record {
  device_base = 0x681000000;
  device_phy_base = 0x680084000;
  reset_gpio = record { gpio_num = 150; gpio_active_polarity = 0 };
}

poll_bit_lem_example :
    Returns
      (PollResult dead_device 0x681000804 1 2500 [])
      (poll_bit 2500 0x681000804 1 dead_device [])
poll_bit_lem_example = poll_bit_lem dead_device 0x681000804 1 2500 []

setup_pcie_port_lem_example :
    Returns
      (λ status u.
        BringUp ready_device (described complex 1 0x682000000 150 1) status u × (waited u ≤ 550500))
      (setup_pcie_port tree (pins ∷ []) 0x6020 complex (some 7) 1 ready_device [])
setup_pcie_port_lem_example =
    setup_pcie_port_lem tree ready_device pins 0x6020 complex 7 1 0x682000000 150 1
      (0 ∷ 0 ∷ 150 ∷ 1 ∷ []) [] refl (omega arith) refl refl refl refl refl (omega arith) refl

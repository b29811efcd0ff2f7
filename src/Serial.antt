-- ===== src/Serial.antt =====
-- Library/AppleUartSerialPortLib of Silicon/Apple/AppleSiliconPkg: the serial port, in polled
-- mode. A polling loop gets fuel for its reads of the status register; it hangs without enough.
-- `base` is PcdAppleUartBase.
pub mod Write
pub mod Read
mod Tests
use apple_silicon_platforms.Prelude.{
  ℕ, zero, suc, ◌+◌, ◌-◌, ◌*◌, ◌/◌, ◌%◌, ◌^◌, Bool, true, false, not, Option, none, some, List, [],
  ◌∷◌, ◌++◌, get_elem?, ◌==◌, if◌then◌else◌, bit_and,
}
use apple_silicon_platforms.Platform.Status.{Status, success, unsupported}
use apple_silicon_platforms.Platform.Io.{
  Io, pure, ◌>>=◌, ◌>>◌, emit, deref, wedge, interrupts_off, interrupts_on, mmio_read32,
  mmio_write32,
}

-- The registers and bits of Include/Library/AppleUartSerialPortLib.h
abbrev pub uart_clock : ℕ
uart_clock = 24000000

abbrev pub uart_transfer_status : ℕ
uart_transfer_status = 0x010

abbrev pub uart_tx_byte : ℕ
uart_tx_byte = 0x020

abbrev pub uart_rx_byte : ℕ
uart_rx_byte = 0x024

abbrev pub uart_baud_rate_config : ℕ
uart_baud_rate_config = 0x028

abbrev pub transfer_status_txe : ℕ
transfer_status_txe = 2 ^ 2

abbrev pub transfer_status_txbe : ℕ
transfer_status_txbe = 2 ^ 1

abbrev pub transfer_status_rxd : ℕ
transfer_status_rxd = 2 ^ 0

-- UART_BASE + offset
abbrev pub uart_reg : ℕ → ℕ → ℕ
uart_reg base offset = (base + offset) % 2 ^ 64

-- while (!(MmioRead32 (UART_BASE + UART_TRANSFER_STATUS) & mask)) { }
unfoldable pub wait_for : ℕ → ℕ → ℕ → Io (Unit {0})
wait_for zero base mask = wedge
wait_for (suc fuel) base mask =
    let rest = wait_for fuel base mask in
    (do
      status ← mmio_read32 (uart_reg base uart_transfer_status)
      if bit_and status mask == 0 then rest else pure tt)

-- AppleSerialPortCalculateBaudRateConfig
unfoldable pub calculate_baud_rate_config : ℕ
calculate_baud_rate_config = ((uart_clock / 115200 + 7) / 16 - 1) % 2 ^ 32

-- SerialPortFlush
unfoldable pub serial_port_flush : ℕ → ℕ → Io ℕ
serial_port_flush fuel base = wait_for fuel base transfer_status_txe >> pure 0

-- SerialPortInitialize
unfoldable pub serial_port_initialize : ℕ → ℕ → Io Status
serial_port_initialize fuel base = do
  flushed ← serial_port_flush fuel base
  mmio_write32 (uart_reg base uart_baud_rate_config) calculate_baud_rate_config
  pure success

-- The loop of SerialPortWrite, with `rounds` to go from byte `i` on: it counts NumberOfBytes down
-- to `remaining`. A read past the end of the buffer is a fault.
unfoldable pub write_bytes : ℕ → ℕ → List ℕ → ℕ → ℕ → ℕ → Io ℕ
write_bytes fuel base buffer i zero remaining = pure remaining
write_bytes fuel base buffer i (suc rounds) remaining = do
  wait_for fuel base transfer_status_txbe
  byte ← deref (get_elem? buffer i)
  mmio_write32 (uart_reg base uart_tx_byte) byte
  write_bytes fuel base buffer (i + 1) rounds ((remaining + 2 ^ 64 - 1) % 2 ^ 64)

-- SerialPortWrite
unfoldable pub serial_port_write : ℕ → ℕ → List ℕ → ℕ → Io ℕ
serial_port_write fuel base buffer number_of_bytes = do
  emit interrupts_off
  remaining ← write_bytes fuel base buffer 0 number_of_bytes number_of_bytes
  emit interrupts_on
  pure remaining

-- SerialPortPoll
unfoldable pub serial_port_poll : ℕ → Io Bool
serial_port_poll base = do
  status ← mmio_read32 (uart_reg base uart_transfer_status)
  pure (not (bit_and status transfer_status_rxd == 0))

-- The loop of SerialPortRead with `rounds` to go and `count` bytes read, which `buffer` holds in
-- their order.
unfoldable pub read_bytes : ℕ → ℕ → ℕ → List ℕ → Io (ℕ × List ℕ)
read_bytes base zero count buffer = pure (count, buffer)
read_bytes base (suc rounds) count buffer = do
  waiting ← serial_port_poll base
  if not waiting then pure (count, buffer) else do
    byte ← mmio_read32 (uart_reg base uart_rx_byte)
    read_bytes base rounds (count + 1) (buffer ++ (byte % 2 ^ 8 ∷ []))

-- SerialPortRead
unfoldable pub serial_port_read : ℕ → ℕ → Io (ℕ × List ℕ)
serial_port_read base number_of_bytes = read_bytes base number_of_bytes 0 []

-- SerialPortGetControl, SerialPortSetControl, SerialPortSetAttributes
unfoldable pub serial_port_get_control : Status
serial_port_get_control = unsupported

unfoldable pub serial_port_set_control : ℕ → Status
serial_port_set_control control = unsupported

unfoldable pub serial_port_set_attributes : Status
serial_port_set_attributes = unsupported

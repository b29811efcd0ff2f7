-- ===== src/Serial/Tests.antt =====
-- The serial port's theorems at concrete inputs: a port at 0x235200000 that is always ready and
-- receives 0x41, and one that never is.
use apple_silicon_platforms.Prelude.{rev_onto, ℕ, ◌≤◌, ◌≡◌, ◌⊎◌, [], ◌∷◌, length, arith}
use apple_silicon_platforms.Platform.Status.{success}
use apple_silicon_platforms.Platform.Io.{Device, Trace, Returns, interrupts_on}
use apple_silicon_platforms.Serial.{serial_port_write, serial_port_read}
use apple_silicon_platforms.Serial.Write.{sent, serial_port_write_lem}
use apple_silicon_platforms.Serial.Read.{received, EndsEmpty, serial_port_read_lem}

abbrev port : ℕ
port = 0x235200000

-- Every register reads 0x47: the three status bits are set.
abbrev ready_port : Device
ready_port = record { value = λ t l. 0x47; reply = λ t s. success }

abbrev dead_port : Device
dead_port = record { value = λ t l. 0; reply = λ t s. success }

serial_port_write_lem_example :
    Returns
      (λ _ u. (sent port u ≡ 66 ∷ 65 ∷ []) × (w : Trace) × (u ≡ interrupts_on ∷ w))
      (serial_port_write 3 port (65 ∷ 66 ∷ []) 2 ready_port [])
serial_port_write_lem_example =
    serial_port_write_lem 3 port ready_port (λ t. (0, omega arith, omega arith)) (65 ∷ 66 ∷ []) []
      (omega arith) (omega arith, (omega arith, tt))

serial_port_read_lem_example :
    Returns
      (λ r u.
        (r.0 ≡ length r.1)
        × (r.0 ≤ 2)
        × (received port ready_port u ≡ rev_onto r.1 [])
        × ((r.0 ≡ 2) ⊎ EndsEmpty port ready_port u))
      (serial_port_read port 2 ready_port [])
serial_port_read_lem_example = serial_port_read_lem port ready_port 2 []

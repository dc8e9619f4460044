-- ===== src/Firmware.antt =====
-- The state of the whole firmware: the irrigation with the plant under it, the connection, and the
-- globals of arduino_client/src/interface.cpp, interface_serial.cpp and main.cpp. The parts share one
-- world, which stands in the irrigation's board; the connection gets it for each of its calls.
use blueberry_irrigation_sys.Base.{ℕ, Array}
use blueberry_irrigation_sys.World.{World, called}
use blueberry_irrigation_sys.Device.{Board, on_world}
use blueberry_irrigation_sys.ControlFlow.{Plant, on_board}
use blueberry_irrigation_sys.Irrigation.{Irrigation, on_plant}
use blueberry_irrigation_sys.Internet.{Internet, Packet}

-- The serial port (Arduino.h, which is not part of the repository): what its functions return, by
-- the number of the call and as the bits of an int.
pub record Port : Type 0 where
  pub available : ℕ → ℕ
  pub read : ℕ → ℕ

-- The serial port and the globals of interface_serial.cpp.
pub record Serial : Type 0 where
  pub port : Port
  -- How many calls have asked the port.
  pub asked : ℕ
  pub time_print_last : ℕ
  pub is_print : ℕ
  -- A digit or the character behind the digits was stored past the end of the array `c`.
  pub is_overrun : ℕ

pub record Firmware : Type 0 where
  pub irrigation : Irrigation
  pub open irrigation use *
  pub internet : Internet
  pub time_start_info : ℕ
  pub is_send_info : ℕ
  pub serial : Serial
  pub led_is_active : ℕ

abbrev pub on_irrigation : (Irrigation → Irrigation) → Firmware → Firmware
on_irrigation f m = record m { irrigation = f m.irrigation }

abbrev pub on_the_plant : (Plant → Plant) → Firmware → Firmware
on_the_plant f = on_irrigation (on_plant f)

abbrev pub on_the_board : (Board → Board) → Firmware → Firmware
on_the_board f = on_the_plant (on_board f)

abbrev pub on_the_world : (World → World) → Firmware → Firmware
on_the_world f = on_the_board (on_world f)

-- `millis()` was called.
abbrev pub ticked : Firmware → Firmware
ticked = on_the_world called

-- A function of internet.cpp runs: it takes the world, and gives it back.
abbrev pub on_internet : (Internet → Internet) → Firmware → Firmware
on_internet f m =
    let i = f (record m.internet { world = m.world }) in
    record (on_the_world (λ w. i.world) m) { internet = i }

abbrev pub packet : Firmware → Packet
packet m = m.internet.packet

-- The body of the packet.
abbrev pub body : Firmware → Array ℕ
body m = m.internet.packet.data_bytes

abbrev pub set_body : Array ℕ → ℕ → Firmware → Firmware
set_body bytes size m = record m {
  internet = record m.internet {
    packet = record m.internet.packet { data_bytes = bytes; size = size };
  };
}

-- ===== src/Tests/Whole.antt =====
-- The theorems on the interfaces and the main loop at concrete inputs.
use blueberry_irrigation_sys.Base.{ℕ, ◌≡◌, refl, arith, ◌==◌, if◌then◌else◌, [], ◌∷◌}
use blueberry_irrigation_sys.Internet.{Internet}
use blueberry_irrigation_sys.Firmware.{Firmware, Port}
use blueberry_irrigation_sys.Interface.Process.{process_data, done}
use blueberry_irrigation_sys.Interface.Refusal.{process_data-refuses}
use blueberry_irrigation_sys.InterfaceSerial.Number.{serial_number_read}
use blueberry_irrigation_sys.InterfaceSerial.Number.Decimal.{serial_number_read-decimal}
use blueberry_irrigation_sys.SensorFlow.{Pulses}
use blueberry_irrigation_sys.Main.{loops}
use blueberry_irrigation_sys.Main.Stuck.{IsStuck, loops-IsStuck}
use blueberry_irrigation_sys.Tests.{farm, fresh}
use blueberry_irrigation_sys.Tests.Network.{connected}
use blueberry_irrigation_sys.Irrigation.{boot}

-- The port has no input.
abbrev pub silent_port : Port
silent_port = record { available = λ k. 0; read = λ k. 0 }

-- The farm after a reset, with a connection and a serial port.
abbrev pub station : Internet → Port → Firmware
station i p = record {
  irrigation = fresh;
  internet = i;
  time_start_info = 0;
  is_send_info = 0;
  serial = record { port = p; asked = 0; time_print_last = 0; is_print = 0; is_overrun = 0 };
  led_is_active = 0;
}

-- A request with this command and size waits.
abbrev waiting : ℕ → ℕ → Firmware
waiting command size =
    let i = connected 3 6 0 in
    station
      (record i {
        is_receive_wait = 1;
        packet = record i.packet { data_bytes = λ j. command; size = size };
      })
      silent_port

-- A round in which sensor 1 and then sensor 3 have a pulse before the step of the flow control, and one
-- without a pulse.
abbrev two_pulses : Pulses
two_pulses k = if k == 3 then 1 ∷ 3 ∷ [] else []

abbrev pub no_pulses : Pulses
no_pulses k = []

process_data-refuses_example : process_data (waiting 42 5) ≡ done (waiting 42 5)
process_data-refuses_example = process_data-refuses (waiting 42 5) refl (ground arith)

loops-IsStuck_example : IsStuck (loops (two_pulses ∷ no_pulses ∷ []) (waiting 82 2)).internet
loops-IsStuck_example =
    loops-IsStuck (two_pulses ∷ no_pulses ∷ []) (waiting 82 2) (λ k. refl)
      (record { waits = refl; command = refl; size = ground arith })

-- `42` and a space.
abbrev typed : ℕ → ℕ
typed k = if k == 0 then b'4' else if k == 1 then b'2' else b' '

abbrev typing : Firmware
typing = station (connected 3 6 0) (record { available = λ k. 1; read = typed })

serial_number_read-decimal_example :
    ((serial_number_read typing).0 ≡ 42)
    × ((serial_number_read typing).1.serial.asked ≡ 3)
    × ((serial_number_read typing).1.serial.is_overrun ≡ 0)
serial_number_read-decimal_example =
    serial_number_read-decimal typing 2 (λ i. if i == 0 then 4 else 2) (omega arith)
      (record { digit = λ i h. ground arith; small = λ i h. ground arith; stop = refl })

-- The power has just come on, and the network does not answer.
abbrev cold : Firmware
cold =
    let i = connected 3 6 0 in
    record (station (record i { library = record i.library { result = λ k. 0 } }) silent_port) {
      irrigation = boot farm;
    }

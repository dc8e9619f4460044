-- ===== src/InterfaceSerial/Number.antt =====
-- `serial_number_read` and `math_power` of arduino_client/src/interface_serial.cpp: a decimal number
-- from the serial port.
pub mod Decimal
use blueberry_irrigation_sys.Base.{
  ℕ, zero, suc, ◌+◌, ◌-◌, ◌*◌, Bool, ◌||◌, Array, set_at, for_up, u16, u32, ltb, ◌==◌,
  if◌then◌else◌,
}
use blueberry_irrigation_sys.Firmware.{Firmware, Serial, Port}

abbrev pub on_serial : (Serial → Serial) → Firmware → Firmware
on_serial f m = record m { serial = f m.serial }

-- `Serial.available()` and `Serial.read()`
abbrev pub ask_available : Firmware → ℕ × Firmware
ask_available m =
    (m.serial.port.available m.serial.asked, on_serial (λ s. record s { asked = suc s.asked }) m)

abbrev pub ask_read : Firmware → ℕ × Firmware
ask_read m =
    (m.serial.port.read m.serial.asked, on_serial (λ s. record s { asked = suc s.asked }) m)

-- The size of the array `c`.
abbrev pub digits_size : ℕ
digits_size = 10

-- `c < '0' || c > '9'`; a negative value stands below.
abbrev pub is_digit : ℕ → Bool
is_digit x = if ltb x b'0' then Bool.false else if ltb b'9' x then Bool.false else Bool.true

-- `math_power(base, exponential)`
unfoldable pub math_power : ℕ → ℕ → ℕ
math_power base exponential =
    if exponential == 0 then 1 else for_up (exponential - 1) 0 (λ i n. u32 (n * base)) base

-- The loop that fills `c` up to the first character that is no digit: `c`, `counter` and the state.
-- `room` is what is left of the array: where it is used up, the next character is stored past its
-- end, and the model stops with that on record.
unfoldable pub read_digits : ℕ → Array ℕ → ℕ → Firmware → Array ℕ × ℕ × Firmware
read_digits zero c counter m = (c, counter, on_serial (λ s. record s { is_overrun = 1 }) m)
read_digits (suc room) c counter m =
    let (x, t) = ask_read m in
    let more = read_digits room (set_at c counter (x - 48)) (suc counter) t in
    if is_digit x then more else (c, counter, t)

-- The second loop, which adds the digits up, the last one first.
unfoldable pub add_digits : Array ℕ → ℕ → ℕ
unfolding math_power
add_digits c counter =
    for_up counter 0 (λ i number. u16 (number + u32 (c (counter - i - 1) * math_power 10 i))) 0

-- `serial_number_read()`
unfoldable pub serial_number_read : Firmware → ℕ × Firmware
serial_number_read m =
    let (c, counter, t) = read_digits digits_size (λ i. 0) 0 m in (add_digits c counter, t)

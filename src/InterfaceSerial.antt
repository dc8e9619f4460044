-- ===== src/InterfaceSerial.antt =====
-- arduino_client/src/interface_serial.cpp: the commands over the serial port. The reading of numbers
-- stands in InterfaceSerial/Number. A character is compared by its code; `- 48` is the code of `0`.
-- An index that is typed in is not compared with the size of its array, here as there.
pub mod Number
pub mod Safety
use blueberry_irrigation_sys.Base.{
  ℕ, ◌+◌, Array, set_at, not, u8, u16, u32, sub8, sub16, sub32, ltb, ◌==◌, if◌then◌else◌, is_true,
}
use blueberry_irrigation_sys.World.{now}
use blueberry_irrigation_sys.Device.{toggle}
use blueberry_irrigation_sys.SensorFlow.{
  FlowSensors, SensorFlow, pulses_total_set, pulses_per_liter_set,
}
use blueberry_irrigation_sys.ControlFlow.{Plant}
use blueberry_irrigation_sys.ControlFlow
use blueberry_irrigation_sys.Irrigation
use blueberry_irrigation_sys.Internet
use blueberry_irrigation_sys.Firmware.{
  Firmware, Serial, on_irrigation, on_the_plant, on_the_board, on_internet, ticked, body, set_body,
}
use blueberry_irrigation_sys.Interface.{reset, program_of, command_ping, command_ping_value_request}
use blueberry_irrigation_sys.InterfaceSerial.Number.{ask_read, ask_available, serial_number_read}

abbrev pub time_loop_interval : ℕ
time_loop_interval = 2000

-- `Serial.read() - 48` as a uint16_t.
abbrev pub read_digit : Firmware → ℕ × Firmware
read_digit m = let (x, t) = ask_read m in (sub16 x 48, t)

-- A packet is filled and sent.
abbrev pub send_packet : Array ℕ → ℕ → Firmware → Firmware
send_packet bytes size m = on_internet Internet.send (set_body bytes size m)

-- `case 'p'`
unfoldable pub ping : Firmware → Firmware
ping m = send_packet (set_at (set_at (body m) 0 command_ping) 1 command_ping_value_request) 2 m

-- `case 'd'`
unfoldable pub device : Firmware → Firmware
device m =
    let (aa, t) = serial_number_read m in
    let (bb, u) = read_digit t in on_the_board (λ b. toggle b aa (u8 bb)) u

abbrev pub on_flow_sensors : (FlowSensors → FlowSensors) → Firmware → Firmware
on_flow_sensors f = on_the_plant (λ p. record p { flow_sensors = f p.flow_sensors })

-- `sensor_flow_array[i].pulses_total += pulses;`
abbrev pub pulses_total_add : FlowSensors → ℕ → ℕ → FlowSensors
pulses_total_add s i pulses = record s {
  sensors =
      set_at s.sensors i
        (record (s.sensors i) { pulses_total = u32 ((s.sensors i).pulses_total + pulses) });
}

-- `case 'f'`
unfoldable pub sensor_flow : Firmware → Firmware
sensor_flow m =
    let (choice, t) = ask_read m in
    let (aa, u) = ask_read t in
    let (bb, v) = serial_number_read u in
    if choice == b'r'
    then on_flow_sensors (λ s. pulses_total_set s (u16 aa) bb) v
    else if choice == b's'
    then on_flow_sensors (λ s. pulses_per_liter_set s (sub16 aa 48) bb) v
    else if choice == b'p'
    then record u { serial = record u.serial { is_print = u8 (sub16 aa 48) } }
    else if choice == b'a'
    then on_flow_sensors (λ s. pulses_total_add s (sub16 aa 48) bb) v
    else t

-- `case 'c'`, `case 'f'`. The pause reads the index twice, and the second reading is both.
unfoldable pub control_flow : Firmware → Firmware
control_flow m =
    let (choice, t) = ask_read m in
    let (aa, u) = read_digit t in
    let (bb, v) = serial_number_read u in
    let (cc, w) = serial_number_read v in
    let (second, x) = read_digit u in
    if choice == b'a'
    then on_the_plant (λ p. ControlFlow.start p aa bb cc) w
    else if choice == b's'
    then on_the_plant (λ p. ControlFlow.stop p aa) u
    else if choice == b'p'
    then on_the_plant (λ p. ControlFlow.pause p second (u8 second)) x
    else t

-- `case 'c'`, `case 'a'`
unfoldable pub control_irrigation : Firmware → Firmware
control_irrigation m =
    let (choice, t) = ask_read m in
    let (aa, u) = read_digit t in
    let (bb, v) = read_digit u in
    if choice == b'a'
    then on_irrigation (Irrigation.start (program_of aa) (u8 bb)) v
    else if choice == b's'
    then on_irrigation Irrigation.force_stop t
    else if choice == b'r'
    then on_irrigation Irrigation.resume t
    else t

-- `case 'c'`
unfoldable pub control : Firmware → Firmware
control m =
    let (choice, t) = ask_read m in
    if choice == b'f' then control_flow t else if choice == b'a' then control_irrigation t else t

-- `case 'i'`
unfoldable pub connection : Firmware → Firmware
connection m =
    let (choice, t) = ask_read m in
    let (first, u) = read_digit t in
    let (second, v) = read_digit u in
    if choice == b'r'
    then on_internet Internet.restart_hard t
    else if choice == b'b'
    then on_internet Internet.restart_soft t
    else if choice == b'p'
    then on_internet (λ i. (Internet.ip_remote_update i).1) t
    else if choice == b'o'
    then send_packet (set_at (body u) 0 (u8 first)) 1 u
    else if choice == b't'
    then send_packet (set_at (set_at (body v) 0 (u8 first)) 1 (u8 second)) 2 v
    else t

-- `user_input()`
unfoldable pub user_input : Firmware → Firmware
user_input m =
    let (available, t) = ask_available m in
    let (choice, u) = ask_read t in
    if not (is_true available)
    then t
    else if choice == b'p'
    then ping u
    else if choice == b'r'
    then reset u
    else if choice == b'd'
    then device u
    else if choice == b'f'
    then sensor_flow u
    else if choice == b'c'
    then control u
    else if choice == b'i'
    then connection u
    else u

-- `flow_print()`, whose prints are compiled to nothing.
unfoldable pub flow_print : Firmware → Firmware
flow_print m =
    let t = ticked m in
    let u = record (ticked t) { serial = record t.serial { time_print_last = now t.world } } in
    if ltb (sub32 (now m.world) m.serial.time_print_last) time_loop_interval then t else u

-- `interface_serial_update()`
unfoldable pub update : Firmware → Firmware
update m = let t = user_input m in if is_true t.serial.is_print then flow_print t else t

-- ===== src/Interface.antt =====
-- arduino_client/src/interface.cpp and arduino_client/include/interface.h: the requests that come
-- over the network. The numbers of the commands and the single handlers stand here, the reply to a
-- request for all values in Interface/Info, and the dispatch in Interface/Process. An index that
-- comes with a request is not compared with the size of its array, here as there.
pub mod Info
pub mod Process
pub mod Refusal
pub mod Steady
pub mod Safety
use blueberry_irrigation_sys.Base.{
  ℕ, ◌+◌, not, Array, set_at, half_of, word_of, ◌==◌, if◌then◌else◌,
}
use blueberry_irrigation_sys.Device.{Board, toggle}
use blueberry_irrigation_sys.SensorFlow.{FlowSensors, pulses_per_liter_set}
use blueberry_irrigation_sys.ControlFlow.{Plant}
use blueberry_irrigation_sys.ControlSafety
use blueberry_irrigation_sys.Irrigation.{
  Irrigation, Program, group_1, group_2, both, cleaning, garden, other, start,
  faulty_detection_toggle,
}
use blueberry_irrigation_sys.Internet
use blueberry_irrigation_sys.Firmware.{
  Firmware, on_irrigation, on_the_plant, on_the_board, on_the_world, on_internet, body, packet,
  set_body,
}

abbrev pub command_device_info : ℕ
command_device_info = 41

abbrev pub command_device_toggle : ℕ
command_device_toggle = 42

abbrev pub command_device_time_switch_minimum : ℕ
command_device_time_switch_minimum = 43

abbrev pub command_sensor_flow_info : ℕ
command_sensor_flow_info = 61

abbrev pub command_sensor_flow_pulses_per_liter : ℕ
command_sensor_flow_pulses_per_liter = 62

abbrev pub command_sensor_pressure_info : ℕ
command_sensor_pressure_info = 121

abbrev pub command_info : ℕ
command_info = 81

abbrev pub command_info_all : ℕ
command_info_all = 82

abbrev pub command_start : ℕ
command_start = 83

abbrev pub command_stop : ℕ
command_stop = 84

abbrev pub command_deliver_volume : ℕ
command_deliver_volume = 85

abbrev pub command_deliver_time : ℕ
command_deliver_time = 86

abbrev pub command_generator_wait_time : ℕ
command_generator_wait_time = 87

abbrev pub command_program_duration : ℕ
command_program_duration = 88

abbrev pub command_cleaning_group3_duration : ℕ
command_cleaning_group3_duration = 89

abbrev pub command_cleaning_group12_duration : ℕ
command_cleaning_group12_duration = 90

abbrev pub command_is_send_info : ℕ
command_is_send_info = 91

abbrev pub command_resume : ℕ
command_resume = 92

abbrev pub command_is_faulty_detection_active : ℕ
command_is_faulty_detection_active = 93

abbrev pub time_interval_send_info : ℕ
time_interval_send_info = 100

abbrev pub command_control_safety_reset : ℕ
command_control_safety_reset = 101

abbrev pub command_ping : ℕ
command_ping = 211

abbrev pub command_ping_value_request : ℕ
command_ping_value_request = 10

abbrev pub command_ping_value_answer : ℕ
command_ping_value_answer = 20

-- `(Control_irrigation_temp_program)value`
abbrev pub program_of : ℕ → Program
program_of value =
    if value == 0
    then group_1
    else if value == 1
    then group_2
    else if value == 2
    then both
    else if value == 3
    then cleaning
    else if value == 4
    then garden
    else other value

-- `*(uint16_t *)&data[i]` and `*(uint32_t *)&data[i]`
abbrev pub half_at : Array ℕ → ℕ → ℕ
half_at bytes i = half_of (bytes i) (bytes (i + 1))

abbrev pub word_at : Array ℕ → ℕ → ℕ
word_at bytes i = word_of (bytes i) (bytes (i + 1)) (bytes (i + 2)) (bytes (i + 3))

-- `if(counter + n != size) debug_log(...); else` and what follows it, behind the byte of the command.
abbrev pub sized : ℕ → (Firmware → Firmware) → Firmware → Firmware
sized n handler m = if not (1 + n == m.internet.packet.size) then m else handler m

unfoldable pub reset : Firmware → Firmware
reset = on_the_world ControlSafety.reset

unfoldable pub device_toggle : Firmware → Firmware
device_toggle m = on_the_board (λ b. toggle b (body m 1) (body m 2)) m

unfoldable pub device_time_switch_minimum : Firmware → Firmware
device_time_switch_minimum m =
    let set = λ (b : Board). record b {
      devices =
          set_at b.devices (body m 1)
            (record (b.devices (body m 1)) { time_switch_minimum = body m 2 });
    } in
    on_the_board set m

unfoldable pub sensor_flow_pulses_per_liter : Firmware → Firmware
sensor_flow_pulses_per_liter m =
    let set = λ (p : Plant). record p {
      flow_sensors = pulses_per_liter_set p.flow_sensors (body m 1) (half_at (body m) 2);
    } in
    on_the_plant set m

unfoldable pub irrigation_start : Firmware → Firmware
irrigation_start m = on_irrigation (start (program_of (body m 1)) (body m 2)) m

unfoldable pub is_faulty_detection_active_set : Firmware → Firmware
is_faulty_detection_active_set m = on_irrigation (faulty_detection_toggle (body m 1)) m

unfoldable pub is_send_info_set : Firmware → Firmware
is_send_info_set m = record m { is_send_info = body m 1 }

unfoldable pub deliver_volume_set : Firmware → Firmware
deliver_volume_set m = on_irrigation (λ s. record s { deliver_volume = half_at (body m) 1 }) m

unfoldable pub deliver_time_set : Firmware → Firmware
deliver_time_set m = on_irrigation (λ s. record s { deliver_time = half_at (body m) 1 }) m

unfoldable pub generator_wait_time_set : Firmware → Firmware
generator_wait_time_set m =
    on_irrigation (λ s. record s { time_generator_wait = word_at (body m) 1 }) m

unfoldable pub program_duration_set : Firmware → Firmware
program_duration_set m =
    on_irrigation (λ s. record s { time_program_duration = word_at (body m) 1 }) m

unfoldable pub cleaning_group3_duration_set : Firmware → Firmware
cleaning_group3_duration_set m =
    on_irrigation (λ s. record s { time_cleaning_group3_duration = word_at (body m) 1 }) m

unfoldable pub cleaning_group12_duration_set : Firmware → Firmware
cleaning_group12_duration_set m =
    on_irrigation (λ s. record s { time_cleaning_group12_duration = word_at (body m) 1 }) m

-- A ping: a request is sent back as an answer, in the same packet.
unfoldable pub ping : Firmware → Firmware
ping m =
    let answer = set_body (set_at (body m) 1 command_ping_value_answer) m.internet.packet.size m in
    if body m 1 == command_ping_value_request then on_internet Internet.send answer else m

-- ===== src/Interface/Info.antt =====
-- The reply to INTERFACE_COMMAND_CONTROL_IRRIGATION_INFO_ALL of arduino_client/src/interface.cpp: four
-- frames with the values of the devices, the sensors and the irrigation.
use blueberry_irrigation_sys.Base.{ℕ, ◌+◌, Array, set_at, for_up, byte_of, u8}
use blueberry_irrigation_sys.World.{now}
use blueberry_irrigation_sys.Device.{device_array_size}
use blueberry_irrigation_sys.SensorFlow.{sensor_flow_array_size}
use blueberry_irrigation_sys.SensorPressure.{sensor_pressure_array_size}
use blueberry_irrigation_sys.Irrigation.{
  Program, group_1, group_2, both, cleaning, garden, other, Status, finished, preparing, ready,
  finishing,
}
use blueberry_irrigation_sys.Internet
use blueberry_irrigation_sys.Firmware.{Firmware, ticked, on_internet, body, set_body}
use blueberry_irrigation_sys.Interface.{
  command_device_info, command_sensor_flow_info, command_sensor_pressure_info, command_info,
}

-- The bytes of the body and `counter`.
abbrev pub Cursor : Type 0
Cursor = Array ℕ × ℕ

-- `data[counter++] = value;`
abbrev pub push : ℕ → Cursor → Cursor
push value (bytes, counter) = (set_at bytes counter (u8 value), counter + 1)

-- `*(uint16_t *)&data[counter] = value; counter += sizeof(uint16_t);`
abbrev pub push_half : ℕ → Cursor → Cursor
push_half value c = push (byte_of value 1) (push (byte_of value 0) c)

-- `*(uint32_t *)&data[counter] = value; counter += sizeof(uint32_t);`
abbrev pub push_word : ℕ → Cursor → Cursor
push_word value c =
    push (byte_of value 3)
      (push (byte_of value 2) (push (byte_of value 1) (push (byte_of value 0) c)))

-- `counter = 0; data[counter++] = command;`
abbrev pub begin : ℕ → Firmware → Cursor
begin command m = push command (body m, 0)

-- `size = counter; internet_send();`
abbrev pub send : Cursor → Firmware → Firmware
send (bytes, counter) m = on_internet Internet.send (set_body bytes counter m)

-- The enumerators' values.
abbrev pub program_value : Program → ℕ
program_value group_1 = 0
program_value group_2 = 1
program_value both = 2
program_value cleaning = 3
program_value garden = 4
program_value (other n) = n

abbrev pub irrigation_status_value : Status → ℕ
irrigation_status_value finished = 0
irrigation_status_value preparing = 1
irrigation_status_value ready = 2
irrigation_status_value finishing = 3

unfoldable pub device_frame : Firmware → Cursor
device_frame m =
    for_up device_array_size 0 (λ i. push (m.devices i).is_active) (begin command_device_info m)

unfoldable pub sensor_flow_frame : Firmware → Cursor
sensor_flow_frame m =
    let values = λ (i : ℕ) (c : Cursor).
      push_half (m.flow_sensors.sensors i).pulses_per_liter
        (push_word (m.flow_sensors.sensors i).pulses_total c) in
    for_up sensor_flow_array_size 0 values (begin command_sensor_flow_info m)

unfoldable pub sensor_pressure_frame : Firmware → Cursor
sensor_pressure_frame m =
    for_up sensor_pressure_array_size 0 (λ i. push (m.pressure_sensors.sensors i).pressure)
      (begin command_sensor_pressure_info m)

-- The values of the irrigation, and the time.
unfoldable pub irrigation_frame : Firmware → Cursor
irrigation_frame m =
    let s = m.irrigation in
    let c0 = push (program_value s.program) (begin command_info m) in
    let c1 = push (program_value s.program_current) c0 in
    let c2 = push (irrigation_status_value s.status) c1 in
    let c3 = push s.is_cleaning c2 in
    let c4 = push s.is_stopped c3 in
    let c5 = push s.is_faulty_detection_active c4 in
    let c6 = push_half s.deliver_volume c5 in
    let c7 = push_half s.deliver_time c6 in
    let c8 = push_word s.time_generator_wait c7 in
    let c9 = push_word s.time_program_duration c8 in
    let c10 = push_word s.time_cleaning_group3_duration c9 in
    let c11 = push_word s.time_cleaning_group12_duration c10 in
    let c12 = push_word s.time_program_start c11 in
    let c13 = push_word s.time_program_stop c12 in
    let c14 = push_word s.time_generator_start c13 in push_word (now m.world) c14

unfoldable pub info_all : Firmware → Firmware
info_all m0 =
    let m1 = send (device_frame m0) m0 in
    let m2 = send (sensor_flow_frame m1) m1 in
    let m3 = send (sensor_pressure_frame m2) m2 in send (irrigation_frame m3) (ticked m3)

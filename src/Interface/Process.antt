-- ===== src/Interface/Process.antt =====
-- `interface_process_data` of arduino_client/src/interface.cpp.
use blueberry_irrigation_sys.Base.{ℕ, not, set_at, sub32, ltb, ◌==◌, if◌then◌else◌, is_true}
use blueberry_irrigation_sys.World.{now}
use blueberry_irrigation_sys.Irrigation.{force_stop, resume}
use blueberry_irrigation_sys.Firmware.{Firmware, on_irrigation, ticked, body, set_body}
use blueberry_irrigation_sys.Interface.{
  command_device_toggle, command_device_time_switch_minimum, command_sensor_flow_pulses_per_liter,
  command_info_all, command_start, command_stop, command_deliver_volume, command_deliver_time,
  command_generator_wait_time, command_program_duration, command_cleaning_group3_duration,
  command_cleaning_group12_duration, command_is_send_info, command_resume,
  command_is_faulty_detection_active, time_interval_send_info, command_control_safety_reset,
  command_ping, sized, reset, device_toggle, device_time_switch_minimum,
  sensor_flow_pulses_per_liter, irrigation_start, is_faulty_detection_active_set, is_send_info_set,
  deliver_volume_set, deliver_time_set, generator_wait_time_set, program_duration_set,
  cleaning_group3_duration_set, cleaning_group12_duration_set, ping,
}
use blueberry_irrigation_sys.Interface.Info.{info_all}

-- The cases from INTERFACE_COMMAND_CONTROL_IRRIGATION_DELIVER_VOLUME on that set a value, the ping,
-- and an unknown command.
unfoldable pub execute_setting : ℕ → Firmware → Firmware
execute_setting command m =
    if command == command_deliver_volume
    then sized 2 deliver_volume_set m
    else if command == command_deliver_time
    then sized 2 deliver_time_set m
    else if command == command_generator_wait_time
    then sized 4 generator_wait_time_set m
    else if command == command_program_duration
    then sized 4 program_duration_set m
    else if command == command_cleaning_group3_duration
    then sized 4 cleaning_group3_duration_set m
    else if command == command_cleaning_group12_duration
    then sized 4 cleaning_group12_duration_set m
    else if command == command_ping
    then sized 1 ping m
    else m

-- The cases of the switch but for INTERFACE_COMMAND_CONTROL_IRRIGATION_INFO_ALL.
unfoldable pub execute : ℕ → Firmware → Firmware
execute command m =
    if command == command_control_safety_reset
    then sized 0 reset m
    else if command == command_device_toggle
    then sized 2 device_toggle m
    else if command == command_device_time_switch_minimum
    then sized 2 device_time_switch_minimum m
    else if command == command_sensor_flow_pulses_per_liter
    then sized 3 sensor_flow_pulses_per_liter m
    else if command == command_is_send_info
    then sized 1 is_send_info_set m
    else if command == command_is_faulty_detection_active
    then sized 1 is_faulty_detection_active_set m
    else if command == command_start
    then sized 2 irrigation_start m
    else if command == command_stop
    then sized 0 (on_irrigation force_stop) m
    else if command == command_resume
    then sized 0 (on_irrigation resume) m
    else execute_setting command m

-- `internet_is_receive_wait = FALSE;`
abbrev pub done : Firmware → Firmware
done m = record m { internet = record m.internet { is_receive_wait = 0 } }

-- The switch and what follows it. A request for all values with a wrong size returns before that.
unfoldable pub process_command : Firmware → Firmware
process_command m =
    if body m 0 == command_info_all
    then (if not (1 == m.internet.packet.size) then m else done (info_all m))
    else done (execute (body m 0) m)

-- The regular report: the request for all values, as if it had come.
unfoldable pub request_info : Firmware → Firmware
request_info m =
    set_body (set_at (body m) 0 command_info_all) 1
      (record (ticked m) { time_start_info = now m.world })

-- `interface_process_data()`
unfoldable pub process_data : Firmware → Firmware
process_data m =
    let report =
      if ltb (sub32 (now m.world) m.time_start_info) time_interval_send_info
      then ticked m
      else process_command (request_info (ticked m)) in
    if is_true m.internet.is_receive_wait
    then process_command m
    else if not (is_true m.is_send_info)
    then m
    else report

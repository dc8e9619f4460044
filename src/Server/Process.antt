-- ===== src/Server/Process.antt =====
-- `server_process_received_data` and `server_udp_update` of linux_server/src/server_udp.c: the reports
-- of the firmware.
use blueberry_irrigation_sys.Base.{ℕ, ◌+◌, ◌*◌, set_at, for_up, not, ◌==◌, if◌then◌else◌}
use blueberry_irrigation_sys.Interface.{
  command_device_info, command_sensor_flow_info, command_sensor_pressure_info, command_info,
  command_ping, command_ping_value_request, command_ping_value_answer, half_at, word_at,
}
use blueberry_irrigation_sys.Server.{Server, IrrigationData, get_time, send}
use blueberry_irrigation_sys.Server.Receive.{receive}

abbrev pub on_data : (IrrigationData → IrrigationData) → Server → Server
on_data f s = record s { irrigation_data = f s.irrigation_data }

-- `if(counter + n != size) printf(...); else` and what follows it, behind the byte of the command.
abbrev pub sized : ℕ → (Server → Server) → Server → Server
sized n handler s = if not (1 + n == s.packet.size) then s else handler s

unfoldable pub device_info : Server → Server
device_info s =
    let store = λ (i : ℕ) (d : IrrigationData). record d {
      device_array = set_at d.device_array i (s.packet.data_bytes (1 + i));
    } in
    on_data (for_up 15 0 store) s

unfoldable pub sensor_flow_info : Server → Server
sensor_flow_info s =
    let bytes = s.packet.data_bytes in
    let store = λ (i : ℕ) (d : IrrigationData). record d {
      sensor_flow_array = set_at d.sensor_flow_array i (record {
        pulses_total = word_at bytes (1 + i * 6);
        pulses_per_liter = half_at bytes (5 + i * 6);
      });
    } in
    on_data (for_up 5 0 store) s

unfoldable pub sensor_pressure_info : Server → Server
sensor_pressure_info s =
    let store = λ (i : ℕ) (d : IrrigationData). record d {
      sensor_pressure_array = set_at d.sensor_pressure_array i (s.packet.data_bytes (1 + i));
    } in
    on_data (for_up 3 0 store) s

unfoldable pub irrigation_info : Server → Server
irrigation_info s =
    let bytes = s.packet.data_bytes in
    let store = λ (d : IrrigationData). record d {
      program = bytes 1;
      program_current = bytes 2;
      status = bytes 3;
      is_cleaning = bytes 4;
      is_stopped = bytes 5;
      is_faulty_detection_active = bytes 6;
      deliver_volume = half_at bytes 7;
      deliver_time = half_at bytes 9;
      time_generator_wait = word_at bytes 11;
      time_program_duration = word_at bytes 15;
      time_cleaning_group3_duration = word_at bytes 19;
      time_cleaning_group12_duration = word_at bytes 23;
      time_program_start = word_at bytes 27;
      time_program_stop = word_at bytes 31;
      time_generator_start = word_at bytes 35;
      time_current = word_at bytes 39;
    } in
    on_data store s

-- A ping: a request is sent back as an answer, in the same packet.
unfoldable pub ping : Server → Server
ping s =
    let bytes = set_at s.packet.data_bytes 1 command_ping_value_answer in
    let answer = record s { packet = record s.packet { data_bytes = bytes } } in
    if s.packet.data_bytes 1 == command_ping_value_request then send answer else s

-- `server_process_received_data()`
unfoldable pub process_received_data : Server → Server
process_received_data s =
    let command = s.packet.data_bytes 0 in
    if command == command_device_info
    then sized 15 device_info s
    else if command == command_sensor_flow_info
    then sized 30 sensor_flow_info s
    else if command == command_sensor_pressure_info
    then sized 3 sensor_pressure_info s
    else if command == command_info
    then sized 42 irrigation_info s
    else if command == command_ping
    then sized 1 ping s
    else s

-- `time_received_last = get_time();`
abbrev pub stamp_received : Server → Server
stamp_received s = let (time, t) = get_time s in record t { time_received_last = time }

-- `server_udp_update()`
unfoldable pub update : Server → Server
update s =
    let (is_received, t) = receive s in
    if not is_received then t else process_received_data (stamp_received t)

-- ===== src/Link/Shown.antt =====
-- The frames of a report (`interface_process_data` of arduino_client/src/interface.cpp), and what the
-- server shows whose packet holds one (`server_process_received_data` of
-- linux_server/src/server_udp.c).
use blueberry_irrigation_sys.Base.{
  ℕ, ◌+◌, ◌*◌, ◌≤◌, ◌<◌, ◌≡◌, ◌∙◌, refl, u8, u16, u32, all_below, half_same, word_same, cases_below,
  arith,
}
use blueberry_irrigation_sys.World.{now}
use blueberry_irrigation_sys.Internet.{Internet}
use blueberry_irrigation_sys.Firmware.{Firmware, set_body}
use blueberry_irrigation_sys.Interface.Info.{
  Cursor, device_frame, sensor_flow_frame, sensor_pressure_frame, irrigation_frame, program_value,
  irrigation_status_value,
}
use blueberry_irrigation_sys.Irrigation.{Status, finished, preparing, ready, finishing}
use blueberry_irrigation_sys.Interface.{half_at, word_at}
use blueberry_irrigation_sys.Server.{Server, IrrigationData}
use blueberry_irrigation_sys.Server.Process.{
  process_received_data, device_info, sensor_flow_info, sensor_pressure_info, irrigation_info,
}

-- The four frames of a report.
pub data Report : Type 0 where
  devices flow_sensors pressure_sensors irrigation : Report

abbrev pub frame : Report → Firmware → Cursor
frame devices = device_frame
frame flow_sensors = sensor_flow_frame
frame pressure_sensors = sensor_pressure_frame
frame irrigation = irrigation_frame

-- The connection where the firmware sends a frame of the report.
abbrev pub reporting : Report → Firmware → Internet
reporting r m =
    let (bytes, counter) = frame r m in
    record (set_body bytes counter m).internet { world = m.world }

-- The server shows the values of the irrigation.
pub record ShowsIrrigation (m : Firmware) (d : IrrigationData) : Type 0 where
  pub program : d.program ≡ u8 (program_value m.program)
  pub program_current : d.program_current ≡ u8 (program_value m.program_current)
  pub status : d.status ≡ irrigation_status_value m.status
  pub is_cleaning : d.is_cleaning ≡ u8 m.is_cleaning
  pub is_stopped : d.is_stopped ≡ u8 m.is_stopped
  pub is_faulty_detection_active : d.is_faulty_detection_active ≡ u8 m.is_faulty_detection_active
  pub deliver_volume : d.deliver_volume ≡ u16 m.deliver_volume
  pub deliver_time : d.deliver_time ≡ u16 m.deliver_time
  pub time_generator_wait : d.time_generator_wait ≡ u32 m.time_generator_wait
  pub time_program_duration : d.time_program_duration ≡ u32 m.time_program_duration
  pub time_cleaning_group3_duration :
      d.time_cleaning_group3_duration ≡ u32 m.time_cleaning_group3_duration
  pub time_cleaning_group12_duration :
      d.time_cleaning_group12_duration ≡ u32 m.time_cleaning_group12_duration
  pub time_program_start : d.time_program_start ≡ u32 m.time_program_start
  pub time_program_stop : d.time_program_stop ≡ u32 m.time_program_stop
  pub time_generator_start : d.time_generator_start ≡ u32 m.time_generator_start
  pub time_current : d.time_current ≡ u32 (now m.world)

-- The server shows the values that a frame of the report carries.
unfoldable pub Shows : Report → Firmware → IrrigationData → Type 0
Shows devices m d = (i : ℕ) → i < 15 → d.device_array i ≡ u8 (m.devices i).is_active
Shows flow_sensors m d =
    (i : ℕ)
    → i < 5
    → ((d.sensor_flow_array i).pulses_total ≡ u32 (m.flow_sensors.sensors i).pulses_total)
      × ((d.sensor_flow_array i).pulses_per_liter ≡ u16 (m.flow_sensors.sensors i).pulses_per_liter)
Shows pressure_sensors m d =
    (i : ℕ) → i < 3 → d.sensor_pressure_array i ≡ u8 (m.pressure_sensors.sensors i).pressure
Shows irrigation m d = ShowsIrrigation m d

pub frame-size : (r : Report) (m : Firmware) → (1 ≤ (frame r m).1) × ((frame r m).1 ≤ 61)
unfolding device_frame sensor_flow_frame sensor_pressure_frame irrigation_frame
frame-size devices m = (omega arith, omega arith)
frame-size flow_sensors m = (omega arith, omega arith)
frame-size pressure_sensors m = (omega arith, omega arith)
frame-size irrigation m = (omega arith, omega arith)

-- The packet of the server holds a frame of the report.
abbrev pub Holds : Report → Firmware → Server → Type 0
Holds r m t =
    (t.packet.size ≡ (frame r m).1)
    × ((j : ℕ) → j < (frame r m).1 → t.packet.data_bytes j ≡ (frame r m).0 j)

devices-Shows :
    (m : Firmware) (t : Server)
    → Holds devices m t
    → Shows devices m (process_received_data t).irrigation_data
unfolding process_received_data device_frame device_info Shows
devices-Shows m t (size, same) =
    let command : t.packet.data_bytes 0 ≡ 41 = same 0 (omega arith) in
    let byte =
      all_below 15 (λ i. t.packet.data_bytes (1 + i) ≡ (device_frame m).0 (1 + i))
        (λ i h. same (1 + i) (omega arith)) in
    rw (command, size) (cases_below 15 _ byte)

pressures-Shows :
    (m : Firmware) (t : Server)
    → Holds pressure_sensors m t
    → Shows pressure_sensors m (process_received_data t).irrigation_data
unfolding process_received_data sensor_pressure_frame sensor_pressure_info Shows
pressures-Shows m t (size, same) =
    let command : t.packet.data_bytes 0 ≡ 121 = same 0 (omega arith) in
    let byte =
      all_below 3 (λ i. t.packet.data_bytes (1 + i) ≡ (sensor_pressure_frame m).0 (1 + i))
        (λ i h. same (1 + i) (omega arith)) in
    rw (command, size) (cases_below 3 _ byte)

flows-Shows :
    (m : Firmware) (t : Server)
    → Holds flow_sensors m t
    → Shows flow_sensors m (process_received_data t).irrigation_data
unfolding process_received_data sensor_flow_frame sensor_flow_info Shows
flows-Shows m t (size, same) =
    let command : t.packet.data_bytes 0 ≡ 61 = same 0 (omega arith) in
    let bytes = t.packet.data_bytes in
    let sent = (sensor_flow_frame m).0 in
    let words =
      all_below 5
        (λ i.
          (word_at bytes (1 + i * 6) ≡ word_at sent (1 + i * 6))
          × (half_at bytes (5 + i * 6) ≡ half_at sent (5 + i * 6)))
        (λ i h. (
          ground (
            arith,
            same (1 + i * 6),
            same (1 + i * 6 + 1),
            same (1 + i * 6 + 2),
            same (1 + i * 6 + 3),
          ),
          ground (arith, same (5 + i * 6), same (5 + i * 6 + 1)),
        )) in
    rw (command, size) (cases_below 5 _ (ground (arith, words)))

status_small : (s : Status) → u8 (irrigation_status_value s) ≡ irrigation_status_value s
status_small finished = refl
status_small preparing = refl
status_small ready = refl
status_small finishing = refl

irrigation-Shows :
    (m : Firmware) (t : Server)
    → Holds irrigation m t
    → Shows irrigation m (process_received_data t).irrigation_data
unfolding process_received_data irrigation_frame irrigation_info Shows
irrigation-Shows m t (size, same) =
    let command : t.packet.data_bytes 0 ≡ 81 = same 0 (omega arith) in
    rw (command, size)
      (record {
        program = same 1 (omega arith);
        program_current = same 2 (omega arith);
        status = same 3 (omega arith) ∙ status_small m.status;
        is_cleaning = same 4 (omega arith);
        is_stopped = same 5 (omega arith);
        is_faulty_detection_active = same 6 (omega arith);
        deliver_volume = half_same m.deliver_volume (same 7 (omega arith)) (same 8 (omega arith));
        deliver_time = half_same m.deliver_time (same 9 (omega arith)) (same 10 (omega arith));
        time_generator_wait =
            word_same m.time_generator_wait (same 11 (omega arith)) (same 12 (omega arith))
              (same 13 (omega arith)) (same 14 (omega arith));
        time_program_duration =
            word_same m.time_program_duration (same 15 (omega arith)) (same 16 (omega arith))
              (same 17 (omega arith)) (same 18 (omega arith));
        time_cleaning_group3_duration =
            word_same m.time_cleaning_group3_duration (same 19 (omega arith))
              (same 20 (omega arith)) (same 21 (omega arith)) (same 22 (omega arith));
        time_cleaning_group12_duration =
            word_same m.time_cleaning_group12_duration (same 23 (omega arith))
              (same 24 (omega arith)) (same 25 (omega arith)) (same 26 (omega arith));
        time_program_start =
            word_same m.time_program_start (same 27 (omega arith)) (same 28 (omega arith))
              (same 29 (omega arith)) (same 30 (omega arith));
        time_program_stop =
            word_same m.time_program_stop (same 31 (omega arith)) (same 32 (omega arith))
              (same 33 (omega arith)) (same 34 (omega arith));
        time_generator_start =
            word_same m.time_generator_start (same 35 (omega arith)) (same 36 (omega arith))
              (same 37 (omega arith)) (same 38 (omega arith));
        time_current =
            word_same (now m.world) (same 39 (omega arith)) (same 40 (omega arith))
              (same 41 (omega arith)) (same 42 (omega arith));
      })

pub Holds-Shows :
    (r : Report) (m : Firmware) (t : Server)
    → Holds r m t
    → Shows r m (process_received_data t).irrigation_data
Holds-Shows devices = devices-Shows
Holds-Shows flow_sensors = flows-Shows
Holds-Shows pressure_sensors = pressures-Shows
Holds-Shows irrigation = irrigation-Shows

-- ===== src/Link/Whole.antt =====
-- A whole report: the reply to INTERFACE_COMMAND_CONTROL_IRRIGATION_INFO_ALL (`interface_process_data` of
-- arduino_client/src/interface.cpp), whose four datagrams the server takes one after the other.
use blueberry_irrigation_sys.Base.{
  ℕ, zero, suc, ◌+◌, ◌≡◌, ◌∙◌, refl, sym, subst, ap, List, [], ◌∷◌, Array, length, take, u32, arith,
}
use blueberry_irrigation_sys.World.{now}
use blueberry_irrigation_sys.Internet.{
  Internet, ready, Request, end_packet, bytes_from, write_frame,
}
use blueberry_irrigation_sys.Internet as Net
use blueberry_irrigation_sys.Firmware.{Firmware, ticked}
use blueberry_irrigation_sys.Interface.Info.{
  send, info_all, device_frame, sensor_flow_frame, sensor_pressure_frame, irrigation_frame,
}
use mathlib.Core.List.{reverse}
use blueberry_irrigation_sys.Server.{Server, ServerSensorFlow, IrrigationData, datagram}
use blueberry_irrigation_sys.Server.Receive.{receive}
use blueberry_irrigation_sys.Server.Process.{
  update, process_received_data, stamp_received, sensor_flow_info, sensor_pressure_info,
  irrigation_info,
}
use blueberry_irrigation_sys.Link.Shown.{
  Report, devices, flow_sensors, pressure_sensors, irrigation, frame, Shows, ShowsIrrigation, Holds,
  Holds-Shows, frame-size,
}
use blueberry_irrigation_sys.Link.Report.{update-sent}
use blueberry_irrigation_sys.Link.{IsUp, written, byte_at, sent}
use blueberry_irrigation_sys.Link.Datagrams.{
  datagrams, IsConnected, IsConnected-IsUp, length-written, sending, sending-IsConnected,
  after_send-IsConnected, after_send-datagrams, after_send_world,
}

-- The server takes datagrams one after the other, each in an update of its own.
abbrev pub Arrives : ℕ → ℕ → List (List ℕ) → Server → Type 0
Arrives ip port [] s = Unit
Arrives ip port (bytes ∷ rest) s =
    (s.kernel.recvfrom s.calls ≡ datagram ip port (length bytes) (λ j. byte_at j bytes))
    × Arrives ip port rest (update s)

abbrev pub updates : ℕ → Server → Server
updates zero s = s
updates (suc n) s = updates n (update s)

-- What the later frames of a report leave alone.
Kept : Report → IrrigationData → IrrigationData → Type 0
Kept devices d e = Unit
Kept flow_sensors d e = e.device_array ≡ d.device_array
Kept pressure_sensors d e =
    (e.device_array ≡ d.device_array) × (e.sensor_flow_array ≡ d.sensor_flow_array)
Kept irrigation d e =
    (e.device_array ≡ d.device_array)
    × (e.sensor_flow_array ≡ d.sensor_flow_array)
    × (e.sensor_pressure_array ≡ d.sensor_pressure_array)

Holds-Kept :
    (r : Report) (m : Firmware) (t : Server)
    → Holds r m t
    → Kept r t.irrigation_data (process_received_data t).irrigation_data
unfolding process_received_data sensor_flow_frame sensor_pressure_frame irrigation_frame
    sensor_flow_info sensor_pressure_info irrigation_info Kept
Holds-Kept devices m t h = tt
Holds-Kept flow_sensors m t (size, same) =
    let command : t.packet.data_bytes 0 ≡ 61 = same 0 (omega arith) in rw (command, size) refl
Holds-Kept pressure_sensors m t (size, same) =
    let command : t.packet.data_bytes 0 ≡ 121 = same 0 (omega arith) in
    rw (command, size) (refl, refl)
Holds-Kept irrigation m t (size, same) =
    let command : t.packet.data_bytes 0 ≡ 81 = same 0 (omega arith) in
    rw (command, size) (refl, refl, refl)

-- The server takes one frame of the report: it shows the frame's values, and the others as before.
taken :
    (r : Report) (m n : Firmware) (s : Server) (ip port : ℕ)
    → IsConnected n.internet
    → let bytes = written (Net.send (sending (frame r m) n)).log in
      s.kernel.recvfrom s.calls ≡ datagram ip port (length bytes) (λ j. byte_at j bytes)
      → Shows r m (update s).irrigation_data × Kept r s.irrigation_data (update s).irrigation_data
unfolding sent
taken r m n s ip port k arrives =
    let i = sending (frame r m) n in
    let up : IsUp i = IsConnected-IsUp i (sending-IsConnected (frame r m) n k) in
    let (low, high) = frame-size r m in
    let (step, size, body, info) =
      update-sent i s ip port up low high
        (arrives ∙ ap (λ x. datagram ip port x (sent i)) (length-written i up)) in
    let t = stamp_received (receive s).1 in
    let kept : Kept r s.irrigation_data (process_received_data t).irrigation_data =
      subst (λ d. Kept r d (process_received_data t).irrigation_data) info
        (Holds-Kept r m t (size, body)) in
    subst (λ u. Shows r m u.irrigation_data × Kept r s.irrigation_data u.irrigation_data) (sym step)
      (Holds-Shows r m t (size, body), kept)

-- The states of the firmware between the frames, and what they send.
abbrev after_devices : Firmware → Firmware
after_devices m = send (device_frame m) m

abbrev after_flows : Firmware → Firmware
after_flows m = let n = after_devices m in send (sensor_flow_frame n) n

abbrev after_pressures : Firmware → Firmware
after_pressures m = let n = after_flows m in send (sensor_pressure_frame n) n

abbrev bytes_of : Report → Firmware → Firmware → List ℕ
bytes_of r m n = written (Net.send (sending (frame r m) n)).log

info_all-datagrams :
    (m : Firmware)
    → IsConnected m.internet
    → datagrams (info_all m).internet.log
      ≡ bytes_of irrigation (after_pressures m) (ticked (after_pressures m))
        ∷ bytes_of pressure_sensors (after_flows m) (after_flows m)
        ∷ bytes_of flow_sensors (after_devices m) (after_devices m)
        ∷ bytes_of devices m m
        ∷ datagrams m.internet.log
unfolding info_all
info_all-datagrams m k0 =
    let m1 = after_devices m in
    let m2 = after_flows m in
    let m3 = after_pressures m in
    let k1 : IsConnected m1.internet = after_send-IsConnected (device_frame m) m k0 in
    let k2 : IsConnected m2.internet = after_send-IsConnected (sensor_flow_frame m1) m1 k1 in
    let k3 : IsConnected m3.internet = after_send-IsConnected (sensor_pressure_frame m2) m2 k2 in
    after_send-datagrams (irrigation_frame m3) (ticked m3) k3
    ∙ ap (λ l. bytes_of irrigation m3 (ticked m3) ∷ l)
        (after_send-datagrams (sensor_pressure_frame m2) m2 k2
          ∙ ap (λ l. bytes_of pressure_sensors m2 m2 ∷ l)
              (after_send-datagrams (sensor_flow_frame m1) m1 k1
                ∙ ap (λ l. bytes_of flow_sensors m1 m1 ∷ l)
                    (after_send-datagrams (device_frame m) m k0)))

-- The values do not change while they are sent, and the clock is not read.
irrigation-Shows_before :
    (m : Firmware) (d : IrrigationData)
    → ShowsIrrigation (after_pressures m) d
    → ShowsIrrigation m d
irrigation-Shows_before m d shown =
    let n1 = after_devices m in
    let n2 = after_flows m in
    let same : (after_pressures m).world ≡ m.world =
      after_send_world (sensor_pressure_frame n2) n2
      ∙ after_send_world (sensor_flow_frame n1) n1
      ∙ after_send_world (device_frame m) m in
    record {
      program = shown.program;
      program_current = shown.program_current;
      status = shown.status;
      is_cleaning = shown.is_cleaning;
      is_stopped = shown.is_stopped;
      is_faulty_detection_active = shown.is_faulty_detection_active;
      deliver_volume = shown.deliver_volume;
      deliver_time = shown.deliver_time;
      time_generator_wait = shown.time_generator_wait;
      time_program_duration = shown.time_program_duration;
      time_cleaning_group3_duration = shown.time_cleaning_group3_duration;
      time_cleaning_group12_duration = shown.time_cleaning_group12_duration;
      time_program_start = shown.time_program_start;
      time_program_stop = shown.time_program_stop;
      time_generator_start = shown.time_generator_start;
      time_current = shown.time_current ∙ ap (λ w. u32 (now w)) same;
    }

-- A whole report: the reply to a request for all values is four datagrams, and once the server has taken
-- them in their order, each in an update of its own, it shows every value of the firmware at one moment:
-- the devices, the flow and pressure sensors, the irrigation and the time. The firmware's connection is
-- up, and the library begins every packet.
pub info_all-Shows :
    (m : Firmware) (s : Server) (ip port : ℕ)
    → IsConnected m.internet
    → Arrives ip port (reverse (take 4 (datagrams (info_all m).internet.log))) s
    → (length (datagrams (info_all m).internet.log) ≡ length (datagrams m.internet.log) + 4)
      × ((r : Report) → Shows r m (updates 4 s).irrigation_data)
unfolding Shows Kept
info_all-Shows m s0 ip port k0 arrive =
    let m1 = after_devices m in
    let m2 = after_flows m in
    let m3 = after_pressures m in
    let k1 : IsConnected m1.internet = after_send-IsConnected (device_frame m) m k0 in
    let k2 : IsConnected m2.internet = after_send-IsConnected (sensor_flow_frame m1) m1 k1 in
    let k3 : IsConnected m3.internet = after_send-IsConnected (sensor_pressure_frame m2) m2 k2 in
    let log = info_all-datagrams m k0 in
    let (a1, rest1) = subst (λ l. Arrives ip port (reverse (take 4 l)) s0) log arrive in
    let (a2, rest2) = rest1 in
    let (a3, rest3) = rest2 in
    let (a4, end) = rest3 in
    let s1 = update s0 in
    let s2 = update s1 in
    let s3 = update s2 in
    let t1 = taken devices m m s0 ip port k0 a1 in
    let t2 = taken flow_sensors m1 m1 s1 ip port k1 a2 in
    let t3 = taken pressure_sensors m2 m2 s2 ip port k2 a3 in
    let t4 = taken irrigation m3 (ticked m3) s3 ip port k3 a4 in
    let same_devices = t4.1.0 ∙ t3.1.0 ∙ t2.1 in
    let same_flows = t4.1.1 ∙ t3.1.1 in
    (
      ap length log ∙ omega arith,
      λ r. elim r as (λ x. Shows x m (updates 4 s0).irrigation_data) [
        | devices ↦ λ i h. ap (λ (a : Array ℕ). a i) same_devices ∙ t1.0 i h
        | flow_sensors ↦ λ i h. (
          ap (λ (a : Array ServerSensorFlow). (a i).pulses_total) same_flows ∙ (t2.0 i h).0,
          ap (λ (a : Array ServerSensorFlow). (a i).pulses_per_liter) same_flows ∙ (t2.0 i h).1,
        )
        | pressure_sensors ↦ λ i h. ap (λ (a : Array ℕ). a i) t4.1.2 ∙ t3.0 i h
        | irrigation ↦ irrigation-Shows_before m (update s3).irrigation_data t4.0
      ],
    )

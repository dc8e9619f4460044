-- ===== src/Interface/Safety.antt =====
-- The relays under the requests from the network.
use blueberry_irrigation_sys.Base.{
  ℕ, ◌<◌, ◌≡◌, ◌⊎◌, inl, refl, true, ◌==◌, if_intro, if_split, is_true, arith,
}
use blueberry_irrigation_sys.Device.Steps.{here, read}
use blueberry_irrigation_sys.Irrigation.{start, force_stop, resume, faulty_detection_toggle}
use blueberry_irrigation_sys.Irrigation.Evolution.{
  start-Moves, force_stop-Moves, resume-Moves, faulty_detection_toggle-Moves,
}
use blueberry_irrigation_sys.Internet.{Internet}
use blueberry_irrigation_sys.Internet as Net
use blueberry_irrigation_sys.Firmware.{Firmware, on_irrigation, ticked, body, set_body}
use blueberry_irrigation_sys.Interface.{
  reset, device_toggle, device_time_switch_minimum, sensor_flow_pulses_per_liter, irrigation_start,
  is_faulty_detection_active_set, is_send_info_set, deliver_volume_set, deliver_time_set,
  generator_wait_time_set, program_duration_set, cleaning_group3_duration_set,
  cleaning_group12_duration_set, ping, program_of,
}
use blueberry_irrigation_sys.Interface.Info.{
  Cursor, info_all, device_frame, sensor_flow_frame, sensor_pressure_frame, irrigation_frame,
}
use blueberry_irrigation_sys.Interface.Info as Info
use blueberry_irrigation_sys.Interface.Process.{
  execute, execute_setting, process_command, process_data, request_info,
}
use blueberry_irrigation_sys.Interface.Steady.{
  IsSteady, Keeps, device_time_switch_minimum-IsSteady, device_toggle-IsSteady, evolves,
  irrigation-IsSteady, on_internet-IsSteady, ping-IsSteady, reset-IsSteady, send-IsQuietStep,
  settings-IsSteady, sized-IsSteady,
}

execute_setting-IsSteady : (c : ℕ) → Keeps (execute_setting c)
unfolding execute_setting deliver_volume_set deliver_time_set generator_wait_time_set
    program_duration_set cleaning_group3_duration_set cleaning_group12_duration_set
execute_setting-IsSteady c m s =
    if_intro IsSteady _
      (sized-IsSteady 2 deliver_volume_set m (settings-IsSteady m (deliver_volume_set m) refl refl)
        s)
      (if_intro IsSteady _
        (sized-IsSteady 2 deliver_time_set m (settings-IsSteady m (deliver_time_set m) refl refl) s)
        (if_intro IsSteady _
          (sized-IsSteady 4 generator_wait_time_set m
            (settings-IsSteady m (generator_wait_time_set m) refl refl) s)
          (if_intro IsSteady _
            (sized-IsSteady 4 program_duration_set m
              (settings-IsSteady m (program_duration_set m) refl refl) s)
            (if_intro IsSteady _
              (sized-IsSteady 4 cleaning_group3_duration_set m
                (settings-IsSteady m (cleaning_group3_duration_set m) refl refl) s)
              (if_intro IsSteady _
                (sized-IsSteady 4 cleaning_group12_duration_set m
                  (settings-IsSteady m (cleaning_group12_duration_set m) refl refl) s)
                (if_intro IsSteady _ (sized-IsSteady 1 ping m (ping-IsSteady m) s) s))))))

-- The index that comes with a request is in its array: that of a device, and that of a flow sensor.
pub record InRange (m : Firmware) : Type 0 where
  pub device :
      is_true m.internet.is_receive_wait ≡ true → (body m 0 ≡ 42) ⊎ (body m 0 ≡ 43) → body m 1 < 15
  pub sensor : is_true m.internet.is_receive_wait ≡ true → body m 0 ≡ 62 → body m 1 < 5

code : (c k : ℕ) → (c == k) ≡ true → c ≡ k
code c k e = ground (arith, e)

execute-IsSteady :
    (c : ℕ) (m : Firmware) → (c ≡ 42 → body m 1 < 15) → IsSteady m → IsSteady (execute c m)
unfolding execute sensor_flow_pulses_per_liter is_send_info_set is_faulty_detection_active_set
    irrigation_start
execute-IsSteady c m range s = if_intro IsSteady _ (sized-IsSteady 0 reset m (reset-IsSteady m) s) (
    if_split IsSteady (c == 42)
      (λ e. sized-IsSteady 2 device_toggle m (device_toggle-IsSteady m (range (code c 42 e))) s)
      (if_intro IsSteady _
        (sized-IsSteady 2 device_time_switch_minimum m (device_time_switch_minimum-IsSteady m) s)
        (if_intro IsSteady _
          (sized-IsSteady 3 sensor_flow_pulses_per_liter m
            (settings-IsSteady m (sensor_flow_pulses_per_liter m) refl refl) s)
          (if_intro IsSteady _
            (sized-IsSteady 1 is_send_info_set m
              (settings-IsSteady m (is_send_info_set m) refl refl) s)
            (if_intro IsSteady _
              (sized-IsSteady 1 is_faulty_detection_active_set m
                (irrigation-IsSteady (faulty_detection_toggle (body m 1)) m
                  (faulty_detection_toggle-Moves (body m 1) m.irrigation))
                s)
              (if_intro IsSteady _
                (sized-IsSteady 2 irrigation_start m
                  (irrigation-IsSteady (start (program_of (body m 1)) (body m 2)) m
                    (start-Moves (program_of (body m 1)) (body m 2) m.irrigation))
                  s)
                (if_intro IsSteady _
                  (sized-IsSteady 0 (on_irrigation force_stop) m
                    (irrigation-IsSteady force_stop m
                      (force_stop-Moves m.irrigation s.safe.planned))
                    s)
                  (if_intro IsSteady _
                    (sized-IsSteady 0 (on_irrigation resume) m
                      (irrigation-IsSteady resume m (resume-Moves m.irrigation)) s)
                    (execute_setting-IsSteady c m s)))))))))

send-IsSteady : (c : Cursor) → Keeps (Info.send c)
send-IsSteady (bytes, counter) m s =
    on_internet-IsSteady Net.send send-IsQuietStep (set_body bytes counter m)
      (record { safe = s.safe })

pub ticked-IsSteady : Keeps ticked
ticked-IsSteady m s =
    evolves m (ticked m) (record { steps = read here; device = λ i. refl; sensor = λ i. refl }) s

info_all-IsSteady : Keeps info_all
unfolding info_all
info_all-IsSteady m s =
    let m1 = Info.send (device_frame m) m in
    let m2 = Info.send (sensor_flow_frame m1) m1 in
    let m3 = Info.send (sensor_pressure_frame m2) m2 in
    let s3 : IsSteady m3 = send-IsSteady _ m2 (send-IsSteady _ m1 (send-IsSteady _ m s)) in
    send-IsSteady (irrigation_frame m3) (ticked m3) (ticked-IsSteady m3 s3)

process_command-IsSteady :
    (m : Firmware) → (body m 0 ≡ 42 → body m 1 < 15) → IsSteady m → IsSteady (process_command m)
unfolding process_command
process_command-IsSteady m range s =
    if_intro IsSteady _ (if_intro IsSteady _ s (record { safe = (info_all-IsSteady m s).safe }))
      (record { safe = (execute-IsSteady (body m 0) m range s).safe })

pub process_data-IsSteady : (m : Firmware) → InRange m → IsSteady m → IsSteady (process_data m)
unfolding process_data request_info
process_data-IsSteady m range s =
    let t = ticked m in
    let r = request_info t in
    let u : IsSteady r =
      unfold request_info in record { safe = (ticked-IsSteady t (ticked-IsSteady m s)).safe } in
    if_split IsSteady (is_true m.internet.is_receive_wait)
      (λ w. process_command-IsSteady m (λ e. range.device w (inl e)) s)
      (if_intro IsSteady _ s (
        if_intro IsSteady _ (ticked-IsSteady m s)
          (process_command-IsSteady r (λ e. ground (arith, e)) u)))

-- ===== src/InterfaceSerial/Safety.antt =====
-- The relays under the commands from the serial port.
use blueberry_irrigation_sys.Base.{
  ℕ, zero, suc, ◌-◌, ◌<◌, ◌≡◌, refl, sym, subst, true, Array, set_at, u8, u16, sub16, ◌==◌,
  if_intro, if_split, arith,
}
use blueberry_irrigation_sys.Device
use blueberry_irrigation_sys.Device.Steps.{here, toggled}
use blueberry_irrigation_sys.SensorFlow.{FlowSensors, pulses_total_set, pulses_per_liter_set}
use blueberry_irrigation_sys.ControlFlow
use blueberry_irrigation_sys.ControlFlow.Evolution.{start-Evolves, stop-Evolves, pause-Evolves}
use blueberry_irrigation_sys.ControlFlow.Wiring.{IsSafe}
use blueberry_irrigation_sys.Irrigation
use blueberry_irrigation_sys.Irrigation.{Irrigation}
use blueberry_irrigation_sys.Irrigation.Evolution.{start-Moves, force_stop-Moves, resume-Moves}
use blueberry_irrigation_sys.Internet
use blueberry_irrigation_sys.Internet.Quiet.{
  Quietly, nothing, restart_hard-Quietly, restart_soft-Quietly, ip_remote_update_world,
}
use blueberry_irrigation_sys.Firmware.{Firmware, set_body, body, on_the_plant, ticked}
use blueberry_irrigation_sys.Interface.{program_of}
use blueberry_irrigation_sys.Interface.Steady.{
  IsSteady, Keeps, evolves, stepped, on_internet-IsSteady, send-IsQuietStep, reset-IsSteady,
  settings-IsSteady, irrigation-IsSteady,
}
use blueberry_irrigation_sys.Interface.Safety.{ticked-IsSteady}
use blueberry_irrigation_sys.InterfaceSerial.Number.{
  ask_available, ask_read, read_digits, serial_number_read,
}
use blueberry_irrigation_sys.InterfaceSerial.{
  read_digit, on_flow_sensors, pulses_total_add, ping, device, sensor_flow, control_flow,
  control_irrigation, control, connection, user_input, flow_print, update, send_packet,
}

-- The reading of a number leaves the irrigation alone.
read_digits_irrigation :
    (room counter : ℕ) (c : Array ℕ) (m : Firmware)
    → (read_digits room c counter m).2.irrigation ≡ m.irrigation
unfolding read_digits
read_digits_irrigation zero counter c m = refl
read_digits_irrigation (suc room) counter c m =
    let (x, t) = ask_read m in
    ground (arith, read_digits_irrigation room (suc counter) (set_at c counter (x - 48)) t)

number-IsSteady : Keeps (λ m. (serial_number_read m).1)
unfolding serial_number_read
number-IsSteady m s = record {
  safe =
      subst (λ (i : Irrigation). IsSafe i.plant) (sym (read_digits_irrigation 10 0 (λ i. 0) m))
        s.safe;
}

-- The firmware after the first character.
abbrev pub heard : Firmware → ℕ × Firmware
heard m = ask_read (ask_available m).1

-- What is typed in stays in the arrays: the index of a device, of a flow sensor, and of a program of
-- the flow control, and the digits of a number.
pub record TypedInRange (m : Firmware) : Type 0 where
  pub device : (heard m).0 ≡ b'd' → (serial_number_read (heard m).1).0 < 15
  pub sensor :
      (heard m).0 ≡ b'f'
      → let (choice, t) = ask_read (heard m).1 in
        let (index, u) = ask_read t in
        (choice ≡ b'r' → u16 index < 5)
        × (choice ≡ b's' → sub16 index 48 < 5)
        × (choice ≡ b'a' → sub16 index 48 < 5)
  pub flow :
      (heard m).0 ≡ b'c'
      → (ask_read (heard m).1).0 ≡ b'f'
      → let (choice, t) = ask_read (ask_read (heard m).1).1 in
        let (first, u) = read_digit t in
        (choice ≡ b's' → first < 6)
        × (choice ≡ b'p' → (read_digit u).0 < 6)
        × (choice ≡ b'a' → first < 6)
  pub number : (user_input m).serial.is_overrun ≡ 0

code : (c k : ℕ) → (c == k) ≡ true → c ≡ k
code c k e = ground (arith, e)

packet-IsSteady : (bytes : Array ℕ) (size : ℕ) → Keeps (send_packet bytes size)
packet-IsSteady bytes size m s =
    on_internet-IsSteady Internet.send send-IsQuietStep (set_body bytes size m)
      (record { safe = s.safe })

device-IsSteady : (m : Firmware) → (serial_number_read m).0 < 15 → IsSteady m → IsSteady (device m)
unfolding device
device-IsSteady m h s =
    let (aa, t) = serial_number_read m in
    let (bb, u) = read_digit t in
    stepped u (Device.toggle u.board aa (u8 bb)) (toggled here aa (u8 bb) h)
      (record { safe = (number-IsSteady m s).safe })

flow_sensors-IsSteady : (f : FlowSensors → FlowSensors) → Keeps (on_flow_sensors f)
flow_sensors-IsSteady f m s = settings-IsSteady m (on_flow_sensors f m) refl refl s

sensor_flow-IsSteady : Keeps sensor_flow
unfolding sensor_flow
sensor_flow-IsSteady m s =
    let (choice, t) = ask_read m in
    let (aa, u) = ask_read t in
    let (bb, v) = serial_number_read u in
    let n : IsSteady v = number-IsSteady u (record { safe = s.safe }) in
    let printed = record u { serial = record u.serial { is_print = u8 (sub16 aa 48) } } in
    if_intro IsSteady (choice == b'r')
      (flow_sensors-IsSteady (λ x. pulses_total_set x (u16 aa) bb) v n)
      (if_intro IsSteady (choice == b's')
        (flow_sensors-IsSteady (λ x. pulses_per_liter_set x (sub16 aa 48) bb) v n)
        (if_intro IsSteady (choice == b'p') {x = printed} (record { safe = s.safe })
          (if_intro IsSteady (choice == b'a') {y = t}
            (flow_sensors-IsSteady (λ x. pulses_total_add x (sub16 aa 48) bb) v n)
            (record { safe = s.safe }))))

control_flow-IsSteady :
    (m : Firmware)
    → (let (choice, t) = ask_read m in
        let (first, u) = read_digit t in
        (choice ≡ b's' → first < 6) × (choice ≡ b'p' → (read_digit u).0 < 6))
    → IsSteady m
    → IsSteady (control_flow m)
unfolding control_flow
control_flow-IsSteady m (stops, pauses) s =
    let (choice, t) = ask_read m in
    let (aa, u) = read_digit t in
    let (bb, v) = serial_number_read u in
    let (cc, w) = serial_number_read v in
    let (second, x) = read_digit u in
    let nw : IsSteady w = number-IsSteady v (number-IsSteady u (record { safe = s.safe })) in
    if_intro IsSteady _ (evolves w _ (start-Evolves w.plant aa bb cc) nw) (
      if_split IsSteady (choice == b's')
        (λ e.
          evolves u (on_the_plant (λ p. ControlFlow.stop p aa) u)
            (stop-Evolves u.plant aa s.safe.planned (stops (code choice b's' e)))
            (record { safe = s.safe }))
        (if_split IsSteady (choice == b'p')
          (λ e.
            evolves x (on_the_plant (λ p. ControlFlow.pause p second (u8 second)) x)
              (pause-Evolves x.plant second (u8 second) s.safe.planned
                (pauses (code choice b'p' e)))
              (record { safe = s.safe }))
          (record { safe = s.safe })))

control_irrigation-IsSteady : Keeps control_irrigation
unfolding control_irrigation
control_irrigation-IsSteady m s =
    let (choice, t) = ask_read m in
    let (aa, u) = read_digit t in
    let (bb, v) = read_digit u in
    if_intro IsSteady _
      (irrigation-IsSteady (Irrigation.start (program_of aa) (u8 bb)) v
        (start-Moves (program_of aa) (u8 bb) m.irrigation) (record { safe = s.safe }))
      (if_intro IsSteady _
        (irrigation-IsSteady Irrigation.force_stop t (force_stop-Moves m.irrigation s.safe.planned)
          (record { safe = s.safe }))
        (if_intro IsSteady _
          (irrigation-IsSteady Irrigation.resume t (resume-Moves m.irrigation)
            (record { safe = s.safe }))
          (record { safe = s.safe })))

connection-IsSteady : Keeps connection
unfolding connection
connection-IsSteady m s =
    let (choice, t) = ask_read m in
    let (first, u) = read_digit t in
    let (second, v) = read_digit u in
    let st : IsSteady t = record { safe = s.safe } in
    if_intro IsSteady _ (on_internet-IsSteady Internet.restart_hard restart_hard-Quietly t st) (
      if_intro IsSteady _ (on_internet-IsSteady Internet.restart_soft restart_soft-Quietly t st) (
        if_intro IsSteady _
          (on_internet-IsSteady (λ i. (Internet.ip_remote_update i).1)
            (λ i. subst (Quietly i.world) (sym (ip_remote_update_world i)) nothing) t st)
          (if_intro IsSteady (choice == b'o')
            (packet-IsSteady (set_at (body u) 0 (u8 first)) 1 u (record { safe = s.safe }))
            (if_intro IsSteady (choice == b't')
              (packet-IsSteady (set_at (set_at (body v) 0 (u8 first)) 1 (u8 second)) 2 v
                (record { safe = s.safe }))
              st))))

user_input-IsSteady : (m : Firmware) → TypedInRange m → IsSteady m → IsSteady (user_input m)
unfolding user_input ping control
user_input-IsSteady m range s =
    let (choice, u) = heard m in
    let su : IsSteady u = record { safe = s.safe } in
    if_intro IsSteady _ (record { safe = s.safe })
      (if_intro IsSteady _ (packet-IsSteady _ 2 u su) (
        if_intro IsSteady _ (reset-IsSteady u su) (
          if_split IsSteady (choice == b'd')
            (λ e. device-IsSteady u (range.device (code choice b'd' e)) su)
            (if_intro IsSteady _ (sensor_flow-IsSteady u su) (
              if_split IsSteady (choice == b'c')
                (λ e.
                  let (next, t) = ask_read u in
                  let st : IsSteady t = record { safe = s.safe } in
                  if_split IsSteady (next == b'f')
                    (λ f.
                      control_flow-IsSteady t
                        (
                          (range.flow (code choice b'c' e) (code next b'f' f)).0,
                          (range.flow (code choice b'c' e) (code next b'f' f)).1,
                        )
                        st)
                    (if_intro IsSteady _ (control_irrigation-IsSteady t st) st))
                (if_intro IsSteady _ (connection-IsSteady u su) su))))))

flow_print-IsSteady : Keeps flow_print
unfolding flow_print
flow_print-IsSteady m s =
    let t = ticked-IsSteady m s in
    if_intro IsSteady _ t (record { safe = (ticked-IsSteady (ticked m) t).safe })

pub update-IsSteady : (m : Firmware) → TypedInRange m → IsSteady m → IsSteady (update m)
unfolding update
update-IsSteady m range s =
    let t = user_input-IsSteady m range s in
    if_intro IsSteady _ (flow_print-IsSteady (user_input m) t) t

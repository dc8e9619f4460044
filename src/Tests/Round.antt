-- ===== src/Tests/Round.antt =====
-- The theorem on an order in a round of the main loop at a concrete input.
use blueberry_irrigation_sys.Base.{ℕ, ◌≡◌, refl}
use blueberry_irrigation_sys.Base.{◌-◌, ◌==◌, if◌then◌else◌, arith}
use blueberry_irrigation_sys.World.{now}
use blueberry_irrigation_sys.Internet.{Internet, ready}
use blueberry_irrigation_sys.Irrigation.{boot}
use blueberry_irrigation_sys.Tests.{farm}
use blueberry_irrigation_sys.Firmware.{Firmware}
use blueberry_irrigation_sys.Interface.Process.{done}
use blueberry_irrigation_sys.InterfaceSerial
use blueberry_irrigation_sys.Main.{before_internet, before_interface, interface_update, led_switch}
use blueberry_irrigation_sys.Server.Input.{
  user_input_get, serial_number_read, add_digits_16, read_digits,
}
use blueberry_irrigation_sys.Link.Order.{toggle_device, meaning}
use blueberry_irrigation_sys.Link.Typing.{typed_toggle, connection}
use blueberry_irrigation_sys.Link.Round.{IsListening, interface_update-Typed}
use blueberry_irrigation_sys.Tests.Network.{connected}
use blueberry_irrigation_sys.Tests.Whole.{station, silent_port, no_pulses}
use blueberry_irrigation_sys.Tests.Link.{typist, replies_with}
use blueberry_irrigation_sys.World.{called}
use blueberry_irrigation_sys.Base.{u8, sub32, subst, sym, ap, ◌<◌}
use blueberry_irrigation_sys.Device
use blueberry_irrigation_sys.SensorFlow.{interrupts}
use blueberry_irrigation_sys.SensorFlow
use blueberry_irrigation_sys.SensorPressure
use blueberry_irrigation_sys.ControlFlow.{sensor_flow_update, sensor_pressure_update}
use blueberry_irrigation_sys.ControlFlow.Update.{detect, update_water, update_pump, update_flow}
use blueberry_irrigation_sys.ControlFlow.Update as FlowUpdate
use blueberry_irrigation_sys.Irrigation.Update as IrrigationUpdate
use blueberry_irrigation_sys.Internet.{ticked, ask, parse_packet}
use blueberry_irrigation_sys.Internet.Receive.{set_size}
use blueberry_irrigation_sys.Internet.Update.{ping_if_due}
use blueberry_irrigation_sys.Server.Input.{user_input_process_data}
use blueberry_irrigation_sys.Link.Command.{Delivers, last_bytes}
use blueberry_irrigation_sys.Link.Round.{polled}

-- The datagram of `d3 1` waits at the firmware.
abbrev poll_replies : ℕ → ℕ
poll_replies k = if k == 0 then 7 else replies_with (k - 1)

abbrev hearer : Firmware
hearer =
    let i = connected 3 0 0 in
    record (station (record i { library = record i.library { result = poll_replies } })
      silent_port) { irrigation = boot farm }

-- The connection where its step begins, in a round without interrupts.
abbrev hearing : Internet
hearing = connection (before_internet no_pulses hearer)

hearing_now : (now hearing.world ≡ 300) × (now (called hearing.world) ≡ 400)
unfolding before_internet led_switch boot IrrigationUpdate.update IrrigationUpdate.update_status
    FlowUpdate.update detect update_water update_pump update_flow sensor_pressure_update
    sensor_flow_update SensorPressure.update SensorFlow.update Device.update interrupts
hearing_now = (refl, refl)

hearing_same :
    (hearing.status ≡ ready)
    × (hearing.time_receive_last ≡ 0)
    × (hearing.time_ping_send_last ≡ 0)
    × (hearing.is_receive_wait ≡ 0)
unfolding before_internet led_switch
hearing_same = (refl, refl, refl, refl)

hearing-IsListening : IsListening hearing
hearing-IsListening =
    let (up, last, ping, free) = hearing_same in
    record { status = up; heard = omega (arith, hearing_now.0, last); free = free }

-- No ping is due, and the library says that a datagram is there.
pub ping_if_due-early :
    (i : Internet) → sub32 (now i.world) i.time_ping_send_last < 5000 → ping_if_due i ≡ ticked i
unfolding ping_if_due
ping_if_due-early i early = ground (arith, early)

polled-hearing :
    polled hearing
    ≡ (let (parsed, t) = ask parse_packet (ticked (ticked hearing)) in set_size (u8 parsed) t)
polled-hearing =
    let (up, last, ping, free) = hearing_same in
    ap (λ i. let (parsed, t) = ask parse_packet i in set_size (u8 parsed) t)
      (ping_if_due-early (ticked hearing) (omega (arith, hearing_now.1, ping)))

hearing-Delivers : Delivers (polled hearing) 7 (last_bytes (user_input_process_data typist).sent)
unfolding before_internet led_switch
hearing-Delivers =
    subst (λ i. Delivers i 7 (last_bytes (user_input_process_data typist).sent))
      (sym polled-hearing)
      (record { from = refl; port = refl; size = refl; byte = λ j h. ground arith; idle = refl })

interface_update-Typed_example :
    interface_update (before_interface no_pulses hearer)
    ≡ InterfaceSerial.update
        (done (meaning (toggle_device 3 1) (before_interface no_pulses hearer)))
unfolding user_input_get serial_number_read add_digits_16 read_digits
interface_update-Typed_example =
    interface_update-Typed typist _ (toggle_device 3 1) no_pulses hearer
      (typed_toggle typist _ _ _ 3 b'1' (refl, refl) refl refl) refl hearing-IsListening
      hearing-Delivers

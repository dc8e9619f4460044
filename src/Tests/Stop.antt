-- ===== src/Tests/Stop.antt =====
-- The theorem on the order to stop at a concrete input.
use blueberry_irrigation_sys.Base.{ℕ, ◌≡◌, refl}
use blueberry_irrigation_sys.Base.{◌-◌, ◌==◌, if◌then◌else◌, arith}
use blueberry_irrigation_sys.World.{now}
use blueberry_irrigation_sys.Internet.{Internet, ready}
use blueberry_irrigation_sys.Irrigation.{boot}
use blueberry_irrigation_sys.Firmware.{Firmware}
use blueberry_irrigation_sys.Main.{before_internet, led_switch}
use blueberry_irrigation_sys.Server.Input.{user_input_get}
use blueberry_irrigation_sys.Link.Typing.{connection}
use blueberry_irrigation_sys.Link.Round.{IsListening}
use blueberry_irrigation_sys.Tests.Network.{connected}
use blueberry_irrigation_sys.Tests.Whole.{station, silent_port, no_pulses}
use blueberry_irrigation_sys.World.{called}
use blueberry_irrigation_sys.Base.{u8, subst, sym, ap}
use blueberry_irrigation_sys.Device
use blueberry_irrigation_sys.SensorFlow.{interrupts}
use blueberry_irrigation_sys.SensorFlow
use blueberry_irrigation_sys.SensorPressure
use blueberry_irrigation_sys.ControlFlow.{sensor_flow_update, sensor_pressure_update}
use blueberry_irrigation_sys.ControlFlow.Update.{detect, update_water, update_pump, update_flow}
use blueberry_irrigation_sys.ControlFlow.Update as FlowUpdate
use blueberry_irrigation_sys.Irrigation.Update as IrrigationUpdate
use blueberry_irrigation_sys.Internet.{ticked, ask, parse_packet}
use blueberry_irrigation_sys.Internet.Receive.{set_size}
use blueberry_irrigation_sys.Server.Input.{user_input_process_data}
use blueberry_irrigation_sys.Link.Command.{Delivers, last_bytes}
use blueberry_irrigation_sys.Link.Round.{polled}
use blueberry_irrigation_sys.Base.{some}
use blueberry_irrigation_sys.World.{level}
use blueberry_irrigation_sys.Device.{relay_off}
use blueberry_irrigation_sys.Device.Relays.{pin_of}
use blueberry_irrigation_sys.Interface.Steady.{IsSteady}
use blueberry_irrigation_sys.Main.{loop}
use blueberry_irrigation_sys.Irrigation
use blueberry_irrigation_sys.Server.{Server, nothing}
use blueberry_irrigation_sys.Link.{byte_at}
use blueberry_irrigation_sys.Link.Typing.{typed_stop}
use blueberry_irrigation_sys.Link.Stop.{loop-stops}
use blueberry_irrigation_sys.Tests.Link.{started, kernel_with}
use blueberry_irrigation_sys.Device.Init as DeviceInit
use blueberry_irrigation_sys.Device.{toggle}
use blueberry_irrigation_sys.SensorFlow.Init as FlowInit
use blueberry_irrigation_sys.ControlFlow
use blueberry_irrigation_sys.Irrigation.{start, start_fuel, prepare, choose}
use blueberry_irrigation_sys.Irrigation.Run.{run, act}
use blueberry_irrigation_sys.Tests.Ending.{begun, begun-IsGuarded}
use blueberry_irrigation_sys.Tests.Round.{ping_if_due-early}

-- `cs`: everything is to stop.
abbrev stop_characters : ℕ → ℕ
stop_characters k = if k == 1 then b'c' else b's'

abbrev stopper : Server
stopper = started (kernel_with nothing stop_characters)

-- Its datagram waits at the firmware, whose generator is running.
abbrev stop_replies : ℕ → ℕ
stop_replies k =
    if k == 0
    then 5
    else if k == 1
    then 9000
    else if k == 2
    then 5432
    else byte_at (k - 3) (last_bytes (user_input_process_data stopper).sent)

abbrev obedient : Firmware
obedient =
    let i = connected 3 0 0 in
    record (station (record i { library = record i.library { result = stop_replies } })
      silent_port) { irrigation = begun }

obedient-IsSteady : IsSteady obedient
obedient-IsSteady = record { safe = begun-IsGuarded.safe }

-- The connection where its step begins, in a round without interrupts.
abbrev obeying : Internet
obeying = connection (before_internet no_pulses obedient)

obeying_now : (now obeying.world ≡ 600) × (now (called obeying.world) ≡ 700)
unfolding before_internet led_switch boot IrrigationUpdate.update IrrigationUpdate.update_status
    FlowUpdate.update detect update_water update_pump update_flow sensor_pressure_update
    sensor_flow_update SensorPressure.update SensorFlow.update Device.update interrupts
    Irrigation.init ControlFlow.init DeviceInit.init SensorPressure.init FlowInit.init run act start
    start_fuel prepare choose toggle
obeying_now = (refl, refl)

obeying_same :
    (obeying.status ≡ ready)
    × (obeying.time_receive_last ≡ 0)
    × (obeying.time_ping_send_last ≡ 0)
    × (obeying.is_receive_wait ≡ 0)
unfolding before_internet led_switch
obeying_same = (refl, refl, refl, refl)

obeying-IsListening : IsListening obeying
obeying-IsListening =
    let (up, last, ping, free) = obeying_same in
    record { status = up; heard = omega (arith, obeying_now.0, last); free = free }

polled-obeying :
    polled obeying
    ≡ (let (parsed, t) = ask parse_packet (ticked (ticked obeying)) in set_size (u8 parsed) t)
polled-obeying =
    let (up, last, ping, free) = obeying_same in
    ap (λ i. let (parsed, t) = ask parse_packet i in set_size (u8 parsed) t)
      (ping_if_due-early (ticked obeying) (omega (arith, obeying_now.1, ping)))

obeying-Delivers : Delivers (polled obeying) 5 (last_bytes (user_input_process_data stopper).sent)
unfolding before_internet led_switch
obeying-Delivers =
    subst (λ i. Delivers i 5 (last_bytes (user_input_process_data stopper).sent))
      (sym polled-obeying)
      (record { from = refl; port = refl; size = refl; byte = λ j h. ground arith; idle = refl })

loop-stops_example :
    (((loop no_pulses obedient).devices 0).is_active ≡ 0)
    × (level (pin_of 0) (loop no_pulses obedient).trace ≡ some relay_off)
unfolding user_input_get
loop-stops_example =
    loop-stops stopper _ no_pulses obedient 0 (typed_stop stopper _ (_, (refl, refl), refl)) refl
      obeying-IsListening obeying-Delivers refl obedient-IsSteady (omega arith)

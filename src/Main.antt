-- ===== src/Main.antt =====
-- arduino_client/src/main.cpp: the start and the main loop. The watchdog of the board and the delay at
-- the start have no part in the model's state. The interrupts of the flow sensors that come while the loop
-- runs are given as those before each of its steps.
pub mod Stuck
pub mod Safety
use blueberry_irrigation_sys.Base.{ℕ, zero, suc, Bool, not, List, [], ◌∷◌, if◌then◌else◌, is_true}
use blueberry_irrigation_sys.World.{World, output, pin_mode, perform, write}
use blueberry_irrigation_sys.Device.{Board}
use blueberry_irrigation_sys.Device
use blueberry_irrigation_sys.Device.Init as DeviceInit
use blueberry_irrigation_sys.SensorFlow.{Pulses}
use blueberry_irrigation_sys.SensorFlow.Init as FlowInit
use blueberry_irrigation_sys.SensorPressure
use blueberry_irrigation_sys.ControlFlow.{Plant, sensor_flow_update, sensor_pressure_update}
use blueberry_irrigation_sys.ControlFlow
use blueberry_irrigation_sys.ControlSafety
use blueberry_irrigation_sys.Irrigation
use blueberry_irrigation_sys.Internet
use blueberry_irrigation_sys.Firmware.{
  Firmware, on_irrigation, on_the_plant, on_the_board, on_the_world, on_internet,
}
use blueberry_irrigation_sys.Interface.Process.{process_data}
use blueberry_irrigation_sys.InterfaceSerial

abbrev pub led_pin : ℕ
led_pin = 13

-- `led_switch()`
unfoldable pub led_switch : Firmware → Firmware
led_switch m =
    let is_active = if is_true m.led_is_active then 0 else 1 in
    record (on_the_world (write led_pin is_active) m) { led_is_active = is_active }

-- `sensor_flow_init()` and `sensor_pressure_init()` on the plant.
unfoldable pub sensor_flow_init : Plant → Plant
sensor_flow_init p =
    let (w, sensors) = FlowInit.init p.world p.flow_sensors in
    record p { board = record p.board { world = w }; flow_sensors = sensors }

unfoldable pub sensor_pressure_init : Plant → Plant
sensor_pressure_init p =
    let (w, sensors) = SensorPressure.init p.world p.pressure_sensors in
    record p { board = record p.board { world = w }; pressure_sensors = sensors }

-- `interface_update()`
unfoldable pub interface_update : Firmware → Firmware
interface_update m = InterfaceSerial.update (process_data m)

-- `setup()`
unfoldable pub setup : Firmware → Firmware
setup m0 =
    let m1 = on_the_world (perform (pin_mode led_pin output)) m0 in
    let m2 = on_the_board DeviceInit.init m1 in
    let m3 = on_the_plant sensor_flow_init m2 in
    let m4 = on_the_plant sensor_pressure_init m3 in
    let m5 = on_the_plant ControlFlow.init m4 in
    let m6 = on_irrigation Irrigation.init m5 in
    let m7 = on_internet Internet.init m6 in led_switch (on_the_world ControlSafety.init m7)

abbrev pub pulsed : List ℕ → Firmware → Firmware
pulsed pulses = on_the_plant (ControlFlow.pulsed pulses)

-- The steps of the main loop before that of the connection, in their order, with the interrupts before
-- each of them. The step of control_irrigation.cpp is empty.
unfoldable pub before_internet : Pulses → Firmware → Firmware
before_internet pulses m0 =
    let m1 = led_switch (on_the_board Device.update (pulsed (pulses 0) m0)) in
    let m2 = led_switch (on_the_plant sensor_flow_update (pulsed (pulses 1) m1)) in
    let m3 = led_switch (on_the_plant sensor_pressure_update (pulsed (pulses 2) m2)) in
    let m4 = led_switch (on_the_plant ControlFlow.Update.update (pulsed (pulses 3) m3)) in
    let m5 = led_switch (pulsed (pulses 4) m4) in
    let m6 = led_switch (on_irrigation Irrigation.Update.update (pulsed (pulses 5) m5)) in
    pulsed (pulses 6) m6

-- The same with the step of the connection, and the interrupts before the step of the interfaces.
unfoldable pub before_interface : Pulses → Firmware → Firmware
before_interface pulses m =
    pulsed (pulses 7) (led_switch (on_internet Internet.Update.update (before_internet pulses m)))

-- `loop()`. The step of control_safety.cpp is empty.
unfoldable pub loop : Pulses → Firmware → Firmware
loop pulses m =
    led_switch (pulsed (pulses 8) (led_switch (interface_update (before_interface pulses m))))

-- Rounds of the main loop.
unfoldable pub loops : List Pulses → Firmware → Firmware
loops [] m = m
loops (pulses ∷ rest) m = loops rest (loop pulses m)

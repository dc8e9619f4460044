-- ===== src/SensorFlow/Init.antt =====
-- `sensor_flow_init` of arduino_client/src/sensor_flow.cpp.
use blueberry_irrigation_sys.Base.{ℕ, set_at}
use blueberry_irrigation_sys.World.{World, input_pullup, pin_mode, attach_interrupt, perform}
use blueberry_irrigation_sys.SensorFlow.{FlowSensors}
use blueberry_irrigation_sys.Pins

-- The lines for one sensor.
abbrev pub init_sensor : ℕ → ℕ → ℕ → World × FlowSensors → World × FlowSensors
init_sensor i pin pulses_per_liter (w, s) =
    let number = w.env.digital_pin_to_interrupt pin in
    (
      perform (attach_interrupt number i) (perform (pin_mode pin input_pullup) w),
      record s {
        sensors = set_at s.sensors i (record {
          pin_digital = pin;
          pin_interrupt = number;
          func_interrupt = i;
          pulses_per_liter = pulses_per_liter;
          pulses_interrupt = 0;
          pulses_total = 0;
        });
      },
    )

unfoldable pub init : World → FlowSensors → World × FlowSensors
init w s =
    let s0 = init_sensor 0 Pins.sensor_flow_pin_pump_well 5880 (w, s) in
    let s1 = init_sensor 1 Pins.sensor_flow_pin_pump_supplements_micro 5715 s0 in
    let s2 = init_sensor 2 Pins.sensor_flow_pin_pump_supplements_macro 5715 s1 in
    let s3 = init_sensor 3 Pins.sensor_flow_pin_pump_supplements_water 5880 s2 in
    init_sensor 4 Pins.sensor_flow_pin_pump_click 5880 s3

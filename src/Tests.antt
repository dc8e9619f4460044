-- ===== src/Tests.antt =====
-- The theorems at concrete inputs: a farm whose clock advances by 100 ms with every reading.
pub mod Devices
pub mod Sensors
pub mod Flows
pub mod Programs
pub mod Ending
pub mod Network
pub mod Whole
pub mod Link
pub mod Report
pub mod Round
pub mod Stop
use blueberry_irrigation_sys.Base.{
  ℕ, ◌+◌, ◌*◌, ◌/◌, ◌-◌, ◌<◌, Bool, [], none, Array, ltb, leb, if◌then◌else◌,
}
use blueberry_irrigation_sys.World.{Float, Env, World}
use blueberry_irrigation_sys.Device.{Board, Device, DeviceExtension}
use blueberry_irrigation_sys.SensorFlow.{FlowSensors, SensorFlow}
use blueberry_irrigation_sys.SensorPressure.{PressureSensors, SensorPressure}
use blueberry_irrigation_sys.ControlFlow.{Plant, ControlFlow, not_detected}
use blueberry_irrigation_sys.Irrigation.{Irrigation}
use blueberry_irrigation_sys.Irrigation.Startup.{initialised}

-- Values stand for themselves, and a division rounds down.
abbrev pub rounding : Float
rounding = record {
  of_ℕ = λ n. n;
  div = λ m n. m / n;
  mul = λ m n. m * n;
  gt = λ m n. ltb n m;
  to_u32 = λ n. n;
}

abbrev pub field : Env
field = record {
  float = rounding;
  millis = λ k. k * 100;
  analog_read = λ k pin. 500;
  constrain =
      λ value low high. if ltb value 32768 then (if leb value high then value else high) else 0;
  map = λ value from_low from_high to_low to_high. value * to_high / from_high;
  digital_pin_to_interrupt = λ pin. pin;
}

abbrev pub blank_device : Device
blank_device = record {
  pin = 0;
  is_active = 0;
  time_switch_minimum = 0;
  time_switch_last = 0;
  device_extension = none;
}

abbrev pub blank_extension : DeviceExtension
blank_extension = record {
  pin = 0;
  is_hold = 0;
  time_switch_hold_minimum = 0;
  time_switch_hold_last = 0;
}

abbrev pub blank_sensor : SensorFlow
blank_sensor = record {
  pin_digital = 0;
  pin_interrupt = 0;
  func_interrupt = 0;
  pulses_per_liter = 0;
  pulses_interrupt = 0;
  pulses_total = 0;
}

abbrev pub blank_flow : ControlFlow
blank_flow = record {
  is_active = 0;
  is_pause = 0;
  device = 0;
  sensor_flow = 0;
  time_to_deliver = 0;
  time_start = 0;
  time_pause = 0;
  pulses_to_deliver = 0;
  pulses_last = 0;
}

abbrev pub farm : Plant
farm = record {
  board = record {
    world = record { env = field; calls = 0; trace = [] };
    devices = λ i. blank_device;
    extensions = λ i. blank_extension;
    extended = λ i. 0;
  };
  flow_sensors = record { sensors = λ i. blank_sensor; time_update_last = 0 };
  pressure_sensors = record {
    sensors = λ i. record { pin = 0; pressure = 0 };
    time_update_last = 0;
  };
  flows = λ i. blank_flow;
  faulty_detection_status = not_detected;
  faulty_detection_time_last = 0;
}

-- The farm after a reset.
abbrev pub fresh : Irrigation
fresh = initialised farm

-- ===== src/SensorPressure.antt =====
-- arduino_client/src/sensor_pressure.cpp and arduino_client/include/sensor_pressure.h: the analog
-- pressure sensors.
pub mod Scale
use blueberry_irrigation_sys.Base.{ℕ, Array, set_at, for_up, u8, u16, sub32, ltb, if◌then◌else◌}
use blueberry_irrigation_sys.World.{World, Env, input, now, called, analog_read, pin_mode, perform}
use blueberry_irrigation_sys.Pins

abbrev pub sensor_pressure_array_size : ℕ
sensor_pressure_array_size = 3

abbrev pub sensor_pressure_update_interval : ℕ
sensor_pressure_update_interval = 1000

abbrev pub value_raw_minimum : ℕ
value_raw_minimum = 0

abbrev pub value_raw_maximum : ℕ
value_raw_maximum = 1023

abbrev pub value_minimum : ℕ
value_minimum = 0

abbrev pub value_maximum : ℕ
value_maximum = 120

pub record SensorPressure : Type 0 where
  pub pin : ℕ
  pub pressure : ℕ

-- The globals of sensor_pressure.cpp that outlast a call.
pub record PressureSensors : Type 0 where
  pub sensors : Array SensorPressure
  pub time_update_last : ℕ

-- The lines of `sensor_pressure_init` for one sensor.
abbrev pub init_sensor : ℕ → ℕ → World × PressureSensors → World × PressureSensors
init_sensor i pin (w, s) = (
  perform (pin_mode pin input) w,
  record s { sensors = set_at s.sensors i (record { pin = pin; pressure = 0 }) },
)

-- `sensor_pressure_init()`
unfoldable pub init : World → PressureSensors → World × PressureSensors
init w s =
    let s0 = init_sensor 0 Pins.sensor_pressure_pin_1 (w, s) in
    let s1 = init_sensor 1 Pins.sensor_pressure_pin_2 s0 in
    init_sensor 2 Pins.sensor_pressure_pin_3 s1

-- What becomes of a reading.
unfoldable pub scale : Env → ℕ → ℕ
scale env raw =
    let limited = u16 (env.constrain raw value_raw_minimum value_raw_maximum) in
    u8 (u16 (env.map limited value_raw_minimum value_raw_maximum value_minimum value_maximum))

-- A round of the loop of `sensor_pressure_update`. The first reading is thrown away.
unfoldable pub measure : ℕ → World × PressureSensors → World × PressureSensors
measure i (w, s) =
    let x = s.sensors i in
    let w' = called w in
    let pressure = scale w.env (analog_read x.pin w') in
    (called w', record s { sensors = set_at s.sensors i (record x { pressure = pressure }) })

unfoldable pub measure_all : World → PressureSensors → World × PressureSensors
unfolding measure
measure_all w s =
    let (w', s') = for_up sensor_pressure_array_size 0 measure (w, s) in
    (called w', record s' { time_update_last = now w' })

-- `sensor_pressure_update()`
unfoldable pub update : World → PressureSensors → World × PressureSensors
unfolding measure_all
update w s =
    if ltb (sub32 (now w) s.time_update_last) sensor_pressure_update_interval
    then (called w, s)
    else measure_all (called w) s

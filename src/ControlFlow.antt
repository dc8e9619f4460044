-- ===== src/ControlFlow.antt =====
-- arduino_client/src/control_flow.cpp and arduino_client/include/control_flow.h: six programs, each
-- of which opens a device until an amount has flowed or a time has passed. The loop that runs them
-- is in ControlFlow/Update. A pointer into `control_flow_array`, `device_array` or
-- `sensor_flow_array` is its index.
pub mod Update
pub mod Wiring
pub mod Evolution
pub mod Frame
pub mod Calls
pub mod Detection
pub mod Rounds
use blueberry_irrigation_sys.Base.{
  ℕ, ◌+◌, Bool, true, false, not, ◌&&◌, ◌||◌, List, Array, set_at, u16, u32, sub32, if◌then◌else◌,
  is_true, ◌==◌,
}
use blueberry_irrigation_sys.World.{World, Env, now, called}
use blueberry_irrigation_sys.Device.{Board, on_world, toggle}
use blueberry_irrigation_sys.SensorFlow.{FlowSensors, SensorFlow, pulses_total_set, interrupts}
use blueberry_irrigation_sys.SensorFlow
use blueberry_irrigation_sys.SensorPressure.{PressureSensors}
use blueberry_irrigation_sys.SensorPressure

abbrev pub control_flow_array_size : ℕ
control_flow_array_size = 6

pub data FaultyStatus : Type 0 where
  not_detected stopped_by_user detected_flow_less detected_flow_more detected_pressure_zero :
      FaultyStatus

-- The enumerator's value.
abbrev pub status_value : FaultyStatus → ℕ
status_value not_detected = 0
status_value stopped_by_user = 1
status_value detected_flow_less = 2
status_value detected_flow_more = 3
status_value detected_pressure_zero = 4

pub record ControlFlow : Type 0 where
  pub is_active : ℕ
  pub is_pause : ℕ
  pub device : ℕ
  pub sensor_flow : ℕ
  pub time_to_deliver : ℕ
  pub time_start : ℕ
  pub time_pause : ℕ
  pub pulses_to_deliver : ℕ
  pub pulses_last : ℕ

-- The globals of control_flow.cpp, with the board and the sensors that it works on.
pub record Plant : Type 0 where
  pub board : Board
  pub open board use *
  pub flow_sensors : FlowSensors
  pub pressure_sensors : PressureSensors
  pub flows : Array ControlFlow
  pub faulty_detection_status : FaultyStatus
  pub faulty_detection_time_last : ℕ

abbrev pub on_board : (Board → Board) → Plant → Plant
on_board f p = record p { board = f p.board }

-- `millis()` was called.
abbrev pub ticked : Plant → Plant
ticked = on_board (on_world called)

abbrev pub set_flow : ℕ → ControlFlow → Plant → Plant
set_flow i f p = record p { flows = set_at p.flows i f }

abbrev pub pulses_total_of : Plant → ControlFlow → ℕ
pulses_total_of p f = (p.flow_sensors.sensors f.sensor_flow).pulses_total

-- Interrupts of the flow sensors on the plant.
abbrev pub pulsed : List ℕ → Plant → Plant
pulsed pulses p = record p { flow_sensors = interrupts pulses p.flow_sensors }

-- `sensor_flow_update` and `sensor_pressure_update` on the plant.
unfoldable pub sensor_flow_update : Plant → Plant
sensor_flow_update p =
    let (w, s) = SensorFlow.update p.world p.flow_sensors in
    record p { board = record p.board { world = w }; flow_sensors = s }

unfoldable pub sensor_pressure_update : Plant → Plant
sensor_pressure_update p =
    let (w, s) = SensorPressure.update p.world p.pressure_sensors in
    record p { board = record p.board { world = w }; pressure_sensors = s }

-- The lines of `control_flow_init` for one program.
abbrev pub init_flow : ℕ → ℕ → ℕ → Plant → Plant
init_flow i device sensor_flow p =
    set_flow i
      (record (p.flows i) {
        is_active = 0;
        is_pause = 0;
        device = device;
        sensor_flow = sensor_flow;
      })
      p

-- `control_flow_init()`
unfoldable pub init : Plant → Plant
init p =
    let p0 = init_flow 0 1 0 p in
    let p1 = init_flow 1 7 1 p0 in
    let p2 = init_flow 2 8 2 p1 in
    let p3 = init_flow 3 9 3 p2 in
    let p4 = init_flow 4 6 4 p3 in
    let p5 = init_flow 5 13 0 p4 in record p5 { faulty_detection_status = not_detected }

-- `pulses_per_liter / 1000.0 * volume_to_deliver`, as a uint32_t.
abbrev pub pulses_of_volume : Env → ℕ → ℕ → ℕ
pulses_of_volume env pulses_per_liter volume =
    u32 (to_u32 (mul (div (of_ℕ pulses_per_liter) (of_ℕ 1000)) (of_ℕ volume)))
  where
    open env.float use {of_ℕ, div, mul, to_u32}

-- `control_flow_start(&control_flow_array[i], volume_to_deliver, time_to_deliver)`
unfoldable pub start : Plant → ℕ → ℕ → ℕ → Plant
unfolding pulses_total_set
start p i volume_to_deliver time_to_deliver =
    let f = p.flows i in
    let sensors = pulses_total_set p.flow_sensors f.sensor_flow 0 in
    let amount =
      pulses_of_volume p.env (p.flow_sensors.sensors f.sensor_flow).pulses_per_liter
        volume_to_deliver in
    let p' = ticked p in
    record (ticked p') {
      flow_sensors = sensors;
      flows = set_at p.flows i (record f {
        pulses_last = 0;
        pulses_to_deliver = amount;
        time_to_deliver = time_to_deliver;
        time_start = now p.world;
        is_active = 1;
        is_pause = 0;
      });
      faulty_detection_time_last = now p'.world;
      faulty_detection_status = not_detected;
    }

-- A sensor of the supplements: micro, macro or water.
abbrev pub is_supplement : ℕ → Bool
is_supplement sensor_flow = sensor_flow == 1 || sensor_flow == 2 || sensor_flow == 3

abbrev pub is_running : Plant → ℕ → Bool
is_running p i = is_true (p.flows i).is_active

-- `control_flow_stop(&control_flow_array[i])`
unfoldable pub stop : Plant → ℕ → Plant
stop p i =
    let f = p.flows i in
    let p' =
      set_flow i (record f { is_active = 0; is_pause = 0 })
        (on_board (λ b. toggle b f.device 0) p) in
    if is_supplement f.sensor_flow
      && (not (is_running p' 1) && not (is_running p' 2) && not (is_running p' 3))
    then on_board (λ b. toggle (toggle b 3 0) 9 0) p'
    else p'

-- `control_flow_pause(&control_flow_array[i], is_pause)`
unfoldable pub pause : Plant → ℕ → ℕ → Plant
pause p i is_pause =
    let f = p.flows i in
    if is_true is_pause
    then (let p' = on_board (λ b. toggle b f.device 0) p in
        set_flow i (record f { time_pause = now p'.world; is_pause = is_pause }) (ticked p'))
    else set_flow i
        (record f {
          time_start = u32 (f.time_start + sub32 (now p.world) f.time_pause);
          is_pause = is_pause;
        })
        (ticked p)

-- ===== src/SensorFlow.antt =====
-- arduino_client/src/sensor_flow.cpp and arduino_client/include/sensor_flow.h: the flow sensors'
-- interrupts count pulses, and `sensor_flow_update` collects the counts once a second.
pub mod Init
pub mod Counting
use blueberry_irrigation_sys.Base.{
  ℕ, suc, ◌+◌, List, [], ◌∷◌, Array, set_at, for_up, u16, u32, sub32, ltb, if◌then◌else◌,
}
use blueberry_irrigation_sys.World.{
  World, now, called, perform, attach_interrupt, detach_interrupt, is_attached,
}

abbrev pub sensor_flow_array_size : ℕ
sensor_flow_array_size = 5

abbrev pub sensor_flow_update_interval : ℕ
sensor_flow_update_interval = 1000

pub record SensorFlow : Type 0 where
  pub pin_digital : ℕ
  pub pin_interrupt : ℕ
  -- Which of `sensor_flow_interrupt_0` to `sensor_flow_interrupt_4`.
  pub func_interrupt : ℕ
  pub pulses_per_liter : ℕ
  pub pulses_interrupt : ℕ
  pub pulses_total : ℕ

-- The globals of sensor_flow.cpp.
pub record FlowSensors : Type 0 where
  pub sensors : Array SensorFlow
  pub time_update_last : ℕ

-- `sensor_flow_pulses_total_set(&sensor_flow_array[i], pulses_total)`
unfoldable pub pulses_total_set : FlowSensors → ℕ → ℕ → FlowSensors
pulses_total_set s i pulses_total = record s {
  sensors = set_at s.sensors i (record (s.sensors i) { pulses_total = pulses_total });
}

-- `sensor_flow_pulses_per_liter_set(&sensor_flow_array[i], pulses_per_liter)`
unfoldable pub pulses_per_liter_set : FlowSensors → ℕ → ℕ → FlowSensors
pulses_per_liter_set s i pulses_per_liter = record s {
  sensors = set_at s.sensors i (record (s.sensors i) { pulses_per_liter = pulses_per_liter });
}

-- `sensor_flow_interrupt_<i>()`
unfoldable pub interrupt : ℕ → FlowSensors → FlowSensors
interrupt i s = record s {
  sensors =
      set_at s.sensors i
        (record (s.sensors i) { pulses_interrupt = u16 (suc (s.sensors i).pulses_interrupt) });
}

-- Interrupts of the flow sensors, the first one first.
unfoldable pub interrupts : List ℕ → FlowSensors → FlowSensors
interrupts [] s = s
interrupts (i ∷ rest) s = interrupts rest (interrupt i s)

-- The interrupts that come in a round of the main loop, before each of its steps.
abbrev pub Pulses : Type 0
Pulses = ℕ → List ℕ

-- A pulse of a flow sensor: its interrupt comes if it is attached.
abbrev pub arrive : ℕ → World × FlowSensors → World × FlowSensors
arrive i (w, s) = (w, if is_attached (s.sensors i).pin_interrupt w.trace then interrupt i s else s)

abbrev pub arrives : List ℕ → World × FlowSensors → World × FlowSensors
arrives [] ws = ws
arrives (i ∷ rest) ws = arrives rest (arrive i ws)

-- The four statements of a round of the loop of `sensor_flow_update`.
abbrev pub detach : ℕ → World × FlowSensors → World × FlowSensors
detach i (w, s) = (perform (detach_interrupt (s.sensors i).pin_interrupt) w, s)

abbrev pub add : ℕ → World × FlowSensors → World × FlowSensors
add i (w, s) =
    let x = s.sensors i in (w, pulses_total_set s i (u32 (x.pulses_total + x.pulses_interrupt)))

abbrev pub clear : ℕ → World × FlowSensors → World × FlowSensors
clear i (w, s) =
    (w, record s { sensors = set_at s.sensors i (record (s.sensors i) { pulses_interrupt = 0 }) })

abbrev pub attach : ℕ → World × FlowSensors → World × FlowSensors
attach i (w, s) =
    let x = s.sensors i in (perform (attach_interrupt x.pin_interrupt x.func_interrupt) w, s)

-- A round of the loop of `sensor_flow_update`, with pulses after each of its first three statements.
unfoldable pub collect_among : (ℕ → List ℕ) → ℕ → World × FlowSensors → World × FlowSensors
unfolding pulses_total_set
collect_among pulses i ws =
    let detached = arrives (pulses 0) (detach i ws) in
    let added = arrives (pulses 1) (add i detached) in
    let cleared = arrives (pulses 2) (clear i added) in attach i cleared

-- The same where no pulse comes meanwhile.
unfoldable pub collect : ℕ → World × FlowSensors → World × FlowSensors
unfolding collect_among
collect = collect_among (λ k. [])

-- The loop and what follows it.
unfoldable pub collect_all : World → FlowSensors → World × FlowSensors
unfolding collect
collect_all w s =
    let (w', s') = for_up sensor_flow_array_size 0 collect (w, s) in
    (called w', record s' { time_update_last = now w' })

-- `sensor_flow_update()`
unfoldable pub update : World → FlowSensors → World × FlowSensors
unfolding collect_all
update w s =
    if ltb (sub32 (now w) s.time_update_last) sensor_flow_update_interval
    then (called w, s)
    else collect_all (called w) s

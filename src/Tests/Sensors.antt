-- ===== src/Tests/Sensors.antt =====
-- The theorems on the sensors at concrete inputs.
use blueberry_irrigation_sys.Base.{◌+◌, ◌<◌, ◌≤◌, ◌≡◌, u16, u32, arith, [], ◌∷◌, List, refl}
use blueberry_irrigation_sys.SensorPressure.{PressureSensors, update}
use blueberry_irrigation_sys.SensorPressure.Scale.{IsArduino, converted, update-pressure}
use blueberry_irrigation_sys.World.{World, attach_interrupt}
use blueberry_irrigation_sys.SensorFlow.{FlowSensors}
use blueberry_irrigation_sys.SensorFlow.Counting.{
  Event, pulse, collection, run, counted, run-counted, IsWired,
}
use blueberry_irrigation_sys.Tests.{field, blank_sensor}

abbrev noon : World
noon = record { env = field; calls = 20; trace = [] }

field-IsArduino : IsArduino field
field-IsArduino = record {
  constrain_positive = λ value high small. ground arith;
  constrain_negative = λ value high large fits. ground arith;
  map_lem = λ value high to_high le fits. refl;
}

abbrev gauges : PressureSensors
gauges = record { sensors = λ i. record { pin = 54 + i; pressure = 0 }; time_update_last = 0 }

update-pressure_example :
    (2000 < 1000 → (update noon gauges).1 ≡ gauges)
    × (1000 ≤ 2000
        → (((update noon gauges).1.sensors 2).pressure ≡ converted (u16 500))
          × (((update noon gauges).1.sensors 2).pressure ≤ 120)
          × ((update noon gauges).1.time_update_last ≡ u32 2700))
update-pressure_example =
    update-pressure noon gauges 2 0 2000 field-IsArduino (omega arith) refl refl (omega arith)

-- A sensor whose total is about to wrap, and whose counter has room for two pulses.
abbrev busy : World × FlowSensors
busy = (
  record { env = field; calls = 20; trace = attach_interrupt 1 1 ∷ [] },
  record {
    sensors = λ i. record blank_sensor {
      pin_interrupt = i;
      pulses_interrupt = 65533;
      pulses_total = 4294967290;
    };
    time_update_last = 0;
  },
)

-- The sensor's own pulses come before, while and after it is collected.
abbrev events : List Event
events = pulse 1 ∷ collection 1 (λ k. 1 ∷ 2 ∷ []) ∷ pulse 1 ∷ []

busy-IsWired : IsWired 1 busy
busy-IsWired = record { attached = refl; own = λ j ne e. ne e }

run-counted_example :
    IsWired 1 (run events busy)
    × (counted (run events busy).1 1 ≡ u32 (u32 (4294967290 + 65533) + 2))
run-counted_example =
    run-counted events 1 busy busy-IsWired (omega arith, (omega arith, (omega arith, tt)))

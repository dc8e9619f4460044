-- ===== src/Tests/Ending.antt =====
-- The theorems on the course of a program and on its end at concrete inputs.
use blueberry_irrigation_sys.Base.{refl, ℕ, ◌≤◌, ◌<◌, ◌*◌, ◌≡◌, [], ◌∷◌, ◌==◌, if◌then◌else◌, arith}
use blueberry_irrigation_sys.Device.Init as DeviceInit
use blueberry_irrigation_sys.Base.{some}
use blueberry_irrigation_sys.World.{level}
use blueberry_irrigation_sys.Device.{relay_off, toggle}
use blueberry_irrigation_sys.Device.Relays.{pin_of}
use blueberry_irrigation_sys.Irrigation.{start, start_fuel, prepare, choose}
use blueberry_irrigation_sys.Irrigation.Run.{starts, run, act, IsGuarded, run-IsGuarded}
use blueberry_irrigation_sys.SensorFlow.{Pulses}
use blueberry_irrigation_sys.SensorFlow.Init as FlowInit
use blueberry_irrigation_sys.SensorPressure
use blueberry_irrigation_sys.ControlFlow
use blueberry_irrigation_sys.Irrigation.{
  Irrigation, group_1, both, preparing, ready, finished, boot, ticked,
}
use blueberry_irrigation_sys.Irrigation
use blueberry_irrigation_sys.Irrigation.Update.{update}
use blueberry_irrigation_sys.Irrigation.HandOver.{one, valve, Follows, update-IsWatering}
use blueberry_irrigation_sys.Irrigation.Startup.{initialised-IsGuarded}
use blueberry_irrigation_sys.Irrigation.Ending.{rounds, rounds_end}
use blueberry_irrigation_sys.Irrigation.Ending.Clock.{IsClock}
use blueberry_irrigation_sys.Irrigation.Ending.Times.{IsTimed}
use blueberry_irrigation_sys.Tests.{farm, field, fresh, blank_device}
use blueberry_irrigation_sys.Tests.Programs.{scene}

-- Both groups with cleaning, just started after a reset.
abbrev pub begun : Irrigation
begun = run (starts both 1 ∷ []) fresh

-- Sensor 1 has a pulse before each step of the flow control.
abbrev flowing : ℕ → Pulses
flowing n k = if k == 3 then 1 ∷ [] else []

pub begun-IsGuarded : IsGuarded begun
begun-IsGuarded = run-IsGuarded (starts both 1 ∷ []) fresh (initialised-IsGuarded farm tt)

field-IsClock : IsClock 100 field.millis
field-IsClock = record {
  forward = λ c. omega arith;
  near = λ c. omega arith;
  moves = λ c. (1, omega arith);
}

begun-IsTimed : IsTimed (62 * 100) begun
unfolding run act start start_fuel prepare choose boot Irrigation.init
begun-IsTimed = record {
  known = λ n e. ground arith;
  generator = omega arith;
  program_duration = omega arith;
  cleaning_duration = omega arith;
  group3 = omega arith;
  group12 = omega arith;
  program_start = omega arith;
  generator_start = omega arith;
}

begun-IsClock : IsClock 100 begun.env.millis
unfolding run act start start_fuel prepare choose toggle boot Irrigation.init ControlFlow.init
    SensorPressure.init FlowInit.init DeviceInit.init
begun-IsClock = field-IsClock

rounds_end_example :
    (n : ℕ) × ((rounds flowing n begun).status ≡ finished)
    × (level (pin_of 0) (rounds flowing n begun).trace ≡ some relay_off)
    × (level (pin_of 1) (rounds flowing n begun).trace ≡ some relay_off)
rounds_end_example = rounds_end 100 flowing begun begun-IsClock begun-IsGuarded begun-IsTimed

-- Group 1 is watered, for 900000 ms, and 901000 ms have passed.
abbrev watered : Irrigation
watered =
    let s = scene farm both ready 9010 in
    record s {
      program_current = group_1;
      plant = record s.plant {
        board = record s.board {
          devices = λ i. record blank_device { is_active = if i == 2 then 1 else valve one i };
        };
      };
    }

update-IsWatering_example :
    (901000 < 900000 → update watered ≡ ticked watered)
    × (900000 ≤ 901000 → Follows one watered (update watered))
update-IsWatering_example =
    update-IsWatering one watered 901000 refl (omega arith, (0, refl, refl))
      (record {
        program = refl;
        current = refl;
        status = refl;
        acid = refl;
        valve_10 = refl;
        valve_11 = refl;
      })

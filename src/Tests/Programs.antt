-- ===== src/Tests/Programs.antt =====
-- The irrigation's theorems at concrete inputs.
use blueberry_irrigation_sys.Base.{
  inl, false, ℕ, ◌+◌, ◌≤◌, ◌<◌, ◌≡◌, ◌∷◌, [], List, List, some, arith, refl, inr, u32, sub32, ◌==◌,
  if◌then◌else◌,
}
use blueberry_irrigation_sys.World.{level}
use blueberry_irrigation_sys.Device.{relay_off}
use blueberry_irrigation_sys.Device.Coils.{NeverBoth}
use blueberry_irrigation_sys.Device.Relays.{RelaysMatch, pin_of}
use blueberry_irrigation_sys.ControlFlow.{Plant, detected_flow_less}
use blueberry_irrigation_sys.ControlFlow.Wiring.{IsSafe}
use blueberry_irrigation_sys.Irrigation.{
  Irrigation, Program, group_1, both, garden, cleaning, resume, Status, finished, preparing, ready,
  finishing, ticked, force_stop,
}
use blueberry_irrigation_sys.Irrigation.Update.{update}
use blueberry_irrigation_sys.Irrigation.Idle.{IsIdle}
use blueberry_irrigation_sys.Irrigation.Power.{IsPowered, update-IsPowered}
use blueberry_irrigation_sys.Irrigation.Run.{
  Action, starts, stops, resumes, pulses, updates_devices, updates_flows, updates_sensor_pressure,
  updates_irrigation, run, run-IsGuarded,
}
use blueberry_irrigation_sys.Irrigation.Startup.{run-initialised, initialised-IsGuarded}
use blueberry_irrigation_sys.Irrigation.Stop.{force_stop-off, update_fault}
use blueberry_irrigation_sys.Irrigation.Cleaning.{third, first, valve, IsAt, update-IsAt}
use blueberry_irrigation_sys.Irrigation.Resume.{resume_elapsed}
use blueberry_irrigation_sys.Irrigation.Timing.{IsKnown}
use blueberry_irrigation_sys.Irrigation.Stamps.{IsFresh}
use blueberry_irrigation_sys.Irrigation.HandOver.{one, Ends}
use blueberry_irrigation_sys.Irrigation.Single.{update-Ends}
use blueberry_irrigation_sys.Irrigation.Generator.{IsBegun, update_generator}
use blueberry_irrigation_sys.Irrigation.Transitions.{◌⟶◌, update-⟶}
use blueberry_irrigation_sys.Tests.{farm, fresh, blank_device}

-- Both groups with cleaning, a stop and a resumption.
abbrev actions : List Action
actions =
    starts both 1
    ∷ updates_flows
    ∷ pulses 1
    ∷ updates_irrigation
    ∷ updates_devices
    ∷ stops
    ∷ updates_sensor_pressure
    ∷ resumes
    ∷ updates_irrigation
    ∷ []

abbrev ran : Irrigation
ran = run actions fresh

run-initialised_example :
    NeverBoth ran.trace × RelaysMatch ran.board × IsPowered ran × IsIdle ran.plant
run-initialised_example = run-initialised farm actions refl

ran-IsSafe : IsSafe ran.plant
ran-IsSafe = (run-IsGuarded actions fresh (initialised-IsGuarded farm tt)).safe

force_stop-off_example :
    (((force_stop ran).devices 12).is_active ≡ 0)
    × (level (pin_of 12) (force_stop ran).trace ≡ some relay_off)
force_stop-off_example = force_stop-off ran 12 ran-IsSafe (omega arith)

-- A state of the irrigation over a plant, with the generator and the well pump on.
abbrev pub scene : Plant → Program → Status → ℕ → Irrigation
scene p program status calls = record {
  plant = record p {
    board = record {
      world = record { env = p.env; calls = calls; trace = p.trace };
      devices = λ i. record blank_device { is_active = 1 };
      extensions = p.extensions;
      extended = p.extended;
    };
  };
  program = program;
  program_current = program;
  status = status;
  is_cleaning = 0;
  is_stopped = 0;
  deliver_volume = 5000;
  deliver_time = 720;
  time_generator_wait = 5000;
  time_program_duration = 900000;
  time_cleaning_group3_duration = 10000;
  time_cleaning_group12_duration = 3000;
  time_program_start = 0;
  time_program_stop = 0;
  time_generator_start = 0;
  is_faulty_detection_active = 1;
  time_cleaning_duration = 10000;
}

abbrev watering : Irrigation
watering = scene farm group_1 ready 9010

-- The farm of the run, in a program whose flow is too small.
abbrev leaking : Irrigation
leaking = record (scene farm group_1 ready 0) {
  plant = record ran.plant { faulty_detection_status = detected_flow_less };
}

leaking-IsSafe : IsSafe leaking.plant
leaking-IsSafe = record {
  planned = record { device = ran-IsSafe.planned.device; sensor = ran-IsSafe.planned.sensor };
  sound = ran-IsSafe.sound;
}

update_fault_example :
    ((update leaking).status ≡ finished)
    × (((update leaking).devices 1).is_active ≡ 0)
    × (level (pin_of 1) (update leaking).trace ≡ some relay_off)
update_fault_example =
    update_fault leaking 1 leaking-IsSafe (omega arith) (inl refl) refl (λ e. ground (arith, e))

update-⟶_example : ready ⟶ (update watering).status
update-⟶_example = update-⟶ watering

-- Group 1 alone is watered, for 900000 ms, and 901000 ms have passed.
abbrev single : Irrigation
single = record watering {
  plant = record watering.plant {
    board = record watering.board {
      devices = λ i. record blank_device { is_active = if i == 11 then 0 else 1 };
    };
  };
}

update-Ends_example :
    (901000 < 900000 → update single ≡ ticked single)
    × (900000 ≤ 901000 → Ends single (update single))
update-Ends_example =
    update-Ends one single 901000 refl refl refl refl (omega arith, (0, refl, refl))

abbrev warming : Irrigation
warming = scene farm both preparing 60

update_generator_example :
    (warming.status ≡ preparing
      → (6000 < 5000 → update warming ≡ ticked warming)
        × (5000 ≤ 6000
            → ((update warming).status ≡ ready)
              × (((update warming).devices 1).is_active ≡ 1)
              × (IsKnown both → false ≡ false → IsBegun warming (update warming))))
    × (warming.status ≡ finishing
        → (6000 < 5000 → update warming ≡ ticked warming)
          × (5000 ≤ 6000
              → ((update warming).status ≡ finished)
                × (((update warming).devices 0).is_active ≡ 0)))
update_generator_example = update_generator warming 6000 refl (omega arith, (0, refl, refl))

-- The generator alone is on, and its time has passed.
abbrev warmed : Irrigation
warmed =
    let s = scene farm both preparing 180 in
    record s {
      plant = record s.plant {
        board = record s.board {
          devices = λ i. record blank_device { is_active = if i == 0 then 1 else 0 };
        };
      };
    }

update-IsPowered_example : IsPowered (update warmed)
update-IsPowered_example = update-IsPowered warmed (refl, refl)

-- A garden program, stopped after 2000 ms and resumed at 18000 ms.
abbrev interrupted : Irrigation
interrupted = record (scene farm garden ready 180) {
  is_stopped = 1;
  time_program_start = 1000;
  time_program_stop = 3000;
}

resume_elapsed_example :
    (sub32 (u32 (18000 + 500)) (resume interrupted).time_program_start ≡ 2500)
    × ((resume interrupted).is_stopped ≡ 0)
    × ((resume interrupted).status ≡ ready)
resume_elapsed_example = resume_elapsed interrupted 500 refl refl (inr (inr refl))

-- Group 3 is cleaned, and its 10000 ms have passed.
abbrev rinsing : Irrigation
rinsing =
    let s = scene farm cleaning ready 180 in
    record s {
      time_cleaning_duration = 10000;
      plant = record s.plant {
        board = record s.board { devices = λ i. record blank_device { is_active = valve third i } };
      };
    }

update-IsAt_example :
    (18000 < 10000 → update rinsing ≡ ticked rinsing)
    × (10000 ≤ 18000
        → IsAt first (update rinsing)
          × IsFresh rinsing (update rinsing).time_program_start (update rinsing))
update-IsAt_example =
    update-IsAt third rinsing 18000 (ground arith) refl (omega arith, (0, refl, refl))
      (record {
        program = refl;
        status = refl;
        time = refl;
        valve_10 = refl;
        valve_11 = refl;
        valve_12 = refl;
      })

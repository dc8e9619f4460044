-- ===== src/Tests/Flows.antt =====
-- The theorems on the programs of control_flow.cpp at concrete inputs.
use blueberry_irrigation_sys.Base.{
  ℕ, ◌+◌, ◌-◌, ◌<◌, ◌≡◌, ◌↔◌, inl, is_true, sub32, u32, if◌then◌else◌, ◌==◌, arith, [], refl,
}
use blueberry_irrigation_sys.ControlFlow.{Plant, not_detected, pause}
use blueberry_irrigation_sys.ControlFlow.Wiring.{IsPlanned, device_of, sensor_of}
use blueberry_irrigation_sys.ControlFlow.Update.{update_flow, detect, update}
use blueberry_irrigation_sys.ControlFlow.Rounds.{
  Regulates, is_due, pause_elapsed, update_flow_ends, update_flow_goes_on, update_flow_regulates,
}
use blueberry_irrigation_sys.ControlFlow.Detection.{IsHealthy, detect_iff}
use blueberry_irrigation_sys.ControlFlow.Frame.{Spares, Leaves, update-Leaves}
use blueberry_irrigation_sys.Device.{toggle}
use blueberry_irrigation_sys.Tests.{farm, field, blank_device, blank_sensor, blank_flow}

-- The programs for micro and macro run for 720 s, with 400 pulses to deliver; `calls` readings of
-- the clock and `pulses` pulses of each sensor are past, and the pressure is 5.
abbrev supplied : ℕ → ℕ → Plant
supplied calls pulses = record farm {
  board = record farm.board {
    world = record { env = farm.env; calls = calls; trace = farm.trace };
    devices = λ i. record blank_device { is_active = 1; time_switch_minimum = 5 };
  };
  flow_sensors = record {
    sensors = λ i. record blank_sensor { pulses_total = pulses };
    time_update_last = 0;
  };
  pressure_sensors = record {
    sensors = λ i. record { pin = 54; pressure = 5 };
    time_update_last = 0;
  };
  flows = λ i. record blank_flow {
    is_active = if i == 1 then 1 else if i == 2 then 1 else 0;
    device = device_of i;
    sensor_flow = sensor_of i;
    time_to_deliver = 720;
    pulses_to_deliver = 400;
  };
}

planned : (calls pulses : ℕ) → IsPlanned (supplied calls pulses)
planned calls pulses = record { device = λ i below. refl; sensor = λ i below. refl }

-- The program for micro is paused at 7100 ms, and goes on at 20000 ms.
abbrev paused_again : Plant
paused_again = record (pause (supplied 70 200) 1 1) {
  board = record farm.board { world = record { env = farm.env; calls = 200; trace = [] } };
}

pause_elapsed_example :
    (((pause (supplied 70 200) 1 1).devices 7).is_active ≡ 0)
    × (sub32 (u32 21000) ((pause paused_again 1 0).flows 1).time_start
        ≡ (7100 - 0) + (21000 - 20000))
pause_elapsed_example =
    pause_elapsed (supplied 70 200) paused_again 1 71 0 7100 20000 21000 refl
      (unfold pause toggle in refl) refl refl refl (omega arith) (omega arith) (omega arith)
      (omega arith)

update_flow_ends_example :
    (((update_flow 1 (supplied 10 400)).flows 1).is_active ≡ 0)
    × (((update_flow 1 (supplied 10 400)).devices 7).is_active ≡ 0)
update_flow_ends_example =
    update_flow_ends (supplied 10 400) 1 0 1000 (planned 10 400) (omega arith) (refl, refl) refl
      refl (omega arith) (omega arith) (inl (refl, omega arith))

update_flow_goes_on_example : Regulates (supplied 10 200) 1 (update_flow 1 (supplied 10 200))
update_flow_goes_on_example =
    update_flow_goes_on (supplied 10 200) 1 0 1000 (refl, refl) refl refl (omega arith)
      (omega arith) (λ d. ground arith) (λ o. ground arith)

update_flow_regulates_example :
    is_true ((update_flow 1 (supplied 10 200)).devices 7).is_active
    ≡ is_due field.float 400 720 1100 200
update_flow_regulates_example =
    update_flow_regulates (supplied 10 200) 1 0 1000 1100 (refl, refl) refl refl refl refl refl
      (omega arith) (omega arith) (omega arith) (λ d. ground arith) (λ o. ground arith)
      (omega arith)

detect_iff_example :
    ((detect (supplied 200 300)).faulty_detection_status ≡ not_detected)
    ↔ ((not_detected ≡ not_detected) × ((i : ℕ) → i < 6 → IsHealthy (supplied 200 300) i))
detect_iff_example = detect_iff (supplied 200 300) (omega arith)

spared : Spares 0 (supplied 10 200)
spared i below r = ground arith

update-Leaves_example : Leaves 0 (supplied 10 200) (update (supplied 10 200))
update-Leaves_example = update-Leaves 0 (supplied 10 200) (omega arith) (omega arith) spared

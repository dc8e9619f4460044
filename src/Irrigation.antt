-- ===== src/Irrigation.antt =====
-- arduino_client/src/control_irrigation_temp.cpp and its header: the irrigation programs. The state
-- and the commands stand here, and the step of the main loop in Irrigation/Update. Names lose the
-- prefix `control_irrigation_temp_`.
pub mod Update
pub mod Evolution
pub mod Stop
pub mod Power
pub mod Idle
pub mod Run
pub mod Transitions
pub mod Timing
pub mod Resume
pub mod Cleaning
pub mod HandOver
pub mod Single
pub mod Generator
pub mod Stamps
pub mod Startup
pub mod Ending
use blueberry_irrigation_sys.Base.{
  ℕ, zero, suc, ◌-◌, ◌*◌, ◌/◌, Bool, true, false, not, ◌&&◌, Array, set_at, u16, u32, sub32,
  if◌then◌else◌, is_true, ◌==◌,
}
use blueberry_irrigation_sys.World.{now, called}
use blueberry_irrigation_sys.Device.{Board, on_world, toggle}
use blueberry_irrigation_sys.SensorFlow.{pulses_total_set}
use blueberry_irrigation_sys.ControlFlow.{
  Plant, ControlFlow, FaultyStatus, not_detected, stopped_by_user, detected_flow_less,
  detected_flow_more, detected_pressure_zero, status_value, on_board, set_flow,
}
use blueberry_irrigation_sys.ControlFlow
use blueberry_irrigation_sys.ControlSafety

pub data Program : Type 0 where
  group_1 group_2 both cleaning garden : Program
  -- A value that a cast gave and that no enumerator has.
  other : ℕ → Program

pub data Status : Type 0 where
  finished preparing ready finishing : Status

-- The globals of the file, over the plant.
pub record Irrigation : Type 0 where
  pub plant : Plant
  pub open plant use *
  pub program : Program
  pub program_current : Program
  pub status : Status
  pub is_cleaning : ℕ
  pub is_stopped : ℕ
  pub deliver_volume : ℕ
  pub deliver_time : ℕ
  pub time_generator_wait : ℕ
  pub time_program_duration : ℕ
  pub time_cleaning_group3_duration : ℕ
  pub time_cleaning_group12_duration : ℕ
  pub time_program_start : ℕ
  pub time_program_stop : ℕ
  pub time_generator_start : ℕ
  pub is_faulty_detection_active : ℕ
  pub time_cleaning_duration : ℕ

abbrev pub on_plant : (Plant → Plant) → Irrigation → Irrigation
on_plant f s = record s { plant = f s.plant }

abbrev pub ticked : Irrigation → Irrigation
ticked = on_plant ControlFlow.ticked

-- `device_toggle(&device_array[i], is_active)`
abbrev pub toggle_device : ℕ → ℕ → Irrigation → Irrigation
toggle_device i is_active = on_plant (on_board (λ b. toggle b i is_active))

-- The start values of the globals that have one; the others start at zero.
unfoldable pub boot : Plant → Irrigation
boot p = record {
  plant = p;
  program = group_1;
  program_current = group_1;
  status = finished;
  is_cleaning = 0;
  is_stopped = 0;
  deliver_volume = 5000;
  deliver_time = 720;
  time_generator_wait = 5000;
  time_program_duration = 1000 * 60 * 15;
  time_cleaning_group3_duration = 10000;
  time_cleaning_group12_duration = 3000;
  time_program_start = 0;
  time_program_stop = 0;
  time_generator_start = 0;
  is_faulty_detection_active = 0;
  time_cleaning_duration = 0;
}

-- `init()`
unfoldable pub init : Irrigation → Irrigation
init s = record s { is_faulty_detection_active = 1 }

-- The generator is switched on, and the programs wait for it.
unfoldable pub prepare : Irrigation → Irrigation
prepare s =
    let t = toggle_device 0 1 s in
    record (ticked t) { time_generator_start = now t.world; status = preparing }

-- `millis()` into `time_program_start`.
abbrev pub stamp_start : Irrigation → Irrigation
stamp_start s = record (ticked s) { time_program_start = now s.world }

-- The supplements of a group: both programs start, and the water counter is set to zero.
unfoldable pub start_supplements : Irrigation → Irrigation
start_supplements s =
    let f = λ (p : Plant). ControlFlow.start p 1 s.deliver_volume s.deliver_time in
    let g = λ (p : Plant). ControlFlow.start p 2 s.deliver_volume s.deliver_time in
    let h = λ (p : Plant). record p {
      flow_sensors = pulses_total_set p.flow_sensors (p.flows 3).sensor_flow 0;
    } in
    on_plant (λ p. h (g (f p))) s

-- The start of a group: the acid pump, the group's valve, and the supplements unless the volume
-- is 1.
unfoldable pub start_group : ℕ → Irrigation → Irrigation
start_group valve s =
    let t = toggle_device valve 1 (toggle_device 2 1 s) in
    stamp_start (if not (s.deliver_volume == 1) then start_supplements t else t)

-- What `start` does once the generator is ready. `again` is the recursive call.
unfoldable pub start_program :
    (Program → ℕ → Irrigation → Irrigation) → Program → Irrigation → Irrigation
start_program again group_1 s = start_group 10 s
start_program again group_2 s = start_group 11 s
start_program again both s = record (again group_1 s.is_cleaning s) { program = both }
start_program again cleaning s = stamp_start (toggle_device 12 1 s)
start_program again garden s =
    stamp_start (on_plant (λ p. ControlFlow.start p 5 0 (u16 (s.time_program_duration / 1000))) s)
start_program again (other n) s = s

-- The first lines of `start`.
unfoldable pub choose : Program → ℕ → Irrigation → Irrigation
choose program is_cleaning s = record s {
  program = program;
  program_current = program;
  is_cleaning = is_cleaning;
  time_cleaning_duration = s.time_cleaning_group3_duration;
  is_stopped = 0;
}

-- `start(program, is_cleaning)` with fuel for its recursion, which is never deeper than 2.
unfoldable pub start_fuel : ℕ → Program → ℕ → Irrigation → Irrigation
start_fuel zero program is_cleaning s = s
start_fuel (suc fuel) program is_cleaning s = elim s.status [
  | ready ↦ start_program (start_fuel fuel) program (choose program is_cleaning s)
  | _ ↦ prepare (choose program is_cleaning s)
]

unfoldable pub start : Program → ℕ → Irrigation → Irrigation
start = start_fuel 2

-- What a stop leaves for the server and for `resume`: why the program was stopped.
abbrev pub stop_reason : Irrigation → ℕ
stop_reason s = elim s.faulty_detection_status [
  | not_detected ↦ status_value stopped_by_user
  | status ↦
      if is_true s.is_faulty_detection_active
      then status_value status
      else status_value stopped_by_user
]

abbrev pub is_preparing : Status → Bool
is_preparing preparing = true
is_preparing _ = false

-- `if(status != PREPARING && !is_stopped)`
abbrev pub keep_reason : Irrigation → ℕ
keep_reason s =
    if not (is_preparing s.status) && not (is_true s.is_stopped)
    then stop_reason s
    else s.is_stopped

-- `force_stop()`
unfoldable pub force_stop : Irrigation → Irrigation
force_stop s =
    let p = on_board ControlSafety.devices_stop s.plant in
    let q = ControlFlow.stop (ControlFlow.stop (ControlFlow.stop p 1) 2) 5 in
    let t = record s { plant = q } in
    record (ticked t) {
      time_program_stop = now t.world;
      is_stopped = keep_reason t;
      status = finished;
    }

-- `millis() - (time_program_stop - time_program_start)` into `time_program_start`.
abbrev pub restamp_start : Irrigation → Irrigation
restamp_start s = record (ticked s) {
  time_program_start = sub32 (now s.world) (sub32 s.time_program_stop s.time_program_start);
}

-- A program of control_flow.cpp goes on where it was.
abbrev pub reactivate : ℕ → ℕ → Plant → Plant
reactivate i time_start p =
    set_flow i (record (p.flows i) { is_active = 1; time_start = time_start }) p

unfoldable pub resume_group : ℕ → Irrigation → Irrigation
resume_group valve s =
    let t = toggle_device valve 1 (toggle_device 2 1 (restamp_start s)) in
    let p = record t.plant {
      faulty_detection_status = not_detected;
      faulty_detection_time_last = now t.world;
    } in
    let q =
      reactivate 2 t.time_program_start
        (reactivate 1 t.time_program_start (ControlFlow.ticked p)) in
    if not (s.deliver_volume == 1) then record t { plant = q } else t

unfoldable pub resume_program : Program → Irrigation → Irrigation
resume_program group_1 s = resume_group 10 s
resume_program group_2 s = resume_group 11 s
resume_program cleaning s =
    stamp_start
      (toggle_device 12 1 (record s { time_cleaning_duration = s.time_cleaning_group3_duration }))
resume_program garden s = let t = restamp_start s in on_plant (reactivate 5 t.time_program_start) t
resume_program _ s = s

-- `resume()`
unfoldable pub resume : Irrigation → Irrigation
resume s =
    let running = resume_program s.program_current (record s { is_stopped = 0 }) in
    let resumed : Irrigation = elim s.status [ ready ↦ running | _ ↦ prepare s ] in
    if not (is_true s.is_stopped) then s else resumed

-- `faulty_detection_toggle(is_active)`
unfoldable pub faulty_detection_toggle : ℕ → Irrigation → Irrigation
faulty_detection_toggle is_active s = record s {
  is_faulty_detection_active = is_active;
  plant = record (ControlFlow.ticked s.plant) {
    faulty_detection_time_last = now s.world;
    faulty_detection_status = not_detected;
  };
}

-- ===== src/Irrigation/Evolution.antt =====
-- How the commands of control_irrigation_temp.cpp change the plant, and the fuel of `start`.
pub mod Phases
use blueberry_irrigation_sys.Base.{
  ℕ, zero, suc, ◌+◌, ◌/◌, ◌≤◌, ◌<◌, ◌≡◌, refl, ap, Bool, true, false, not, ◌&&◌, if◌then◌else◌,
  if_intro, is_true, for_down, ◌==◌, u16, sub32, ltb, arith,
}
use blueberry_irrigation_sys.World.{now}
use blueberry_irrigation_sys.Device.{Board, toggle}
use blueberry_irrigation_sys.Device.Steps.{Steps, here, toggled, read, Steps-trans}
use blueberry_irrigation_sys.ControlFlow.{Plant, on_board}
use blueberry_irrigation_sys.ControlFlow
use blueberry_irrigation_sys.ControlFlow.Wiring.{
  Evolves, Evolves-refl, Evolves-trans, Evolves-IsPlanned, IsPlanned,
}
use blueberry_irrigation_sys.ControlFlow.Evolution.{start-Evolves, stop-Evolves}
use blueberry_irrigation_sys.ControlSafety.{devices_stop}
use blueberry_irrigation_sys.Irrigation.{
  Irrigation, Program, group_1, group_2, both, cleaning, garden, other, Status, finished, preparing,
  ready, finishing, ticked, toggle_device, on_plant, prepare, start_supplements, start_group,
  start_program, choose, start_fuel, start, force_stop, resume, resume_group, resume_program,
  faulty_detection_toggle, reactivate, stamp_start, restamp_start,
}
use blueberry_irrigation_sys.Irrigation.Update.{
  after, leave_preparing, leave_finishing, enter_finishing, finish, end_group, end_both,
  end_cleaning, update_program, update_status, update,
}

-- The plant of `s` has become that of `t`.
abbrev pub Moves : Irrigation → Irrigation → Type 0
Moves s t = Evolves s.plant t.plant

-- More fuel changes nothing: the recursion of `start` is never deeper than 2.
start_fuel_enough :
    (fuel : ℕ) (p : Program) (c : ℕ) (s : Irrigation)
    → start_fuel (suc (suc fuel)) p c s ≡ start p c s
unfolding start start_fuel start_program
start_fuel_enough fuel p c s = ground arith

pub toggle2-Moves :
    (s : Irrigation) (i j a b : ℕ)
    → i < 15
    → j < 15
    → Moves s (toggle_device j b (toggle_device i a s))
toggle2-Moves s i j a b h k = record {
  steps = toggled (toggled here i a h) j b k;
  device = λ n. refl;
  sensor = λ n. refl;
}

pub tick-Moves : (s t : Irrigation) → Moves s t → Moves s (ticked t)
tick-Moves s t e = record { steps = read e.steps; device = e.device; sensor = e.sensor }

pub toggle-Moves : (s t : Irrigation) (i a : ℕ) → i < 15 → Moves s t → Moves s (toggle_device i a t)
toggle-Moves s t i a h e = record {
  steps = toggled e.steps i a h;
  device = e.device;
  sensor = e.sensor;
}

prepare-Moves : (s : Irrigation) → Moves s (prepare s)
unfolding prepare
prepare-Moves s =
    tick-Moves s (toggle_device 0 1 s) (toggle-Moves s s 0 1 (omega arith) (Evolves-refl s.plant))

start_supplements-Moves : (s : Irrigation) → Moves s (start_supplements s)
unfolding start_supplements
start_supplements-Moves s =
    let p = s.plant in
    let q = ControlFlow.start p 1 s.deliver_volume s.deliver_time in
    let r = ControlFlow.start q 2 s.deliver_volume s.deliver_time in
    let e : Evolves p r = Evolves-trans p q r (start-Evolves p 1 _ _) (start-Evolves q 2 _ _) in
    record { steps = e.steps; device = e.device; sensor = e.sensor }

-- What a group's start does before it reads the clock.
abbrev pub group_opened : ℕ → Irrigation → Irrigation
group_opened valve s =
    let t = toggle_device valve 1 (toggle_device 2 1 s) in
    if not (s.deliver_volume == 1) then start_supplements t else t

pub group_opened-Moves : (s : Irrigation) (valve : ℕ) → valve < 15 → Moves s (group_opened valve s)
group_opened-Moves s valve h =
    let t = toggle_device valve 1 (toggle_device 2 1 s) in
    let e : Moves s t = toggle2-Moves s 2 valve 1 1 (omega arith) h in
    if_intro (Moves s) (not (s.deliver_volume == 1))
      (Evolves-trans s.plant t.plant _ e (start_supplements-Moves t)) e

start_group-Moves : (s : Irrigation) (valve : ℕ) → valve < 15 → Moves s (start_group valve s)
unfolding start_group
start_group-Moves s valve h = tick-Moves s (group_opened valve s) (group_opened-Moves s valve h)

start_program-Moves :
    (again : Program → ℕ → Irrigation → Irrigation) (p : Program) (s : Irrigation)
    → ((c : ℕ) → Moves s (again group_1 c s))
    → Moves s (start_program again p s)
unfolding start_program
start_program-Moves again group_1 s h = start_group-Moves s 10 (omega arith)
start_program-Moves again group_2 s h = start_group-Moves s 11 (omega arith)
start_program-Moves again both s h = h s.is_cleaning
start_program-Moves again cleaning s h =
    tick-Moves s (toggle_device 12 1 s) (toggle-Moves s s 12 1 (omega arith) (Evolves-refl s.plant))
start_program-Moves again garden s h =
    let e : Evolves s.plant (ControlFlow.start s.plant 5 0 (u16 (s.time_program_duration / 1000))) =
      start-Evolves s.plant 5 0 _ in
    record { steps = read e.steps; device = e.device; sensor = e.sensor }
start_program-Moves again (other n) s h = Evolves-refl s.plant

start_fuel-Moves :
    (fuel : ℕ) (p : Program) (c : ℕ) (s : Irrigation) → Moves s (start_fuel fuel p c s)
unfolding start_fuel choose
start_fuel-Moves zero p c s = Evolves-refl s.plant
start_fuel-Moves (suc fuel) p c s =
    elim s.status
      as (λ st. Moves s (elim st [
        | ready ↦ start_program (start_fuel fuel) p (choose p c s)
        | _ ↦ prepare (choose p c s)
      ])) [
        | ready ↦
            start_program-Moves (start_fuel fuel) p (choose p c s)
              (λ d. start_fuel-Moves fuel group_1 d (choose p c s))
        | finished ↦ prepare-Moves (choose p c s)
        | preparing ↦ prepare-Moves (choose p c s)
        | finishing ↦ prepare-Moves (choose p c s)
      ]

pub start-Moves : (p : Program) (c : ℕ) (s : Irrigation) → Moves s (start p c s)
unfolding start
start-Moves p c s = start_fuel-Moves 2 p c s

restamp-Moves : (s t : Irrigation) → Moves s t → Moves s (restamp_start t)
restamp-Moves s t e = record { steps = read e.steps; device = e.device; sensor = e.sensor }

resume_group-Moves : (s : Irrigation) (valve : ℕ) → valve < 15 → Moves s (resume_group valve s)
unfolding resume_group
resume_group-Moves s valve h =
    let steps = toggled (toggled (read here) 2 1 (omega arith)) valve 1 h in
    if_intro (Moves s) (not (s.deliver_volume == 1))
      (record { steps = read steps; device = λ j. ground arith; sensor = λ j. ground arith })
      (record { steps = steps; device = λ j. refl; sensor = λ j. refl })

resume_program-Moves : (p : Program) (s : Irrigation) → Moves s (resume_program p s)
unfolding resume_program
resume_program-Moves group_1 s = resume_group-Moves s 10 (omega arith)
resume_program-Moves group_2 s = resume_group-Moves s 11 (omega arith)
resume_program-Moves cleaning s = record {
  steps = read (toggled here 12 1 (omega arith));
  device = λ j. refl;
  sensor = λ j. refl;
}
resume_program-Moves garden s = record {
  steps = read here;
  device = λ j. ground arith;
  sensor = λ j. ground arith;
}
resume_program-Moves both s = Evolves-refl s.plant
resume_program-Moves (other n) s = Evolves-refl s.plant

pub resume-Moves : (s : Irrigation) → Moves s (resume s)
unfolding resume
resume-Moves s =
    if_intro (Moves s) (not (is_true s.is_stopped)) (Evolves-refl s.plant)
      (elim s.status
        as (λ st. Moves s (elim st [
          | ready ↦ resume_program s.program_current (record s { is_stopped = 0 })
          | _ ↦ prepare s
        ])) [
          | ready ↦ resume_program-Moves s.program_current (record s { is_stopped = 0 })
          | finished ↦ prepare-Moves s
          | preparing ↦ prepare-Moves s
          | finishing ↦ prepare-Moves s
        ])

for_down-Steps :
    (n : ℕ) (b c : Board) → n ≤ 15 → Steps b c → Steps b (for_down n (λ i d. toggle d i 0) c)
for_down-Steps zero b c h s = s
for_down-Steps (suc n) b c h s =
    for_down-Steps n b (toggle c n 0) (omega arith) (toggled s n 0 (omega arith))

devices_stop-Steps : (b : Board) → Steps b (devices_stop b)
unfolding devices_stop
devices_stop-Steps b = for_down-Steps 15 b b (omega arith) here

pub force_stop-Moves : (s : Irrigation) → IsPlanned s.plant → Moves s (force_stop s)
unfolding force_stop
force_stop-Moves s w =
    let p0 = s.plant in
    let p1 = on_board devices_stop p0 in
    let p2 = ControlFlow.stop p1 1 in
    let p3 = ControlFlow.stop p2 2 in
    let p4 = ControlFlow.stop p3 5 in
    let e1 : Evolves p0 p1 = record {
      steps = devices_stop-Steps p0.board;
      device = λ i. refl;
      sensor = λ i. refl;
    } in
    let e2 : Evolves p0 p2 =
      Evolves-trans p0 p1 p2 e1 (stop-Evolves p1 1 (Evolves-IsPlanned p0 p1 e1 w) (omega arith)) in
    let e3 : Evolves p0 p3 =
      Evolves-trans p0 p2 p3 e2 (stop-Evolves p2 2 (Evolves-IsPlanned p0 p2 e2 w) (omega arith)) in
    let e4 : Evolves p0 p4 =
      Evolves-trans p0 p3 p4 e3 (stop-Evolves p3 5 (Evolves-IsPlanned p0 p3 e3 w) (omega arith)) in
    record { steps = read e4.steps; device = e4.device; sensor = e4.sensor }

pub faulty_detection_toggle-Moves : (a : ℕ) (s : Irrigation) → Moves s (faulty_detection_toggle a s)
unfolding faulty_detection_toggle
faulty_detection_toggle-Moves a s = record {
  steps = read here;
  device = λ j. refl;
  sensor = λ j. refl;
}

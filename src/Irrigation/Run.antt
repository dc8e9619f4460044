-- ===== src/Irrigation/Run.antt =====
-- Runs: commands, interrupts and the steps of the main loop, in any order and at any times.
use blueberry_irrigation_sys.Base.{
  ℕ, ◌<◌, ◌≡◌, refl, sym, subst, ◌∙◌, ap, List, [], ◌∷◌, if_intro, Bool-cases, inl, inr, ltb, sub32,
  arith,
}
use blueberry_irrigation_sys.World.{World, now, called, perform, attach_interrupt, detach_interrupt}
use blueberry_irrigation_sys.Device.{Board, on_world, update_extension}
use blueberry_irrigation_sys.Device
use blueberry_irrigation_sys.Device.{Device}
use blueberry_irrigation_sys.Device.Steps.{Steps, here, updated, read, performed}
use blueberry_irrigation_sys.SensorFlow.{
  FlowSensors, interrupt, collect_all, sensor_flow_update_interval,
}
use blueberry_irrigation_sys.SensorFlow
use blueberry_irrigation_sys.SensorPressure.{
  PressureSensors, measure_all, sensor_pressure_update_interval,
}
use blueberry_irrigation_sys.SensorPressure
use blueberry_irrigation_sys.ControlFlow.{
  Plant, on_board, is_running, sensor_flow_update, sensor_pressure_update,
}
use blueberry_irrigation_sys.ControlFlow
use blueberry_irrigation_sys.ControlFlow.Wiring.{IsSafe, IsPlanned, Evolves, Evolves-IsSafe}
use blueberry_irrigation_sys.ControlFlow.Evolution.{update-Evolves}
use blueberry_irrigation_sys.ControlFlow.Frame.{Leaves, Spares, update-Leaves}
use blueberry_irrigation_sys.Irrigation.{
  Irrigation, Program, Status, on_plant, start, force_stop, resume, faulty_detection_toggle,
}
use blueberry_irrigation_sys.Irrigation
use blueberry_irrigation_sys.Irrigation.Evolution.{
  start-Moves, force_stop-Moves, resume-Moves, faulty_detection_toggle-Moves,
}
use blueberry_irrigation_sys.Irrigation.Evolution.Phases.{update-Moves}
use blueberry_irrigation_sys.Irrigation.Idle.{
  IsIdle, start-IsIdle, resume-IsIdle, force_stop-IsIdle, update-IsIdle,
}
use blueberry_irrigation_sys.Irrigation.Power.{
  IsPowered, Needs, start-IsPowered, resume-IsPowered, force_stop-IsPowered, update-IsPowered,
}

-- The commands for the irrigation, a pulse of a flow sensor, and the steps of the main loop.
pub data Action : Type 0 where
  starts : Program → ℕ → Action
  stops resumes : Action
  watches : ℕ → Action
  pulses : ℕ → Action
  updates_devices updates_sensor_flow updates_sensor_pressure updates_flows updates_irrigation :
      Action

unfoldable pub act : Action → Irrigation → Irrigation
act (starts p c) s = start p c s
act stops s = force_stop s
act resumes s = resume s
act (watches a) s = faulty_detection_toggle a s
act (pulses i) s = on_plant (λ p. record p { flow_sensors = interrupt i p.flow_sensors }) s
act updates_devices s = on_plant (on_board Device.update) s
act updates_sensor_flow s = on_plant sensor_flow_update s
act updates_sensor_pressure s = on_plant sensor_pressure_update s
act updates_flows s = on_plant ControlFlow.Update.update s
act updates_irrigation s = Irrigation.Update.update s

unfoldable pub run : List Action → Irrigation → Irrigation
run [] s = s
run (a ∷ rest) s = run rest (act a s)

-- What holds in every run: the relays follow the devices, and the devices follow the status.
pub record IsGuarded (s : Irrigation) : Type 0 where
  pub safe : IsSafe s.plant
  pub idle : IsIdle s.plant
  pub powered : IsPowered s

-- An interrupt is detached and attached again.
swap :
    {b c : Board} {m n h : ℕ}
    → Steps b c
    → Steps b
        (on_world (perform (attach_interrupt n h)) (on_world (perform (detach_interrupt m)) c))
swap {m} {n} {h} r = performed (performed r (detach_interrupt m) tt) (attach_interrupt n h) tt

pub sensor_flow_update-Evolves : (p : Plant) → Evolves p (sensor_flow_update p)
unfolding sensor_flow_update SensorFlow.update
sensor_flow_update-Evolves p =
    if_intro
      (λ (r : World × FlowSensors).
        Evolves p (record p { board = record p.board { world = r.0 }; flow_sensors = r.1 }))
      (ltb (sub32 (now p.world) p.flow_sensors.time_update_last) sensor_flow_update_interval)
      {x = (called p.world, p.flow_sensors)} {y = collect_all (called p.world) p.flow_sensors}
      (record { steps = read here; device = λ i. refl; sensor = λ i. refl })
      (record {
        steps = unfold collect_all in read (swap (swap (swap (swap (swap (read here))))));
        device = λ i. refl;
        sensor = λ i. refl;
      })

pub sensor_pressure_update-Evolves : (p : Plant) → Evolves p (sensor_pressure_update p)
unfolding sensor_pressure_update SensorPressure.update
sensor_pressure_update-Evolves p =
    if_intro
      (λ (r : World × PressureSensors).
        Evolves p (record p { board = record p.board { world = r.0 }; pressure_sensors = r.1 }))
      (ltb (sub32 (now p.world) p.pressure_sensors.time_update_last)
        sensor_pressure_update_interval)
      {x = (called p.world, p.pressure_sensors)}
      {y = measure_all (called p.world) p.pressure_sensors}
      (record { steps = read here; device = λ i. refl; sensor = λ i. refl })
      (record {
        steps = unfold measure_all in read (read (read (read (read (read (read (read here)))))));
        device = λ i. refl;
        sensor = λ i. refl;
      })

-- A guarded state stays so if the plant evolves, program 0 is left alone and the status has what it
-- needs.
guard :
    (s t : Irrigation)
    → IsGuarded s
    → Evolves s.plant t.plant
    → IsIdle t.plant
    → IsPowered t
    → IsGuarded t
guard s t g e i p = record { safe = Evolves-IsSafe s.plant t.plant e g.safe; idle = i; powered = p }

-- The step of another module: the irrigation's own state stays as it is.
pub guard_plant :
    (s : Irrigation) (p : Plant)
    → IsGuarded s
    → Evolves s.plant p
    → IsIdle p
    → p.devices 0 ≡ s.devices 0
    → p.devices 1 ≡ s.devices 1
    → IsGuarded (record s { plant = p })
guard_plant s p g e i d0 d1 =
    guard s (record s { plant = p }) g e i
      (subst (λ a. Needs s.status a (p.devices 1).is_active)
        (sym (ap (λ (d : Device). d.is_active) d0))
        (subst (λ a. Needs s.status (s.devices 0).is_active a)
          (sym (ap (λ (d : Device). d.is_active) d1)) g.powered))

pub update-devices : (b : Board) → (Device.update b).devices ≡ b.devices
unfolding Device.update update_extension
update-devices b = ground arith

IsIdle-Spares : (p : Plant) (j : ℕ) → IsPlanned p → IsIdle p → j < 2 → Spares j p
IsIdle-Spares p j w idle h i below r = ground (arith, w.device i below, idle, r)

updates_flows-IsGuarded :
    (s : Irrigation) → IsGuarded s → IsGuarded (on_plant ControlFlow.Update.update s)
updates_flows-IsGuarded s g =
    let p = s.plant in
    let q = ControlFlow.Update.update p in
    let w = g.safe.planned in
    let e : Evolves p q = update-Evolves p w in
    let l0 : Leaves 0 p q =
      update-Leaves 0 p (omega arith) (omega arith) (IsIdle-Spares p 0 w g.idle (omega arith)) in
    let l1 : Leaves 1 p q =
      update-Leaves 1 p (omega arith) (omega arith) (IsIdle-Spares p 1 w g.idle (omega arith)) in
    let idle : IsIdle q = elim (Bool-cases (is_running q 0)) [
      | inl r ↦ absurd (l1.spares 0 (omega arith) r (e.device 0 ∙ w.device 0 (omega arith)))
      | inr r ↦ r
    ] in
    guard_plant s q g e idle l0.same l1.same

pub act-IsGuarded : (a : Action) (s : Irrigation) → IsGuarded s → IsGuarded (act a s)
unfolding act
act-IsGuarded (starts p c) s g =
    guard s (start p c s) g (start-Moves p c s) (start-IsIdle p c s g.idle)
      (start-IsPowered p c s g.powered)
act-IsGuarded stops s g =
    guard s (force_stop s) g (force_stop-Moves s g.safe.planned) (force_stop-IsIdle s g.idle)
      (force_stop-IsPowered s)
act-IsGuarded resumes s g =
    guard s (resume s) g (resume-Moves s) (resume-IsIdle s g.idle) (resume-IsPowered s g.powered)
act-IsGuarded (watches a) s g =
    guard s (faulty_detection_toggle a s) g (faulty_detection_toggle-Moves a s)
      (unfold faulty_detection_toggle in g.idle) (unfold faulty_detection_toggle in g.powered)
act-IsGuarded (pulses i) s g =
    guard_plant s (record s.plant { flow_sensors = interrupt i s.plant.flow_sensors }) g
      (record { steps = here; device = λ j. refl; sensor = λ j. refl }) g.idle refl refl
act-IsGuarded updates_devices s g =
    let d = update-devices s.board in
    guard_plant s (on_board Device.update s.plant) g
      (record { steps = updated here; device = λ j. refl; sensor = λ j. refl }) g.idle
      (ap (λ (f : ℕ → Device). f 0) d) (ap (λ (f : ℕ → Device). f 1) d)
act-IsGuarded updates_sensor_flow s g =
    guard_plant s (sensor_flow_update s.plant) g (sensor_flow_update-Evolves s.plant)
      (unfold sensor_flow_update in g.idle) (unfold sensor_flow_update in refl)
      (unfold sensor_flow_update in refl)
act-IsGuarded updates_sensor_pressure s g =
    guard_plant s (sensor_pressure_update s.plant) g (sensor_pressure_update-Evolves s.plant)
      (unfold sensor_pressure_update in g.idle) (unfold sensor_pressure_update in refl)
      (unfold sensor_pressure_update in refl)
act-IsGuarded updates_flows s g = updates_flows-IsGuarded s g
act-IsGuarded updates_irrigation s g =
    guard s (Irrigation.Update.update s) g (update-Moves s g.safe.planned) (update-IsIdle s g.idle)
      (update-IsPowered s g.powered)

pub run-IsGuarded :
    (actions : List Action) (s : Irrigation) → IsGuarded s → IsGuarded (run actions s)
unfolding run
run-IsGuarded [] s g = g
run-IsGuarded (a ∷ rest) s g = run-IsGuarded rest (act a s) (act-IsGuarded a s g)

-- ===== src/Irrigation/Ending/Others.antt =====
-- The steps of the main loop (arduino_client/src/main.cpp) that come between two steps of the irrigation
-- and change the plant, with the interrupts before each of them.
use blueberry_irrigation_sys.Base.{ℕ, ◌≡◌, refl, ap, ◌∙◌, ◌<◌, List, arith}
use blueberry_irrigation_sys.Device.{Device, Board, update_extension}
use blueberry_irrigation_sys.Device
use blueberry_irrigation_sys.Device.Steps.{here, updated}
use blueberry_irrigation_sys.SensorFlow.{Pulses, collect_all}
use blueberry_irrigation_sys.SensorFlow
use blueberry_irrigation_sys.SensorPressure.{measure_all}
use blueberry_irrigation_sys.SensorPressure
use blueberry_irrigation_sys.ControlFlow.{
  Plant, on_board, pulsed, sensor_flow_update, sensor_pressure_update,
}
use blueberry_irrigation_sys.ControlFlow
use blueberry_irrigation_sys.ControlFlow.Calls.{Within, update-Within}
use blueberry_irrigation_sys.ControlFlow.Evolution.{update-Evolves}
use blueberry_irrigation_sys.ControlFlow.Frame.{Spares, update-Leaves}
use blueberry_irrigation_sys.ControlFlow.Wiring.{
  IsPlanned, Evolves, Evolves-trans, Evolves-IsPlanned,
}
use blueberry_irrigation_sys.Irrigation.Run.{
  sensor_flow_update-Evolves, sensor_pressure_update-Evolves, update-devices,
}

-- The sensors' part, and the whole.
abbrev pub sensed : Pulses → Plant → Plant
sensed pulses p0 =
    let p1 = on_board Device.update (pulsed (pulses 0) p0) in
    let p2 = sensor_flow_update (pulsed (pulses 1) p1) in
    sensor_pressure_update (pulsed (pulses 2) p2)

unfoldable pub others : Pulses → Plant → Plant
others pulses p = ControlFlow.Update.update (pulsed (pulses 3) (sensed pulses p))

update_board-Within : (p : Plant) → Within 1 p (on_board Device.update p)
unfolding Device.update update_extension
update_board-Within p = ground arith

sensor_flow_update-Within : (p : Plant) → Within 2 p (sensor_flow_update p)
unfolding sensor_flow_update SensorFlow.update collect_all
sensor_flow_update-Within p = ground arith

sensor_pressure_update-Within : (p : Plant) → Within 8 p (sensor_pressure_update p)
unfolding sensor_pressure_update SensorPressure.update measure_all
sensor_pressure_update-Within p = ground arith

-- They call the environment at most 61 times.
pub others-Within : (pulses : Pulses) (p : Plant) → Within 61 p (others pulses p)
unfolding others
others-Within pulses p0 =
    let q0 = pulsed (pulses 0) p0 in
    let q1 = pulsed (pulses 1) (on_board Device.update q0) in
    let q2 = pulsed (pulses 2) (sensor_flow_update q1) in
    let q3 = pulsed (pulses 3) (sensor_pressure_update q2) in
    omega (
      arith,
      update_board-Within q0,
      sensor_flow_update-Within q1,
      sensor_pressure_update-Within q2,
      update-Within q3,
    )

pulsed-Evolves : (pulses : List ℕ) (p : Plant) → Evolves p (pulsed pulses p)
pulsed-Evolves pulses p = record { steps = here; device = λ i. refl; sensor = λ i. refl }

sensed-Evolves : (pulses : Pulses) (p : Plant) → Evolves p (sensed pulses p)
sensed-Evolves pulses p0 =
    let q0 = pulsed (pulses 0) p0 in
    let p1 = on_board Device.update q0 in
    let q1 = pulsed (pulses 1) p1 in
    let p2 = sensor_flow_update q1 in
    let q2 = pulsed (pulses 2) p2 in
    let e1 : Evolves p0 q1 = record {
      steps = updated here;
      device = λ i. refl;
      sensor = λ i. refl;
    } in
    let e2 : Evolves p0 q2 =
      Evolves-trans p0 p2 q2 (Evolves-trans p0 q1 p2 e1 (sensor_flow_update-Evolves q1))
        (pulsed-Evolves (pulses 2) p2) in
    Evolves-trans p0 q2 (sensor_pressure_update q2) e2 (sensor_pressure_update-Evolves q2)

flowing-Evolves : (pulses : Pulses) (p : Plant) → Evolves p (pulsed (pulses 3) (sensed pulses p))
flowing-Evolves pulses p =
    let q = sensed pulses p in
    Evolves-trans p q (pulsed (pulses 3) q) (sensed-Evolves pulses p) (pulsed-Evolves (pulses 3) q)

pub others-Evolves : (pulses : Pulses) (p : Plant) → IsPlanned p → Evolves p (others pulses p)
unfolding others
others-Evolves pulses p w =
    let q = pulsed (pulses 3) (sensed pulses p) in
    let e : Evolves p q = flowing-Evolves pulses p in
    Evolves-trans p q (ControlFlow.Update.update q) e (update-Evolves q (Evolves-IsPlanned p q e w))

sensed-devices : (pulses : Pulses) (p : Plant) → (sensed pulses p).devices ≡ p.devices
unfolding sensor_flow_update sensor_pressure_update
sensed-devices pulses p = update-devices p.board

-- No program runs the valve of a group, and none of these steps moves it.
pub others-valve :
    (j : ℕ) (pulses : Pulses) (p : Plant)
    → 9 < j
    → j < 13
    → IsPlanned p
    → ((others pulses p).devices j).is_active ≡ (p.devices j).is_active
unfolding others
others-valve j pulses p low high w =
    let q = pulsed (pulses 3) (sensed pulses p) in
    let planned : IsPlanned q = Evolves-IsPlanned p q (flowing-Evolves pulses p) w in
    let spares : Spares j q = λ i below r. ground (arith, planned.device i below) in
    let left = update-Leaves j q (omega arith) (omega arith) spares in
    ap (λ (d : Device). d.is_active)
      (left.same ∙ ap (λ (f : ℕ → Device). f j) (sensed-devices pulses p))

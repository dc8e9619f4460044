-- ===== src/ControlFlow/Evolution.antt =====
-- Every operation of control_flow.cpp evolves the plant.
use blueberry_irrigation_sys.Base.{
  inl, inr, subst, sym, ◌⊎◌, ℕ, zero, suc, ◌+◌, ◌≤◌, ◌<◌, ◌≡◌, refl, Bool, true, false, not, ◌&&◌,
  if_intro, is_true, for_up, arith,
}
use blueberry_irrigation_sys.Device.{toggle, is_time_switch_minimum_passed}
use blueberry_irrigation_sys.Device.Steps.{here, toggled, read}
use blueberry_irrigation_sys.ControlFlow.{
  Plant, on_board, ticked, set_flow, start, stop, pause, is_supplement, is_running,
}
use blueberry_irrigation_sys.ControlFlow.Wiring.{
  Evolves, Evolves-refl, Evolves-trans, Evolves-IsPlanned, IsPlanned, device-lt,
}
use blueberry_irrigation_sys.ControlFlow.Update.{
  is_finished, is_behind, drive, drive_lazily, control, update_flow, update_pump, update_water,
  check_flow, check_pulses, check_pressure, detect, update,
}

toggle-Evolves : (p : Plant) (i a : ℕ) → i < 15 → Evolves p (on_board (λ b. toggle b i a) p)
toggle-Evolves p i a h = record {
  steps = toggled here i a h;
  device = λ j. refl;
  sensor = λ j. refl;
}

pub start-Evolves : (p : Plant) (i volume time : ℕ) → Evolves p (start p i volume time)
unfolding start
start-Evolves p i volume time = record {
  steps = read (read here);
  device = λ j. ground arith;
  sensor = λ j. ground arith;
}

pub stop-Evolves : (p : Plant) (i : ℕ) → IsPlanned p → i < 6 → Evolves p (stop p i)
unfolding stop
stop-Evolves p i w h =
    if_intro (Evolves p)
      (is_supplement (p.flows i).sensor_flow
        && (not (is_running p' 1) && not (is_running p' 2) && not (is_running p' 3)))
      (record {
        steps = toggled (toggled off.steps 3 0 (omega arith)) 9 0 (omega arith);
        device = off.device;
        sensor = off.sensor;
      })
      off
  where
    p' : Plant
    p' =
        set_flow i (record (p.flows i) { is_active = 0; is_pause = 0 })
          (on_board (λ b. toggle b (p.flows i).device 0) p)

    off : Evolves p p'
    off = record {
      steps = toggled here (p.flows i).device 0 (device-lt p i w h);
      device = λ j. ground arith;
      sensor = λ j. ground arith;
    }

pub pause-Evolves : (p : Plant) (i a : ℕ) → IsPlanned p → i < 6 → Evolves p (pause p i a)
unfolding pause
pause-Evolves p i a w h =
    if_intro (Evolves p) (is_true a)
      (record {
        steps = read (toggled here (p.flows i).device 0 (device-lt p i w h));
        device = λ j. ground arith;
        sensor = λ j. ground arith;
      })
      (record { steps = read here; device = λ j. ground arith; sensor = λ j. ground arith })

ticked-Evolves : (p : Plant) → Evolves p (ticked p)
ticked-Evolves p = record { steps = read here; device = λ j. refl; sensor = λ j. refl }

drive-Evolves : (p : Plant) (on : Bool) (i : ℕ) → i < 15 → Evolves p (drive on i p)
unfolding drive is_time_switch_minimum_passed
drive-Evolves p true i h =
    if_intro (Evolves p) _
      (record { steps = toggled (read here) i 1 h; device = λ j. refl; sensor = λ j. refl })
      (ticked-Evolves p)
drive-Evolves p false i h =
    if_intro (Evolves p) _
      (record { steps = toggled (read here) i 0 h; device = λ j. refl; sensor = λ j. refl })
      (ticked-Evolves p)

drive_lazily-Evolves : (p : Plant) (on : Bool) (i : ℕ) → i < 15 → Evolves p (drive_lazily on i p)
unfolding drive_lazily is_time_switch_minimum_passed
drive_lazily-Evolves p true i h =
    if_intro (Evolves p) _
      (if_intro (Evolves p) _
        (record { steps = toggled (read here) i 1 h; device = λ j. refl; sensor = λ j. refl })
        (ticked-Evolves p))
      (Evolves-refl p)
drive_lazily-Evolves p false i h =
    if_intro (Evolves p) _
      (if_intro (Evolves p) _
        (record { steps = toggled (read here) i 0 h; device = λ j. refl; sensor = λ j. refl })
        (ticked-Evolves p))
      (Evolves-refl p)

pub is_finished_state :
    (p : Plant) (i : ℕ) → ((is_finished p i).1 ≡ p) ⊎ ((is_finished p i).1 ≡ ticked p)
unfolding is_finished
is_finished_state p i = ground arith

is_finished-Evolves : (p : Plant) (i : ℕ) → Evolves p (is_finished p i).1
is_finished-Evolves p i = elim (is_finished_state p i) [
  | inl e ↦ subst (Evolves p) (sym e) (Evolves-refl p)
  | inr e ↦ subst (Evolves p) (sym e) (ticked-Evolves p)
]

control-Evolves : (p : Plant) (i : ℕ) → IsPlanned p → i < 6 → Evolves p (control p i)
unfolding control is_behind
control-Evolves p i w h = if_intro (Evolves p) _ (drive-Evolves p true _ (device-lt p i w h)) (
    Evolves-trans p (ticked p) _ (ticked-Evolves p)
      (drive-Evolves (ticked p) (is_behind p i).0 _ (device-lt p i w h)))

pub update_flow-Evolves : (p : Plant) (i : ℕ) → IsPlanned p → i < 6 → Evolves p (update_flow i p)
unfolding update_flow
update_flow-Evolves p i w h =
    let e : Evolves p (is_finished p i).1 = is_finished-Evolves p i in
    let w' : IsPlanned (is_finished p i).1 = Evolves-IsPlanned p _ e w in
    if_intro (Evolves p) _ (Evolves-refl p) (
      if_intro (Evolves p) _ (Evolves-trans p (is_finished p i).1 _ e (stop-Evolves _ i w' h))
        (Evolves-trans p (is_finished p i).1 _ e (control-Evolves _ i w' h)))

-- A loop of rounds that evolve the plant does so.
for_up-Evolves :
    (body : ℕ → Plant → Plant)
    → ((p : Plant) (i : ℕ) → IsPlanned p → i < 6 → Evolves p (body i p))
    → (count first : ℕ) (p : Plant) → IsPlanned p
    → first + count ≤ 6
    → Evolves p (for_up count first body p)
for_up-Evolves body round zero first p w h = Evolves-refl p
for_up-Evolves body round (suc count) first p w h =
    let e : Evolves p (body first p) = round p first w (omega arith) in
    Evolves-trans p (body first p) _ e (
      for_up-Evolves body round count (first + 1) (body first p) (Evolves-IsPlanned p _ e w)
        (omega arith))

update_pump-Evolves : (p : Plant) → Evolves p (update_pump p)
unfolding update_pump
update_pump-Evolves p =
    if_intro (Evolves p) _ (drive_lazily-Evolves p true 3 (omega arith)) (Evolves-refl p)

update_water-Evolves : (p : Plant) → Evolves p (update_water p)
unfolding update_water
update_water-Evolves p =
    if_intro (Evolves p) _
      (if_intro (Evolves p) _ (drive_lazily-Evolves p true 9 (omega arith))
        (if_intro (Evolves p) _ (drive_lazily-Evolves p false 9 (omega arith)) (Evolves-refl p)))
      (Evolves-refl p)

check_pulses-Evolves : (p : Plant) (i : ℕ) → Evolves p (check_pulses i p)
unfolding check_pulses
check_pulses-Evolves p i =
    if_intro (Evolves p) _
      (record { steps = here; device = λ j. ground arith; sensor = λ j. ground arith })
      (Evolves-refl p)

check_flow-Evolves : (p : Plant) (i : ℕ) → Evolves p (check_flow i p)
unfolding check_flow check_pressure
check_flow-Evolves p i = if_intro (Evolves p) _ (Evolves-refl p) (
    Evolves-trans p (check_pulses i p) _ (check_pulses-Evolves p i)
      (record { steps = here; device = λ j. refl; sensor = λ j. refl }))

detect-Evolves : (p : Plant) → IsPlanned p → Evolves p (detect p)
unfolding detect
detect-Evolves p w =
    let t : Evolves p (ticked p) = ticked-Evolves p in
    let e : Evolves p (for_up 6 0 check_flow (ticked p)) = Evolves-trans p (ticked p) _ t (
      for_up-Evolves check_flow (λ q i _ _. check_flow-Evolves q i) 6 0 (ticked p)
        (Evolves-IsPlanned p _ t w) (omega arith)) in
    if_intro (Evolves p) _ (record { steps = read e.steps; device = e.device; sensor = e.sensor }) t

-- One call of `control_flow_update` evolves the plant.
pub update-Evolves : (p : Plant) → IsPlanned p → Evolves p (update p)
unfolding update
update-Evolves p w =
    let p1 = for_up 6 0 update_flow p in
    let e1 : Evolves p p1 = for_up-Evolves update_flow update_flow-Evolves 6 0 p w (omega arith) in
    let e2 : Evolves p (update_pump p1) = Evolves-trans p p1 _ e1 (update_pump-Evolves p1) in
    let e3 : Evolves p (update_water (update_pump p1)) =
      Evolves-trans p (update_pump p1) _ e2 (update_water-Evolves (update_pump p1)) in
    Evolves-trans p (update_water (update_pump p1)) _ e3
      (detect-Evolves _ (Evolves-IsPlanned p _ e3 w))

-- ===== src/ControlFlow/Detection.antt =====
-- The faulty flow detection at the end of `control_flow_update`.
use blueberry_irrigation_sys.Base.{
  ap, ℕ, zero, suc, ◌+◌, ◌≤◌, ◌<◌, ◌≡◌, ◌≢◌, ◌∙◌, ◌⊎◌, ◌↔◌, inl, inr, refl, sym, subst, is_true,
  for_up, sub32, ℕ_discrete, arith,
}
use blueberry_irrigation_sys.World.{now}
use blueberry_irrigation_sys.ControlFlow.{
  Plant, ticked, pulses_total_of, not_detected, detected_pressure_zero,
}
use blueberry_irrigation_sys.ControlFlow.Rounds.{IsRunning}
use blueberry_irrigation_sys.ControlFlow.Update.{
  check_flow, check_pulses, check_pressure, stamp_detection, time_interval, detect,
}

-- The pressure behind the filters.
abbrev pub pressure : Plant → ℕ
pressure p = (p.pressure_sensors.sensors 2).pressure

-- The pulses of a program since the last check.
abbrev pub flowed : Plant → ℕ → ℕ
flowed p i = sub32 (pulses_total_of p (p.flows i)) (p.flows i).pulses_last

-- A program in which nothing is wrong: it does not run, or it is the garden program, or from 100 to
-- 1000 pulses have come; and there is pressure if it runs.
abbrev pub IsHealthy : Plant → ℕ → Type 0
IsHealthy p i =
    IsRunning p i → (pressure p ≢ 0) × ((i ≡ 5) ⊎ ((100 ≤ flowed p i) × (flowed p i ≤ 1000)))

check_flow_frame :
    (p : Plant) (i j : ℕ)
    → (pressure (check_flow i p) ≡ pressure p)
      × (((check_flow i p).flows j).is_active ≡ (p.flows j).is_active)
      × (((check_flow i p).flows j).is_pause ≡ (p.flows j).is_pause)
      × (j ≢ i → flowed (check_flow i p) j ≡ flowed p j)
unfolding check_flow check_pulses check_pressure
check_flow_frame p i j = (ground arith, ground arith, ground arith, λ ne. ground (arith, ne))

check_healthy :
    (p : Plant) (i : ℕ)
    → IsHealthy p i
    → (check_flow i p).faulty_detection_status ≡ p.faulty_detection_status
unfolding check_flow check_pulses check_pressure
check_healthy p i h = ground (arith, h)

for_up_healthy :
    (count first : ℕ) (p : Plant)
    → first + count ≤ 6
    → ((i : ℕ) → first ≤ i → i < 6 → IsHealthy p i)
    → (for_up count first check_flow p).faulty_detection_status ≡ p.faulty_detection_status
for_up_healthy zero first p le h = refl
for_up_healthy (suc count) first p le h =
    for_up_healthy count (first + 1) (check_flow first p) (omega arith) still
    ∙ check_healthy p first (h first (omega arith) (omega arith))
  where
    still : (i : ℕ) → first + 1 ≤ i → i < 6 → IsHealthy (check_flow first p) i
    still i above below =
        let f = check_flow_frame p first i in λ r. ground (arith, h i, f.0, f.1, f.2, f.3, r)

check_zero :
    (p : Plant) (i : ℕ)
    → pressure p ≡ 0
    → IsRunning p i ⊎ (p.faulty_detection_status ≡ detected_pressure_zero)
    → (check_flow i p).faulty_detection_status ≡ detected_pressure_zero
unfolding check_flow check_pulses check_pressure
check_zero p i z h = ground arith

for_up_zero :
    (count first : ℕ) (p : Plant) (i : ℕ)
    → pressure p ≡ 0
    → ((first ≤ i) × (i < first + count) × IsRunning p i)
      ⊎ (p.faulty_detection_status ≡ detected_pressure_zero)
    → (for_up count first check_flow p).faulty_detection_status ≡ detected_pressure_zero
for_up_zero zero first p i z (inl (a, b, r)) = absurd (omega arith)
for_up_zero zero first p i z (inr e) = e
for_up_zero (suc count) first p i z (inr e) =
    for_up_zero count (first + 1) (check_flow first p) i ((check_flow_frame p first i).0 ∙ z)
      (inr (check_zero p first z (inr e)))
for_up_zero (suc count) first p i z (inl (a, b, r)) = elim (ℕ_discrete first i) [
  | yes here ↦
      for_up_zero count (first + 1) (check_flow first p) i ((check_flow_frame p first i).0 ∙ z)
        (inr (check_zero p first z (inl (subst (IsRunning p) (sym here) r))))
  | no later ↦
      for_up_zero count (first + 1) (check_flow first p) i ((check_flow_frame p first i).0 ∙ z) (
        inl (
          omega arith,
          omega arith,
          (
            ap is_true (check_flow_frame p first i).1 ∙ r.0,
            ap is_true (check_flow_frame p first i).2 ∙ r.1,
          ),
        ))
]

check_sound :
    (p : Plant) (i : ℕ)
    → (check_flow i p).faulty_detection_status ≡ not_detected
    → (p.faulty_detection_status ≡ not_detected) × IsHealthy p i
unfolding check_flow check_pulses check_pressure
check_sound p i e = (ground arith, λ r. (ground arith, ground arith))

for_up_sound :
    (count first : ℕ) (p : Plant)
    → (for_up count first check_flow p).faulty_detection_status ≡ not_detected
    → (p.faulty_detection_status ≡ not_detected)
      × ((i : ℕ) → first ≤ i → i < first + count → IsHealthy p i)
for_up_sound zero first p e = (e, λ i a b. absurd (omega arith))
for_up_sound (suc count) first p e =
    let rest = for_up_sound count (first + 1) (check_flow first p) e in
    let here = check_sound p first rest.0 in
    (
      here.0,
      λ i a b. elim (ℕ_discrete first i) [
        | yes same ↦ subst (IsHealthy p) same here.1
        | no later ↦
            let f = check_flow_frame p first i in
            let h = rest.1 i (omega arith) (omega arith) in
            λ r. ground (arith, h, f.0, f.1, f.2, f.3, r)
      ],
    )

-- Ten seconds have passed since the last check.
abbrev pub IsDue : Plant → Type 0
IsDue p = time_interval < sub32 (now p.world) p.faulty_detection_time_last

due : (p : Plant) → IsDue p → detect p ≡ stamp_detection (for_up 6 0 check_flow (ticked p))
unfolding detect
due p h = ground arith

-- A check that is due finds no fault exactly if none was found before and every program is healthy:
-- those that run have pressure and, but for the garden's, from 100 to 1000 pulses since the last
-- check.
pub detect_iff :
    (p : Plant)
    → IsDue p
    → ((detect p).faulty_detection_status ≡ not_detected)
      ↔ ((p.faulty_detection_status ≡ not_detected) × ((i : ℕ) → i < 6 → IsHealthy p i))
detect_iff p h = rw (due p h) (
  (λ e. let s = for_up_sound 6 0 (ticked p) e in (s.0, λ i below. s.1 i (omega arith) below)),
  λ (e, healthy). for_up_healthy 6 0 (ticked p) (omega arith) (λ i _ below. healthy i below) ∙ e,
)

-- A check that is not due changes no status, no program and no device.
detect_not_due : (p : Plant) → ¬ IsDue p → detect p ≡ ticked p
unfolding detect
detect_not_due p h = ground (arith, h)

-- Where a program runs without pressure, a check that is due reports that, whatever the flows are.
detect_pressure_zero :
    (p : Plant) (i : ℕ)
    → IsDue p
    → i < 6
    → IsRunning p i
    → pressure p ≡ 0
    → (detect p).faulty_detection_status ≡ detected_pressure_zero
detect_pressure_zero p i h below r z =
    rw (due p h) (for_up_zero 6 0 (ticked p) i z (inl (omega arith, below, r)))

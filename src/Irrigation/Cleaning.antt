-- ===== src/Irrigation/Cleaning.antt =====
-- The order of the cleaning: group 3, then 1, then 2 (`control_irrigation_temp_update`).
use blueberry_irrigation_sys.Base.{
  ℕ, ◌≤◌, ◌<◌, ◌≡◌, ◌≢◌, true, false, ap, refl, ◌∙◌, sym, subst, ◌==◌, if◌then◌else◌, is_true,
  arith,
}
use blueberry_irrigation_sys.Device.{toggle}
use blueberry_irrigation_sys.Irrigation.{
  Irrigation, cleaning, Status, ready, finishing, ticked, toggle_device,
}
use blueberry_irrigation_sys.Irrigation.Update.{update, end_cleaning}
use blueberry_irrigation_sys.Irrigation.Evolution.{toggle2-Moves}
use blueberry_irrigation_sys.Irrigation.Stamps.{IsFresh, now-IsFresh, IsFresh-ticked}
use blueberry_irrigation_sys.Irrigation.Timing.{
  IsCalm, IsSince, IsKnown, limit, ending, update_ready,
}

-- The group that is cleaned, or none after the last one.
pub data Stage : Type 0 where
  third first second over : Stage

abbrev pub next : Stage → Stage
next third = first
next first = second
next second = over
next over = over

-- The valve that is open.
abbrev pub valve : Stage → ℕ → ℕ
valve third i = if i == 12 then 1 else 0
valve first i = if i == 10 then 1 else 0
valve second i = if i == 11 then 1 else 0
valve over i = 0

-- How long the group is cleaned.
abbrev pub stage_time : Stage → Irrigation → ℕ
stage_time first s = s.time_cleaning_group12_duration
stage_time second s = s.time_cleaning_group12_duration
stage_time _ s = s.time_cleaning_group3_duration

abbrev pub phase : Stage → Status
phase over = finishing
phase _ = ready

-- The clock variable that the stage is timed by.
abbrev pub stage_start : Stage → Irrigation → ℕ
stage_start over s = s.time_generator_start
stage_start _ s = s.time_program_start

-- The irrigation is cleaning: of the three valves, that of the stage alone is open.
pub record IsAt (g : Stage) (s : Irrigation) : Type 0 where
  pub program : s.program ≡ cleaning
  pub status : s.status ≡ phase g
  pub time : s.time_cleaning_duration ≡ stage_time g s
  pub valve_10 : (s.devices 10).is_active ≡ valve g 10
  pub valve_11 : (s.devices 11).is_active ≡ valve g 11
  pub valve_12 : (s.devices 12).is_active ≡ valve g 12

end_cleaning-IsAt :
    (g : Stage) (s : Irrigation) → g ≢ over → IsAt g s → IsAt (next g) (end_cleaning s)
unfolding end_cleaning toggle
end_cleaning-IsAt third s n a =
    let e10 : is_true (s.devices 10).is_active ≡ false = ap is_true a.valve_10 in
    let e11 : is_true (s.devices 11).is_active ≡ false = ap is_true a.valve_11 in
    simp (e10, e11)
      (record {
        program = a.program;
        status = a.status;
        time = refl;
        valve_10 = refl;
        valve_11 = a.valve_11;
        valve_12 = refl;
      })
end_cleaning-IsAt first s n a =
    let e10 : is_true (s.devices 10).is_active ≡ true = ap is_true a.valve_10 in
    simp e10 (record {
      program = a.program;
      status = a.status;
      time = a.time;
      valve_10 = refl;
      valve_11 = refl;
      valve_12 = a.valve_12;
    })
end_cleaning-IsAt second s n a =
    let e10 : is_true (s.devices 10).is_active ≡ false = ap is_true a.valve_10 in
    let e11 : is_true (s.devices 11).is_active ≡ true = ap is_true a.valve_11 in
    simp (e10, e11)
      (record {
        program = a.program;
        status = refl;
        time = refl;
        valve_10 = a.valve_10;
        valve_11 = refl;
        valve_12 = a.valve_12;
      })
end_cleaning-IsAt over s n a = absurd (n refl)

end_cleaning-IsFresh :
    (g : Stage) (s : Irrigation)
    → g ≢ over
    → IsAt g s
    → IsFresh s (stage_start (next g) (end_cleaning s)) (end_cleaning s)
unfolding end_cleaning
end_cleaning-IsFresh third s n a =
    let e10 : is_true (s.devices 10).is_active ≡ false = ap is_true a.valve_10 in
    let e11 : is_true (s.devices 11).is_active ≡ false = ap is_true a.valve_11 in
    simp (e10, e11)
      (now-IsFresh s (toggle_device 10 1 (toggle_device 12 0 s))
        (toggle2-Moves s 12 10 0 1 (omega arith) (omega arith)))
end_cleaning-IsFresh first s n a =
    let e10 : is_true (s.devices 10).is_active ≡ true = ap is_true a.valve_10 in
    simp e10 (
      now-IsFresh s (toggle_device 11 1 (toggle_device 10 0 s))
        (toggle2-Moves s 10 11 0 1 (omega arith) (omega arith)))
end_cleaning-IsFresh second s n a =
    let e10 : is_true (s.devices 10).is_active ≡ false = ap is_true a.valve_10 in
    let e11 : is_true (s.devices 11).is_active ≡ true = ap is_true a.valve_11 in
    simp (e10, e11)
      (now-IsFresh s (toggle_device 11 0 (toggle_device 1 0 s))
        (toggle2-Moves s 1 11 0 0 (omega arith) (omega arith)))
end_cleaning-IsFresh over s n a = absurd (n refl)

phase_ready : (g : Stage) → g ≢ over → phase g ≡ ready
phase_ready third n = refl
phase_ready first n = refl
phase_ready second n = refl
phase_ready over n = absurd (n refl)

stage_time-ticked : (g : Stage) (s : Irrigation) → stage_time g s ≡ stage_time g (ticked s)
stage_time-ticked third s = refl
stage_time-ticked first s = refl
stage_time-ticked second s = refl
stage_time-ticked over s = refl

ticked-IsAt : (g : Stage) (s : Irrigation) → IsAt g s → IsAt g (ticked s)
ticked-IsAt g s a = record {
  program = a.program;
  status = a.status;
  time = a.time ∙ stage_time-ticked g s;
  valve_10 = a.valve_10;
  valve_11 = a.valve_11;
  valve_12 = a.valve_12;
}

-- The cleaning goes through group 3, group 1 and group 2, each for its time on the true clock, with the
-- valve of that group alone open: before the time has passed, an update only reads the clock, and the
-- next one after it is at the next group, or after the last one in FINISHING with all three valves shut.
-- The time of what comes next starts there: its clock variable holds the last clock reading of that
-- update. No fault is to be acted on, and the time since the start of the stage fits into 32 bits.
pub update-IsAt :
    (g : Stage) (s : Irrigation) (elapsed : ℕ)
    → g ≢ over
    → IsCalm s
    → IsSince s s.time_program_start elapsed
    → IsAt g s
    → (elapsed < stage_time g s → update s ≡ ticked s)
      × (stage_time g s ≤ elapsed
          → IsAt (next g) (update s) × IsFresh s (stage_start (next g) (update s)) (update s))
update-IsAt g s elapsed n calm since a =
    let known : IsKnown s.program = subst IsKnown (sym a.program) (λ k e. ground arith) in
    let r = update_ready s elapsed (a.status ∙ phase_ready g n) calm known since in
    let limited : limit s.program s ≡ stage_time g s = ap (λ p. limit p s) a.program ∙ a.time in
    let ended : ending s.program (ticked s) ≡ end_cleaning (ticked s) =
      ap (λ p. ending p (ticked s)) a.program in
    let b : IsAt g (ticked s) = ticked-IsAt g s a in
    let t = end_cleaning (ticked s) in
    (
      λ early. r.0 (omega (arith, limited)),
      λ late.
          subst (λ t. IsAt (next g) t × IsFresh s (stage_start (next g) t) t)
            (sym (r.1 (omega (arith, limited)) ∙ ended))
            (
              end_cleaning-IsAt g (ticked s) n b,
              IsFresh-ticked s t (stage_start (next g) t) (end_cleaning-IsFresh g (ticked s) n b),
            ),
    )

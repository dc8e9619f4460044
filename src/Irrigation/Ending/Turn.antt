-- ===== src/Irrigation/Ending/Turn.antt =====
-- What one call of `control_irrigation_temp_update` brings a program nearer to its end.
use blueberry_irrigation_sys.Base.{
  ℕ, ◌<◌, ◌≡◌, inl, inr, refl, sym, subst, Bool-cases, ◌&&◌, is_true, sub32, ltb, arith,
}
use blueberry_irrigation_sys.World.{now}
use blueberry_irrigation_sys.Irrigation.{
  Irrigation, Status, finished, preparing, ready, finishing, ticked,
}
use blueberry_irrigation_sys.Irrigation.Stop.{force_stop_state}
use blueberry_irrigation_sys.Irrigation.Timing.{limit, ending, update_program-after}
use blueberry_irrigation_sys.Irrigation.Update.{
  is_watched, is_faulty, after, leave_preparing, leave_finishing, update_status, update,
}
use blueberry_irrigation_sys.Irrigation.Ending.Rank.{rank, ready-rank, leave_preparing-rank}
use blueberry_irrigation_sys.Irrigation.Ending.Times.{
  IsTimed, plant-IsTimed, ending-IsTimed, leave_preparing-IsTimed,
}

-- The stamp and the duration that a status looks at.
abbrev pub since : Irrigation → ℕ
since s = elim s.status [ ready ↦ s.time_program_start | _ ↦ s.time_generator_start ]

abbrev pub wait : Irrigation → ℕ
wait s = elim s.status [ ready ↦ limit s.program s | _ ↦ s.time_generator_wait ]

-- `t` is over, or in a later phase than `s`, or still waits in the same one.
pub data Outcome (step : ℕ) (s t : Irrigation) : Type 0 where
  over : t.status ≡ finished → Outcome step s t
  later : rank t < rank s → IsTimed step t → Outcome step s t
  waits : t ≡ ticked s → sub32 (now s.world) (since s) < wait s → Outcome step s t

after-Outcome :
    (step start duration : ℕ) (next : Irrigation → Irrigation) (s : Irrigation)
    → since s ≡ start
    → wait s ≡ duration
    → Outcome step s (next (ticked s))
    → Outcome step s (after start duration next s)
after-Outcome step start duration next s e f turn =
    elim (Bool-cases (ltb (sub32 (now s.world) start) duration)) [
      | inl early ↦ rw early (waits refl (ground (arith, early, e, f)))
      | inr late ↦ rw late turn
    ]

update_status-Outcome :
    (step : ℕ) (st : Status) (s : Irrigation)
    → s.status ≡ st
    → IsTimed step s
    → Outcome step s (update_status st s)
unfolding update_status
update_status-Outcome step finished s e t = over e
update_status-Outcome step preparing s e t =
    let u = ticked s in
    let full : rank s ≡ 8 = rw e refl in
    let fewer : rank (leave_preparing u) < rank s = omega (arith, leave_preparing-rank u, full) in
    after-Outcome step s.time_generator_start s.time_generator_wait leave_preparing s (rw e refl)
      (rw e refl) (later fewer (leave_preparing-IsTimed step u (plant-IsTimed step s u.plant t)))
update_status-Outcome step ready s e t =
    let u = ticked s in
    subst (Outcome step s) (sym (update_program-after s.program s t.known)) (
      after-Outcome step s.time_program_start (limit s.program s) (ending s.program) s (rw e refl)
        (rw e refl)
        (later (ready-rank u e t.known)
          (ending-IsTimed step s.program u (plant-IsTimed step s u.plant t))))
update_status-Outcome step finishing s e t =
    after-Outcome step s.time_generator_start s.time_generator_wait leave_finishing s (rw e refl)
      (rw e refl) (over (unfold leave_finishing in refl))

pub update-Outcome : (step : ℕ) (s : Irrigation) → IsTimed step s → Outcome step s (update s)
unfolding update
update-Outcome step s t =
    elim (Bool-cases (
      is_watched s.status
      && (is_true s.is_faulty_detection_active && is_faulty s.faulty_detection_status))) [
        | inl fault ↦ rw fault (over (force_stop_state s).0)
        | inr calm ↦ rw calm (update_status-Outcome step s.status s refl t)
      ]

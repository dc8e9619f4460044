-- ===== src/Irrigation/Timing.antt =====
-- The phases of the irrigation on the true clock: how long each lasts and what its end does.
use blueberry_irrigation_sys.Base.{
  ℕ, ◌+◌, ◌^◌, ◌≤◌, ◌<◌, ◌≡◌, ◌≢◌, refl, ap, ◌∙◌, false, ◌&&◌, is_true, u32, sub32_elapsed, arith,
}
use blueberry_irrigation_sys.Irrigation.{
  Irrigation, Program, group_1, group_2, both, cleaning, garden, other, Status, preparing, ready,
  finishing, ticked,
}
use blueberry_irrigation_sys.Irrigation.Update.{
  is_faulty, after, leave_preparing, leave_finishing, finish, end_group, end_both, end_cleaning,
  update_program, update_status, update,
}

-- No fault is to be acted on.
abbrev pub IsCalm : Irrigation → Type 0
IsCalm s = (is_true s.is_faulty_detection_active && is_faulty s.faulty_detection_status) ≡ false

-- The clock variable `since` was read `elapsed` milliseconds before the next reading.
abbrev pub IsSince : Irrigation → ℕ → ℕ → Type 0
IsSince s since elapsed =
    (elapsed < 2 ^ 32)
    × ((start : ℕ) × (since ≡ u32 start) × (s.env.millis s.calls ≡ start + elapsed))

pub after_waits :
    (since duration elapsed : ℕ) (next : Irrigation → Irrigation) (s : Irrigation)
    → IsSince s since elapsed
    → elapsed < duration
    → after since duration next s ≡ ticked s
after_waits since duration elapsed next s (fits, (s0, e, c)) early =
    ground (arith, sub32_elapsed s0 elapsed)

pub after_over :
    (since duration elapsed : ℕ) (next : Irrigation → Irrigation) (s : Irrigation)
    → IsSince s since elapsed
    → duration ≤ elapsed
    → after since duration next s ≡ next (ticked s)
after_over since duration elapsed next s (fits, (s0, e, c)) late =
    ground (arith, sub32_elapsed s0 elapsed)

update_calm : (s : Irrigation) → IsCalm s → update s ≡ update_status s.status s
unfolding update
update_calm s calm = ground arith

update_of :
    (st : Status) (s : Irrigation) → s.status ≡ st → IsCalm s → update s ≡ update_status st s
update_of st s e calm = update_calm s calm ∙ ap (λ x. update_status x s) e

-- What the programs wait for, and what they do then.
abbrev pub limit : Program → Irrigation → ℕ
limit cleaning s = s.time_cleaning_duration
limit _ s = s.time_program_duration

abbrev pub ending : Program → Irrigation → Irrigation
ending group_1 = end_group 10
ending group_2 = end_group 11
ending both = end_both
ending cleaning = end_cleaning
ending garden = finish
ending (other n) = λ s. s

abbrev pub IsKnown : Program → Type 0
IsKnown p = (n : ℕ) → p ≢ other n

pub update_program-after :
    (p : Program) (s : Irrigation)
    → IsKnown p
    → update_program p s ≡ after s.time_program_start (limit p s) (ending p) s
unfolding update_program
update_program-after (other n) s k = absurd (k n refl)
update_program-after _ s k = refl

-- The update of a running program, and of the two waits for the generator.
running_lem :
    (s : Irrigation)
    → s.status ≡ ready
    → IsCalm s
    → IsKnown s.program
    → update s ≡ after s.time_program_start (limit s.program s) (ending s.program) s
unfolding update_status
running_lem s st calm known = update_of ready s st calm ∙ update_program-after s.program s known

pub preparing_lem :
    (s : Irrigation)
    → s.status ≡ preparing
    → IsCalm s
    → update s ≡ after s.time_generator_start s.time_generator_wait leave_preparing s
unfolding update_status
preparing_lem s st calm = update_of preparing s st calm

pub finishing_lem :
    (s : Irrigation)
    → s.status ≡ finishing
    → IsCalm s
    → update s ≡ after s.time_generator_start s.time_generator_wait leave_finishing s
unfolding update_status
finishing_lem s st calm = update_of finishing s st calm

-- While one of the five programs is READY and no fault is to be acted on, `update` does nothing
-- but read the clock until the program's time has passed on the true clock; a call after that does
-- what ends the program's phase. The time since the start fits into 32 bits.
pub update_ready :
    (s : Irrigation) (elapsed : ℕ)
    → s.status ≡ ready
    → IsCalm s
    → IsKnown s.program
    → IsSince s s.time_program_start elapsed
    → (elapsed < limit s.program s → update s ≡ ticked s)
      × (limit s.program s ≤ elapsed → update s ≡ ending s.program (ticked s))
update_ready s elapsed st calm known since =
    let phase = running_lem s st calm known in
    let since_start = s.time_program_start in
    (
      λ early.
          phase
          ∙ after_waits since_start (limit s.program s) elapsed (ending s.program) s since early,
      λ late.
          phase
          ∙ after_over since_start (limit s.program s) elapsed (ending s.program) s since late,
    )

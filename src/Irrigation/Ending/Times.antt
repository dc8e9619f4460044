-- ===== src/Irrigation/Ending/Times.antt =====
-- The durations that the phases wait for: they stay below the range of the clock.
use blueberry_irrigation_sys.Base.{
  ℕ, ◌+◌, ◌^◌, ◌≤◌, ◌<◌, ◌≡◌, sym, subst, ◌⊎◌, if_intro, is_true, arith,
}
use blueberry_irrigation_sys.ControlFlow
use blueberry_irrigation_sys.Irrigation.{
  Irrigation, Program, group_1, group_2, both, cleaning, garden, other, ready, prepare,
  start_supplements, start_group, start_program, choose, start_fuel, start, resume, resume_group,
  resume_program, toggle_device,
}
use blueberry_irrigation_sys.Irrigation.Timing.{ending, IsKnown}
use blueberry_irrigation_sys.Irrigation.Update.{
  leave_preparing, finish, end_group, end_both, end_cleaning,
}

-- The program is one of the five, each duration leaves room for a round of `step` ms before the clock
-- wraps, and the stamps of the clock have 32 bits.
pub record IsTimed (step : ℕ) (s : Irrigation) : Type 0 where
  pub known : IsKnown s.program
  pub generator : s.time_generator_wait + step ≤ 2 ^ 32
  pub program_duration : s.time_program_duration + step ≤ 2 ^ 32
  pub cleaning_duration : s.time_cleaning_duration + step ≤ 2 ^ 32
  pub group3 : s.time_cleaning_group3_duration + step ≤ 2 ^ 32
  pub group12 : s.time_cleaning_group12_duration + step ≤ 2 ^ 32
  pub program_start : s.time_program_start < 2 ^ 32
  pub generator_start : s.time_generator_start < 2 ^ 32

start_program_of :
    (p : Program) (c : ℕ) (s : Irrigation)
    → ((start p c s).program ≡ p)
      × ((start p c s).time_generator_wait ≡ s.time_generator_wait)
      × ((start p c s).time_program_duration ≡ s.time_program_duration)
      × ((start p c s).time_cleaning_duration ≡ s.time_cleaning_group3_duration)
      × ((start p c s).time_cleaning_group3_duration ≡ s.time_cleaning_group3_duration)
      × ((start p c s).time_cleaning_group12_duration ≡ s.time_cleaning_group12_duration)
unfolding start start_fuel start_program start_group start_supplements ControlFlow.start prepare
    choose
start_program_of p c s = ground arith

start_stamps :
    (p : Program) (c : ℕ) (s : Irrigation)
    → s.time_program_start < 2 ^ 32
    → s.time_generator_start < 2 ^ 32
    → ((start p c s).time_program_start < 2 ^ 32) × ((start p c s).time_generator_start < 2 ^ 32)
unfolding start start_fuel start_program start_group start_supplements ControlFlow.start prepare
    choose
start_stamps p c s h k = ground arith

start-IsTimed :
    (step : ℕ) (p : Program) (c : ℕ) (s : Irrigation)
    → IsKnown p
    → IsTimed step s
    → IsTimed step (start p c s)
start-IsTimed step p c s k t =
    let (program, generator, duration, wait, group3, group12) = start_program_of p c s in
    let (stamp, stamp') = start_stamps p c s t.program_start t.generator_start in
    record {
      known = subst IsKnown (sym program) k;
      generator = omega (arith, generator, t.generator);
      program_duration = omega (arith, duration, t.program_duration);
      cleaning_duration = omega (arith, wait, t.group3);
      group3 = omega (arith, group3, t.group3);
      group12 = omega (arith, group12, t.group12);
      program_start = stamp;
      generator_start = stamp';
    }

resume_kept :
    (s : Irrigation)
    → ((resume s).program ≡ s.program)
      × ((resume s).time_generator_wait ≡ s.time_generator_wait)
      × ((resume s).time_program_duration ≡ s.time_program_duration)
      × (((resume s).time_cleaning_duration ≡ s.time_cleaning_group3_duration)
          ⊎ ((resume s).time_cleaning_duration ≡ s.time_cleaning_duration))
      × ((resume s).time_cleaning_group3_duration ≡ s.time_cleaning_group3_duration)
      × ((resume s).time_cleaning_group12_duration ≡ s.time_cleaning_group12_duration)
unfolding resume resume_program resume_group prepare
resume_kept s = ground arith

resume_stamps :
    (s : Irrigation)
    → s.time_program_start < 2 ^ 32
    → s.time_generator_start < 2 ^ 32
    → ((resume s).time_program_start < 2 ^ 32) × ((resume s).time_generator_start < 2 ^ 32)
unfolding resume resume_program resume_group prepare
resume_stamps s h k = ground arith

resume-IsTimed : (step : ℕ) (s : Irrigation) → IsTimed step s → IsTimed step (resume s)
resume-IsTimed step s t =
    let (program, generator, duration, wait, group3, group12) = resume_kept s in
    let (stamp, stamp') = resume_stamps s t.program_start t.generator_start in
    record {
      known = subst IsKnown (sym program) t.known;
      generator = omega (arith, generator, t.generator);
      program_duration = omega (arith, duration, t.program_duration);
      cleaning_duration = omega (arith, wait, t.group3, t.cleaning_duration);
      group3 = omega (arith, group3, t.group3);
      group12 = omega (arith, group12, t.group12);
      program_start = stamp;
      generator_start = stamp';
    }

-- The plant of a state does not matter.
pub plant-IsTimed :
    (step : ℕ) (s : Irrigation) (p : ControlFlow.Plant)
    → IsTimed step s
    → IsTimed step (record s { plant = p })
plant-IsTimed step s p t = record {
  known = t.known;
  generator = t.generator;
  program_duration = t.program_duration;
  cleaning_duration = t.cleaning_duration;
  group3 = t.group3;
  group12 = t.group12;
  program_start = t.program_start;
  generator_start = t.generator_start;
}

finish-IsTimed : (step : ℕ) (s : Irrigation) → IsTimed step s → IsTimed step (finish s)
unfolding finish
finish-IsTimed step s t = record {
  known = t.known;
  generator = t.generator;
  program_duration = t.program_duration;
  cleaning_duration = t.cleaning_duration;
  group3 = t.group3;
  group12 = t.group12;
  program_start = t.program_start;
  generator_start = omega arith;
}

cleaning-IsKnown : IsKnown cleaning
cleaning-IsKnown n e = ground arith

both-IsKnown : IsKnown both
both-IsKnown n e = ground arith

end_group-IsTimed :
    (step valve : ℕ) (s : Irrigation) → IsTimed step s → IsTimed step (end_group valve s)
unfolding end_group
end_group-IsTimed step valve s t =
    let u = toggle_device valve 0 (toggle_device 2 0 s) in
    let k : IsTimed step u = plant-IsTimed step s u.plant t in
    if_intro (IsTimed step) (is_true u.is_cleaning)
      (start-IsTimed step cleaning 1 u cleaning-IsKnown k) (finish-IsTimed step u k)

end_both-IsTimed : (step : ℕ) (s : Irrigation) → IsTimed step s → IsTimed step (end_both s)
unfolding end_both
end_both-IsTimed step s t =
    let u = toggle_device 11 0 (toggle_device 2 0 s) in
    let k : IsTimed step u = plant-IsTimed step s u.plant t in
    let v = toggle_device 10 0 s in
    let g =
      start-IsTimed step group_2 s.is_cleaning v (λ n e. ground arith)
        (plant-IsTimed step s v.plant t) in
    if_intro (IsTimed step) (is_true (s.devices 10).is_active)
      (record {
        known = both-IsKnown;
        generator = g.generator;
        program_duration = g.program_duration;
        cleaning_duration = g.cleaning_duration;
        group3 = g.group3;
        group12 = g.group12;
        program_start = g.program_start;
        generator_start = g.generator_start;
      })
      (if_intro (IsTimed step) (is_true u.is_cleaning)
        (start-IsTimed step cleaning u.is_cleaning u cleaning-IsKnown k) (finish-IsTimed step u k))

end_cleaning-IsTimed : (step : ℕ) (s : Irrigation) → IsTimed step s → IsTimed step (end_cleaning s)
unfolding end_cleaning
end_cleaning-IsTimed step s t = record {
  known = ground (arith, t.known);
  generator = ground (arith, t.generator);
  program_duration = ground (arith, t.program_duration);
  cleaning_duration = ground (arith, t.cleaning_duration, t.group3, t.group12);
  group3 = ground (arith, t.group3);
  group12 = ground (arith, t.group12);
  program_start = ground (arith, t.program_start);
  generator_start = ground (arith, t.generator_start);
}

pub ending-IsTimed :
    (step : ℕ) (p : Program) (s : Irrigation) → IsTimed step s → IsTimed step (ending p s)
ending-IsTimed step group_1 s t = end_group-IsTimed step 10 s t
ending-IsTimed step group_2 s t = end_group-IsTimed step 11 s t
ending-IsTimed step both s t = end_both-IsTimed step s t
ending-IsTimed step cleaning s t = end_cleaning-IsTimed step s t
ending-IsTimed step garden s t = finish-IsTimed step s t
ending-IsTimed step (other n) s t = t

pub leave_preparing-IsTimed :
    (step : ℕ) (s : Irrigation) → IsTimed step s → IsTimed step (leave_preparing s)
unfolding leave_preparing
leave_preparing-IsTimed step s t =
    let u = record (toggle_device 1 1 s) { status = ready } in
    let k : IsTimed step u = record {
      known = t.known;
      generator = t.generator;
      program_duration = t.program_duration;
      cleaning_duration = t.cleaning_duration;
      group3 = t.group3;
      group12 = t.group12;
      program_start = t.program_start;
      generator_start = t.generator_start;
    } in
    if_intro (IsTimed step) (is_true s.is_stopped) (resume-IsTimed step u k)
      (start-IsTimed step u.program u.is_cleaning u t.known k)

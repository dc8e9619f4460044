-- ===== src/Irrigation/Resume.antt =====
-- The running time of a program across a stop (`control_irrigation_temp_resume`).
use blueberry_irrigation_sys.Base.{
  ℕ, ◌+◌, ◌≡◌, ◌⊎◌, inl, inr, refl, if_intro, not, true, u32, sub32, is_true, arith, ◌==◌,
}
use blueberry_irrigation_sys.World.{now}
use blueberry_irrigation_sys.Irrigation.{
  Irrigation, Program, group_1, group_2, garden, ready, resume, resume_program, resume_group,
}

-- The programs whose time goes on where it stood.
abbrev pub IsContinued : Program → Type 0
IsContinued p = (p ≡ group_1) ⊎ ((p ≡ group_2) ⊎ (p ≡ garden))

-- The running time at a later reading of the clock, and the two marks.
abbrev Continues : ℕ → Irrigation → Irrigation → Type 0
Continues later s t =
    (sub32 (u32 (now s.world + later)) t.time_program_start
      ≡ u32 (sub32 s.time_program_stop s.time_program_start + later))
    × (t.is_stopped ≡ s.is_stopped)
    × (t.status ≡ s.status)

resume_group-Continues :
    (valve later : ℕ) (s : Irrigation) → Continues later s (resume_group valve s)
unfolding resume_group
resume_group-Continues valve later s =
    if_intro (Continues later s) (not (s.deliver_volume == 1)) (omega arith, refl, refl)
      (omega arith, refl, refl)

-- Once the generator is ready, a resume clears the mark of the stop, and the program's running time
-- goes on from what it was at the stop: on the true clock, across a wrap. This holds of the programs of
-- the two groups and of the garden.
pub resume_elapsed :
    (s : Irrigation) (later : ℕ)
    → s.status ≡ ready
    → is_true s.is_stopped ≡ true
    → IsContinued s.program_current
    → (sub32 (u32 (now s.world + later)) (resume s).time_program_start
        ≡ u32 (sub32 s.time_program_stop s.time_program_start + later))
      × ((resume s).is_stopped ≡ 0)
      × ((resume s).status ≡ ready)
unfolding resume resume_program
resume_elapsed s later is_ready stopped (inl e) =
    simp (is_ready, stopped, e)
      (resume_group-Continues 10 later
        (record s { program_current = group_1; status = ready; is_stopped = 0 }))
resume_elapsed s later is_ready stopped (inr (inl e)) =
    simp (is_ready, stopped, e)
      (resume_group-Continues 11 later
        (record s { program_current = group_2; status = ready; is_stopped = 0 }))
resume_elapsed s later is_ready stopped (inr (inr e)) =
    simp (is_ready, stopped, e) (omega arith, refl, refl)

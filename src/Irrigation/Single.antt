-- ===== src/Irrigation/Single.antt =====
-- The programs for one group (`control_irrigation_temp_update`).
use blueberry_irrigation_sys.Base.{ℕ, ◌≤◌, ◌<◌, ◌≡◌, ap, refl, ◌∙◌, sym, subst, arith}
use blueberry_irrigation_sys.Device.{toggle}
use blueberry_irrigation_sys.Irrigation.{Irrigation, ready, ticked, toggle_device}
use blueberry_irrigation_sys.Irrigation.Update.{update, end_group}
use blueberry_irrigation_sys.Irrigation.Evolution.{toggle2-Moves}
use blueberry_irrigation_sys.Irrigation.Timing.{
  IsCalm, IsSince, IsKnown, limit, ending, update_ready,
}
use blueberry_irrigation_sys.Irrigation.HandOver.{
  Group, one, two, program_of, Ends, ends_lem, Ends-ticked,
}

-- The valve of the other group.
abbrev pub other_valve : Group → ℕ
other_valve one = 11
other_valve two = 10

end_group-Ends :
    (g : Group) (s : Irrigation)
    → s.status ≡ ready
    → (s.devices (other_valve g)).is_active ≡ 0
    → Ends s (ending (program_of g) s)
unfolding end_group
end_group-Ends one s r shut =
    let t = toggle_device 10 0 (toggle_device 2 0 s) in
    ends_lem 1 s t r refl (unfold toggle in refl) (unfold toggle in refl) (unfold toggle in shut)
      (toggle2-Moves s 2 10 0 0 (omega arith) (omega arith))
end_group-Ends two s r shut =
    let t = toggle_device 11 0 (toggle_device 2 0 s) in
    ends_lem 1 s t r refl (unfold toggle in refl) (unfold toggle in shut) (unfold toggle in refl)
      (toggle2-Moves s 2 11 0 0 (omega arith) (omega arith))

limit_of : (g : Group) (s : Irrigation) → limit (program_of g) s ≡ s.time_program_duration
limit_of one s = refl
limit_of two s = refl

program_of-IsKnown : (g : Group) → IsKnown (program_of g)
program_of-IsKnown one k e = ground arith
program_of-IsKnown two k e = ground arith

-- The program for one group waters it for the program's time on the true clock: before that time has
-- passed, an update only reads the clock. The next update after it turns the acid pump off and shuts the
-- group's valve, and then a cleaning begins with group 3 if one was asked for, and else the status is
-- FINISHING with the well pump off. The time of what comes next starts there: its clock variable holds
-- the last clock reading of that update. No fault is to be acted on, the other group's valve is shut, and
-- the time since the start of the program fits into 32 bits.
pub update-Ends :
    (g : Group) (s : Irrigation) (elapsed : ℕ)
    → s.program ≡ program_of g
    → s.status ≡ ready
    → (s.devices (other_valve g)).is_active ≡ 0
    → IsCalm s
    → IsSince s s.time_program_start elapsed
    → (elapsed < s.time_program_duration → update s ≡ ticked s)
      × (s.time_program_duration ≤ elapsed → Ends s (update s))
update-Ends g s elapsed program r shut calm since =
    let known : IsKnown s.program = subst IsKnown (sym program) (program_of-IsKnown g) in
    let u = update_ready s elapsed r calm known since in
    let limited : limit s.program s ≡ s.time_program_duration =
      ap (λ p. limit p s) program ∙ limit_of g s in
    let ended : ending s.program (ticked s) ≡ ending (program_of g) (ticked s) =
      ap (λ p. ending p (ticked s)) program in
    (
      λ early. u.0 (omega (arith, limited)),
      λ late.
          subst (Ends s) (sym (u.1 (omega (arith, limited)) ∙ ended))
            (Ends-ticked s (ending (program_of g) (ticked s)) (end_group-Ends g (ticked s) r shut)),
    )

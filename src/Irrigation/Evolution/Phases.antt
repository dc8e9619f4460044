-- ===== src/Irrigation/Evolution/Phases.antt =====
-- How the step `control_irrigation_temp_update` changes the plant, phase by phase.
use blueberry_irrigation_sys.Base.{ℕ, ◌<◌, if_intro, is_true, sub32, ltb, arith}
use blueberry_irrigation_sys.World.{now}
use blueberry_irrigation_sys.Device.Steps.{read}
use blueberry_irrigation_sys.ControlFlow.Wiring.{Evolves-refl, Evolves-trans, IsPlanned}
use blueberry_irrigation_sys.Irrigation.{
  Irrigation, Program, group_1, group_2, both, cleaning, garden, other, Status, finished, preparing,
  ready, finishing, ticked, toggle_device, start, resume,
}
use blueberry_irrigation_sys.Irrigation.Update.{
  after, leave_preparing, leave_finishing, enter_finishing, finish, end_group, end_both,
  end_cleaning, update_program, update_status, update,
}
use blueberry_irrigation_sys.Irrigation.Evolution.{
  Moves, tick-Moves, toggle-Moves, toggle2-Moves, start-Moves, resume-Moves, force_stop-Moves,
}

Moves-trans : (s t u : Irrigation) → Moves s t → Moves t u → Moves s u
Moves-trans s t u = Evolves-trans s.plant t.plant u.plant

-- One more function of the file runs.
then-Moves :
    (s t : Irrigation) (next : Irrigation → Irrigation)
    → Moves s t
    → ((u : Irrigation) → Moves u (next u))
    → Moves s (next t)
then-Moves s t next e h = Moves-trans s t (next t) e (h t)

after-Moves :
    (since duration : ℕ) (next : Irrigation → Irrigation) (s : Irrigation)
    → ((t : Irrigation) → Moves t (next t))
    → Moves s (after since duration next s)
after-Moves since duration next s h =
    let t : Moves s (ticked s) = tick-Moves s s (Evolves-refl s.plant) in
    if_intro (Moves s) (ltb (sub32 (now s.world) since) duration) t
      (then-Moves s (ticked s) next t h)

enter_finishing-Moves : (s t : Irrigation) → Moves s t → Moves s (enter_finishing t)
enter_finishing-Moves s t e = record { steps = read e.steps; device = e.device; sensor = e.sensor }

finish-Moves : (s : Irrigation) → Moves s (finish s)
unfolding finish
finish-Moves s =
    enter_finishing-Moves s (toggle_device 1 0 s)
      (toggle-Moves s s 1 0 (omega arith) (Evolves-refl s.plant))

leave_preparing-Moves : (s : Irrigation) → Moves s (leave_preparing s)
unfolding leave_preparing
leave_preparing-Moves s =
    let t = record (toggle_device 1 1 s) { status = ready } in
    let e : Moves s t = toggle-Moves s s 1 1 (omega arith) (Evolves-refl s.plant) in
    if_intro (Moves s) (is_true s.is_stopped) (then-Moves s t resume e resume-Moves)
      (then-Moves s t (start t.program t.is_cleaning) e (start-Moves t.program t.is_cleaning))

leave_finishing-Moves : (s : Irrigation) → Moves s (leave_finishing s)
unfolding leave_finishing
leave_finishing-Moves s = toggle-Moves s s 0 0 (omega arith) (Evolves-refl s.plant)

end_group-Moves : (valve : ℕ) → valve < 15 → (s : Irrigation) → Moves s (end_group valve s)
unfolding end_group
end_group-Moves valve h s =
    let t = toggle_device valve 0 (toggle_device 2 0 s) in
    let e : Moves s t = toggle2-Moves s 2 valve 0 0 (omega arith) h in
    if_intro (Moves s) (is_true t.is_cleaning)
      (then-Moves s t (start cleaning 1) e (start-Moves cleaning 1))
      (then-Moves s t finish e finish-Moves)

end_both-Moves : (s : Irrigation) → Moves s (end_both s)
unfolding end_both
end_both-Moves s =
    let t = toggle_device 11 0 (toggle_device 2 0 s) in
    let u = toggle_device 10 0 s in
    let e : Moves s t = toggle2-Moves s 2 11 0 0 (omega arith) (omega arith) in
    let f : Moves s u = toggle-Moves s s 10 0 (omega arith) (Evolves-refl s.plant) in
    if_intro (Moves s) (is_true (s.devices 10).is_active)
      (then-Moves s u (start group_2 s.is_cleaning) f (start-Moves group_2 s.is_cleaning))
      (if_intro (Moves s) (is_true t.is_cleaning)
        (then-Moves s t (start cleaning t.is_cleaning) e (start-Moves cleaning t.is_cleaning))
        (then-Moves s t finish e finish-Moves))

end_cleaning-Moves : (s : Irrigation) → Moves s (end_cleaning s)
unfolding end_cleaning
end_cleaning-Moves s =
    if_intro (Moves s) (is_true (s.devices 10).is_active)
      (tick-Moves s (toggle_device 11 1 (toggle_device 10 0 s))
        (toggle2-Moves s 10 11 0 1 (omega arith) (omega arith)))
      (if_intro (Moves s) (is_true (s.devices 11).is_active)
        (tick-Moves s (toggle_device 11 0 (toggle_device 1 0 s))
          (toggle2-Moves s 1 11 0 0 (omega arith) (omega arith)))
        (tick-Moves s (toggle_device 10 1 (toggle_device 12 0 s))
          (toggle2-Moves s 12 10 0 1 (omega arith) (omega arith))))

update_program-Moves : (p : Program) (s : Irrigation) → Moves s (update_program p s)
unfolding update_program
update_program-Moves group_1 s = after-Moves _ _ (end_group 10) s (end_group-Moves 10 (omega arith))
update_program-Moves group_2 s = after-Moves _ _ (end_group 11) s (end_group-Moves 11 (omega arith))
update_program-Moves both s = after-Moves _ _ end_both s end_both-Moves
update_program-Moves cleaning s = after-Moves _ _ end_cleaning s end_cleaning-Moves
update_program-Moves garden s = after-Moves _ _ finish s finish-Moves
update_program-Moves (other n) s = Evolves-refl s.plant

update_status-Moves : (st : Status) (s : Irrigation) → Moves s (update_status st s)
unfolding update_status
update_status-Moves finished s = Evolves-refl s.plant
update_status-Moves preparing s = after-Moves _ _ leave_preparing s leave_preparing-Moves
update_status-Moves ready s = update_program-Moves s.program s
update_status-Moves finishing s = after-Moves _ _ leave_finishing s leave_finishing-Moves

pub update-Moves : (s : Irrigation) → IsPlanned s.plant → Moves s (update s)
unfolding update
update-Moves s w = if_intro (Moves s) _ (force_stop-Moves s w) (update_status-Moves s.status s)

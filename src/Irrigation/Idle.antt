-- ===== src/Irrigation/Idle.antt =====
-- The well's own program of control_flow.cpp, number 0, under the operations of the irrigation.
use blueberry_irrigation_sys.Base.{ℕ, ◌≡◌, false, if_intro, ltb, sub32, is_true, arith}
use blueberry_irrigation_sys.World.{now}
use blueberry_irrigation_sys.ControlFlow.{Plant, on_board, stop, is_running}
use blueberry_irrigation_sys.ControlFlow
use blueberry_irrigation_sys.ControlSafety.{devices_stop}
use blueberry_irrigation_sys.Irrigation.{
  Irrigation, Program, group_1, group_2, both, cleaning, garden, other, Status, finished, preparing,
  ready, finishing, prepare, start_supplements, start_group, start_program, choose, start_fuel,
  start, force_stop, resume, resume_group, resume_program, toggle_device, ticked,
}
use blueberry_irrigation_sys.Irrigation.Stop.{stop_keeps}
use blueberry_irrigation_sys.Irrigation.Update.{
  after, leave_preparing, leave_finishing, finish, end_group, end_both, end_cleaning,
  update_program, update_status, update,
}

-- Program 0 does not run.
abbrev pub IsIdle : Plant → Type 0
IsIdle p = is_running p 0 ≡ false

abbrev Keeps : (Irrigation → Irrigation) → Type 0
Keeps next = (s : Irrigation) → IsIdle s.plant → IsIdle (next s).plant

pub start-IsIdle : (p : Program) (c : ℕ) → Keeps (start p c)
unfolding start start_fuel start_program start_group start_supplements ControlFlow.start prepare
    choose
start-IsIdle p c s h = ground arith

pub resume-IsIdle : Keeps resume
unfolding resume resume_program resume_group prepare
resume-IsIdle s h = ground arith

pub force_stop-IsIdle : Keeps force_stop
unfolding force_stop
force_stop-IsIdle s h =
    let p0 = on_board devices_stop s.plant in
    let p1 = stop p0 1 in
    ground (arith, stop_keeps (stop p1 2) 5 0, stop_keeps p1 2 0, stop_keeps p0 1 0)

finish-IsIdle : Keeps finish
unfolding finish
finish-IsIdle s h = h

abbrev P : Irrigation → Type 0
P s = IsIdle s.plant

leave_preparing-IsIdle : Keeps leave_preparing
unfolding leave_preparing
leave_preparing-IsIdle s h =
    if_intro P (is_true s.is_stopped) (resume-IsIdle _ h)
      (start-IsIdle s.program s.is_cleaning (record (toggle_device 1 1 s) { status = ready }) h)

leave_finishing-IsIdle : Keeps leave_finishing
unfolding leave_finishing
leave_finishing-IsIdle s h = h

end_group-IsIdle : (valve : ℕ) → Keeps (end_group valve)
unfolding end_group
end_group-IsIdle valve s h =
    let t = toggle_device valve 0 (toggle_device 2 0 s) in
    if_intro P (is_true s.is_cleaning) (start-IsIdle cleaning 1 t h) (finish-IsIdle t h)

end_both-IsIdle : Keeps end_both
unfolding end_both
end_both-IsIdle s h =
    let t = toggle_device 11 0 (toggle_device 2 0 s) in
    if_intro P (is_true (s.devices 10).is_active)
      (start-IsIdle group_2 s.is_cleaning (toggle_device 10 0 s) h)
      (if_intro P (is_true s.is_cleaning) (start-IsIdle cleaning t.is_cleaning t h)
        (finish-IsIdle t h))

end_cleaning-IsIdle : Keeps end_cleaning
unfolding end_cleaning
end_cleaning-IsIdle s h = ground arith

after-IsIdle :
    (since duration : ℕ) (next : Irrigation → Irrigation)
    → Keeps next
    → Keeps (after since duration next)
after-IsIdle since duration next k s h =
    if_intro P (ltb (sub32 (now s.world) since) duration) {x = ticked s} {y = next (ticked s)} h
      (k (ticked s) h)

update_program-IsIdle : (p : Program) → Keeps (update_program p)
unfolding update_program
update_program-IsIdle group_1 s h = after-IsIdle _ _ (end_group 10) (end_group-IsIdle 10) s h
update_program-IsIdle group_2 s h = after-IsIdle _ _ (end_group 11) (end_group-IsIdle 11) s h
update_program-IsIdle both s h = after-IsIdle _ _ end_both end_both-IsIdle s h
update_program-IsIdle cleaning s h = after-IsIdle _ _ end_cleaning end_cleaning-IsIdle s h
update_program-IsIdle garden s h = after-IsIdle _ _ finish finish-IsIdle s h
update_program-IsIdle (other n) s h = h

update_status-IsIdle : (st : Status) → Keeps (update_status st)
unfolding update_status
update_status-IsIdle finished s h = h
update_status-IsIdle preparing s h = after-IsIdle _ _ leave_preparing leave_preparing-IsIdle s h
update_status-IsIdle ready s h = update_program-IsIdle s.program s h
update_status-IsIdle finishing s h = after-IsIdle _ _ leave_finishing leave_finishing-IsIdle s h

pub update-IsIdle : Keeps update
unfolding update
update-IsIdle s h =
    if_intro P _ {x = force_stop s} {y = update_status s.status s} (force_stop-IsIdle s h)
      (update_status-IsIdle s.status s h)

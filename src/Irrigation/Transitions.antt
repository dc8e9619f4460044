-- ===== src/Irrigation/Transitions.antt =====
-- The state machine of the irrigation: its edges, and what each phase does when its time is over.
use blueberry_irrigation_sys.Base.{
  inl, inr, Bool-cases, ℕ, ◌≡◌, refl, sym, subst, true, if_intro, if◌then◌else◌, is_true, arith,
}
use blueberry_irrigation_sys.ControlFlow.{Plant, is_running}
use blueberry_irrigation_sys.ControlFlow
use blueberry_irrigation_sys.Irrigation.{
  Irrigation, Program, group_1, group_2, both, cleaning, garden, other, Status, finished, preparing,
  ready, finishing, prepare, start_supplements, start_group, start_program, choose, start_fuel,
  start, force_stop, resume, resume_group, resume_program, toggle_device, ticked,
}
use blueberry_irrigation_sys.Irrigation.Stop.{force_stop_state}
use blueberry_irrigation_sys.Irrigation.Update.{
  is_watched, leave_preparing, leave_finishing, finish, end_group, end_both, end_cleaning,
  update_program, update_status, update,
}

-- The edges that one call of `control_irrigation_temp_update` may follow.
infix 40 ◌⟶◌
pub data ◌⟶◌ : Status → Status → Type 0 where
  rest : finished ⟶ finished
  warm_up : preparing ⟶ preparing
  set_off : preparing ⟶ ready
  work : ready ⟶ ready
  wind_down : ready ⟶ finishing
  run_out : finishing ⟶ finishing
  end : finishing ⟶ finished
  -- A fault.
  break_off : ready ⟶ finished

abbrev pub started : Status → Status
started ready = ready
started _ = preparing

pub start_status : (p : Program) (c : ℕ) (s : Irrigation) → (start p c s).status ≡ started s.status
unfolding start start_fuel start_program start_group start_supplements ControlFlow.start prepare
    choose
start_status p c s = ground arith

pub resume_status :
    (s : Irrigation)
    → (resume s).status ≡ (if is_true s.is_stopped then started s.status else s.status)
unfolding resume resume_program resume_group prepare
resume_status s = ground arith

abbrev FromReady : Irrigation → Type 0
FromReady t = ready ⟶ t.status

of_status : (s t : Irrigation) → s.status ≡ ready → (t.status ≡ started s.status) → FromReady t
of_status s t e f = subst (λ x. ready ⟶ x) (sym (subst (λ x. t.status ≡ started x) e f)) work

end_group-⟶ : (valve : ℕ) (s : Irrigation) → s.status ≡ ready → FromReady (end_group valve s)
unfolding end_group finish
end_group-⟶ valve s e =
    let t = toggle_device valve 0 (toggle_device 2 0 s) in
    if_intro FromReady (is_true s.is_cleaning)
      (of_status t (start cleaning 1 t) e (start_status cleaning 1 t)) wind_down

end_both-⟶ : (s : Irrigation) → s.status ≡ ready → FromReady (end_both s)
unfolding end_both finish
end_both-⟶ s e =
    let t = toggle_device 11 0 (toggle_device 2 0 s) in
    let u = toggle_device 10 0 s in
    if_intro FromReady (is_true (s.devices 10).is_active)
      (of_status u (record (start group_2 s.is_cleaning u) { program = both }) e
        (start_status group_2 s.is_cleaning u))
      (if_intro FromReady (is_true s.is_cleaning)
        (of_status t (start cleaning t.is_cleaning t) e (start_status cleaning t.is_cleaning t))
        wind_down)

stays : (t : Irrigation) → t.status ≡ ready → FromReady t
stays t e = subst (λ x. ready ⟶ x) (sym e) work

end_cleaning-⟶ : (s : Irrigation) → s.status ≡ ready → FromReady (end_cleaning s)
unfolding end_cleaning
end_cleaning-⟶ s e =
    if_intro FromReady (is_true (s.devices 10).is_active)
      (stays (toggle_device 11 1 (toggle_device 10 0 s)) e)
      (if_intro FromReady (is_true (s.devices 11).is_active) wind_down
        (stays (toggle_device 10 1 (toggle_device 12 0 s)) e))

update_program-⟶ :
    (p : Program) (s : Irrigation) → s.status ≡ ready → FromReady (update_program p s)
unfolding update_program
update_program-⟶ group_1 s e =
    if_intro FromReady _ {x = ticked s} (stays s e) (end_group-⟶ 10 (ticked s) e)
update_program-⟶ group_2 s e =
    if_intro FromReady _ {x = ticked s} (stays s e) (end_group-⟶ 11 (ticked s) e)
update_program-⟶ both s e =
    if_intro FromReady _ {x = ticked s} (stays s e) (end_both-⟶ (ticked s) e)
update_program-⟶ cleaning s e =
    if_intro FromReady _ {x = ticked s} (stays s e) (end_cleaning-⟶ (ticked s) e)
update_program-⟶ garden s e =
    if_intro FromReady _ {x = ticked s} {y = finish (ticked s)} (stays s e)
      (unfold finish in wind_down)
update_program-⟶ (other n) s e = stays s e

pub leave_preparing_status : (s : Irrigation) → (leave_preparing s).status ≡ ready
unfolding leave_preparing
leave_preparing_status s =
    let t = record (toggle_device 1 1 s) { status = ready } in
    ground (arith, resume_status t, start_status s.program s.is_cleaning t)

update_status-⟶ : (st : Status) (s : Irrigation) → s.status ≡ st → st ⟶ (update_status st s).status
unfolding update_status
update_status-⟶ finished s e = subst (λ x. finished ⟶ x) (sym e) rest
update_status-⟶ preparing s e =
    if_intro (λ (t : Irrigation). preparing ⟶ t.status) _ {x = ticked s}
      (subst (λ x. preparing ⟶ x) (sym e) warm_up)
      (subst (λ x. preparing ⟶ x) (sym (leave_preparing_status (ticked s))) set_off)
update_status-⟶ ready s e = update_program-⟶ s.program s e
update_status-⟶ finishing s e =
    if_intro (λ (t : Irrigation). finishing ⟶ t.status) _ {x = ticked s}
      {y = leave_finishing (ticked s)} (subst (λ x. finishing ⟶ x) (sym e) run_out)
      (unfold leave_finishing in end)

fault-⟶ : (st : Status) → is_watched st ≡ true → st ⟶ finished
fault-⟶ finished w = cc
fault-⟶ preparing w = cc
fault-⟶ ready w = break_off
fault-⟶ finishing w = end

-- One call of `control_irrigation_temp_update` keeps the status or follows an edge: from PREPARING
-- to READY, from READY to FINISHING, from FINISHING to FINISHED, or, for a program that is broken
-- off, from READY to FINISHED. It never leaves FINISHED.
pub update-⟶ : (s : Irrigation) → s.status ⟶ (update s).status
unfolding update
update-⟶ s = elim (Bool-cases (is_watched s.status)) [
  | inl w ↦
      if_intro (λ (t : Irrigation). s.status ⟶ t.status) _ {x = force_stop s}
        (subst (λ x. s.status ⟶ x) (sym (force_stop_state s).0) (fault-⟶ s.status w))
        (update_status-⟶ s.status s refl)
  | inr w ↦ rw w (update_status-⟶ s.status s refl)
]

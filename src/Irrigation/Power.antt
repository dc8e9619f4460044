-- ===== src/Irrigation/Power.antt =====
-- The interlock of generator and well pump.
use blueberry_irrigation_sys.Base.{
  ℕ, ◌<◌, ◌≡◌, refl, sym, subst, ap, true, false, if_intro, is_true, arith,
}
use blueberry_irrigation_sys.Device.{toggle}
use blueberry_irrigation_sys.ControlFlow.{Plant, on_board, set_flow}
use blueberry_irrigation_sys.ControlFlow
use blueberry_irrigation_sys.Irrigation.{
  Irrigation, Program, group_1, group_2, both, cleaning, garden, other, Status, finished, preparing,
  ready, finishing, prepare, start_supplements, start_group, start_program, choose, start_fuel,
  start, force_stop, resume, resume_group, resume_program, faulty_detection_toggle,
}
use blueberry_irrigation_sys.Irrigation
use blueberry_irrigation_sys.Irrigation.Stop.{force_stop_state, force_stop-AllOff}
use blueberry_irrigation_sys.Irrigation.Update.{
  after, leave_preparing, leave_finishing, finish, end_group, end_both, end_cleaning,
  update_program, update_status, update,
}

-- What the generator and the well pump are in a status: the generator is on in all but FINISHED, and the
-- well pump in READY alone.
abbrev pub Needs : Status → ℕ → ℕ → Type 0
Needs finished generator well = (is_true generator ≡ false) × (is_true well ≡ false)
Needs preparing generator well = (is_true generator ≡ true) × (is_true well ≡ false)
Needs ready generator well = (is_true generator ≡ true) × (is_true well ≡ true)
Needs finishing generator well = (is_true generator ≡ true) × (is_true well ≡ false)

abbrev pub IsPowered : Irrigation → Type 0
IsPowered s = Needs s.status (s.devices 0).is_active (s.devices 1).is_active

pub start-IsPowered : (p : Program) (c : ℕ) (s : Irrigation) → IsPowered s → IsPowered (start p c s)
unfolding start start_fuel start_program start_group start_supplements ControlFlow.start prepare
    toggle choose
start-IsPowered p c s h = ground arith

pub resume-IsPowered : (s : Irrigation) → IsPowered s → IsPowered (resume s)
unfolding resume resume_program resume_group prepare toggle
resume-IsPowered s h = ground arith

pub force_stop-IsPowered : (s : Irrigation) → IsPowered (force_stop s)
force_stop-IsPowered s =
    subst (λ st. Needs st ((force_stop s).devices 0).is_active ((force_stop s).devices 1).is_active)
      (sym (force_stop_state s).0)
      (
        ap is_true (force_stop-AllOff s 0 (omega arith)),
        ap is_true (force_stop-AllOff s 1 (omega arith)),
      )

finish-IsPowered : (s : Irrigation) → is_true (s.devices 0).is_active ≡ true → IsPowered (finish s)
unfolding finish toggle
finish-IsPowered s h = ground arith

leave_preparing-IsPowered :
    (s : Irrigation) → is_true (s.devices 0).is_active ≡ true → IsPowered (leave_preparing s)
unfolding leave_preparing
leave_preparing-IsPowered s h =
    let t = record (Irrigation.toggle_device 1 1 s) { status = ready } in
    if_intro IsPowered (is_true s.is_stopped) (resume-IsPowered t (unfold toggle in (h, refl)))
      (start-IsPowered t.program t.is_cleaning t (unfold toggle in (h, refl)))

leave_finishing-IsPowered :
    (s : Irrigation) → is_true (s.devices 1).is_active ≡ false → IsPowered (leave_finishing s)
unfolding leave_finishing toggle
leave_finishing-IsPowered s h = (refl, h)

-- Both are on: what the ends of the programs start from.
abbrev IsOn : Irrigation → Type 0
IsOn s = Needs ready (s.devices 0).is_active (s.devices 1).is_active

end_group-IsPowered :
    (valve : ℕ) (s : Irrigation)
    → 1 < valve
    → s.status ≡ ready
    → IsOn s
    → IsPowered (end_group valve s)
unfolding end_group
end_group-IsPowered valve s v st h =
    let t = Irrigation.toggle_device valve 0 (Irrigation.toggle_device 2 0 s) in
    if_intro IsPowered (is_true s.is_cleaning)
      (start-IsPowered cleaning 1 t (unfold toggle in ground arith))
      (finish-IsPowered t (unfold toggle in ground arith))

end_both-IsPowered : (s : Irrigation) → s.status ≡ ready → IsOn s → IsPowered (end_both s)
unfolding end_both
end_both-IsPowered s st h =
    let t = Irrigation.toggle_device 11 0 (Irrigation.toggle_device 2 0 s) in
    let u = Irrigation.toggle_device 10 0 s in
    if_intro IsPowered (is_true (s.devices 10).is_active)
      (start-IsPowered group_2 s.is_cleaning u (unfold toggle in ground arith))
      (if_intro IsPowered (is_true s.is_cleaning)
        (start-IsPowered cleaning t.is_cleaning t (unfold toggle in ground arith))
        (finish-IsPowered t (unfold toggle in ground arith)))

powered : (s : Irrigation) → s.status ≡ ready → IsOn s → IsPowered s
powered s st h = subst (λ x. Needs x (s.devices 0).is_active (s.devices 1).is_active) (sym st) h

end_cleaning-IsPowered : (s : Irrigation) → s.status ≡ ready → IsOn s → IsPowered (end_cleaning s)
unfolding end_cleaning
end_cleaning-IsPowered s st h =
    if_intro IsPowered (is_true (s.devices 10).is_active)
      (powered (Irrigation.toggle_device 11 1 (Irrigation.toggle_device 10 0 s)) st
        (unfold toggle in h))
      (if_intro IsPowered (is_true (s.devices 11).is_active) (unfold toggle in (h.0, refl)) (
        powered (Irrigation.toggle_device 10 1 (Irrigation.toggle_device 12 0 s)) st
          (unfold toggle in h)))

-- A wait that is not over changes nothing here.
after-IsPowered :
    (since duration : ℕ) (next : Irrigation → Irrigation) (s : Irrigation)
    → IsPowered s
    → IsPowered (next (Irrigation.ticked s))
    → IsPowered (after since duration next s)
after-IsPowered since duration next s h k = if_intro IsPowered _ h k

update_program-IsPowered :
    (p : Program) (s : Irrigation) → s.status ≡ ready → IsOn s → IsPowered (update_program p s)
unfolding update_program
update_program-IsPowered group_1 s st h =
    after-IsPowered _ _ (end_group 10) s (powered s st h)
      (end_group-IsPowered 10 _ (omega arith) st h)
update_program-IsPowered group_2 s st h =
    after-IsPowered _ _ (end_group 11) s (powered s st h)
      (end_group-IsPowered 11 _ (omega arith) st h)
update_program-IsPowered both s st h =
    after-IsPowered _ _ end_both s (powered s st h) (end_both-IsPowered _ st h)
update_program-IsPowered cleaning s st h =
    after-IsPowered _ _ end_cleaning s (powered s st h) (end_cleaning-IsPowered _ st h)
update_program-IsPowered garden s st h =
    after-IsPowered _ _ finish s (powered s st h) (finish-IsPowered _ h.0)
update_program-IsPowered (other n) s st h = powered s st h

update_status-IsPowered :
    (st : Status) (s : Irrigation)
    → s.status ≡ st
    → Needs st (s.devices 0).is_active (s.devices 1).is_active
    → IsPowered (update_status st s)
unfolding update_status
update_status-IsPowered finished s e h =
    subst (λ x. Needs x (s.devices 0).is_active (s.devices 1).is_active) (sym e) h
update_status-IsPowered preparing s e h =
    after-IsPowered _ _ leave_preparing s
      (subst (λ x. Needs x (s.devices 0).is_active (s.devices 1).is_active) (sym e) h)
      (leave_preparing-IsPowered (Irrigation.ticked s) h.0)
update_status-IsPowered ready s e h = update_program-IsPowered s.program s e h
update_status-IsPowered finishing s e h =
    after-IsPowered _ _ leave_finishing s
      (subst (λ x. Needs x (s.devices 0).is_active (s.devices 1).is_active) (sym e) h)
      (leave_finishing-IsPowered (Irrigation.ticked s) h.1)

-- `control_irrigation_temp_update` switches the generator and the well pump with its phases: where the
-- generator is on exactly if the status is not FINISHED, and the well pump exactly if it is READY, the
-- same holds of the status and the devices after the call, a fault included.
pub update-IsPowered : (s : Irrigation) → IsPowered s → IsPowered (update s)
unfolding update
update-IsPowered s h =
    if_intro IsPowered _ (force_stop-IsPowered s) (update_status-IsPowered s.status s refl h)

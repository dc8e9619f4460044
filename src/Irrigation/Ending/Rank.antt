-- ===== src/Irrigation/Ending/Rank.antt =====
-- How many phases a program has left at most, and that the end of a phase leaves fewer.
use blueberry_irrigation_sys.Base.{
  ℕ, ◌≤◌, ◌<◌, ◌≡◌, refl, inl, inr, Bool-cases, if◌then◌else◌, if_intro, is_true, arith,
}
use blueberry_irrigation_sys.Device.{toggle}
use blueberry_irrigation_sys.ControlFlow
use blueberry_irrigation_sys.Irrigation.{
  Irrigation, Program, group_1, group_2, both, cleaning, garden, other, Status, finished, preparing,
  ready, finishing, start_supplements, start_group, start_program, choose, start_fuel, start,
  toggle_device,
}
use blueberry_irrigation_sys.Irrigation.Timing.{ending, IsKnown}
use blueberry_irrigation_sys.Irrigation.Transitions.{leave_preparing_status}
use blueberry_irrigation_sys.Irrigation.Update.{
  leave_preparing, leave_finishing, finish, end_group, end_both, end_cleaning,
}

-- The phases that a program has left in READY, with the valves of the groups 1 and 2 in these states.
abbrev pub parts : Program → ℕ → ℕ → ℕ
parts group_1 a b = 5
parts group_2 a b = 5
parts both a b = if is_true a then 6 else 5
parts cleaning a b = if is_true a then 3 else if is_true b then 2 else 4
parts garden a b = 2
parts (other n) a b = 2

-- The phases that are left in any status.
abbrev pub left : Status → Program → ℕ → ℕ → ℕ
left finished p a b = 0
left preparing p a b = 8
left ready p a b = parts p a b
left finishing p a b = 1

abbrev pub rank : Irrigation → ℕ
rank s = left s.status s.program (s.devices 10).is_active (s.devices 11).is_active

parts-le : (p : Program) (a b : ℕ) → parts p a b ≤ 6
parts-le group_1 a b = omega arith
parts-le group_2 a b = omega arith
parts-le both a b = ground arith
parts-le cleaning a b = ground arith
parts-le garden a b = omega arith
parts-le (other n) a b = omega arith

-- In READY the rank is that of the program.
rank_ready :
    (s : Irrigation)
    → s.status ≡ ready
    → rank s ≡ parts s.program (s.devices 10).is_active (s.devices 11).is_active
rank_ready s e = rw e refl

start_cleaning-rank : (c : ℕ) (s : Irrigation) → s.status ≡ ready → rank (start cleaning c s) ≤ 4
unfolding start start_fuel start_program choose toggle
start_cleaning-rank c s e = ground (arith, e)

finish-rank : (s : Irrigation) → rank (finish s) ≡ 1
unfolding finish
finish-rank s = refl

end_group-rank : (valve : ℕ) (s : Irrigation) → s.status ≡ ready → rank (end_group valve s) < 5
unfolding end_group
end_group-rank valve s e =
    let t = toggle_device valve 0 (toggle_device 2 0 s) in
    if_intro (λ u. rank u < 5) (is_true t.is_cleaning) (omega (arith, start_cleaning-rank 1 t e))
      (omega (arith, finish-rank t))

start_group_2-rank :
    (c : ℕ) (s : Irrigation)
    → s.status ≡ ready
    → rank (record (start group_2 c (toggle_device 10 0 s)) { program = both }) ≡ 5
unfolding start start_fuel start_program start_group start_supplements ControlFlow.start choose
    toggle
start_group_2-rank c s e = ground (arith, e)

end_both-rank :
    (s : Irrigation)
    → s.status ≡ ready
    → rank (end_both s) < parts both (s.devices 10).is_active (s.devices 11).is_active
unfolding end_both
end_both-rank s e =
    let t = toggle_device 11 0 (toggle_device 2 0 s) in
    let later : rank (if is_true t.is_cleaning then start cleaning t.is_cleaning t else finish t)
        < 5 =
      if_intro (λ u. rank u < 5) (is_true t.is_cleaning)
        (omega (arith, start_cleaning-rank t.is_cleaning t e)) (omega (arith, finish-rank t)) in
    elim (Bool-cases (is_true (s.devices 10).is_active)) [
      | inl on ↦ rw on (omega (arith, start_group_2-rank s.is_cleaning s e))
      | inr off ↦ rw off later
    ]

end_cleaning-rank :
    (s : Irrigation)
    → s.status ≡ ready
    → s.program ≡ cleaning
    → rank (end_cleaning s) < parts cleaning (s.devices 10).is_active (s.devices 11).is_active
unfolding end_cleaning toggle
end_cleaning-rank s e p = elim (Bool-cases (is_true (s.devices 10).is_active)) [
  | inl on ↦ rw (on, e, p) (omega arith)
  | inr off ↦ elim (Bool-cases (is_true (s.devices 11).is_active)) [
    | inl on ↦ rw (off, on) (omega arith)
    | inr none ↦ rw (off, none, e, p) (omega arith)
  ]
]

ending-rank :
    (p : Program) (s : Irrigation)
    → s.program ≡ p
    → s.status ≡ ready
    → IsKnown p
    → rank (ending p s) < parts p (s.devices 10).is_active (s.devices 11).is_active
ending-rank group_1 s e r k = end_group-rank 10 s r
ending-rank group_2 s e r k = end_group-rank 11 s r
ending-rank both s e r k = end_both-rank s r
ending-rank cleaning s e r k = end_cleaning-rank s r e
ending-rank garden s e r k = omega (arith, finish-rank s)
ending-rank (other n) s e r k = absurd (k n refl)

-- The end of a program's phase leaves fewer phases.
pub ready-rank :
    (s : Irrigation) → s.status ≡ ready → IsKnown s.program → rank (ending s.program s) < rank s
ready-rank s r k = omega (arith, ending-rank s.program s refl r k, rank_ready s r)

-- So does the end of a wait for the generator.
pub leave_preparing-rank : (s : Irrigation) → rank (leave_preparing s) < 8
leave_preparing-rank s =
    let t = leave_preparing s in
    omega (
      arith,
      rank_ready t (leave_preparing_status s),
      parts-le t.program (t.devices 10).is_active (t.devices 11).is_active,
    )

pub leave_finishing-rank : (s : Irrigation) → rank (leave_finishing s) ≡ 0
unfolding leave_finishing
leave_finishing-rank s = refl

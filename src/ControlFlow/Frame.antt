-- ===== src/ControlFlow/Frame.antt =====
-- Which devices `control_flow_update` may change.
use blueberry_irrigation_sys.Base.{
  ℕ, zero, suc, ◌+◌, ◌≤◌, ◌<◌, ◌≡◌, ◌≢◌, ◌∙◌, ◌⊎◌, inl, inr, refl, sym, subst, Bool, true, false,
  if◌then◌else◌, if_intro, for_up, arith,
}
use blueberry_irrigation_sys.Device.{Board, toggle, is_time_switch_minimum_passed}
use blueberry_irrigation_sys.ControlFlow.{Plant, on_board, ticked, stop, is_running}
use blueberry_irrigation_sys.ControlFlow.Update.{
  is_finished, is_behind, drive, drive_lazily, control, update_flow, update_pump, update_water,
  check_flow, check_pulses, check_pressure, stamp_detection, detect, update,
}

-- No running program has device `j`.
abbrev pub Spares : ℕ → Plant → Type 0
Spares j p = (i : ℕ) → i < 6 → is_running p i ≡ true → (p.flows i).device ≢ j

-- Device `j` is left alone, and no program came to run it.
pub record Leaves (j : ℕ) (p q : Plant) : Type 0 where
  pub same : q.devices j ≡ p.devices j
  pub spares : Spares j q

Leaves-refl : (j : ℕ) (p : Plant) → Spares j p → Leaves j p p
Leaves-refl j p s = record { same = refl; spares = s }

Leaves-trans : (j : ℕ) (p q r : Plant) → Leaves j p q → Leaves j q r → Leaves j p r
Leaves-trans j p q r e f = record { same = f.same ∙ e.same; spares = f.spares }

toggle-same : (b : Board) (i a j : ℕ) → i ≢ j → (toggle b i a).devices j ≡ b.devices j
unfolding toggle
toggle-same b i a j ne = ground arith

stop-Leaves :
    (j : ℕ) (p : Plant) (i : ℕ)
    → j ≢ 3
    → j ≢ 9
    → (p.flows i).device ≢ j
    → Spares j p
    → Leaves j p (stop p i)
unfolding stop toggle
stop-Leaves j p i n3 n9 ne s = record {
  same = ground (arith, ne);
  spares = λ k h r. ground (arith, s k h, r, ne);
}

-- What both forms of a switch do: the clock is read, and the device may be toggled.
abbrev switched : ℕ → ℕ → Plant → Plant
switched i a p = on_board (λ b. toggle b i a) (ticked p)

switched-Leaves : (j : ℕ) (p : Plant) (i a : ℕ) → i ≢ j → Spares j p → Leaves j p (switched i a p)
switched-Leaves j p i a ne s = record { same = toggle-same (ticked p).board i a j ne; spares = s }

ticked-Leaves : (j : ℕ) (p : Plant) → Spares j p → Leaves j p (ticked p)
ticked-Leaves j p s = record { same = refl; spares = s }

drive-Leaves :
    (j : ℕ) (p : Plant) (on : Bool) (i : ℕ) → i ≢ j → Spares j p → Leaves j p (drive on i p)
unfolding drive is_time_switch_minimum_passed
drive-Leaves j p true i ne s =
    if_intro (Leaves j p) _ (switched-Leaves j p i 1 ne s) (ticked-Leaves j p s)
drive-Leaves j p false i ne s =
    if_intro (Leaves j p) _ (switched-Leaves j p i 0 ne s) (ticked-Leaves j p s)

drive_lazily-Leaves :
    (j : ℕ) (p : Plant) (on : Bool) (i : ℕ) → i ≢ j → Spares j p → Leaves j p (drive_lazily on i p)
unfolding drive_lazily is_time_switch_minimum_passed
drive_lazily-Leaves j p true i ne s =
    if_intro (Leaves j p) _
      (if_intro (Leaves j p) _ (switched-Leaves j p i 1 ne s) (ticked-Leaves j p s))
      (Leaves-refl j p s)
drive_lazily-Leaves j p false i ne s =
    if_intro (Leaves j p) _
      (if_intro (Leaves j p) _ (switched-Leaves j p i 0 ne s) (ticked-Leaves j p s))
      (Leaves-refl j p s)

control-Leaves :
    (j : ℕ) (p : Plant) (i : ℕ) → (p.flows i).device ≢ j → Spares j p → Leaves j p (control p i)
unfolding control is_behind
control-Leaves j p i ne s = if_intro (Leaves j p) _ (drive-Leaves j p true _ ne s) (
    Leaves-trans j p (ticked p) _ (ticked-Leaves j p s)
      (drive-Leaves j (ticked p) (is_behind p i).0 _ ne s))

-- What follows the two tests of a round.
abbrev act : ℕ → Bool → Plant → Plant
act i finished p = if finished then stop p i else control p i

act-Leaves :
    (j : ℕ) (p : Plant) (i : ℕ) (finished : Bool)
    → j ≢ 3
    → j ≢ 9
    → (p.flows i).device ≢ j
    → Spares j p
    → Leaves j p (act i finished p)
act-Leaves j p i finished n3 n9 ne s =
    if_intro (Leaves j p) finished (stop-Leaves j p i n3 n9 ne s) (control-Leaves j p i ne s)

update_flow-act :
    (p : Plant) (i : ℕ)
    → (update_flow i p ≡ p)
      ⊎ ((is_running p i ≡ true)
          × ((update_flow i p ≡ act i (is_finished p i).0 p)
              ⊎ (update_flow i p ≡ act i (is_finished p i).0 (ticked p))))
unfolding update_flow is_finished
update_flow-act p i = ground arith

update_flow-Leaves :
    (j : ℕ) (p : Plant) (i : ℕ) → j ≢ 3 → j ≢ 9 → i < 6 → Spares j p → Leaves j p (update_flow i p)
update_flow-Leaves j p i n3 n9 h s = elim (update_flow-act p i) [
  | inl e ↦ subst (Leaves j p) (sym e) (Leaves-refl j p s)
  | inr (r, inl e) ↦ subst (Leaves j p) (sym e) (act-Leaves j p i _ n3 n9 (s i h r) s)
  | inr (r, inr e) ↦ subst (Leaves j p) (sym e) (
      Leaves-trans j p (ticked p) _ (ticked-Leaves j p s)
        (act-Leaves j (ticked p) i _ n3 n9 (s i h r) s))
]

for_up-Leaves :
    (j : ℕ) (body : ℕ → Plant → Plant)
    → ((p : Plant) (i : ℕ) → i < 6 → Spares j p → Leaves j p (body i p))
    → (count first : ℕ) (p : Plant) → first + count ≤ 6
    → Spares j p
    → Leaves j p (for_up count first body p)
for_up-Leaves j body round zero first p h s = Leaves-refl j p s
for_up-Leaves j body round (suc count) first p h s =
    let e : Leaves j p (body first p) = round p first (omega arith) s in
    Leaves-trans j p (body first p) _ e
      (for_up-Leaves j body round count (first + 1) (body first p) (omega arith) e.spares)

update_pump-Leaves : (j : ℕ) (p : Plant) → j ≢ 3 → Spares j p → Leaves j p (update_pump p)
unfolding update_pump
update_pump-Leaves j p n3 s =
    if_intro (Leaves j p) _ (drive_lazily-Leaves j p true 3 (λ e. n3 (sym e)) s) (Leaves-refl j p s)

update_water-Leaves : (j : ℕ) (p : Plant) → j ≢ 9 → Spares j p → Leaves j p (update_water p)
unfolding update_water
update_water-Leaves j p n9 s =
    if_intro (Leaves j p) _
      (if_intro (Leaves j p) _ (drive_lazily-Leaves j p true 9 (λ e. n9 (sym e)) s) (
        if_intro (Leaves j p) _ (drive_lazily-Leaves j p false 9 (λ e. n9 (sym e)) s)
          (Leaves-refl j p s)))
      (Leaves-refl j p s)

check_flow-Leaves : (j : ℕ) (p : Plant) (i : ℕ) → Spares j p → Leaves j p (check_flow i p)
unfolding check_flow check_pulses check_pressure
check_flow-Leaves j p i s = record {
  same = ground arith;
  spares = λ k h r. ground (arith, s k h, r);
}

detect-Leaves : (j : ℕ) (p : Plant) → Spares j p → Leaves j p (detect p)
unfolding detect
detect-Leaves j p s =
    let e : Leaves j p (for_up 6 0 check_flow (ticked p)) =
      Leaves-trans j p (ticked p) _ (ticked-Leaves j p s) (
        for_up-Leaves j check_flow (λ q i _ t. check_flow-Leaves j q i t) 6 0 (ticked p)
          (omega arith) s) in
    if_intro (Leaves j p) _ {x = stamp_detection (for_up 6 0 check_flow (ticked p))}
      (record { same = e.same; spares = e.spares }) (ticked-Leaves j p s)

-- `control_flow_update` leaves every device as it is, its clock of the last switch included, but for
-- the supplements pump, the water valve and the devices of the programs that run; and no program
-- comes to run a device that none ran.
pub update-Leaves : (j : ℕ) (p : Plant) → j ≢ 3 → j ≢ 9 → Spares j p → Leaves j p (update p)
unfolding update
update-Leaves j p n3 n9 s =
    let p1 = for_up 6 0 update_flow p in
    let e1 : Leaves j p p1 =
      for_up-Leaves j update_flow (λ q i h t. update_flow-Leaves j q i n3 n9 h t) 6 0 p
        (omega arith) s in
    let e2 : Leaves j p (update_pump p1) =
      Leaves-trans j p p1 _ e1 (update_pump-Leaves j p1 n3 e1.spares) in
    let e3 : Leaves j p (update_water (update_pump p1)) =
      Leaves-trans j p (update_pump p1) _ e2
        (update_water-Leaves j (update_pump p1) n9 e2.spares) in
    Leaves-trans j p (update_water (update_pump p1)) _ e3 (detect-Leaves j _ e3.spares)

-- ===== src/ControlFlow/Calls.antt =====
-- How often `control_flow_update` reads the clock at most.
use blueberry_irrigation_sys.Base.{ℕ, zero, suc, ◌+◌, ◌*◌, ◌≤◌, Bool, true, false, for_up, arith}
use blueberry_irrigation_sys.Device.{Board, toggle, pulse, is_time_switch_minimum_passed}
use blueberry_irrigation_sys.ControlFlow.{Plant, ticked, stop}
use blueberry_irrigation_sys.ControlFlow.Update.{
  is_finished, is_behind, drive, drive_lazily, control, update_flow, update_pump, update_water,
  check_flow, check_pulses, check_pressure, detect, update,
}

-- `q` comes at most `n` calls later than `p`.
abbrev pub Within : ℕ → Plant → Plant → Type 0
Within n p q = q.calls ≤ p.calls + n

toggle_calls : (b : Board) (i a : ℕ) → (toggle b i a).calls ≤ b.calls + 2
unfolding toggle pulse
toggle_calls b i a = ground arith

stop-Within : (p : Plant) (i : ℕ) → Within 6 p (stop p i)
unfolding stop
stop-Within p i =
    let b1 = toggle p.board (p.flows i).device 0 in
    let b2 = toggle b1 3 0 in
    ground
      (arith, toggle_calls p.board (p.flows i).device 0, toggle_calls b1 3 0, toggle_calls b2 9 0)

drive-Within : (on : Bool) (i : ℕ) (p : Plant) → Within 3 p (drive on i p)
unfolding drive is_time_switch_minimum_passed
drive-Within on i p =
    ground (arith, toggle_calls (ticked p).board i 1, toggle_calls (ticked p).board i 0)

drive_lazily-Within : (on : Bool) (i : ℕ) (p : Plant) → Within 3 p (drive_lazily on i p)
unfolding drive_lazily is_time_switch_minimum_passed
drive_lazily-Within on i p =
    ground (arith, toggle_calls (ticked p).board i 1, toggle_calls (ticked p).board i 0)

control-Within : (p : Plant) (i : ℕ) → Within 4 p (control p i)
unfolding control is_behind
control-Within p i =
    let f = p.flows i in
    let (behind, p') = is_behind p i in
    ground (arith, drive-Within true f.device p, drive-Within behind f.device p')

update_flow-Within : (i : ℕ) (p : Plant) → Within 7 p (update_flow i p)
unfolding update_flow is_finished
update_flow-Within i p = ground (
  arith,
  stop-Within p i,
  stop-Within (ticked p) i,
  control-Within p i,
  control-Within (ticked p) i,
)

for_up-Within :
    (n : ℕ) (body : ℕ → Plant → Plant)
    → ((i : ℕ) (p : Plant) → Within n p (body i p))
    → (count first : ℕ) (p : Plant) → Within (count * n) p (for_up count first body p)
for_up-Within n body h zero first p = omega arith
for_up-Within n body h (suc count) first p =
    omega (arith, h first p, for_up-Within n body h count (first + 1) (body first p))

update_pump-Within : (p : Plant) → Within 3 p (update_pump p)
unfolding update_pump
update_pump-Within p = ground (arith, drive_lazily-Within true 3 p)

update_water-Within : (p : Plant) → Within 3 p (update_water p)
unfolding update_water
update_water-Within p = ground (arith, drive_lazily-Within true 9 p, drive_lazily-Within false 9 p)

check_flow-Within : (i : ℕ) (p : Plant) → Within 0 p (check_flow i p)
unfolding check_flow check_pulses check_pressure
check_flow-Within i p = ground arith

detect-Within : (p : Plant) → Within 2 p (detect p)
unfolding detect
detect-Within p =
    let checked = for_up-Within 0 check_flow check_flow-Within 6 0 (ticked p) in
    ground (arith, checked)

pub update-Within : (p : Plant) → Within 50 p (update p)
unfolding update
update-Within p =
    let p1 = for_up 6 0 update_flow p in
    let p2 = update_pump p1 in
    let p3 = update_water p2 in
    omega (
      arith,
      for_up-Within 7 update_flow update_flow-Within 6 0 p,
      update_pump-Within p1,
      update_water-Within p2,
      detect-Within p3,
    )

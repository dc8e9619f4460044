-- ===== src/Irrigation/Stop.antt =====
-- `control_irrigation_temp_force_stop`: the stop by the user, and by the faulty flow detection.
use blueberry_irrigation_sys.Base.{
  ℕ, zero, suc, ◌≤◌, ◌<◌, ◌≡◌, ◌≢◌, ◌⊎◌, inl, inr, sym, subst, some, true, not, ◌&&◌, ◌||◌,
  if◌then◌else◌, if_intro, is_true, for_down, ℕ_discrete, ◌==◌, arith,
}
use blueberry_irrigation_sys.World.{level}
use blueberry_irrigation_sys.Device.{Board, toggle, relay_off}
use blueberry_irrigation_sys.Device.Relays.{pin_of, RelaysMatch}
use blueberry_irrigation_sys.ControlFlow.{
  Plant, on_board, stop, set_flow, status_value, is_supplement, is_running, not_detected,
}
use blueberry_irrigation_sys.ControlFlow.Wiring.{IsSafe, Evolves-IsSafe}
use blueberry_irrigation_sys.ControlSafety.{devices_stop}
use blueberry_irrigation_sys.Irrigation.{
  Irrigation, is_preparing, ready, finishing, finished, force_stop,
}
use blueberry_irrigation_sys.Irrigation.Evolution.{force_stop-Moves}
use blueberry_irrigation_sys.Irrigation.Update.{is_faulty, update}

abbrev pub AllOff : Board → Type 0
AllOff b = (i : ℕ) → i < 15 → (b.devices i).is_active ≡ 0

toggle-AllOff : (b : Board) (i : ℕ) → AllOff b → AllOff (toggle b i 0)
unfolding toggle
toggle-AllOff b i off j h = ground (arith, off j h)

for_down-AllOff :
    (n : ℕ) (b : Board)
    → ((j : ℕ) → n ≤ j → j < 15 → (b.devices j).is_active ≡ 0)
    → AllOff (for_down n (λ i c. toggle c i 0) b)
unfolding toggle
for_down-AllOff zero b off = λ j h. off j (omega arith) h
for_down-AllOff (suc n) b off = for_down-AllOff n (toggle b n 0) (λ j le h. ground (arith, off j))

pub devices_stop-AllOff : (b : Board) → AllOff (devices_stop b)
unfolding devices_stop
devices_stop-AllOff b = for_down-AllOff 15 b (λ j le h. absurd (omega arith))

stop-AllOff : (p : Plant) (i : ℕ) → AllOff p.board → AllOff (stop p i).board
unfolding stop
stop-AllOff p i off =
    if_intro (λ (q : Plant). AllOff q.board)
      (is_supplement (p.flows i).sensor_flow
        && (not (is_running p' 1) && not (is_running p' 2) && not (is_running p' 3)))
      (toggle-AllOff _ 9 (toggle-AllOff _ 3 off')) off'
  where
    p' : Plant
    p' =
        set_flow i (record (p.flows i) { is_active = 0; is_pause = 0 })
          (on_board (λ b. toggle b (p.flows i).device 0) p)

    off' : AllOff p'.board
    off' = toggle-AllOff p.board (p.flows i).device off

pub force_stop-AllOff : (s : Irrigation) → AllOff (force_stop s).board
unfolding force_stop
force_stop-AllOff s =
    stop-AllOff _ 5 (
      stop-AllOff _ 2 (stop-AllOff (on_board devices_stop s.plant) 1 (devices_stop-AllOff s.board)))

-- The pins of devices that are all off.
pub AllOff-level :
    (b : Board) (i : ℕ)
    → AllOff b
    → RelaysMatch b
    → i < 15
    → level (pin_of i) b.trace ≡ some relay_off
unfolding pin_of
AllOff-level b i off m h = elim (ℕ_discrete i 6) [
  | yes click ↦
      subst (λ k. level (unfold pin_of in pin_of k) b.trace ≡ some relay_off) (sym click)
        (ground (arith, m.at_rest, m.held, off 6))
  | no other ↦ ground (arith, m.plain i h other, off i h)
]

-- After a forced stop no device is on: each of the fifteen is recorded as off and its relay is driven
-- to off, of the click pump the on coil. This holds of any plant that is wired as the
-- initialisation does and whose relays follow their devices.
pub force_stop-off :
    (s : Irrigation) (i : ℕ)
    → IsSafe s.plant
    → i < 15
    → (((force_stop s).devices i).is_active ≡ 0)
      × (level (pin_of i) (force_stop s).trace ≡ some relay_off)
force_stop-off s i safe h =
    let t : IsSafe (force_stop s).plant =
      Evolves-IsSafe s.plant (force_stop s).plant (force_stop-Moves s safe.planned) safe in
    (
      force_stop-AllOff s i h,
      AllOff-level (force_stop s).board i (force_stop-AllOff s) t.sound.match h,
    )

-- What a stop of one program leaves alone.
pub stop_keeps :
    (p : Plant) (i j : ℕ)
    → ((stop p i).faulty_detection_status ≡ p.faulty_detection_status)
      × (((stop p i).flows j).is_active ≡ (if j == i then 0 else (p.flows j).is_active))
unfolding stop
stop_keeps p i j = ground arith

-- A forced stop ends the irrigation's programs for the supplements and the garden and leaves the
-- status FINISHED. The reason is kept for `resume`, unless the generator was still being prepared or
-- a reason is there already: the fault, if one is detected and looked for, and otherwise the user.
pub force_stop_state :
    (s : Irrigation)
    → ((force_stop s).status ≡ finished)
      × (((force_stop s).flows 1).is_active ≡ 0)
      × (((force_stop s).flows 2).is_active ≡ 0)
      × (((force_stop s).flows 5).is_active ≡ 0)
      × ((force_stop s).is_stopped ≡ (
          if is_preparing s.status || is_true s.is_stopped
          then s.is_stopped
          else if is_true s.is_faulty_detection_active && is_faulty s.faulty_detection_status
          then status_value s.faulty_detection_status
          else 1))
unfolding force_stop
force_stop_state s =
    let p0 = on_board devices_stop s.plant in
    let p1 = stop p0 1 in
    let p2 = stop p1 2 in
    ground (
      arith,
      stop_keeps p2 5 1,
      stop_keeps p2 5 2,
      stop_keeps p2 5 5,
      stop_keeps p1 2 1,
      stop_keeps p1 2 2,
      stop_keeps p0 1 1,
    )

update_stops :
    (s : Irrigation)
    → (s.status ≡ ready) ⊎ (s.status ≡ finishing)
    → is_true s.is_faulty_detection_active ≡ true
    → s.faulty_detection_status ≢ not_detected
    → update s ≡ force_stop s
unfolding update
update_stops s (inl running) active fault = ground (arith, running)
update_stops s (inr winding) active fault = ground (arith, winding)

-- A fault that is detected and looked for stops everything in one call of
-- `control_irrigation_temp_update`, in READY and in FINISHING alike and whatever the fault is: the
-- status is FINISHED and no device is on, neither recorded nor at its relay. The plant is wired as the
-- initialisation does and its relays follow its devices.
pub update_fault :
    (s : Irrigation) (i : ℕ)
    → IsSafe s.plant
    → i < 15
    → (s.status ≡ ready) ⊎ (s.status ≡ finishing)
    → is_true s.is_faulty_detection_active ≡ true
    → s.faulty_detection_status ≢ not_detected
    → ((update s).status ≡ finished)
      × (((update s).devices i).is_active ≡ 0)
      × (level (pin_of i) (update s).trace ≡ some relay_off)
update_fault s i safe h phase active fault =
    rw (update_stops s phase active fault)
      ((force_stop_state s).0, (force_stop-off s i safe h).0, (force_stop-off s i safe h).1)

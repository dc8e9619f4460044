-- ===== src/ControlFlow/Rounds.antt =====
-- What one round of `control_flow_update` and the commands of control_flow.cpp do to a program.
use blueberry_irrigation_sys.Base.{
  ℕ, suc, ◌+◌, ◌*◌, ◌-◌, ◌^◌, ◌≤◌, ◌<◌, ◌≡◌, ◌≢◌, ◌⊎◌, inl, inr, refl, Bool, true, false, if_intro,
  Array, ap, ◌∙◌, sym, subst, is_true, u32, sub32, sub32_elapsed, arith,
}
use blueberry_irrigation_sys.World.{Env, Float, now}
use blueberry_irrigation_sys.Device.{Board, Device, toggle, pulse, is_time_switch_minimum_passed}
use blueberry_irrigation_sys.ControlFlow.{
  Plant, ControlFlow, ticked, stop, pause, is_running, pulses_total_of,
}
use blueberry_irrigation_sys.ControlFlow.Wiring.{IsPlanned}
use blueberry_irrigation_sys.ControlFlow.Evolution.{is_finished_state}
use blueberry_irrigation_sys.ControlFlow.Update.{
  is_finished, is_behind, drive, control, update_flow,
}

-- A program that is stopped: neither active nor paused, its device off and no other program
-- changed. If it was the last of the three programs for supplements, their pump and the water valve
-- are off as well.
stop_lem :
    (p : Plant) (i : ℕ)
    → IsPlanned p
    → i < 6
    → (((stop p i).flows i).is_active ≡ 0)
      × (((stop p i).flows i).is_pause ≡ 0)
      × (((stop p i).devices (p.flows i).device).is_active ≡ 0)
      × ((j : ℕ) → j ≢ i → (stop p i).flows j ≡ p.flows j)
      × (0 < i
          → i < 4
          → is_running (stop p i) 1 ≡ false
          → is_running (stop p i) 2 ≡ false
          → is_running (stop p i) 3 ≡ false
          → (((stop p i).devices 3).is_active ≡ 0) × (((stop p i).devices 9).is_active ≡ 0))
unfolding stop toggle
stop_lem p i w h = (
  ground arith,
  ground arith,
  ground arith,
  λ j ne. ground (arith, ne),
  λ pos below r1 r2 r3. ground (arith, w.sensor i h),
)

pause_stamps :
    (p : Plant) (i k : ℕ)
    → (pause p i 1).calls ≡ suc k
    → ((((pause p i 1).flows i).time_start ≡ (p.flows i).time_start)
        × (((pause p i 1).flows i).time_pause ≡ u32 (p.env.millis k)))
      × (((pause p i 1).devices (p.flows i).device).is_active ≡ 0)
unfolding pause toggle pulse
pause_stamps p i k e = (ground (arith, e), ground arith)

resumed_start :
    (q : Plant) (i started paused resumed later : ℕ)
    → (q.flows i).time_start ≡ u32 started
    → (q.flows i).time_pause ≡ u32 paused
    → q.env.millis q.calls ≡ resumed
    → started ≤ paused
    → paused ≤ resumed
    → resumed ≤ later
    → later < started + 2 ^ 32
    → sub32 (u32 later) ((pause q i 0).flows i).time_start ≡ (paused - started) + (later - resumed)
unfolding pause
resumed_start q i started paused resumed later e1 e2 e3 le1 le2 le3 fits = ground arith

-- A pause does not count: a program is paused in the state `p`, by a call whose last clock reading is
-- `paused`, and goes on in a later state `q`, in which its record is as the pause left it. What it has run
-- when it was paused and what it runs after it goes on add up, however the clock has wrapped, and the
-- pause switches its device off.
pub pause_elapsed :
    (p q : Plant) (i k started paused resumed later : ℕ)
    → (p.flows i).time_start ≡ u32 started
    → (pause p i 1).calls ≡ suc k
    → p.env.millis k ≡ paused
    → q.flows i ≡ (pause p i 1).flows i
    → q.env.millis q.calls ≡ resumed
    → started ≤ paused
    → paused ≤ resumed
    → resumed ≤ later
    → later < started + 2 ^ 32
    → (((pause p i 1).devices (p.flows i).device).is_active ≡ 0)
      × (sub32 (u32 later) ((pause q i 0).flows i).time_start
          ≡ (paused - started) + (later - resumed))
pause_elapsed p q i k started paused resumed later e1 last e2 kept e3 le1 le2 le3 fits =
    let ((start, stop), off) = pause_stamps p i k last in
    let same = ap (λ (f : ControlFlow). f.time_start) kept in
    let then_paused = ap (λ (f : ControlFlow). f.time_pause) kept in
    (
      off,
      resumed_start q i started paused resumed later (same ∙ start ∙ e1)
          (then_paused ∙ stop ∙ ap u32 e2) e3 le1 le2 le3 fits,
    )

-- What is meant by the end of a program.
abbrev pub IsDelivered : Plant → ℕ → Type 0
IsDelivered p i =
    (is_true (p.flows i).pulses_to_deliver ≡ true)
    × ((p.flows i).pulses_to_deliver ≤ pulses_total_of p (p.flows i))

abbrev pub IsOver : Plant → ℕ → ℕ → Type 0
IsOver p i elapsed =
    (is_true (p.flows i).time_to_deliver ≡ true) × ((p.flows i).time_to_deliver * 1000 ≤ elapsed)

finished_iff :
    (p : Plant) (i started elapsed : ℕ)
    → (p.flows i).time_start ≡ u32 started
    → p.env.millis p.calls ≡ started + elapsed
    → elapsed < 2 ^ 32
    → (p.flows i).time_to_deliver < 65536
    → (((is_finished p i).0 ≡ true) × (IsDelivered p i ⊎ IsOver p i elapsed))
      ⊎ (((is_finished p i).0 ≡ false) × ¬ IsDelivered p i × ¬ IsOver p i elapsed)
unfolding is_finished
finished_iff p i started elapsed e1 e2 fits small = ground (arith, sub32_elapsed started elapsed)

abbrev pub IsRunning : Plant → ℕ → Type 0
IsRunning p i = (is_true (p.flows i).is_active ≡ true) × (is_true (p.flows i).is_pause ≡ false)

finished_round :
    (p : Plant) (i : ℕ)
    → IsRunning p i
    → (is_finished p i).0 ≡ true
    → update_flow i p ≡ stop (is_finished p i).1 i
unfolding update_flow
finished_round p i r f = ground arith

-- The round in which a running program's pulses are delivered or its time has passed, on the true
-- clock, ends the program and switches its device off.
pub update_flow_ends :
    (p : Plant) (i started elapsed : ℕ)
    → IsPlanned p
    → i < 6
    → IsRunning p i
    → (p.flows i).time_start ≡ u32 started
    → p.env.millis p.calls ≡ started + elapsed
    → elapsed < 2 ^ 32
    → (p.flows i).time_to_deliver < 65536
    → IsDelivered p i ⊎ IsOver p i elapsed
    → (((update_flow i p).flows i).is_active ≡ 0)
      × (((update_flow i p).devices (p.flows i).device).is_active ≡ 0)
update_flow_ends p i started elapsed w h r e1 e2 fits small over =
    rw (finished_round p i r is_over) (ends (is_finished_state p i))
  where
    is_over : (is_finished p i).0 ≡ true
    is_over = ground (arith, finished_iff p i started elapsed e1 e2 fits small, over)

    ends :
        ((is_finished p i).1 ≡ p) ⊎ ((is_finished p i).1 ≡ ticked p)
        → (((stop (is_finished p i).1 i).flows i).is_active ≡ 0)
          × (((stop (is_finished p i).1 i).devices (p.flows i).device).is_active ≡ 0)
    ends (inl e) = rw e ((stop_lem p i w h).0, (stop_lem p i w h).2)
    ends (inr e) =
        let v : IsPlanned (ticked p) = record { device = w.device; sensor = w.sensor } in
        rw e ((stop_lem (ticked p) i v h).0, (stop_lem (ticked p) i v h).2)

-- The dwell time of a device has passed at a clock reading.
abbrev pub HasDwelt : Board → ℕ → ℕ → Type 0
HasDwelt b i time =
    u32 ((b.devices i).time_switch_minimum * 100) ≤ sub32 (u32 time) (b.devices i).time_switch_last

drive_lem :
    (p : Plant) (on : Bool) (i : ℕ)
    → ((drive on i p).flows ≡ p.flows)
      × ((j : ℕ) → j ≢ i → (drive on i p).devices j ≡ p.devices j)
      × (((drive on i p).devices i ≡ p.devices i) ⊎ HasDwelt p.board i (p.env.millis p.calls))
      × (HasDwelt p.board i (p.env.millis p.calls)
          → is_true ((drive on i p).devices i).is_active ≡ on)
unfolding drive is_time_switch_minimum_passed toggle
drive_lem p true i = (ground arith, λ j ne. ground (arith, ne), ground arith, ground arith)
drive_lem p false i = (ground arith, λ j ne. ground (arith, ne), ground arith, ground arith)

-- The program's records and the devices after a round that began in the state `p`: only the program's
-- own device may be switched, and only if by one of the round's clock readings it has kept its state
-- for its minimum time.
abbrev pub Regulates : Plant → ℕ → Plant → Type 0
Regulates p i q =
    (q.flows ≡ p.flows)
    × ((j : ℕ) → j ≢ (p.flows i).device → q.devices j ≡ p.devices j)
    × ((q.devices (p.flows i).device ≡ p.devices (p.flows i).device)
        ⊎ ((k : ℕ) × (p.calls ≤ k)
            × (k ≤ p.calls + 2)
            × HasDwelt p.board (p.flows i).device (p.env.millis k)))

driven-Regulates :
    (p : Plant) (i : ℕ) (on : Bool) (n : ℕ) (q : Plant)
    → q.flows ≡ p.flows
    → q.devices ≡ p.devices
    → q.env ≡ p.env
    → q.calls ≡ p.calls + n
    → n ≤ 2
    → Regulates p i (drive on (p.flows i).device q)
driven-Regulates p i on n q flows devices env calls few =
    let (kept, others, own, _) = drive_lem q on (p.flows i).device in
    let d = (p.flows i).device in
    (
      kept ∙ flows,
      λ j ne. others j ne ∙ ap (λ (f : Array Device). f j) devices,
      elim own [
        | inl e ↦ inl (e ∙ ap (λ (f : Array Device). f d) devices)
        | inr e ↦ inr (
          q.calls,
          omega (arith, calls),
          omega (arith, calls, few),
          subst
              (λ (f : Array Device).
                u32 ((f d).time_switch_minimum * 100)
                ≤ sub32 (u32 (p.env.millis q.calls)) (f d).time_switch_last)
              devices
              (subst
                (λ (v : Env).
                  u32 ((q.devices d).time_switch_minimum * 100)
                  ≤ sub32 (u32 (v.millis q.calls)) (q.devices d).time_switch_last)
                env e),
        )
      ],
    )

control-Regulates :
    (p q : Plant) (i n : ℕ)
    → q.flows ≡ p.flows
    → q.devices ≡ p.devices
    → q.env ≡ p.env
    → q.calls ≡ p.calls + n
    → n ≤ 1
    → (q.flows i).device ≡ (p.flows i).device
    → Regulates p i (control q i)
unfolding control is_behind
control-Regulates p q i n flows devices env calls few same =
    if_intro (Regulates p i) _
      (subst (λ d. Regulates p i (drive true d q)) (sym same)
        (driven-Regulates p i true n q flows devices env calls (omega (arith, few))))
      (subst (λ d. Regulates p i (drive (is_behind q i).0 d (ticked q))) (sym same)
        (driven-Regulates p i (is_behind q i).0 (suc n) (ticked q) flows devices env
          (omega (arith, calls)) (omega (arith, few))))

going_round :
    (p : Plant) (i : ℕ)
    → IsRunning p i
    → (is_finished p i).0 ≡ false
    → update_flow i p ≡ control (is_finished p i).1 i
unfolding update_flow
going_round p i r f = ground arith

-- A program that is neither delivered nor over.
goes_on :
    (p : Plant) (i started elapsed : ℕ)
    → (p.flows i).time_start ≡ u32 started
    → p.env.millis p.calls ≡ started + elapsed
    → elapsed < 2 ^ 32
    → (p.flows i).time_to_deliver < 65536
    → ¬ IsDelivered p i
    → ¬ IsOver p i elapsed
    → (is_finished p i).0 ≡ false
goes_on p i started elapsed e1 e2 fits small nd late =
    elim (finished_iff p i started elapsed e1 e2 fits small) [
      | inl (f, inl d) ↦ absurd (nd d)
      | inl (f, inr o) ↦ absurd (late o)
      | inr (f, _, _) ↦ f
    ]

-- A running program whose pulses are not delivered and whose time has not passed goes on as it was,
-- and so does every other program. No device but the program's own is changed, and that one only if, by
-- one of the clock readings of this round, it has kept its state for its minimum time.
pub update_flow_goes_on :
    (p : Plant) (i started elapsed : ℕ)
    → IsRunning p i
    → (p.flows i).time_start ≡ u32 started
    → p.env.millis p.calls ≡ started + elapsed
    → elapsed < 2 ^ 32
    → (p.flows i).time_to_deliver < 65536
    → ¬ IsDelivered p i
    → ¬ IsOver p i elapsed
    → Regulates p i (update_flow i p)
update_flow_goes_on p i started elapsed r e1 e2 fits small nd late =
    rw (going_round p i r (goes_on p i started elapsed e1 e2 fits small nd late))
      (elim (is_finished_state p i) [
        | inl e ↦ rw e (control-Regulates p p i 0 refl refl refl (omega arith) (omega arith) refl)
        | inr e ↦
            rw e
              (control-Regulates p (ticked p) i 1 refl refl refl (omega arith) (omega arith) refl)
      ])

control_metered :
    (p : Plant) (i : ℕ)
    → is_true (p.flows i).pulses_to_deliver ≡ true
    → is_true (p.flows i).time_to_deliver ≡ true
    → control p i ≡ drive (is_behind p i).0 (p.flows i).device (ticked p)
unfolding control
control_metered p i amount time = rw (amount, time) (unfold is_behind in refl)

finished_ticked :
    (p : Plant) (i : ℕ)
    → is_true (p.flows i).time_to_deliver ≡ true
    → (is_finished p i).0 ≡ false
    → (is_finished p i).1 ≡ ticked p
unfolding is_finished
finished_ticked p i time f = ground arith

-- Is less than the due share of an amount there? `amount` pulses are to flow in `time` seconds,
-- `elapsed` milliseconds are over and `flowed` pulses have come, in the arithmetic of the board.
pub is_due : Float → ℕ → ℕ → ℕ → ℕ → Bool
is_due float amount time elapsed flowed =
    gt (mul (div (of_ℕ amount) (of_ℕ time)) (div (of_ℕ elapsed) (of_ℕ 1000))) (of_ℕ flowed)
  where
    open float use {of_ℕ, div, mul, gt}

behind_lem :
    (p : Plant) (i started elapsed : ℕ)
    → (p.flows i).time_start ≡ u32 started
    → p.env.millis p.calls ≡ started + elapsed
    → elapsed < 2 ^ 32
    → (is_behind p i).0
      ≡ is_due p.env.float
          (p.flows i).pulses_to_deliver
          (p.flows i).time_to_deliver
          elapsed
          (p.flow_sensors.sensors (p.flows i).sensor_flow).pulses_total
unfolding is_behind is_due
behind_lem p i started elapsed e1 e2 fits =
    let since : sub32 (now p.world) (p.flows i).time_start ≡ elapsed =
      ground (arith, sub32_elapsed started elapsed) in
    rw since refl

-- In a program with an amount and a time that is neither delivered nor over, a device that has kept
-- its state for the minimum time is on after the round exactly if fewer pulses than the share that is
-- due have come: the amount over its seconds, times the seconds since the start, on the true clock.
-- The round reads the clock three times, for the end of the time, the share and the minimum time.
pub update_flow_regulates :
    (p : Plant) (i started elapsed later : ℕ)
    → IsRunning p i
    → is_true (p.flows i).pulses_to_deliver ≡ true
    → is_true (p.flows i).time_to_deliver ≡ true
    → (p.flows i).time_start ≡ u32 started
    → p.env.millis p.calls ≡ started + elapsed
    → p.env.millis (suc p.calls) ≡ started + later
    → elapsed < 2 ^ 32
    → later < 2 ^ 32
    → (p.flows i).time_to_deliver < 65536
    → ¬ IsDelivered p i
    → ¬ IsOver p i elapsed
    → HasDwelt p.board (p.flows i).device (p.env.millis (suc (suc p.calls)))
    → is_true ((update_flow i p).devices (p.flows i).device).is_active
      ≡ is_due p.env.float
          (p.flows i).pulses_to_deliver
          (p.flows i).time_to_deliver
          later
          (p.flow_sensors.sensors (p.flows i).sensor_flow).pulses_total
update_flow_regulates p i started elapsed later r amount time e1 e2 e3 fits1 fits2 small nd late
      dwelt =
    let f = goes_on p i started elapsed e1 e2 fits1 small nd late in
    let q = ticked p in
    rw (going_round p i r f, finished_ticked p i time f, control_metered q i amount time)
      ((drive_lem (ticked q) (is_behind q i).0 (p.flows i).device).3 dwelt
        ∙ behind_lem q i started later e1 e3 fits2)

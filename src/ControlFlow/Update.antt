-- ===== src/ControlFlow/Update.antt =====
-- `control_flow_update` of arduino_client/src/control_flow.cpp.
use blueberry_irrigation_sys.Base.{
  ℕ, ◌*◌, Bool, true, false, not, ◌&&◌, ◌||◌, set_at, for_up, u32, sub32, ltb, leb, ◌==◌,
  if◌then◌else◌, is_true,
}
use blueberry_irrigation_sys.World.{now}
use blueberry_irrigation_sys.Device.{toggle, is_time_switch_minimum_passed}
use blueberry_irrigation_sys.ControlFlow.{
  Plant, FaultyStatus, detected_flow_less, detected_flow_more, detected_pressure_zero, on_board,
  ticked, pulses_total_of, is_running, stop, control_flow_array_size,
}

abbrev pub minimum_pulses : ℕ
minimum_pulses = 100

abbrev pub maximum_pulses : ℕ
maximum_pulses = 1000

abbrev pub time_interval : ℕ
time_interval = 10000

-- Is the program over: its pulses are delivered or its time has passed? The clock is read only if
-- the pulses do not decide it.
unfoldable pub is_finished : Plant → ℕ → Bool × Plant
is_finished p i =
    let f = p.flows i in
    let over = leb (u32 (f.time_to_deliver * 1000)) (sub32 (now p.world) f.time_start) in
    if is_true f.pulses_to_deliver && leb f.pulses_to_deliver (pulses_total_of p f)
    then (true, p)
    else if is_true f.time_to_deliver
    then (over, ticked p)
    else (false, p)

-- Has less flowed than the share of the amount that is due by now?
unfoldable pub is_behind : Plant → ℕ → Bool × Plant
is_behind p i =
    let f = p.flows i in
    let elapsed = sub32 (now p.world) f.time_start in
    (
      gt
          (mul (div (of_ℕ f.pulses_to_deliver) (of_ℕ f.time_to_deliver))
            (div (of_ℕ elapsed) (of_ℕ 1000)))
          (of_ℕ (pulses_total_of p f)),
      ticked p,
    )
  where
    open p.env.float use {of_ℕ, div, mul, gt}

-- `if(device_is_time_switch_minimum_passed(device) && is_active is not the one wanted)
-- device_toggle(device, wanted);` Whether the device is on is tested after the clock is read.
unfoldable pub drive : Bool → ℕ → Plant → Plant
drive on i p =
    let (passed, b) = is_time_switch_minimum_passed p.board i in
    let p' = record p { board = b } in
    let is_on = is_true (p.devices i).is_active in
    if on
    then (if passed && not is_on then on_board (λ c. toggle c i 1) p' else p')
    else (if passed && is_on then on_board (λ c. toggle c i 0) p' else p')

-- The same with the test of the state first, and the clock read only if that one passes.
unfoldable pub drive_lazily : Bool → ℕ → Plant → Plant
drive_lazily on i p =
    let (passed, b) = is_time_switch_minimum_passed p.board i in
    let p' = record p { board = b } in
    let is_on = is_true (p.devices i).is_active in
    if on
    then (if not is_on then (if passed then on_board (λ c. toggle c i 1) p' else p') else p)
    else (if is_on then (if passed then on_board (λ c. toggle c i 0) p' else p') else p)

-- What follows the test `is_finished` in a round of the first loop.
unfoldable pub control : Plant → ℕ → Plant
control p i =
    let f = p.flows i in
    let (behind, p') = is_behind p i in
    if not (is_true f.pulses_to_deliver) || not (is_true f.time_to_deliver)
    then drive true f.device p
    else drive behind f.device p'

-- A round of the first loop.
unfoldable pub update_flow : ℕ → Plant → Plant
update_flow i p =
    let f = p.flows i in
    let (finished, p') = is_finished p i in
    if not (is_true f.is_active) || is_true f.is_pause
    then p
    else if finished
    then stop p' i
    else control p' i

-- The supplements pump runs while a supplement's program does.
unfoldable pub update_pump : Plant → Plant
update_pump p =
    if is_running p 1 || is_running p 2 || is_running p 3 then drive_lazily true 3 p else p

-- The water valve is open while the micro and macro valves are closed in a running program.
unfoldable pub update_water : Plant → Plant
update_water p =
    let is_open = λ (i : ℕ). is_true (p.devices (p.flows i).device).is_active in
    if is_running p 1 || is_running p 2
    then (if not (is_open 1) && not (is_open 2)
        then drive_lazily true 9 p
        else if not (is_running p 3)
        then drive_lazily false 9 p
        else p)
    else p

-- The verdict on a sensor's pulses since the last check.
abbrev pub flow_verdict : ℕ → FaultyStatus → FaultyStatus
flow_verdict pulses status =
    if ltb pulses minimum_pulses
    then detected_flow_less
    else if ltb maximum_pulses pulses
    then detected_flow_more
    else status

abbrev pub pressure_verdict : ℕ → FaultyStatus → FaultyStatus
pressure_verdict pressure status = if pressure == 0 then detected_pressure_zero else status

-- The pulses of a program since the last check. The garden program, number 5, is not checked.
unfoldable pub check_pulses : ℕ → Plant → Plant
check_pulses i p =
    let f = p.flows i in
    let total = pulses_total_of p f in
    if not (i == 5)
    then record p {
      flows = set_at p.flows i (record f { pulses_last = total });
      faulty_detection_status = flow_verdict (sub32 total f.pulses_last) p.faulty_detection_status;
    }
    else p

-- The pressure behind the filters.
unfoldable pub check_pressure : Plant → Plant
check_pressure p = record p {
  faulty_detection_status =
      pressure_verdict (p.pressure_sensors.sensors 2).pressure p.faulty_detection_status;
}

-- A round of the second loop.
unfoldable pub check_flow : ℕ → Plant → Plant
check_flow i p =
    let f = p.flows i in
    if not (is_true f.is_active) || is_true f.is_pause then p else check_pressure (check_pulses i p)

-- `control_flow_faulty_detection_time_last = millis();`
abbrev pub stamp_detection : Plant → Plant
stamp_detection p = record (ticked p) { faulty_detection_time_last = now p.world }

-- The faulty flow detection.
unfoldable pub detect : Plant → Plant
detect p =
    let p' = for_up control_flow_array_size 0 check_flow (ticked p) in
    if ltb time_interval (sub32 (now p.world) p.faulty_detection_time_last)
    then stamp_detection p'
    else ticked p

-- `control_flow_update()`
unfoldable pub update : Plant → Plant
update p = detect (update_water (update_pump (for_up control_flow_array_size 0 update_flow p)))

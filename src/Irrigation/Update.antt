-- ===== src/Irrigation/Update.antt =====
-- `control_irrigation_temp_update` of arduino_client/src/control_irrigation_temp.cpp.
use blueberry_irrigation_sys.Base.{ℕ, Bool, true, false, ◌&&◌, sub32, ltb, if◌then◌else◌, is_true}
use blueberry_irrigation_sys.World.{now}
use blueberry_irrigation_sys.ControlFlow.{FaultyStatus, not_detected}
use blueberry_irrigation_sys.Irrigation.{
  Irrigation, Program, Status, group_1, group_2, both, cleaning, garden, other, finished, preparing,
  ready, finishing, ticked, toggle_device, stamp_start, start, resume, force_stop,
}

-- `if(millis() - since < duration) return;` and what follows it.
abbrev pub after : ℕ → ℕ → (Irrigation → Irrigation) → Irrigation → Irrigation
after since duration next s =
    if ltb (sub32 (now s.world) since) duration then ticked s else next (ticked s)

-- The generator has run for long enough: the well pump starts, and the program with it.
unfoldable pub leave_preparing : Irrigation → Irrigation
leave_preparing s =
    let t = record (toggle_device 1 1 s) { status = ready } in
    if is_true s.is_stopped then resume t else start t.program t.is_cleaning t

-- `time_generator_start = millis(); status = FINISHING;`
abbrev pub enter_finishing : Irrigation → Irrigation
enter_finishing s = record (ticked s) { time_generator_start = now s.world; status = finishing }

-- The well pump stops and the generator runs on for a while.
unfoldable pub finish : Irrigation → Irrigation
finish s = enter_finishing (toggle_device 1 0 s)

unfoldable pub leave_finishing : Irrigation → Irrigation
leave_finishing s = record (toggle_device 0 0 s) { status = finished }

-- The time of group 1 or 2 has passed.
unfoldable pub end_group : ℕ → Irrigation → Irrigation
end_group valve s =
    let t = toggle_device valve 0 (toggle_device 2 0 s) in
    if is_true t.is_cleaning then start cleaning 1 t else finish t

-- The time of one of the two groups has passed in the program for both.
unfoldable pub end_both : Irrigation → Irrigation
end_both s =
    let t = toggle_device 11 0 (toggle_device 2 0 s) in
    if is_true (s.devices 10).is_active
    then record (start group_2 s.is_cleaning (toggle_device 10 0 s)) { program = both }
    else if is_true t.is_cleaning
    then start cleaning t.is_cleaning t
    else finish t

-- A part of the cleaning is over: group 3 comes first, then 1, then 2.
unfoldable pub end_cleaning : Irrigation → Irrigation
end_cleaning s =
    let group_3 = stamp_start (toggle_device 10 1 (toggle_device 12 0 s)) in
    if is_true (s.devices 10).is_active
    then stamp_start (toggle_device 11 1 (toggle_device 10 0 s))
    else if is_true (s.devices 11).is_active
    then record (enter_finishing (toggle_device 11 0 (toggle_device 1 0 s))) {
      time_cleaning_duration = s.time_cleaning_group3_duration;
    }
    else record group_3 { time_cleaning_duration = s.time_cleaning_group12_duration }

-- The ladder over the programs.
unfoldable pub update_program : Program → Irrigation → Irrigation
update_program group_1 s = after s.time_program_start s.time_program_duration (end_group 10) s
update_program group_2 s = after s.time_program_start s.time_program_duration (end_group 11) s
update_program both s = after s.time_program_start s.time_program_duration end_both s
update_program cleaning s = after s.time_program_start s.time_cleaning_duration end_cleaning s
update_program garden s = after s.time_program_start s.time_program_duration finish s
update_program (other n) s = s

abbrev pub is_faulty : FaultyStatus → Bool
is_faulty not_detected = false
is_faulty _ = true

-- What a status does once no fault was found.
unfoldable pub update_status : Status → Irrigation → Irrigation
update_status finished s = s
update_status preparing s = after s.time_generator_start s.time_generator_wait leave_preparing s
update_status finishing s = after s.time_generator_start s.time_generator_wait leave_finishing s
update_status ready s = update_program s.program s

-- Is the fault looked at? The tests of the statuses that return before it come first.
abbrev pub is_watched : Status → Bool
is_watched finished = false
is_watched preparing = false
is_watched _ = true

-- `update()`
unfoldable pub update : Irrigation → Irrigation
update s =
    if is_watched s.status
      && (is_true s.is_faulty_detection_active && is_faulty s.faulty_detection_status)
    then force_stop s
    else update_status s.status s

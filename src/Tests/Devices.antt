-- ===== src/Tests/Devices.antt =====
-- The theorems on the devices at concrete inputs.
use blueberry_irrigation_sys.Base.{ℕ, ◌+◌, ◌*◌, ◌≤◌, ◌<◌, ◌≡◌, ◌⊎◌, some, [], leb, arith, refl}
use blueberry_irrigation_sys.World.{level}
use blueberry_irrigation_sys.Device.{
  Board, relay_off, toggle, update, is_time_switch_minimum_passed,
}
use blueberry_irrigation_sys.Device.Init.{init}
use blueberry_irrigation_sys.Device.Steps.{
  here, toggled, updated, IsSound, init-IsSound, Steps-IsSound,
}
use blueberry_irrigation_sys.Device.Timing.{toggle-is_time_switch_minimum_passed, update_pulse}
use blueberry_irrigation_sys.Device.Save.{save_to_array}
use blueberry_irrigation_sys.Device.Save.RoundTrip.{read_device, saved, save_to_array-read_device}
use blueberry_irrigation_sys.Tests.{farm, blank_device}

-- The click pump is switched on, and off before its pulse is over.
abbrev clicked : Board
clicked = update (toggle (toggle (init farm.board) 6 1) 6 0)

Steps-IsSound_example : IsSound clicked
Steps-IsSound_example =
    Steps-IsSound {b = init farm.board}
      (updated (toggled (toggled here 6 1 (omega arith)) 6 0 (omega arith)))
      (init-IsSound farm.board tt)

-- The clock wraps between the switch and the check.
abbrev pump : Board
pump = record farm.board {
  world = record {
    env = record farm.env { millis = λ k. 4294967000 + k * 700 };
    calls = 0;
    trace = [];
  };
  devices = λ i. record blank_device {
    pin = 25;
    is_active = 1;
    time_switch_minimum = 5;
    time_switch_last = 77;
  };
}

toggle-is_time_switch_minimum_passed_example :
    (is_time_switch_minimum_passed (toggle pump 7 0) 7).0 ≡ leb (5 * 100) 700
toggle-is_time_switch_minimum_passed_example =
    toggle-is_time_switch_minimum_passed pump 7 0 700 refl (omega arith) (omega arith) refl

-- A pulse that began 700 ms ago, before the clock wrapped.
abbrev pulsing : Board
pulsing = record pump {
  world = record { env = pump.env; calls = 1; trace = [] };
  devices = λ i. record blank_device { pin = 27; is_active = 1; device_extension = some 0 };
  extensions = λ i. record {
    pin = 26;
    is_hold = 1;
    time_switch_hold_minimum = 5;
    time_switch_hold_last = 4294967000;
  };
}

update_pulse_example :
    (700 < 500 → ((update pulsing).trace ≡ []) × (((update pulsing).extensions 0).is_hold ≡ 1))
    × (500 ≤ 700
        → (level 27 (update pulsing).trace ≡ some relay_off)
          × (((update pulsing).extensions 0).is_hold ≡ 0))
update_pulse_example =
    update_pulse pulsing 4294967000 700 refl (omega arith) refl (omega arith) refl

save_to_array-read_device_example :
    let (buffer', n) = save_to_array pulsing 6 3 (λ j. 9) in
    (read_device buffer' 3 ≡ saved pulsing (pulsing.devices 6))
    × (n ≡ 15)
    × ((j : ℕ) → (j < 3) ⊎ (3 + n ≤ j) → buffer' j ≡ 9)
save_to_array-read_device_example =
    save_to_array-read_device pulsing 6 3 (λ j. 9) (omega arith) (λ e. omega arith)

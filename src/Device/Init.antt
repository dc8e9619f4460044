-- ===== src/Device/Init.antt =====
-- `device_init` of arduino_client/src/device.cpp.
use blueberry_irrigation_sys.Base.{ℕ, Option, none, some, set_at}
use blueberry_irrigation_sys.World.{World, input_pullup, output, pin_mode, perform, write}
use blueberry_irrigation_sys.Device.{Board, relay_off}
use blueberry_irrigation_sys.Pins

-- A relay's pin: pulled up before it drives, so that the relay stays off.
abbrev pub init_relay : ℕ → World → World
init_relay pin w =
    write pin relay_off (perform (pin_mode pin output) (perform (pin_mode pin input_pullup) w))

-- The lines for one element of `device_array`.
abbrev pub init_device : ℕ → ℕ → ℕ → Option ℕ → Board → Board
init_device i pin time_switch_minimum device_extension b = record b {
  world = init_relay pin b.world;
  devices = set_at b.devices i (record {
    pin = pin;
    is_active = 0;
    time_switch_minimum = time_switch_minimum;
    time_switch_last = 0;
    device_extension = device_extension;
  });
}

-- The lines for the off coil of the click pump.
abbrev pub init_extension : ℕ → ℕ → ℕ → Board → Board
init_extension i pin time_switch_hold_minimum b = record b {
  world = init_relay pin b.world;
  extensions = set_at b.extensions i (record {
    pin = pin;
    is_hold = 0;
    time_switch_hold_minimum = time_switch_hold_minimum;
    time_switch_hold_last = 0;
  });
}

unfoldable pub init : Board → Board
init b0 =
    let b1 = init_device 0 Pins.device_pin_generator 100 none b0 in
    let b2 = init_device 1 Pins.device_pin_pump_well 100 none b1 in
    let b3 = init_device 2 Pins.device_pin_pump_acid 50 none b2 in
    let b4 = init_device 3 Pins.device_pin_pump_supplements 50 none b3 in
    let b5 = init_device 4 Pins.device_pin_pump_supplements_micro 50 none b4 in
    let b6 = init_device 5 Pins.device_pin_pump_supplements_macro 50 none b5 in
    let b7 = init_extension 0 Pins.device_pin_pump_click_off 5 b6 in
    let b8 = init_device 6 Pins.device_pin_pump_click_on 150 (some 0) b7 in
    let b9 = record b8 { extended = set_at b8.extended 0 6 } in
    let b10 = init_device 7 Pins.device_pin_valve_supplements_micro 5 none b9 in
    let b11 = init_device 8 Pins.device_pin_valve_supplements_macro 5 none b10 in
    let b12 = init_device 9 Pins.device_pin_valve_supplements_water 5 none b11 in
    let b13 = init_device 10 Pins.device_pin_valve_group_1 20 none b12 in
    let b14 = init_device 11 Pins.device_pin_valve_group_2 20 none b13 in
    let b15 = init_device 12 Pins.device_pin_valve_group_3 20 none b14 in
    let b16 = init_device 13 Pins.device_pin_valve_garden 20 none b15 in
    init_device 14 Pins.device_pin_lamp 20 none b16

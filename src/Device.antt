-- ===== src/Device.antt =====
-- arduino_client/src/device.cpp and arduino_client/include/device.h: the relays, the device that has
-- an on and an off coil, and the wire form of a device. A pointer into `device_array` or
-- `device_extension_array` is its index. The save functions are in Device/Save.
pub mod Init
pub mod Relays
pub mod Coils
pub mod Steps
pub mod Timing
pub mod Save
use blueberry_irrigation_sys.Base.{
  ℕ, ◌*◌, Bool, Option, none, some, ltb, leb, if◌then◌else◌, is_true, not, Array, set_at, for_up,
  u32, sub32,
}
use blueberry_irrigation_sys.World.{World, now, called, write}

-- A relay conducts when its pin is low.
abbrev pub relay_on : ℕ
relay_on = 0

abbrev pub relay_off : ℕ
relay_off = 1

abbrev pub device_array_size : ℕ
device_array_size = 15

abbrev pub device_extension_array_size : ℕ
device_extension_array_size = 1

pub record DeviceExtension : Type 0 where
  pub pin : ℕ
  pub is_hold : ℕ
  pub time_switch_hold_minimum : ℕ
  pub time_switch_hold_last : ℕ

pub record Device : Type 0 where
  pub pin : ℕ
  pub is_active : ℕ
  pub time_switch_minimum : ℕ
  pub time_switch_last : ℕ
  pub device_extension : Option ℕ

-- The globals of device.cpp, in the world.
pub record Board : Type 0 where
  pub world : World
  pub open world use *
  pub devices : Array Device
  pub extensions : Array DeviceExtension
  pub extended : Array ℕ

abbrev pub on_world : (World → World) → Board → Board
on_world f b = record b { world = f b.world }

-- The level that switches a relay as `is_active` says.
abbrev pub relay : ℕ → ℕ
relay is_active = if is_true is_active then relay_on else relay_off

-- What `toggle` does to the coils of an extended device: a pulse that is still held is ended
-- first, then the coil for the new state is energised and the hold time starts.
unfoldable pub pulse : Board → Device → ℕ → ℕ → Board
pulse b d e is_active =
    let x = b.extensions e in
    let off_pin = if is_true d.is_active then d.pin else x.pin in
    let w = if is_true x.is_hold then write off_pin relay_off b.world else b.world in
    let on_pin = if is_true is_active then d.pin else x.pin in
    let w' = write on_pin relay_on w in
    record b {
      world = called w';
      extensions = set_at b.extensions e (record x { is_hold = 1; time_switch_hold_last = now w' });
    }

-- `device_toggle(&device_array[i], is_active)`
unfoldable pub toggle : Board → ℕ → ℕ → Board
toggle b i is_active =
    let d = b.devices i in
    let switched : Board = elim d.device_extension [
      | some e ↦ pulse b d e is_active
      | none ↦ on_world (write d.pin (relay is_active)) b
    ] in
    record b {
      world = called switched.world;
      extensions = switched.extensions;
      devices =
          set_at b.devices i
            (record d { time_switch_last = now switched.world; is_active = is_active });
    }

-- `device_is_time_switch_minimum_passed(&device_array[i])`
unfoldable pub is_time_switch_minimum_passed : Board → ℕ → Bool × Board
is_time_switch_minimum_passed b i =
    let d = b.devices i in
    (
      leb (u32 (d.time_switch_minimum * 100)) (sub32 (now b.world) d.time_switch_last),
      on_world called b,
    )

-- One round of the loop of `device_update`: a pulse that was held long enough ends.
unfoldable pub update_extension : ℕ → Board → Board
update_extension i b =
    let x = b.extensions i in
    let elapsed = sub32 (now b.world) x.time_switch_hold_last in
    let d = b.devices (b.extended i) in
    let off_pin = if is_true d.is_active then d.pin else x.pin in
    if not (is_true x.is_hold)
    then b
    else if ltb elapsed (u32 (x.time_switch_hold_minimum * 100))
    then on_world called b
    else record b {
      world = write off_pin relay_off (called b.world);
      extensions = set_at b.extensions i (record x { is_hold = 0 });
    }

-- `device_update()`
unfoldable pub update : Board → Board
unfolding update_extension
update = for_up device_extension_array_size 0 update_extension

-- ===== src/Device/Timing.antt =====
-- The dwell time between two switches of a device and the length of a coil's pulse, on a 32-bit
-- millisecond clock that wraps.
use blueberry_irrigation_sys.Base.{
  ℕ, suc, ◌+◌, ◌*◌, ◌≤◌, ◌<◌, ◌≡◌, ◌^◌, true, none, some, is_true, if◌then◌else◌, leb, arith,
  sub32_elapsed, u32,
}
use blueberry_irrigation_sys.World.{level}
use blueberry_irrigation_sys.Device.{
  Board, toggle, update, update_extension, relay_off, is_time_switch_minimum_passed,
}

-- After a toggle of a plain device, the next check of its dwell time compares the true time since
-- the toggle, however the clock has wrapped in between.
pub toggle-is_time_switch_minimum_passed :
    (b : Board) (i a elapsed : ℕ)
    → (b.devices i).device_extension ≡ none
    → (b.devices i).time_switch_minimum < 256
    → elapsed < 2 ^ 32
    → b.env.millis (suc b.calls) ≡ b.env.millis b.calls + elapsed
    → (is_time_switch_minimum_passed (toggle b i a) i).0
      ≡ leb ((b.devices i).time_switch_minimum * 100) elapsed
unfolding toggle is_time_switch_minimum_passed
toggle-is_time_switch_minimum_passed b i a elapsed plain small fits clock =
    ground (arith, sub32_elapsed (b.env.millis b.calls) elapsed)

-- The pin of the coil that a pulse holds: with the device on, that of the device, and else that of
-- the extension.
abbrev pub held_pin : Board → ℕ
held_pin b =
    let d = b.devices (b.extended 0) in if is_true d.is_active then d.pin else (b.extensions 0).pin

-- A pulse of the click pump's coil: as long as its hold time has not passed, `device_update` writes no
-- pin and the pulse goes on; the first `device_update` after it ends the pulse and drives the coil's
-- relay to off.
pub update_pulse :
    (b : Board) (start elapsed : ℕ)
    → is_true (b.extensions 0).is_hold ≡ true
    → (b.extensions 0).time_switch_hold_minimum < 256
    → (b.extensions 0).time_switch_hold_last ≡ u32 start
    → elapsed < 2 ^ 32
    → b.env.millis b.calls ≡ start + elapsed
    → (elapsed < (b.extensions 0).time_switch_hold_minimum * 100
        → ((update b).trace ≡ b.trace)
          × (((update b).extensions 0).is_hold ≡ (b.extensions 0).is_hold))
      × ((b.extensions 0).time_switch_hold_minimum * 100 ≤ elapsed
          → (level (held_pin b) (update b).trace ≡ some relay_off)
            × (((update b).extensions 0).is_hold ≡ 0))
unfolding update update_extension
update_pulse b start elapsed held small last fits clock = (
  λ early.
      (ground (arith, sub32_elapsed start elapsed), ground (arith, sub32_elapsed start elapsed)),
  λ late.
      (ground (arith, sub32_elapsed start elapsed), ground (arith, sub32_elapsed start elapsed)),
)

-- ===== src/Device/Save/RoundTrip.antt =====
-- A reader for the wire form of a device.

use blueberry_irrigation_sys.Base.{
  Option-cases, inl, inr, inl, inr, ℕ, ◌+◌, ◌≤◌, ◌<◌, ◌≡◌, ◌^◌, ◌⊎◌, refl, Option, none, some,
  Array, length, word_of, word_of-byte_of, is_true, if◌then◌else◌, arith,
}
use blueberry_irrigation_sys.Device.{Board, Device, DeviceExtension}
use blueberry_irrigation_sys.Device.Save.{
  store, device_bytes, extension_bytes, saved_bytes, save_to_array, save_to_array_all, store_inside,
  store_outside,
}

-- What a reader makes of the bytes.
pub record SavedDevice : Type 0 where
  pub pin : ℕ
  pub is_active : ℕ
  pub time_switch_minimum : ℕ
  pub time_switch_last : ℕ
  pub extension : Option DeviceExtension

abbrev pub word_at : Array ℕ → ℕ → ℕ
word_at buffer i = word_of (buffer i) (buffer (i + 1)) (buffer (i + 2)) (buffer (i + 3))

abbrev pub read_extension : Array ℕ → ℕ → DeviceExtension
read_extension buffer i = record {
  pin = buffer i;
  is_hold = buffer (i + 1);
  time_switch_hold_minimum = buffer (i + 2);
  time_switch_hold_last = word_at buffer (i + 3);
}

abbrev pub read_device : Array ℕ → ℕ → SavedDevice
read_device buffer i = record {
  pin = buffer i;
  is_active = buffer (i + 1);
  time_switch_minimum = buffer (i + 2);
  time_switch_last = word_at buffer (i + 3);
  extension = if is_true (buffer (i + 7)) then some (read_extension buffer (i + 8)) else none;
}

abbrev pub saved : Board → Device → SavedDevice
saved b d = record {
  pin = d.pin;
  is_active = d.is_active;
  time_switch_minimum = d.time_switch_minimum;
  time_switch_last = d.time_switch_last;
  extension = elim d.device_extension [ none ↦ none | some e ↦ some (b.extensions e) ];
}

-- How many bytes a device takes.
abbrev pub saved_size : Device → ℕ
saved_size d = elim d.device_extension [ none ↦ 8 | some e ↦ 15 ]

read-store_plain :
    (b : Board) (d : Device) (o : ℕ) (buffer : Array ℕ)
    → d.time_switch_last < 2 ^ 32
    → d.device_extension ≡ none
    → read_device (store buffer o (saved_bytes b d)) o ≡ saved b d
unfolding saved_bytes device_bytes
read-store_plain b d o buffer fits plain = ground (
  arith,
  plain,
  word_of-byte_of d.time_switch_last,
  store_inside (saved_bytes b d) buffer o 0,
  store_inside (saved_bytes b d) buffer o 1,
  store_inside (saved_bytes b d) buffer o 2,
  store_inside (saved_bytes b d) buffer o 3,
  store_inside (saved_bytes b d) buffer o 4,
  store_inside (saved_bytes b d) buffer o 5,
  store_inside (saved_bytes b d) buffer o 6,
  store_inside (saved_bytes b d) buffer o 7,
)

read-store_extended :
    (b : Board) (d : Device) (o e : ℕ) (buffer : Array ℕ)
    → d.time_switch_last < 2 ^ 32
    → (b.extensions e).time_switch_hold_last < 2 ^ 32
    → d.device_extension ≡ some e
    → read_device (store buffer o (saved_bytes b d)) o ≡ saved b d
unfolding saved_bytes device_bytes extension_bytes
read-store_extended b d o e buffer fits ext_fits extended = ground (
  arith,
  extended,
  word_of-byte_of d.time_switch_last,
  word_of-byte_of (b.extensions e).time_switch_hold_last,
  store_inside (saved_bytes b d) buffer o 0,
  store_inside (saved_bytes b d) buffer o 1,
  store_inside (saved_bytes b d) buffer o 2,
  store_inside (saved_bytes b d) buffer o 3,
  store_inside (saved_bytes b d) buffer o 4,
  store_inside (saved_bytes b d) buffer o 5,
  store_inside (saved_bytes b d) buffer o 6,
  store_inside (saved_bytes b d) buffer o 7,
  store_inside (saved_bytes b d) buffer o 8,
  store_inside (saved_bytes b d) buffer o 9,
  store_inside (saved_bytes b d) buffer o 10,
  store_inside (saved_bytes b d) buffer o 11,
  store_inside (saved_bytes b d) buffer o 12,
  store_inside (saved_bytes b d) buffer o 13,
  store_inside (saved_bytes b d) buffer o 14,
)

length-saved_bytes : (b : Board) (d : Device) → length (saved_bytes b d) ≡ saved_size d
unfolding saved_bytes device_bytes extension_bytes
length-saved_bytes b d = ground arith

-- What `device_save_to_array` writes can be read back: the eight bytes of a plain device or the
-- fifteen of an extended one stand at the offset, the function returns their number, and no other
-- byte of the buffer changes. The stored clock values are 32-bit words.
pub save_to_array-read_device :
    (b : Board) (i offset : ℕ) (buffer : Array ℕ)
    → (b.devices i).time_switch_last < 2 ^ 32
    → ((e : ℕ) → (b.extensions e).time_switch_hold_last < 2 ^ 32)
    → let (buffer', n) = save_to_array b i offset buffer in
      (read_device buffer' offset ≡ saved b (b.devices i))
      × (n ≡ saved_size (b.devices i))
      × ((j : ℕ) → (j < offset) ⊎ (offset + n ≤ j) → buffer' j ≡ buffer j)
unfolding save_to_array
save_to_array-read_device b i offset buffer fits ext_fits = (
  elim (Option-cases (b.devices i).device_extension) [
    | inl plain ↦ read-store_plain b (b.devices i) offset buffer fits plain
    | inr (e, extended) ↦
        read-store_extended b (b.devices i) offset e buffer fits (ext_fits e) extended
  ],
  ground (arith, length-saved_bytes b (b.devices i)),
  λ j out.
      store_outside (saved_bytes b (b.devices i)) buffer offset j
        (ground (arith, length-saved_bytes b (b.devices i))),
)

-- `device_save_to_array_all` saves the first device and no other, whatever the board: its loop runs
-- to the number of extensions, not of devices. No byte from the sixteenth on is written.
save_to_array_all-first :
    (b : Board) (last : ℕ) (buffer : Array ℕ)
    → (save_to_array_all b last buffer ≡ save_to_array b 0 0 buffer)
      × ((j : ℕ) → 15 ≤ j → (save_to_array_all b last buffer).0 j ≡ buffer j)
unfolding save_to_array_all save_to_array
save_to_array_all-first b last buffer = (
  refl,
  λ j out.
      store_outside (saved_bytes b (b.devices 0)) buffer 0 j
        (ground (arith, length-saved_bytes b (b.devices 0))),
)

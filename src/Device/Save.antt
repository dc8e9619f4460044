-- ===== src/Device/Save.antt =====
-- `device_save_to_array` and `device_save_to_array_all` of arduino_client/src/device.cpp.
pub mod RoundTrip
use blueberry_irrigation_sys.Base.{
  ℕ, zero, suc, ◌+◌, ◌*◌, ◌≤◌, ◌<◌, ◌≡◌, ◌≢◌, ◌^◌, ◌⊎◌, refl, Bool, true, false, Option, none, some,
  List, [], ◌∷◌, ◌++◌, Array, set_at, length, get_elem?, for_up, byte_of, word_of, word_of-byte_of,
  u8, arith,
}
use blueberry_irrigation_sys.Device.{Board, Device, DeviceExtension, device_extension_array_size}

-- `buffer[index_buffer] = value; index_buffer++;` for each value in turn.
unfoldable pub store : Array ℕ → ℕ → List ℕ → Array ℕ
store buffer index [] = buffer
store buffer index (value ∷ values) = store (set_at buffer index value) (index + 1) values

-- The values that are stored for a device.
unfoldable pub device_bytes : Device → List ℕ
device_bytes d =
    d.pin
    ∷ d.is_active
    ∷ d.time_switch_minimum
    ∷ byte_of d.time_switch_last 0
    ∷ byte_of d.time_switch_last 1
    ∷ byte_of d.time_switch_last 2
    ∷ byte_of d.time_switch_last 3
    ∷ []

unfoldable pub extension_bytes : DeviceExtension → List ℕ
extension_bytes x =
    x.pin
    ∷ x.is_hold
    ∷ x.time_switch_hold_minimum
    ∷ byte_of x.time_switch_hold_last 0
    ∷ byte_of x.time_switch_hold_last 1
    ∷ byte_of x.time_switch_hold_last 2
    ∷ byte_of x.time_switch_hold_last 3
    ∷ []

unfoldable pub saved_bytes : Board → Device → List ℕ
saved_bytes b d =
    device_bytes d
    ++ elim d.device_extension [ none ↦ 0 ∷ [] | some e ↦ 1 ∷ extension_bytes (b.extensions e) ]

-- `device_save_to_array(&device_array[i], buffer + offset)`: the buffer and the returned length.
unfoldable pub save_to_array : Board → ℕ → ℕ → Array ℕ → Array ℕ × ℕ
save_to_array b i offset buffer =
    let bytes = saved_bytes b (b.devices i) in (store buffer offset bytes, u8 (length bytes))

-- A round of the loop of `device_save_to_array_all`: the buffer, `index_buffer_total` and
-- `index_buffer`.
unfoldable pub save_next : Board → ℕ → Array ℕ × ℕ × ℕ → Array ℕ × ℕ × ℕ
save_next b i (buffer, total, last) =
    let (buffer', n) = save_to_array b i total buffer in (buffer', u8 (total + n), n)

-- `device_save_to_array_all(buffer)`. It returns `index_buffer`.
unfoldable pub save_to_array_all : Board → ℕ → Array ℕ → Array ℕ × ℕ
unfolding save_next
save_to_array_all b last buffer =
    let (buffer', total, n) =
      for_up device_extension_array_size 0 (save_next b) (buffer, 0, last) in
    (buffer', n)

abbrev pub nth : List ℕ → ℕ → ℕ
nth [] k = 0
nth (v ∷ vs) zero = v
nth (v ∷ vs) (suc k) = nth vs k

pub store_outside :
    (values : List ℕ) (buffer : Array ℕ) (index j : ℕ)
    → (j < index) ⊎ (index + length values ≤ j)
    → store buffer index values j ≡ buffer j
unfolding store
store_outside [] buffer index j out = refl
store_outside (v ∷ vs) buffer index j out =
    ground (arith, store_outside vs (set_at buffer index v) (index + 1) j)

pub store_inside :
    (values : List ℕ) (buffer : Array ℕ) (index k : ℕ)
    → k < length values
    → store buffer index values (index + k) ≡ nth values k
unfolding store
store_inside [] buffer index k h = elim h [ ]
store_inside (v ∷ vs) buffer index zero h =
    ground (arith, store_outside vs (set_at buffer index v) (index + 1) (index + 0))
store_inside (v ∷ vs) buffer index (suc k) h =
    rw (add_assoc_one index k) (store_inside vs (set_at buffer index v) (index + 1) k (omega arith))
  where
    add_assoc_one : (m n : ℕ) → m + suc n ≡ m + 1 + n
    add_assoc_one m n = omega arith

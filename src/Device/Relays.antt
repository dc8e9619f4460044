-- ===== src/Device/Relays.antt =====
-- What the pins of the relays show of the state that device.cpp keeps.
use blueberry_irrigation_sys.Base.{
  subst, ℕ_discrete, ℕ, ◌<◌, ◌≡◌, ◌≢◌, refl, sym, true, false, none, some, ◌∷◌, ◌==◌, if◌then◌else◌,
  is_true, arith, cases_below,
}
use blueberry_irrigation_sys.World.{level, digital_write}
use blueberry_irrigation_sys.Device.{Board, relay, relay_off, relay_on, toggle, pulse, update}
use blueberry_irrigation_sys.Device.Init.{init}

-- The pin of each device, and the device at each pin.
unfoldable pub pin_of : ℕ → ℕ
pin_of i =
    if i == 0
    then 25
    else if i == 1
    then 24
    else if i == 2
    then 23
    else if i == 3
    then 22
    else if i == 4
    then 29
    else if i == 5
    then 28
    else if i == 6
    then 27
    else if i == 7
    then 32
    else if i == 8
    then 30
    else if i == 9
    then 31
    else if i == 10
    then 37
    else if i == 11
    then 36
    else if i == 12
    then 35
    else if i == 13
    then 34
    else 33

-- The wiring that `init` sets up: no operation changes it.
pub record IsWired (b : Board) : Type 0 where
  pub pins : (i : ℕ) → i < 15 → (b.devices i).pin ≡ pin_of i
  pub plain : (i : ℕ) → i < 15 → i ≢ 6 → (b.devices i).device_extension ≡ none
  pub click : (b.devices 6).device_extension ≡ some 0
  pub click_off : (b.extensions 0).pin ≡ 26
  pub extended : b.extended 0 ≡ 6

pub init-IsWired : (b : Board) → IsWired (init b)
unfolding init pin_of
init-IsWired b = record {
  pins = cases_below 15 (λ i. ((init b).devices i).pin ≡ pin_of i) (ground arith);
  plain = cases_below 15 (λ i. i ≢ 6 → ((init b).devices i).device_extension ≡ none) (ground arith);
  click = refl;
  click_off = refl;
  extended = refl;
}

-- A device's pin is its own, and the off coil is at none of them.
pub pin_of_injective : (i j : ℕ) → i < 15 → j < 15 → pin_of i ≡ pin_of j → i ≡ j
unfolding pin_of
pin_of_injective i j hi hj e = ground arith

pub pin_of-ne-click_off : (i : ℕ) → pin_of i ≢ 26
unfolding pin_of
pin_of-ne-click_off i = ground arith

pub pin_of-ne-click_on : (i : ℕ) → i < 15 → i ≢ 6 → pin_of i ≢ 27
unfolding pin_of
pin_of-ne-click_on i below other = ground arith

-- Each plain relay is driven as its device's state says. Of the two coils of the click pump none
-- is energised at rest, and during a pulse the one for the pump's state alone.
pub record RelaysMatch (b : Board) : Type 0 where
  pub plain :
      (i : ℕ) → i < 15 → i ≢ 6 → level (pin_of i) b.trace ≡ some (relay (b.devices i).is_active)
  pub at_rest :
      is_true (b.extensions 0).is_hold ≡ false
      → (level 27 b.trace ≡ some relay_off) × (level 26 b.trace ≡ some relay_off)
  pub held :
      is_true (b.extensions 0).is_hold ≡ true
      → (level (if is_true (b.devices 6).is_active then 27 else 26) b.trace ≡ some relay_on)
        × (level (if is_true (b.devices 6).is_active then 26 else 27) b.trace ≡ some relay_off)

pub init-RelaysMatch : (b : Board) → RelaysMatch (init b)
unfolding init pin_of
init-RelaysMatch b = record {
  plain =
      cases_below 15
        (λ i. i ≢ 6 → level (pin_of i) (init b).trace ≡ some (relay ((init b).devices i).is_active))
        (ground arith);
  at_rest = λ rest. (refl, refl);
  held = λ held. cc;
}

pub toggle-IsWired : (b : Board) (i a : ℕ) → i < 15 → IsWired b → IsWired (toggle b i a)
unfolding toggle pulse
toggle-IsWired b i a below w = record {
  pins = λ j h. ground (arith, w.pins j h, w.pins i below);
  plain = λ j h other. ground (arith, w.plain j h other);
  click = ground (arith, w.click);
  click_off = ground (arith, w.click_off, w.click, w.plain i below);
  extended = w.extended;
}

-- What a toggle of a plain device does to the pins.
pub toggle_plain_trace :
    (b : Board) (i a : ℕ)
    → i < 15
    → i ≢ 6
    → IsWired b
    → ((toggle b i a).trace ≡ digital_write (pin_of i) (relay a) ∷ b.trace)
      × ((toggle b i a).extensions ≡ b.extensions)
unfolding toggle pulse
toggle_plain_trace b i a below other w = ground (arith, w.pins i below, w.plain i below other)

-- A toggle of the click pump.
toggle_click-RelaysMatch :
    (b : Board) (a : ℕ) → IsWired b → RelaysMatch b → RelaysMatch (toggle b 6 a)
unfolding toggle pulse pin_of
toggle_click-RelaysMatch b a w m = record {
  plain = λ j h ne. ground (
    arith,
    m.plain j h ne,
    w.pins 6 (omega arith),
    w.click,
    w.click_off,
    pin_of_injective 6 j (omega arith) h,
    pin_of-ne-click_off j,
  );
  at_rest = ground (arith, w.click);
  held = ground (arith, m.at_rest, m.held, w.pins 6 (omega arith), w.click, w.click_off);
}

pub toggle-RelaysMatch :
    (b : Board) (i a : ℕ) → i < 15 → IsWired b → RelaysMatch b → RelaysMatch (toggle b i a)
unfolding toggle
toggle-RelaysMatch b i a below w m = elim (ℕ_discrete i 6) [
  | yes click ↦
      subst (λ k. RelaysMatch (toggle b k a)) (sym click) (toggle_click-RelaysMatch b a w m)
  | no other ↦ record {
    plain = λ j h ne. ground (
      arith,
      toggle_plain_trace b i a below other w,
      m.plain j h ne,
      pin_of_injective i j below h,
    );
    at_rest = ground (
      arith,
      toggle_plain_trace b i a below other w,
      m.at_rest,
      pin_of-ne-click_on i below other,
      pin_of-ne-click_off i,
    );
    held = ground (
      arith,
      toggle_plain_trace b i a below other w,
      m.held,
      pin_of-ne-click_on i below other,
      pin_of-ne-click_off i,
    );
  }
]

-- The end of a pulse.
pub update-IsWired : (b : Board) → IsWired b → IsWired (update b)
unfolding update
update-IsWired b w = record {
  pins = λ i h. ground (arith, w.pins i h);
  plain = λ i h other. ground (arith, w.plain i h other);
  click = ground (arith, w.click);
  click_off = ground (arith, w.click_off);
  extended = ground (arith, w.extended);
}

pub update-RelaysMatch : (b : Board) → IsWired b → RelaysMatch b → RelaysMatch (update b)
unfolding update pin_of
update-RelaysMatch b w m = record {
  plain = λ i h other. ground (
    arith,
    m.plain i h other,
    w.pins 6 (omega arith),
    w.extended,
    w.click_off,
    pin_of_injective 6 i (omega arith) h,
    pin_of-ne-click_off i,
  );
  at_rest = ground (arith, m.at_rest, m.held, w.pins 6 (omega arith), w.extended, w.click_off);
  held = ground (arith, m.held);
}

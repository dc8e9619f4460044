-- ===== src/Device/Coils.antt =====
-- The two coils of the click pump through the history of the pins.
use blueberry_irrigation_sys.Base.{
  ℕ, ◌<◌, ◌≡◌, ◌≢◌, sym, subst, some, List, [], ◌∷◌, ℕ_discrete, arith,
}
use blueberry_irrigation_sys.World.{level, Effect, digital_write}
use blueberry_irrigation_sys.Device.{Board, relay, relay_on, toggle, pulse, update}
use blueberry_irrigation_sys.Device.Init.{init}
use blueberry_irrigation_sys.Device.Relays.{
  IsWired, RelaysMatch, toggle_plain_trace, pin_of, pin_of-ne-click_on, pin_of-ne-click_off,
}

-- The coil at a pin conducts.
abbrev pub IsOn : ℕ → List Effect → Type 0
IsOn pin trace = level pin trace ≡ some relay_on

-- At no moment of a history were both coils on.
abbrev pub NeverBoth : List Effect → Type 0
NeverBoth [] = Unit
NeverBoth (e ∷ trace) = ¬ (IsOn 27 (e ∷ trace) × IsOn 26 (e ∷ trace)) × NeverBoth trace

pub NeverBoth-last : (trace : List Effect) → NeverBoth trace → ¬ (IsOn 27 trace × IsOn 26 trace)
NeverBoth-last [] n (on, off) = cc
NeverBoth-last (e ∷ trace) n both = n.0 both

pub NeverBoth-write_other :
    (pin v : ℕ) (trace : List Effect)
    → pin ≢ 27
    → pin ≢ 26
    → NeverBoth trace
    → NeverBoth (digital_write pin v ∷ trace)
NeverBoth-write_other pin v trace h k n = (ground (arith, NeverBoth-last trace n), n)

pub init-NeverBoth : (b : Board) → NeverBoth b.trace → NeverBoth (init b).trace
unfolding init
init-NeverBoth b n = ground (arith, NeverBoth-last b.trace n)

toggle_click-NeverBoth :
    (b : Board) (a : ℕ)
    → IsWired b
    → RelaysMatch b
    → NeverBoth b.trace
    → NeverBoth (toggle b 6 a).trace
unfolding toggle pulse pin_of
toggle_click-NeverBoth b a w m n = ground (
  arith,
  m.at_rest,
  m.held,
  w.pins 6 (omega arith),
  w.click,
  w.click_off,
  NeverBoth-last b.trace n,
)

pub toggle-NeverBoth :
    (b : Board) (i a : ℕ)
    → i < 15
    → IsWired b
    → RelaysMatch b
    → NeverBoth b.trace
    → NeverBoth (toggle b i a).trace
toggle-NeverBoth b i a below w m n = elim (ℕ_discrete i 6) [
  | yes click ↦
      subst (λ k. NeverBoth (toggle b k a).trace) (sym click) (toggle_click-NeverBoth b a w m n)
  | no other ↦ rw (toggle_plain_trace b i a below other w).0 (
      NeverBoth-write_other (pin_of i) (relay a) b.trace (pin_of-ne-click_on i below other)
        (pin_of-ne-click_off i) n)
]

pub update-NeverBoth :
    (b : Board) → IsWired b → RelaysMatch b → NeverBoth b.trace → NeverBoth (update b).trace
unfolding update pin_of
update-NeverBoth b w m n = ground (
  arith,
  m.at_rest,
  m.held,
  w.pins 6 (omega arith),
  w.extended,
  w.click_off,
  NeverBoth-last b.trace n,
)

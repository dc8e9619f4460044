-- ===== src/World.antt =====
-- The board around the program (Arduino.h, which is not part of the repository): what its functions
-- return is a parameter, and what the program does to the pins is a trace.
use blueberry_irrigation_sys.Base.{
  ℕ, suc, Bool, true, false, List, [], ◌∷◌, Option, none, some, ◌==◌, if◌then◌else◌, u16, u32,
}

-- The arithmetic of `double`, which is a 32-bit float on this board, on values given by their bits.
pub record Float : Type 0 where
  pub of_ℕ : ℕ → ℕ
  pub div : ℕ → ℕ → ℕ
  pub mul : ℕ → ℕ → ℕ
  pub gt : ℕ → ℕ → Bool
  -- Towards zero, as a uint32_t.
  pub to_u32 : ℕ → ℕ

-- What the calls into the environment return: those that read a changing value take the number of
-- the call.
pub record Env : Type 0 where
  pub float : Float
  pub millis : ℕ → ℕ
  -- The call's number, then the pin.
  pub analog_read : ℕ → ℕ → ℕ
  -- `constrain(value, low, high)` of an int16_t, which is given by its bits.
  pub constrain : ℕ → ℕ → ℕ → ℕ
  -- `map(value, from_low, from_high, to_low, to_high)`
  pub map : ℕ → ℕ → ℕ → ℕ → ℕ → ℕ
  -- The interrupt number of a pin.
  pub digital_pin_to_interrupt : ℕ → ℕ

pub data PinMode : Type 0 where
  input input_pullup output : PinMode

pub data Effect : Type 0 where
  pin_mode : ℕ → PinMode → Effect
  digital_write : ℕ → ℕ → Effect
  attach_interrupt : ℕ → ℕ → Effect
  detach_interrupt : ℕ → Effect

pub record World : Type 0 where
  pub env : Env
  -- How many calls have read the environment.
  pub calls : ℕ
  -- The calls that act on it, the last one first.
  pub trace : List Effect

-- `millis()` as an unsigned long: the value, and the world after the call.
abbrev pub now : World → ℕ
now w = u32 (w.env.millis w.calls)

abbrev pub called : World → World
called w = record w { calls = suc w.calls }

-- `analogRead(pin)`, kept in a uint16_t.
abbrev pub analog_read : ℕ → World → ℕ
analog_read pin w = u16 (w.env.analog_read w.calls pin)

abbrev pub perform : Effect → World → World
perform e w = record w { trace = e ∷ w.trace }

-- `digitalWrite(pin, value)`
abbrev pub write : ℕ → ℕ → World → World
write pin value = perform (digital_write pin value)

-- The value last written to a pin, if there is one.
abbrev pub level : ℕ → List Effect → Option ℕ
level pin [] = none
level pin (digital_write p v ∷ trace) =
    let rest = level pin trace in if p == pin then some v else rest
level pin (pin_mode p m ∷ trace) = level pin trace
level pin (attach_interrupt p h ∷ trace) = level pin trace
level pin (detach_interrupt p ∷ trace) = level pin trace

-- Is an interrupt attached, by the last call that attached or detached it? That these calls turn it on
-- and off is what Arduino.h documents of them.
abbrev pub is_attached : ℕ → List Effect → Bool
is_attached n [] = false
is_attached n (attach_interrupt p h ∷ trace) =
    let rest = is_attached n trace in if p == n then true else rest
is_attached n (detach_interrupt p ∷ trace) =
    let rest = is_attached n trace in if p == n then false else rest
is_attached n (digital_write p v ∷ trace) = is_attached n trace
is_attached n (pin_mode p m ∷ trace) = is_attached n trace

-- ===== src/Device/Steps.antt =====
-- How the rest of the firmware changes the board: every module goes through `device_toggle` and
-- `device_update`, reads the environment, and writes to pins that are no relay's.
use blueberry_irrigation_sys.Base.{◌∙◌, ℕ, ◌≤◌, ◌<◌, ◌≡◌, refl, ◌⊎◌, List, ◌∷◌, arith}
use blueberry_irrigation_sys.World.{
  level, called, perform, Effect, digital_write, pin_mode, attach_interrupt, detach_interrupt,
}
use blueberry_irrigation_sys.Device.{Board, toggle, pulse, update, update_extension, on_world}
use blueberry_irrigation_sys.Device.Init.{init}
use blueberry_irrigation_sys.Device.Relays.{
  IsWired, RelaysMatch, init-IsWired, init-RelaysMatch, toggle-IsWired, toggle-RelaysMatch,
  update-IsWired, update-RelaysMatch, pin_of,
}
use blueberry_irrigation_sys.Device.Coils.{
  NeverBoth, init-NeverBoth, toggle-NeverBoth, update-NeverBoth, NeverBoth-last,
}

-- A call that writes to no relay's pin.
abbrev pub IsQuiet : Effect → Type 0
IsQuiet (digital_write pin value) = (pin < 22) ⊎ (37 < pin)
IsQuiet (pin_mode pin mode) = Unit
IsQuiet (attach_interrupt pin handler) = Unit
IsQuiet (detach_interrupt pin) = Unit

pub data Steps (b : Board) : Board → Type 0 where
  here : Steps b b
  toggled : {c : Board} → Steps b c → (i a : ℕ) → i < 15 → Steps b (toggle c i a)
  updated : {c : Board} → Steps b c → Steps b (update c)
  read : {c : Board} → Steps b c → Steps b (on_world called c)
  performed : {c : Board} → Steps b c → (e : Effect) → IsQuiet e → Steps b (on_world (perform e) c)

-- The wiring is the one that `device_init` set up, the relays follow the devices' states, and the
-- two coils of the click pump were never on together.
pub record IsSound (b : Board) : Type 0 where
  pub wired : IsWired b
  pub match : RelaysMatch b
  pub coils : NeverBoth b.trace

pub init-IsSound : (b : Board) → NeverBoth b.trace → IsSound (init b)
init-IsSound b n = record {
  wired = init-IsWired b;
  match = init-RelaysMatch b;
  coils = init-NeverBoth b n;
}

quiet-level :
    (e : Effect) (t : List Effect) (pin : ℕ)
    → 21 < pin
    → pin < 38
    → IsQuiet e
    → level pin (e ∷ t) ≡ level pin t
quiet-level (digital_write p v) t pin h k q = ground arith
quiet-level (pin_mode p m) t pin h k q = ground arith
quiet-level (attach_interrupt p f) t pin h k q = ground arith
quiet-level (detach_interrupt p) t pin h k q = ground arith

pin_of-range : (i : ℕ) → (21 < pin_of i) × (pin_of i < 38)
unfolding pin_of
pin_of-range i = ground arith

performed-RelaysMatch :
    (b : Board) (e : Effect) → IsQuiet e → RelaysMatch b → RelaysMatch (on_world (perform e) b)
performed-RelaysMatch b e q m = record {
  plain = λ i h other.
      quiet-level e b.trace (pin_of i) (pin_of-range i).0 (pin_of-range i).1 q ∙ m.plain i h other;
  at_rest = ground (arith, m.at_rest, quiet-level e b.trace 26, quiet-level e b.trace 27);
  held = ground (arith, m.held, quiet-level e b.trace 26, quiet-level e b.trace 27);
}

performed-NeverBoth : (e : Effect) (t : List Effect) → IsQuiet e → NeverBoth t → NeverBoth (e ∷ t)
performed-NeverBoth e t q n =
    (ground (arith, NeverBoth-last t n, quiet-level e t 26, quiet-level e t 27), n)

-- Every step that the firmware makes on the board keeps it sound: wired as `device_init` does, each
-- relay's pin as its device's state says, and the two coils of the click pump at no moment on
-- together. The steps are switches of the fifteen devices, `device_update`, readings of the
-- environment, and calls that write to no relay's pin, any number of them in any order.
pub Steps-IsSound : {b c : Board} → Steps b c → IsSound b → IsSound c
Steps-IsSound here s = s
Steps-IsSound (toggled {c = c} r i a h) s =
    let t : IsSound c = Steps-IsSound r s in
    record {
      wired = toggle-IsWired c i a h t.wired;
      match = toggle-RelaysMatch c i a h t.wired t.match;
      coils = toggle-NeverBoth c i a h t.wired t.match t.coils;
    }
Steps-IsSound (updated {c = c} r) s =
    let t : IsSound c = Steps-IsSound r s in
    record {
      wired = update-IsWired c t.wired;
      match = update-RelaysMatch c t.wired t.match;
      coils = update-NeverBoth c t.wired t.match t.coils;
    }
Steps-IsSound (read {c = c} r) s =
    let t : IsSound c = Steps-IsSound r s in
    record {
      wired = record {
        pins = t.wired.pins;
        plain = t.wired.plain;
        click = t.wired.click;
        click_off = t.wired.click_off;
        extended = t.wired.extended;
      };
      match = record { plain = t.match.plain; at_rest = t.match.at_rest; held = t.match.held };
      coils = t.coils;
    }
Steps-IsSound (performed {c = c} r e q) s =
    let t : IsSound c = Steps-IsSound r s in
    record {
      wired = record {
        pins = t.wired.pins;
        plain = t.wired.plain;
        click = t.wired.click;
        click_off = t.wired.click_off;
        extended = t.wired.extended;
      };
      match = performed-RelaysMatch c e q t.match;
      coils = performed-NeverBoth e c.trace q t.coils;
    }

pub Steps-trans : {b c d : Board} → Steps b c → Steps c d → Steps b d
Steps-trans r here = r
Steps-trans r (toggled s i a h) = toggled (Steps-trans r s) i a h
Steps-trans r (updated s) = updated (Steps-trans r s)
Steps-trans r (read s) = read (Steps-trans r s)
Steps-trans r (performed s e q) = performed (Steps-trans r s) e q

-- The environment stays the same, and its calls go on.
pub Steps-env : {b c : Board} → Steps b c → c.env ≡ b.env
unfolding toggle pulse update update_extension
Steps-env here = refl
Steps-env (toggled {c} r i a h) = ground (arith, Steps-env r)
Steps-env (updated {c} r) = ground (arith, Steps-env r)
Steps-env (read r) = Steps-env r
Steps-env (performed r e q) = Steps-env r

pub Steps-calls : {b c : Board} → Steps b c → b.calls ≤ c.calls
unfolding toggle pulse update update_extension
Steps-calls here = omega arith
Steps-calls (toggled {c} r i a h) = ground (arith, Steps-calls r)
Steps-calls (updated {c} r) = ground (arith, Steps-calls r)
Steps-calls (read r) = omega (arith, Steps-calls r)
Steps-calls (performed r e q) = Steps-calls r

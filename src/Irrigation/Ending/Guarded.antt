-- ===== src/Irrigation/Ending/Guarded.antt =====
-- What holds in every run holds through the rounds of the main loop, and what it says of a program that
-- has come to its end.
use blueberry_irrigation_sys.Base.{ℕ, ◌≡◌, refl, some, subst, List, arith}
use blueberry_irrigation_sys.World.{level}
use blueberry_irrigation_sys.Device.{relay_off}
use blueberry_irrigation_sys.Device.Relays.{pin_of}
use blueberry_irrigation_sys.Device.Steps.{here}
use blueberry_irrigation_sys.SensorFlow.{Pulses}
use blueberry_irrigation_sys.ControlFlow.{pulsed}
use blueberry_irrigation_sys.Irrigation.{Irrigation, finished, on_plant}
use blueberry_irrigation_sys.Irrigation.Power.{Needs}
use blueberry_irrigation_sys.Irrigation.Run.{
  Action, updates_devices, updates_sensor_flow, updates_sensor_pressure, updates_flows,
  updates_irrigation, act, IsGuarded, guard_plant, act-IsGuarded,
}
use blueberry_irrigation_sys.Irrigation.Ending.Others.{others}
use blueberry_irrigation_sys.Irrigation.Ending.Round.{round}

pulsed-IsGuarded :
    (pulses : List ℕ) (s : Irrigation) → IsGuarded s → IsGuarded (on_plant (pulsed pulses) s)
pulsed-IsGuarded pulses s g =
    guard_plant s (pulsed pulses s.plant) g
      (record { steps = here; device = λ j. refl; sensor = λ j. refl }) g.idle refl refl

-- Interrupts, and one step.
acted-IsGuarded :
    (pulses : List ℕ) (a : Action) (s : Irrigation)
    → IsGuarded s
    → IsGuarded (act a (on_plant (pulsed pulses) s))
acted-IsGuarded pulses a s g =
    act-IsGuarded a (on_plant (pulsed pulses) s) (pulsed-IsGuarded pulses s g)

pub round-IsGuarded : (pulses : Pulses) (s : Irrigation) → IsGuarded s → IsGuarded (round pulses s)
unfolding round others act
round-IsGuarded pulses s g = acted-IsGuarded (pulses 3) updates_flows _ (
    acted-IsGuarded (pulses 2) updates_sensor_pressure _ (
      acted-IsGuarded (pulses 1) updates_sensor_flow _
        (acted-IsGuarded (pulses 0) updates_devices _ (act-IsGuarded updates_irrigation s g))))

-- The relays of the generator and the well pump.
pub finished-off :
    (s : Irrigation)
    → IsGuarded s
    → s.status ≡ finished
    → (level (pin_of 0) s.trace ≡ some relay_off) × (level (pin_of 1) s.trace ≡ some relay_off)
unfolding pin_of
finished-off s g e =
    let off = subst (λ st. Needs st (s.devices 0).is_active (s.devices 1).is_active) e g.powered in
    let m = g.safe.sound.match in
    (
      ground (arith, m.plain 0 (omega arith) (λ z. omega arith), off.0),
      ground (arith, m.plain 1 (omega arith) (λ z. omega arith), off.1),
    )

-- ===== src/Irrigation/Ending.antt =====
-- How a program comes to its end: rounds of the main loop (arduino_client/src/main.cpp) in which no
-- command comes, as far as they change the plant and the irrigation.
pub mod Rank
pub mod Times
pub mod Clock
pub mod Turn
pub mod Others
pub mod Round
pub mod Guarded
use blueberry_irrigation_sys.Base.{
  some, Bool-cases, ltb, ℕ, zero, suc, ◌+◌, ◌-◌, ◌*◌, ◌^◌, ◌≤◌, ◌<◌, ◌≡◌, ◌≢◌, ◌⊎◌, inl, inr, refl,
  sym, subst, ap, ◌∙◌, u32, sub32, arith,
}
use native.Mathlib.Nat.{mul-le-mul_right}
use blueberry_irrigation_sys.World.{now, Env}
use blueberry_irrigation_sys.Device.Steps.{Steps, Steps-env, Steps-calls}
use blueberry_irrigation_sys.SensorFlow.{Pulses}
use blueberry_irrigation_sys.ControlFlow.{Plant}
use blueberry_irrigation_sys.ControlFlow.Wiring.{
  IsPlanned, Evolves, Evolves-trans, Evolves-IsPlanned,
}
use blueberry_irrigation_sys.Irrigation.{Irrigation, Status, finished, ticked, on_plant}
use blueberry_irrigation_sys.Irrigation.Evolution.Phases.{update-Moves}
use blueberry_irrigation_sys.Irrigation.Update.{update}
use blueberry_irrigation_sys.Irrigation.Ending.Others.{
  others, others-Within, others-Evolves, others-valve,
}
use blueberry_irrigation_sys.Irrigation.Ending.Rank.{rank, left}
use blueberry_irrigation_sys.Irrigation.Ending.Times.{IsTimed}
use blueberry_irrigation_sys.Irrigation.Ending.Turn.{
  Outcome, over, later, waits, since, wait, update-Outcome,
}
use blueberry_irrigation_sys.Irrigation.Ending.Clock.{IsClock, clock_between}
use blueberry_irrigation_sys.World.{level}
use blueberry_irrigation_sys.Device.{relay_off}
use blueberry_irrigation_sys.Device.Relays.{pin_of}
use blueberry_irrigation_sys.Irrigation.Run.{IsGuarded}
use blueberry_irrigation_sys.Irrigation.Ending.Guarded.{round-IsGuarded, finished-off}
use blueberry_irrigation_sys.Irrigation.Ending.Round.{
  round, IsUnderway, elapsed, Progress, done, nearer, waited, round-Progress,
}

-- Rounds, with the interrupts that come in each.
unfoldable pub rounds : (ℕ → Pulses) → ℕ → Irrigation → Irrigation
rounds pulses zero s = s
rounds pulses (suc n) s = rounds (λ k. pulses (suc k)) n (round (pulses 0) s)

-- After some number of rounds the irrigation is FINISHED.
abbrev Ends : Irrigation → Type 0
Ends s = (pulses : ℕ → Pulses) → (n : ℕ) × ((rounds pulses n s).status ≡ finished)

round_first :
    (pulses : ℕ → Pulses) (s : Irrigation)
    → Ends (round (pulses 0) s)
    → (n : ℕ) × ((rounds pulses n s).status ≡ finished)
unfolding rounds
round_first pulses s ends = let (n, e) = ends (λ k. pulses (suc k)) in (suc n, e)

module _ (gap : ℕ) (clock : ℕ → ℕ) (k : IsClock gap clock) where
  -- A wait that has `m` ms left at most, while the clock stands still: `d` more calls move it.
  standing :
      (r m : ℕ)
      → ((t : Irrigation) → IsUnderway gap clock t → rank t < r → Ends t)
      → ((n : ℕ)
          → n < m
          → (t : Irrigation) → IsUnderway gap clock t
          → rank t ≤ r
          → wait t ≤ elapsed clock t + n
          → Ends t)
      → (d : ℕ) (s : Irrigation) → IsUnderway gap clock s
      → rank s ≤ r
      → wait s ≤ elapsed clock s + m
      → clock s.calls < clock (s.calls + d)
      → Ends s
  standing r m phases shorter zero s u low near ahead pulses = absurd (ground (arith, ahead))
  standing r m phases shorter (suc d) s u low near ahead pulses =
      let t = round (pulses 0) s in
      round_first pulses s (elim (round-Progress gap clock (pulses 0) s k u) [
        | done e ↦ λ later. (0, unfold rounds in e)
        | nearer v fewer ↦ phases t v (omega (arith, fewer))
        | waited v same as_long early next sum ↦
            elim (Bool-cases (ltb (clock s.calls) (clock t.calls))) [
              | inl moved ↦
                  let grown : clock s.calls < clock t.calls = ground (arith, moved) in
                  shorter (m - 1) (omega (arith, early, near)) t v (omega (arith, same, low))
                    (omega (arith, as_long, sum, grown, near, early))
              | inr stands ↦
                  let level : clock t.calls ≤ clock s.calls = ground (arith, stands) in
                  let back =
                    clock_between gap clock s.calls t.calls t.calls k (omega (arith, next))
                      (omega arith) in
                  let reach =
                    clock_between gap clock (s.calls + suc d) (t.calls + d) t.calls k
                      (omega (arith, next)) (omega arith) in
                  standing r m phases shorter d t v (omega (arith, same, low))
                    (omega (arith, as_long, sum, level, back.0, near))
                    (omega (arith, level, reach.0, ahead))
            ]
      ])

  waiting :
      (r : ℕ)
      → ((t : Irrigation) → IsUnderway gap clock t → rank t < r → Ends t)
      → (m : ℕ) (s : Irrigation) → IsUnderway gap clock s
      → rank s ≤ r
      → wait s ≤ elapsed clock s + m
      → Ends s
  waiting r phases zero s u low near =
      let (d, ahead) = k.moves s.calls in
      standing r zero phases (λ n less. absurd (omega (arith, less))) d s u low near ahead
  waiting r phases (suc m) s u low near =
      let (d, ahead) = k.moves s.calls in
      standing r (suc m) phases
        (λ n less t v below close. waiting r phases m t v below (omega (arith, less, close))) d s u
        low near ahead

  ending : (r : ℕ) (s : Irrigation) → IsUnderway gap clock s → rank s ≤ r → Ends s
  ending zero s u low =
      waiting zero (λ t v below. absurd (omega (arith, below))) (wait s) s u low (omega arith)
  ending (suc r) s u low =
      waiting (suc r) (λ t v below. ending r t v (omega (arith, below))) (wait s) s u low
        (omega arith)

rounds-IsGuarded :
    (n : ℕ) (pulses : ℕ → Pulses) (s : Irrigation) → IsGuarded s → IsGuarded (rounds pulses n s)
unfolding rounds
rounds-IsGuarded zero pulses s g = g
rounds-IsGuarded (suc n) pulses s g =
    rounds-IsGuarded n (λ k. pulses (suc k)) (round (pulses 0) s) (round-IsGuarded (pulses 0) s g)

-- Every program comes to its end: after some number of rounds in which no command comes, the irrigation
-- is FINISHED and the relays of the generator and the well pump are off, whatever the sensors read and
-- whichever interrupts come in between. A round is the step of the irrigation and the steps of the
-- devices, the sensors and the flow control that follow it. What holds in every run from a reset holds of
-- the state, the program is one of the five, the clock never goes back, its readings are at most `gap` ms
-- apart, it does not stand still for ever, and each duration leaves room for a round of 62 readings
-- before the clock wraps.
pub rounds_end :
    (gap : ℕ) (pulses : ℕ → Pulses) (s : Irrigation)
    → IsClock gap s.env.millis
    → IsGuarded s
    → IsTimed (62 * gap) s
    → (n : ℕ) × ((rounds pulses n s).status ≡ finished)
      × (level (pin_of 0) (rounds pulses n s).trace ≡ some relay_off)
      × (level (pin_of 1) (rounds pulses n s).trace ≡ some relay_off)
rounds_end gap pulses s k g t =
    let (n, e) =
      ending gap s.env.millis k (rank s) s
        (record { env = refl; planned = g.safe.planned; timed = t }) (omega arith) pulses in
    let off = finished-off (rounds pulses n s) (rounds-IsGuarded n pulses s g) e in
    (n, e, off.0, off.1)

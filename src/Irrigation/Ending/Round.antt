-- ===== src/Irrigation/Ending/Round.antt =====
-- What a round of the main loop brings a program nearer to its end.
use blueberry_irrigation_sys.Base.{
  ℕ, suc, ◌+◌, ◌-◌, ◌*◌, ◌^◌, ◌≤◌, ◌<◌, ◌≡◌, refl, sym, subst, ap, ◌∙◌, u32, sub32, arith,
}
use blueberry_irrigation_sys.World.{now, Env}
use blueberry_irrigation_sys.Device.Steps.{Steps-env, Steps-calls}
use blueberry_irrigation_sys.SensorFlow.{Pulses}
use blueberry_irrigation_sys.ControlFlow.{Plant}
use blueberry_irrigation_sys.ControlFlow.Wiring.{
  IsPlanned, Evolves, Evolves-trans, Evolves-IsPlanned,
}
use blueberry_irrigation_sys.Irrigation.{Irrigation, finished, ticked, on_plant}
use blueberry_irrigation_sys.Irrigation.Evolution.Phases.{update-Moves}
use blueberry_irrigation_sys.Irrigation.Update.{update}
use blueberry_irrigation_sys.Irrigation.Ending.Others.{
  others, others-Within, others-Evolves, others-valve,
}
use blueberry_irrigation_sys.Irrigation.Ending.Rank.{rank, left}
use blueberry_irrigation_sys.Irrigation.Ending.Times.{IsTimed, plant-IsTimed}
use blueberry_irrigation_sys.Irrigation.Ending.Turn.{
  over, later, waits, since, wait, update-Outcome,
}
use blueberry_irrigation_sys.Irrigation.Ending.Clock.{IsClock, sub32_later, clock_between}

-- The step of the irrigation, and those up to its next one.
unfoldable pub round : Pulses → Irrigation → Irrigation
round pulses s = on_plant (others pulses) (update s)

-- What holds of the irrigation while a program comes to its end.
pub record IsUnderway (gap : ℕ) (clock : ℕ → ℕ) (s : Irrigation) : Type 0 where
  pub env : s.env.millis ≡ clock
  pub planned : IsPlanned s.plant
  pub timed : IsTimed (62 * gap) s

-- How long the status has lasted.
abbrev pub elapsed : (ℕ → ℕ) → Irrigation → ℕ
elapsed clock s = sub32 (u32 (clock s.calls)) (since s)

-- A round ends the program, or leads to a later phase, or the wait goes on.
pub data Progress (gap : ℕ) (clock : ℕ → ℕ) (s t : Irrigation) : Type 0 where
  done : t.status ≡ finished → Progress gap clock s t
  nearer : IsUnderway gap clock t → rank t < rank s → Progress gap clock s t
  waited :
      IsUnderway gap clock t
      → rank t ≡ rank s
      → wait t ≡ wait s
      → elapsed clock s < wait s
      → s.calls < t.calls
      → elapsed clock t + clock s.calls ≡ elapsed clock s + clock t.calls
      → Progress gap clock s t

others-rank :
    (pulses : Pulses) (s : Irrigation)
    → IsPlanned s.plant
    → rank (on_plant (others pulses) s) ≡ rank s
others-rank pulses s w =
    let a = others-valve 10 pulses s.plant (omega arith) (omega arith) w in
    let b = others-valve 11 pulses s.plant (omega arith) (omega arith) w in
    ap (λ x. left s.status s.program x ((others pulses s.plant).devices 11).is_active) a
    ∙ ap (left s.status s.program (s.devices 10).is_active) b

round-Evolves :
    (pulses : Pulses) (s : Irrigation) → IsPlanned s.plant → Evolves s.plant (round pulses s).plant
unfolding round
round-Evolves pulses s w =
    let e : Evolves s.plant (update s).plant = update-Moves s w in
    Evolves-trans s.plant (update s).plant (others pulses (update s).plant) e
      (others-Evolves pulses (update s).plant (Evolves-IsPlanned s.plant (update s).plant e w))

round-IsUnderway :
    (gap : ℕ) (clock : ℕ → ℕ) (pulses : Pulses) (s : Irrigation)
    → IsUnderway gap clock s
    → IsTimed (62 * gap) (update s)
    → IsUnderway gap clock (round pulses s)
round-IsUnderway gap clock pulses s u t =
    let e : Evolves s.plant (round pulses s).plant = round-Evolves pulses s u.planned in
    record {
      env = ap (λ (v : Env). v.millis) (Steps-env e.steps) ∙ u.env;
      planned = Evolves-IsPlanned s.plant (round pulses s).plant e u.planned;
      timed = unfold round in plant-IsTimed (62 * gap) (update s) _ t;
    }

wait-lt : (step : ℕ) (s : Irrigation) → IsTimed step s → wait s + step ≤ 2 ^ 32
wait-lt step s t = ground (arith, t.generator, t.program_duration, t.cleaning_duration)

since-lt : (step : ℕ) (s : Irrigation) → IsTimed step s → since s < 2 ^ 32
since-lt step s t = ground (arith, t.program_start, t.generator_start)

wait-plant : (s : Irrigation) (p : Plant) → wait (record s { plant = p }) ≡ wait s
wait-plant s p = ground arith

-- A wait that goes on is longer by the time of the round.
elapsed_later :
    (gap : ℕ) (clock : ℕ → ℕ) (s t : Irrigation)
    → IsClock gap clock
    → IsTimed (62 * gap) s
    → since t ≡ since s
    → s.calls ≤ t.calls
    → t.calls ≤ s.calls + 62
    → elapsed clock s < wait s
    → elapsed clock t + clock s.calls ≡ elapsed clock s + clock t.calls
elapsed_later gap clock s t k timed same low high early =
    let (forward, near) = clock_between gap clock s.calls t.calls 62 k low high in
    let d = clock t.calls - clock s.calls in
    let later : clock s.calls + d ≡ clock t.calls = omega arith in
    let go : sub32 (u32 (clock s.calls + d)) (since s) ≡ elapsed clock s + d =
      sub32_later (clock s.calls) d (since s) (since-lt (62 * gap) s timed)
        (omega (arith, wait-lt (62 * gap) s timed)) in
    let reached : elapsed clock t ≡ elapsed clock s + d =
      ap (λ x. sub32 (u32 (clock t.calls)) x) same
      ∙ ap (λ x. sub32 (u32 x) (since s)) (sym later)
      ∙ go in
    omega arith

waited-Progress :
    (gap : ℕ) (clock : ℕ → ℕ) (pulses : Pulses) (s : Irrigation)
    → IsClock gap clock
    → IsUnderway gap clock s
    → update s ≡ ticked s
    → sub32 (now s.world) (since s) < wait s
    → IsUnderway gap clock (on_plant (others pulses) (ticked s))
    → Progress gap clock s (on_plant (others pulses) (ticked s))
waited-Progress gap clock pulses s k u e early up =
    let p = (ticked s).plant in
    let t = on_plant (others pulses) (ticked s) in
    let planned : IsPlanned p = record { device = u.planned.device; sensor = u.planned.sensor } in
    let low : suc s.calls ≤ t.calls = Steps-calls (others-Evolves pulses p planned).steps in
    let few : t.calls ≤ suc s.calls + 61 = others-Within pulses p in
    let early' : elapsed clock s < wait s =
      subst (λ (m : ℕ → ℕ). sub32 (u32 (m s.calls)) (since s) < wait s) u.env early in
    waited up (others-rank pulses (ticked s) planned) (wait-plant s t.plant) early' low
      (elapsed_later gap clock s t k u.timed refl (omega arith) (omega arith) early')

pub round-Progress :
    (gap : ℕ) (clock : ℕ → ℕ) (pulses : Pulses) (s : Irrigation)
    → IsClock gap clock
    → IsUnderway gap clock s
    → Progress gap clock s (round pulses s)
unfolding round
round-Progress gap clock pulses s k u = elim (update-Outcome (62 * gap) s u.timed) [
  | over e ↦ done e
  | later fewer t ↦
      let planned : IsPlanned (update s).plant =
        Evolves-IsPlanned s.plant (update s).plant (update-Moves s u.planned) u.planned in
      nearer (round-IsUnderway gap clock pulses s u t)
        (omega (arith, fewer, others-rank pulses (update s) planned))
  | waits e early ↦
      let t : IsTimed (62 * gap) (update s) =
        subst (IsTimed (62 * gap)) (sym e) (plant-IsTimed (62 * gap) s _ u.timed) in
      let up : IsUnderway gap clock (on_plant (others pulses) (ticked s)) =
        subst (λ x. IsUnderway gap clock (on_plant (others pulses) x)) e
          (round-IsUnderway gap clock pulses s u t) in
      subst (λ x. Progress gap clock s (on_plant (others pulses) x)) (sym e)
        (waited-Progress gap clock pulses s k u e early up)
]

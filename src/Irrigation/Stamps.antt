-- ===== src/Irrigation/Stamps.antt =====
-- The clock readings that `start` of control_irrigation_temp.cpp stores.
use blueberry_irrigation_sys.Base.{
  ℕ, suc, ◌≤◌, ◌<◌, ◌≡◌, refl, ap, ◌∙◌, sym, subst, ◌/◌, u16, u32, arith,
}
use blueberry_irrigation_sys.World.{now, Env}
use blueberry_irrigation_sys.Device.Steps.{Steps-env, Steps-calls}
use blueberry_irrigation_sys.ControlFlow
use blueberry_irrigation_sys.ControlFlow.Wiring.{Evolves-refl}
use blueberry_irrigation_sys.ControlFlow.Evolution.{start-Evolves}
use blueberry_irrigation_sys.Irrigation.{
  Irrigation, Program, group_1, group_2, both, cleaning, garden, other, ready, ticked,
  toggle_device, on_plant, start, start_fuel, start_program, start_group, choose, prepare,
}
use blueberry_irrigation_sys.Irrigation.Evolution.{
  Moves, toggle-Moves, group_opened, group_opened-Moves,
}
use blueberry_irrigation_sys.Irrigation.Timing.{IsKnown}

-- The clock variable `since` was read on the way from `s` to `t`, as the last call that reads anything.
abbrev pub IsFresh : Irrigation → ℕ → Irrigation → Type 0
IsFresh s since t = (k : ℕ) × (s.calls ≤ k) × (t.calls ≡ suc k) × (since ≡ u32 (s.env.millis k))

pub now-IsFresh : (s u : Irrigation) → Moves s u → IsFresh s (now u.world) (ticked u)
now-IsFresh s u m = (
  u.calls,
  Steps-calls m.steps,
  refl,
  ap (λ (e : Env). u32 (e.millis u.calls)) (Steps-env m.steps),
)

pub IsFresh-Moves :
    (s u t : Irrigation) (since : ℕ) → Moves s u → IsFresh u since t → IsFresh s since t
IsFresh-Moves s u t since m (k, later, last, e) =
    let earlier : s.calls ≤ u.calls = Steps-calls m.steps in
    (
      k,
      omega (arith, later, earlier),
      last,
      e ∙ ap (λ (v : Env). u32 (v.millis k)) (Steps-env m.steps),
    )

pub IsFresh-ticked : (s t : Irrigation) (since : ℕ) → IsFresh (ticked s) since t → IsFresh s since t
IsFresh-ticked s t since (k, later, last, e) = (k, omega (arith, later), last, e)

start_group-IsFresh :
    (s : Irrigation) (valve : ℕ)
    → valve < 15
    → IsFresh s (start_group valve s).time_program_start (start_group valve s)
unfolding start_group
start_group-IsFresh s valve h = now-IsFresh s (group_opened valve s) (group_opened-Moves s valve h)

pub start_ready :
    (fuel : ℕ) (p : Program) (c : ℕ) (s : Irrigation)
    → s.status ≡ ready
    → start_fuel (suc fuel) p c s ≡ start_program (start_fuel fuel) p (choose p c s)
unfolding start_fuel
start_ready fuel p c s r =
    ap
      (λ st. elim st [
        | ready ↦ start_program (start_fuel fuel) p (choose p c s)
        | _ ↦ prepare (choose p c s)
      ])
      r

started_ready :
    (p : Program) (s : Irrigation)
    → IsKnown p
    → s.status ≡ ready
    → IsFresh s
        (start_program (start_fuel 1) p s).time_program_start
        (start_program (start_fuel 1) p s)
unfolding start_program
started_ready group_1 s k r = start_group-IsFresh s 10 (omega arith)
started_ready group_2 s k r = start_group-IsFresh s 11 (omega arith)
started_ready both s k r =
    let u = choose group_1 s.is_cleaning s in
    subst (λ t. IsFresh s t.time_program_start (record t { program = both }))
      (sym (start_ready 0 group_1 s.is_cleaning s r))
      (unfold choose in start_group-IsFresh u 10 (omega arith))
started_ready cleaning s k r =
    now-IsFresh s (toggle_device 12 1 s)
      (toggle-Moves s s 12 1 (omega arith) (Evolves-refl s.plant))
started_ready garden s k r =
    now-IsFresh s (on_plant (λ p. ControlFlow.start p 5 0 (u16 (s.time_program_duration / 1000))) s)
      (start-Evolves s.plant 5 0 _)
started_ready (other n) s k r = absurd (k n refl)

-- A known program that is started in READY gets the clock reading that its start ends with.
pub start-IsFresh :
    (p : Program) (c : ℕ) (s : Irrigation)
    → IsKnown p
    → s.status ≡ ready
    → IsFresh s (start p c s).time_program_start (start p c s)
unfolding start
start-IsFresh p c s k r =
    subst (λ t. IsFresh s t.time_program_start t) (sym (start_ready 1 p c s r))
      (unfold choose in started_ready p (choose p c s) k r)

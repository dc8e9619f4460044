-- ===== src/ControlFlow/Wiring.antt =====
-- Which device and which sensor each program of control_flow.cpp has, and how an operation may
-- change the plant: its board by steps of the device module, its programs but for their wiring.
use blueberry_irrigation_sys.Base.{ℕ, ◌<◌, ◌≡◌, ◌∙◌, refl, ◌==◌, if◌then◌else◌, cases_below, arith}
use blueberry_irrigation_sys.Device.Steps.{Steps, Steps-trans, IsSound, Steps-IsSound}
use blueberry_irrigation_sys.ControlFlow.{Plant, init}

abbrev pub device_of : ℕ → ℕ
device_of i =
    if i == 0
    then 1
    else if i == 1
    then 7
    else if i == 2
    then 8
    else if i == 3
    then 9
    else if i == 4
    then 6
    else 13

abbrev pub sensor_of : ℕ → ℕ
sensor_of i =
    if i == 0
    then 0
    else if i == 1
    then 1
    else if i == 2
    then 2
    else if i == 3
    then 3
    else if i == 4
    then 4
    else 0

-- The programs are wired as `control_flow_init` does.
pub record IsPlanned (p : Plant) : Type 0 where
  pub device : (i : ℕ) → i < 6 → (p.flows i).device ≡ device_of i
  pub sensor : (i : ℕ) → i < 6 → (p.flows i).sensor_flow ≡ sensor_of i

pub init-IsPlanned : (p : Plant) → IsPlanned (init p)
unfolding init
init-IsPlanned p = record {
  device = cases_below 6 (λ i. ((init p).flows i).device ≡ device_of i) (ground arith);
  sensor = cases_below 6 (λ i. ((init p).flows i).sensor_flow ≡ sensor_of i) (ground arith);
}

pub device-lt : (p : Plant) (i : ℕ) → IsPlanned p → i < 6 → (p.flows i).device < 15
device-lt p i w h = ground (arith, w.device i h)

pub record Evolves (p q : Plant) : Type 0 where
  pub steps : Steps p.board q.board
  pub device : (i : ℕ) → (q.flows i).device ≡ (p.flows i).device
  pub sensor : (i : ℕ) → (q.flows i).sensor_flow ≡ (p.flows i).sensor_flow

pub Evolves-refl : (p : Plant) → Evolves p p
Evolves-refl p = record { steps = Steps.here; device = λ i. refl; sensor = λ i. refl }

pub Evolves-trans : (p q r : Plant) → Evolves p q → Evolves q r → Evolves p r
Evolves-trans p q r e f = record {
  steps = Steps-trans e.steps f.steps;
  device = λ i. f.device i ∙ e.device i;
  sensor = λ i. f.sensor i ∙ e.sensor i;
}

pub Evolves-IsPlanned : (p q : Plant) → Evolves p q → IsPlanned p → IsPlanned q
Evolves-IsPlanned p q e w = record {
  device = λ i h. e.device i ∙ w.device i h;
  sensor = λ i h. e.sensor i ∙ w.sensor i h;
}

-- The plant is wired, and its relays are sound.
pub record IsSafe (p : Plant) : Type 0 where
  pub planned : IsPlanned p
  pub sound : IsSound p.board

pub Evolves-IsSafe : (p q : Plant) → Evolves p q → IsSafe p → IsSafe q
Evolves-IsSafe p q e s = record {
  planned = Evolves-IsPlanned p q e s.planned;
  sound = Steps-IsSound e.steps s.sound;
}

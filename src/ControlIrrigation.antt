-- ===== src/ControlIrrigation.antt =====
-- arduino_client/src/control_irrigation.cpp: the beginnings of a second scheme for the programs. Its
-- `init` and `update` are empty, and its `start` fills local variables only.
use blueberry_irrigation_sys.Base.{ℕ, ◌≡◌, refl, Array, set_at}
use blueberry_irrigation_sys.World.{World, now, called}

-- A local variable of the type `Control_irrigation`.
pub record ControlIrrigation : Type 0 where
  pub device : ℕ
  pub time_start : ℕ
  pub time_duration : ℕ
  pub time_repeat : ℕ
  pub is_repeating : ℕ
  pub is_active : ℕ
  pub is_paused : ℕ

-- The local variables of `control_irrigation_start`.
pub record Locals : Type 0 where
  pub cleaning : ControlIrrigation
  pub group_1 : ControlIrrigation
  pub group_2 : ControlIrrigation
  pub supplements : Array ControlIrrigation

-- Three assignments to a local variable.
abbrev pub plan : ℕ → ℕ → ℕ → ControlIrrigation → ControlIrrigation
plan device time_start time_duration x = record x {
  device = device;
  time_start = time_start;
  time_duration = time_duration;
}

abbrev pub plan_supplement : ℕ → ℕ → ℕ → ℕ → Array ControlIrrigation → Array ControlIrrigation
plan_supplement i device time_start time_duration xs =
    set_at xs i (plan device time_start time_duration (xs i))

-- `control_irrigation_start()`, from what the local variables happen to hold.
unfoldable pub start : World → Locals → World × Locals
start w x =
    let w1 = called w in
    let w2 = called w1 in
    let w3 = called w2 in
    let supplements_0 = plan_supplement 0 3 (now w3) 720 x.supplements in
    let time_start = (supplements_0 0).time_start in
    let supplements_1 = plan_supplement 1 7 time_start 720 supplements_0 in
    (
      called w3,
      record {
        cleaning = plan 12 (now w) 10 x.cleaning;
        group_1 = plan 10 (now w1) 900 x.group_1;
        group_2 = plan 11 (now w2) 900 x.group_2;
        supplements = plan_supplement 1 8 time_start 720 supplements_1;
      },
    )

-- A start writes to no pin. Of the three programs for supplements the third keeps what it happened
-- to hold: the second is written twice, and ends with the macro valve, device 8.
start_supplements_lem :
    (w : World) (x : Locals)
    → let (w', y) = start w x in
      (w'.trace ≡ w.trace)
      × (y.supplements 2 ≡ x.supplements 2)
      × ((y.supplements 1).device ≡ 8)
      × ((y.supplements 1).time_start ≡ (y.supplements 0).time_start)
unfolding start
start_supplements_lem w x = (refl, refl, refl, refl)

-- ===== src/SensorPressure/Scale.antt =====
-- From a reading of the converter to a pressure.
use blueberry_irrigation_sys.Base.{
  cases_below, ℕ, suc, ◌+◌, ◌*◌, ◌/◌, ◌^◌, ◌≤◌, ◌<◌, ◌≡◌, ap, ◌∙◌, sym, subst, ltb, leb,
  if◌then◌else◌, u16, u32, sub32_elapsed, arith,
}
use blueberry_irrigation_sys.World.{World, Env, called}
use blueberry_irrigation_sys.SensorPressure.{scale, PressureSensors, measure_all, update}

-- What Arduino.h documents of `constrain` and `map`, for a lower bound of 0 and for values that
-- are not negative and whose product is a `long`.
pub record IsArduino (env : Env) : Type 0 where
  pub constrain_positive :
      (value high : ℕ)
      → value < 32768
      → env.constrain value 0 high ≡ (if leb value high then value else high)
  pub constrain_negative :
      (value high : ℕ) → 32768 ≤ value → value < 65536 → env.constrain value 0 high ≡ 0
  pub map_lem :
      (value high to_high : ℕ)
      → value ≤ high
      → high * to_high < 2 ^ 31
      → env.map value 0 high 0 to_high ≡ value * to_high / high

-- The pressure that a reading of the 10-bit converter stands for.
abbrev pub pressure_of : ℕ → ℕ
pressure_of raw = raw * 120 / 1023

-- What the board makes of the 16 bits of a reading: one above the converter's range counts as 1023,
-- and one with the sign bit as 0.
abbrev pub converted : ℕ → ℕ
converted raw = if leb raw 1023 then pressure_of raw else if ltb raw 32768 then 120 else 0

scale_lem : (env : Env) (raw : ℕ) → IsArduino env → raw < 65536 → scale env raw ≡ converted raw
unfolding scale
scale_lem env raw laws h = ground (
  arith,
  laws.constrain_positive raw 1023,
  laws.constrain_negative raw 1023,
  laws.map_lem raw 1023 120,
  laws.map_lem 1023 1023 120,
  laws.map_lem 0 1023 120,
)

converted-le : (raw : ℕ) → converted raw ≤ 120
converted-le raw = ground arith

measured :
    (w : World) (s : PressureSensors) (i : ℕ)
    → i < 3
    → ((measure_all w s).1.sensors i).pressure
      ≡ scale w.env (u16 (w.env.analog_read (w.calls + 2 * i + 1) (s.sensors i).pin))
unfolding measure_all
measured w s i h =
    cases_below 3
      (λ k.
        ((measure_all w s).1.sensors k).pressure
        ≡ scale w.env (u16 (w.env.analog_read (w.calls + 2 * k + 1) (s.sensors k).pin)))
      (ground arith) i h

-- Where `constrain` and `map` do what Arduino.h documents, `sensor_pressure_update` leaves all as it
-- is until a second has passed on the true clock since its last measurement. The first call after it
-- sets each of the three pressures by the second reading of its pin, from 0..1023 to 0..120: a reading
-- above that range counts as 1023, and one with the sign bit as 0. The time of the measurement is that
-- call's last clock reading. The time since the last one fits into 32 bits.
pub update-pressure :
    (w : World) (s : PressureSensors) (i start elapsed : ℕ)
    → IsArduino w.env
    → i < 3
    → s.time_update_last ≡ u32 start
    → w.env.millis w.calls ≡ start + elapsed
    → elapsed < 2 ^ 32
    → (elapsed < 1000 → (update w s).1 ≡ s)
      × (1000 ≤ elapsed
          → (((update w s).1.sensors i).pressure
              ≡ converted (u16 (w.env.analog_read (w.calls + 2 * i + 2) (s.sensors i).pin)))
            × (((update w s).1.sensors i).pressure ≤ 120)
            × ((update w s).1.time_update_last ≡ u32 (w.env.millis (w.calls + 7))))
unfolding update
update-pressure w s i start elapsed laws h last clock fits =
    let since = sub32_elapsed start elapsed in
    let raw = u16 (w.env.analog_read (w.calls + 2 * i + 2) (s.sensors i).pin) in
    let place : suc w.calls + 2 * i + 1 ≡ w.calls + 2 * i + 2 = omega arith in
    let later : suc (suc (suc (suc (suc (suc (suc w.calls)))))) ≡ w.calls + 7 = omega arith in
    let due : 1000 ≤ elapsed → update w s ≡ measure_all (called w) s =
      λ late. ground (arith, since) in
    let read : ((measure_all (called w) s).1.sensors i).pressure ≡ converted raw =
      measured (called w) s i h
      ∙ ap (λ k. scale w.env (u16 (w.env.analog_read k (s.sensors i).pin))) place
      ∙ scale_lem w.env raw laws (omega arith) in
    (
      λ early. ground (arith, since),
      λ late. rw (due late) (
        read,
        subst (λ x. x ≤ 120) (sym read) (converted-le raw),
        unfold measure_all in ap (λ k. u32 (w.env.millis k)) later,
      ),
    )

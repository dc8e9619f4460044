-- ===== src/Irrigation/Ending/Clock.antt =====
-- The true clock, as the calls of `millis()` read it.
use blueberry_irrigation_sys.Base.{
  ℕ, zero, suc, ◌+◌, ◌-◌, ◌*◌, ◌^◌, ◌≤◌, ◌<◌, ◌≡◌, subst, u32, sub32, arith,
}
use native.Mathlib.Nat.{mul-le-mul_right}

-- A clock that never goes back, of which two readings are at most `gap` ms apart, and that does not
-- stand still for ever.
pub record IsClock (gap : ℕ) (clock : ℕ → ℕ) : Type 0 where
  pub forward : (c : ℕ) → clock c ≤ clock (suc c)
  pub near : (c : ℕ) → clock (suc c) ≤ clock c + gap
  pub moves : (c : ℕ) → (d : ℕ) × (clock c < clock (c + d))

clock-le :
    (gap : ℕ) (clock : ℕ → ℕ) (c n : ℕ)
    → IsClock gap clock
    → (clock c ≤ clock (c + n)) × (clock (c + n) ≤ clock c + n * gap)
clock-le gap clock c zero k = (ground arith, ground arith)
clock-le gap clock c (suc n) k =
    let (low, high) = clock-le gap clock c n k in
    (ground (arith, k.forward (c + n), low), ground (arith, k.near (c + n), high))

-- A later reading is later by as much, while the clock has not wrapped since the stamp.
pub sub32_later :
    (r d stamp : ℕ)
    → stamp < 2 ^ 32
    → sub32 (u32 r) stamp + d < 2 ^ 32
    → sub32 (u32 (r + d)) stamp ≡ sub32 (u32 r) stamp + d
sub32_later r d stamp fits below = omega arith

-- The clock goes on by at most `gap` ms with each of the calls.
pub clock_between :
    (gap : ℕ) (clock : ℕ → ℕ) (c c' n : ℕ)
    → IsClock gap clock
    → c ≤ c'
    → c' ≤ c + n
    → (clock c ≤ clock c') × (clock c' ≤ clock c + n * gap)
clock_between gap clock c c' n k low high =
    let (forward, near) = clock-le gap clock c (c' - c) k in
    let same : c + (c' - c) ≡ c' = omega arith in
    let few : (c' - c) * gap ≤ n * gap = mul-le-mul_right gap (omega arith) in
    subst (λ x. (clock c ≤ clock x) × (clock x ≤ clock c + n * gap)) same
      (forward, omega (arith, near, few))

-- ===== src/Base/Arrays.antt =====
-- Global arrays as functions of the index, lists, and counted loops.
use Prim.Native.Nat.{ℕ, zero, suc, ◌+◌, ◌<◌}
use mathlib.Core.Path.{sym, subst}
use native.Mathlib.Omega.{arith}
use native.Mathlib.Decide.{ℕ_discrete}
use mathlib.Core.List.{List, [], ◌∷◌}
use mathlib.Core.Option.{Option, none, some}
use blueberry_irrigation_sys.Base.Tests.{◌==◌, if◌then◌else◌}

-- An array that stands at a fixed place in memory. Where the index comes from outside, the code
-- that uses it compares it with the size.
abbrev pub Array {ℓ} : Type ℓ → Type ℓ
Array A = ℕ → A

-- `array[i] = a`
abbrev pub set_at {ℓ} : {A : Type ℓ} → Array A → ℕ → A → Array A
set_at array i a j = if j == i then a else array j

module _ {ℓ} {A : Type ℓ} where
  abbrev pub length : List A → ℕ
  length [] = 0
  length (x ∷ xs) = suc (length xs)

  abbrev pub get_elem? : List A → ℕ → Option A
  get_elem? [] i = none
  get_elem? (x ∷ xs) zero = some x
  get_elem? (x ∷ xs) (suc i) = get_elem? xs i

  abbrev pub take : ℕ → List A → List A
  take zero xs = []
  take (suc n) [] = []
  take (suc n) (x ∷ xs) = x ∷ take n xs

module _ {ℓ} {S : Type ℓ} where
  -- `for(i = first; ...; i++)` with `count` rounds.
  abbrev pub for_up : ℕ → ℕ → (ℕ → S → S) → S → S
  for_up zero first body s = s
  for_up (suc count) first body s = for_up count (first + 1) body (body first s)

  -- `for(i = count; i-- > 0; )`
  abbrev pub for_down : ℕ → (ℕ → S → S) → S → S
  for_down zero body s = s
  for_down (suc count) body s = for_down count body (body count s)

-- A statement about each index below a numeral, as a tuple.
abbrev pub AllBelow {ℓ} : ℕ → (ℕ → Type ℓ) → Type ℓ
AllBelow zero P = Unit
AllBelow (suc n) P = AllBelow n P × P n

pub cases_below {ℓ} : (n : ℕ) (P : ℕ → Type ℓ) → AllBelow n P → (i : ℕ) → i < n → P i
cases_below zero P all i below = elim below [ ]
cases_below (suc n) P all i below = elim (ℕ_discrete i n) [
  | yes last ↦ subst P (sym last) all.1
  | no other ↦ cases_below n P all.0 i (omega arith)
]

pub all_below {ℓ} : (n : ℕ) (P : ℕ → Type ℓ) → ((i : ℕ) → i < n → P i) → AllBelow n P
all_below zero P all = tt
all_below (suc n) P all = (all_below n P (λ i h. all i (omega arith)), all n (omega arith))

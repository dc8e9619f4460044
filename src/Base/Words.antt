-- ===== src/Base/Words.antt =====
-- Unsigned words of 8, 16 and 32 bits: the values wrap, and a difference is taken round the modulus.
use Prim.Native.Nat.{ℕ, ◌+◌, ◌-◌, ◌*◌, ◌/◌, ◌%◌, ◌^◌, ◌<◌}
use mathlib.Core.Path.{◌≡◌}
use native.Mathlib.Omega.{arith}

abbrev pub u8 : ℕ → ℕ
u8 n = n % 2 ^ 8

abbrev pub u16 : ℕ → ℕ
u16 n = n % 2 ^ 16

abbrev pub u32 : ℕ → ℕ
u32 n = n % 2 ^ 32

-- `a - b` on uint32_t.
abbrev pub sub32 : ℕ → ℕ → ℕ
sub32 a b = (a + 2 ^ 32 - b) % 2 ^ 32

-- The bytes of a word in memory, lowest first: `((uint8_t *)&word)[k]`.
abbrev pub byte_of : ℕ → ℕ → ℕ
byte_of word k = word / 2 ^ (8 * k) % 2 ^ 8

-- The word that four bytes in memory stand for.
abbrev pub word_of : ℕ → ℕ → ℕ → ℕ → ℕ
word_of b0 b1 b2 b3 = b0 + b1 * 2 ^ 8 + b2 * 2 ^ 16 + b3 * 2 ^ 24

pub word_of-byte_of :
    (word : ℕ)
    → word < 2 ^ 32
    → word_of (byte_of word 0) (byte_of word 1) (byte_of word 2) (byte_of word 3) ≡ word
word_of-byte_of word fits = omega arith

-- The difference of two clock readings is the time between them, also when the clock has wrapped.
pub sub32_elapsed :
    (start elapsed : ℕ) → elapsed < 2 ^ 32 → sub32 (u32 (start + elapsed)) (u32 start) ≡ elapsed
sub32_elapsed start elapsed fits = omega arith

-- The 16-bit word that two bytes in memory stand for.
abbrev pub half_of : ℕ → ℕ → ℕ
half_of b0 b1 = b0 + b1 * 2 ^ 8

pub half_of-byte_of : (half : ℕ) → half < 2 ^ 16 → half_of (byte_of half 0) (byte_of half 1) ≡ half
half_of-byte_of half fits = omega arith

-- `a - b` on uint8_t and on uint16_t.
abbrev pub sub8 : ℕ → ℕ → ℕ
sub8 a b = (a + 2 ^ 8 - b) % 2 ^ 8

abbrev pub sub16 : ℕ → ℕ → ℕ
sub16 a b = (a + 2 ^ 16 - b) % 2 ^ 16

-- The words that were sent byte by byte.
pub half_same :
    (half : ℕ) {b0 b1 : ℕ}
    → b0 ≡ u8 (byte_of half 0)
    → b1 ≡ u8 (byte_of half 1)
    → half_of b0 b1 ≡ u16 half
half_same half e0 e1 = omega arith

pub word_same :
    (word : ℕ) {b0 b1 b2 b3 : ℕ}
    → b0 ≡ u8 (byte_of word 0)
    → b1 ≡ u8 (byte_of word 1)
    → b2 ≡ u8 (byte_of word 2)
    → b3 ≡ u8 (byte_of word 3)
    → word_of b0 b1 b2 b3 ≡ u32 word
word_same word e0 e1 e2 e3 = omega arith

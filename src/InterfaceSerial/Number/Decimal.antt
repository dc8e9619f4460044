-- ===== src/InterfaceSerial/Number/Decimal.antt =====
-- The value of a number that is typed in.
use blueberry_irrigation_sys.Base.{
  ℕ, zero, suc, ◌+◌, ◌-◌, ◌*◌, ◌^◌, ◌<◌, ◌≡◌, refl, true, false, Array, set_at, for_up, u16, u32,
  cases_below, arith,
}
use blueberry_irrigation_sys.Firmware.{Firmware}
use blueberry_irrigation_sys.InterfaceSerial.Number.{
  on_serial, ask_read, is_digit, math_power, read_digits, add_digits, serial_number_read,
}

-- The number that the digits stand for, the first one first.
abbrev pub decimal : ℕ → Array ℕ → ℕ
decimal zero digits = 0
decimal (suc k) digits = decimal k digits * 10 + digits k

-- The next characters at the port are `k` digits, and then one that is no digit.
pub record AreTyped (m : Firmware) (k : ℕ) (digits : Array ℕ) : Type 0 where
  pub digit : (i : ℕ) → i < k → m.serial.port.read (m.serial.asked + i) ≡ 48 + digits i
  pub small : (i : ℕ) → i < k → digits i < 10
  pub stop : is_digit (m.serial.port.read (m.serial.asked + k)) ≡ false

-- Digits that were asked for.
abbrev asked_for : ℕ → Firmware → Firmware
asked_for n = on_serial (λ s. record s { asked = s.asked + n })

-- The digit at the place is the first one, and the others follow it.
later :
    (counter k : ℕ) (a c digits : Array ℕ) (x : ℕ)
    → ((i : ℕ) → i < suc counter → a i ≡ set_at c counter x i)
    → ((i : ℕ) → i < k → a (suc counter + i) ≡ digits (suc i))
    → x ≡ digits 0
    → (i : ℕ) → i < suc k
    → a (counter + i) ≡ digits i
later counter k a c digits x before after e zero h = ground (arith, before counter (omega arith), e)
later counter k a c digits x before after e (suc i) h = ground (arith, after i (omega arith))

read_digits_lem :
    (k room counter : ℕ) (c digits : Array ℕ) (m : Firmware)
    → k < room
    → ((i : ℕ) → i < k → m.serial.port.read (m.serial.asked + i) ≡ 48 + digits i)
    → ((i : ℕ) → i < k → digits i < 10)
    → is_digit (m.serial.port.read (m.serial.asked + k)) ≡ false
    → let (d, n, t) = read_digits room c counter m in
      ((i : ℕ) → i < counter → d i ≡ c i)
      × ((i : ℕ) → i < k → d (counter + i) ≡ digits i)
      × (n ≡ counter + k)
      × (t.serial.asked ≡ m.serial.asked + k + 1)
      × (t.serial.is_overrun ≡ m.serial.is_overrun)
unfolding read_digits
read_digits_lem k zero counter c digits m fits is small stop = absurd (omega arith)
read_digits_lem zero (suc room) counter c digits m fits is small stop =
    let e : is_digit (m.serial.port.read m.serial.asked) ≡ false = ground (arith, stop) in
    rw e (λ i h. refl, λ i h. absurd (omega arith), omega arith, omega arith, refl)
read_digits_lem (suc k) (suc room) counter c digits m fits is small stop =
    let (x, t) = ask_read m in
    let first : x ≡ 48 + digits 0 = ground (arith, is 0) in
    let e : is_digit x ≡ true = ground (arith, first, small 0) in
    let d =
      read_digits_lem k room (suc counter) (set_at c counter (x - 48)) (λ i. digits (suc i)) t
        (omega arith) (λ i h. ground (arith, is (suc i) (omega arith)))
        (λ i h. small (suc i) (omega arith)) (ground (arith, stop)) in
    rw e (
      λ i h. ground (arith, d.0 i (omega arith)),
      later _ k _ c digits (x - 48) d.0 d.1 (ground (arith, first)),
      ground (arith, d.2),
      ground (arith, d.3),
      d.4,
    )

-- A step of the second loop: a digit is put in front, at its place.
add_digit :
    (i : ℕ)
    → i < 9
    → (n x number : ℕ)
    → u16 (u16 (number + u32 (x * math_power 10 i)) + n * math_power 10 (suc i))
      ≡ u16 (number + (n * 10 + x) * math_power 10 i)
unfolding math_power
add_digit = cases_below 9 _ (ground arith)

-- The digits that are left are added to the number so far.
add_digits_below :
    (n i k : ℕ) (c : Array ℕ) (number : ℕ)
    → k ≡ n + i
    → k < 10
    → number < 2 ^ 16
    → for_up n i (λ j sum. u16 (sum + u32 (c (k - j - 1) * math_power 10 j))) number
      ≡ u16 (number + decimal n c * math_power 10 i)
add_digits_below zero i k c number split high fits = ground arith
add_digits_below (suc n) i k c number split high fits =
    let e : k - i - 1 ≡ n = omega arith in
    let sum = u16 (number + u32 (c (k - i - 1) * math_power 10 i)) in
    let rest = add_digits_below n (suc i) k c sum (omega arith) high (omega arith) in
    ground (arith, rest, add_digit i (omega arith) (decimal n c) (c n) number, e)

add_digits_lem : (k : ℕ) (c : Array ℕ) → k < 10 → add_digits c k ≡ u16 (decimal k c)
unfolding add_digits math_power
add_digits_lem k c h =
    let d = add_digits_below k 0 k c 0 (omega arith) h (omega arith) in ground (arith, d)

decimal_eq :
    (k : ℕ) (c digits : Array ℕ)
    → ((i : ℕ) → i < k → c i ≡ digits i)
    → decimal k c ≡ decimal k digits
decimal_eq zero c digits same = refl
decimal_eq (suc k) c digits same =
    ground (arith, same k (omega arith), decimal_eq k c digits (λ i h. same i (omega arith)))

-- Up to nine digits are read as the number that they stand for, round the 16 bits of the result, and
-- the character behind them is taken as well. Nothing is stored past the end of the array.
pub serial_number_read-decimal :
    (m : Firmware) (k : ℕ) (digits : Array ℕ)
    → k < 10
    → AreTyped m k digits
    → let (number, t) = serial_number_read m in
      (number ≡ u16 (decimal k digits))
      × (t.serial.asked ≡ m.serial.asked + k + 1)
      × (t.serial.is_overrun ≡ m.serial.is_overrun)
unfolding serial_number_read
serial_number_read-decimal m k digits h typed =
    let d = read_digits_lem k 10 0 (λ i. 0) digits m h typed.digit typed.small typed.stop in
    let (c, n, t) = read_digits 10 (λ i. 0) 0 m in
    (
      ground (
        arith,
        d.2,
        add_digits_lem k c h,
        decimal_eq k c digits (λ i below. ground (arith, d.1 i below)),
      ),
      d.3,
      d.4,
    )

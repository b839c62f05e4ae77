-- ===== src/Misc/Decimal.antt =====
-- What the decimal printers of src/include/nxweb/misc.h write.
use native.Mathlib.Nat.{pow-suc}
use nxweb.Base.{
  refl, if◌then◌else◌, true, false, ◌==◌, leb, ◌&&◌, All, ℕ, zero, suc, ◌+◌, ◌-◌, ◌*◌, ◌/◌, ◌%◌,
  ◌^◌, ◌<◌, ◌≤◌, ◌≡◌, [], ◌∷◌, Bytes, length, arith, ap, sym, ◌∙◌,
}
use nxweb.Misc.{
  decimal_loop, decimal_pad_loop, uint_to_decimal_string, uint_to_decimal_string_zeropad,
}

-- The number that decimal digits spell, behind `n`.
unfoldable pub decimal_number : ℕ → Bytes → ℕ
decimal_number n [] = n
decimal_number n (c ∷ s) = decimal_number (n * 10 + (c - b'0')) s

decimal_join : (n : ℕ) → n / 10 * 10 + (n % 10 + b'0' - b'0') ≡ n
decimal_join n = omega arith

decimal_number_zero : (n : ℕ) (p : Bytes) → n ≡ 0 → decimal_number 0 p ≡ decimal_number n p
decimal_number_zero n p e = ap (λ t. decimal_number t p) (sym e)

decimal_number-decimal_loop :
    (fuel n : ℕ) (p : Bytes)
    → n ≤ fuel
    → decimal_number 0 (decimal_loop fuel n p) ≡ decimal_number n p
unfolding decimal_loop decimal_number
decimal_number-decimal_loop zero n p h = ap (λ t. decimal_number t p) (omega arith)
decimal_number-decimal_loop (suc fuel) n p h =
    let r = decimal_number-decimal_loop fuel (n / 10) ((n % 10 + b'0') ∷ p) (omega (arith, h)) in
    let q = ap (λ t. decimal_number t p) (decimal_join n) in
    let z = decimal_number_zero n p in ground (arith, r, q, z)

-- A number is read back from its decimal print.
pub decimal_number-uint_to_decimal_string :
    (n : ℕ) → decimal_number 0 (uint_to_decimal_string n) ≡ n
unfolding uint_to_decimal_string decimal_number
decimal_number-uint_to_decimal_string n =
    let e = decimal_number-decimal_loop n n [] (omega arith) in ground (arith, e)

length-decimal_loop :
    (fuel k n : ℕ) (p : Bytes) → n < 10 ^ k → length (decimal_loop fuel n p) ≤ k + length p
unfolding decimal_loop
length-decimal_loop zero k n p h = omega arith
length-decimal_loop (suc fuel) zero n p h = ground arith
length-decimal_loop (suc fuel) (suc k) n p h =
    let r =
      length-decimal_loop fuel k (n / 10) ((n % 10 + b'0') ∷ p) (omega (arith, h, pow-suc 10 k)) in
    ground (arith, r)

length-decimal_loop_least :
    (fuel n : ℕ) (p : Bytes)
    → (length p ≤ length (decimal_loop fuel n p))
      × (0 < n → n ≤ fuel → length p < length (decimal_loop fuel n p))
unfolding decimal_loop
length-decimal_loop_least zero n p = (omega arith, λ a b. omega (arith, a, b))
length-decimal_loop_least (suc fuel) n p =
    let (r, _) = length-decimal_loop_least fuel (n / 10) ((n % 10 + b'0') ∷ p) in
    (ground (arith, r), λ a b. ground (arith, a, r))

-- The print of a 64-bit number has between one and twenty digits.
pub length-uint_to_decimal_string :
    (n : ℕ)
    → n < 2 ^ 64
    → (0 < length (uint_to_decimal_string n)) × (length (uint_to_decimal_string n) ≤ 20)
unfolding uint_to_decimal_string
length-uint_to_decimal_string n h =
    let r = length-decimal_loop n 20 n [] (omega (arith, h)) in
    let l = length-decimal_loop_least n n [] in (ground (arith, l), ground (arith, r))

decimal_number-decimal_pad_loop :
    (k n : ℕ) (p : Bytes) (m : ℕ)
    → n < 10 ^ k
    → decimal_number m (decimal_pad_loop k n p) ≡ decimal_number (m * 10 ^ k + n) p
unfolding decimal_pad_loop decimal_number
decimal_number-decimal_pad_loop zero n p m h = ap (λ t. decimal_number t p) (omega arith)
decimal_number-decimal_pad_loop (suc k) n p m h =
    decimal_number-decimal_pad_loop k (n / 10) ((n % 10 + b'0') ∷ p) m (omega (arith, pow-suc 10 k))
    ∙ ap (λ t. decimal_number t p) (omega (arith, ap (λ t. m * t) (pow-suc 10 k)))

length-decimal_pad_loop : (k n : ℕ) (p : Bytes) → length (decimal_pad_loop k n p) ≡ k + length p
unfolding decimal_pad_loop
length-decimal_pad_loop zero n p = omega arith
length-decimal_pad_loop (suc k) n p =
    omega (arith, length-decimal_pad_loop k (n / 10) ((n % 10 + b'0') ∷ p))

-- A number that fits `num_digits` digits is printed with exactly so many, and read back.
pub decimal_number-uint_to_decimal_string_zeropad :
    (n num_digits : ℕ)
    → n < 10 ^ num_digits
    → (length (uint_to_decimal_string_zeropad n num_digits) ≡ num_digits)
      × (decimal_number 0 (uint_to_decimal_string_zeropad n num_digits) ≡ n)
unfolding uint_to_decimal_string_zeropad decimal_number
decimal_number-uint_to_decimal_string_zeropad n k h = (
  omega (arith, length-decimal_pad_loop k n []),
  decimal_number-decimal_pad_loop k n [] 0 h ∙ omega arith,
)

-- The characters of a printed number.
abbrev pub IsDigits : Bytes → Type 0
IsDigits = All (λ c. (leb b'0' c && leb c b'9') ≡ true)

digit_of_remainder : (n : ℕ) → (leb b'0' (n % 10 + b'0') && leb (n % 10 + b'0') b'9') ≡ true
digit_of_remainder n = ground arith

decimal_loop-IsDigits : (fuel n : ℕ) (p : Bytes) → IsDigits p → IsDigits (decimal_loop fuel n p)
unfolding decimal_loop
decimal_loop-IsDigits zero n p h = h
decimal_loop-IsDigits (suc fuel) n p h =
    let r = decimal_loop-IsDigits fuel (n / 10) ((n % 10 + b'0') ∷ p) (digit_of_remainder n, h) in
    (elim (n == 0)
      as (λ b. IsDigits (if b then p else decimal_loop fuel (n / 10) ((n % 10 + b'0') ∷ p))) [
        | true ↦ h
        | false ↦ r
      ])

decimal_pad_loop-IsDigits : (k n : ℕ) (p : Bytes) → IsDigits p → IsDigits (decimal_pad_loop k n p)
unfolding decimal_pad_loop
decimal_pad_loop-IsDigits zero n p h = h
decimal_pad_loop-IsDigits (suc k) n p h =
    decimal_pad_loop-IsDigits k (n / 10) ((n % 10 + b'0') ∷ p) (digit_of_remainder n, h)

zero_digit : (leb b'0' b'0' && leb b'0' b'9') ≡ true
zero_digit = refl

pub uint_to_decimal_string-IsDigits : (n : ℕ) → IsDigits (uint_to_decimal_string n)
unfolding uint_to_decimal_string
uint_to_decimal_string-IsDigits n =
    elim (n == 0) as (λ b. IsDigits (if b then b'0' ∷ [] else decimal_loop n n [])) [
      | true ↦ (zero_digit, _)
      | false ↦ decimal_loop-IsDigits n n [] _
    ]

pub uint_to_decimal_string_zeropad-IsDigits :
    (n k : ℕ) → IsDigits (uint_to_decimal_string_zeropad n k)
unfolding uint_to_decimal_string_zeropad
uint_to_decimal_string_zeropad-IsDigits n k = decimal_pad_loop-IsDigits k n [] _

-- A number below a power of ten has no more digits than its exponent.
pub length-uint_to_decimal_string_within :
    (n k : ℕ) → n < 10 ^ k → 0 < k → length (uint_to_decimal_string n) ≤ k
unfolding uint_to_decimal_string
length-uint_to_decimal_string_within n k h p =
    let r = length-decimal_loop n k n [] h in ground (arith, r)

pub length-uint_to_decimal_string_zeropad :
    (n k : ℕ) → length (uint_to_decimal_string_zeropad n k) ≡ k
unfolding uint_to_decimal_string_zeropad
length-uint_to_decimal_string_zeropad n k = omega (arith, length-decimal_pad_loop k n [])

-- A digit is no blank.
pub digits_ink : (v : Bytes) → IsDigits v → All (λ c. 32 < c) v
digits_ink [] h = tt
digits_ink (c ∷ v) (h, hs) = (ground (arith, h), digits_ink v hs)

-- ===== src/Misc/Hex.antt =====
-- What the hexadecimal printer of src/include/nxweb/misc.h writes, digit by digit.
use nxweb.Base.{
  ℕ, zero, suc, ◌+◌, ◌-◌, ◌*◌, ◌/◌, ◌%◌, ◌^◌, ◌<◌, ◌≡◌, [], ◌∷◌, Bytes, leb, if◌then◌else◌, arith,
  ap, ◌∙◌, All,
}
use native.Mathlib.Nat.{pow-suc}
use nxweb.Misc.{hex_digit, hex_loop, uint_to_hex_string_zeropad}

-- The value of an upper-case hexadecimal digit.
abbrev pub hex_value : ℕ → ℕ
hex_value c = if leb c b'9' then c - b'0' else c - b'A' + 10

-- The number that hexadecimal digits spell, behind `n`.
pub hex_number : ℕ → Bytes → ℕ
hex_number n [] = n
hex_number n (c ∷ s) = hex_number (n * 16 + hex_value c) s

hex_value-hex_digit : (n : ℕ) → hex_value (hex_digit n) ≡ n % 16
unfolding hex_digit
hex_value-hex_digit n = ground arith

hex_number-hex_loop :
    (k n : ℕ) (p : Bytes) (m : ℕ)
    → n < 16 ^ k
    → hex_number m (hex_loop k n p) ≡ hex_number (m * 16 ^ k + n) p
unfolding hex_loop hex_number
hex_number-hex_loop zero n p m h = ap (λ t. hex_number t p) (omega arith)
hex_number-hex_loop (suc k) n p m h =
    hex_number-hex_loop k (n / 16) (hex_digit n ∷ p) m (omega (arith, pow-suc 16 k))
    ∙ ap (λ t. hex_number t p)
        (omega (arith, hex_value-hex_digit n, ap (λ t. m * t) (pow-suc 16 k)))

-- A number that fits `num_digits` hexadecimal digits is read back from its print.
pub hex_number-uint_to_hex_string_zeropad :
    (n num_digits : ℕ)
    → n < 16 ^ num_digits
    → hex_number 0 (uint_to_hex_string_zeropad n num_digits) ≡ n
unfolding uint_to_hex_string_zeropad hex_number
hex_number-uint_to_hex_string_zeropad n k h = hex_number-hex_loop k n [] 0 h ∙ omega arith

hex_digit_ink : (n : ℕ) → 32 < hex_digit n
unfolding hex_digit
hex_digit_ink n = ground arith

hex_loop_ink : (k n : ℕ) (p : Bytes) → All (λ c. 32 < c) p → All (λ c. 32 < c) (hex_loop k n p)
unfolding hex_loop
hex_loop_ink zero n p h = h
hex_loop_ink (suc k) n p h = hex_loop_ink k (n / 16) (hex_digit n ∷ p) (hex_digit_ink n, h)

pub uint_to_hex_string_zeropad_ink : (n k : ℕ) → All (λ c. 32 < c) (uint_to_hex_string_zeropad n k)
unfolding uint_to_hex_string_zeropad
uint_to_hex_string_zeropad_ink n k = hex_loop_ink k n [] tt

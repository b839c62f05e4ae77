-- ===== src/Misc.antt =====
-- The number printers of src/include/nxweb/misc.h and `nxweb_trunc_space` of src/lib/misc.c.
-- A printer fills its buffer from the end, so the digits stand in a list that grows at its head.
pub mod Hex
pub mod Decimal
pub mod Trim
mod Tests
use nxweb.Base.{
  ℕ, zero, suc, ◌+◌, ◌-◌, ◌*◌, ◌/◌, ◌%◌, ◌≤◌, Bool, true, false, ◌&&◌, List, [], ◌∷◌, ◌++◌, Bytes,
  ltb, leb, ◌==◌, if◌then◌else◌, length, arith,
}

-- `HEX_DIGIT`
unfoldable pub hex_digit : ℕ → ℕ
hex_digit n = let d = n % 16 in if ltb d 10 then d + b'0' else d - 10 + b'A'

-- `while (num_digits--) { *--p = HEX_DIGIT(n); n >>= 4; }`
hex_loop : ℕ → ℕ → Bytes → Bytes
hex_loop zero n p = p
hex_loop (suc num_digits) n p = hex_loop num_digits (n / 16) (hex_digit n ∷ p)

-- The bytes that `uint_to_hex_string_zeropad` (and its 64-bit twin) writes at `buf`.
unfoldable pub uint_to_hex_string_zeropad : ℕ → ℕ → Bytes
unfolding hex_loop
uint_to_hex_string_zeropad n num_digits = hex_loop num_digits n []

-- `while (num_digits--) { *--p = n % 10 + '0'; n = n / 10; }`
decimal_pad_loop : ℕ → ℕ → Bytes → Bytes
decimal_pad_loop zero n p = p
decimal_pad_loop (suc num_digits) n p = decimal_pad_loop num_digits (n / 10) ((n % 10 + b'0') ∷ p)

-- The bytes that `uint_to_decimal_string_zeropad` writes at `buf`.
unfoldable pub uint_to_decimal_string_zeropad : ℕ → ℕ → Bytes
unfolding decimal_pad_loop
uint_to_decimal_string_zeropad n num_digits = decimal_pad_loop num_digits n []

-- `while (n) { *--p = n % 10 + '0'; n = n / 10; }`, on fuel
decimal_loop : ℕ → ℕ → Bytes → Bytes
decimal_loop zero n p = p
decimal_loop (suc fuel) n p =
    let rest = decimal_loop fuel (n / 10) ((n % 10 + b'0') ∷ p) in if n == 0 then p else rest

-- The C string that `uint_to_decimal_string` returns. Each round divides `n` by ten: `n` rounds
-- are enough.
unfoldable pub uint_to_decimal_string : ℕ → Bytes
unfolding decimal_loop
uint_to_decimal_string n = if n == 0 then b'0' ∷ [] else decimal_loop n n []

-- `while (*p && *p <= ' ') p++`; the NUL is the end of the list.
unfoldable pub skip_space : Bytes → Bytes
skip_space [] = []
skip_space (c ∷ s) = if leb c b' ' then skip_space s else c ∷ s

-- A blank goes if nothing is left behind it.
keep_before : ℕ → Bytes → Bytes
keep_before c [] = if leb c b' ' then [] else c ∷ []
keep_before c (x ∷ s) = c ∷ x ∷ s

-- `while (*--p <= ' ') *p = '\0'`: what is left in front of the blanks at the end.
cut_space : Bytes → Bytes
cut_space [] = []
cut_space (c ∷ s) = keep_before c (cut_space s)

-- The C string that `nxweb_trunc_space` returns.
unfoldable pub trunc_space : Bytes → Bytes
unfolding skip_space cut_space keep_before
trunc_space str = cut_space (skip_space str)

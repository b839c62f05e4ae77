-- ===== src/HttpTime/Length.antt =====
-- How long the times of src/lib/http_utils.c are.
use nxweb.Base.{ℕ, suc, ◌+◌, ◌≡◌, ◌∷◌, ◌++◌, Bytes, length, length-append, arith, []}
use nxweb.Misc.{uint_to_decimal_string_zeropad}
use nxweb.Misc.Decimal.{length-uint_to_decimal_string_zeropad}
use nxweb.HttpTime.{Tm, format_clock, format_iso8601_time}

length-pad :
    (n k c : ℕ) (t : Bytes)
    → length (uint_to_decimal_string_zeropad n k ++ c ∷ t) ≡ k + suc (length t)
length-pad n k c t = omega (
  arith,
  length-append (uint_to_decimal_string_zeropad n k) (c ∷ t),
  length-uint_to_decimal_string_zeropad n k,
)

length-format_clock : (tm : Tm) (t : Bytes) → length (format_clock tm t) ≡ 8 + length t
unfolding format_clock
length-format_clock tm t =
    let s2 = uint_to_decimal_string_zeropad tm.sec 2 ++ t in
    let s1 = uint_to_decimal_string_zeropad tm.minute 2 ++ b':' ∷ s2 in
    omega (
      arith,
      length-pad tm.hour 2 b':' s1,
      length-pad tm.minute 2 b':' s2,
      length-append (uint_to_decimal_string_zeropad tm.sec 2) t,
      length-uint_to_decimal_string_zeropad tm.sec 2,
    )

-- A time is printed in ISO 8601 form with just 19 characters, whatever its fields: the assertion at
-- the end of the printer never fails.
pub length-format_iso8601_time : (tm : Tm) → length (format_iso8601_time tm) ≡ 19
unfolding format_iso8601_time
length-format_iso8601_time tm =
    let s2 = uint_to_decimal_string_zeropad tm.mday 2 ++ b'T' ∷ format_clock tm [] in
    let s1 = uint_to_decimal_string_zeropad (tm.mon + 1) 2 ++ b'-' ∷ s2 in
    omega (
      arith,
      length-pad (tm.year + 1900) 4 b'-' s1,
      length-pad (tm.mon + 1) 2 b'-' s2,
      length-pad tm.mday 2 b'T' (format_clock tm []),
      length-format_clock tm [],
    )

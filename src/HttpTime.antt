-- ===== src/HttpTime.antt =====
-- The times of src/lib/http_utils.c: `nxweb_format_http_time`, `nxweb_format_iso8601_time` and
-- `nxweb_parse_http_time`. A C string is the list of the bytes before its NUL.
pub mod Number
pub mod RoundTrip
pub mod Range
pub mod Length
mod Tests
use nxweb.Base.{
  ℕ, zero, suc, ◌+◌, ◌-◌, ◌*◌, ◌%◌, ◌^◌, ◌≤◌, Bool, true, false, not, ◌&&◌, ◌||◌, Option, none,
  some, ◌>>=◌, List, [], ◌∷◌, ◌++◌, Bytes, codes, leb, ltb, ◌==◌, if◌then◌else◌, length, take, drop,
  get_or, min,
}
use nxweb.Misc.{uint_to_decimal_string, uint_to_decimal_string_zeropad}

-- The fields of `struct tm` that are read or set; `year` counts from 1900.
pub record Tm : Type 0 where
  pub wday : ℕ
  pub mday : ℕ
  pub mon : ℕ
  pub year : ℕ
  pub hour : ℕ
  pub minute : ℕ
  pub sec : ℕ

abbrev pub week_days : List Bytes
week_days =
    codes "Sun"
    ∷ codes "Mon"
    ∷ codes "Tue"
    ∷ codes "Wed"
    ∷ codes "Thu"
    ∷ codes "Fri"
    ∷ codes "Sat"
    ∷ []

abbrev pub months : List Bytes
months =
    codes "Jan"
    ∷ codes "Feb"
    ∷ codes "Mar"
    ∷ codes "Apr"
    ∷ codes "May"
    ∷ codes "Jun"
    ∷ codes "Jul"
    ∷ codes "Aug"
    ∷ codes "Sep"
    ∷ codes "Oct"
    ∷ codes "Nov"
    ∷ codes "Dec"
    ∷ []

-- `WEEK_DAY[wday]` and `MONTH[mon]`, which the caller keeps in range.
unfoldable pub week_day : ℕ → Bytes
week_day w = get_or week_days w []

unfoldable pub month_name : ℕ → Bytes
month_name m = get_or months m []

-- The hours, minutes and seconds, and what follows.
unfoldable pub format_clock : Tm → Bytes → Bytes
format_clock tm t =
    uint_to_decimal_string_zeropad tm.hour 2
    ++ b':'
      ∷ (uint_to_decimal_string_zeropad tm.minute 2
          ++ b':' ∷ (uint_to_decimal_string_zeropad tm.sec 2 ++ t))

-- `nxweb_format_http_time`: of the day at most two characters are kept, of the year four.
unfoldable pub format_http_time : Tm → Bytes
format_http_time tm =
    week_day tm.wday
    ++ b','
      ∷ b' '
      ∷ (take 2 (uint_to_decimal_string tm.mday)
          ++ b' '
            ∷ (month_name tm.mon
                ++ b' '
                  ∷ (take 4 (uint_to_decimal_string (tm.year + 1900))
                      ++ b' ' ∷ format_clock tm (codes " GMT"))))

-- `nxweb_format_iso8601_time`
unfoldable pub format_iso8601_time : Tm → Bytes
format_iso8601_time tm =
    uint_to_decimal_string_zeropad (tm.year + 1900) 4
    ++ b'-'
      ∷ (uint_to_decimal_string_zeropad (tm.mon + 1) 2
          ++ b'-' ∷ (uint_to_decimal_string_zeropad tm.mday 2 ++ b'T' ∷ format_clock tm []))

-- `isspace`
abbrev pub is_space : ℕ → Bool
is_space c = c == b' ' || (leb 9 c && leb c 13)

abbrev pub is_digit : ℕ → Bool
is_digit c = leb b'0' c && leb c b'9'

unfoldable pub skip_blank : Bytes → Bytes
skip_blank [] = []
skip_blank (c ∷ s) = if is_space c then skip_blank s else c ∷ s

-- The digits behind the number `n`, and what follows them.
unfoldable pub read_digits : ℕ → Bytes → ℕ × Bytes
read_digits n [] = (n, [])
read_digits n (c ∷ s) =
    let further = read_digits (n * 10 + (c - b'0')) s in if is_digit c then further else (n, c ∷ s)

unfoldable pub starts_digit : Bytes → Bool
starts_digit [] = false
starts_digit (c ∷ s) = is_digit c

-- The 64-bit pattern of a number with its sign, kept within the range of `long`.
abbrev pub to_long : Bool → ℕ → ℕ
to_long negative n = if negative then (2 ^ 64 - min n (2 ^ 63)) % 2 ^ 64 else min n (2 ^ 63 - 1)

-- `strtol(s, &p, 10)`: the value as a 64-bit pattern, and `p`; without a digit `p` is `s`.
unfoldable pub unsigned_part : Bytes → Bool → Bytes → ℕ × Bytes
unfolding starts_digit read_digits
unsigned_part s negative t =
    let (n, u) = read_digits 0 t in if starts_digit t then (to_long negative n, u) else (0, s)

unfoldable pub strtol : Bytes → ℕ × Bytes
unfolding skip_blank unsigned_part
strtol s = elim (skip_blank s) [
  | [] ↦ (0, s)
  | c ∷ t ↦
      if c == b'-'
      then unsigned_part s true t
      else if c == b'+'
      then unsigned_part s false t
      else unsigned_part s false (c ∷ t)
]

-- `if (*p++ != c) return 0`
unfoldable pub expect : ℕ → Bytes → Option Bytes
expect c [] = none
expect c (x ∷ s) = if x == c then some s else none

-- A field is read, brought to `int` as its 32-bit pattern, and has to pass the test.
unfoldable pub read_field : (ℕ → ℕ) → (ℕ → Bool) → Bytes → Option (ℕ × Bytes)
unfolding strtol
read_field convert test s =
    let (n, t) = strtol s in if test (convert n) then some (convert n, t) else none

abbrev pub to_int : ℕ → ℕ
to_int n = n % 2 ^ 32

-- `strtol(p, (char**)&p, 10)-1900`
abbrev pub to_year : ℕ → ℕ
to_year n = (n + (2 ^ 64 - 1900)) % 2 ^ 64 % 2 ^ 32

-- `!(n < 0 || n >= limit)` on a 32-bit pattern
abbrev pub within : ℕ → ℕ → Bool
within limit n = ltb n (2 ^ 31) && ltb n limit

-- `!(n <= 0 || n > 31)`
abbrev pub is_day : ℕ → Bool
is_day n = ltb n (2 ^ 31) && not (n == 0) && leb n 31

-- One of two characters chooses the month.
unfoldable pub choose : ℕ → ℕ → ℕ → ℕ → Bytes → Option (ℕ × Bytes)
choose a m b n [] = none
choose a m b n (x ∷ s) = if x == a then some (m, s) else (if x == b then some (n, s) else none)

unfoldable pub finish : Bytes → ℕ → Bytes → Option (ℕ × Bytes)
unfolding expect
finish [] m s = some (m, s)
finish (c ∷ cs) m s = do t ← expect c s; finish cs m t

-- The switch on the first character of the month.
unfoldable pub read_month : Bytes → Option (ℕ × Bytes)
unfolding choose finish
read_month [] = none
read_month (c ∷ []) = none
read_month (c ∷ d ∷ s) =
    if c == b'J'
    then if d == b'a'
      then finish (codes "n") 0 s
      else if d == b'u'
      then choose b'n' 5 b'l' 6 s
      else none
    else if c == b'F'
    then finish (codes "eb") 1 (d ∷ s)
    else if c == b'M'
    then if d == b'a' then choose b'y' 4 b'r' 2 s else none
    else if c == b'A'
    then if d == b'p'
      then finish (codes "r") 3 s
      else if d == b'u'
      then finish (codes "g") 7 s
      else none
    else if c == b'S'
    then finish (codes "ep") 8 (d ∷ s)
    else if c == b'O'
    then finish (codes "ct") 9 (d ∷ s)
    else if c == b'N'
    then finish (codes "ov") 10 (d ∷ s)
    else if c == b'D'
    then finish (codes "ec") 11 (d ∷ s)
    else none

-- The hours, minutes and seconds, up to the end of the string or beyond it.
unfoldable pub read_clock : ℕ → ℕ → ℕ → Bytes → Option Tm
unfolding read_field expect
read_clock day month year s = do
  (hour, s) ← read_field to_int (within 24) s
  s ← expect b':' s
  (minute, s) ← read_field to_int (within 60) s
  s ← expect b':' s
  (sec, s) ← read_field to_int (within 60) s
  s ← expect b' ' s
  s ← expect b'G' s
  s ← expect b'M' s
  s ← expect b'T' s
  some (record {
    wday = 0;
    mday = day;
    mon = month;
    year = year;
    hour = hour;
    minute = minute;
    sec = sec;
  })

unfoldable pub read_date : Bytes → Option Tm
unfolding read_field expect read_month read_clock
read_date s = do
  (day, s) ← read_field to_int is_day s
  s ← expect b' ' s
  (month, s) ← read_month s
  s ← expect b' ' s
  (year, s) ← read_field to_year (within 1001) s
  s ← expect b' ' s
  read_clock day month year s

-- What `nxweb_parse_http_time` makes of the string, before `timegm`. The weekday is skipped unread:
-- three characters have to be there.
unfoldable pub parse_fields : Bytes → Option Tm
unfolding expect read_date
parse_fields str = do s ← expect b',' (drop 3 str); s ← expect b' ' s; read_date s

-- `nxweb_parse_http_time`, with `timegm`; `none` is `return 0`.
unfoldable pub parse_http_time : {T : Type 0} → (Tm → Option T) → Bytes → Option T
unfolding parse_fields
parse_http_time timegm str = do tm ← parse_fields str; timegm tm

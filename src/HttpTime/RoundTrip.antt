-- ===== src/HttpTime/RoundTrip.antt =====
-- What `nxweb_parse_http_time` reads in the times that `nxweb_format_http_time` writes; both are of
-- src/lib/http_utils.c.
use mathlib.Core.Path.{subst}
use nxweb.Base.{
  ℕ, zero, suc, ◌+◌, ◌^◌, ◌<◌, ◌≤◌, ◌≡◌, refl, ap, ◌∙◌, Bool, true, false, Option, some, List, [],
  ◌∷◌, ◌++◌, Bytes, codes, length, arith, take, drop, take_all, get_or,
}
use nxweb.Misc.{uint_to_decimal_string, uint_to_decimal_string_zeropad}
use nxweb.Misc.Decimal.{
  decimal_number-uint_to_decimal_string, decimal_number-uint_to_decimal_string_zeropad,
  uint_to_decimal_string-IsDigits, uint_to_decimal_string_zeropad-IsDigits,
  length-uint_to_decimal_string, length-uint_to_decimal_string_within,
}
use nxweb.HttpTime.{
  Tm, week_days, months, is_digit, week_day, month_name, format_clock, format_http_time, read_field,
  to_int, to_year, within, is_day, expect, read_month, read_clock, read_date, parse_fields,
  parse_http_time,
}
use nxweb.HttpTime.Range.{IsTime}
use nxweb.HttpTime.Number.{read_field-append}

-- A property of every entry of a table, with its index.
Indexed : (ℕ → Bytes → Type 0) → ℕ → List Bytes → Type 0
Indexed P i [] = Unit
Indexed P i (n ∷ ns) = P i n × Indexed P (suc i) ns

Indexed-get_or :
    (P : ℕ → Bytes → Type 0) (k : ℕ) (ns : List Bytes) (i : ℕ)
    → Indexed P k ns
    → i < length ns
    → P (i + k) (get_or ns i [])
unfolding Indexed
Indexed-get_or P k [] i h l = absurd (omega (arith, l))
Indexed-get_or P k (n ∷ ns) zero (a, h) l = subst (λ x. P x n) (omega arith) a
Indexed-get_or P k (n ∷ ns) (suc i) (a, h) l =
    subst (λ x. P x (get_or ns i [])) (omega arith)
      (Indexed-get_or P (suc k) ns i h (omega (arith, l)))

IsSkipped : ℕ → Bytes → Type 0
IsSkipped w n = (t : Bytes) → drop 3 (n ++ t) ≡ t

drop-week_day : (w : ℕ) (t : Bytes) → w < 7 → drop 3 (week_day w ++ t) ≡ t
unfolding week_day Indexed IsSkipped
drop-week_day w t h =
    Indexed-get_or IsSkipped 0 week_days w
      (λ t. refl, (λ t. refl, (λ t. refl, (λ t. refl, (λ t. refl, (λ t. refl, (λ t. refl, _))))))) h
      t

IsMonth : ℕ → Bytes → Type 0
IsMonth m n = (t : Bytes) → read_month (n ++ t) ≡ some (m, t)

months-IsMonth : Indexed IsMonth 0 months
unfolding Indexed IsMonth read_month
months-IsMonth = (
  λ t. refl,
  (
    λ t. refl,
    (
      λ t. refl,
      (
        λ t. refl,
        (
          λ t. refl,
          (
            λ t. refl,
            (λ t. refl, (λ t. refl, (λ t. refl, (λ t. refl, (λ t. refl, (λ t. refl, _)))))),
          ),
        ),
      ),
    ),
  ),
)

read_month-month_name : (m : ℕ) (t : Bytes) → m < 12 → read_month (month_name m ++ t) ≡ some (m, t)
unfolding month_name IsMonth
read_month-month_name m t h =
    Indexed-get_or IsMonth 0 months m months-IsMonth h t ∙ ap (λ n. some (n, t)) (omega arith)

-- A field of two digits is read back.
read_pad :
    (test : ℕ → Bool) (n c : ℕ) (t : Bytes)
    → n < 100
    → is_digit c ≡ false
    → test n ≡ true
    → read_field to_int test (uint_to_decimal_string_zeropad n 2 ++ c ∷ t) ≡ some (n, c ∷ t)
read_pad test n c t h e ok =
    let (l, v) = decimal_number-uint_to_decimal_string_zeropad n 2 (omega (arith, h)) in
    let same : to_int n ≡ n = omega (arith, h) in
    read_field-append to_int test (uint_to_decimal_string_zeropad n 2) c t n
      (uint_to_decimal_string_zeropad-IsDigits n 2) (omega (arith, l)) e v (omega (arith, h))
      (ap test same ∙ ok)
    ∙ ap (λ x. some (x, c ∷ t)) same

-- The day and the year are read back.
read_short :
    (convert : ℕ → ℕ) (test : ℕ → Bool) (k n v c : ℕ) (t : Bytes)
    → n < 10 ^ k
    → 0 < k
    → n < 2 ^ 63
    → is_digit c ≡ false
    → convert n ≡ v
    → test v ≡ true
    → read_field convert test (take k (uint_to_decimal_string n) ++ c ∷ t) ≡ some (v, c ∷ t)
read_short convert test k n v c t h k0 lt e ev ok =
    let l = length-uint_to_decimal_string n (omega (arith, lt)) in
    ap (λ ds. read_field convert test (ds ++ c ∷ t))
      (take_all k (uint_to_decimal_string n) (length-uint_to_decimal_string_within n k h k0))
    ∙ read_field-append convert test (uint_to_decimal_string n) c t n
        (uint_to_decimal_string-IsDigits n) (l.0) e (decimal_number-uint_to_decimal_string n) lt
        (ap test ev ∙ ok)
    ∙ ap (λ x. some (x, c ∷ t)) ev

within_lem : (limit n : ℕ) → n < limit → limit ≤ 2 ^ 31 → within limit n ≡ true
within_lem limit n h l = ground (arith, h, l)

is_day_lem : (n : ℕ) → 0 < n → n < 32 → is_day n ≡ true
is_day_lem n h l = ground (arith, h, l)

to_year_lem : (y : ℕ) → y < 1001 → to_year (y + 1900) ≡ y
to_year_lem y h = omega (arith, h)

read_clock-format_clock :
    (day month year : ℕ) (tm : Tm)
    → IsTime tm
    → read_clock day month year (format_clock tm (codes " GMT"))
      ≡ some (record tm { wday = 0; mday = day; mon = month; year = year })
unfolding read_clock format_clock expect
read_clock-format_clock day month year tm v =
    let s3 = codes " GMT" in
    let s2 = uint_to_decimal_string_zeropad tm.sec 2 ++ s3 in
    let s1 = uint_to_decimal_string_zeropad tm.minute 2 ++ b':' ∷ s2 in
    let e1 =
      read_pad (within 24) tm.hour b':' s1 (omega (arith, v.hour)) refl
        (within_lem 24 tm.hour v.hour (omega arith)) in
    let e2 =
      read_pad (within 60) tm.minute b':' s2 (omega (arith, v.minute)) refl
        (within_lem 60 tm.minute v.minute (omega arith)) in
    let e3 =
      read_pad (within 60) tm.sec b' ' (codes "GMT") (omega (arith, v.sec)) refl
        (within_lem 60 tm.sec v.sec (omega arith)) in
    rw (e1, e2, e3) refl

read_date-format :
    (tm : Tm) (t : Bytes) (r : Option Tm)
    → IsTime tm
    → read_clock tm.mday tm.mon tm.year t ≡ r
    → read_date (
        take 2 (uint_to_decimal_string tm.mday)
        ++ b' '
          ∷ (month_name tm.mon
              ++ b' ' ∷ (take 4 (uint_to_decimal_string (tm.year + 1900)) ++ b' ' ∷ t)))
      ≡ r
unfolding read_date expect
read_date-format tm t r v e =
    let s2 = take 4 (uint_to_decimal_string (tm.year + 1900)) ++ b' ' ∷ t in
    let s1 = month_name tm.mon ++ b' ' ∷ s2 in
    let e1 =
      read_short to_int is_day 2 tm.mday tm.mday b' ' s1 (omega (arith, v.mday)) (omega arith)
        (omega (arith, v.mday)) refl (omega (arith, v.mday))
        (is_day_lem tm.mday v.mday_least v.mday) in
    let e2 = read_month-month_name tm.mon (b' ' ∷ s2) v.mon in
    let e3 =
      read_short to_year (within 1001) 4 (tm.year + 1900) tm.year b' ' t (omega (arith, v.year))
        (omega arith) (omega (arith, v.year)) refl (to_year_lem tm.year v.year)
        (within_lem 1001 tm.year v.year (omega arith)) in
    rw (e1, e2, e3) e

-- A time in range is parsed from its print as the same fields, but for the weekday, whatever
-- `timegm` is.
pub parse_http_time-format_http_time :
    {T : Type 0} (timegm : Tm → Option T) (tm : Tm)
    → IsTime tm
    → parse_http_time timegm (format_http_time tm) ≡ timegm (record tm { wday = 0 })
unfolding parse_http_time parse_fields format_http_time expect
parse_http_time-format_http_time timegm tm v =
    let t = format_clock tm (codes " GMT") in
    let d =
      take 2 (uint_to_decimal_string tm.mday)
      ++ b' '
        ∷ (month_name tm.mon
            ++ b' ' ∷ (take 4 (uint_to_decimal_string (tm.year + 1900)) ++ b' ' ∷ t)) in
    let e1 = drop-week_day tm.wday (b',' ∷ b' ' ∷ d) v.wday in
    let e2 =
      read_date-format tm t (some (record tm { wday = 0 })) v
        (read_clock-format_clock tm.mday tm.mon tm.year tm v) in
    rw (e1, e2) refl

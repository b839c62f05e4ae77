-- ===== src/HttpTime/Tests.antt =====
-- The times of src/lib/http_utils.c, run.
use nxweb.Base.{ℕ, ◌≡◌, ◌+◌, refl, Option, none, some, Bytes, codes, arith}
use nxweb.Misc.{uint_to_decimal_string, uint_to_decimal_string_zeropad}
use nxweb.HttpTime.{
  Tm, format_http_time, format_iso8601_time, format_clock, week_day, month_name, parse_fields,
  parse_http_time,
}
use nxweb.HttpTime.Range.{IsTime, parse_fields-IsTime}
use nxweb.HttpTime.RoundTrip.{parse_http_time-format_http_time}

abbrev example_time : Tm
example_time = record { wday = 2; mday = 24; mon = 0; year = 112; hour = 13; minute = 5; sec = 54 }

abbrev example_fields : Tm
example_fields = record {
  wday = 0;
  mday = 24;
  mon = 0;
  year = 112;
  hour = 13;
  minute = 5;
  sec = 54;
}

abbrev example_text : Bytes
example_text = codes "Tue, 24 Jan 2012 13:05:54 GMT"

format_run : format_http_time example_time ≡ example_text
unfolding format_http_time format_clock week_day month_name uint_to_decimal_string
    uint_to_decimal_string_zeropad
format_run = refl

iso_run : format_iso8601_time example_time ≡ codes "2012-01-24T13:05:54"
unfolding format_iso8601_time format_clock uint_to_decimal_string_zeropad
iso_run = refl

parse_run : parse_fields example_text ≡ some example_fields
unfolding parse_fields
parse_run = refl

parse_blank_run : parse_fields (codes "Tue,  +24 Jan 2012 13:05:54 GMT") ≡ some example_fields
unfolding parse_fields
parse_blank_run = refl

-- The number is cut to 32 bits before it is tested.
parse_wrap_run : parse_fields (codes "Tue, 4294967320 Jan 2012 13:05:54 GMT") ≡ some example_fields
unfolding parse_fields
parse_wrap_run = refl

refuse_run : parse_fields (codes "Tue, 32 Jan 2012 13:05:54 GMT") ≡ none
unfolding parse_fields
refuse_run = refl

-- A clock that knows the seconds of the hour alone.
abbrev seconds : Tm → Option ℕ
seconds tm = some (tm.minute + tm.sec)

example_time-IsTime : IsTime example_time
example_time-IsTime = record {
  wday = omega arith;
  mday_least = omega arith;
  mday = omega arith;
  mon = omega arith;
  year = omega arith;
  hour = omega arith;
  minute = omega arith;
  sec = omega arith;
}

parse_http_time-format_http_time_example :
    parse_http_time seconds (format_http_time example_time) ≡ some 59
parse_http_time-format_http_time_example =
    parse_http_time-format_http_time seconds example_time example_time-IsTime

parse_fields-IsTime_example : IsTime example_fields
parse_fields-IsTime_example = parse_fields-IsTime example_text example_fields parse_run

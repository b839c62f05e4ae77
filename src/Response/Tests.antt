-- ===== src/Response/Tests.antt =====
-- Runs of the response writers and readers of src/lib/http_utils.c.
use nxweb.Base.{
  ℕ, ◌-◌, ◌^◌, ◌≡◌, refl, [], ◌∷◌, ◌++◌, Bytes, codes, none, some, false, true, arith, inl,
}
use nxweb.Misc.Trim.{StartsInk, EndsInk}
use nxweb.Misc.{uint_to_decimal_string, uint_to_decimal_string_zeropad}
use nxweb.HttpTime.{Tm, format_http_time, format_clock, week_day, month_name}
use nxweb.Request.{ok}
use nxweb.Response.{
  Response, comma_joined, cache_control_parts, cache_control_value, max_age_text,
  prepare_response_headers, send_redirect, send_http_error,
}
use nxweb.Response.CacheControl.{split_commas, read_directives, add_response_header_safe}
use nxweb.Response.Directives.{read_directives-cache_control_parts}
use nxweb.Response.HeaderLines.{IsStatus}
use nxweb.Response.Fields.{IsSendable}
use nxweb.Response.Parse.{parse_http_response}
use nxweb.Response.RoundTrip.{IsReceived, parse_http_response-prepare_response_headers}

abbrev calendar : ℕ → Tm
calendar t = record { wday = 0; mday = 7; mon = 0; year = 112; hour = 1; minute = 2; sec = 3 }

abbrev clock : Tm → ℕ
clock tm = tm.sec

abbrev blank : Response
blank = record {
  host = codes "h";
  content = none;
  content_length = 0;
  keep_alive = true;
  http11 = true;
  chunked_encoding = false;
  gzip_encoded = false;
  ssi_on = false;
  templates_on = false;
  no_cache = false;
  cache_private = false;
  status = none;
  content_type = none;
  content_charset = none;
  cache_control = none;
  etag = none;
  headers = [];
  extra_raw_headers = none;
  date = 0;
  last_modified = 0;
  expires = 0;
  max_age = 0;
  status_code = 0;
  sendfile_path = none;
}

abbrev page : Response
page = record blank {
  content_length = 34;
  etag = some (codes "e1");
  cache_private = true;
  max_age = 60;
  headers =
      record { name = codes "X-A"; value = codes "b" }
      ∷ record { name = codes "content-length"; value = codes "7" }
      ∷ [];
}

page-IsSendable : IsSendable calendar (codes "3") (codes "now") page
unfolding StartsInk EndsInk IsStatus format_http_time format_clock week_day month_name
    uint_to_decimal_string uint_to_decimal_string_zeropad cache_control_value comma_joined
    cache_control_parts max_age_text
page-IsSendable = record {
  code = omega arith;
  status = ground arith;
  program = ground arith;
  date_value = ground arith;
  kind = ground arith;
  modified = ground arith;
  etag = ground arith;
  expiry = ground arith;
  cache_control = ground arith;
  headers = (ground arith, (ground arith, tt));
  no_raw_headers = refl;
}

parse_http_response-prepare_response_headers_example :
    (text : Bytes) × (r' : Response) × (prepare_response_headers calendar
        (codes "3")
        (codes "now")
        page
      ≡ text ++ b'\r' ∷ b'\n' ∷ b'\r' ∷ b'\n' ∷ [])
    × (parse_http_response clock blank text ≡ ok r')
    × IsReceived calendar (codes "3") (codes "now") page r'
parse_http_response-prepare_response_headers_example =
    parse_http_response-prepare_response_headers calendar clock (codes "3") (codes "now") blank page
      page-IsSendable refl refl refl

read_directives-cache_control_parts_example :
    read_directives
      (record { no_cache = false; cache_private = false; max_age = 0; dirty = false })
      (split_commas (comma_joined (cache_control_parts true true (2 ^ 64 - 1))))
    ≡ record { no_cache = true; cache_private = true; max_age = 2 ^ 64 - 1; dirty = false }
read_directives-cache_control_parts_example =
    read_directives-cache_control_parts true true (2 ^ 64 - 1) refl (inl refl)

-- A directive that is not known leaves the value as it is.
unknown_run :
    (add_response_header_safe clock blank
      (codes "cache-control")
      (codes "no-store, max-age=9")).cache_control
    ≡ some (codes "no-store, max-age=9")
unfolding add_response_header_safe
unknown_run = refl

redirect_run :
    (send_redirect calendar (codes "3") (codes "now") blank 302 (codes "/x") none true).0.status
    ≡ some (codes "Found")
unfolding send_redirect
redirect_run = refl

error_run :
    (send_http_error calendar
      (codes "3")
      (codes "now")
      blank
      404
      (codes "Not Found")).content_length
    ≡ 101
unfolding send_http_error
error_run = refl

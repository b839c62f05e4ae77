-- ===== src/ClientRequest/Tests.antt =====
-- A run of the writer of client requests of src/lib/http_utils.c.
use nxweb.Base.{ℕ, ◌≡◌, refl, [], ◌∷◌, ◌++◌, Bytes, codes, none, some, false, true, arith}
use nxweb.Misc.Trim.{StartsInk, EndsInk}
use nxweb.SimpleMap.{same_nocase}
use nxweb.HttpTime.{Tm, format_http_time, format_clock, week_day, month_name}
use nxweb.Misc.{uint_to_decimal_string, uint_to_decimal_string_zeropad}
use nxweb.Headers.{identify_http_header}
use nxweb.Request.{Request, ok}
use nxweb.Request.Parse.{parse_http_request}
use nxweb.ClientRequest.{Outgoing, prepare_client_request_headers}
use nxweb.ClientRequest.Sendable.{IsSendable}
use nxweb.ClientRequest.RoundTrip.{IsReceived, parse_http_request-prepare_client_request_headers}

abbrev calendar : ℕ → Tm
calendar t = record { wday = 0; mday = 7; mon = 0; year = 112; hour = 1; minute = 2; sec = 3 }

abbrev clock : Tm → ℕ
clock tm = tm.sec

abbrev outgoing : Outgoing
outgoing = record {
  req = record {
    method = codes "POST";
    uri = codes "/a";
    http_version = codes "HTTP/1.1";
    host = some (codes "Ex.org");
    cookie = some (codes "k=v");
    user_agent = none;
    content_type = none;
    transfer_encoding = none;
    accept_encoding = none;
    range = none;
    content_length = 12;
    if_modified_since = 0;
    headers = record { name = codes "X-A"; value = codes "b" } ∷ [];
    http11 = true;
    keep_alive = true;
    accept_gzip_encoding = false;
    chunked_encoding = false;
    expect_100_continue = false;
    head_method = false;
    get_method = false;
    post_method = true;
    other_method = false;
  };
  host = codes "Ex.org";
  x_forwarded_ssl = false;
  x_forwarded_host = none;
  x_forwarded_for = some (codes "10.0.0.1");
  uid = 255;
  parents = 3 ∷ 4 ∷ [];
}

outgoing-IsSendable : IsSendable calendar (codes "3") outgoing (codes "a") b'E' (codes "x.org")
unfolding StartsInk EndsInk identify_http_header same_nocase format_http_time format_clock week_day
    month_name uint_to_decimal_string uint_to_decimal_string_zeropad
outgoing-IsSendable = record {
  method = (ground arith, λ e. cc);
  uri = refl;
  path_ink = ground arith;
  host = refl;
  host_value = ground arith;
  date = ground arith;
  forwarded_host = tt;
  forwarded_for = ground arith;
  agent = tt;
  program = ground arith;
  cookie = ground arith;
  encoding = tt;
  content_type = tt;
  headers = (ground arith, tt);
  plain_headers = (refl, tt);
}

parse_http_request-prepare_client_request_headers_example :
    (text : Bytes) × (r : Request) × (prepare_client_request_headers calendar (codes "3") outgoing
      ≡ text ++ b'\r' ∷ b'\n' ∷ b'\r' ∷ b'\n' ∷ [])
    × (parse_http_request clock [] text ≡ ok r)
    × IsReceived (codes "3") outgoing r
parse_http_request-prepare_client_request_headers_example =
    parse_http_request-prepare_client_request_headers calendar clock (codes "3") [] outgoing
      outgoing-IsSendable

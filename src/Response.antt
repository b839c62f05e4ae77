-- ===== src/Response.antt =====
-- The response of src/include/nxweb/nxweb.h and what src/lib/http_utils.c writes of it: its raw
-- headers, redirects and error pages. `gmtime` and `date` are the C library's and the clock's,
-- `version` the text of `REVISION`.
pub mod CacheControl
pub mod Parse
pub mod Directives
pub mod HeaderLines
pub mod Written
pub mod Fields
mod Kept
mod Head
pub mod RoundTrip
mod Tests
use nxweb.Base.{
  ℕ, zero, suc, ◌-◌, ◌+◌, ◌^◌, Bool, true, false, not, ◌||◌, ◌&&◌, Option, none, some, List, [],
  ◌∷◌, ◌++◌, Bytes, codes, ltb, leb, ◌==◌, if◌then◌else◌, length,
}
use nxweb.Misc.{uint_to_decimal_string, trunc_space}
use nxweb.SimpleMap.{Entry, simple_map_add, same_nocase}
use nxweb.HttpTime.{Tm, format_http_time, parse_http_time, strtol}
use nxweb.Headers.{
  HeaderName, http_date, http_etag, http_server, http_expires, http_connection, http_keep_alive,
  http_content_type, http_last_modified, http_cache_control, http_accept_ranges,
  http_content_length, http_transfer_encoding, http_x_nxweb_ssi, http_x_nxweb_templates,
  identify_http_header,
}
use nxweb.Request.{skip_blanks, split_at, strip_prefix}
use nxweb.ClientRequest.{Block, blocks_text, field_text, when, unless_zero}

-- The fields of `nxweb_http_response` that are read or set here; `none` is the null pointer, a
-- length or a time the 64-bit pattern. `host` is the string that the pointer points to, `content` is the content that is held in memory.
pub record Response : Type 0 where
  pub host : Bytes
  pub content : Option Bytes
  pub content_length : ℕ
  pub keep_alive : Bool
  pub http11 : Bool
  pub chunked_encoding : Bool
  pub gzip_encoded : Bool
  pub ssi_on : Bool
  pub templates_on : Bool
  pub no_cache : Bool
  pub cache_private : Bool
  pub status : Option Bytes
  pub content_type : Option Bytes
  pub content_charset : Option Bytes
  pub cache_control : Option Bytes
  pub etag : Option Bytes
  pub headers : List Entry
  pub extra_raw_headers : Option Bytes
  pub date : ℕ
  pub last_modified : ℕ
  pub expires : ℕ
  pub max_age : ℕ
  pub status_code : ℕ
  pub sendfile_path : Option Bytes

-- `if (!pointer) ...`
abbrev pub or_default : Option Bytes → Bytes → Bytes
or_default none d = d
or_default (some s) d = s

-- `resp->status_code==304 || resp->status_code==204 || resp->status_code==205`
abbrev pub must_not_have_body : Response → Bool
must_not_have_body r = r.status_code == 304 || r.status_code == 204 || r.status_code == 205

abbrev pub charset_text : Option Bytes → Bytes
charset_text none = []
charset_text (some charset) = codes "; charset=" ++ charset

-- The parts of the value of Cache-Control, the later ones behind a comma.
unfoldable pub comma_joined : List Bytes → Bytes
comma_joined [] = []
comma_joined (s ∷ []) = s
comma_joined (s ∷ t ∷ ss) = s ++ b',' ∷ b' ' ∷ comma_joined (t ∷ ss)

-- The seconds of max-age; minus one stands for zero.
unfoldable pub max_age_text : ℕ → Bytes
max_age_text n = if n == 2 ^ 64 - 1 then b'0' ∷ [] else uint_to_decimal_string n

unfoldable pub part_when : Bool → Bytes → List Bytes → List Bytes
part_when test part ss = if test then part ∷ ss else ss

unfoldable pub cache_control_parts : Bool → Bool → ℕ → List Bytes
unfolding part_when max_age_text
cache_control_parts private no_cache max_age = part_when private (codes "private") (
    part_when no_cache (codes "no-cache")
      (part_when (not (max_age == 0)) (codes "max-age=" ++ max_age_text max_age) []))

-- The value of Cache-Control, if there is one.
unfoldable pub cache_control_value : Response → Option Bytes
unfolding comma_joined cache_control_parts
cache_control_value r = elim r.cache_control [
  | some s ↦ some s
  | none ↦
      when (r.no_cache || r.cache_private || not (r.max_age == 0))
        (comma_joined (cache_control_parts r.cache_private r.no_cache r.max_age))
]

-- The headers that `_nxweb_add_extra_response_headers` skips.
unfoldable pub is_skipped : HeaderName → Bool
is_skipped http_connection = true
is_skipped http_server = true
is_skipped http_content_type = true
is_skipped http_content_length = true
is_skipped http_transfer_encoding = true
is_skipped http_date = true
is_skipped http_cache_control = true
is_skipped http_expires = true
is_skipped http_last_modified = true
is_skipped http_etag = true
is_skipped http_accept_ranges = true
is_skipped _ = false

-- `_nxweb_add_extra_response_headers`
unfoldable pub extra_response_headers : List Entry → Bytes
unfolding is_skipped
extra_response_headers [] = []
extra_response_headers (e ∷ es) =
    let rest = extra_response_headers es in
    if is_skipped (identify_http_header e.name 0) then rest else field_text e.name e.value ++ rest

-- The words in front of the headers.
unfoldable pub status_line : Bool → ℕ → Bytes → Bytes
status_line http11 code status =
    codes "HTTP/1."
    ++ (if http11 then b'1' else b'0')
      ∷ b' '
      ∷ (uint_to_decimal_string code ++ b' ' ∷ (status ++ b'\r' ∷ b'\n' ∷ []))

module _ (gmtime : ℕ → Tm) (version date : Bytes) where
  unfoldable pub server_blocks : Bool → List Block
  server_blocks keep_alive =
      (codes "Server", some (codes "nxweb/" ++ version))
      ∷ (codes "Date", some date)
      ∷ (codes "Connection", some (if keep_alive then codes "keep-alive" else codes "close"))
      ∷ []

  -- The fields behind the added headers.
  unfoldable pub body_blocks : Response → List Block
  unfolding cache_control_value
  body_blocks r =
      let n = r.content_length in
      let kind = or_default r.content_type (codes "text/html") in
      let announced = not (n == 0) || not (must_not_have_body r) in
      let known = ltb n (2 ^ 63) in
      (codes "Content-Type", unless_zero n (kind ++ charset_text r.content_charset))
      ∷ (codes "Content-Encoding", when (not (n == 0) && r.gzip_encoded) (codes "gzip"))
      ∷ (
        codes "Last-Modified",
        unless_zero r.last_modified (format_http_time (gmtime r.last_modified)),
      )
      ∷ (codes "ETag", r.etag)
      ∷ (codes "Expires", unless_zero r.expires (format_http_time (gmtime r.expires)))
      ∷ (codes "Cache-Control", cache_control_value r)
      ∷ (codes "Content-Length", when (announced && known) (uint_to_decimal_string n))
      ∷ (codes "Transfer-Encoding", when (announced && not known) (codes "chunked"))
      ∷ []

  -- `_nxweb_prepare_response_headers`: the text in front of its NUL.
  unfoldable pub prepare_response_headers : Response → Bytes
  unfolding status_line blocks_text server_blocks extra_response_headers body_blocks
  prepare_response_headers r =
      let code = if r.status_code == 0 then 200 else r.status_code in
      status_line r.http11 code (or_default r.status (codes "OK"))
      ++ (blocks_text (server_blocks r.keep_alive)
          ++ (extra_response_headers r.headers
              ++ (or_default r.extra_raw_headers []
                  ++ (blocks_text (body_blocks r) ++ b'\r' ∷ b'\n' ∷ []))))

  is_absolute : Bytes → Bool
  unfolding strip_prefix
  is_absolute location = elim (strip_prefix (codes "http://") location) [
    | some _ ↦ true
    | none ↦ elim (strip_prefix (codes "https://") location) [ some _ ↦ true | none ↦ false ]
  ]

  -- The value of Location.
  unfoldable pub location_value : Response → Bytes → Option Bytes → Bool → Bytes
  unfolding is_absolute
  location_value r location path_info secure =
      let scheme = if secure then codes "https://" else codes "http://" in
      let absolute = if is_absolute location then location else scheme ++ (r.host ++ location) in
      absolute ++ or_default path_info []

  -- `nxweb_send_redirect2`: the response and its raw headers. A file that is open is closed.
  unfoldable pub send_redirect : Response → ℕ → Bytes → Option Bytes → Bool → Response × Bytes
  unfolding status_line blocks_text server_blocks location_value
  send_redirect r code location path_info secure =
      let status =
        if code == 302
        then codes "Found"
        else if code == 301
        then codes "Moved Permanently"
        else codes "Redirect" in
      let raw =
        status_line r.http11 code status
        ++ (blocks_text (server_blocks r.keep_alive)
            ++ (codes "Content-Length: 0"
                ++ b'\r'
                  ∷ b'\n'
                  ∷ (field_text (codes "Location") (location_value r location path_info secure)
                      ++ b'\r' ∷ b'\n' ∷ []))) in
      (
        record r {
          status_code = code;
          status = some status;
          content = none;
          content_type = none;
          content_length = 0;
          sendfile_path = none;
        },
        raw,
      )

  -- `nxweb_send_http_error`
  unfoldable pub send_http_error : Response → ℕ → Bytes → Response
  send_http_error r code message =
      let page =
        codes "<html>\n<head><title>"
        ++ (message
            ++ (codes "</title></head>\n<body>\n<h1>"
                ++ (message
                    ++ (codes "</h1>\n<p>nxweb/"
                        ++ (version ++ codes "</p>\n</body>\n</html>"))))) in
      record r {
        status_code = code;
        status = some message;
        content = some page;
        content_length = length page;
        content_type = some (codes "text/html");
        sendfile_path = none;
      }

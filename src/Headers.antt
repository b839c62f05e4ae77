-- ===== src/Headers.antt =====
-- The names of the headers that src/lib/http_utils.c knows, and how it tells them apart.
pub mod Identify
mod Tests
use nxweb.Base.{ℕ, Bytes, List, [], ◌∷◌, leb, ◌==◌, if◌then◌else◌, length, codes, Bool}
use nxweb.SimpleMap.{nx_tolower, same_nocase}

pub data HeaderName : Type 0 where
  http_unknown http_date http_host http_etag http_range http_cookie http_expect : HeaderName
  http_server http_expires http_trailer http_connection http_keep_alive : HeaderName
  http_user_agent http_content_type http_last_modified http_cache_control : HeaderName
  http_accept_ranges http_content_length http_accept_encoding : HeaderName
  http_if_modified_since http_transfer_encoding http_x_nxweb_ssi : HeaderName
  http_x_nxweb_templates : HeaderName

-- `return nx_strcasecmp(name, text)? NXWEB_HTTP_UNKNOWN : header`
unfoldable pub known : Bytes → Bytes → HeaderName → HeaderName
known name text header = if same_nocase name text then header else http_unknown

-- The character that `*name` is; at the end of the string it is the NUL.
unfoldable pub first_char : Bytes → ℕ
first_char [] = 0
first_char (c ∷ s) = c

-- The cases of the switch on the length of the name.
unfoldable pub short_header : ℕ → ℕ → Bytes → HeaderName
unfolding known
short_header name_len first name =
    if name_len == 4
    then if first == b'h'
      then known name (codes "Host") http_host
      else if first == b'd'
      then known name (codes "Date") http_date
      else if first == b'e'
      then known name (codes "ETag") http_etag
      else http_unknown
    else if name_len == 5
    then if first == b'r' then known name (codes "Range") http_range else http_unknown
    else if name_len == 6
    then if first == b'c'
      then known name (codes "Cookie") http_cookie
      else if first == b'e'
      then known name (codes "Expect") http_expect
      else if first == b's'
      then known name (codes "Server") http_server
      else http_unknown
    else if name_len == 7
    then if first == b't'
      then known name (codes "Trailer") http_trailer
      else if first == b'e'
      then known name (codes "Expires") http_expires
      else http_unknown
    else http_unknown

unfoldable pub middle_header : ℕ → ℕ → Bytes → HeaderName
unfolding known
middle_header name_len first name =
    if name_len == 10
    then if first == b'c'
      then known name (codes "Connection") http_connection
      else if first == b'k'
      then known name (codes "Keep-Alive") http_keep_alive
      else if first == b'u'
      then known name (codes "User-Agent") http_user_agent
      else http_unknown
    else if name_len == 11
    then if first == b'x' then known name (codes "X-NXWEB-SSI") http_x_nxweb_ssi else http_unknown
    else if name_len == 12
    then if first == b'c' then known name (codes "Content-Type") http_content_type else http_unknown
    else http_unknown

unfoldable pub long_header : ℕ → ℕ → Bytes → HeaderName
unfolding known
long_header name_len first name =
    if name_len == 13
    then if first == b'c'
      then known name (codes "Cache-Control") http_cache_control
      else if first == b'l'
      then known name (codes "Last-Modified") http_last_modified
      else if first == b'a'
      then known name (codes "Accept-Ranges") http_accept_ranges
      else http_unknown
    else if name_len == 14
    then if first == b'c'
      then known name (codes "Content-Length") http_content_length
      else http_unknown
    else if name_len == 15
    then if first == b'a'
      then known name (codes "Accept-Encoding") http_accept_encoding
      else http_unknown
    else if name_len == 17
    then if first == b't'
      then known name (codes "Transfer-Encoding") http_transfer_encoding
      else if first == b'i'
      then known name (codes "If-Modified-Since") http_if_modified_since
      else if first == b'x'
      then known name (codes "X-NXWEB-Templates") http_x_nxweb_templates
      else http_unknown
    else http_unknown

-- `identify_http_header`; a length of zero stands for the length of the string.
unfoldable pub identify_http_header : Bytes → ℕ → HeaderName
unfolding first_char short_header middle_header long_header
identify_http_header name name_len =
    let n = if name_len == 0 then length name else name_len in
    let first = nx_tolower (first_char name) in
    if leb n 7
    then short_header n first name
    else if leb n 12
    then middle_header n first name
    else long_header n first name

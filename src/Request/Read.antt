-- ===== src/Request/Read.antt =====
-- The round trip of a request that is written out, src/lib/http_utils.c: what each of its fields is
-- read as.
use nxweb.Base.{
  ℕ, ◌-◌, ◌^◌, ◌<◌, ◌≡◌, refl, ap, ◌∙◌, true, false, not, none, some, ◌&&◌, ◌==◌, List, [], ◌∷◌,
  Bytes, codes, All, arith, if◌then◌else◌,
}
use nxweb.SimpleMap.{Entry, nx_strtolower, same_nocase}
use nxweb.HttpTime.{Tm, strtol}
use nxweb.Headers.{
  http_host, http_cookie, http_user_agent, http_content_type, http_content_length,
  http_accept_encoding, http_transfer_encoding, http_if_modified_since, http_connection, http_range,
  http_trailer, http_expect,
}
use nxweb.Request.{ok, Request}
use nxweb.Request.FirstLine.{IsToken, plain_request}
use nxweb.Request.HeaderLines.{IsHeader}
use nxweb.Request.Rendered.{request_text, first_loop, parse_text}
use nxweb.Request.Fields.{is_same, header_of, last_of, others, Collected, set_all-Collected}
use nxweb.Request.Parse.{
  Loop, http_time, has_host, is_word, finished, finish_request, parse_http_request,
}

-- What a request is read as that has these headers.
pub record IsRead (timegm : Tm → ℕ) (m u v : Bytes) (es : List Entry) (r : Request) : Type 0 where
  pub method : r.method ≡ (if same_nocase m (codes "HEAD") then codes "GET" else m)
  pub uri : r.uri ≡ u
  pub http_version : r.http_version ≡ v
  pub host : r.host ≡ last_of (λ v. some (nx_strtolower v)) http_host none es
  pub cookie : r.cookie ≡ last_of some http_cookie none es
  pub user_agent : r.user_agent ≡ last_of some http_user_agent none es
  pub content_type : r.content_type ≡ last_of some http_content_type none es
  pub accept_encoding : r.accept_encoding ≡ last_of some http_accept_encoding none es
  pub transfer_encoding : r.transfer_encoding ≡ last_of some http_transfer_encoding none es
  pub range : r.range ≡ last_of some http_range none es
  pub if_modified_since :
      r.if_modified_since ≡ last_of (http_time timegm) http_if_modified_since 0 es
  pub keep_alive :
      r.keep_alive
      ≡ last_of
          (λ v. same_nocase v (codes "keep-alive"))
          http_connection
          (not (same_nocase v (codes "HTTP/1.0")))
          es
  pub headers : r.headers ≡ others [] es
  pub chunked_encoding :
      r.chunked_encoding ≡ is_word (last_of some http_transfer_encoding none es) (codes "chunked")
  pub content_length : r.content_length ≡ (
      if is_word (last_of some http_transfer_encoding none es) (codes "chunked")
      then 2 ^ 64 - 1
      else last_of (λ v. (strtol v).0) http_content_length 0 es)
  pub expect_100_continue : r.expect_100_continue ≡ (
      not (r.content_length == 0)
      && is_word (last_of some http_expect none es) (codes "100-continue"))

has_host-some : (q : Request) (c : ℕ) (h : Bytes) → q.host ≡ some (c ∷ h) → has_host q ≡ true
unfolding has_host
has_host-some q c h e = ground (arith, e)

finished-IsRead :
    (timegm : Tm → ℕ) (beyond m u v : Bytes) (es : List Entry) (st : Loop)
    → Collected timegm (first_loop m u v) es st
    → IsRead timegm m u v es (finished beyond st)
unfolding finished plain_request
finished-IsRead timegm beyond m u v es st c = record {
  method = ap (λ m. if same_nocase m (codes "HEAD") then codes "GET" else m) c.method;
  uri = c.uri;
  http_version = c.http_version;
  host = c.host;
  cookie = c.cookie;
  user_agent = c.user_agent;
  content_type = c.content_type;
  accept_encoding = c.accept_encoding;
  transfer_encoding = c.transfer_encoding;
  if_modified_since = c.if_modified_since;
  keep_alive = c.keep_alive;
  range = c.range;
  headers = c.headers;
  chunked_encoding = rw (← c.transfer_encoding) refl;
  content_length = rw (← c.transfer_encoding, ← c.content_length) refl;
  expect_100_continue = rw (← c.expect) refl;
}

-- A request that is written out with a token for the method, a path, a token for the version and
-- headers, whose names hold no blank and no colon and whose values no line feed and no blank at an
-- end, none of them the trailer and the last host not empty, is accepted. The method is the one
-- given, GET in place of HEAD, and the path and the version are as given; host (in lower case),
-- cookie, agent, types, range, date, connection and length come each from the last header of that
-- name, whatever the case of its letters, the length being unknown where the last transfer encoding
-- is chunked; and the map holds all other headers, the last one first.
pub parse_http_request-request_text :
    (timegm : Tm → ℕ) (beyond method path version : Bytes) (es : List Entry) (c : ℕ) (host : Bytes)
    → IsToken method
    → All (λ c. 32 < c) path
    → IsToken version
    → All IsHeader es
    → All (λ e. is_same (header_of e) http_trailer ≡ false) es
    → last_of (λ v. some (nx_strtolower v)) http_host none es ≡ some (c ∷ host)
    → (r : Request) × (parse_http_request timegm beyond
          (request_text method (b'/' ∷ path) version es)
        ≡ ok r)
      × IsRead timegm method (b'/' ∷ path) version es r
unfolding plain_request finish_request
parse_http_request-request_text timegm beyond m u v es c h hm hu hv hs ht hh =
    let p = parse_text timegm beyond m u v es hm hu hv hs in
    let (st, e, f) = set_all-Collected timegm (first_loop m (b'/' ∷ u) v) es ht in
    let k = has_host-some st.req c h (f.host ∙ hh) in
    (
      finished beyond st,
      p ∙ rw (e, finish_request, k) refl,
      finished-IsRead timegm beyond m (b'/' ∷ u) v es st f,
    )

-- ===== src/ClientRequest.antt =====
-- The headers of a request that the proxy sends on, `_nxweb_prepare_client_request_headers` of
-- src/lib/http_utils.c. `gmtime` is the C library's, `version` the text of `REVISION`.
pub mod Written
pub mod Sendable
pub mod RoundTrip
mod Tests
use nxweb.Base.{
  ℕ, ◌-◌, ◌+◌, ◌^◌, Bool, true, false, Option, none, some, List, [], ◌∷◌, ◌++◌, Bytes, codes, ltb,
  ◌==◌, if◌then◌else◌,
}
use nxweb.Misc.{uint_to_decimal_string, uint_to_hex_string_zeropad}
use nxweb.SimpleMap.{Entry}
use nxweb.HttpTime.{Tm, format_http_time}
use nxweb.Request.{Request}

-- The request with the fields that parsing leaves alone; the numbers of the requests that it is
-- nested in, the nearest one first.
pub record Outgoing : Type 0 where
  pub req : Request
  pub host : Bytes
  pub x_forwarded_ssl : Bool
  pub x_forwarded_host : Option Bytes
  pub x_forwarded_for : Option Bytes
  pub uid : ℕ
  pub parents : List ℕ

-- `if (value) { append "Name: "; append value; append "\r\n" }`
abbrev pub Block : Type 0
Block = Bytes × Option Bytes

abbrev pub field_text : Bytes → Bytes → Bytes
field_text name value = name ++ b':' ∷ b' ' ∷ (value ++ b'\r' ∷ b'\n' ∷ [])

unfoldable pub blocks_text : List Block → Bytes
blocks_text [] = []
blocks_text ((name, none) ∷ bs) = blocks_text bs
blocks_text ((name, some value) ∷ bs) = field_text name value ++ blocks_text bs

-- The loop over the added headers.
unfoldable pub headers_text : List Entry → Bytes
headers_text [] = []
headers_text (e ∷ es) = field_text e.name e.value ++ headers_text es

abbrev pub when : Bool → Bytes → Option Bytes
when test value = if test then some value else none

abbrev pub unless_zero : ℕ → Bytes → Option Bytes
unless_zero n value = if n == 0 then none else some value

-- The number of the root request; zero where there is no parent.
unfoldable pub root_uid : List ℕ → ℕ
root_uid [] = 0
root_uid (uid ∷ []) = uid
root_uid (uid ∷ u ∷ us) = root_uid (u ∷ us)

module _ (gmtime : ℕ → Tm) (version : Bytes) where
  -- The fields in front of the added headers.
  unfoldable pub first_blocks : Outgoing → List Block
  unfolding root_uid
  first_blocks o =
      (codes "Host", some o.host)
      ∷ (codes "Connection", some (if o.req.keep_alive then codes "keep-alive" else codes "close"))
      ∷ (
        codes "If-Modified-Since",
        unless_zero o.req.if_modified_since (format_http_time (gmtime o.req.if_modified_since)),
      )
      ∷ (codes "Expect", when o.req.expect_100_continue (codes "100-continue"))
      ∷ (codes "X-NXWEB-Forwarded-SSL", when o.x_forwarded_ssl (codes "ON"))
      ∷ (codes "X-NXWEB-Forwarded-Host", o.x_forwarded_host)
      ∷ (codes "X-NXWEB-Forwarded-IP", o.x_forwarded_for)
      ∷ (codes "X-NXWEB-Request-ID", unless_zero o.uid (uint_to_hex_string_zeropad o.uid 16))
      ∷ (
        codes "X-NXWEB-Root-Request-ID",
        unless_zero (root_uid o.parents) (uint_to_hex_string_zeropad (root_uid o.parents) 16),
      )
      ∷ (
        codes "User-Agent",
        some (elim o.req.user_agent [ none ↦ codes "nxweb/" ++ version | some agent ↦ agent ]),
      )
      ∷ (codes "Cookie", o.req.cookie)
      ∷ []

  -- The fields behind them; a length below zero says that the content is chunked.
  unfoldable pub last_blocks : Outgoing → List Block
  last_blocks o =
      let n = o.req.content_length in
      let known = ltb n (2 ^ 63) in
      let default_type = codes "application/x-www-form-urlencoded" in
      (codes "Accept-Encoding", o.req.accept_encoding)
      ∷ (
        codes "Content-Type",
        unless_zero n (elim o.req.content_type [ none ↦ default_type | some t ↦ t ]),
      )
      ∷ (codes "Content-Length", if n == 0 then none else when known (uint_to_decimal_string n))
      ∷ (
        codes "Transfer-Encoding",
        if n == 0 then none else (if known then none else some (codes "chunked")),
      )
      ∷ []

  abbrev pub sent_method : Outgoing → Bytes
  sent_method o = if o.req.head_method then codes "HEAD" else o.req.method

  abbrev pub sent_version : Outgoing → Bytes
  sent_version o = codes "HTTP/1." ++ (if o.req.http11 then b'1' else b'0') ∷ []

  -- `_nxweb_prepare_client_request_headers`: the text in front of its NUL.
  unfoldable pub prepare_client_request_headers : Outgoing → Bytes
  unfolding blocks_text headers_text first_blocks last_blocks
  prepare_client_request_headers o =
      sent_method o
      ++ b' '
        ∷ (o.req.uri
            ++ b' '
              ∷ (sent_version o
                  ++ b'\r'
                    ∷ b'\n'
                    ∷ (blocks_text (first_blocks o)
                        ++ (headers_text o.req.headers
                            ++ (blocks_text (last_blocks o) ++ b'\r' ∷ b'\n' ∷ [])))))

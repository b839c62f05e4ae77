-- ===== src/ClientRequest/Sendable.antt =====
-- The requests of src/lib/http_utils.c that the proxy can send on, and that their headers are well
-- formed.
use nxweb.Base.{
  ℕ, ◌^◌, ◌<◌, ◌≡◌, refl, Bool, true, false, Option, none, some, ◌∷◌, ◌++◌, Bytes, codes, All,
  arith, if◌then◌else◌, ◌==◌, ltb, length,
}
use nxweb.Misc.{uint_to_decimal_string, uint_to_hex_string_zeropad}
use nxweb.Misc.Hex.{uint_to_hex_string_zeropad_ink}
use nxweb.Misc.Decimal.{digits_ink, uint_to_decimal_string-IsDigits}
use nxweb.Misc.Trim.{ink-StartsInk, ink-EndsInk}
use nxweb.SimpleMap.{Entry, same_nocase}
use nxweb.HttpTime.{Tm, format_http_time}
use nxweb.Headers.{http_trailer, identify_http_header}
use nxweb.Request.FirstLine.{IsToken}
use nxweb.Request.HeaderLines.{IsName, IsValue, IsHeader}
use nxweb.Request.Rendered.{ink-IsLine}
use nxweb.Request.Fields.{is_same, header_of, has_field}
use nxweb.ClientRequest.{Outgoing, when, root_uid, first_blocks, last_blocks}
use nxweb.ClientRequest.Written.{BlockHolds}

abbrev pub AllValue : Option Bytes → Type 0
AllValue none = Unit
AllValue (some v) = IsValue v

pub ink-IsValue : (v : Bytes) → All (λ c. 32 < c) v → IsValue v
ink-IsValue v h = (ink-IsLine v h, ink-StartsInk v h, ink-EndsInk v h)

-- A request whose texts can stand in the lines of a request.
pub record IsSendable (gmtime : ℕ → Tm) (version : Bytes) (o : Outgoing) (path : Bytes) (c : ℕ)
    (name : Bytes) : Type 0 where
  pub method : IsToken o.req.method
  pub uri : o.req.uri ≡ b'/' ∷ path
  pub path_ink : All (λ c. 32 < c) path
  pub host : o.host ≡ c ∷ name
  pub host_value : IsValue o.host
  pub date : IsValue (format_http_time (gmtime o.req.if_modified_since))
  pub forwarded_host : AllValue o.x_forwarded_host
  pub forwarded_for : AllValue o.x_forwarded_for
  pub agent : AllValue o.req.user_agent
  pub program : IsValue (codes "nxweb/" ++ version)
  pub cookie : AllValue o.req.cookie
  pub encoding : AllValue o.req.accept_encoding
  pub content_type : AllValue o.req.content_type
  pub headers : All IsHeader o.req.headers
  pub plain_headers : All (λ e. has_field (header_of e) ≡ false) o.req.headers

unfoldable pub NameOk : Bytes → Type 0
NameOk name = IsName name × (is_same (identify_http_header name (length name)) http_trailer ≡ false)

-- A header that can be written and is no trailer.
abbrev pub IsPlain : Entry → Type 0
IsPlain e = IsHeader e × (is_same (header_of e) http_trailer ≡ false)

pub holds_option :
    (name : Bytes) (v : Option Bytes) → NameOk name → AllValue v → BlockHolds IsPlain (name, v)
unfolding NameOk
holds_option name none n h = tt
holds_option name (some v) (n, t) h = ((n, h), t)

pub holds_if :
    (b : Bool) (name : Bytes) (x y : Option Bytes)
    → BlockHolds IsPlain (name, x)
    → BlockHolds IsPlain (name, y)
    → BlockHolds IsPlain (name, if b then x else y)
holds_if true name x y h k = h
holds_if false name x y h k = k

agent_value :
    (version : Bytes) (a : Option Bytes)
    → AllValue a
    → IsValue (codes "nxweb/" ++ version)
    → IsValue (elim a [ none ↦ codes "nxweb/" ++ version | some agent ↦ agent ])
agent_value version none h k = k
agent_value version (some a) h k = h

default_type_value : IsValue (codes "application/x-www-form-urlencoded")
default_type_value = ink-IsValue (codes "application/x-www-form-urlencoded") (ground arith)

type_value :
    (t : Option Bytes)
    → AllValue t
    → IsValue (elim t [ none ↦ codes "application/x-www-form-urlencoded" | some t ↦ t ])
type_value none h = default_type_value
type_value (some t) h = h

pub alive_value : (b : Bool) → IsValue (if b then codes "keep-alive" else codes "close")
alive_value true = ink-IsValue (codes "keep-alive") (ground arith)
alive_value false = ink-IsValue (codes "close") (ground arith)

module _ (gmtime : ℕ → Tm) (version : Bytes) (o : Outgoing) {path : Bytes} {c : ℕ} {name : Bytes}
    (s : IsSendable gmtime version o path c name) where
  pub first_blocks-IsPlain : All (BlockHolds IsPlain) (first_blocks gmtime version o)
  unfolding first_blocks NameOk identify_http_header same_nocase
  first_blocks-IsPlain =
      let hex : (n : ℕ) → IsValue (uint_to_hex_string_zeropad n 16) =
        λ n. ink-IsValue _ (uint_to_hex_string_zeropad_ink n 16) in
      let root = root_uid o.parents in
      (
        holds_option (codes "Host") (some o.host) (ground arith, refl) s.host_value,
        (
          holds_option (codes "Connection") (some _) (ground arith, refl)
              (alive_value o.req.keep_alive),
          (
            holds_if (o.req.if_modified_since == 0) (codes "If-Modified-Since") none (some _) tt
                (holds_option (codes "If-Modified-Since") (some _) (ground arith, refl) s.date),
            (
              holds_if o.req.expect_100_continue (codes "Expect") (some _) none
                  (holds_option (codes "Expect") (some _) (ground arith, refl)
                    (ink-IsValue (codes "100-continue") (ground arith)))
                  tt,
              (
                holds_if o.x_forwarded_ssl (codes "X-NXWEB-Forwarded-SSL") (some _) none
                    (holds_option (codes "X-NXWEB-Forwarded-SSL") (some _) (ground arith, refl)
                      (ink-IsValue (codes "ON") (ground arith)))
                    tt,
                (
                  holds_option (codes "X-NXWEB-Forwarded-Host") o.x_forwarded_host
                      (ground arith, refl) s.forwarded_host,
                  (
                    holds_option (codes "X-NXWEB-Forwarded-IP") o.x_forwarded_for
                        (ground arith, refl) s.forwarded_for,
                    (
                      holds_if (o.uid == 0) (codes "X-NXWEB-Request-ID") none (some _) tt (
                          holds_option (codes "X-NXWEB-Request-ID") (some _) (ground arith, refl)
                            (hex o.uid)),
                      (
                        holds_if (root == 0) (codes "X-NXWEB-Root-Request-ID") none (some _) tt (
                            holds_option (codes "X-NXWEB-Root-Request-ID") (some _)
                              (ground arith, refl) (hex root)),
                        (
                          holds_option (codes "User-Agent") (some _) (ground arith, refl)
                              (agent_value version o.req.user_agent s.agent s.program),
                          (
                            holds_option (codes "Cookie") o.req.cookie (ground arith, refl)
                                s.cookie,
                            tt,
                          ),
                        ),
                      ),
                    ),
                  ),
                ),
              ),
            ),
          ),
        ),
      )

  pub last_blocks-IsPlain : All (BlockHolds IsPlain) (last_blocks gmtime version o)
  unfolding last_blocks NameOk identify_http_header same_nocase
  last_blocks-IsPlain =
      let n = o.req.content_length in
      let digits =
        ink-IsValue (uint_to_decimal_string n) (digits_ink _ (uint_to_decimal_string-IsDigits n)) in
      (
        holds_option (codes "Accept-Encoding") o.req.accept_encoding (ground arith, refl)
            s.encoding,
        (
          holds_if (n == 0) (codes "Content-Type") none (some _) tt (
              holds_option (codes "Content-Type") (some _) (ground arith, refl)
                (type_value o.req.content_type s.content_type)),
          (
            holds_if (n == 0) (codes "Content-Length") none
                (when (ltb n (2 ^ 63)) (uint_to_decimal_string n)) tt
                (holds_if (ltb n (2 ^ 63)) (codes "Content-Length") (some _) none
                  (holds_option (codes "Content-Length") (some _) (ground arith, refl) digits) tt),
            (
              holds_if (n == 0) (codes "Transfer-Encoding") none
                  (if ltb n (2 ^ 63) then none else some (codes "chunked")) tt
                  (holds_if (ltb n (2 ^ 63)) (codes "Transfer-Encoding") none (some _) tt (
                    holds_option (codes "Transfer-Encoding") (some _) (ground arith, refl)
                      (ink-IsValue (codes "chunked") (ground arith)))),
              tt,
            ),
          ),
        ),
      )

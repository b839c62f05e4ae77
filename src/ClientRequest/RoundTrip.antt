-- ===== src/ClientRequest/RoundTrip.antt =====
-- A request that the proxy of src/lib/http_utils.c sends on, as the server reads it.
use nxweb.Base.{
  ℕ, ◌-◌, ◌^◌, ◌<◌, ◌≡◌, refl, ap, ◌∙◌, sym, Bool, true, false, not, All_imp, Option, none, some,
  List, [], ◌∷◌, ◌++◌, Bytes, codes, All, All-append, arith, if◌then◌else◌, ◌==◌, ltb, inl, inr,
  Bool-cases,
}
use nxweb.Misc.{uint_to_decimal_string}
use nxweb.HttpTime.Number.{strtol_all}
use nxweb.Misc.Decimal.{
  length-uint_to_decimal_string, decimal_number-uint_to_decimal_string,
  uint_to_decimal_string-IsDigits,
}
use nxweb.SimpleMap.{Entry, nx_strtolower, nx_tolower, same_nocase}
use nxweb.HttpTime.{Tm, strtol}
use nxweb.Headers.{
  HeaderName, http_host, http_cookie, http_user_agent, http_content_length, http_accept_encoding,
  http_transfer_encoding, http_connection, http_trailer, identify_http_header,
}
use nxweb.Request.{ok, Request}
use nxweb.Request.FirstLine.{IsToken}
use nxweb.Request.HeaderLines.{IsHeader}
use nxweb.Request.Rendered.{request_text}
use nxweb.Request.Fields.{header_of, last_of, has_field, not_field}
use nxweb.Request.Read.{IsRead, parse_http_request-request_text}
use nxweb.Request.Parse.{parse_http_request, is_word}
use nxweb.ClientRequest.{
  Outgoing, when, first_blocks, last_blocks, sent_method, sent_version,
  prepare_client_request_headers,
}
use nxweb.ClientRequest.Written.{
  entries, sent_headers, prepare_client_request_headers-request_text, given, last_block,
  last_of-entries, last_of-append, entries-All, last_of_none,
}
use nxweb.ClientRequest.Sendable.{IsSendable, IsPlain, first_blocks-IsPlain, last_blocks-IsPlain}

-- The last header of a name that only the written fields, not the added headers, can have.
last_of-sent_headers {ℓ} :
    {A : Type ℓ} (gmtime : ℕ → Tm) (version : Bytes) (o : Outgoing) (f : Bytes → A) (h : HeaderName)
    (d : A)
    → has_field h ≡ true
    → All (λ e. has_field (header_of e) ≡ false) o.req.headers
    → last_of f h d (sent_headers gmtime version o)
      ≡ last_block f h
          (last_block f h d (first_blocks gmtime version o))
          (last_blocks gmtime version o)
last_of-sent_headers gmtime version o f h d t p =
    let fs = first_blocks gmtime version o in
    let ls = last_blocks gmtime version o in
    last_of-append f h d (entries fs) (o.req.headers ++ entries ls)
    ∙ ap (λ d. last_of f h d (o.req.headers ++ entries ls)) (last_of-entries f h d fs)
    ∙ last_of-append f h (last_block f h d fs) o.req.headers (entries ls)
    ∙ ap (λ d. last_of f h d (entries ls))
        (last_of_none f h (last_block f h d fs) o.req.headers t p)
    ∙ last_of-entries f h (last_block f h d fs) ls

pub given-some : (d : Option Bytes) → given some none d ≡ d
given-some none = refl
given-some (some v) = refl

pub alive_again :
    (b d : Bool)
    → given
        (λ v. same_nocase v (codes "keep-alive"))
        d
        (some (if b then codes "keep-alive" else codes "close"))
      ≡ b
unfolding same_nocase
alive_again true d = refl
alive_again false d = refl

chunked_word :
    (z k : Bool)
    → (z ≡ true → k ≡ true)
    → is_word
        (given some none (if z then none else (if k then none else some (codes "chunked"))))
        (codes "chunked")
      ≡ not k
unfolding is_word same_nocase
chunked_word true true h = refl
chunked_word true false h = absurd (let e = h refl in cc)
chunked_word false true h = refl
chunked_word false false h = refl

length_again :
    (n : ℕ)
    → (if not (ltb n (2 ^ 63))
        then 2 ^ 64 - 1
        else given
            (λ v. (strtol v).0)
            0
            (if n == 0 then none else when (ltb n (2 ^ 63)) (uint_to_decimal_string n)))
      ≡ (if ltb n (2 ^ 63) then n else 2 ^ 64 - 1)
length_again n = elim (Bool-cases (ltb n (2 ^ 63))) [
  | inr far ↦ rw far refl
  | inl near ↦
      let lt : n < 2 ^ 63 = ground (arith, near) in
      let r =
        strtol_all (uint_to_decimal_string n) n (uint_to_decimal_string-IsDigits n)
          (length-uint_to_decimal_string n (omega (arith, lt))).0
          (decimal_number-uint_to_decimal_string n) lt in
      rw near (elim (Bool-cases (n == 0)) [
        | inl z ↦ rw z (ground (arith, z))
        | inr z ↦ rw z (ap (λ p. p.0) r)
      ])
]

chunked_again :
    (n : ℕ)
    → is_word
        (given some none
          (if n == 0 then none else (if ltb n (2 ^ 63) then none else some (codes "chunked"))))
        (codes "chunked")
      ≡ not (ltb n (2 ^ 63))
chunked_again n = chunked_word (n == 0) (ltb n (2 ^ 63)) (λ e. ground (arith, e))

-- What the server reads of the request that was sent.
pub record IsReceived (version : Bytes) (o : Outgoing) (r : Request) : Type 0 where
  pub uri : r.uri ≡ o.req.uri
  pub host : r.host ≡ some (nx_strtolower o.host)
  pub cookie : r.cookie ≡ o.req.cookie
  pub accept_encoding : r.accept_encoding ≡ o.req.accept_encoding
  pub keep_alive : r.keep_alive ≡ o.req.keep_alive
  pub user_agent :
      r.user_agent
      ≡ some (elim o.req.user_agent [ none ↦ codes "nxweb/" ++ version | some agent ↦ agent ])
  pub chunked : r.chunked_encoding ≡ not (ltb o.req.content_length (2 ^ 63))
  pub content_length :
      r.content_length
      ≡ (if ltb o.req.content_length (2 ^ 63) then o.req.content_length else 2 ^ 64 - 1)

method-IsToken : (b : Bool) (m : Bytes) → IsToken m → IsToken (if b then codes "HEAD" else m)
method-IsToken true m h = (ground arith, λ e. cc)
method-IsToken false m h = h

pub version-IsToken : (b : Bool) → IsToken (codes "HTTP/1." ++ (if b then b'1' else b'0') ∷ [])
version-IsToken true = (ground arith, λ e. cc)
version-IsToken false = (ground arith, λ e. cc)

added-IsPlain :
    (es : List Entry)
    → All IsHeader es
    → All (λ e. has_field (header_of e) ≡ false) es
    → All IsPlain es
added-IsPlain [] h p = tt
added-IsPlain (e ∷ es) (h, hs) (p, ps) =
    ((h, not_field (header_of e) http_trailer refl p), added-IsPlain es hs ps)

module _ (gmtime : ℕ → Tm) (timegm : Tm → ℕ) (version beyond : Bytes) (o : Outgoing) {path : Bytes}
    {c : ℕ} {name : Bytes} (s : IsSendable gmtime version o path c name) where
  sent_headers-IsPlain : All IsPlain (sent_headers gmtime version o)
  sent_headers-IsPlain =
      let fs = entries-All IsPlain _ (first_blocks-IsPlain gmtime version o s) in
      let ls = entries-All IsPlain _ (last_blocks-IsPlain gmtime version o s) in
      All-append IsPlain _ _ fs
        (All-append IsPlain _ _ (added-IsPlain o.req.headers s.headers s.plain_headers) ls)

  sent_version-IsToken : IsToken (sent_version gmtime version o)
  sent_version-IsToken = version-IsToken o.req.http11

  received :
      (r : Request)
      → IsRead timegm
          (sent_method gmtime version o)
          (b'/' ∷ path)
          (sent_version gmtime version o)
          (sent_headers gmtime version o)
          r
      → IsReceived version o r
  unfolding last_block first_blocks last_blocks identify_http_header same_nocase
  received r i =
      let p = s.plain_headers in
      record {
        uri = i.uri ∙ sym s.uri;
        host =
            i.host
            ∙ last_of-sent_headers gmtime version o (λ v. some (nx_strtolower v)) http_host none
                refl p;
        cookie =
            i.cookie
            ∙ last_of-sent_headers gmtime version o some http_cookie none refl p
            ∙ given-some o.req.cookie;
        accept_encoding =
            i.accept_encoding
            ∙ last_of-sent_headers gmtime version o some http_accept_encoding none refl p
            ∙ given-some o.req.accept_encoding;
        keep_alive =
            i.keep_alive
            ∙ last_of-sent_headers gmtime version o (λ v. same_nocase v (codes "keep-alive"))
                http_connection
                (not (same_nocase (sent_version gmtime version o) (codes "HTTP/1.0"))) refl p
            ∙ alive_again o.req.keep_alive
                (not (same_nocase (sent_version gmtime version o) (codes "HTTP/1.0")));
        user_agent =
            i.user_agent ∙ last_of-sent_headers gmtime version o some http_user_agent none refl p;
        chunked =
            i.chunked_encoding
            ∙ ap (λ t. is_word t (codes "chunked"))
                (last_of-sent_headers gmtime version o some http_transfer_encoding none refl p)
            ∙ chunked_again o.req.content_length;
        content_length =
            i.content_length
            ∙ ap
                (λ b.
                  if b
                  then 2 ^ 64 - 1
                  else last_of (λ v. (strtol v).0) http_content_length 0
                      (sent_headers gmtime version o))
                (ap (λ t. is_word t (codes "chunked"))
                    (last_of-sent_headers gmtime version o some http_transfer_encoding none refl p)
                  ∙ chunked_again o.req.content_length)
            ∙ ap (λ n. if not (ltb o.req.content_length (2 ^ 63)) then 2 ^ 64 - 1 else n)
                (last_of-sent_headers gmtime version o (λ v. (strtol v).0) http_content_length 0
                  refl p)
            ∙ length_again o.req.content_length;
      }

  host_again :
      last_of (λ v. some (nx_strtolower v)) http_host none (sent_headers gmtime version o)
      ≡ some (nx_tolower c ∷ nx_strtolower name)
  unfolding last_block first_blocks last_blocks identify_http_header same_nocase nx_strtolower
  host_again =
      last_of-sent_headers gmtime version o (λ v. some (nx_strtolower v)) http_host none refl
        s.plain_headers
      ∙ ap (λ h. some (nx_strtolower h)) s.host

  -- The headers that the proxy writes for a request whose URI begins with a slash, whose host is not
  -- empty, whose texts can stand in a line, and none of whose added headers has the name, in any
  -- case, of a header that the server reads into a field or refuses (such as Cookie or Trailer) are,
  -- up to the empty line at their end, accepted by the server. It reads the same path, cookie,
  -- accepted encodings and connection, the host in lower case, the user agent or else the program's
  -- own, and the length of the content, or that it is chunked where the length is below zero.
  pub parse_http_request-prepare_client_request_headers :
      (text : Bytes) × (r : Request) × (prepare_client_request_headers gmtime version o
        ≡ text ++ b'\r' ∷ b'\n' ∷ b'\r' ∷ b'\n' ∷ [])
      × (parse_http_request timegm beyond text ≡ ok r)
      × IsReceived version o r
  parse_http_request-prepare_client_request_headers =
      let es = sent_headers gmtime version o in
      let v = sent_version gmtime version o in
      let m = sent_method gmtime version o in
      let h = All_imp (λ e p. p.0) es sent_headers-IsPlain in
      let t = All_imp (λ e p. p.1) es sent_headers-IsPlain in
      let (r, e, i) =
        parse_http_request-request_text timegm beyond m path v es (nx_tolower c)
          (nx_strtolower name) (method-IsToken o.req.head_method o.req.method s.method) s.path_ink
          sent_version-IsToken h t host_again in
      let w = prepare_client_request_headers-request_text gmtime version o in
      (
        request_text m (b'/' ∷ path) v es,
        r,
        w ∙ ap (λ u. request_text m u v es ++ b'\r' ∷ b'\n' ∷ b'\r' ∷ b'\n' ∷ []) s.uri,
        e,
        received r i,
      )

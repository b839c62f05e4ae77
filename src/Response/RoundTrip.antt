-- ===== src/Response/RoundTrip.antt =====
-- The headers of a response that src/lib/http_utils.c writes, as its own client reads them.
use nxweb.Base.{
  ℕ, ◌-◌, ◌^◌, ◌<◌, ◌≡◌, refl, ap, ◌∙◌, sym, Bool, true, false, not, ◌||◌, ◌&&◌, Option, none, some,
  [], ◌∷◌, ◌++◌, Bytes, codes, ltb, ◌==◌, if◌then◌else◌, arith, inl, inr, Bool-cases,
}
use nxweb.Misc.{uint_to_decimal_string}
use nxweb.SimpleMap.{same_nocase}
use nxweb.HttpTime.{Tm, strtol}
use nxweb.Headers.{
  http_etag, http_connection, http_content_type, http_cache_control, http_content_length,
  http_transfer_encoding, identify_http_header,
}
use nxweb.Request.{ok}
use nxweb.Request.Rendered.{header_tail, line_assoc}
use nxweb.Request.Parse.{is_word}
use nxweb.ClientRequest.{when, unless_zero}
use nxweb.ClientRequest.Written.{given, last_block, entries}
use nxweb.ClientRequest.RoundTrip.{given-some, alive_again, version-IsToken}
use nxweb.Response.{
  Response, or_default, charset_text, must_not_have_body, cache_control_value, is_skipped,
  server_blocks, body_blocks, prepare_response_headers,
}
use nxweb.Response.HeaderLines.{set_all, set_all-Collected}
use nxweb.Response.Written.{
  version_word, code_word, sent_code, status_words, written_headers, prepare_response_headers_text,
}
use nxweb.Response.Fields.{IsSendable, written_headers-IsHeader, last_of-written_headers}
use nxweb.Response.Parse.{Loop, finish_response, parse_http_response}
use nxweb.Response.Kept.{length_read, finish_response-IsKept}
use nxweb.Response.Head.{code_read, length_digits, code-IsToken, read_loop, parse_head}

-- The length that a response is received with.
abbrev pub received_length : Response → ℕ
received_length r =
    if not (r.content_length == 0) || not (must_not_have_body r)
    then (if ltb r.content_length (2 ^ 63) then r.content_length else 2 ^ 64 - 1)
    else (if r.keep_alive then 0 else 2 ^ 64 - 1)

-- What the client reads of the response.
pub record IsReceived (gmtime : ℕ → Tm) (version date : Bytes) (r r' : Response) : Type 0 where
  pub status : r'.status ≡ some (status_words gmtime version date r)
  pub status_code : r'.status_code ≡ sent_code gmtime version date r
  pub keep_alive : r'.keep_alive ≡ r.keep_alive
  pub etag : r'.etag ≡ r.etag
  pub content_type :
      r'.content_type
      ≡ unless_zero r.content_length
          (or_default r.content_type (codes "text/html") ++ charset_text r.content_charset)
  pub cache_control : r'.cache_control ≡ cache_control_value r
  pub content_length : r'.content_length ≡ received_length r

small_length : (alive : Bool) (n : ℕ) → n < 2 ^ 63 → length_read false alive n ≡ n
small_length alive n h = ground (arith, h)

length_cases :
    (announced alive : Bool) (n m : ℕ)
    → (n < 2 ^ 63 → m ≡ n)
    → length_read
        (is_word
          (given some none (when (announced && not (ltb n (2 ^ 63))) (codes "chunked")))
          (codes "chunked"))
        alive
        (if announced && ltb n (2 ^ 63) then m else 2 ^ 64 - 1)
      ≡ (if announced
          then (if ltb n (2 ^ 63) then n else 2 ^ 64 - 1)
          else (if alive then 0 else 2 ^ 64 - 1))
unfolding is_word same_nocase
length_cases false true n m h = refl
length_cases false false n m h = refl
length_cases true alive n m h = elim (Bool-cases (ltb n (2 ^ 63))) [
  | inl e ↦ rw (e, h (ground (arith, e))) (small_length alive n (ground (arith, e)))
  | inr e ↦ rw e refl
]

given-when {ℓ} :
    {A : Type ℓ} (f : Bytes → A) (d : A) (b : Bool) (v : Bytes)
    → given f d (when b v) ≡ (if b then f v else d)
given-when f d true v = refl
given-when f d false v = refl

abbrev sent_type : Response → Option Bytes
sent_type r =
    unless_zero r.content_length
      (or_default r.content_type (codes "text/html") ++ charset_text r.content_charset)

abbrev sent_chunked : Response → Bool
sent_chunked r =
    is_word
      (given some none (
        when
          ((not (r.content_length == 0) || not (must_not_have_body r))
            && not (ltb r.content_length (2 ^ 63)))
          (codes "chunked")))
      (codes "chunked")

module _ (gmtime : ℕ → Tm) (timegm : Tm → ℕ) (version date : Bytes) (base r : Response)
    (s : IsSendable gmtime version date r) where
  abbrev last_loop : Loop
  last_loop =
      set_all timegm
        (read_loop base (version_word gmtime version date r) (code_word gmtime version date r)
          (status_words gmtime version date r))
        (written_headers gmtime version date r)

  abbrev head_text : Bytes
  head_text =
      version_word gmtime version date r
      ++ b' '
        ∷ (code_word gmtime version date r
            ++ b' '
              ∷ (status_words gmtime version date r
                  ++ header_tail (written_headers gmtime version date r)))

  head_parsed : parse_http_response timegm base head_text ≡ ok (finish_response last_loop)
  unfolding entries server_blocks
  head_parsed =
      let (h, hs) = written_headers-IsHeader gmtime version date r s in
      parse_head timegm base (version_word gmtime version date r) (code_word gmtime version date r)
        (status_words gmtime version date r) _ _ (version-IsToken r.http11) (code-IsToken _ s.code)
        s.status h hs

  received :
      base.etag ≡ none
      → base.content_type ≡ none
      → base.cache_control ≡ none
      → IsReceived gmtime version date r (finish_response last_loop)
  unfolding last_block server_blocks body_blocks identify_http_header same_nocase is_skipped
  received e t c =
      let (k, l) = finish_response-IsKept last_loop in
      let v = version_word gmtime version date r in
      let n = code_word gmtime version date r in
      let w = status_words gmtime version date r in
      let es = written_headers gmtime version date r in
      let i = set_all-Collected timegm (read_loop base v n w) es in
      let http11 = not (same_nocase v (codes "HTTP/1.0")) in
      let alive =
        i.keep_alive
        ∙ last_of-written_headers gmtime version date r (λ v. same_nocase v (codes "keep-alive"))
            http_connection http11 refl
        ∙ alive_again r.keep_alive http11 in
      let size = r.content_length in
      let announced = not (size == 0) || not (must_not_have_body r) in
      let digits = uint_to_decimal_string size in
      let coding =
        i.transfer_encoding
        ∙ last_of-written_headers gmtime version date r some http_transfer_encoding none refl in
      let length =
        i.content_length
        ∙ last_of-written_headers gmtime version date r (λ v. (strtol v).0) http_content_length
            (2 ^ 64 - 1) refl
        ∙ given-when (λ v. (strtol v).0) (2 ^ 64 - 1) (announced && ltb size (2 ^ 63)) digits in
      record {
        status = k.status ∙ i.status;
        status_code = k.status_code ∙ i.status_code ∙ code_read _ s.code;
        keep_alive = k.keep_alive ∙ alive;
        etag =
            k.etag
            ∙ i.etag
            ∙ last_of-written_headers gmtime version date r some http_etag base.etag refl
            ∙ ap (λ d. given some d r.etag) e
            ∙ given-some r.etag;
        content_type =
            k.content_type
            ∙ i.content_type
            ∙ last_of-written_headers gmtime version date r some http_content_type base.content_type
                refl
            ∙ ap (λ d. given some d (sent_type r)) t
            ∙ given-some (sent_type r);
        cache_control =
            k.cache_control
            ∙ i.cache_control
            ∙ last_of-written_headers gmtime version date r some http_cache_control
                base.cache_control refl
            ∙ ap (λ d. given some d (cache_control_value r)) c
            ∙ given-some (cache_control_value r);
        content_length =
            l
            ∙ ap
                (λ t.
                  length_read (is_word t (codes "chunked")) last_loop.resp.keep_alive
                    last_loop.resp.content_length)
                coding
            ∙ ap (λ a. length_read (sent_chunked r) a last_loop.resp.content_length) alive
            ∙ ap (length_read (sent_chunked r) r.keep_alive) length
            ∙ length_cases announced r.keep_alive size (strtol digits).0 (length_digits size);
      }

  -- The headers that the server writes for a response without raw headers, with a number below 2^31
  -- and texts that can stand in a line, are, up to the empty line at their end, accepted by a client
  -- whose response has no tag, type and Cache-Control before. It reads the same status, number (200
  -- for zero), connection and tag, and the Cache-Control that was written. As the type it reads none where
  -- the length is zero, else the type of the response, `text/html` in place of none, with the charset
  -- behind it if there is one. As the length of the content it reads the one that was announced,
  -- unknown where it is chunked; where no content is allowed and none was announced the length is
  -- zero if the connection is kept and unknown if not.
  pub parse_http_response-prepare_response_headers :
      base.etag ≡ none
      → base.content_type ≡ none
      → base.cache_control ≡ none
      → (text : Bytes) × (r' : Response) × (prepare_response_headers gmtime version date r
          ≡ text ++ b'\r' ∷ b'\n' ∷ b'\r' ∷ b'\n' ∷ [])
        × (parse_http_response timegm base text ≡ ok r')
        × IsReceived gmtime version date r r'
  parse_http_response-prepare_response_headers e t c =
      let end = b'\r' ∷ b'\n' ∷ b'\r' ∷ b'\n' ∷ [] in
      let a =
        line_assoc (version_word gmtime version date r) (code_word gmtime version date r)
          (status_words gmtime version date r) (header_tail (written_headers gmtime version date r))
          end in
      (
        head_text,
        finish_response last_loop,
        prepare_response_headers_text gmtime version date r s.no_raw_headers ∙ sym a,
        head_parsed,
        received e t c,
      )

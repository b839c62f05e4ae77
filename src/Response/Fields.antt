-- ===== src/Response/Fields.antt =====
-- The headers that a response of src/lib/http_utils.c can be sent with, and which of them count.
use nxweb.Base.{
  suc, ℕ, ◌^◌, ◌<◌, ◌≡◌, refl, ap, ◌∙◌, sym, Bool, true, false, not, ◌||◌, ◌&&◌, none, some, List,
  [], ◌∷◌, ◌++◌, Bytes, codes, ltb, ◌==◌, ==_iff, if◌then◌else◌, length, All, All-append, All_imp,
  arith, inl, inr, Bool-cases,
}
use nxweb.Misc.{uint_to_decimal_string}
use nxweb.Misc.Decimal.{digits_ink, uint_to_decimal_string-IsDigits}
use nxweb.SimpleMap.{Entry, same_nocase}
use nxweb.HttpTime.{Tm, format_http_time}
use nxweb.Headers.{
  HeaderName, http_date, http_host, http_etag, http_server, http_expires, http_connection,
  http_content_type, http_last_modified, http_cache_control, http_accept_ranges,
  http_content_length, http_transfer_encoding, identify_http_header,
}
use nxweb.Request.HeaderLines.{IsValue, IsHeader}
use nxweb.Request.Fields.{is_same, header_number, header_of, last_of}
use nxweb.ClientRequest.Sendable.{
  AllValue, IsPlain, NameOk, holds_option, holds_if, alive_value, ink-IsValue,
}
use nxweb.ClientRequest.Written.{
  entries, last_block, last_of-entries, last_of-append, BlockHolds, entries-All,
}
use nxweb.Response.{
  Response, or_default, charset_text, must_not_have_body, cache_control_value, is_skipped,
  server_blocks, body_blocks,
}
use nxweb.Response.HeaderLines.{IsStatus}
use nxweb.Response.Written.{kept, written_headers, sent_code, status_words}

-- The headers that are skipped, by their numbers.
skipped_number : ℕ → Bool
skipped_number n =
    n == header_number http_connection
    || n == header_number http_server
    || n == header_number http_content_type
    || n == header_number http_content_length
    || n == header_number http_transfer_encoding
    || n == header_number http_date
    || n == header_number http_cache_control
    || n == header_number http_expires
    || n == header_number http_last_modified
    || n == header_number http_etag
    || n == header_number http_accept_ranges

skipped_by_number : (h : HeaderName) → is_skipped h ≡ skipped_number (header_number h)
unfolding is_skipped skipped_number
skipped_by_number http_host = refl
skipped_by_number _ = refl

skipped_apart :
    (g h : HeaderName) → is_skipped h ≡ true → is_skipped g ≡ false → is_same g h ≡ false
skipped_apart g h t f = elim (Bool-cases (is_same g h)) [
  | inr other ↦ other
  | inl same ↦
      let e = (==_iff (header_number g) (header_number h)).0 same in
      let q = sym (skipped_by_number g) ∙ f in
      let p = sym (skipped_by_number h) ∙ t in absurd (let q' = rw e at q in cc)
]

identify_again :
    (name : Bytes) → identify_http_header name 0 ≡ identify_http_header name (length name)
unfolding identify_http_header
identify_again [] = refl
identify_again (c ∷ name) =
    let e : (suc (length name) == 0) ≡ false = ground arith in rw (identify_http_header, e) refl

kept-IsHeader : (es : List Entry) → All IsHeader es → All IsHeader (kept es)
unfolding kept
kept-IsHeader [] h = tt
kept-IsHeader (e ∷ es) (h, hs) = elim (Bool-cases (is_skipped (identify_http_header e.name 0))) [
  | inl s ↦ rw s (kept-IsHeader es hs)
  | inr s ↦ rw s (h, kept-IsHeader es hs)
]

last_of-kept {ℓ} :
    {A : Type ℓ} (f : Bytes → A) (h : HeaderName) (d : A) (es : List Entry)
    → is_skipped h ≡ true
    → last_of f h d (kept es) ≡ d
unfolding kept last_of
last_of-kept f h d [] t = refl
last_of-kept f h d (e ∷ es) t = elim (Bool-cases (is_skipped (identify_http_header e.name 0))) [
  | inl s ↦ rw s (last_of-kept f h d es t)
  | inr s ↦
      let a = skipped_apart (header_of e) h t (rw (identify_again e.name) at s) in
      rw s
        (ap (λ b. last_of f h (if b then f e.value else d) (kept es)) a ∙ last_of-kept f h d es t)
]

-- A response whose texts can stand in its lines.
pub record IsSendable (gmtime : ℕ → Tm) (version date : Bytes) (r : Response) : Type 0 where
  pub code : sent_code gmtime version date r < 2 ^ 31
  pub status : IsStatus (status_words gmtime version date r)
  pub program : IsValue (codes "nxweb/" ++ version)
  pub date_value : IsValue date
  pub kind :
      IsValue (or_default r.content_type (codes "text/html") ++ charset_text r.content_charset)
  pub modified : IsValue (format_http_time (gmtime r.last_modified))
  pub etag : AllValue r.etag
  pub expiry : IsValue (format_http_time (gmtime r.expires))
  pub cache_control : AllValue (cache_control_value r)
  pub headers : All IsHeader r.headers
  pub no_raw_headers : r.extra_raw_headers ≡ none

module _ (gmtime : ℕ → Tm) (version date : Bytes) (r : Response) where
  server_blocks-IsPlain :
      IsValue (codes "nxweb/" ++ version)
      → IsValue date
      → All (BlockHolds IsPlain) (server_blocks gmtime version date r.keep_alive)
  unfolding server_blocks NameOk identify_http_header same_nocase
  server_blocks-IsPlain p d = (
    holds_option (codes "Server") (some _) (ground arith, refl) p,
    (
      holds_option (codes "Date") (some _) (ground arith, refl) d,
      (
        holds_option (codes "Connection") (some _) (ground arith, refl) (alive_value r.keep_alive),
        tt,
      ),
    ),
  )

  body_blocks-IsPlain :
      IsSendable gmtime version date r
      → All (BlockHolds IsPlain) (body_blocks gmtime version date r)
  unfolding body_blocks NameOk identify_http_header same_nocase
  body_blocks-IsPlain s =
      let n = r.content_length in
      let announced = not (n == 0) || not (must_not_have_body r) in
      let digits =
        ink-IsValue (uint_to_decimal_string n) (digits_ink _ (uint_to_decimal_string-IsDigits n)) in
      (
        holds_if (n == 0) (codes "Content-Type") none (some _) tt
            (holds_option (codes "Content-Type") (some _) (ground arith, refl) s.kind),
        (
          holds_if (not (n == 0) && r.gzip_encoded) (codes "Content-Encoding") (some _) none
              (holds_option (codes "Content-Encoding") (some _) (ground arith, refl)
                (ink-IsValue (codes "gzip") (ground arith)))
              tt,
          (
            holds_if (r.last_modified == 0) (codes "Last-Modified") none (some _) tt
                (holds_option (codes "Last-Modified") (some _) (ground arith, refl) s.modified),
            (
              holds_option (codes "ETag") r.etag (ground arith, refl) s.etag,
              (
                holds_if (r.expires == 0) (codes "Expires") none (some _) tt
                    (holds_option (codes "Expires") (some _) (ground arith, refl) s.expiry),
                (
                  holds_option (codes "Cache-Control") (cache_control_value r) (ground arith, refl)
                      s.cache_control,
                  (
                    holds_if (announced && ltb n (2 ^ 63)) (codes "Content-Length") (some _) none
                        (holds_option (codes "Content-Length") (some _) (ground arith, refl) digits)
                        tt,
                    (
                      holds_if (announced && not (ltb n (2 ^ 63))) (codes "Transfer-Encoding")
                          (some _) none
                          (holds_option (codes "Transfer-Encoding") (some _) (ground arith, refl)
                            (ink-IsValue (codes "chunked") (ground arith)))
                          tt,
                      tt,
                    ),
                  ),
                ),
              ),
            ),
          ),
        ),
      )

  pub written_headers-IsHeader :
      IsSendable gmtime version date r → All IsHeader (written_headers gmtime version date r)
  written_headers-IsHeader s =
      let fs = entries-All IsPlain _ (server_blocks-IsPlain s.program s.date_value) in
      let ls = entries-All IsPlain _ (body_blocks-IsPlain s) in
      All-append IsHeader _ _ (All_imp (λ e p. p.0) _ fs)
        (All-append IsHeader _ _ (kept-IsHeader r.headers s.headers) (All_imp (λ e p. p.0) _ ls))

  -- The last header of a name that no added header can have.
  pub last_of-written_headers {ℓ} :
      {A : Type ℓ} (f : Bytes → A) (h : HeaderName) (d : A)
      → is_skipped h ≡ true
      → last_of f h d (written_headers gmtime version date r)
        ≡ last_block f h
            (last_block f h d (server_blocks gmtime version date r.keep_alive))
            (body_blocks gmtime version date r)
  last_of-written_headers f h d t =
      let fs = server_blocks gmtime version date r.keep_alive in
      let ls = body_blocks gmtime version date r in
      last_of-append f h d (entries fs) (kept r.headers ++ entries ls)
      ∙ ap (λ d. last_of f h d (kept r.headers ++ entries ls)) (last_of-entries f h d fs)
      ∙ last_of-append f h (last_block f h d fs) (kept r.headers) (entries ls)
      ∙ ap (λ d. last_of f h d (entries ls)) (last_of-kept f h (last_block f h d fs) r.headers t)
      ∙ last_of-entries f h (last_block f h d fs) ls

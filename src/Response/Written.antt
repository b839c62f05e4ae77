-- ===== src/Response/Written.antt =====
-- The text of a response's headers that src/lib/http_utils.c writes, as a first line and a list of
-- headers.
use nxweb.Base.{
  ℕ, ◌≡◌, refl, ap, ◌∙◌, none, List, [], ◌∷◌, ◌++◌, Bytes, codes, ◌==◌, if◌then◌else◌, inl, inr,
  Bool-cases, append_assoc,
}
use nxweb.Misc.{uint_to_decimal_string}
use nxweb.SimpleMap.{Entry}
use nxweb.HttpTime.{Tm}
use nxweb.Headers.{identify_http_header}
use nxweb.Request.Rendered.{header_tail}
use nxweb.ClientRequest.{field_text, blocks_text, headers_text}
use nxweb.ClientRequest.Written.{
  entries, blocks_text_then, headers_text_then, headers_then-append, header_tail_end,
}
use nxweb.Response.{
  Response, or_default, is_skipped, extra_response_headers, status_line, server_blocks, body_blocks,
  prepare_response_headers,
}

-- The added headers that are not skipped.
unfoldable pub kept : List Entry → List Entry
kept [] = []
kept (e ∷ es) = if is_skipped (identify_http_header e.name 0) then kept es else e ∷ kept es

extra_response_headers_text : (es : List Entry) → extra_response_headers es ≡ headers_text (kept es)
unfolding extra_response_headers kept headers_text
extra_response_headers_text [] = refl
extra_response_headers_text (e ∷ es) =
    elim (Bool-cases (is_skipped (identify_http_header e.name 0))) [
      | inl s ↦ rw s (extra_response_headers_text es)
      | inr s ↦ rw s (ap (λ t. field_text e.name e.value ++ t) (extra_response_headers_text es))
    ]

module _ (gmtime : ℕ → Tm) (version date : Bytes) where
  abbrev pub written_headers : Response → List Entry
  written_headers r =
      entries (server_blocks gmtime version date r.keep_alive)
      ++ (kept r.headers ++ entries (body_blocks gmtime version date r))

  abbrev pub version_word : Response → Bytes
  version_word r = codes "HTTP/1." ++ (if r.http11 then b'1' else b'0') ∷ []

  abbrev pub sent_code : Response → ℕ
  sent_code r = if r.status_code == 0 then 200 else r.status_code

  abbrev pub code_word : Response → Bytes
  code_word r = uint_to_decimal_string (sent_code r)

  abbrev pub status_words : Response → Bytes
  status_words r = or_default r.status (codes "OK")

  -- A response without raw headers is written as its first line, its headers and an empty line.
  pub prepare_response_headers_text :
      (r : Response)
      → r.extra_raw_headers ≡ none
      → prepare_response_headers gmtime version date r
        ≡ version_word r
          ++ b' '
            ∷ (code_word r
                ++ b' '
                  ∷ (status_words r
                      ++ (header_tail (written_headers r) ++ b'\r' ∷ b'\n' ∷ b'\r' ∷ b'\n' ∷ [])))
  unfolding prepare_response_headers status_line
  prepare_response_headers_text r n =
      let fs = server_blocks gmtime version date r.keep_alive in
      let ls = body_blocks gmtime version date r in
      let end : Bytes = b'\r' ∷ b'\n' ∷ [] in
      let a = blocks_text_then ls end in
      let b =
        ap (λ t. t ++ (blocks_text ls ++ end)) (extra_response_headers_text r.headers)
        ∙ ap (λ t. headers_text (kept r.headers) ++ t) a
        ∙ headers_text_then (kept r.headers) _
        ∙ headers_then-append (kept r.headers) (entries ls) _ in
      let c =
        ap (λ t. blocks_text fs ++ t) b
        ∙ blocks_text_then fs _
        ∙ headers_then-append (entries fs) _ _ in
      let d = ap (λ t. b'\r' ∷ b'\n' ∷ t) c ∙ header_tail_end (written_headers r) in
      let rest = blocks_text fs ++ (extra_response_headers r.headers ++ (blocks_text ls ++ end)) in
      let e =
        append_assoc (code_word r) (b' ' ∷ (status_words r ++ end)) rest
        ∙ ap (λ t. code_word r ++ b' ' ∷ t) (append_assoc (status_words r) end rest) in
      let f = ap (λ t. code_word r ++ b' ' ∷ (status_words r ++ t)) d in
      rw n (ap (λ t. version_word r ++ b' ' ∷ t) (e ∙ f))

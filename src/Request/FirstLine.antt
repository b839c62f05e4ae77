-- ===== src/Request/FirstLine.antt =====
-- What the first line of a request is read as, src/lib/http_utils.c.
use nxweb.Base.{
  ℕ, ◌<◌, ◌≤◌, ◌≡◌, ◌≢◌, refl, false, none, some, [], ◌∷◌, ◌++◌, Bytes, not, codes, All, arith,
  append-nil,
}
use nxweb.SimpleMap.{same_nocase}
use nxweb.Request.{
  ok, Request, find_newline, first_line, token, skip_blanks, next_token, request_line, strip_prefix,
  absolute_uri, starts_slash, start_request,
}

abbrev pub IsToken : Bytes → Type 0
IsToken t = All (λ c. 32 < c) t × (t ≢ [])

-- The bytes of a line: neither NUL nor a line feed.
abbrev pub IsLine : Bytes → Type 0
IsLine = All (λ c. (0 < c) × (c ≢ b'\n'))

pub find_newline-append : (l s : Bytes) → IsLine l → find_newline (l ++ b'\n' ∷ s) ≡ some (l, s)
unfolding find_newline
find_newline-append [] s h = refl
find_newline-append (c ∷ l) s (h, t) = let r = find_newline-append l s t in ground (arith, r, h)

find_newline_fails : (l : Bytes) → IsLine l → find_newline l ≡ none
unfolding find_newline
find_newline_fails [] h = refl
find_newline_fails (c ∷ l) (h, t) = let r = find_newline_fails l t in ground (arith, r, h)

pub first_line-append : (l s : Bytes) → IsLine l → first_line (l ++ b'\n' ∷ s) ≡ (l, s)
unfolding first_line
first_line-append l s h = rw (first_line, find_newline-append l s h) refl

pub first_line_alone : (l : Bytes) → IsLine l → first_line l ≡ (l, [])
unfolding first_line
first_line_alone l h = rw (first_line, find_newline_fails l h) refl

pub token-append :
    (t : Bytes) (c : ℕ) (s : Bytes) → All (λ c. 32 < c) t → c ≤ 32 → token (t ++ c ∷ s) ≡ (t, c ∷ s)
unfolding token
token-append [] c s h b = ground (arith, b)
token-append (d ∷ t) c s (a, h) b = let r = token-append t c s h b in ground (arith, r, a)

token_alone : (t : Bytes) → All (λ c. 32 < c) t → token t ≡ (t, [])
unfolding token
token_alone [] h = refl
token_alone (d ∷ t) (a, h) = let r = token_alone t h in ground (arith, r, a)

pub next_token-append : (t s : Bytes) → IsToken t → next_token (b' ' ∷ (t ++ s)) ≡ ok (t ++ s)
unfolding next_token skip_blanks
next_token-append [] s (h, n) = absurd (n refl)
next_token-append (d ∷ t) s ((a, h), n) = ground (arith, a)

-- Either nothing stands behind the version, or a blank does.
abbrev pub EndsToken : Bytes → Type 0
EndsToken [] = Unit
EndsToken (c ∷ s) = c ≤ 32

token_end : (t e : Bytes) → All (λ c. 32 < c) t → EndsToken e → token (t ++ e) ≡ (t, e)
token_end t [] h b = rw append-nil (token_alone t h)
token_end t (c ∷ s) h b = token-append t c s h b

request_line_tokens :
    (m u v e : Bytes)
    → IsToken m
    → IsToken u
    → IsToken v
    → EndsToken e
    → request_line (m ++ b' ' ∷ (u ++ b' ' ∷ (v ++ e))) ≡ ok (m, u, v)
unfolding request_line
request_line_tokens m u v e hm hu hv b =
    let t1 = token-append m b' ' (u ++ b' ' ∷ (v ++ e)) hm.0 (omega arith) in
    let n1 = next_token-append u (b' ' ∷ (v ++ e)) hu in
    let t2 = token-append u b' ' (v ++ e) hu.0 (omega arith) in
    let n2 = next_token-append v e hv in
    let t3 = token_end v e hv.0 b in rw (t1, n1, t2, n2, t3) refl

-- The request that a first line with a path makes.
unfoldable pub plain_request : Bytes → Bytes → Bytes → Request
plain_request m u v = record {
  method = m;
  uri = u;
  http_version = v;
  host = none;
  cookie = none;
  user_agent = none;
  content_type = none;
  transfer_encoding = none;
  accept_encoding = none;
  range = none;
  content_length = 0;
  if_modified_since = 0;
  headers = [];
  http11 = not (same_nocase v (codes "HTTP/1.0"));
  keep_alive = not (same_nocase v (codes "HTTP/1.0"));
  accept_gzip_encoding = false;
  chunked_encoding = false;
  expect_100_continue = false;
  head_method = false;
  get_method = false;
  post_method = false;
  other_method = false;
}

pub start_request_lem :
    (m u v e : Bytes)
    → IsToken m
    → All (λ c. 32 < c) u
    → IsToken v
    → EndsToken e
    → start_request (m ++ b' ' ∷ (b'/' ∷ (u ++ b' ' ∷ (v ++ e))))
      ≡ ok (plain_request m (b'/' ∷ u) v)
unfolding start_request plain_request absolute_uri strip_prefix starts_slash
start_request_lem m u v e hm hu hv b =
    let r = request_line_tokens m (b'/' ∷ u) v e hm ((omega arith, hu), λ q. cc) hv b in rw r refl

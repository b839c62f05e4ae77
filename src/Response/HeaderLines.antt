-- ===== src/Response/HeaderLines.antt =====
-- What the lines of a response are read as, src/lib/http_utils.c.
use nxweb.Base.{
  ℕ, ◌<◌, ◌≤◌, ◌≡◌, refl, ap, ◌∙◌, some, List, [], ◌∷◌, ◌++◌, Bytes, codes, All, arith,
  if◌then◌else◌, append_assoc,
}
use nxweb.Misc.Trim.{IsBlank, trunc_space_padded}
use nxweb.SimpleMap.{Entry, same_nocase}
use nxweb.HttpTime.{Tm, strtol}
use nxweb.Headers.{
  HeaderName, http_etag, http_expires, http_connection, http_content_type, http_last_modified,
  http_cache_control, http_content_length, http_transfer_encoding,
}
use nxweb.Request.{ok, split_at, next_token}
use nxweb.Request.FirstLine.{IsToken, token-append, next_token-append}
use nxweb.Request.HeaderLines.{IsName, IsHeader, split_at-append}
use nxweb.Request.Rendered.{text_lines, line_end, line_end-IsBlank}
use nxweb.Request.Fields.{is_same, header_of, last_of}
use nxweb.Request.Parse.{http_time}
use nxweb.Response.Parse.{
  status_text, response_line, Loop, set_header, found_header, header_line, header_lines,
}

-- A status begins with no blank and holds no byte below the blank.
unfoldable pub IsStatus : Bytes → Type 0
IsStatus [] = ⊥
IsStatus (c ∷ s) = (32 < c) × All (λ c. 32 ≤ c) s

status_text-append :
    (s : Bytes) (c : ℕ) (t : Bytes) → All (λ c. 32 ≤ c) s → c < 32 → status_text (s ++ c ∷ t) ≡ s
unfolding status_text
status_text-append [] c t h b = ground (arith, b)
status_text-append (d ∷ s) c t (a, h) b =
    let r = status_text-append s c t h b in ground (arith, r, a)

next_token_ink : (c : ℕ) (s : Bytes) → 32 < c → next_token (b' ' ∷ c ∷ s) ≡ ok (c ∷ s)
next_token_ink c s h = next_token-append (c ∷ []) s ((h, tt), λ e. cc)

pub response_line_words :
    (v n s : Bytes)
    → IsToken v
    → IsToken n
    → IsStatus s
    → response_line (v ++ b' ' ∷ (n ++ b' ' ∷ (s ++ b'\r' ∷ []))) ≡ ok (v, n, s)
unfolding response_line IsStatus
response_line_words v n [] hv hn hs = absurd hs
response_line_words v n (c ∷ s) hv hn (a, h) =
    let rest = c ∷ (s ++ b'\r' ∷ []) in
    let t1 = token-append v b' ' (n ++ b' ' ∷ rest) hv.0 (omega arith) in
    let n1 = next_token-append n (b' ' ∷ rest) hn in
    let t2 = token-append n b' ' rest hn.0 (omega arith) in
    let n2 = next_token_ink c (s ++ b'\r' ∷ []) a in
    let e = status_text-append (c ∷ s) b'\r' [] (omega (arith, a), h) (omega arith) in
    rw (t1, n1, t2, n2, e) refl

module _ (timegm : Tm → ℕ) where
  unfoldable pub set_all : Loop → List Entry → Loop
  set_all st [] = st
  set_all st (e ∷ es) = set_all (set_header timegm st e.name e.value (header_of e)) es

  header_line_ink :
      (st : Loop) (name s : Bytes)
      → IsName name
      → header_line timegm st (name ++ s) ≡ found_header timegm st (split_at b':' (name ++ s))
  unfolding header_line
  header_line_ink st [] s (_, n) = absurd (n refl)
  header_line_ink st (c ∷ name) s ((a, _), _) = ground (arith, a)

  header_line_text :
      (st : Loop) (e : Entry) (b : Bytes)
      → IsHeader e
      → IsBlank b
      → header_line timegm st (e.name ++ b':' ∷ (b' ' ∷ (e.value ++ b)))
        ≡ set_header timegm st e.name e.value (header_of e)
  unfolding found_header
  header_line_text st e b ((n, m), (_, s, i)) h =
      let a = split_at-append e.name (b' ' ∷ (e.value ++ b)) n in
      let t = trunc_space_padded e.value b s i h in
      header_line_ink st e.name _ (n, m) ∙ rw (a, t) refl

  pub header_lines-text_lines :
      (st : Loop) (es : List Entry)
      → All IsHeader es
      → header_lines timegm st (text_lines es) ≡ set_all st es
  unfolding header_lines set_all
  header_lines-text_lines st [] h = refl
  header_lines-text_lines st (e ∷ es) (h, hs) =
      let a = append_assoc e.name (b':' ∷ b' ' ∷ e.value) (line_end es) in
      let l =
        ap (header_line timegm st) a
        ∙ header_line_text st e (line_end es) h (line_end-IsBlank es) in
      ap (λ st. header_lines timegm st (text_lines es)) l
      ∙ header_lines-text_lines (set_header timegm st e.name e.value (header_of e)) es hs

  -- Each field has the value of the last of its headers, or what it had before.
  pub record Collected (st : Loop) (es : List Entry) (st' : Loop) : Type 0 where
    pub content_type :
        st'.resp.content_type ≡ last_of some http_content_type st.resp.content_type es
    pub content_length :
        st'.resp.content_length
        ≡ last_of (λ v. (strtol v).0) http_content_length st.resp.content_length es
    pub transfer_encoding :
        st'.transfer_encoding ≡ last_of some http_transfer_encoding st.transfer_encoding es
    pub keep_alive :
        st'.resp.keep_alive
        ≡ last_of (λ v. same_nocase v (codes "keep-alive")) http_connection st.resp.keep_alive es
    pub etag : st'.resp.etag ≡ last_of some http_etag st.resp.etag es
    pub cache_control :
        st'.resp.cache_control ≡ last_of some http_cache_control st.resp.cache_control es
    pub last_modified :
        st'.resp.last_modified
        ≡ last_of (http_time timegm) http_last_modified st.resp.last_modified es
    pub expires : st'.resp.expires ≡ last_of (http_time timegm) http_expires st.resp.expires es
    pub status : st'.resp.status ≡ st.resp.status
    pub status_code : st'.resp.status_code ≡ st.resp.status_code
    pub no_cache : st'.resp.no_cache ≡ st.resp.no_cache
    pub cache_private : st'.resp.cache_private ≡ st.resp.cache_private
    pub max_age : st'.resp.max_age ≡ st.resp.max_age

  -- One header sets its field and no other.
  record Sets (st : Loop) (value : Bytes) (h : HeaderName) (st' : Loop) : Type 0 where
    content_type :
        st'.resp.content_type
        ≡ (if is_same h http_content_type then some value else st.resp.content_type)
    content_length :
        st'.resp.content_length
        ≡ (if is_same h http_content_length then (strtol value).0 else st.resp.content_length)
    transfer_encoding :
        st'.transfer_encoding
        ≡ (if is_same h http_transfer_encoding then some value else st.transfer_encoding)
    keep_alive : st'.resp.keep_alive ≡ (
        if is_same h http_connection
        then same_nocase value (codes "keep-alive")
        else st.resp.keep_alive)
    etag : st'.resp.etag ≡ (if is_same h http_etag then some value else st.resp.etag)
    cache_control :
        st'.resp.cache_control
        ≡ (if is_same h http_cache_control then some value else st.resp.cache_control)
    last_modified :
        st'.resp.last_modified
        ≡ (if is_same h http_last_modified then http_time timegm value else st.resp.last_modified)
    expires :
        st'.resp.expires
        ≡ (if is_same h http_expires then http_time timegm value else st.resp.expires)
    status : st'.resp.status ≡ st.resp.status
    status_code : st'.resp.status_code ≡ st.resp.status_code
    no_cache : st'.resp.no_cache ≡ st.resp.no_cache
    cache_private : st'.resp.cache_private ≡ st.resp.cache_private
    max_age : st'.resp.max_age ≡ st.resp.max_age

  set_header-Sets :
      (st : Loop) (name value : Bytes) (h : HeaderName)
      → Sets st value h (set_header timegm st name value h)
  unfolding set_header
  set_header-Sets st name value http_content_type = record {
    content_type = refl;
    content_length = refl;
    transfer_encoding = refl;
    keep_alive = refl;
    etag = refl;
    cache_control = refl;
    last_modified = refl;
    expires = refl;
    status = refl;
    status_code = refl;
    no_cache = refl;
    cache_private = refl;
    max_age = refl;
  }
  set_header-Sets st name value _ = record {
    content_type = refl;
    content_length = refl;
    transfer_encoding = refl;
    keep_alive = refl;
    etag = refl;
    cache_control = refl;
    last_modified = refl;
    expires = refl;
    status = refl;
    status_code = refl;
    no_cache = refl;
    cache_private = refl;
    max_age = refl;
  }

  set_all_next :
      (st : Loop) (e : Entry) (es : List Entry) {st' : Loop}
      → Collected (set_header timegm st e.name e.value (header_of e)) es st'
      → Collected st (e ∷ es) st'
  unfolding last_of
  set_all_next st e es c =
      let s = set_header-Sets st e.name e.value (header_of e) in
      record {
        content_type =
            c.content_type ∙ ap (λ d. last_of some http_content_type d es) s.content_type;
        content_length =
            c.content_length
            ∙ ap (λ d. last_of (λ v. (strtol v).0) http_content_length d es) s.content_length;
        transfer_encoding =
            c.transfer_encoding
            ∙ ap (λ d. last_of some http_transfer_encoding d es) s.transfer_encoding;
        keep_alive =
            c.keep_alive
            ∙ ap (λ d. last_of (λ v. same_nocase v (codes "keep-alive")) http_connection d es)
                s.keep_alive;
        etag = c.etag ∙ ap (λ d. last_of some http_etag d es) s.etag;
        cache_control =
            c.cache_control ∙ ap (λ d. last_of some http_cache_control d es) s.cache_control;
        last_modified =
            c.last_modified
            ∙ ap (λ d. last_of (http_time timegm) http_last_modified d es) s.last_modified;
        expires = c.expires ∙ ap (λ d. last_of (http_time timegm) http_expires d es) s.expires;
        status = c.status ∙ s.status;
        status_code = c.status_code ∙ s.status_code;
        no_cache = c.no_cache ∙ s.no_cache;
        cache_private = c.cache_private ∙ s.cache_private;
        max_age = c.max_age ∙ s.max_age;
      }

  pub set_all-Collected : (st : Loop) (es : List Entry) → Collected st es (set_all st es)
  unfolding set_all last_of
  set_all-Collected st [] = record {
    content_type = refl;
    content_length = refl;
    transfer_encoding = refl;
    keep_alive = refl;
    etag = refl;
    cache_control = refl;
    last_modified = refl;
    expires = refl;
    status = refl;
    status_code = refl;
    no_cache = refl;
    cache_private = refl;
    max_age = refl;
  }
  set_all-Collected st (e ∷ es) =
      set_all_next st e es
        (set_all-Collected (set_header timegm st e.name e.value (header_of e)) es)

-- ===== src/Headers/Identify.antt =====
-- The switch of `identify_http_header` of src/lib/http_utils.c against a table of the names.
use nxweb.Base.{
  ℕ, sym, ◌∙◌, lt_or_le, zero, ◌<◌, suc, ◌≡◌, refl, ap, true, List, [], ◌∷◌, Bytes, ◌==◌, ◌&&◌,
  if◌then◌else◌, length, codes, arith, IsText, All, ◌≤◌, ◌⊎◌, inl, inr, leb,
}
use nxweb.SimpleMap.{nx_tolower, nx_strcasecmp, nx_strtolower, is_zero, same_nocase}
use nxweb.Headers.{
  HeaderName, http_unknown, http_date, http_host, http_etag, http_range, http_cookie, http_expect,
  http_server, http_expires, http_trailer, http_connection, http_keep_alive, http_user_agent,
  http_content_type, http_last_modified, http_cache_control, http_accept_ranges,
  http_content_length, http_accept_encoding, http_if_modified_since, http_transfer_encoding,
  http_x_nxweb_ssi, http_x_nxweb_templates, known, first_char, short_header, middle_header,
  long_header, identify_http_header,
}

abbrev pub header_table : List (Bytes × HeaderName)
header_table =
    (codes "Host", http_host)
    ∷ (codes "Date", http_date)
    ∷ (codes "ETag", http_etag)
    ∷ (codes "Range", http_range)
    ∷ (codes "Cookie", http_cookie)
    ∷ (codes "Expect", http_expect)
    ∷ (codes "Server", http_server)
    ∷ (codes "Trailer", http_trailer)
    ∷ (codes "Expires", http_expires)
    ∷ (codes "Connection", http_connection)
    ∷ (codes "Keep-Alive", http_keep_alive)
    ∷ (codes "User-Agent", http_user_agent)
    ∷ (codes "X-NXWEB-SSI", http_x_nxweb_ssi)
    ∷ (codes "Content-Type", http_content_type)
    ∷ (codes "Cache-Control", http_cache_control)
    ∷ (codes "Last-Modified", http_last_modified)
    ∷ (codes "Accept-Ranges", http_accept_ranges)
    ∷ (codes "Content-Length", http_content_length)
    ∷ (codes "Accept-Encoding", http_accept_encoding)
    ∷ (codes "Transfer-Encoding", http_transfer_encoding)
    ∷ (codes "If-Modified-Since", http_if_modified_since)
    ∷ (codes "X-NXWEB-Templates", http_x_nxweb_templates)
    ∷ []

-- The entry whose name is the same up to the case of the letters.
unfoldable pub lookup_nocase : List (Bytes × HeaderName) → Bytes → HeaderName
lookup_nocase [] name = http_unknown
lookup_nocase ((text, header) ∷ table) name =
    if same_nocase name text then header else lookup_nocase table name

strcasecmp_cased :
    (s s' t : Bytes) → nx_strtolower s ≡ nx_strtolower s' → nx_strcasecmp s t ≡ nx_strcasecmp s' t
unfolding nx_strcasecmp nx_strtolower
strcasecmp_cased [] [] t e = refl
strcasecmp_cased [] (y ∷ s') t e = cc
strcasecmp_cased (x ∷ s) [] t e = cc
strcasecmp_cased (x ∷ s) (y ∷ s') [] e = ground (arith, e)
strcasecmp_cased (x ∷ s) (y ∷ s') (z ∷ t) e =
    let r = strcasecmp_cased s s' t in ground (arith, e, r)

same_nocase_cased :
    (s s' t : Bytes) → nx_strtolower s ≡ nx_strtolower s' → same_nocase s t ≡ same_nocase s' t
unfolding same_nocase
same_nocase_cased s s' t e = ap is_zero (strcasecmp_cased s s' t e)

-- Names that are the same in lower case are looked up alike.
pub lookup_nocase_cased :
    (table : List (Bytes × HeaderName)) (s s' : Bytes)
    → nx_strtolower s ≡ nx_strtolower s'
    → lookup_nocase table s ≡ lookup_nocase table s'
unfolding lookup_nocase
lookup_nocase_cased [] s s' e = refl
lookup_nocase_cased ((text, header) ∷ table) s s' e =
    rw (same_nocase_cased s s' text e, lookup_nocase_cased table s s' e) refl

same_nocase-length :
    (s t : Bytes) → IsText s → IsText t → same_nocase s t ≡ true → length s ≡ length t
unfolding same_nocase nx_strcasecmp
same_nocase-length [] [] hs ht e = refl
same_nocase-length [] (y ∷ t) hs ((a, _), ht) e = ground (arith, e, a)
same_nocase-length (x ∷ s) [] ((a, _), hs) ht e = ground (arith, e, a)
same_nocase-length (x ∷ s) (y ∷ t) (_, hs) (_, ht) e = ground (arith, same_nocase-length s t hs ht)

same_nocase-first_char :
    (s t : Bytes)
    → IsText s
    → IsText t
    → same_nocase s t ≡ true
    → nx_tolower (first_char s) ≡ nx_tolower (first_char t)
unfolding same_nocase nx_strcasecmp first_char
same_nocase-first_char [] [] hs ht e = refl
same_nocase-first_char [] (y ∷ t) hs ((a, _), ht) e = ground (arith, e, a)
same_nocase-first_char (x ∷ s) [] ((a, _), hs) ht e = ground (arith, e, a)
same_nocase-first_char (x ∷ s) (y ∷ t) (_, hs) (_, ht) e = ground (arith, e)

-- The lookup that asks for the length and the first letter before it compares.
guarded : ℕ → ℕ → List (Bytes × HeaderName) → Bytes → HeaderName
guarded n first [] name = http_unknown
guarded n first ((text, header) ∷ table) name =
    let rest = guarded n first table name in
    if n == length text && first == nx_tolower (first_char text)
    then if same_nocase name text then header else rest
    else rest

guarded-lookup_nocase :
    (table : List (Bytes × HeaderName)) (name : Bytes)
    → IsText name
    → All (λ e. IsText e.0) table
    → lookup_nocase table name ≡ guarded (length name) (nx_tolower (first_char name)) table name
unfolding lookup_nocase guarded
guarded-lookup_nocase [] name hn ht = refl
guarded-lookup_nocase ((text, header) ∷ table) name hn (h, ht) =
    let r = guarded-lookup_nocase table name hn ht in
    let l = same_nocase-length name text hn h in
    let f = same_nocase-first_char name text hn h in ground (arith, r, l, f)

header_of : ℕ → ℕ → Bytes → HeaderName
header_of n first name =
    if leb n 7
    then short_header n first name
    else if leb n 12
    then middle_header n first name
    else long_header n first name

header_of_known :
    (n first : ℕ) (name : Bytes)
    → n < 18
    → header_of n first name ≡ guarded n first header_table name
unfolding header_of short_header middle_header long_header known guarded first_char
header_of_known zero first name h = refl
header_of_known (suc zero) first name h = refl
header_of_known (suc (suc zero)) first name h = refl
header_of_known (suc (suc (suc zero))) first name h = refl
header_of_known (suc (suc (suc (suc zero)))) first name h = ground arith
header_of_known (suc (suc (suc (suc (suc zero))))) first name h = ground arith
header_of_known (suc (suc (suc (suc (suc (suc zero)))))) first name h = ground arith
header_of_known (suc (suc (suc (suc (suc (suc (suc zero))))))) first name h = ground arith
header_of_known (suc (suc (suc (suc (suc (suc (suc (suc zero)))))))) first name h = refl
header_of_known (suc (suc (suc (suc (suc (suc (suc (suc (suc zero))))))))) first name h = refl
header_of_known (suc (suc (suc (suc (suc (suc (suc (suc (suc (suc zero)))))))))) first name h =
    ground arith
header_of_known (suc (suc (suc (suc (suc (suc (suc (suc (suc (suc (suc zero))))))))))) first name
      h =
    ground arith
header_of_known (suc (suc (suc (suc (suc (suc (suc (suc (suc (suc (suc (suc zero)))))))))))) first
      name h =
    ground arith
header_of_known (suc (suc (suc (suc (suc (suc (suc (suc (suc (suc (suc (suc (suc zero)))))))))))))
      first name h =
    ground arith
header_of_known
      (suc (suc (suc (suc (suc (suc (suc (suc (suc (suc (suc (suc (suc (suc zero)))))))))))))) first
      name h =
    ground arith
header_of_known
      (suc (suc (suc (suc (suc (suc (suc (suc (suc (suc (suc (suc (suc (suc (suc zero)))))))))))))))
      first name h =
    ground arith
header_of_known
      (suc (
        suc
          (suc (suc (suc (suc (suc (suc (suc (suc (suc (suc (suc (suc (suc (suc zero))))))))))))))))
      first name h =
    refl
header_of_known
      (suc (
        suc (
          suc (
            suc
              (suc (suc (suc (suc (suc (suc (suc (suc (suc (suc (suc (suc (suc zero)))))))))))))))))
      first name h =
    ground arith
header_of_known
      (suc (
        suc (
          suc (
            suc (
              suc
                (suc (suc (suc (suc (suc (suc (suc (suc (suc (suc (suc (suc (suc n))))))))))))))))))
      first name h =
    absurd (omega (arith, h))

header_of_long :
    (n first : ℕ) (name : Bytes)
    → 18 ≤ n
    → header_of n first name ≡ guarded n first header_table name
unfolding header_of short_header middle_header long_header guarded
header_of_long n first name h = ground arith

names_IsText : All (λ e. IsText e.0) header_table
names_IsText = ground arith

header_of_lem :
    (n first : ℕ) (name : Bytes) → header_of n first name ≡ guarded n first header_table name
header_of_lem n first name = elim (lt_or_le n 18) [
  | inl h ↦ header_of_known n first name h
  | inr h ↦ header_of_long n first name h
]

-- Given its length, or zero in place of it, the header that is identified is the one that the table
-- of the names has under that name, whatever the case of the letters.
pub identify_http_header-lookup_nocase :
    (name : Bytes) (name_len : ℕ)
    → IsText name
    → (name_len ≡ 0) ⊎ (name_len ≡ length name)
    → identify_http_header name name_len ≡ lookup_nocase header_table name
unfolding identify_http_header header_of
identify_http_header-lookup_nocase name name_len hn h =
    let first = nx_tolower (first_char name) in
    let g = guarded-lookup_nocase header_table name hn names_IsText in
    let r = header_of_lem (length name) first name in
    let e : (if name_len == 0 then length name else name_len) ≡ length name = ground arith in
    ap (λ n. header_of n first name) e ∙ r ∙ sym g

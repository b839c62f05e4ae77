-- ===== src/ClientRequest/Written.antt =====
-- The text that `_nxweb_prepare_client_request_headers` of src/lib/http_utils.c writes, as a request
-- with a list of headers.
use nxweb.Base.{
  ℕ, ◌≡◌, refl, ap, ◌∙◌, sym, Bool, true, false, Option, none, some, List, [], ◌∷◌, ◌++◌, Bytes,
  append_assoc, if◌then◌else◌, length, All,
}
use nxweb.SimpleMap.{Entry}
use nxweb.HttpTime.{Tm}
use nxweb.Headers.{HeaderName, identify_http_header}
use nxweb.Request.HeaderLines.{header_text}
use nxweb.Request.Rendered.{line_assoc, header_tail, request_text}
use nxweb.Request.Fields.{is_same, header_of, last_of, has_field, not_field}
use nxweb.ClientRequest.{
  Outgoing, Block, field_text, blocks_text, headers_text, first_blocks, last_blocks, sent_method,
  sent_version, prepare_client_request_headers,
}

-- The headers that a list of fields writes.
unfoldable pub entries : List Block → List Entry
entries [] = []
entries ((name, none) ∷ bs) = entries bs
entries ((name, some value) ∷ bs) = record { name = name; value = value } ∷ entries bs

unfoldable pub headers_then : List Entry → Bytes → Bytes
headers_then [] s = s
headers_then (e ∷ es) s = field_text e.name e.value ++ headers_then es s

pub blocks_text_then :
    (bs : List Block) (s : Bytes) → blocks_text bs ++ s ≡ headers_then (entries bs) s
unfolding blocks_text entries headers_then
blocks_text_then [] s = refl
blocks_text_then ((name, none) ∷ bs) s = blocks_text_then bs s
blocks_text_then ((name, some value) ∷ bs) s =
    append_assoc (field_text name value) (blocks_text bs) s
    ∙ ap (λ t. field_text name value ++ t) (blocks_text_then bs s)

pub headers_text_then : (es : List Entry) (s : Bytes) → headers_text es ++ s ≡ headers_then es s
unfolding headers_text headers_then
headers_text_then [] s = refl
headers_text_then (e ∷ es) s =
    append_assoc (field_text e.name e.value) (headers_text es) s
    ∙ ap (λ t. field_text e.name e.value ++ t) (headers_text_then es s)

pub headers_then-append :
    (es fs : List Entry) (s : Bytes)
    → headers_then es (headers_then fs s) ≡ headers_then (es ++ fs) s
unfolding headers_then
headers_then-append [] fs s = refl
headers_then-append (e ∷ es) fs s =
    ap (λ t. field_text e.name e.value ++ t) (headers_then-append es fs s)

pub header_tail_end :
    (es : List Entry)
    → b'\r' ∷ b'\n' ∷ headers_then es (b'\r' ∷ b'\n' ∷ [])
      ≡ header_tail es ++ b'\r' ∷ b'\n' ∷ b'\r' ∷ b'\n' ∷ []
unfolding headers_then
header_tail_end [] = refl
header_tail_end (e ∷ es) =
    let end = b'\r' ∷ b'\n' ∷ b'\r' ∷ b'\n' ∷ [] in
    let rest = headers_then es (b'\r' ∷ b'\n' ∷ []) in
    let l = append_assoc e.name (b':' ∷ b' ' ∷ (e.value ++ b'\r' ∷ b'\n' ∷ [])) rest in
    let v = append_assoc e.value (b'\r' ∷ b'\n' ∷ []) rest in
    let t = ap (λ t. e.value ++ t) (header_tail_end es) in
    let r =
      append_assoc (header_text e) (header_tail es) end
      ∙ append_assoc e.name (b':' ∷ b' ' ∷ e.value) (header_tail es ++ end) in
    ap (λ t. b'\r' ∷ b'\n' ∷ t) (l ∙ ap (λ t. e.name ++ b':' ∷ b' ' ∷ t) (v ∙ t) ∙ sym r)

module _ (gmtime : ℕ → Tm) (version : Bytes) where
  -- All the headers that are written.
  abbrev pub sent_headers : Outgoing → List Entry
  sent_headers o =
      entries (first_blocks gmtime version o)
      ++ (o.req.headers ++ entries (last_blocks gmtime version o))

  pub prepare_client_request_headers-request_text :
      (o : Outgoing)
      → prepare_client_request_headers gmtime version o
        ≡ request_text
            (sent_method gmtime version o)
            o.req.uri
            (sent_version gmtime version o)
            (sent_headers o)
          ++ b'\r' ∷ b'\n' ∷ b'\r' ∷ b'\n' ∷ []
  unfolding prepare_client_request_headers
  prepare_client_request_headers-request_text o =
      let fs = first_blocks gmtime version o in
      let ls = last_blocks gmtime version o in
      let end = b'\r' ∷ b'\n' ∷ b'\r' ∷ b'\n' ∷ [] in
      let a = blocks_text_then ls (b'\r' ∷ b'\n' ∷ []) in
      let b =
        ap (λ t. headers_text o.req.headers ++ t) a
        ∙ headers_text_then o.req.headers _
        ∙ headers_then-append o.req.headers (entries ls) _ in
      let c =
        ap (λ t. blocks_text fs ++ t) b
        ∙ blocks_text_then fs _
        ∙ headers_then-append (entries fs) _ _ in
      let d = ap (λ t. b'\r' ∷ b'\n' ∷ t) c ∙ header_tail_end (sent_headers o) in
      let m = sent_method gmtime version o in
      let v = sent_version gmtime version o in
      ap (λ t. m ++ b' ' ∷ (o.req.uri ++ b' ' ∷ (v ++ t))) d
      ∙ sym (line_assoc m o.req.uri v (header_tail (sent_headers o)) end)

if_same {ℓ} : {A : Type ℓ} (b : Bool) (d : A) → (if b then d else d) ≡ d
if_same true d = refl
if_same false d = refl

abbrev pub given {ℓ} : {A : Type ℓ} → (Bytes → A) → A → Option Bytes → A
given f d none = d
given f d (some v) = f v

-- The last header of a name among the fields: what the fields of other names give counts for
-- nothing.
unfoldable pub last_block {ℓ} : {A : Type ℓ} → (Bytes → A) → HeaderName → A → List Block → A
last_block f h d [] = d
last_block f h d ((name, value) ∷ bs) =
    last_block f h
      (if is_same (identify_http_header name (length name)) h then given f d value else d) bs

pub last_of-entries {ℓ} :
    {A : Type ℓ} (f : Bytes → A) (h : HeaderName) (d : A) (bs : List Block)
    → last_of f h d (entries bs) ≡ last_block f h d bs
unfolding last_of last_block entries
last_of-entries f h d [] = refl
last_of-entries f h d ((name, none) ∷ bs) =
    last_of-entries f h d bs
    ∙ ap (λ d. last_block f h d bs)
        (sym (if_same (is_same (identify_http_header name (length name)) h) d))
last_of-entries f h d ((name, some v) ∷ bs) =
    last_of-entries f h (if is_same (identify_http_header name (length name)) h then f v else d) bs

pub last_of-append {ℓ} :
    {A : Type ℓ} (f : Bytes → A) (h : HeaderName) (d : A) (es fs : List Entry)
    → last_of f h d (es ++ fs) ≡ last_of f h (last_of f h d es) fs
unfolding last_of
last_of-append f h d [] fs = refl
last_of-append f h d (e ∷ es) fs =
    last_of-append f h (if is_same (header_of e) h then f e.value else d) es fs

-- What holds of the header that a field writes, if it writes one.
abbrev pub BlockHolds {ℓ} : (Entry → Type ℓ) → Block → Type ℓ
BlockHolds P (name, none) = Unit
BlockHolds P (name, some v) = P (record { name = name; value = v })

pub entries-All {ℓ} :
    (P : Entry → Type ℓ) (bs : List Block) → All (BlockHolds P) bs → All P (entries bs)
unfolding entries
entries-All P [] h = tt
entries-All P ((name, none) ∷ bs) (h, hs) = entries-All P bs hs
entries-All P ((name, some v) ∷ bs) (h, hs) = (h, entries-All P bs hs)

pub last_of_none {ℓ} :
    {A : Type ℓ} (f : Bytes → A) (h : HeaderName) (d : A) (es : List Entry)
    → has_field h ≡ true
    → All (λ e. has_field (header_of e) ≡ false) es
    → last_of f h d es ≡ d
unfolding last_of
last_of_none f h d [] t a = refl
last_of_none f h d (e ∷ es) t (a, more) =
    ap (λ b. last_of f h (if b then f e.value else d) es) (not_field (header_of e) h t a)
    ∙ last_of_none f h d es t more

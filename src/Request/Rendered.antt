-- ===== src/Request/Rendered.antt =====
-- A request that is written out, and what `_nxweb_parse_http_request` of src/lib/http_utils.c makes
-- of it.
use nxweb.Base.{
  ℕ, ◌<◌, ◌≡◌, ◌≢◌, refl, ap, ◌∙◌, sym, none, List, [], ◌∷◌, ◌++◌, Bytes, All, arith, append-nil,
  append_assoc, All-append,
}
use nxweb.Misc.Trim.{IsBlank}
use nxweb.SimpleMap.{Entry}
use nxweb.HttpTime.{Tm}
use nxweb.Request.{◌>>=◌, bind_ext, first_line}
use nxweb.Request.FirstLine.{
  IsLine, IsToken, plain_request, start_request_lem, first_line-append, first_line_alone,
}
use nxweb.Request.HeaderLines.{
  IsHeader, header_text, set_all, set_named, header_line_text, split_lines-append,
  split_lines_alone,
}
use nxweb.Request.Parse.{
  split_lines, Loop, nowhere, header_line, header_lines, finish_request, parse_http_request,
}

-- The header lines behind a line, each in front of its own end.
abbrev pub header_tail : List Entry → Bytes
header_tail [] = []
header_tail (e ∷ es) = b'\r' ∷ b'\n' ∷ (header_text e ++ header_tail es)

-- A request up to the end of its headers.
abbrev pub request_text : Bytes → Bytes → Bytes → List Entry → Bytes
request_text method uri version es = method ++ b' ' ∷ (uri ++ b' ' ∷ (version ++ header_tail es))

-- What is left of a line's end once the line feed is cut off.
abbrev pub line_end : List Entry → Bytes
line_end [] = []
line_end (e ∷ es) = b'\r' ∷ []

abbrev pub text_lines : List Entry → List Bytes
text_lines [] = []
text_lines (e ∷ es) = (header_text e ++ line_end es) ∷ text_lines es

pub line_end-IsBlank : (es : List Entry) → IsBlank (line_end es)
line_end-IsBlank [] = tt
line_end-IsBlank (e ∷ es) = (omega arith, tt)

pub line_end-IsLine : (es : List Entry) → IsLine (line_end es)
line_end-IsLine [] = tt
line_end-IsLine (e ∷ es) = ground arith

pub ink-IsLine : (t : Bytes) → All (λ c. 32 < c) t → IsLine t
ink-IsLine [] h = tt
ink-IsLine (c ∷ t) (h, ht) = ((omega (arith, h), λ e. omega (arith, h, e)), ink-IsLine t ht)

name-IsLine : (t : Bytes) → All (λ c. (32 < c) × (c ≢ b':')) t → IsLine t
name-IsLine [] h = tt
name-IsLine (c ∷ t) ((h, _), ht) = ((omega (arith, h), λ e. omega (arith, h, e)), name-IsLine t ht)

header_text-IsLine : (e : Entry) → IsHeader e → IsLine (header_text e)
header_text-IsLine e ((n, _), (v, _, _)) =
    All-append _ e.name (b':' ∷ b' ' ∷ e.value) (name-IsLine e.name n) (ground (arith, v))

split_lines_one : (l : Bytes) → IsLine l → l ≢ [] → split_lines l ≡ l ∷ []
split_lines_one [] h n = absurd (n refl)
split_lines_one (c ∷ l) h n = split_lines_alone c l h

name_text_ne_nil : (name s : Bytes) → name ≢ [] → name ++ s ≢ []
name_text_ne_nil [] s n = absurd (n refl)
name_text_ne_nil (c ∷ name) s n = λ e. cc

pub split_lines-header_tail :
    (e : Entry) (es : List Entry)
    → IsHeader e
    → All IsHeader es
    → split_lines (header_text e ++ header_tail es) ≡ (header_text e ++ line_end es) ∷ text_lines es
split_lines-header_tail e [] h _ =
    let l = header_text-IsLine e h in
    rw append-nil (split_lines_one (header_text e) l (name_text_ne_nil e.name _ h.0.1))
split_lines-header_tail e (f ∷ es) h (hf, hes) =
    let l =
      All-append _ (header_text e) (b'\r' ∷ []) (header_text-IsLine e h)
        (line_end-IsLine (f ∷ es)) in
    let a = append_assoc (header_text e) (b'\r' ∷ []) (b'\n' ∷ (header_text f ++ header_tail es)) in
    ap split_lines (sym a)
    ∙ split_lines-append _ _ l
    ∙ ap (λ t. (header_text e ++ b'\r' ∷ []) ∷ t) (split_lines-header_tail f es hf hes)

module _ (timegm : Tm → ℕ) where
  header_lines-text_lines :
      (st : Loop) (es : List Entry)
      → All IsHeader es
      → header_lines timegm st (text_lines es) ≡ set_all timegm st es
  unfolding header_lines set_all
  header_lines-text_lines st [] h = refl
  header_lines-text_lines st (e ∷ es) (h, hs) =
      let a = append_assoc e.name (b':' ∷ b' ' ∷ e.value) (line_end es) in
      let l =
        ap (header_line timegm st) a
        ∙ header_line_text timegm st e (line_end es) h (line_end-IsBlank es) in
      ap (λ r. r >>= λ st. header_lines timegm st (text_lines es)) l
      ∙ bind_ext (set_named timegm st e) _ _ (λ st. header_lines-text_lines st es hs)

pub line_assoc :
    (m u v e s : Bytes)
    → (m ++ b' ' ∷ (u ++ b' ' ∷ (v ++ e))) ++ s ≡ m ++ b' ' ∷ (u ++ b' ' ∷ (v ++ (e ++ s)))
line_assoc m u v e s =
    append_assoc m _ s
    ∙ ap (λ t. m ++ b' ' ∷ t) (append_assoc u _ s ∙ ap (λ t. u ++ b' ' ∷ t) (append_assoc v e s))

tokens-IsLine :
    (m u v e : Bytes)
    → IsToken m
    → All (λ c. 32 < c) u
    → IsToken v
    → IsLine e
    → IsLine (m ++ b' ' ∷ (u ++ b' ' ∷ (v ++ e)))
tokens-IsLine m u v e hm hu hv he =
    let a = All-append _ v e (ink-IsLine v hv.0) he in
    let b = All-append _ u (b' ' ∷ (v ++ e)) (ink-IsLine u hu) (ground (arith, a)) in
    All-append _ m (b' ' ∷ (u ++ b' ' ∷ (v ++ e))) (ink-IsLine m hm.0) (ground (arith, b))

-- The loop's locals in front of the first header.
abbrev pub first_loop : Bytes → Bytes → Bytes → Loop
first_loop method uri version = record {
  req = plain_request method uri version;
  expect = none;
  value = nowhere;
}

pub parse_text :
    (timegm : Tm → ℕ) (beyond m u v : Bytes) (es : List Entry)
    → IsToken m
    → All (λ c. 32 < c) u
    → IsToken v
    → All IsHeader es
    → parse_http_request timegm beyond (request_text m (b'/' ∷ u) v es)
      ≡ (do st ← set_all timegm (first_loop m (b'/' ∷ u) v) es; finish_request beyond st)
unfolding parse_http_request set_all plain_request
parse_text timegm beyond m u v [] hm hu hv h =
    let hu' : All (λ c. 32 < c) (b'/' ∷ u) = (omega arith, hu) in
    let f = first_line_alone _ (tokens-IsLine m (b'/' ∷ u) v [] hm hu' hv tt) in
    let r = start_request_lem m u v [] hm hu hv tt in rw (f, r) refl
parse_text timegm beyond m u v (e ∷ es) hm hu hv (h, hs) =
    let hu' : All (λ c. 32 < c) (b'/' ∷ u) = (omega arith, hu) in
    let rest = header_text e ++ header_tail es in
    let a = line_assoc m (b'/' ∷ u) v (b'\r' ∷ []) (b'\n' ∷ rest) in
    let l = tokens-IsLine m (b'/' ∷ u) v (b'\r' ∷ []) hm hu' hv (line_end-IsLine (e ∷ es)) in
    let f = ap first_line (sym a) ∙ first_line-append _ rest l in
    let r = start_request_lem m u v (b'\r' ∷ []) hm hu hv (omega arith) in
    let s = split_lines-header_tail e es h hs in
    let t = header_lines-text_lines timegm (first_loop m (b'/' ∷ u) v) (e ∷ es) (h, hs) in
    rw (f, r, s, t) refl

-- ===== src/Request/Refused.antt =====
-- The requests that `_nxweb_parse_http_request` of src/lib/http_utils.c refuses.
use nxweb.Base.{
  ℕ, ◌≡◌, ◌<◌, refl, sym, ◌∙◌, inr, codes, IsText, Bool, true, false, none, some, Option, List, [],
  ◌∷◌, ◌++◌, Bytes, arith, leb, if◌then◌else◌, length,
}
use nxweb.HttpTime.{Tm}
use nxweb.SimpleMap.{nx_strtolower, nx_strcasecmp, same_nocase}
use nxweb.Headers.Identify.{
  header_table, lookup_nocase, lookup_nocase_cased, identify_http_header-lookup_nocase,
}
use nxweb.Headers.{
  HeaderName, http_host, http_expect, http_cookie, http_user_agent, http_content_type,
  http_content_length, http_accept_encoding, http_transfer_encoding, http_if_modified_since,
  http_connection, http_range, http_trailer, identify_http_header,
}
use nxweb.Request.{
  Parsed, ok, fail, ◌>>=◌, bad_request, not_implemented, Request, first_line, start_request,
  split_at,
}
use nxweb.Request.Parse.{
  Loop, nowhere, stored, set_header, found_header, named_header, header_line, header_lines,
  split_lines, parse_http_request, continue_header,
}

-- Either goes on, or is not implemented.
abbrev GoesOn : Parsed Loop → Type 0
GoesOn (ok st) = Unit
GoesOn (fail bad_request) = ⊥
GoesOn (fail not_implemented) = Unit

-- A header line whose name is `Trailer`, in any case.
pub record IsTrailer (line : Bytes) : Type 0 where
  pub first : ℕ
  pub others : Bytes
  pub name : Bytes
  pub value : Bytes
  pub bytes : line ≡ first ∷ others
  pub ink : 32 < first
  pub colon : split_at b':' line ≡ some (name, value)
  pub name_text : IsText name
  pub trailer : nx_strtolower name ≡ codes "trailer"

trailer_lower : nx_strtolower (codes "trailer") ≡ codes "trailer"
unfolding nx_strtolower
trailer_lower = refl

trailer_found : lookup_nocase header_table (codes "trailer") ≡ http_trailer
unfolding lookup_nocase same_nocase nx_strcasecmp
trailer_found = refl

-- Whatever the case of its letters, the name is told to be that of the trailer.
identify_trailer :
    (name : Bytes)
    → IsText name
    → nx_strtolower name ≡ codes "trailer"
    → identify_http_header name (length name) ≡ http_trailer
identify_trailer name h e =
    identify_http_header-lookup_nocase name (length name) h (inr refl)
    ∙ lookup_nocase_cased header_table name (codes "trailer") (e ∙ sym trailer_lower)
    ∙ trailer_found

ink_leb : (c : ℕ) → 32 < c → leb c 32 ≡ false
ink_leb c h = ground (arith, h)

goes_on :
    (r : Parsed Loop) (k : Loop → Parsed Loop)
    → GoesOn r
    → ((st : Loop) → k st ≡ fail not_implemented)
    → (r >>= k) ≡ fail not_implemented
goes_on (ok st) k g h = h st
goes_on (fail bad_request) k g h = absurd g
goes_on (fail not_implemented) k g h = refl

module _ (timegm : Tm → ℕ) where
  set_header-GoesOn :
      (st : Loop) (name value : Bytes) (h : HeaderName) → GoesOn (set_header timegm st name value h)
  unfolding set_header stored
  set_header-GoesOn st name value http_host = tt
  set_header-GoesOn st name value http_expect = tt
  set_header-GoesOn st name value http_cookie = tt
  set_header-GoesOn st name value http_user_agent = tt
  set_header-GoesOn st name value http_content_type = tt
  set_header-GoesOn st name value http_content_length = tt
  set_header-GoesOn st name value http_accept_encoding = tt
  set_header-GoesOn st name value http_transfer_encoding = tt
  set_header-GoesOn st name value http_if_modified_since = tt
  set_header-GoesOn st name value http_connection = tt
  set_header-GoesOn st name value http_range = tt
  set_header-GoesOn st name value http_trailer = tt
  set_header-GoesOn st name value _ = tt

  found_header-GoesOn :
      (st : Loop) (found : Option (Bytes × Bytes)) → GoesOn (found_header timegm st found)
  unfolding found_header
  found_header-GoesOn st none = tt
  found_header-GoesOn st (some (name, rest)) = set_header-GoesOn st name _ _

  header_line-GoesOn : (st : Loop) (line : Bytes) → GoesOn (header_line timegm st line)
  unfolding header_line named_header
  header_line-GoesOn st [] = tt
  header_line-GoesOn st (c ∷ s) = pick (leb c 32)
    where
      pick :
          (b : Bool)
          → GoesOn (
              if b
              then ok (continue_header st (c ∷ s) st.value)
              else found_header timegm st (split_at b':' (c ∷ s)))
      pick true = tt
      pick false = found_header-GoesOn st (split_at b':' (c ∷ s))

  trailer_line :
      (st : Loop) (c : ℕ) (s name value : Bytes)
      → 32 < c
      → split_at b':' (c ∷ s) ≡ some (name, value)
      → identify_http_header name (length name) ≡ http_trailer
      → header_line timegm st (c ∷ s) ≡ fail not_implemented
  unfolding header_line named_header found_header set_header
  trailer_line st c s name value h e t = rw (header_line, ink_leb c h, e, t) refl

  trailer_lines :
      (st : Loop) (before : List Bytes) (line : Bytes) (after : List Bytes)
      → IsTrailer line
      → header_lines timegm st (before ++ line ∷ after) ≡ fail not_implemented
  unfolding header_lines
  trailer_lines st [] line after t =
      let l =
        trailer_line st t.first t.others t.name t.value t.ink (rw t.bytes at t.colon)
          (identify_trailer t.name t.name_text t.trailer) in
      rw (t.bytes, l) refl
  trailer_lines st (l ∷ before) line after t =
      goes_on (header_line timegm st l) _ (header_line-GoesOn st l)
        (λ st. trailer_lines st before line after t)

-- A request with a first line that is accepted and a header named `Trailer`, in any case, among its
-- header lines is refused as not implemented, whatever the other lines are.
pub parse_http_request_trailer :
    (timegm : Tm → ℕ) (beyond text : Bytes) {req : Request} (before : List Bytes) {line : Bytes}
    (after : List Bytes)
    → start_request (first_line text).0 ≡ ok req
    → split_lines (first_line text).1 ≡ before ++ line ∷ after
    → IsTrailer line
    → parse_http_request timegm beyond text ≡ fail not_implemented
unfolding parse_http_request
parse_http_request_trailer timegm beyond text {req = req} before {line = line} after s l t =
    let st : Loop = record { req = req; expect = none; value = nowhere } in
    rw (s, l, trailer_lines timegm st before line after t) refl

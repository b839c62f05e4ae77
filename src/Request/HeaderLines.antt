-- ===== src/Request/HeaderLines.antt =====
-- What the header lines of a request are read as, src/lib/http_utils.c.
use nxweb.Base.{ℕ, ◌<◌, ◌≡◌, ◌≢◌, refl, ◌∙◌, some, List, [], ◌∷◌, ◌++◌, Bytes, All, arith, length}
use nxweb.Misc.Trim.{StartsInk, EndsInk, IsBlank, trunc_space_padded}
use nxweb.SimpleMap.{Entry}
use nxweb.HttpTime.{Tm}
use nxweb.Headers.{identify_http_header}
use nxweb.Request.{Parsed, ok, ◌>>=◌, split_at}
use nxweb.Request.FirstLine.{IsLine}
use nxweb.Request.Parse.{add_first, split_lines, Loop, set_header, named_header, header_line}

pub split_lines-append : (l s : Bytes) → IsLine l → split_lines (l ++ b'\n' ∷ s) ≡ l ∷ split_lines s
unfolding split_lines add_first
split_lines-append [] s h = refl
split_lines-append (c ∷ l) s (h, t) = let r = split_lines-append l s t in ground (arith, r, h)

pub split_lines_alone : (c : ℕ) (l : Bytes) → IsLine (c ∷ l) → split_lines (c ∷ l) ≡ (c ∷ l) ∷ []
unfolding split_lines add_first
split_lines_alone c [] (h, t) = ground (arith, h)
split_lines_alone c (d ∷ l) (h, t) = let r = split_lines_alone d l t in ground (arith, r, h)

-- The bytes of a header's name: no blank, no colon.
abbrev pub IsName : Bytes → Type 0
IsName name = All (λ c. (32 < c) × (c ≢ b':')) name × (name ≢ [])

abbrev pub IsValue : Bytes → Type 0
IsValue value = IsLine value × StartsInk value × EndsInk value

abbrev pub IsHeader : Entry → Type 0
IsHeader e = IsName e.name × IsValue e.value

abbrev pub header_text : Entry → Bytes
header_text e = e.name ++ b':' ∷ b' ' ∷ e.value

pub split_at-append :
    (name s : Bytes)
    → All (λ c. (32 < c) × (c ≢ b':')) name
    → split_at b':' (name ++ b':' ∷ s) ≡ some (name, b':' ∷ s)
unfolding split_at
split_at-append [] s h = refl
split_at-append (c ∷ name) s (h, t) = let r = split_at-append name s t in ground (arith, r, h)

module _ (timegm : Tm → ℕ) where
  -- A header is set as the one that its name identifies.
  unfoldable pub set_named : Loop → Entry → Parsed Loop
  set_named st e = set_header timegm st e.name e.value (identify_http_header e.name (length e.name))

  unfoldable pub set_all : Loop → List Entry → Parsed Loop
  unfolding set_named
  set_all st [] = ok st
  set_all st (e ∷ es) = do st ← set_named st e; set_all st es

  named_header_text :
      (st : Loop) (e : Entry) (b : Bytes)
      → IsHeader e
      → IsBlank b
      → named_header timegm st (e.name ++ b':' ∷ (b' ' ∷ (e.value ++ b))) ≡ set_named st e
  unfolding named_header set_named
  named_header_text st e b ((n, _), (_, s, i)) h =
      let a = split_at-append e.name (b' ' ∷ (e.value ++ b)) n in
      let t = trunc_space_padded e.value b s i h in rw (named_header, a, t) refl

  pub header_line_text :
      (st : Loop) (e : Entry) (b : Bytes)
      → IsHeader e
      → IsBlank b
      → header_line timegm st (e.name ++ b':' ∷ (b' ' ∷ (e.value ++ b))) ≡ set_named st e
  unfolding header_line
  header_line_text st e b h hb = header_line_ink e.name _ h.0 ∙ named_header_text st e b h hb
    where
      header_line_ink :
          (name s : Bytes)
          → IsName name
          → header_line timegm st (name ++ s) ≡ named_header timegm st (name ++ s)
      header_line_ink [] s (_, n) = absurd (n refl)
      header_line_ink (c ∷ name) s ((a, _), _) = ground (arith, a)

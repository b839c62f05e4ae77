-- ===== src/Escape/Html.antt =====
-- HTML escaping of src/lib/http_utils.c.
use nxweb.Base.{
  ℕ, ◌+◌, ◌≡◌, ◌≢◌, refl, Bytes, [], ◌∷◌, ◌++◌, length, length-append, All, All-append, arith, sym,
  ◌∙◌, ap, Option, some, none,
}
use nxweb.Escape.{html_char, html_char_len, html_loop, print_html_escaped}

-- The escaped text.
unfoldable pub escaped : Bytes → Bytes
escaped [] = []
escaped (c ∷ s) = html_char c ++ escaped s

length-html_char : (c : ℕ) → length (html_char c) ≡ html_char_len c
length-html_char c = ground arith

html_loop-escaped : (s : Bytes) (len : ℕ) → html_loop s len ≡ (escaped s, len + length (escaped s))
unfolding html_loop escaped
html_loop-escaped [] len = ground arith
html_loop-escaped (c ∷ s) len = ground (
  arith,
  html_loop-escaped s (len + html_char_len c),
  length-html_char c,
  length-append (html_char c) (escaped s),
)

-- The printer returns the number of bytes that it prints.
pub print_html_escaped_len :
    (arg : Option Bytes) → (print_html_escaped arg).1 ≡ length (print_html_escaped arg).0
unfolding print_html_escaped
print_html_escaped_len none = refl
print_html_escaped_len (some s) = rw (html_loop-escaped s 0) (omega arith)

-- A byte that opens no tag and closes no attribute.
abbrev pub IsInert : ℕ → Type 0
IsInert c = (c ≢ b'<') × (c ≢ b'>') × (c ≢ b'"') × (c ≢ b'\'')

html_char-IsInert : (c : ℕ) → All IsInert (html_char c)
html_char-IsInert c = ground arith

escaped-IsInert : (s : Bytes) → All IsInert (escaped s)
unfolding escaped
escaped-IsInert [] = tt
escaped-IsInert (c ∷ s) =
    All-append IsInert (html_char c) (escaped s) (html_char-IsInert c) (escaped-IsInert s)

-- What is printed of any text holds no angle bracket and no quote.
pub print_html_escaped-IsInert : (arg : Option Bytes) → All IsInert (print_html_escaped arg).0
unfolding print_html_escaped
print_html_escaped-IsInert none = omega arith
print_html_escaped-IsInert (some s) = rw (html_loop-escaped s 0) (escaped-IsInert s)

escaped_injective : (s t : Bytes) → escaped s ≡ escaped t → s ≡ t
unfolding escaped
escaped_injective [] [] h = refl
escaped_injective [] (d ∷ t) h = ground arith
escaped_injective (c ∷ s) [] h = ground arith
escaped_injective (c ∷ s) (d ∷ t) h = ground (arith, escaped_injective s t)

-- Different texts are printed differently: an escaped text can be read back.
pub print_html_escaped_injective :
    (s t : Bytes) → (print_html_escaped (some s)).0 ≡ (print_html_escaped (some t)).0 → s ≡ t
unfolding print_html_escaped
print_html_escaped_injective s t h =
    escaped_injective s t
      (ap (λ r. r.0) (sym (html_loop-escaped s 0)) ∙ h ∙ ap (λ r. r.0) (html_loop-escaped t 0))

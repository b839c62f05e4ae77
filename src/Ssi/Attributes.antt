-- ===== src/Ssi/Attributes.antt =====
-- Directives of src/lib/filters/ssi_filter.c that are written out, and what `parse_directive` reads.
use nxweb.Base.{
  ℕ, zero, suc, ◌<◌, ◌≤◌, ◌≡◌, ◌≢◌, refl, sym, ap, ◌∙◌, some, List, [], ◌∷◌, ◌++◌, append-nil,
  Bytes, length, All, arith,
}
use nxweb.Misc.{skip_space, trunc_space}
use nxweb.Misc.Trim.{StartsInk, EndsInk, trunc_space_padded, trunc_space_same}
use nxweb.SimpleMap.{Entry}
use nxweb.Request.{split_at}
use nxweb.Request.SplitAt.{split_at_first}
use nxweb.Ssi.{Scope}
use nxweb.Ssi.Directive.{
  max_attrs, quoted, parse_attrs, split_command, run_command, run_text, parse_directive,
}

-- `name="value"`
abbrev pub attr_text : Entry → Bytes → Bytes
attr_text e after = e.name ++ b'=' ∷ b'"' ∷ (e.value ++ b'"' ∷ after)

-- The attributes, a blank in front of each.
abbrev pub attrs_text : List Entry → Bytes
attrs_text [] = []
attrs_text (e ∷ es) = b' ' ∷ attr_text e (attrs_text es)

abbrev pub IsInk : ℕ → Type 0
IsInk c = 32 < c

-- A name without blanks and equals signs, a value without the quotes.
abbrev pub IsAttr : Entry → Type 0
IsAttr e = All IsInk e.name × All (λ c. c ≢ b'=') e.name × All (λ c. c ≢ b'"') e.value

All-EndsInk : (s : Bytes) → All IsInk s → EndsInk s
unfolding EndsInk
All-EndsInk [] h = tt
All-EndsInk (c ∷ []) (h, t) = h
All-EndsInk (c ∷ d ∷ s) (h, t) = All-EndsInk (d ∷ s) t

All-StartsInk : (s : Bytes) → All IsInk s → StartsInk s
unfolding StartsInk
All-StartsInk [] h = tt
All-StartsInk (c ∷ s) (h, t) = h

name_trimmed : (name : Bytes) → All IsInk name → trunc_space (b' ' ∷ name) ≡ name
name_trimmed name h =
    ap (λ t. trunc_space (b' ' ∷ t)) (sym (append-nil name))
    ∙ trunc_space_padded name [] (All-StartsInk name h) (All-EndsInk name h) tt

-- An attribute with the text `t` in front of its equals sign.
one_attr :
    (n : ℕ) (t : Bytes) (e : Entry) (after : Bytes) (es : List Entry)
    → All (λ c. c ≢ b'=') t
    → trunc_space t ≡ e.name
    → All (λ c. c ≢ b'"') e.value
    → parse_attrs n after ≡ some es
    → parse_attrs (suc n) (t ++ b'=' ∷ b'"' ∷ (e.value ++ b'"' ∷ after)) ≡ some (e ∷ es)
unfolding parse_attrs quoted skip_space
one_attr n t e after es no_sign trimmed no_quote r =
    let a = split_at_first b'=' t (b'"' ∷ (e.value ++ b'"' ∷ after)) no_sign in
    let b = split_at_first b'"' e.value after no_quote in rw (parse_attrs, a, b, r, trimmed) refl

blank_no_sign : (c : ℕ) → c ≡ 32 → c ≢ b'='
blank_no_sign c e = omega (arith, e)

parse_attrs-attrs_text :
    (n : ℕ) (es : List Entry)
    → length es ≤ n
    → All IsAttr es
    → parse_attrs n (attrs_text es) ≡ some es
unfolding parse_attrs split_at
parse_attrs-attrs_text zero [] l h = refl
parse_attrs-attrs_text zero (e ∷ es) l h = absurd (omega (arith, l))
parse_attrs-attrs_text (suc n) [] l h = refl
parse_attrs-attrs_text (suc n) (e ∷ es) l ((ink, no_sign, no_quote), h) =
    one_attr n (b' ' ∷ e.name) e (attrs_text es) es (blank_no_sign b' ' refl, no_sign)
      (name_trimmed e.name ink) no_quote (parse_attrs-attrs_text n es (omega (arith, l)) h)

split_command-append : (c s : Bytes) → All IsInk c → split_command (c ++ b' ' ∷ s) ≡ (c, b' ' ∷ s)
unfolding split_command
split_command-append [] s h = refl
split_command-append (x ∷ c) s (a, h) = let r = split_command-append c s h in ground (arith, r, a)

not_skipped : (c : ℕ) (s : Bytes) → IsInk c → skip_space (c ∷ s) ≡ c ∷ s
unfolding skip_space
not_skipped c s h = ground (arith, h)

-- The command and up to sixteen attributes are read as they were written.
pub parse_directive-attrs_text :
    (sc : Scope) (c : ℕ) (command : Bytes) (e : Entry) (es : List Entry)
    → All IsInk (c ∷ command)
    → All IsAttr (e ∷ es)
    → length (e ∷ es) ≤ max_attrs
    → parse_directive sc ((c ∷ command) ++ attrs_text (e ∷ es))
      ≡ run_command sc (c ∷ command) (e ∷ es)
unfolding parse_directive run_text
parse_directive-attrs_text sc c command e es (ink, inks) ((name_ink, no_sign, no_quote), h) l =
    let skipped : skip_space (c ∷ (command ++ attrs_text (e ∷ es)))
        ≡ c ∷ (command ++ attrs_text (e ∷ es)) =
      not_skipped c (command ++ attrs_text (e ∷ es)) ink in
    let split = split_command-append (c ∷ command) (attr_text e (attrs_text es)) (ink, inks) in
    let trimmed =
      trunc_space_same e.name (All-StartsInk e.name name_ink) (All-EndsInk e.name name_ink) in
    let r = parse_attrs-attrs_text 15 es (omega (arith, l)) h in
    let a = one_attr 15 e.name e (attrs_text es) es no_sign trimmed no_quote r in
    rw (skipped, split, a) refl

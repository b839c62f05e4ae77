-- ===== src/Response/Directives.antt =====
-- The directives of Cache-Control in src/lib/http_utils.c, written and read back.
use nxweb.Base.{
  ℕ, ◌-◌, ◌^◌, ◌<◌, ◌≡◌, ◌≢◌, ◌⊎◌, inl, inr, refl, ap, ◌∙◌, sym, Bool, true, false, not, ◌||◌, [],
  ◌∷◌, ◌++◌, Bytes, codes, ◌==◌, All, arith, Bool-cases, ==_iff,
}
use nxweb.Misc.{trunc_space, uint_to_decimal_string}
use nxweb.Misc.Trim.{trunc_space_same, ink-StartsInk, ink-EndsInk}
use nxweb.Misc.Decimal.{
  IsDigits, digits_ink, uint_to_decimal_string-IsDigits, length-uint_to_decimal_string,
  decimal_number, decimal_number-uint_to_decimal_string,
}
use nxweb.SimpleMap.{same_nocase}
use nxweb.HttpTime.{strtol}
use nxweb.HttpTime.Number.{strtol_all}
use nxweb.Request.{skip_blanks, split_at}
use nxweb.Response.{comma_joined, cache_control_parts, part_when, max_age_text}
use nxweb.Response.CacheControl.{
  Directives, add_to_first, split_commas, max_age_of, max_age_given, set_directive, read_directive,
  read_directives,
}

abbrev NoComma : Bytes → Type 0
NoComma = All (λ c. c ≢ b',')

split_commas-append : (s t : Bytes) → NoComma s → split_commas (s ++ b',' ∷ t) ≡ s ∷ split_commas t
unfolding split_commas add_to_first
split_commas-append [] t h = refl
split_commas-append (c ∷ s) t (a, h) = let r = split_commas-append s t h in ground (arith, r, a)

split_commas_alone : (s : Bytes) → NoComma s → split_commas s ≡ s ∷ []
unfolding split_commas add_to_first
split_commas_alone [] h = refl
split_commas_alone (c ∷ s) (a, h) = let r = split_commas_alone s h in ground (arith, r, a)

digits-NoComma : (s : Bytes) → IsDigits s → NoComma s
digits-NoComma [] h = tt
digits-NoComma (c ∷ s) (a, h) = ((λ e. ground (arith, a, e)), digits-NoComma s h)

max_age_of_number : (ds : Bytes) (v : ℕ) → strtol ds ≡ (v, []) → ds ≢ b'0' ∷ [] → max_age_of ds ≡ v
unfolding max_age_of
max_age_of_number [] v e n = ap (λ p. p.0) e
max_age_of_number (c ∷ d ∷ ds) v e n = ap (λ p. p.0) e
max_age_of_number (c ∷ []) v e n = elim (Bool-cases (c == b'0')) [
  | inl z ↦ absurd (n (ap (λ c. c ∷ []) (ground (arith, z))))
  | inr z ↦ rw (z, e) refl
]

-- A number of seconds that can be written: minus one, or none below zero.
abbrev pub IsAge : ℕ → Type 0
IsAge n = (n ≡ 2 ^ 64 - 1) ⊎ (n < 2 ^ 63)

not_zero_text : (n : ℕ) → n ≢ 0 → uint_to_decimal_string n ≢ b'0' ∷ []
unfolding decimal_number
not_zero_text n h e = h (sym (decimal_number-uint_to_decimal_string n) ∙ ap (decimal_number 0) e)

max_age_again : (n : ℕ) → n ≢ 0 → IsAge n → max_age_of (max_age_text n) ≡ n
unfolding max_age_text
max_age_again n h (inl e) = rw e (unfold max_age_of in refl)
max_age_again n h (inr lt) =
    let r =
      strtol_all (uint_to_decimal_string n) n (uint_to_decimal_string-IsDigits n)
        (length-uint_to_decimal_string n (omega (arith, lt))).0
        (decimal_number-uint_to_decimal_string n) lt in
    let far : (n == 2 ^ 64 - 1) ≡ false = ground (arith, lt) in
    rw far (max_age_of_number (uint_to_decimal_string n) n r (not_zero_text n h))

max_age_text-IsDigits : (n : ℕ) → IsDigits (max_age_text n)
unfolding max_age_text
max_age_text-IsDigits n = elim (Bool-cases (n == 2 ^ 64 - 1)) [
  | inl e ↦ rw e (ground arith)
  | inr e ↦ rw e (uint_to_decimal_string-IsDigits n)
]

age_trimmed : (n : ℕ) → trunc_space (max_age_text n) ≡ max_age_text n
age_trimmed n =
    let i = digits_ink (max_age_text n) (max_age_text-IsDigits n) in
    trunc_space_same (max_age_text n) (ink-StartsInk _ i) (ink-EndsInk _ i)

-- The text of max-age, behind a blank or not.
age_read :
    (d : Directives) (n : ℕ)
    → n ≢ 0
    → IsAge n
    → (read_directive d (codes "max-age=" ++ max_age_text n) ≡ record d { max_age = n })
      × (read_directive d (codes " max-age=" ++ max_age_text n) ≡ record d { max_age = n })
unfolding read_directive skip_blanks split_at set_directive same_nocase max_age_given
age_read d n h a =
    let e = ap max_age_of (age_trimmed n) ∙ max_age_again n h a in (rw e refl, rw e refl)

age-NoComma :
    (n : ℕ)
    → NoComma (codes "max-age=" ++ max_age_text n) × NoComma (codes " max-age=" ++ max_age_text n)
age-NoComma n =
    let h = digits-NoComma _ (max_age_text-IsDigits n) in (ground (arith, h), ground (arith, h))

abbrev no_directives : Directives
no_directives = record { no_cache = false; cache_private = false; max_age = 0; dirty = false }

abbrev known_directives : Bool → Bool → ℕ → Directives
known_directives private no_cache max_age = record {
  no_cache = no_cache;
  cache_private = private;
  max_age = max_age;
  dirty = false;
}

words_read :
    (p c : Bool)
    → (p || c) ≡ true
    → read_directives no_directives (
        split_commas
          (comma_joined (part_when p (codes "private") (part_when c (codes "no-cache") []))))
      ≡ known_directives p c 0
unfolding part_when comma_joined split_commas read_directives read_directive skip_blanks split_at
    set_directive same_nocase
words_read true true h = refl
words_read true false h = refl
words_read false true h = refl
words_read false false h = cc

all_read :
    (p c : Bool) (n : ℕ)
    → n ≢ 0
    → IsAge n
    → read_directives no_directives (
        split_commas (
          comma_joined (
            part_when p
              (codes "private")
              (part_when c (codes "no-cache") ((codes "max-age=" ++ max_age_text n) ∷ [])))))
      ≡ known_directives p c n
unfolding part_when comma_joined read_directives read_directive skip_blanks split_at set_directive
    same_nocase
all_read false false n h a =
    rw (split_commas_alone (codes "max-age=" ++ max_age_text n) (age-NoComma n).0)
      (age_read no_directives n h a).0
all_read true false n h a =
    let t = codes " max-age=" ++ max_age_text n in
    rw
      (
        split_commas-append (codes "private") t (ground arith),
        split_commas_alone t (age-NoComma n).1,
      )
      (age_read (known_directives true false 0) n h a).1
all_read false true n h a =
    let t = codes " max-age=" ++ max_age_text n in
    rw
      (
        split_commas-append (codes "no-cache") t (ground arith),
        split_commas_alone t (age-NoComma n).1,
      )
      (age_read (known_directives false true 0) n h a).1
all_read true true n h a =
    let t = codes " max-age=" ++ max_age_text n in
    rw
      (
        split_commas-append (codes "private") (codes " no-cache" ++ b',' ∷ t) (ground arith),
        split_commas-append (codes " no-cache") t (ground arith),
        split_commas_alone t (age-NoComma n).1,
      )
      (age_read (known_directives true true 0) n h a).1

-- The value of Cache-Control that is written for a response with at least one of the directives,
-- its seconds minus one or not below zero, is read as just these directives, all of them recognised.
pub read_directives-cache_control_parts :
    (private no_cache : Bool) (max_age : ℕ)
    → (private || no_cache || not (max_age == 0)) ≡ true
    → IsAge max_age
    → read_directives no_directives
        (split_commas (comma_joined (cache_control_parts private no_cache max_age)))
      ≡ record { no_cache = no_cache; cache_private = private; max_age = max_age; dirty = false }
unfolding cache_control_parts part_when
read_directives-cache_control_parts p c n some_one a = elim (Bool-cases (n == 0)) [
  | inl z ↦ rw (z, (==_iff n 0).0 z) (words_read p c (ground (arith, z, some_one)))
  | inr z ↦ rw z (all_read p c n (λ e. ground (arith, z, e)) a)
]

-- ===== src/Misc/Trim.antt =====
-- What `nxweb_trunc_space` of src/lib/misc.c keeps.
use nxweb.Base.{
  sym, append-nil, ℕ, ◌<◌, ◌≤◌, ◌≡◌, refl, ap, ◌∙◌, [], ◌∷◌, ◌++◌, Bytes, leb, arith, All,
  if◌then◌else◌, true, false,
}
use nxweb.Misc.{skip_space, keep_before, cut_space, trunc_space}

-- Neither the first character nor the last is a blank.
unfoldable pub StartsInk : Bytes → Type 0
StartsInk [] = Unit
StartsInk (c ∷ s) = 32 < c

unfoldable pub EndsInk : Bytes → Type 0
EndsInk [] = Unit
EndsInk (c ∷ []) = 32 < c
EndsInk (c ∷ x ∷ s) = EndsInk (x ∷ s)

abbrev pub IsBlank : Bytes → Type 0
IsBlank = All (λ c. c ≤ 32)

StartsInk-skip_space : (s : Bytes) → StartsInk (skip_space s)
unfolding StartsInk skip_space
StartsInk-skip_space [] = _
StartsInk-skip_space (c ∷ s) = let r = StartsInk-skip_space s in ground (arith, r)

skip_space_split : (s : Bytes) → (front : Bytes) × IsBlank front × (s ≡ front ++ skip_space s)
unfolding skip_space
skip_space_split [] = ([], _, refl)
skip_space_split (c ∷ s) =
    let (front, h, e) = skip_space_split s in
    elim (leb c 32)
        as (λ r.
          leb c 32 ≡ r
          → (f : Bytes) × IsBlank f × (c ∷ s ≡ f ++ (if r then skip_space s else c ∷ s))) [
            | true ↦ λ b. (c ∷ front, (ground (arith, b), h), ap (λ t. c ∷ t) e)
            | false ↦ λ _. ([], _, refl)
          ]
      refl

EndsInk-keep_before : (c : ℕ) (s : Bytes) → EndsInk s → EndsInk (keep_before c s)
unfolding EndsInk keep_before
EndsInk-keep_before c [] h = ground arith
EndsInk-keep_before c (x ∷ s) h = h

EndsInk-cut_space : (s : Bytes) → EndsInk (cut_space s)
unfolding EndsInk cut_space
EndsInk-cut_space [] = _
EndsInk-cut_space (c ∷ s) = EndsInk-keep_before c (cut_space s) (EndsInk-cut_space s)

StartsInk-keep_before : (c : ℕ) (s : Bytes) → 32 < c → StartsInk (keep_before c s)
unfolding StartsInk keep_before
StartsInk-keep_before c [] h = ground arith
StartsInk-keep_before c (x ∷ s) h = h

StartsInk-cut_space : (s : Bytes) → StartsInk s → StartsInk (cut_space s)
unfolding StartsInk cut_space
StartsInk-cut_space [] h = _
StartsInk-cut_space (c ∷ s) h = StartsInk-keep_before c (cut_space s) h

keep_before_split :
    (c : ℕ) (s back : Bytes)
    → IsBlank back
    → (back' : Bytes) × IsBlank back' × (c ∷ (s ++ back) ≡ keep_before c s ++ back')
unfolding keep_before
keep_before_split c [] back h =
    elim (leb c 32)
        as (λ r.
          leb c 32 ≡ r → (b : Bytes) × IsBlank b × (c ∷ back ≡ (if r then [] else c ∷ []) ++ b)) [
            | true ↦ λ e. (c ∷ back, (ground (arith, e), h), refl)
            | false ↦ λ _. (back, h, refl)
          ]
      refl
keep_before_split c (x ∷ s) back h = (back, h, refl)

cut_space_split : (s : Bytes) → (back : Bytes) × IsBlank back × (s ≡ cut_space s ++ back)
unfolding cut_space
cut_space_split [] = ([], _, refl)
cut_space_split (c ∷ s) =
    let (back, h, e) = cut_space_split s in
    let (back', h', e') = keep_before_split c (cut_space s) back h in
    (back', h', ap (λ t. c ∷ t) e ∙ e')

-- What is kept begins and ends with no blank, and only blanks are cut off in front and behind.
trunc_space_lem :
    (str : Bytes)
    → StartsInk (trunc_space str)
      × EndsInk (trunc_space str)
      × (front : Bytes) × (back : Bytes) × IsBlank front
      × IsBlank back
      × (str ≡ front ++ (trunc_space str ++ back))
unfolding trunc_space
trunc_space_lem str =
    let (front, hf, ef) = skip_space_split str in
    let (back, hb, eb) = cut_space_split (skip_space str) in
    (
      StartsInk-cut_space (skip_space str) (StartsInk-skip_space str),
      EndsInk-cut_space (skip_space str),
      front,
      back,
      hf,
      hb,
      ef ∙ ap (λ t. front ++ t) eb,
    )

cut_space_blank : (b : Bytes) → IsBlank b → cut_space b ≡ []
unfolding cut_space keep_before
cut_space_blank [] h = refl
cut_space_blank (c ∷ b) (h, t) = let r = cut_space_blank b t in ground (arith, r, h)

cut_space-append : (v b : Bytes) → EndsInk v → IsBlank b → cut_space (v ++ b) ≡ v
unfolding cut_space keep_before EndsInk
cut_space-append [] b h hb = cut_space_blank b hb
cut_space-append (c ∷ []) b h hb = let r = cut_space_blank b hb in ground (arith, r, h)
cut_space-append (c ∷ x ∷ v) b h hb = let r = cut_space-append (x ∷ v) b h hb in ground (arith, r)

skip_space_ink : (v : Bytes) → StartsInk v → skip_space v ≡ v
unfolding skip_space StartsInk
skip_space_ink [] h = refl
skip_space_ink (c ∷ v) h = ground (arith, h)

trunc_space_blank : (b : Bytes) → IsBlank b → trunc_space b ≡ []
unfolding trunc_space skip_space cut_space
trunc_space_blank [] h = refl
trunc_space_blank (c ∷ b) (h, t) = let r = trunc_space_blank b t in ground (arith, r, h)

trunc_space_ink :
    (c : ℕ) (v b : Bytes)
    → StartsInk (c ∷ v)
    → cut_space (c ∷ (v ++ b)) ≡ c ∷ v
    → trunc_space (b' ' ∷ c ∷ (v ++ b)) ≡ c ∷ v
unfolding trunc_space skip_space StartsInk
trunc_space_ink c v b s r = ground (arith, s, r)

-- Blanks in front of a value and behind it are cut off.
pub trunc_space_padded :
    (v b : Bytes) → StartsInk v → EndsInk v → IsBlank b → trunc_space (b' ' ∷ (v ++ b)) ≡ v
trunc_space_padded [] b s e h = trunc_space_blank (b' ' ∷ b) (omega arith, h)
trunc_space_padded (c ∷ v) b s e h = trunc_space_ink c v b s (cut_space-append (c ∷ v) b e h)

trunc_space_all :
    (c : ℕ) (v : Bytes)
    → StartsInk (c ∷ v)
    → cut_space (c ∷ v) ≡ c ∷ v
    → trunc_space (c ∷ v) ≡ c ∷ v
unfolding trunc_space skip_space StartsInk
trunc_space_all c v s r = ground (arith, s, r)

pub trunc_space_same : (v : Bytes) → StartsInk v → EndsInk v → trunc_space v ≡ v
trunc_space_same [] s e = trunc_space_blank [] tt
trunc_space_same (c ∷ v) s e =
    trunc_space_all c v s
      (ap cut_space (sym (append-nil (c ∷ v))) ∙ cut_space-append (c ∷ v) [] e tt)

pub ink-EndsInk : (v : Bytes) → All (λ c. 32 < c) v → EndsInk v
unfolding EndsInk
ink-EndsInk [] h = tt
ink-EndsInk (c ∷ []) (h, _) = h
ink-EndsInk (c ∷ d ∷ v) (_, h) = ink-EndsInk (d ∷ v) h

pub ink-StartsInk : (v : Bytes) → All (λ c. 32 < c) v → StartsInk v
unfolding StartsInk
ink-StartsInk [] h = tt
ink-StartsInk (c ∷ v) (h, _) = h

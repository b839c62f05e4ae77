-- ===== src/Ssi/Cuts.antt =====
-- How a stream is cut makes no difference to the filter of src/lib/filters/ssi_filter.c.
use nxweb.Base.{
  ℕ, ◌<◌, ◌≡◌, refl, ap, true, false, ◌&&◌, Option, none, some, some_inj, [], ◌∷◌, ◌++◌, Bytes, ltb,
  ◌==◌, length, length-append, arith, ◌⊎◌, inl, inr, Bool-cases, Option-cases,
}
use nxweb.Ssi.Stream.{
  is_opening, behind_opening, with_char, find_closing, Found, as_found, behind_char, find_directive,
}

abbrev more_closed : Bytes → Option (Bytes × Bytes) → Option (Bytes × Bytes)
more_closed t none = none
more_closed t (some (text, after)) = some (text, after ++ t)

abbrev pub more_found : Bytes → Option Found → Option Found
more_found t none = none
more_found t (some f) = some (record f { behind = f.behind ++ t })

with_char-more_closed :
    (c : ℕ) (t : Bytes) (o : Option (Bytes × Bytes))
    → with_char c (more_closed t o) ≡ more_closed t (with_char c o)
unfolding with_char
with_char-more_closed c t none = refl
with_char-more_closed c t (some (x, y)) = refl

as_found-more_closed :
    (t : Bytes) (o : Option (Bytes × Bytes))
    → as_found (more_closed t o) ≡ more_found t (as_found o)
unfolding as_found
as_found-more_closed t none = refl
as_found-more_closed t (some (x, y)) = refl

behind_char-more_found :
    (c : ℕ) (t : Bytes) (o : Option Found)
    → behind_char c (more_found t o) ≡ more_found t (behind_char c o)
unfolding behind_char
behind_char-more_found c t none = refl
behind_char-more_found c t (some f) = refl

-- What was found is found when more follows.
find_closing-append :
    (s t : Bytes)
    → (find_closing s ≡ none) ⊎ (find_closing (s ++ t) ≡ more_closed t (find_closing s))
unfolding find_closing
find_closing-append [] t = inl refl
find_closing-append (c ∷ []) t = inl refl
find_closing-append (c ∷ d ∷ []) t = inl refl
find_closing-append (c ∷ d ∷ e ∷ s) t = elim (Bool-cases (c == b'-' && d == b'-' && e == b'>')) [
  | inl y ↦ inr (rw y refl)
  | inr y ↦ elim (find_closing-append (d ∷ e ∷ s) t) [
    | inl n ↦ inl (rw (y, n, with_char) refl)
    | inr r ↦ inr (rw (y, r) (with_char-more_closed c t (find_closing (d ∷ e ∷ s))))
  ]
]

is_opening_other : (c : ℕ) (s : Bytes) → (c == b'<') ≡ false → is_opening (c ∷ s) ≡ false
unfolding is_opening
is_opening_other c [] h = refl
is_opening_other c (d ∷ []) h = refl
is_opening_other c (d ∷ e ∷ []) h = refl
is_opening_other c (d ∷ e ∷ f ∷ []) h = refl
is_opening_other c (d ∷ e ∷ f ∷ g ∷ s) h = rw h refl

-- There is room for the five characters, or there is no opening.
abbrev IsSettled : ℕ → Bytes → Type 0
IsSettled c s = (c == b'<' && ltb (length s) 4) ≡ false

is_opening-append :
    (c : ℕ) (s t : Bytes) → IsSettled c s → is_opening (c ∷ (s ++ t)) ≡ is_opening (c ∷ s)
unfolding is_opening
is_opening-append c [] t h = is_opening_other c t (ground (arith, h))
is_opening-append c (d ∷ []) t h = is_opening_other c (d ∷ t) (ground (arith, h))
is_opening-append c (d ∷ e ∷ []) t h = is_opening_other c (d ∷ e ∷ t) (ground (arith, h))
is_opening-append c (d ∷ e ∷ f ∷ []) t h = is_opening_other c (d ∷ e ∷ f ∷ t) (ground (arith, h))
is_opening-append c (d ∷ e ∷ f ∷ g ∷ s) t h = refl

behind_opening-append :
    (c : ℕ) (s t : Bytes)
    → is_opening (c ∷ s) ≡ true
    → behind_opening (c ∷ (s ++ t)) ≡ behind_opening (c ∷ s) ++ t
unfolding is_opening behind_opening
behind_opening-append c [] t h = cc
behind_opening-append c (d ∷ []) t h = cc
behind_opening-append c (d ∷ e ∷ []) t h = cc
behind_opening-append c (d ∷ e ∷ f ∷ []) t h = cc
behind_opening-append c (d ∷ e ∷ f ∷ g ∷ s) t h = refl

IsSettled-append : (c : ℕ) (s t : Bytes) → IsSettled c s → IsSettled c (s ++ t)
IsSettled-append c s t h = let l = length-append s t in ground (arith, l, h)

pub find_directive-append :
    (s t : Bytes)
    → (find_directive s ≡ none) ⊎ (find_directive (s ++ t) ≡ more_found t (find_directive s))
unfolding find_directive
find_directive-append [] t = inl refl
find_directive-append (c ∷ s) t = elim (Bool-cases (c == b'<' && ltb (length s) 4)) [
  | inl y ↦ inl (rw y refl)
  | inr y ↦
      let y' = IsSettled-append c s t y in
      let o = is_opening-append c s t y in
      elim (Bool-cases (is_opening (c ∷ s))) [
        | inl z ↦
            let b = behind_opening-append c s t z in
            elim (find_closing-append (behind_opening (c ∷ s)) t) [
              | inl n ↦ inl (rw (y, z, n, as_found) refl)
              | inr r ↦ inr (
                  rw (y, y', o, z, b, r)
                    (as_found-more_closed t (find_closing (behind_opening (c ∷ s)))))
            ]
        | inr z ↦ elim (find_directive-append s t) [
          | inl n ↦ inl (rw (y, z, n, behind_char) refl)
          | inr r ↦ inr (rw (y, y', o, z, r) (behind_char-more_found c t (find_directive s)))
        ]
      ]
]

pub length-find_closing :
    (s : Bytes) (text after : Bytes) → find_closing s ≡ some (text, after) → length after < length s
unfolding find_closing with_char
length-find_closing [] text after h = cc
length-find_closing (c ∷ []) text after h = cc
length-find_closing (c ∷ d ∷ []) text after h = cc
length-find_closing (c ∷ d ∷ e ∷ s) text after h =
    elim (Bool-cases (c == b'-' && d == b'-' && e == b'>')) [
      | inl y ↦ let q = ap (λ p. length p.1) (some_inj (rw y at h)) in omega (arith, q)
      | inr y ↦ elim (Option-cases (find_closing (d ∷ e ∷ s))) [
        | inl n ↦ absurd (let q = rw (y, n) at h in cc)
        | inr z ↦
            let r = length-find_closing (d ∷ e ∷ s) z.0.0 z.0.1 z.1 in
            let q = ap (λ p. length p.1) (some_inj (rw (y, z.1) at h)) in omega (arith, r, q)
      ]
    ]

-- ===== src/Ssi/Lengths.antt =====
-- The text that stands behind a directive is shorter, for the loop of
-- src/lib/filters/ssi_filter.c.
use nxweb.Base.{
  ℕ, ◌<◌, ◌≤◌, ◌≡◌, refl, ap, ◌&&◌, Option, none, some, some_inj, [], ◌∷◌, Bytes, ltb, ◌==◌, length,
  arith, inl, inr, Bool-cases,
}
use nxweb.Ssi.Stream.{
  is_opening, behind_opening, find_closing, Found, as_found, behind_char, find_directive,
}
use nxweb.Ssi.Overwrite.{overwritten, length-overwritten}
use nxweb.Ssi.Cuts.{length-find_closing}

length-behind_opening : (s : Bytes) → length (behind_opening s) ≤ length s
unfolding behind_opening
length-behind_opening [] = omega arith
length-behind_opening (c ∷ []) = omega arith
length-behind_opening (c ∷ d ∷ []) = omega arith
length-behind_opening (c ∷ d ∷ e ∷ []) = omega arith
length-behind_opening (c ∷ d ∷ e ∷ f ∷ []) = omega arith
length-behind_opening (c ∷ d ∷ e ∷ f ∷ g ∷ s) = omega arith

length-as_found :
    (s : Bytes) (o : Option (Bytes × Bytes)) (f : Found)
    → find_closing s ≡ o
    → as_found o ≡ some f
    → length f.behind < length s
unfolding as_found
length-as_found s none f h e = cc
length-as_found s (some (x, y)) f h e =
    let l = length-find_closing s x y h in
    let q = ap (λ g. length g.behind) (some_inj e) in omega (arith, l, q)

length-behind_char :
    (c n : ℕ) (o : Option Found) (f : Found)
    → ((g : Found) → o ≡ some g → length g.behind < n)
    → behind_char c o ≡ some f
    → length f.behind < n
unfolding behind_char
length-behind_char c n none f h e = cc
length-behind_char c n (some g) f h e =
    let l = h g refl in let q = ap (λ k. length k.behind) (some_inj e) in omega (arith, l, q)

pub length-find_directive :
    (s : Bytes) (f : Found) → find_directive s ≡ some f → length f.behind < length s
unfolding find_directive
length-find_directive [] f h = cc
length-find_directive (c ∷ s) f h = elim (Bool-cases (c == b'<' && ltb (length s) 4)) [
  | inl y ↦ absurd (let q = rw y at h in cc)
  | inr y ↦ elim (Bool-cases (is_opening (c ∷ s))) [
    | inl z ↦
        let b = length-behind_opening (c ∷ s) in
        let l = length-as_found (behind_opening (c ∷ s)) _ f refl (rw (y, z) at h) in
        omega (arith, b, l)
    | inr z ↦
        let l =
          length-behind_char c (length s) (find_directive s) f (λ g e. length-find_directive s g e)
            (rw (y, z) at h) in
        omega (arith, l)
  ]
]

-- What the parsing of the directive leaves of it is shorter too.
pub length-behind :
    (s : Bytes) (f : Found)
    → find_directive s ≡ some f
    → length (overwritten f.inner f.behind) < length s
length-behind s f h =
    let a = length-find_directive s f h in
    let b = length-overwritten f.inner f.behind in omega (arith, a, b)

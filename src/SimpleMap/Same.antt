-- ===== src/SimpleMap/Same.antt =====
-- `strcmp` of src/include/nxweb/nxweb.h as a test for equal strings.
use nxweb.Base.{◌≡◌, ◌≢◌, refl, true, false, [], ◌∷◌, Bytes, ◌==◌, arith, inl, inr, Bool-cases}
use nxweb.SimpleMap.{same_case}

pub same_case_eq : (s t : Bytes) → same_case s t ≡ true → s ≡ t
unfolding same_case
same_case_eq [] [] h = refl
same_case_eq [] (d ∷ t) h = cc
same_case_eq (c ∷ s) [] h = cc
same_case_eq (c ∷ s) (d ∷ t) h = elim (Bool-cases (c == d)) [
  | inl e ↦ let f = same_case_eq s t (rw e at h) in let g : c ≡ d = ground (arith, e) in cc
  | inr e ↦ absurd (let q = rw e at h in cc)
]

pub same_case_refl : (s : Bytes) → same_case s s ≡ true
unfolding same_case
same_case_refl [] = refl
same_case_refl (c ∷ s) = let r = same_case_refl s in ground (arith, r)

pub same_case_ne : (s t : Bytes) → s ≢ t → same_case s t ≡ false
same_case_ne s t h = elim (Bool-cases (same_case s t)) [
  | inl e ↦ absurd (h (same_case_eq s t e))
  | inr e ↦ e
]

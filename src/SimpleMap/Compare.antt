-- ===== src/SimpleMap/Compare.antt =====
-- What the comparisons of src/include/nxweb/nxweb.h compare.
use nxweb.Base.{
  ℕ, zero, suc, ◌+◌, ◌-◌, ◌<◌, ◌≡◌, ◌↔◌, refl, ap, true, false, [], ◌∷◌, Bytes, IsText, ◌==◌, take,
  arith,
}
use nxweb.SimpleMap.{nx_strtolower, nx_strcasecmp, strncasecmp_loop, nx_strncasecmp, is_zero}

nx_strcasecmp_equal :
    (s t : Bytes)
    → IsText s
    → IsText t
    → is_zero (nx_strcasecmp s t) ≡ true
    → nx_strtolower s ≡ nx_strtolower t
unfolding nx_strcasecmp nx_strtolower
nx_strcasecmp_equal [] [] hs ht e = refl
nx_strcasecmp_equal [] (y ∷ t) hs ((a, _), ht) e = ground (arith, e, a)
nx_strcasecmp_equal (x ∷ s) [] ((a, _), hs) ht e = ground (arith, e, a)
nx_strcasecmp_equal (x ∷ s) (y ∷ t) (_, hs) (_, ht) e =
    let r = nx_strcasecmp_equal s t hs ht in ground (arith, e, r)

nx_strcasecmp_same :
    (s t : Bytes) → nx_strtolower s ≡ nx_strtolower t → is_zero (nx_strcasecmp s t) ≡ true
unfolding nx_strcasecmp nx_strtolower
nx_strcasecmp_same [] [] e = refl
nx_strcasecmp_same [] (y ∷ t) e = cc
nx_strcasecmp_same (x ∷ s) [] e = cc
nx_strcasecmp_same (x ∷ s) (y ∷ t) e = let r = nx_strcasecmp_same s t in ground (arith, e, r)

-- Two strings compare equal just if they are the same in lower case.
nx_strcasecmp_lem :
    (s t : Bytes)
    → IsText s
    → IsText t
    → (is_zero (nx_strcasecmp s t) ≡ true) ↔ (nx_strtolower s ≡ nx_strtolower t)
nx_strcasecmp_lem s t hs ht = (nx_strcasecmp_equal s t hs ht, nx_strcasecmp_same s t)

strncasecmp_loop_equal :
    (s t : Bytes) (n : ℕ)
    → IsText s
    → IsText t
    → is_zero (strncasecmp_loop s t n) ≡ true
    → take (suc n) (nx_strtolower s) ≡ take (suc n) (nx_strtolower t)
unfolding strncasecmp_loop nx_strtolower
strncasecmp_loop_equal [] [] n hs ht e = refl
strncasecmp_loop_equal [] (y ∷ t) n hs ((a, _), ht) e = ground (arith, e, a)
strncasecmp_loop_equal (x ∷ s) [] n ((a, _), hs) ht e = ground (arith, e, a)
strncasecmp_loop_equal (x ∷ s) (y ∷ t) zero (_, hs) (_, ht) e = ground (arith, e)
strncasecmp_loop_equal (x ∷ s) (y ∷ t) (suc n) (_, hs) (_, ht) e =
    let r = strncasecmp_loop_equal s t n hs ht in
    let q : strncasecmp_loop s t (suc n - 1) ≡ strncasecmp_loop s t n =
      ap (strncasecmp_loop s t) (omega arith) in
    ground (arith, e, r, q)

strncasecmp_loop_same :
    (s t : Bytes) (n : ℕ)
    → take (suc n) (nx_strtolower s) ≡ take (suc n) (nx_strtolower t)
    → is_zero (strncasecmp_loop s t n) ≡ true
unfolding strncasecmp_loop nx_strtolower
strncasecmp_loop_same [] [] n e = refl
strncasecmp_loop_same [] (y ∷ t) n e = cc
strncasecmp_loop_same (x ∷ s) [] n e = cc
strncasecmp_loop_same (x ∷ s) (y ∷ t) zero e = ground (arith, e)
strncasecmp_loop_same (x ∷ s) (y ∷ t) (suc n) e =
    let r = strncasecmp_loop_same s t n in
    let q : strncasecmp_loop s t (suc n - 1) ≡ strncasecmp_loop s t n =
      ap (strncasecmp_loop s t) (omega arith) in
    ground (arith, e, r, q)

-- With a count above zero, two strings compare equal just if their first characters are the same in
-- lower case, and these are one more than the count.
nx_strncasecmp_lem :
    (s t : Bytes) (len : ℕ)
    → IsText s
    → IsText t
    → 0 < len
    → (is_zero (nx_strncasecmp s t len) ≡ true)
      ↔ (take (len + 1) (nx_strtolower s) ≡ take (len + 1) (nx_strtolower t))
unfolding nx_strncasecmp
nx_strncasecmp_lem s t zero hs ht p = absurd (omega (arith, p))
nx_strncasecmp_lem s t (suc n) hs ht p =
    let e : suc n + 1 ≡ suc (suc n) = omega arith in
    let z : (suc n == 0) ≡ false = ground arith in
    rw (z, e) (strncasecmp_loop_equal s t (suc n) hs ht, strncasecmp_loop_same s t (suc n))

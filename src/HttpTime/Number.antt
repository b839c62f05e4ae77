-- ===== src/HttpTime/Number.antt =====
-- What `strtol` reads where a number of src/include/nxweb/misc.h was printed.
use nxweb.Base.{
  ℕ, ◌+◌, ◌-◌, ◌*◌, ◌^◌, ◌<◌, ◌≡◌, refl, ap, ◌∙◌, Bool, true, false, some, [], ◌∷◌, ◌++◌, Bytes,
  length, arith,
}
use nxweb.Misc.Decimal.{decimal_number, IsDigits}
use nxweb.HttpTime.{
  is_digit, skip_blank, read_digits, starts_digit, unsigned_part, strtol, read_field,
}

pub read_digits-append :
    (n : ℕ) (ds : Bytes) (c : ℕ) (t : Bytes)
    → IsDigits ds
    → is_digit c ≡ false
    → read_digits n (ds ++ c ∷ t) ≡ (decimal_number n ds, c ∷ t)
unfolding read_digits decimal_number
read_digits-append n [] c t h e = ground (arith, e)
read_digits-append n (d ∷ ds) c t (a, h) e =
    let r = read_digits-append (n * 10 + (d - b'0')) ds c t h e in ground (arith, r, a)

skip_blank_digit : (d : ℕ) (s : Bytes) → is_digit d ≡ true → skip_blank (d ∷ s) ≡ d ∷ s
unfolding skip_blank
skip_blank_digit d s a = ground (arith, a)

unsigned_part_digits :
    (s : Bytes) (d : ℕ) (ds u : Bytes) (v : ℕ)
    → is_digit d ≡ true
    → read_digits 0 (d ∷ ds) ≡ (v, u)
    → v < 2 ^ 63
    → unsigned_part s false (d ∷ ds) ≡ (v, u)
unfolding unsigned_part starts_digit
unsigned_part_digits s d ds u v a r lt = ground (arith, a, r, lt)

strtol-append :
    (d : ℕ) (ds : Bytes) (c : ℕ) (t : Bytes) (v : ℕ)
    → IsDigits (d ∷ ds)
    → is_digit c ≡ false
    → decimal_number 0 (d ∷ ds) ≡ v
    → v < 2 ^ 63
    → strtol (d ∷ (ds ++ c ∷ t)) ≡ (v, c ∷ t)
unfolding strtol
strtol-append d ds c t v (a, h) e ev lt =
    let r = read_digits-append 0 (d ∷ ds) c t (a, h) e ∙ ap (λ n. (n, c ∷ t)) ev in
    let u = unsigned_part_digits (d ∷ (ds ++ c ∷ t)) d (ds ++ c ∷ t) (c ∷ t) v a r lt in
    let k = skip_blank_digit d (ds ++ c ∷ t) a in ground (arith, k, u, a)

-- A printed number is read as a field, up to the character behind it.
pub read_field-append :
    (convert : ℕ → ℕ) (test : ℕ → Bool) (ds : Bytes) (c : ℕ) (t : Bytes) (v : ℕ)
    → IsDigits ds
    → 0 < length ds
    → is_digit c ≡ false
    → decimal_number 0 ds ≡ v
    → v < 2 ^ 63
    → test (convert v) ≡ true
    → read_field convert test (ds ++ c ∷ t) ≡ some (convert v, c ∷ t)
unfolding read_field
read_field-append convert test [] c t v h l e ev lt ok = absurd (omega (arith, l))
read_field-append convert test (d ∷ ds) c t v h l e ev lt ok =
    let r = strtol-append d ds c t v h e ev lt in ground (arith, r, ok)

read_digits_all : (n : ℕ) (ds : Bytes) → IsDigits ds → read_digits n ds ≡ (decimal_number n ds, [])
unfolding read_digits decimal_number
read_digits_all n [] h = refl
read_digits_all n (d ∷ ds) (a, h) =
    let r = read_digits_all (n * 10 + (d - b'0')) ds h in ground (arith, r, a)

strtol_digits :
    (d : ℕ) (ds : Bytes) (v : ℕ)
    → IsDigits (d ∷ ds)
    → decimal_number 0 (d ∷ ds) ≡ v
    → v < 2 ^ 63
    → strtol (d ∷ ds) ≡ (v, [])
unfolding strtol
strtol_digits d ds v (a, h) e lt =
    let r = read_digits_all 0 (d ∷ ds) (a, h) ∙ ap (λ n. (n, [])) e in
    let u = unsigned_part_digits (d ∷ ds) d ds [] v a r lt in
    let k = skip_blank_digit d ds a in ground (arith, k, u, a)

-- A string of digits alone is read to its end.
pub strtol_all :
    (ds : Bytes) (v : ℕ)
    → IsDigits ds
    → 0 < length ds
    → decimal_number 0 ds ≡ v
    → v < 2 ^ 63
    → strtol ds ≡ (v, [])
strtol_all [] v h l e lt = absurd (omega (arith, l))
strtol_all (d ∷ ds) v h l e lt = strtol_digits d ds v h e lt

-- ===== src/Cache/Sections.antt =====
-- The sections of the mutex of src/lib/cache.c as steps, and what they keep.
use nxweb.Base.{
  ℕ, ◌-◌, ◌≡◌, refl, ap, sym, ◌∙◌, Bool, true, false, ◌&&◌, none, some, some_inj, List, [], ◌∷◌,
  ◌++◌, Bytes, ltb, ◌==◌, if◌then◌else◌, inl, inr, Bool-cases,
}
use nxweb.SimpleMap.{same_case}
use nxweb.SimpleMap.Same.{same_case_eq}
use nxweb.Cache.{Rec, find_key, remove_key, replace_key, check_size, unref_linked}
use nxweb.Cache.Eviction.{Evicted, Evictions, done, next, check_size-Evictions}

-- No two linked records have the same key.
abbrev pub IsDistinct : List Rec → Type 0
IsDistinct [] = Unit
IsDistinct (r ∷ rs) = (find_key r.key rs ≡ none) × IsDistinct rs

-- Records are taken out, or changed but for their keys.
pub data Thinned : List Rec → List Rec → Type 0 where
  nil : Thinned [] []
  keep :
      (r r' : Rec) {xs ys : List Rec} → r'.key ≡ r.key → Thinned xs ys → Thinned (r ∷ xs) (r' ∷ ys)
  drop : (r : Rec) {xs ys : List Rec} → Thinned xs ys → Thinned (r ∷ xs) ys

same : (xs : List Rec) → Thinned xs xs
same [] = nil
same (r ∷ xs) = keep r r refl (same xs)

find_key_cons :
    (k : Bytes) (r : Rec) (xs : List Rec)
    → find_key k (r ∷ xs) ≡ none
    → (same_case r.key k ≡ false) × (find_key k xs ≡ none)
unfolding find_key
find_key_cons k r xs h = elim (Bool-cases (same_case r.key k)) [
  | inl e ↦ absurd (let q = rw e at h in cc)
  | inr e ↦ (e, rw e at h)
]

cons-find_key :
    (k : Bytes) (r : Rec) (xs : List Rec)
    → same_case r.key k ≡ false
    → find_key k xs ≡ none
    → find_key k (r ∷ xs) ≡ none
unfolding find_key
cons-find_key k r xs e h = rw e h

pub Thinned-find_key :
    {xs ys : List Rec} (k : Bytes) → Thinned xs ys → find_key k xs ≡ none → find_key k ys ≡ none
Thinned-find_key k nil h = h
Thinned-find_key k (keep r r' {xs} {ys} e t) h =
    let (a, b) = find_key_cons k r xs h in cons-find_key k r' ys (rw e a) (Thinned-find_key k t b)
Thinned-find_key k (drop r {xs} t) h = Thinned-find_key k t (find_key_cons k r xs h).1

pub Thinned-IsDistinct : {xs ys : List Rec} → Thinned xs ys → IsDistinct xs → IsDistinct ys
Thinned-IsDistinct nil h = tt
Thinned-IsDistinct (keep r r' e t) (a, h) =
    (rw e (Thinned-find_key r.key t a), Thinned-IsDistinct t h)
Thinned-IsDistinct (drop r t) (a, h) = Thinned-IsDistinct t h

Thinned_trans : {xs ys zs : List Rec} → Thinned xs ys → Thinned ys zs → Thinned xs zs
Thinned_trans nil t = t
Thinned_trans (keep r r' e t) (keep q q' f u) = keep r q' (f ∙ e) (Thinned_trans t u)
Thinned_trans (keep r r' e t) (drop q u) = drop r (Thinned_trans t u)
Thinned_trans (drop r t) u = drop r (Thinned_trans t u)

without :
    (before : List Rec) (r : Rec) (after : List Rec)
    → Thinned (before ++ r ∷ after) (before ++ after)
without [] r after = drop r (same after)
without (q ∷ before) r after = keep q q refl (without before r after)

Evicted-Thinned : (xs ys : List Rec) → Evicted xs ys → Thinned xs ys
Evicted-Thinned xs ys e = rw (e.old, e.new) (without e.before e.gone e.after)

Evictions-Thinned : {max : ℕ} {xs ys : List Rec} → Evictions max xs ys → Thinned xs ys
Evictions-Thinned (done xs) = same xs
Evictions-Thinned (next xs zs l e v) = Thinned_trans (Evicted-Thinned xs zs e) (Evictions-Thinned v)

pub check_size-Thinned : (max : ℕ) (xs : List Rec) → Thinned xs (check_size max xs)
check_size-Thinned max xs = Evictions-Thinned (check_size-Evictions max xs).0

if_Thinned :
    (b : Bool) {xs ys zs : List Rec}
    → Thinned xs ys
    → Thinned xs zs
    → Thinned xs (if b then ys else zs)
if_Thinned true t u = t
if_Thinned false t u = u

pub unref_linked-Thinned : (now a : ℕ) (xs : List Rec) → Thinned xs (unref_linked now a xs)
unfolding unref_linked
unref_linked-Thinned now a [] = nil
unref_linked-Thinned now a (r ∷ xs) =
    if_Thinned (r.address == a)
      (if_Thinned (r.ref_count - 1 == 0 && ltb r.expires_time now) (drop r (same xs))
        (keep r _ refl (same xs)))
      (keep r r refl (unref_linked-Thinned now a xs))

replace_key-Thinned :
    (k : Bytes) (q : Rec) (xs : List Rec)
    → ((r : Rec) → find_key k xs ≡ some r → q.key ≡ r.key)
    → Thinned xs (replace_key k q xs)
unfolding replace_key find_key
replace_key-Thinned k q [] h = nil
replace_key-Thinned k q (r ∷ xs) h = elim (Bool-cases (same_case r.key k)) [
  | inl e ↦ rw e (keep r q (h r (rw e refl)) (same xs))
  | inr e ↦ rw e (keep r r refl (replace_key-Thinned k q xs (λ r f. h r (rw e f))))
]

remove_key-Thinned : (k : Bytes) (xs : List Rec) → Thinned xs (remove_key k xs)
unfolding remove_key
remove_key-Thinned k [] = nil
remove_key-Thinned k (r ∷ xs) =
    if_Thinned (same_case r.key k) (drop r (same xs)) (keep r r refl (remove_key-Thinned k xs))

pub replace_key-IsDistinct :
    (k : Bytes) (q : Rec) (xs : List Rec)
    → ((r : Rec) → find_key k xs ≡ some r → q.key ≡ r.key)
    → IsDistinct xs
    → IsDistinct (replace_key k q xs)
replace_key-IsDistinct k q xs h = Thinned-IsDistinct (replace_key-Thinned k q xs h)

-- The key that was found is the key that was looked for.
pub find_key_same : (k : Bytes) (xs : List Rec) (r : Rec) → find_key k xs ≡ some r → r.key ≡ k
unfolding find_key
find_key_same k [] r h = cc
find_key_same k (q ∷ xs) r h = elim (Bool-cases (same_case q.key k)) [
  | inl e ↦ let f = some_inj (rw e at h) in ap (λ t. t.key) (sym f) ∙ same_case_eq q.key k e
  | inr e ↦ find_key_same k xs r (rw e at h)
]

-- The records are distinct, so none with the key is left when one was taken out.
pub find_key-remove_key :
    (k : Bytes) (xs : List Rec) → IsDistinct xs → find_key k (remove_key k xs) ≡ none
unfolding remove_key find_key
find_key-remove_key k [] d = refl
find_key-remove_key k (r ∷ xs) (a, d) = elim (Bool-cases (same_case r.key k)) [
  | inl e ↦ rw e (rw (same_case_eq r.key k e) at a)
  | inr e ↦ rw e (cons-find_key k r (remove_key k xs) e (find_key-remove_key k xs d))
]

pub remove_key-IsDistinct :
    (k : Bytes) (xs : List Rec) → IsDistinct xs → IsDistinct (remove_key k xs)
remove_key-IsDistinct k xs = Thinned-IsDistinct (remove_key-Thinned k xs)

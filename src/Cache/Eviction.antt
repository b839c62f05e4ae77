-- ===== src/Cache/Eviction.antt =====
-- Which records `cache_check_size` of src/lib/cache.c takes out.
use nxweb.Base.{
  ℕ, zero, suc, ◌<◌, ◌≤◌, ◌≡◌, refl, sym, ap, ◌∙◌, none, some, List, [], ◌∷◌, ◌++◌, ltb, ◌==◌,
  length, length-append, All, arith, ◌⊎◌, inl, inr, Bool-cases, Option-cases, some_inj,
}
use nxweb.Cache.{Rec, evict_last, evict_next, check_size_loop, check_size}

abbrev pub IsUsed : Rec → Type 0
IsUsed r = 0 < r.ref_count

-- The record nearest to the tail that is not referenced is taken out.
pub record Evicted (xs ys : List Rec) : Type 0 where
  pub before : List Rec
  pub gone : Rec
  pub after : List Rec
  pub old : xs ≡ before ++ gone ∷ after
  pub new : ys ≡ before ++ after
  pub free : gone.ref_count ≡ 0
  pub used : All IsUsed after

evict_last_all : (xs : List Rec) → evict_last xs ≡ none → All IsUsed xs
unfolding evict_last
evict_last_all [] h = tt
evict_last_all (r ∷ xs) h = elim (Option-cases (evict_last xs)) [
  | inl n ↦ (ground (arith, rw n at h), evict_last_all xs n)
  | inr s ↦ absurd (let e = rw s.1 at h in cc)
]

evict_last-Evicted : (xs ys : List Rec) → evict_last xs ≡ some ys → Evicted xs ys
unfolding evict_last
evict_last-Evicted [] ys h = cc
evict_last-Evicted (r ∷ xs) ys h = elim (Option-cases (evict_last xs)) [
  | inr s ↦
      let e = evict_last-Evicted xs s.0 s.1 in
      let q = some_inj (rw s.1 at h) in
      record {
        before = r ∷ e.before;
        gone = e.gone;
        after = e.after;
        old = ap (λ t. r ∷ t) e.old;
        new = sym q ∙ ap (λ t. r ∷ t) e.new;
        free = e.free;
        used = e.used;
      }
  | inl n ↦ elim (Bool-cases (r.ref_count == 0)) [
    | inl z ↦
        let q = some_inj (rw (n, z) at h) in
        record {
          before = [];
          gone = r;
          after = xs;
          old = refl;
          new = sym q;
          free = ground (arith, z);
          used = evict_last_all xs n;
        }
    | inr z ↦ absurd (let e = rw (n, z) at h in cc)
  ]
]

length-Evicted : (xs ys : List Rec) → Evicted xs ys → length xs ≡ suc (length ys)
length-Evicted xs ys e =
    let a = ap (λ t. length t) e.old ∙ length-append e.before (e.gone ∷ e.after) in
    let b = ap (λ t. length t) e.new ∙ length-append e.before e.after in omega (arith, a, b)

-- One after the other is taken out, while there are more than `max`.
pub data Evictions (max : ℕ) : List Rec → List Rec → Type 0 where
  done : (xs : List Rec) → Evictions max xs xs
  next :
      (xs zs : List Rec) {ys : List Rec}
      → max < length xs
      → Evicted xs zs
      → Evictions max zs ys
      → Evictions max xs ys

evict_next-Evicted :
    (max : ℕ) (xs ys : List Rec) → evict_next max xs ≡ some ys → (max < length xs) × Evicted xs ys
unfolding evict_next
evict_next-Evicted max xs ys h = elim (Bool-cases (ltb max (length xs))) [
  | inl l ↦ (ground (arith, l), evict_last-Evicted xs ys (rw l at h))
  | inr l ↦ absurd (let e = rw l at h in cc)
]

evict_next-none :
    (max : ℕ) (xs : List Rec) → evict_next max xs ≡ none → (length xs ≤ max) ⊎ All IsUsed xs
unfolding evict_next
evict_next-none max xs h = elim (Bool-cases (ltb max (length xs))) [
  | inl l ↦ inr (evict_last_all xs (rw l at h))
  | inr l ↦ inl (ground (arith, l))
]

check_size_loop-Evictions :
    (max fuel : ℕ) (xs : List Rec)
    → length xs ≤ fuel
    → Evictions max xs (check_size_loop max fuel xs)
      × ((length (check_size_loop max fuel xs) ≤ max) ⊎ All IsUsed (check_size_loop max fuel xs))
unfolding check_size_loop
check_size_loop-Evictions max zero xs h = (done xs, inl (omega (arith, h)))
check_size_loop-Evictions max (suc fuel) xs h = elim (Option-cases (evict_next max xs)) [
  | inl n ↦ rw (check_size_loop, n) (done xs, evict_next-none max xs n)
  | inr s ↦
      let (l, e) = evict_next-Evicted max xs s.0 s.1 in
      let c = length-Evicted xs s.0 e in
      let (v, b) = check_size_loop-Evictions max fuel s.0 (omega (arith, h, c)) in
      rw (check_size_loop, s.1) (next xs s.0 l e v, b)
]

-- While there are more records than the limit, the one nearest to the tail that nobody references
-- is taken out, and no other; in the end there are no more than the limit, or all are referenced.
pub check_size-Evictions :
    (max : ℕ) (items : List Rec)
    → Evictions max items (check_size max items)
      × ((length (check_size max items) ≤ max) ⊎ All IsUsed (check_size max items))
unfolding check_size
check_size-Evictions max items = check_size_loop-Evictions max (length items) items (omega arith)

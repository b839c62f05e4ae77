-- ===== src/Cache/Valid.antt =====
-- The sections of the mutex of src/lib/cache.c as steps, and the invariant that each of them keeps.
use nxweb.Base.{
  ℕ, ◌-◌, ◌≡◌, refl, sym, ◌∙◌, Bool, true, false, not, ◌&&◌, Option, none, some, List, [], ◌∷◌,
  ◌++◌, some_inj, Bytes, leb, ◌==◌, if◌then◌else◌, All, arith, inl, inr, Bool-cases,
}
use nxweb.Cache.{
  Rec, Cache, max_cached_items, find_key, remove_key, replace_key, check_size, unref_linked,
  unref_detached, counted_up, is_referenced, cache_rec_unref, serve, forget, try_found, try_by,
  revalidated, is_foreign, cache_try, store_by, store_record,
}
use nxweb.Cache.Eviction.{IsUsed}
use nxweb.Cache.Sections.{
  IsDistinct, Thinned-IsDistinct, check_size-Thinned, unref_linked-Thinned, replace_key-IsDistinct,
  find_key_same, find_key-remove_key, remove_key-IsDistinct,
}

-- The linked records have distinct keys, and what is kept apart is referenced.
abbrev pub IsValid : Cache → Type 0
IsValid c = IsDistinct c.items × All IsUsed c.detached

-- One thread at a time is in a section.
pub data Step (c : Cache) : Cache → Type 0 where
  asked :
      (key : Bytes) (now if_modified_since mtime : ℕ)
      → Step c (cache_try c key now if_modified_since mtime).1
  entered : (new : Rec) → Step c (store_record c new).1
  released : (now address : ℕ) (d : Cache) → cache_rec_unref now address c ≡ some d → Step c d

pub data Runs (c : Cache) : Cache → Type 0 where
  start : Runs c c
  after : {d e : Cache} → Runs c d → Step d e → Runs c e

if_Used :
    (b : Bool) (xs ys : List Rec)
    → All IsUsed xs
    → All IsUsed ys
    → All IsUsed (if b then xs else ys)
if_Used true xs ys u v = u
if_Used false xs ys u v = v

unref_detached-All : (a : ℕ) (xs : List Rec) → All IsUsed xs → All IsUsed (unref_detached a xs)
unfolding unref_detached
unref_detached-All a [] u = tt
unref_detached-All a (r ∷ xs) (u, us) =
    if_Used (r.address == a) _ _
      (elim (Bool-cases (r.ref_count - 1 == 0)) [
        | inl z ↦ rw z us
        | inr z ↦ rw z (ground (arith, z), us)
      ])
      (u, unref_detached-All a xs us)

check_size-IsDistinct : (max : ℕ) (xs : List Rec) → IsDistinct xs → IsDistinct (check_size max xs)
check_size-IsDistinct max xs = Thinned-IsDistinct (check_size-Thinned max xs)

cache_rec_unref-IsValid :
    (now a : ℕ) (c d : Cache) → cache_rec_unref now a c ≡ some d → IsValid c → IsValid d
unfolding cache_rec_unref
cache_rec_unref-IsValid now a c d h (k, u) =
    elim (Bool-cases (is_referenced a (c.items ++ c.detached))) [
      | inl y ↦ rw (sym (some_inj (rw y at h))) (
        check_size-IsDistinct max_cached_items (unref_linked now a c.items)
            (Thinned-IsDistinct (unref_linked-Thinned now a c.items) k),
        unref_detached-All a c.detached u,
      )
      | inr n ↦ absurd (let q = rw n at h in cc)
    ]

-- A record with the key is put in front.
front-IsDistinct :
    (k : Bytes) (r : Rec) (xs : List Rec)
    → r.key ≡ k
    → IsDistinct xs
    → IsDistinct (r ∷ remove_key k xs)
front-IsDistinct k r xs e d = (rw e (find_key-remove_key k xs d), remove_key-IsDistinct k xs d)

serve-IsValid :
    (c : Cache) (k : Bytes) (since : ℕ) (r : Rec)
    → r.key ≡ k
    → IsValid c
    → IsValid (serve c k since r).1
unfolding serve
serve-IsValid c k since r e (d, u) =
    elim (Bool-cases (not (since == 0) && leb r.last_modified since)) [
      | inl b ↦ rw b (front-IsDistinct k r c.items e d, u)
      | inr b ↦
          rw b (front-IsDistinct k (record r { ref_count = counted_up r.ref_count }) c.items e d, u)
    ]

forget-IsValid : (c : Cache) (k : Bytes) (r : Rec) → IsValid c → IsValid (forget c k r).1
unfolding forget
forget-IsValid c k r (d, u) = (
  remove_key-IsDistinct k c.items d,
  elim (Bool-cases (r.ref_count == 0)) [ inl b ↦ rw b u | inr b ↦ rw b (ground (arith, b), u) ],
)

-- Only the record with the key is looked at, and it keeps its key.
replaced-IsValid :
    (c : Cache) (k : Bytes) (q : Rec)
    → q.key ≡ k
    → IsValid c
    → IsValid (record c { items = replace_key k q c.items })
replaced-IsValid c k q e (d, u) =
    (replace_key-IsDistinct k q c.items (λ r f. e ∙ sym (find_key_same k c.items r f)) d, u)

try_found-IsValid :
    (c : Cache) (k : Bytes) (now since mtime : ℕ) (r : Rec)
    → r.key ≡ k
    → IsValid c
    → IsValid (try_found c k now since mtime r).1
unfolding try_found
try_found-IsValid c k now since mtime r e v = elim (Bool-cases (leb now r.expires_time)) [
  | inl b ↦ rw b (serve-IsValid c k since r e v)
  | inr b ↦ elim (Bool-cases (mtime == 0)) [
    | inl z ↦ rw (b, z) (replaced-IsValid c k r e v)
    | inr z ↦ rw (b, z) (forget-IsValid c k r v)
  ]
]

key-revalidated : (now mtime : ℕ) (r : Rec) → (revalidated now mtime r).key ≡ r.key
unfolding revalidated
key-revalidated now mtime r = ground arith

try_by-IsValid :
    (c : Cache) (k : Bytes) (now since mtime : ℕ) (foreign : Bool) (o : Option Rec)
    → find_key k c.items ≡ o
    → IsValid c
    → IsValid (try_by c k now since mtime foreign o).1
unfolding try_by
try_by-IsValid c k now since mtime true o f v = v
try_by-IsValid c k now since mtime false none f v = v
try_by-IsValid c k now since mtime false (some r) f v =
    try_found-IsValid c k now since mtime (revalidated now mtime r)
      (key-revalidated now mtime r ∙ find_key_same k c.items r f) v

store_by-IsValid :
    (c : Cache) (new : Rec) (o : Option Rec)
    → find_key new.key c.items ≡ o
    → IsValid c
    → IsValid (store_by c new o).1
unfolding store_by
store_by-IsValid c new none f (d, u) =
    let used : Rec = record new { ref_count = 1 } in
    (check_size-IsDistinct max_cached_items (used ∷ c.items) (f, d), u)
store_by-IsValid c new (some r) f v =
    replaced-IsValid c new.key (record r { ref_count = counted_up r.ref_count })
      (find_key_same new.key c.items r f) v

Step-IsValid : (c d : Cache) → Step c d → IsValid c → IsValid d
unfolding cache_try store_record
Step-IsValid c _ (asked k now since mtime) v =
    try_by-IsValid c k now since mtime (is_foreign k) (find_key k c.items) refl v
Step-IsValid c _ (entered new) v = store_by-IsValid c new (find_key new.key c.items) refl v
Step-IsValid c _ (released now a d h) v = cache_rec_unref-IsValid now a c d h v

-- Whatever lookups, stores and releases follow each other, in whatever order the threads take the
-- mutex, no two linked records have the same key, and a record that was taken out and is kept
-- still has somebody who references it, if this is so at the start. A release of a record that
-- nobody references fails its assertion and is no step.
pub Runs-IsValid : (c d : Cache) → Runs c d → IsValid c → IsValid d
Runs-IsValid c _ start v = v
Runs-IsValid c e (after {d} r s) v = Step-IsValid d e s (Runs-IsValid c d r v)

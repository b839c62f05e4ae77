-- ===== src/Ssi/Joined.antt =====
-- The loop over the directives of src/lib/filters/ssi_filter.c, and data that comes in parts.
use nxweb.Base.{
  ℕ, zero, suc, ◌≤◌, ◌≡◌, refl, sym, ap, ◌∙◌, false, none, some, List, [], ◌∷◌, ◌++◌, Bytes, length,
  length-append, All, arith, inl, inr, Option-cases,
}
use nxweb.Ssi.Stream.{
  Found, find_directive, Item, chunk, directive, front_items, items_of, parse_loop, parse_stream,
}
use nxweb.Ssi.Overwrite.{ends_command, overwritten, overwritten_same}
use nxweb.Ssi.Lengths.{length-find_directive, length-behind}
use nxweb.Ssi.Cuts.{more_found, find_directive-append}

loop_none : (n : ℕ) (s : Bytes) → find_directive s ≡ none → parse_loop n s ≡ ([], s)
unfolding parse_loop
loop_none zero s h = refl
loop_none (suc n) s h = rw (parse_loop, h) refl

loop_some :
    (n : ℕ) (s : Bytes) (f : Found)
    → find_directive s ≡ some f
    → parse_loop (suc n) s ≡ (
      items_of f (parse_loop n (overwritten f.inner f.behind)).0,
      (parse_loop n (overwritten f.inner f.behind)).1,
    )
unfolding parse_loop
loop_some n s f h = rw (parse_loop, h) refl

-- More rounds than bytes change nothing.
loop_fuel : (n m : ℕ) (s : Bytes) → length s ≤ n → length s ≤ m → parse_loop n s ≡ parse_loop m s
loop_fuel zero m s h k = elim (Option-cases (find_directive s)) [
  | inl e ↦ loop_none zero s e ∙ sym (loop_none m s e)
  | inr e ↦ absurd (let l = length-behind s e.0 e.1 in omega (arith, l, h))
]
loop_fuel (suc n) zero s h k = elim (Option-cases (find_directive s)) [
  | inl e ↦ loop_none (suc n) s e ∙ sym (loop_none zero s e)
  | inr e ↦ absurd (let l = length-behind s e.0 e.1 in omega (arith, l, k))
]
loop_fuel (suc n) (suc m) s h k = elim (Option-cases (find_directive s)) [
  | inl e ↦ loop_none (suc n) s e ∙ sym (loop_none (suc m) s e)
  | inr e ↦
      let l = length-behind s e.0 e.1 in
      let r =
        loop_fuel n m (overwritten e.0.inner e.0.behind) (omega (arith, l, h))
          (omega (arith, l, k)) in
      loop_some n s e.0 e.1 ∙ ap (λ p. (items_of e.0 p.0, p.1)) r ∙ sym (loop_some m s e.0 e.1)
]

-- What the second part of the data adds.
abbrev pub continued : List Item × Bytes → Bytes → List Item × Bytes
continued p t = let more = parse_stream (p.1 ++ t) in (p.0 ++ more.0, more.1)

front_items-append :
    (s : Bytes) (xs ys : List Item) → front_items s (xs ++ ys) ≡ front_items s xs ++ ys
front_items-append [] xs ys = refl
front_items-append (c ∷ s) xs ys = refl

items_of-append : (f : Found) (xs ys : List Item) → items_of f (xs ++ ys) ≡ items_of f xs ++ ys
unfolding items_of
items_of-append f xs ys = front_items-append f.front (directive f.inner ∷ xs) ys

items_of-more :
    (f : Found) (t : Bytes) (xs : List Item)
    → items_of (record f { behind = f.behind ++ t }) xs ≡ items_of f xs
unfolding items_of
items_of-more f t xs = refl

find_directive_more :
    (s t : Bytes) (f : Found)
    → find_directive s ≡ some f
    → find_directive (s ++ t) ≡ some (record f { behind = f.behind ++ t })
find_directive_more s t f e = elim (find_directive-append s t) [
  | inl n ↦ absurd (cc)
  | inr r ↦ r ∙ ap (λ o. more_found t o) e
]

-- A directive whose command does not end it.
abbrev pub IsHarmless : Item → Type 0
IsHarmless (chunk text) = Unit
IsHarmless (directive str) = ends_command str ≡ false

front_items-All :
    (s str : Bytes) (items : List Item)
    → All IsHarmless (front_items s (directive str ∷ items))
    → (ends_command str ≡ false) × All IsHarmless items
front_items-All [] str items h = h
front_items-All (c ∷ s) str items (a, h) = h

items_of-All :
    (f : Found) (items : List Item)
    → All IsHarmless (items_of f items)
    → (ends_command f.inner ≡ false) × All IsHarmless items
unfolding items_of
items_of-All f items h = front_items-All f.front f.inner items h

-- Where the loop ends at once, what follows is parsed with it.
cut_none :
    (n m : ℕ) (s t : Bytes)
    → find_directive s ≡ none
    → length (s ++ t) ≤ m
    → parse_loop m (s ++ t) ≡ continued (parse_loop n s) t
unfolding parse_stream
cut_none n m s t e k =
    loop_fuel m (length (s ++ t)) (s ++ t) k (omega arith)
    ∙ ap (λ p. continued p t) (sym (loop_none n s e))

-- A directive that is harmless is passed, and the search goes on behind it.
loop_harmless :
    (n : ℕ) (s : Bytes) (f : Found)
    → find_directive s ≡ some f
    → ends_command f.inner ≡ false
    → parse_loop (suc n) s ≡ (items_of f (parse_loop n f.behind).0, (parse_loop n f.behind).1)
loop_harmless n s f e h =
    loop_some n s f e
    ∙ ap (λ b. (items_of f (parse_loop n b).0, (parse_loop n b).1))
        (overwritten_same f.inner f.behind h)

loop_cut :
    (n m : ℕ) (s t : Bytes)
    → length s ≤ n
    → length (s ++ t) ≤ m
    → All IsHarmless (parse_loop m (s ++ t)).0
    → parse_loop m (s ++ t) ≡ continued (parse_loop n s) t
loop_cut zero m s t h k u = elim (Option-cases (find_directive s)) [
  | inl e ↦ cut_none zero m s t e k
  | inr e ↦ absurd (let l = length-find_directive s e.0 e.1 in omega (arith, l, h))
]
loop_cut (suc n) zero s t h k u = elim (Option-cases (find_directive s)) [
  | inl e ↦ cut_none (suc n) zero s t e k
  | inr e ↦ absurd (
      let l = length-find_directive s e.0 e.1 in
      let a = length-append s t in omega (arith, l, a, k))
]
loop_cut (suc n) (suc m) s t h k u = elim (Option-cases (find_directive s)) [
  | inl e ↦ cut_none (suc n) (suc m) s t e k
  | inr (f, e) ↦
      let l = length-find_directive s f e in
      let a = length-append s t in
      let b = length-append f.behind t in
      let g : Found = record f { behind = f.behind ++ t } in
      let e' = find_directive_more s t f e in
      let u' : All IsHarmless (items_of g (parse_loop m (overwritten f.inner (f.behind ++ t))).0) =
        rw (loop_some m (s ++ t) g e') at u in
      let v : ends_command f.inner ≡ false =
        (items_of-All g (parse_loop m (overwritten f.inner (f.behind ++ t))).0 u').0 in
      let w : All IsHarmless (parse_loop m (f.behind ++ t)).0 =
        rw (overwritten_same f.inner (f.behind ++ t) v) at
          ((items_of-All g (parse_loop m (overwritten f.inner (f.behind ++ t))).0 u').1) in
      let r = loop_cut n m f.behind t (omega (arith, l, h)) (omega (arith, l, a, b, k)) w in
      let q = parse_loop n f.behind in
      loop_harmless m (s ++ t) g e' v
      ∙ ap (λ p. (items_of g p.0, p.1)) r
      ∙ ap (λ xs. (xs, (continued q t).1))
          (items_of-more f t (continued q t).0 ∙ items_of-append f q.0 (parse_stream (q.1 ++ t)).0)
      ∙ ap (λ p. continued p t) (sym (loop_harmless n s f e v))
]

-- Data may come in two parts. If each directive that is found in the whole has a blank behind its
-- command, then the texts and directives found in the first part, followed by those found in what
-- was left of it with the second part behind it, are those found in the whole; what stays in the
-- buffer is the same too.
pub parse_stream-append :
    (s t : Bytes)
    → All IsHarmless (parse_stream (s ++ t)).0
    → parse_stream (s ++ t) ≡ (
      (parse_stream s).0 ++ (parse_stream ((parse_stream s).1 ++ t)).0,
      (parse_stream ((parse_stream s).1 ++ t)).1,
    )
unfolding parse_stream
parse_stream-append s t u = loop_cut (length s) (length (s ++ t)) s t (omega arith) (omega arith) u

-- ===== src/Queue/Actions.antt =====
-- What each part of the operations of src/include/nxweb/nx_queue_tpl.h does to the list that the
-- queue holds, and the operations themselves.
use mathlib.Core.Path.{subst}
use nxweb.Base.{
  ℕ, zero, suc, ◌+◌, ◌<◌, ◌≤◌, ◌≡◌, ◌⊎◌, inl, inr, refl, sym, ap, ◌∙◌, true, false, none, some,
  List, [], ◌∷◌, ◌++◌, ◌==◌, length, length-append, get_elem?, set, length-set, arith,
}
use nxweb.Queue.{
  Queue, max_items, queue_init, is_empty, is_full, queue_length, fetch, release, pop, Popped,
  nothing, popped, store, publish, push,
}
use nxweb.Queue.Contents.{
  place, suc_mod, place-lt, place_zero, place_next, get_elem?-set_self, Holds, IsQueue, Holds-set,
  Holds-place, Holds-append,
}

at_most : (a b : ℕ) → a ≤ b → (a < b) ⊎ (a ≡ b)
at_most zero zero h = inr refl
at_most zero (suc b) h = inl (omega arith)
at_most (suc a) zero h = absurd (omega (arith, h))
at_most (suc a) (suc b) h = elim (at_most a b (omega (arith, h))) [
  | inl l ↦ inl (omega (arith, l))
  | inr e ↦ inr (ap suc e)
]

full_place : (m p n t : ℕ) → p < m → n < m → t ≡ place m p n → (p == place m t 1) ≡ (n + 1 == m)
full_place m p n t h k e = ground (arith, h, k, e)

tail_place : (m p n t : ℕ) → p < m → n + 1 < m → t ≡ place m p n → place m t 1 ≡ place m p (n + 1)
tail_place m p n t h k e = ground (arith, h, k, e)

module _ {ℓ} {A : Type ℓ} where
  pub queue_init-IsQueue : (items : List A) → 0 < length items → IsQueue (queue_init items) []
  unfolding Holds
  queue_init-IsQueue items h = record {
    head = h;
    room = h;
    tail = sym (place_zero (length items) 0 h);
    holds = _;
  }

  pub is_empty_lem : (q : Queue A) (xs : List A) → IsQueue q xs → is_empty q ≡ (length xs == 0)
  unfolding is_empty
  is_empty_lem q xs i = ground (arith, i.head, i.room, i.tail)

  pub is_full_lem :
      (q : Queue A) (xs : List A) → IsQueue q xs → is_full q ≡ (length xs + 1 == max_items q)
  unfolding is_full
  is_full_lem q xs i =
      let m = max_items q in
      let l = place-lt m q.head (length xs) i.head i.room in
      let e = suc_mod m q.tail (subst (λ t. t < m) (sym i.tail) l) in
      ap (λ x. q.head == x) e ∙ full_place m q.head (length xs) q.tail i.head i.room i.tail

  -- The number that the code counts is the length of the list.
  pub queue_length_lem : (q : Queue A) (xs : List A) → IsQueue q xs → queue_length q ≡ length xs
  unfolding queue_length
  queue_length_lem q xs i = ground (arith, i.head, i.room, i.tail)

  pub fetch_lem : (q : Queue A) (x : A) (xs : List A) → IsQueue q (x ∷ xs) → fetch q ≡ some x
  unfolding Holds
  fetch_lem q x xs i =
      ap (λ p. get_elem? q.items p) (sym (place_zero (max_items q) q.head i.head)) ∙ i.holds.0

  pub release-IsQueue :
      (q : Queue A) (x : A) (xs : List A) → IsQueue q (x ∷ xs) → IsQueue (release q) xs
  unfolding release Holds
  release-IsQueue q x xs i =
      let e = sym (suc_mod (max_items q) q.head i.head) in
      subst (λ h. IsQueue (record q { head = h }) xs) e
        (record {
          head = place-lt (max_items q) q.head 1 i.head (omega (arith, i.room));
          room = omega (arith, i.room);
          tail = i.tail ∙ sym (place_next (max_items q) q.head (length xs) i.head i.room);
          holds = Holds-place q.items q.head 0 xs i.head (omega (arith, i.room)) i.holds.1;
        })

  pub store-IsQueue : (q : Queue A) (xs : List A) (v : A) → IsQueue q xs → IsQueue (store q v) xs
  unfolding store
  store-IsQueue q xs v i =
      let e = length-set q.items q.tail v in
      record {
        head = omega (arith, i.head, e);
        room = omega (arith, i.room, e);
        tail = i.tail ∙ ap (λ m. place m q.head (length xs)) (sym e);
        holds =
            subst (λ t. Holds (set q.items t v) q.head 0 xs) (sym i.tail)
              (Holds-set q.items q.head 0 (length xs) xs v i.head i.room (omega arith) i.holds);
      }

  pub publish-IsQueue :
      (q : Queue A) (xs : List A) (v : A)
      → IsQueue q xs
      → get_elem? q.items q.tail ≡ some v
      → length xs + 1 < max_items q
      → IsQueue (publish q) (xs ++ v ∷ [])
  unfolding publish
  publish-IsQueue q xs v i e h =
      let m = max_items q in
      let n : length (xs ++ v ∷ []) ≡ length xs + 1 = length-append xs (v ∷ []) in
      let t = subst (λ t. t < m) (sym i.tail) (place-lt m q.head (length xs) i.head i.room) in
      record {
        head = i.head;
        room = omega (arith, h, n);
        tail =
            suc_mod m q.tail t
            ∙ tail_place m q.head (length xs) q.tail i.head h i.tail
            ∙ ap (λ k. place m q.head k) (sym n);
        holds = Holds-append q.items q.head 0 xs v i.holds (
            ap (λ p. get_elem? q.items p) (ap (λ k. place m q.head k) (omega arith) ∙ sym i.tail)
            ∙ e);
      }

  pub store-fetched :
      (q : Queue A) (xs : List A) (v : A)
      → IsQueue q xs
      → get_elem? (store q v).items (store q v).tail ≡ some v
  unfolding store
  store-fetched q xs v i = get_elem?-set_self q.items q.tail v (
      subst (λ t. t < max_items q) (sym i.tail)
        (place-lt (max_items q) q.head (length xs) i.head i.room))

  pub store_room :
      (q : Queue A) (xs : List A) (v : A)
      → length xs + 1 < max_items q
      → length xs + 1 < max_items (store q v)
  unfolding store
  store_room q xs v h = omega (arith, h, length-set q.items q.tail v)

  -- What `pop` has to do with the list.
  pub IsPopped : Popped A → List A → Type ℓ
  IsPopped r [] = r ≡ nothing
  IsPopped r (x ∷ xs) = (q : Queue A) × (r ≡ popped x q) × IsQueue q xs

  -- An item is taken from the front of the list, and none from an empty one.
  pub pop-IsPopped : (q : Queue A) (xs : List A) → IsQueue q xs → IsPopped (pop q) xs
  unfolding IsPopped pop
  pop-IsPopped q [] i = let e = is_empty_lem q [] i in rw (pop, e) refl
  pop-IsPopped q (x ∷ xs) i =
      let z : (length (x ∷ xs) == 0) ≡ false = ground arith in
      let e = is_empty_lem q (x ∷ xs) i ∙ z in
      let f = fetch_lem q x xs i in (release q, rw (pop, e, f) refl, release-IsQueue q x xs i)

  -- An item is added at the end of the list, and refused just if the list has one item less than the
  -- array has places.
  pub push_lem :
      (q : Queue A) (xs : List A) (v : A)
      → IsQueue q xs
      → ((length xs + 1 ≡ max_items q) × (push q v ≡ none))
        ⊎ ((length xs + 1 < max_items q)
            × (q' : Queue A) × (push q v ≡ some q')
            × IsQueue q' (xs ++ v ∷ []))
  unfolding push
  push_lem q xs v i =
      let e = is_full_lem q xs i in
      elim (at_most (length xs + 1) (max_items q) (omega (arith, i.room))) [
        | inl l ↦
            let f : (length xs + 1 == max_items q) ≡ false = ground (arith, l) in
            inr (
              (
                l,
                publish (store q v),
                rw (push, e ∙ f) refl,
                publish-IsQueue (store q v) xs v (store-IsQueue q xs v i) (store-fetched q xs v i)
                    (store_room q xs v l),
              ))
        | inr l ↦
            let f : (length xs + 1 == max_items q) ≡ true = ground (arith, l) in
            inl (l, rw (push, e ∙ f) refl)
      ]

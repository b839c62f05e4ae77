-- ===== src/Queue/Interleaving.antt =====
-- One thread pushes and one pops, step by step, in any order: the parts of `push` and `pop` of
-- src/include/nxweb/nx_queue_tpl.h between their barriers.
use mathlib.Core.Path.{subst}
use nxweb.Base.{
  ◌+◌, ◌<◌, ◌≡◌, refl, sym, ap, ◌∙◌, false, some, some_inj, List, [], ◌∷◌, ◌++◌, append_assoc, ◌==◌,
  length, get_elem?, arith,
}
use nxweb.Queue.{Queue, max_items, queue_init, is_empty, is_full, fetch, release, store, publish}
use nxweb.Queue.Contents.{IsQueue}
use nxweb.Queue.Actions.{
  queue_init-IsQueue, is_empty_lem, is_full_lem, fetch_lem, release-IsQueue, store-IsQueue,
  store-fetched, store_room, publish-IsQueue,
}

-- Where the pushing thread is: outside, past its test, or past its write.
pub data Producer {ℓ} (A : Type ℓ) : Type ℓ where
  free : Producer A
  may_store : A → Producer A
  stored : A → Producer A

-- Where the popping thread is: outside, past its test, or past its read.
pub data Consumer {ℓ} (A : Type ℓ) : Type ℓ where
  waiting : Consumer A
  may_fetch : Consumer A
  fetched : A → Consumer A

-- A reachable state, with the items pushed and those popped, in order.
pub data Reach {ℓ} (A : Type ℓ) : Queue A → Producer A → Consumer A → List A → List A → Type ℓ where
  start : (items : List A) → 0 < length items → Reach A (queue_init items) free waiting [] []
  see_room :
      {q : Queue A} {c : Consumer A} {pushed popped : List A} (x : A)
      → Reach A q free c pushed popped
      → is_full q ≡ false
      → Reach A q (may_store x) c pushed popped
  do_store :
      {q : Queue A} {c : Consumer A} {pushed popped : List A} {x : A}
      → Reach A q (may_store x) c pushed popped
      → Reach A (store q x) (stored x) c pushed popped
  do_publish :
      {q : Queue A} {c : Consumer A} {pushed popped : List A} {x : A}
      → Reach A q (stored x) c pushed popped
      → Reach A (publish q) free c (pushed ++ x ∷ []) popped
  see_item :
      {q : Queue A} {p : Producer A} {pushed popped : List A}
      → Reach A q p waiting pushed popped
      → is_empty q ≡ false
      → Reach A q p may_fetch pushed popped
  do_fetch :
      {q : Queue A} {p : Producer A} {pushed popped : List A} {x : A}
      → Reach A q p may_fetch pushed popped
      → fetch q ≡ some x
      → Reach A q p (fetched x) pushed popped
  do_release :
      {q : Queue A} {p : Producer A} {pushed popped : List A} {x : A}
      → Reach A q p (fetched x) pushed popped
      → Reach A (release q) p waiting pushed (popped ++ x ∷ [])

module _ {ℓ} {A : Type ℓ} where
  -- What the pushing thread may rely on.
  IsReady : Queue A → List A → Producer A → Type ℓ
  IsReady q xs free = Unit
  IsReady q xs (may_store x) = (length xs + 1 < max_items q) × Unit {ℓ}
  IsReady q xs (stored x) = (length xs + 1 < max_items q) × (get_elem? q.items q.tail ≡ some x)

  -- What the popping thread may rely on.
  IsFed : List A → Consumer A → Type ℓ
  IsFed xs waiting = Unit
  IsFed xs may_fetch = (x : A) × (ys : List A) × (xs ≡ x ∷ ys)
  IsFed xs (fetched x) = (ys : List A) × (xs ≡ x ∷ ys)

  -- What holds in every reachable state.
  record IsGood (q : Queue A) (p : Producer A) (c : Consumer A) (pushed popped : List A)
      : Type ℓ where
    xs : List A
    is_queue : IsQueue q xs
    order : pushed ≡ popped ++ xs
    ready : IsReady q xs p
    fed : IsFed xs c

  IsFed-append : (xs : List A) (v : A) (c : Consumer A) → IsFed xs c → IsFed (xs ++ v ∷ []) c
  unfolding IsFed
  IsFed-append xs v waiting h = _
  IsFed-append xs v may_fetch (x, ys, e) = (x, ys ++ v ∷ [], ap (λ s. s ++ v ∷ []) e)
  IsFed-append xs v (fetched x) (ys, e) = (ys ++ v ∷ [], ap (λ s. s ++ v ∷ []) e)

  IsReady-release :
      (q : Queue A) (x : A) (xs : List A) (p : Producer A)
      → IsReady q (x ∷ xs) p
      → IsReady (release q) xs p
  unfolding IsReady release
  IsReady-release q x xs free h = _
  IsReady-release q x xs (may_store y) (l, _) = (omega (arith, l), _)
  IsReady-release q x xs (stored y) (l, e) = (omega (arith, l), e)

  not_empty : (xs : List A) → (length xs == 0) ≡ false → (x : A) × (ys : List A) × (xs ≡ x ∷ ys)
  not_empty [] h = ground (arith, h)
  not_empty (x ∷ xs) h = (x, xs, refl)

  Reach-IsGood :
      {q : Queue A} {p : Producer A} {c : Consumer A} {pushed popped : List A}
      → Reach A q p c pushed popped
      → IsGood q p c pushed popped
  unfolding IsReady IsFed
  Reach-IsGood (start items h) = record {
    xs = [];
    is_queue = queue_init-IsQueue items h;
    order = refl;
    ready = _;
    fed = _;
  }
  Reach-IsGood (see_room {q} x r e) =
      let g = Reach-IsGood r in
      let f = sym (is_full_lem q g.xs g.is_queue) ∙ e in
      record {
        xs = g.xs;
        is_queue = g.is_queue;
        order = g.order;
        ready = (ground (arith, f, g.is_queue.room), _);
        fed = g.fed;
      }
  Reach-IsGood (do_store {q} {x = x} r) =
      let g = Reach-IsGood r in
      record {
        xs = g.xs;
        is_queue = store-IsQueue q g.xs x g.is_queue;
        order = g.order;
        ready = (store_room q g.xs x g.ready.0, store-fetched q g.xs x g.is_queue);
        fed = g.fed;
      }
  Reach-IsGood (do_publish {q} {c} {pushed} {popped} {x} r) =
      let g = Reach-IsGood r in
      record {
        xs = g.xs ++ x ∷ [];
        is_queue = publish-IsQueue q g.xs x g.is_queue g.ready.1 g.ready.0;
        order = ap (λ s. s ++ x ∷ []) g.order ∙ append_assoc popped g.xs (x ∷ []);
        ready = _;
        fed = IsFed-append g.xs x c g.fed;
      }
  Reach-IsGood (see_item {q} r e) =
      let g = Reach-IsGood r in
      record {
        xs = g.xs;
        is_queue = g.is_queue;
        order = g.order;
        ready = g.ready;
        fed = not_empty g.xs (sym (is_empty_lem q g.xs g.is_queue) ∙ e);
      }
  Reach-IsGood (do_fetch {q} {x = x} r e) =
      let g = Reach-IsGood r in
      let (y, ys, f) = g.fed in
      let e' = fetch_lem q y ys (subst (IsQueue q) f g.is_queue) in
      record {
        xs = g.xs;
        is_queue = g.is_queue;
        order = g.order;
        ready = g.ready;
        fed = (ys, f ∙ ap (λ z. z ∷ ys) (some_inj (sym e' ∙ e)));
      }
  Reach-IsGood (do_release {q} {p} {pushed} {popped} {x} r) =
      let g = Reach-IsGood r in
      let (ys, f) = g.fed in
      record {
        xs = ys;
        is_queue = release-IsQueue q x ys (subst (IsQueue q) f g.is_queue);
        order = g.order ∙ ap (λ s. popped ++ s) f ∙ sym (append_assoc popped (x ∷ []) ys);
        ready = IsReady-release q x ys p (subst (λ s. IsReady q s p) f g.ready);
        fed = _;
      }

  -- However the two threads take turns, the items popped and then those that the queue holds are the
  -- items pushed, in their order: none is lost, repeated or overtaken.
  pub Reach-order :
      {q : Queue A} {p : Producer A} {c : Consumer A} (pushed popped : List A)
      → Reach A q p c pushed popped
      → (xs : List A) × (pushed ≡ popped ++ xs) × IsQueue q xs
  Reach-order pushed popped r = let g = Reach-IsGood r in (g.xs, g.order, g.is_queue)

  -- A thread that is past the test of `pop` reads an item, and just the oldest that was not popped.
  pub Reach-fetch :
      {q : Queue A} {p : Producer A} (pushed popped : List A)
      → Reach A q p may_fetch pushed popped
      → (x : A) × (ys : List A) × (fetch q ≡ some x) × (pushed ≡ popped ++ x ∷ ys)
  unfolding IsFed
  Reach-fetch {q} pushed popped r =
      let g = Reach-IsGood r in
      let (x, ys, f) = g.fed in
      (x, ys, fetch_lem q x ys (subst (IsQueue q) f g.is_queue), g.order ∙ ap (λ s. popped ++ s) f)

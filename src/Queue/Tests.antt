-- ===== src/Queue/Tests.antt =====
-- The ring queue of src/include/nxweb/nx_queue_tpl.h, run.
use nxweb.Base.{ℕ, ◌<◌, ◌≡◌, ◌⊎◌, refl, none, some, List, [], ◌∷◌, arith}
use nxweb.Queue.{Queue, queue_init, max_items, is_empty, is_full, fetch, pop, push, store, publish}
use nxweb.Queue.Contents.{IsQueue, Holds}
use nxweb.Queue.Actions.{pop-IsPopped, push_lem, IsPopped}
use nxweb.Queue.Interleaving.{
  Reach, start, see_room, do_store, do_publish, see_item, free, may_fetch, waiting, Reach-order,
  Reach-fetch,
}

-- The tail is past the end of the array.
abbrev wrapped : Queue ℕ
wrapped = record { head = 2; tail = 1; items = 30 ∷ 9 ∷ 20 ∷ [] }

wrapped-IsQueue : IsQueue wrapped (20 ∷ 30 ∷ [])
unfolding Holds
wrapped-IsQueue = record {
  head = omega arith;
  room = omega arith;
  tail = refl;
  holds = (refl, (refl, _));
}

full_run : push wrapped 5 ≡ none
unfolding push
full_run = refl

pop-IsPopped_example : IsPopped (pop wrapped) (20 ∷ 30 ∷ [])
pop-IsPopped_example = pop-IsPopped wrapped (20 ∷ 30 ∷ []) wrapped-IsQueue

push_lem_example :
    ((3 ≡ max_items wrapped) × (push wrapped 5 ≡ none))
    ⊎ ((3 < max_items wrapped)
        × (q' : Queue ℕ) × (push wrapped 5 ≡ some q')
        × IsQueue q' (20 ∷ 30 ∷ 5 ∷ []))
push_lem_example = push_lem wrapped (20 ∷ 30 ∷ []) 5 wrapped-IsQueue

abbrev fresh : Queue ℕ
fresh = queue_init (0 ∷ 0 ∷ [])

pushed_one : Reach ℕ (publish (store fresh 7)) free waiting (7 ∷ []) []
unfolding is_full
pushed_one = do_publish (do_store (see_room 7 (start (0 ∷ 0 ∷ []) (omega arith)) refl))

one_seen : Reach ℕ (publish (store fresh 7)) free may_fetch (7 ∷ []) []
unfolding is_empty publish store
one_seen = see_item pushed_one refl

Reach-order_example : (xs : List ℕ) × (7 ∷ [] ≡ xs) × IsQueue (publish (store fresh 7)) xs
Reach-order_example = Reach-order (7 ∷ []) [] pushed_one

Reach-fetch_example :
    (x : ℕ) × (ys : List ℕ) × (fetch (publish (store fresh 7)) ≡ some x) × (7 ∷ [] ≡ x ∷ ys)
Reach-fetch_example = Reach-fetch (7 ∷ []) [] one_seen

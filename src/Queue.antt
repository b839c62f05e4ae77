-- ===== src/Queue.antt =====
-- The ring queue of src/include/nxweb/nx_queue_tpl.h, which one thread fills and one empties.
pub mod Contents
pub mod Actions
pub mod Interleaving
mod Tests
use nxweb.Base.{
  ℕ, zero, suc, ◌+◌, ◌-◌, ◌%◌, Bool, true, false, Option, none, some, List, [], ◌∷◌, ltb, leb, ◌==◌,
  if◌then◌else◌, length, get_elem?, set,
}

pub record Queue {ℓ} (A : Type ℓ) : Type ℓ where
  pub head : ℕ
  pub tail : ℕ
  pub items : List A

-- What `pop` gives: -1, or 0 and the item; or a read outside the array.
pub data Popped {ℓ} (A : Type ℓ) : Type ℓ where
  nothing : Popped A
  popped : A → Queue A → Popped A
  outside : Popped A

module _ {ℓ} {A : Type ℓ} where
  abbrev pub max_items : Queue A → ℕ
  max_items q = length q.items

  -- `nx_queue_…_init`, on an array
  abbrev pub queue_init : List A → Queue A
  queue_init items = record { head = 0; tail = 0; items = items }

  unfoldable pub is_empty : Queue A → Bool
  is_empty q = q.head == q.tail

  unfoldable pub is_full : Queue A → Bool
  is_full q = q.head == (q.tail + 1) % max_items q

  -- `nx_queue_…_length`: the difference of the two indices is signed.
  unfoldable pub queue_length : Queue A → ℕ
  queue_length q = if leb q.head q.tail then q.tail - q.head else q.tail + max_items q - q.head

  -- The parts of `pop` between its barriers.
  abbrev pub fetch : Queue A → Option A
  fetch q = get_elem? q.items q.head

  unfoldable pub release : Queue A → Queue A
  release q = record q { head = (q.head + 1) % max_items q }

  unfoldable pub pop : Queue A → Popped A
  unfolding is_empty release
  pop q = elim (is_empty q) [
    | true ↦ nothing
    | false ↦ elim (fetch q) [ none ↦ outside | some x ↦ popped x (release q) ]
  ]

  -- The parts of `push` between its barriers.
  unfoldable pub store : Queue A → A → Queue A
  store q item = record q { items = set q.items q.tail item }

  unfoldable pub publish : Queue A → Queue A
  publish q = record q { tail = (q.tail + 1) % max_items q }

  -- `none` is -1.
  unfoldable pub push : Queue A → A → Option (Queue A)
  unfolding is_full store publish
  push q item = if is_full q then none else some (publish (store q item))

-- ===== src/Queue/Contents.antt =====
-- What the ring queue of src/include/nxweb/nx_queue_tpl.h holds, as a list, and what its operations
-- do to that list.
use native.Mathlib.Nat.{mod-eq_of_lt, mod_self}
use nxweb.Base.{
  ℕ, zero, suc, ◌+◌, ◌-◌, ◌%◌, ◌<◌, ◌≤◌, ◌≡◌, ◌≢◌, refl, ap, ◌∙◌, some, List, [], ◌∷◌, ◌++◌, ltb,
  if◌then◌else◌, length, get_elem?, set, length-set, arith,
}
use nxweb.Queue.{Queue, max_items}

-- The index `j` places behind `p` in an array of `m`.
abbrev pub place : ℕ → ℕ → ℕ → ℕ
place m p j = if ltb (p + j) m then p + j else p + j - m

pub suc_mod : (m p : ℕ) → p < m → (p + 1) % m ≡ place m p 1
suc_mod m p h =
    let small : p + 1 < m → (p + 1) % m ≡ p + 1 = λ l. mod-eq_of_lt l in
    let whole : p + 1 ≡ m → (p + 1) % m ≡ 0 = λ e. ap (λ x. x % m) e ∙ mod_self m in
    ground (arith, h, small, whole)

pub place-lt : (m p n : ℕ) → p < m → n < m → place m p n < m
place-lt m p n h k = ground (arith, h, k)

pub place_zero : (m p : ℕ) → p < m → place m p 0 ≡ p
place_zero m p h = ground (arith, h)

pub place_ne : (m p j n : ℕ) → p < m → j < n → n < m → place m p n ≢ place m p j
place_ne m p j n h l k e = absurd (ground (arith, h, l, k, e))

pub place_next : (m p j : ℕ) → p < m → suc j < m → place m (place m p 1) j ≡ place m p (suc j)
place_next m p j h k = ground (arith, h, k)

module _ {ℓ} {A : Type ℓ} where
  pub get_elem?-set_self :
      (xs : List A) (i : ℕ) (v : A) → i < length xs → get_elem? (set xs i v) i ≡ some v
  get_elem?-set_self [] i v h = absurd (omega (arith, h))
  get_elem?-set_self (x ∷ xs) zero v h = refl
  get_elem?-set_self (x ∷ xs) (suc i) v h = get_elem?-set_self xs i v (omega (arith, h))

  pub get_elem?-set_ne :
      (xs : List A) (i j : ℕ) (v : A) → i ≢ j → get_elem? (set xs i v) j ≡ get_elem? xs j
  get_elem?-set_ne [] i j v h = refl
  get_elem?-set_ne (x ∷ xs) zero zero v h = absurd (h refl)
  get_elem?-set_ne (x ∷ xs) zero (suc j) v h = refl
  get_elem?-set_ne (x ∷ xs) (suc i) zero v h = refl
  get_elem?-set_ne (x ∷ xs) (suc i) (suc j) v h =
      get_elem?-set_ne xs i j v (λ e. h (omega (arith, e)))

  -- The items from the place `j` behind `p` on.
  unfoldable pub Holds : List A → ℕ → ℕ → List A → Type ℓ
  Holds items p j [] = Unit
  Holds items p j (x ∷ xs) =
      (get_elem? items (place (length items) p j) ≡ some x) × Holds items p (suc j) xs

  -- The queue holds the list, oldest item first, and has a place free.
  pub record IsQueue (q : Queue A) (xs : List A) : Type ℓ where
    pub head : q.head < max_items q
    pub room : length xs < max_items q
    pub tail : q.tail ≡ place (max_items q) q.head (length xs)
    pub holds : Holds q.items q.head 0 xs

  -- The place is not one of those that hold something.
  pub Holds-set :
      (items : List A) (p j n : ℕ) (xs : List A) (v : A)
      → p < length items
      → n < length items
      → j + length xs ≤ n
      → Holds items p j xs
      → Holds (set items (place (length items) p n) v) p j xs
  unfolding Holds
  Holds-set items p j n [] v hp hn hj h = _
  Holds-set items p j n (x ∷ xs) v hp hn hj (a, h) = (
    ap (λ m. get_elem? (set items (place (length items) p n) v) (place m p j))
          (length-set items (place (length items) p n) v)
        ∙ get_elem?-set_ne items (place (length items) p n) (place (length items) p j) v
            (place_ne (length items) p j n hp (omega (arith, hj)) hn)
        ∙ a,
    Holds-set items p (suc j) n xs v hp hn (omega (arith, hj)) h,
  )

  -- From the next place on.
  pub Holds-place :
      (items : List A) (p j : ℕ) (xs : List A)
      → p < length items
      → suc j + length xs ≤ length items
      → Holds items p (suc j) xs
      → Holds items (place (length items) p 1) j xs
  unfolding Holds
  Holds-place items p j [] hp hj h = _
  Holds-place items p j (x ∷ xs) hp hj (a, h) = (
    ap (λ i. get_elem? items i) (place_next (length items) p j hp (omega (arith, hj))) ∙ a,
    Holds-place items p (suc j) xs hp (omega (arith, hj)) h,
  )

  pub Holds-append :
      (items : List A) (p j : ℕ) (xs : List A) (v : A)
      → Holds items p j xs
      → get_elem? items (place (length items) p (j + length xs)) ≡ some v
      → Holds items p j (xs ++ v ∷ [])
  unfolding Holds
  Holds-append items p j [] v h e =
      (ap (λ i. get_elem? items (place (length items) p i)) (omega arith) ∙ e, _)
  Holds-append items p j (x ∷ xs) v (a, h) e = (
    a,
    Holds-append items p (suc j) xs v h
        (ap (λ i. get_elem? items (place (length items) p i)) (omega arith) ∙ e),
  )

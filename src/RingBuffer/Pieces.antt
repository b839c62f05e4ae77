-- ===== src/RingBuffer/Pieces.antt =====
-- Pieces of a list, and of one that a piece was written into.
use nxweb.Base.{
  ℕ, zero, suc, ◌+◌, ◌-◌, ◌≤◌, ◌≡◌, refl, sym, ap, ◌∙◌, [], ◌∷◌, ◌++◌, append_assoc, Bytes, length,
  length-append, length-take, length-drop, take, drop, arith,
}

drop-nil : (n : ℕ) → drop {A = ℕ} n [] ≡ []
drop-nil zero = refl
drop-nil (suc n) = refl

take-nil : (n : ℕ) → take {A = ℕ} n [] ≡ []
take-nil zero = refl
take-nil (suc n) = refl

plus_suc : (a b : ℕ) → suc (a + b) ≡ suc a + b
plus_suc a b = omega arith

pub drop-drop : (a b : ℕ) (s : Bytes) → drop b (drop a s) ≡ drop (a + b) s
drop-drop zero b s = ap (λ n. drop n s) (omega arith)
drop-drop (suc a) b [] = drop-nil b ∙ sym (drop-nil (suc a + b))
drop-drop (suc a) b (x ∷ s) = drop-drop a b s ∙ ap (λ n. drop n (x ∷ s)) (plus_suc a b)

-- A front piece is cut again.
pub take_split :
    (n k : ℕ) (s : Bytes) → n ≤ k → take k s ≡ take n (take k s) ++ take (k - n) (drop n s)
take_split zero k s h = ap (λ n. take n s) (omega arith)
take_split (suc n) zero s h = absurd (omega (arith, h))
take_split (suc n) (suc k) [] h = sym (take-nil (suc k - suc n))
take_split (suc n) (suc k) (x ∷ s) h =
    ap (λ t. x ∷ t)
      (take_split n k s (omega (arith, h))
        ∙ ap (λ m. take n (take k s) ++ take m (drop n s)) (omega arith))

pub drop_over : (k : ℕ) (s : Bytes) → length s ≤ k → drop k s ≡ []
drop_over zero [] h = refl
drop_over zero (x ∷ s) h = absurd (omega (arith, h))
drop_over (suc k) [] h = refl
drop_over (suc k) (x ∷ s) h = drop_over k s (omega (arith, h))

pub take_none : (w k : ℕ) (s : Bytes) → w ≤ k → take (w - k) s ≡ []
take_none w k s h = let e : w - k ≡ 0 = omega (arith, h) in ap (λ n. take n s) e

drop_prefix : (k : ℕ) (s t : Bytes) → length s ≡ k → drop k (s ++ t) ≡ t
drop_prefix zero [] t h = refl
drop_prefix zero (x ∷ s) t h = absurd (omega (arith, h))
drop_prefix (suc k) [] t h = absurd (omega (arith, h))
drop_prefix (suc k) (x ∷ s) t h = drop_prefix k s t (omega (arith, h))

take_prefix : (k : ℕ) (s t : Bytes) → length s ≡ k → take k (s ++ t) ≡ s
take_prefix zero [] t h = refl
take_prefix zero (x ∷ s) t h = absurd (omega (arith, h))
take_prefix (suc k) [] t h = absurd (omega (arith, h))
take_prefix (suc k) (x ∷ s) t h = ap (λ u. x ∷ u) (take_prefix k s t (omega (arith, h)))

drop_short : (k : ℕ) (s t : Bytes) → k ≤ length s → drop k (s ++ t) ≡ drop k s ++ t
drop_short zero s t h = refl
drop_short (suc k) [] t h = absurd (omega (arith, h))
drop_short (suc k) (x ∷ s) t h = drop_short k s t (omega (arith, h))

drop-take :
    (r w : ℕ) (s : Bytes) → r ≤ w → w ≤ length s → drop r (take w s) ≡ take (w - r) (drop r s)
drop-take zero w s h l = ap (λ k. take k s) (omega arith)
drop-take (suc r) zero s h l = absurd (omega (arith, h))
drop-take (suc r) (suc w) [] h l = absurd (omega (arith, l))
drop-take (suc r) (suc w) (x ∷ s) h l =
    drop-take r w s (omega (arith, h)) (omega (arith, l))
    ∙ ap (λ k. take k (drop r s)) (omega arith)

-- The memory with `b` written at `w`.
abbrev pub written : Bytes → ℕ → Bytes → Bytes
written m w b = take w m ++ (b ++ drop (w + length b) m)

module _ (m b : Bytes) (r w : ℕ) (inside : w + length b ≤ length m) where
  length-front : length (take w m) ≡ w
  length-front = omega (arith, length-take w m, inside)

  pub length-written : length (written m w b) ≡ length m
  length-written =
      let rest = drop (w + length b) m in
      omega (
        arith,
        length-append (take w m) (b ++ rest),
        length-append b rest,
        length-front,
        length-drop (w + length b) m,
        inside,
      )

  -- From a place in front of what is written.
  pub drop-written_front :
      r ≤ w → drop r (written m w b) ≡ take (w - r) (drop r m) ++ (b ++ drop (w + length b) m)
  drop-written_front h =
      drop_short r (take w m) (b ++ drop (w + length b) m) (omega (arith, h, length-front))
      ∙ ap (λ s. s ++ (b ++ drop (w + length b) m)) (drop-take r w m h (omega (arith, inside)))

  pub take-written_front :
      r ≤ w → take (w + length b - r) (drop r (written m w b)) ≡ take (w - r) (drop r m) ++ b
  take-written_front h =
      let front = take (w - r) (drop r m) in
      let rest = drop (w + length b) m in
      ap (λ s. take (w + length b - r) s) (drop-written_front h ∙ sym (append_assoc front b rest))
      ∙ take_prefix (w + length b - r) (front ++ b) rest (
          omega (
            arith,
            length-append front b,
            length-take (w - r) (drop r m),
            length-drop r m,
            h,
            inside,
          ))

  -- From a place behind it.
  pub drop-written_back : w + length b ≤ r → drop r (written m w b) ≡ drop r m
  drop-written_back h =
      let k = w + length b in
      let e : k + (r - k) ≡ r = omega (arith, h) in
      let f = length-append (take w m) b in
      ap (λ n. drop n (written m w b)) (sym e)
      ∙ sym (drop-drop k (r - k) (written m w b))
      ∙ ap (λ s. drop (r - k) s)
          (ap (λ s. drop k s) (sym (append_assoc (take w m) b (drop k m)))
            ∙ drop_prefix k (take w m ++ b) (drop k m) (omega (arith, f, length-front)))
      ∙ drop-drop k (r - k) m
      ∙ ap (λ n. drop n m) e

  pub take-written_back : take (w + length b) (written m w b) ≡ take w m ++ b
  take-written_back =
      let f = length-append (take w m) b in
      ap (λ s. take (w + length b) s) (sym (append_assoc (take w m) b (drop (w + length b) m)))
      ∙ take_prefix (w + length b) (take w m ++ b) (drop (w + length b) m)
          (omega (arith, f, length-front))

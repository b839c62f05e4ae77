-- ===== src/Request/SplitAt.antt =====
-- `strchr` of src/lib/http_utils.c, as `split_at`, at any character.
use nxweb.Base.{ℕ, ◌≡◌, ◌≢◌, refl, none, some, [], ◌∷◌, ◌++◌, Bytes, All, arith}
use nxweb.Request.{split_at}

-- The first such character is found behind a text without one.
pub split_at_first :
    (c : ℕ) (s t : Bytes) → All (λ x. x ≢ c) s → split_at c (s ++ c ∷ t) ≡ some (s, c ∷ t)
unfolding split_at
split_at_first c [] t h = ground arith
split_at_first c (x ∷ s) t (a, h) = let r = split_at_first c s t h in ground (arith, r, a)

pub split_at_nowhere : (c : ℕ) (s : Bytes) → All (λ x. x ≢ c) s → split_at c s ≡ none
unfolding split_at
split_at_nowhere c [] h = refl
split_at_nowhere c (x ∷ s) (a, h) = let r = split_at_nowhere c s h in ground (arith, r, a)

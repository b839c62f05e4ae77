-- ===== src/UriPath/Names.antt =====
-- What `nxweb_remove_dots_from_uri_path` of src/lib/http_utils.c does at one segment.
use mathlib.Core.List.{reverse_aux}
use nxweb.Base.{
  ℕ, ◌≡◌, ◌≢◌, refl, true, false, ◌&&◌, some, [], ◌∷◌, ◌++◌, Bytes, ◌==◌, if◌then◌else◌, arith, All,
}
use nxweb.UriPath.{
  Spot, slash, dot, copy, segment_move, first_dot, second_dot, copy_rest, put, back,
}

-- A segment stays where it is (empty, or a dot), goes up (two dots), or is a name.
pub data Kind : Type 0 where
  stay up name : Kind

unfoldable pub kind : Bytes → Kind
kind [] = stay
kind (c ∷ []) = if c == dot then stay else name
kind (c ∷ d ∷ []) = if c == dot && d == dot then up else name
kind (c ∷ d ∷ e ∷ g) = name

-- The characters of a segment.
abbrev pub IsSegment : Bytes → Type 0
IsSegment = All (λ c. (c ≢ slash) × (c ≢ 0))

-- A name is copied, whatever ends it: the slash or the NUL.
pub segment_move_name :
    (c : ℕ) (g t : Bytes) (x : ℕ)
    → IsSegment (c ∷ g)
    → kind (c ∷ g) ≡ name
    → segment_move c (g ++ x ∷ t) ≡ copy
unfolding kind segment_move first_dot second_dot
segment_move_name c [] t x h k = ground arith
segment_move_name c (d ∷ []) t x h k = ground arith
segment_move_name c (d ∷ e ∷ g) t x h k = ground arith

pub eq_of_up : (g : Bytes) → kind g ≡ up → g ≡ dot ∷ dot ∷ []
unfolding kind
eq_of_up [] k = cc
eq_of_up (c ∷ []) k = ground arith
eq_of_up (c ∷ d ∷ []) k = ground arith
eq_of_up (c ∷ d ∷ e ∷ g) k = cc

-- A segment is copied with the slash behind it.
pub copy_rest-slash :
    (g t : Bytes) (k : Spot)
    → IsSegment g
    → (gap : Bytes) × (copy_rest k (g ++ slash ∷ t)
        ≡ some (false, record { out = slash ∷ (reverse_aux g k.out); gap = gap; rest = t }))
unfolding copy_rest
copy_rest-slash [] t k h = (_, refl)
copy_rest-slash (c ∷ g) t k ((a, b), h) =
    let (gap, e) = copy_rest-slash g t (put k c (g ++ slash ∷ t)) h in (gap, ground arith)

-- The last segment is copied with the NUL behind it.
pub copy_rest_nul :
    (g t : Bytes) (k : Spot)
    → IsSegment g
    → (gap : Bytes) × (copy_rest k (g ++ 0 ∷ t)
        ≡ some (true, record { out = 0 ∷ (reverse_aux g k.out); gap = gap; rest = t }))
unfolding copy_rest
copy_rest_nul [] t k h = (_, refl)
copy_rest_nul (c ∷ g) t k ((a, b), h) =
    let (gap, e) = copy_rest_nul g t (put k c (g ++ 0 ∷ t)) h in (gap, ground arith)

-- A step back goes to the slash in front of the last segment.
pub back_segment :
    (x : ℕ) (g out gap : Bytes)
    → All (λ c. c ≢ slash) g
    → (gap' : Bytes) × (back (x ∷ (g ++ slash ∷ out)) gap ≡ some (slash ∷ out, gap'))
unfolding back
back_segment x [] out gap h = (_, refl)
back_segment x (c ∷ g) out gap (a, h) =
    let (gap', e) = back_segment c g out (x ∷ gap) h in (gap', ground arith)

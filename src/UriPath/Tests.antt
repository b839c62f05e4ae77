-- ===== src/UriPath/Tests.antt =====
-- The removal of dots from src/lib/http_utils.c, run.
use nxweb.Base.{◌≡◌, refl, ℕ, ltb, ltb→lt, true, codes, All, arith, List, [], ◌∷◌, ◌++◌, Bytes}
use nxweb.UriPath.{done, invalid, fault, slash, remove_dots}
use nxweb.UriPath.Names.{IsSegment, kind}
use nxweb.UriPath.Resolve.{resolve, segments, IsResolved, remove_dots-IsResolved}
use nxweb.UriPath.Faults.{remove_dots_overrun}

resolved_run :
    remove_dots (codes "/a/./b//../c" ++ 0 ∷ [])
    ≡ done (codes "/a/c" ++ 0 ∷ codes "b//../c" ++ 0 ∷ [])
unfolding remove_dots
resolved_run = refl

-- The bytes of the second `a` and what follows it are still there when the copying ends.
stale_run :
    remove_dots (codes "/a/a/../../bbb/./" ++ 0 ∷ []) ≡ done (codes "/bbb/../../bbb/./" ++ 0 ∷ [])
unfolding remove_dots
stale_run = refl

refused_run : remove_dots (codes "/a/../.." ++ 0 ∷ []) ≡ invalid
unfolding remove_dots
refused_run = refl

letter : (c : ℕ) → ltb 47 c ≡ true → IsSegment (c ∷ [])
letter c h =
    let l = ltb→lt 47 c h in ((((λ e. omega (arith, e, l)), (λ e. omega (arith, e, l)))), _)

abbrev way : List Bytes
way = (b'a' ∷ []) ∷ (b'b' ∷ []) ∷ []

way-IsSegment : All IsSegment way
way-IsSegment = (letter b'a' refl, (letter b'b' refl, _))

remove_dots-IsResolved_example :
    IsResolved
      (resolve [] way)
      (b'c' ∷ [])
      (remove_dots (slash ∷ segments way (codes "c" ++ 0 ∷ [])))
unfolding kind
remove_dots-IsResolved_example =
    remove_dots-IsResolved way (b'c' ∷ []) [] way-IsSegment (letter b'c' refl) refl

remove_dots_overrun_example : remove_dots (codes "/a/b/.." ++ 0 ∷ []) ≡ fault
unfolding resolve kind segments
remove_dots_overrun_example =
    remove_dots_overrun way (b'b' ∷ []) ((b'a' ∷ []) ∷ []) way-IsSegment refl

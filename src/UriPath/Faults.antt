-- ===== src/UriPath/Faults.antt =====
-- Where `nxweb_remove_dots_from_uri_path` of src/lib/http_utils.c leaves the memory of the path.
use nxweb.Base.{zero, suc, ◌≡◌, ◌∙◌, Option, none, some, List, [], ◌∷◌, Bytes, length, arith, All}
use nxweb.UriPath.{
  slash, dot, segment_move, first_dot, second_dot, Outcome, fault, remove_loop, remove_dots,
}
use nxweb.UriPath.Names.{IsSegment}
use nxweb.UriPath.Rounds.{path_rev, climb_name, length-path_rev}
use nxweb.UriPath.Resolve.{resolve, segments, IsPast, walk}

IsPast-overrun :
    (r : Option (List Bytes)) (f : Bytes) (ns : List Bytes) (o : Outcome)
    → r ≡ some (f ∷ ns)
    → IsPast r (dot ∷ dot ∷ 0 ∷ []) o
    → o ≡ fault
unfolding IsPast remove_loop segment_move first_dot second_dot
IsPast-overrun none f ns o e h = cc
IsPast-overrun (some []) f ns o e h = cc
IsPast-overrun (some (g ∷ gs)) f ns o e ((hg, h), zero, gap, le, r) = absurd (omega (arith, le))
IsPast-overrun (some (g ∷ gs)) f ns o e ((hg, h), suc zero, gap, le, r) = absurd (omega (arith, le))
IsPast-overrun (some (g ∷ gs)) f ns o e ((hg, h), suc (suc n), gap, le, r) =
    let (gap', c) = climb_name g gs gap (dot ∷ dot ∷ 0 ∷ []) (dot ∷ dot ∷ 0 ∷ []) [] hg in
    let l = length-path_rev g gs in r ∙ ground (arith, l, c)

-- A path that ends in a step up from below the root, with its NUL as the last byte that may be read,
-- is read beyond that NUL.
pub remove_dots_overrun :
    (segs : List Bytes) (f : Bytes) (ns : List Bytes)
    → All IsSegment segs
    → resolve [] segs ≡ some (f ∷ ns)
    → remove_dots (slash ∷ segments segs (dot ∷ dot ∷ 0 ∷ [])) ≡ fault
unfolding remove_dots path_rev
remove_dots_overrun segs f ns h e =
    let rest = segments segs (dot ∷ dot ∷ 0 ∷ []) in
    IsPast-overrun (resolve [] segs) f ns _ e
      (walk (suc (length rest)) segs [] [] (dot ∷ dot ∷ 0 ∷ []) (omega arith) h _)

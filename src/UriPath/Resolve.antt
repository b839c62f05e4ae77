-- ===== src/UriPath/Resolve.antt =====
-- The path that `nxweb_remove_dots_from_uri_path` of src/lib/http_utils.c makes, against the reading
-- of its segments.
use mathlib.Core.Path.{subst⁻¹}
use nxweb.Base.{
  ℕ, zero, suc, ◌≤◌, ◌≡◌, refl, sym, ◌∙◌, ap, Option, none, some, List, [], ◌∷◌, ◌++◌, append_assoc,
  Bytes, length, length-append, arith, All, All-append,
}
use nxweb.UriPath.{slash, dot, Outcome, done, invalid, remove_loop, remove_dots, c_string}
use nxweb.UriPath.Names.{stay, up, name, kind, IsSegment, eq_of_up}
use nxweb.UriPath.Rounds.{
  path_of, path_of-All, path_rev, standing, round_stay, round_up_root, round_up, round_name,
  round_last, c_string-append, All-map,
}

-- The names from the root to where the segments lead, the last one first; `none` is a step up from
-- the root.
unfoldable pub resolve : List Bytes → List Bytes → Option (List Bytes)
resolve st [] = some st
resolve st (g ∷ gs) = elim (kind g) [
  | stay ↦ resolve st gs
  | name ↦ resolve (g ∷ st) gs
  | up ↦ elim st [ [] ↦ none | _ ∷ ns ↦ resolve ns gs ]
]

-- Segments with their slashes.
unfoldable pub segments : List Bytes → Bytes → Bytes
segments [] t = t
segments (g ∷ gs) t = g ++ (slash ∷ segments gs t)

-- The loop is past the segments, with what remains and rounds enough, or has refused the path.
unfoldable pub IsPast : Option (List Bytes) → Bytes → Outcome → Type 0
IsPast none rest o = o ≡ invalid
IsPast (some st) rest o =
    All IsSegment st
    × (n : ℕ) × (gap : Bytes) × (length rest ≤ n)
    × (o ≡ remove_loop n (standing st gap rest))

IsPast-up :
    (n : ℕ) (gs st : List Bytes) (gap rest t : Bytes)
    → All IsSegment st
    → ((ns : List Bytes) (gap' : Bytes)
        → All IsSegment ns
        → IsPast (resolve ns gs) rest (remove_loop n (standing ns gap' t)))
    → IsPast
        (elim st [ [] ↦ none | _ ∷ ns ↦ resolve ns gs ])
        rest
        (remove_loop (suc n) (standing st gap (dot ∷ dot ∷ slash ∷ t)))
unfolding IsPast
IsPast-up n gs [] gap rest t h further = round_up_root n gap t
IsPast-up n gs (f ∷ ns) gap rest t (hf, h) further =
    let (gap', r) = round_up n f ns gap t hf in
    subst⁻¹ (IsPast (resolve ns gs) rest) r (further ns gap' h)

pub walk :
    (n : ℕ) (segs st : List Bytes) (gap rest : Bytes)
    → length (segments segs rest) ≤ n
    → All IsSegment segs
    → All IsSegment st
    → IsPast (resolve st segs) rest (remove_loop n (standing st gap (segments segs rest)))
unfolding IsPast resolve segments
walk n [] st gap rest le hs hst = (hst, n, gap, le, refl)
walk zero (g ∷ gs) st gap rest le hs hst =
    absurd (omega (arith, le, length-append g (slash ∷ segments gs rest)))
walk (suc n) (g ∷ gs) st gap rest le (hg, hs) hst =
    let t = segments gs rest in
    let le' : length t ≤ n = omega (arith, le, length-append g (slash ∷ t)) in
    (elim (kind g)
        as (λ r.
          kind g ≡ r
          → IsPast
              (elim r [
                | stay ↦ resolve st gs
                | name ↦ resolve (g ∷ st) gs
                | up ↦ elim st [ [] ↦ none | _ ∷ ns ↦ resolve ns gs ]
              ])
              rest (remove_loop (suc n) (standing st gap (g ++ slash ∷ t)))) [
                | stay ↦ λ e.
                    let (gap', r) = round_stay n st gap g t e in
                    subst⁻¹ (IsPast (resolve st gs) rest) r (walk n gs st gap' rest le' hs hst)
                | name ↦ λ e.
                    let (gap', r) = round_name n st gap g t hg e in
                    subst⁻¹ (IsPast (resolve (g ∷ st) gs) rest) r
                      (walk n gs (g ∷ st) gap' rest le' hs (hg, hst))
                | up ↦ λ e.
                    subst⁻¹
                      (λ u.
                        IsPast (elim st [ [] ↦ none | _ ∷ ns ↦ resolve ns gs ]) rest
                          (remove_loop (suc n) (standing st gap (u ++ slash ∷ t))))
                      (eq_of_up g e)
                      (IsPast-up n gs st gap rest t hst
                        (λ ns gap' h. walk n gs ns gap' rest le' hs h))
              ])
      refl

-- What a run has to give: a refusal above the root, or else the path of the names.
pub IsResolved : Option (List Bytes) → Bytes → Outcome → Type 0
IsResolved none last o = o ≡ invalid
IsResolved (some st) last o = (m : Bytes) × (o ≡ done m) × (c_string m ≡ path_of st ++ last)

walk_last :
    (st : List Bytes) (last t : Bytes)
    → All IsSegment st
    → IsSegment last
    → c_string (path_of st ++ (last ++ 0 ∷ t)) ≡ path_of st ++ last
walk_last st last t h l =
    ap c_string (sym (append_assoc (path_of st) last (0 ∷ t)))
    ∙ c_string-append (path_of st ++ last) t
        (All-append _ (path_of st) last (path_of-All st h) (All-map (λ c p. p.1) last l))

resolved :
    (r : Option (List Bytes)) (last beyond : Bytes) (o : Outcome)
    → IsSegment last
    → kind last ≡ name
    → IsPast r (last ++ 0 ∷ beyond) o
    → IsResolved r last o
unfolding IsPast IsResolved
resolved none last beyond o hl k h = h
resolved (some st) last beyond o hl k (hst, zero, gap, le, e) =
    absurd (omega (arith, le, length-append last (0 ∷ beyond)))
resolved (some st) last beyond o hl k (hst, suc n, gap, le, e) =
    let (gap', r) = round_last n st gap last beyond hl k in
    (_, e ∙ r, walk_last st last (gap' ++ beyond) hst hl)

-- A path of segments without a slash or a NUL, of which the last one is a name, is rewritten to the
-- path that reading its segments from the root gives, and refused exactly if a step up leaves the
-- root; whatever stands behind the path in memory.
pub remove_dots-IsResolved :
    (segs : List Bytes) (last beyond : Bytes)
    → All IsSegment segs
    → IsSegment last
    → kind last ≡ name
    → IsResolved (resolve [] segs) last (remove_dots (slash ∷ segments segs (last ++ 0 ∷ beyond)))
unfolding remove_dots path_rev
remove_dots-IsResolved segs last beyond hs hl k = resolved (resolve [] segs) last beyond _ hl k (
    walk (suc (length (segments segs (last ++ 0 ∷ beyond)))) segs [] [] (last ++ 0 ∷ beyond)
      (omega arith) hs _)

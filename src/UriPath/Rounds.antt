-- ===== src/UriPath/Rounds.antt =====
-- The rounds of `nxweb_remove_dots_from_uri_path` of src/lib/http_utils.c, with `dst` behind the path
-- of the names that are kept.
use mathlib.Core.List.{reverse, reverse_aux, reverse_aux-eq}
use nxweb.Base.{
  ℕ, suc, ◌+◌, ◌≤◌, ◌≡◌, ◌≢◌, refl, ◌∙◌, ap, false, some, List, [], ◌∷◌, ◌++◌, append_assoc, Bytes,
  ◌==◌, length, arith, All, All-append,
}
use nxweb.UriPath.{
  Spot, slash, dot, segment_move, first_dot, second_dot, put, climb, done, invalid, remove_loop,
  c_string,
}
use nxweb.UriPath.Names.{
  stay, name, kind, IsSegment, segment_move_name, copy_rest-slash, copy_rest_nul, back_segment,
}

-- The path of names, the last one first.
unfoldable pub path_of : List Bytes → Bytes
path_of [] = slash ∷ []
path_of (n ∷ ns) = path_of ns ++ (n ++ slash ∷ [])

-- The path backwards, as it stands before `dst`.
unfoldable pub path_rev : List Bytes → Bytes
path_rev [] = slash ∷ []
path_rev (n ∷ ns) = slash ∷ reverse_aux n (path_rev ns)

reverse_aux-reverse_aux : (s t u : Bytes) → reverse_aux (reverse_aux s t) u ≡ reverse_aux t (s ++ u)
reverse_aux-reverse_aux [] t u = refl
reverse_aux-reverse_aux (x ∷ s) t u = reverse_aux-reverse_aux s (x ∷ t) u

length-reverse_aux : (s t : Bytes) → length (reverse_aux s t) ≡ length s + length t
length-reverse_aux [] t = omega arith
length-reverse_aux (x ∷ s) t = omega (arith, length-reverse_aux s (x ∷ t))

All-reverse_aux : (P : ℕ → Type 0) (s t : Bytes) → All P s → All P t → All P (reverse_aux s t)
All-reverse_aux P [] t h k = k
All-reverse_aux P (x ∷ s) t (a, h) k = All-reverse_aux P s (x ∷ t) h (a, k)

pub All-map : {P Q : ℕ → Type 0} (f : (c : ℕ) → P c → Q c) (s : Bytes) → All P s → All Q s
All-map f [] h = h
All-map f (x ∷ s) (a, h) = (f x a, All-map f s h)

reverse-path_rev : (st : List Bytes) → reverse (path_rev st) ≡ path_of st
unfolding path_rev path_of
reverse-path_rev [] = refl
reverse-path_rev (n ∷ ns) =
    reverse_aux-reverse_aux n (path_rev ns) (slash ∷ [])
    ∙ reverse_aux-eq (path_rev ns) (n ++ slash ∷ [])
    ∙ ap (λ s. s ++ (n ++ slash ∷ [])) (reverse-path_rev ns)

pub path_rev-slash : (st : List Bytes) → (out : Bytes) × (path_rev st ≡ slash ∷ out)
unfolding path_rev
path_rev-slash [] = ([], refl)
path_rev-slash (n ∷ ns) = (reverse_aux n (path_rev ns), refl)

length-path_rev_below :
    (n : Bytes) (ns : List Bytes)
    → 1 ≤ length (reverse_aux n (path_rev ns))
    → (length (path_rev (n ∷ ns)) == 1) ≡ false
unfolding path_rev
length-path_rev_below n ns h = ground arith

pub length-path_rev : (n : Bytes) (ns : List Bytes) → (length (path_rev (n ∷ ns)) == 1) ≡ false
length-path_rev n ns =
    let (out, e) = path_rev-slash ns in
    let a = ap length e in
    let b = length-reverse_aux n (path_rev ns) in length-path_rev_below n ns (omega (arith, a, b))

pub climb_name :
    (n : Bytes) (ns : List Bytes) (gap skipped rest t : Bytes)
    → IsSegment n
    → (gap' : Bytes) × (climb (record { out = path_rev (n ∷ ns); gap = gap; rest = rest }) skipped t
        ≡ some (record { out = path_rev ns; gap = gap'; rest = t }))
unfolding climb path_rev
climb_name n ns gap skipped rest t h =
    let (out, e) = path_rev-slash ns in
    let (gap', b) =
      back_segment slash (reverse n) out (gap ++ skipped)
        (All-reverse_aux _ n [] (All-map (λ c p. p.0) n h) _) in
    let e' = reverse_aux-eq n (path_rev ns) in (gap', ground (arith, e, e', b))

pub c_string-append : (s t : Bytes) → All (λ c. c ≢ 0) s → c_string (s ++ 0 ∷ t) ≡ s
unfolding c_string
c_string-append [] t h = refl
c_string-append (c ∷ s) t (a, h) = ground (arith, c_string-append s t h)

-- Where the copying stands, with `dst` behind the path of `st`.
abbrev pub standing : List Bytes → Bytes → Bytes → Spot
standing st gap rest = record { out = path_rev st; gap = gap; rest = rest }

pub round_stay :
    (n : ℕ) (st : List Bytes) (gap g t : Bytes)
    → kind g ≡ stay
    → (gap' : Bytes) × (remove_loop (suc n) (standing st gap (g ++ slash ∷ t))
        ≡ remove_loop n (standing st gap' t))
unfolding remove_loop segment_move first_dot kind
round_stay n st gap [] t k = (_, refl)
round_stay n st gap (c ∷ []) t k = (gap ++ (dot ∷ slash ∷ []), ground arith)
round_stay n st gap (c ∷ d ∷ []) t k = ground arith
round_stay n st gap (c ∷ d ∷ e ∷ g) t k = cc

pub round_up_root :
    (n : ℕ) (gap t : Bytes)
    → remove_loop (suc n) (standing [] gap (dot ∷ dot ∷ slash ∷ t)) ≡ invalid
unfolding remove_loop segment_move first_dot second_dot path_rev
round_up_root n gap t = refl

pub round_up :
    (n : ℕ) (g : Bytes) (st : List Bytes) (gap t : Bytes)
    → IsSegment g
    → (gap' : Bytes) × (remove_loop (suc n) (standing (g ∷ st) gap (dot ∷ dot ∷ slash ∷ t))
        ≡ remove_loop n (standing st gap' t))
unfolding remove_loop segment_move first_dot second_dot
round_up n g st gap t h =
    let (gap', e) = climb_name g st gap (dot ∷ dot ∷ slash ∷ []) (dot ∷ dot ∷ slash ∷ t) t h in
    let l = length-path_rev g st in (gap', ground (arith, l, e))

pub round_name :
    (n : ℕ) (st : List Bytes) (gap g t : Bytes)
    → IsSegment g
    → kind g ≡ name
    → (gap' : Bytes) × (remove_loop (suc n) (standing st gap (g ++ slash ∷ t))
        ≡ remove_loop n (standing (g ∷ st) gap' t))
unfolding remove_loop path_rev kind
round_name n st gap [] t h k = cc
round_name n st gap (c ∷ g) t ((a, b), h) k =
    let (gap', e) =
      copy_rest-slash g t (put (standing st gap ((c ∷ g) ++ slash ∷ t)) c (g ++ slash ∷ t)) h in
    let m = segment_move_name c g t slash ((a, b), h) k in (gap', ground (arith, e, m))

memory_last :
    (st : List Bytes) (g gap t : Bytes)
    → reverse (0 ∷ reverse_aux g (path_rev st)) ++ (gap ++ t) ≡ path_of st ++ (g ++ 0 ∷ (gap ++ t))
memory_last st g gap t =
    ap (λ s. s ++ (gap ++ t))
      (reverse_aux-reverse_aux g (path_rev st) (0 ∷ [])
        ∙ reverse_aux-eq (path_rev st) (g ++ 0 ∷ [])
        ∙ ap (λ s. s ++ (g ++ 0 ∷ [])) (reverse-path_rev st))
    ∙ append_assoc (path_of st) (g ++ 0 ∷ []) (gap ++ t)
    ∙ ap (λ s. path_of st ++ s) (append_assoc g (0 ∷ []) (gap ++ t))

pub round_last :
    (n : ℕ) (st : List Bytes) (gap g t : Bytes)
    → IsSegment g
    → kind g ≡ name
    → (gap' : Bytes) × (remove_loop (suc n) (standing st gap (g ++ 0 ∷ t))
        ≡ done (path_of st ++ (g ++ 0 ∷ (gap' ++ t))))
unfolding remove_loop kind
round_last n st gap [] t h k = cc
round_last n st gap (c ∷ g) t ((a, b), h) k =
    let (gap', e) = copy_rest_nul g t (put (standing st gap ((c ∷ g) ++ 0 ∷ t)) c (g ++ 0 ∷ t)) h in
    let m = segment_move_name c g t 0 ((a, b), h) k in
    (gap', ground (arith, e, m) ∙ ap done (memory_last st (c ∷ g) gap' t))

pub path_of-All : (st : List Bytes) → All IsSegment st → All (λ c. c ≢ 0) (path_of st)
unfolding path_of
path_of-All [] h = ((λ e. omega (arith, e)), _)
path_of-All (n ∷ ns) (a, h) =
    All-append _ (path_of ns) (n ++ slash ∷ []) (path_of-All ns h)
      (All-append _ n (slash ∷ []) (All-map (λ c p. p.1) n a) ((λ e. omega (arith, e)), _))

-- ===== src/Request/EndOfHeaders.antt =====
-- `_nxweb_find_end_of_http_headers` of src/lib/http_utils.c: where the headers end and the body
-- begins. A pointer is the offset in the buffer.
use nxweb.Base.{
  ℕ, zero, suc, ◌+◌, ◌-◌, ◌≤◌, ◌≡◌, refl, ◌&&◌, none, some, Option, [], ◌∷◌, Bytes, arith, ◌==◌,
  if◌then◌else◌, ◌⊎◌, inl, inr, get_elem?, drop, length, Bool-cases, lt_or_le, none-ne-some,
  some_inj, ◌≢◌, ap, ◌∙◌, sym,
}

-- The search with the three bytes in front of the byte at `i`; what is returned, and
-- `*start_of_body`.
unfoldable pub end_loop : ℕ → ℕ → ℕ → ℕ → Bytes → Option (ℕ × ℕ)
end_loop i a b c [] = none
end_loop i a b c (d ∷ s) =
    let further = end_loop (i + 1) b c d s in
    if d == b'\n'
    then if c == b'\n'
      then some (i - 1, i + 1)
      else if a == b'\r' && b == b'\n' && c == b'\r'
      then some (i - 3, i + 1)
      else further
    else further

-- `_nxweb_find_end_of_http_headers`; `none` is the null pointer.
unfoldable pub find_end_of_http_headers : Bytes → Option (ℕ × ℕ)
unfolding end_loop
find_end_of_http_headers (a ∷ b ∷ c ∷ s) = end_loop 3 a b c s
find_end_of_http_headers _ = none

abbrev At : Bytes → ℕ → ℕ → Type 0
At buf i c = get_elem? buf i ≡ some c

-- An empty line behind the headers: two line feeds, or each with its carriage return. It does not
-- end in front of the fourth byte.
abbrev pub IsBlankLine : Bytes → ℕ → ℕ → Type 0
IsBlankLine buf end body =
    (4 ≤ body)
    × (((body ≡ end + 2) × At buf end b'\n' × At buf (end + 1) b'\n')
        ⊎ ((body ≡ end + 4)
            × At buf end b'\r'
            × At buf (end + 1) b'\n'
            × At buf (end + 2) b'\r'
            × At buf (end + 3) b'\n'))

get_elem?-drop : (k : ℕ) (buf : Bytes) (j : ℕ) → get_elem? buf (k + j) ≡ get_elem? (drop k buf) j
get_elem?-drop zero buf j = ap (get_elem? buf) (omega arith)
get_elem?-drop (suc k) [] j = refl
get_elem?-drop (suc k) (x ∷ buf) j =
    let e : suc k + j ≡ suc (k + j) = omega arith in
    ap (get_elem? (x ∷ buf)) e ∙ get_elem?-drop k buf j

drop_next : (k : ℕ) (buf : Bytes) (a : ℕ) (t : Bytes) → drop k buf ≡ a ∷ t → drop (suc k) buf ≡ t
drop_next zero [] a t e = cc
drop_next zero (x ∷ buf) a t e = cc
drop_next (suc k) [] a t e = cc
drop_next (suc k) (x ∷ buf) a t e = drop_next k buf a t e

-- The first empty line that ends behind the first `k + 3` bytes.
abbrev FirstAfter : Bytes → ℕ → Option (ℕ × ℕ) → Type 0
FirstAfter buf k none = (e b : ℕ) → IsBlankLine buf e b → b ≤ k + 3
FirstAfter buf k (some (end, body)) =
    IsBlankLine buf end body × ((e b : ℕ) → IsBlankLine buf e b → (b ≤ k + 3) ⊎ (body ≤ b))

-- The last byte of an empty line is a line feed.
last_feed : (buf : Bytes) (e b : ℕ) → IsBlankLine buf e b → At buf (b - 1) b'\n'
last_feed buf e b (_, inl (l, x, y)) = let q : b - 1 ≡ e + 1 = omega (arith, l) in rw q y
last_feed buf e b (_, inr (l, x, y, u, v)) = let q : b - 1 ≡ e + 3 = omega (arith, l) in rw q v

at_end :
    (buf : Bytes) (k x y z e b : ℕ) → drop k buf ≡ x ∷ y ∷ z ∷ [] → IsBlankLine buf e b → b ≤ k + 3
at_end buf k x y z e b d h = elim (lt_or_le (k + 3) b) [
  | inr le ↦ le
  | inl lt ↦
      let j = b - 1 - (k + 3) in
      let q : b - 1 ≡ k + suc (suc (suc j)) = omega (arith, lt) in
      let n : get_elem? buf (b - 1) ≡ none =
        ap (get_elem? buf) q
        ∙ get_elem?-drop k buf (suc (suc (suc j)))
        ∙ ap (λ t. get_elem? t (suc (suc (suc j)))) d in
      let f = last_feed buf e b h in absurd (none-ne-some (sym n ∙ f))
]

byte_behind :
    (buf : Bytes) (k : ℕ) {t : Bytes} (j : ℕ) {v : ℕ}
    → drop k buf ≡ t
    → get_elem? t j ≡ some v
    → At buf (k + j) v
byte_behind buf k {t} j d h = get_elem?-drop k buf j ∙ ap (λ t. get_elem? t j) d ∙ h

-- At a byte that ends no empty line the search goes on.
go_on :
    (buf : Bytes) (k : ℕ) (r : Option (ℕ × ℕ))
    → ((e b : ℕ) → IsBlankLine buf e b → b ≢ k + 4)
    → FirstAfter buf (suc k) r
    → FirstAfter buf k r
go_on buf k none n f = λ e b h. let z = f e b h in let y = n e b h in omega (arith, z, y)
go_on buf k (some (end, body)) n (i, f) =
    (i, λ e b h. let z = f e b h in let y = n e b h in ground (arith, z, y))

later_or_not : (buf : Bytes) (k m e b : ℕ) → m ≡ k + 4 → (b ≤ k + 3) ⊎ (m ≤ b)
later_or_not buf k m e b h = ground (arith, h)

same_byte : (buf : Bytes) (i j u v : ℕ) → i ≡ j → At buf i u → At buf j v → u ≡ v
same_byte buf i j u v e x y = some_inj (sym (rw e at x) ∙ y)

-- The byte at `k + 3`, with the three in front of it, ends an empty line.
abbrev Ends : ℕ → ℕ → ℕ → ℕ → Type 0
Ends a b c d = (d ≡ b'\n') × ((c ≡ b'\n') ⊎ ((a ≡ b'\r') × (b ≡ b'\n') × (c ≡ b'\r')))

module _ (buf : Bytes) (k a b c d : ℕ) (s : Bytes) (h : drop k buf ≡ a ∷ b ∷ c ∷ d ∷ s) where
  blank-Ends : (e m : ℕ) → IsBlankLine buf e m → m ≡ k + 4 → Ends a b c d
  blank-Ends e m (_, inl (l, x, y)) q =
      let x' =
        same_byte buf e (k + suc (suc zero)) b'\n' c (omega (arith, l, q)) x
          (byte_behind buf k (suc (suc zero)) h refl) in
      let y' =
        same_byte buf (e + 1) (k + suc (suc (suc zero))) b'\n' d (omega (arith, l, q)) y
          (byte_behind buf k (suc (suc (suc zero))) h refl) in
      (sym y', inl (sym x'))
  blank-Ends e m (_, inr (l, x, y, u, v)) q =
      let x' =
        same_byte buf e (k + zero) b'\r' a (omega (arith, l, q)) x
          (byte_behind buf k zero h refl) in
      let y' =
        same_byte buf (e + 1) (k + suc zero) b'\n' b (omega (arith, l, q)) y
          (byte_behind buf k (suc zero) h refl) in
      let u' =
        same_byte buf (e + 2) (k + suc (suc zero)) b'\r' c (omega (arith, l, q)) u
          (byte_behind buf k (suc (suc zero)) h refl) in
      let v' =
        same_byte buf (e + 3) (k + suc (suc (suc zero))) b'\n' d (omega (arith, l, q)) v
          (byte_behind buf k (suc (suc (suc zero))) h refl) in
      (sym v', inr (sym x', sym y', sym u'))

  moved : (j i : ℕ) {u v : ℕ} → k + j ≡ i → At buf (k + j) u → u ≡ v → At buf i v
  moved j i e x q = rw (← e, ← q) x

  feeds : c ≡ b'\n' → d ≡ b'\n' → FirstAfter buf k (some (k + 3 - 1, k + 3 + 1))
  feeds p q = (
    (
      omega arith,
      inl (
        omega arith,
        moved (suc (suc zero)) (k + 3 - 1) (omega arith) (byte_behind buf k (suc (suc zero)) h refl)
            p,
        moved (suc (suc (suc zero))) (k + 3 - 1 + 1) (omega arith)
            (byte_behind buf k (suc (suc (suc zero))) h refl) q,
      ),
    ),
    λ e m _. later_or_not buf k (k + 3 + 1) e m (omega arith),
  )

  returns :
      a ≡ b'\r' → b ≡ b'\n' → c ≡ b'\r' → d ≡ b'\n' → FirstAfter buf k (some (k + 3 - 3, k + 3 + 1))
  returns x y z w = (
    (
      omega arith,
      inr (
        omega arith,
        moved zero (k + 3 - 3) (omega arith) (byte_behind buf k zero h refl) x,
        moved (suc zero) (k + 3 - 3 + 1) (omega arith) (byte_behind buf k (suc zero) h refl) y,
        moved (suc (suc zero)) (k + 3 - 3 + 2) (omega arith)
            (byte_behind buf k (suc (suc zero)) h refl) z,
        moved (suc (suc (suc zero))) (k + 3 - 3 + 3) (omega arith)
            (byte_behind buf k (suc (suc (suc zero))) h refl) w,
      ),
    ),
    λ e m _. later_or_not buf k (k + 3 + 1) e m (omega arith),
  )

  step :
      (r : Option (ℕ × ℕ))
      → FirstAfter buf (suc k) r
      → FirstAfter buf k (
          if d == b'\n'
          then if c == b'\n'
            then some (k + 3 - 1, k + 3 + 1)
            else if a == b'\r' && b == b'\n' && c == b'\r'
            then some (k + 3 - 3, k + 3 + 1)
            else r
          else r)
  step r f = elim (Bool-cases (d == b'\n')) [
    | inr other ↦
        rw other
          (go_on buf k r (λ e m i q. let z = blank-Ends e m i q in ground (arith, z, other)) f)
    | inl feed ↦ rw feed (elim (Bool-cases (c == b'\n')) [
      | inl again ↦ rw again (feeds (ground (arith, again)) (ground (arith, feed)))
      | inr once ↦ rw once (elim (Bool-cases (a == b'\r' && b == b'\n' && c == b'\r')) [
        | inl crlf ↦ rw crlf (
            returns (ground (arith, crlf)) (ground (arith, crlf)) (ground (arith, crlf))
              (ground (arith, feed)))
        | inr other ↦ rw other (
            go_on buf k r (λ e m i q. let z = blank-Ends e m i q in ground (arith, z, other, once))
              f)
      ])
    ])
  ]

end_loop-FirstAfter :
    (buf : Bytes) (k i a b c : ℕ) (s : Bytes)
    → i ≡ k + 3
    → drop k buf ≡ a ∷ b ∷ c ∷ s
    → FirstAfter buf k (end_loop i a b c s)
unfolding end_loop
end_loop-FirstAfter buf k i a b c [] q h = λ e m z. at_end buf k a b c e m h z
end_loop-FirstAfter buf k i a b c (d ∷ s) q h =
    let r =
      end_loop-FirstAfter buf (suc k) (i + 1) b c d s (omega (arith, q)) (drop_next k buf a _ h) in
    rw q (step buf k a b c d s h (end_loop (k + 3 + 1) b c d s) (rw q at r))

get_elem?_beyond : (buf : Bytes) (i : ℕ) → length buf ≤ i → get_elem? buf i ≡ none
get_elem?_beyond [] i h = refl
get_elem?_beyond (x ∷ buf) zero h = absurd (omega (arith, h))
get_elem?_beyond (x ∷ buf) (suc i) h = get_elem?_beyond buf i (omega (arith, h))

too_short : (buf : Bytes) (e b : ℕ) → length buf ≤ 3 → IsBlankLine buf e b → ⊥
too_short buf e b l h =
    let n = get_elem?_beyond buf (b - 1) (omega (arith, l, h.0)) in
    none-ne-some (sym n ∙ last_feed buf e b h)

end_of :
    (buf : Bytes) (r : Option (ℕ × ℕ)) {end body : ℕ}
    → FirstAfter buf 0 r
    → r ≡ some (end, body)
    → IsBlankLine buf end body
end_of buf none f e = cc
end_of buf (some p) f e = rw (some_inj e) at f.0

first_of :
    (buf : Bytes) (r : Option (ℕ × ℕ)) (e b : ℕ)
    → FirstAfter buf 0 r
    → IsBlankLine buf e b
    → (end : ℕ) × (body : ℕ) × (r ≡ some (end, body)) × IsBlankLine buf end body × (body ≤ b)
first_of buf none e b f h = let z = f e b h in absurd (omega (arith, z, h.0))
first_of buf (some (end, body)) e b (i, f) h =
    let z = f e b h in (end, body, refl, i, ground (arith, z, h.0))

-- Where the headers are found to end, an empty line stands, and the body begins behind it.
pub find_end_of_http_headers-IsBlankLine :
    (buf : Bytes) {end body : ℕ}
    → find_end_of_http_headers buf ≡ some (end, body)
    → IsBlankLine buf end body
unfolding find_end_of_http_headers
find_end_of_http_headers-IsBlankLine (a ∷ b ∷ c ∷ s) e =
    end_of (a ∷ b ∷ c ∷ s) _ (end_loop-FirstAfter (a ∷ b ∷ c ∷ s) 0 3 a b c s (omega arith) refl) e
find_end_of_http_headers-IsBlankLine [] e = cc
find_end_of_http_headers-IsBlankLine (a ∷ []) e = cc
find_end_of_http_headers-IsBlankLine (a ∷ b ∷ []) e = cc

-- In a buffer with an empty line that ends behind the first three bytes the headers end, at such a
-- line, and no other one ends earlier.
pub find_end_of_http_headers_first :
    (buf : Bytes) (e m : ℕ)
    → IsBlankLine buf e m
    → (end : ℕ) × (body : ℕ) × (find_end_of_http_headers buf ≡ some (end, body))
      × IsBlankLine buf end body
      × (body ≤ m)
unfolding find_end_of_http_headers
find_end_of_http_headers_first (a ∷ b ∷ c ∷ s) e m h =
    first_of (a ∷ b ∷ c ∷ s) _ e m
      (end_loop-FirstAfter (a ∷ b ∷ c ∷ s) 0 3 a b c s (omega arith) refl) h
find_end_of_http_headers_first [] e m h = absurd (too_short [] e m (omega arith) h)
find_end_of_http_headers_first (a ∷ []) e m h = absurd (too_short (a ∷ []) e m (omega arith) h)
find_end_of_http_headers_first (a ∷ b ∷ []) e m h =
    absurd (too_short (a ∷ b ∷ []) e m (omega arith) h)

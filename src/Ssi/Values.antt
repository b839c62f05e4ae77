-- ===== src/Ssi/Values.antt =====
-- The value of an expression that `expand_vars` of src/lib/filters/ssi_filter.c gives.
use nxweb.Base.{
  ℕ, zero, suc, ◌+◌, ◌<◌, ◌≤◌, ◌≡◌, ◌≢◌, refl, sym, ap, ◌∙◌, Option, some, List, [], ◌∷◌, ◌++◌,
  append-nil, append_assoc, Bytes, length, length-append, All, All-append, arith, ◌⊎◌, inl, inr,
}
use nxweb.Ssi.{Scope, var_value, expr_room, exp_append, expand_loop, expanded_text, expand_vars}
use nxweb.Ssi.Expand.{
  Piece, text, variable, dollar, IsPlain, IsPiece, source, values, exp_append-room, no_dollar,
  step_dollar, step_variable, loop_step, loop_end,
}

-- What the loop ends with: in sum it is `total`, and something was written or nothing changed.
record Reached (out start total : Bytes) (o : Option (Bytes × Bytes)) : Type 0 where
  written : Bytes
  left : Bytes
  result : o ≡ some (written, left)
  whole : written ++ left ≡ total
  moved : (0 < length written) ⊎ ((written ≡ out) × (left ≡ start))

-- A round that wrote something is passed.
passed :
    (out start total out' start' : Bytes) (o o' : Option (Bytes × Bytes))
    → o ≡ o'
    → 0 < length out'
    → Reached out' start' total o'
    → Reached out start total o
passed out start total out' start' o o' e h r = record {
  written = r.written;
  left = r.left;
  result = e ∙ r.result;
  whole = r.whole;
  moved = elim r.moved [ inl m ↦ inl m | inr m ↦ inl (rw m.0 h) ];
}

joined : (a b c d : Bytes) → ((a ++ b) ++ c) ++ d ≡ a ++ (b ++ (c ++ d))
joined a b c d = append_assoc (a ++ b) c d ∙ append_assoc a b (c ++ d)

lengths :
    (a b c d : Bytes) → length (a ++ (b ++ (c ++ d))) ≡ length a + length b + length c + length d
lengths a b c d =
    let x = length-append a (b ++ (c ++ d)) in
    let y = length-append b (c ++ d) in let z = length-append c d in omega (arith, x, y, z)

abbrev backslash : ℕ
backslash = b'\\'

ne_backslash : backslash ≢ b'$'
ne_backslash = omega arith

expand_loop-Reached :
    (sc : Scope) (fuel : ℕ) (out pend : Bytes) (ps : List Piece)
    → All IsPlain pend
    → All IsPiece ps
    → length (source ps) ≤ fuel
    → 0 < length out + length pend
    → length (out ++ (pend ++ values sc ps)) ≤ expr_room
    → Reached out
        (pend ++ source ps)
        (out ++ (pend ++ values sc ps))
        (expand_loop sc fuel out (pend ++ source ps))
expand_loop-Reached sc fuel out pend [] p q f h room = record {
  written = out;
  left = pend ++ [];
  result = loop_end sc fuel out (pend ++ []) (rw (append-nil pend) (no_dollar pend p));
  whole = refl;
  moved = inr (refl, refl);
}
expand_loop-Reached sc fuel out pend (text t ∷ ps) p (q, qs) f h room =
    let l = length-append t (source ps) in
    let m = length-append pend t in
    rw (sym (append_assoc pend t (source ps)), sym (append_assoc pend t (values sc ps)))
      (expand_loop-Reached sc fuel out (pend ++ t) ps (All-append IsPlain pend t p q) qs
        (omega (arith, l, f)) (omega (arith, m, h)) (rw (append_assoc pend t (values sc ps)) room))
expand_loop-Reached sc zero out pend (variable name ∷ ps) p q f h room = absurd (omega (arith, f))
expand_loop-Reached sc zero out pend (dollar ∷ ps) p q f h room = absurd (omega (arith, f))
expand_loop-Reached sc (suc fuel) out pend (variable name ∷ ps) p (q, qs) f h room =
    let v = var_value sc name in
    let rest = b'{' ∷ (name ++ b'}' ∷ source ps) in
    let l = length-append name (b'}' ∷ source ps) in
    let n = lengths out pend v (values sc ps) in
    let m = length-append (out ++ pend) v in
    let k = length-append out pend in
    let e =
      loop_step sc fuel out (pend ++ b'$' ∷ rest) pend ((out ++ pend) ++ v) rest (source ps) refl
        (no_dollar pend p)
        (step_variable sc out pend name (source ps) p q (omega (arith, n, room))) in
    let r =
      expand_loop-Reached sc fuel ((out ++ pend) ++ v) [] ps tt qs (omega (arith, l, f))
        (omega (arith, m, k, h)) (rw (joined out pend v (values sc ps)) room) in
    passed out (pend ++ b'$' ∷ rest) _ ((out ++ pend) ++ v) (source ps) _ _ e
      (omega (arith, m, k, h)) (rw (joined out pend v (values sc ps)) at r)
expand_loop-Reached sc (suc fuel) out pend (dollar ∷ ps) p (q, qs) f h room =
    let v = b'$' ∷ [] in
    let n = lengths out pend v (values sc ps) in
    let m = length-append (out ++ pend) v in
    let k = length-append out pend in
    let e =
      loop_step sc fuel out (pend ++ b'\\' ∷ b'$' ∷ source ps) (pend ++ b'\\' ∷ [])
        ((out ++ pend) ++ v) (source ps) (source ps)
        (sym (append_assoc pend (b'\\' ∷ []) (b'$' ∷ source ps)))
        (All-append (λ c. c ≢ b'$') pend (b'\\' ∷ []) (no_dollar pend p) (ne_backslash, tt))
        (step_dollar sc out pend (source ps) (omega (arith, n, room))) in
    let r =
      expand_loop-Reached sc fuel ((out ++ pend) ++ v) [] ps tt qs (omega (arith, f))
        (omega (arith, m, k, h)) (rw (joined out pend v (values sc ps)) room) in
    passed out (pend ++ b'\\' ∷ b'$' ∷ source ps) _ ((out ++ pend) ++ v) (source ps) _ _ e
      (omega (arith, m, k, h)) (rw (joined out pend v (values sc ps)) at r)

expanded_written :
    (expr out left : Bytes)
    → 0 < length out
    → expanded_text expr (some (out, left)) ≡ exp_append out left
unfolding expanded_text
expanded_written expr [] left h = absurd (omega (arith, h))
expanded_written expr (c ∷ out) left h = refl

Reached-expanded_text :
    (expr total : Bytes) (o : Option (Bytes × Bytes))
    → Reached [] expr total o
    → length total ≤ expr_room
    → expanded_text expr o ≡ some total
unfolding expanded_text
Reached-expanded_text expr total o r h = elim r.moved [
  | inl m ↦
      let l = length-append r.written r.left in
      let e = exp_append-room r.written r.left (rw (sym l, r.whole) h) in
      rw r.result (expanded_written expr r.written r.left m ∙ e ∙ ap (λ t. some t) r.whole)
  | inr (a, b) ↦ rw (r.result, a) (ap (λ t. some t) (sym b ∙ (rw a at r.whole)))
]

-- An expression is made of texts without dollar sign and backslash, of variables in braces and of
-- dollar signs behind a backslash. If it begins with a text that is not empty and what the texts,
-- the values of the variables and the dollar signs make up fits in the buffer, that is what the
-- code returns: it does not fail.
pub expand_vars-values :
    (sc : Scope) (c : ℕ) (t : Bytes) (ps : List Piece)
    → All IsPiece (text (c ∷ t) ∷ ps)
    → length (values sc (text (c ∷ t) ∷ ps)) ≤ expr_room
    → expand_vars sc (source (text (c ∷ t) ∷ ps)) ≡ some (values sc (text (c ∷ t) ∷ ps))
unfolding expand_vars
expand_vars-values sc c t ps (p, ps_pieces) h =
    let expr = source (text (c ∷ t) ∷ ps) in
    let total = values sc (text (c ∷ t) ∷ ps) in
    let l = length-append (c ∷ t) (source ps) in
    Reached-expanded_text expr total (expand_loop sc (length expr) [] expr)
      (expand_loop-Reached sc (length expr) [] (c ∷ t) ps p ps_pieces (omega (arith, l))
        (omega arith) h)
      h

-- A variable that stands first, in braces, and has no value is not expanded: when no other dollar
-- sign follows, the expression is returned as it was written, with the name of the variable in it.
pub expand_vars_unset :
    (sc : Scope) (name rest : Bytes)
    → All (λ c. c ≢ b'}') name
    → All (λ c. c ≢ b'$') rest
    → var_value sc name ≡ []
    → expand_vars sc (source (variable name ∷ text rest ∷ []))
      ≡ some (source (variable name ∷ text rest ∷ []))
unfolding expand_vars expanded_text
expand_vars_unset sc name rest n p v =
    let after = rest ++ [] in
    let s = b'{' ∷ (name ++ b'}' ∷ after) in
    let e =
      loop_step sc (length s) [] (b'$' ∷ s) [] (var_value sc name) s after refl tt
        (step_variable sc [] [] name after tt n (rw v (omega arith))) in
    let f = loop_end sc (length s) [] after (rw (append-nil rest) p) in
    ap (λ o. expanded_text (b'$' ∷ s) o)
      (e ∙ (ap (λ out. expand_loop sc (length s) out after) v) ∙ f)

-- ===== src/Ssi/Expand.antt =====
-- What `expand_vars` of src/lib/filters/ssi_filter.c makes of an expression.
use nxweb.Base.{
  ℕ, zero, suc, ◌+◌, ◌≤◌, ◌≡◌, ◌≢◌, refl, ap, true, false, some, List, [], ◌∷◌, ◌++◌, Bytes, length,
  length-append, All, arith,
}
use nxweb.Request.SplitAt.{split_at_first, split_at_nowhere}
use nxweb.Ssi.{
  Scope, var_value, expr_room, exp_append, exp_append_var, ends_escape, without_last, expand_name,
  expand_step, expand_loop,
}

-- A part of an expression: a text, a variable in braces, a dollar sign behind a backslash.
pub data Piece : Type 0 where
  text variable : Bytes → Piece
  dollar : Piece

abbrev pub IsPlain : ℕ → Type 0
IsPlain c = (c ≢ b'$') × (c ≢ b'\\')

abbrev pub IsPiece : Piece → Type 0
IsPiece (text t) = All IsPlain t
IsPiece (variable name) = All (λ c. c ≢ b'}') name
IsPiece dollar = Unit

abbrev pub source : List Piece → Bytes
source [] = []
source (text t ∷ ps) = t ++ source ps
source (variable name ∷ ps) = b'$' ∷ b'{' ∷ (name ++ b'}' ∷ source ps)
source (dollar ∷ ps) = b'\\' ∷ b'$' ∷ source ps

abbrev pub values : Scope → List Piece → Bytes
values sc [] = []
values sc (text t ∷ ps) = t ++ values sc ps
values sc (variable name ∷ ps) = var_value sc name ++ values sc ps
values sc (dollar ∷ ps) = b'$' ∷ values sc ps

pub exp_append-room :
    (out s : Bytes) → length out + length s ≤ expr_room → exp_append out s ≡ some (out ++ s)
unfolding exp_append
exp_append-room out s h = ground arith

pub no_dollar : (s : Bytes) → All IsPlain s → All (λ c. c ≢ b'$') s
no_dollar [] h = tt
no_dollar (c ∷ s) ((a, b), h) = (a, no_dollar s h)

ends_escape_plain : (s : Bytes) → All IsPlain s → ends_escape s ≡ false
unfolding ends_escape
ends_escape_plain [] h = refl
ends_escape_plain (c ∷ []) ((a, b), h) = ground (arith, b)
ends_escape_plain (c ∷ d ∷ s) (a, h) = ends_escape_plain (d ∷ s) h

ends_escape-append : (s : Bytes) → ends_escape (s ++ b'\\' ∷ []) ≡ true
unfolding ends_escape
ends_escape-append [] = refl
ends_escape-append (c ∷ []) = refl
ends_escape-append (c ∷ d ∷ s) = ends_escape-append (d ∷ s)

without_last-append : (s : Bytes) (c : ℕ) → without_last (s ++ c ∷ []) ≡ s
unfolding without_last
without_last-append [] c = refl
without_last-append (d ∷ []) c = refl
without_last-append (d ∷ e ∷ s) c = ap (λ t. d ∷ t) (without_last-append (e ∷ s) c)

-- A round at a dollar sign behind a backslash.
pub step_dollar :
    (sc : Scope) (out pend rest : Bytes)
    → length out + length pend + 1 ≤ expr_room
    → expand_step sc out (pend ++ b'\\' ∷ []) rest ≡ some ((out ++ pend) ++ b'$' ∷ [], rest)
unfolding expand_step
step_dollar sc out pend rest h =
    let a = exp_append-room out pend (omega (arith, h)) in
    let b =
      exp_append-room (out ++ pend) (b'$' ∷ []) (rw (length-append out pend) (omega (arith, h))) in
    rw (ends_escape-append pend, without_last-append pend b'\\', a, b) refl

-- A round at a variable in braces.
pub step_variable :
    (sc : Scope) (out pend name rest : Bytes)
    → All IsPlain pend
    → All (λ c. c ≢ b'}') name
    → length out + length pend + length (var_value sc name) ≤ expr_room
    → expand_step sc out pend (b'{' ∷ (name ++ b'}' ∷ rest))
      ≡ some ((out ++ pend) ++ var_value sc name, rest)
unfolding expand_step expand_name exp_append_var
step_variable sc out pend name rest p n h =
    let a = exp_append-room out pend (omega (arith, h)) in
    let b =
      exp_append-room (out ++ pend) (var_value sc name)
        (rw (length-append out pend) (omega (arith, h))) in
    rw (ends_escape_plain pend p, a, split_at_first b'}' name rest n, b) refl

-- One round of the loop.
pub loop_step :
    (sc : Scope) (fuel : ℕ) (out s t out' rest rest' : Bytes)
    → s ≡ t ++ b'$' ∷ rest
    → All (λ c. c ≢ b'$') t
    → expand_step sc out t rest ≡ some (out', rest')
    → expand_loop sc (suc fuel) out s ≡ expand_loop sc fuel out' rest'
unfolding expand_loop
loop_step sc fuel out s t out' rest rest' e d h =
    rw (expand_loop, e, split_at_first b'$' t rest d, h) refl

pub loop_end :
    (sc : Scope) (fuel : ℕ) (out s : Bytes)
    → All (λ c. c ≢ b'$') s
    → expand_loop sc fuel out s ≡ some (out, s)
unfolding expand_loop
loop_end sc zero out s h = refl
loop_end sc (suc fuel) out s h = rw (expand_loop, split_at_nowhere b'$' s h) refl

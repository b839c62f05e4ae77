-- ===== src/Ssi/Assign.antt =====
-- The directive of src/lib/filters/ssi_filter.c that sets a variable.
use nxweb.Base.{
  ◌≡◌, ◌≢◌, refl, sym, ◌∙◌, some, List, [], ◌∷◌, ◌++◌, Bytes, codes, All, arith, inl, inr,
  Bool-cases, Option-cases,
}
use nxweb.SimpleMap.{Entry, same_case}
use nxweb.SimpleMap.Same.{same_case_eq, same_case_refl, same_case_ne}
use nxweb.Ssi.{Scope, find_var, lookup_var, expand_vars}
use nxweb.Ssi.Directive.{
  nothing, assign, set_var, set_attrs, set_both, run_command, parse_directive,
}
use nxweb.Ssi.Attributes.{IsInk, attrs_text, parse_directive-attrs_text}

find_var-assign :
    (name value : Bytes) (map : List Entry) (old : Bytes)
    → find_var name map ≡ some old
    → find_var name (assign name value map) ≡ some value
unfolding find_var assign
find_var-assign name value [] old h = cc
find_var-assign name value (e ∷ es) old h = elim (Bool-cases (same_case e.name name)) [
  | inl q ↦ rw (assign, q, q) refl
  | inr q ↦ rw (assign, q, q) (find_var-assign name value es old (rw q at h))
]

find_var-assign_other :
    (name value other : Bytes) (map : List Entry)
    → name ≢ other
    → find_var other (assign name value map) ≡ find_var other map
unfolding find_var assign
find_var-assign_other name value other [] h = refl
find_var-assign_other name value other (e ∷ es) h =
    let r = find_var-assign_other name value other es h in
    elim (Bool-cases (same_case e.name name)) [
      | inl q ↦
          let n : e.name ≢ other = λ p. h (sym (same_case_eq e.name name q) ∙ p) in
          rw (q, same_case_ne e.name other n) refl
      | inr q ↦ rw (q, r) refl
    ]

find_var-set_var :
    (name value : Bytes) (map : List Entry) → find_var name (set_var name value map) ≡ some value
unfolding set_var find_var
find_var-set_var name value map = elim (Option-cases (find_var name map)) [
  | inl n ↦ rw (set_var, n, find_var, same_case_refl name) refl
  | inr s ↦ rw (set_var, s.1) (find_var-assign name value map s.0 s.1)
]

find_var-set_var_other :
    (name value other : Bytes) (map : List Entry)
    → name ≢ other
    → find_var other (set_var name value map) ≡ find_var other map
unfolding set_var find_var
find_var-set_var_other name value other map h = elim (Option-cases (find_var name map)) [
  | inl n ↦ rw (set_var, n, find_var, same_case_ne name other h) refl
  | inr s ↦ rw (set_var, s.1) (find_var-assign_other name value other map h)
]

abbrev pub set_of : Bytes → Bytes → List Entry
set_of name expr =
    record { name = codes "var"; value = name } ∷ record { name = codes "value"; value = expr } ∷ []

abbrev pub assigned : Scope → Bytes → Bytes → Scope
assigned sc name value = record sc { var_map = set_var name value sc.var_map }

run_command_set :
    (sc : Scope) (name expr value : Bytes)
    → expand_vars sc expr ≡ some value
    → run_command sc (codes "set") (set_of name expr) ≡ some (assigned sc name value, nothing)
unfolding run_command set_attrs set_both same_case
run_command_set sc name expr value h = rw h refl

set-IsInk : All IsInk (codes "set")
set-IsInk = (omega arith, (omega arith, (omega arith, tt)))

-- `set var="name" value="expr"`, where `expr` can be expanded and neither text has a double quote,
-- puts nothing into the stream. Behind it the variable has the expanded text for its value, whether
-- it was set before or not, and every other variable has the value it had.
pub parse_directive-set_var :
    (sc : Scope) (name expr value : Bytes)
    → All (λ c. c ≢ b'"') name
    → All (λ c. c ≢ b'"') expr
    → expand_vars sc expr ≡ some value
    → (parse_directive sc (codes "set" ++ attrs_text (set_of name expr))
        ≡ some (assigned sc name value, nothing))
      × (lookup_var (assigned sc name value) name ≡ some value)
      × ((other : Bytes)
          → name ≢ other
          → lookup_var (assigned sc name value) other ≡ lookup_var sc other)
unfolding lookup_var
parse_directive-set_var sc name expr value n x h =
    let read =
      parse_directive-attrs_text sc b's' (codes "et") (record { name = codes "var"; value = name })
        (record { name = codes "value"; value = expr } ∷ []) set-IsInk
        ((ground arith, ground arith, n), ((ground arith, ground arith, x), tt)) (omega arith) in
    (
      read ∙ run_command_set sc name expr value h,
      rw (lookup_var, find_var-set_var name value sc.var_map) refl,
      λ other d. rw (lookup_var, find_var-set_var_other name value other sc.var_map d) refl,
    )

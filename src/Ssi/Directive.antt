-- ===== src/Ssi/Directive.antt =====
-- The directives of src/lib/filters/ssi_filter.c: `parse_directive`. The text between `<!--#` and
-- `-->` holds no NUL.
use nxweb.Base.{
  ℕ, zero, suc, Bool, Option, none, some, List, [], ◌∷◌, Bytes, codes, leb, ltb, ◌==◌, ◌||◌,
  if◌then◌else◌, length, ◌>>=◌,
}
use nxweb.Misc.{skip_space, trunc_space}
use nxweb.SimpleMap.{Entry, same_case, simple_map_add}
use nxweb.Request.{split_at}
use nxweb.Request.Parse.{drop_first}
use nxweb.Ssi.{Scope, var_value, expand_vars, find_var}

-- `SSI_MAX_ATTRS`
abbrev pub max_attrs : ℕ
max_attrs = 16

abbrev pub is_quote : ℕ → Bool
is_quote c = c == b'"' || c == b'\''

-- The value in quotes, and the text behind it.
unfoldable pub quoted : Bytes → Option (Bytes × Bytes)
unfolding split_at
quoted [] = none
quoted (q ∷ s) = do
  (value, rest) ← if is_quote q then split_at q s else none
  some (value, drop_first rest)

-- The loop over the attributes; `none` is `return -1`.
unfoldable pub parse_attrs : ℕ → Bytes → Option (List Entry)
unfolding quoted split_at skip_space trunc_space
parse_attrs zero s = some []
parse_attrs (suc n) s = elim (split_at b'=' s) [
  | none ↦ some []
  | some (name, rest) ↦ elim (quoted (skip_space (drop_first rest))) [
    | none ↦ none
    | some (value, after) ↦ elim (parse_attrs n after) [
      | none ↦ none
      | some attrs ↦ some (record { name = trunc_space name; value = value } ∷ attrs)
    ]
  ]
]

-- The command, and the text from the blank behind it.
unfoldable pub split_command : Bytes → Bytes × Bytes
split_command [] = ([], [])
split_command (c ∷ s) =
    let (command, rest) = split_command s in if ltb b' ' c then (c ∷ command, rest) else ([], c ∷ s)

-- What a directive puts into the stream.
pub data Output : Type 0 where
  nothing : Output
  subrequest : Bytes → Output
  bytes : Bytes → Output

-- `nx_simple_map_find`, and the assignment of the value.
unfoldable pub assign : Bytes → Bytes → List Entry → List Entry
assign name value [] = []
assign name value (e ∷ es) =
    let rest = assign name value es in
    if same_case e.name name then record e { value = value } ∷ es else e ∷ rest

unfoldable pub set_var : Bytes → Bytes → List Entry → List Entry
unfolding find_var assign
set_var name value map = elim (find_var name map) [
  | none ↦ simple_map_add map (record { name = name; value = value })
  | some old ↦ assign name value map
]

-- The last `var`, and the last `value`, which is expanded as each is met.
unfoldable pub set_attrs :
    Scope → Option Bytes → Option Bytes → List Entry → Option (Option Bytes × Option Bytes)
unfolding expand_vars
set_attrs sc var value [] = some (var, value)
set_attrs sc var value (a ∷ attrs) =
    let named = set_attrs sc (some a.value) value attrs in
    let valued : Option (Option Bytes × Option Bytes) = elim (expand_vars sc a.value) [
      | none ↦ none
      | some v ↦ set_attrs sc var (some v) attrs
    ] in
    let skipped = set_attrs sc var value attrs in
    if same_case a.name (codes "var")
    then named
    else if same_case a.name (codes "value")
    then valued
    else skipped

unfoldable pub set_both : Scope → Option Bytes → Option Bytes → Option (Scope × Output)
unfolding set_var
set_both sc (some name) (some value) =
    some (record sc { var_map = set_var name value sc.var_map }, nothing)
set_both sc (some name) none = none
set_both sc none value = none

-- The first attribute with the name.
unfoldable pub first_attr : Bytes → List Entry → Option Bytes
unfolding find_var
first_attr = find_var

-- The buffer of `echo`.
unfoldable pub echoed : Bytes → Option Output
echoed value = if leb (length value) 4096 then some (bytes value) else none

unfoldable pub run_command : Scope → Bytes → List Entry → Option (Scope × Output)
unfolding first_attr set_attrs set_both echoed var_value expand_vars
run_command sc command attrs =
    let include : Option (Scope × Output) = do
      v ← first_attr (codes "virtual") attrs
      uri ← expand_vars sc v
      some (sc, subrequest uri)
    in let set : Option (Scope × Output) = do
      (var, value) ← set_attrs sc none none attrs
      set_both sc var value
      in let echo : Option (Scope × Output) = do
        name ← first_attr (codes "var") attrs
        out ← echoed (var_value sc name)
        some (sc, out)
        in if same_case command (codes "include")
          then include
          else if same_case command (codes "set")
          then set
          else if same_case command (codes "echo")
          then echo
          else none

-- The text behind the blank that ends the command. Where no blank does, the code goes on behind the
-- directive: it returns -1 at an equals sign there, since `p>=pe`, and without one there are no
-- attributes, which each command refuses. What it overwrites there is `overwritten` of Ssi/Overwrite.
unfoldable pub run_text : Scope → Bytes → Bytes → Option (Scope × Output)
unfolding parse_attrs run_command
run_text sc command [] = none
run_text sc command (c ∷ s) = do attrs ← parse_attrs max_attrs s; run_command sc command attrs

-- `parse_directive`; `none` is `return -1`.
unfoldable pub parse_directive : Scope → Bytes → Option (Scope × Output)
unfolding run_text split_command skip_space
parse_directive sc str =
    let text = skip_space str in
    let (command, rest) = split_command text in run_text sc command rest

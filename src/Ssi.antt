-- ===== src/Ssi.antt =====
-- The variables of src/lib/filters/ssi_filter.c: `lookup_var`, `expand_var`, `expand_vars`.
pub mod Expand
pub mod Values
pub mod Directive
pub mod Attributes
pub mod Assign
pub mod Overwrite
pub mod Stream
pub mod Cuts
pub mod Lengths
pub mod Joined
mod Tests
use nxweb.Base.{
  ℕ, zero, suc, ◌+◌, Bool, true, false, not, ◌&&◌, ◌||◌, Option, none, some, List, [], ◌∷◌, ◌++◌,
  Bytes, codes, ltb, leb, ◌==◌, if◌then◌else◌, length, ◌>>=◌,
}
use nxweb.SimpleMap.{Entry, same_case}
use nxweb.Request.{split_at}
use nxweb.Request.Parse.{drop_first}

-- What `ssi_buffer` gives to the expansion: the URI of the request, its variables, and the
-- variables of the requests that it is part of, from the nearest on; a request without a buffer of
-- this filter has none.
pub record Scope : Type 0 where
  pub uri : Bytes
  pub var_map : List Entry
  pub parents : List (Option (List Entry))

unfoldable pub find_var : Bytes → List Entry → Option Bytes
find_var name [] = none
find_var name (e ∷ es) =
    let rest = find_var name es in if same_case e.name name then some e.value else rest

unfoldable pub find_in_parents : Bytes → List (Option (List Entry)) → Option Bytes
unfolding find_var
find_in_parents name [] = none
find_in_parents name (none ∷ ms) = find_in_parents name ms
find_in_parents name (some m ∷ ms) =
    let rest = find_in_parents name ms in elim (find_var name m) [ some v ↦ some v | none ↦ rest ]

-- `lookup_var`
unfoldable pub lookup_var : Scope → Bytes → Option Bytes
unfolding find_var find_in_parents
lookup_var sc name = elim (find_var name sc.var_map) [
  | some v ↦ some v
  | none ↦ find_in_parents name sc.parents
]

-- The text behind the first question mark.
unfoldable pub query_of : Bytes → Bytes
unfolding split_at
query_of uri = elim (split_at b'?' uri) [ none ↦ [] | some (path, query) ↦ drop_first query ]

-- The text in front of it.
unfoldable pub path_of_uri : Bytes → Bytes
unfolding split_at
path_of_uri uri = elim (split_at b'?' uri) [ none ↦ uri | some (path, query) ↦ path ]

unfoldable pub or_nothing : Option Bytes → Bytes
or_nothing none = []
or_nothing (some v) = v

-- What `expand_var` copies for the variable.
unfoldable pub var_value : Scope → Bytes → Bytes
unfolding lookup_var query_of path_of_uri or_nothing
var_value sc name =
    if same_case name (codes "QUERY_STRING")
    then query_of sc.uri
    else if same_case name (codes "DOCUMENT_URI") || same_case name (codes "REQUEST_URI")
    then path_of_uri sc.uri
    else or_nothing (lookup_var sc name)

-- `SSI_MAX_EXPR_LEN`, less the byte for the NUL.
abbrev pub expr_room : ℕ
expr_room = 4095

-- `exp_append`, where `d` is behind `out`.
unfoldable pub exp_append : Bytes → Bytes → Option Bytes
exp_append out s = if leb (length out + length s) expr_room then some (out ++ s) else none

-- `exp_append_var`
unfoldable pub exp_append_var : Scope → Bytes → Bytes → Option Bytes
unfolding exp_append var_value
exp_append_var sc out name = exp_append out (var_value sc name)

-- `*(p-1)=='\\'`
unfoldable pub ends_escape : Bytes → Bool
ends_escape [] = false
ends_escape (c ∷ []) = c == b'\\'
ends_escape (c ∷ d ∷ s) = ends_escape (d ∷ s)

unfoldable pub without_last : Bytes → Bytes
without_last [] = []
without_last (c ∷ []) = []
without_last (c ∷ d ∷ s) = c ∷ without_last (d ∷ s)

unfoldable pub is_name_char : ℕ → Bool
is_name_char c =
    (leb b'a' c && leb c b'z')
    || (leb b'A' c && leb c b'Z')
    || (leb b'0' c && leb c b'9')
    || c == b'_'

-- The name that stands without braces, and the text behind it.
unfoldable pub split_name : Bytes → Bytes × Bytes
unfolding is_name_char
split_name [] = ([], [])
split_name (c ∷ s) =
    let (name, after) = split_name s in if is_name_char c then (c ∷ name, after) else ([], c ∷ s)

abbrev starts_brace : Bytes → Bool
starts_brace [] = false
starts_brace (c ∷ s) = c == b'{'

-- The variable behind a dollar sign; `out` is what was written, the second part of the result the
-- new `start`.
unfoldable pub expand_name : Scope → Bytes → Bytes → Option (Bytes × Bytes)
unfolding exp_append_var split_at split_name
expand_name sc out s =
    let (name, after) = split_name s in
    let plain : Option (Bytes × Bytes) = do out' ← exp_append_var sc out name; some (out', after)
    in let braced : Option (Bytes × Bytes) = do
      (inner, rest) ← split_at b'}' (drop_first s)
      out' ← exp_append_var sc out inner
      some (out', drop_first rest)
      in if starts_brace s then braced else plain

-- One round of the loop, at `$` behind `text`, with `rest` behind it.
unfoldable pub expand_step : Scope → Bytes → Bytes → Bytes → Option (Bytes × Bytes)
unfolding exp_append expand_name ends_escape without_last
expand_step sc out text rest =
    let escaped : Option (Bytes × Bytes) = do
      out' ← exp_append out (without_last text)
      out'' ← exp_append out' (b'$' ∷ [])
      some (out'', rest)
    in let named : Option (Bytes × Bytes) = do out' ← exp_append out text; expand_name sc out' rest
      in if ends_escape text then escaped else named

-- `while ((p=strchr(start, '$')))`, on fuel
unfoldable pub expand_loop : Scope → ℕ → Bytes → Bytes → Option (Bytes × Bytes)
unfolding expand_step split_at
expand_loop sc zero out start = some (out, start)
expand_loop sc (suc fuel) out start = elim (split_at b'$' start) [
  | none ↦ some (out, start)
  | some (text, rest) ↦ elim (expand_step sc out text (drop_first rest)) [
    | none ↦ none
    | some (out', start') ↦ expand_loop sc fuel out' start'
  ]
]

-- What stands behind the loop: an expression of which nothing was written is returned as it is.
unfoldable pub expanded_text : Bytes → Option (Bytes × Bytes) → Option Bytes
unfolding exp_append
expanded_text expr none = none
expanded_text expr (some ([], start)) = some expr
expanded_text expr (some (c ∷ out, start)) = exp_append (c ∷ out) start

-- `expand_vars`; each round passes a dollar sign.
unfoldable pub expand_vars : Scope → Bytes → Option Bytes
unfolding expand_loop expanded_text
expand_vars sc expr = expanded_text expr (expand_loop sc (length expr) [] expr)

-- ===== src/Ssi/Tests.antt =====
-- The expansion of src/lib/filters/ssi_filter.c on small inputs.
use nxweb.Base.{
  All, ◌≡◌, ◌≢◌, refl, none, some, List, [], ◌∷◌, ◌++◌, Bytes, codes, length, ◌≤◌, arith,
}
use nxweb.SimpleMap.{same_case}
use nxweb.Request.{split_at}
use nxweb.Ssi.{
  Scope, expr_room, lookup_var, find_var, find_in_parents, var_value, query_of, or_nothing,
  exp_append, exp_append_var, expand_name, split_name, expand_step, expand_loop, expand_vars,
}
use nxweb.Ssi.Directive.{
  nothing, subrequest, parse_directive, parse_attrs, quoted, split_command, run_text, run_command,
  first_attr,
}
use nxweb.Ssi.Attributes.{attrs_text}
use nxweb.Ssi.Assign.{set_of, assigned, parse_directive-set_var}
use nxweb.Ssi.Stream.{
  chunk, directive, parse_stream, parse_loop, find_directive, is_opening, behind_opening,
  find_closing, with_char, as_found, behind_char, items_of,
}
use nxweb.Ssi.Overwrite.{
  overwritten, overwritten_by, ends_command, ends_text, find_sign, with_name, blank_end, is_blank,
}
use nxweb.Ssi.Joined.{IsHarmless, parse_stream-append}
use nxweb.Ssi.Expand.{Piece, text, variable, dollar, source, values}
use nxweb.Ssi.Values.{expand_vars-values, expand_vars_unset}

abbrev scope : Scope
scope = record {
  uri = codes "/a?q=1";
  var_map = record { name = codes "lang"; value = codes "en" } ∷ [];
  parents = none ∷ some (record { name = codes "top"; value = codes "x" } ∷ []) ∷ [];
}

-- A variable of a request further up is found.
parent_var : lookup_var scope (codes "top") ≡ some (codes "x")
unfolding lookup_var find_var find_in_parents same_case
parent_var = refl

query_var : var_value scope (codes "QUERY_STRING") ≡ codes "q=1"
unfolding var_value query_of same_case split_at
query_var = refl

-- A name without braces ends in front of the slash.
bare_name : expand_vars scope (codes "/$lang/x") ≡ some (codes "/en/x")
unfolding expand_vars expand_loop expand_step expand_name exp_append exp_append_var split_name
    var_value lookup_var find_var same_case split_at or_nothing
bare_name = refl

abbrev pieces : List Piece
pieces = variable (codes "lang") ∷ text (codes "/") ∷ dollar ∷ variable (codes "top") ∷ []

lang_fits : length (values scope (text (codes "/") ∷ pieces)) ≤ expr_room
unfolding var_value lookup_var find_var find_in_parents same_case or_nothing
lang_fits = omega arith

unset_var : var_value scope (codes "no") ≡ []
unfolding var_value lookup_var find_var find_in_parents same_case or_nothing
unset_var = refl

expand_vars-values_example :
    expand_vars scope (source (text (codes "/") ∷ pieces))
    ≡ some (values scope (text (codes "/") ∷ pieces))
expand_vars-values_example = expand_vars-values scope b'/' [] pieces (ground arith) lang_fits

expand_vars_unset_example :
    expand_vars scope (source (variable (codes "no") ∷ text (codes "/x") ∷ []))
    ≡ some (source (variable (codes "no") ∷ text (codes "/x") ∷ []))
expand_vars_unset_example =
    expand_vars_unset scope (codes "no") (codes "/x") (ground arith) (ground arith) unset_var

include_run :
    parse_directive scope (codes " include virtual='/$lang/x' ")
    ≡ some (scope, subrequest (codes "/en/x"))
unfolding parse_directive parse_attrs quoted split_command run_text run_command first_attr
    expand_vars expand_loop expand_step expand_name exp_append exp_append_var split_name var_value
    lookup_var find_var same_case split_at or_nothing nxweb.Misc.skip_space nxweb.Misc.trunc_space
include_run = refl

-- Nothing is read behind a command that ends the directive.
echo_run : parse_directive scope (codes "echo") ≡ none
unfolding parse_directive split_command run_text nxweb.Misc.skip_space
echo_run = refl

abbrev lang : Bytes
lang = codes "lang"

xy_expanded : expand_vars scope (codes "xy") ≡ some (codes "xy")
unfolding expand_vars expand_loop split_at
xy_expanded = refl

parse_directive-set_var_example :
    (parse_directive scope (codes "set" ++ attrs_text (set_of lang (codes "xy")))
      ≡ some (assigned scope lang (codes "xy"), nothing))
    × (lookup_var (assigned scope lang (codes "xy")) lang ≡ some (codes "xy"))
    × ((other : Bytes)
        → lang ≢ other
        → lookup_var (assigned scope lang (codes "xy")) other ≡ lookup_var scope other)
parse_directive-set_var_example =
    parse_directive-set_var scope lang (codes "xy") (codes "xy") (ground arith) (ground arith)
      xy_expanded

-- A directive is found behind a text, and what is left is the beginning of another one.
parse_stream_run :
    parse_stream (codes "a<!--#x y-->b<")
    ≡ (chunk (codes "a") ∷ directive (codes "x y") ∷ [], codes "b<")
unfolding parse_stream parse_loop find_directive is_opening behind_opening find_closing with_char
    as_found behind_char items_of overwritten ends_command ends_text split_command
    nxweb.Misc.skip_space
parse_stream_run = refl

-- The sign of the second directive is overwritten when the first one is parsed, and it is not if it
-- comes later.
overwritten_run :
    parse_stream (codes "<!--#x--><!--#y a=-->")
    ≡ (directive (codes "x") ∷ directive (codes "y a" ++ 0 ∷ []) ∷ [], [])
unfolding parse_stream parse_loop find_directive is_opening behind_opening find_closing with_char
    as_found behind_char items_of overwritten overwritten_by ends_command ends_text find_sign
    with_name blank_end is_blank split_command nxweb.Misc.skip_space
overwritten_run = refl

later_run : parse_stream (codes "<!--#y a=-->") ≡ (directive (codes "y a=") ∷ [], [])
unfolding parse_stream parse_loop find_directive is_opening behind_opening find_closing with_char
    as_found behind_char items_of overwritten ends_command ends_text split_command
    nxweb.Misc.skip_space
later_run = refl

two_parts-IsHarmless : All IsHarmless (parse_stream (codes "a<!--#x y-" ++ codes "->b<")).0
unfolding parse_stream parse_loop find_directive is_opening behind_opening find_closing with_char
    as_found behind_char items_of overwritten ends_command ends_text split_command
    nxweb.Misc.skip_space
two_parts-IsHarmless = (tt, (refl, tt))

parse_stream-append_example : parse_stream (codes "a<!--#x y-" ++ codes "->b<") ≡ (
  (parse_stream (codes "a<!--#x y-")).0
      ++ (parse_stream ((parse_stream (codes "a<!--#x y-")).1 ++ codes "->b<")).0,
  (parse_stream ((parse_stream (codes "a<!--#x y-")).1 ++ codes "->b<")).1,
)
parse_stream-append_example =
    parse_stream-append (codes "a<!--#x y-") (codes "->b<") two_parts-IsHarmless

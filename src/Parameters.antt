-- ===== src/Parameters.antt =====
-- The parameters and the cookies of a request, src/lib/http_utils.c.
pub mod RoundTrip
mod Tests
use nxweb.Base.{
  ℕ, Bool, true, false, Option, none, some, List, [], ◌∷◌, Bytes, codes, ◌==◌, if◌then◌else◌,
}
use nxweb.Misc.{trunc_space}
use nxweb.Escape.{url_decode}
use nxweb.SimpleMap.{Entry, simple_map_add, same_nocase}
use nxweb.Request.{split_at}
use nxweb.Request.Parse.{drop_first}

-- The texts between the separators: `next = strchr(name, sep)`, over and over.
abbrev pub onto_first : ℕ → List Bytes → List Bytes
onto_first c [] = (c ∷ []) ∷ []
onto_first c (s ∷ ss) = (c ∷ s) ∷ ss

unfoldable pub split_parts : ℕ → Bytes → List Bytes
split_parts sep [] = [] ∷ []
split_parts sep (c ∷ s) =
    let rest = split_parts sep s in if c == sep then [] ∷ rest else onto_first c rest

-- The string that stands where bytes were written: a NUL among them ends it.
unfoldable pub up_to_nul : Bytes → Bytes
up_to_nul [] = []
up_to_nul (c ∷ s) = if c == 0 then [] else c ∷ up_to_nul s

-- `nxweb_url_decode(s, 0)`: what the string is then.
abbrev pub decoded : Bytes → Bytes
decoded s = up_to_nul (url_decode s)

-- `value = strchr(name, '=')`, with the name in front of it.
unfoldable pub name_value : Bytes → Bytes × Option Bytes
unfolding split_at
name_value text = elim (split_at b'=' text) [
  | none ↦ (text, none)
  | some (name, rest) ↦ (name, some (drop_first rest))
]

abbrev pub or_empty : Option Bytes → Bytes
or_empty none = []
or_empty (some s) = s

-- One round of the loop over the parameters.
unfoldable pub add_named : List Entry → Bytes × Option Bytes → List Entry
unfolding url_decode up_to_nul trunc_space
add_named map ([], value) = map
add_named map (c ∷ name, value) =
    simple_map_add map
      (record { name = trunc_space (decoded (c ∷ name)); value = decoded (or_empty value) })

unfoldable pub add_parameters : List Entry → List Bytes → List Entry
unfolding name_value add_named
add_parameters map [] = map
add_parameters map (text ∷ texts) = add_parameters (add_named map (name_value text)) texts

-- The fields of the request that the parameters are read from and stored in. The empty map is the
-- null pointer.
pub record Fields : Type 0 where
  pub uri : Bytes
  pub content : Option Bytes
  pub content_type : Option Bytes
  pub parameters : List Entry

unfoldable pub query_parameters : List Entry → Option (Bytes × Bytes) → List Entry
unfolding split_parts add_parameters
query_parameters map none = map
query_parameters map (some (path, rest)) = add_parameters map (split_parts b'&' (drop_first rest))

-- Whether the content is a form.
unfoldable pub form_content : Option Bytes → Option Bytes → Option Bytes
unfolding same_nocase
form_content (some content) (some kind) =
    if same_nocase kind (codes "application/x-www-form-urlencoded") then some content else none
form_content _ _ = none

-- The path that is left of the URI, unless it is to be kept.
unfoldable pub cut_uri : Bool → Bytes → Option (Bytes × Bytes) → Bytes
cut_uri preserve_uri uri none = uri
cut_uri preserve_uri uri (some (path, rest)) = if preserve_uri then uri else path

-- The content of a form is used up.
unfoldable pub with_content : Fields → Bytes → List Entry → Option Bytes → Fields
unfolding split_parts add_parameters
with_content f uri map none = record f { uri = uri; parameters = map }
with_content f uri map (some content) = record f {
  uri = uri;
  content = none;
  parameters = add_parameters map (split_parts b'&' content);
}

-- What follows once `strchr` has looked for the question mark.
unfoldable pub parse_query : Fields → Bool → Option (Bytes × Bytes) → Fields
unfolding cut_uri query_parameters form_content with_content
parse_query f preserve_uri query =
    with_content f (cut_uri preserve_uri f.uri query) (query_parameters [] query)
      (form_content f.content f.content_type)

-- `nxweb_parse_request_parameters`
unfoldable pub parse_request_parameters : Fields → Bool → Fields
unfolding split_at parse_query
parse_request_parameters f preserve_uri = elim f.parameters [
  | e ∷ es ↦ f
  | [] ↦ parse_query f preserve_uri (split_at b'?' f.uri)
]

-- A cookie without a `=` has no value.
pub record Cookie : Type 0 where
  pub name : Bytes
  pub value : Option Bytes

abbrev pub decoded_option : Option Bytes → Option Bytes
decoded_option none = none
decoded_option (some s) = some (decoded s)

-- One round of the loop over the cookies.
unfoldable pub add_cookie : List Cookie → Bytes × Option Bytes → List Cookie
unfolding url_decode up_to_nul trunc_space
add_cookie map ([], value) = map
add_cookie map (c ∷ name, value) =
    record { name = trunc_space (decoded (c ∷ name)); value = decoded_option value } ∷ map

unfoldable pub add_cookies : List Cookie → List Bytes → List Cookie
unfolding name_value add_cookie
add_cookies map [] = map
add_cookies map (text ∷ texts) = add_cookies (add_cookie map (name_value text)) texts

-- `nxweb_parse_request_cookies`: the header's value that is left, and the map.
unfoldable pub parse_request_cookies : Option Bytes → List Cookie → Option Bytes × List Cookie
unfolding split_parts add_cookies
parse_request_cookies cookie (c ∷ cookies) = (cookie, c ∷ cookies)
parse_request_cookies none [] = (none, [])
parse_request_cookies (some text) [] = (none, add_cookies [] (split_parts b';' text))

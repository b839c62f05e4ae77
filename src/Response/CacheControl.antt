-- ===== src/Response/CacheControl.antt =====
-- The directives of Cache-Control and the headers that are added to a response,
-- src/lib/http_utils.c. `timegm` is the C library's.
use nxweb.Base.{
  ℕ, ◌-◌, ◌^◌, Bool, true, false, Option, none, some, List, [], ◌∷◌, Bytes, codes, ◌==◌,
  if◌then◌else◌, length,
}
use nxweb.Misc.{trunc_space}
use nxweb.SimpleMap.{simple_map_add, same_nocase}
use nxweb.HttpTime.{Tm, strtol}
use nxweb.Headers.{
  HeaderName, http_date, http_etag, http_expires, http_connection, http_keep_alive,
  http_content_type, http_last_modified, http_cache_control, http_content_length,
  http_transfer_encoding, http_x_nxweb_ssi, http_x_nxweb_templates, identify_http_header,
}
use nxweb.Request.{skip_blanks, split_at}
use nxweb.Request.Parse.{drop_first, http_time}
use nxweb.Response.{Response}

-- The fields that the directives set, and whether one was not recognised.
pub record Directives : Type 0 where
  pub no_cache : Bool
  pub cache_private : Bool
  pub max_age : ℕ
  pub dirty : Bool

-- The texts between the commas: `p = strchr(p1, ',')`, over and over.
unfoldable pub add_to_first : ℕ → List Bytes → List Bytes
add_to_first c [] = (c ∷ []) ∷ []
add_to_first c (s ∷ ss) = (c ∷ s) ∷ ss

unfoldable pub split_commas : Bytes → List Bytes
unfolding add_to_first
split_commas [] = [] ∷ []
split_commas (c ∷ s) =
    let rest = split_commas s in if c == b',' then [] ∷ rest else add_to_first c rest

-- The seconds that a max-age gives; zero is stored as minus one.
unfoldable pub max_age_of : Bytes → ℕ
unfolding strtol
max_age_of (c ∷ []) = if c == b'0' then 2 ^ 64 - 1 else (strtol (c ∷ [])).0
max_age_of value = (strtol value).0

-- `else if (max-age && cc_value) ... else dirty = 1`
unfoldable pub max_age_given : Directives → Option Bytes → Directives
unfolding max_age_of
max_age_given d none = record d { dirty = true }
max_age_given d (some value) = record d { max_age = max_age_of value }

-- One directive, with what stands behind its `=`.
unfoldable pub set_directive : Directives → Bytes → Option Bytes → Directives
unfolding same_nocase max_age_given
set_directive d name value =
    if same_nocase name (codes "no-cache")
    then record d { no_cache = true }
    else if same_nocase name (codes "private")
    then record d { cache_private = true }
    else if same_nocase name (codes "max-age")
    then max_age_given d value
    else record d { dirty = true }

-- The text from a comma to the next one.
unfoldable pub read_directive : Directives → Bytes → Directives
unfolding skip_blanks split_at trunc_space set_directive
read_directive d text =
    let s = skip_blanks text in
    elim (split_at b'=' s) [
      | none ↦ set_directive d s none
      | some (name, rest) ↦ set_directive d name (some (trunc_space (drop_first rest)))
    ]

unfoldable pub read_directives : Directives → List Bytes → Directives
unfolding read_directive
read_directives d [] = d
read_directives d (s ∷ ss) = read_directives (read_directive d s) ss

abbrev pub directives_of : Response → Directives
directives_of r = record {
  no_cache = r.no_cache;
  cache_private = r.cache_private;
  max_age = r.max_age;
  dirty = false;
}

abbrev pub with_directives : Response → Directives → Response
with_directives r d = record r {
  no_cache = d.no_cache;
  cache_private = d.cache_private;
  max_age = d.max_age;
}

-- The case of Cache-Control: a value with a directive that was not recognised is kept as it is.
unfoldable pub add_cache_control : Response → Bytes → Response
unfolding split_commas read_directives
add_cache_control r [] = r
add_cache_control r (c ∷ s) =
    let d = read_directives (directives_of r) (split_commas (c ∷ s)) in
    let r' = with_directives r d in
    if d.dirty then record r' { cache_control = some (c ∷ s) } else r'

module _ (timegm : Tm → ℕ) where
  -- `nxweb_add_response_header_safe`, by the identified name
  unfoldable pub add_identified : Response → Bytes → Bytes → HeaderName → Response
  unfolding same_nocase http_time add_cache_control
  add_identified r name value http_content_type = record r { content_type = some value }
  add_identified r name value http_content_length = r
  add_identified r name value http_transfer_encoding = r
  add_identified r name value http_connection = r
  add_identified r name value http_keep_alive = r
  add_identified r name value http_x_nxweb_ssi = record r {
    ssi_on = same_nocase value (codes "ON");
  }
  add_identified r name value http_x_nxweb_templates = record r {
    templates_on = same_nocase value (codes "ON");
  }
  add_identified r name value http_date = r
  add_identified r name value http_last_modified = record r {
    last_modified = http_time timegm value;
  }
  add_identified r name value http_expires = record r { expires = http_time timegm value }
  add_identified r name value http_cache_control = add_cache_control r value
  add_identified r name value http_etag = record r { etag = some value }
  add_identified r name value _ = record r {
    headers = simple_map_add r.headers (record { name = name; value = value });
  }

  unfoldable pub add_response_header_safe : Response → Bytes → Bytes → Response
  unfolding add_identified identify_http_header
  add_response_header_safe r name value =
      add_identified r name value (identify_http_header name (length name))

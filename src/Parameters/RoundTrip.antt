-- ===== src/Parameters/RoundTrip.antt =====
-- Parameters and cookies that were written with escapes, as src/lib/http_utils.c reads them.
use nxweb.Base.{
  ℕ, ◌≡◌, ◌≢◌, refl, ap, ◌∙◌, Bool, true, ◌||◌, none, some, Option, List, [], ◌∷◌, ◌++◌, Bytes,
  codes, All, All_imp, All-append, IsText, arith, ◌==◌, if◌then◌else◌,
}
use nxweb.Misc.{trunc_space}
use nxweb.Misc.Trim.{StartsInk, EndsInk, trunc_space_same}
use nxweb.SimpleMap.{Entry, same_nocase}
use nxweb.Escape.{escape_url}
use nxweb.Escape.Table.{is_unreserved}
use nxweb.Escape.Url.{url_decode-escape_url, escape_url-IsUnreserved}
use nxweb.Request.{split_at}
use nxweb.Parameters.{
  split_parts, up_to_nul, decoded, or_empty, name_value, add_named, add_parameters, Fields,
  query_parameters, form_content, cut_uri, with_content, parse_query, parse_request_parameters,
}

up_to_nul_text : (s : Bytes) → IsText s → up_to_nul s ≡ s
unfolding up_to_nul
up_to_nul_text [] h = refl
up_to_nul_text (c ∷ s) ((a, _), h) = let r = up_to_nul_text s h in ground (arith, a, r)

decoded-escape_url : (s : Bytes) → IsText s → decoded (escape_url s) ≡ s
decoded-escape_url s h = ap up_to_nul (url_decode-escape_url s h) ∙ up_to_nul_text s h

module _ (sep : ℕ) where
  split_parts-append :
      (s t : Bytes) → All (λ c. c ≢ sep) s → split_parts sep (s ++ sep ∷ t) ≡ s ∷ split_parts sep t
  unfolding split_parts
  split_parts-append [] t h = ground arith
  split_parts-append (c ∷ s) t (a, h) = let r = split_parts-append s t h in ground (arith, r, a)

  split_parts_alone : (s : Bytes) → All (λ c. c ≢ sep) s → split_parts sep s ≡ s ∷ []
  unfolding split_parts
  split_parts_alone [] h = refl
  split_parts_alone (c ∷ s) (a, h) = let r = split_parts_alone s h in ground (arith, r, a)

split_at-name :
    (s t : Bytes) → All (λ c. c ≢ b'=') s → split_at b'=' (s ++ b'=' ∷ t) ≡ some (s, b'=' ∷ t)
unfolding split_at
split_at-name [] t h = refl
split_at-name (c ∷ s) t (a, h) = let r = split_at-name s t h in ground (arith, r, a)

-- A parameter as it is written.
abbrev pub pair_text : Entry → Bytes
pair_text e = escape_url e.name ++ b'=' ∷ escape_url e.value

-- The parameters as a query.
abbrev pub query_text : List Entry → Bytes
query_text [] = []
query_text (e ∷ []) = pair_text e
query_text (e ∷ f ∷ es) = pair_text e ++ b'&' ∷ query_text (f ∷ es)

-- A name that is not empty and has no blank at an end, and texts without NUL.
pub record IsPair (e : Entry) : Type 0 where
  pub name : IsText e.name
  pub value : IsText e.value
  pub not_empty : e.name ≢ []
  pub starts : StartsInk e.name
  pub ends : EndsInk e.name

unreserved_apart : (c : ℕ) → (is_unreserved c || c == b'%') ≡ true → (c ≢ b'&') × (c ≢ b'=')
unreserved_apart c h = ((λ e. ground (arith, h, e)), λ e. ground (arith, h, e))

escape_url_apart : (s : Bytes) → IsText s → All (λ c. (c ≢ b'&') × (c ≢ b'=')) (escape_url s)
escape_url_apart s h = All_imp unreserved_apart (escape_url s) (escape_url-IsUnreserved s h)

pair_text_whole : (e : Entry) → IsPair e → All (λ c. c ≢ b'&') (pair_text e)
pair_text_whole e h =
    All-append _ (escape_url e.name) (b'=' ∷ escape_url e.value)
      (All_imp (λ c p. p.0) _ (escape_url_apart e.name h.name))
      ((λ q. omega (arith, q)), All_imp (λ c p. p.0) _ (escape_url_apart e.value h.value))

escape_url_filled : (s : Bytes) → s ≢ [] → escape_url s ≢ []
unfolding escape_url
escape_url_filled [] h = absurd (h refl)
escape_url_filled (c ∷ s) h = λ e. ground (arith, e)

add_filled :
    (map : List Entry) (name : Bytes) (value : Option Bytes)
    → name ≢ []
    → add_named map (name, value)
      ≡ record { name = trunc_space (decoded name); value = decoded (or_empty value) } ∷ map
unfolding add_named
add_filled map [] value h = absurd (h refl)
add_filled map (c ∷ name) value h = refl

add_pair :
    (map : List Entry) (e : Entry) → IsPair e → add_named map (name_value (pair_text e)) ≡ e ∷ map
unfolding name_value
add_pair map e h =
    let n = escape_url e.name in
    let a =
      split_at-name n (escape_url e.value)
        (All_imp (λ c p. p.1) n (escape_url_apart e.name h.name)) in
    let d = decoded-escape_url e.name h.name in
    let v = decoded-escape_url e.value h.value in
    rw (name_value, a)
      (add_filled map n (some (escape_url e.value)) (escape_url_filled e.name h.not_empty)
        ∙ rw (d, v, trunc_space_same e.name h.starts h.ends) refl)

-- The map after the entries were added one by one.
abbrev pub added : List Entry → List Entry → List Entry
added map [] = map
added map (e ∷ es) = added (e ∷ map) es

nothing_added : (map : List Entry) → add_parameters map (split_parts b'&' []) ≡ map
unfolding split_parts add_parameters add_named name_value split_at
nothing_added map = refl

query_added :
    (map : List Entry) (es : List Entry)
    → All IsPair es
    → add_parameters map (split_parts b'&' (query_text es)) ≡ added map es
unfolding add_parameters
query_added map [] h = nothing_added map
query_added map (e ∷ []) (h, _) =
    rw (split_parts_alone b'&' (pair_text e) (pair_text_whole e h)) (add_pair map e h)
query_added map (e ∷ f ∷ es) (h, hs) =
    ap (add_parameters map)
      (split_parts-append b'&' (pair_text e) (query_text (f ∷ es)) (pair_text_whole e h))
    ∙ ap (λ m. add_parameters m (split_parts b'&' (query_text (f ∷ es)))) (add_pair map e h)
    ∙ query_added (e ∷ map) (f ∷ es) hs

split_at_query :
    (path s : Bytes)
    → All (λ c. c ≢ b'?') path
    → split_at b'?' (path ++ b'?' ∷ s) ≡ some (path, b'?' ∷ s)
unfolding split_at
split_at_query [] s h = refl
split_at_query (c ∷ path) s (a, h) = let r = split_at_query path s h in ground (arith, r, a)

form_again :
    (kind content : Bytes)
    → same_nocase kind (codes "application/x-www-form-urlencoded") ≡ true
    → form_content (some content) (some kind) ≡ some content
unfolding form_content
form_again kind content h = rw h refl

-- The parameters that are written, with escapes, behind the path of a URI and in the content of a
-- form are read as just these, the last one of the form first, whatever case the type of the content
-- is written in; their names are not empty and have no blank at an end, and no text of them holds a
-- NUL. The path is cut in front of the question mark unless the URI is to be kept, and the content
-- is used up.
pub parse_request_parameters-query_text :
    (path kind : Bytes) (es fs : List Entry) (preserve_uri : Bool)
    → All (λ c. c ≢ b'?') path
    → same_nocase kind (codes "application/x-www-form-urlencoded") ≡ true
    → All IsPair es
    → All IsPair fs
    → parse_request_parameters
        (record {
          uri = path ++ b'?' ∷ query_text es;
          content = some (query_text fs);
          content_type = some kind;
          parameters = [];
        })
        preserve_uri
      ≡ record {
        uri = if preserve_uri then path ++ b'?' ∷ query_text es else path;
        content = none;
        content_type = some kind;
        parameters = added (added [] es) fs;
      }
unfolding parse_request_parameters parse_query query_parameters cut_uri with_content
parse_request_parameters-query_text path kind es fs preserve_uri hp hk he hf =
    let f : Fields = record {
      uri = path ++ b'?' ∷ query_text es;
      content = some (query_text fs);
      content_type = some kind;
      parameters = [];
    } in
    let uri = if preserve_uri then path ++ b'?' ∷ query_text es else path in
    let s = split_at_query path (query_text es) hp in
    ap (parse_query f preserve_uri) s
    ∙ ap (λ o. with_content f uri (add_parameters [] (split_parts b'&' (query_text es))) o)
        (form_again kind (query_text fs) hk)
    ∙ ap (λ m. with_content f uri m (some (query_text fs))) (query_added [] es he)
    ∙ ap (λ m. record f { uri = uri; content = none; parameters = m })
        (query_added (added [] es) fs hf)

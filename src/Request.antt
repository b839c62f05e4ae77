-- ===== src/Request.antt =====
-- The request that `_nxweb_parse_http_request` of src/lib/http_utils.c reads, and its parts.
-- A pointer into the buffer is the C string that stands there. Where the code goes on writing
-- behind a value, at a continued header line, `Place` says which pointers see it.
pub mod SplitAt
pub mod FirstLine
pub mod Parse
pub mod HeaderLines
pub mod Rendered
pub mod Fields
pub mod Read
pub mod Invariant
pub mod Refused
pub mod EndOfHeaders
mod Tests
use nxweb.Base.{
  ◌≡◌, refl, ℕ, zero, suc, ◌+◌, ◌-◌, ◌^◌, Bool, true, false, not, ◌&&◌, ◌||◌, Option, none, some,
  List, [], ◌∷◌, ◌++◌, Bytes, codes, leb, ltb, ◌==◌, if◌then◌else◌, length,
}
use nxweb.Misc.{trunc_space}
use nxweb.SimpleMap.{nx_strtolower, same_nocase, Entry, simple_map_add}
use nxweb.HttpTime.{Tm, parse_http_time, strtol}
use nxweb.Headers.{
  HeaderName, http_host, http_expect, http_cookie, http_user_agent, http_content_type,
  http_content_length, http_accept_encoding, http_transfer_encoding, http_if_modified_since,
  http_connection, http_range, http_trailer, identify_http_header,
}

-- What parsing reports: -1 and -2.
pub data Failure : Type 0 where
  bad_request not_implemented : Failure

pub data Parsed {ℓ} (A : Type ℓ) : Type ℓ where
  ok : A → Parsed A
  fail : Failure → Parsed A

infixl 1 ◌>>=◌
abbrev pub ◌>>=◌ {ℓ κ} : {A : Type ℓ} {B : Type κ} → Parsed A → (A → Parsed B) → Parsed B
ok a >>= k = k a
fail e >>= k = fail e

pub bind_ext {ℓ κ} :
    {A : Type ℓ} {B : Type κ} (r : Parsed A) (f g : A → Parsed B)
    → ((a : A) → f a ≡ g a)
    → (r >>= f) ≡ (r >>= g)
bind_ext (ok a) f g h = h a
bind_ext (fail e) f g h = refl

pub bind_ok {ℓ κ} :
    {A : Type ℓ} {B : Type κ} (r : Parsed A) (f : A → Parsed B) {b : B}
    → (r >>= f) ≡ ok b
    → (a : A) × (r ≡ ok a) × (f a ≡ ok b)
bind_ok (ok a) f h = (a, refl, h)
bind_ok (fail e) f h = cc

pub ok_inj {ℓ} : {A : Type ℓ} {a b : A} → ok a ≡ ok b → a ≡ b
ok_inj h = cc

-- The fields of `nxweb_http_request` that parsing sets; `none` is the null pointer, a length or a
-- time the 64-bit pattern.
pub record Request : Type 0 where
  pub method : Bytes
  pub uri : Bytes
  pub http_version : Bytes
  pub host : Option Bytes
  pub cookie : Option Bytes
  pub user_agent : Option Bytes
  pub content_type : Option Bytes
  pub transfer_encoding : Option Bytes
  pub accept_encoding : Option Bytes
  pub range : Option Bytes
  pub content_length : ℕ
  pub if_modified_since : ℕ
  pub headers : List Entry
  pub http11 : Bool
  pub keep_alive : Bool
  pub accept_gzip_encoding : Bool
  pub chunked_encoding : Bool
  pub expect_100_continue : Bool
  pub head_method : Bool
  pub get_method : Bool
  pub post_method : Bool
  pub other_method : Bool

abbrev pub space : ℕ
space = 32

-- `strchr(s, '\n')`: the text in front of the line feed and the text behind it; a NUL ends the
-- search.
unfoldable pub find_newline : Bytes → Option (Bytes × Bytes)
find_newline [] = none
find_newline (c ∷ s) =
    let rest = find_newline s in
    if c == 0
    then none
    else if c == b'\n'
    then some ([], s)
    else elim rest [ none ↦ none | some (l, t) ↦ some (c ∷ l, t) ]

-- The first line, up to `pl`, and the header lines behind it.
unfoldable pub first_line : Bytes → Bytes × Bytes
unfolding find_newline
first_line text = elim (find_newline text) [ none ↦ (text, []) | some (l, t) ↦ (l, t) ]

-- `while (*p > SPACE) p++`: what is passed, and the line from there.
unfoldable pub token : Bytes → Bytes × Bytes
token [] = ([], [])
token (c ∷ s) = let (t, r) = token s in if ltb space c then (c ∷ t, r) else ([], c ∷ s)

-- `while (*p <= SPACE && p < pl) p++`
unfoldable pub skip_blanks : Bytes → Bytes
skip_blanks [] = []
skip_blanks (c ∷ s) = if leb c space then skip_blanks s else c ∷ s

-- `*p++ = '\0'`, the blanks, and `if (p >= pl) return -1`
unfoldable pub next_token : Bytes → Parsed Bytes
unfolding skip_blanks
next_token [] = fail bad_request
next_token (c ∷ s) = elim (skip_blanks s) [ [] ↦ fail bad_request | d ∷ t ↦ ok (d ∷ t) ]

-- The method, the URI and the version.
unfoldable pub request_line : Bytes → Parsed (Bytes × Bytes × Bytes)
unfolding token next_token
request_line line = do
  let (method, r) = token line
  p ← next_token r
  let (uri, r) = token p
  p ← next_token r
  let (version, r) = token p
  ok (method, uri, version)

-- `strncmp(s, prefix, strlen(prefix)) == 0`: what stands behind the prefix.
unfoldable pub strip_prefix : Bytes → Bytes → Option Bytes
strip_prefix [] s = some s
strip_prefix (c ∷ prefix) [] = none
strip_prefix (c ∷ prefix) (x ∷ s) =
    let rest = strip_prefix prefix s in if x == c then rest else none

-- `strchr(s, c)`: the text in front of the character, and the text from it.
unfoldable pub split_at : ℕ → Bytes → Option (Bytes × Bytes)
split_at c [] = none
split_at c (x ∷ s) =
    let rest = split_at c s in
    if x == c then some ([], x ∷ s) else elim rest [ none ↦ none | some (l, t) ↦ some (x ∷ l, t) ]

-- The host of an absolute URI, in lower case, and the path.
unfoldable pub absolute_uri : Bytes → Parsed (Option Bytes × Bytes)
unfolding strip_prefix split_at nx_strtolower
absolute_uri uri = elim (strip_prefix (codes "http://") uri) [
  | none ↦ ok (none, uri)
  | some rest ↦ elim (split_at b'/' rest) [
    | none ↦ fail bad_request
    | some (host, path) ↦ ok (some (nx_strtolower host), path)
  ]
]

-- `if (*req->uri != '/') return -1`
unfoldable pub starts_slash : Bytes → Parsed Bytes
starts_slash [] = fail bad_request
starts_slash (c ∷ s) = if c == b'/' then ok (c ∷ s) else fail bad_request

-- The request as the first line leaves it.
unfoldable pub start_request : Bytes → Parsed Request
unfolding request_line absolute_uri starts_slash same_nocase
start_request line = do
  (method, uri, version) ← request_line line
  (host, path) ← absolute_uri uri
  uri ← starts_slash path
  let http11 = not (same_nocase version (codes "HTTP/1.0"))
  ok (record {
    method = method;
    uri = uri;
    http_version = version;
    host = host;
    cookie = none;
    user_agent = none;
    content_type = none;
    transfer_encoding = none;
    accept_encoding = none;
    range = none;
    content_length = 0;
    if_modified_since = 0;
    headers = [];
    http11 = http11;
    keep_alive = http11;
    accept_gzip_encoding = false;
    chunked_encoding = false;
    expect_100_continue = false;
    head_method = false;
    get_method = false;
    post_method = false;
    other_method = false;
  })

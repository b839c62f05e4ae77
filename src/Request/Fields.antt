-- ===== src/Request/Fields.antt =====
-- Which header each field of `nxweb_http_request` comes from, src/lib/http_utils.c.
use nxweb.Base.{
  inl, inr, Bool-cases, ==_iff, ℕ, ◌≡◌, refl, Bool, true, false, ◌||◌, some, List, [], ◌∷◌, Bytes,
  codes, All, ◌==◌, if◌then◌else◌, length, ◌∙◌, ap,
}
use nxweb.SimpleMap.{Entry, nx_strtolower, same_nocase}
use nxweb.HttpTime.{Tm, strtol}
use nxweb.Headers.{
  HeaderName, http_unknown, http_date, http_host, http_etag, http_range, http_cookie, http_expect,
  http_server, http_expires, http_trailer, http_connection, http_keep_alive, http_user_agent,
  http_content_type, http_last_modified, http_cache_control, http_accept_ranges,
  http_content_length, http_accept_encoding, http_if_modified_since, http_transfer_encoding,
  http_x_nxweb_ssi, http_x_nxweb_templates, identify_http_header,
}
use nxweb.Request.{ok}
use nxweb.Request.HeaderLines.{set_all, set_named}
use nxweb.Request.Parse.{Loop, set_header, stored, http_time}

-- The number of a name in `enum nxweb_http_header_name`.
abbrev pub header_number : HeaderName → ℕ
header_number http_unknown = 0
header_number http_date = 1
header_number http_host = 2
header_number http_etag = 3
header_number http_range = 4
header_number http_cookie = 5
header_number http_expect = 6
header_number http_server = 7
header_number http_expires = 8
header_number http_trailer = 9
header_number http_connection = 10
header_number http_keep_alive = 11
header_number http_user_agent = 12
header_number http_content_type = 13
header_number http_last_modified = 14
header_number http_cache_control = 15
header_number http_accept_ranges = 16
header_number http_content_length = 17
header_number http_accept_encoding = 18
header_number http_if_modified_since = 19
header_number http_transfer_encoding = 20
header_number http_x_nxweb_ssi = 21
header_number http_x_nxweb_templates = 22

abbrev pub is_same : HeaderName → HeaderName → Bool
is_same g h = header_number g == header_number h

abbrev pub header_of : Entry → HeaderName
header_of e = identify_http_header e.name (length e.name)

-- What the last header of that name gives; `d` where there is none.
unfoldable pub last_of {ℓ} : {A : Type ℓ} → (Bytes → A) → HeaderName → A → List Entry → A
last_of f h d [] = d
last_of f h d (e ∷ es) = last_of f h (if is_same (header_of e) h then f e.value else d) es

-- The headers that set a field of the request, or `expect`, or are refused, by their numbers.
abbrev field_number : ℕ → Bool
field_number n =
    n == header_number http_host
    || n == header_number http_expect
    || n == header_number http_cookie
    || n == header_number http_user_agent
    || n == header_number http_content_type
    || n == header_number http_content_length
    || n == header_number http_accept_encoding
    || n == header_number http_transfer_encoding
    || n == header_number http_if_modified_since
    || n == header_number http_connection
    || n == header_number http_range
    || n == header_number http_trailer

abbrev pub has_field : HeaderName → Bool
has_field h = field_number (header_number h)

pub not_field : (g h : HeaderName) → has_field h ≡ true → has_field g ≡ false → is_same g h ≡ false
not_field g h t f = elim (Bool-cases (is_same g h)) [
  | inr other ↦ other
  | inl same ↦
      let e = (==_iff (header_number g) (header_number h)).0 same in
      absurd (let q = rw e at f in cc)
]

-- The headers that no field of the request holds, in front of those that the map had.
unfoldable pub others : List Entry → List Entry → List Entry
others map [] = map
others map (e ∷ es) = others (if has_field (header_of e) then map else e ∷ map) es

module _ (timegm : Tm → ℕ) where
  -- Each field has the value of the last of its headers, or what it had before.
  pub record Collected (st : Loop) (es : List Entry) (st' : Loop) : Type 0 where
    pub host : st'.req.host ≡ last_of (λ v. some (nx_strtolower v)) http_host st.req.host es
    pub expect : st'.expect ≡ last_of some http_expect st.expect es
    pub cookie : st'.req.cookie ≡ last_of some http_cookie st.req.cookie es
    pub user_agent : st'.req.user_agent ≡ last_of some http_user_agent st.req.user_agent es
    pub content_type : st'.req.content_type ≡ last_of some http_content_type st.req.content_type es
    pub content_length :
        st'.req.content_length
        ≡ last_of (λ v. (strtol v).0) http_content_length st.req.content_length es
    pub accept_encoding :
        st'.req.accept_encoding ≡ last_of some http_accept_encoding st.req.accept_encoding es
    pub transfer_encoding :
        st'.req.transfer_encoding ≡ last_of some http_transfer_encoding st.req.transfer_encoding es
    pub if_modified_since :
        st'.req.if_modified_since
        ≡ last_of (http_time timegm) http_if_modified_since st.req.if_modified_since es
    pub keep_alive :
        st'.req.keep_alive
        ≡ last_of (λ v. same_nocase v (codes "keep-alive")) http_connection st.req.keep_alive es
    pub range : st'.req.range ≡ last_of some http_range st.req.range es
    pub headers : st'.req.headers ≡ others st.req.headers es
    pub method : st'.req.method ≡ st.req.method
    pub uri : st'.req.uri ≡ st.req.uri
    pub http_version : st'.req.http_version ≡ st.req.http_version

  -- One header sets its field and no other.
  record Sets (st : Loop) (name value : Bytes) (h : HeaderName) (st' : Loop) : Type 0 where
    host : st'.req.host ≡ (if is_same h http_host then some (nx_strtolower value) else st.req.host)
    expect : st'.expect ≡ (if is_same h http_expect then some value else st.expect)
    cookie : st'.req.cookie ≡ (if is_same h http_cookie then some value else st.req.cookie)
    user_agent :
        st'.req.user_agent ≡ (if is_same h http_user_agent then some value else st.req.user_agent)
    content_type :
        st'.req.content_type
        ≡ (if is_same h http_content_type then some value else st.req.content_type)
    content_length :
        st'.req.content_length
        ≡ (if is_same h http_content_length then (strtol value).0 else st.req.content_length)
    accept_encoding :
        st'.req.accept_encoding
        ≡ (if is_same h http_accept_encoding then some value else st.req.accept_encoding)
    transfer_encoding :
        st'.req.transfer_encoding
        ≡ (if is_same h http_transfer_encoding then some value else st.req.transfer_encoding)
    if_modified_since : st'.req.if_modified_since ≡ (
        if is_same h http_if_modified_since
        then http_time timegm value
        else st.req.if_modified_since)
    keep_alive : st'.req.keep_alive ≡ (
        if is_same h http_connection
        then same_nocase value (codes "keep-alive")
        else st.req.keep_alive)
    range : st'.req.range ≡ (if is_same h http_range then some value else st.req.range)
    headers : st'.req.headers ≡ (
        if has_field h
        then st.req.headers
        else (record { name = name; value = value }) ∷ st.req.headers)
    method : st'.req.method ≡ st.req.method
    uri : st'.req.uri ≡ st.req.uri
    http_version : st'.req.http_version ≡ st.req.http_version

  set_header-Sets :
      (st : Loop) (name value : Bytes) (h : HeaderName)
      → is_same h http_trailer ≡ false
      → (st' : Loop) × (set_header timegm st name value h ≡ ok st') × Sets st name value h st'
  unfolding set_header stored
  set_header-Sets st name value http_trailer e = cc
  set_header-Sets st name value _ e = (
    _,
    refl,
    record {
      host = refl;
      expect = refl;
      cookie = refl;
      user_agent = refl;
      content_type = refl;
      content_length = refl;
      accept_encoding = refl;
      transfer_encoding = refl;
      if_modified_since = refl;
      keep_alive = refl;
      range = refl;
      headers = refl;
      method = refl;
      uri = refl;
      http_version = refl;
    },
  )

  set_all_next :
      (st : Loop) (e : Entry) (es : List Entry) (st1 st2 : Loop)
      → Sets st e.name e.value (header_of e) st1
      → Collected st1 es st2
      → Collected st (e ∷ es) st2
  unfolding last_of others
  set_all_next st e es st1 st2 s c = record {
    host = c.host ∙ ap (λ d. last_of (λ v. some (nx_strtolower v)) http_host d es) s.host;
    expect = c.expect ∙ ap (λ d. last_of some http_expect d es) s.expect;
    cookie = c.cookie ∙ ap (λ d. last_of some http_cookie d es) s.cookie;
    user_agent = c.user_agent ∙ ap (λ d. last_of some http_user_agent d es) s.user_agent;
    content_type = c.content_type ∙ ap (λ d. last_of some http_content_type d es) s.content_type;
    content_length =
        c.content_length
        ∙ ap (λ d. last_of (λ v. (strtol v).0) http_content_length d es) s.content_length;
    accept_encoding =
        c.accept_encoding ∙ ap (λ d. last_of some http_accept_encoding d es) s.accept_encoding;
    transfer_encoding =
        c.transfer_encoding
        ∙ ap (λ d. last_of some http_transfer_encoding d es) s.transfer_encoding;
    if_modified_since =
        c.if_modified_since
        ∙ ap (λ d. last_of (http_time timegm) http_if_modified_since d es) s.if_modified_since;
    keep_alive =
        c.keep_alive
        ∙ ap (λ d. last_of (λ v. same_nocase v (codes "keep-alive")) http_connection d es)
            s.keep_alive;
    range = c.range ∙ ap (λ d. last_of some http_range d es) s.range;
    headers = c.headers ∙ ap (λ m. others m es) s.headers;
    method = c.method ∙ s.method;
    uri = c.uri ∙ s.uri;
    http_version = c.http_version ∙ s.http_version;
  }

  -- A list of headers without a trailer is collected.
  pub set_all-Collected :
      (st : Loop) (es : List Entry)
      → All (λ e. is_same (header_of e) http_trailer ≡ false) es
      → (st' : Loop) × (set_all timegm st es ≡ ok st') × Collected st es st'
  unfolding set_all set_named last_of others
  set_all-Collected st [] h = (
    st,
    refl,
    record {
      host = refl;
      expect = refl;
      cookie = refl;
      user_agent = refl;
      content_type = refl;
      content_length = refl;
      accept_encoding = refl;
      transfer_encoding = refl;
      if_modified_since = refl;
      keep_alive = refl;
      range = refl;
      headers = refl;
      method = refl;
      uri = refl;
      http_version = refl;
    },
  )
  set_all-Collected st (e ∷ es) (h, hs) =
      let (st1, a, s) = set_header-Sets st e.name e.value (header_of e) h in
      let (st2, b, c) = set_all-Collected st1 es hs in
      (st2, rw a b, set_all_next st e es st1 st2 s c)

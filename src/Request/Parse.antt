-- ===== src/Request/Parse.antt =====
-- The header lines of a request and the end of `_nxweb_parse_http_request`, src/lib/http_utils.c.
-- `timegm` is the C library's.
use nxweb.Base.{
  ℕ, ◌-◌, ◌^◌, Bool, true, false, not, ◌&&◌, ◌||◌, Option, none, some, List, [], ◌∷◌, ◌++◌, Bytes,
  codes, leb, ◌==◌, if◌then◌else◌, length,
}
use nxweb.Misc.{trunc_space}
use nxweb.SimpleMap.{nx_strtolower, same_nocase, Entry, simple_map_add}
use nxweb.HttpTime.{Tm, parse_http_time, strtol}
use nxweb.Headers.{
  HeaderName, http_host, http_expect, http_cookie, http_user_agent, http_content_type,
  http_content_length, http_accept_encoding, http_transfer_encoding, http_if_modified_since,
  http_connection, http_range, http_trailer, identify_http_header,
}
use nxweb.Request.{
  bad_request, not_implemented, Parsed, ok, fail, ◌>>=◌, Request, space, split_at, strip_prefix,
  first_line, start_request,
}

-- The lines that `strchr` cuts off one after the other; nothing behind a NUL is looked at.
unfoldable pub add_first : ℕ → List Bytes → List Bytes
add_first c [] = (c ∷ []) ∷ []
add_first c (l ∷ ls) = (c ∷ l) ∷ ls

unfoldable pub split_lines : Bytes → List Bytes
unfolding add_first
split_lines [] = []
split_lines (c ∷ s) =
    let rest = split_lines s in
    if c == 0 then [] ∷ [] else if c == b'\n' then [] ∷ rest else add_first c rest

-- Where `value` points: nowhere, or to the value of the last header line, which a field of the
-- request or `expect` may hold, or the newest entry of the map.
pub data Place : Type 0 where
  nowhere in_map : Place
  in_field : HeaderName → Place

-- The locals of the loop: the request with its new map, `expect`, and `value`.
pub record Loop : Type 0 where
  pub req : Request
  pub expect : Option Bytes
  pub value : Place

unfoldable pub extend : Bytes → Option Bytes → Option Bytes
extend name none = none
extend name (some v) = some (v ++ name)

unfoldable pub extend_newest : Bytes → List Entry → List Entry
extend_newest name [] = []
extend_newest name (e ∷ map) = record e { value = e.value ++ name } ∷ map

-- `memmove(value + strlen(value), name, strlen(name) + 1)`
unfoldable pub continue_header : Loop → Bytes → Place → Loop
unfolding extend extend_newest
continue_header st name nowhere = st
continue_header st name in_map = record st {
  req = record st.req { headers = extend_newest name st.req.headers };
}
continue_header st name (in_field http_host) = record st {
  req = record st.req { host = extend name st.req.host };
}
continue_header st name (in_field http_expect) = record st { expect = extend name st.expect }
continue_header st name (in_field http_cookie) = record st {
  req = record st.req { cookie = extend name st.req.cookie };
}
continue_header st name (in_field http_user_agent) = record st {
  req = record st.req { user_agent = extend name st.req.user_agent };
}
continue_header st name (in_field http_content_type) = record st {
  req = record st.req { content_type = extend name st.req.content_type };
}
continue_header st name (in_field http_accept_encoding) = record st {
  req = record st.req { accept_encoding = extend name st.req.accept_encoding };
}
continue_header st name (in_field http_transfer_encoding) = record st {
  req = record st.req { transfer_encoding = extend name st.req.transfer_encoding };
}
continue_header st name (in_field http_range) = record st {
  req = record st.req { range = extend name st.req.range };
}
continue_header st name (in_field _) = st

abbrev pub drop_first : Bytes → Bytes
drop_first [] = []
drop_first (c ∷ s) = s

-- The value of a header as it is stored in a field.
unfoldable pub stored : Loop → HeaderName → Request → Parsed Loop
stored st header req = ok (record { req = req; expect = st.expect; value = in_field header })

module _ (timegm : Tm → ℕ) where
  -- `nxweb_parse_http_time`, zero where it fails
  unfoldable pub http_time : Bytes → ℕ
  unfolding parse_http_time
  http_time value = elim (parse_http_time (λ tm. some (timegm tm)) value) [ none ↦ 0 | some t ↦ t ]

  -- The switch on the identified header.
  unfoldable pub set_header : Loop → Bytes → Bytes → HeaderName → Parsed Loop
  unfolding stored nx_strtolower same_nocase strtol http_time
  set_header st name value http_host =
      stored st http_host (record st.req { host = some (nx_strtolower value) })
  set_header st name value http_expect =
      ok (record st { expect = some value; value = in_field http_expect })
  set_header st name value http_cookie =
      stored st http_cookie (record st.req { cookie = some value })
  set_header st name value http_user_agent =
      stored st http_user_agent (record st.req { user_agent = some value })
  set_header st name value http_content_type =
      stored st http_content_type (record st.req { content_type = some value })
  set_header st name value http_content_length =
      stored st http_content_length (record st.req { content_length = (strtol value).0 })
  set_header st name value http_accept_encoding =
      stored st http_accept_encoding (record st.req { accept_encoding = some value })
  set_header st name value http_transfer_encoding =
      stored st http_transfer_encoding (record st.req { transfer_encoding = some value })
  set_header st name value http_if_modified_since =
      stored st http_if_modified_since (record st.req { if_modified_since = http_time value })
  set_header st name value http_connection =
      stored st http_connection
        (record st.req { keep_alive = same_nocase value (codes "keep-alive") })
  set_header st name value http_range = stored st http_range (record st.req { range = some value })
  set_header st name value http_trailer = fail not_implemented
  set_header st name value _ = ok (record {
    req = record st.req {
      headers = simple_map_add st.req.headers (record { name = name; value = value });
    };
    expect = st.expect;
    value = in_map;
  })

  -- What `strchr(name, ':')` finds: a line with a colon is a header, any other is passed over.
  unfoldable pub found_header : Loop → Option (Bytes × Bytes) → Parsed Loop
  unfolding trunc_space identify_http_header set_header
  found_header st none = ok (record st { value = nowhere })
  found_header st (some (name, rest)) =
      set_header st name (trunc_space (drop_first rest)) (identify_http_header name (length name))

  unfoldable pub named_header : Loop → Bytes → Parsed Loop
  unfolding split_at found_header
  named_header st line = found_header st (split_at b':' line)

  -- One round of the loop.
  unfoldable pub header_line : Loop → Bytes → Parsed Loop
  unfolding continue_header named_header
  header_line st [] = ok (record st { value = nowhere })
  header_line st (c ∷ s) =
      if leb c space then ok (continue_header st (c ∷ s) st.value) else named_header st (c ∷ s)

  unfoldable pub header_lines : Loop → List Bytes → Parsed Loop
  unfolding header_line
  header_lines st [] = ok st
  header_lines st (line ∷ lines) = do st ← header_line st line; header_lines st lines

-- `!req->host || !*req->host`
unfoldable pub has_host : Request → Bool
has_host req = elim req.host [ none ↦ false | some h ↦ not (length h == 0) ]

-- `(g == accept_encoding || g[-1] == ',' || g[-1] == ' ') && (!g[4] || g[4] == ',' || g[4] == ' ')`
-- behind `!strncmp(g, "gzip", 4)`
is_separator : ℕ → Bool
is_separator c = c == b',' || c == b' '

gzip_end : Bytes → Bool
unfolding is_separator
gzip_end [] = true
gzip_end (c ∷ s) = is_separator c

unfoldable pub gzip_here : Bool → Bytes → Bool
unfolding strip_prefix gzip_end
gzip_here before g =
    before && elim (strip_prefix (codes "gzip") g) [ none ↦ false | some t ↦ gzip_end t ]

-- The places that `strchr(g + 1, 'g')` finds behind the character `prev`.
unfoldable pub gzip_scan : ℕ → Bytes → Bool
unfolding gzip_here is_separator
gzip_scan prev [] = false
gzip_scan prev (c ∷ s) =
    let rest = gzip_scan c s in
    if c == b'g' && gzip_here (is_separator prev) (c ∷ s) then true else rest

-- The search of the accepted encodings. `beyond` is the string behind the NUL of an empty value,
-- where the search goes on.
unfoldable pub accepts_gzip : Bytes → Option Bytes → Bool
unfolding gzip_here gzip_scan
accepts_gzip beyond none = false
accepts_gzip beyond (some []) = gzip_scan 0 beyond
accepts_gzip beyond (some (c ∷ s)) = gzip_here true (c ∷ s) || gzip_scan c s

-- A string that is not null, without case.
unfoldable pub is_word : Option Bytes → Bytes → Bool
unfolding same_nocase
is_word none word = false
is_word (some s) word = same_nocase s word

-- The fields that are set behind the loop.
unfoldable pub finished : Bytes → Loop → Request
unfolding accepts_gzip is_word same_nocase
finished beyond st =
    let req = st.req in
    let chunked = is_word req.transfer_encoding (codes "chunked") in
    let content_length = if chunked then 2 ^ 64 - 1 else req.content_length in
    let head = same_nocase req.method (codes "HEAD") in
    let method = if head then codes "GET" else req.method in
    let get = head || same_nocase method (codes "GET") in
    let post = not head && same_nocase method (codes "POST") in
    record req {
      accept_gzip_encoding = accepts_gzip beyond req.accept_encoding;
      chunked_encoding = chunked;
      content_length = content_length;
      expect_100_continue = not (content_length == 0) && is_word st.expect (codes "100-continue");
      head_method = head;
      method = method;
      get_method = get;
      post_method = post;
      other_method = not get && not post;
    }

-- What follows the loop: the host is required.
unfoldable pub finish_request : Bytes → Loop → Parsed Request
unfolding has_host finished
finish_request beyond st = if has_host st.req then ok (finished beyond st) else fail bad_request

-- `_nxweb_parse_http_request` on the text in front of the end of the headers.
unfoldable pub parse_http_request : (Tm → ℕ) → Bytes → Bytes → Parsed Request
unfolding first_line start_request split_lines header_lines finish_request
parse_http_request timegm beyond text = do
  let (line, rest) = first_line text
  req ← start_request line
  st ← header_lines timegm (record { req = req; expect = none; value = nowhere }) (split_lines rest)
  finish_request beyond st

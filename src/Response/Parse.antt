-- ===== src/Response/Parse.antt =====
-- `_nxweb_parse_http_response` of src/lib/http_utils.c. The lines are cut as those of a request are.
use nxweb.Base.{
  ℕ, ◌-◌, ◌^◌, Bool, true, not, ◌&&◌, Option, none, some, List, [], ◌∷◌, Bytes, codes, leb, ◌==◌,
  if◌then◌else◌, length,
}
use nxweb.Misc.{trunc_space}
use nxweb.SimpleMap.{Entry, simple_map_add, same_nocase}
use nxweb.HttpTime.{Tm, strtol, to_int}
use nxweb.Headers.{
  HeaderName, http_date, http_etag, http_expires, http_connection, http_keep_alive,
  http_content_type, http_last_modified, http_cache_control, http_content_length,
  http_transfer_encoding, http_x_nxweb_ssi, http_x_nxweb_templates, identify_http_header,
}
use nxweb.Request.{Parsed, ok, ◌>>=◌, space, split_at, token, next_token, first_line}
use nxweb.Request.Parse.{
  drop_first, Place, nowhere, in_map, in_field, extend, extend_newest, http_time, is_word,
  split_lines,
}
use nxweb.Response.{Response}
use nxweb.Response.CacheControl.{directives_of, with_directives, split_commas, read_directives}

-- `while (*p >= SPACE && p < pl) p++`: what is passed.
unfoldable pub status_text : Bytes → Bytes
status_text [] = []
status_text (c ∷ s) = let rest = status_text s in if leb space c then c ∷ rest else []

-- The version, the number and the status.
unfoldable pub response_line : Bytes → Parsed (Bytes × Bytes × Bytes)
unfolding token next_token status_text
response_line line = do
  let (version, r) = token line
  p ← next_token r
  let (code, r) = token p
  p ← next_token r
  ok (version, code, status_text p)

-- The locals of the loop: the response with its new map, `transfer_encoding`, and `value`.
pub record Loop : Type 0 where
  pub resp : Response
  pub map : List Entry
  pub transfer_encoding : Option Bytes
  pub value : Place

-- A continued header is appended where the last value is held.
unfoldable pub continue_header : Loop → Bytes → Place → Loop
unfolding extend extend_newest
continue_header st name in_map = record st { map = extend_newest name st.map }
continue_header st name (in_field http_content_type) = record st {
  resp = record st.resp { content_type = extend name st.resp.content_type };
}
continue_header st name (in_field http_transfer_encoding) = record st {
  transfer_encoding = extend name st.transfer_encoding;
}
continue_header st name (in_field http_cache_control) = record st {
  resp = record st.resp { cache_control = extend name st.resp.cache_control };
}
continue_header st name (in_field http_etag) = record st {
  resp = record st.resp { etag = extend name st.resp.etag };
}
continue_header st name _ = st

abbrev stored : Loop → HeaderName → Response → Loop
stored st header resp = record st { resp = resp; value = in_field header }

module _ (timegm : Tm → ℕ) where
  -- The switch on the identified header.
  unfoldable pub set_header : Loop → Bytes → Bytes → HeaderName → Loop
  unfolding strtol same_nocase http_time
  set_header st name value http_content_type =
      stored st http_content_type (record st.resp { content_type = some value })
  set_header st name value http_content_length =
      stored st http_content_length (record st.resp { content_length = (strtol value).0 })
  set_header st name value http_transfer_encoding = record st {
    transfer_encoding = some value;
    value = in_field http_transfer_encoding;
  }
  set_header st name value http_connection =
      stored st http_connection
        (record st.resp { keep_alive = same_nocase value (codes "keep-alive") })
  set_header st name value http_keep_alive = record st { value = in_field http_keep_alive }
  set_header st name value http_x_nxweb_ssi =
      stored st http_x_nxweb_ssi (record st.resp { ssi_on = same_nocase value (codes "ON") })
  set_header st name value http_x_nxweb_templates =
      stored st http_x_nxweb_templates
        (record st.resp { templates_on = same_nocase value (codes "ON") })
  set_header st name value http_date =
      stored st http_date (record st.resp { date = http_time timegm value })
  set_header st name value http_last_modified =
      stored st http_last_modified (record st.resp { last_modified = http_time timegm value })
  set_header st name value http_expires =
      stored st http_expires (record st.resp { expires = http_time timegm value })
  set_header st name value http_cache_control =
      stored st http_cache_control (record st.resp { cache_control = some value })
  set_header st name value http_etag = stored st http_etag (record st.resp { etag = some value })
  set_header st name value _ = record st {
    map = simple_map_add st.map (record { name = name; value = value });
    value = in_map;
  }

  unfoldable pub found_header : Loop → Option (Bytes × Bytes) → Loop
  unfolding trunc_space identify_http_header set_header
  found_header st none = record st { value = nowhere }
  found_header st (some (name, rest)) =
      set_header st name (trunc_space (drop_first rest)) (identify_http_header name (length name))

  -- One round of the loop.
  unfoldable pub header_line : Loop → Bytes → Loop
  unfolding continue_header split_at found_header
  header_line st [] = record st { value = nowhere }
  header_line st (c ∷ s) =
      if leb c space
      then continue_header st (c ∷ s) st.value
      else found_header st (split_at b':' (c ∷ s))

  unfoldable pub header_lines : Loop → List Bytes → Loop
  unfolding header_line
  header_lines st [] = st
  header_lines st (line ∷ lines) = header_lines (header_line st line) lines

-- The directives of the value of Cache-Control, and the length of the content.
unfoldable pub read_cache_control : Response → Option Bytes → Response
unfolding split_commas read_directives
read_cache_control r none = r
read_cache_control r (some s) =
    with_directives r (read_directives (directives_of r) (split_commas s))

unfoldable pub set_length : Bool → Response → Response
set_length chunked r =
    if chunked
    then record r { chunked_encoding = true; content_length = 2 ^ 64 - 1 }
    else if r.keep_alive && r.content_length == 2 ^ 64 - 1
    then record r { content_length = 0 }
    else r

unfoldable pub finish_response : Loop → Response
unfolding read_cache_control is_word set_length
finish_response st =
    let resp = record st.resp { headers = st.map } in
    set_length (is_word st.transfer_encoding (codes "chunked"))
      (read_cache_control resp resp.cache_control)

-- `_nxweb_parse_http_response` on the text in front of the end of the headers.
unfoldable pub parse_http_response : (Tm → ℕ) → Response → Bytes → Parsed Response
unfolding first_line response_line same_nocase strtol split_lines header_lines finish_response
parse_http_response timegm resp text = do
  let (line, rest) = first_line text
  (version, code, status) ← response_line line
  let http11 = not (same_nocase version (codes "HTTP/1.0"))
  let resp = record resp {
    status = some status;
    keep_alive = http11;
    http11 = http11;
    content_length = 2 ^ 64 - 1;
    status_code = to_int (strtol code).0;
  }
  let st : Loop = record { resp = resp; map = []; transfer_encoding = none; value = nowhere }
  ok (finish_response (header_lines timegm st (split_lines rest)))

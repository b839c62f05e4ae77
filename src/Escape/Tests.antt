-- ===== src/Escape/Tests.antt =====
-- The escaping of src/lib/http_utils.c, run.
use nxweb.Base.{
  ◌≡◌, ◌<◌, refl, ℕ, ltb, true, false, Bool, codes, All, IsText, arith, some, [], ◌∷◌, Bytes,
  length, zero, suc, ◌≢◌, ◌&&◌, ◌||◌, ◌==◌,
}
use nxweb.Misc.{hex_digit}
use nxweb.Escape.{
  is_uri_char, char_map, encode_path_loop, hex_pair, escape_url, url_decode, encode_file_path,
  encode_file_path_room, is_file_path_char, print_html_escaped,
}
use nxweb.Escape.Table.{is_unreserved}
use nxweb.Escape.Url.{url_decode-escape_url, escape_url-IsUnreserved}
use nxweb.Escape.FilePath.Room.{encode_file_path_overrun}
use nxweb.Escape.FilePath.Segment.{has_dot_segment, has_dot_segment-encode_file_path}
use nxweb.Escape.Html.{IsInert, print_html_escaped-IsInert}

abbrev query : Bytes
query = codes "a b/c%"

is_text : Bytes → Bool
is_text [] = true
is_text (c ∷ s) = ltb 0 c && ltb c 256 && is_text s

is_text_sound : (s : Bytes) → is_text s ≡ true → IsText s
unfolding is_text
is_text_sound [] h = _
is_text_sound (c ∷ s) h = ((ground arith, ground arith), is_text_sound s (ground arith))

query-IsText : IsText query
unfolding is_text
query-IsText = is_text_sound query refl

times : ℕ → ℕ → Bytes
times zero c = []
times (suc n) c = c ∷ times n c

All-times : (P : ℕ → Type 0) (n c : ℕ) → P c → All P (times n c)
unfolding times
All-times P zero c h = _
All-times P (suc n) c h = (h, All-times P n c h)

length-times : (n c : ℕ) → length (times n c) ≡ n
unfolding times
length-times zero c = refl
length-times (suc n) c = omega (arith, length-times n c)

escape_url_run : escape_url query ≡ codes "a%20b%2Fc%25"
unfolding escape_url is_uri_char char_map hex_pair hex_digit
escape_url_run = refl

encode_file_path_run : encode_file_path (codes "/../a?b") ≡ codes "/$2E./a$3Fb"
unfolding encode_file_path encode_path_loop is_file_path_char char_map hex_pair hex_digit
encode_file_path_run = refl

print_html_escaped_run :
    print_html_escaped (some (codes "<a'&>")) ≡ (codes "&lt;a&#39;&amp;&gt;", 19)
unfolding print_html_escaped
print_html_escaped_run = refl

url_decode-escape_url_example : url_decode (escape_url query) ≡ query
url_decode-escape_url_example = url_decode-escape_url query query-IsText

escape_url-IsUnreserved_example :
    All (λ c. (is_unreserved c || c == b'%') ≡ true) (escape_url query)
escape_url-IsUnreserved_example = escape_url-IsUnreserved query query-IsText

slash_ne_query : ◌≢◌ {A = ℕ} b'?' b'/'
slash_ne_query e = omega (arith, e)

strange_mark : is_file_path_char b'?' ≡ false
unfolding is_file_path_char char_map
strange_mark = refl

encode_file_path_overrun_example :
    encode_file_path_room (times 78 b'?') < length (encode_file_path (times 78 b'?'))
encode_file_path_overrun_example =
    encode_file_path_overrun (times 78 b'?') (All-times _ 78 b'?' (slash_ne_query, strange_mark))
      (omega (arith, length-times 78 b'?'))

has_dot_segment-encode_file_path_example :
    has_dot_segment true (encode_file_path (codes "../.a/..")) ≡ false
has_dot_segment-encode_file_path_example = has_dot_segment-encode_file_path (codes "../.a/..")

print_html_escaped-IsInert_example : All IsInert (print_html_escaped (some (codes "<a'>"))).0
print_html_escaped-IsInert_example = print_html_escaped-IsInert (some (codes "<a'>"))

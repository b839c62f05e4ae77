-- ===== src/Escape.antt =====
-- The escaping of src/lib/http_utils.c: the character table, URLs, cache file paths and HTML.
pub mod Table
pub mod Url
pub mod FilePath
pub mod Html
mod Tests
use Prim.Native.Nat.{bit_and, bit_or}
use nxweb.Base.{
  ℕ, zero, suc, ◌+◌, ◌-◌, ◌*◌, ◌/◌, ◌%◌, ◌≤◌, Bool, true, false, not, ◌&&◌, ◌||◌, Option, none,
  some, List, [], ◌∷◌, ◌++◌, Bytes, codes, ltb, leb, ◌==◌, if◌then◌else◌, length, arith,
}
use nxweb.Misc.{hex_digit}

abbrev cm_letter : ℕ
cm_letter = 0x10

abbrev cm_digit : ℕ
cm_digit = 0x20

abbrev cm_uri_char : ℕ
cm_uri_char = 0x40

abbrev cm_file_path_char : ℕ
cm_file_path_char = 0x80

abbrev cm_hex_value_mask : ℕ
cm_hex_value_mask = 0xf

between : ℕ → ℕ → ℕ → Bool
between lo hi c = leb lo c && leb c hi

-- `strchr(s, c)` at a byte that is not NUL.
has_char : Bytes → ℕ → Bool
has_char [] c = false
has_char (x ∷ s) c = x == c || has_char s c

-- `if (test) m |= bits`
or_if : Bool → ℕ → ℕ → ℕ
or_if test bits m = if test then bit_or m bits else m

-- `init_char_map`: the entry of `_CHAR_MAP` for a byte.
unfoldable pub char_map : ℕ → ℕ
unfolding between has_char or_if
char_map c =
    let is_digit = between b'0' b'9' c in
    let is_letter = between b'a' b'z' c || between b'A' b'Z' c in
    let m = or_if is_digit (bit_and (c - b'0') cm_hex_value_mask) 0 in
    let m = or_if (between b'a' b'f' c) (bit_and (c - b'a' + 0xa) cm_hex_value_mask) m in
    let m = or_if (between b'A' b'F' c) (bit_and (c - b'A' + 0xa) cm_hex_value_mask) m in
    let m = or_if is_digit (bit_or cm_digit (bit_or cm_uri_char cm_file_path_char)) m in
    let m = or_if is_letter (bit_or cm_letter (bit_or cm_uri_char cm_file_path_char)) m in
    let m = or_if (has_char (codes ".-_~") c) cm_uri_char m in
    let m = or_if (has_char (codes ".-_/") c) cm_file_path_char m in if c == 0 then 0 else m

-- `HEX_DIGIT_VALUE`
unfoldable pub hex_digit_value : ℕ → ℕ
unfolding char_map
hex_digit_value c = bit_and (char_map c) cm_hex_value_mask

-- `IS_URI_CHAR`
unfoldable pub is_uri_char : ℕ → Bool
unfolding char_map
is_uri_char c = not (bit_and (char_map c) cm_uri_char == 0)

-- `IS_FILE_PATH_CHAR`
unfoldable pub is_file_path_char : ℕ → Bool
unfolding char_map
is_file_path_char c = not (bit_and (char_map c) cm_file_path_char == 0)

-- `c >> 4` on a signed `char`: the byte above 0x7f is shifted with its sign.
abbrev pub shift_nibble : ℕ → ℕ
shift_nibble c = if ltb c 128 then c / 16 else c / 16 + 240

-- The two digits of an escaped byte.
unfoldable pub hex_pair : ℕ → Bytes
unfolding hex_digit
hex_pair c = hex_digit (shift_nibble c) ∷ hex_digit c ∷ []

-- `_nxb_append_escape_url`: the bytes appended.
unfoldable pub escape_url : Bytes → Bytes
escape_url [] = []
escape_url (c ∷ s) = if is_uri_char c then c ∷ escape_url s else b'%' ∷ (hex_pair c ++ escape_url s)

-- What `print_url_escaped` counts.
unfoldable pub escape_url_len : Bytes → ℕ → ℕ
escape_url_len [] len = len
escape_url_len (c ∷ s) len = escape_url_len s (if is_uri_char c then len + 1 else len + 3)

-- `print_url_escaped`: the bytes printed, and the number returned.
unfoldable pub print_url_escaped : Option Bytes → Bytes × ℕ
print_url_escaped none = (codes "(null)", 6)
print_url_escaped (some s) = (escape_url s, escape_url_len s 0)

-- `HEX_DIGIT_VALUE(a) << 4 | HEX_DIGIT_VALUE(b)`, stored in a `char`
unfoldable pub hex_byte : ℕ → ℕ → ℕ
unfolding hex_digit_value
hex_byte a b = bit_or (hex_digit_value a * 16) (hex_digit_value b) % 256

-- A byte that starts no escape.
abbrev pub plain : ℕ → ℕ
plain c = if c == b'+' then b' ' else c

-- `nxweb_url_decode`: the bytes written before the NUL; an escaped NUL is one of them.
unfoldable pub url_decode : Bytes → Bytes
url_decode [] = []
url_decode (c ∷ []) = plain c ∷ []
url_decode (c ∷ a ∷ []) = plain c ∷ url_decode (a ∷ [])
url_decode (c ∷ a ∷ b ∷ s) =
    let escaped = hex_byte a b ∷ url_decode s in
    let copied = plain c ∷ url_decode (a ∷ b ∷ s) in if c == b'%' then escaped else copied

-- The file path characters after which a long name is broken.
abbrev pub max_path_segment : ℕ
max_path_segment = 230

-- What a character other than the slash is written as, and how much it adds to the segment.
abbrev pub escapes : ℕ → ℕ → Bool
escapes c count = (c == b'.' && count == 0) || not (is_file_path_char c)

-- The loop of `_nxb_append_encode_file_path`, with `fname_len_count`.
unfoldable pub encode_path_loop : Bytes → ℕ → Bytes
encode_path_loop [] count = []
encode_path_loop (c ∷ s) count =
    let slash = c ∷ encode_path_loop s 0 in
    let breaks = leb max_path_segment count in
    let start = if breaks then 0 else count in
    let escaped = b'$' ∷ (hex_pair c ++ encode_path_loop s (start + 3)) in
    let copied = c ∷ encode_path_loop s (start + 1) in
    let written = if escapes c start then escaped else copied in
    let broken = b'/' ∷ written in if c == b'/' then slash else (if breaks then broken else written)

-- `_nxb_append_encode_file_path`: the bytes appended.
unfoldable pub encode_file_path : Bytes → Bytes
encode_file_path path = encode_path_loop path 0

-- The room that is made for them.
unfoldable pub encode_file_path_room : Bytes → ℕ
encode_file_path_room path = length path * 3 + length path / max_path_segment

-- One character of `print_html_escaped`.
abbrev pub html_char : ℕ → Bytes
html_char c =
    if c == b'<'
    then codes "&lt;"
    else if c == b'>'
    then codes "&gt;"
    else if c == b'"'
    then codes "&quot;"
    else if c == b'\''
    then codes "&#39;"
    else if c == b'&'
    then codes "&amp;"
    else c ∷ []

-- What it counts for that character.
abbrev pub html_char_len : ℕ → ℕ
html_char_len c =
    if c == b'<'
    then 4
    else if c == b'>'
    then 4
    else if c == b'"'
    then 6
    else if c == b'\''
    then 5
    else if c == b'&'
    then 5
    else 1

-- `print_html_escaped`: the bytes printed, and the number returned.
unfoldable pub html_loop : Bytes → ℕ → Bytes × ℕ
html_loop [] len = ([], len)
html_loop (c ∷ s) len =
    let (out, n) = html_loop s (len + html_char_len c) in (html_char c ++ out, n)

unfoldable pub print_html_escaped : Option Bytes → Bytes × ℕ
unfolding html_loop
print_html_escaped none = (codes "(null)", 6)
print_html_escaped (some s) = html_loop s 0

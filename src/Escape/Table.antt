-- ===== src/Escape/Table.antt =====
-- Facts of the character table of src/lib/http_utils.c, checked at every byte.
use nxweb.Base.{
  ℕ, ◌<◌, ◌≡◌, refl, Bool, true, not, ◌&&◌, ◌||◌, ◌==◌, ==_iff, every_byte, every_byte_holds, arith,
  leb, if◌then◌else◌,
}
use nxweb.Misc.{hex_digit}
use nxweb.Escape.{is_uri_char, is_file_path_char, hex_byte, shift_nibble}

pair_table : every_byte (λ c. hex_byte (hex_digit (shift_nibble c)) (hex_digit c) == c) ≡ true
unfolding every_byte hex_byte hex_digit
pair_table = refl

-- The two digits that a byte is escaped to are read back as the byte.
pub hex_byte-hex_digit : (c : ℕ) → c < 256 → hex_byte (hex_digit (shift_nibble c)) (hex_digit c) ≡ c
hex_byte-hex_digit c h = (==_iff _ c).0 (every_byte_holds _ pair_table c h)

-- The unreserved characters of a URI.
abbrev pub is_unreserved : ℕ → Bool
is_unreserved c =
    leb b'0' c && leb c b'9'
    || leb b'A' c && leb c b'Z'
    || leb b'a' c && leb c b'z'
    || c == b'-'
    || c == b'.'
    || c == b'_'
    || c == b'~'

abbrev same : Bool → Bool → Bool
same a b = if a then b else not b

uri_table : every_byte (λ c. same (is_uri_char c) (is_unreserved c)) ≡ true
unfolding every_byte is_uri_char
uri_table = refl

same_eq : (a b : Bool) → same a b ≡ true → a ≡ b
same_eq a b h = ground arith

-- The characters that are not escaped in a URL are the unreserved ones.
pub is_uri_char-is_unreserved : (c : ℕ) → c < 256 → is_uri_char c ≡ is_unreserved c
is_uri_char-is_unreserved c h = same_eq _ _ (every_byte_holds _ uri_table c h)

-- The digits of an escape are unreserved.
pub is_unreserved-hex_digit : (n : ℕ) → is_unreserved (hex_digit n) ≡ true
unfolding hex_digit
is_unreserved-hex_digit n = ground arith

-- The characters that stay in the name of a cache file, and the slash.
abbrev pub is_portable : ℕ → Bool
is_portable c =
    leb b'0' c && leb c b'9'
    || leb b'A' c && leb c b'Z'
    || leb b'a' c && leb c b'z'
    || c == b'-'
    || c == b'.'
    || c == b'_'
    || c == b'/'

file_table : every_byte (λ c. same (is_file_path_char c) (is_portable c)) ≡ true
unfolding every_byte is_file_path_char
file_table = refl

pub is_file_path_char-is_portable : (c : ℕ) → c < 256 → is_file_path_char c ≡ is_portable c
is_file_path_char-is_portable c h = same_eq _ _ (every_byte_holds _ file_table c h)

-- ===== src/Escape/Url.antt =====
-- URL escaping and decoding of src/lib/http_utils.c, there and back.
use nxweb.Base.{
  Option, none, some, ℕ, ◌+◌, ◌*◌, ◌<◌, ◌≤◌, ◌≡◌, ◌≢◌, refl, true, ◌||◌, ◌==◌, Bytes, [], ◌∷◌, ◌++◌,
  if◌then◌else◌, length, All, IsText, arith, Bool-cases, inl, inr, ◌∙◌, ap,
}
use nxweb.Escape.{
  is_uri_char, shift_nibble, hex_pair, escape_url, escape_url_len, print_url_escaped, url_decode,
  plain,
}
use nxweb.Escape.Table.{
  hex_byte-hex_digit, is_uri_char-is_unreserved, is_unreserved, is_unreserved-hex_digit,
}

-- A byte that starts no escape is decoded by itself.
url_decode-plain : (c : ℕ) (s : Bytes) → c ≢ b'%' → url_decode (c ∷ s) ≡ plain c ∷ url_decode s
unfolding url_decode
url_decode-plain c [] h = refl
url_decode-plain c (a ∷ []) h = refl
url_decode-plain c (a ∷ b ∷ s) h = ground arith

url_decode_escaped :
    (c : ℕ) (s : Bytes) → c < 256 → url_decode (b'%' ∷ (hex_pair c ++ s)) ≡ c ∷ url_decode s
unfolding url_decode hex_pair
url_decode_escaped c s h = rw (hex_byte-hex_digit c h)

uri_char_plain : (c : ℕ) → c < 256 → is_uri_char c ≡ true → (c ≢ b'%') × (plain c ≡ c)
uri_char_plain c h u = ground (arith, is_uri_char-is_unreserved c h)

-- Decoding undoes the escaping of every text.
pub url_decode-escape_url : (s : Bytes) → IsText s → url_decode (escape_url s) ≡ s
unfolding escape_url
url_decode-escape_url [] t = unfold url_decode in refl
url_decode-escape_url (c ∷ s) ((lo, hi), t) = elim (Bool-cases (is_uri_char c)) [
  | inl u ↦
      let (no_escape, copied) = uri_char_plain c hi u in
      rw u (
        url_decode-plain c (escape_url s) no_escape
        ∙ ap (λ x. x ∷ url_decode (escape_url s)) copied
        ∙ ap (λ r. c ∷ r) (url_decode-escape_url s t))
  | inr u ↦
      rw u (url_decode_escaped c (escape_url s) hi ∙ ap (λ r. c ∷ r) (url_decode-escape_url s t))
]

escape_url_len_lem : (s : Bytes) (len : ℕ) → escape_url_len s len ≡ len + length (escape_url s)
unfolding escape_url escape_url_len hex_pair
escape_url_len_lem [] len = omega arith
escape_url_len_lem (c ∷ s) len =
    ground (arith, escape_url_len_lem s (if is_uri_char c then len + 1 else len + 3))

-- The URL printer returns the number of bytes that it prints.
pub print_url_escaped_len :
    (arg : Option Bytes) → (print_url_escaped arg).1 ≡ length (print_url_escaped arg).0
unfolding print_url_escaped
print_url_escaped_len none = refl
print_url_escaped_len (some s) = escape_url_len_lem s 0 ∙ omega arith

-- The room that is made for an escaped URL suffices.
pub length-escape_url : (s : Bytes) → length (escape_url s) ≤ length s * 3
unfolding escape_url hex_pair
length-escape_url [] = omega arith
length-escape_url (c ∷ s) = ground (arith, length-escape_url s)

-- An escaped URL holds unreserved characters and percent signs alone.
pub escape_url-IsUnreserved :
    (s : Bytes) → IsText s → All (λ c. (is_unreserved c || c == b'%') ≡ true) (escape_url s)
unfolding escape_url hex_pair
escape_url-IsUnreserved [] t = tt
escape_url-IsUnreserved (c ∷ s) ((lo, hi), t) = elim (Bool-cases (is_uri_char c)) [
  | inl u ↦ rw u (ground (arith, is_uri_char-is_unreserved c hi), escape_url-IsUnreserved s t)
  | inr u ↦ rw u (
    refl,
    (
      ground (arith, is_unreserved-hex_digit (shift_nibble c)),
      (ground (arith, is_unreserved-hex_digit c), escape_url-IsUnreserved s t),
    ),
  )
]

-- Decoding in place never writes past what it has read.
pub length-url_decode : (s : Bytes) → length (url_decode s) ≤ length s
unfolding url_decode
length-url_decode [] = omega arith
length-url_decode (c ∷ []) = omega arith
length-url_decode (c ∷ a ∷ []) = omega arith
length-url_decode (c ∷ a ∷ b ∷ s) =
    ground (arith, length-url_decode s, length-url_decode (a ∷ b ∷ s))

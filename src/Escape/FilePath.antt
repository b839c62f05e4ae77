-- ===== src/Escape/FilePath.antt =====
-- The paths that src/lib/http_utils.c encodes as parts of the names of cache files.
pub mod Room
pub mod Segment
pub mod Clash
use nxweb.Base.{
  ℕ, suc, ◌+◌, ◌*◌, ◌/◌, ◌-◌, ◌<◌, ◌≤◌, ◌≡◌, ◌≢◌, refl, Bool, true, false, not, ◌&&◌, ◌||◌, ◌==◌,
  Bytes, [], ◌∷◌, ◌++◌, leb, ltb, if◌then◌else◌, length, All, IsText, arith, Bool-cases, inl, inr,
  sym, ◌∙◌, ap, ==_iff,
}
use nxweb.Misc.{hex_digit}
use nxweb.Escape.{
  is_file_path_char, hex_pair, shift_nibble, encode_path_loop, encode_file_path, escapes,
  max_path_segment,
}

-- What is written for a character other than the slash, in a segment of `start` characters.
unfoldable pub written : ℕ → Bytes → ℕ → Bytes
written c s start =
    if escapes c start
    then b'$' ∷ (hex_pair c ++ encode_path_loop s (start + 3))
    else c ∷ encode_path_loop s (start + 1)

-- The loop by its branches.
pub encode_slash :
    (s : Bytes) (count : ℕ) → encode_path_loop (b'/' ∷ s) count ≡ b'/' ∷ encode_path_loop s 0
unfolding encode_path_loop
encode_slash s count = refl

pub encode_inside :
    (c : ℕ) (s : Bytes) (count : ℕ)
    → c ≢ b'/'
    → count < max_path_segment
    → encode_path_loop (c ∷ s) count ≡ written c s count
unfolding encode_path_loop written
encode_inside c s count h k = ground arith

pub encode_break :
    (c : ℕ) (s : Bytes) (count : ℕ)
    → c ≢ b'/'
    → max_path_segment ≤ count
    → encode_path_loop (c ∷ s) count ≡ b'/' ∷ written c s 0
unfolding encode_path_loop written
encode_break c s count h k = ground arith

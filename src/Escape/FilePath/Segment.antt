-- ===== src/Escape/FilePath/Segment.antt =====
-- The segments of the paths that `_nxb_append_encode_file_path` of src/lib/http_utils.c encodes.
use nxweb.Base.{
  ℕ, ◌+◌, ◌≤◌, ◌≡◌, ◌≢◌, refl, Bool, true, false, ◌&&◌, ◌||◌, ◌==◌, Bytes, [], ◌∷◌, ◌++◌, leb,
  if◌then◌else◌, arith,
}
use nxweb.Misc.{hex_digit}
use nxweb.Escape.{hex_pair, shift_nibble, encode_path_loop, encode_file_path}

-- A segment of the path begins with a dot; `at_start` holds at the beginning of a segment.
pub has_dot_segment : Bool → Bytes → Bool
has_dot_segment at_start [] = false
has_dot_segment at_start (c ∷ s) = (at_start && c == b'.') || has_dot_segment (c == b'/') s

-- Every segment has at most `limit` characters; `n` were seen of the first.
pub segments_within : ℕ → ℕ → Bytes → Bool
segments_within limit n [] = leb n limit
segments_within limit n (c ∷ s) =
    let ended = leb n limit && segments_within limit 0 s in
    let inside = segments_within limit (n + 1) s in if c == b'/' then ended else inside

hex_digit-plain : (n : ℕ) → (hex_digit n ≢ b'.') × (hex_digit n ≢ b'/')
unfolding hex_digit
hex_digit-plain n = ground arith

has_dot_segment-escape :
    (b : Bool) (c : ℕ) (s : Bytes)
    → has_dot_segment b (b'$' ∷ (hex_pair c ++ s)) ≡ has_dot_segment false s
unfolding has_dot_segment hex_pair
has_dot_segment-escape b c s = ground (arith, hex_digit-plain (shift_nibble c), hex_digit-plain c)

has_dot_segment-loop :
    (s : Bytes) (count : ℕ) → has_dot_segment (count == 0) (encode_path_loop s count) ≡ false
unfolding has_dot_segment encode_path_loop
has_dot_segment-loop [] count = refl
has_dot_segment-loop (c ∷ s) count = ground (
  arith,
  has_dot_segment-escape (count == 0) c (encode_path_loop s (count + 3)),
  has_dot_segment-escape true c (encode_path_loop s 3),
  has_dot_segment-loop s 0,
  has_dot_segment-loop s 1,
  has_dot_segment-loop s 3,
  has_dot_segment-loop s (count + 1),
  has_dot_segment-loop s (count + 3),
)

-- No segment of an encoded path begins with a dot, the path on its own being taken to begin with a
-- segment: an encoded path has no `.` and no `..` step. What the filter of the cache files appends to
-- it, as the suffix `.nxc`, is not part of it.
pub has_dot_segment-encode_file_path :
    (path : Bytes) → has_dot_segment true (encode_file_path path) ≡ false
unfolding encode_file_path
has_dot_segment-encode_file_path path = has_dot_segment-loop path 0

segments_within-loop :
    (s : Bytes) (count : ℕ)
    → count ≤ 232
    → segments_within 232 count (encode_path_loop s count) ≡ true
unfolding segments_within encode_path_loop hex_pair
segments_within-loop [] count h = ground arith
segments_within-loop (c ∷ s) count h = ground (
  arith,
  hex_digit-plain (shift_nibble c),
  hex_digit-plain c,
  segments_within-loop s 0,
  segments_within-loop s 1,
  segments_within-loop s 3,
  segments_within-loop s (count + 1),
  segments_within-loop s (count + 3),
)

-- Every segment of an encoded path has at most 232 characters.
pub segments_within-encode_file_path :
    (path : Bytes) → segments_within 232 0 (encode_file_path path) ≡ true
unfolding encode_file_path
segments_within-encode_file_path path = segments_within-loop path 0 (omega arith)

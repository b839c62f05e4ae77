-- ===== src/Escape/FilePath/Room.antt =====
-- How long the encoded paths of src/lib/http_utils.c are, against the room made for them.
use nxweb.Base.{
  ℕ, ◌+◌, ◌*◌, ◌/◌, ◌-◌, ◌<◌, ◌≤◌, ◌≡◌, ◌≢◌, false, Bytes, [], ◌∷◌, length, All, arith,
}
use nxweb.Escape.{
  is_file_path_char, hex_pair, encode_path_loop, encode_file_path, encode_file_path_room,
}

length-encode_path_loop :
    (s : Bytes) (count : ℕ)
    → length (encode_path_loop s count) ≤ length s * 3 + (count + length s * 3) / 230
unfolding encode_path_loop hex_pair
length-encode_path_loop [] count = omega arith
length-encode_path_loop (c ∷ s) count = ground (
  arith,
  length-encode_path_loop s 0,
  length-encode_path_loop s 1,
  length-encode_path_loop s 3,
  length-encode_path_loop s (count + 1),
  length-encode_path_loop s (count + 3),
)

-- An encoded path is at most three times as long as the path, and a slash longer for
-- every 230 of these bytes.
pub length-encode_file_path :
    (path : Bytes) → length (encode_file_path path) ≤ length path * 3 + length path * 3 / 230
unfolding encode_file_path
length-encode_file_path path = omega (arith, length-encode_path_loop path 0)

-- A path of characters that are all escaped.
abbrev pub IsStrange : Bytes → Type 0
IsStrange = All (λ c. (c ≢ b'/') × (is_file_path_char c ≡ false))

-- An escape is three bytes, so that a segment is broken behind 77 of them.
length-encode_path_loop_strange :
    (s : Bytes) (count j : ℕ)
    → IsStrange s
    → count ≡ 3 * j
    → j ≤ 77
    → length (encode_path_loop s count) ≡ length s * 3 + (j + length s - 1) / 77
unfolding encode_path_loop hex_pair
length-encode_path_loop_strange [] count j h e k = omega arith
length-encode_path_loop_strange (c ∷ s) count j ((no_slash, strange), h) e k = ground (
  arith,
  length-encode_path_loop_strange s 3 1 h,
  length-encode_path_loop_strange s (count + 3) (j + 1) h,
)

-- A path of 78 or more characters that are all escaped needs more room than is made for it: the
-- encoded path is longer than the space that was asked for.
pub encode_file_path_overrun :
    (path : Bytes)
    → IsStrange path
    → 78 ≤ length path
    → encode_file_path_room path < length (encode_file_path path)
unfolding encode_file_path encode_file_path_room
encode_file_path_overrun path h k =
    omega (arith, length-encode_path_loop_strange path 0 0 h (omega arith) (omega arith))

-- Up to 76 characters the room suffices, whatever they are.
pub encode_file_path-fits :
    (path : Bytes) → length path ≤ 76 → length (encode_file_path path) ≤ encode_file_path_room path
unfolding encode_file_path_room
encode_file_path-fits path k = omega (arith, length-encode_file_path path)

-- ===== src/Chunked/Decoder.antt =====
-- `_nxweb_decode_chunked_stream` of src/lib/http_utils.c, with its state of src/include/nxweb/nxweb.h.
pub mod Reference
pub mod Split
pub mod Modes
pub mod Overflow
use nxweb.Base.{
  ℕ, zero, suc, ◌+◌, ◌-◌, ◌*◌, ◌%◌, ◌^◌, ◌≤◌, ◌<◌, Bool, true, false, ◌&&◌, Option, none, some,
  List, [], ◌∷◌, ◌++◌, Bytes, ltb, leb, ◌==◌, if◌then◌else◌, length, take, drop,
}

-- `enum nxweb_chunked_decoder_state_code`
pub data Code : Type 0 where
  cds_cr1 cds_lf1 cds_size cds_lf2 cds_data : Code

-- `chunk_bytes_left` is a signed 64-bit number; the field holds its bit pattern.
pub record Decoder : Type 0 where
  pub state : Code
  pub final_chunk : Bool
  pub monitor_only : Bool
  pub chunk_bytes_left : ℕ

abbrev pub cr : ℕ
cr = b'\r'

abbrev pub lf : ℕ
lf = b'\n'

-- The sign bit of a 64-bit pattern.
abbrev pub is_negative : ℕ → Bool
is_negative w = leb (2 ^ 63) w

-- The value of a hexadecimal digit as the size state reads it; `none` is `return -1`.
unfoldable pub size_digit : ℕ → Option ℕ
size_digit c =
    if leb b'0' c && leb c b'9'
    then some (c - b'0')
    else if leb b'A' c && leb c b'F'
    then some (c - b'A' + 10)
    else if leb b'a' c && leb c b'f'
    then some (c - b'a' + 10)
    else none

-- What a call leaves: the value returned, the state, and the first `*buf_len` bytes of the buffer.
-- `wild` is a move of the read pointer below where it stood, by a negative `chunk_bytes_left`;
-- `unfinished` is the model's own, for a loop that has rounds left to make.
pub data Result : Type 0 where
  more : Decoder → Bytes → Result
  complete : Decoder → Bytes → Result
  bad : Result
  wild : Result
  unfinished : Result

-- The buffer cut at the two pointers: the bytes before `d`, from `d` to `p`, and from `p` to `end`.
pub record Cursor : Type 0 where
  pub out : Bytes
  pub gap : Bytes
  pub rest : Bytes

pub data Step : Type 0 where
  next : Decoder → Cursor → Step
  stop : Result → Step

abbrev pub whole : Cursor → Bytes
whole k = k.out ++ (k.gap ++ k.rest)

-- `if (!monitor_only) *buf_len = d - buf`
abbrev pub kept : Decoder → Cursor → Bytes
kept d k = if d.monitor_only then whole k else k.out

-- `p++`, at the byte `c` with `rest` behind it
abbrev pub skip : Cursor → ℕ → Bytes → Cursor
skip k c rest = record k { gap = k.gap ++ (c ∷ []); rest = rest }

-- The case CDS_DATA, where `k.rest` is not empty.
pub data_step : Decoder → Cursor → Step
data_step d k =
    if is_negative d.chunk_bytes_left
    then stop wild
    else if leb d.chunk_bytes_left (length k.rest)
    then next (record d { chunk_bytes_left = 0; state = cds_cr1 })
        (record {
          out = k.out ++ (k.gap ++ take d.chunk_bytes_left k.rest);
          gap = [];
          rest = drop d.chunk_bytes_left k.rest;
        })
    else stop (more (record d { chunk_bytes_left = d.chunk_bytes_left - length k.rest }) (whole k))

-- The case CDS_SIZE, at the byte `c`.
pub size_step : Decoder → Cursor → ℕ → Bytes → Step
size_step d k c rest =
    if c == cr
    then next
        (record d {
          final_chunk = if d.chunk_bytes_left == 0 then true else d.final_chunk;
          state = cds_lf2;
        })
        (skip k c rest)
    else elim (size_digit c) [
      | none ↦ stop bad
      | some v ↦
          next (record d { chunk_bytes_left = (d.chunk_bytes_left * 16 + v) % 2 ^ 64 })
            (skip k c rest)
    ]

-- The case CDS_LF2: unless only monitoring, the tail of the buffer moves down over the framing.
pub lf2_step : Decoder → Cursor → ℕ → Bytes → Step
lf2_step d k c rest =
    if c == lf
    then next (record d { state = cds_data })
        (if d.monitor_only then skip k c rest else record { out = k.out; gap = []; rest = rest })
    else stop bad

-- One round of the loop, by the state; `c` is `*p`, and `rest` stands behind it.
pub decode_step : Code → Decoder → Cursor → ℕ → Bytes → Step
unfolding data_step size_step lf2_step
decode_step cds_data d k c rest = data_step d k
decode_step cds_cr1 d k c rest =
    if c == cr then next (record d { state = cds_lf1 }) (skip k c rest) else stop bad
decode_step cds_lf1 d k c rest =
    if c == lf
    then if d.final_chunk
      then stop (complete d (kept d k))
      else next (record d { state = cds_size }) (skip k c rest)
    else stop bad
decode_step cds_size d k c rest = size_step d k c rest
decode_step cds_lf2 d k c rest = lf2_step d k c rest

-- `while (p < end) …`
pub decode_loop : ℕ → Decoder → Cursor → Result
decode_loop zero d k = unfinished
decode_loop (suc n) d k = elim k.rest [
  | [] ↦ more d (kept d k)
  | c ∷ rest ↦ elim (decode_step d.state d k c rest) [
    | next d' k' ↦ decode_loop n d' k'
    | stop r ↦ r
  ]
]

-- Each byte takes at most two rounds: one that enters CR1 from CDS_DATA, and one that reads it.
pub decode_fuel : Bytes → ℕ
decode_fuel buf = 2 * length buf + 2

unfoldable pub decode : Decoder → Bytes → Result
unfolding decode_loop decode_step decode_fuel size_digit
decode d buf = decode_loop (decode_fuel buf) d (record { out = []; gap = []; rest = buf })

-- ===== src/Chunked/Encoder.antt =====
-- The chunked stream encoder of src/lib/http_utils.c, with its state of src/include/nxweb/nxweb.h, and the writes
-- that src/lib/nxd_http_server_proto.c makes with it.
pub mod Wire
pub mod Phase
mod Kinds
pub mod Frame
pub mod Write
use nxweb.Base.{
  ℕ, zero, suc, ◌+◌, ◌-◌, ◌*◌, ◌%◌, ◌^◌, ◌≤◌, ◌<◌, Bool, true, false, not, ◌&&◌, Option, none, some,
  List, [], ◌∷◌, ◌++◌, Bytes, codes, ltb, leb, ◌==◌, if◌then◌else◌, length, take, drop, min,
}
use nxweb.Misc.{uint_to_hex_string_zeropad}

-- `chunk_size` and `pos` are signed 64-bit numbers that stay between 0 and 0x10007.
pub record Encoder : Type 0 where
  pub final_chunk : Bool
  pub header_prepared : Bool
  pub chunk_size : ℕ
  pub pos : ℕ
  pub buf : Bytes

-- `_nxweb_encode_chunked_init`
abbrev pub encode_init : Encoder
encode_init = record {
  final_chunk = false;
  header_prepared = false;
  chunk_size = 0;
  pos = 2;
  buf = codes "\r\n0000\r\n";
}

-- What a call leaves: the state, `*offered_size`, the bytes between `*send_ptr` and
-- `*send_ptr + *send_size`, whether NXEF_EOF is set in `*flags`, and the value returned.
pub record Offer : Type 0 where
  pub encoder : Encoder
  pub offered : ℕ
  pub send : Bytes
  pub eof : Bool
  pub ready : Bool

-- `memcpy(buf + i, s, length s)`
abbrev pub write_at : Bytes → ℕ → Bytes → Bytes
write_at buf i s = take i buf ++ (s ++ drop (i + length s) buf)

abbrev pub max_chunk : ℕ
max_chunk = 0xffff

-- `encode_start` at the end of the body.
abbrev pub start_final : Encoder → Bytes → Offer
start_final e buf = record {
  encoder = record e { final_chunk = true; buf = buf };
  offered = 0;
  send = drop e.pos (take 7 buf);
  eof = true;
  ready = true;
}

-- `encode_start` where bytes are offered: `size` of them, behind the header in `buf`.
abbrev pub start_chunk : Encoder → ℕ → Bytes → Offer
start_chunk e size buf = record {
  encoder = record e { header_prepared = true; chunk_size = size; buf = buf };
  offered = size;
  send = drop e.pos buf;
  eof = false;
  ready = true;
}

-- A new chunk may start: the final one, none yet, or one of the bytes that are offered.
pub encode_start : Encoder → ℕ → Bool → Offer
encode_start e offered eof =
    if offered == 0
    then if eof then start_final e (write_at e.buf 2 (codes "0\r\n\r\n")) else record {
      encoder = e;
      offered = offered;
      send = drop e.pos (take 2 e.buf);
      eof = eof;
      ready = not (2 - e.pos == 0);
    }
    else (let size = if ltb max_chunk offered then max_chunk else offered in
        start_chunk e size (write_at e.buf 2 (uint_to_hex_string_zeropad size 4)))

-- The rest of the header of a chunk that was started.
pub encode_header : Encoder → ℕ → Bool → Option Offer
encode_header e offered eof =
    if ltb offered e.chunk_size
    then none
    else some (record {
      encoder = e;
      offered = e.chunk_size;
      send = drop e.pos e.buf;
      eof = false;
      ready = true;
    })

-- The data of a chunk whose header was sent.
pub encode_data : Encoder → ℕ → Bool → Option Offer
encode_data e offered eof =
    let chunk_bytes_left = e.chunk_size - (e.pos - 8) in
    if ltb offered chunk_bytes_left
    then none
    else some
        (record { encoder = e; offered = chunk_bytes_left; send = []; eof = false; ready = false })

-- `_nxweb_encode_chunked_stream`; `none` is an assertion that fails.
unfoldable pub encode : Encoder → ℕ → Bool → Option Offer
unfolding encode_start encode_header encode_data
encode e offered eof =
    if e.final_chunk
    then if eof
      then some (record {
        encoder = e;
        offered = offered;
        send = drop e.pos (take 7 e.buf);
        eof = eof;
        ready = true;
      })
      else none
    else if leb e.pos 2 && not e.header_prepared
    then some (encode_start e offered eof)
    else if ltb e.pos 8
    then encode_header e offered eof
    else encode_data e offered eof

-- `_nxweb_encode_chunked_advance`
unfoldable pub advance : Encoder → ℕ → Encoder
advance e delta =
    if delta == 0
    then e
    else if e.pos + delta == 8 + e.chunk_size
    then record e { pos = 0; header_prepared = false }
    else record e { pos = e.pos + delta }

-- `_nxweb_encode_chunked_is_complete`
unfoldable pub is_complete : Encoder → Bool
is_complete e = e.final_chunk && e.pos == 7

-- What a round of writes leaves: the encoder, the bytes that the socket took, the number of bytes
-- of the data among them, and `skip`, set when the socket took less than it was given.
pub record Sent : Type 0 where
  pub encoder : Encoder
  pub wire : Bytes
  pub bytes_sent : ℕ
  pub skip : Bool

-- What the encoder hands out is written, if it says so; the socket takes at most `room` bytes.
unfoldable pub frame_sent : Offer → ℕ → Sent × ℕ
frame_sent o room =
    let cbs = min room (length o.send) in
    if o.ready
    then (
      record {
        encoder = advance o.encoder cbs;
        wire = take cbs o.send;
        bytes_sent = 0;
        skip = not (cbs == length o.send);
      },
      o.offered,
    )
    else (record { encoder = o.encoder; wire = []; bytes_sent = 0; skip = false }, o.offered)

-- The encoder is asked, and its answer written.
unfoldable pub write_frame : Encoder → ℕ → Bool → ℕ → Option (Sent × ℕ)
write_frame e offered eof room = elim (encode e offered eof) [
  | none ↦ none
  | some o ↦ some (frame_sent o room)
]

-- `if (!skip && chunk_size)`: the data of the chunk is written.
unfoldable pub write_data : Sent → Bytes → ℕ → ℕ → Sent
write_data s payload chunk_size room =
    if not s.skip && not (chunk_size == 0)
    then (let bytes_sent = min room chunk_size in
        record {
          encoder = advance s.encoder bytes_sent;
          wire = s.wire ++ take bytes_sent payload;
          bytes_sent = bytes_sent;
          skip = not (bytes_sent == chunk_size);
        })
    else s

-- `if (!skip)`: the trailer of the chunk, or the final chunk, is written.
unfoldable pub write_trailer : Sent → Bool → ℕ → Option Sent
write_trailer s eof room = if s.skip then some s else elim (write_frame s.encoder 0 eof room) [
  | none ↦ none
  | some (t, _) ↦ some (record t { wire = s.wire ++ t.wire; bytes_sent = s.bytes_sent })
]

-- The chunked branch of `resp_body_in_write_or_sendfile`: the bytes of `payload` are offered, `eof` says that they
-- are the last, and the socket has room for `a`, `b` and `c` bytes at the three writes.
unfoldable pub server_write : Encoder → Bytes → Bool → ℕ → ℕ → ℕ → Option Sent
server_write e payload eof a b c = elim (write_frame e (length payload) eof a) [
  | none ↦ none
  | some (s, chunk_size) ↦
      write_trailer (write_data s payload chunk_size b)
        (if chunk_size == length payload then eof else false) c
]

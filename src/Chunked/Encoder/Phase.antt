-- ===== src/Chunked/Encoder/Phase.antt =====
-- Where the encoder of src/lib/http_utils.c stands: between chunks, in the header of one, in its data,
-- or in the final chunk; and `advance` from each of these.
use nxweb.Base.{
  ℕ, ◌+◌, ◌-◌, ◌≤◌, ◌<◌, ◌≡◌, ◌≢◌, refl, true, false, ◌++◌, Bytes, codes, arith, ◌∙◌, ap, length,
  take, drop,
}
use nxweb.Misc.{uint_to_hex_string_zeropad}
use nxweb.Chunked.Decoder.{cds_cr1, cds_data, Result, more}
use nxweb.Chunked.Decoder.Reference.{at, read, read_short, read_exact}
use nxweb.Chunked.Decoder.Split.{continue}
use nxweb.Chunked.Encoder.{Encoder, advance}
use nxweb.Chunked.Encoder.Wire.{frame, last_frame, read-frame, continue-read}

abbrev pub crlf : Bytes
crlf = codes "\r\n"

-- What a decoder makes of the first `n` bytes of `buf`, having decoded `payload`.
abbrev pub part : ℕ → Bytes → Bytes → Result
part n buf payload = read (at cds_cr1 false 0) (take n buf) payload

-- `tape` is what a decoder makes of the bytes that are on the wire, and `payload` the data among
-- them.
pub record IsIdle (e : Encoder) (payload : Bytes) (tape : Result) : Type 0 where
  pub opened : e.final_chunk ≡ false
  pub free : e.header_prepared ≡ false
  pub low : e.pos ≤ 2
  pub start : take 2 e.buf ≡ crlf
  pub tail : drop 6 e.buf ≡ crlf
  pub seen : tape ≡ part e.pos crlf payload

pub record IsHeader (e : Encoder) (payload : Bytes) (tape : Result) : Type 0 where
  pub opened : e.final_chunk ≡ false
  pub busy : e.header_prepared ≡ true
  pub inside : e.pos < 8
  pub some_bytes : 0 < e.chunk_size
  pub fits : e.chunk_size ≤ 0xffff
  pub buffer : e.buf ≡ frame e.chunk_size
  pub seen : tape ≡ part e.pos (frame e.chunk_size) payload

-- The bytes of the chunk that are still to send.
abbrev pub left : Encoder → ℕ
left e = e.chunk_size - (e.pos - 8)

pub record IsBody (e : Encoder) (payload : Bytes) (tape : Result) : Type 0 where
  pub opened : e.final_chunk ≡ false
  pub busy : e.header_prepared ≡ true
  pub behind : 8 ≤ e.pos
  pub inside : e.pos < 8 + e.chunk_size
  pub fits : e.chunk_size ≤ 0xffff
  pub buffer : e.buf ≡ frame e.chunk_size
  pub seen : tape ≡ more (at cds_data false (left e)) payload

pub record IsEnding (e : Encoder) (payload : Bytes) (tape : Result) : Type 0 where
  pub closed : e.final_chunk ≡ true
  pub inside : e.pos ≤ 7
  pub buffer : take 7 e.buf ≡ last_frame
  pub seen : tape ≡ part e.pos last_frame payload

pub data Phase (e : Encoder) (payload : Bytes) (tape : Result) : Type 0 where
  idle : IsIdle e payload tape → Phase e payload tape
  header : IsHeader e payload tape → Phase e payload tape
  body : IsBody e payload tape → Phase e payload tape
  ending : IsEnding e payload tape → Phase e payload tape

pub advance_inside :
    (e : Encoder) (k : ℕ)
    → e.pos + k ≢ 8 + e.chunk_size
    → advance e k ≡ record e { pos = e.pos + k }
unfolding advance
advance_inside e k h = ground arith

-- More of the line end between two chunks.
pub advance-IsIdle :
    {e : Encoder} {payload : Bytes} {tape : Result} (k : ℕ)
    → IsIdle e payload tape
    → k ≤ 2 - e.pos
    → IsIdle (advance e k) payload (continue tape (take k (drop e.pos (take 2 e.buf))))
advance-IsIdle {e} {payload} k i h =
    rw (advance_inside e k (omega arith), i.start, i.seen)
      (record {
        opened = i.opened;
        free = i.free;
        low = omega arith;
        start = i.start;
        tail = i.tail;
        seen = continue-read e.pos k crlf payload;
      })

-- More of the final chunk.
pub advance-IsEnding :
    {e : Encoder} {payload : Bytes} {tape : Result} (k : ℕ)
    → IsEnding e payload tape
    → k ≤ 7 - e.pos
    → IsEnding (advance e k) payload (continue tape (take k (drop e.pos (take 7 e.buf))))
advance-IsEnding {e} {payload} k i h =
    rw (advance_inside e k (omega arith), i.buffer, i.seen)
      (record {
        closed = i.closed;
        inside = omega arith;
        buffer = i.buffer;
        seen = continue-read e.pos k last_frame payload;
      })

-- The bytes of the header that follow those on the wire.
header_seen :
    {e : Encoder} {payload : Bytes} {tape : Result} (k : ℕ)
    → IsHeader e payload tape
    → continue tape (take k (drop e.pos e.buf)) ≡ part (e.pos + k) (frame e.chunk_size) payload
header_seen {e} {payload} {tape} k i =
    ap (λ b. continue tape (take k (drop e.pos b))) i.buffer
    ∙ ap (λ t. continue t (take k (drop e.pos (frame e.chunk_size)))) i.seen
    ∙ continue-read e.pos k (frame e.chunk_size) payload

whole_frame :
    (n : ℕ) (payload : Bytes)
    → 0 < n
    → n ≤ 0xffff
    → part 8 (frame n) payload ≡ more (at cds_data false n) payload
unfolding uint_to_hex_string_zeropad
whole_frame n payload lo hi = read-frame n payload lo hi

-- More of a header, but not all of it.
pub advance-IsHeader :
    {e : Encoder} {payload : Bytes} {tape : Result} (k : ℕ)
    → IsHeader e payload tape
    → e.pos + k < 8
    → IsHeader (advance e k) payload (continue tape (take k (drop e.pos e.buf)))
advance-IsHeader {e} {payload} k i h = rw (advance_inside e k (omega arith)) (record {
  opened = i.opened;
  busy = i.busy;
  inside = h;
  some_bytes = i.some_bytes;
  fits = i.fits;
  buffer = i.buffer;
  seen = header_seen k i;
})

-- The rest of a header.
pub advance_header-IsBody :
    {e : Encoder} {payload : Bytes} {tape : Result} (k : ℕ)
    → IsHeader e payload tape
    → e.pos + k ≡ 8
    → IsBody (advance e k) payload (continue tape (take k (drop e.pos e.buf)))
      × (left (advance e k) ≡ e.chunk_size)
advance_header-IsBody {e} {payload} k i h = rw (advance_inside e k (omega arith)) (
  record {
    opened = i.opened;
    busy = i.busy;
    behind = omega arith;
    inside = omega arith;
    fits = i.fits;
    buffer = i.buffer;
    seen =
        header_seen k i
        ∙ ap (λ n. part n (frame e.chunk_size) payload) h
        ∙ whole_frame e.chunk_size payload i.some_bytes i.fits
        ∙ ap (λ n. more (at cds_data false n) payload) (omega arith);
  },
  omega arith,
)

drop-frame : (n : ℕ) → drop 6 (frame n) ≡ crlf
unfolding uint_to_hex_string_zeropad
drop-frame n = refl

advance_end :
    (e : Encoder) (k : ℕ)
    → k ≢ 0
    → e.pos + k ≡ 8 + e.chunk_size
    → advance e k ≡ record e { pos = 0; header_prepared = false }
unfolding advance
advance_end e k h q = ground arith

-- The last bytes of a chunk.
pub advance_body-IsIdle :
    {e : Encoder} {payload : Bytes} {tape : Result} (xs : Bytes)
    → IsBody e payload tape
    → length xs ≡ left e
    → IsIdle (advance e (length xs)) (payload ++ xs) (continue tape xs)
unfolding read
advance_body-IsIdle {e} {payload} xs i h =
    rw (advance_end e (length xs) (omega arith) (omega arith)) (record {
      opened = i.opened;
      free = refl;
      low = omega arith;
      start = ap (take 2) i.buffer;
      tail = ap (drop 6) i.buffer ∙ drop-frame e.chunk_size;
      seen =
          ap (λ t. continue t xs) i.seen
          ∙ read_exact xs payload false (left e) h (omega arith) (omega arith);
    })

-- Bytes of a chunk that are not its last.
pub advance-IsBody :
    {e : Encoder} {payload : Bytes} {tape : Result} (xs : Bytes)
    → IsBody e payload tape
    → length xs < left e
    → IsBody (advance e (length xs)) (payload ++ xs) (continue tape xs)
advance-IsBody {e} {payload} xs i h = rw (advance_inside e (length xs) (omega arith)) (record {
  opened = i.opened;
  busy = i.busy;
  behind = omega arith;
  inside = omega arith;
  fits = i.fits;
  buffer = i.buffer;
  seen =
      ap (λ t. continue t xs) i.seen
      ∙ read_short xs payload false (left e) h (omega arith)
      ∙ ap (λ n. more (at cds_data false n) (payload ++ xs)) (omega arith);
})

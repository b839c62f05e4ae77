-- ===== src/Chunked/Decoder/Overflow.antt =====
-- Chunk sizes of sixteen hexadecimal digits in the stream decoder of src/lib/http_utils.c.
use nxweb.Base.{ℕ, ◌*◌, ◌%◌, ◌+◌, ◌^◌, ◌≤◌, ◌<◌, ◌≡◌, ◌≢◌, Bool, some, [], ◌∷◌, ◌∙◌, Bytes, arith}
use nxweb.Chunked.Decoder.{cds_size, wild, decode, size_digit, cr, lf}
use nxweb.Chunked.Decoder.Reference.{at, read, decode-read}

read-size_digit :
    (f : Bool) (w c v : ℕ) (s out : Bytes)
    → size_digit c ≡ some v
    → c ≢ cr
    → read (at cds_size f w) (c ∷ s) out ≡ read (at cds_size f ((w * 16 + v) % 2 ^ 64)) s out
unfolding read
read-size_digit f w c v s out h k = ground arith

read_negative :
    (f : Bool) (w x : ℕ) (s out : Bytes)
    → 2 ^ 63 ≤ w
    → read (at cds_size f w) (cr ∷ lf ∷ x ∷ s) out ≡ wild
unfolding read
read_negative f w x s out h = ground arith

digit-ne-cr : (c v : ℕ) → size_digit c ≡ some v → c ≢ cr
unfolding size_digit
digit-ne-cr c v h = ground arith

digit-lt : (c v : ℕ) → size_digit c ≡ some v → v < 16
unfolding size_digit
digit-lt c v h = ground arith

-- A size that has reached 2^59 or more by its first fifteen digits turns negative by one more digit,
-- whatever that digit is, and the first byte of the chunk's data then moves the read pointer down.
pub decode_overflow :
    (f : Bool) (w c v x : ℕ) (s : Bytes)
    → 2 ^ 59 ≤ w
    → w < 2 ^ 60
    → size_digit c ≡ some v
    → decode (at cds_size f w) (c ∷ cr ∷ lf ∷ x ∷ s) ≡ wild
decode_overflow f w c v x s lo hi h =
    decode-read cds_size f w (c ∷ cr ∷ lf ∷ x ∷ s)
    ∙ read-size_digit f w c v (cr ∷ lf ∷ x ∷ s) [] h (digit-ne-cr c v h)
    ∙ read_negative f ((w * 16 + v) % 2 ^ 64) x s [] (omega (arith, digit-lt c v h))

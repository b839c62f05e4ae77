-- ===== src/Chunked/Encoder/Wire.antt =====
-- How the decoder of single bytes reads the frames that the encoder of src/lib/http_utils.c writes.
use nxweb.Base.{
  ℕ, ◌+◌, ◌*◌, ◌/◌, ◌%◌, ◌^◌, ◌≤◌, ◌<◌, ◌≡◌, refl, true, false, some, ◌∷◌, ◌++◌, Bytes, codes, ◌==◌,
  arith, sym, ◌∙◌, ap, take, drop, take_add,
}
use nxweb.Misc.{hex_digit, uint_to_hex_string_zeropad}
use nxweb.Chunked.Decoder.{cds_cr1, cds_lf1, cds_size, cds_data, more, complete, size_digit}
use nxweb.Chunked.Decoder.Reference.{at, read}
use nxweb.Chunked.Decoder.Split.{continue, read-append}

-- The header of a chunk of `n` bytes, behind the line end of the chunk before.
abbrev pub frame : ℕ → Bytes
frame n = codes "\r\n" ++ (uint_to_hex_string_zeropad n 4 ++ codes "\r\n")

abbrev pub last_frame : Bytes
last_frame = codes "\r\n0\r\n\r\n"

size_digit-hex_digit : (n : ℕ) → size_digit (hex_digit n) ≡ some (n % 16)
unfolding size_digit hex_digit
size_digit-hex_digit n = ground arith

hex_digit-ne-cr : (n : ℕ) → (hex_digit n == 13) ≡ false
unfolding hex_digit
hex_digit-ne-cr n = ground arith

read_digit :
    (w n : ℕ) (s out : Bytes)
    → read (at cds_size false w) (hex_digit n ∷ s) out
      ≡ read (at cds_size false ((w * 16 + n % 16) % 2 ^ 64)) s out
unfolding read
read_digit w n s out = ground (arith, hex_digit-ne-cr n, size_digit-hex_digit n)

read_crlf :
    (s out : Bytes)
    → read (at cds_cr1 false 0) (codes "\r\n" ++ s) out ≡ read (at cds_size false 0) s out
unfolding read
read_crlf s out = refl

read_size_end :
    (w : ℕ) (out : Bytes)
    → 0 < w
    → read (at cds_size false w) (codes "\r\n") out ≡ more (at cds_data false w) out
unfolding read
read_size_end w out h = ground arith

-- A header is read as the size that it was printed from.
pub read-frame :
    (n : ℕ) (out : Bytes)
    → 0 < n
    → n ≤ 0xffff
    → read (at cds_cr1 false 0) (frame n) out ≡ more (at cds_data false n) out
unfolding uint_to_hex_string_zeropad
read-frame n out lo hi =
    read_crlf _ out
    ∙ read_digit 0 (n / 16 / 16 / 16) _ out
    ∙ read_digit _ (n / 16 / 16) _ out
    ∙ read_digit _ (n / 16) _ out
    ∙ read_digit _ n _ out
    ∙ read_size_end _ out (omega arith)
    ∙ ap (λ w. more (at cds_data false w) out) (omega arith)

-- The last frame is read as the end of the stream.
pub read-last_frame :
    (out : Bytes) → read (at cds_cr1 false 0) last_frame out ≡ complete (at cds_lf1 true 0) out
unfolding read size_digit
read-last_frame out = refl

-- Bytes read behind the first `p` of a frame.
pub continue-read :
    (p k : ℕ) (buf out : Bytes)
    → continue (read (at cds_cr1 false 0) (take p buf) out) (take k (drop p buf))
      ≡ read (at cds_cr1 false 0) (take (p + k) buf) out
continue-read p k buf out =
    sym (read-append (at cds_cr1 false 0) (take p buf) (take k (drop p buf)) out)
    ∙ ap (λ s. read (at cds_cr1 false 0) s out) (sym (take_add p k buf))

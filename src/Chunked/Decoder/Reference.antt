-- ===== src/Chunked/Decoder/Reference.antt =====
-- A decoder that reads one byte at a time: what the stream decoder of src/lib/http_utils.c is held to.
use nxweb.Base.{
  ℕ, zero, suc, ◌+◌, ◌-◌, ◌*◌, ◌%◌, ◌^◌, ◌≤◌, ◌<◌, ◌≡◌, refl, Bool, true, false, none, some, [],
  ◌∷◌, ◌++◌, append-nil, append_assoc, Bytes, ◌==◌, if◌then◌else◌, length, take, drop, length-drop,
  arith, Option-cases, sym, inl, inr,
}
use nxweb.Chunked.Decoder.{
  Code, cds_cr1, cds_lf1, cds_size, cds_lf2, cds_data, Decoder, Result, more, complete, bad, wild,
  cr, lf, is_negative, size_digit, decode_step, decode_loop, decode,
}

-- What one byte does: it is payload, it is framing, it ends the stream, or it is refused.
pub data Feed : Type 0 where
  emit : Decoder → Feed
  pass : Decoder → Feed
  last : Decoder → Feed
  refuse : Feed
  stray : Feed

abbrev pub framing : Code → Decoder → ℕ → Feed
framing cds_cr1 d c = if c == cr then pass (record d { state = cds_lf1 }) else refuse
framing cds_lf1 d c =
    if c == lf
    then if d.final_chunk then last d else pass (record d { state = cds_size })
    else refuse
framing cds_size d c =
    if c == cr
    then pass (record d {
      final_chunk = if d.chunk_bytes_left == 0 then true else d.final_chunk;
      state = cds_lf2;
    })
    else elim (size_digit c) [
      | none ↦ refuse
      | some v ↦ pass (record d { chunk_bytes_left = (d.chunk_bytes_left * 16 + v) % 2 ^ 64 })
    ]
framing cds_lf2 d c = if c == lf then pass (record d { state = cds_data }) else refuse
framing cds_data d c = refuse

abbrev pub feed : Code → Decoder → ℕ → Feed
feed cds_data d c =
    if is_negative d.chunk_bytes_left
    then stray
    else if d.chunk_bytes_left == 0
    then framing cds_cr1 (record d { state = cds_cr1 }) c
    else if d.chunk_bytes_left == 1
    then emit (record d { state = cds_cr1; chunk_bytes_left = 0 })
    else emit (record d { chunk_bytes_left = d.chunk_bytes_left - 1 })
feed cds_cr1 d c = framing cds_cr1 d c
feed cds_lf1 d c = framing cds_lf1 d c
feed cds_size d c = framing cds_size d c
feed cds_lf2 d c = framing cds_lf2 d c

unfoldable pub read : Decoder → Bytes → Bytes → Result
read d [] out = more d out
read d (c ∷ s) out = elim (feed d.state d c) [
  | emit d' ↦ read d' s (out ++ c ∷ [])
  | pass d' ↦ read d' s out
  | last d' ↦ complete d' out
  | refuse ↦ bad
  | stray ↦ wild
]

-- A decoder that is not only monitoring.
abbrev pub at : Code → Bool → ℕ → Decoder
at c f w = record { state = c; final_chunk = f; monitor_only = false; chunk_bytes_left = w }

-- Payload that the chunk outlasts is kept whole.
pub read_short :
    (xs out : Bytes) (f : Bool) (w : ℕ)
    → length xs < w
    → w < 2 ^ 63
    → read (at cds_data f w) xs out ≡ more (at cds_data f (w - length xs)) (out ++ xs)
unfolding read
read_short [] out f w h k = rw append-nil (ground arith)
read_short (c ∷ s) out f w h k =
    ground (arith, read_short s (out ++ c ∷ []) f (w - 1), append_assoc out (c ∷ []) s)

-- Where input is left, the rest of the chunk is payload and the framing of the next one follows.
read_long :
    (c : ℕ) (s out : Bytes) (f : Bool) (w : ℕ)
    → w ≤ suc (length s)
    → w < 2 ^ 63
    → read (at cds_data f w) (c ∷ s) out
      ≡ read (at cds_cr1 f 0) (drop w (c ∷ s)) (out ++ take w (c ∷ s))
unfolding read
read_long c s out f zero h k = rw append-nil refl
read_long c s out f (suc zero) h k = refl
read_long c [] out f (suc (suc w)) h k = absurd (omega arith)
read_long c (b ∷ s) out f (suc (suc w)) h k =
    ground
      (arith, read_long b s (out ++ c ∷ []) f (suc w), append_assoc out (c ∷ []) (b ∷ take w s))

-- The last byte of a chunk ends it.
pub read_exact :
    (xs out : Bytes) (f : Bool) (w : ℕ)
    → length xs ≡ w
    → 0 < w
    → w < 2 ^ 63
    → read (at cds_data f w) xs out ≡ more (at cds_cr1 f 0) (out ++ xs)
unfolding read
read_exact [] out f w e h k = absurd (omega arith)
read_exact (c ∷ []) out f w e h k = rw (sym e) refl
read_exact (c ∷ b ∷ s) out f w e h k =
    ground (arith, read_exact (b ∷ s) (out ++ c ∷ []) f (w - 1), append_assoc out (c ∷ []) (b ∷ s))

read_wild :
    (c : ℕ) (s out : Bytes) (f : Bool) (w : ℕ)
    → is_negative w ≡ true
    → read (at cds_data f w) (c ∷ s) out ≡ wild
unfolding read
read_wild c s out f w h = ground arith

-- The state of payload costs one round more: the one that leaves it.
abbrev extra : Code → ℕ
extra cds_data = 1
extra _ = 0

-- In the state of payload nothing stands between the two pointers.
abbrev IsTight : Code → Bytes → Type 0
IsTight cds_data gap = gap ≡ []
IsTight _ gap = Unit

decode_loop_data :
    (n : ℕ) (f : Bool) (w : ℕ) (out : Bytes) (x : ℕ) (s : Bytes)
    → decode_loop n
        (at cds_cr1 f 0)
        (record { out = out ++ take w (x ∷ s); gap = []; rest = drop w (x ∷ s) })
      ≡ read (at cds_cr1 f 0) (drop w (x ∷ s)) (out ++ take w (x ∷ s))
    → decode_loop (suc n) (at cds_data f w) (record { out = out; gap = []; rest = x ∷ s })
      ≡ read (at cds_data f w) (x ∷ s) out
unfolding decode_loop decode_step
decode_loop_data n f w out x s ih =
    ground (arith, read_wild x s out f w, read_long x s out f w, read_short (x ∷ s) out f w)

decode_loop-read :
    (n : ℕ) (c : Code) (f : Bool) (w : ℕ) (out gap rest : Bytes)
    → IsTight c gap
    → 2 * length rest + extra c < n
    → decode_loop n (at c f w) (record { out = out; gap = gap; rest = rest })
      ≡ read (at c f w) rest out
unfolding decode_loop decode_step read
decode_loop-read zero c f w out gap rest t h = absurd (omega arith)
decode_loop-read (suc n) c f w out gap [] t h = refl
decode_loop-read (suc n) cds_cr1 f w out gap (x ∷ s) t h =
    ground (arith, decode_loop-read n cds_lf1 f w out (gap ++ x ∷ []) s tt (omega arith))
decode_loop-read (suc n) cds_lf1 f w out gap (x ∷ s) t h =
    ground (arith, decode_loop-read n cds_size f w out (gap ++ x ∷ []) s tt (omega arith))
decode_loop-read (suc n) cds_size f w out gap (x ∷ s) t h = elim (Option-cases (size_digit x)) [
  | inl e ↦ ground (
    arith,
    decode_loop-read n cds_lf2 (if w == 0 then true else f) w out (gap ++ x ∷ []) s tt
        (omega arith),
  )
  | inr (v, e) ↦ ground (
    arith,
    decode_loop-read n cds_lf2 (if w == 0 then true else f) w out (gap ++ x ∷ []) s tt
        (omega arith),
    decode_loop-read n cds_size f ((w * 16 + v) % 2 ^ 64) out (gap ++ x ∷ []) s tt (omega arith),
  )
]
decode_loop-read (suc n) cds_lf2 f w out gap (x ∷ s) t h =
    ground (arith, decode_loop-read n cds_data f w out [] s refl (omega arith))
decode_loop-read (suc n) cds_data f w out gap (x ∷ s) t h = rw t (
    decode_loop_data n f w out x s (
      decode_loop-read n cds_cr1 f 0 (out ++ take w (x ∷ s)) [] (drop w (x ∷ s)) tt
        (omega (arith, length-drop w (x ∷ s)))))

-- A stream decoder that rewrites the buffer, so not one that only monitors it, moves payload in
-- blocks and shifts the buffer down over the framing: it returns what the decoder of single bytes
-- returns, on every input and from every other part of its state.
pub decode-read :
    (c : Code) (f : Bool) (w : ℕ) (buf : Bytes) → decode (at c f w) buf ≡ read (at c f w) buf []
unfolding decode
decode-read cds_data f w buf = decode_loop-read _ cds_data f w [] [] buf refl (omega arith)
decode-read cds_cr1 f w buf = decode_loop-read _ cds_cr1 f w [] [] buf tt (omega arith)
decode-read cds_lf1 f w buf = decode_loop-read _ cds_lf1 f w [] [] buf tt (omega arith)
decode-read cds_size f w buf = decode_loop-read _ cds_size f w [] [] buf tt (omega arith)
decode-read cds_lf2 f w buf = decode_loop-read _ cds_lf2 f w [] [] buf tt (omega arith)

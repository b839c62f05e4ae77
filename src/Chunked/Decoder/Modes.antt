-- ===== src/Chunked/Decoder/Modes.antt =====
-- The two modes of the stream decoder of src/lib/http_utils.c: rewriting the buffer, or only watching.
use nxweb.Base.{
  ℕ, zero, suc, ◌+◌, ◌*◌, ◌%◌, ◌^◌, ◌≡◌, refl, Bool, true, [], ◌∷◌, ◌++◌, append_assoc, Bytes, ◌==◌,
  if◌then◌else◌, arith, Option-cases, ◌∙◌, ap, inl, inr, take, drop, take-append-drop,
}
use nxweb.Chunked.Decoder.{
  Code, cds_cr1, cds_lf1, cds_size, cds_lf2, cds_data, Decoder, Result, more, complete, bad, wild,
  unfinished, size_digit, decode, decode_loop, decode_step,
}
use nxweb.Chunked.Decoder.Reference.{at}

-- What a call that only watches makes of the result of one that rewrites `buf`.
abbrev pub watched : Bytes → Result → Result
watched buf (more d out) = more (record d { monitor_only = true }) buf
watched buf (complete d out) = complete (record d { monitor_only = true }) buf
watched buf bad = bad
watched buf wild = wild
watched buf unfinished = unfinished

-- A decoder that only monitors.
abbrev pub watching : Code → Bool → ℕ → Decoder
watching c f w = record (at c f w) { monitor_only = true }

-- Moving the pointers over a byte, or over a block, leaves the whole buffer as it is.
whole-skip : (out gap s : Bytes) (x : ℕ) → out ++ ((gap ++ x ∷ []) ++ s) ≡ out ++ (gap ++ x ∷ s)
whole-skip out gap s x = simp append_assoc

whole-block :
    (out gap s : Bytes) (w : ℕ) → (out ++ (gap ++ take w s)) ++ ([] ++ drop w s) ≡ out ++ (gap ++ s)
whole-block out gap s w = simp (append_assoc, take-append-drop)

decode_loop-watched :
    (n : ℕ) (c : Code) (f : Bool) (w : ℕ) (rest out gap out' gap' buf : Bytes)
    → out ++ (gap ++ rest) ≡ buf
    → decode_loop n (watching c f w) (record { out = out; gap = gap; rest = rest })
      ≡ watched buf (decode_loop n (at c f w) (record { out = out'; gap = gap'; rest = rest }))
unfolding decode_loop decode_step
decode_loop-watched zero c f w rest out gap out' gap' buf e = refl
decode_loop-watched (suc n) c f w [] out gap out' gap' buf e = ap (more (watching c f w)) e
decode_loop-watched (suc n) cds_cr1 f w (x ∷ s) out gap out' gap' buf e = ground (
  arith,
  decode_loop-watched n cds_lf1 f w s out (gap ++ x ∷ []) out' (gap' ++ x ∷ []) buf
      (whole-skip out gap s x ∙ e),
)
decode_loop-watched (suc n) cds_lf1 f w (x ∷ s) out gap out' gap' buf e = ground (
  arith,
  decode_loop-watched n cds_size f w s out (gap ++ x ∷ []) out' (gap' ++ x ∷ []) buf
      (whole-skip out gap s x ∙ e),
)
decode_loop-watched (suc n) cds_size f w (x ∷ s) out gap out' gap' buf e =
    let lf2 =
      decode_loop-watched n cds_lf2 (if w == 0 then true else f) w s out (gap ++ x ∷ []) out'
        (gap' ++ x ∷ []) buf (whole-skip out gap s x ∙ e) in
    elim (Option-cases (size_digit x)) [
      | inl q ↦ ground (arith, lf2)
      | inr (v, q) ↦ ground (
        arith,
        lf2,
        decode_loop-watched n cds_size f ((w * 16 + v) % 2 ^ 64) s out (gap ++ x ∷ []) out'
            (gap' ++ x ∷ []) buf (whole-skip out gap s x ∙ e),
      )
    ]
decode_loop-watched (suc n) cds_lf2 f w (x ∷ s) out gap out' gap' buf e = ground (
  arith,
  decode_loop-watched n cds_data f w s out (gap ++ x ∷ []) out' [] buf (whole-skip out gap s x ∙ e),
)
decode_loop-watched (suc n) cds_data f w (x ∷ s) out gap out' gap' buf e = ground (
  arith,
  decode_loop-watched n cds_cr1 f 0 (drop w (x ∷ s)) (out ++ (gap ++ take w (x ∷ s))) []
      (out' ++ (gap' ++ take w (x ∷ s))) [] buf (whole-block out gap (x ∷ s) w ∙ e),
)

-- A decoder that only monitors comes to the same verdict and state as one that rewrites the buffer,
-- and leaves the buffer and its length as they were.
pub decode-watched :
    (c : Code) (f : Bool) (w : ℕ) (buf : Bytes)
    → decode (watching c f w) buf ≡ watched buf (decode (at c f w) buf)
unfolding decode
decode-watched c f w buf = decode_loop-watched _ c f w buf [] [] [] [] buf refl

-- ===== src/Chunked/Decoder/Split.antt =====
-- The stream decoder of src/lib/http_utils.c over input that arrives in pieces.
use nxweb.Base.{
  ℕ, ◌≡◌, ◌≢◌, refl, false, [], ◌∷◌, ◌++◌, append-nil, append_assoc, Bytes, arith, Option-cases,
  sym, ◌∙◌, ap, inl, inr,
}
use nxweb.Chunked.Decoder.{
  Code, cds_cr1, cds_lf1, cds_size, cds_lf2, cds_data, Decoder, Result, more, complete, bad, wild,
  unfinished, size_digit, decode,
}
use nxweb.Chunked.Decoder.Reference.{
  Feed, emit, pass, last, refuse, stray, feed, framing, read, decode-read,
}

-- The payload decoded earlier stands in front of what a call decodes.
abbrev pub prepend : Bytes → Result → Result
prepend out (more d o) = more d (out ++ o)
prepend out (complete d o) = complete d (out ++ o)
prepend out bad = bad
prepend out wild = wild
prepend out unfinished = unfinished

-- The next call, on the state that the one before left.
abbrev pub resume : Result → Bytes → Result
resume (more d out) t = prepend out (decode d t)
resume r t = r

-- Only decoders that are not monitoring come out.
abbrev IsPlain : Result → Type 0
IsPlain (more d out) = d.monitor_only ≡ false
IsPlain (complete d out) = Unit
IsPlain bad = Unit
IsPlain wild = Unit
IsPlain unfinished = ⊥

abbrev IsPlainFeed : Feed → Type 0
IsPlainFeed (emit d) = d.monitor_only ≡ false
IsPlainFeed (pass d) = d.monitor_only ≡ false
IsPlainFeed _ = Unit

framing-IsPlain :
    (c : Code) (d : Decoder) (x : ℕ) → d.monitor_only ≡ false → IsPlainFeed (framing c d x)
framing-IsPlain cds_cr1 d x h = ground arith
framing-IsPlain cds_lf1 d x h = ground arith
framing-IsPlain cds_size d x h = elim (Option-cases (size_digit x)) [
  | inl e ↦ rw e (ground arith)
  | inr (v, e) ↦ rw e (ground arith)
]
framing-IsPlain cds_lf2 d x h = ground arith
framing-IsPlain cds_data d x h = tt

feed-IsPlain : (c : Code) (d : Decoder) (x : ℕ) → d.monitor_only ≡ false → IsPlainFeed (feed c d x)
feed-IsPlain cds_data d x h = ground arith
feed-IsPlain cds_cr1 d x h = framing-IsPlain cds_cr1 d x h
feed-IsPlain cds_lf1 d x h = framing-IsPlain cds_lf1 d x h
feed-IsPlain cds_size d x h = framing-IsPlain cds_size d x h
feed-IsPlain cds_lf2 d x h = framing-IsPlain cds_lf2 d x h

abbrev after : Feed → Decoder → ℕ → Bytes → Bytes → Result
after r d x s out = elim r [
  | emit d' ↦ read d' s (out ++ x ∷ [])
  | pass d' ↦ read d' s out
  | last d' ↦ complete d' out
  | refuse ↦ bad
  | stray ↦ wild
]

read-IsPlain : (d : Decoder) (s out : Bytes) → d.monitor_only ≡ false → IsPlain (read d s out)
unfolding read
read-IsPlain d [] out h = h
read-IsPlain d (x ∷ s) out h =
    (elim (feed d.state d x) as (λ r. IsPlainFeed r → IsPlain (after r d x s out)) [
      | emit d' ↦ λ p. read-IsPlain d' s (out ++ x ∷ []) p
      | pass d' ↦ λ p. read-IsPlain d' s out p
      | last d' ↦ λ p. tt
      | refuse ↦ λ p. tt
      | stray ↦ λ p. tt
    ])
      (feed-IsPlain d.state d x h)

prepend-append : (a b : Bytes) (r : Result) → prepend (a ++ b) r ≡ prepend a (prepend b r)
prepend-append a b (more d o) = ap (more d) (append_assoc a b o)
prepend-append a b (complete d o) = ap (complete d) (append_assoc a b o)
prepend-append a b bad = refl
prepend-append a b wild = refl
prepend-append a b unfinished = refl

-- What is decoded does not depend on what was decoded before.
read-prepend : (d : Decoder) (s out : Bytes) → read d s out ≡ prepend out (read d s [])
unfolding read
read-prepend d [] out = rw append-nil
read-prepend d (x ∷ s) out =
    elim (feed d.state d x) as (λ r. after r d x s out ≡ prepend out (after r d x s [])) [
      | emit d' ↦
          read-prepend d' s (out ++ x ∷ [])
          ∙ prepend-append out (x ∷ []) (read d' s [])
          ∙ ap (prepend out) (sym (read-prepend d' s (x ∷ [])))
      | pass d' ↦ read-prepend d' s out
      | last d' ↦ rw append-nil
      | refuse ↦ refl
      | stray ↦ refl
    ]

-- The next call of the decoder of single bytes.
abbrev pub continue : Result → Bytes → Result
continue (more d out) t = read d t out
continue r t = r

pub read-append : (d : Decoder) (s t out : Bytes) → read d (s ++ t) out ≡ continue (read d s out) t
unfolding read
read-append d [] t out = refl
read-append d (x ∷ s) t out =
    elim (feed d.state d x) as (λ r. after r d x (s ++ t) out ≡ continue (after r d x s out) t) [
      | emit d' ↦ read-append d' s t (out ++ x ∷ [])
      | pass d' ↦ read-append d' s t out
      | last d' ↦ refl
      | refuse ↦ refl
      | stray ↦ refl
    ]

decode-read_plain : (d : Decoder) (s : Bytes) → d.monitor_only ≡ false → decode d s ≡ read d s []
decode-read_plain d s h = rw h (decode-read d.state d.final_chunk d.chunk_bytes_left s)

continue-resume : (r : Result) (t : Bytes) → IsPlain r → continue r t ≡ resume r t
continue-resume (more d out) t h =
    read-prepend d t out ∙ ap (prepend out) (sym (decode-read_plain d t h))
continue-resume (complete d out) t h = refl
continue-resume bad t h = refl
continue-resume wild t h = refl
continue-resume unfinished t h = refl

-- A decoder that is not only monitoring reads a buffer in two pieces, cut anywhere, as it reads it
-- whole: the same verdict, the same state, and the payload of the one call after the other's.
pub decode-append :
    (d : Decoder) (s t : Bytes) → d.monitor_only ≡ false → decode d (s ++ t) ≡ resume (decode d s) t
decode-append d s t h =
    decode-read_plain d (s ++ t) h
    ∙ read-append d s t []
    ∙ continue-resume (read d s []) t (read-IsPlain d s [] h)
    ∙ ap (λ r. resume r t) (sym (decode-read_plain d s h))

-- The fuel of the model suffices: the loop of a decoder that is not only monitoring ends by itself.
pub decode-ne-unfinished :
    (d : Decoder) (s : Bytes) → d.monitor_only ≡ false → decode d s ≢ unfinished
decode-ne-unfinished d s h e =
    let plain : IsPlain unfinished =
      rw (sym (decode-read_plain d s h) ∙ e) at (read-IsPlain d s [] h) in
    plain

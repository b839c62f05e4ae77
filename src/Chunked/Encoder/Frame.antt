-- ===== src/Chunked/Encoder/Frame.antt =====
-- What one frame written by src/lib/nxd_http_server_proto.c does to the phase of the encoder.
use nxweb.Base.{
  ℕ, zero, suc, ◌-◌, ◌≤◌, ◌<◌, ◌≡◌, refl, Bool, true, false, none, some, Bytes, codes, ltb, ◌==◌,
  arith, sym, ◌∙◌, ap, inl, inr, take, drop, Bool-cases, not, some_inj, none-ne-some,
}
use mathlib.Core.Path.{subst}
use nxweb.Misc.{uint_to_hex_string_zeropad}
use nxweb.Chunked.Decoder.{cds_cr1, Result}
use nxweb.Chunked.Decoder.Reference.{at, read}
use nxweb.Chunked.Encoder.{
  Encoder, Offer, Sent, encode, encode_start, encode_header, encode_data, start_final, start_chunk,
  frame_sent, write_frame, write_at, max_chunk,
}
use nxweb.Chunked.Encoder.Phase.{
  left, IsIdle, IsHeader, IsBody, IsEnding, Phase, idle, header, body, ending,
}
use nxweb.Chunked.Encoder.Kinds.{
  IsFramed, take-crlf, header-IsFramed, ending-IsFramed, idle-IsFramed, body-IsFramed,
}

-- The header of a new chunk leaves the two bytes of the line end in front of it.
start_chunk-IsHeader :
    {e : Encoder} {payload : Bytes} {tape : Result} (n : ℕ)
    → IsIdle e payload tape
    → 0 < n
    → n ≤ 0xffff
    → IsHeader
        (start_chunk e n (write_at e.buf 2 (uint_to_hex_string_zeropad n 4))).encoder
        payload
        tape
unfolding uint_to_hex_string_zeropad
start_chunk-IsHeader {e} {payload} n i lo hi = record {
  opened = i.opened;
  busy = refl;
  inside = omega arith;
  some_bytes = lo;
  fits = hi;
  buffer = rw (i.start, i.tail);
  seen = i.seen ∙ ap (λ s. read (at cds_cr1 false 0) s payload) (take-crlf e.pos _ i.low);
}

start_final-IsEnding :
    {e : Encoder} {payload : Bytes} {tape : Result}
    → IsIdle e payload tape
    → IsEnding (start_final e (write_at e.buf 2 (codes "0\r\n\r\n"))).encoder payload tape
start_final-IsEnding {e} {payload} i = record {
  closed = refl;
  inside = omega arith;
  buffer = rw i.start;
  seen = i.seen ∙ ap (λ s. read (at cds_cr1 false 0) s payload) (take-crlf e.pos _ i.low);
}

suc-eq-zero : (n : ℕ) → (suc n == 0) ≡ false
suc-eq-zero n = ground arith

module _ {e : Encoder} {payload : Bytes} {tape : Result} where
  start-IsFramed :
      (offered : ℕ) (eof : Bool) (room : ℕ)
      → IsIdle e payload tape
      → IsFramed payload tape offered (frame_sent (encode_start e offered eof) room)
  unfolding encode_start
  start-IsFramed zero true room i = ending-IsFramed 0 room true (start_final-IsEnding i)
  start-IsFramed zero false room i = idle-IsFramed 0 room false (not (2 - e.pos == 0)) i
  start-IsFramed (suc n) eof room i = elim (Bool-cases (ltb max_chunk (suc n))) [
    | inl big ↦
        rw (suc-eq-zero n, big)
          (header-IsFramed (suc n) room
            (start_chunk-IsHeader max_chunk i (omega arith) (omega arith)) (ground arith))
    | inr small ↦
        rw (suc-eq-zero n, small)
          (header-IsFramed (suc n) room
            (start_chunk-IsHeader (suc n) i (omega arith) (ground arith)) (omega arith))
  ]

  module _ (offered : ℕ) (eof : Bool) where
    encode-idle : IsIdle e payload tape → encode e offered eof ≡ some (encode_start e offered eof)
    unfolding encode
    encode-idle i = ground arith

    encode-header : IsHeader e payload tape → encode e offered eof ≡ encode_header e offered eof
    unfolding encode
    encode-header i = ground arith

    encode-body : IsBody e payload tape → encode e offered eof ≡ encode_data e offered eof
    unfolding encode
    encode-body i = ground arith

  encode-ending :
      (offered : ℕ) (eof : Bool)
      → eof ≡ true
      → IsEnding e payload tape
      → encode e offered eof
        ≡ some (record {
          encoder = e;
          offered = offered;
          send = drop e.pos (take 7 e.buf);
          eof = true;
          ready = true;
        })
  unfolding encode
  encode-ending offered eof h i = rw (i.closed, h)

  encode-ending_open :
      (offered : ℕ) (eof : Bool)
      → eof ≡ false
      → IsEnding e payload tape
      → encode e offered eof ≡ none
  unfolding encode
  encode-ending_open offered eof h i = rw (i.closed, h)

module _ (e : Encoder) (offered : ℕ) (eof : Bool) (room : ℕ) where
  write_frame-some :
      (o : Offer)
      → encode e offered eof ≡ some o
      → write_frame e offered eof room ≡ some (frame_sent o room)
  unfolding write_frame
  write_frame-some o h = rw (h, write_frame)

  write_frame-none : encode e offered eof ≡ none → write_frame e offered eof room ≡ none
  unfolding write_frame
  write_frame-none h = rw (h, write_frame)

-- A frame that the encoder hands out without a failed assertion, however much of it the socket
-- takes, leaves the encoder in a phase that agrees with the wire.
pub write_frame-IsFramed :
    {e : Encoder} {payload : Bytes} {tape : Result} (offered : ℕ) (eof : Bool) (room : ℕ)
    {out : Sent × ℕ}
    → Phase e payload tape
    → (e.final_chunk ≡ true → offered ≡ 0)
    → write_frame e offered eof room ≡ some out
    → IsFramed payload tape offered out
unfolding encode_header encode_data
write_frame-IsFramed {e} {payload} {tape} offered eof room {out} p closed h = go p
  where
    served :
        (o : Offer)
        → encode e offered eof ≡ some o
        → IsFramed payload tape offered (frame_sent o room)
        → IsFramed payload tape offered out
    served o q =
        subst (IsFramed payload tape offered)
          (some_inj (sym (write_frame-some e offered eof room o q) ∙ h))

    failed : encode e offered eof ≡ none → IsFramed payload tape offered out
    failed q = absurd (none-ne-some (sym (write_frame-none e offered eof room q) ∙ h))

    go : Phase e payload tape → IsFramed payload tape offered out
    go (idle i) = served _ (encode-idle offered eof i) (start-IsFramed offered eof room i)
    go (header i) = elim (Bool-cases (ltb offered e.chunk_size)) [
      | inl few ↦ failed (encode-header offered eof i ∙ rw few)
      | inr enough ↦
          served _ (encode-header offered eof i ∙ rw enough)
            (header-IsFramed offered room i (ground arith))
    ]
    go (body i) = elim (Bool-cases (ltb offered (left e))) [
      | inl few ↦ failed (encode-body offered eof i ∙ rw few)
      | inr enough ↦
          served _ (encode-body offered eof i ∙ rw enough)
            (body-IsFramed offered room i (ground arith))
    ]
    go (ending i) = elim (Bool-cases eof) [
      | inl last ↦
          served _ (encode-ending offered eof last i)
            (rw (closed i.closed) (ending-IsFramed 0 room true i))
      | inr early ↦ failed (encode-ending_open offered eof early i)
    ]

-- ===== src/Chunked/RoundTrip.antt =====
-- What a response in chunks says to its reader: the bytes that src/lib/nxd_http_server_proto.c puts on
-- the wire, in writes of any size, are decoded to the body by `_nxweb_decode_chunked_stream`.
use nxweb.Base.{ℕ, ◌≡◌, refl, Bool, true, false, some, [], ◌++◌, Bytes, arith, sym, ◌∙◌, ap, take}
use nxweb.Chunked.Decoder.{cds_cr1, cds_lf1, cds_size, decode, Result, complete}
use nxweb.Chunked.Decoder.Reference.{at, read, decode-read}
use nxweb.Chunked.Decoder.Split.{continue, read-append}
use nxweb.Chunked.Encoder.{Encoder, encode_init, Sent, server_write, is_complete}
use nxweb.Chunked.Encoder.Wire.{last_frame, read-last_frame}
use nxweb.Chunked.Encoder.Phase.{crlf, part, Phase, idle, header, body, ending}
use nxweb.Chunked.Encoder.Write.{server_write-IsWritten}

-- The rounds of one response so far: the encoder, the bytes on the wire, and the data sent. Once
-- the final chunk was started no data is offered.
pub data Run : Encoder → Bytes → Bytes → Type 0 where
  start : Run encode_init [] []
  round :
      {e : Encoder} {wire sent : Bytes} (payload : Bytes) (eof : Bool) (a b c : ℕ) (s : Sent)
      → Run e wire sent
      → (e.final_chunk ≡ true → payload ≡ [])
      → server_write e payload eof a b c ≡ some s
      → Run s.encoder (wire ++ s.wire) (sent ++ take s.bytes_sent payload)

-- What a decoder makes of the wire, behind a line end as it stands in front of every frame.
tape : Bytes → Result
tape wire = read (at cds_cr1 false 0) (crlf ++ wire) []

tape-append :
    (wire more_bytes : Bytes) → tape (wire ++ more_bytes) ≡ continue (tape wire) more_bytes
unfolding tape
tape-append wire more_bytes = read-append (at cds_cr1 false 0) (crlf ++ wire) more_bytes []

-- The first frame stands behind no line end.
tape-read : (wire : Bytes) → tape wire ≡ read (at cds_size false 0) wire []
unfolding tape read
tape-read wire = refl

Run-Phase : {e : Encoder} {wire sent : Bytes} → Run e wire sent → Phase e sent (tape wire)
unfolding read
Run-Phase start = idle (record {
  opened = refl;
  free = refl;
  low = omega arith;
  start = refl;
  tail = refl;
  seen = tape-read [];
})
Run-Phase (round {e} {wire} {sent} payload eof a b c s r closed h) =
    rw (tape-append wire s.wire)
      (server_write-IsWritten sent (tape wire) payload e eof a b c (Run-Phase r) closed h)

complete-tape :
    (e : Encoder) (sent : Bytes) (t : Result)
    → Phase e sent t
    → is_complete e ≡ true
    → t ≡ complete (at cds_lf1 true 0) sent
unfolding is_complete
complete-tape e sent t (idle i) h = ground arith
complete-tape e sent t (header i) h = ground arith
complete-tape e sent t (body i) h = ground arith
complete-tape e sent t (ending i) h =
    let all_of : e.pos ≡ 7 = ground arith in
    i.seen ∙ ap (λ n. part n last_frame sent) all_of ∙ read-last_frame sent

-- When the encoder reports that it is complete, then, whatever the socket took at each write, the
-- decoder reads the wire as a complete stream, and as just the data that was sent.
pub decode-Run :
    {e : Encoder} (wire sent : Bytes)
    → Run e wire sent
    → is_complete e ≡ true
    → decode (at cds_size false 0) wire ≡ complete (at cds_lf1 true 0) sent
decode-Run {e} wire sent r h =
    decode-read cds_size false 0 wire
    ∙ sym (tape-read wire)
    ∙ complete-tape e sent (tape wire) (Run-Phase r) h

-- ===== src/Chunked/Encoder/Kinds.antt =====
-- What a frame of each kind, written by src/lib/nxd_http_server_proto.c, does to the phase of the
-- encoder, however much of it the socket takes.
use nxweb.Base.{
  ℕ, zero, suc, min, ◌+◌, ◌-◌, ◌≤◌, ◌≡◌, ◌≢◌, refl, Bool, true, false, [], ◌++◌, Bytes, ◌==◌, arith,
  ◌∙◌, ap, length, take, drop, length-drop, not,
}
use native.Mathlib.Decide.{dec_lt}
use nxweb.Misc.{uint_to_hex_string_zeropad}
use nxweb.Chunked.Decoder.{Result, more, complete, bad, wild, unfinished}
use nxweb.Chunked.Decoder.Reference.{read}
use nxweb.Chunked.Decoder.Split.{continue}
use nxweb.Chunked.Encoder.{Encoder, Sent, frame_sent}
use nxweb.Chunked.Encoder.Wire.{frame, last_frame}
use nxweb.Chunked.Encoder.Phase.{
  crlf, left, IsIdle, IsHeader, IsBody, IsEnding, Phase, idle, header, body, ending, advance-IsIdle,
  advance-IsHeader, advance-IsEnding, advance_header-IsBody,
}

-- After a frame: the phase, and, if all of it went out and `chunk` bytes of data are to follow,
-- that the encoder waits for just these.
pub record IsFramed (payload : Bytes) (tape : Result) (offered : ℕ) (out : Sent × ℕ) : Type 0 where
  pub phase : Phase out.0.encoder payload (continue tape out.0.wire)
  pub ready :
      out.0.skip ≡ false
      → out.1 ≢ 0
      → IsBody out.0.encoder payload (continue tape out.0.wire) × (left out.0.encoder ≡ out.1)
  pub no_data : out.0.bytes_sent ≡ 0
  pub within : out.1 ≤ offered

pub continue-nil : (r : Result) → continue r [] ≡ r
unfolding read
continue-nil (more d out) = refl
continue-nil (complete d out) = refl
continue-nil bad = refl
continue-nil wild = refl
continue-nil unfinished = refl

pub length-frame : (n : ℕ) → length (frame n) ≡ 8
unfolding uint_to_hex_string_zeropad
length-frame n = refl

-- The line end in front of every frame.
pub take-crlf : (n : ℕ) (s : Bytes) → n ≤ 2 → take n crlf ≡ take n (crlf ++ s)
take-crlf zero s h = refl
take-crlf (suc zero) s h = refl
take-crlf (suc (suc zero)) s h = refl
take-crlf (suc (suc (suc n))) s h = absurd (omega arith)

-- The test that sets `skip`.
pub whole_of_not_skip : (a b : ℕ) → not (a == b) ≡ false → a ≡ b
whole_of_not_skip a b h = ground arith

-- What is left of a header, of the final chunk and of a line end.
module _ {e : Encoder} {payload : Bytes} {tape : Result} where
  length-header : IsHeader e payload tape → length (drop e.pos e.buf) ≡ 8 - e.pos
  length-header i =
      ap (λ b. length (drop e.pos b)) i.buffer
      ∙ omega (arith, length-drop e.pos (frame e.chunk_size), length-frame e.chunk_size)

  length-ending : IsEnding e payload tape → length (drop e.pos (take 7 e.buf)) ≡ 7 - e.pos
  length-ending i =
      ap (λ b. length (drop e.pos b)) i.buffer ∙ omega (arith, length-drop e.pos last_frame)

  length-idle : IsIdle e payload tape → length (drop e.pos (take 2 e.buf)) ≡ 2 - e.pos
  length-idle i = ap (λ b. length (drop e.pos b)) i.start ∙ omega (arith, length-drop e.pos crlf)

module _ {e : Encoder} {payload : Bytes} {tape : Result} (offered room : ℕ) where
  -- A header, or the rest of one.
  pub header-IsFramed :
      IsHeader e payload tape
      → e.chunk_size ≤ offered
      → IsFramed payload tape offered (
          frame_sent
            (record {
              encoder = e;
              offered = e.chunk_size;
              send = drop e.pos e.buf;
              eof = false;
              ready = true;
            })
            room)
  unfolding frame_sent
  header-IsFramed i h = record {
    phase = elim (dec_lt (e.pos + k) 8) [
      | yes part_of ↦ header (advance-IsHeader k i part_of)
      | no all_of ↦ body (advance_header-IsBody k i (omega (arith, length-header i))).0
    ];
    ready = λ all_of more_to_come.
        advance_header-IsBody k i
          (omega (arith, length-header i, whole_of_not_skip k (length (drop e.pos e.buf)) all_of));
    no_data = refl;
    within = h;
  }
    where
      k : ℕ
      k = min room (length (drop e.pos e.buf))

  -- The final chunk, or the rest of it.
  pub ending-IsFramed :
      (eof : Bool)
      → IsEnding e payload tape
      → IsFramed payload tape offered (
          frame_sent
            (record {
              encoder = e;
              offered = 0;
              send = drop e.pos (take 7 e.buf);
              eof = eof;
              ready = true;
            })
            room)
  unfolding frame_sent
  ending-IsFramed eof i = record {
    phase = ending (
        advance-IsEnding (min room (length (drop e.pos (take 7 e.buf)))) i
          (omega (arith, length-ending i)));
    ready = λ all_of more_to_come. absurd (more_to_come refl);
    no_data = refl;
    within = omega arith;
  }

  -- The line end behind a chunk, where no data is offered.
  pub idle-IsFramed :
      (eof ready : Bool)
      → IsIdle e payload tape
      → IsFramed payload tape offered (
          frame_sent
            (record {
              encoder = e;
              offered = 0;
              send = drop e.pos (take 2 e.buf);
              eof = eof;
              ready = ready;
            })
            room)
  unfolding frame_sent
  idle-IsFramed eof true i = record {
    phase = idle (
        advance-IsIdle (min room (length (drop e.pos (take 2 e.buf)))) i
          (omega (arith, length-idle i)));
    ready = λ all_of more_to_come. absurd (more_to_come refl);
    no_data = refl;
    within = omega arith;
  }
  idle-IsFramed eof false i = record {
    phase = rw (continue-nil tape) (idle i);
    ready = λ all_of more_to_come. absurd (more_to_come refl);
    no_data = refl;
    within = omega arith;
  }

  -- No frame is written inside a chunk.
  pub body-IsFramed :
      IsBody e payload tape
      → left e ≤ offered
      → IsFramed payload tape offered (
          frame_sent
            (record { encoder = e; offered = left e; send = []; eof = false; ready = false })
            room)
  unfolding frame_sent
  body-IsFramed i h = record {
    phase = rw (continue-nil tape) (body i);
    ready = λ all_of more_to_come. (rw (continue-nil tape) i, refl);
    no_data = refl;
    within = h;
  }

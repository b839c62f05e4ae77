-- ===== src/Chunked/Encoder/Write.antt =====
-- A round of writes of src/lib/nxd_http_server_proto.c: the encoder and the wire stay in agreement.
use mathlib.Core.Path.{subst}
use nxweb.Base.{
  ℕ, min, ◌≤◌, ◌≡◌, refl, Bool, true, false, none, some, [], ◌++◌, append-nil, Bytes, ◌==◌,
  if◌then◌else◌, arith, sym, ◌∙◌, ap, inl, inr, length, take, Bool-cases, Option-cases, length-take,
  not, ◌&&◌, some_inj, none-ne-some,
}
use nxweb.Chunked.Decoder.{Result, more, complete, bad, wild, unfinished}
use nxweb.Chunked.Decoder.Split.{continue, read-append}
use nxweb.Chunked.Encoder.{
  Encoder, Sent, advance, write_frame, write_data, write_trailer, server_write,
}
use nxweb.Chunked.Encoder.Phase.{
  left, IsBody, Phase, idle, body, advance_body-IsIdle, advance-IsBody,
}
use nxweb.Chunked.Encoder.Kinds.{IsFramed}
use nxweb.Chunked.Encoder.Frame.{write_frame-IsFramed}

continue-append : (r : Result) (a b : Bytes) → continue r (a ++ b) ≡ continue (continue r a) b
continue-append (more d out) a b = read-append d a b out
continue-append (complete d out) a b = refl
continue-append bad a b = refl
continue-append wild a b = refl
continue-append unfinished a b = refl

-- After the writes: the phase, over the data sent before and in this round.
abbrev pub IsWritten : Bytes → Result → Bytes → Sent → Type 0
IsWritten sent tape payload s =
    Phase s.encoder (sent ++ take s.bytes_sent payload) (continue tape s.wire)

body_step :
    {e : Encoder} {sent : Bytes} {tape : Result} (xs : Bytes)
    → IsBody e sent tape
    → length xs ≤ left e
    → Phase (advance e (length xs)) (sent ++ xs) (continue tape xs)
body_step {e} xs i h = elim (Bool-cases (length xs == left e)) [
  | inl all_of ↦ idle (advance_body-IsIdle xs i (ground arith))
  | inr part_of ↦ body (advance-IsBody xs i (ground arith))
]

module _ (payload : Bytes) (s : Sent) (chunk room : ℕ) where
  write_data_none : not s.skip && not (chunk == 0) ≡ false → write_data s payload chunk room ≡ s
  unfolding write_data
  write_data_none h = rw h

  write_data_some :
      not s.skip && not (chunk == 0) ≡ true
      → write_data s payload chunk room ≡ record {
        encoder = advance s.encoder (min room chunk);
        wire = s.wire ++ take (min room chunk) payload;
        bytes_sent = min room chunk;
        skip = not (min room chunk == chunk);
      }
  unfolding write_data
  write_data_some h = rw h

-- What a trailer adds to the bytes sent before it.
abbrev joined : Sent → Sent → Sent
joined s t = record t { wire = s.wire ++ t.wire; bytes_sent = s.bytes_sent }

module _ (s : Sent) (eof : Bool) (room : ℕ) where
  write_trailer_skip : s.skip ≡ true → write_trailer s eof room ≡ some s
  unfolding write_trailer
  write_trailer_skip h = ground arith

  write_trailer-none :
      s.skip ≡ false → write_frame s.encoder 0 eof room ≡ none → write_trailer s eof room ≡ none
  unfolding write_trailer
  write_trailer-none h e = ground arith

  write_trailer-some :
      (t : Sent) (n : ℕ)
      → s.skip ≡ false
      → write_frame s.encoder 0 eof room ≡ some (t, n)
      → write_trailer s eof room ≡ some (joined s t)
  unfolding write_trailer
  write_trailer-some t n h e = ground arith

module _ (e : Encoder) (payload : Bytes) (eof : Bool) (a b c : ℕ) where
  server_write-none :
      write_frame e (length payload) eof a ≡ none → server_write e payload eof a b c ≡ none
  unfolding server_write
  server_write-none h = ground arith

  pub server_write-some :
      (s : Sent) (chunk : ℕ)
      → write_frame e (length payload) eof a ≡ some (s, chunk)
      → server_write e payload eof a b c
        ≡ write_trailer
            (write_data s payload chunk b)
            (if chunk == length payload then eof else false)
            c
  unfolding server_write write_trailer
  server_write-some s chunk h = rw (h, server_write)

module _ (sent : Bytes) (tape : Result) (payload : Bytes) where
  -- Where no data is written, the frame alone counts.
  unsent :
      {s : Sent} {chunk : ℕ}
      → IsFramed sent tape (length payload) (s, chunk)
      → IsWritten sent tape payload s
  unsent i = rw (i.no_data, append-nil) i.phase

  write_data-IsWritten :
      (s : Sent) (chunk room : ℕ)
      → IsFramed sent tape (length payload) (s, chunk)
      → IsWritten sent tape payload (write_data s payload chunk room)
  write_data-IsWritten s chunk room i = elim (Bool-cases (not s.skip && not (chunk == 0))) [
    | inl more_to_come ↦
        rw (write_data_some payload s chunk room more_to_come) (sent_data more_to_come)
    | inr finished ↦ rw (write_data_none payload s chunk room finished) (unsent i)
  ]
    where
      xs : Bytes
      xs = take (min room chunk) payload

      size : length xs ≡ min room chunk
      size = omega (arith, i.within, length-take (min room chunk) payload)

      sent_data :
          not s.skip && not (chunk == 0) ≡ true
          → Phase (advance s.encoder (min room chunk)) (sent ++ xs) (continue tape (s.wire ++ xs))
      sent_data h =
          let (waiting, all_of) = i.ready (ground arith) (ground arith) in
          rw (continue-append tape s.wire xs) (
            subst
              (λ n. Phase (advance s.encoder n) (sent ++ xs) (continue (continue tape s.wire) xs))
              size (body_step xs waiting (omega (arith, size, all_of))))

  write_trailer-IsWritten :
      (s : Sent) (eof : Bool) (room : ℕ) {out : Sent}
      → IsWritten sent tape payload s
      → write_trailer s eof room ≡ some out
      → IsWritten sent tape payload out
  write_trailer-IsWritten s eof room {out} h e = elim (Bool-cases s.skip) [
    | inl skip ↦
        subst (IsWritten sent tape payload)
          (some_inj (sym (write_trailer_skip s eof room skip) ∙ e)) h
    | inr all_of ↦ elim (Option-cases (write_frame s.encoder 0 eof room)) [
      | inl failed ↦ absurd (none-ne-some (sym (write_trailer-none s eof room all_of failed) ∙ e))
      | inr ((t, n), done) ↦
          subst (IsWritten sent tape payload)
            (some_inj (sym (write_trailer-some s eof room t n all_of done) ∙ e))
            (rw (continue-append tape s.wire t.wire)
              (write_frame-IsFramed 0 eof room h (λ closed. refl) done).phase)
    ]
  ]

  -- A round of writes that fails no assertion.
  pub server_write-IsWritten :
      (e : Encoder) (eof : Bool) (a b c : ℕ) {out : Sent}
      → Phase e sent tape
      → (e.final_chunk ≡ true → payload ≡ [])
      → server_write e payload eof a b c ≡ some out
      → IsWritten sent tape payload out
  server_write-IsWritten e eof a b c {out} p closed h =
      elim (Option-cases (write_frame e (length payload) eof a)) [
        | inl failed ↦
            absurd (none-ne-some (sym (server_write-none e payload eof a b c failed) ∙ h))
        | inr ((s, chunk), done) ↦
            write_trailer-IsWritten (write_data s payload chunk b)
              (if chunk == length payload then eof else false) c
              (write_data-IsWritten s chunk b
                (write_frame-IsFramed (length payload) eof a p (λ q. ap length (closed q)) done))
              (sym (server_write-some e payload eof a b c s chunk done) ∙ h)
      ]

-- ===== src/Chunked/Live.antt =====
-- A response of src/lib/nxd_http_server_proto.c that fits one chunk, and a socket with room for it.
use nxweb.Base.{
  ℕ, suc, min, ◌≤◌, ◌<◌, ◌≡◌, refl, true, false, some, ◌==◌, [], ◌∷◌, ◌++◌, Bytes, codes, arith,
  ◌∙◌, ap, length, take, drop, take_all, if◌then◌else◌, ==_iff,
}
use nxweb.Misc.{uint_to_hex_string_zeropad}
use nxweb.Chunked.Encoder.{
  Encoder, encode_init, Sent, server_write, is_complete, write_frame, write_data, write_trailer,
  frame_sent, encode, advance, write_at,
}
use nxweb.Chunked.Encoder.Write.{server_write-some}
use nxweb.Chunked.Encoder.Wire.{frame, last_frame}

-- The encoder behind the header of a chunk of `n` bytes, and behind the chunk.
abbrev opened : ℕ → Encoder
opened n = record {
  final_chunk = false;
  header_prepared = true;
  chunk_size = n;
  pos = 8;
  buf = frame n;
}

abbrev sent_header : ℕ → Sent
sent_header n = record { encoder = opened n; wire = drop 2 (frame n); bytes_sent = 0; skip = false }

min_of_le : (m n : ℕ) → n ≤ m → min m n ≡ n
min_of_le m n h = omega arith

first_frame :
    (n a : ℕ)
    → suc n ≤ 0xffff
    → 8 ≤ a
    → write_frame encode_init (suc n) true a ≡ some (sent_header (suc n), suc n)
unfolding write_frame frame_sent encode advance uint_to_hex_string_zeropad
first_frame n a hi ha = ground arith

abbrev closed : ℕ → Encoder
closed n = record (opened n) { pos = 0; header_prepared = false }

abbrev sent_all : Bytes → Sent
sent_all payload = record {
  encoder = closed (length payload);
  wire = drop 2 (frame (length payload)) ++ payload;
  bytes_sent = length payload;
  skip = false;
}

whole_payload :
    (payload : Bytes) (b : ℕ) → length payload ≤ b → take (min b (length payload)) payload ≡ payload
whole_payload payload b h = take_all (min b (length payload)) payload (omega arith)

only_chunk :
    (x : ℕ) (xs : Bytes) (b : ℕ)
    → suc (length xs) ≤ b
    → write_data (sent_header (suc (length xs))) (x ∷ xs) (suc (length xs)) b ≡ sent_all (x ∷ xs)
unfolding write_data advance
only_chunk x xs b h = ground (arith, whole_payload (x ∷ xs) b h)

-- The encoder behind the final chunk, after a chunk of `n` bytes.
abbrev finished : ℕ → Encoder
finished n = record {
  final_chunk = true;
  header_prepared = false;
  chunk_size = n;
  pos = 7;
  buf = write_at (frame n) 2 (codes "0\r\n\r\n");
}

final_frame :
    (n c : ℕ) (wire : Bytes)
    → 7 ≤ c
    → 0 < n
    → write_trailer
        (record { encoder = closed n; wire = wire; bytes_sent = n; skip = false })
        true
        c
      ≡ some
          (record { encoder = finished n; wire = wire ++ last_frame; bytes_sent = n; skip = false })
unfolding write_trailer write_frame frame_sent encode advance uint_to_hex_string_zeropad
final_frame n c wire h pos = ground arith

one_chunk :
    (x : ℕ) (xs : Bytes) (a b c : ℕ)
    → suc (length xs) ≤ 0xffff
    → 8 ≤ a
    → suc (length xs) ≤ b
    → 7 ≤ c
    → server_write encode_init (x ∷ xs) true a b c
      ≡ some (record {
        encoder = finished (suc (length xs));
        wire = (drop 2 (frame (suc (length xs))) ++ x ∷ xs) ++ last_frame;
        bytes_sent = suc (length xs);
        skip = false;
      })
one_chunk x xs a b c fits ha hb hc =
    let n = suc (length xs) in
    server_write-some encode_init (x ∷ xs) true a b c (sent_header n) n
      (first_frame (length xs) a fits ha)
    ∙ ap (λ s. write_trailer s (if n == n then true else false) c) (only_chunk x xs b hb)
    ∙ ap (λ t. write_trailer (sent_all (x ∷ xs)) (if t then true else false) c)
        ((==_iff n n).1 refl)
    ∙ final_frame n c (drop 2 (frame n) ++ x ∷ xs) hc (omega arith)

no_chunk :
    (a b c : ℕ)
    → 8 ≤ a
    → server_write encode_init [] true a b c
      ≡ some (record {
        encoder = record encode_init {
          final_chunk = true;
          pos = 7;
          buf = write_at (codes "\r\n0000\r\n") 2 (codes "0\r\n\r\n");
        };
        wire = codes "0\r\n\r\n";
        bytes_sent = 0;
        skip = false;
      })
unfolding server_write write_data write_trailer write_frame frame_sent encode advance
no_chunk a b c h = ground arith

-- A body that fits one chunk, offered whole with the end of the stream to a socket that has room
-- for the header, the data and the final chunk, is sent by one round: all of its bytes are taken
-- and the encoder is complete.
pub server_write_completes :
    (payload : Bytes) (a b c : ℕ)
    → length payload ≤ 0xffff
    → 8 ≤ a
    → length payload ≤ b
    → 7 ≤ c
    → (s : Sent) × (server_write encode_init payload true a b c ≡ some s)
      × (is_complete s.encoder ≡ true)
      × (s.bytes_sent ≡ length payload)
unfolding is_complete
server_write_completes [] a b c fits ha hb hc = (_, no_chunk a b c ha, refl, refl)
server_write_completes (x ∷ xs) a b c fits ha hb hc =
    (_, one_chunk x xs a b c fits ha hb hc, refl, refl)

-- ===== src/Chunked/Tests.antt =====
-- Runs of the decoder and the encoder of src/lib/http_utils.c on small inputs.
use nxweb.Base.{◌≡◌, ◌≢◌, refl, true, false, some, [], ◌∷◌, ◌++◌, Bytes, codes, arith, ◌^◌}
use nxweb.Chunked.Decoder.{
  Decoder, cds_lf1, cds_size, decode, complete, bad, wild, unfinished, size_digit,
}
use nxweb.Chunked.Decoder.Reference.{at, read, decode-read}
use nxweb.Chunked.Decoder.Split.{resume, decode-append, decode-ne-unfinished}
use nxweb.Chunked.Decoder.Overflow.{decode_overflow}
use nxweb.Chunked.Encoder.{
  encode_init, encode, advance, Sent, server_write, is_complete, write_frame, write_data,
  write_trailer, frame_sent,
}
use nxweb.Chunked.RoundTrip.{Run, start, round, decode-Run}
use nxweb.Chunked.Live.{server_write_completes}
use nxweb.Misc.{uint_to_hex_string_zeropad, hex_digit}

abbrev fresh : Decoder
fresh = at cds_size false 0

abbrev two_chunks : Bytes
two_chunks = codes "5\r\nhello\r\n3\r\nabc\r\n0\r\n\r\n"

decode-two_chunks : decode fresh two_chunks ≡ complete (at cds_lf1 true 0) (codes "helloabc")
unfolding decode
decode-two_chunks = refl

decode_extension : decode fresh (codes "5;x=1\r\nhello") ≡ bad
unfolding decode
decode_extension = refl

decode_sixteen_digits : decode fresh (codes "8000000000000000\r\nhello") ≡ wild
unfolding decode
decode_sixteen_digits = refl

decode-read_example : decode fresh two_chunks ≡ read fresh two_chunks []
decode-read_example = decode-read cds_size false 0 two_chunks

decode-append_example :
    decode fresh (codes "5\r\nhel" ++ codes "lo\r\n0\r\n\r\n")
    ≡ resume (decode fresh (codes "5\r\nhel")) (codes "lo\r\n0\r\n\r\n")
decode-append_example = decode-append fresh (codes "5\r\nhel") (codes "lo\r\n0\r\n\r\n") refl

decode-ne-unfinished_example : decode fresh two_chunks ≢ unfinished
decode-ne-unfinished_example = decode-ne-unfinished fresh two_chunks refl

digit_seven : size_digit b'7' ≡ some 7
unfolding size_digit
digit_seven = refl

decode_overflow_example : decode (at cds_size false (2 ^ 59)) (b'7' ∷ codes "\r\nx") ≡ wild
decode_overflow_example =
    decode_overflow false (2 ^ 59) b'7' 7 b'x' [] (omega arith) (omega arith) digit_seven

-- Two rounds: the socket takes three bytes of the header, and then has room for all.
abbrev after_first : Sent
after_first = record {
  encoder = record {
    final_chunk = false;
    header_prepared = true;
    chunk_size = 2;
    pos = 5;
    buf = codes "\r\n0002\r\n";
  };
  wire = codes "000";
  bytes_sent = 0;
  skip = true;
}

abbrev after_second : Sent
after_second = record {
  encoder = record {
    final_chunk = true;
    header_prepared = false;
    chunk_size = 2;
    pos = 7;
    buf = codes "\r\n0\r\n\r\n\n";
  };
  wire = codes "2\r\nhi\r\n0\r\n\r\n";
  bytes_sent = 2;
  skip = false;
}

first_round : server_write encode_init (codes "hi") true 3 9 9 ≡ some after_first
unfolding server_write write_data write_trailer write_frame frame_sent encode advance
    uint_to_hex_string_zeropad hex_digit
first_round = refl

second_round : server_write after_first.encoder (codes "hi") true 9 9 9 ≡ some after_second
unfolding server_write write_data write_trailer write_frame frame_sent encode advance
    uint_to_hex_string_zeropad hex_digit
second_round = refl

two_rounds : Run after_second.encoder (codes "0002\r\nhi\r\n0\r\n\r\n") (codes "hi")
two_rounds =
    round (codes "hi") true 9 9 9 after_second
      (round (codes "hi") true 3 9 9 after_first start (λ h. cc) first_round) (λ h. cc) second_round

two_rounds_complete : is_complete after_second.encoder ≡ true
unfolding is_complete
two_rounds_complete = refl

decode-Run_example :
    decode fresh (codes "0002\r\nhi\r\n0\r\n\r\n") ≡ complete (at cds_lf1 true 0) (codes "hi")
decode-Run_example = decode-Run _ _ two_rounds two_rounds_complete

server_write_completes_example :
    (s : Sent) × (server_write encode_init (codes "hi") true 8 2 7 ≡ some s)
    × (is_complete s.encoder ≡ true)
    × (s.bytes_sent ≡ 2)
server_write_completes_example =
    server_write_completes (codes "hi") 8 2 7 (omega arith) (omega arith) (omega arith)
      (omega arith)

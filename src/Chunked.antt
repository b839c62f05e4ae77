-- ===== src/Chunked.antt =====
-- The chunked transfer coding of src/lib/http_utils.c: the stream decoder, the stream encoder, and
-- what the two are for each other.
pub mod Decoder
pub mod Encoder
pub mod RoundTrip
pub mod Live
mod Tests

-- ===== src/Lib.antt =====
-- A model of the core of NXWEB, an HTTP server library in C, and what can be proved of it.
--
-- Parts and files. A path is given from the root of the repository.
-- - Base: tests, lists measured by native numbers, bytes, shared by all files.
-- - Misc: `src/include/nxweb/misc.h` (`uint_to_decimal_string`, `uint_to_hex_string_zeropad` and their
--   variants, `HEX_DIGIT`) and `nxweb_trunc_space` of `src/lib/misc.c`. A buffer that the code fills
--   from its end is a list that grows at its head.
-- - Escape: the character map of `src/lib/http_utils.c` and what uses it: `_nxb_append_escape_url`,
--   `print_url_escaped`, `nxweb_url_decode`, `_nxb_append_encode_file_path`, `print_html_escaped`.
--   The map is a function of the byte that computes what `init_char_map` stores; `Escape/Table` checks
--   facts over all 256 bytes by evaluation.
-- - UriPath: `nxweb_remove_dots_from_uri_path` of `src/lib/http_utils.c`, which rewrites a path in
--   place. The state `Spot` is the memory cut at the two pointers `dst` and `src`, so that a read
--   beyond it is a value (`fault`) and stale bytes behind `dst` are seen.
-- - HttpTime: the dates of `src/lib/http_utils.c`: `nxweb_format_http_time`,
--   `nxweb_format_iso8601_time` and `nxweb_parse_http_time`. The numbers are printed by Misc and read by
--   a model of the standard's `strtol`; `timegm` is an argument of the parser.
-- - Queue: the ring queue of `src/include/nxweb/nx_queue_tpl.h`. `Queue/Contents` says which list the
--   array holds, `Queue/Actions` what the operations and their parts between the memory barriers do to
--   it, and `Queue/Interleaving` runs these parts as the steps of one pushing and one popping thread.
-- - RingBuffer: `nxd_rbuffer` of `src/include/nxweb/nxd.h` and `src/lib/nxd_buffer.c`, which stands
--   between two streams. Its pointers are indices into its memory; the readiness of the two streams is
--   two flags. `RingBuffer/Contents` says which bytes it holds, `RingBuffer/Fill` is about the stream
--   in front and `RingBuffer/Drain` about the one behind.
-- - SimpleMap: the comparisons without case and the linked map of `src/include/nxweb/nxweb.h`; the
--   comparison is an argument of `simple_map_find` and `simple_map_remove`, which stand for both
--   variants.
-- - Headers: the header names of `src/lib/http_utils.c` and `identify_http_header`; `Headers/Identify`
--   compares its switch with a table of the names.
-- - Request: `_nxweb_parse_http_request` of `src/lib/http_utils.c`. `Request` has the request and its
--   first line, `Request/Parse` the header lines and what follows them. `Request/FirstLine`,
--   `Request/HeaderLines` and `Request/Rendered` say how a request that is written out is read,
--   `Request/Fields` which header each field comes from and `Request/Read` draws the sum, `Request/Invariant` is about every request that is accepted and
--   `Request/Refused` about those that are not. `Request/EndOfHeaders` is
--   `_nxweb_find_end_of_http_headers`, with offsets for pointers. Values are trimmed by Misc, compared
--   by SimpleMap, numbers and dates read by HttpTime. The text in the buffer behind an empty
--   `Accept-Encoding` is an argument, since the code reads it.
-- - ClientRequest: `_nxweb_prepare_client_request_headers` of `src/lib/http_utils.c`, the request that
--   the proxy sends on, as a list of fields. `ClientRequest/Written` brings the text to the form that
--   Request is about, `ClientRequest/Sendable` says which requests can be sent and
--   `ClientRequest/RoundTrip` what a server reads of them. `gmtime` is an argument.
-- - Response: the response and its headers in `src/lib/http_utils.c`. `Response` has
--   `_nxweb_prepare_response_headers`, `nxweb_send_redirect2` and `nxweb_send_http_error`,
--   `Response/CacheControl` `nxweb_add_response_header_safe` with its directives and `Response/Parse`
--   `_nxweb_parse_http_response`. `Response/Directives` is about Cache-Control, `Response/HeaderLines`,
--   `Response/Written` and `Response/Fields` about the lines of a response, and `Response/RoundTrip`
--   about the writer and the parser together, with `Response/Head` and `Response/Kept` about the
--   beginning and the end of what the parser does. The date of the clock and `REVISION` are arguments.
-- - Cache: the response cache of `src/lib/cache.c`, `nxweb_cache_try`, `cache_rec_unref`,
--   `cache_check_size` and the part of `nxweb_cache_store_response` that enters a record. The hash table
--   and the linked list are one list. `Cache/Eviction` says what is taken out when there are too many
--   records, `Cache/Sections` what happens to the keys, and `Cache/Valid` runs the sections of the mutex
--   as steps.
-- - Parameters: `nxweb_parse_request_parameters` and `nxweb_parse_request_cookies` of
--   `src/lib/http_utils.c`, which decode by Escape and trim by Misc; `Parameters/RoundTrip` is about
--   parameters written with the escapes of Escape.
-- - Ssi: the variables of `src/lib/filters/ssi_filter.c` and `expand_vars`, with the requests that a
--   request is part of as a list; `Ssi/Expand` is about one round of its loop, `Ssi/Values` about the
--   whole. `Ssi/Directive` is `parse_directive`, `Ssi/Attributes` says how a directive that is written
--   out is read and `Ssi/Assign` what the one that sets a variable does.
--   `Ssi/Overwrite` is what the parsing of a directive writes behind it, `Ssi/Stream` is `parse_text`,
--   with the loop of `ssi_buffer_data_in_write` over it; `Ssi/Cuts` and
--   `Ssi/Joined` are about data that comes in parts.
-- - Chunked: the chunked transfer coding. `Chunked/Decoder` is `_nxweb_decode_chunked_stream`, which
--   moves data within the buffer, with the buffer cut at the pointers `d` and `p`;
--   `Chunked/Decoder/Reference` has a decoder of single bytes to compare it with. `Chunked/Encoder` is
--   `_nxweb_encode_chunked_init`, `_stream`, `_advance` and `_is_complete`, and the part of
--   `resp_body_in_write_or_sendfile` of `src/lib/nxd_http_server_proto.c` that calls them; what the
--   socket takes at each of its three writes is an argument. `Chunked/RoundTrip` and `Chunked/Live` are
--   about the two together. The encoder prints sizes by Misc.
--
-- Conventions. A byte is a number below 256 and a C string the list of its bytes; `IsText` says that
-- none is NUL. The signed 64-bit `chunk_bytes_left` of the decoder is its bit pattern, with the wrap of
-- the shift written out. An assertion of the code that fails is `none`.
--
-- Bounds and fuel. The loop of the decoder has two rounds of fuel for each byte and two more: each byte
-- is read by at most two rounds, one of which leaves a block of data. The loop over a path has a round
-- for each byte that may be read. The decimal printer has `n` rounds for the number `n`, which each
-- round divides by ten. The loop that takes records out of the cache has a round for each record,
-- those of `expand_vars` and over the directives one for each byte.
--
-- Not modelled: sockets, files, threads, TLS, the Python binding and the filters that call other
-- libraries, all of which are calls of the operating system or of other projects; the growing buffers
-- and pools, JSON, templates and
-- the state machines of the connections, which no module here is about.
pub mod Base
pub mod Cache
pub mod Chunked
pub mod ClientRequest
pub mod Escape
pub mod Headers
pub mod HttpTime
pub mod Misc
pub mod Parameters
pub mod Queue
pub mod Request
pub mod Response
pub mod RingBuffer
pub mod SimpleMap
pub mod Ssi
pub mod UriPath

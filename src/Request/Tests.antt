-- ===== src/Request/Tests.antt =====
-- Runs of the request parser of src/lib/http_utils.c.
use nxweb.Base.{
  ◌≤◌, All, arith, inr, ℕ, ◌≡◌, refl, codes, Bytes, ◌++◌, [], ◌∷◌, none, some, Option, List, Bool,
  true, false,
}
use nxweb.HttpTime.{Tm}
use nxweb.Request.{Parsed, ok, fail, Request, not_implemented, first_line, start_request, split_at}
use nxweb.Request.Parse.{parse_http_request, split_lines}
use nxweb.Request.Fields.{is_same, header_of, last_of}
use nxweb.Request.Read.{IsRead, parse_http_request-request_text}
use nxweb.Request.HeaderLines.{IsHeader}
use nxweb.Request.Rendered.{request_text}
use nxweb.Request.Invariant.{IsAccepted, parse_http_request-IsAccepted}
use nxweb.Request.Refused.{IsTrailer, parse_http_request_trailer}
use nxweb.Request.EndOfHeaders.{
  IsBlankLine, find_end_of_http_headers, find_end_of_http_headers-IsBlankLine,
  find_end_of_http_headers_first,
}
use nxweb.SimpleMap.{nx_strtolower, same_nocase}
use nxweb.Headers.{identify_http_header, http_host, http_trailer}
use nxweb.Misc.Trim.{StartsInk, EndsInk}
use nxweb.SimpleMap.{Entry}

abbrev stamp : Tm → ℕ
stamp tm = tm.sec

abbrev crlf : Bytes
crlf = 13 ∷ 10 ∷ []

abbrev request : Bytes
request =
    codes "POST /a HTTP/1.1"
    ++ (crlf
        ++ (codes "hosT: Ex.org"
            ++ (crlf
                ++ (codes "X-A: b"
                    ++ (crlf
                        ++ (codes " cc"
                            ++ (crlf
                                ++ (codes "Accept-Encoding:"
                                    ++ (crlf ++ codes "Content-length: 12")))))))))

abbrev parsed : Parsed Request
parsed = parse_http_request stamp (codes "x gzip") request

abbrev get {ℓ} : {A : Type ℓ} → (Request → A) → Parsed Request → Option A
get f (ok r) = some (f r)
get f (fail e) = none

-- A continued value keeps the carriage return; an empty list of encodings is searched beyond its end.
parse_run :
    get {A = Option Bytes × List Entry × Bool × ℕ × Bool}
      (λ r. (r.host, r.headers, r.accept_gzip_encoding, r.content_length, r.post_method))
      parsed
    ≡ some (
      some (codes "ex.org"),
      record { name = codes "X-A"; value = codes "b cc" ++ 13 ∷ [] } ∷ [],
      true,
      12,
      true,
    )
unfolding parse_http_request
parse_run = refl

abbrev headers_end : Bytes
headers_end = b'G' ∷ b' ' ∷ b'/' ∷ 13 ∷ 10 ∷ 13 ∷ 10 ∷ b'x' ∷ []

end_run : find_end_of_http_headers headers_end ≡ some (3, 7)
unfolding find_end_of_http_headers
end_run = refl

-- Two line feeds at the very start are passed over.
early_run : find_end_of_http_headers (b'a' ∷ 10 ∷ 10 ∷ b'b' ∷ []) ≡ none
unfolding find_end_of_http_headers
early_run = refl

find_end_of_http_headers-IsBlankLine_example : IsBlankLine headers_end 3 7
find_end_of_http_headers-IsBlankLine_example =
    find_end_of_http_headers-IsBlankLine headers_end end_run

find_end_of_http_headers_first_example :
    (end : ℕ) × (body : ℕ) × (find_end_of_http_headers headers_end ≡ some (end, body))
    × IsBlankLine headers_end end body
    × (body ≤ 7)
find_end_of_http_headers_first_example =
    find_end_of_http_headers_first headers_end 3 7
      (omega arith, inr (omega arith, refl, refl, refl, refl))

abbrev agent : Entry
agent = record { name = codes "X-Agent"; value = codes "a b" }

abbrev host_entry : Entry
host_entry = record { name = codes "Host"; value = codes "Ex.org" }

host_entry-IsHeader : IsHeader host_entry
unfolding StartsInk EndsInk
host_entry-IsHeader = ground arith

agent-IsHeader : IsHeader agent
unfolding StartsInk EndsInk
agent-IsHeader = ground arith

no_trailer : All (λ e. is_same (header_of e) http_trailer ≡ false) (host_entry ∷ agent ∷ [])
unfolding identify_http_header same_nocase
no_trailer = (refl, (refl, tt))

host_run :
    last_of (λ v. some (nx_strtolower v)) http_host none (host_entry ∷ agent ∷ [])
    ≡ some (codes "ex.org")
unfolding last_of identify_http_header same_nocase nx_strtolower
host_run = refl

parse_http_request-request_text_example :
    (r : Request) × (parse_http_request stamp []
        (request_text (codes "GET") (codes "/p") (codes "HTTP/1.1") (host_entry ∷ agent ∷ []))
      ≡ ok r)
    × IsRead stamp (codes "GET") (codes "/p") (codes "HTTP/1.1") (host_entry ∷ agent ∷ []) r
parse_http_request-request_text_example =
    parse_http_request-request_text stamp [] (codes "GET") (codes "p") (codes "HTTP/1.1")
      (host_entry ∷ agent ∷ []) b'e' (codes "x.org") (ground arith) (ground arith) (ground arith)
      (host_entry-IsHeader, (agent-IsHeader, tt)) no_trailer host_run

abbrev body : Bytes
body = codes "HEAD /p HTTP/1.1" ++ 13 ∷ 10 ∷ (codes "Host: h" ++ 13 ∷ 10 ∷ codes "TRAILER: x")

abbrev answered : Bytes
answered = codes "HEAD /p HTTP/1.1" ++ 13 ∷ 10 ∷ codes "Host: h"

abbrev accepted : Request
accepted = record {
  method = codes "GET";
  uri = codes "/p";
  http_version = codes "HTTP/1.1";
  host = some (codes "h");
  cookie = none;
  user_agent = none;
  content_type = none;
  transfer_encoding = none;
  accept_encoding = none;
  range = none;
  content_length = 0;
  if_modified_since = 0;
  headers = [];
  http11 = true;
  keep_alive = true;
  accept_gzip_encoding = false;
  chunked_encoding = false;
  expect_100_continue = false;
  head_method = true;
  get_method = true;
  post_method = false;
  other_method = false;
}

accepted_run : parse_http_request stamp [] answered ≡ ok accepted
unfolding parse_http_request
accepted_run = refl

parse_http_request-IsAccepted_example : IsAccepted accepted
parse_http_request-IsAccepted_example = parse_http_request-IsAccepted stamp [] answered accepted_run

abbrev head_request : Request
head_request = record accepted {
  method = codes "HEAD";
  host = none;
  head_method = false;
  get_method = false;
}

first_run : start_request (first_line body).0 ≡ ok head_request
unfolding start_request first_line
first_run = refl

lines_run : split_lines (first_line body).1 ≡ (codes "Host: h" ++ 13 ∷ []) ∷ codes "TRAILER: x" ∷ []
unfolding split_lines first_line
lines_run = refl

trailer : IsTrailer (codes "TRAILER: x")
unfolding split_at nxweb.SimpleMap.nx_strtolower
trailer = record {
  first = b'T';
  others = codes "RAILER: x";
  name = codes "TRAILER";
  value = codes ": x";
  bytes = refl;
  ink = omega arith;
  colon = refl;
  name_text = ground arith;
  trailer = refl;
}

parse_http_request_trailer_example : parse_http_request stamp [] body ≡ fail not_implemented
parse_http_request_trailer_example =
    parse_http_request_trailer stamp [] body ((codes "Host: h" ++ 13 ∷ []) ∷ []) [] first_run
      lines_run trailer

-- ===== src/Response/Head.antt =====
-- The first line of a response and its headers, as `_nxweb_parse_http_response` of
-- src/lib/http_utils.c reads them.
use nxweb.Base.{
  ℕ, ◌-◌, ◌^◌, ◌<◌, ◌≡◌, refl, ap, ◌∙◌, sym, not, none, some, List, [], ◌∷◌, ◌++◌, Bytes, codes,
  length, All, All_imp, All-append, arith,
}
use nxweb.Misc.{uint_to_decimal_string}
use nxweb.Misc.Decimal.{
  digits_ink, uint_to_decimal_string-IsDigits, length-uint_to_decimal_string,
  decimal_number-uint_to_decimal_string,
}
use nxweb.SimpleMap.{Entry, same_nocase}
use nxweb.HttpTime.{Tm, strtol, to_int}
use nxweb.HttpTime.Number.{strtol_all}
use nxweb.Request.{ok, first_line}
use nxweb.Request.FirstLine.{IsToken, IsLine, first_line-append}
use nxweb.Request.HeaderLines.{IsHeader, header_text}
use nxweb.Request.Rendered.{header_tail, line_assoc, ink-IsLine, split_lines-header_tail}
use nxweb.Request.Parse.{nowhere}
use nxweb.Response.{Response}
use nxweb.Response.HeaderLines.{IsStatus, response_line_words, set_all, header_lines-text_lines}
use nxweb.Response.Parse.{Loop, finish_response, parse_http_response}

status-IsLine : (s : Bytes) → IsStatus s → IsLine s
unfolding IsStatus
status-IsLine [] h = absurd h
status-IsLine (c ∷ s) (h, hs) = (
  (omega (arith, h), λ e. omega (arith, h, e)),
  All_imp (λ c p. (omega (arith, p), λ e. omega (arith, p, e))) s hs,
)

pub code_read : (n : ℕ) → n < 2 ^ 31 → to_int (strtol (uint_to_decimal_string n)).0 ≡ n
code_read n h =
    let r =
      strtol_all (uint_to_decimal_string n) n (uint_to_decimal_string-IsDigits n)
        (length-uint_to_decimal_string n (omega (arith, h))).0
        (decimal_number-uint_to_decimal_string n) (omega (arith, h)) in
    ap (λ p. to_int p.0) r ∙ ground (arith, h)

pub length_digits : (n : ℕ) → n < 2 ^ 63 → (strtol (uint_to_decimal_string n)).0 ≡ n
length_digits n h =
    ap (λ p. p.0)
      (strtol_all (uint_to_decimal_string n) n (uint_to_decimal_string-IsDigits n)
        (length-uint_to_decimal_string n (omega (arith, h))).0
        (decimal_number-uint_to_decimal_string n) h)

pub code-IsToken : (n : ℕ) → n < 2 ^ 31 → IsToken (uint_to_decimal_string n)
code-IsToken n h = (
  digits_ink _ (uint_to_decimal_string-IsDigits n),
  λ e. omega (arith, (length-uint_to_decimal_string n (omega (arith, h))).0, ap (λ t. length t) e),
)

words-IsLine :
    (v n w : Bytes)
    → IsToken v
    → IsToken n
    → IsLine w
    → IsLine (v ++ b' ' ∷ (n ++ b' ' ∷ (w ++ b'\r' ∷ [])))
words-IsLine v n w hv hn hw =
    let a = All-append _ w (b'\r' ∷ []) hw (ground arith) in
    let b = All-append _ n (b' ' ∷ (w ++ b'\r' ∷ [])) (ink-IsLine n hn.0) (ground (arith, a)) in
    All-append _ v (b' ' ∷ (n ++ b' ' ∷ (w ++ b'\r' ∷ []))) (ink-IsLine v hv.0) (ground (arith, b))

-- The locals of the loop behind the first line.
abbrev pub read_loop : Response → Bytes → Bytes → Bytes → Loop
read_loop base version code status =
    let http11 = not (same_nocase version (codes "HTTP/1.0")) in
    record {
      resp = record base {
        status = some status;
        keep_alive = http11;
        http11 = http11;
        content_length = 2 ^ 64 - 1;
        status_code = to_int (strtol code).0;
      };
      map = [];
      transfer_encoding = none;
      value = nowhere;
    }

pub parse_head :
    (timegm : Tm → ℕ) (base : Response) (v n w : Bytes) (e : Entry) (es : List Entry)
    → IsToken v
    → IsToken n
    → IsStatus w
    → IsHeader e
    → All IsHeader es
    → parse_http_response timegm base (v ++ b' ' ∷ (n ++ b' ' ∷ (w ++ header_tail (e ∷ es))))
      ≡ ok (finish_response (set_all timegm (read_loop base v n w) (e ∷ es)))
unfolding parse_http_response
parse_head timegm base v n w e es hv hn hw h hs =
    let rest = header_text e ++ header_tail es in
    let a = line_assoc v n w (b'\r' ∷ []) (b'\n' ∷ rest) in
    let l = words-IsLine v n w hv hn (status-IsLine w hw) in
    let f = ap first_line (sym a) ∙ first_line-append _ rest l in
    let r = response_line_words v n w hv hn hw in
    let p = split_lines-header_tail e es h hs in
    let t = header_lines-text_lines timegm (read_loop base v n w) (e ∷ es) (h, hs) in
    rw (f, r, p, t) refl

-- ===== src/Request/Invariant.antt =====
-- What holds of every request that `_nxweb_parse_http_request` of src/lib/http_utils.c accepts, and
-- which request it does not implement.
use nxweb.Base.{
  ℕ, ◌-◌, ◌^◌, ◌≡◌, ◌≢◌, refl, ◌∙◌, Bool, true, false, not, ◌&&◌, ◌||◌, none, some, Option, List,
  [], ◌∷◌, Bytes, codes, arith, inl, inr, leb, if◌then◌else◌, Bool-cases, ◌==◌,
}
use mathlib.Core.Path.{subst}
use nxweb.SimpleMap.{same_nocase}
use nxweb.HttpTime.{Tm}
use nxweb.Headers.{
  HeaderName, http_host, http_expect, http_cookie, http_user_agent, http_content_type,
  http_content_length, http_accept_encoding, http_transfer_encoding, http_if_modified_since,
  http_connection, http_range, http_trailer,
}
use nxweb.Request.{
  ok, bind_ok, ok_inj, Request, first_line, absolute_uri, request_line, starts_slash, start_request,
  split_at,
}
use nxweb.Request.Parse.{
  Loop, Place, nowhere, in_field, continue_header, stored, set_header, found_header, named_header,
  header_line, finished, header_lines, has_host, finish_request, parse_http_request, split_lines,
}

continue_header_uri :
    (st : Loop) (name : Bytes) (p : Place) → (continue_header st name p).req.uri ≡ st.req.uri
unfolding continue_header
continue_header_uri st name (in_field http_host) = refl
continue_header_uri st name (in_field http_expect) = refl
continue_header_uri st name (in_field http_cookie) = refl
continue_header_uri st name (in_field http_user_agent) = refl
continue_header_uri st name (in_field http_content_type) = refl
continue_header_uri st name (in_field http_accept_encoding) = refl
continue_header_uri st name (in_field http_transfer_encoding) = refl
continue_header_uri st name (in_field http_range) = refl
continue_header_uri st name _ = refl

either {ℓ κ} :
    {A : Type ℓ} {P : Type κ} (b : Bool) (x y z : A)
    → (x ≡ z → P)
    → (y ≡ z → P)
    → (if b then x else y) ≡ z
    → P
either true x y z f g = f
either false x y z f g = g

module _ (timegm : Tm → ℕ) where
  set_header_uri :
      (st : Loop) (name value : Bytes) (h : HeaderName) {st' : Loop}
      → set_header timegm st name value h ≡ ok st'
      → st'.req.uri ≡ st.req.uri
  unfolding set_header stored
  set_header_uri st name value http_host e = cc
  set_header_uri st name value http_expect e = cc
  set_header_uri st name value http_cookie e = cc
  set_header_uri st name value http_user_agent e = cc
  set_header_uri st name value http_content_type e = cc
  set_header_uri st name value http_content_length e = cc
  set_header_uri st name value http_accept_encoding e = cc
  set_header_uri st name value http_transfer_encoding e = cc
  set_header_uri st name value http_if_modified_since e = cc
  set_header_uri st name value http_connection e = cc
  set_header_uri st name value http_range e = cc
  set_header_uri st name value http_trailer e = cc
  set_header_uri st name value _ e = cc

  value_uri :
      (st : Loop) (p : Place) {st' : Loop}
      → ok (record st { value = p }) ≡ ok st'
      → st'.req.uri ≡ st.req.uri
  value_uri st p e = cc

  continued_uri :
      (st : Loop) (name : Bytes) (p : Place) {st' : Loop}
      → ok (continue_header st name p) ≡ ok st'
      → st'.req.uri ≡ st.req.uri
  continued_uri st name p e = let u = continue_header_uri st name p in cc

  found_header_uri :
      (st : Loop) (found : Option (Bytes × Bytes)) {st' : Loop}
      → found_header timegm st found ≡ ok st'
      → st'.req.uri ≡ st.req.uri
  unfolding found_header
  found_header_uri st none e = value_uri st nowhere e
  found_header_uri st (some (name, rest)) e = set_header_uri st name _ _ e

  header_line_uri :
      (st : Loop) (line : Bytes) {st' : Loop}
      → header_line timegm st line ≡ ok st'
      → st'.req.uri ≡ st.req.uri
  unfolding header_line named_header
  header_line_uri st [] e = value_uri st nowhere e
  header_line_uri st (c ∷ s) e =
      either (leb c 32) _ _ _ (λ e. continued_uri st (c ∷ s) st.value e)
        (λ e. found_header_uri st (split_at b':' (c ∷ s)) e) e

  header_lines_uri :
      (st : Loop) (lines : List Bytes) {st' : Loop}
      → header_lines timegm st lines ≡ ok st'
      → st'.req.uri ≡ st.req.uri
  unfolding header_lines
  header_lines_uri st [] e = cc
  header_lines_uri st (line ∷ lines) e =
      let (st1, a, b) =
        bind_ok (header_line timegm st line) (λ st. header_lines timegm st lines) e in
      header_lines_uri st1 lines b ∙ header_line_uri st line a

-- The marks of a request that is accepted.
pub record IsAccepted (r : Request) : Type 0 where
  pub path : starts_slash r.uri ≡ ok r.uri
  pub host : has_host r ≡ true
  pub chunked : r.chunked_encoding ≡ true → r.content_length ≡ 2 ^ 64 - 1
  pub expects : r.expect_100_continue ≡ true → r.content_length ≢ 0
  pub head : r.head_method ≡ true → (r.get_method ≡ true) × (r.method ≡ codes "GET")
  pub some_method : (r.get_method || r.post_method || r.other_method) ≡ true
  pub get_not_post : (r.get_method && r.post_method) ≡ false
  pub not_other : ((r.get_method || r.post_method) && r.other_method) ≡ false

starts_slash_again : (u v : Bytes) → starts_slash u ≡ ok v → starts_slash v ≡ ok v
unfolding starts_slash
starts_slash_again [] v e = cc
starts_slash_again (c ∷ u) v e = ground (arith, e)

start_request_path :
    (line : Bytes) {r : Request} → start_request line ≡ ok r → starts_slash r.uri ≡ ok r.uri
unfolding start_request
start_request_path line e =
    let ((m, u, v), e1, e) = bind_ok (request_line line) _ e in
    let ((h, p), e2, e) = bind_ok (absolute_uri u) _ e in
    let (w, e3, e) = bind_ok (starts_slash p) _ e in path_of _ e (starts_slash_again p w e3)
  where
    path_of :
        (q : Request) {r : Request}
        → ok q ≡ ok r
        → starts_slash q.uri ≡ ok q.uri
        → starts_slash r.uri ≡ ok r.uri
    path_of q e k = cc

-- A method is not both GET and POST.
get_or_post :
    (m : Bytes) → same_nocase m (codes "GET") ≡ true → same_nocase m (codes "POST") ≡ false
unfolding same_nocase
get_or_post [] e = cc
get_or_post (c ∷ s) e = ground (arith, e)

one_method :
    (head get post : Bool)
    → (get ≡ true → post ≡ false)
    → (((head || get) || (not head && post) || (not (head || get) && not (not head && post)))
        ≡ true)
      × (((head || get) && (not head && post)) ≡ false)
      × ((((head || get) || (not head && post)) && (not (head || get) && not (not head && post)))
          ≡ false)
one_method head get post h = ground (arith, h)

word_length : (n : ℕ) (word : Bool) → (not (n == 0) && word) ≡ true → n ≢ 0
word_length n word e = ground (arith, e)

finished-IsAccepted :
    (beyond : Bytes) (st : Loop)
    → starts_slash st.req.uri ≡ ok st.req.uri
    → has_host st.req ≡ true
    → IsAccepted (finished beyond st)
unfolding finished has_host
finished-IsAccepted beyond st s h =
    let head = same_nocase st.req.method (codes "HEAD") in
    let method = if head then codes "GET" else st.req.method in
    let (m1, m2, m3) =
      one_method head (same_nocase method (codes "GET")) (same_nocase method (codes "POST"))
        (get_or_post method) in
    record {
      path = s;
      host = h;
      chunked = λ c. rw c refl;
      expects = word_length _ _;
      head = λ c. rw c (refl, refl);
      some_method = m1;
      get_not_post = m2;
      not_other = m3;
    }

finish_request_marks :
    (beyond : Bytes) (st : Loop) {r : Request}
    → starts_slash st.req.uri ≡ ok st.req.uri
    → finish_request beyond st ≡ ok r
    → IsAccepted r
unfolding finish_request
finish_request_marks beyond st s e = elim (Bool-cases (has_host st.req)) [
  | inl h ↦ subst IsAccepted (ok_inj (rw h at e)) (finished-IsAccepted beyond st s h)
  | inr h ↦ absurd (let k = rw h at e in cc)
]

-- Whatever request is accepted has a path that starts with a slash and a host that is not empty; a
-- chunked one has the unknown length; only one with content waits for a 100 status; HEAD is answered
-- as GET; and just one of GET, POST and other is marked.
pub parse_http_request-IsAccepted :
    (timegm : Tm → ℕ) (beyond text : Bytes) {r : Request}
    → parse_http_request timegm beyond text ≡ ok r
    → IsAccepted r
unfolding parse_http_request
parse_http_request-IsAccepted timegm beyond text e =
    let (line, rest) = first_line text in
    let (req, e1, e) = bind_ok (start_request line) _ e in
    let (st, e2, e) = bind_ok (header_lines timegm _ (split_lines rest)) _ e in
    let u = header_lines_uri timegm _ (split_lines rest) e2 in
    let p = start_request_path line e1 in finish_request_marks beyond st (rw u p) e

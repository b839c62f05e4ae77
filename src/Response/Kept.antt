-- ===== src/Response/Kept.antt =====
-- What the end of `_nxweb_parse_http_response` of src/lib/http_utils.c leaves as it is.
use nxweb.Base.{
  ℕ, ◌-◌, ◌^◌, ◌≡◌, refl, ap, ◌∙◌, Bool, true, false, ◌&&◌, Option, none, some, Bytes, codes, ◌==◌,
  if◌then◌else◌, inl, inr, Bool-cases,
}
use nxweb.Request.Parse.{is_word}
use nxweb.Response.{Response}
use nxweb.Response.Parse.{Loop, read_cache_control, set_length, finish_response}

-- The fields that neither the directives nor the length touch.
pub record IsKept (a b : Response) : Type 0 where
  pub status : a.status ≡ b.status
  pub status_code : a.status_code ≡ b.status_code
  pub keep_alive : a.keep_alive ≡ b.keep_alive
  pub etag : a.etag ≡ b.etag
  pub content_type : a.content_type ≡ b.content_type
  pub cache_control : a.cache_control ≡ b.cache_control

read_cache_control-IsKept :
    (r : Response) (o : Option Bytes)
    → IsKept (read_cache_control r o) r
      × ((read_cache_control r o).content_length ≡ r.content_length)
unfolding read_cache_control
read_cache_control-IsKept r none = (
  record {
    status = refl;
    status_code = refl;
    keep_alive = refl;
    etag = refl;
    content_type = refl;
    cache_control = refl;
  },
  refl,
)
read_cache_control-IsKept r (some s) = (
  record {
    status = refl;
    status_code = refl;
    keep_alive = refl;
    etag = refl;
    content_type = refl;
    cache_control = refl;
  },
  refl,
)

-- The length that is read: unknown where the content is chunked, none where the connection goes on
-- and nothing was announced.
abbrev pub length_read : Bool → Bool → ℕ → ℕ
length_read chunked alive n =
    if chunked then 2 ^ 64 - 1 else (if alive && n == 2 ^ 64 - 1 then 0 else n)

set_length-IsKept :
    (b : Bool) (r : Response)
    → IsKept (set_length b r) r
      × ((set_length b r).content_length ≡ length_read b r.keep_alive r.content_length)
unfolding set_length
set_length-IsKept true r = (
  record {
    status = refl;
    status_code = refl;
    keep_alive = refl;
    etag = refl;
    content_type = refl;
    cache_control = refl;
  },
  refl,
)
set_length-IsKept false r = elim (Bool-cases (r.keep_alive && r.content_length == 2 ^ 64 - 1)) [
  | inl e ↦ rw e (
    record {
      status = refl;
      status_code = refl;
      keep_alive = refl;
      etag = refl;
      content_type = refl;
      cache_control = refl;
    },
    refl,
  )
  | inr e ↦ rw e (
    record {
      status = refl;
      status_code = refl;
      keep_alive = refl;
      etag = refl;
      content_type = refl;
      cache_control = refl;
    },
    refl,
  )
]

IsKept-trans : (a b c : Response) → IsKept a b → IsKept b c → IsKept a c
IsKept-trans a b c k l = record {
  status = k.status ∙ l.status;
  status_code = k.status_code ∙ l.status_code;
  keep_alive = k.keep_alive ∙ l.keep_alive;
  etag = k.etag ∙ l.etag;
  content_type = k.content_type ∙ l.content_type;
  cache_control = k.cache_control ∙ l.cache_control;
}

pub finish_response-IsKept :
    (st : Loop)
    → IsKept (finish_response st) st.resp
      × ((finish_response st).content_length
          ≡ length_read
              (is_word st.transfer_encoding (codes "chunked"))
              st.resp.keep_alive
              st.resp.content_length)
unfolding finish_response
finish_response-IsKept st =
    let q : Response = record st.resp { headers = st.map } in
    let chunked = is_word st.transfer_encoding (codes "chunked") in
    let r = read_cache_control q q.cache_control in
    let (k, l) = read_cache_control-IsKept q q.cache_control in
    let (m, n) = set_length-IsKept chunked r in
    let h : IsKept q st.resp = record {
      status = refl;
      status_code = refl;
      keep_alive = refl;
      etag = refl;
      content_type = refl;
      cache_control = refl;
    } in
    (
      IsKept-trans _ _ _ m (IsKept-trans _ _ _ k h),
      n
          ∙ ap (λ a. length_read chunked a r.content_length) k.keep_alive
          ∙ ap (length_read chunked q.keep_alive) l,
    )

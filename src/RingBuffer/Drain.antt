-- ===== src/RingBuffer/Drain.antt =====
-- What the stream behind a ring buffer of src/lib/nxd_buffer.c takes from it.
use nxweb.Base.{
  ℕ, zero, suc, ◌+◌, ◌-◌, ◌<◌, ◌≤◌, ◌≡◌, refl, sym, ap, ◌∙◌, true, false, not, ◌&&◌, some, [], ◌++◌,
  append-nil, append_assoc, Bytes, ltb, leb, ◌==◌, if◌then◌else◌, length, length-drop, take, drop,
  take-append-drop, take_all, min, arith,
}
use nxweb.RingBuffer.{
  RingBuffer, size_of, rbuffer_is_empty, rbuffer_is_full, read_size, rbuffer_read, offered_bytes,
  do_write,
}
use nxweb.RingBuffer.Contents.{contents, IsRing}
use nxweb.RingBuffer.Pieces.{drop-drop, take_split, drop_over, take_none}

-- The pieces of the memory in each of the cases of `contents`.
front_piece :
    (m : Bytes) (r w n : ℕ)
    → n ≤ w - r
    → take (w - r) (drop r m)
      ≡ take n (take (w - r) (drop r m)) ++ take (w - (r + n)) (drop (r + n) m)
front_piece m r w n h =
    take_split n (w - r) (drop r m) h
    ∙ ap (λ t. take n (take (w - r) (drop r m)) ++ take (w - r - n) t) (drop-drop r n m)
    ∙ ap (λ k. take n (take (w - r) (drop r m)) ++ take k (drop (r + n) m)) (omega arith)

end_piece :
    (m : Bytes) (r n : ℕ) → drop r m ≡ take n (take (length m - r) (drop r m)) ++ drop (r + n) m
end_piece m r n =
    sym (take-append-drop n (drop r m))
    ∙ ap (λ t. take n t ++ drop n (drop r m))
        (sym (take_all (length m - r) (drop r m) (omega (arith, length-drop r m))))
    ∙ ap (λ t. take n (take (length m - r) (drop r m)) ++ t) (drop-drop r n m)

-- What `nxd_rbuffer_read` leaves where bytes were taken.
abbrev after_read : RingBuffer → ℕ → RingBuffer
after_read rb size =
    let ptr = rb.read_ptr + size in
    let ptr' = if leb (size_of rb) ptr then 0 else ptr in
    record rb {
      read_ptr = ptr';
      last_write = false;
      in_ready = if rb.eof then rb.in_ready else true;
      out_ready = if ptr' == rb.write_ptr && not rb.eof then false else rb.out_ready;
    }

read_inside : (rb : RingBuffer) → IsRing rb → rb.read_ptr + read_size rb ≤ size_of rb
unfolding read_size
read_inside rb i = ground (arith, i.read_inside, i.write_inside)

rbuffer_read_none : (rb : RingBuffer) → rbuffer_read rb 0 ≡ some rb
unfolding rbuffer_read
rbuffer_read_none rb = refl

rbuffer_read-some :
    (rb : RingBuffer) (n : ℕ)
    → 0 < n
    → rb.read_ptr + n ≤ size_of rb
    → rbuffer_read rb n ≡ some (after_read rb n)
unfolding rbuffer_read
rbuffer_read-some rb n p h =
    let a : (n == 0) ≡ false = ground (arith, p) in
    let b : ltb (size_of rb) (rb.read_ptr + n) ≡ false = ground (arith, h) in rw (a, b) refl

after_read-IsRing :
    (rb : RingBuffer) (n : ℕ) → IsRing rb → 0 < n → n ≤ read_size rb → IsRing (after_read rb n)
unfolding rbuffer_is_full rbuffer_is_empty read_size
after_read-IsRing rb n i p h = record {
  read_inside = ground (arith, i.read_inside);
  write_inside = i.write_inside;
  out_ready = ground (arith, i.out_ready, h, p, i.read_inside, i.write_inside);
  in_ready = ground (arith, i.in_ready, h, p, i.read_inside, i.write_inside);
}

contents-after_read :
    (rb : RingBuffer) (n : ℕ)
    → IsRing rb
    → 0 < n
    → n ≤ read_size rb
    → contents rb ≡ take n (offered_bytes rb) ++ contents (after_read rb n)
unfolding read_size offered_bytes contents
contents-after_read rb n i p h =
    let m = rb.memory in
    let r = rb.read_ptr in
    let w = rb.write_ptr in
    let a = front_piece m r w n in
    let b = end_piece m r n in
    let c = append_assoc (take n (take (length m - r) (drop r m))) (drop (r + n) m) (take w m) in
    let d = drop_over (r + n) m in
    let e = take_none w (r + n) (drop (r + n) m) in
    let f : take (w - 0) (drop 0 m) ≡ take w m = ap (λ k. take k m) (omega arith) in
    let g = append-nil (take n (take (w - r) (drop r m))) in
    let k = append-nil (take n (take (length m - r) (drop r m))) in
    let z : w ≡ 0 → take w m ≡ [] = λ q. ap (λ x. take x m) q in
    ground (arith, i.read_inside, i.write_inside, p, h, a, b, c, d, e, f, g, k, z)

taken :
    (rb : RingBuffer) (n : ℕ)
    → IsRing rb
    → n ≤ read_size rb
    → (rb' : RingBuffer) × (rbuffer_read rb n ≡ some rb')
      × IsRing rb'
      × (contents rb ≡ take n (offered_bytes rb) ++ contents rb')
taken rb zero i h = (rb, rbuffer_read_none rb, i, refl)
taken rb (suc n) i h =
    let p : 0 < suc n = omega arith in
    (
      after_read rb (suc n),
      rbuffer_read-some rb (suc n) p (omega (arith, h, read_inside rb i)),
      after_read-IsRing rb (suc n) i p h,
      contents-after_read rb (suc n) i p h,
    )

-- The stream behind takes a front piece of what is held, as much as it has room for of what is
-- offered to it, and the rest is held on; no assertion fails.
pub do_write_lem :
    (rb : RingBuffer) (room : ℕ)
    → IsRing rb
    → (rb' : RingBuffer) × (do_write rb room ≡ some rb')
      × IsRing rb'
      × (contents rb ≡ take (min room (read_size rb)) (offered_bytes rb) ++ contents rb')
unfolding do_write
do_write_lem rb room i = taken rb (min room (read_size rb)) i (omega arith)

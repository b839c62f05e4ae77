-- ===== src/RingBuffer/Fill.antt =====
-- What the stream in front of a ring buffer of src/lib/nxd_buffer.c adds to it.
use nxweb.Base.{
  ℕ, ◌+◌, ◌-◌, ◌<◌, ◌≤◌, ◌≡◌, refl, sym, ap, ◌∙◌, Bool, true, false, not, ◌&&◌, some, [], ◌∷◌, ◌++◌,
  append-nil, append_assoc, Bytes, ltb, leb, ◌==◌, if◌then◌else◌, length, length-take, take, drop,
  take-append-drop, min, arith,
}
use nxweb.RingBuffer.{
  RingBuffer, size_of, rbuffer_is_empty, rbuffer_is_full, write_size, rbuffer_write, received,
  at_eof, do_read,
}
use nxweb.RingBuffer.Contents.{contents, between, IsRing, length-contents}
use nxweb.RingBuffer.Pieces.{
  drop_over, take_none, written, length-written, drop-written_front, take-written_front,
  drop-written_back, take-written_back,
}

-- What `nxd_rbuffer_write` leaves where bytes were received.
abbrev after_write : RingBuffer → ℕ → RingBuffer
after_write rb size =
    let ptr = rb.write_ptr + size in
    let ptr' = if leb (size_of rb) ptr then 0 else ptr in
    record rb {
      write_ptr = ptr';
      last_write = true;
      out_ready = true;
      in_ready = if rb.read_ptr == ptr' then false else rb.in_ready;
    }

rbuffer_write_none : (rb : RingBuffer) → rbuffer_write rb 0 ≡ some rb
unfolding rbuffer_write
rbuffer_write_none rb = refl

rbuffer_write-some :
    (rb : RingBuffer) (n : ℕ)
    → 0 < n
    → rb.write_ptr + n ≤ size_of rb
    → rbuffer_write rb n ≡ some (after_write rb n)
unfolding rbuffer_write
rbuffer_write-some rb n p h =
    let a : (n == 0) ≡ false = ground (arith, p) in
    let b : ltb (size_of rb) (rb.write_ptr + n) ≡ false = ground (arith, h) in rw (a, b) refl

write_inside : (rb : RingBuffer) → IsRing rb → rb.write_ptr + write_size rb ≤ size_of rb
unfolding write_size
write_inside rb i = ground (arith, i.read_inside, i.write_inside)

after_write-IsRing :
    (rb : RingBuffer) (b : Bytes)
    → IsRing rb
    → 0 < length b
    → length b ≤ write_size rb
    → IsRing (after_write (received rb b) (length b))
unfolding rbuffer_is_full rbuffer_is_empty write_size
after_write-IsRing rb b i p h =
    let l =
      length-written rb.memory b rb.read_ptr rb.write_ptr (omega (arith, h, write_inside rb i)) in
    record {
      read_inside = omega (arith, l, i.read_inside);
      write_inside = ground (arith, l, i.write_inside, i.read_inside);
      out_ready = ground (arith, l, i.out_ready);
      in_ready = ground (arith, l, i.in_ready, h, p, i.read_inside, i.write_inside);
    }

-- Where `write_ptr` stands behind `read_ptr`, or with it at an empty buffer, and stays below the end.
between_ahead :
    (m b : Bytes) (r w : ℕ)
    → r ≤ w
    → w + length b ≤ length m
    → 0 < length b
    → between (written m w b) r (w + length b) ≡ take (w - r) (drop r m) ++ b
between_ahead m b r w h o p =
    let e : ltb r (w + length b) ≡ true = ground (arith, h, p) in
    rw (e) (take-written_front m b r w o h)

-- It reaches the end.
between_end :
    (m b : Bytes) (r w : ℕ)
    → r ≤ w
    → w + length b ≡ length m
    → between (written m w b) r 0 ≡ take (w - r) (drop r m) ++ b
between_end m b r w h o =
    let l : w + length b ≤ length m = omega (arith, o) in
    let e : ltb r 0 ≡ false = ground arith in
    rw e (append-nil (drop r (written m w b)))
    ∙ drop-written_front m b r w l h
    ∙ ap (λ t. take (w - r) (drop r m) ++ (b ++ t)) (drop_over (w + length b) m (omega (arith, o)))
    ∙ ap (λ t. take (w - r) (drop r m) ++ t) (append-nil b)

-- It stands in front of `read_ptr`.
between_behind :
    (m b : Bytes) (r w : ℕ)
    → w + length b ≤ r
    → r < length m
    → between (written m w b) r (w + length b) ≡ (drop r m ++ take w m) ++ b
between_behind m b r w h l =
    let o : w + length b ≤ length m = omega (arith, h, l) in
    let e : ltb r (w + length b) ≡ false = ground (arith, h) in
    rw (e, drop-written_back m b r w o h, take-written_back m b r w o)
      (sym (append_assoc (drop r m) (take w m) b))

still_held :
    (m : Bytes) (r w : ℕ) → (if r == w && not true then [] else between m r w) ≡ between m r w
still_held m r w = let e : (r == w && false) ≡ false = ground arith in rw e refl

-- The cases put together, for the pieces `ahead` and `around` that may be held before.
after_cases :
    (held : ℕ → Bytes) (ahead around b : Bytes) (r w size : ℕ) (last : Bool)
    → r < size
    → w < size
    → 0 < length b
    → length b ≤ (if r == w && last then 0 else (if ltb w r then r - w else size - w))
    → (r ≤ w → w + length b ≤ size → held (w + length b) ≡ ahead ++ b)
    → (r ≤ w → w + length b ≡ size → held 0 ≡ ahead ++ b)
    → (w + length b ≤ r → held (w + length b) ≡ around ++ b)
    → (w ≤ r → ahead ≡ [])
    → held (if leb size (w + length b) then 0 else w + length b)
      ≡ (if r == w && not last then [] else (if ltb r w then ahead else around)) ++ b
after_cases held ahead around b r w size last hr hw p h x y z n =
    ground (arith, hr, hw, p, h, x, y, z, n)

contents-after_write :
    (rb : RingBuffer) (b : Bytes)
    → IsRing rb
    → 0 < length b
    → length b ≤ write_size rb
    → contents (after_write (received rb b) (length b)) ≡ contents rb ++ b
unfolding write_size contents rbuffer_is_empty
contents-after_write rb b i p h =
    let m = rb.memory in
    let r = rb.read_ptr in
    let w = rb.write_ptr in
    let o : w + length b ≤ length m = omega (arith, h, write_inside rb i) in
    let l = length-written m b r w o in
    let rest =
      after_cases (between (written m w b) r) (take (w - r) (drop r m)) (drop r m ++ take w m) b r w
        (length m) rb.last_write i.read_inside i.write_inside p h
        (λ a c. between_ahead m b r w a c p) (between_end m b r w)
        (λ a. between_behind m b r w a i.read_inside) (take_none w r (drop r m)) in
    still_held (written m w b) r
      (if leb (length (written m w b)) (w + length b) then 0 else w + length b)
    ∙ ap (λ k. between (written m w b) r (if leb k (w + length b) then 0 else w + length b)) l
    ∙ rest

at_eof-IsRing : (rb : RingBuffer) (flag : Bool) → IsRing rb → IsRing (at_eof rb flag)
unfolding rbuffer_is_full rbuffer_is_empty
at_eof-IsRing rb false i = i
at_eof-IsRing rb true i = record {
  read_inside = i.read_inside;
  write_inside = i.write_inside;
  out_ready = ground arith;
  in_ready = ground arith;
}

contents-at_eof : (rb : RingBuffer) (flag : Bool) → contents (at_eof rb flag) ≡ contents rb
unfolding contents rbuffer_is_empty
contents-at_eof rb true = refl
contents-at_eof rb false = refl

received_none : (rb : RingBuffer) → received rb [] ≡ rb
received_none rb =
    ap (λ m. record rb { memory = m })
      (ap (λ k. take rb.write_ptr rb.memory ++ drop k rb.memory) (omega arith)
        ∙ take-append-drop rb.write_ptr rb.memory)

written_through :
    (rb : RingBuffer) (b : Bytes)
    → IsRing rb
    → length b ≤ write_size rb
    → (rb' : RingBuffer) × (rbuffer_write (received rb b) (length b) ≡ some rb')
      × IsRing rb'
      × (contents rb' ≡ contents rb ++ b)
written_through rb [] i h = (
  rb,
  rbuffer_write_none (received rb []) ∙ ap some (received_none rb),
  i,
  sym (append-nil (contents rb)),
)
written_through rb (x ∷ b) i h =
    let p : 0 < length (x ∷ b) = omega arith in
    let o : rb.write_ptr + length (x ∷ b) ≤ length rb.memory =
      omega (arith, h, write_inside rb i) in
    let l = length-written rb.memory (x ∷ b) rb.read_ptr rb.write_ptr o in
    (
      after_write (received rb (x ∷ b)) (length (x ∷ b)),
      rbuffer_write-some (received rb (x ∷ b)) (length (x ∷ b)) p (omega (arith, o, l)),
      after_write-IsRing rb (x ∷ b) i p h,
      contents-after_write rb (x ∷ b) i p h,
    )

write_size_some :
    (rb : RingBuffer) → IsRing rb → rbuffer_is_full rb ≡ false → (write_size rb == 0) ≡ false
unfolding write_size
write_size_some rb i f = ground (arith, i.read_inside, i.write_inside, f)

do_read-some :
    (rb : RingBuffer) (bytes : Bytes) (flag : Bool) (rb' : RingBuffer)
    → (write_size rb == 0) ≡ false
    → rbuffer_write (received rb (take (write_size rb) bytes)) (length (take (write_size rb) bytes))
      ≡ some rb'
    → do_read rb bytes flag ≡ some (at_eof rb' flag)
unfolding do_read
do_read-some rb bytes flag rb' z e = rw (do_read, z, e) refl

-- The room that is offered is what is free, up to the end of the memory.
write_size_room :
    (rb : RingBuffer)
    → IsRing rb
    → rbuffer_is_full rb ≡ false
    → write_size rb ≡ min (size_of rb - length (contents rb)) (size_of rb - rb.write_ptr)
unfolding write_size rbuffer_is_full rbuffer_is_empty
write_size_room rb i f =
    let l = length-contents rb i in ground (arith, l, f, i.read_inside, i.write_inside)

-- If the buffer is not full, which is when the stream in front is told to go on, that stream adds
-- its bytes in their order behind what is held, as many of them as there is room for between the
-- place behind the held bytes and the end of the memory: more room that is free at the start of the
-- memory is not used by this call. No assertion fails.
pub do_read_lem :
    (rb : RingBuffer) (bytes : Bytes) (flag : Bool)
    → IsRing rb
    → rbuffer_is_full rb ≡ false
    → (rb' : RingBuffer) × (do_read rb bytes flag ≡ some rb')
      × IsRing rb'
      × (contents rb'
          ≡ contents rb
            ++ take (min (size_of rb - length (contents rb)) (size_of rb - rb.write_ptr)) bytes)
do_read_lem rb bytes flag i f =
    let b = take (write_size rb) bytes in
    let (rb', e, i', c) =
      written_through rb b i (omega (arith, length-take (write_size rb) bytes)) in
    (
      at_eof rb' flag,
      do_read-some rb bytes flag rb' (write_size_some rb i f) e,
      at_eof-IsRing rb' flag i',
      contents-at_eof rb' flag ∙ c ∙ ap (λ k. contents rb ++ take k bytes) (write_size_room rb i f),
    )

-- ===== src/RingBuffer/Contents.antt =====
-- The bytes that the ring buffer of src/lib/nxd_buffer.c holds, in their order.
use nxweb.Base.{
  ℕ, ◌+◌, ◌-◌, ◌<◌, ◌≡◌, refl, not, ◌&&◌, ◌||◌, [], ◌++◌, Bytes, ltb, ◌==◌, if◌then◌else◌, length,
  length-append, length-take, length-drop, take, drop, arith,
}
use nxweb.RingBuffer.{
  RingBuffer, size_of, rbuffer_init, rbuffer_is_empty, rbuffer_is_full, read_size, read_eof,
}

-- The bytes between the pointers.
abbrev pub between : Bytes → ℕ → ℕ → Bytes
between memory read_ptr write_ptr =
    if ltb read_ptr write_ptr
    then take (write_ptr - read_ptr) (drop read_ptr memory)
    else drop read_ptr memory ++ take write_ptr memory

unfoldable pub contents : RingBuffer → Bytes
contents rb = if rbuffer_is_empty rb then [] else between rb.memory rb.read_ptr rb.write_ptr

-- The pointers are inside, and the two streams are told to wait when they have to: the one behind
-- if there is nothing for it, the one in front if there is no room, as long as it has not ended.
pub record IsRing (rb : RingBuffer) : Type 0 where
  pub read_inside : rb.read_ptr < size_of rb
  pub write_inside : rb.write_ptr < size_of rb
  pub out_ready : rb.out_ready ≡ (not (rbuffer_is_empty rb) || rb.eof)
  pub in_ready : (rb.in_ready || rb.eof) ≡ (not (rbuffer_is_full rb) || rb.eof)

pub rbuffer_init-IsRing : (buf : Bytes) → 0 < length buf → IsRing (rbuffer_init buf)
unfolding rbuffer_is_empty rbuffer_is_full
rbuffer_init-IsRing buf h = record {
  read_inside = h;
  write_inside = h;
  out_ready = refl;
  in_ready = refl;
}

-- The length of the contents, by the pointers.
pub length-contents :
    (rb : RingBuffer)
    → IsRing rb
    → length (contents rb) ≡ (
        if rbuffer_is_empty rb
        then 0
        else (if ltb rb.read_ptr rb.write_ptr
            then rb.write_ptr - rb.read_ptr
            else size_of rb - rb.read_ptr + rb.write_ptr))
unfolding contents
length-contents rb i =
    let r = rb.read_ptr in
    let w = rb.write_ptr in
    let a = length-take (w - r) (drop r rb.memory) in
    let b = length-drop r rb.memory in
    let c = length-append (drop r rb.memory) (take w rb.memory) in
    let d = length-take w rb.memory in ground (arith, a, b, c, d, i.read_inside, i.write_inside)

-- The end of the stream is told just with the last of the bytes.
pub read_eof_lem :
    (rb : RingBuffer) → IsRing rb → read_eof rb ≡ (rb.eof && read_size rb == length (contents rb))
unfolding read_eof
read_eof_lem rb i = let l = length-contents rb i in ground (arith, l, i.read_inside, i.write_inside)

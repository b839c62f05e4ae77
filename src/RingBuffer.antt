-- ===== src/RingBuffer.antt =====
-- The ring buffer between two streams: `nxd_rbuffer` of src/include/nxweb/nxd.h and
-- src/lib/nxd_buffer.c. Its pointers are counted from `start_ptr`; `memory` goes up to `end_ptr`.
pub mod Contents
mod Pieces
pub mod Fill
pub mod Drain
mod Tests
use nxweb.Base.{
  ℕ, zero, suc, ◌+◌, ◌-◌, ◌<◌, Bool, true, false, not, ◌&&◌, ◌||◌, Option, none, some, List, [],
  ◌∷◌, ◌++◌, Bytes, ltb, leb, ◌==◌, if◌then◌else◌, length, take, drop, min,
}

pub record RingBuffer : Type 0 where
  pub memory : Bytes
  pub read_ptr : ℕ
  pub write_ptr : ℕ
  pub last_write : Bool
  pub eof : Bool
  pub in_ready : Bool
  pub out_ready : Bool

-- `nxd_rbuffer_init`
abbrev pub rbuffer_init : Bytes → RingBuffer
rbuffer_init buf = record {
  memory = buf;
  read_ptr = 0;
  write_ptr = 0;
  last_write = false;
  eof = false;
  in_ready = true;
  out_ready = false;
}

abbrev pub size_of : RingBuffer → ℕ
size_of rb = length rb.memory

unfoldable pub rbuffer_is_empty : RingBuffer → Bool
rbuffer_is_empty rb = rb.read_ptr == rb.write_ptr && not rb.last_write

unfoldable pub rbuffer_is_full : RingBuffer → Bool
rbuffer_is_full rb = rb.read_ptr == rb.write_ptr && rb.last_write

-- The size that `nxd_rbuffer_get_write_ptr` gives.
unfoldable pub write_size : RingBuffer → ℕ
unfolding rbuffer_is_full
write_size rb =
    if rbuffer_is_full rb
    then 0
    else if ltb rb.write_ptr rb.read_ptr
    then rb.read_ptr - rb.write_ptr
    else size_of rb - rb.write_ptr

-- The size that `nxd_rbuffer_get_read_ptr` gives, and whether it sets NXEF_EOF.
unfoldable pub read_size : RingBuffer → ℕ
unfolding rbuffer_is_empty
read_size rb =
    if rbuffer_is_empty rb
    then 0
    else if ltb rb.read_ptr rb.write_ptr
    then rb.write_ptr - rb.read_ptr
    else size_of rb - rb.read_ptr

unfoldable pub read_eof : RingBuffer → Bool
unfolding read_size
read_eof rb = rb.eof && (read_size rb == 0 || ltb rb.read_ptr rb.write_ptr || rb.write_ptr == 0)

-- `nxd_rbuffer_read`; `none` is the assertion that fails.
unfoldable pub rbuffer_read : RingBuffer → ℕ → Option RingBuffer
rbuffer_read rb size =
    let ptr = rb.read_ptr + size in
    let ptr' = if leb (size_of rb) ptr then 0 else ptr in
    if size == 0
    then some rb
    else if ltb (size_of rb) ptr
    then none
    else some (record rb {
      read_ptr = ptr';
      last_write = false;
      in_ready = if rb.eof then rb.in_ready else true;
      out_ready = if ptr' == rb.write_ptr && not rb.eof then false else rb.out_ready;
    })

-- `nxd_rbuffer_write`
unfoldable pub rbuffer_write : RingBuffer → ℕ → Option RingBuffer
rbuffer_write rb size =
    let ptr = rb.write_ptr + size in
    let ptr' = if leb (size_of rb) ptr then 0 else ptr in
    if size == 0
    then some rb
    else if ltb (size_of rb) ptr
    then none
    else some (record rb {
      write_ptr = ptr';
      last_write = true;
      out_ready = true;
      in_ready = if rb.read_ptr == ptr' then false else rb.in_ready;
    })

-- What the stream in front writes behind `write_ptr`.
abbrev pub received : RingBuffer → Bytes → RingBuffer
received rb bytes = record rb {
  memory = take rb.write_ptr rb.memory ++ (bytes ++ drop (rb.write_ptr + length bytes) rb.memory);
}

-- `if (flags & NXEF_EOF) …`
abbrev pub at_eof : RingBuffer → Bool → RingBuffer
at_eof rb flag = if flag then record rb { eof = true; out_ready = true } else rb

-- `rbuffer_data_in_do_read`, where the stream in front has `bytes` to give, and says with `flag`
-- that it ends; `none` is an assertion that fails.
unfoldable pub do_read : RingBuffer → Bytes → Bool → Option RingBuffer
unfolding write_size rbuffer_write
do_read rb bytes flag =
    let size = write_size rb in
    let bytes' = take size bytes in
    if size == 0 then none else elim (rbuffer_write (received rb bytes') (length bytes')) [
      | none ↦ none
      | some rb' ↦ some (at_eof rb' flag)
    ]

-- What `rbuffer_data_out_do_write` offers to the stream behind.
unfoldable pub offered_bytes : RingBuffer → Bytes
unfolding read_size
offered_bytes rb = take (read_size rb) (drop rb.read_ptr rb.memory)

-- `rbuffer_data_out_do_write`, where the stream behind takes `room` bytes at most.
unfoldable pub do_write : RingBuffer → ℕ → Option RingBuffer
unfolding read_size rbuffer_read
do_write rb room = rbuffer_read rb (min room (read_size rb))

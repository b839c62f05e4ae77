-- ===== src/RingBuffer/Tests.antt =====
-- The ring buffer of src/lib/nxd_buffer.c, run.
use nxweb.Base.{◌-◌, length, ◌≡◌, refl, true, false, some, ◌++◌, codes, take, min, arith}
use nxweb.RingBuffer.{
  RingBuffer, size_of, rbuffer_is_full, rbuffer_is_empty, read_size, offered_bytes, do_read,
  do_write,
}
use nxweb.RingBuffer.Contents.{contents, IsRing}
use nxweb.RingBuffer.Fill.{do_read_lem}
use nxweb.RingBuffer.Drain.{do_write_lem}

-- The contents go around the end.
abbrev around : RingBuffer
around = record {
  memory = codes "cdXab";
  read_ptr = 3;
  write_ptr = 2;
  last_write = true;
  eof = false;
  in_ready = true;
  out_ready = true;
}

around-IsRing : IsRing around
unfolding rbuffer_is_empty rbuffer_is_full
around-IsRing = record {
  read_inside = omega arith;
  write_inside = omega arith;
  out_ready = refl;
  in_ready = refl;
}

contents_run : contents around ≡ codes "abcd"
unfolding contents rbuffer_is_empty
contents_run = refl

not_full : rbuffer_is_full around ≡ false
unfolding rbuffer_is_full
not_full = refl

do_read_lem_example :
    (rb : RingBuffer) × (do_read around (codes "ef") true ≡ some rb)
    × IsRing rb
    × (contents rb
        ≡ contents around
          ++ take
              (min (size_of around - length (contents around)) (size_of around - around.write_ptr))
              (codes "ef"))
do_read_lem_example = do_read_lem around (codes "ef") true around-IsRing not_full

do_write_lem_example :
    (rb : RingBuffer) × (do_write around 3 ≡ some rb)
    × IsRing rb
    × (contents around ≡ take (min 3 (read_size around)) (offered_bytes around) ++ contents rb)
do_write_lem_example = do_write_lem around 3 around-IsRing

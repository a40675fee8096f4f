-- ===== src/Buffer/Tests.antt =====
-- Runs of the buffer's methods, and its theorems at concrete buffers.
use netter.Common.{◌^◌, ◌-◌, ◌≡◌, refl, List, [], ◌∷◌, some, ok, fault, arith}
use netter.Common.Memory.{memcpy, unwritten, length-unwritten}
use netter.Buffer.{SimpleBuffer, write, read, read_count, inc_write_offset}
use netter.Buffer.Queue.{IsValid, unread}
use netter.Buffer.Refine.{Op, put, get, skip, tidy, run, spec_run, spec_call, run_refines}
use netter.Buffer.Overflow.{write_wraps}

abbrev partly_read : SimpleBuffer
partly_read = record {
  buffer = 5 ∷ 6 ∷ 7 ∷ 8 ∷ [];
  alloc_size = 4;
  write_offset = 3;
  read_offset = 1;
}

partly_read-IsValid : IsValid partly_read
partly_read-IsValid = omega arith

-- A block of 2 ^ 32 - 1 bytes, all but one of them written.
abbrev nearly_full : SimpleBuffer
nearly_full = record {
  buffer = unwritten (2 ^ 32 - 1) 0;
  alloc_size = 2 ^ 32 - 1;
  write_offset = 2 ^ 32 - 2;
  read_offset = 0;
}

nearly_full-IsValid : IsValid nearly_full
nearly_full-IsValid = record {
  block = length-unwritten (2 ^ 32 - 1) 0;
  reads = omega arith;
  writes = omega arith;
  word = omega arith;
}

abbrev script : List Op
script = put (1 ∷ 2 ∷ 3 ∷ []) ∷ get 2 ∷ tidy ∷ put (4 ∷ []) ∷ skip 1 ∷ get 9 ∷ []

unread-partly_read : unread partly_read ≡ 6 ∷ 7 ∷ []
unfolding unread
unread-partly_read = refl

write_in_place :
    write partly_read (some (9 ∷ [])) 1
    ≡ ok (record partly_read { buffer = 5 ∷ 6 ∷ 7 ∷ 9 ∷ []; write_offset = 4 }, 1)
unfolding write memcpy inc_write_offset
write_in_place = refl

read_at_end :
    read partly_read (some (0 ∷ 0 ∷ [])) 2
    ≡ ok (record partly_read { read_offset = 3 }, some (6 ∷ 7 ∷ []), 2)
unfolding read memcpy read_count
read_at_end = refl

run_refines_example : run partly_read script ≡ ok (spec_run (unread partly_read) script)
run_refines_example = run_refines script partly_read-IsValid (omega arith)

spec_run_lem :
    spec_run (6 ∷ 7 ∷ []) script ≡ [] ∷ (6 ∷ 7 ∷ []) ∷ [] ∷ [] ∷ [] ∷ (2 ∷ 3 ∷ 4 ∷ []) ∷ []
unfolding spec_run spec_call
spec_run_lem = refl

write_wraps_example : write nearly_full (some (1 ∷ 2 ∷ 3 ∷ [])) 3 ≡ fault
write_wraps_example =
    write_wraps (1 ∷ 2 ∷ 3 ∷ []) 3 nearly_full-IsValid (omega arith) (omega arith) (omega arith)

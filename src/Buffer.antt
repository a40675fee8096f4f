-- ===== src/Buffer.antt =====
-- src/netter/simple_buffer.h and src/netter/simple_buffer.cpp: the growing byte buffer with a read and a
-- write offset. A method returns the new buffer, with its result if it has one.
pub mod Queue
pub mod Reading
pub mod Refine
pub mod Overflow
mod Tests
use netter.Common.{
  ℕ, ◌+◌, ◌/◌, ◌^◌, Bool, List, [], Option, none, some, Result, ok, ◌>>=◌, if◌then◌else◌, ltb, ◌==◌,
  drop, u32, sub32,
}
use netter.Common.Memory.{realloc, memcpy}

-- `m_buffer` is the whole block that it points to, and the empty block while it is NULL.
pub record SimpleBuffer : Type 0 where
  pub buffer : List ℕ
  pub alloc_size : ℕ
  pub write_offset : ℕ
  pub read_offset : ℕ

-- The constructor. (The destructor frees the block; memory that is freed is not modelled.)
unfoldable pub simple_buffer : SimpleBuffer
simple_buffer = record { buffer = []; alloc_size = 0; write_offset = 0; read_offset = 0 }

abbrev pub get_writable_len : SimpleBuffer → ℕ
get_writable_len b = sub32 b.alloc_size b.write_offset

abbrev pub get_readable_len : SimpleBuffer → ℕ
get_readable_len b = sub32 b.write_offset b.read_offset

unfoldable pub inc_write_offset : SimpleBuffer → ℕ → SimpleBuffer
inc_write_offset b len = record b { write_offset = u32 (b.write_offset + len) }

-- `n >> 2` is `n / 4`.
unfoldable pub extend : SimpleBuffer → ℕ → SimpleBuffer
extend b len =
    let wanted = u32 (b.write_offset + len) in
    let size = u32 (wanted + wanted / 4) in
    record b { alloc_size = size; buffer = realloc b.buffer size }

-- `memcpy(m_buffer + at, buf, len)` where `buf` is not NULL.
store : SimpleBuffer → ℕ → Option (List ℕ) → ℕ → Result SimpleBuffer
store b at none len = ok b
store b at (some src) len = do block ← memcpy b.buffer at src len; ok (record b { buffer = block })

-- `Write(buf, len)`; `none` is a NULL `buf`, for which the bytes are left as they are.
unfoldable pub write : SimpleBuffer → Option (List ℕ) → ℕ → Result (SimpleBuffer × ℕ)
unfolding store
write b buf len = do
  let grown = if ltb b.alloc_size (u32 (b.write_offset + len)) then extend b len else b
  stored ← store grown grown.write_offset buf len
  ok (inc_write_offset stored len, len)

-- `memcpy(buf, m_buffer + m_read_offset, len)` where `buf` is not NULL.
fetch : SimpleBuffer → Option (List ℕ) → ℕ → Result (Option (List ℕ))
fetch b none len = ok none
fetch b (some dst) len = do
  filled ← memcpy dst 0 (drop b.read_offset b.buffer) len
  ok (some filled)

-- How many bytes `Read` takes.
unfoldable pub read_count : SimpleBuffer → ℕ → ℕ
read_count b len = if ltb (get_readable_len b) len then get_readable_len b else len

-- `Read(buf, len)`: the buffer, the bytes at `buf` afterwards, and the count that is returned.
unfoldable pub read :
    SimpleBuffer → Option (List ℕ) → ℕ → Result (SimpleBuffer × Option (List ℕ) × ℕ)
unfolding fetch
read b buf len = do
  let n = read_count b len
  filled ← fetch b buf n
  ok (record b { read_offset = u32 (b.read_offset + n) }, filled, n)

-- `ResetOffset`: the unread bytes move to the front.
unfoldable pub reset_offset : SimpleBuffer → Result SimpleBuffer
reset_offset b = if b.read_offset == 0 then ok b else do
  let unread = get_readable_len b
  block ←
      if ltb b.read_offset b.write_offset
      then memcpy b.buffer 0 (drop b.read_offset b.buffer) unread
      else ok b.buffer
  ok (record b { buffer = block; write_offset = unread; read_offset = 0 })

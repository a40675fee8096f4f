-- ===== src/Stream.antt =====
-- src/netter/byte_stream.h and src/netter/byte_stream.cpp: reading and writing big-endian fields, over a
-- raw block or over a `SimpleBuffer`. A method returns the new stream, with its result.
pub mod Word
pub mod Fields
pub mod Raw
pub mod Items
pub mod RoundTrip
mod Tests
use netter.Common.{
  ℕ, ◌+◌, Bool, true, false, ◌&&◌, List, [], Option, none, some, Result, ok, throw, ◌>>=◌,
  parse_failed, if◌then◌else◌, ltb, u32, drop,
}
use netter.Common.Memory.{memcpy, unwritten}
use netter.Buffer.{SimpleBuffer}
use netter.Buffer

-- A pointer that is NULL is `none`; `m_pBuf` is the block that it points to.
pub record ByteStream : Type 0 where
  pub simp_buf : Option SimpleBuffer
  pub buf : Option (List ℕ)
  pub len : ℕ
  pub pos : ℕ

-- `CByteStream(buf, len)` and `CByteStream(pSimpBuf, pos)`.
unfoldable pub raw_stream : Option (List ℕ) → ℕ → ByteStream
raw_stream buf len = record { simp_buf = none; buf = buf; len = len; pos = 0 }

unfoldable pub buffer_stream : Option SimpleBuffer → ℕ → ByteStream
buffer_stream simp_buf pos = record { simp_buf = simp_buf; buf = none; len = 0; pos = pos }

-- The bytes that a pointer points to; none if it is NULL.
abbrev pub block : Option (List ℕ) → List ℕ
block none = []
block (some bytes) = bytes

-- A pointer that is not NULL points to `stored` now.
abbrev pub stored_at : Option (List ℕ) → List ℕ → Option (List ℕ)
stored_at none stored = none
stored_at (some bytes) stored = some stored

abbrev is_some {ℓ} : {A : Type ℓ} → Option A → Bool
is_some none = false
is_some (some a) = true

unfoldable pub get_buf : ByteStream → List ℕ
get_buf s = elim s.simp_buf [ none ↦ block s.buf | some b ↦ b.buffer ]

-- The position moves before the test; the stream that an exception leaves is gone with the scope
-- that declares it.
unfoldable pub skip : ByteStream → ℕ → Result ByteStream
skip s len =
    let moved = record s { pos = u32 (s.pos + len) } in
    if ltb s.len moved.pos then throw parse_failed else ok moved

-- `_ReadByte(buf, len)`, with the bytes it leaves in the local array `buf` of `len` bytes.
read_from : ByteStream → ℕ → Result (ByteStream × List ℕ)
read_from s len = elim s.simp_buf [
  | some b ↦ do
    (b', out, _) ← Buffer.read b (some (unwritten len 0)) len
    ok (record s { simp_buf = some b'; pos = u32 (s.pos + len) }, block out)
  | none ↦ do
    out ← memcpy (unwritten len 0) 0 (drop s.pos (block s.buf)) len
    ok (record s { pos = u32 (s.pos + len) }, out)
]

unfoldable pub read_byte : ByteStream → ℕ → Result (ByteStream × List ℕ)
unfolding read_from
read_byte s len = if ltb s.len (u32 (s.pos + len)) then throw parse_failed else read_from s len

-- `_WriteByte(buf, len)`. A raw block that is too short is left as it is, with no error.
write_to : ByteStream → Option (List ℕ) → ℕ → Result ByteStream
write_to s bytes len = elim s.simp_buf [
  | some b ↦ do
    (b', _) ← Buffer.write b bytes len
    ok (record s { simp_buf = some b'; pos = u32 (s.pos + len) })
  | none ↦ do
    stored ← memcpy (block s.buf) s.pos (block bytes) len
    ok (record s { buf = stored_at s.buf stored; pos = u32 (s.pos + len) })
]

unfoldable pub write_byte : ByteStream → Option (List ℕ) → ℕ → Result ByteStream
unfolding write_to
write_byte s bytes len =
    if is_some s.buf && ltb s.len (u32 (s.pos + len)) then ok s else write_to s bytes len

-- ===== src/Stream/Fields.antt =====
-- The operators `<<` and `>>` of `CByteStream`, one for each width, and its strings and data. A
-- signed field is its bit pattern.
use netter.Common.{
  ℕ, ◌+◌, List, [], ◌∷◌, Option, none, some, Result, ok, fault, ◌>>=◌, if◌then◌else◌, leb, ◌==◌,
  u32, length, take, drop,
}
use netter.Stream.{ByteStream, get_buf, skip, read_byte, write_byte}
use netter.Stream.Word.{byte_at, bytes16, bytes32, bytes64, read_uint16, read_uint32, read_uint64}

unfoldable pub put_uint8 : ByteStream → ℕ → Result ByteStream
put_uint8 s v = write_byte s (some (v ∷ [])) 1

unfoldable pub put_uint16 : ByteStream → ℕ → Result ByteStream
put_uint16 s v = write_byte s (some (bytes16 v)) 2

unfoldable pub put_uint32 : ByteStream → ℕ → Result ByteStream
put_uint32 s v = write_byte s (some (bytes32 v)) 4

unfoldable pub put_uint64 : ByteStream → ℕ → Result ByteStream
put_uint64 s v = write_byte s (some (bytes64 v)) 8

unfoldable pub get_uint8 : ByteStream → Result (ByteStream × ℕ)
get_uint8 s = do (s', array) ← read_byte s 1; v ← byte_at array 0; ok (s', v)

unfoldable pub get_uint16 : ByteStream → Result (ByteStream × ℕ)
get_uint16 s = do (s', array) ← read_byte s 2; v ← read_uint16 array 0; ok (s', v)

unfoldable pub get_uint32 : ByteStream → Result (ByteStream × ℕ)
get_uint32 s = do (s', array) ← read_byte s 4; v ← read_uint32 array 0; ok (s', v)

unfoldable pub get_uint64 : ByteStream → Result (ByteStream × ℕ)
get_uint64 s = do (s', array) ← read_byte s 8; v ← read_uint64 array 0; ok (s', v)

-- `strlen`: the bytes before the first zero; without one it runs off the block.
unfoldable pub strlen : List ℕ → Result ℕ
strlen [] = fault
strlen (c ∷ cs) = let rest = strlen cs in if c == 0 then ok 0 else (do n ← rest; ok (n + 1))

-- `WriteString(str, len)`, `WriteString(str)` and `WriteString(str_obj)`.
unfoldable pub write_string : ByteStream → Option (List ℕ) → ℕ → Result ByteStream
write_string s str len = do s' ← put_uint32 s len; write_byte s' str len

unfoldable pub write_c_string : ByteStream → Option (List ℕ) → Result ByteStream
write_c_string s none = write_string s none 0
write_c_string s (some str) = do size ← strlen str; write_string s (some str) (u32 size)

unfoldable pub write_string_obj : ByteStream → List ℕ → Result ByteStream
write_string_obj s str_obj = write_string s (some str_obj) (u32 (length str_obj))

-- `ReadString(len)`: the pointer that it returns, as the part of the block from there on.
unfoldable pub read_string_at : ByteStream → Result (ByteStream × List ℕ × ℕ)
read_string_at s = do
  (s', len) ← get_uint32 s
  s'' ← skip s' len
  ok (s'', drop s'.pos (get_buf s'), len)

-- `str_obj.append(ptr, len)` on an empty string.
unfoldable pub append : List ℕ → ℕ → Result (List ℕ)
append ptr len = if leb len (length ptr) then ok (take len ptr) else fault

-- `ReadString(str_obj)`.
unfoldable pub read_string : ByteStream → Result (ByteStream × List ℕ)
read_string s = do (s', ptr, len) ← read_string_at s; str_obj ← append ptr len; ok (s', str_obj)

-- `WriteData` and `ReadData` are the code of `WriteString` and `ReadString` over bytes.
unfoldable pub write_data : ByteStream → Option (List ℕ) → ℕ → Result ByteStream
write_data s bytes len = do s' ← put_uint32 s len; write_byte s' bytes len

unfoldable pub read_data : ByteStream → Result (ByteStream × List ℕ × ℕ)
read_data s = do
  (s', len) ← get_uint32 s
  s'' ← skip s' len
  ok (s'', drop s'.pos (get_buf s'), len)

-- ===== src/Stream/Word.antt =====
-- The static `Read…` and `Write…` of `CByteStream`. `buf + at` is a pointer into the block `buf`. A
-- signed integer is its two's complement bit pattern, so its overload is the unsigned one's code.
pub mod RoundTrip
use Prim.Native.Nat.{bit_or}
use netter.Common.{
  ℕ, zero, suc, ◌+◌, ◌*◌, ◌/◌, ◌%◌, ◌^◌, List, [], ◌∷◌, Result, ok, fault, ◌>>=◌, u16, u32, u64,
}
use netter.Common.Memory.{memcpy}

-- `buf[i]`
unfoldable pub byte_at : List ℕ → ℕ → Result ℕ
byte_at [] i = fault
byte_at (b ∷ bs) zero = ok b
byte_at (b ∷ bs) (suc i) = byte_at bs i

-- `x << k` and `(uchar_t)(x >> k)`; `& 0xFF` keeps the same eight bits as the cast.
abbrev pub shl : ℕ → ℕ → ℕ
shl x k = x * 2 ^ k

abbrev pub byte_of : ℕ → ℕ → ℕ
byte_of x k = x / 2 ^ k % 2 ^ 8

-- The bytes in the order in which they are assigned to `buf[0]`, `buf[1]`, …
unfoldable pub bytes16 : ℕ → List ℕ
bytes16 v = byte_of v 8 ∷ byte_of v 0 ∷ []

unfoldable pub bytes32 : ℕ → List ℕ
bytes32 v = byte_of v 24 ∷ byte_of v 16 ∷ byte_of v 8 ∷ byte_of v 0 ∷ []

unfoldable pub bytes64 : ℕ → List ℕ
bytes64 v =
    byte_of v 56
    ∷ byte_of v 48
    ∷ byte_of v 40
    ∷ byte_of v 32
    ∷ byte_of v 24
    ∷ byte_of v 16
    ∷ byte_of v 8
    ∷ byte_of v 0
    ∷ []

unfoldable pub read_uint16 : List ℕ → ℕ → Result ℕ
read_uint16 buf at = do
  b0 ← byte_at buf at
  b1 ← byte_at buf (at + 1)
  ok (u16 (bit_or (shl b0 8) b1))

unfoldable pub read_uint32 : List ℕ → ℕ → Result ℕ
read_uint32 buf at = do
  b0 ← byte_at buf at
  b1 ← byte_at buf (at + 1)
  b2 ← byte_at buf (at + 2)
  b3 ← byte_at buf (at + 3)
  ok (u32 (bit_or (bit_or (bit_or (shl b0 24) (shl b1 16)) (shl b2 8)) b3))

unfoldable pub read_uint64 : List ℕ → ℕ → Result ℕ
read_uint64 buf at = do
  b0 ← byte_at buf at
  b1 ← byte_at buf (at + 1)
  b2 ← byte_at buf (at + 2)
  b3 ← byte_at buf (at + 3)
  b4 ← byte_at buf (at + 4)
  b5 ← byte_at buf (at + 5)
  b6 ← byte_at buf (at + 6)
  b7 ← byte_at buf (at + 7)
  let high = bit_or (bit_or (bit_or (shl b0 56) (shl b1 48)) (shl b2 40)) (shl b3 32)
  let low = bit_or (bit_or (bit_or high (shl b4 24)) (shl b5 16)) (shl b6 8)
  ok (u64 (bit_or low b7))

abbrev pub read_int16 : List ℕ → ℕ → Result ℕ
read_int16 = read_uint16

abbrev pub read_int32 : List ℕ → ℕ → Result ℕ
read_int32 = read_uint32

abbrev pub read_int64 : List ℕ → ℕ → Result ℕ
read_int64 = read_uint64

-- The assignments to `buf[0]`, `buf[1]`, …
unfoldable pub write_uint16 : List ℕ → ℕ → ℕ → Result (List ℕ)
write_uint16 buf at v = memcpy buf at (bytes16 v) 2

unfoldable pub write_uint32 : List ℕ → ℕ → ℕ → Result (List ℕ)
write_uint32 buf at v = memcpy buf at (bytes32 v) 4

unfoldable pub write_uint64 : List ℕ → ℕ → ℕ → Result (List ℕ)
write_uint64 buf at v = memcpy buf at (bytes64 v) 8

abbrev pub write_int16 : List ℕ → ℕ → ℕ → Result (List ℕ)
write_int16 = write_uint16

abbrev pub write_int32 : List ℕ → ℕ → ℕ → Result (List ℕ)
write_int32 = write_uint32

abbrev pub write_int64 : List ℕ → ℕ → ℕ → Result (List ℕ)
write_int64 = write_uint64

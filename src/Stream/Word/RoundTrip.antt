-- ===== src/Stream/Word/RoundTrip.antt =====
-- The static reads undo the static writes, at every width.
use netter.Common.{ℕ, ◌+◌, ◌^◌, ◌<◌, ◌≡◌, refl, ap, List, ◌∷◌, ◌++◌, ok, arith}
use netter.Common.Bits.{bit_or_eq_add}
use netter.Stream.Word.{
  byte_at, bytes16, bytes32, bytes64, read_uint16, read_uint32, read_uint64, shl, byte_of,
}

-- What is read from four bytes, as a sum.
pub read_uint32_value :
    (b0 b1 b2 b3 : ℕ) (rest : List ℕ)
    → b0 < 256
    → b1 < 256
    → b2 < 256
    → b3 < 256
    → read_uint32 (b0 ∷ b1 ∷ b2 ∷ b3 ∷ rest) 0 ≡ ok (shl b0 24 + shl b1 16 + shl b2 8 + b3)
unfolding read_uint32 byte_at
read_uint32_value b0 b1 b2 b3 rest h0 h1 h2 h3 =
    rw
      (
        bit_or_eq_add 24 b0 (shl b0 24) (shl b1 16) refl (omega arith),
        bit_or_eq_add 16 (shl b0 8 + b1) (shl b0 24 + shl b1 16) (shl b2 8) (omega arith)
            (omega arith),
        bit_or_eq_add 8 (shl b0 16 + shl b1 8 + b2) (shl b0 24 + shl b1 16 + shl b2 8) b3
            (omega arith) (omega arith),
      )
      (ap ok (omega arith))

-- `WriteUint16`, then `ReadUint16`: the value comes back, whatever follows it.
pub read-bytes16 : (v : ℕ) (rest : List ℕ) → v < 2 ^ 16 → read_uint16 (bytes16 v ++ rest) 0 ≡ ok v
unfolding read_uint16 bytes16 byte_at
read-bytes16 v rest h = ap ok (
    omega
      (arith, bit_or_eq_add 8 (byte_of v 8) (shl (byte_of v 8) 8) (byte_of v 0) refl (omega arith)))

pub read-bytes32 : (v : ℕ) (rest : List ℕ) → v < 2 ^ 32 → read_uint32 (bytes32 v ++ rest) 0 ≡ ok v
unfolding bytes32
read-bytes32 v rest h =
    rw
      (read_uint32_value (byte_of v 24) (byte_of v 16) (byte_of v 8) (byte_of v 0) rest
        (omega arith) (omega arith) (omega arith) (omega arith))
      (ap ok (omega arith))

-- The eight bytes of `ReadUint64` as a sum.
read_uint64_value :
    (b0 b1 b2 b3 b4 b5 b6 b7 : ℕ) (rest : List ℕ)
    → b0 < 256
    → b1 < 256
    → b2 < 256
    → b3 < 256
    → b4 < 256
    → b5 < 256
    → b6 < 256
    → b7 < 256
    → read_uint64 (b0 ∷ b1 ∷ b2 ∷ b3 ∷ b4 ∷ b5 ∷ b6 ∷ b7 ∷ rest) 0
      ≡ ok (shl b0 56 + shl b1 48 + shl b2 40 + shl b3 32 + shl b4 24 + shl b5 16 + shl b6 8 + b7)
unfolding read_uint64 byte_at
read_uint64_value b0 b1 b2 b3 b4 b5 b6 b7 rest h0 h1 h2 h3 h4 h5 h6 h7 =
    rw
      (
        bit_or_eq_add 56 b0 (shl b0 56) (shl b1 48) refl (omega arith),
        bit_or_eq_add 48 (shl b0 8 + b1) (shl b0 56 + shl b1 48) (shl b2 40) (omega arith)
            (omega arith),
        bit_or_eq_add 40 (shl b0 16 + shl b1 8 + b2) (shl b0 56 + shl b1 48 + shl b2 40) (shl b3 32)
            (omega arith) (omega arith),
      )
      (rw
        (
          bit_or_eq_add 32 (shl b0 24 + shl b1 16 + shl b2 8 + b3)
              (shl b0 56 + shl b1 48 + shl b2 40 + shl b3 32) (shl b4 24) (omega arith)
              (omega arith),
          bit_or_eq_add 24 (shl b0 32 + shl b1 24 + shl b2 16 + shl b3 8 + b4)
              (shl b0 56 + shl b1 48 + shl b2 40 + shl b3 32 + shl b4 24) (shl b5 16) (omega arith)
              (omega arith),
          bit_or_eq_add 16 (shl b0 40 + shl b1 32 + shl b2 24 + shl b3 16 + shl b4 8 + b5)
              (shl b0 56 + shl b1 48 + shl b2 40 + shl b3 32 + shl b4 24 + shl b5 16) (shl b6 8)
              (omega arith) (omega arith),
          bit_or_eq_add 8
              (shl b0 48 + shl b1 40 + shl b2 32 + shl b3 24 + shl b4 16 + shl b5 8 + b6)
              (shl b0 56 + shl b1 48 + shl b2 40 + shl b3 32 + shl b4 24 + shl b5 16 + shl b6 8) b7
              (omega arith) (omega arith),
        )
        (ap ok (omega arith)))

pub read-bytes64 : (v : ℕ) (rest : List ℕ) → v < 2 ^ 64 → read_uint64 (bytes64 v ++ rest) 0 ≡ ok v
unfolding bytes64
read-bytes64 v rest h =
    rw
      (read_uint64_value (byte_of v 56) (byte_of v 48) (byte_of v 40) (byte_of v 32) (byte_of v 24)
        (byte_of v 16) (byte_of v 8) (byte_of v 0) rest (omega arith) (omega arith) (omega arith)
        (omega arith) (omega arith) (omega arith) (omega arith) (omega arith))
      (ap ok (omega arith))

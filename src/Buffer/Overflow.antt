-- ===== src/Buffer/Overflow.antt =====
-- `Write` where the sum of the sizes leaves `uint32_t`.
use netter.Common.{ℕ, ◌+◌, ◌-◌, ◌≤◌, ◌<◌, ◌^◌, ◌≡◌, List, some, fault, arith, le→ltb, u32}
use netter.Common.Memory.{memcpy-fault}
use netter.Buffer.{SimpleBuffer, write}
use netter.Buffer.Queue.{IsValid}

-- The sum `m_write_offset + len` wraps, so the test for room passes although there is none, and
-- the copy runs past the block, whatever the bytes are: for every valid buffer and every `len`
-- whose wrapped sum is within the block.
pub write_wraps :
    {b : SimpleBuffer} (bytes : List ℕ) (len : ℕ)
    → IsValid b
    → len < 2 ^ 32
    → 2 ^ 32 ≤ b.write_offset + len
    → b.write_offset + len - 2 ^ 32 ≤ b.alloc_size
    → write b (some bytes) len ≡ fault
unfolding write
write_wraps {b} bytes len v small wraps fits =
    rw (le→ltb b.alloc_size (u32 (b.write_offset + len)) (omega arith))
      (rw (memcpy-fault b.buffer b.write_offset bytes len (omega arith)))

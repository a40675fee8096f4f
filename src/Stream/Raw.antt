-- ===== src/Stream/Raw.antt =====
-- The stream over a raw block: what one write and one read do to the block and the position.
use netter.Common.{
  ℕ, ◌+◌, ◌≤◌, ◌<◌, ◌^◌, ◌≡◌, refl, ap, ap₂, sym, ◌∙◌, List, ◌++◌, none, some, ok, throw,
  parse_failed, arith, lt→ltb, le→ltb, u32, length, take, drop, length-drop, take-append,
  drop-append, take-all, drop-drop,
}
use netter.Common.Memory.{
  memcpy-ok, memcpy_whole, length-memcpy, window-memcpy, unwritten, length-unwritten,
}
use netter.Stream.{ByteStream, read_byte, write_byte}

-- The stream over `m`, of which it may use `n` bytes, at position `p`.
abbrev pub raw_at : List ℕ → ℕ → ℕ → ByteStream
raw_at m n p = record { simp_buf = none; buf = some m; len = n; pos = p }

-- What writing `bytes` at position `p` of `m` leaves.
abbrev pub written : List ℕ → ℕ → List ℕ → List ℕ
written m p bytes = take p m ++ (take (length bytes) bytes ++ drop (p + length bytes) m)

module _ (m : List ℕ) (n p : ℕ) (bytes : List ℕ) (block : n ≤ length m) (word : n < 2 ^ 32) where
  -- A write that fits puts the bytes at the position and moves it.
  pub write_byte-fits :
      p + length bytes ≤ n
      → write_byte (raw_at m n p) (some bytes) (length bytes)
        ≡ ok (raw_at (written m p bytes) n (p + length bytes))
  unfolding write_byte
  write_byte-fits fits =
      rw
        (
          le→ltb n (u32 (p + length bytes)) (omega arith),
          memcpy-ok m p bytes (length bytes) (omega arith) (omega arith),
        )
        (ap (λ k. ok (raw_at (written m p bytes) n k)) (omega arith))

  -- One that does not fit changes nothing and reports nothing.
  pub write_byte-short :
      n < p + length bytes
      → p + length bytes < 2 ^ 32
      → write_byte (raw_at m n p) (some bytes) (length bytes) ≡ ok (raw_at m n p)
  unfolding write_byte
  write_byte-short short small = rw (lt→ltb n (u32 (p + length bytes)) (omega arith))

  pub take-written :
      p + length bytes ≤ n → take (p + length bytes) (written m p bytes) ≡ take p m ++ bytes
  take-written fits =
      ap (λ k. take k (written m p bytes)) (omega arith)
      ∙ window-memcpy m p bytes (length bytes) 0 (omega arith) (omega arith) (omega arith)
      ∙ ap₂ (λ k bs. take k m ++ bs) (omega arith) (take-all (length bytes) bytes (omega arith))

  pub length-written : p + length bytes ≤ n → length (written m p bytes) ≡ length m
  length-written fits = length-memcpy m p bytes (length bytes) (omega arith) (omega arith)

  -- A read of bytes that lie within the length yields them and moves the position.
  pub read_byte-fits :
      (rest : List ℕ)
      → drop p m ≡ bytes ++ rest
      → p + length bytes ≤ n
      → read_byte (raw_at m n p) (length bytes) ≡ ok (raw_at m n (p + length bytes), bytes)
  unfolding read_byte
  read_byte-fits rest at fits =
      rw
        (
          le→ltb n (u32 (p + length bytes)) (omega arith),
          memcpy_whole (unwritten (length bytes) 0) (drop p m) (length bytes)
              (length-unwritten (length bytes) 0) (omega (arith, length-drop p m)),
        )
        (ap₂ (λ k bs. ok (raw_at m n k, bs)) (omega arith)
          (ap (take (length bytes)) at ∙ take-append (length bytes) bytes rest refl))

  pub drop-after : (rest : List ℕ) → drop p m ≡ bytes ++ rest → drop (p + length bytes) m ≡ rest
  drop-after rest at =
      sym (drop-drop (length bytes) p m)
      ∙ ap (drop (length bytes)) at
      ∙ drop-append (length bytes) bytes rest refl

-- A read past the length throws, as long as the sum does not wrap.
pub read_byte-short :
    (m : List ℕ) (n p k : ℕ)
    → n < p + k
    → p + k < 2 ^ 32
    → read_byte (raw_at m n p) k ≡ throw parse_failed
unfolding read_byte
read_byte-short m n p k short small = rw (lt→ltb n (u32 (p + k)) (omega arith))

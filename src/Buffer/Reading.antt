-- ===== src/Buffer/Reading.antt =====
-- `Read` and `ResetOffset` on the buffer as a queue of bytes.
use netter.Common.{
  ℕ, ◌+◌, ◌-◌, ◌≤◌, ◌==◌, ==_iff, ◌≡◌, refl, ap, ◌∙◌, List, ◌++◌, none, some, min, Returns, arith,
  length, take, drop, length-drop, take-take, drop-take, drop-drop, sym, ap₂, ltb, ltb→le, sub32,
  u32, Bool-cases, inl, inr,
}
use netter.Common.Memory.{memcpy-ok, length-memcpy, window-memcpy}
use netter.Buffer.{read_count, SimpleBuffer, read, reset_offset}
use netter.Buffer.Queue.{IsValid, unread, length-unread}

read_count-eq-min :
    {b : SimpleBuffer} (len : ℕ)
    → IsValid b
    → read_count b len ≡ min len (b.write_offset - b.read_offset)
unfolding read_count
read_count-eq-min {b} len v = ground arith

-- What a `Read` of at most `len` bytes leaves, whether or not they are copied out.
abbrev pub DidRead : SimpleBuffer → ℕ → SimpleBuffer → ℕ → Type 0
DidRead b len b' n =
    (n ≡ min len (length (unread b)))
    × IsValid b'
    × (unread b' ≡ drop n (unread b))
    × (b'.write_offset ≡ b.write_offset)

did_read :
    {b : SimpleBuffer} (len : ℕ)
    → IsValid b
    → DidRead b len
        (record b { read_offset = u32 (b.read_offset + read_count b len) })
        (read_count b len)
unfolding unread
did_read {b} len v =
    let c : read_count b len ≡ min len (b.write_offset - b.read_offset) = read_count-eq-min len v in
    (
      c ∙ ap (min len) (sym (unfold unread in length-unread v)),
      omega arith,
      ap₂ (λ i j. take i (drop j b.buffer)) (omega arith) (omega arith)
          ∙ ap (take (b.write_offset - b.read_offset - read_count b len))
              (sym (drop-drop (read_count b len) b.read_offset b.buffer))
          ∙ sym (
              drop-take (read_count b len) (b.write_offset - b.read_offset)
                (drop b.read_offset b.buffer)),
      refl,
    )

-- `Read(NULL, len)` drops the oldest bytes, `len` of them or all there are, and returns how many.
pub read-DidRead :
    {b : SimpleBuffer} (len : ℕ)
    → IsValid b
    → Returns (read b none len) (λ (b', out, n). (out ≡ none) × DidRead b len b' n)
unfolding read unread
read-DidRead {b} len v = (refl, did_read len v)

-- `Read(buf, len)` moves the same bytes to `buf`.
pub read_out-DidRead :
    {b : SimpleBuffer} (dst : List ℕ) (len : ℕ)
    → IsValid b
    → len ≤ length dst
    → Returns
        (read b (some dst) len)
        (λ (b', out, n). (out ≡ some (take n (unread b) ++ drop n dst)) × DidRead b len b' n)
unfolding read unread
read_out-DidRead {b} dst len v enough =
    let c : read_count b len ≡ min len (b.write_offset - b.read_offset) = read_count-eq-min len v in
    rw
      (memcpy-ok dst 0 (drop b.read_offset b.buffer) (read_count b len)
        (omega (arith, length-drop b.read_offset b.buffer)) (omega arith))
      (
        ap₂ (λ bs k. some (bs ++ drop k dst))
            (sym (
              take-take (read_count b len) (b.write_offset - b.read_offset)
                (drop b.read_offset b.buffer) (omega arith)))
            (omega arith),
        did_read len v,
      )

-- `ResetOffset` keeps the unread bytes, and moves them to the start of the block.
pub reset_offset_lem :
    {b : SimpleBuffer}
    → IsValid b
    → Returns (reset_offset b) (λ b'.
      IsValid b'
      × (unread b' ≡ unread b)
      × (b'.read_offset ≡ 0)
      × (b'.write_offset ≡ length (unread b)))
unfolding reset_offset unread
reset_offset_lem {b} v = elim (Bool-cases (b.read_offset == 0)) [
  | inl at_start ↦
      rw at_start
        (v, refl, (==_iff _ _).0 at_start, omega (arith, length-unread v, (==_iff _ _).0 at_start))
  | inr moved ↦ elim (Bool-cases (ltb b.read_offset b.write_offset)) [
    | inl more ↦
        rw
          (
            moved,
            more,
            memcpy-ok b.buffer 0 source left (omega (arith, length-source)) (omega arith),
          )
          (
            record {
              block =
                  length-memcpy b.buffer 0 source left (omega (arith, length-source)) (omega arith)
                  ∙ v.block;
              reads = omega arith;
              writes = omega arith;
              word = v.word;
            },
            ap (λ i. take i block) (omega arith)
                ∙ window-memcpy b.buffer 0 source left 0 (omega arith)
                    (omega (arith, length-source)) (omega arith)
                ∙ ap (λ i. take i source) (omega arith),
            refl,
            omega (arith, length-unread v),
          )
    | inr all_read ↦
        let e : b.write_offset ≡ b.read_offset = omega (arith, v.reads, ltb→le _ _ all_read) in
        rw (moved, all_read)
          (
            record { block = v.block; reads = omega arith; writes = omega arith; word = v.word },
            ap (λ i. take i b.buffer) (let z : left - 0 ≡ 0 = omega arith in z)
                ∙ ap (λ i. take i source)
                    (let z : 0 ≡ b.write_offset - b.read_offset = omega arith in z),
            refl,
            omega (arith, length-unread v),
          )
  ]
]
  where
    open b use {write_offset, read_offset}

    source : List ℕ
    source = drop read_offset b.buffer

    left : ℕ
    left = sub32 write_offset read_offset

    length-source : length source ≡ length b.buffer - read_offset
    length-source = length-drop read_offset b.buffer

    block : List ℕ
    block = take 0 b.buffer ++ (take left source ++ drop (0 + left) b.buffer)

-- ===== src/Buffer/Queue.antt =====
-- The buffer as a queue of bytes: what is unread, and what each method does to it.
use netter.Common.{
  ℕ, ◌+◌, ◌-◌, ◌/◌, ◌≤◌, ◌<◌, ◌^◌, ◌≡◌, refl, ap, ◌∙◌, List, [], ◌++◌, none, some, ok, ◌>>=◌,
  Returns, Returns-mono, arith, length, take, drop, length-drop, length-take, take-take, drop-take,
  sym, ap₂, ltb, if◌then◌else◌, u32, Bool-cases, inl, inr,
}
use netter.Common.Memory.{
  realloc, length-realloc, take-realloc, memcpy-ok, length-memcpy, window-memcpy,
}
use netter.Buffer.{store, SimpleBuffer, simple_buffer, extend, write, inc_write_offset}

-- The offsets are in order and lie in the block, whose size the buffer knows.
pub record IsValid (b : SimpleBuffer) : Type 0 where
  pub block : length b.buffer ≡ b.alloc_size
  pub reads : b.read_offset ≤ b.write_offset
  pub writes : b.write_offset ≤ b.alloc_size
  pub word : b.alloc_size < 2 ^ 32

-- The bytes that are written and not yet read, oldest first.
unfoldable pub unread : SimpleBuffer → List ℕ
unread b = take (b.write_offset - b.read_offset) (drop b.read_offset b.buffer)

-- `len` more bytes can be asked for with no sum of `Extend` wrapping at 2 ^ 32.
abbrev pub HasRoom : SimpleBuffer → ℕ → Type 0
HasRoom b len = b.write_offset + len + (b.write_offset + len) / 4 < 2 ^ 32

pub length-unread :
    {b : SimpleBuffer} → IsValid b → length (unread b) ≡ b.write_offset - b.read_offset
unfolding unread
length-unread {b} v = omega (
  arith,
  length-take (b.write_offset - b.read_offset) (drop b.read_offset b.buffer),
  length-drop b.read_offset b.buffer,
)

pub simple_buffer-IsValid : IsValid simple_buffer
unfolding simple_buffer
simple_buffer-IsValid = omega arith

pub unread-simple_buffer : unread simple_buffer ≡ []
unfolding unread simple_buffer
unread-simple_buffer = refl

-- `Extend` keeps the invariant and the unread bytes, and leaves the room it was asked for.
pub extend_lem :
    {b : SimpleBuffer} (len : ℕ)
    → IsValid b
    → HasRoom b len
    → IsValid (extend b len)
      × (unread (extend b len) ≡ unread b)
      × ((extend b len).write_offset ≡ b.write_offset)
      × ((extend b len).read_offset ≡ b.read_offset)
      × (b.write_offset + len ≤ (extend b len).alloc_size)
unfolding extend unread
extend_lem {b} len v room = (
  record {
    block = length-realloc b.buffer _;
    reads = v.reads;
    writes = omega arith;
    word = omega arith;
  },
  sym (drop-take b.read_offset b.write_offset (realloc b.buffer _))
      ∙ ap (drop b.read_offset) (take-realloc b.write_offset b.buffer _ (omega arith) (omega arith))
      ∙ drop-take b.read_offset b.write_offset b.buffer,
  refl,
  refl,
  omega arith,
)

-- What `Write` has done before it copies.
grown : SimpleBuffer → ℕ → SimpleBuffer
grown b len = if ltb b.alloc_size (u32 (b.write_offset + len)) then extend b len else b

grown_lem :
    {b : SimpleBuffer} (len : ℕ)
    → IsValid b
    → HasRoom b len
    → IsValid (grown b len)
      × (unread (grown b len) ≡ unread b)
      × ((grown b len).write_offset ≡ b.write_offset)
      × ((grown b len).read_offset ≡ b.read_offset)
      × (b.write_offset + len ≤ (grown b len).alloc_size)
unfolding grown
grown_lem {b} len v room = elim (Bool-cases (ltb b.alloc_size (u32 (b.write_offset + len)))) [
  | inl more ↦ rw more (extend_lem len v room)
  | inr fits ↦ rw fits (v, refl, refl, refl, ground arith)
]

-- What a `Write` of `bytes` leaves.
abbrev pub Wrote : SimpleBuffer → List ℕ → ℕ → SimpleBuffer × ℕ → Type 0
Wrote b bytes len (b', n) =
    (n ≡ len)
    × IsValid b'
    × (unread b' ≡ unread b ++ take len bytes)
    × (b'.write_offset ≡ b.write_offset + len)
    × (b'.read_offset ≡ b.read_offset)

store_lem :
    {b : SimpleBuffer} (bytes : List ℕ) (len : ℕ)
    → IsValid b
    → b.write_offset + len ≤ b.alloc_size
    → len ≤ length bytes
    → Returns
        (do stored ← store b b.write_offset (some bytes) len; ok (inc_write_offset stored len, len))
        (Wrote b bytes len)
unfolding store inc_write_offset unread
store_lem {b} bytes len v fits enough =
    rw (memcpy-ok b.buffer b.write_offset bytes len enough (omega arith)) (
      refl,
      record {
        block = length-memcpy b.buffer b.write_offset bytes len enough (omega arith) ∙ v.block;
        reads = omega arith;
        writes = omega arith;
        word = v.word;
      },
      ap (λ k. take k (drop b.read_offset block)) (omega arith)
          ∙ window-memcpy b.buffer b.write_offset bytes len b.read_offset v.reads enough
              (omega arith),
      omega arith,
      refl,
    )
  where
    block : List ℕ
    block = take b.write_offset b.buffer ++ (take len bytes ++ drop (b.write_offset + len) b.buffer)

-- `Write` puts the first `len` bytes at `buf` behind the unread bytes and returns `len`, growing
-- the block where it has to, as long as no sum of the sizes reaches 2 ^ 32.
pub write-Wrote :
    {b : SimpleBuffer} (bytes : List ℕ) (len : ℕ)
    → IsValid b
    → HasRoom b len
    → len ≤ length bytes
    → Returns (write b (some bytes) len) (Wrote b bytes len)
unfolding write grown
write-Wrote {b} bytes len v room enough =
    let (v', u, w, r, fits) = grown_lem len v room in
    Returns-mono (Wrote (grown b len) bytes len) (Wrote b bytes len) _
      (λ (b', n) (e, v'', u', w', r').
        (e, v'', u' ∙ ap (λ q. q ++ take len bytes) u, w' ∙ ap (λ k. k + len) w, r' ∙ r))
      (store_lem bytes len v' (rw w fits) enough)

-- What a `Write(NULL, len)` leaves.
abbrev pub Skipped : SimpleBuffer → ℕ → SimpleBuffer × ℕ → Type 0
Skipped b len (b', n) =
    (n ≡ len)
    × IsValid b'
    × (take (length (unread b)) (unread b') ≡ unread b)
    × (length (unread b') ≡ length (unread b) + len)
    × (b'.write_offset ≡ b.write_offset + len)
    × (b'.read_offset ≡ b.read_offset)

inc_write_offset_lem :
    {b : SimpleBuffer} (len : ℕ)
    → IsValid b
    → b.write_offset + len ≤ b.alloc_size
    → Skipped b len (inc_write_offset b len, len)
unfolding inc_write_offset unread
inc_write_offset_lem {b} len v fits = (
  refl,
  v',
  ap₂ (λ i k. take i (take k (drop b.read_offset b.buffer))) (length-unread v) (omega arith)
      ∙ take-take (b.write_offset - b.read_offset) (b.write_offset + len - b.read_offset) _
          (omega arith),
  omega (arith, length-unread v, length-unread v'),
  omega arith,
  refl,
)
  where
    v' : IsValid (record b { write_offset = u32 (b.write_offset + len) })
    v' = record { block = v.block; reads = omega arith; writes = omega arith; word = v.word }

-- `Write(NULL, len)` only moves the write offset: `len` bytes follow that nothing has written.
pub write_null-Skipped :
    {b : SimpleBuffer} (len : ℕ)
    → IsValid b
    → HasRoom b len
    → Returns (write b none len) (Skipped b len)
unfolding write store grown
write_null-Skipped {b} len v room =
    let (v', u, w, r, fits) = grown_lem len v room in
    let (e, v'', kept, more, w', r') = inc_write_offset_lem len v' (rw w fits) in
    (e, v'', rw u at kept, more ∙ ap (λ q. length q + len) u, w' ∙ ap (λ k. k + len) w, r' ∙ r)

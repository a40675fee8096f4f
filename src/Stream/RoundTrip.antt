-- ===== src/Stream/RoundTrip.antt =====
-- Fields written to a raw block come back when they are read.
use netter.Common.{
  ℕ, ◌+◌, ◌≤◌, ◌<◌, ◌^◌, ◌≡◌, refl, ap, ap₂, sym, ◌∙◌, List, [], ◌∷◌, ◌++◌, append_assoc,
  append-nil, Result, ok, ◌>>=◌, Returns, Returns-bind, Returns-mono, some, arith, All, length,
  take, drop, length-append, length-drop, take-append, take-append-drop, le→ltb, le→leb, u32, map,
}
use netter.Stream.{ByteStream, write_byte, raw_stream, skip, get_buf}
use netter.Stream.Word.{byte_at, bytes16, bytes32, bytes64}
use netter.Stream.Word.RoundTrip.{read-bytes16, read-bytes32, read-bytes64}
use netter.Stream.Fields.{
  put_uint8, put_uint16, put_uint32, put_uint64, get_uint8, get_uint16, get_uint32, get_uint64,
  write_string, write_string_obj, read_string, read_string_at, append,
}
use netter.Stream.Raw.{
  raw_at, written, write_byte-fits, take-written, length-written, read_byte-fits, drop-after,
}
use netter.Stream.Items.{
  Item, uint8, uint16, uint32, uint64, string, kind, put_item, get_item, put_items, get_items,
  IsItem, encode, encode_all,
}

-- The stream has put `bytes` at position `p` of `m`, and nothing before it has changed.
abbrev Put : List ℕ → ℕ → ℕ → List ℕ → ByteStream → Type 0
Put m n p bytes s =
    (m' : List ℕ) × (s ≡ raw_at m' n (p + length bytes))
    × (length m' ≡ length m)
    × (take (p + length bytes) m' ≡ take p m ++ bytes)

module _ (n : ℕ) (word : n < 2 ^ 32) where
  write_byte-Put :
      (m : List ℕ) (p : ℕ) (bytes : List ℕ)
      → n ≤ length m
      → p + length bytes ≤ n
      → Returns (write_byte (raw_at m n p) (some bytes) (length bytes)) (Put m n p bytes)
  write_byte-Put m p bytes block fits = rw (write_byte-fits m n p bytes block word fits) (
    written m p bytes,
    refl,
    length-written m n p bytes block word fits,
    take-written m n p bytes block word fits,
  )

  -- Two puts in a row.
  Put-append :
      (m : List ℕ) (p : ℕ) (xs ys : List ℕ) (f : ByteStream → Result ByteStream)
      (r : Result ByteStream)
      → Returns r (Put m n p xs)
      → ((m' : List ℕ)
          → length m' ≡ length m
          → Returns (f (raw_at m' n (p + length xs))) (Put m' n (p + length xs) ys))
      → Returns (r >>= f) (Put m n p (xs ++ ys))
  Put-append m p xs ys f r first second =
      Returns-bind (Put m n p xs) (Put m n p (xs ++ ys)) r f first λ s (m', e, l, t). rw e (
        Returns-mono (Put m' n (p + length xs) ys) (Put m n p (xs ++ ys))
          (f (raw_at m' n (p + length xs)))
          (λ s' (m'', e', l', t'). (
            m'',
            e' ∙ ap (raw_at m'' n) (omega (arith, length-append xs ys)),
            l' ∙ l,
            ap (λ k. take k m'') (omega (arith, length-append xs ys))
                ∙ t'
                ∙ ap (λ q. q ++ ys) t
                ∙ append_assoc (take p m) xs ys,
          ))
          (second m' l))

  put_item-Put :
      (m : List ℕ) (p : ℕ) (item : Item)
      → n ≤ length m
      → IsItem item
      → p + length (encode item) ≤ n
      → Returns (put_item (raw_at m n p) item) (Put m n p (encode item))
  unfolding put_item put_uint8 put_uint16 put_uint32 put_uint64 encode bytes16 bytes32 bytes64
      write_string_obj write_string
  put_item-Put m p (uint8 v) block ok_v fits = write_byte-Put m p (v ∷ []) block fits
  put_item-Put m p (uint16 v) block ok_v fits = write_byte-Put m p (bytes16 v) block fits
  put_item-Put m p (uint32 v) block ok_v fits = write_byte-Put m p (bytes32 v) block fits
  put_item-Put m p (uint64 v) block ok_v fits = write_byte-Put m p (bytes64 v) block fits
  put_item-Put m p (string str) block ok_v fits =
      let e : u32 (length str) ≡ length str = omega arith in
      rw e (
        Put-append m p (bytes32 (length str)) str (λ s. write_byte s (some str) (length str)) _
          (write_byte-Put m p (bytes32 (length str)) block
            (omega (arith, length-append (bytes32 (length str)) str)))
          λ m' l.
            write_byte-Put m' _ str (omega arith)
              (omega (arith, length-append (bytes32 (length str)) str)))

  put_items-Put :
      (items : List Item) (m : List ℕ) (p : ℕ)
      → n ≤ length m
      → All IsItem items
      → p + length (encode_all items) ≤ n
      → Returns (put_items (raw_at m n p) items) (Put m n p (encode_all items))
  unfolding put_items encode_all
  put_items-Put [] m p block valid fits = (
    m,
    ap (raw_at m n) (omega arith),
    refl,
    ap (λ k. take k m) (omega arith) ∙ sym (append-nil (take p m)),
  )
  put_items-Put (item ∷ items) m p block valid fits =
      Put-append m p (encode item) (encode_all items) (λ s. put_items s items) _
        (put_item-Put m p item block valid.0
          (omega (arith, length-append (encode item) (encode_all items))))
        λ m' l.
          put_items-Put items m' (p + length (encode item)) (omega arith) valid.1
            (omega (arith, length-append (encode item) (encode_all items)))

  module _ (m : List ℕ) (p : ℕ) (rest : List ℕ) (block : n ≤ length m) where
    pub get_uint16_lem :
        (v : ℕ)
        → v < 2 ^ 16
        → drop p m ≡ bytes16 v ++ rest
        → p + 2 ≤ n
        → get_uint16 (raw_at m n p) ≡ ok (raw_at m n (p + 2), v)
    unfolding get_uint16 bytes16
    get_uint16_lem v h at fits =
        rw (read_byte-fits m n p (bytes16 v) block word rest at fits, read-bytes16 v [] h)

    pub get_uint32_lem :
        (v : ℕ)
        → v < 2 ^ 32
        → drop p m ≡ bytes32 v ++ rest
        → p + 4 ≤ n
        → get_uint32 (raw_at m n p) ≡ ok (raw_at m n (p + 4), v)
    unfolding get_uint32 bytes32
    get_uint32_lem v h at fits =
        rw (read_byte-fits m n p (bytes32 v) block word rest at fits, read-bytes32 v [] h)

    pub get_uint64_lem :
        (v : ℕ)
        → v < 2 ^ 64
        → drop p m ≡ bytes64 v ++ rest
        → p + 8 ≤ n
        → get_uint64 (raw_at m n p) ≡ ok (raw_at m n (p + 8), v)
    unfolding get_uint64 bytes64
    get_uint64_lem v h at fits =
        rw (read_byte-fits m n p (bytes64 v) block word rest at fits, read-bytes64 v [] h)

  read_string_lem :
      (m : List ℕ) (p : ℕ) (rest str : List ℕ)
      → n ≤ length m
      → length str < 2 ^ 32
      → drop p m ≡ bytes32 (length str) ++ (str ++ rest)
      → p + 4 + length str ≤ n
      → read_string (raw_at m n p) ≡ ok (raw_at m n (p + 4 + length str), str)
  unfolding read_string read_string_at skip get_buf append
  read_string_lem m p rest str block h at fits =
      let here : drop (p + 4) m ≡ str ++ rest =
        unfold bytes32 in drop-after m n p (bytes32 (length str)) block word (str ++ rest) at in
      rw
        (
          get_uint32_lem m p (str ++ rest) block (length str) h at (omega arith),
          le→ltb n (u32 (p + 4 + length str)) (omega arith),
          le→leb (length str) (length (drop (p + 4) m)) (omega (arith, length-drop (p + 4) m)),
        )
        (ap₂ (λ k bs. ok (raw_at m n k, bs)) (omega arith)
          (ap (take (length str)) here ∙ take-append (length str) str rest refl))

  get_item_lem :
      (m : List ℕ) (p : ℕ) (item : Item) (rest : List ℕ)
      → n ≤ length m
      → IsItem item
      → drop p m ≡ encode item ++ rest
      → p + length (encode item) ≤ n
      → get_item (raw_at m n p) (kind item) ≡ ok (raw_at m n (p + length (encode item)), item)
  unfolding get_item kind get_uint8 encode byte_at bytes16 bytes32 bytes64
  get_item_lem m p (uint8 v) rest block valid at fits =
      rw (read_byte-fits m n p (v ∷ []) block word rest at fits)
  get_item_lem m p (uint16 v) rest block valid at fits =
      rw (get_uint16_lem m p rest block v valid at fits)
  get_item_lem m p (uint32 v) rest block valid at fits =
      rw (get_uint32_lem m p rest block v valid at fits)
  get_item_lem m p (uint64 v) rest block valid at fits =
      rw (get_uint64_lem m p rest block v valid at fits)
  get_item_lem m p (string str) rest block valid at fits =
      rw (read_string_lem m p rest str block valid at (omega arith))
        (ap (λ k. ok (raw_at m n k, string str)) (omega arith))

  get_items_lem :
      (items : List Item) (m : List ℕ) (p : ℕ) (rest : List ℕ)
      → n ≤ length m
      → All IsItem items
      → drop p m ≡ encode_all items ++ rest
      → p + length (encode_all items) ≤ n
      → get_items (raw_at m n p) (map kind items) ≡ ok items
  unfolding get_items encode_all
  get_items_lem [] m p rest block valid at fits = refl
  get_items_lem (item ∷ items) m p rest block valid at fits =
      let at' : drop p m ≡ encode item ++ (encode_all items ++ rest) =
        at ∙ append_assoc (encode item) (encode_all items) rest in
      let more : p + length (encode item) + length (encode_all items) ≤ n =
        omega (arith, length-append (encode item) (encode_all items)) in
      rw (
        get_item_lem m p item (encode_all items ++ rest) block valid.0 at' (omega arith),
        get_items_lem items m (p + length (encode item)) rest block valid.1
            (drop-after m n p (encode item) block word _ at') more,
      )

-- Fields of any kinds, written in order to a raw block with room for them all and then read in the
-- same order from a stream over that block, come back as they were: for every list of fields whose
-- values fit their widths.
pub get_items-put_items :
    (items : List Item) (m : List ℕ) (n : ℕ)
    → n ≤ length m
    → n < 2 ^ 32
    → All IsItem items
    → length (encode_all items) ≤ n
    → Returns
        (put_items (raw_stream (some m) n) items)
        (λ s. get_items (raw_stream s.buf s.len) (map kind items) ≡ ok items)
unfolding raw_stream
get_items-put_items items m n block word valid fits =
    Returns-mono (Put m n 0 (encode_all items)) _ _
      (λ s (m', e, l, t). rw e (
        get_items_lem n word items m' 0 (drop (length (encode_all items)) m') (omega arith) valid
          (sym (take-append-drop (length (encode_all items)) m')
            ∙ ap (λ q. q ++ drop (length (encode_all items)) m')
                (ap (λ k. take k m') (omega arith) ∙ t))
          (omega arith)))
      (put_items-Put n word items m 0 block valid (omega arith))

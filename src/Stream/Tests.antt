-- ===== src/Stream/Tests.antt =====
-- Fields of src/netter/byte_stream.cpp written to a concrete block and read back.
use netter.Common.{ℕ, ◌≡◌, refl, List, [], ◌∷◌, ok, some, Returns, arith, map}
use netter.Stream.{raw_stream}
use netter.Stream.Word.{read_uint32, byte_at, bytes32, bytes16}
use netter.Stream.Items.{
  Item, uint8, uint16, uint32, string, kind, put_items, get_items, encode, encode_all,
}
use netter.Stream.RoundTrip.{get_items-put_items}

abbrev zeros : List ℕ
zeros = 0 ∷ 0 ∷ 0 ∷ 0 ∷ 0 ∷ 0 ∷ 0 ∷ 0 ∷ 0 ∷ 0 ∷ 0 ∷ 0 ∷ 0 ∷ 0 ∷ 0 ∷ 0 ∷ []

abbrev message : List Item
message = uint8 7 ∷ string (65 ∷ 66 ∷ []) ∷ uint16 258 ∷ uint32 16909060 ∷ []

read_uint32_1_2_3_4 : read_uint32 (1 ∷ 2 ∷ 3 ∷ 4 ∷ []) 0 ≡ ok 16909060
unfolding read_uint32 byte_at
read_uint32_1_2_3_4 = refl

get_items-put_items_example :
    Returns
      (put_items (raw_stream (some zeros) 16) message)
      (λ s. get_items (raw_stream s.buf s.len) (map kind message) ≡ ok message)
unfolding encode_all encode bytes32 bytes16
get_items-put_items_example =
    get_items-put_items message zeros 16 (omega arith) (omega arith)
      (omega arith, (omega arith, (omega arith, (omega arith, omega arith)))) (omega arith)

-- ===== src/Stream/Items.antt =====
-- A sequence of fields written to a block and read back.
use netter.Common.{ℕ, ◌<◌, ◌^◌, List, [], ◌∷◌, ◌++◌, Result, ok, ◌>>=◌, length}
use netter.Stream.{ByteStream}
use netter.Stream.Word.{bytes16, bytes32, bytes64}
use netter.Stream.Fields.{
  put_uint8, put_uint16, put_uint32, put_uint64, get_uint8, get_uint16, get_uint32, get_uint64,
  write_string_obj, read_string,
}

-- A field with its value, and its kind alone.
pub data Item : Type 0 where
  uint8 uint16 uint32 uint64 : ℕ → Item
  string : List ℕ → Item

pub data Kind : Type 0 where
  uint8_kind uint16_kind uint32_kind uint64_kind string_kind : Kind

unfoldable pub kind : Item → Kind
kind (uint8 v) = uint8_kind
kind (uint16 v) = uint16_kind
kind (uint32 v) = uint32_kind
kind (uint64 v) = uint64_kind
kind (string str) = string_kind

-- The call of `<<` or `WriteString` for the item, and of `>>` or `ReadString` for its kind.
unfoldable pub put_item : ByteStream → Item → Result ByteStream
put_item s (uint8 v) = put_uint8 s v
put_item s (uint16 v) = put_uint16 s v
put_item s (uint32 v) = put_uint32 s v
put_item s (uint64 v) = put_uint64 s v
put_item s (string str) = write_string_obj s str

unfoldable pub get_item : ByteStream → Kind → Result (ByteStream × Item)
get_item s uint8_kind = do (s', v) ← get_uint8 s; ok (s', uint8 v)
get_item s uint16_kind = do (s', v) ← get_uint16 s; ok (s', uint16 v)
get_item s uint32_kind = do (s', v) ← get_uint32 s; ok (s', uint32 v)
get_item s uint64_kind = do (s', v) ← get_uint64 s; ok (s', uint64 v)
get_item s string_kind = do (s', str) ← read_string s; ok (s', string str)

unfoldable pub put_items : ByteStream → List Item → Result ByteStream
put_items s [] = ok s
put_items s (item ∷ items) = do s' ← put_item s item; put_items s' items

unfoldable pub get_items : ByteStream → List Kind → Result (List Item)
get_items s [] = ok []
get_items s (k ∷ ks) = do (s', item) ← get_item s k; items ← get_items s' ks; ok (item ∷ items)

-- The value fits its width; a string's length fits `uint32_t`.
abbrev pub IsItem : Item → Type 0
IsItem (uint8 v) = v < 2 ^ 8
IsItem (uint16 v) = v < 2 ^ 16
IsItem (uint32 v) = v < 2 ^ 32
IsItem (uint64 v) = v < 2 ^ 64
IsItem (string str) = length str < 2 ^ 32

-- The bytes that stand for an item: a string has its length in front.
unfoldable pub encode : Item → List ℕ
encode (uint8 v) = v ∷ []
encode (uint16 v) = bytes16 v
encode (uint32 v) = bytes32 v
encode (uint64 v) = bytes64 v
encode (string str) = bytes32 (length str) ++ str

unfoldable pub encode_all : List Item → List ℕ
encode_all [] = []
encode_all (item ∷ items) = encode item ++ encode_all items

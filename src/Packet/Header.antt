-- ===== src/Packet/Header.antt =====
-- The sixteen bytes of a packet header, and what reading them gives.
use netter.Common.{ℕ, ◌≤◌, ◌<◌, ◌^◌, ◌≡◌, refl, List, ◌++◌, some, ok, arith, length, le→ltb}
use netter.Stream.{raw_stream}
use netter.Stream.Word.{bytes16, bytes32}
use netter.Stream.RoundTrip.{get_uint16_lem, get_uint32_lem}
use netter.Packet.{PktHeader, read_pkt_header}

-- The header as it goes over the wire.
unfoldable pub header_bytes : PktHeader → List ℕ
header_bytes h =
    bytes32 h.length
    ++ (bytes16 h.version ++ (bytes16 h.flag ++ (bytes32 h.pkt_id ++ bytes32 h.seq_no)))

-- Every field fits its C type.
pub record IsHeader (h : PktHeader) : Type 0 where
  pub length_fits : h.length < 2 ^ 32
  pub version_fits : h.version < 2 ^ 16
  pub flag_fits : h.flag < 2 ^ 16
  pub pkt_id_fits : h.pkt_id < 2 ^ 32
  pub seq_no_fits : h.seq_no < 2 ^ 32

pub length-header_bytes : (h : PktHeader) → length (header_bytes h) ≡ 16
unfolding header_bytes bytes16 bytes32
length-header_bytes h = refl

-- Reading the header back, from a block that has it in front and is `len` long at least.
pub read_pkt_header_lem :
    (h : PktHeader) (rest : List ℕ) (len : ℕ)
    → IsHeader h
    → 16 ≤ len
    → len ≤ length (header_bytes h ++ rest)
    → len < 2 ^ 32
    → read_pkt_header (some (header_bytes h ++ rest)) len ≡ ok (some h)
unfolding read_pkt_header header_bytes raw_stream bytes16 bytes32
read_pkt_header_lem h rest len v enough block word = rw (
  le→ltb len 16 enough,
  get_uint32_lem len word m 0 _ block h.length v.length_fits refl (omega arith),
  get_uint16_lem len word m 4 _ block h.version v.version_fits refl (omega arith),
  get_uint16_lem len word m 6 _ block h.flag v.flag_fits refl (omega arith),
  get_uint32_lem len word m 8 _ block h.pkt_id v.pkt_id_fits refl (omega arith),
  get_uint32_lem len word m 12 rest block h.seq_no v.seq_no_fits refl (omega arith),
)
  where
    m : List ℕ
    m = header_bytes h ++ rest

-- ===== src/Packet/Framing.antt =====
-- `ReadPacket`: its answer on every buffer, errors included.
use netter.Common.{
  ℕ, ◌≤◌, ◌<◌, ◌^◌, ◌==◌, ◌≡◌, List, ◌++◌, Option, none, some, Result, ok, throw, wrong_pkt_len,
  parse_failed, unknown_pkt_id, arith, length-append, ltb, lt→ltb, le→ltb, sub32, if◌then◌else◌,
}
use netter.Stream.{raw_stream}
use netter.Stream.Word.{bytes16, bytes32, read_uint32, byte_at}
use netter.Stream.Word.RoundTrip.{read-bytes32}
use netter.Packet.{
  PktHeader, PktBase, pkt_base, is_pkt_available, pkt_heart_beat_from, read_packet, incoming,
}
use netter.Packet.Header.{header_bytes, IsHeader, length-header_bytes, read_pkt_header_lem}

-- The heartbeat that arrived with the header `h`, at the front of `buf`.
unfoldable pub received : PktHeader → List ℕ → PktBase
received h buf = record pkt_base { header = h; incoming_len = 16; incoming_buf = some buf }

-- The protocol: what the receiver makes of a header, of which `len` bytes of packet have arrived.
unfoldable pub judge : PktHeader → List ℕ → ℕ → Result (Option PktBase)
judge h buf len =
    if ltb h.length 16
    then throw wrong_pkt_len
    else if ltb len h.length
    then ok none
    else if h.pkt_id == 1
    then (if h.length == 16 then ok (some (received h buf)) else throw parse_failed)
    else throw unknown_pkt_id

pub read_packet_short : (buf : List ℕ) (len : ℕ) → len < 16 → read_packet buf len ≡ ok none
unfolding read_packet is_pkt_available
read_packet_short buf len h = rw (lt→ltb len 16 h)

module _ (h : PktHeader) (rest : List ℕ) (v : IsHeader h) where
  read_length : read_uint32 (header_bytes h ++ rest) 0 ≡ ok h.length
  unfolding header_bytes read_uint32 byte_at bytes32
  read_length =
      read-bytes32 h.length
        (bytes16 h.version ++ (bytes16 h.flag ++ (bytes32 h.pkt_id ++ bytes32 h.seq_no)) ++ rest)
        v.length_fits

  read_pkt_id : read_uint32 (header_bytes h ++ rest) 8 ≡ ok h.pkt_id
  unfolding header_bytes read_uint32 byte_at bytes32 bytes16
  read_pkt_id = read-bytes32 h.pkt_id (bytes32 h.seq_no ++ rest) v.pkt_id_fits

  pkt_heart_beat_from_lem :
      pkt_heart_beat_from (header_bytes h ++ rest) h.length
      ≡ (if 0 == sub32 h.length 16 then ok (record pkt_base { header = h }) else throw parse_failed)
  unfolding pkt_heart_beat_from raw_stream
  pkt_heart_beat_from_lem = rw (
      read_pkt_header_lem h rest 16 v (omega arith)
        (omega (arith, length-header_bytes h, length-append (header_bytes h) rest)) (omega arith))

  -- On a buffer of bytes that begins with a header, `ReadPacket` answers as the protocol says: it
  -- throws on a length below the header's, asks for more bytes where the packet is not complete,
  -- throws on an unknown type and on a heartbeat with a body, and yields the heartbeat else.
  pub read_packet-judge :
      (len : ℕ)
      → 16 ≤ len
      → len < 2 ^ 32
      → read_packet (header_bytes h ++ rest) len ≡ judge h (header_bytes h ++ rest) len
  unfolding read_packet is_pkt_available incoming judge received
  read_packet-judge len enough word =
      rw (le→ltb len 16 enough, read_length, read_pkt_id) (ground (arith, pkt_heart_beat_from_lem))

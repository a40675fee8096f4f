-- ===== src/Packet.antt =====
-- src/netter/pkt_base.h, src/netter/pkt_base.cpp, src/netter/pkt_definition.h and src/netter/pkt_definition.cpp: the
-- packet header, building and reading a packet, and the one packet type, the heartbeat.
pub mod Header
pub mod Framing
pub mod RoundTrip
pub mod Sequence
mod Tests
use netter.Common.{
  ℕ, ◌+◌, ◌-◌, Bool, true, false, ◌&&◌, not, List, [], Option, none, some, Result, ok, throw, ◌>>=◌,
  wrong_pkt_len, parse_failed, unknown_pkt_id, if◌then◌else◌, ltb, ◌==◌, sub32, drop,
}
use netter.Common.Memory.{indeterminate}
use netter.Buffer.{SimpleBuffer, simple_buffer}
use netter.Buffer
use netter.Stream.{block, raw_stream}
use netter.Stream.Fields.{get_uint16, get_uint32}
use netter.Stream.Word.{write_uint16, write_uint32, write_int32, read_uint32}

abbrev pub pkt_version : ℕ
pkt_version = 1

abbrev pub pkt_header_len : ℕ
pkt_header_len = 16

abbrev pub pkt_id_heartbeat : ℕ
pkt_id_heartbeat = 1

-- `pkt_header_t`.
pub record PktHeader : Type 0 where
  pub length : ℕ
  pub version : ℕ
  pub flag : ℕ
  pub pkt_id : ℕ
  pub seq_no : ℕ

-- An incoming packet points into the connection's buffer: `incoming_buf` is that block from the
-- pointer on. The connection leaves it alone while the packet lives.
pub record PktBase : Type 0 where
  pub buf : SimpleBuffer
  pub incoming_buf : Option (List ℕ)
  pub incoming_len : ℕ
  pub header : PktHeader

-- The constructor `PktBase()` leaves `length` unset.
unfoldable pub pkt_base : PktBase
pkt_base = record {
  buf = simple_buffer;
  incoming_buf = none;
  incoming_len = 0;
  header = record {
    length = indeterminate 0;
    version = pkt_version;
    flag = 0;
    pkt_id = 0;
    seq_no = 0;
  };
}

unfoldable pub get_buffer : PktBase → List ℕ
get_buffer pkt = elim pkt.incoming_buf [ none ↦ pkt.buf.buffer | some bytes ↦ bytes ]

unfoldable pub get_length : PktBase → ℕ
get_length pkt = elim pkt.incoming_buf [
  | none ↦ pkt.buf.write_offset
  | some bytes ↦ pkt.incoming_len
]

-- The packet after writes through the pointer that `GetBuffer` returns.
unfoldable pub with_buffer : PktBase → List ℕ → PktBase
with_buffer pkt bytes = elim pkt.incoming_buf [
  | none ↦ record pkt { buf = record (pkt.buf) { buffer = bytes } }
  | some old ↦ record pkt { incoming_buf = some bytes }
]

unfoldable pub write_header : PktBase → Result PktBase
write_header pkt = do
  b1 ← write_int32 (get_buffer pkt) 0 (get_length pkt)
  b2 ← write_uint16 b1 4 pkt.header.version
  b3 ← write_uint16 b2 6 pkt.header.flag
  b4 ← write_uint32 b3 8 pkt.header.pkt_id
  b5 ← write_uint32 b4 12 pkt.header.seq_no
  ok (with_buffer pkt b5)

unfoldable pub set_version : PktBase → ℕ → Result PktBase
set_version pkt version = do
  bytes ← write_uint16 (get_buffer pkt) 4 version
  ok (record (with_buffer pkt bytes) { header = record (pkt.header) { version = version } })

unfoldable pub set_flag : PktBase → ℕ → Result PktBase
set_flag pkt flag = do
  bytes ← write_uint16 (get_buffer pkt) 6 flag
  ok (record (with_buffer pkt bytes) { header = record (pkt.header) { flag = flag } })

unfoldable pub set_seq_no : PktBase → ℕ → Result PktBase
set_seq_no pkt seq_no = do
  bytes ← write_uint32 (get_buffer pkt) 12 seq_no
  ok (record (with_buffer pkt bytes) { header = record (pkt.header) { seq_no = seq_no } })

-- The five fields in the order in which they are read.
read_fields : List ℕ → ℕ → Result PktHeader
read_fields buf len = do
  (s1, length) ← get_uint32 (raw_stream (some buf) len)
  (s2, version) ← get_uint16 s1
  (s3, flag) ← get_uint16 s2
  (s4, pkt_id) ← get_uint32 s3
  (s5, seq_no) ← get_uint32 s4
  ok (record { length = length; version = version; flag = flag; pkt_id = pkt_id; seq_no = seq_no })

-- `ReadPktHeader` with a `header` that is not NULL. `none` is the -1, which leaves the header as it
-- was; `some` is the 0, with the header it fills in.
unfoldable pub read_pkt_header : Option (List ℕ) → ℕ → Result (Option PktHeader)
unfolding read_fields
read_pkt_header none len = ok none
read_pkt_header (some buf) len =
    if ltb len pkt_header_len then ok none else do header ← read_fields buf len; ok (some header)

-- `IsPktAvailable(buf, len, pkt_len)`: the answer, and `pkt_len` afterwards.
unfoldable pub is_pkt_available : List ℕ → ℕ → ℕ → Result (Bool × ℕ)
is_pkt_available buf len pkt_len = if ltb len pkt_header_len then ok (false, pkt_len) else do
  pkt_len ← read_uint32 buf 0
  if ltb pkt_len pkt_header_len then throw wrong_pkt_len else ok (not (ltb len pkt_len), pkt_len)

-- `PktHeartBeat()`. The stream `os` that the macro declares is not used.
unfoldable pub pkt_heart_beat : Result PktBase
pkt_heart_beat = do
  let pkt = record pkt_base { header = record (pkt_base.header) { pkt_id = pkt_id_heartbeat } }
  (buf, _) ← Buffer.write pkt.buf none pkt_header_len
  write_header (record pkt { buf = buf })

-- `PktHeartBeat(buf, len)`: the position of `is`, which nothing was read from, is held to its length.
unfoldable pub pkt_heart_beat_from : List ℕ → ℕ → Result PktBase
pkt_heart_beat_from buf len = do
  header ← read_pkt_header (some buf) pkt_header_len
  let is = raw_stream (some (drop pkt_header_len buf)) (sub32 len pkt_header_len)
  if is.pos == sub32 len pkt_header_len
      then ok (record pkt_base { header = elim header [ none ↦ pkt_base.header | some h ↦ h ] })
      else throw parse_failed

-- The packet of a known type: built by its constructor, then pointed at the bytes.
incoming : List ℕ → ℕ → ℕ → Result PktBase
incoming buf pkt_len pkt_id =
    if pkt_id == pkt_id_heartbeat
    then (do
      pkt ← pkt_heart_beat_from buf pkt_len
      ok (record pkt { incoming_len = pkt_len; incoming_buf = some buf }))
    else throw unknown_pkt_id

-- `ReadPacket(buf, len)`; `none` is the NULL that asks for more bytes.
unfoldable pub read_packet : List ℕ → ℕ → Result (Option PktBase)
unfolding incoming
read_packet buf len = do
  (available, pkt_len) ← is_pkt_available buf len 0
  if available
      then (do pkt_id ← read_uint32 buf 8; pkt ← incoming buf pkt_len pkt_id; ok (some pkt))
      else ok none

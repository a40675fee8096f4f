-- ===== src/Packet/RoundTrip.antt =====
-- A heartbeat that is built, stamped and sent is the heartbeat that is received.
use netter.Common.{
  ℕ, ◌≤◌, ◌<◌, ◌^◌, ◌≡◌, refl, ap₂, sym, ◌∙◌, List, ◌++◌, none, some, Result, ok, ◌>>=◌, Returns,
  Returns-bind, Returns-mono, arith, length, take, drop, take-append,
}
use netter.Common.Memory.{memcpy, memcpy-ok, realloc, unwritten}
use netter.Buffer
use netter.Buffer.{simple_buffer, extend, inc_write_offset, SimpleBuffer}
use netter.Stream.Word.{bytes16, bytes32, write_uint16, write_uint32}
use netter.Packet.{
  PktHeader, PktBase, pkt_base, pkt_heart_beat, set_version, set_flag, set_seq_no, write_header,
  get_buffer, get_length, with_buffer, read_packet,
}
use netter.Packet.Header.{header_bytes, length-header_bytes}
use netter.Packet.Framing.{received, judge, read_packet-judge}

-- What `Send` is given for a packet: its first `GetLength()` bytes.
unfoldable pub wire : PktBase → List ℕ
wire pkt = take (get_length pkt) (get_buffer pkt)

-- A packet of our own, sixteen bytes long, whose block begins with the header `h`.
pub record Carries (pkt : PktBase) (h : PktHeader) : Type 0 where
  pub own : pkt.incoming_buf ≡ none
  pub ends : pkt.buf.write_offset ≡ 16
  pub begins : pkt.buf.buffer ≡ header_bytes h ++ drop 16 pkt.buf.buffer

abbrev pub heartbeat_header : ℕ → ℕ → ℕ → PktHeader
heartbeat_header version flag seq_no = record {
  length = 16;
  version = version;
  flag = flag;
  pkt_id = 1;
  seq_no = seq_no;
}

pkt_heart_beat-Carries : Returns pkt_heart_beat (λ pkt. Carries pkt (heartbeat_header 1 0 0))
unfolding pkt_heart_beat pkt_base simple_buffer Buffer.write extend inc_write_offset realloc
    unwritten write_header memcpy get_buffer get_length with_buffer write_uint16 write_uint32
    header_bytes bytes32 bytes16
pkt_heart_beat-Carries = record { own = refl; ends = refl; begins = refl }

module _ (h : PktHeader) (tail : List ℕ) where
  write_version :
      (v : ℕ)
      → write_uint16 (header_bytes h ++ tail) 4 v
        ≡ ok (header_bytes (record h { version = v }) ++ tail)
  unfolding write_uint16 header_bytes bytes16 bytes32
  write_version v = memcpy-ok (header_bytes h ++ tail) 4 (bytes16 v) 2 (omega arith) (omega arith)

  write_flag :
      (v : ℕ)
      → write_uint16 (header_bytes h ++ tail) 6 v
        ≡ ok (header_bytes (record h { flag = v }) ++ tail)
  unfolding write_uint16 header_bytes bytes16 bytes32
  write_flag v = memcpy-ok (header_bytes h ++ tail) 6 (bytes16 v) 2 (omega arith) (omega arith)

  write_seq_no :
      (v : ℕ)
      → write_uint32 (header_bytes h ++ tail) 12 v
        ≡ ok (header_bytes (record h { seq_no = v }) ++ tail)
  unfolding write_uint32 header_bytes bytes16 bytes32
  write_seq_no v = memcpy-ok (header_bytes h ++ tail) 12 (bytes32 v) 4 (omega arith) (omega arith)

  behind : header_bytes h ++ tail ≡ header_bytes h ++ drop 16 (header_bytes h ++ tail)
  unfolding header_bytes bytes16 bytes32
  behind = refl

module _ {pkt : PktBase} {h : PktHeader} (v : ℕ) (c : Carries pkt h) where
  tail : List ℕ
  tail = drop 16 pkt.buf.buffer

  set_version-Carries : Returns (set_version pkt v) (λ p. Carries p (record h { version = v }))
  unfolding set_version get_buffer with_buffer tail
  set_version-Carries =
      rw (c.own, set_version, c.begins, write_version h tail v)
        (record { own = refl; ends = c.ends; begins = behind (record h { version = v }) tail })

  set_flag-Carries : Returns (set_flag pkt v) (λ p. Carries p (record h { flag = v }))
  unfolding set_flag get_buffer with_buffer tail
  set_flag-Carries =
      rw (c.own, set_flag, c.begins, write_flag h tail v)
        (record { own = refl; ends = c.ends; begins = behind (record h { flag = v }) tail })

  set_seq_no-Carries : Returns (set_seq_no pkt v) (λ p. Carries p (record h { seq_no = v }))
  unfolding set_seq_no get_buffer with_buffer tail
  set_seq_no-Carries =
      rw (c.own, set_seq_no, c.begins, write_seq_no h tail v)
        (record { own = refl; ends = c.ends; begins = behind (record h { seq_no = v }) tail })

pub wire-Carries : {pkt : PktBase} {h : PktHeader} → Carries pkt h → wire pkt ≡ header_bytes h
unfolding wire get_length get_buffer
wire-Carries {pkt} {h} c =
    rw (c.own, get_length)
      (ap₂ take c.ends c.begins ∙ take-append 16 (header_bytes h) _ (sym (length-header_bytes h)))

-- A heartbeat with its version, flag and sequence number set.
unfoldable pub stamped : ℕ → ℕ → ℕ → Result PktBase
stamped version flag seq_no = do
  p0 ← pkt_heart_beat
  p1 ← set_version p0 version
  p2 ← set_flag p1 flag
  set_seq_no p2 seq_no

pub stamped-Carries :
    (version flag seq_no : ℕ)
    → Returns (stamped version flag seq_no) (λ p. Carries p (heartbeat_header version flag seq_no))
unfolding stamped
stamped-Carries version flag seq_no =
    Returns-bind (λ p. Carries p (heartbeat_header 1 0 0)) done pkt_heart_beat _
      pkt_heart_beat-Carries
      λ p0 c0.
        Returns-bind (λ p. Carries p (heartbeat_header version 0 0)) done (set_version p0 version) _
          (set_version-Carries version c0)
          λ p1 c1.
            Returns-bind (λ p. Carries p (heartbeat_header version flag 0)) done (set_flag p1 flag)
              (λ p2. set_seq_no p2 seq_no) (set_flag-Carries flag c1)
              λ p2 c2. set_seq_no-Carries seq_no c2
  where
    done : PktBase → Type 0
    done p = Carries p (heartbeat_header version flag seq_no)

-- A heartbeat is built and stamped without a fault; its bytes are sixteen, and `ReadPacket` on them,
-- whatever follows them in the buffer, yields a heartbeat with the same version, flag and sequence
-- number, for all values that fit those fields.
pub read_packet-stamped :
    (version flag seq_no : ℕ) (rest : List ℕ) (len : ℕ)
    → version < 2 ^ 16
    → flag < 2 ^ 16
    → seq_no < 2 ^ 32
    → 16 ≤ len
    → len < 2 ^ 32
    → Returns (stamped version flag seq_no) (λ p.
      (length (wire p) ≡ 16)
      × (read_packet (wire p ++ rest) len
          ≡ ok (some (received (heartbeat_header version flag seq_no) (wire p ++ rest)))))
unfolding judge
read_packet-stamped version flag seq_no rest len hv hf hs enough word =
    Returns-mono (λ p. Carries p (heartbeat_header version flag seq_no)) _ _
      (λ p c. rw (wire-Carries c) (
        length-header_bytes (heartbeat_header version flag seq_no),
        read_packet-judge (heartbeat_header version flag seq_no) rest
              (record {
                length_fits = omega arith;
                version_fits = hv;
                flag_fits = hf;
                pkt_id_fits = omega arith;
                seq_no_fits = hs;
              })
              len enough word
            ∙ ground arith,
      ))
      (stamped-Carries version flag seq_no)

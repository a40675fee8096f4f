-- ===== src/Packet/Sequence.antt =====
-- A sequence of packets in a buffer: what `ReadPacket` makes of its front, and of how it ends.
use netter.Common.{
  ℕ, ◌+◌, ◌≤◌, ◌<◌, ◌^◌, ◌≡◌, ◌≢◌, ◌∙◌, List, [], ◌∷◌, ◌++◌, append_assoc, Option, none, some,
  Result, ok, throw, ErrorCode, wrong_pkt_len, parse_failed, unknown_pkt_id, arith, length,
  length-append,
}
use netter.Packet.{PktHeader, PktBase, read_packet}
use netter.Packet.Header.{header_bytes, IsHeader, length-header_bytes}
use netter.Packet.Framing.{received, judge, read_packet-judge, read_packet_short}

-- The bytes of heartbeats, one after the other.
unfoldable pub frames : List PktHeader → List ℕ
frames [] = []
frames (h ∷ hs) = header_bytes h ++ frames hs

pub record IsHeartbeat (h : PktHeader) : Type 0 where
  pub fits : IsHeader h
  pub whole : h.length ≡ 16
  pub id : h.pkt_id ≡ 1

-- How a sequence of bytes that does not begin with a heartbeat ends the reading: with too few bytes,
-- or with an exception.
pub data Ends : List ℕ → Option ErrorCode → Type 0 where
  few : (q : List ℕ) → length q < 16 → Ends q none
  partial :
      (h : PktHeader) (rest : List ℕ)
      → IsHeader h
      → 16 ≤ h.length
      → 16 + length rest < h.length
      → Ends (header_bytes h ++ rest) none
  wrong_len :
      (h : PktHeader) (rest : List ℕ)
      → IsHeader h
      → h.length < 16
      → Ends (header_bytes h ++ rest) (some wrong_pkt_len)
  unknown :
      (h : PktHeader) (rest : List ℕ)
      → IsHeader h
      → 16 ≤ h.length
      → h.length ≤ 16 + length rest
      → h.pkt_id ≢ 1
      → Ends (header_bytes h ++ rest) (some unknown_pkt_id)
  with_body :
      (h : PktHeader) (rest : List ℕ)
      → IsHeader h
      → 16 < h.length
      → h.length ≤ 16 + length rest
      → h.pkt_id ≡ 1
      → Ends (header_bytes h ++ rest) (some parse_failed)

-- What `ReadPacket` answers at such an end.
unfoldable pub stop : Option ErrorCode → Result (Option PktBase)
stop none = ok none
stop (some e) = throw e

judged :
    (h : PktHeader) (rest junk : List ℕ) {answer : Result (Option PktBase)}
    → IsHeader h
    → length (header_bytes h ++ rest) < 2 ^ 32
    → ((buf : List ℕ) → judge h buf (16 + length rest) ≡ answer)
    → read_packet ((header_bytes h ++ rest) ++ junk) (length (header_bytes h ++ rest)) ≡ answer
judged h rest junk v word j =
    let len : length (header_bytes h ++ rest) ≡ 16 + length rest =
      omega (arith, length-append (header_bytes h) rest, length-header_bytes h) in
    rw (append_assoc (header_bytes h) rest junk) (
      read_packet-judge h (rest ++ junk) v (length (header_bytes h ++ rest)) (omega (arith, len))
        word
      ∙ rw len (j (header_bytes h ++ (rest ++ junk))))

-- Whatever stands behind the bytes in the buffer.
pub read_packet-stop :
    {q : List ℕ} {e : Option ErrorCode} (junk : List ℕ)
    → Ends q e
    → length q < 2 ^ 32
    → read_packet (q ++ junk) (length q) ≡ stop e
unfolding judge stop
read_packet-stop junk (few q h) word = read_packet_short (q ++ junk) (length q) h
read_packet-stop junk (partial h rest v min more) word =
    judged h rest junk v word (λ buf. ground arith)
read_packet-stop junk (wrong_len h rest v low) word =
    judged h rest junk v word (λ buf. ground arith)
read_packet-stop junk (unknown h rest v min all other) word =
    judged h rest junk v word (λ buf. ground arith)
read_packet-stop junk (with_body h rest v more all id) word =
    judged h rest junk v word (λ buf. ground arith)

-- A heartbeat in front is read.
pub read_packet-heartbeat :
    {h : PktHeader} (rest junk : List ℕ)
    → IsHeartbeat h
    → length (header_bytes h ++ rest) < 2 ^ 32
    → read_packet ((header_bytes h ++ rest) ++ junk) (length (header_bytes h ++ rest))
      ≡ ok (some (received h (header_bytes h ++ (rest ++ junk))))
unfolding judge
read_packet-heartbeat {h} rest junk v word =
    let len : length (header_bytes h ++ rest) ≡ 16 + length rest =
      omega (arith, length-append (header_bytes h) rest, length-header_bytes h) in
    rw (append_assoc (header_bytes h) rest junk) (
      read_packet-judge h (rest ++ junk) v.fits (length (header_bytes h ++ rest))
        (omega (arith, len)) word
      ∙ ground (arith, v.whole, v.id, len))

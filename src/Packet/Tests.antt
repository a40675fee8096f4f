-- ===== src/Packet/Tests.antt =====
-- Packets of src/netter/pkt_base.cpp at concrete bytes.
use netter.Common.{
  ◌≡◌, refl, [], ◌∷◌, ◌++◌, ok, none, some, throw, wrong_pkt_len, length, Returns, arith,
}
use netter.Packet.{PktHeader, read_packet}
use netter.Packet.Header.{header_bytes, IsHeader}
use netter.Packet.Framing.{judge, received, read_packet-judge}
use netter.Packet.RoundTrip.{wire, stamped, heartbeat_header, read_packet-stamped}

-- A heartbeat whose length field is shorter than the header.
abbrev short_header : PktHeader
short_header = record { length = 15; version = 1; flag = 0; pkt_id = 1; seq_no = 9 }

short_header-IsHeader : IsHeader short_header
short_header-IsHeader = omega arith

judge_short : judge short_header [] 16 ≡ throw wrong_pkt_len
unfolding judge
judge_short = refl

judge_partial : judge (record short_header { length = 20 }) [] 16 ≡ ok none
unfolding judge
judge_partial = refl

read_packet-judge_example :
    read_packet (header_bytes short_header ++ (1 ∷ [])) 17
    ≡ judge short_header (header_bytes short_header ++ (1 ∷ [])) 17
read_packet-judge_example =
    read_packet-judge short_header (1 ∷ []) short_header-IsHeader 17 (omega arith) (omega arith)

read_packet-stamped_example : Returns (stamped 2 3 77) (λ p.
    (length (wire p) ≡ 16)
    × (read_packet (wire p ++ (1 ∷ 2 ∷ [])) 18
        ≡ ok (some (received (heartbeat_header 2 3 77) (wire p ++ (1 ∷ 2 ∷ []))))))
read_packet-stamped_example =
    read_packet-stamped 2 3 77 (1 ∷ 2 ∷ []) 18 (omega arith) (omega arith) (omega arith)
      (omega arith) (omega arith)

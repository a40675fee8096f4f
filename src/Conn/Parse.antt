-- ===== src/Conn/Parse.antt =====
-- `_ParsePkt` and `OnRead` of src/netter/base_conn.cpp: the packets at the front of the input buffer
-- are handled one by one. `HandlePkt` is virtual, so it is a parameter; `A` is what a subclass holds.
use netter.Common.{
  ℕ, zero, suc, ◌+◌, List, Option, none, some, Result, ok, throw, fault, ◌>>=◌, ErrorCode,
  wrong_pkt_len, parse_failed, unknown_pkt_id, drop,
}
use netter.Buffer.{SimpleBuffer, get_readable_len}
use netter.Buffer
use netter.Packet.{PktBase, PktHeader, get_length, read_packet, read_pkt_header, pkt_header_len}
use netter.Conn.{BaseConn, on_close}
use netter.Conn.Receive.{recv_data}

-- `GetReadBuffer()`: the block from the read offset on.
abbrev pub get_read_buffer : SimpleBuffer → List ℕ
get_read_buffer b = drop b.read_offset b.buffer

-- What a handler leaves, and the exception that left it, if one did.
abbrev pub Handled {ℓ} : Type ℓ → Type ℓ
Handled A = A × BaseConn × Option ErrorCode

module _ {ℓ} {A : Type ℓ} where
  -- What follows `HandlePkt`: the packet is taken from the buffer, and the loop ends where the
  -- connection has been closed.
  unfoldable pub after_handle :
      Handled A → ℕ → (A → BaseConn → Result (Handled A)) → Result (Handled A)
  after_handle (a, c, some e) pkt_len continue = ok (a, c, some e)
  after_handle (a, c, none) pkt_len continue = do
    (b, _, _) ← Buffer.read c.in_buf none pkt_len
    let taken = record c { in_buf = b }
    elim taken.handle [ none ↦ ok (a, taken, none) | some handle ↦ continue a taken ]

  -- The answer of `ReadPacket`, and the rest of the round.
  unfoldable pub parse_round :
      Result (Option PktBase) → A → BaseConn → (PktBase → Result (Handled A)) → Result (Handled A)
  parse_round (ok none) a c handle = ok (a, c, none)
  parse_round (ok (some pkt)) a c handle = handle pkt
  parse_round (throw e) a c handle = ok (a, c, some e)
  parse_round fault a c handle = fault

module _ {ℓ} {A : Type ℓ} (handle_pkt : A → BaseConn → PktBase → Result (Handled A)) where
  -- The loop, up to the exception that ends it. Each packet has sixteen bytes at least, so a round
  -- for each byte is enough.
  unfoldable pub parse_loop : ℕ → A → BaseConn → Result (Handled A)
  unfolding after_handle parse_round
  parse_loop zero a c = ok (a, c, none)
  parse_loop (suc fuel) a c =
      parse_round (read_packet (get_read_buffer c.in_buf) (get_readable_len c.in_buf)) a c λ pkt. do
        handled ← handle_pkt a c pkt
        after_handle handled (get_length pkt) (λ a' c'. parse_loop fuel a' c')

  -- The header that the `catch` reads, to print it.
  unfoldable pub read_for_print : ErrorCode → BaseConn → Result (Option PktHeader)
  read_for_print wrong_pkt_len c = ok none
  read_for_print parse_failed c = read_pkt_header (some (get_read_buffer c.in_buf)) pkt_header_len
  read_for_print unknown_pkt_id c = read_pkt_header (some (get_read_buffer c.in_buf)) pkt_header_len

  -- The end of the `try`, and the `catch`.
  unfoldable pub after_loop : Handled A → Result (A × BaseConn)
  after_loop (a, c, none) = do b ← Buffer.reset_offset c.in_buf; ok (a, record c { in_buf = b })
  after_loop (a, c, some e) = do _ ← read_for_print e c; ok (a, on_close c)

  unfoldable pub parse_pkt : A → BaseConn → Result (A × BaseConn)
  parse_pkt a c = do stopped ← parse_loop (get_readable_len c.in_buf + 1) a c; after_loop stopped

  unfoldable pub on_read : A → BaseConn → ℕ → Result (A × BaseConn)
  on_read a c now = do c' ← recv_data c now; parse_pkt a c'

-- ===== src/Conn/Reading.antt =====
-- `OnRead`: bytes arrive, and the packets that they complete are handled.
use netter.Common.{
  ℕ, ◌+◌, ◌*◌, ◌≡◌, refl, ap, subst, sym, ◌∙◌, false, List, [], ◌∷◌, ◌++◌, append_assoc, Option,
  none, some, Result, ok, ErrorCode, Returns, Returns-bind, Returns-mono, arith, length, All,
  length-append,
}
use netter.Buffer.{SimpleBuffer}
use netter.Buffer.Queue.{IsValid, unread, HasRoom, length-unread}
use netter.Buffer.Reading.{reset_offset_lem}
use netter.Socket.Receiving.{arriving}
use netter.Packet.{PktHeader, PktBase, read_pkt_header}
use netter.Packet.Header.{header_bytes, IsHeader, length-header_bytes, read_pkt_header_lem}
use netter.Packet.Sequence.{frames, IsHeartbeat, Ends, wrong_len, unknown, with_body}
use netter.Conn.{BaseConn, close, on_close}
use netter.Conn.Parse.{get_read_buffer, Handled, read_for_print, after_loop, parse_pkt, on_read}
use netter.Conn.Arrival.{Arrived, recv_data-Arrived}
use netter.Conn.Dispatch.{read_buffer-unread, serve, Serves, Looped, parse_loop-Looped}

pub length-frames : (hs : List PktHeader) → length (frames hs) ≡ 16 * length hs
unfolding frames
length-frames [] = refl
length-frames (h ∷ hs) =
    omega
      (arith, length-append (header_bytes h) (frames hs), length-header_bytes h, length-frames hs)

-- Reading the header that the bytes begin with, to print it.
read_header :
    (b : SimpleBuffer) (h : PktHeader) (rest : List ℕ)
    → IsHeader h
    → IsValid b
    → unread b ≡ header_bytes h ++ rest
    → read_pkt_header (some (get_read_buffer b)) 16 ≡ ok (some h)
read_header b h rest v valid u =
    let (junk, ptr, len) = read_buffer-unread valid u in
    rw (ptr, append_assoc (header_bytes h) rest junk)
      (read_pkt_header_lem h (rest ++ junk) 16 v (omega arith)
        (omega (arith, length-append (header_bytes h) (rest ++ junk), length-header_bytes h))
        (omega arith))

module _ {A : Type 0} (handle_pkt : A → BaseConn → PktBase → Result (Handled A))
    (step : A → PktHeader → A) where
  -- The connection after the packets: open with `q` at the front of its buffer, or closed by the
  -- exception.
  abbrev pub Settled : BaseConn → List ℕ → Option ErrorCode → BaseConn → Type 0
  Settled c q none c' =
      IsValid c'.in_buf
      × (unread c'.in_buf ≡ q)
      × (c'.in_buf.read_offset ≡ 0)
      × (c'.handle ≡ c.handle)
  Settled c q (some e) c' = (c'.handle ≡ none) × (c'.is_open ≡ false)

  close-closed :
      (c : BaseConn) (handle : ℕ)
      → c.handle ≡ some handle
      → ((close c).handle ≡ none) × ((close c).is_open ≡ false)
  unfolding close
  close-closed c handle e = rw (e, close) (refl, refl)

  throws-Settled :
      (a : A) (c : BaseConn) (hs : List PktHeader) (q : List ℕ) (x : ErrorCode) (handle : ℕ)
      (a' : A) (c' : BaseConn)
      → Ends q (some x)
      → c.handle ≡ some handle
      → Looped handle_pkt step a c hs q (some x) (a', c', some x)
      → Returns
          (after_loop handle_pkt (a', c', some x))
          (λ (a2, c2). (a2 ≡ serve step a hs) × Settled c q (some x) c2)
  unfolding after_loop read_for_print on_close
  throws-Settled a c hs q x handle a' c' (wrong_len h rest v low) open_
        (_, served, valid, u, kept) =
      (served, close-closed c' handle (kept ∙ open_))
  throws-Settled a c hs q x handle a' c' (unknown h rest v min all other) open_
        (_, served, valid, u, kept) =
      rw (read_header c'.in_buf h rest v valid u) (served, close-closed c' handle (kept ∙ open_))
  throws-Settled a c hs q x handle a' c' (with_body h rest v more all id) open_
        (_, served, valid, u, kept) =
      rw (read_header c'.in_buf h rest v valid u) (served, close-closed c' handle (kept ∙ open_))

  after_loop-Settled :
      (a : A) (c : BaseConn) (hs : List PktHeader) (q : List ℕ) (e e' : Option ErrorCode)
      (handle : ℕ) (a' : A) (c' : BaseConn)
      → Ends q e
      → c.handle ≡ some handle
      → e' ≡ e
      → Looped handle_pkt step a c hs q e (a', c', e')
      → Returns
          (after_loop handle_pkt (a', c', e'))
          (λ (a2, c2). (a2 ≡ serve step a hs) × Settled c q e c2)
  unfolding after_loop
  after_loop-Settled a c hs q none none handle a' c' ends open_ same (_, served, valid, u, kept) =
      Returns-bind
        (λ b'.
          IsValid b'
          × (unread b' ≡ unread c'.in_buf)
          × (b'.read_offset ≡ 0)
          × (b'.write_offset ≡ length (unread c'.in_buf)))
        (λ (a2, c2). (a2 ≡ serve step a hs) × Settled c q none c2) _ _ (reset_offset_lem valid)
        λ b (v', u', r, w). (served, (v', u' ∙ u, r, kept))
  after_loop-Settled a c hs q none (some x) handle a' c' ends open_ same l = absurd cc
  after_loop-Settled a c hs q (some x) none handle a' c' ends open_ same l = absurd cc
  after_loop-Settled a c hs q (some x) (some y) handle a' c' ends open_ same
        (_, served, valid, u, kept) =
      subst
        (λ e'.
          Returns (after_loop handle_pkt (a', c', e'))
            (λ (a2, c2). (a2 ≡ serve step a hs) × Settled c q (some x) c2))
        (sym same)
        (throws-Settled a c hs q x handle a' c' ends open_ (refl, served, valid, u, kept))

  parse_pkt-Settled :
      (a : A) (c : BaseConn) (hs : List PktHeader) (q : List ℕ) (e : Option ErrorCode) (handle : ℕ)
      → Serves handle_pkt step
      → IsValid c.in_buf
      → unread c.in_buf ≡ frames hs ++ q
      → All IsHeartbeat hs
      → Ends q e
      → c.handle ≡ some handle
      → Returns (parse_pkt handle_pkt a c) (λ (a', c'). (a' ≡ serve step a hs) × Settled c q e c')
  unfolding parse_pkt
  parse_pkt-Settled a c hs q e handle serves v u beats ends open_ =
      Returns-bind (Looped handle_pkt step a c hs q e) _ _ _
        (parse_loop-Looped handle_pkt step _ a c hs q e handle serves
          (omega (
            arith,
            length-unread v,
            ap length u,
            length-append (frames hs) q,
            length-frames hs,
            v.word,
            v.writes,
            v.reads,
          ))
          v u beats ends open_)
        λ (a', c', e') l. after_loop-Settled a c hs q e e' handle a' c' ends open_ l.0 l

  -- `OnRead` returns; if what was unread and what has arrived are together heartbeats and then `q`,
  -- each of them has been handled once, in order, and where `q` only lacks bytes it stays at the
  -- front of the buffer, and where it cannot begin a packet the connection is closed. For a handler
  -- that leaves the input buffer and the handle alone, with no size past 32 bits.
  pub on_read-Settled :
      (a : A) (c : BaseConn) (now : ℕ) (hs : List PktHeader) (q : List ℕ) (e : Option ErrorCode)
      (handle : ℕ)
      → Serves handle_pkt step
      → IsValid c.in_buf
      → HasRoom c.in_buf (length (arriving c.base_socket.kernel.recv_replies) + 2048)
      → unread c.in_buf ++ arriving c.base_socket.kernel.recv_replies ≡ frames hs ++ q
      → All IsHeartbeat hs
      → Ends q e
      → c.handle ≡ some handle
      → Returns (on_read handle_pkt a c now) (λ (a', c'). (a' ≡ serve step a hs) × Settled c q e c')
  unfolding on_read
  on_read-Settled a c now hs q e handle serves v room all beats ends open_ =
      Returns-bind (Arrived c now (arriving c.base_socket.kernel.recv_replies))
        (λ (a', c'). (a' ≡ serve step a hs) × Settled c q e c') _ _ (recv_data-Arrived c now v room)
        λ c1 (v1, u1, _, _, _, _, frame).
          let kept : c1.handle ≡ c.handle = ap (λ r. r.handle) frame in
          Returns-mono (λ (a', c'). (a' ≡ serve step a hs) × Settled c1 q e c')
            (λ (a', c'). (a' ≡ serve step a hs) × Settled c q e c') _
            (λ (a', c') (served, s). (served, resettled c1 c q e c' kept s))
            (parse_pkt-Settled a c1 hs q e handle serves v1 (u1 ∙ all) beats ends (kept ∙ open_))
    where
      resettled :
          (c1 c : BaseConn) (q : List ℕ) (e : Option ErrorCode) (c' : BaseConn)
          → c1.handle ≡ c.handle
          → Settled c1 q e c'
          → Settled c q e c'
      resettled c1 c q none c' kept (v, u, r, k) = (v, u, r, k ∙ kept)
      resettled c1 c q (some x) c' kept s = s

-- ===== src/Conn/Dispatch.antt =====
-- `_ParsePkt`: every packet that has arrived whole is handled once, in order, and what ends the
-- reading is kept for more bytes or closes the connection.
use netter.Common.{
  ℕ, min, zero, suc, ◌-◌, ◌<◌, ◌≡◌, refl, ap, ap₂, sym, subst, ◌∙◌, List, [], ◌∷◌, ◌++◌,
  append_assoc, Option, none, some, Result, ErrorCode, Returns, Returns-bind, Returns-mono, arith,
  length, drop, All, length-append, take-append-drop, drop-append,
}
use netter.Buffer.{SimpleBuffer, get_readable_len}
use netter.Buffer.Queue.{IsValid, unread, length-unread}
use netter.Buffer.Reading.{DidRead, read-DidRead}
use netter.Packet.{PktHeader, PktBase, get_length}
use netter.Packet.Header.{header_bytes, length-header_bytes}
use netter.Packet.Framing.{received}
use netter.Packet.Sequence.{
  frames, IsHeartbeat, Ends, stop, read_packet-stop, read_packet-heartbeat,
}
use netter.Conn.{BaseConn}
use netter.Conn.Parse.{get_read_buffer, Handled, after_handle, parse_round, parse_loop}

-- What the read pointer points to: the unread bytes, then whatever the block holds.
pub read_buffer-unread :
    {b : SimpleBuffer} {bytes : List ℕ}
    → IsValid b
    → unread b ≡ bytes
    → (junk : List ℕ) × (get_read_buffer b ≡ bytes ++ junk) × (get_readable_len b ≡ length bytes)
unfolding unread
read_buffer-unread {b} {bytes} v u = (
  drop (b.write_offset - b.read_offset) (drop b.read_offset b.buffer),
  sym (take-append-drop (b.write_offset - b.read_offset) (drop b.read_offset b.buffer))
      ∙ ap (λ q. q ++ drop (b.write_offset - b.read_offset) (drop b.read_offset b.buffer)) u,
  let e : get_readable_len b ≡ b.write_offset - b.read_offset = omega arith in
      e ∙ sym (unfold unread in length-unread v) ∙ ap length u,
)

-- A state, folded over the packets.
unfoldable pub serve {ℓ} : {A : Type ℓ} → (A → PktHeader → A) → A → List PktHeader → A
serve step a [] = a
serve step a (h ∷ hs) = serve step (step a h) hs

module _ {A : Type 0} (handle_pkt : A → BaseConn → PktBase → Result (Handled A))
    (step : A → PktHeader → A) where
  -- A handler that serves a packet by its header, and leaves the input buffer and the handle alone;
  -- it may send.
  abbrev pub Serves : Type 0
  Serves =
      (a : A) (c : BaseConn) (pkt : PktBase)
      → Returns (handle_pkt a c pkt) (λ (a', c', e).
        (e ≡ none) × (a' ≡ step a pkt.header) × (c'.in_buf ≡ c.in_buf) × (c'.handle ≡ c.handle))

  -- The packets have been served, and `q` is what is left to read.
  abbrev pub Looped : A → BaseConn → List PktHeader → List ℕ → Option ErrorCode → Handled A → Type 0
  Looped a c hs q e (a', c', e') =
      (e' ≡ e)
      × (a' ≡ serve step a hs)
      × IsValid c'.in_buf
      × (unread c'.in_buf ≡ q)
      × (c'.handle ≡ c.handle)

  after_handle-Looped :
      (a a' : A) (c c' : BaseConn) (e' : Option ErrorCode) (h : PktHeader) (hs : List PktHeader)
      (q : List ℕ) (e : Option ErrorCode) (handle : ℕ)
      (continue : A → BaseConn → Result (Handled A))
      → IsValid c.in_buf
      → unread c.in_buf ≡ header_bytes h ++ (frames hs ++ q)
      → c.handle ≡ some handle
      → (e' ≡ none) × (a' ≡ step a h) × (c'.in_buf ≡ c.in_buf) × (c'.handle ≡ c.handle)
      → ((c2 : BaseConn)
          → IsValid c2.in_buf
          → unread c2.in_buf ≡ frames hs ++ q
          → c2.handle ≡ some handle
          → Returns (continue a' c2) (Looped a' c2 hs q e))
      → Returns (after_handle (a', c', e') 16 continue) (Looped a c (h ∷ hs) q e)
  unfolding after_handle serve
  after_handle-Looped a a' c c' (some x) h hs q e handle continue v u open_
        (bad, served, same, kept) rec =
      absurd cc
  after_handle-Looped a a' c c' none h hs q e handle continue v u open_ (_, served, same, kept)
        rec =
      Returns-bind {A = SimpleBuffer × Option (List ℕ) × ℕ}
        (λ (b', out, n). (out ≡ none) × DidRead c'.in_buf 16 b' n) (Looped a c (h ∷ hs) q e) _ _
        (read-DidRead 16 (subst IsValid (sym same) v))
        λ (b', out, n) (_, (count, v', u', w)). rw (kept ∙ open_) (
          Returns-mono (Looped a' (record c' { in_buf = b' }) hs q e) _ _
            (λ (a2, c2, e2) (x, y, v2, u2, k).
              (x, y ∙ ap (λ s. serve step s hs) served, v2, u2, k ∙ kept))
            (rec (record c' { in_buf = b' }) v' (u' ∙ left n (count ∙ enough)) (kept ∙ open_)))
    where
      all : unread c'.in_buf ≡ header_bytes h ++ (frames hs ++ q)
      all = ap unread same ∙ u

      enough : min 16 (length (unread c'.in_buf)) ≡ 16
      enough = omega (
        arith,
        ap length all,
        length-append (header_bytes h) (frames hs ++ q),
        length-header_bytes h,
      )

      left : (n : ℕ) → n ≡ 16 → drop n (unread c'.in_buf) ≡ frames hs ++ q
      left n sixteen =
          ap₂ drop (sixteen ∙ sym (length-header_bytes h)) all
          ∙ drop-append (length (header_bytes h)) (header_bytes h) (frames hs ++ q) refl

  parse_round-stop :
      (a : A) (c : BaseConn) (q : List ℕ) (e : Option ErrorCode)
      (handle : PktBase → Result (Handled A))
      → IsValid c.in_buf
      → unread c.in_buf ≡ q
      → Returns (parse_round (stop e) a c handle) (Looped a c [] q e)
  unfolding parse_round stop serve
  parse_round-stop a c q none handle v u = (refl, refl, v, u, refl)
  parse_round-stop a c q (some e) handle v u = (refl, refl, v, u, refl)

  pub parse_loop-Looped :
      (fuel : ℕ) (a : A) (c : BaseConn) (hs : List PktHeader) (q : List ℕ) (e : Option ErrorCode)
      (handle : ℕ)
      → Serves
      → length hs < fuel
      → IsValid c.in_buf
      → unread c.in_buf ≡ frames hs ++ q
      → All IsHeartbeat hs
      → Ends q e
      → c.handle ≡ some handle
      → Returns (parse_loop handle_pkt fuel a c) (Looped a c hs q e)
  unfolding parse_loop frames received get_length
  parse_loop-Looped zero a c hs q e handle serves enough v u beats ends open_ =
      absurd (omega (arith, enough))
  parse_loop-Looped (suc fuel) a c [] q e handle serves enough v u beats ends open_ =
      let (junk, ptr, len) = read_buffer-unread v u in
      rw
        (
          ptr,
          len,
          read_packet-stop junk ends
              (omega (arith, ap length u, length-unread v, v.word, v.writes)),
        )
        (parse_round-stop a c q e _ v u)
  parse_loop-Looped (suc fuel) a c (h ∷ hs) q e handle serves enough v u beats ends open_ =
      let u' : unread c.in_buf ≡ header_bytes h ++ (frames hs ++ q) =
        u ∙ append_assoc (header_bytes h) (frames hs) q in
      let (junk, ptr, len) = read_buffer-unread v u' in
      rw
        (
          ptr,
          len,
          read_packet-heartbeat (frames hs ++ q) junk beats.0
              (omega (arith, ap length u', length-unread v, v.word, v.writes)),
        )
        (Returns-bind {A = Handled A}
          (λ (a', c', e').
            (e' ≡ none) × (a' ≡ step a h) × (c'.in_buf ≡ c.in_buf) × (c'.handle ≡ c.handle))
          (Looped a c (h ∷ hs) q e) _ _ (serves a c (received h _))
          λ (a', c', e') s.
            after_handle-Looped a a' c c' e' h hs q e handle
              (λ a2 c2. parse_loop handle_pkt fuel a2 c2) v u' open_ s
              λ c2 v2 u2 k2.
                parse_loop-Looped fuel a' c2 hs q e handle serves (omega (arith, enough)) v2 u2
                  beats.1 ends k2)

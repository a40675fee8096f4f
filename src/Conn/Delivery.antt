-- ===== src/Conn/Delivery.antt =====
-- No byte that is sent on an open connection is lost, repeated or moved: what the kernel took,
-- followed by what the connection still holds, is what was sent, in order.
use netter.Common.{
  ℕ, zero, suc, ◌+◌, ◌-◌, ◌≤◌, ◌<◌, ◌≡◌, refl, ap, sym, ◌∙◌, List, [], ◌++◌, append_assoc,
  append-nil, true, false, Option, none, some, Result, Returns, Returns-bind, Returns-mono, arith,
  length, take, drop, take-split, take-take, drop-drop, length-take, length-drop, ltb, ◌==◌, ==_iff,
  Bool-cases, inl, inr,
}
use netter.Buffer
use netter.Buffer.Queue.{IsValid, unread, HasRoom, Wrote, write-Wrote}
use netter.Socket.{BaseSocket}
use netter.Socket.Sending.{Sent, send-Sent}
use netter.Conn.{BaseConn, send_size, sent_some, send_loop, send_rest, send}

pub send_size_le : (n : ℕ) → send_size n ≤ n
unfolding send_size
send_size_le n = ground arith

pub send_size_pos : (n : ℕ) → 0 < n → 0 < send_size n
unfolding send_size
send_size_pos n h = ground arith

-- The loop has moved bytes from `bytes + offset` to the wire.
abbrev Looped : BaseSocket → List ℕ → ℕ → ℕ → BaseSocket × ℕ × ℕ → Type 0
Looped s bytes offset remain (s', o, r) =
    (o + r ≡ offset + remain)
    × (s'.kernel.wire ++ take r (drop o bytes) ≡ s.kernel.wire ++ take remain (drop offset bytes))

Looped-step :
    (s s' : BaseSocket) (bytes : List ℕ) (offset remain n : ℕ) (out : BaseSocket × ℕ × ℕ)
    → n ≤ remain
    → s'.kernel.wire ≡ s.kernel.wire ++ take n (drop offset bytes)
    → Looped s' bytes (offset + n) (remain - n) out
    → Looped s bytes offset remain out
Looped-step s s' bytes offset remain n (s'', o, r) h w (sum, l) = (
  omega arith,
  l
      ∙ ap (λ q. q ++ take (remain - n) (drop (offset + n) bytes)) w
      ∙ append_assoc s.kernel.wire (take n (drop offset bytes)) _
      ∙ ap (λ q. s.kernel.wire ++ q)
          (ap (λ q. take n (drop offset bytes) ++ take (remain - n) q)
              (sym (drop-drop n offset bytes))
            ∙ sym (take-split n remain (drop offset bytes) h)),
)

sent_some-Looped :
    (s s' : BaseSocket) (ret : Option ℕ) (bytes : List ℕ) (offset remain size : ℕ)
    (continue : BaseSocket → ℕ → ℕ → Result (BaseSocket × ℕ × ℕ))
    → size ≤ remain
    → Sent s.kernel.wire (take size (drop offset bytes)) s'.kernel.wire ret
    → ((n : ℕ)
        → 0 < n
        → n ≤ remain
        → Returns
            (continue s' (offset + n) (remain - n))
            (Looped s' bytes (offset + n) (remain - n)))
    → Returns (sent_some (s', ret) offset remain continue) (Looped s bytes offset remain)
unfolding sent_some
sent_some-Looped s s' none bytes offset remain size continue h w rec =
    (refl, ap (λ q. q ++ take remain (drop offset bytes)) w)
sent_some-Looped s s' (some n) bytes offset remain size continue h (le, w) rec =
    elim (Bool-cases (n == 0)) [
      | inl none_taken ↦ rw none_taken (
        refl,
        ap (λ q. q ++ take remain (drop offset bytes))
            (w'
              ∙ ap (λ k. s.kernel.wire ++ take k (drop offset bytes)) ((==_iff n 0).0 none_taken)
              ∙ append-nil s.kernel.wire),
      )
      | inr more ↦ rw more (
          Returns-mono (Looped s' bytes (offset + n) (remain - n)) (Looped s bytes offset remain) _
            (λ out.
              Looped-step s s' bytes offset remain n out
                (omega (arith, length-take size (drop offset bytes))) w')
            (rec n (ground arith) (omega (arith, length-take size (drop offset bytes)))))
    ]
  where
    w' : s'.kernel.wire ≡ s.kernel.wire ++ take n (drop offset bytes)
    w' =
        w
        ∙ ap (λ q. s.kernel.wire ++ q)
            (take-take n size (drop offset bytes)
              (omega (arith, length-take size (drop offset bytes))))

send_loop-Looped :
    (fuel : ℕ) (s : BaseSocket) (bytes : List ℕ) (offset remain : ℕ)
    → remain ≤ fuel
    → offset + remain ≤ length bytes
    → Returns (send_loop fuel s bytes offset remain) (Looped s bytes offset remain)
unfolding send_loop
send_loop-Looped zero s bytes offset remain h fits = (refl, refl)
send_loop-Looped (suc fuel) s bytes offset remain h fits = elim (Bool-cases (remain == 0)) [
  | inl done ↦ rw done (refl, refl)
  | inr more ↦ rw more (
      Returns-bind
        (λ (s', ret).
          Sent s.kernel.wire (take (send_size remain) (drop offset bytes)) s'.kernel.wire ret)
        (Looped s bytes offset remain) _ _
        (send-Sent s bytes offset (send_size remain) (omega (arith, send_size_le remain)))
        λ (s', ret) sent.
          sent_some-Looped s s' ret bytes offset remain (send_size remain) _ (send_size_le remain)
            sent
            λ n pos le.
              send_loop-Looped fuel s' bytes (offset + n) (remain - n) (omega arith) (omega arith))
]

-- A connection's output buffer is in order, and empty unless the connection is busy.
pub record IsSound (c : BaseConn) : Type 0 where
  pub out_valid : IsValid c.out_buf
  pub idle_empty : c.busy ≡ false → unread c.out_buf ≡ []

-- What the kernel took, then what waits for it.
unfoldable pub delivered : BaseConn → List ℕ
delivered c = c.base_socket.kernel.wire ++ unread c.out_buf

-- The outcome of sending `bytes`; the rest of the connection is left alone.
abbrev pub Delivers : BaseConn → List ℕ → BaseConn → Type 0
Delivers c bytes c' =
    IsSound c'
    × (c'.is_open ≡ c.is_open)
    × (delivered c' ≡ delivered c ++ bytes)
    × (c'.out_buf.write_offset ≤ c.out_buf.write_offset + length bytes)
    × (c' ≡ record c {
      base_socket = c'.base_socket;
      out_buf = c'.out_buf;
      busy = c'.busy;
      last_send_tick = c'.last_send_tick;
    })

module _ {c : BaseConn} (bytes : List ℕ) (len : ℕ) (v : IsSound c)
    (room : HasRoom c.out_buf len) where
  send_rest-Delivers :
      (stopped : BaseSocket × ℕ × ℕ)
      → len ≤ length bytes
      → unread c.out_buf ≡ []
      → Looped c.base_socket bytes 0 len stopped
      → Returns (send_rest c bytes stopped) (Delivers c (take len bytes))
  unfolding send_rest delivered
  send_rest-Delivers (s, o, r) enough empty (sum, l) = elim (Bool-cases (ltb 0 r)) [
    | inl left ↦ rw left (
        Returns-bind (Wrote c.out_buf (drop o bytes) r) (Delivers c (take len bytes)) _ _
          (write-Wrote (drop o bytes) r v.out_valid (omega arith)
            (omega (arith, length-drop o bytes)))
          λ (b', n) (_, v', u, w, _). (
            record { out_valid = v'; idle_empty = λ e. cc },
            refl,
            ap (λ q. s.kernel.wire ++ q) (u ∙ ap (λ q. q ++ take r (drop o bytes)) empty)
                ∙ l
                ∙ ap (λ q. q ++ take len bytes)
                    (sym (append-nil c.base_socket.kernel.wire)
                      ∙ ap (λ q. c.base_socket.kernel.wire ++ q) (sym empty)),
            omega (arith, length-take len bytes),
            refl,
          ))
    | inr all ↦ rw all (
      record { out_valid = v.out_valid; idle_empty = v.idle_empty },
      refl,
      ap (λ q. s.kernel.wire ++ q)
            (empty ∙ ap (λ k. take k (drop o bytes)) (let z : 0 ≡ r = ground arith in z))
          ∙ l
          ∙ ap (λ q. q ++ take len bytes)
              (sym (append-nil c.base_socket.kernel.wire)
                ∙ ap (λ q. c.base_socket.kernel.wire ++ q) (sym empty)),
      omega arith,
      refl,
    )
  ]

-- `Send` on an open connection puts the bytes behind all that was sent before, whether the kernel
-- takes all of them, some or none, and returns their number.
pub send-Delivers :
    {c : BaseConn} (now : ℕ) (bytes : List ℕ) (len : ℕ)
    → IsSound c
    → HasRoom c.out_buf len
    → len ≤ length bytes
    → c.is_open ≡ true
    → Returns (send c now bytes len) (λ (c', n). (n ≡ len) × Delivers c (take len bytes) c')
unfolding send delivered
send-Delivers {c} now bytes len v room enough opened = elim (Bool-cases c.busy) [
  | inl busy ↦
      rw (opened, send, busy)
        (Returns-bind (Wrote c.out_buf bytes len)
          (λ (c', n).
            (n ≡ len)
            × Delivers (record c { busy = true; is_open = true; last_send_tick = now })
                (take len bytes) c')
          (Buffer.write c.out_buf (some bytes) len) _
          (write-Wrote bytes len v.out_valid room enough)
          λ (b', n) (_, v', u, w, _). (
            refl,
            (
              record { out_valid = v'; idle_empty = λ e. cc },
              refl,
              ap (λ q. c.base_socket.kernel.wire ++ q) u
                  ∙ sym
                      (append_assoc c.base_socket.kernel.wire (unread c.out_buf) (take len bytes)),
              omega (arith, length-take len bytes),
              refl,
            ),
          ))
  | inr idle ↦
      rw (opened, send, idle)
        (Returns-bind (Looped c.base_socket bytes 0 len)
          (λ (c', n).
            (n ≡ len)
            × Delivers (record c { busy = false; is_open = true; last_send_tick = now })
                (take len bytes) c')
          (send_loop len c.base_socket bytes 0 len) _
          (send_loop-Looped len c.base_socket bytes 0 len (omega arith) (omega arith))
          λ stopped l.
            Returns-bind
              (Delivers (record c { busy = false; is_open = true; last_send_tick = now })
                (take len bytes))
              (λ (c', n).
                (n ≡ len)
                × Delivers (record c { busy = false; is_open = true; last_send_tick = now })
                    (take len bytes) c')
              (send_rest (record c { busy = false; is_open = true; last_send_tick = now }) bytes
                stopped)
              _
              (send_rest-Delivers
                {c = record c { busy = false; is_open = true; last_send_tick = now }} bytes len
                (record { out_valid = v.out_valid; idle_empty = λ _. v.idle_empty idle }) room
                stopped enough (v.idle_empty idle) l)
              λ c' d. (refl, d))
]

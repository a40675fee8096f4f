-- ===== src/Conn/Flush.antt =====
-- `OnWrite`: the output buffer goes to the socket, and no byte is lost, repeated or moved.
use netter.Common.{
  ℕ, zero, suc, ◌-◌, ◌≤◌, ◌<◌, ◌==◌, ==_iff, ◌≡◌, refl, ap, ap₂, subst, sym, ◌∙◌, true, List, [],
  ◌++◌, append_assoc, append-nil, Option, none, some, min, Result, Returns, Returns-bind,
  Returns-mono, arith, length, take, drop, take-append-drop, take-take, length-take, length-drop,
  Bool-cases, inl, inr,
}
use netter.Buffer.{SimpleBuffer, get_readable_len}
use netter.Buffer.Queue.{IsValid, unread, length-unread}
use netter.Buffer.Reading.{DidRead, read-DidRead, reset_offset_lem}
use netter.Socket.{BaseSocket}
use netter.Socket.Sending.{Sent, send-Sent}
use netter.Conn.{BaseConn, send_size, flushed_some, flush_loop, on_write}
use netter.Conn.Arrival.{nothing}
use netter.Conn.Delivery.{IsSound, delivered, send_size_le}

-- Bytes have moved from the buffer to the wire.
abbrev Flushed : BaseSocket → SimpleBuffer → BaseSocket × SimpleBuffer → Type 0
Flushed s b (s', b') =
    IsValid b'
    × (s'.kernel.wire ++ unread b' ≡ s.kernel.wire ++ unread b)
    × (b'.write_offset ≡ b.write_offset)

flushed_some-Flushed :
    (s s' : BaseSocket) (ret : Option ℕ) (b : SimpleBuffer) (size : ℕ)
    (continue : BaseSocket → SimpleBuffer → Result (BaseSocket × SimpleBuffer))
    → IsValid b
    → size ≤ length (unread b)
    → Sent s.kernel.wire (take size (unread b)) s'.kernel.wire ret
    → ((b' : SimpleBuffer) → IsValid b' → Returns (continue s' b') (Flushed s' b'))
    → Returns (flushed_some (s', ret) b continue) (Flushed s b)
unfolding flushed_some
flushed_some-Flushed s s' none b size continue v h w rec = (v, ap (λ q. q ++ unread b) w, refl)
flushed_some-Flushed s s' (some n) b size continue v h (le, w) rec = elim (Bool-cases (n == 0)) [
  | inl z ↦ rw z (
    v,
    ap (λ q. q ++ unread b)
        (w
          ∙ ap (λ k. s.kernel.wire ++ take k (take size (unread b))) ((==_iff n 0).0 z)
          ∙ append-nil s.kernel.wire),
    refl,
  )
  | inr more ↦ rw more (
      Returns-bind {A = SimpleBuffer × Option (List ℕ) × ℕ}
        (λ (b', out, k). (out ≡ none) × DidRead b n b' k) (Flushed s b) _ _ (read-DidRead n v)
        λ (b', out, k) (_, (count, v', u', w')).
          Returns-mono (Flushed s' b') (Flushed s b) _
            (λ (s2, b2) (v2, same, w2). (
              v2,
              same
                  ∙ ap₂ (◌++◌) w (u' ∙ ap (λ i. drop i (unread b)) (count ∙ all))
                  ∙ append_assoc s.kernel.wire (take n (take size (unread b))) (drop n (unread b))
                  ∙ ap (λ q. s.kernel.wire ++ q)
                      (ap (λ q. q ++ drop n (unread b)) (take-take n size (unread b) fits)
                        ∙ take-append-drop n (unread b)),
              w2 ∙ w',
            ))
            (rec b' v'))
]
  where
    fits : n ≤ size
    fits = omega (arith, le, length-take size (unread b))

    all : min n (length (unread b)) ≡ n
    all = omega (arith, fits, h)

-- What one round asks the socket to send is the front of the unread bytes.
send_size-unread :
    {b : SimpleBuffer} → IsValid b → send_size (get_readable_len b) ≤ length (unread b)
send_size-unread {b} v =
    omega (arith, send_size_le (get_readable_len b), length-unread v, v.reads, v.writes, v.word)

front-unread :
    {b : SimpleBuffer} (size : ℕ)
    → IsValid b
    → size ≤ length (unread b)
    → take size (drop b.read_offset b.buffer) ≡ take size (unread b)
unfolding unread
front-unread {b} size v h = sym (
    take-take size (b.write_offset - b.read_offset) (drop b.read_offset b.buffer) (
      omega (arith, h, length-take (b.write_offset - b.read_offset) (drop b.read_offset b.buffer))))

flush_loop-Flushed :
    (fuel : ℕ) (s : BaseSocket) (b : SimpleBuffer)
    → IsValid b
    → Returns (flush_loop fuel s b) (Flushed s b)
unfolding flush_loop
flush_loop-Flushed zero s b v = (v, refl, refl)
flush_loop-Flushed (suc fuel) s b v = elim (Bool-cases (get_readable_len b == 0)) [
  | inl done ↦ rw done (v, refl, refl)
  | inr more ↦ rw more (
      Returns-bind
        (λ (s', ret).
          Sent s.kernel.wire (take (send_size (get_readable_len b)) (drop b.read_offset b.buffer))
            s'.kernel.wire ret)
        (Flushed s b) _ _
        (send-Sent s (drop b.read_offset b.buffer) 0 (send_size (get_readable_len b)) (
          omega (
            arith,
            send_size-unread v,
            length-unread v,
            v.reads,
            v.writes,
            v.block,
            length-drop b.read_offset b.buffer,
          )))
        λ (s', ret) sent.
          flushed_some-Flushed s s' ret b (send_size (get_readable_len b)) _ v (send_size-unread v)
            (subst (λ q. Sent s.kernel.wire q s'.kernel.wire ret)
              (front-unread (send_size (get_readable_len b)) v (send_size-unread v)) sent)
            λ b' v'. flush_loop-Flushed fuel s' b' v')
]

empty_out : (b : SimpleBuffer) → IsValid b → get_readable_len b ≡ 0 → unread b ≡ []
empty_out b v e = nothing (unread b) (omega (arith, length-unread v, v.reads, v.writes, v.word, e))

-- The outcome of `OnWrite`.
abbrev pub Left : BaseConn → BaseConn → Type 0
Left c c' =
    IsSound c'
    × (delivered c' ≡ delivered c)
    × (c'.busy ≡ true → 0 < length (unread c'.out_buf))
    × (c'.is_open ≡ c.is_open)
    × (c'.out_buf.write_offset ≤ c.out_buf.write_offset)

pub on_write-delivered : {c : BaseConn} → IsSound c → Returns (on_write c) (Left c)
unfolding on_write delivered
on_write-delivered {c} v = elim (Bool-cases c.busy) [
  | inl busy ↦
      rw (busy, on_write)
        (Returns-bind {A = BaseSocket × SimpleBuffer} (Flushed c.base_socket c.out_buf) (Left c) _ _
          (flush_loop-Flushed (get_readable_len c.out_buf) c.base_socket c.out_buf v.out_valid)
          λ (s, b) (v1, same, w).
            Returns-bind
              (λ b'.
                IsValid b'
                × (unread b' ≡ unread b)
                × (b'.read_offset ≡ 0)
                × (b'.write_offset ≡ length (unread b)))
              (Left c) _ _ (reset_offset_lem v1)
              λ b' (v2, u, r, len). (
                record { out_valid = v2; idle_empty = λ e. empty_out b' v2 (ground arith) },
                ap (λ q. s.kernel.wire ++ q) u ∙ same,
                (λ e. ground (arith, length-unread v2)),
                refl,
                omega (arith, len, length-unread v1, w),
              ))
  | inr idle ↦
      rw (idle, on_write)
        (
          record { out_valid = v.out_valid; idle_empty = λ e. v.idle_empty idle },
          refl,
          (λ e. absurd cc),
          refl,
          omega arith,
        )
]

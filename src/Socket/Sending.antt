-- ===== src/Socket/Sending.antt =====
-- What one `Send` of the socket does to the wire.
use netter.Common.{
  ℕ, ◌+◌, ◌≤◌, ◌≡◌, refl, ap, sym, List, [], ◌∷◌, ◌++◌, append-nil, Option, none, some, Returns,
  arith, length, take, drop, take-min, le→leb,
}
use netter.Socket.{
  BaseSocket, Kernel, SendReply, took, would_block, failed, bytes_at, kernel_send, send,
}

-- The kernel took a prefix of the bytes, and says how long it is.
abbrev pub Sent : List ℕ → List ℕ → List ℕ → Option ℕ → Type 0
Sent before bytes after none = after ≡ before
Sent before bytes after (some n) = (n ≤ length bytes) × (after ≡ before ++ take n bytes)

kernel_send_of :
    (k : Kernel) (bytes : List ℕ) (replies : List SendReply)
    → k.send_replies ≡ replies
    → Sent k.wire bytes (kernel_send k bytes).0.wire (kernel_send k bytes).1
unfolding kernel_send
kernel_send_of k bytes [] e = rw (e, kernel_send) (omega arith, sym (append-nil k.wire))
kernel_send_of k bytes (took n ∷ rest) e =
    rw (e, kernel_send) (omega arith, ap (λ q. k.wire ++ q) (sym (take-min n bytes)))
kernel_send_of k bytes (would_block ∷ rest) e =
    rw (e, kernel_send) (omega arith, sym (append-nil k.wire))
kernel_send_of k bytes (failed ∷ rest) e = rw (e, kernel_send) refl

pub send-Sent :
    (s : BaseSocket) (block : List ℕ) (at len : ℕ)
    → at + len ≤ length block
    → Returns
        (send s block at len)
        (λ (s', ret). Sent s.kernel.wire (take len (drop at block)) s'.kernel.wire ret)
unfolding send bytes_at
send-Sent s block at len h =
    rw (le→leb (at + len) (length block) h)
      (kernel_send_of s.kernel (take len (drop at block)) s.kernel.send_replies refl)

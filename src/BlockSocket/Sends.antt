-- ===== src/BlockSocket/Sends.antt =====
-- `block_send_all` of src/netter/block_socket.cpp against what the kernel is willing to take.
use netter.Common.{
  ℕ, zero, suc, ◌+◌, ◌-◌, ◌≤◌, ◌<◌, false, List, [], ◌∷◌, ◌++◌, Option, none, some, ok,
  if◌then◌else◌, ◌==◌, min, length, take, drop, ◌≡◌, refl, ap, ap₂, sym, ◌∙◌, Returns, Returns-bind,
  Returns-mono, arith, Bool-cases, ==_iff, inl, inr, append_assoc, append-nil, take-split,
  drop-drop, length-take, length-drop, le→leb, take-take, take-min,
}
use netter.Socket.{Kernel, SendReply, took, would_block, failed, bytes_at}
use netter.BlockSocket.{raw_send, after_send, send_loop, block_send_all, k_max_socket_buf_size}

-- What a kernel with these answers takes of `len` bytes that it is given in pieces of at most
-- 128 KiB, until it takes none of a piece.
unfoldable pub sendable : List SendReply → ℕ → ℕ
sendable [] len = 0
sendable (took n ∷ rest) len =
    let part = min n (min len k_max_socket_buf_size) in
    let later = sendable rest (len - part) in if part == 0 then 0 else part + later
sendable (would_block ∷ rest) len = 0
sendable (failed ∷ rest) len = 0

sendable-zero : (replies : List SendReply) → sendable replies 0 ≡ 0
unfolding sendable
sendable-zero [] = refl
sendable-zero (took n ∷ rest) = ground arith
sendable-zero (would_block ∷ rest) = refl
sendable-zero (failed ∷ rest) = refl

sendable-le : (replies : List SendReply) (len : ℕ) → sendable replies len ≤ len
unfolding sendable
sendable-le [] len = omega arith
sendable-le (took n ∷ rest) len = ground (arith, sendable-le rest (len - min n (min len 131072)))
sendable-le (would_block ∷ rest) len = omega arith
sendable-le (failed ∷ rest) len = omega arith

-- The loop has sent this much more, in order.
abbrev pub Sent : Kernel → List ℕ → ℕ → ℕ → Kernel × ℕ → Type 0
Sent k block offset remain (k', left) =
    let n = sendable k.send_replies remain in
    (left + n ≡ remain) × (k'.wire ≡ k.wire ++ take n (drop offset block))

abbrev chunk_of : ℕ → ℕ
chunk_of remain = min remain k_max_socket_buf_size

abbrev piece : List ℕ → ℕ → ℕ → List ℕ
piece block offset remain = take (chunk_of remain) (drop offset block)

piece-read :
    (block : List ℕ) (offset remain : ℕ)
    → offset + remain ≤ length block
    → (bytes_at block offset (chunk_of remain) ≡ ok (piece block offset remain))
      × (length (piece block offset remain) ≡ chunk_of remain)
unfolding bytes_at
piece-read block offset remain inside = (
  rw (le→leb (offset + chunk_of remain) (length block) (omega (arith, inside))) refl,
  omega (arith, length-take (chunk_of remain) (drop offset block), length-drop offset block),
)

-- The part of a piece that was taken, and all that follows it.
taken-then :
    (block : List ℕ) (offset remain n m : ℕ)
    → offset + remain ≤ length block
    → take n (piece block offset remain) ++ take m (drop (offset + min n (chunk_of remain)) block)
      ≡ take (min n (chunk_of remain) + m) (drop offset block)
taken-then block offset remain n m inside =
    let part = min n (chunk_of remain) in
    let xs = drop offset block in
    let (_, len) = piece-read block offset remain inside in
    ap (λ q. q ++ take m (drop (offset + part) block))
      (sym (take-min n (piece block offset remain))
        ∙ ap (λ j. take j (piece block offset remain)) (ap (min n) len)
        ∙ take-take part (chunk_of remain) xs (omega arith))
    ∙ ap₂ (λ j ys. take part xs ++ take j ys) (let z : m ≡ part + m - part = omega arith in z)
        (sym (drop-drop part offset block))
    ∙ sym (take-split part (part + m) xs (omega arith))

module _ (k : Kernel) (bytes : List ℕ) (rest : List SendReply) where
  raw_send_took :
      (n : ℕ)
      → k.send_replies ≡ took n ∷ rest
      → raw_send k bytes ≡ (
        record k { send_replies = rest; wire = k.wire ++ take n bytes },
        some (min n (length bytes)),
      )
  unfolding raw_send
  raw_send_took n e = rw (e, raw_send) refl

-- One round of the loop, where there is more to send.
send_loop_round :
    (fuel : ℕ) (k : Kernel) (block : List ℕ) (offset remain : ℕ) (sent : Kernel × Option ℕ)
    → offset + remain ≤ length block
    → (remain == 0) ≡ false
    → raw_send k (piece block offset remain) ≡ sent
    → send_loop (suc fuel) k block offset remain
      ≡ after_send sent remain (λ n. send_loop fuel sent.0 block (offset + n) (remain - n))
unfolding send_loop
send_loop_round fuel k block offset remain sent inside more e =
    rw (more, send_loop, (piece-read block offset remain inside).0)
      (ap (λ r. after_send r remain (λ n. send_loop fuel r.0 block (offset + n) (remain - n))) e)

abbrev Refuses : List SendReply → Type 0
Refuses (took n ∷ rest) = ⊥
Refuses _ = Unit

raw_send-none :
    (k : Kernel) (bytes : List ℕ) (replies : List SendReply)
    → k.send_replies ≡ replies
    → Refuses replies
    → (k' : Kernel) × (raw_send k bytes ≡ (k', none)) × (k'.wire ≡ k.wire)
unfolding raw_send
raw_send-none k bytes [] e r = rw (e, raw_send) (_, refl, refl)
raw_send-none k bytes (took n ∷ rest) e r = absurd r
raw_send-none k bytes (would_block ∷ rest) e r = rw (e, raw_send) (_, refl, refl)
raw_send-none k bytes (failed ∷ rest) e r = rw (e, raw_send) (_, refl, refl)

-- Where nothing can be sent, all of it remains and the wire is as it was.
nothing-Sent :
    (k k' : Kernel) (block : List ℕ) (offset remain : ℕ)
    → sendable k.send_replies remain ≡ 0
    → k'.wire ≡ k.wire
    → Sent k block offset remain (k', remain)
nothing-Sent k k' block offset remain z same = (
  omega (arith, z),
  same ∙ sym (append-nil k.wire) ∙ ap (λ j. k.wire ++ take j (drop offset block)) (sym z),
)

-- Where the next answer takes nothing, the loop ends as it is.
refused-Sent :
    (fuel : ℕ) (k : Kernel) (replies : List SendReply) (block : List ℕ) (offset remain : ℕ)
    → k.send_replies ≡ replies
    → Refuses replies
    → offset + remain ≤ length block
    → (remain == 0) ≡ false
    → sendable replies remain ≡ 0
    → Returns (send_loop (suc fuel) k block offset remain) (Sent k block offset remain)
unfolding after_send
refused-Sent fuel k replies block offset remain e refuses inside more z =
    let (k', sent, same) = raw_send-none k (piece block offset remain) replies e refuses in
    rw (send_loop_round fuel k block offset remain (k', none) inside more sent)
      (nothing-Sent k k' block offset remain (ap (λ q. sendable q remain) e ∙ z) same)

-- The answer takes some of the piece, and the loop goes on with the rest.
sendable_took :
    (n : ℕ) (rest : List SendReply) (len : ℕ)
    → sendable (took n ∷ rest) len ≡ (
        if min n (chunk_of len) == 0
        then 0
        else min n (chunk_of len) + sendable rest (len - min n (chunk_of len)))
unfolding sendable
sendable_took n rest len = refl

took-Sent :
    (k k' : Kernel) (n : ℕ) (rest : List SendReply) (block : List ℕ) (offset remain : ℕ)
    (end : Kernel × ℕ)
    → k.send_replies ≡ took n ∷ rest
    → k'.send_replies ≡ rest
    → k'.wire ≡ k.wire ++ take n (piece block offset remain)
    → offset + remain ≤ length block
    → (min n (chunk_of remain) == 0) ≡ false
    → Sent k' block (offset + min n (chunk_of remain)) (remain - min n (chunk_of remain)) end
    → Sent k block offset remain end
took-Sent k k' n rest block offset remain (k'', left) e e' w inside some_taken (l, wire) =
    let part = min n (chunk_of remain) in
    let m = sendable rest (remain - part) in
    let same : sendable k.send_replies remain ≡ part + m =
      ap (λ q. sendable q remain) e ∙ sendable_took n rest remain ∙ (rw some_taken refl) in
    let m' : sendable k'.send_replies (remain - part) ≡ m =
      ap (λ q. sendable q (remain - part)) e' in
    (
      omega (arith, same, l, m'),
      wire
          ∙ ap₂ (λ x j. x ++ take j (drop (offset + part) block)) w m'
          ∙ append_assoc k.wire (take n (piece block offset remain))
              (take m (drop (offset + part) block))
          ∙ ap (λ q. k.wire ++ q) (taken-then block offset remain n m inside)
          ∙ ap (λ j. k.wire ++ take j (drop offset block)) (sym same),
    )

-- What the induction over the fuel shows for less fuel.
abbrev SendsWith : ℕ → List ℕ → Type 0
SendsWith fuel block =
    (k : Kernel) (offset remain : ℕ)
    → remain < fuel
    → offset + remain ≤ length block
    → Returns (send_loop fuel k block offset remain) (Sent k block offset remain)

took_round :
    (fuel : ℕ) (k : Kernel) (n : ℕ) (rest : List SendReply) (block : List ℕ) (offset remain : ℕ)
    → k.send_replies ≡ took n ∷ rest
    → remain < suc fuel
    → offset + remain ≤ length block
    → (remain == 0) ≡ false
    → SendsWith fuel block
    → Returns (send_loop (suc fuel) k block offset remain) (Sent k block offset remain)
unfolding after_send
took_round fuel k n rest block offset remain e enough inside more shorter =
    let bytes = piece block offset remain in
    let k' : Kernel = record k { send_replies = rest; wire = k.wire ++ take n bytes } in
    let part = min n (chunk_of remain) in
    let len = (piece-read block offset remain inside).1 in
    let sent : raw_send k bytes ≡ (k', some part) =
      raw_send_took k bytes rest n e ∙ ap (λ j. (k', some (min n j))) len in
    rw (send_loop_round fuel k block offset remain (k', some part) inside more sent)
      (elim (Bool-cases (part == 0)) [
        | inl dry ↦
            let z = (==_iff part 0).0 dry in
            let none_taken : take n bytes ≡ [] =
              sym (take-min n bytes) ∙ ap (λ j. take j bytes) (ap (min n) len ∙ z) in
            rw dry (
              nothing-Sent k k' block offset remain
                (ap (λ q. sendable q remain) e ∙ sendable_took n rest remain ∙ (rw dry refl))
                (ap (λ q. k.wire ++ q) none_taken ∙ append-nil k.wire))
        | inr wet ↦ rw wet (
            Returns-mono (Sent k' block (offset + part) (remain - part))
              (Sent k block offset remain) (send_loop fuel k' block (offset + part) (remain - part))
              (λ end. took-Sent k k' n rest block offset remain end e refl refl inside wet)
              (shorter k' (offset + part) (remain - part) (ground (arith, wet))
                (omega (arith, inside))))
      ])

send_loop-Sent : (fuel : ℕ) (block : List ℕ) → SendsWith fuel block
unfolding send_loop sendable
send_loop-Sent zero block k offset remain enough inside = absurd (omega (arith, enough))
send_loop-Sent (suc fuel) block k offset remain enough inside = elim (Bool-cases (remain == 0)) [
  | inl done ↦
      rw (done, send_loop)
        (nothing-Sent k k block offset remain
          (ap (sendable k.send_replies) ((==_iff remain 0).0 done) ∙ sendable-zero k.send_replies)
          refl)
  | inr more ↦ by_reply k.send_replies refl more (send_loop-Sent fuel block)
]
  where
    by_reply :
        (replies : List SendReply)
        → k.send_replies ≡ replies
        → (remain == 0) ≡ false
        → SendsWith fuel block
        → Returns (send_loop (suc fuel) k block offset remain) (Sent k block offset remain)
    by_reply [] e more shorter = refused-Sent fuel k [] block offset remain e tt inside more refl
    by_reply (would_block ∷ rest) e more shorter =
        refused-Sent fuel k (would_block ∷ rest) block offset remain e tt inside more refl
    by_reply (failed ∷ rest) e more shorter =
        refused-Sent fuel k (failed ∷ rest) block offset remain e tt inside more refl
    by_reply (took n ∷ rest) e more shorter =
        took_round fuel k n rest block offset remain e enough inside more shorter

-- `block_send_all` on a handle that is not invalid, with a buffer that holds `len` bytes at `at`: it
-- ends, its answer is how many bytes the kernel takes in pieces of at most 128 KiB before it takes none
-- of a piece, which is never more than `len`; and the wire has just that many bytes of the buffer more.
pub block_send_all-sends :
    (handle : ℕ) (k : Kernel) (block : List ℕ) (at len : ℕ)
    → at + len ≤ length block
    → Returns (block_send_all (some handle) k block at len) (λ (k', ret).
      (ret ≡ sendable k.send_replies len)
      × (ret ≤ len)
      × (k'.wire ≡ k.wire ++ take ret (drop at block)))
unfolding block_send_all
block_send_all-sends handle k block at len inside =
    Returns-bind (Sent k block at len) _ (send_loop (len + 1) k block at len) _
      (send_loop-Sent (len + 1) block k at len (omega arith) inside)
      (λ (k', left) (l, wire).
        let same : len - left ≡ sendable k.send_replies len = omega (arith, l) in
        (same, omega arith, wire ∙ ap (λ j. k.wire ++ take j (drop at block)) (sym same)))

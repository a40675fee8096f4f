-- ===== src/BlockSocket/Receives.antt =====
-- `block_recv_all` of src/netter/block_socket.cpp against the bytes that arrive.
use netter.Common.{
  ℕ, zero, suc, ◌+◌, ◌-◌, ◌≤◌, ◌<◌, Bool, true, false, List, [], ◌∷◌, ◌++◌, Option, none, some,
  Result, ok, if◌then◌else◌, ltb, leb, ◌==◌, min, length, take, drop, ◌≡◌, refl, ap, ap₂, sym,
  subst, ◌∙◌, Returns, Returns-mono, arith, Bool-cases, ==_iff, inl, inr, append_assoc,
  take-append-drop, take-append, drop-append, take-split, drop-drop, length-append, length-take,
  length-drop, take-min, leb→le, le→leb, ne→==,
}
use netter.Common.Memory.{memcpy-ok, length-memcpy}
use netter.Resource.{ℤ, pos, negsuc}
use netter.Socket.{Kernel, RecvReply, got, recv_error, left_over}
use netter.Socket.Receiving.{arriving, arriving-left_over}
use netter.BlockSocket.{raw_recv, after_recv, recv_loop, block_recv_all}

-- Whether the bytes that arrive end by the peer's closing, and not by an error.
unfoldable pub ends_closed : List RecvReply → Bool
ends_closed [] = false
ends_closed (recv_error ∷ rest) = false
ends_closed (got [] ∷ rest) = true
ends_closed (got (b ∷ bs) ∷ rest) = ends_closed rest

-- Where enough bytes arrive, exactly the next `m` are stored and the others are left to arrive; where
-- they do not, the answer says how they ended.
abbrev pub Filled : Bool → List RecvReply → List ℕ → ℕ → ℕ → ℕ → Kernel × List ℕ × ℤ → Type 0
Filled true replies block at m len (k', block', ret) =
    (ret ≡ pos len)
    × (block' ≡ take at block ++ (take m (arriving replies) ++ drop (at + m) block))
    × (arriving k'.recv_replies ≡ drop m (arriving replies))
Filled false replies block at m len (k', block', ret) =
    ret ≡ (if ends_closed replies then pos 0 else negsuc 0)

ends_closed-got :
    (xs : List ℕ) (rest : List RecvReply)
    → 0 < length xs
    → ends_closed (got xs ∷ rest) ≡ ends_closed rest
unfolding ends_closed
ends_closed-got [] rest h = absurd (omega (arith, h))
ends_closed-got (x ∷ xs) rest h = refl

ends_closed-left_over :
    (bytes : List ℕ) (m : ℕ) (rest : List RecvReply)
    → 0 < min (length bytes) m
    → ends_closed (got bytes ∷ rest) ≡ ends_closed (left_over bytes m rest)
unfolding left_over
ends_closed-left_over bytes m rest some_bytes = elim (Bool-cases (ltb m (length bytes))) [
  | inl more ↦ rw more (
      ends_closed-got bytes rest (omega (arith, some_bytes))
      ∙ sym (ends_closed-got (drop m bytes) rest (ground (arith, more, length-drop m bytes))))
  | inr whole ↦ rw whole (ends_closed-got bytes rest (omega (arith, some_bytes)))
]

-- A prefix that is longer than the first part.
take-past :
    (m : ℕ) (xs ys : List ℕ)
    → length xs ≤ m
    → (take m (xs ++ ys) ≡ xs ++ take (m - length xs) ys)
      × (drop m (xs ++ ys) ≡ drop (m - length xs) ys)
take-past m xs ys h = (
  take-split (length xs) m (xs ++ ys) h
      ∙ ap₂ (λ p q. p ++ take (m - length xs) q) (take-append (length xs) xs ys refl)
          (drop-append (length xs) xs ys refl),
  ap (λ j. drop j (xs ++ ys)) (let e : m ≡ length xs + (m - length xs) = omega (arith, h) in e)
      ∙ sym (drop-drop (m - length xs) (length xs) (xs ++ ys))
      ∙ ap (drop (m - length xs)) (drop-append (length xs) xs ys refl),
)

-- The part before a copy and the copy, and what follows.
around-copy :
    (block xs : List ℕ) (at n m : ℕ)
    → length xs ≡ n
    → at + m ≤ length block
    → n ≤ m
    → let stored = take at block ++ (xs ++ drop (at + n) block) in
      (take (at + n) stored ≡ take at block ++ xs) × (drop (at + m) stored ≡ drop (at + m) block)
around-copy block xs at n m e inside h =
    let before : length (take at block ++ xs) ≡ at + n =
      omega (arith, length-append (take at block) xs, length-take at block, e, inside) in
    (
      rw (← append_assoc (take at block) xs (drop (at + n) block))
          (take-append (at + n) (take at block ++ xs) (drop (at + n) block) (sym before)),
      rw (← append_assoc (take at block) xs (drop (at + n) block)) (
          (take-past (at + m) (take at block ++ xs) (drop (at + n) block)
            (omega (arith, before, h))).1
          ∙ drop-drop _ (at + n) block
          ∙ ap (λ j. drop j block) (omega (arith, before, h))),
    )

-- What one round gets, and the loop then fills.
got-Filled :
    (bytes : List ℕ) (rest : List RecvReply) (block : List ℕ) (at m len : ℕ)
    (end : Kernel × List ℕ × ℤ)
    → at + m ≤ length block
    → 0 < min (length bytes) m
    → let n = min (length bytes) m in
      let replies' = left_over bytes m rest in
      Filled
        (leb (m - n) (length (arriving replies')))
        replies'
        (take at block ++ (take n bytes ++ drop (at + n) block))
        (at + n)
        (m - n)
        len
        end
      → Filled (leb m (length (arriving (got bytes ∷ rest)))) (got bytes ∷ rest) block at m len end
got-Filled bytes rest block at m len end inside some_bytes filled =
    let n = min (length bytes) m in
    let replies' = left_over bytes m rest in
    let xs = take n bytes in
    let stored = take at block ++ (xs ++ drop (at + n) block) in
    let all : arriving (got bytes ∷ rest) ≡ xs ++ arriving replies' =
      arriving-left_over bytes m rest some_bytes
      ∙ ap (λ q. q ++ arriving replies')
          (sym (take-min m bytes)
            ∙ ap (λ j. take j bytes) (let c : min m (length bytes) ≡ n = omega arith in c)) in
    let len_xs : length xs ≡ n = omega (arith, length-take n bytes) in
    let len_all : length (arriving (got bytes ∷ rest)) ≡ n + length (arriving replies') =
      omega (arith, ap length all, length-append xs (arriving replies'), len_xs) in
    elim (Bool-cases (leb m (length (arriving (got bytes ∷ rest))))) [
      | inl enough ↦ rw enough (
          let still : leb (m - n) (length (arriving replies')) ≡ true =
            le→leb _ _ (omega (arith, leb→le _ _ enough, len_all)) in
          let (r, b, a) =
            subst (λ t. Filled t replies' stored (at + n) (m - n) len end) still filled in
          let (kept, after) = around-copy block xs at n m len_xs inside (omega arith) in
          let (taken, left) = take-past m xs (arriving replies') (omega (arith, len_xs)) in
          let rest_of : m - length xs ≡ m - n = omega (arith, len_xs) in
          (
            r,
            b
                ∙ ap₂ (λ p q. p ++ (take (m - n) (arriving replies') ++ q)) kept
                    (ap (λ j. drop j stored) (let z : at + n + (m - n) ≡ at + m = omega arith in z)
                      ∙ after)
                ∙ append_assoc (take at block) xs
                    (take (m - n) (arriving replies') ++ drop (at + m) block)
                ∙ ap (λ q. take at block ++ q)
                    (sym (append_assoc xs (take (m - n) (arriving replies')) (drop (at + m) block)))
                ∙ ap (λ q. take at block ++ (q ++ drop (at + m) block))
                    (sym (
                      ap (take m) all
                      ∙ taken
                      ∙ ap (λ j. xs ++ take j (arriving replies')) rest_of)),
            a ∙ sym (ap (drop m) all ∙ left ∙ ap (λ j. drop j (arriving replies')) rest_of),
          ))
      | inr short ↦ rw short (
          let still : leb (m - n) (length (arriving replies')) ≡ false =
            ground (arith, short, len_all) in
          subst (λ t. Filled t replies' stored (at + n) (m - n) len end) still filled
          ∙ ap (λ t. if t then pos 0 else negsuc 0)
              (sym (ends_closed-left_over bytes m rest some_bytes)))
    ]

-- What the induction over the fuel shows for less fuel.
abbrev FillsWith : ℕ → ℕ → ℕ → Type 0
FillsWith fuel at len =
    (k : Kernel) (block : List ℕ) (received_len : ℕ)
    → len - received_len < fuel
    → received_len ≤ len
    → at + len ≤ length block
    → Returns (recv_loop fuel k block at received_len len) (λ end.
      Filled (leb (len - received_len) (length (arriving k.recv_replies))) k.recv_replies block
        (at + received_len) (len - received_len) len end)

recv_loop_round :
    (fuel : ℕ) (k : Kernel) (block : List ℕ) (at received_len len : ℕ)
    (received : Kernel × List ℕ × Option ℕ)
    → (received_len == len) ≡ false
    → raw_recv k block (at + received_len) (len - received_len) ≡ ok received
    → recv_loop (suc fuel) k block at received_len len
      ≡ after_recv received (λ n. recv_loop fuel received.0 received.1 at (received_len + n) len)
unfolding recv_loop
recv_loop_round fuel k block at received_len len received more e = rw (more, recv_loop, e) refl

raw_recv_got :
    (k : Kernel) (bytes : List ℕ) (rest : List RecvReply) (block : List ℕ) (at len : ℕ)
    → k.recv_replies ≡ got bytes ∷ rest
    → at + len ≤ length block
    → let n = min (length bytes) len in
      raw_recv k block at len
      ≡ ok (
        record k { recv_replies = left_over bytes len rest },
        take at block ++ (take n bytes ++ drop (at + n) block),
        some n,
      )
unfolding raw_recv
raw_recv_got k bytes rest block at len e inside =
    rw
      (
        e,
        raw_recv,
        memcpy-ok block at bytes (min (length bytes) len) (omega arith) (omega (arith, inside)),
      )
      refl

abbrev Fails : List RecvReply → Type 0
Fails (got bytes ∷ rest) = ⊥
Fails _ = Unit

raw_recv-Fails :
    (k : Kernel) (replies : List RecvReply) (block : List ℕ) (at len : ℕ)
    → k.recv_replies ≡ replies
    → Fails replies
    → (k' : Kernel) × (raw_recv k block at len ≡ ok (k', block, none))
unfolding raw_recv
raw_recv-Fails k [] block at len e f = rw (e, raw_recv) (_, refl)
raw_recv-Fails k (recv_error ∷ rest) block at len e f = rw (e, raw_recv) (_, refl)
raw_recv-Fails k (got bytes ∷ rest) block at len e f = absurd f

-- Where nothing more arrives, the bytes are too few.
short-Filled :
    (replies : List RecvReply) (block : List ℕ) (at m len : ℕ) (end : Kernel × List ℕ × ℤ)
    → 0 < m
    → arriving replies ≡ []
    → end.2 ≡ (if ends_closed replies then pos 0 else negsuc 0)
    → Filled (leb m (length (arriving replies))) replies block at m len end
short-Filled replies block at m len end positive e r =
    let z : leb m (length (arriving replies)) ≡ false =
      ap (λ q. leb m (length q)) e ∙ (let w : leb m 0 ≡ false = ground (arith, positive) in w) in
    subst (λ t. Filled t replies block at m len end) (sym z) r

-- Where nothing is asked for any more, nothing changes.
done-Filled :
    (k : Kernel) (block : List ℕ) (at len : ℕ)
    → Filled
        (leb 0 (length (arriving k.recv_replies)))
        k.recv_replies
        block
        at
        0
        len
        (k, block, pos len)
done-Filled k block at len =
    let z : leb 0 (length (arriving k.recv_replies)) ≡ true = ground arith in
    subst (λ t. Filled t k.recv_replies block at 0 len (k, block, pos len)) (sym z)
      (
        refl,
        sym (take-append-drop at block)
            ∙ ap (λ j. take at block ++ drop j block) (let w : at ≡ at + 0 = omega arith in w),
        refl,
      )

-- A round that ends the loop with too few bytes.
short_round :
    (fuel : ℕ) (k : Kernel) (replies : List RecvReply) (block : List ℕ) (at received_len len : ℕ)
    (received : Kernel × List ℕ × Option ℕ) (end : Kernel × List ℕ × ℤ)
    → (received_len == len) ≡ false
    → received_len ≤ len
    → arriving replies ≡ []
    → raw_recv k block (at + received_len) (len - received_len) ≡ ok received
    → after_recv received (λ n. recv_loop fuel received.0 received.1 at (received_len + n) len)
      ≡ ok end
    → end.2 ≡ (if ends_closed replies then pos 0 else negsuc 0)
    → Returns (recv_loop (suc fuel) k block at received_len len) (
        Filled
          (leb (len - received_len) (length (arriving replies)))
          replies
          block
          (at + received_len)
          (len - received_len)
          len)
short_round fuel k replies block at received_len len received end more le nothing got_it ended r =
    rw (recv_loop_round fuel k block at received_len len received more got_it, ended)
      (short-Filled replies block (at + received_len) (len - received_len) len end
        (ground (arith, more, le)) nothing r)

after_recv_zero :
    (k : Kernel) (block : List ℕ) (n : ℕ) (later : ℕ → Result (Kernel × List ℕ × ℤ))
    → (n == 0) ≡ true
    → after_recv (k, block, some n) later ≡ ok (k, block, pos 0)
unfolding after_recv
after_recv_zero k block n later e = rw e refl

-- The peer has closed.
closed_round :
    (fuel : ℕ) (k : Kernel) (rest : List RecvReply) (block : List ℕ) (at received_len len : ℕ)
    → k.recv_replies ≡ got [] ∷ rest
    → (received_len == len) ≡ false
    → received_len ≤ len
    → at + len ≤ length block
    → Returns (recv_loop (suc fuel) k block at received_len len) (
        Filled
          (leb (len - received_len) 0)
          (got [] ∷ rest)
          block
          (at + received_len)
          (len - received_len)
          len)
unfolding arriving ends_closed
closed_round fuel k rest block at received_len len e more le inside =
    short_round fuel k (got [] ∷ rest) block at received_len len _ _ more le refl
      (raw_recv_got k [] rest block (at + received_len) (len - received_len) e
        (omega (arith, inside, le)))
      (after_recv_zero _ _ (min 0 (len - received_len)) _ (ground arith)) refl

got_round :
    (fuel : ℕ) (k : Kernel) (b : ℕ) (bs : List ℕ) (rest : List RecvReply) (block : List ℕ)
    (at received_len len : ℕ)
    → k.recv_replies ≡ got (b ∷ bs) ∷ rest
    → len - received_len < suc fuel
    → received_len ≤ len
    → at + len ≤ length block
    → (received_len == len) ≡ false
    → FillsWith fuel at len
    → Returns (recv_loop (suc fuel) k block at received_len len) (
        Filled
          (leb (len - received_len) (length (arriving (got (b ∷ bs) ∷ rest))))
          (got (b ∷ bs) ∷ rest)
          block
          (at + received_len)
          (len - received_len)
          len)
unfolding after_recv
got_round fuel k b bs rest block at received_len len e enough le inside more shorter =
    let m = len - received_len in
    let here = at + received_len in
    let n = min (length (b ∷ bs)) m in
    let replies' = left_over (b ∷ bs) m rest in
    let k' : Kernel = record k { recv_replies = replies' } in
    let stored = take here block ++ (take n (b ∷ bs) ++ drop (here + n) block) in
    let room : here + m ≤ length block = omega (arith, inside, le) in
    let some_left : 0 < m = ground (arith, more, le) in
    let some_bytes : 0 < n = omega (arith, some_left) in
    let some_n : (n == 0) ≡ false = ne→== n 0 (λ z. absurd (omega (arith, z, some_bytes))) in
    let end_at : here + n ≡ at + (received_len + n) = omega arith in
    let left_len : m - n ≡ len - (received_len + n) = omega arith in
    rw
      (
        recv_loop_round fuel k block at received_len len (k', stored, some n) more
            (raw_recv_got k (b ∷ bs) rest block here m e room),
        some_n,
      )
      (Returns-mono
        (Filled (leb (len - (received_len + n)) (length (arriving replies'))) replies' stored
          (at + (received_len + n)) (len - (received_len + n)) len)
        (Filled (leb m (length (arriving (got (b ∷ bs) ∷ rest)))) (got (b ∷ bs) ∷ rest) block here m
          len)
        (recv_loop fuel k' stored at (received_len + n) len)
        (λ end filled. got-Filled (b ∷ bs) rest block here m len end room some_bytes (
          subst
            (λ j. Filled (leb j (length (arriving replies'))) replies' stored (here + n) j len end)
            (sym left_len)
            (subst
              (λ j.
                Filled (leb (len - (received_len + n)) (length (arriving replies'))) replies' stored
                  j (len - (received_len + n)) len end)
              (sym end_at) filled)))
        (shorter k' stored (received_len + n) (omega (arith, enough, some_bytes))
          (omega (arith, le))
          (omega (
            arith,
            inside,
            length-memcpy block here (b ∷ bs) n (omega arith) (omega (arith, room)),
          ))))

recv_loop-Filled : (fuel at len : ℕ) → FillsWith fuel at len
unfolding recv_loop after_recv arriving ends_closed
recv_loop-Filled zero at len k block received_len enough le inside = absurd (omega (arith, enough))
recv_loop-Filled (suc fuel) at len k block received_len enough le inside =
    elim (Bool-cases (received_len == len)) [
      | inl done ↦
          let same = (==_iff received_len len).0 done in
          rw (done, recv_loop)
            (subst
              (λ j.
                Filled (leb j (length (arriving k.recv_replies))) k.recv_replies block
                  (at + received_len) j len (k, block, pos received_len))
              (let z : 0 ≡ len - received_len = omega (arith, same) in z)
              (subst
                (λ q.
                  Filled (leb 0 (length (arriving k.recv_replies))) k.recv_replies block
                    (at + received_len) 0 len (k, block, pos q))
                (sym same) (done-Filled k block (at + received_len) len)))
      | inr more ↦ by_reply k.recv_replies refl more (recv_loop-Filled fuel at len)
    ]
  where
    by_reply :
        (replies : List RecvReply)
        → k.recv_replies ≡ replies
        → (received_len == len) ≡ false
        → FillsWith fuel at len
        → Returns (recv_loop (suc fuel) k block at received_len len) (
            Filled
              (leb (len - received_len) (length (arriving replies)))
              replies
              block
              (at + received_len)
              (len - received_len)
              len)
    by_reply [] e more shorter =
        let (k', failed_now) =
          raw_recv-Fails k [] block (at + received_len) (len - received_len) e tt in
        short_round fuel k [] block at received_len len (k', block, none) (k', block, negsuc 0) more
          le refl failed_now refl refl
    by_reply (recv_error ∷ rest) e more shorter =
        let (k', failed_now) =
          raw_recv-Fails k (recv_error ∷ rest) block (at + received_len) (len - received_len) e
            tt in
        short_round fuel k (recv_error ∷ rest) block at received_len len (k', block, none)
          (k', block, negsuc 0) more le refl failed_now refl refl
    by_reply (got [] ∷ rest) e more shorter =
        closed_round fuel k rest block at received_len len e more le inside
    by_reply (got (b ∷ bs) ∷ rest) e more shorter =
        got_round fuel k b bs rest block at received_len len e enough le inside more shorter

-- `block_recv_all` on a handle that is not invalid, with a buffer that has room for `len` bytes at `at`:
-- it ends. If at least `len` bytes arrive before the peer closes or an error, the answer is `len`, the
-- buffer has exactly the next `len` bytes that arrive, and the others are left to arrive; if fewer
-- arrive, the answer is 0 where the peer has closed and -1 where an error ended them.
pub block_recv_all-Filled :
    (handle : ℕ) (k : Kernel) (block : List ℕ) (at len : ℕ)
    → at + len ≤ length block
    → Returns
        (block_recv_all (some handle) k block at len)
        (Filled (leb len (length (arriving k.recv_replies))) k.recv_replies block at len len)
unfolding block_recv_all
block_recv_all-Filled handle k block at len inside =
    subst
      (λ a.
        Returns (recv_loop (len + 1) k block at 0 len)
          (Filled (leb len (length (arriving k.recv_replies))) k.recv_replies block a len len))
      (let z : at + 0 ≡ at = omega arith in z)
      (subst
        (λ j.
          Returns (recv_loop (len + 1) k block at 0 len)
            (Filled (leb j (length (arriving k.recv_replies))) k.recv_replies block (at + 0) j len))
        (let z : len - 0 ≡ len = omega arith in z)
        (recv_loop-Filled (len + 1) at len k block 0 (omega arith) (omega arith) inside))

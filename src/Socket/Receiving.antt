-- ===== src/Socket/Receiving.antt =====
-- What one `Recv` of the socket takes of the bytes that arrive.
use netter.Common.{
  ℕ, zero, suc, ◌+◌, ◌≤◌, ◌<◌, ◌≡◌, refl, ap, ap₂, sym, ◌∙◌, List, [], ◌∷◌, ◌++◌, append_assoc,
  Option, none, some, min, Returns, arith, length, take, drop, length-take, length-drop, take-min,
  take-all, take-append-drop, ltb, Bool-cases, inl, inr,
}
use netter.Common.Memory.{memcpy-ok}
use netter.Socket.{BaseSocket, RecvReply, got, recv_error, left_over, recv}

-- The bytes that a loop of `Recv` gets, up to an error, the peer's closing or the last answer.
unfoldable pub arriving : List RecvReply → List ℕ
arriving [] = []
arriving (recv_error ∷ rest) = []
arriving (got [] ∷ rest) = []
arriving (got (b ∷ bs) ∷ rest) = b ∷ (bs ++ arriving rest)

-- How many calls can be answered with bytes: no more than there are bytes and answers.
unfoldable pub answers : List RecvReply → ℕ
answers [] = 0
answers (got bytes ∷ rest) = length bytes + 1 + answers rest
answers (recv_error ∷ rest) = 1 + answers rest

abbrev pub count : Option ℕ → ℕ
count none = 0
count (some n) = n

-- What follows the bytes of one call: nothing, where there were none.
abbrev pub following : ℕ → List RecvReply → List ℕ
following zero replies = []
following (suc n) replies = arriving replies

-- The outcome: the next bytes that arrive are stored, and the others are left to arrive.
abbrev pub Got : BaseSocket → List ℕ → ℕ → ℕ → BaseSocket × List ℕ × Option ℕ → Type 0
Got s block at len (s', block', ret) =
    (s'.kernel.wire ≡ s.kernel.wire)
    × (count ret ≤ len)
    × ((bytes : List ℕ) × (length bytes ≡ count ret)
        × (block' ≡ take at block ++ (bytes ++ drop (at + count ret) block))
        × (arriving s.kernel.recv_replies ≡ bytes ++ following (count ret) s'.kernel.recv_replies))
    × (0 < count ret → answers s'.kernel.recv_replies < answers s.kernel.recv_replies)

arriving-got :
    (bytes : List ℕ) (rest : List RecvReply)
    → 0 < length bytes
    → arriving (got bytes ∷ rest) ≡ bytes ++ arriving rest
unfolding arriving
arriving-got [] rest pos = absurd (omega (arith, pos))
arriving-got (b ∷ bs) rest pos = refl

pub arriving-left_over :
    (bytes : List ℕ) (len : ℕ) (rest : List RecvReply)
    → 0 < min (length bytes) len
    → arriving (got bytes ∷ rest) ≡ take len bytes ++ arriving (left_over bytes len rest)
unfolding left_over
arriving-left_over bytes len rest pos = elim (Bool-cases (ltb len (length bytes))) [
  | inl more ↦
      rw
        (
          more,
          arriving-got bytes rest (omega arith),
          arriving-got (drop len bytes) rest (ground (arith, length-drop len bytes)),
          ← append_assoc (take len bytes) (drop len bytes) (arriving rest),
          take-append-drop len bytes,
        )
        refl
  | inr all ↦
      rw (all, arriving-got bytes rest (omega arith), take-all len bytes (ground arith)) refl
]

answers-left_over :
    (bytes : List ℕ) (len : ℕ) (rest : List RecvReply)
    → 0 < min (length bytes) len
    → answers (left_over bytes len rest) < length bytes + 1 + answers rest
unfolding left_over answers
answers-left_over bytes len rest pos = elim (Bool-cases (ltb len (length bytes))) [
  | inl more ↦ rw more (omega (arith, length-drop len bytes))
  | inr all ↦ rw all (omega arith)
]

pub following-pos :
    (n : ℕ) (replies : List RecvReply) → 0 < n → following n replies ≡ arriving replies
following-pos zero replies pos = absurd (omega (arith, pos))
following-pos (suc n) replies pos = refl

-- What follows the first bytes of an answer, where it has none too.
arriving-following :
    (bytes : List ℕ) (len : ℕ) (rest : List RecvReply)
    → 0 < len
    → arriving (got bytes ∷ rest)
      ≡ take (min (length bytes) len) bytes
        ++ following (min (length bytes) len) (left_over bytes len rest)
unfolding arriving
arriving-following [] len rest pos =
    ap (λ k. take k [] ++ following k (left_over [] len rest))
      (let z : 0 ≡ min 0 len = omega arith in z)
arriving-following (b ∷ bs) len rest pos =
    arriving-left_over (b ∷ bs) len rest (omega arith)
    ∙ ap₂ (◌++◌) (sym (take-min len (b ∷ bs)) ∙ ap (λ k. take k (b ∷ bs)) (omega arith))
        (sym (following-pos (min (length (b ∷ bs)) len) _ (omega arith)))

whole : (at : ℕ) (block : List ℕ) → block ≡ take at block ++ drop (at + 0) block
whole at block =
    sym (take-append-drop at block) ∙ ap (λ k. take at block ++ drop k block) (omega arith)

recv_of :
    (s : BaseSocket) (block : List ℕ) (at len : ℕ) (replies : List RecvReply)
    → 0 < len
    → at + len ≤ length block
    → s.kernel.recv_replies ≡ replies
    → Returns (recv s block at len) (Got s block at len)
unfolding recv answers arriving
recv_of s block at len [] pos fits e =
    rw (e, recv)
      (refl, omega arith, ([], refl, whole at block, refl), λ more. absurd (omega (arith, more)))
recv_of s block at len (recv_error ∷ rest) pos fits e =
    rw (e, recv)
      (refl, omega arith, ([], refl, whole at block, refl), λ more. absurd (omega (arith, more)))
recv_of s block at len (got bytes ∷ rest) pos fits e =
    let n = min (length bytes) len in
    rw (e, recv, memcpy-ok block at bytes n (omega arith) (omega arith))
      (
        refl,
        omega arith,
        (
          take n bytes,
          omega (arith, length-take n bytes),
          refl,
          arriving-following bytes len rest pos,
        ),
        λ more. answers-left_over bytes len rest more,
      )

pub recv-Got :
    (s : BaseSocket) (block : List ℕ) (at len : ℕ)
    → 0 < len
    → at + len ≤ length block
    → Returns (recv s block at len) (Got s block at len)
recv-Got s block at len pos fits = recv_of s block at len s.kernel.recv_replies pos fits refl

-- ===== src/Buffer/Refine.antt =====
-- The buffer refines a queue of bytes, over every sequence of calls.
use netter.Common.{
  ℕ, ◌+◌, ◌≤◌, ◌≡◌, refl, ap, ap₂, ◌∙◌, List, [], ◌∷◌, ◌++◌, Option, some, none, Result, ok, ◌>>=◌,
  Returns, Returns-bind, Returns-value, arith, length, take, drop, take-all, take-min, drop-min,
  take-append, length-take,
}
use netter.Common.Memory.{unwritten, length-unwritten}
use netter.Buffer.{SimpleBuffer, write, read, reset_offset}
use netter.Buffer.Queue.{IsValid, unread, HasRoom, length-unread, Wrote, write-Wrote}
use netter.Buffer.Reading.{DidRead, read-DidRead, read_out-DidRead, reset_offset_lem}

-- A client's call: `Write`, `Read` into a block of `n` bytes, `Read(NULL, n)`, and `ResetOffset`.
pub data Op : Type 0 where
  put : List ℕ → Op
  get : ℕ → Op
  skip : ℕ → Op
  tidy : Op

-- The bytes that a `Read` put at the start of its block.
unfoldable copied : Option (List ℕ) → ℕ → List ℕ
copied none k = []
copied (some block) k = take k block

-- A call, and the bytes that the client gets from it.
pub call : SimpleBuffer → Op → Result (SimpleBuffer × List ℕ)
call b (put bytes) = do (b', _) ← write b (some bytes) (length bytes); ok (b', [])
call b (get n) = do (b', out, k) ← read b (some (unwritten n 0)) n; ok (b', copied out k)
call b (skip n) = do (b', _, _) ← read b none n; ok (b', [])
call b tidy = do b' ← reset_offset b; ok (b', [])

pub run : SimpleBuffer → List Op → Result (List (List ℕ))
run b [] = ok []
run b (op ∷ ops) = do (b', out) ← call b op; outs ← run b' ops; ok (out ∷ outs)

-- The specification: a list of bytes, oldest first.
unfoldable pub spec_call : List ℕ → Op → List ℕ × List ℕ
spec_call q (put bytes) = (q ++ bytes, [])
spec_call q (get n) = (drop n q, take n q)
spec_call q (skip n) = (drop n q, [])
spec_call q tidy = (q, [])

unfoldable pub spec_run : List ℕ → List Op → List (List ℕ)
spec_run q [] = []
spec_run q (op ∷ ops) = (spec_call q op).1 ∷ spec_run (spec_call q op).0 ops

-- How many bytes the calls put in.
abbrev pub puts : List Op → ℕ
puts [] = 0
puts (put bytes ∷ ops) = length bytes + puts ops
puts (get n ∷ ops) = puts ops
puts (skip n ∷ ops) = puts ops
puts (tidy ∷ ops) = puts ops

abbrev Called : SimpleBuffer → Op → List Op → SimpleBuffer × List ℕ → Type 0
Called b op ops (b', out) =
    IsValid b'
    × ((unread b', out) ≡ spec_call (unread b) op)
    × (b'.write_offset + puts ops ≤ b.write_offset + puts (op ∷ ops))

call-Called :
    {b : SimpleBuffer} (op : Op) (ops : List Op)
    → IsValid b
    → HasRoom b (puts (op ∷ ops))
    → Returns (call b op) (Called b op ops)
unfolding call spec_call copied
call-Called {b} (put bytes) ops v room =
    Returns-bind (Wrote b bytes (length bytes)) (Called b (put bytes) ops) _ _
      (write-Wrote bytes (length bytes) v (omega arith) (omega arith))
      λ (b', n) (_, v', u, w, _). (
        v',
        ap {B = List ℕ × List ℕ} (λ q. (q, []))
            (u ∙ ap (◌++◌ (unread b)) (take-all (length bytes) bytes (omega arith))),
        omega arith,
      )
call-Called {b} (get n) ops v room =
    Returns-bind
      (λ (b', out, k).
        (out ≡ some (take k (unread b) ++ drop k (unwritten n 0))) × DidRead b n b' k)
      (Called b (get n) ops) (read b (some (unwritten n 0)) n) _
      (read_out-DidRead (unwritten n 0) n v (omega (arith, length-unwritten n 0)))
      λ (b', out, k) (o, (e, v', u, w)). (
        v',
        ap₂ {C = List ℕ × List ℕ} (λ q taken. (q, taken))
            (u ∙ ap (λ i. drop i (unread b)) e ∙ drop-min n (unread b))
            (ap (λ x. copied x k) o
              ∙ take-append k (take k (unread b)) (drop k (unwritten n 0))
                  (omega (arith, e, length-take k (unread b)))
              ∙ ap (λ i. take i (unread b)) e
              ∙ take-min n (unread b)),
        omega arith,
      )
call-Called {b} (skip n) ops v room =
    Returns-bind (λ (b', out, k). (out ≡ none) × DidRead b n b' k) (Called b (skip n) ops)
      (read b none n) _ (read-DidRead n v)
      λ (b', out, k) (_, (e, v', u, w)). (
        v',
        ap {B = List ℕ × List ℕ} (λ q. (q, []))
            (u ∙ ap (λ i. drop i (unread b)) e ∙ drop-min n (unread b)),
        omega arith,
      )
call-Called {b} tidy ops v room =
    Returns-bind
      (λ b'.
        IsValid b'
        × (unread b' ≡ unread b)
        × (b'.read_offset ≡ 0)
        × (b'.write_offset ≡ length (unread b)))
      (Called b tidy ops) _ _ (reset_offset_lem v)
      λ b' (v', u, _, w).
        (v', ap {B = List ℕ × List ℕ} (λ q. (q, [])) u, omega (arith, length-unread v, v.reads))

-- From a valid buffer, no sequence of writes, reads, with a block to copy to or without, and resets tells the buffer from the queue of
-- its unread bytes, and none faults, as long as the bytes put in keep every size below 2 ^ 32.
pub run_refines :
    {b : SimpleBuffer} (ops : List Op)
    → IsValid b
    → HasRoom b (puts ops)
    → run b ops ≡ ok (spec_run (unread b) ops)
unfolding run spec_run
run_refines [] v room = refl
run_refines {b} (op ∷ ops) v room =
    let (r, e, c) = Returns-value (Called b op ops) (call b op) (call-Called op ops v room) in
    rw (e, run_refines {b = r.0} ops c.0 (omega (arith, c.2)))
      (ap {B = Result (List (List ℕ))} (λ (s : List ℕ × List ℕ). ok (s.1 ∷ spec_run s.0 ops)) c.1)

-- ===== src/Conn/Arrival.antt =====
-- `_RecvData`: what has arrived is appended to the input buffer, however it was cut into answers.
use netter.Common.{
  ℕ, zero, suc, ◌+◌, ◌-◌, ◌≤◌, ◌<◌, ◌^◌, ◌==◌, ==_iff, ◌≡◌, refl, ap, ap₂, sym, ◌∙◌, List, [], ◌∷◌,
  ◌++◌, append_assoc, Option, none, some, Result, Returns, Returns-bind, Returns-mono, arith,
  length, take, drop, length-append, take-all, ltb, Bool-cases, inl, inr, u32, if◌then◌else◌,
}
use netter.Common.Memory.{window-memcpy, length-memcpy}
use netter.Buffer.{SimpleBuffer, inc_write_offset, get_writable_len}
use netter.Buffer.Queue.{IsValid, unread, HasRoom, extend_lem}
use netter.Socket.{BaseSocket}
use netter.Socket.Receiving.{Got, recv-Got, arriving, answers, count, following, following-pos}
use netter.Conn.{BaseConn, read_buf_size}
use netter.Conn.Receive.{make_room, received_some, recv_loop, recv_data}

make_room_lem :
    {b : SimpleBuffer}
    → IsValid b
    → HasRoom b 2048
    → IsValid (make_room b)
      × (unread (make_room b) ≡ unread b)
      × ((make_room b).write_offset ≡ b.write_offset)
      × (b.write_offset + 2048 ≤ (make_room b).alloc_size)
unfolding make_room
make_room_lem {b} v room = elim (Bool-cases (ltb (get_writable_len b) read_buf_size)) [
  | inl low ↦ rw low (let (v', u, w, r, fits) = extend_lem 2048 v room in (v', u, w, fits))
  | inr enough ↦ rw enough (v, refl, refl, ground arith)
]

-- The input buffer with `bytes` stored behind what was written.
stored_lem :
    {b : SimpleBuffer} (bytes block : List ℕ) (w : ℕ)
    → IsValid b
    → b.write_offset + length bytes ≤ b.alloc_size
    → w ≡ b.write_offset + length bytes
    → block
      ≡ take b.write_offset b.buffer ++ (bytes ++ drop (b.write_offset + length bytes) b.buffer)
    → IsValid (record b { buffer = block; write_offset = w })
      × (unread (record b { buffer = block; write_offset = w }) ≡ unread b ++ bytes)
unfolding unread
stored_lem {b} bytes block w v fits ew e = (
  record {
    block =
        ap length e'
        ∙ length-memcpy b.buffer b.write_offset bytes n (omega arith) (omega arith)
        ∙ v.block;
    reads = omega arith;
    writes = omega arith;
    word = v.word;
  },
  ap₂ (λ k q. take (k - b.read_offset) (drop b.read_offset q)) ew e'
      ∙ window-memcpy b.buffer b.write_offset bytes n b.read_offset v.reads (omega arith)
          (omega arith)
      ∙ ap (λ q. take (b.write_offset - b.read_offset) (drop b.read_offset b.buffer) ++ q) all,
)
  where
    n : ℕ
    n = length bytes

    all : take n bytes ≡ bytes
    all = take-all n bytes (omega arith)

    e' :
        block ≡ take b.write_offset b.buffer ++ (take n bytes ++ drop (b.write_offset + n) b.buffer)
    e' =
        e
        ∙ ap (λ q. take b.write_offset b.buffer ++ (q ++ drop (b.write_offset + n) b.buffer))
            (sym all)

-- The bytes `a` have arrived: only the socket, the input buffer and the tick have changed, nothing
-- was sent, and `kReadBufSize` bytes are free behind what has been written.
abbrev pub Arrived : BaseConn → ℕ → List ℕ → BaseConn → Type 0
Arrived c now a c' =
    IsValid c'.in_buf
    × (unread c'.in_buf ≡ unread c.in_buf ++ a)
    × (c'.in_buf.write_offset ≡ c.in_buf.write_offset + length a)
    × (c'.in_buf.write_offset + 2048 ≤ length c'.in_buf.buffer)
    × (c'.base_socket.kernel.wire ≡ c.base_socket.kernel.wire)
    × (c'.last_recv_tick ≡ (if length a == 0 then c.last_recv_tick else now))
    × (c' ≡ record c {
      base_socket = c'.base_socket;
      in_buf = c'.in_buf;
      last_recv_tick = c'.last_recv_tick;
    })

pub nothing : (bytes : List ℕ) → length bytes ≡ 0 → bytes ≡ []
nothing [] e = refl
nothing (b ∷ bs) e = absurd (omega (arith, e))

-- The round that ends the loop.
stopped-Arrived :
    (c : BaseConn) (now : ℕ) (s' : BaseSocket) (block' : List ℕ) (ret : Option ℕ)
    → IsValid c.in_buf
    → c.in_buf.write_offset + 2048 ≤ c.in_buf.alloc_size
    → Got c.base_socket c.in_buf.buffer c.in_buf.write_offset 2048 (s', block', ret)
    → count ret ≡ 0
    → Arrived c now
        (arriving c.base_socket.kernel.recv_replies)
        (record c { base_socket = s'; in_buf = record (c.in_buf) { buffer = block' } })
stopped-Arrived c now s' block' ret v free (wire, le, (bytes, len, stored, all), less) z =
    let empty : arriving c.base_socket.kernel.recv_replies ≡ [] =
      all ∙ ap₂ (λ q k. q ++ following k s'.kernel.recv_replies) (nothing bytes (len ∙ z)) z in
    let (v', u) =
      stored_lem {b = c.in_buf} bytes block' c.in_buf.write_offset v (omega (arith, z, len))
        (omega (arith, z, len))
        (stored
          ∙ ap
              (λ k.
                take c.in_buf.write_offset c.in_buf.buffer
                ++ (bytes ++ drop (c.in_buf.write_offset + k) c.in_buf.buffer))
              (sym len)) in
    rw empty (
      v',
      u ∙ ap (λ q. unread c.in_buf ++ q) (nothing bytes (len ∙ z)),
      omega arith,
      omega (arith, v'.block),
      wire,
      refl,
      refl,
    )

-- The state in which the loop goes on.
more_arrived : BaseConn → ℕ → BaseSocket → List ℕ → ℕ → BaseConn
more_arrived c now s' block' n = record c {
  base_socket = s';
  in_buf = inc_write_offset (record (c.in_buf) { buffer = block' }) n;
  last_recv_tick = now;
}

-- What it gets before the loop ends comes behind what this round got.
step-Arrived :
    (c : BaseConn) (now : ℕ) (s' : BaseSocket) (block' bytes a : List ℕ) (c' : BaseConn)
    → 0 < length bytes
    → s'.kernel.wire ≡ c.base_socket.kernel.wire
    → c.in_buf.write_offset + length bytes < 2 ^ 32
    → unread (more_arrived c now s' block' (length bytes)).in_buf ≡ unread c.in_buf ++ bytes
    → Arrived (more_arrived c now s' block' (length bytes)) now a c'
    → Arrived c now (bytes ++ a) c'
unfolding more_arrived inc_write_offset
step-Arrived c now s' block' bytes a c' pos wire small u (v, u', w', free, wire', tick, frame) = (
  v,
  u' ∙ ap (λ q. q ++ a) u ∙ append_assoc (unread c.in_buf) bytes a,
  omega (arith, length-append bytes a),
  free,
  wire' ∙ wire,
  tick ∙ ground (arith, length-append bytes a),
  frame,
)

roomy : BaseConn → BaseConn
roomy c = record c { in_buf = make_room c.in_buf }

roomy-Arrived :
    (c : BaseConn) (now : ℕ) (a : List ℕ) (c' : BaseConn)
    → IsValid c.in_buf
    → HasRoom c.in_buf 2048
    → Arrived (roomy c) now a c'
    → Arrived c now a c'
unfolding roomy
roomy-Arrived c now a c' valid room (v, u, w, free, wire, tick, frame) =
    let (_, u', w', _) = make_room_lem valid room in
    (v, u ∙ ap (λ q. q ++ a) u', w ∙ ap (λ k. k + length a) w', free, wire, tick, frame)

-- What the rounds after one that got `n` bytes do.
abbrev Rest : BaseConn → ℕ → BaseSocket → List ℕ → (BaseConn → Result BaseConn) → Type 0
Rest c now s' block' continue =
    (n : ℕ)
    → 0 < n
    → n + length (arriving s'.kernel.recv_replies)
      ≡ length (arriving c.base_socket.kernel.recv_replies)
    → IsValid (more_arrived c now s' block' n).in_buf
    → Returns (continue (more_arrived c now s' block' n))
        (Arrived (more_arrived c now s' block' n) now (arriving s'.kernel.recv_replies))

going-Arrived :
    (c : BaseConn) (now : ℕ) (s' : BaseSocket) (block' bytes : List ℕ)
    (continue : BaseConn → Result BaseConn)
    → IsValid c.in_buf
    → c.in_buf.write_offset + length bytes ≤ c.in_buf.alloc_size
    → 0 < length bytes
    → s'.kernel.wire ≡ c.base_socket.kernel.wire
    → block'
      ≡ take c.in_buf.write_offset c.in_buf.buffer
        ++ (bytes ++ drop (c.in_buf.write_offset + length bytes) c.in_buf.buffer)
    → arriving c.base_socket.kernel.recv_replies ≡ bytes ++ arriving s'.kernel.recv_replies
    → Rest c now s' block' continue
    → Returns
        (continue (more_arrived c now s' block' (length bytes)))
        (Arrived c now (arriving c.base_socket.kernel.recv_replies))
unfolding more_arrived inc_write_offset
going-Arrived c now s' block' bytes continue v fits pos wire stored all rec =
    let (v', u) =
      stored_lem {b = c.in_buf} bytes block' (u32 (c.in_buf.write_offset + length bytes)) v fits
        (omega arith) stored in
    rw all (
      Returns-mono
        (Arrived (more_arrived c now s' block' (length bytes)) now
          (arriving s'.kernel.recv_replies))
        _ _
        (λ c'.
          step-Arrived c now s' block' bytes (arriving s'.kernel.recv_replies) c' pos wire
            (omega arith) u)
        (rec (length bytes) pos
          (omega (arith, ap length all, length-append bytes (arriving s'.kernel.recv_replies))) v'))

-- One round after the answer.
received_some-Arrived :
    (c : BaseConn) (now : ℕ) (s' : BaseSocket) (block' : List ℕ) (ret : Option ℕ)
    (continue : BaseConn → Result BaseConn)
    → IsValid c.in_buf
    → c.in_buf.write_offset + 2048 ≤ c.in_buf.alloc_size
    → Got c.base_socket c.in_buf.buffer c.in_buf.write_offset 2048 (s', block', ret)
    → (0 < count ret → Rest c now s' block' continue)
    → Returns
        (received_some c now (s', block', ret) continue)
        (Arrived c now (arriving c.base_socket.kernel.recv_replies))
unfolding received_some more_arrived
received_some-Arrived c now s' block' none continue v free g rec =
    stopped-Arrived c now s' block' none v free g refl
received_some-Arrived c now s' block' (some n) continue v free
      (wire, le, (bytes, len, stored, all), less) rec =
    elim (Bool-cases (n == 0)) [
      | inl z ↦ rw z (
          stopped-Arrived c now s' block' (some n) v free
            (wire, le, (bytes, len, stored, all), less) ((==_iff n 0).0 z))
      | inr more ↦
          let pos : 0 < n = ground arith in
          rw more (
            rw (← len) (
              going-Arrived c now s' block' bytes continue v (omega (arith, len, le))
                (omega (arith, len, pos)) wire
                (stored
                  ∙ ap
                      (λ k.
                        take c.in_buf.write_offset c.in_buf.buffer
                        ++ (bytes ++ drop (c.in_buf.write_offset + k) c.in_buf.buffer))
                      (sym len))
                (all ∙ ap (λ q. bytes ++ q) (following-pos n _ pos)) (rec pos)))
    ]

recv_loop-Arrived :
    (fuel : ℕ) (c : BaseConn) (now : ℕ)
    → answers c.base_socket.kernel.recv_replies < fuel
    → IsValid c.in_buf
    → HasRoom c.in_buf (length (arriving c.base_socket.kernel.recv_replies) + 2048)
    → Returns (recv_loop fuel c now) (Arrived c now (arriving c.base_socket.kernel.recv_replies))
unfolding recv_loop roomy more_arrived inc_write_offset
recv_loop-Arrived zero c now enough v room = absurd (omega (arith, enough))
recv_loop-Arrived (suc fuel) c now enough v room =
    let (v1, u1, w1, free) = make_room_lem v (omega (arith, room)) in
    Returns-bind (Got c.base_socket (roomy c).in_buf.buffer (roomy c).in_buf.write_offset 2048)
      (Arrived c now (arriving c.base_socket.kernel.recv_replies)) _ _
      (recv-Got c.base_socket (roomy c).in_buf.buffer (roomy c).in_buf.write_offset 2048
        (omega arith) (omega (arith, w1, free, v1.block)))
      λ (s', block', ret) g.
        Returns-mono (Arrived (roomy c) now (arriving c.base_socket.kernel.recv_replies)) _ _
          (λ c'. roomy-Arrived c now _ c' v (omega (arith, room)))
          (received_some-Arrived (roomy c) now s' block' ret _ v1 (omega (arith, w1, free)) g
            λ more n pos sum v2.
              recv_loop-Arrived fuel (more_arrived (roomy c) now s' block' n) now
                (omega (arith, g.3 more, enough)) v2 (omega (arith, w1, free, v1.word, room, sum)))

-- `_RecvData` returns, with what has arrived appended to the input buffer, in order, however the
-- kernel cut it into answers and whatever error or closing ended it; nothing else of the connection
-- changes but the tick, if anything came. Behind the bytes at least 2048 are free, so that a byte
-- can be stored there. No size may leave 32 bits.
pub recv_data-Arrived :
    (c : BaseConn) (now : ℕ)
    → IsValid c.in_buf
    → HasRoom c.in_buf (length (arriving c.base_socket.kernel.recv_replies) + 2048)
    → Returns (recv_data c now) (Arrived c now (arriving c.base_socket.kernel.recv_replies))
unfolding recv_data
recv_data-Arrived c now v room = recv_loop-Arrived _ c now (omega arith) v room

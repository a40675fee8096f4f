-- ===== src/BlockSocket.antt =====
-- src/netter/block_socket.cpp: a blocking client over the calls of the kernel. A handle is a
-- descriptor, `none` for NETLIB_INVALID_HANDLE; a kernel whose list of answers has run out fails, as a
-- call with a timeout does.
pub mod Sends
pub mod Receives
pub mod Connects
mod Tests
use netter.Common.{
  ℕ, zero, suc, ◌+◌, ◌-◌, ◌*◌, ◌/◌, ◌%◌, ◌^◌, Bool, true, false, List, [], ◌∷◌, ◌++◌, Option, none,
  some, Result, ok, fault, ◌>>=◌, if◌then◌else◌, ltb, ◌==◌, min, length, take, ◌≡◌, refl,
}
use netter.Common.Memory.{memcpy}
use netter.Resource.{ℤ, pos, negsuc}
use netter.Socket.{
  Kernel, SendReply, took, would_block, failed, RecvReply, got, recv_error, bytes_at, left_over,
}
use netter.Socket.Address.{Resolver, set_addr}
use netter.Socket.Opening.{
  Descriptor, ErrorNumber, in_progress, other, set_no_delay, set_nonblock, shut,
}

abbrev pub k_max_socket_buf_size : ℕ
k_max_socket_buf_size = 128 * 1024

-- The room of an `fd_set`, FD_SETSIZE.
abbrev pub fd_setsize : ℕ
fd_setsize = 1024

-- `FD_SET(fd, &fdset)`, which stores outside the set for a descriptor beyond it.
unfoldable pub fd_set : ℕ → Result ℕ
fd_set fd = if ltb fd fd_setsize then ok fd else fault

-- `wait_connect_complete(sock_fd, timeout)`, where `select` finds the socket writable or not, and
-- SO_ERROR is `error`: whether it returns 0.
unfoldable pub wait_connect_complete : ℕ → Bool → ℕ → Result Bool
wait_connect_complete sock_fd writable error = do
  _ ← fd_set sock_fd
  ok (if writable then error == 0 else false)

-- What the system answers to `connect_with_timeout`: a new descriptor or INVALID_SOCKET, whether the
-- options are set, the answer of `connect`, and then what `select` and SO_ERROR give.
pub record Dialing : Type 0 where
  pub socket : Option Descriptor
  pub no_delay_done : Bool
  pub nonblock_done : Bool
  pub connect : Option ErrorNumber
  pub writable : Bool
  pub error : ℕ
  pub block_done : Bool

-- The descriptor as it is left, and the answer.
abbrev pub Dialed : Type 0
Dialed = Option Descriptor × Option ℕ

-- Whether the connection is made, after `connect`.
unfoldable pub is_made : Dialing → ℕ → Option ErrorNumber → Result Bool
unfolding wait_connect_complete
is_made a fd none = ok true
is_made a fd (some in_progress) = wait_connect_complete fd a.writable a.error
is_made a fd (some _) = ok false

abbrev dialed : Bool → ℕ → Descriptor → Descriptor → Dialed
dialed made fd blocking closed = if made then (some blocking, some fd) else (some closed, none)

-- `connect_with_timeout(server_ip, port, timeout)`.
unfoldable pub connect_with_timeout : Resolver → Dialing → List ℕ → ℕ → Result Dialed
connect_with_timeout net a server_ip port = elim a.socket [
  | none ↦ ok (none, none)
  | some fresh ↦ do
    let d = set_nonblock a.nonblock_done (set_no_delay a.no_delay_done fresh) true
    let towards = record d { peer = some (set_addr net server_ip port) }
    made ← is_made a fresh.number a.connect
    ok (dialed made fresh.number (set_nonblock a.block_done towards false) (shut towards))
]

-- `is_socket_closed(handle)`, where `select` gives `readable`, `none` for an error, and FIONREAD gives
-- `avail`, `none` for an error.
unfoldable pub is_socket_closed : Option ℕ → Option Bool → Option ℕ → Result Bool
is_socket_closed none readable avail = ok true
is_socket_closed (some handle) readable avail = do
  _ ← fd_set handle
  ok (elim readable [
    | none ↦ true
    | some found ↦ elim avail [ none ↦ found | some n ↦ if found then n == 0 else false ]
  ])

-- An `int` by its 32-bit pattern, and C's remainder of it by 1000.
unfoldable pub int_rem : ℕ → ℤ
int_rem n =
    if ltb n (2 ^ 31)
    then pos (n % 1000)
    else let r = (2 ^ 32 - n) % 1000 in if r == 0 then pos 0 else negsuc (r - 1)

unfoldable pub times_thousand : ℤ → ℤ
times_thousand (pos n) = pos (n * 1000)
times_thousand (negsuc n) = negsuc (n * 1000 + 999)

-- The `timeval` of `block_set_timeout(handle, timeout)`: seconds and microseconds.
unfoldable pub timeout_value : ℕ → ℕ × ℤ
timeout_value timeout = (timeout / 1000, times_thousand (int_rem timeout))

-- `block_set_timeout`, where the two calls of `setsockopt` succeed or not.
unfoldable pub block_set_timeout : Bool → Bool → ℕ
block_set_timeout receive_done send_done = if receive_done then if send_done then 0 else 1 else 1

-- `send(handle, …)` of these bytes: `none` is negative.
unfoldable pub raw_send : Kernel → List ℕ → Kernel × Option ℕ
raw_send k bytes = elim k.send_replies [
  | [] ↦ (k, none)
  | reply ∷ rest ↦ elim reply [
    | took n ↦ (
      record k { send_replies = rest; wire = k.wire ++ take n bytes },
      some (min n (length bytes)),
    )
    | would_block ↦ (record k { send_replies = rest }, none)
    | failed ↦ (record k { send_replies = rest }, none)
  ]
]

-- What a round of `block_send_all` does after its `send`: `later n` is the rest of the loop.
unfoldable pub after_send : Kernel × Option ℕ → ℕ → (ℕ → Result (Kernel × ℕ)) → Result (Kernel × ℕ)
after_send (k, none) remain later = ok (k, remain)
after_send (k, some n) remain later = if n == 0 then ok (k, remain) else later n

-- The loop of `block_send_all`, with `buf` in `block`: the kernel, and what remains.
unfoldable pub send_loop : ℕ → Kernel → List ℕ → ℕ → ℕ → Result (Kernel × ℕ)
send_loop zero k block offset remain = fault
send_loop (suc fuel) k block offset remain =
    let round = bytes_at block offset (min remain k_max_socket_buf_size) >>= λ bytes.
    let sent = raw_send k bytes in
    after_send sent remain (λ n. send_loop fuel sent.0 block (offset + n) (remain - n)) in
    if remain == 0 then ok (k, remain) else round

-- `block_send_all(handle, buf, len)` for a length that is not negative, with `buf` at offset `at`.
unfoldable pub block_send_all : Option ℕ → Kernel → List ℕ → ℕ → ℕ → Result (Kernel × ℕ)
block_send_all none k block at len = ok (k, 0)
block_send_all (some handle) k block at len = do
  (k', remain) ← send_loop (len + 1) k block at len
  ok (k', len - remain)

-- `recv(handle, buf, len, 0)` with `buf` at offset `at`: `none` is negative.
unfoldable pub raw_recv : Kernel → List ℕ → ℕ → ℕ → Result (Kernel × List ℕ × Option ℕ)
raw_recv k block at len = elim k.recv_replies [
  | [] ↦ ok (k, block, none)
  | reply ∷ rest ↦ elim reply [
    | recv_error ↦ ok (record k { recv_replies = rest }, block, none)
    | got bytes ↦ do
      let n = min (length bytes) len
      stored ← memcpy block at bytes n
      ok (record k { recv_replies = left_over bytes len rest }, stored, some n)
  ]
]

-- What a round of `block_recv_all` does after its `recv`: `later n` is the rest of the loop. -1 is
-- `negsuc 0`.
unfoldable pub after_recv :
    Kernel × List ℕ × Option ℕ → (ℕ → Result (Kernel × List ℕ × ℤ)) → Result (Kernel × List ℕ × ℤ)
after_recv (k, block, none) later = ok (k, block, negsuc 0)
after_recv (k, block, some n) later = if n == 0 then ok (k, block, pos 0) else later n

-- The loop of `block_recv_all`.
unfoldable pub recv_loop : ℕ → Kernel → List ℕ → ℕ → ℕ → ℕ → Result (Kernel × List ℕ × ℤ)
recv_loop zero k block at received_len len = fault
recv_loop (suc fuel) k block at received_len len =
    let round = raw_recv k block (at + received_len) (len - received_len) >>= λ received.
    after_recv received (λ n. recv_loop fuel received.0 received.1 at (received_len + n) len) in
    if received_len == len then ok (k, block, pos received_len) else round

-- `block_recv_all(handle, buf, len)`, with `buf` at offset `at`.
unfoldable pub block_recv_all : Option ℕ → Kernel → List ℕ → ℕ → ℕ → Result (Kernel × List ℕ × ℤ)
block_recv_all none k block at len = ok (k, block, pos 0)
block_recv_all (some handle) k block at len = recv_loop (len + 1) k block at 0 len

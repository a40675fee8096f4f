-- ===== src/Socket.antt =====
-- src/netter/base_socket.h and src/netter/base_socket.cpp: a socket's state, and its calls of the kernel. The
-- kernel is the lists of what its calls will answer, in order, and of the bytes it took.
pub mod Sending
pub mod Receiving
pub mod Address
pub mod Opening
pub mod Accept
pub mod Events
mod Tests
use netter.Common.{
  ℕ, ◌+◌, ◌-◌, Bool, false, List, [], ◌∷◌, ◌++◌, Option, none, some, Result, ok, fault, ◌>>=◌, min,
  if◌then◌else◌, ltb, leb, ◌==◌, length, take, drop,
}
use netter.Common.Memory.{memcpy}

-- The unnamed enum of SOCKET_STATE_….
pub data SocketState : Type 0 where
  idle listening connecting connected peer_closing closing : SocketState

-- What one `send` answers: how many bytes it takes at most, EWOULDBLOCK or EINPROGRESS, or another
-- error.
pub data SendReply : Type 0 where
  took : ℕ → SendReply
  would_block failed : SendReply

-- What one `recv` answers: the bytes that have arrived (none of them means that the peer has
-- closed), or an error. Bytes that it is not asked for wait for the next call.
pub data RecvReply : Type 0 where
  got : List ℕ → RecvReply
  recv_error : RecvReply

-- A kernel whose list has run out answers that it would block. `wire` is what it took so far.
pub record Kernel : Type 0 where
  pub send_replies : List SendReply
  pub recv_replies : List RecvReply
  pub wire : List ℕ
  pub is_open : Bool

-- An address is the codes of its text. `socket` is the descriptor, `none` for INVALID_SOCKET;
-- `callback`, `callback_data` and the event loop are known by numbers.
pub record BaseSocket : Type 0 where
  pub kernel : Kernel
  pub state : SocketState
  pub handle : ℕ
  pub socket : Option ℕ
  pub event_loop : Option ℕ
  pub callback : ℕ
  pub callback_data : ℕ
  pub remote_ip : List ℕ
  pub remote_port : ℕ
  pub local_ip : List ℕ
  pub local_port : ℕ
  pub ref_count : ℕ

-- The `n` bytes at `data + at`, which `send` reads.
unfoldable pub bytes_at : List ℕ → ℕ → ℕ → Result (List ℕ)
bytes_at block at n = if leb (at + n) (length block) then ok (take n (drop at block)) else fault

-- `send(m_socket, …)` of these bytes, and what `Send` makes of the answer: `none` is -1.
unfoldable pub kernel_send : Kernel → List ℕ → Kernel × Option ℕ
kernel_send k bytes = elim k.send_replies [
  | [] ↦ (k, some 0)
  | reply ∷ rest ↦ elim reply [
    | took n ↦ (
      record k { send_replies = rest; wire = k.wire ++ take n bytes },
      some (min n (length bytes)),
    )
    | would_block ↦ (record k { send_replies = rest }, some 0)
    | failed ↦ (record k { send_replies = rest }, none)
  ]
]

-- `BaseSocket::Send(buf, len)` on Linux, with `buf` at offset `at` of its block.
unfoldable pub send : BaseSocket → List ℕ → ℕ → ℕ → Result (BaseSocket × Option ℕ)
send s block at len = do
  bytes ← bytes_at block at len
  let sent = kernel_send s.kernel bytes
  ok (record s { kernel = sent.0 }, sent.1)

-- The answers that are left when `len` of `bytes` have been taken.
unfoldable pub left_over : List ℕ → ℕ → List RecvReply → List RecvReply
left_over bytes len rest = if ltb len (length bytes) then got (drop len bytes) ∷ rest else rest

-- `BaseSocket::Recv(buf, len)` with `buf` at offset `at` of its block: the socket, the block and the
-- answer, `none` for -1. A zero marks the socket as closed by its peer.
unfoldable pub recv : BaseSocket → List ℕ → ℕ → ℕ → Result (BaseSocket × List ℕ × Option ℕ)
recv s block at len = elim s.kernel.recv_replies [
  | [] ↦ ok (s, block, none)
  | reply ∷ rest ↦ elim reply [
    | recv_error ↦ ok (record s { kernel = record (s.kernel) { recv_replies = rest } }, block, none)
    | got bytes ↦ do
      let n = min (length bytes) len
      stored ← memcpy block at bytes n
      ok (
        record s {
          kernel = record (s.kernel) { recv_replies = left_over bytes len rest };
          state = if n == 0 then peer_closing else s.state;
        },
        stored,
        some n,
      )
  ]
]

-- `BaseSocket::Close()`. Removing the socket from its event loop is `EventLoop`'s part.
unfoldable pub close : BaseSocket → BaseSocket
close s = record s {
  state = closing;
  kernel = record (s.kernel) { is_open = false };
  ref_count = s.ref_count - 1;
}

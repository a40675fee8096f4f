-- ===== src/BlockSocket/Tests.antt =====
-- The blocking client of src/netter/block_socket.cpp at concrete values.
use netter.Common.{
  ℕ, ◌<◌, ◌≤◌, ◌↔◌, ◌^◌, ◌≡◌, refl, List, [], ◌∷◌, ◌++◌, take, drop, length, leb, none, some,
  Returns, arith, true, false, ok,
}
use netter.Common.Memory.{memcpy}
use netter.Resource.{pos, negsuc}
use netter.Socket.{Kernel, took, got, left_over, bytes_at}
use netter.Socket.Address.{Resolver}
use netter.Socket.Opening.{Descriptor, in_progress}
use netter.Socket.Receiving.{arriving}
use netter.BlockSocket.{
  block_send_all, block_recv_all, send_loop, after_send, raw_send, recv_loop, after_recv, raw_recv,
  Dialing, connect_with_timeout, timeout_value, is_socket_closed, fd_set,
}
use netter.BlockSocket.Sends.{sendable, block_send_all-sends}
use netter.BlockSocket.Receives.{Filled, block_recv_all-Filled}
use netter.BlockSocket.Connects.{
  DialedTo, succeeds, connect_with_timeout-DialedTo, Accepted, timeout_value-Accepted,
}

abbrev kernel : Kernel
kernel = record {
  send_replies = took 2 ∷ took 9 ∷ [];
  recv_replies = got (1 ∷ 2 ∷ []) ∷ got (3 ∷ 4 ∷ []) ∷ got [] ∷ [];
  wire = [];
  is_open = true;
}

abbrev buffer : List ℕ
buffer = 7 ∷ 8 ∷ 9 ∷ []

-- Three bytes are sent in two pieces, and three are received in two.
sends_three :
    block_send_all (some 5) kernel buffer 0 3
    ≡ ok (record kernel { send_replies = []; wire = buffer }, 3)
unfolding block_send_all send_loop after_send raw_send bytes_at
sends_three = refl

receives_three :
    block_recv_all (some 5) kernel buffer 0 3
    ≡ ok (record kernel { recv_replies = got (4 ∷ []) ∷ got [] ∷ [] }, 1 ∷ 2 ∷ 3 ∷ [], pos 3)
unfolding block_recv_all recv_loop after_recv raw_recv left_over memcpy
receives_three = refl

block_send_all-sends_example : Returns (block_send_all (some 5) kernel buffer 0 3) (λ (k', ret).
    (ret ≡ sendable kernel.send_replies 3)
    × (ret ≤ 3)
    × (k'.wire ≡ kernel.wire ++ take ret (drop 0 buffer)))
block_send_all-sends_example = block_send_all-sends 5 kernel buffer 0 3 (omega arith)

block_recv_all-Filled_example :
    Returns
      (block_recv_all (some 5) kernel buffer 0 3)
      (Filled (leb 3 (length (arriving kernel.recv_replies))) kernel.recv_replies buffer 0 3 3)
block_recv_all-Filled_example = block_recv_all-Filled 5 kernel buffer 0 3 (omega arith)

abbrev names : Resolver
names = record { inet_addr = λ text. 2130706433; gethostbyname = λ text. some 1 }

abbrev fresh : Descriptor
fresh = record {
  number = 5;
  is_open = true;
  flags = 2;
  reuse_addr = false;
  no_delay = false;
  requested = none;
  backlog = none;
  peer = none;
}

abbrev dialing : Dialing
dialing = record {
  socket = some fresh;
  no_delay_done = true;
  nonblock_done = true;
  connect = some in_progress;
  writable = true;
  error = 0;
  block_done = true;
}

connect_with_timeout-DialedTo_example :
    Returns
      (connect_with_timeout names dialing (b'a' ∷ []) 8008)
      (DialedTo (succeeds (some in_progress) true 0) fresh)
connect_with_timeout-DialedTo_example =
    connect_with_timeout-DialedTo names dialing (b'a' ∷ []) 8008 fresh refl refl (omega arith) refl

timeout_value-Accepted_example :
    Accepted 3000000000 (timeout_value 3000000000) ↔ (3000000000 < 2 ^ 31)
timeout_value-Accepted_example = timeout_value-Accepted 3000000000 (omega arith)

negative_micros : timeout_value 3000000001 ≡ (3000000, negsuc 294999)
unfolding timeout_value netter.BlockSocket.int_rem netter.BlockSocket.times_thousand
negative_micros = refl

-- ===== src/Conn.antt =====
-- src/netter/base_conn.h and src/netter/base_conn.cpp: a connection, its buffers and its callbacks. An `int`
-- length is not negative, but in `send_negative`. `now` is what `get_tick_count()` gives during a call.
pub mod Delivery
pub mod Receive
pub mod Arrival
pub mod Parse
pub mod Dispatch
pub mod Reading
pub mod Chunks
pub mod Flush
pub mod Fuel
pub mod Waiting
pub mod Callback
pub mod Sender
pub mod EndToEnd
mod Tests
use netter.Common.{
  ℕ, zero, suc, ◌+◌, ◌-◌, ◌*◌, ◌^◌, Bool, true, false, not, ◌&&◌, List, [], ◌∷◌, ◌++◌, Option, none,
  some, Result, ok, throw, fault, ◌>>=◌, ErrorCode, wrong_pkt_len, parse_failed, unknown_pkt_id,
  if◌then◌else◌, ltb, ◌==◌, u64, length, drop,
}
use netter.Buffer.{
  SimpleBuffer, simple_buffer, get_readable_len, get_writable_len, extend, inc_write_offset,
}
use netter.Buffer
use netter.Packet.{PktBase, get_buffer, get_length, read_packet, read_pkt_header}
use netter.Socket.{BaseSocket}
use netter.Socket

abbrev pub max_send_size : ℕ
max_send_size = 131072

abbrev pub read_buf_size : ℕ
read_buf_size = 2048

-- `handle` is `none` for NETLIB_INVALID_HANDLE. `pending_inited` is `IsInited()` of the pending event
-- managers, and `in_conn_map` whether `conn_map` holds this connection. `deleted` is for a connection
-- that was deleted: what it was then. As long as it is not, its `ref_count` is positive.
pub record BaseConn : Type 0 where
  pub base_socket : BaseSocket
  pub handle : Option ℕ
  pub busy : Bool
  pub is_open : Bool
  pub heartbeat_interval : ℕ
  pub conn_timeout : ℕ
  pub peer_ip : List ℕ
  pub peer_port : ℕ
  pub in_buf : SimpleBuffer
  pub out_buf : SimpleBuffer
  pub wait_pkt_list : List PktBase
  pub last_send_tick : ℕ
  pub last_recv_tick : ℕ
  pub ref_count : ℕ
  pub deleted : Bool
  pub pending_inited : Bool
  pub in_conn_map : Bool

abbrev pub heart_beat_interval : ℕ
heart_beat_interval = 2000

abbrev pub default_conn_timeout : ℕ
default_conn_timeout = 5000

-- `BaseConn()`. The socket and the port are not set, and may be anything.
abbrev pub base_conn : BaseSocket → ℕ → Bool → ℕ → BaseConn
base_conn any_socket any_port pending_inited now = record {
  base_socket = any_socket;
  handle = none;
  busy = false;
  is_open = false;
  heartbeat_interval = heart_beat_interval;
  conn_timeout = default_conn_timeout;
  peer_ip = [];
  peer_port = any_port;
  in_buf = simple_buffer;
  out_buf = simple_buffer;
  wait_pkt_list = [];
  last_send_tick = now;
  last_recv_tick = now;
  ref_count = 1;
  deleted = false;
  pending_inited = pending_inited;
  in_conn_map = false;
}

-- How many bytes one call of the socket is asked to send.
unfoldable pub send_size : ℕ → ℕ
send_size remain = if ltb max_send_size remain then max_send_size else remain

-- One round of the loop of `Send` after the socket's answer: `if (ret <= 0) break`, else go on.
unfoldable pub sent_some :
    BaseSocket × Option ℕ
    → ℕ
    → ℕ
    → (BaseSocket → ℕ → ℕ → Result (BaseSocket × ℕ × ℕ))
    → Result (BaseSocket × ℕ × ℕ)
sent_some (s, none) offset remain continue = ok (s, offset, remain)
sent_some (s, some n) offset remain continue =
    if n == 0 then ok (s, offset, remain) else continue s (offset + n) (remain - n)

-- The loop of `Send`. A round that goes on sends a byte at least, so `remain` rounds are enough.
unfoldable pub send_loop : ℕ → BaseSocket → List ℕ → ℕ → ℕ → Result (BaseSocket × ℕ × ℕ)
unfolding sent_some
send_loop zero s bytes offset remain = ok (s, offset, remain)
send_loop (suc fuel) s bytes offset remain = if remain == 0 then ok (s, offset, remain) else do
  answer ← Socket.send s bytes offset (send_size remain)
  sent_some answer offset remain (λ s' o r. send_loop fuel s' bytes o r)

-- What `Send` leaves when the loop has stopped: the rest goes to the buffer.
unfoldable pub send_rest : BaseConn → List ℕ → BaseSocket × ℕ × ℕ → Result BaseConn
send_rest c bytes (s, offset, remain) =
    if ltb 0 remain
    then (do
      (b, _) ← Buffer.write c.out_buf (some (drop offset bytes)) remain
      ok (record c { base_socket = s; out_buf = b; busy = true }))
    else ok (record c { base_socket = s })

unfoldable pub send : BaseConn → ℕ → List ℕ → ℕ → Result (BaseConn × ℕ)
send c now bytes len =
    let c0 = record c { last_send_tick = now } in
    if not c.is_open
    then ok (c0, 0)
    else if c.busy
    then (do (b, _) ← Buffer.write c.out_buf (some bytes) len; ok (record c0 { out_buf = b }, len))
    else do
      stopped ← send_loop len c.base_socket bytes 0 len
      c1 ← send_rest c0 bytes stopped
      ok (c1, len)

-- `Send` for a negative `int` whose bits are those of `len`: no loop is run, and where the connection is
-- busy, `Write` takes the bits for a `uint32_t` again. What is returned is the bits too.
unfoldable pub send_negative : BaseConn → ℕ → List ℕ → ℕ → Result (BaseConn × ℕ)
send_negative c now bytes len =
    let c0 = record c { last_send_tick = now } in
    if not c.is_open
    then ok (c0, 0)
    else if c.busy
    then (do (b, _) ← Buffer.write c.out_buf (some bytes) len; ok (record c0 { out_buf = b }, len))
    else ok (c0, len)

-- `SendPkt`, whose `uint32_t` length becomes an `int`.
unfoldable pub send_pkt : BaseConn → ℕ → PktBase → Result (BaseConn × ℕ)
unfolding send_negative
send_pkt c now pkt =
    if ltb (get_length pkt) (2 ^ 31)
    then send c now (get_buffer pkt) (get_length pkt)
    else send_negative c now (get_buffer pkt) (get_length pkt)

-- One round of the loop of `OnWrite` after the socket's answer.
unfoldable pub flushed_some :
    BaseSocket × Option ℕ
    → SimpleBuffer
    → (BaseSocket → SimpleBuffer → Result (BaseSocket × SimpleBuffer))
    → Result (BaseSocket × SimpleBuffer)
flushed_some (s, none) b continue = ok (s, b)
flushed_some (s, some n) b continue =
    if n == 0 then ok (s, b) else do (b', _, _) ← Buffer.read b none n; continue s b'

-- The loop of `OnWrite`, with `GetReadBuffer()` as what is sent; `GetReadableLen()` is below 2 ^ 31, as an
-- `int` is. As many rounds as there are bytes
-- to send are enough.
unfoldable pub flush_loop : ℕ → BaseSocket → SimpleBuffer → Result (BaseSocket × SimpleBuffer)
unfolding flushed_some
flush_loop zero s b = ok (s, b)
flush_loop (suc fuel) s b = if get_readable_len b == 0 then ok (s, b) else do
  answer ← Socket.send s (drop b.read_offset b.buffer) 0 (send_size (get_readable_len b))
  flushed_some answer b (λ s' b'. flush_loop fuel s' b')

unfoldable pub on_write : BaseConn → Result BaseConn
on_write c = if not c.busy then ok c else do
  (s, b) ← flush_loop (get_readable_len c.out_buf) c.base_socket c.out_buf
  b' ← Buffer.reset_offset b
  ok (record c {
    base_socket = s;
    out_buf = b';
    busy = if get_readable_len b' == 0 then false else c.busy;
  })

-- `Close()`, which `OnClose()` calls. Its `ReleaseRef()` deletes the connection with its last reference.
unfoldable pub close : BaseConn → BaseConn
close c = elim c.handle [
  | none ↦ c
  | some handle ↦ record c {
    in_conn_map = if c.pending_inited then false else c.in_conn_map;
    base_socket = Socket.close c.base_socket;
    handle = none;
    is_open = false;
    ref_count = c.ref_count - 1;
    deleted = c.ref_count - 1 == 0;
  }
]

unfoldable pub on_close : BaseConn → BaseConn
on_close c = close c

unfoldable pub on_timer : BaseConn → ℕ → BaseConn
on_timer c curr_tick =
    if ltb (u64 (c.last_recv_tick + c.conn_timeout)) curr_tick then close c else c

-- ===== src/Socket/Accept/Routing.antt =====
-- Every connection that src/netter/base_socket.cpp accepts gets a socket, a handle and a loop.
use netter.Common.{
  some, ℕ, ◌+◌, ◌%◌, ◌≡◌, ◌&&◌, not, true, List, [], ◌∷◌, length, if◌then◌else◌, ◌==◌,
}
use netter.Loop.{has_bit, socket_connect_cb, socket_add_conn, EventLoop, RegisterEvent, add_event}
use netter.Socket.{BaseSocket, connected}
use netter.Socket.Address.{dotted}
use netter.Socket.Opening.{Descriptor, o_nonblock}
use netter.Socket.Accept.{Incoming, Process, update, arrival}

-- The loop of a handle, with `n` I/O threads.
abbrev pub loop_of : ℕ → ℕ → ℕ
loop_of n handle = if n == 0 then 0 else handle % n + 1

-- What the socket of a connection is to be: connected, with its peer's address as text, and with the
-- listener's callback; and its event, for reading, failures, OnConnect and the table of sockets.
abbrev pub for_peer : ℕ → BaseSocket → ℕ → Incoming → BaseSocket
for_peer n listener handle a = record {
  kernel = a.kernel;
  state = connected;
  handle = handle;
  socket = some a.descriptor.number;
  event_loop = some (loop_of n handle);
  callback = listener.callback;
  callback_data = listener.callback_data;
  remote_ip = dotted a.ip;
  remote_port = a.port;
  local_ip = [];
  local_port = 0;
  ref_count = 1;
}

abbrev pub event_of : ℕ → Incoming → RegisterEvent
event_of handle a = record {
  fd = a.descriptor.number;
  socket_event = 1 + 4 + socket_connect_cb + socket_add_conn;
  base_socket = some handle;
}

-- Its descriptor, where the options can be set: as it was, but without delay and non-blocking.
abbrev pub ready_for : Incoming → Descriptor
ready_for a =
    let d = a.descriptor in
    let flags =
      if a.nonblock_done && not (has_bit d.flags o_nonblock)
      then d.flags + o_nonblock
      else d.flags in
    record d { flags = flags; no_delay = if a.no_delay_done then true else d.no_delay }

-- The sockets for these connections, with handles from `handle` on.
unfoldable pub sockets : ℕ → BaseSocket → ℕ → List Incoming → List (BaseSocket × Descriptor)
sockets n listener handle [] = []
sockets n listener handle (a ∷ rest) =
    (for_peer n listener handle a, ready_for a) ∷ sockets n listener (handle + 1) rest

-- A loop that is given, in order, the events of the connections whose handles are its own. The main
-- loop adds them at once; the others find them in their lists.
unfoldable pub given : ℕ → ℕ → ℕ → List Incoming → EventLoop → EventLoop
given n l handle [] el = el
given n l handle (a ∷ rest) el =
    given n l (handle + 1) rest
      (if l == loop_of n handle then add_event el (l == 0) (event_of handle a) else el)

-- The process after one connection.
abbrev after_one : ℕ → Process → Incoming → Process
after_one n p a =
    let l = loop_of n p.allocator in
    record {
      loops = update p.loops l (add_event (p.loops l) (l == 0) (arrival p.allocator a));
      allocator = p.allocator + 1;
    }

abbrev pub IsRouted :
    ℕ → BaseSocket → Process → List Incoming → Process × List (BaseSocket × Descriptor) → Type 0
IsRouted n listener p incoming (p', made) =
    (made ≡ sockets n listener p.allocator incoming)
    × ((l : ℕ) → p'.loops l ≡ given n l p.allocator incoming (p.loops l))
    × (p'.allocator ≡ p.allocator + length incoming)

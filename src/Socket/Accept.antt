-- ===== src/Socket/Accept.antt =====
-- `_AcceptNewSocket` of src/netter/base_socket.cpp. It runs on the main loop, whose number is 0; the
-- loop of I/O thread `i` is i + 1.
pub mod Routing
use netter.Common.{
  ℕ, zero, suc, ◌+◌, ◌%◌, List, [], ◌∷◌, ◌++◌, Option, none, some, Result, ok, fault, ◌>>=◌,
  if◌then◌else◌, ◌==◌, Bool, true, false, ◌≡◌, refl,
}
use netter.Loop.{EventLoop, RegisterEvent, add_event, member}
use netter.Resource.{IoThreadResource, pos, get_io_resource}
use netter.Resource.Handles.{allocate}
use netter.Socket.{BaseSocket, Kernel, connected}
use netter.Socket.Address.{dotted}
use netter.Socket.Opening.{Descriptor, set_nonblock, set_no_delay}

-- One answer of `accept`: the new descriptor, its peer's address and port, whether the options can be
-- set, and what the new socket's kernel will answer.
pub record Incoming : Type 0 where
  pub descriptor : Descriptor
  pub ip : ℕ
  pub port : ℕ
  pub no_delay_done : Bool
  pub nonblock_done : Bool
  pub kernel : Kernel

-- The loops, and the allocator of handles.
pub record Process : Type 0 where
  pub loops : ℕ → EventLoop
  pub allocator : ℕ

unfoldable pub update : (ℕ → EventLoop) → ℕ → EventLoop → ℕ → EventLoop
update loops k el j = if j == k then el else loops j

-- The new socket, as the setters leave it, for a listener.
unfoldable pub accepted : BaseSocket → ℕ → ℕ → Incoming → BaseSocket
accepted listener handle event_loop a = record {
  kernel = a.kernel;
  state = connected;
  handle = handle;
  socket = some a.descriptor.number;
  event_loop = some event_loop;
  callback = listener.callback;
  callback_data = listener.callback_data;
  remote_ip = dotted a.ip;
  remote_port = a.port;
  local_ip = [];
  local_port = 0;
  ref_count = 1;
}

-- SOCKET_READ | SOCKET_EXCEP | SOCKET_CONNECT_CB | SOCKET_ADD_CONN.
unfoldable pub arrival : ℕ → Incoming → RegisterEvent
arrival handle a = record { fd = a.descriptor.number; socket_event = 29; base_socket = some handle }

-- `SetNoDelay(fd)` and `SetNonblock(fd, true)`.
unfoldable pub set_up : Incoming → Descriptor
set_up a = set_nonblock a.nonblock_done (set_no_delay a.no_delay_done a.descriptor) true

-- The body of the loop, for one answer of `accept`. A loop of the constructor that runs out of `fuel`,
-- and a loop that is not there, are a fault.
unfoldable pub accept_one :
    ℕ
    → IoThreadResource ℕ
    → BaseSocket
    → Process
    → Incoming
    → Result (Process × BaseSocket × Descriptor)
accept_one fuel g_event_loops listener p a =
    elim (allocate fuel (λ h. member h (p.loops 0).socket_map) p.allocator) [
      | none ↦ fault
      | some made ↦
          (get_io_resource g_event_loops (pos made.0) >>= λ found. elim found [
            | none ↦ fault
            | some l ↦ ok (
              record {
                loops = update p.loops l (add_event (p.loops l) (l == 0) (arrival made.0 a));
                allocator = made.1;
              },
              accepted listener made.0 l a,
              set_up a,
            )
          ])
    ]

-- The loop, for the answers that come before INVALID_SOCKET.
unfoldable pub accept_new_socket :
    ℕ
    → IoThreadResource ℕ
    → BaseSocket
    → Process
    → List Incoming
    → Result (Process × List (BaseSocket × Descriptor))
accept_new_socket fuel g_event_loops listener p [] = ok (p, [])
accept_new_socket fuel g_event_loops listener p (a ∷ rest) = do
  (p', s, d) ← accept_one fuel g_event_loops listener p a
  (p'', made) ← accept_new_socket fuel g_event_loops listener p' rest
  ok (p'', (s, d) ∷ made)

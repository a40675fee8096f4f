-- ===== src/Socket/Opening.antt =====
-- `Listen` and `Connect` of src/netter/base_socket.cpp, with the options that they set. What the
-- system answers is given; a descriptor carries what was asked of it.
pub mod Clean
use netter.Common.{
  ℕ, ◌+◌, ◌-◌, ◌≡◌, refl, Bool, true, false, List, Option, none, some, arith, if◌then◌else◌, Result,
  ok, ◌>>=◌, fault, ◌⊎◌, inl, inr,
}
use netter.Loop.{RegisterEvent, has_bit}
use netter.Resource.{IoThreadResource, ℤ, pos, get_io_resource}
use netter.Socket.{BaseSocket, SocketState, listening, connecting}
use netter.Socket.Address.{Resolver, set_addr, get_bind_addr}

-- A socket of the system. `requested` is the address that `bind` was given, `peer` that of `connect`.
pub record Descriptor : Type 0 where
  pub number : ℕ
  pub is_open : Bool
  pub flags : ℕ
  pub reuse_addr : Bool
  pub no_delay : Bool
  pub requested : Option (ℕ × ℕ)
  pub backlog : Option ℕ
  pub peer : Option (ℕ × ℕ)

abbrev pub o_nonblock : ℕ
o_nonblock = 2048

-- `SetNonblock(fd, nonblock)`, where `done` says whether the second `fcntl` succeeds.
unfoldable pub set_nonblock : Bool → Descriptor → Bool → Descriptor
set_nonblock false d nonblock = d
set_nonblock true d nonblock = record d {
  flags =
      if nonblock
      then if has_bit d.flags o_nonblock then d.flags else d.flags + o_nonblock
      else if has_bit d.flags o_nonblock
      then d.flags - o_nonblock
      else d.flags;
}

-- `SetReuseAddr(fd)` and `SetNoDelay(fd)`.
unfoldable pub set_reuse_addr : Bool → Descriptor → Descriptor
set_reuse_addr false d = d
set_reuse_addr true d = record d { reuse_addr = true }

unfoldable pub set_no_delay : Bool → Descriptor → Descriptor
set_no_delay false d = d
set_no_delay true d = record d { no_delay = true }

-- `close(m_socket)`.
abbrev pub shut : Descriptor → Descriptor
shut d = record d { is_open = false }

pub data ErrorNumber : Type 0 where
  in_progress would_block other : ErrorNumber

-- `_IsBlock(errno)`.
unfoldable pub is_block : ErrorNumber → Bool
is_block in_progress = true
is_block would_block = true
is_block other = false

-- What the system answers: `socket` is `none` for INVALID_SOCKET, `connect` is `none` for success,
-- and `name` is the answer of `getsockname`.
pub record Answers : Type 0 where
  pub socket : Option Descriptor
  pub reuse_done : Bool
  pub nonblock_done : Bool
  pub no_delay_done : Bool
  pub bind_done : Bool
  pub listen_done : Bool
  pub connect : Option ErrorNumber
  pub name : ℕ × ℕ

-- The socket afterwards, its descriptor, the event that its loop is given, and the answer: a handle,
-- or `none` for NETLIB_INVALID_HANDLE.
pub record Opened : Type 0 where
  pub socket : BaseSocket
  pub descriptor : Option Descriptor
  pub event : Option RegisterEvent
  pub answer : Option ℕ

abbrev refused : BaseSocket → Option Descriptor → Opened
refused s d = record { socket = s; descriptor = d; event = none; answer = none }

abbrev pub bound : Descriptor → ℕ × ℕ → Descriptor
bound d addr = record d { requested = some addr }

-- The end of `Listen` and of `Connect`, for a descriptor that works.
unfoldable pub opened : BaseSocket → Descriptor → ℕ × ℕ → SocketState → ℕ → ℕ → Opened
opened s d name state event_loop socket_event = record {
  socket = record s {
    local_ip = (get_bind_addr name).0;
    local_port = (get_bind_addr name).1;
    state = state;
    event_loop = some event_loop;
  };
  descriptor = some d;
  event = some (record { fd = d.number; socket_event = socket_event; base_socket = some s.handle });
  answer = some s.handle;
}

-- `Listen(server_ip, port, callback, callback_data)`; `main_loop` is `get_main_event_loop()`.
unfoldable pub listen : Resolver → Answers → ℕ → BaseSocket → List ℕ → ℕ → ℕ → ℕ → Opened
listen net answers main_loop s server_ip port callback callback_data =
    let named = record s {
      local_ip = server_ip;
      local_port = port;
      callback = callback;
      callback_data = callback_data;
      socket = none;
    } in
    elim answers.socket [
      | none ↦ refused named none
      | some fresh ↦
          let s' = record named { socket = some fresh.number } in
          let d =
            set_nonblock answers.nonblock_done (set_reuse_addr answers.reuse_done fresh) true in
          let at_port = bound d (set_addr net server_ip port) in
          if answers.bind_done
          then if answers.listen_done
            then opened s' (record at_port { backlog = some 1024 }) answers.name listening main_loop
                21
            else refused s' (some (shut at_port))
          else refused s' (some (shut d))
    ]

-- `bind` to the local address that the caller of `Connect` gives, if it gives one; `none` says that
-- it fails.
unfoldable pub bind_local :
    Resolver → Answers → Option (List ℕ × ℕ) → Descriptor → Option Descriptor
bind_local net answers none d = some d
bind_local net answers (some local) d =
    if answers.bind_done then some (bound d (set_addr net local.0 local.1)) else none

-- `connect`, and whether `Connect` goes on.
unfoldable pub goes_on : Option ErrorNumber → Bool
goes_on none = true
goes_on (some error) = is_block error

-- `Connect(server_ip, port, callback, callback_data, local_ip, local_port)`, where `loops` is
-- `g_event_loops`.
unfoldable pub connect :
    Resolver
    → Answers
    → IoThreadResource ℕ
    → BaseSocket
    → List ℕ
    → ℕ
    → ℕ
    → ℕ
    → Option (List ℕ × ℕ)
    → Result Opened
connect net answers loops s server_ip port callback callback_data local =
    let named = record s {
      remote_ip = server_ip;
      remote_port = port;
      callback = callback;
      callback_data = callback_data;
      socket = none;
    } in
    elim answers.socket [
      | none ↦ ok (refused named none)
      | some fresh ↦
          let s' = record named { socket = some fresh.number } in
          let d =
            set_no_delay answers.no_delay_done (set_nonblock answers.nonblock_done fresh true) in
          elim (bind_local net answers local d) [
            | none ↦ ok (refused s' (some (shut d)))
            | some ready ↦
                let towards = record ready { peer = some (set_addr net server_ip port) } in
                if goes_on answers.connect
                then (get_io_resource loops (pos s.handle) >>= λ event_loop. elim event_loop [
                  | none ↦ fault
                  | some l ↦ ok (opened s' towards answers.name connecting l 23)
                ])
                else ok (refused s' (some (shut towards)))
          ]
    ]

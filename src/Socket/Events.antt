-- ===== src/Socket/Events.antt =====
-- The callbacks of a socket in src/netter/base_socket.cpp: what the application is told, and what an
-- event of epoll calls (`Start` of src/netter/event_loop.cpp).
pub mod Order
pub mod Closing
use netter.Common.{
  ℕ, Bool, true, false, ◌&&◌, List, [], ◌∷◌, ◌++◌, Option, none, some, if◌then◌else◌, ◌==◌, ◌≡◌,
  refl,
}
use netter.Socket.{SocketState, listening, connecting, connected, peer_closing, closing, BaseSocket}

-- NETLIB_MSG_…, with the tick that OnTimer passes on.
pub data NetMsg : Type 0 where
  connect confirm read write close : NetMsg
  timer : ℕ → NetMsg

abbrev pub is_listening : SocketState → Bool
is_listening listening = true
is_listening _ = false

abbrev pub is_closing : SocketState → Bool
is_closing closing = true
is_closing _ = false

abbrev pub is_peer_closing : SocketState → Bool
is_peer_closing peer_closing = true
is_peer_closing _ = false

-- What the kernel answers in `OnWrite`: SO_ERROR, and the two names where they can be had.
pub record WriteAnswers : Type 0 where
  pub error : ℕ
  pub local_name : Option (ℕ × ℕ)
  pub peer_name : Option (ℕ × ℕ)

-- The socket is connected to itself.
unfoldable pub is_loop : WriteAnswers → Bool
is_loop a = elim a.local_name [
  | none ↦ false
  | some local ↦ elim a.peer_name [
    | none ↦ false
    | some peer ↦ (local.0 == peer.0) && (local.1 == peer.1)
  ]
]

-- The bits of an event of epoll, with what the kernel answers to the calls it leads to: FIONREAD for
-- EPOLLIN, `none` where `ioctl` fails, and `WriteAnswers` for EPOLLOUT.
pub record EpollEvent : Type 0 where
  pub epollin : Option (Option ℕ)
  pub epollout : Option WriteAnswers
  pub failure : Bool  -- EPOLLPRI, EPOLLERR or EPOLLHUP

pub data Notice : Type 0 where
  added : Notice
  event : EpollEvent → Notice
  tick : ℕ → Notice

-- `App` is what the callback and `_AcceptNewSocket` change besides the socket.
module _ {App : Type 0} (callback : NetMsg → BaseSocket × App → BaseSocket × App)
    (accept_new_socket : BaseSocket × App → BaseSocket × App) where
  -- The socket and the application afterwards, and the messages that the callback was given.
  abbrev pub Told : Type 0
  Told = (BaseSocket × App) × List NetMsg

  abbrev pub tell : NetMsg → BaseSocket × App → Told
  tell msg w = (callback msg w, msg ∷ [])

  abbrev pub then_do : Told → (BaseSocket × App → Told) → Told
  then_do (w, told) f = let r = f w in (r.0, told ++ r.1)

  abbrev with_state : SocketState → BaseSocket × App → BaseSocket × App
  with_state state (s, app) = (record s { state = state }, app)

  unfoldable pub on_connect : BaseSocket × App → Told
  on_connect w = tell connect w

  -- What `OnRead` does after it has told of bytes to read.
  unfoldable pub after_read : BaseSocket × App → Told
  after_read w = if is_peer_closing w.0.state then tell close w else (w, [])

  -- `OnRead`, where FIONREAD gives `avail`.
  unfoldable pub on_read : Option ℕ → BaseSocket × App → Told
  unfolding after_read
  on_read avail w = if is_listening w.0.state then (accept_new_socket w, []) else elim avail [
    | none ↦ tell close w
    | some n ↦ if n == 0 then tell close w else then_do (tell read w) after_read
  ]

  unfoldable pub on_close : BaseSocket × App → Told
  on_close w = if is_closing w.0.state then (w, []) else tell close (with_state closing w)

  -- `OnWrite` in a state.
  unfoldable pub write_at : SocketState → WriteAnswers → BaseSocket × App → Told
  unfolding on_close
  write_at connecting a w =
      if a.error == 0
      then if is_loop a then on_close w else tell confirm (with_state connected w)
      else tell close w
  write_at connected a w = tell write w
  write_at _ a w = (w, [])

  unfoldable pub on_write : WriteAnswers → BaseSocket × App → Told
  on_write a w = write_at w.0.state a w

  unfoldable pub on_timer : ℕ → BaseSocket × App → Told
  on_timer curr_tick w = if is_listening w.0.state then (w, []) else tell (timer curr_tick) w

  unfoldable pub at_input : Option (Option ℕ) → BaseSocket × App → Told
  at_input none w = (w, [])
  at_input (some avail) w = on_read avail w

  unfoldable pub at_output : Option WriteAnswers → BaseSocket × App → Told
  at_output none w = (w, [])
  at_output (some a) w = on_write a w

  unfoldable pub at_failure : Bool → BaseSocket × App → Told
  at_failure false w = (w, [])
  at_failure true w = on_close w

  unfoldable pub after_input : EpollEvent → BaseSocket × App → Told
  unfolding at_output at_failure
  after_input e w = then_do (at_output e.epollout w) (at_failure e.failure)

  -- What `Start` calls for one event of epoll.
  unfoldable pub on_event : EpollEvent → BaseSocket × App → Told
  unfolding at_input after_input
  on_event e w = then_do (at_input e.epollin w) (after_input e)

  -- What a socket can be called with: that a loop has added it, an event of epoll, and a tick.
  unfoldable pub on_notice : Notice → BaseSocket × App → Told
  on_notice added w = on_connect w
  on_notice (event e) w = on_event e w
  on_notice (tick t) w = on_timer t w

  -- The calls of a socket one after the other, and what the callback is told.
  unfoldable pub on_notices : List Notice → BaseSocket × App → Told
  on_notices [] w = (w, [])
  on_notices (n ∷ rest) w = then_do (on_notice n w) (on_notices rest)

  -- The same as long as the socket is not closed: `Close` takes it from its loop.
  unfoldable pub attended : List Notice → BaseSocket × App → Told
  attended [] w = (w, [])
  attended (n ∷ rest) w =
      let later = then_do (on_notice n w) (attended rest) in
      if is_closing w.0.state then (w, []) else later

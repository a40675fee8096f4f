-- ===== src/Socket/Tests.antt =====
-- The sockets of src/netter/base_socket.cpp at concrete values.
use netter.Common.{
  ℕ, zero, suc, ◌+◌, ◌≤◌, ◌≡◌, refl, inl, inr, true, false, List, [], ◌∷◌, none, some, Returns,
  arith, length,
}
use netter.Loop.{EventLoop}
use netter.Resource.{init}
use netter.Socket.{
  SocketState, BaseSocket, Kernel, idle, listening, connecting, closing, peer_closing,
}
use netter.Socket.Address.{Resolver, octet, dotted, read_dotted, dotted-fits}
use netter.Socket.Opening.{Descriptor, Answers, listen, connect, in_progress}
use netter.Socket.Opening.Clean.{WorksIf, can_listen, can_connect, open-WorksIf}
use netter.Socket.Accept.{Incoming, Process}
use netter.Socket.Events.{
  NetMsg, close, read, confirm, write, timer, Notice, event, tick, WriteAnswers, on_notices,
  on_notice, on_event, at_input, at_output, at_failure, after_input, after_read, on_read, on_write,
  write_at, on_close, on_timer, is_loop, attended,
}
use netter.Socket.Events.Order.{Later, orderly, messages-orderly}
use netter.Socket.Events.Closing.{Ends, attended-Ends}

abbrev quiet_kernel : Kernel
quiet_kernel = record { send_replies = []; recv_replies = []; wire = []; is_open = true }

abbrev new_socket : BaseSocket
new_socket = record {
  kernel = quiet_kernel;
  state = idle;
  handle = 3;
  socket = none;
  event_loop = none;
  callback = 0;
  callback_data = 0;
  remote_ip = [];
  remote_port = 0;
  local_ip = [];
  local_port = 0;
  ref_count = 1;
}

-- 127.0.0.1
dotted_local : dotted 2130706433 ≡ b'1' ∷ b'2' ∷ b'7' ∷ b'.' ∷ b'0' ∷ b'.' ∷ b'0' ∷ b'.' ∷ b'1' ∷ []
unfolding dotted octet
dotted_local = refl

dotted-fits_example :
    (length (dotted 3232235777) ≤ 15) × (read_dotted 0 0 (dotted 3232235777) ≡ 3232235777)
dotted-fits_example = dotted-fits 3232235777 (omega arith)

abbrev names : Resolver
names = record { inet_addr = λ text. 2130706433; gethostbyname = λ text. none }

abbrev fresh : Descriptor
fresh = record {
  number = 9;
  is_open = true;
  flags = 2;
  reuse_addr = false;
  no_delay = false;
  requested = none;
  backlog = none;
  peer = none;
}

abbrev answers : Answers
answers = record {
  socket = some fresh;
  reuse_done = true;
  nonblock_done = true;
  no_delay_done = true;
  bind_done = true;
  listen_done = true;
  connect = some in_progress;
  name = (2130706433, 8008);
}

is_fresh : (d : Descriptor) → answers.socket ≡ some d → d.is_open ≡ true
is_fresh d e = ground arith

open-WorksIf_example :
    WorksIf
      (can_listen answers)
      new_socket
      listening
      21
      (listen names answers 0 new_socket (b'a' ∷ []) 8008 1 2)
    × Returns
        (connect names answers (init 0 (λ i. i + 1) 4) new_socket (b'a' ∷ []) 8008 1 2 none)
        (WorksIf (can_connect answers none) new_socket connecting 23)
open-WorksIf_example = open-WorksIf names answers 4 new_socket (b'a' ∷ []) 8008 1 2 none is_fresh

abbrev empty_loop : EventLoop
empty_loop = record { watched = []; socket_map = []; register_event_list = []; connects = [] }

abbrev main_loop : EventLoop
main_loop = record {
  watched = 4 ∷ [];
  socket_map = 1 ∷ [];
  register_event_list = [];
  connects = [];
}

abbrev loops : ℕ → EventLoop
loops zero = main_loop
loops (suc i) = empty_loop

abbrev process : Process
process = record { loops = loops; allocator = 2 }

abbrev from_peer : ℕ → Incoming
from_peer port = record {
  descriptor = fresh;
  ip = 2130706433;
  port = port;
  no_delay_done = true;
  nonblock_done = true;
  kernel = quiet_kernel;
}

abbrev listener : BaseSocket
listener = record new_socket { state = listening }

-- A callback that finds the peer's end when it reads, and closes the socket when it is told to. Its
-- own state is the number of messages.
abbrev after_msg : NetMsg → SocketState → SocketState
after_msg close s = closing
after_msg read s = peer_closing
after_msg _ s = s

abbrev told_to : NetMsg → BaseSocket × ℕ → BaseSocket × ℕ
told_to msg (s, n) = (record s { state = after_msg msg s.state }, n + 1)

told_to-Later : (msg : NetMsg) (w : BaseSocket × ℕ) → Later w.0.state (told_to msg w).0.state
told_to-Later close w = inr (inr refl)
told_to-Later read w = inr (inl refl)
told_to-Later NetMsg.connect w = inl refl
told_to-Later confirm w = inl refl
told_to-Later write w = inl refl
told_to-Later (timer t) w = inl refl

abbrev writable : WriteAnswers
writable = record { error = 0; local_name = some (1, 2); peer_name = some (1, 3) }

-- The connection is made, a tick passes, and then bytes come with the peer's end.
abbrev life : List Notice
life =
    event (record { epollin = none; epollout = some writable; failure = false })
    ∷ tick 1000
    ∷ event (record { epollin = some (some 5); epollout = some writable; failure = true })
    ∷ []

abbrev making : BaseSocket × ℕ
making = (record new_socket { state = connecting }, 0)

abbrev no_accept : BaseSocket × ℕ → BaseSocket × ℕ
no_accept w = w

life_told : (on_notices told_to no_accept life making).1 ≡ confirm ∷ timer 1000 ∷ read ∷ close ∷ []
unfolding on_notices on_notice on_event at_input at_output at_failure after_input after_read on_read
    on_write write_at on_close on_timer is_loop
life_told = refl

messages-orderly_example : orderly false (on_notices told_to no_accept life making).1 ≡ true
messages-orderly_example =
    messages-orderly told_to no_accept told_to-Later (λ w. refl) life false making refl

attended-Ends_example : Ends (attended told_to no_accept life making)
attended-Ends_example = attended-Ends told_to no_accept (λ w. refl) life making

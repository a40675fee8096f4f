-- ===== src/Conn/Tests.antt =====
-- A connection of src/netter/base_conn.cpp, and two with a network between them, at concrete kernels.
use netter.Common.{
  ℕ, ◌≡◌, ◌+◌, ◌≤◌, refl, List, [], ◌∷◌, ◌++◌, ok, none, some, true, false, Result, unknown_pkt_id,
  Returns, arith, take, drop,
}
use netter.Buffer.{simple_buffer}
use netter.Buffer.Queue.{simple_buffer-IsValid, unread-simple_buffer, unread}
use netter.Socket.{
  bytes_at, kernel_send, BaseSocket, SendReply, RecvReply, took, would_block, got, recv_error,
  connected,
}
use netter.Socket.Receiving.{arriving}
use netter.Packet.{PktHeader, PktBase}
use netter.Packet.Header.{header_bytes}
use netter.Packet.Sequence.{frames, IsHeartbeat, unknown}
use netter.Stream.Word.{bytes16, bytes32, write_uint16, write_uint32}
use netter.Conn.{
  BaseConn, base_conn, send, on_write, send_loop, sent_some, send_rest, send_size, send_pkt,
  flush_loop, flushed_some,
}
use netter.Conn.Delivery.{IsSound, delivered, Delivers, send-Delivers}
use netter.Conn.Waiting.{on_connect, on_confirm, wires, lengths, on_confirm-Delivers}
use netter.Packet.{
  get_length, get_buffer, pkt_base, with_buffer, write_header, set_version, set_flag, set_seq_no,
  pkt_heart_beat,
}
use netter.Packet.RoundTrip.{stamped}
use netter.Common.Memory.{unwritten, realloc, memcpy}
use netter.Buffer.{extend, inc_write_offset, reset_offset}
use netter.Buffer
use netter.Socket
use netter.Conn.Fuel.{send_loop_enough}
use netter.Conn.Callback.{conn_callback, Remains, timed_out, conn_callback-GoneIf}
use netter.Socket.Events.{NetMsg, timer}
use netter.Conn.Parse.{Handled, on_read}
use netter.Conn.Dispatch.{Serves, serve}
use netter.Conn.Reading.{Settled, on_read-Settled}
use netter.Conn.Chunks.{on_reads, stream, Waits, on_reads-serve}
use netter.Conn.Sender.{
  send_beat, SenderCall, beats, writable, on_calls, headers, on_connect-IsReady,
}
use netter.Conn.EndToEnd.{session, sent_wire, Passed, session-Passed}

abbrev socket : List SendReply → BaseSocket
socket replies = record {
  kernel = record { send_replies = replies; recv_replies = []; wire = []; is_open = true };
  state = connected;
  handle = 7;
  socket = some 5;
  event_loop = some 0;
  callback = 1;
  callback_data = 2;
  remote_ip = [];
  remote_port = 80;
  local_ip = [];
  local_port = 0;
  ref_count = 1;
}

-- The kernel takes two bytes and would block then.
abbrev slow : BaseConn
slow = record (base_conn (socket (took 2 ∷ would_block ∷ [])) 80 false 0) {
  handle = some 7;
  is_open = true;
}

slow-IsSound : IsSound slow
slow-IsSound = record { out_valid = simple_buffer-IsValid; idle_empty = λ e. unread-simple_buffer }

send-Delivers_example :
    Returns
      (send slow 5 (1 ∷ 2 ∷ 3 ∷ []) 3)
      (λ (c', n). (n ≡ 3) × Delivers slow (take 3 (1 ∷ 2 ∷ 3 ∷ [])) c')
unfolding simple_buffer
send-Delivers_example =
    send-Delivers 5 (1 ∷ 2 ∷ 3 ∷ []) 3 slow-IsSound (omega arith) (omega arith) refl

-- Two bytes wait, and the kernel takes one of them.
abbrev waiting : BaseConn
waiting = record slow {
  base_socket = socket (took 1 ∷ would_block ∷ []);
  busy = true;
  out_buf = record { buffer = 5 ∷ 6 ∷ 7 ∷ []; alloc_size = 3; write_offset = 3; read_offset = 1 };
}

send_loop_enough_example :
    send_loop 3 (socket (took 2 ∷ [])) (1 ∷ 2 ∷ 3 ∷ []) 0 3
    ≡ send_loop 9 (socket (took 2 ∷ [])) (1 ∷ 2 ∷ 3 ∷ []) 0 3
send_loop_enough_example =
    send_loop_enough 3 9 (socket (took 2 ∷ [])) (1 ∷ 2 ∷ 3 ∷ []) 0 3 (omega arith) (omega arith)

abbrev with_arrivals : List RecvReply → BaseConn
with_arrivals replies = record slow {
  base_socket = record (socket []) {
    kernel = record ((socket []).kernel) { recv_replies = replies };
  };
}

abbrev beat : ℕ → PktHeader
beat seq_no = record { length = 16; version = 1; flag = 0; pkt_id = 1; seq_no = seq_no }

beat-IsHeartbeat : (seq_no : ℕ) → seq_no ≤ 9 → IsHeartbeat (beat seq_no)
beat-IsHeartbeat seq_no h = record {
  fits = record {
    length_fits = omega arith;
    version_fits = omega arith;
    flag_fits = omega arith;
    pkt_id_fits = omega arith;
    seq_no_fits = omega arith;
  };
  whole = refl;
  id = refl;
}

-- A handler that adds up sequence numbers and notes the tick.
abbrev add_up : ℕ → BaseConn → PktBase → Result (Handled ℕ)
add_up a c pkt = ok (a + pkt.header.seq_no, record c { last_send_tick = 1 }, none)

abbrev add_step : ℕ → PktHeader → ℕ
add_step a h = a + h.seq_no

add_up-Serves : Serves add_up add_step
add_up-Serves a c pkt = (refl, refl, refl, refl)

-- A packet of no known type.
abbrev stranger : PktHeader
stranger = record { length = 16; version = 1; flag = 0; pkt_id = 77; seq_no = 0 }

abbrev bad_read : BaseConn
bad_read = with_arrivals (got (frames (beat 3 ∷ []) ++ (header_bytes stranger ++ [])) ∷ [])

on_read-Settled_example : Returns (on_read add_up 0 bad_read 8) (λ (a', c').
    (a' ≡ serve add_step 0 (beat 3 ∷ []))
    × Settled add_up add_step bad_read (header_bytes stranger ++ []) (some unknown_pkt_id) c')
unfolding simple_buffer arriving unread frames header_bytes bytes16 bytes32
on_read-Settled_example =
    on_read-Settled add_up add_step 0 bad_read 8 (beat 3 ∷ []) (header_bytes stranger ++ [])
      (some unknown_pkt_id) 7 add_up-Serves simple_buffer-IsValid (omega arith) refl
      (beat-IsHeartbeat 3 (omega arith), tt)
      (unknown stranger [] (omega arith) (omega arith) (omega arith) (omega arith)) refl

-- Two heartbeats and two bytes, in two calls that are cut inside the second.
abbrev cut : List (ℕ × List RecvReply)
cut =
    (8, got (take 9 (frames (beat 3 ∷ beat 4 ∷ []))) ∷ got [] ∷ [])
    ∷ (9, got (drop 9 (frames (beat 3 ∷ beat 4 ∷ [])) ++ (0 ∷ 0 ∷ [])) ∷ recv_error ∷ [])
    ∷ []

slow-Waits : Waits slow
unfolding simple_buffer unread
slow-Waits = record { valid = simple_buffer-IsValid; front = refl; short = omega arith }

on_reads-serve_example : Returns (on_reads add_up 0 slow cut) (λ (a', c').
    (a' ≡ serve add_step 0 (beat 3 ∷ beat 4 ∷ []))
    × Waits c'
    × (unread c'.in_buf ≡ 0 ∷ 0 ∷ [])
    × (c'.handle ≡ some 7))
unfolding simple_buffer arriving unread frames header_bytes bytes16 bytes32 stream
on_reads-serve_example =
    on_reads-serve add_up add_step cut 0 slow (beat 3 ∷ beat 4 ∷ []) (0 ∷ 0 ∷ []) 7 add_up-Serves
      slow-Waits refl (omega arith)
      (beat-IsHeartbeat 3 (omega arith), (beat-IsHeartbeat 4 (omega arith), tt))
      (omega arith, (omega arith, tt)) refl

abbrev small_packet : PktBase
small_packet = record {
  buf = record { buffer = 1 ∷ 2 ∷ []; alloc_size = 2; write_offset = 2; read_offset = 0 };
  incoming_buf = none;
  incoming_len = 0;
  header = beat 3;
}

-- A packet waits for the opening.
abbrev unopened : BaseConn
unopened = record slow { is_open = false; wait_pkt_list = small_packet ∷ [] }

on_confirm-Delivers_example : Returns (on_confirm unopened 4) (λ c'.
    IsSound c'
    × (c'.is_open ≡ true)
    × (c'.wait_pkt_list ≡ [])
    × (delivered c' ≡ delivered unopened ++ wires unopened.wait_pkt_list)
    × (c'.handle ≡ unopened.handle))
unfolding simple_buffer lengths get_length get_buffer
on_confirm-Delivers_example =
    on_confirm-Delivers 4
      (record { out_valid = simple_buffer-IsValid; idle_empty = λ e. unread-simple_buffer })
      (omega arith) ((omega arith, omega arith), tt)

-- A handler that does nothing.
abbrev ignore : ℕ → BaseConn → PktBase → Result (Handled ℕ)
ignore a c pkt = ok (a, c, none)

conn_callback-GoneIf_example :
    Returns (conn_callback ignore NetMsg.close 0 (some slow) 100) (Remains ignore 0 slow true)
    × Returns
        (conn_callback ignore (timer 9000) 0 (some slow) 100)
        (Remains ignore 0 slow (timed_out slow 9000))
conn_callback-GoneIf_example = conn_callback-GoneIf ignore 0 slow 100 9000 7 refl refl refl

-- The kernel takes a heartbeat, and then four bytes of the next.
abbrev sending : BaseConn
sending =
    on_connect (base_conn (socket []) 80 false 0)
      (socket (took 16 ∷ would_block ∷ took 4 ∷ would_block ∷ []))

abbrev two_beats : List SenderCall
two_beats = beats 5 1 0 3 ∷ beats 6 1 0 4 ∷ writable ∷ []

abbrev arrivals : List (ℕ × List RecvReply)
arrivals =
    (8, got (take 9 (header_bytes (beat 3))) ∷ [])
    ∷ (9, got (drop 9 (header_bytes (beat 3)) ++ (0 ∷ 0 ∷ [])) ∷ [])
    ∷ []

sending_wire : stream arrivals ++ (0 ∷ 16 ∷ []) ≡ sent_wire (on_calls sending two_beats)
unfolding stream arriving header_bytes bytes16 bytes32 sent_wire on_calls send_beat stamped
    pkt_heart_beat pkt_base simple_buffer Buffer.write extend inc_write_offset realloc unwritten
    write_header memcpy get_buffer get_length with_buffer write_uint16 write_uint32 set_version
    set_flag set_seq_no send_pkt send send_loop sent_some send_rest send_size Socket.send bytes_at
    kernel_send on_write flush_loop flushed_some Buffer.read reset_offset Buffer.read_count
    on_connect
sending_wire = refl

session-Passed_example :
    Returns
      (session add_up 0 sending two_beats slow arrivals)
      (λ (sender', a', receiver'). Passed add_step 0 two_beats (0 ∷ 16 ∷ []) sender' a' receiver')
unfolding headers delivered unread simple_buffer arriving header_bytes bytes16 bytes32 on_connect
session-Passed_example =
    session-Passed add_up add_step two_beats arrivals (0 ∷ 16 ∷ []) 0 sending slow 7 add_up-Serves
      (on_connect-IsReady (socket []) _ 80 0 2 false (omega arith)) refl
      (omega arith, omega arith, omega arith, (omega arith, omega arith, omega arith, tt))
      sending_wire slow-Waits refl refl (omega arith, (omega arith, tt))

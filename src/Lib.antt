-- ===== src/Lib.antt =====
-- Netter, a network library: connections of length-prefixed packets over non-blocking sockets and an
-- event loop. This library models its code under src/netter and states what makes it correct.
--
-- The parts. A `SimpleBuffer` holds a connection's bytes. `CByteStream` reads and writes big-endian
-- fields over a block or a buffer. `PktBase` frames a packet by its sixteen-byte header. A
-- `BaseSocket` calls the kernel for one socket. A `BaseConn` owns a socket and two buffers: what it
-- is given to send goes to the socket until that would block, and then to its output buffer; what
-- arrives goes to its input buffer, from which packets are read.
--
-- The files, and the code each is about:
--   Common: what the models share. Common/Outcome has `Result`, a value, a `PktException` with its
--     code (src/netter/util.h), or a `fault`, an access outside a memory block. Common/Memory has
--     `memcpy` and `realloc` over blocks that are lists of bytes.
--   Buffer: src/netter/simple_buffer.h and simple_buffer.cpp, a definition for each method.
--   Stream: src/netter/byte_stream.h and byte_stream.cpp. Stream/Word has the static `Read…` and
--     `Write…`, Stream/Fields the operators and strings.
--   Packet: src/netter/pkt_base.h, pkt_base.cpp, pkt_definition.h and pkt_definition.cpp.
--   Socket: src/netter/base_socket.h and base_socket.cpp. The kernel is a list of its answers, and
--     the bytes that it took. Socket/Address has `SetAddr` and `GetBindAddr`, Socket/Opening `Listen`
--     and `Connect`, Socket/Accept `_AcceptNewSocket`, and Socket/Events the callbacks `OnRead`,
--     `OnWrite`, `OnClose`, `OnTimer` and `OnConnect` with what an event of epoll calls.
--   Conn: src/netter/base_conn.h and base_conn.cpp. Conn/Receive has `_RecvData`, Conn/Parse
--     `_ParsePkt` and `OnRead`, Conn/Waiting `OnConfirm` and `OnConnect`, Conn/Callback
--     `conn_callback`, `Connect` and the listener of src/netter/base_listener.h. Conn/Sender and
--     Conn/EndToEnd put the parts together: a connection that sends heartbeats, one that receives
--     them, and the network between.
--   Pending: the `PendingEventMgr` of src/netter/base_conn.cpp, by which other threads send packets
--     to a connection and close it.
--   Loop: src/netter/event_loop.h and event_loop.cpp, its timers and the events that other threads
--     leave for it. Loop/Wakeup has the byte that wakes a loop, as steps of its thread and of others.
--     Loop/Lifetime has the reference counts of src/netter/util.h and the batch of events of `Start`.
--   Pool: src/netter/thread_pool.h and thread_pool.cpp, a worker thread as a machine whose steps
--     interleave with those of other threads.
--   Resource: src/netter/io_thread_resource.h, and in Resource/Handles the handles that
--     src/netter/base_socket.cpp allocates.
--   BlockSocket: src/netter/block_socket.cpp, the blocking client.
--   Http: src/netter/http_conn.cpp, http_parser_wrapper.h, http_parser_wrapper.cpp and
--     http_handler_map.cpp. The parser is given by the callbacks that it makes.
--   Log: src/netter/simple_log.h and simple_log.cpp, over a given clock, calendar and file system.
--   Setup: `init_thread_event_loops` of src/netter/event_loop.cpp with `AddLoop` and `_CheckLoop`,
--     `init_thread_base_conn` of src/netter/base_conn.cpp and `init_thread_http_conn` of
--     src/netter/http_conn.cpp, which give each I/O thread its resources.
--
-- Conventions. Numbers are natural numbers, with the wrap-around of `uint32_t` and of the other
-- widths written out. A method takes the object and returns it changed, with its result. A pointer
-- into a block is the block with an offset, or the block from there on. A NULL pointer is `none`.
-- Memory that is not initialised holds unknown bytes: every theorem holds whatever they are.
--
-- Loops. The loops that send run on fuel, which is the number of bytes to send: each round that
-- goes on sends one byte at least. The loop that receives runs on the number of bytes and answers
-- that the kernel has, the loop that parses on the number of unread bytes: each round takes one at
-- least. The loops of the blocking client run on fuel one above the length, and out of fuel they are a
-- fault, which the theorems exclude. The loop that finds a free handle runs on fuel, and theorems about
-- it need one round. The loop that accepts runs over the connections that `accept` answers.
--
-- The interfaces. The kernel is the lists of what its calls will answer, so a theorem about all lists is
-- one about all behaviours of the network. `HandlePkt` is virtual: it is a parameter, and a theorem
-- that needs it to leave a field alone says so. What other threads do is a sequence of steps: of
-- pushes and stops of a worker, of posts to a loop, and of packets in the pending event manager's
-- list.
--
-- The callback of a socket and the handlers of HTTP requests are parameters in the same way.
--
-- Not modelled: the outer loop of `EventLoop::Start`, which waits for events; the descriptors of a
-- loop; the round of `EventLoop::OnTimer` over the sockets; printing; freed memory, but for the sockets of
-- Loop/Lifetime and the connection of Conn/Callback; an output buffer of 2 ^ 31 bytes or more, whose
-- length `OnWrite` takes for an `int`; src/netter/http_parser.cpp and http_parser.h, which are a copy of
-- another project's library; the wrappers of pthread calls; the programs under src/test.
pub mod Common
pub mod Buffer
pub mod Stream
pub mod Packet
pub mod Socket
pub mod Conn
pub mod Pending
pub mod Loop
pub mod Pool
pub mod Resource
pub mod BlockSocket
pub mod Http
pub mod Log
pub mod Setup

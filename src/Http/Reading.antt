-- ===== src/Http/Reading.antt =====
-- `HttpConn::OnRead` of src/netter/http_conn.cpp.
use netter.Common.{ℕ, List, ◌≡◌}
use netter.Buffer.Queue.{IsValid, unread}
use netter.Conn.{BaseConn}

-- The connection after a read: its buffer holds just these bytes, from its start on, and nothing but
-- the socket, the buffer and the tick has changed; nothing was sent.
abbrev pub Holds : BaseConn → List ℕ → BaseConn → Type 0
Holds c bytes c' =
    IsValid c'.in_buf
    × (c'.in_buf.read_offset ≡ 0)
    × (unread c'.in_buf ≡ bytes)
    × (c'.base_socket.kernel.wire ≡ c.base_socket.kernel.wire)
    × (c' ≡ record c {
      base_socket = c'.base_socket;
      in_buf = c'.in_buf;
      last_recv_tick = c'.last_recv_tick;
    })

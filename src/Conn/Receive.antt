-- ===== src/Conn/Receive.antt =====
-- `_RecvData` of src/netter/base_conn.cpp: reading all that has arrived into the input buffer.
use netter.Common.{
  ℕ, zero, suc, ◌+◌, List, Option, none, some, Result, ok, ◌>>=◌, if◌then◌else◌, ltb, ◌==◌,
}
use netter.Buffer.{SimpleBuffer, get_writable_len, extend, inc_write_offset}
use netter.Socket.{BaseSocket, RecvReply, got, recv_error}
use netter.Socket
use netter.Socket.Receiving.{answers}
use netter.Conn.{BaseConn, read_buf_size}

-- `Extend` where fewer than `kReadBufSize` bytes are free.
unfoldable pub make_room : SimpleBuffer → SimpleBuffer
make_room b = if ltb (get_writable_len b) read_buf_size then extend b read_buf_size else b

-- One round of the loop after the socket's answer: `if (ret <= 0) break`, else go on.
unfoldable pub received_some :
    BaseConn → ℕ → BaseSocket × List ℕ × Option ℕ → (BaseConn → Result BaseConn) → Result BaseConn
received_some c now (s, block, none) continue =
    ok (record c { base_socket = s; in_buf = record (c.in_buf) { buffer = block } })
received_some c now (s, block, some n) continue =
    let b = record (c.in_buf) { buffer = block } in
    if n == 0
    then ok (record c { base_socket = s; in_buf = b })
    else continue
        (record c { base_socket = s; in_buf = inc_write_offset b n; last_recv_tick = now })

unfoldable pub recv_loop : ℕ → BaseConn → ℕ → Result BaseConn
unfolding received_some
recv_loop zero c now = ok c
recv_loop (suc fuel) c now = do
  let roomy = record c { in_buf = make_room c.in_buf }
  answer ← Socket.recv c.base_socket roomy.in_buf.buffer roomy.in_buf.write_offset read_buf_size
  received_some roomy now answer (λ c'. recv_loop fuel c' now)

unfoldable pub recv_data : BaseConn → ℕ → Result BaseConn
recv_data c now = recv_loop (answers c.base_socket.kernel.recv_replies + 1) c now

-- ===== src/Http/NotFound.antt =====
-- The answer of src/netter/http_conn.cpp where there is no handler.
use netter.Common.{
  ℕ, zero, suc, ◌+◌, ◌-◌, ◌≤◌, ◌<◌, true, false, List, [], ◌∷◌, ◌++◌, none, some, min, ok, ltb,
  Returns, Returns-bind, arith, length, take-all, ◌≡◌, refl, ap, subst, ◌∙◌, ◌==◌, leb, append-nil,
  sym,
}
use netter.Buffer.Queue.{IsValid, HasRoom, Wrote, write-Wrote}
use netter.Buffer
use netter.Conn.{BaseConn, send, send_loop, sent_some, send_rest, send_size, close}
use netter.Socket.{BaseSocket, SendReply, took, kernel_send, bytes_at}
use netter.Socket
use netter.Socket.Address.{octet}
use netter.Http.{
  HttpParserWrapper, HttpHandler, respond, get_handler, handler_url, not_found, codes,
}

-- The socket after the kernel has taken the bytes.
abbrev taken : BaseSocket → List ℕ → List SendReply → BaseSocket
taken s bytes rest = record s {
  kernel = record (s.kernel) { send_replies = rest; wire = s.kernel.wire ++ bytes };
}

-- One `send` of a socket whose kernel takes at least as many bytes as there are.
send-whole :
    (s : BaseSocket) (bytes : List ℕ) (n : ℕ) (rest : List SendReply)
    → s.kernel.send_replies ≡ took n ∷ rest
    → length bytes ≤ n
    → Socket.send s bytes 0 (length bytes) ≡ ok (taken s bytes rest, some (length bytes))
unfolding Socket.send bytes_at kernel_send
send-whole s bytes n rest e enough =
    rw
      (
        Socket.send,
        bytes_at,
        (let z : leb (0 + length bytes) (length bytes) ≡ true = ground arith in z),
        kernel_send,
        e,
        take-all (length bytes) bytes (omega arith),
        take-all n bytes enough,
        (let z : min n (length bytes) ≡ length bytes = omega arith in z),
      )
      refl

-- The loop of `Send` ends after one round.
send_loop-whole :
    (fuel : ℕ) (s : BaseSocket) (bytes : List ℕ) (n : ℕ) (rest : List SendReply)
    → s.kernel.send_replies ≡ took n ∷ rest
    → length bytes ≤ n
    → 0 < length bytes
    → length bytes ≤ 131072
    → send_loop (suc fuel) s bytes 0 (length bytes) ≡ ok (taken s bytes rest, length bytes, 0)
unfolding send_loop sent_some send_size
send_loop-whole fuel s bytes n rest e enough some_bytes low =
    rw
      (
        send_loop,
        (let z : (length bytes == 0) ≡ false = ground arith in z),
        send_size,
        (let z : ltb 131072 (length bytes) ≡ false = ground arith in z),
        send-whole s bytes n rest e enough,
        sent_some,
        (let z : (length bytes == 0) ≡ false = ground arith in z),
        (let z : length bytes - length bytes ≡ 0 = omega arith in z),
      )
      (after fuel)
  where
    after :
        (fuel : ℕ)
        → send_loop fuel (taken s bytes rest) bytes (0 + length bytes) 0
          ≡ ok (taken s bytes rest, length bytes, 0)
    after zero = ap (λ k. ok (taken s bytes rest, k, 0)) (omega arith)
    after (suc fuel) = ap (λ k. ok (taken s bytes rest, k, 0)) (omega arith)

-- The connection and its socket are closed, and the kernel has taken these bytes since.
abbrev pub ClosedWith : BaseConn → List ℕ → BaseConn → Type 0
ClosedWith c bytes c' =
    (c'.base_socket.kernel.wire ≡ c.base_socket.kernel.wire ++ bytes)
    × (c'.handle ≡ none)
    × (c'.is_open ≡ false)
    × (c'.base_socket.kernel.is_open ≡ false)

closes :
    (c c' : BaseConn) (bytes : List ℕ) (h : ℕ)
    → c'.handle ≡ some h
    → c'.base_socket.kernel.wire ≡ c.base_socket.kernel.wire ++ bytes
    → ClosedWith c bytes (close c')
unfolding close Socket.close
closes c c' bytes h e d = rw (e, close) (d, refl, refl, refl)

-- `Send` of an idle connection, where the kernel takes all at once.
send-at_once :
    (c : BaseConn) (now : ℕ) (bytes : List ℕ) (n : ℕ) (rest : List SendReply)
    → c.is_open ≡ true
    → c.busy ≡ false
    → c.base_socket.kernel.send_replies ≡ took n ∷ rest
    → length bytes ≤ n
    → 0 < length bytes
    → length bytes ≤ 131072
    → Returns (send c now bytes (length bytes)) (λ (c', sent).
      (c'.base_socket.kernel.wire ≡ c.base_socket.kernel.wire ++ bytes) × (c'.handle ≡ c.handle))
unfolding send send_rest
send-at_once c now [] n rest opened idle e enough some_bytes low =
    absurd (omega (arith, some_bytes))
send-at_once c now (b ∷ bytes) n rest opened idle e enough some_bytes low =
    rw
      (
        opened,
        send,
        idle,
        send_loop-whole (length bytes) c.base_socket (b ∷ bytes) n rest e enough some_bytes low,
      )
      (refl, refl)

-- `Send` of a busy connection.
send-later :
    (c : BaseConn) (now : ℕ) (bytes : List ℕ)
    → c.is_open ≡ true
    → c.busy ≡ true
    → IsValid c.out_buf
    → HasRoom c.out_buf (length bytes)
    → Returns
        (send c now bytes (length bytes))
        (λ (c', sent). (c'.base_socket ≡ c.base_socket) × (c'.handle ≡ c.handle))
unfolding send
send-later c now bytes opened busy valid room =
    rw (opened, send, busy)
      (Returns-bind (Wrote c.out_buf bytes (length bytes))
        (λ (c', sent). (c'.base_socket ≡ c.base_socket) × (c'.handle ≡ c.handle))
        (Buffer.write c.out_buf (some bytes) (length bytes)) _
        (write-Wrote bytes (length bytes) valid room (omega arith)) (λ x y. (refl, refl)))

-- The answer as it goes to the client.
unfoldable pub answer : List ℕ
answer =
    codes "HTTP/1.1 200 OK\r\nCache-Control:no-cache\r\nConnection:close\r\nContent-Length:39\r\n"
    ++ codes
        "Content-Type:text/html;charset=utf-8\r\n\r\n{\"code\": 404, \"msg\": \"no such method\"}\n"

not_found-answer : not_found ≡ answer
unfolding not_found octet answer
not_found-answer = refl

-- The answer is not empty, and below the size of a `send`.
not_found-fits : (0 < length not_found) × (length not_found ≤ 131072)
unfolding not_found octet
not_found-fits = (omega arith, omega arith)

module _ (handlers : List (List ℕ × HttpHandler)) (c : BaseConn) (now h : ℕ) (w : HttpParserWrapper)
    (complete : w.read_all ≡ true) (missing : get_handler handlers (handler_url w.url) ≡ none)
    (opened : c.is_open ≡ true) (handle : c.handle ≡ some h) where
  -- A complete request without a handler, on an open connection that is idle, where the kernel takes
  -- as many bytes at once as the answer has: the kernel gets the whole answer behind all that it took
  -- before, and then the connection and its socket are closed.
  pub respond-ClosedWith :
      (n : ℕ) (rest : List SendReply)
      → c.busy ≡ false
      → c.base_socket.kernel.send_replies ≡ took n ∷ rest
      → length answer ≤ n
      → Returns (respond handlers c now w) (ClosedWith c answer)
  unfolding respond
  respond-ClosedWith n rest idle e enough =
      rw (complete, respond, missing)
        (Returns-bind
          (λ (c', sent).
            (c'.base_socket.kernel.wire ≡ c.base_socket.kernel.wire ++ not_found)
            × (c'.handle ≡ c.handle))
          (ClosedWith c answer) (send c now not_found (length not_found)) _
          (send-at_once c now not_found n rest opened idle e
            (subst (λ q. length q ≤ n) (sym not_found-answer) enough) not_found-fits.0
            not_found-fits.1)
          λ (c', sent) (d, same).
            closes c c' answer h (same ∙ handle)
              (d ∙ ap (λ q. c.base_socket.kernel.wire ++ q) not_found-answer))

  -- The same on a connection that is busy, with room in an orderly output buffer: the connection and
  -- its socket are closed, and the kernel has got nothing of the answer, nor of what waited before.
  pub respond_lost :
      c.busy ≡ true
      → IsValid c.out_buf
      → HasRoom c.out_buf (length not_found)
      → Returns (respond handlers c now w) (ClosedWith c [])
  unfolding respond
  respond_lost busy valid room =
      rw (complete, respond, missing)
        (Returns-bind (λ (c', sent). (c'.base_socket ≡ c.base_socket) × (c'.handle ≡ c.handle))
          (ClosedWith c []) (send c now not_found (length not_found)) _
          (send-later c now not_found opened busy valid room)
          λ (c', sent) (d, same).
            closes c c' [] h (same ∙ handle)
              (ap (λ x. x.kernel.wire) d ∙ sym (append-nil c.base_socket.kernel.wire)))

-- ===== src/Conn/Callback.antt =====
-- `conn_callback` and `Connect` of src/netter/base_conn.cpp, and the listener of
-- src/netter/base_listener.h. A pointer that is NULL is `none`; the use of a connection that was deleted
-- is a fault.
use netter.Common.{
  ℕ, ◌+◌, ◌-◌, Bool, true, false, List, Option, none, some, Result, ok, fault, ◌>>=◌, if◌then◌else◌,
  ltb, ◌==◌, ◌≡◌, refl, ap₂, Returns, Returns-bind, arith, Bool-cases, inl, inr, u64,
}
use netter.Packet.{PktBase}
use netter.Socket.{BaseSocket}
use netter.Socket.Events.{NetMsg, connect, confirm, read, write, close, timer}
use netter.Socket.Opening.{Opened}
use netter.Conn.{BaseConn, on_write, on_close, on_timer}
use netter.Conn
use netter.Socket
use netter.Conn.Parse.{Handled, on_read}
use netter.Conn.Waiting.{on_confirm, on_connect}

-- `AddRef`, and `ReleaseRef`, which deletes the connection with its last reference.
unfoldable pub hold : BaseConn → Result BaseConn
hold c = if c.deleted then fault else ok (record c { ref_count = c.ref_count + 1 })

unfoldable pub let_go : BaseConn → Result BaseConn
let_go c =
    if c.deleted
    then fault
    else ok (record c { ref_count = c.ref_count - 1; deleted = c.ref_count - 1 == 0 })

-- The connection is deleted, when it and its socket have been closed, or it is as it was.
abbrev pub GoneIf : Bool → BaseConn → BaseConn → Type 0
GoneIf true c c' =
    (c'.deleted ≡ true)
    × (c'.handle ≡ none)
    × (c'.is_open ≡ false)
    × (c'.base_socket.kernel.is_open ≡ false)
    × (c'.in_conn_map ≡ (if c.pending_inited then false else c.in_conn_map))
GoneIf false c c' = c' ≡ c

-- Nothing has arrived for longer than the timeout.
abbrev pub timed_out : BaseConn → ℕ → Bool
timed_out c curr_tick = ltb (u64 (c.last_recv_tick + c.conn_timeout)) curr_tick

-- A connection that is held once more.
abbrev held : BaseConn → BaseConn
held c = record c { ref_count = c.ref_count + 1 }

hold-alive : (c : BaseConn) → c.deleted ≡ false → hold c ≡ ok (held c)
unfolding hold
hold-alive c alive = rw alive refl

close-held :
    (c : BaseConn) (handle : ℕ)
    → c.handle ≡ some handle
    → c.ref_count ≡ 1
    → Returns (let_go (Conn.close (held c))) (GoneIf true c)
unfolding let_go Conn.close Socket.close
close-held c handle e one =
    rw
      (
        e,
        Conn.close,
        (let z : (c.ref_count + 1 - 1 == 0) ≡ false = ground arith in z),
        (let z : (c.ref_count + 1 - 1 - 1 == 0) ≡ true = ground arith in z),
      )
      (refl, refl, refl, refl, refl)

kept-held :
    (c : BaseConn)
    → c.deleted ≡ false
    → c.ref_count ≡ 1
    → Returns (let_go (held c)) (GoneIf false c)
unfolding let_go
kept-held c alive one = rw alive (
    ap₂ {C = BaseConn} (λ n gone. record c { ref_count = n; deleted = gone })
      (let e : c.ref_count + 1 - 1 ≡ c.ref_count = omega arith in e)
      (let z : (c.ref_count + 1 - 1 == 0) ≡ false = ground arith in z))

module _ {A : Type 0} (handle_pkt : A → BaseConn → PktBase → Result (Handled A)) where
  -- The `switch` over the message.
  unfoldable pub on_msg : NetMsg → A → BaseConn → ℕ → Result (A × BaseConn)
  on_msg confirm a c now = do c' ← on_confirm c now; ok (a, c')
  on_msg read a c now = on_read handle_pkt a c now
  on_msg write a c now = do c' ← on_write c; ok (a, c')
  on_msg close a c now = ok (a, on_close c)
  on_msg (timer curr_tick) a c now = ok (a, on_timer c curr_tick)
  on_msg connect a c now = ok (a, c)

  -- `conn_callback`, for the connection that the callback's data is, or NULL.
  unfoldable pub conn_callback : NetMsg → A → Option BaseConn → ℕ → Result (A × Option BaseConn)
  unfolding on_msg hold let_go
  conn_callback msg a none now = ok (a, none)
  conn_callback msg a (some c) now = do
    c0 ← hold c
    (a', c') ← on_msg msg a c0 now
    c2 ← let_go c'
    ok (a', some c2)

  -- What is left of a connection, and of what its handler keeps.
  abbrev pub Remains : A → BaseConn → Bool → A × Option BaseConn → Type 0
  Remains a c gone (a', left) = (a' ≡ a) × ((c' : BaseConn) × (left ≡ some c') × GoneIf gone c c')

  left :
      (gone : Bool) (a : A) (c : BaseConn) (m : Result BaseConn)
      → Returns m (GoneIf gone c)
      → Returns (do c2 ← m; ok (a, some c2)) (Remains a c gone)
  left gone a c m r =
      Returns-bind (GoneIf gone c) (Remains a c gone) m _ r (λ c2 g. (refl, (c2, refl, g)))

  -- For an open connection that its socket alone refers to: the messages CLOSE and, where nothing has
  -- arrived for longer than the timeout, TIMER close it and its socket, take it out of the map, and
  -- delete it, but not before they have been handled; TIMER within the timeout leaves it as it was.
  pub conn_callback-GoneIf :
      (a : A) (c : BaseConn) (now curr_tick handle : ℕ)
      → c.handle ≡ some handle
      → c.ref_count ≡ 1
      → c.deleted ≡ false
      → Returns (conn_callback close a (some c) now) (Remains a c true)
        × Returns
            (conn_callback (timer curr_tick) a (some c) now)
            (Remains a c (timed_out c curr_tick))
  unfolding conn_callback on_msg on_close on_timer
  conn_callback-GoneIf a c now curr_tick handle open_ one alive =
      rw (conn_callback, hold-alive c alive)
        (
          left true a c _ (close-held c handle open_ one),
          (elim (Bool-cases (timed_out c curr_tick)) [
            | inl late ↦ rw late (left true a c _ (close-held c handle open_ one))
            | inr fine ↦ rw fine (left false a c _ (kept-held c alive one))
          ]),
        )

-- `BaseConn::Connect`, where the new socket's `Connect` leaves `opened`. Where it fails, the connection
-- deletes itself and `m_handle` is read from it for the answer.
unfoldable pub connect_conn : BaseConn → List ℕ → ℕ → Opened → Result (BaseConn × ℕ)
connect_conn c server_ip server_port opened = elim opened.answer [
  | none ↦ fault
  | some handle ↦ ok (
    record c {
      peer_ip = server_ip;
      peer_port = server_port;
      base_socket = opened.socket;
      handle = some handle;
      in_conn_map = if c.pending_inited then true else c.in_conn_map;
    },
    handle,
  )
]

-- `start_listen`, where the new socket's `Listen` leaves `opened`.
unfoldable pub start_listen : Opened → ℕ
start_listen opened = elim opened.answer [ none ↦ 1 | some handle ↦ 0 ]

-- `connect_callback`, the callback of a listener: a new connection for CONNECT, with its socket.
unfoldable pub connect_callback : (ℕ → BaseConn) → NetMsg → ℕ → BaseSocket → Option BaseConn
connect_callback new connect now s = some (on_connect (new now) s)
connect_callback new _ now s = none

-- ===== src/Pending.antt =====
-- The pending event manager of src/netter/base_conn.cpp: packets and closes that other threads ask
-- for, which the event loop's thread takes up in `loop_callback`.
pub mod Lookup
pub mod Delivery
mod Tests
use netter.Common.{
  ℕ, ◌+◌, ◌-◌, Bool, true, false, List, [], ◌∷◌, ◌++◌, Option, none, some, Result, ok, ◌>>=◌,
  if◌then◌else◌, ◌==◌,
}
use netter.Packet.{PktBase}
use netter.Conn.{BaseConn, send_pkt}
use netter.Conn
use netter.Conn.Waiting.{add_to_wait_pkt_list}

-- The connections by handle. An object that several places point to stands here alone.
abbrev pub ConnMap : Type 0
ConnMap = List (ℕ × BaseConn)

-- `find`, the change of the object that the map points to, and `erase`.
unfoldable pub find : ℕ → ConnMap → Option BaseConn
find handle [] = none
find handle ((h, c) ∷ rest) = let later = find handle rest in if h == handle then some c else later

unfoldable pub change : ℕ → BaseConn → ConnMap → ConnMap
change handle c [] = []
change handle c ((h, old) ∷ rest) =
    let later = change handle c rest in if h == handle then (h, c) ∷ rest else (h, old) ∷ later

unfoldable pub erase : ℕ → ConnMap → ConnMap
erase handle [] = []
erase handle ((h, c) ∷ rest) =
    let later = erase handle rest in if h == handle then rest else (h, c) ∷ later

-- `closed` is the connections that were closed, as `Close` left them; it is only for the theorems.
pub record PendingEventMgr : Type 0 where
  pub conn_map : ConnMap
  pub pkt_list : List (ℕ × PktBase)
  pub close_list : List ℕ
  pub closed : List BaseConn

-- What is done for a packet on the loop's own thread: sent and deleted, or kept until the connection
-- is open, or deleted where there is no connection.
unfoldable pub take_packet : ℕ → ℕ → PktBase → ConnMap → Result ConnMap
take_packet now handle pkt conns = elim (find handle conns) [
  | none ↦ ok conns
  | some c ↦
      if c.is_open
      then (do (c', _) ← send_pkt c now pkt; ok (change handle c' conns))
      else ok (change handle (add_to_wait_pkt_list c pkt) conns)
]

unfoldable pub take_packets : ℕ → List (ℕ × PktBase) → ConnMap → Result ConnMap
take_packets now [] conns = ok conns
take_packets now ((handle, pkt) ∷ rest) conns = do
  conns' ← take_packet now handle pkt conns
  take_packets now rest conns'

-- `Close()` of the connection with this handle, which takes it out of the map.
unfoldable pub close_conn : PendingEventMgr → ℕ → PendingEventMgr
close_conn mgr handle = elim (find handle mgr.conn_map) [
  | none ↦ mgr
  | some c ↦ record mgr {
    conn_map = erase handle mgr.conn_map;
    closed = mgr.closed ++ (Conn.close c ∷ []);
  }
]

unfoldable pub close_conns : PendingEventMgr → List ℕ → PendingEventMgr
close_conns mgr [] = mgr
close_conns mgr (handle ∷ handles) = close_conns (close_conn mgr handle) handles

-- The static `SendPkt(handle, pkt)`, on the loop's thread or on another; the other one also wakes the
-- loop up.
unfoldable pub send_pkt_handle : PendingEventMgr → Bool → ℕ → ℕ → PktBase → Result PendingEventMgr
send_pkt_handle mgr true now handle pkt = do
  conns ← take_packet now handle pkt mgr.conn_map
  ok (record mgr { conn_map = conns })
send_pkt_handle mgr false now handle pkt =
    ok (record mgr { pkt_list = mgr.pkt_list ++ ((handle, pkt) ∷ []) })

-- `CloseHandle(handle)`.
unfoldable pub close_handle : PendingEventMgr → Bool → ℕ → PendingEventMgr
close_handle mgr true handle = close_conn mgr handle
close_handle mgr false handle = record mgr { close_list = mgr.close_list ++ (handle ∷ []) }

-- `loop_callback`: both lists are swapped for empty ones under the lock, then worked off.
unfoldable pub loop_callback : PendingEventMgr → ℕ → Result PendingEventMgr
loop_callback mgr now = do
  conns ← take_packets now mgr.pkt_list mgr.conn_map
  ok (close_conns (record mgr { conn_map = conns; pkt_list = []; close_list = [] }) mgr.close_list)

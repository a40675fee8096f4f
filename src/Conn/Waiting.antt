-- ===== src/Conn/Waiting.antt =====
-- `AddToWaitPktList`, `OnConfirm` and `OnConnect` of src/netter/base_conn.cpp: packets that wait until
-- the connection is open.
use netter.Common.{
  ℕ, ◌+◌, ◌≤◌, ◌<◌, ◌^◌, lt→ltb, ◌≡◌, refl, ap, sym, ◌∙◌, true, List, [], ◌∷◌, ◌++◌, append_assoc,
  append-nil, some, Result, ok, ◌>>=◌, Returns, Returns-bind, Returns-mono, arith, length, All,
  length-append, length-take,
}
use netter.Buffer.Queue.{HasRoom}
use netter.Socket.{BaseSocket}
use netter.Packet.{PktBase, get_buffer, get_length}
use netter.Packet.RoundTrip.{wire}
use netter.Conn.{BaseConn, send_pkt}
use netter.Conn.Delivery.{IsSound, delivered, Delivers, send-Delivers}

unfoldable pub add_to_wait_pkt_list : BaseConn → PktBase → BaseConn
add_to_wait_pkt_list c pkt = record c { wait_pkt_list = c.wait_pkt_list ++ (pkt ∷ []) }

-- The loop over the packets; each is deleted after it has been sent.
unfoldable pub send_all : BaseConn → ℕ → List PktBase → Result BaseConn
send_all c now [] = ok c
send_all c now (pkt ∷ pkts) = do (c', _) ← send_pkt c now pkt; send_all c' now pkts

unfoldable pub on_confirm : BaseConn → ℕ → Result BaseConn
on_confirm c now = do
  c' ← send_all (record c { is_open = true }) now c.wait_pkt_list
  ok (record c' { wait_pkt_list = [] })

-- `OnConnect(base_socket)`, which a listener calls for an accepted socket. (`insert` into the map of
-- connections is the pending event manager's part.)
unfoldable pub on_connect : BaseConn → BaseSocket → BaseConn
on_connect c s = record c {
  is_open = true;
  base_socket = s;
  handle = some s.handle;
  in_conn_map = c.pending_inited;
  peer_ip = s.remote_ip;
  peer_port = s.remote_port;
}

-- The bytes of packets, and their number.
unfoldable pub wires : List PktBase → List ℕ
wires [] = []
wires (pkt ∷ pkts) = wire pkt ++ wires pkts

unfoldable pub lengths : List PktBase → ℕ
lengths [] = 0
lengths (pkt ∷ pkts) = get_length pkt + lengths pkts

-- A packet's block holds its bytes, and their number is an `int`.
abbrev pub IsWhole : PktBase → Type 0
IsWhole pkt = (get_length pkt ≤ length (get_buffer pkt)) × (get_length pkt < 2 ^ 31)

pub send_pkt-Delivers :
    {c : BaseConn} (now : ℕ) (pkt : PktBase)
    → IsSound c
    → HasRoom c.out_buf (get_length pkt)
    → IsWhole pkt
    → c.is_open ≡ true
    → Returns (send_pkt c now pkt) (λ (c', n). (n ≡ get_length pkt) × Delivers c (wire pkt) c')
unfolding send_pkt wire
send_pkt-Delivers {c} now pkt v room whole opened =
    rw (send_pkt, lt→ltb (get_length pkt) (2 ^ 31) whole.1)
      (send-Delivers now (get_buffer pkt) (get_length pkt) v room whole.0 opened)

pub length-wire_le : (pkt : PktBase) → length (wire pkt) ≤ get_length pkt
unfolding wire
length-wire_le pkt = omega (arith, length-take (get_length pkt) (get_buffer pkt))

pub send_all-Delivers :
    {c : BaseConn} (now : ℕ) (pkts : List PktBase)
    → IsSound c
    → HasRoom c.out_buf (lengths pkts)
    → All IsWhole pkts
    → c.is_open ≡ true
    → Returns (send_all c now pkts) (Delivers c (wires pkts))
unfolding send_all wires lengths
send_all-Delivers {c} now [] v room whole opened =
    (v, refl, sym (append-nil (delivered c)), omega arith, refl)
send_all-Delivers {c} now (pkt ∷ pkts) v room whole opened =
    Returns-bind (λ (c', n). (n ≡ get_length pkt) × Delivers c (wire pkt) c')
      (Delivers c (wire pkt ++ wires pkts)) (send_pkt c now pkt) _
      (send_pkt-Delivers now pkt v (omega (arith, room)) whole.0 opened)
      λ (c', n) (_, (v', o', d', w', f')).
        Returns-mono (Delivers c' (wires pkts)) (Delivers c (wire pkt ++ wires pkts)) _
          (λ c2 (v2, o2, d2, w2, f2). (
            v2,
            o2 ∙ o',
            d2 ∙ ap (λ q. q ++ wires pkts) d' ∙ append_assoc (delivered c) (wire pkt) (wires pkts),
            omega (arith, w2, w', length-append (wire pkt) (wires pkts)),
            f2
                ∙ ap
                    (λ (q : BaseConn). record q {
                      base_socket = c2.base_socket;
                      out_buf = c2.out_buf;
                      busy = c2.busy;
                      last_send_tick = c2.last_send_tick;
                    })
                    f',
          ))
          (send_all-Delivers {c = c'} now pkts v' (omega (arith, room, w', length-wire_le pkt))
            whole.1 (o' ∙ opened))

-- `OnConfirm` sends the packets that waited, in the order in which they came, behind all that was sent
-- before, and none of them waits any more: for an orderly output buffer with room for them, and packets
-- that are whole and below 2 ^ 31 bytes each.
pub on_confirm-Delivers :
    {c : BaseConn} (now : ℕ)
    → IsSound c
    → HasRoom c.out_buf (lengths c.wait_pkt_list)
    → All IsWhole c.wait_pkt_list
    → Returns (on_confirm c now) (λ c'.
      IsSound c'
      × (c'.is_open ≡ true)
      × (c'.wait_pkt_list ≡ [])
      × (delivered c' ≡ delivered c ++ wires c.wait_pkt_list)
      × (c'.handle ≡ c.handle))
unfolding on_confirm delivered
on_confirm-Delivers {c} now v room whole =
    Returns-bind (Delivers (record c { is_open = true }) (wires c.wait_pkt_list)) _ _ _
      (send_all-Delivers {c = record c { is_open = true }} now c.wait_pkt_list
        (record { out_valid = v.out_valid; idle_empty = v.idle_empty }) room whole refl)
      λ c' (v', o, d, w, f). (
        record { out_valid = v'.out_valid; idle_empty = v'.idle_empty },
        o,
        refl,
        d,
        ap (λ q. q.handle) f,
      )

-- ===== src/Pending/Tests.antt =====
-- A run of `loop_callback` of src/netter/base_conn.cpp.
use netter.Common.{ℕ, Bool, [], ◌∷◌, none, some, true, false}
use netter.Buffer.{simple_buffer}
use netter.Socket.{took, connected}
use netter.Packet.{PktBase}
use netter.Conn.{BaseConn}
use netter.Pending.{PendingEventMgr}

abbrev connection : Bool → BaseConn
connection open_now = record {
  base_socket = record {
    kernel = record { send_replies = took 3 ∷ []; recv_replies = []; wire = []; is_open = true };
    state = connected;
    handle = 7;
    socket = some 5;
    event_loop = some 0;
    callback = 1;
    callback_data = 2;
    remote_ip = [];
    remote_port = 80;
    local_ip = [];
    local_port = 0;
    ref_count = 1;
  };
  handle = some 7;
  busy = false;
  is_open = open_now;
  heartbeat_interval = 2000;
  conn_timeout = 5000;
  peer_ip = [];
  peer_port = 80;
  in_buf = simple_buffer;
  out_buf = simple_buffer;
  wait_pkt_list = [];
  last_send_tick = 0;
  last_recv_tick = 0;
  ref_count = 1;
  deleted = false;
  pending_inited = true;
  in_conn_map = true;
}

abbrev packet : ℕ → PktBase
packet byte = record {
  buf = record { buffer = byte ∷ byte ∷ []; alloc_size = 2; write_offset = 2; read_offset = 0 };
  incoming_buf = none;
  incoming_len = 0;
  header = record { length = 2; version = 1; flag = 0; pkt_id = 1; seq_no = 0 };
}

-- Packets for an open connection, for one that is not open yet and for none; the second is to be closed.
abbrev manager : PendingEventMgr
manager = record {
  conn_map = (7, connection true) ∷ (8, connection false) ∷ [];
  pkt_list = (7, packet 1) ∷ (8, packet 2) ∷ (9, packet 3) ∷ (7, packet 4) ∷ [];
  close_list = 8 ∷ [];
  closed = [];
}

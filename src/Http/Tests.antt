-- ===== src/Http/Tests.antt =====
-- The HTTP side at concrete values.
use netter.Common.{ℕ, ◌≡◌, refl, List, [], ◌∷◌, ◌++◌, some, Returns, arith, true, false}
use netter.Buffer.{simple_buffer}
use netter.Buffer.Queue.{IsValid, simple_buffer-IsValid}
use netter.Socket.{connected, got, took}
use netter.Socket.Address.{octet}
use netter.Conn.{BaseConn}
use netter.Http.{
  ParserCall, on_url, on_message_complete, HttpParserWrapper, parse_http_content, on_calls, on_call,
  reset, HttpHandler, respond, get_handler, handler_url, not_found,
}
use netter.Http.Parses.{request, completes}
use netter.Http.Handlers.{IsPlain, handler_url-path}
use netter.Http.NotFound.{answer, ClosedWith, respond-ClosedWith, respond_lost}

-- A parser whose message is its first three bytes, which are the URL in two pieces.
abbrev execute : List ℕ → List ParserCall
execute (a ∷ b ∷ c ∷ rest) = on_url (a ∷ []) ∷ on_url (b ∷ c ∷ []) ∷ on_message_complete ∷ []
execute _ = []

abbrev used : HttpParserWrapper
used = record { read_all = true; total_length = 9; url = b'z' ∷ []; body_content = b'y' ∷ [] }

abbrev connection : BaseConn
connection = record {
  base_socket = record {
    kernel = record {
      send_replies = took 5 ∷ [];
      recv_replies = got (b'/' ∷ b'a' ∷ []) ∷ got (b'?' ∷ []) ∷ [];
      wire = [];
      is_open = true;
    };
    state = connected;
    handle = 7;
    socket = some 5;
    event_loop = some 0;
    callback = 1;
    callback_data = 2;
    remote_ip = [];
    remote_port = 80;
    local_ip = [];
    local_port = 0;
    ref_count = 1;
  };
  handle = some 7;
  busy = false;
  is_open = true;
  heartbeat_interval = 2000;
  conn_timeout = 5000;
  peer_ip = [];
  peer_port = 80;
  in_buf = simple_buffer;
  out_buf = simple_buffer;
  wait_pkt_list = [];
  last_send_tick = 0;
  last_recv_tick = 0;
  ref_count = 1;
  deleted = false;
  pending_inited = false;
  in_conn_map = false;
}

parses :
    parse_http_content execute used (b'/' ∷ b'a' ∷ b'?' ∷ [])
    ≡ record { read_all = true; total_length = 0; url = b'/' ∷ b'a' ∷ b'?' ∷ []; body_content = [] }
unfolding parse_http_content on_calls on_call reset
parses = refl

abbrev table : List (List ℕ × ℕ)
table = (b'/' ∷ b'a' ∷ [], 1) ∷ []

plain : IsPlain (b'/' ∷ b'a' ∷ [])
plain = (
  ((λ e. omega (arith, e)), (λ e. omega (arith, e))),
  (((λ e. omega (arith, e)), (λ e. omega (arith, e))), tt),
)

handler_url-path_example :
    (handler_url ((b'/' ∷ b'a' ∷ []) ++ (b'?' ∷ b'q' ∷ [])) ≡ b'/' ∷ b'a' ∷ [])
    × (handler_url (b'/' ∷ b'a' ∷ []) ≡ b'/' ∷ b'a' ∷ [])
handler_url-path_example = handler_url-path (b'/' ∷ b'a' ∷ []) (b'q' ∷ []) plain

buffer-IsValid : IsValid connection.in_buf
buffer-IsValid = simple_buffer-IsValid

abbrev no_handlers : List (List ℕ × HttpHandler)
no_handlers = []

abbrev wanted : HttpParserWrapper
wanted = request (execute (b'/' ∷ b'a' ∷ b'?' ∷ []))

-- A connection whose kernel takes the answer at once, and one that is busy.
abbrev idle : BaseConn
idle = record connection {
  base_socket = record (connection.base_socket) {
    kernel = record (connection.base_socket.kernel) { send_replies = took 900 ∷ [] };
  };
}

abbrev occupied : BaseConn
occupied = record connection {
  busy = true;
  out_buf = record { buffer = 5 ∷ 6 ∷ []; alloc_size = 2; write_offset = 2; read_offset = 0 };
}

respond-ClosedWith_example : Returns (respond no_handlers idle 100 wanted) (ClosedWith idle answer)
unfolding completes get_handler answer
respond-ClosedWith_example =
    respond-ClosedWith no_handlers idle 100 7 wanted refl refl refl refl 900 [] refl refl
      (omega arith)

respond_lost_example : Returns (respond no_handlers occupied 100 wanted) (ClosedWith occupied [])
unfolding completes get_handler not_found octet
respond_lost_example =
    respond_lost no_handlers occupied 100 7 wanted refl refl refl refl refl (omega arith)
      (omega arith)

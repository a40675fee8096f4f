-- ===== src/Conn/Sender.antt =====
-- A connection of src/netter/base_conn.cpp that is given heartbeats to send, and flushed.
use netter.Common.{
  ℕ, suc, ◌+◌, ◌*◌, ◌/◌, Bool, ◌<◌, ◌^◌, ◌≡◌, refl, ap, sym, ◌∙◌, true, List, [], ◌∷◌, ◌++◌,
  append_assoc, append-nil, Result, ok, ◌>>=◌, Returns, Returns-bind, Returns-mono, arith, length,
  drop, All, length-append,
}
use netter.Buffer.{simple_buffer}
use netter.Buffer.Queue.{HasRoom, simple_buffer-IsValid, unread-simple_buffer}
use netter.Socket.{BaseSocket}
use netter.Packet.{PktHeader, PktBase, get_buffer, get_length}
use netter.Packet.Header.{header_bytes, length-header_bytes}
use netter.Packet.RoundTrip.{
  wire, Carries, heartbeat_header, stamped, stamped-Carries, wire-Carries,
}
use netter.Packet.Sequence.{frames, IsHeartbeat}
use netter.Conn.{BaseConn, base_conn, send_pkt, on_write}
use netter.Conn.Delivery.{IsSound, delivered, Delivers}
use netter.Conn.Flush.{Left, on_write-delivered}
use netter.Conn.Waiting.{on_connect, IsWhole, send_pkt-Delivers}

-- What happens to the connection that sends: at a tick it is given a heartbeat with a version, a flag
-- and a sequence number, or its socket can be written to.
pub data SenderCall : Type 0 where
  beats : ℕ → ℕ → ℕ → ℕ → SenderCall
  writable : SenderCall

unfoldable pub send_beat : BaseConn → ℕ → ℕ → ℕ → ℕ → Result BaseConn
send_beat c now version flag seq_no = do
  pkt ← stamped version flag seq_no
  (c', _) ← send_pkt c now pkt
  ok c'

unfoldable pub on_calls : BaseConn → List SenderCall → Result BaseConn
on_calls c [] = ok c
on_calls c (beats now version flag seq_no ∷ calls) = do
  c' ← send_beat c now version flag seq_no
  on_calls c' calls
on_calls c (writable ∷ calls) = do c' ← on_write c; on_calls c' calls

-- The packets that were sent.
unfoldable pub headers : List SenderCall → List PktHeader
headers [] = []
headers (beats now version flag seq_no ∷ calls) =
    heartbeat_header version flag seq_no ∷ headers calls
headers (writable ∷ calls) = headers calls

-- The fields of the heartbeats are in range.
abbrev pub InRange : List SenderCall → Type 0
InRange [] = Unit
InRange (beats now version flag seq_no ∷ calls) =
    (version < 2 ^ 16) × (flag < 2 ^ 16) × (seq_no < 2 ^ 32) × InRange calls
InRange (writable ∷ calls) = InRange calls

pub headers-IsHeartbeat :
    (calls : List SenderCall) → InRange calls → All IsHeartbeat (headers calls)
unfolding headers
headers-IsHeartbeat [] h = tt
headers-IsHeartbeat (beats now version flag seq_no ∷ calls) (v, f, s, h) = (
  record {
    fits = record {
      length_fits = omega arith;
      version_fits = v;
      flag_fits = f;
      pkt_id_fits = omega arith;
      seq_no_fits = s;
    };
    whole = refl;
    id = refl;
  },
  headers-IsHeartbeat calls h,
)
headers-IsHeartbeat (writable ∷ calls) h = headers-IsHeartbeat calls h

-- An open connection whose output buffer has room for this many heartbeats.
pub record IsReady (c : BaseConn) (count : ℕ) : Type 0 where
  pub sound : IsSound c
  pub room : HasRoom c.out_buf (16 * count)
  pub opened : c.is_open ≡ true

-- A new connection that a listener opens has room for this many heartbeats.
pub on_connect-IsReady :
    (any_socket s : BaseSocket) (any_port now count : ℕ) (pending_inited : Bool)
    → 16 * count + 16 * count / 4 < 2 ^ 32
    → IsReady (on_connect (base_conn any_socket any_port pending_inited now) s) count
unfolding on_connect simple_buffer
on_connect-IsReady any_socket s any_port now count pending_inited h = record {
  sound = record { out_valid = simple_buffer-IsValid; idle_empty = λ e. unread-simple_buffer };
  room = omega (arith, h);
  opened = refl;
}

length-Carries :
    {pkt : PktBase} {h : PktHeader} → Carries pkt h → (get_length pkt ≡ 16) × IsWhole pkt
unfolding get_length get_buffer
length-Carries {pkt} {h} c =
    rw (c.own, get_length, get_buffer)
      (
        c.ends,
        (
          omega (
            arith,
            c.ends,
            ap length c.begins,
            length-append (header_bytes h) (drop 16 pkt.buf.buffer),
            length-header_bytes h,
          ),
          omega (arith, c.ends),
        ),
      )

send_beat-Delivers :
    {c : BaseConn} (now version flag seq_no count : ℕ)
    → IsReady c (suc count)
    → Returns (send_beat c now version flag seq_no) (λ c'.
      IsReady c' count
      × (delivered c' ≡ delivered c ++ header_bytes (heartbeat_header version flag seq_no)))
unfolding send_beat
send_beat-Delivers {c} now version flag seq_no count ready =
    Returns-bind (λ pkt. Carries pkt h) done (stamped version flag seq_no) _
      (stamped-Carries version flag seq_no)
      λ pkt carries.
        let (len, whole) = length-Carries carries in
        Returns-bind (λ (c', n). (n ≡ get_length pkt) × Delivers c (wire pkt) c') done
          (send_pkt c now pkt) _
          (send_pkt-Delivers now pkt ready.sound (omega (arith, ready.room, len)) whole
            ready.opened)
          λ (c', n) (_, (v', o', d', w', _)). (
            record {
              sound = v';
              room =
                  omega (
                    arith,
                    ready.room,
                    w',
                    ap length (wire-Carries carries),
                    length-header_bytes h,
                  );
              opened = o' ∙ ready.opened;
            },
            d' ∙ ap (λ q. delivered c ++ q) (wire-Carries carries),
          )
  where
    h : PktHeader
    h = heartbeat_header version flag seq_no

    done : BaseConn → Type 0
    done c' = IsReady c' count × (delivered c' ≡ delivered c ++ header_bytes h)

pub on_calls-Delivers :
    (calls : List SenderCall) {c : BaseConn}
    → IsReady c (length (headers calls))
    → Returns (on_calls c calls) (λ c'. delivered c' ≡ delivered c ++ frames (headers calls))
unfolding on_calls headers frames
on_calls-Delivers [] {c} ready = sym (append-nil (delivered c))
on_calls-Delivers (beats now version flag seq_no ∷ calls) {c} ready =
    Returns-bind
      (λ c'. IsReady c' (length (headers calls)) × (delivered c' ≡ delivered c ++ header_bytes h))
      (λ c'. delivered c' ≡ delivered c ++ (header_bytes h ++ frames (headers calls)))
      (send_beat c now version flag seq_no) _
      (send_beat-Delivers now version flag seq_no (length (headers calls)) ready)
      λ c' (ready', d').
        Returns-mono (λ c2. delivered c2 ≡ delivered c' ++ frames (headers calls))
          (λ c2. delivered c2 ≡ delivered c ++ (header_bytes h ++ frames (headers calls))) _
          (λ c2 d2.
            d2
            ∙ ap (λ q. q ++ frames (headers calls)) d'
            ∙ append_assoc (delivered c) (header_bytes h) (frames (headers calls)))
          (on_calls-Delivers calls ready')
  where
    h : PktHeader
    h = heartbeat_header version flag seq_no
on_calls-Delivers (writable ∷ calls) {c} ready =
    Returns-bind (Left c) (λ c'. delivered c' ≡ delivered c ++ frames (headers calls)) (on_write c)
      _ (on_write-delivered ready.sound)
      λ c' (v', d', _, o', w').
        Returns-mono (λ c2. delivered c2 ≡ delivered c' ++ frames (headers calls))
          (λ c2. delivered c2 ≡ delivered c ++ frames (headers calls)) _
          (λ c2 d2. d2 ∙ ap (λ q. q ++ frames (headers calls)) d')
          (on_calls-Delivers calls (record {
            sound = v';
            room = omega (arith, ready.room, w');
            opened = o' ∙ ready.opened;
          }))

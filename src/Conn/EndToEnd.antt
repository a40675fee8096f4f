-- ===== src/Conn/EndToEnd.antt =====
-- Two connections of src/netter/base_conn.cpp, and the network between them: what one sends, the other
-- handles.
use netter.Common.{
  ℕ, ◌≤◌, ◌^◌, ◌≡◌, ap, sym, subst, ◌∙◌, List, [], ◌++◌, append_assoc, append-nil, some, ◌<◌,
  Result, ok, throw, fault, ◌>>=◌, Returns, Returns-bind, Returns-value, arith, length, All,
}
use netter.Buffer.Queue.{unread}
use netter.Socket.{RecvReply}
use netter.Socket.Receiving.{arriving}
use netter.Packet.{PktHeader, PktBase}
use netter.Packet.Sequence.{frames, IsHeartbeat}
use netter.Conn.{BaseConn}
use netter.Conn.Delivery.{delivered}
use netter.Conn.Parse.{Handled}
use netter.Conn.Dispatch.{serve, Serves}
use netter.Conn.Chunks.{on_reads, stream, Waits, on_reads-serve, split, All-append}
use netter.Conn.Sender.{
  SenderCall, on_calls, headers, InRange, headers-IsHeartbeat, IsReady, on_calls-Delivers,
}

-- What the kernel of the sender took in the end.
unfoldable pub sent_wire : Result BaseConn → List ℕ
sent_wire (ok c) = c.base_socket.kernel.wire
sent_wire (throw e) = []
sent_wire fault = []

-- The sender's calls, and then the receiver's.
unfoldable pub session :
    {A : Type 0}
    → (A → BaseConn → PktBase → Result (Handled A))
    → A
    → BaseConn
    → List SenderCall
    → BaseConn
    → List (ℕ × List RecvReply)
    → Result (BaseConn × A × BaseConn)
session handle_pkt a sender calls receiver reads = do
  sender' ← on_calls sender calls
  (a', receiver') ← on_reads handle_pkt a receiver reads
  ok (sender', a', receiver')

-- The outcome: `served` packets have been handled, `others` have not arrived whole. What is not handled
-- is in the receiver's buffer, on its way, or in the sender's buffer.
pub record Passed {A : Type 0} (step : A → PktHeader → A) (a : A) (calls : List SenderCall)
    (on_the_way : List ℕ) (sender : BaseConn) (a' : A) (receiver : BaseConn) : Type 0 where
  pub served : List PktHeader
  pub others : List PktHeader
  pub parts : headers calls ≡ served ++ others
  pub handled : a' ≡ serve step a served
  pub rest : unread receiver.in_buf ++ (on_the_way ++ unread sender.out_buf) ≡ frames others
  pub short : length (unread receiver.in_buf) < 16

module _ {A : Type 0} (handle_pkt : A → BaseConn → PktBase → Result (Handled A))
    (step : A → PktHeader → A) where
  -- A connection in order that is open and has sent nothing yet is given heartbeats and flushed, in any
  -- order and however its kernel takes the bytes; then a part of what the kernel took arrives at a
  -- connection without unread bytes, however it is cut into calls of `OnRead` and answers of `Recv`:
  -- nobody fails, and the receiver's handler has got the first of the packets that were sent, each once
  -- and in order. The bytes of all others are, in order, the receiver's unread bytes, which are fewer
  -- than a packet, those on their way, and those that wait at the sender. For fields in range, a
  -- handler that leaves the input buffer and the handle alone, calls that get at most 2 ^ 30 bytes
  -- each, and an output buffer whose size does not pass 32 bits.
  pub session-Passed :
      (calls : List SenderCall) (reads : List (ℕ × List RecvReply)) (on_the_way : List ℕ) (a : A)
      (sender receiver : BaseConn) (handle : ℕ)
      → Serves handle_pkt step
      → IsReady sender (length (headers calls))
      → delivered sender ≡ []
      → InRange calls
      → stream reads ++ on_the_way ≡ sent_wire (on_calls sender calls)
      → Waits receiver
      → unread receiver.in_buf ≡ []
      → receiver.handle ≡ some handle
      → All (λ call. length (arriving call.1) ≤ 2 ^ 30) reads
      → Returns
          (session handle_pkt a sender calls receiver reads)
          (λ (sender', a', receiver'). Passed step a calls on_the_way sender' a' receiver')
  unfolding session sent_wire delivered
  session-Passed calls reads on_the_way a sender receiver handle serves ready fresh range arrives
        waits empty open_ small =
      let (sender', e, d) =
        Returns-value (λ c'. delivered c' ≡ delivered sender ++ frames (headers calls)) _
          (on_calls-Delivers calls ready) in
      let s =
        split (headers calls) (stream reads) (on_the_way ++ unread sender'.out_buf) []
          (sym (append_assoc (stream reads) on_the_way (unread sender'.out_buf))
            ∙ ap (λ q. q ++ unread sender'.out_buf) (arrives ∙ ap sent_wire e)
            ∙ d
            ∙ ap (λ q. q ++ frames (headers calls)) fresh
            ∙ sym (append-nil (frames (headers calls))))
          (omega arith) in
      rw (session, e)
        (Returns-bind
          (λ (a', c').
            (a' ≡ serve step a s.whole)
            × Waits c'
            × (unread c'.in_buf ≡ s.begun)
            × (c'.handle ≡ receiver.handle))
          (λ (sender2, a', receiver'). Passed step a calls on_the_way sender2 a' receiver')
          (on_reads handle_pkt a receiver reads) _
          (on_reads-serve handle_pkt step reads a receiver s.whole s.begun handle serves waits
            (ap (λ q. q ++ stream reads) empty ∙ s.prefix_is) s.short
            (All-append IsHeartbeat s.whole s.others
              (subst (All IsHeartbeat) s.parts (headers-IsHeartbeat calls range))).0
            small open_)
          λ (a', receiver') (served, w, u, _). record {
            served = s.whole;
            others = s.others;
            parts = s.parts;
            handled = served;
            rest =
                ap (λ q. q ++ (on_the_way ++ unread sender'.out_buf)) u
                ∙ s.rest_is
                ∙ append-nil (frames s.others);
            short = w.short;
          })

-- ===== src/Conn/Chunks.antt =====
-- A byte stream that arrives in chunks, over several calls of `OnRead`.
use netter.Common.{
  ℕ, ◌≤◌, ◌<◌, ◌^◌, ◌≡◌, refl, ap, ap₂, subst, sym, ◌∙◌, List, [], ◌∷◌, ◌++◌, append_assoc,
  append-nil, none, some, Result, ok, ◌>>=◌, Returns, Returns-bind, Returns-mono, arith, length,
  take, drop, All, length-append, take-append-drop, take-append_le, drop-append_le, take-append,
  drop-append, ltb, Bool-cases, inl, inr,
}
use netter.Buffer.Queue.{IsValid, unread, length-unread}
use netter.Socket.{RecvReply}
use netter.Socket.Receiving.{arriving}
use netter.Packet.{PktHeader, PktBase}
use netter.Packet.Header.{header_bytes, length-header_bytes}
use netter.Packet.Sequence.{frames, IsHeartbeat, few}
use netter.Conn.{BaseConn}
use netter.Conn.Parse.{Handled, on_read}
use netter.Conn.Dispatch.{serve, Serves}
use netter.Conn.Reading.{Settled, length-frames, on_read-Settled}

-- The event loop calls `OnRead` whenever bytes have arrived; the kernel's answers to each call's
-- `Recv`s, and the tick, are given.
abbrev pub with_replies : BaseConn → List RecvReply → BaseConn
with_replies c replies = record c {
  base_socket = record (c.base_socket) {
    kernel = record (c.base_socket.kernel) { recv_replies = replies };
  };
}

unfoldable pub on_reads {ℓ} :
    {A : Type ℓ}
    → (A → BaseConn → PktBase → Result (Handled A))
    → A
    → BaseConn
    → List (ℕ × List RecvReply)
    → Result (A × BaseConn)
on_reads handle_pkt a c [] = ok (a, c)
on_reads handle_pkt a c ((now, replies) ∷ calls) = do
  (a', c') ← on_read handle_pkt a (with_replies c replies) now
  on_reads handle_pkt a' c' calls

-- All that arrives.
unfoldable pub stream : List (ℕ × List RecvReply) → List ℕ
stream [] = []
stream ((now, replies) ∷ calls) = arriving replies ++ stream calls

-- The packets that are whole in a prefix of the stream, and what the prefix has of the next.
pub record Split (hs : List PktHeader) (p r q : List ℕ) : Type 0 where
  pub whole : List PktHeader
  pub others : List PktHeader
  pub begun : List ℕ
  pub parts : hs ≡ whole ++ others
  pub prefix_is : p ≡ frames whole ++ begun
  pub rest_is : begun ++ r ≡ frames others ++ q
  pub short : length begun < 16

pub split :
    (hs : List PktHeader) (p r q : List ℕ)
    → p ++ r ≡ frames hs ++ q
    → length q < 16
    → Split hs p r q
unfolding frames
split [] p r q e h = record {
  whole = [];
  others = [];
  begun = p;
  parts = refl;
  prefix_is = refl;
  rest_is = e;
  short = omega (arith, ap length e, length-append p r);
}
split (x ∷ hs) p r q e h = elim (Bool-cases (ltb (length p) 16)) [
  | inl less ↦ record {
    whole = [];
    others = x ∷ hs;
    begun = p;
    parts = refl;
    prefix_is = refl;
    rest_is = e;
    short = ground arith;
  }
  | inr more ↦
      let enough : 16 ≤ length p = ground arith in
      let front : take 16 p ≡ header_bytes x =
        sym (take-append_le 16 p r enough)
        ∙ ap (take 16) (e ∙ append_assoc (header_bytes x) (frames hs) q)
        ∙ take-append 16 (header_bytes x) (frames hs ++ q) (sym (length-header_bytes x)) in
      let back : drop 16 p ++ r ≡ frames hs ++ q =
        sym (drop-append_le 16 p r enough)
        ∙ ap (drop 16) (e ∙ append_assoc (header_bytes x) (frames hs) q)
        ∙ drop-append 16 (header_bytes x) (frames hs ++ q) (sym (length-header_bytes x)) in
      let s = split hs (drop 16 p) r q back h in
      record {
        whole = x ∷ s.whole;
        others = s.others;
        begun = s.begun;
        parts = ap (◌∷◌ x) s.parts;
        prefix_is =
            sym (take-append-drop 16 p)
            ∙ ap₂ (◌++◌) front s.prefix_is
            ∙ sym (append_assoc (header_bytes x) (frames s.whole) s.begun);
        rest_is = s.rest_is;
        short = s.short;
      }
]

pub All-append :
    {A : Type 0} (P : A → Type 0) (xs ys : List A) → All P (xs ++ ys) → All P xs × All P ys
All-append P [] ys h = (tt, h)
All-append P (x ∷ xs) ys (p, h) = let (l, r) = All-append P xs ys h in ((p, l), r)

serve-append :
    {A : Type 0} (step : A → PktHeader → A) (a : A) (hs hs' : List PktHeader)
    → serve step (serve step a hs) hs' ≡ serve step a (hs ++ hs')
unfolding serve
serve-append step a [] hs' = refl
serve-append step a (h ∷ hs) hs' = serve-append step (step a h) hs hs'

-- Between two calls: fewer bytes than a header wait at the front of the buffer.
pub record Waits (c : BaseConn) : Type 0 where
  pub valid : IsValid c.in_buf
  pub front : c.in_buf.read_offset ≡ 0
  pub short : length (unread c.in_buf) < 16

no_frames :
    (hs : List PktHeader) (p q : List ℕ)
    → p ++ [] ≡ frames hs ++ q
    → length p < 16
    → (hs ≡ []) × (p ≡ q)
unfolding frames
no_frames [] p q e short = (refl, sym (append-nil p) ∙ e)
no_frames (h ∷ hs) p q e short = absurd (
    omega (
      arith,
      ap length e,
      length-append p [],
      length-append (frames (h ∷ hs)) q,
      length-frames (h ∷ hs),
    ))

module _ {A : Type 0} (handle_pkt : A → BaseConn → PktBase → Result (Handled A))
    (step : A → PktHeader → A) where
  -- However the stream is cut into calls of `OnRead`, and each call's bytes into answers of `Recv`,
  -- the handler gets each packet of the stream once, in order, and the bytes of a packet that is
  -- not whole yet stay in the buffer: for a stream of heartbeats that ends with fewer bytes than a
  -- header has, a handler that leaves the input buffer and the handle alone, and calls that get at
  -- most 2 ^ 30 bytes each.
  pub on_reads-serve :
      (calls : List (ℕ × List RecvReply)) (a : A) (c : BaseConn) (hs : List PktHeader) (q : List ℕ)
      (handle : ℕ)
      → Serves handle_pkt step
      → Waits c
      → unread c.in_buf ++ stream calls ≡ frames hs ++ q
      → length q < 16
      → All IsHeartbeat hs
      → All (λ call. length (arriving call.1) ≤ 2 ^ 30) calls
      → c.handle ≡ some handle
      → Returns (on_reads handle_pkt a c calls) (λ (a', c').
        (a' ≡ serve step a hs) × Waits c' × (unread c'.in_buf ≡ q) × (c'.handle ≡ c.handle))
  unfolding on_reads stream serve
  on_reads-serve [] a c hs q handle serves w e short beats small open_ =
      let (none_left, same) = no_frames hs (unread c.in_buf) q e w.short in
      (ap (serve step a) (sym none_left), w, same, refl)
  on_reads-serve ((now, replies) ∷ calls) a c hs q handle serves w e short beats small open_ =
      let s =
        split hs (unread c.in_buf ++ arriving replies) (stream calls) q
          (append_assoc (unread c.in_buf) (arriving replies) (stream calls) ∙ e) short in
      let (first, later) =
        All-append IsHeartbeat s.whole s.others (subst (All IsHeartbeat) s.parts beats) in
      Returns-bind
        (λ (a', c').
          (a' ≡ serve step a s.whole)
          × Settled handle_pkt step (with_replies c replies) s.begun none c')
        (λ (a', c').
          (a' ≡ serve step a hs) × Waits c' × (unread c'.in_buf ≡ q) × (c'.handle ≡ c.handle))
        _ _
        (on_read-Settled handle_pkt step a (with_replies c replies) now s.whole s.begun none handle
          serves w.valid (omega (arith, w.short, w.front, length-unread w.valid, small.0))
          s.prefix_is first (few s.begun s.short) open_)
        λ (a', c') (served, (v', u', r', kept)).
          Returns-mono
            (λ (a2, c2).
              (a2 ≡ serve step a' s.others)
              × Waits c2
              × (unread c2.in_buf ≡ q)
              × (c2.handle ≡ c'.handle))
            (λ (a2, c2).
              (a2 ≡ serve step a hs) × Waits c2 × (unread c2.in_buf ≡ q) × (c2.handle ≡ c.handle))
            _
            (λ (a2, c2) (served2, w2, u2, kept2). (
              served2
                  ∙ ap (λ x. serve step x s.others) served
                  ∙ serve-append step a s.whole s.others
                  ∙ ap (serve step a) (sym s.parts),
              w2,
              u2,
              kept2 ∙ kept,
            ))
            (on_reads-serve calls a' c' s.others q handle serves
              (record { valid = v'; front = r'; short = omega (arith, ap length u', s.short) })
              (ap (λ p. p ++ stream calls) u' ∙ s.rest_is) short later small.1 (kept ∙ open_))

-- ===== src/Pending/Delivery.antt =====
-- The packets that other threads send reach their connections, in the order in which they were sent.
use netter.Common.{
  ℕ, ◌+◌, ◌≡◌, refl, ap, ap₂, sym, subst, ◌∙◌, Bool, true, false, List, [], ◌∷◌, ◌++◌, append_assoc,
  append-nil, Option, none, some, Result, ok, ◌>>=◌, Returns, Returns-bind, Returns-mono, arith,
  All, ◌==◌, ==_iff, Bool-cases, inl, inr, if◌then◌else◌,
}
use netter.Buffer.Queue.{HasRoom}
use netter.Packet.{PktBase, get_length}
use netter.Packet.RoundTrip.{wire}
use netter.Conn.{BaseConn, send_pkt}
use netter.Conn.Delivery.{IsSound, delivered, Delivers}
use netter.Conn.Waiting.{IsWhole, wires, length-wire_le, send_pkt-Delivers, add_to_wait_pkt_list}
use netter.Pending.Lookup.{find-here, find-there, find-change, find-change_other}
use netter.Pending.{ConnMap, find, change, take_packet, take_packets}

-- What has been given to a connection to send: what it delivers, then what waits for the opening.
unfoldable pub given : BaseConn → List ℕ
given c = delivered c ++ wires c.wait_pkt_list

-- The packets for a handle, in order.
unfoldable pub for_handle : ℕ → List (ℕ × PktBase) → List PktBase
for_handle handle [] = []
for_handle handle ((h, pkt) ∷ rest) =
    let later = for_handle handle rest in if h == handle then pkt ∷ later else later

unfoldable pub all_lengths : List (ℕ × PktBase) → ℕ
all_lengths [] = 0
all_lengths ((h, pkt) ∷ rest) = get_length pkt + all_lengths rest

-- A connection that can take `n` bytes more; packets wait only for the opening, and what waits has
-- been given after all that is delivered.
pub record Ready (n : ℕ) (c : BaseConn) : Type 0 where
  pub sound : IsSound c
  pub room : HasRoom c.out_buf n
  pub no_wait : c.is_open ≡ true → c.wait_pkt_list ≡ []

abbrev pub AllReady : ℕ → ConnMap → Type 0
AllReady n conns = All (λ entry. Ready n entry.1) conns

find-Ready :
    (n handle : ℕ) (conns : ConnMap) (c : BaseConn)
    → AllReady n conns
    → find handle conns ≡ some c
    → Ready n c
find-Ready n handle [] c all e = absurd (unfold find in cc)
find-Ready n handle ((h, o) ∷ rest) c all e = elim (Bool-cases (h == handle)) [
  | inl here ↦
      let same : some o ≡ some c = sym (find-here h handle o rest here) ∙ e in
      subst (Ready n) (let z : o ≡ c = cc in z) all.0
  | inr there ↦ find-Ready n handle rest c all.1 (sym (find-there h handle o rest there) ∙ e)
]

change-Ready :
    (n handle : ℕ) (c : BaseConn) (conns : ConnMap)
    → Ready n c
    → AllReady n conns
    → AllReady n (change handle c conns)
unfolding change
change-Ready n handle c [] r all = all
change-Ready n handle c ((h, o) ∷ rest) r all = elim (Bool-cases (h == handle)) [
  | inl here ↦ rw here (r, all.1)
  | inr there ↦ rw there (all.0, change-Ready n handle c rest r all.1)
]

fewer-Ready : (k n : ℕ) (conns : ConnMap) → AllReady (k + n) conns → AllReady n conns
fewer-Ready k n [] all = all
fewer-Ready k n ((h, c) ∷ rest) (r, all) = (
  record { sound = r.sound; room = omega (arith, r.room); no_wait = r.no_wait },
  fewer-Ready k n rest all,
)

wires-append : (xs ys : List PktBase) → wires (xs ++ ys) ≡ wires xs ++ wires ys
unfolding wires
wires-append [] ys = refl
wires-append (x ∷ xs) ys =
    ap (λ q. wire x ++ q) (wires-append xs ys) ∙ sym (append_assoc (wire x) (wires xs) (wires ys))

-- What one packet adds to what a handle was given.
abbrev pub addition : ℕ → ℕ → PktBase → List PktBase
addition handle h pkt = if h == handle then pkt ∷ [] else []

-- The connections after packets: still ready, and every connection has been given its own.
abbrev pub Takes : ℕ → (ℕ → List PktBase) → ConnMap → ConnMap → Type 0
Takes n pkts conns conns' =
    AllReady n conns'
    × ((handle : ℕ) (c : BaseConn)
        → find handle conns ≡ some c
        → (c' : BaseConn) × (find handle conns' ≡ some c')
          × (given c' ≡ given c ++ wires (pkts handle)))

-- The map with one connection changed, which has been given the packet.
change-Takes :
    (n h : ℕ) (pkt : PktBase) (conns : ConnMap) (c c' : BaseConn)
    → AllReady n conns
    → find h conns ≡ some c
    → Ready n c'
    → given c' ≡ given c ++ wires (pkt ∷ [])
    → Takes n (λ handle. addition handle h pkt) conns (change h c' conns)
unfolding wires
change-Takes n h pkt conns c c' all e r g = (
  change-Ready n h c' conns r all,
  λ handle d found. elim (Bool-cases (h == handle)) [
    | inl here ↦
        let same : h ≡ handle = (==_iff h handle).0 here in
        let eq : some d ≡ some c = sym found ∙ ap (λ k. find k conns) (sym same) ∙ e in
        let dc : c ≡ d = cc in
        (
          c',
          ap (λ k. find k (change h c' conns)) (sym same) ∙ find-change h c' conns c e,
          rw here (g ∙ ap (λ q. given q ++ (wire pkt ++ [])) dc),
        )
    | inr there ↦ (
      d,
      find-change_other handle h c' conns there ∙ found,
      rw there (sym (append-nil (given d))),
    )
  ],
)

if_true :
    {A : Type 0} (P : A → Type 0) (b : Bool) (m m' : Result A)
    → b ≡ true
    → Returns m P
    → Returns (if b then m else m') P
if_true P b m m' e r = subst (λ q. Returns (if q then m else m') P) (sym e) r

if_false :
    {A : Type 0} (P : A → Type 0) (b : Bool) (m m' : Result A)
    → b ≡ false
    → Returns m' P
    → Returns (if b then m else m') P
if_false P b m m' e r = subst (λ q. Returns (if q then m else m') P) (sym e) r

-- On an open connection the packet is sent.
given-sent :
    (c c' : BaseConn) (pkt : PktBase)
    → delivered c' ≡ delivered c ++ wire pkt
    → c'.wait_pkt_list ≡ []
    → c.wait_pkt_list ≡ []
    → given c' ≡ given c ++ wires (pkt ∷ [])
unfolding given wires
given-sent c c' pkt d none_after none_before =
    ap₂ (λ x y. x ++ wires y) d none_after
    ∙ append-nil (delivered c ++ wire pkt)
    ∙ ap₂ (◌++◌)
        (sym (append-nil (delivered c)) ∙ ap (λ y. delivered c ++ wires y) (sym none_before))
        (sym (append-nil (wire pkt)))

send-Takes :
    (n now h : ℕ) (pkt : PktBase) (conns : ConnMap) (c : BaseConn)
    → find h conns ≡ some c
    → AllReady n conns
    → Ready (get_length pkt + n) c
    → IsWhole pkt
    → c.is_open ≡ true
    → Returns
        (do (c', _) ← send_pkt c now pkt; ok (change h c' conns))
        (Takes n (λ handle. addition handle h pkt) conns)
send-Takes n now h pkt conns c e all r whole opened =
    Returns-bind (λ (c', k). (k ≡ get_length pkt) × Delivers c (wire pkt) c')
      (Takes n (λ handle. addition handle h pkt) conns) (send_pkt c now pkt) _
      (send_pkt-Delivers now pkt r.sound (omega (arith, r.room)) whole opened)
      λ (c', k) (_, (v', o', d', w', f')).
        let same : c'.wait_pkt_list ≡ c.wait_pkt_list = ap (λ q. q.wait_pkt_list) f' in
        change-Takes n h pkt conns c c' all e
          (record {
            sound = v';
            room = omega (arith, r.room, w', length-wire_le pkt);
            no_wait = λ o. same ∙ r.no_wait opened;
          })
          (given-sent c c' pkt d' (same ∙ r.no_wait opened) (r.no_wait opened))

-- On one that is not open yet it waits.
wait-Takes :
    (n h : ℕ) (pkt : PktBase) (conns : ConnMap) (c : BaseConn)
    → find h conns ≡ some c
    → AllReady n conns
    → Ready n c
    → c.is_open ≡ false
    → Takes n (λ handle. addition handle h pkt) conns (change h (add_to_wait_pkt_list c pkt) conns)
unfolding add_to_wait_pkt_list given delivered
wait-Takes n h pkt conns c e all r closed =
    change-Takes n h pkt conns c (add_to_wait_pkt_list c pkt) all e
      (record {
        sound = record { out_valid = r.sound.out_valid; idle_empty = r.sound.idle_empty };
        room = r.room;
        no_wait = λ o. absurd cc;
      })
      (ap (λ q. delivered c ++ q) (wires-append c.wait_pkt_list (pkt ∷ []))
        ∙ sym (append_assoc (delivered c) (wires c.wait_pkt_list) (wires (pkt ∷ []))))

wires_none : [] ≡ wires []
unfolding wires
wires_none = refl

take_packet-Takes :
    (n now h : ℕ) (pkt : PktBase) (conns : ConnMap) (found : Option BaseConn)
    → find h conns ≡ found
    → AllReady (get_length pkt + n) conns
    → IsWhole pkt
    → Returns (take_packet now h pkt conns) (Takes n (λ handle. addition handle h pkt) conns)
unfolding take_packet
take_packet-Takes n now h pkt conns none e all whole =
    rw (e, take_packet)
      (
        fewer-Ready (get_length pkt) n conns all,
        λ handle d found. elim (Bool-cases (h == handle)) [
          | inl here ↦
              let both : none ≡ some d =
                sym e ∙ ap (λ k. find k conns) ((==_iff h handle).0 here) ∙ found in
              absurd cc
          | inr there ↦
              (d, found, rw there (sym (append-nil (given d)) ∙ ap (λ q. given d ++ q) wires_none))
        ],
      )
take_packet-Takes n now h pkt conns (some c) e all whole =
    let r = find-Ready (get_length pkt + n) h conns c all e in
    let less = fewer-Ready (get_length pkt) n conns all in
    rw (e, take_packet)
      (elim (Bool-cases c.is_open) [
        | inl opened ↦
            if_true (Takes n (λ handle. addition handle h pkt) conns) c.is_open _ _ opened
              (send-Takes n now h pkt conns c e less r whole opened)
        | inr closed ↦
            if_false (Takes n (λ handle. addition handle h pkt) conns) c.is_open _ _ closed
              (wait-Takes n h pkt conns c e less (find-Ready n h conns c less e) closed)
      ])

-- One packet and then others add what they all add.
then-Takes :
    (n h handle : ℕ) (pkt : PktBase) (rest : List (ℕ × PktBase))
    → wires (addition handle h pkt) ++ wires (for_handle handle rest)
      ≡ wires (for_handle handle ((h, pkt) ∷ rest))
unfolding wires for_handle
then-Takes n h handle pkt rest = elim (Bool-cases (h == handle)) [
  | inl here ↦ rw here (ap (λ q. q ++ wires (for_handle handle rest)) (append-nil (wire pkt)))
  | inr there ↦ rw there refl
]

pub take_packets-Takes :
    (now : ℕ) (pkts : List (ℕ × PktBase)) (conns : ConnMap)
    → AllReady (all_lengths pkts) conns
    → All (λ entry. IsWhole entry.1) pkts
    → Returns (take_packets now pkts conns) (Takes 0 (λ handle. for_handle handle pkts) conns)
unfolding take_packets all_lengths for_handle
take_packets-Takes now [] conns all whole = (
  all,
  λ handle c found. (c, found, sym (append-nil (given c)) ∙ ap (λ q. given c ++ q) wires_none),
)
take_packets-Takes now ((h, pkt) ∷ rest) conns all whole =
    Returns-bind (Takes (all_lengths rest) (λ handle. addition handle h pkt) conns)
      (Takes 0 (λ handle. for_handle handle ((h, pkt) ∷ rest)) conns) (take_packet now h pkt conns)
      _ (take_packet-Takes (all_lengths rest) now h pkt conns (find h conns) refl all whole.0)
      λ conns1 (ready1, gives1).
        Returns-mono (Takes 0 (λ handle. for_handle handle rest) conns1)
          (Takes 0 (λ handle. for_handle handle ((h, pkt) ∷ rest)) conns) _
          (λ conns2 (ready2, gives2). (
            ready2,
            λ handle c found.
                let (c1, found1, g1) = gives1 handle c found in
                let (c2, found2, g2) = gives2 handle c1 found1 in
                (
                  c2,
                  found2,
                  g2
                      ∙ ap (λ q. q ++ wires (for_handle handle rest)) g1
                      ∙ append_assoc (given c) (wires (addition handle h pkt))
                          (wires (for_handle handle rest))
                      ∙ ap (λ q. given c ++ q) (then-Takes 0 h handle pkt rest),
                ),
          ))
          (take_packets-Takes now rest conns1 ready1 whole.1)

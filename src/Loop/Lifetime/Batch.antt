-- ===== src/Loop/Lifetime/Batch.antt =====
-- Which sockets a batch of events deletes (src/netter/event_loop.cpp, src/netter/util.h).
use netter.Common.{
  arith, ℕ, suc, ◌-◌, Returns-bind, Bool, true, false, List, [], ◌∷◌, some, Result, ok, fault,
  if◌then◌else◌, ◌==◌, ==_iff, ne→==, All, ◌≡◌, ◌≢◌, refl, ap, sym, subst, ◌∙◌, Bool-cases, inl,
  inr, Returns, Returns-mono,
}
use netter.Loop.{member}
use netter.Loop.Lifetime.{
  RefCount, add_ref, release_ref, at_socket, Handled, close_sockets, handle_event, handle_events,
}

-- A socket with this many references: deleted where there are none.
abbrev pub with_refs : ℕ → RefCount
with_refs n = record { ref_count = n; deleted = n == 0 }

-- An event of a socket, with the sockets that its callbacks close.
abbrev pub handled : List (ℕ × List ℕ) → List Handled
handled [] = []
handled ((p, closes) ∷ rest) = record { pointer = some p; closes = closes } ∷ handled rest

-- The sockets that an event uses: its own, and those that it closes.
abbrev pub uses : ℕ × List ℕ → List ℕ
uses (p, closes) = p ∷ closes

abbrev pub Distinct : List ℕ → Type 0
Distinct [] = Unit
Distinct (x ∷ xs) = All (λ y. y ≢ x) xs × Distinct xs

-- Two lists with no common element.
abbrev pub IsApart : List ℕ → List ℕ → Type 0
IsApart xs ys = All (λ y. All (λ x. y ≢ x) xs) ys

-- An event closes no socket twice, and no socket that another event uses: epoll gives one event for a
-- descriptor.
abbrev pub Separate : List (ℕ × List ℕ) → Type 0
Separate [] = Unit
Separate (e ∷ rest) = Distinct e.1 × All (λ e'. IsApart (uses e) (uses e')) rest × Separate rest

-- The sockets that the events use have one reference each.
abbrev pub InUse : (ℕ → RefCount) → List (ℕ × List ℕ) → Type 0
InUse sockets events = All (λ e. All (λ x. sockets x ≡ with_refs 1) (uses e)) events

-- Whether the batch closes a socket.
unfoldable pub is_closed : ℕ → List (ℕ × List ℕ) → Bool
is_closed q [] = false
is_closed q ((p, closes) ∷ rest) =
    let later = is_closed q rest in if member q closes then true else later

-- What the batch does to a socket: it is deleted where the batch closes it, and else left.
abbrev pub after_batch : List (ℕ × List ℕ) → (ℕ → RefCount) → ℕ → RefCount
after_batch events sockets q = if is_closed q events then with_refs 0 else sockets q

abbrev place : ℕ → RefCount → (ℕ → RefCount) → ℕ → RefCount
place p r sockets q = if q == p then r else sockets q

at_socket_lem :
    (act : RefCount → Result RefCount) (p : ℕ) (sockets : ℕ → RefCount) (r r' : RefCount)
    → sockets p ≡ r
    → act r ≡ ok r'
    → at_socket act p sockets ≡ ok (place p r' sockets)
unfolding at_socket
at_socket_lem act p sockets r r' e f = rw (at_socket, e, f) refl

at_socket_faults :
    (act : RefCount → Result RefCount) (p : ℕ) (sockets : ℕ → RefCount) (r : RefCount)
    → sockets p ≡ r
    → act r ≡ fault
    → at_socket act p sockets ≡ fault
unfolding at_socket
at_socket_faults act p sockets r e f = rw (at_socket, e, f) refl

deleted_faults : add_ref (with_refs 0) ≡ fault
unfolding add_ref
deleted_faults = refl

placed : (p : ℕ) (r : RefCount) (sockets : ℕ → RefCount) → place p r sockets p ≡ r
placed p r sockets = rw ((==_iff p p).1 refl) refl

-- The references of a socket that is handled: one more, and one less for each release.
adds : add_ref (with_refs 1) ≡ ok (with_refs 2)
unfolding add_ref
adds = refl

releases_two : release_ref (with_refs 2) ≡ ok (with_refs 1)
unfolding release_ref
releases_two = refl

releases_one : release_ref (with_refs 1) ≡ ok (with_refs 0)
unfolding release_ref
releases_one = refl

releases : (k : ℕ) → release_ref (with_refs (suc k)) ≡ ok (with_refs k)
unfolding release_ref
releases k =
    rw
      (
        (let z : (suc k == 0) ≡ false = ground arith in z),
        (let e : suc k - 1 ≡ k = omega arith in e),
      )
      refl

member-none : (q : ℕ) (xs : List ℕ) → All (λ x. q ≢ x) xs → member q xs ≡ false
unfolding member
member-none q [] h = refl
member-none q (x ∷ xs) (ne, h) = rw (ne→== x q (λ e. ne (sym e))) (member-none q xs h)

placed-others :
    (c : ℕ) (r : RefCount) (sockets : ℕ → RefCount) (refs : ℕ → RefCount) (xs : List ℕ)
    → All (λ x. x ≢ c) xs
    → All (λ x. sockets x ≡ refs x) xs
    → All (λ x. place c r sockets x ≡ refs x) xs
placed-others c r sockets refs [] ne h = tt
placed-others c r sockets refs (x ∷ xs) (ne, nes) (h, hs) =
    ((rw (ne→== x c ne) h), placed-others c r sockets refs xs nes hs)

-- One is closed, and then the rest.
then_closed :
    (left : ℕ → ℕ) (sockets : ℕ → RefCount) (c : ℕ) (rest : List ℕ) (q : ℕ)
    → (if member q rest then with_refs (left q) else place c (with_refs (left c)) sockets q)
      ≡ (if member q (c ∷ rest) then with_refs (left q) else sockets q)
unfolding member
then_closed left sockets c rest q = elim (Bool-cases (c == q)) [
  | inl here ↦
      let e : c ≡ q = (==_iff c q).0 here in
      let own : place c (with_refs (left c)) sockets q ≡ with_refs (left q) =
        rw ((==_iff q c).1 (sym e)) (ap (λ j. with_refs (left j)) e) in
      rw here (elim (Bool-cases (member q rest)) [ inl m ↦ rw m refl | inr m ↦ rw m own ])
  | inr elsewhere ↦
      rw
        (
          elsewhere,
          ne→== q c (λ e. absurd (let b : (c == q) ≡ true = (==_iff c q).1 (sym e) in cc)),
        )
        refl
]

-- The sockets after these have been closed, which have one reference more than `left` says.
close_sockets-closed :
    (left : ℕ → ℕ) (closes : List ℕ) (sockets : ℕ → RefCount)
    → Distinct closes
    → All (λ x. sockets x ≡ with_refs (suc (left x))) closes
    → Returns
        (close_sockets closes sockets)
        (λ after. (q : ℕ) → after q ≡ (if member q closes then with_refs (left q) else sockets q))
unfolding close_sockets member
close_sockets-closed left [] sockets distinct held = λ q. refl
close_sockets-closed left (c ∷ rest) sockets (new, distinct) (h, held) =
    let sockets' = place c (with_refs (left c)) sockets in
    rw
      (
        close_sockets,
        at_socket_lem release_ref c sockets (with_refs (suc (left c))) (with_refs (left c)) h
            (releases (left c)),
      )
      (Returns-mono
        (λ after. (q : ℕ) → after q ≡ (if member q rest then with_refs (left q) else sockets' q))
        (λ after.
          (q : ℕ) → after q ≡ (if member q (c ∷ rest) then with_refs (left q) else sockets q))
        (close_sockets rest sockets') (λ after g q. g q ∙ then_closed left sockets c rest q)
        (close_sockets-closed left rest sockets' distinct (
          placed-others c (with_refs (left c)) sockets (λ x. with_refs (suc (left x))) rest new
            held)))

-- What is left of a socket while the event of socket `p` is handled, once it has been closed.
abbrev left_for : ℕ → ℕ → ℕ
left_for p q = if q == p then 1 else 0

held_for :
    (p : ℕ) (sockets : ℕ → RefCount) (xs : List ℕ)
    → All (λ x. sockets x ≡ with_refs 1) xs
    → All (λ x. place p (with_refs 2) sockets x ≡ with_refs (suc (left_for p x))) xs
held_for p sockets [] h = tt
held_for p sockets (x ∷ xs) (h, hs) = (
  (elim (Bool-cases (x == p)) [ inl own ↦ rw own refl | inr other ↦ rw other h ]),
  held_for p sockets xs hs,
)

-- Whether the event's socket keeps its reference.
abbrev kept : ℕ → List ℕ → ℕ
kept p closes = if member p closes then 0 else 1

own_left :
    (p : ℕ) (closes : List ℕ) (sockets : ℕ → RefCount)
    → (if member p closes then with_refs (left_for p p) else place p (with_refs 2) sockets p)
      ≡ with_refs (suc (kept p closes))
own_left p closes sockets = elim (Bool-cases (member p closes)) [
  | inl m ↦ rw (m, (==_iff p p).1 refl) refl
  | inr m ↦ rw (m, (==_iff p p).1 refl) refl
]

released :
    (p : ℕ) (closes : List ℕ) (sockets : ℕ → RefCount) (closed : ℕ → RefCount) (q : ℕ)
    → sockets p ≡ with_refs 1
    → closed q
      ≡ (if member q closes then with_refs (left_for p q) else place p (with_refs 2) sockets q)
    → place p (with_refs (kept p closes)) closed q
      ≡ (if member q closes then with_refs 0 else sockets q)
released p closes sockets closed q own h = elim (Bool-cases (q == p)) [
  | inl here ↦
      let e : p ≡ q = sym ((==_iff q p).0 here) in
      rw here (
        subst
          (λ j. with_refs (kept p closes) ≡ (if member j closes then with_refs 0 else sockets j)) e
          (elim (Bool-cases (member p closes)) [ inl m ↦ rw m refl | inr m ↦ rw m (sym own) ]))
  | inr other ↦ rw other (h ∙ (rw other refl))
]

-- One event: its socket is left as it was where it is not closed.
handle_event-after :
    (p : ℕ) (closes : List ℕ) (sockets : ℕ → RefCount)
    → Distinct closes
    → All (λ x. sockets x ≡ with_refs 1) (p ∷ closes)
    → Returns
        (handle_event (some p) closes sockets)
        (λ after. (q : ℕ) → after q ≡ (if member q closes then with_refs 0 else sockets q))
unfolding handle_event
handle_event-after p closes sockets distinct (own, others) =
    rw (handle_event, at_socket_lem add_ref p sockets (with_refs 1) (with_refs 2) own adds)
      (Returns-bind
        (λ closed.
          (q : ℕ)
          → closed q ≡ (
              if member q closes
              then with_refs (left_for p q)
              else place p (with_refs 2) sockets q))
        (λ after. (q : ℕ) → after q ≡ (if member q closes then with_refs 0 else sockets q))
        (close_sockets closes (place p (with_refs 2) sockets)) (at_socket release_ref p)
        (close_sockets-closed (left_for p) closes (place p (with_refs 2) sockets) distinct
          (held_for p sockets closes others))
        λ closed h.
          rw
            (at_socket_lem release_ref p closed (with_refs (suc (kept p closes)))
              (with_refs (kept p closes)) (h p ∙ own_left p closes sockets)
              (releases (kept p closes)))
            (λ q. released p closes sockets closed q own (h q)))

-- The sockets of the rest of the batch are as they were.
still_alive :
    (e : ℕ × List ℕ) (rest : List (ℕ × List ℕ)) (sockets after : ℕ → RefCount)
    → ((q : ℕ) → after q ≡ (if member q e.1 then with_refs 0 else sockets q))
    → All (λ e'. IsApart (uses e) (uses e')) rest
    → InUse sockets rest
    → InUse after rest
still_alive e [] sockets after h apart alive = tt
still_alive e (e' ∷ rest) sockets after h (a, apart) (b, alive) =
    (each (uses e') a b, still_alive e rest sockets after h apart alive)
  where
    each :
        (xs : List ℕ)
        → All (λ y. All (λ x. y ≢ x) (uses e)) xs
        → All (λ x. sockets x ≡ with_refs 1) xs
        → All (λ x. after x ≡ with_refs 1) xs
    each [] a b = tt
    each (x ∷ xs) (a, later) (b, rest) = (h x ∙ (rw (member-none x e.1 a.1) b), each xs later rest)

-- A batch of events whose sockets, and the ones that their callbacks close, have one reference each,
-- where no callback closes a socket twice, nor one that another event of the batch uses: no event uses
-- a deleted socket, the sockets that are closed are deleted, and every other is left as it was.
pub handle_events-after_batch :
    (events : List (ℕ × List ℕ)) (sockets : ℕ → RefCount)
    → Separate events
    → InUse sockets events
    → Returns
        (handle_events (handled events) sockets)
        (λ after. (q : ℕ) → after q ≡ after_batch events sockets q)
unfolding handle_events is_closed
handle_events-after_batch [] sockets separate alive = λ q. refl
handle_events-after_batch ((p, closes) ∷ rest) sockets (distinct, apart, separate) (own, alive) =
    Returns-bind (λ after. (q : ℕ) → after q ≡ (if member q closes then with_refs 0 else sockets q))
      (λ last. (q : ℕ) → last q ≡ after_batch ((p, closes) ∷ rest) sockets q)
      (handle_event (some p) closes sockets) (handle_events (handled rest))
      (handle_event-after p closes sockets distinct own)
      λ after h.
        Returns-mono (λ last. (q : ℕ) → last q ≡ after_batch rest after q)
          (λ last. (q : ℕ) → last q ≡ after_batch ((p, closes) ∷ rest) sockets q)
          (handle_events (handled rest) after) (λ last g q. g q ∙ both after q (h q))
          (handle_events-after_batch rest after separate
            (still_alive (p, closes) rest sockets after h apart alive))
  where
    both :
        (after : ℕ → RefCount) (q : ℕ)
        → after q ≡ (if member q closes then with_refs 0 else sockets q)
        → after_batch rest after q ≡ after_batch ((p, closes) ∷ rest) sockets q
    both after q e = elim (Bool-cases (member q closes)) [
      | inl m ↦ rw m (elim (Bool-cases (is_closed q rest)) [
        | inl l ↦ rw l refl
        | inr l ↦ rw l (e ∙ (rw m refl))
      ])
      | inr m ↦ rw m (ap (λ r. if is_closed q rest then with_refs 0 else r) (e ∙ (rw m refl)))
    ]

-- A callback that closes the socket of a later event of the same batch makes the loop use that socket
-- after it is deleted.
pub handle_events_use_after_free :
    (p q : ℕ) (sockets : ℕ → RefCount) (closes : List ℕ) (rest : List Handled)
    → p ≢ q
    → sockets p ≡ with_refs 1
    → sockets q ≡ with_refs 1
    → handle_events
        (record { pointer = some p; closes = q ∷ [] }
          ∷ record { pointer = some q; closes = closes }
          ∷ rest)
        sockets
      ≡ fault
unfolding handle_events handle_event close_sockets
handle_events_use_after_free p q sockets closes rest ne a b =
    let held = place p (with_refs 2) sockets in
    let closed = place q (with_refs 0) held in
    let released = place p (with_refs 1) closed in
    let q_not_p = ne→== q p (λ e. ne (sym e)) in
    rw
      (
        handle_events,
        handle_event,
        at_socket_lem add_ref p sockets (with_refs 1) (with_refs 2) a adds,
        at_socket_lem release_ref q held (with_refs 1) (with_refs 0) ((rw q_not_p refl) ∙ b)
            releases_one,
        at_socket_lem release_ref p closed (with_refs 2) (with_refs 1)
            ((rw (ne→== p q ne) refl) ∙ placed p (with_refs 2) sockets) releases_two,
        at_socket_faults add_ref q released (with_refs 0)
            ((rw q_not_p refl) ∙ placed q (with_refs 0) held) deleted_faults,
      )
      refl

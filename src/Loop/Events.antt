-- ===== src/Loop/Events.antt =====
-- Events that other threads leave for a loop are added once each, in their order.
use netter.Common.{
  ℕ, ◌≡◌, refl, ap, ap₂, sym, ◌∙◌, false, List, [], ◌∷◌, ◌++◌, append_assoc, append-nil, Option,
  none, some, Bool-cases, inl, inr, if◌then◌else◌,
}
use netter.Loop.{
  RegisterEvent, EventLoop, has_bit, socket_connect_cb, apply_event, add_event, apply_events,
  register_events,
}

-- Another thread leaves an event, or the loop takes up what was left.
pub data Act : Type 0 where
  post : RegisterEvent → Act
  register : Act

unfoldable pub act : EventLoop → Act → EventLoop
act el (post e) = add_event el false e
act el register = register_events el

unfoldable pub acts : EventLoop → List Act → EventLoop
acts el [] = el
acts el (a ∷ rest) = acts (act el a) rest

-- The sockets whose `OnConnect` an event calls.
unfoldable pub called : RegisterEvent → List ℕ
called e = elim e.base_socket [
  | none ↦ []
  | some handle ↦ if has_bit e.socket_event socket_connect_cb then handle ∷ [] else []
]

unfoldable pub called_all : List RegisterEvent → List ℕ
called_all [] = []
called_all (e ∷ events) = called e ++ called_all events

unfoldable pub posted : List Act → List RegisterEvent
posted [] = []
posted (post e ∷ rest) = e ∷ posted rest
posted (register ∷ rest) = posted rest

apply_event-called_of :
    (el : EventLoop) (e : RegisterEvent) (s : Option ℕ)
    → e.base_socket ≡ s
    → ((apply_event el e).connects ≡ el.connects ++ called e)
      × ((apply_event el e).register_event_list ≡ el.register_event_list)
unfolding apply_event called
apply_event-called_of el e none same =
    rw (same, apply_event, called) (sym (append-nil el.connects), refl)
apply_event-called_of el e (some handle) same =
    elim (Bool-cases (has_bit e.socket_event socket_connect_cb)) [
      | inl calls ↦ rw (same, apply_event, called, calls) (refl, refl)
      | inr silent ↦ rw (same, apply_event, called, silent) (sym (append-nil el.connects), refl)
    ]

apply_events-called :
    (el : EventLoop) (events : List RegisterEvent)
    → ((apply_events el events).connects ≡ el.connects ++ called_all events)
      × ((apply_events el events).register_event_list ≡ el.register_event_list)
unfolding apply_events called_all
apply_events-called el [] = (sym (append-nil el.connects), refl)
apply_events-called el (e ∷ events) =
    let (c, l) = apply_events-called (apply_event el e) events in
    let (c', l') = apply_event-called_of el e e.base_socket refl in
    (
      c
          ∙ ap (λ q. q ++ called_all events) c'
          ∙ append_assoc el.connects (called e) (called_all events),
      l ∙ l',
    )

called_all-append :
    (xs ys : List RegisterEvent) → called_all (xs ++ ys) ≡ called_all xs ++ called_all ys
unfolding called_all
called_all-append [] ys = refl
called_all-append (x ∷ xs) ys =
    ap (λ q. called x ++ q) (called_all-append xs ys)
    ∙ sym (append_assoc (called x) (called_all xs) (called_all ys))

-- What has been called, and what the list will call.
unfoldable pub due : EventLoop → List ℕ
due el = el.connects ++ called_all el.register_event_list

-- However the posts of other threads and the loop's taking up of the list interleave, the calls of
-- `OnConnect` that have been made and those that the list still holds are, in order, those of before
-- and then one for each event posted that asks for it; and once the loop takes up the list, none is
-- held any more.
pub acts-due :
    (el : EventLoop) (steps : List Act)
    → (due (acts el steps) ≡ due el ++ called_all (posted steps))
      × ((register_events (acts el steps)).connects ≡ due el ++ called_all (posted steps))
unfolding acts act posted due add_event register_events called_all
acts-due el steps = (held el steps, taken (acts el steps) ∙ held el steps)
  where
    taken : (el : EventLoop) → (register_events el).connects ≡ due el
    taken el =
        (apply_events-called (record el { register_event_list = [] }) el.register_event_list).0

    held :
        (el : EventLoop) (steps : List Act)
        → due (acts el steps) ≡ due el ++ called_all (posted steps)
    held el [] = sym (append-nil (due el))
    held el (post e ∷ rest) =
        held (add_event el false e) rest
        ∙ ap (λ q. q ++ called_all (posted rest))
            (ap (λ q. el.connects ++ q) (called_all-append el.register_event_list (e ∷ []))
              ∙ sym (append_assoc el.connects (called_all el.register_event_list) (called e ++ [])))
        ∙ append_assoc (due el) (called e ++ []) (called_all (posted rest))
        ∙ ap (λ q. due el ++ (q ++ called_all (posted rest))) (append-nil (called e))
    held el (register ∷ rest) =
        held (register_events el) rest ∙ ap (λ q. q ++ called_all (posted rest)) (emptied el)
      where
        emptied : (el : EventLoop) → due (register_events el) ≡ due el
        emptied el =
            let (c, l) =
              apply_events-called (record el { register_event_list = [] }) el.register_event_list in
            ap₂ (λ x y. x ++ called_all y) c l ∙ append-nil (due el)

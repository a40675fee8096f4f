-- ===== src/Socket/Opening/Clean.antt =====
-- `Listen` and `Connect` of src/netter/base_socket.cpp on every answer of the system.
use netter.Common.{
  ℕ, ◌+◌, ◌≡◌, refl, Bool, true, false, List, Option, none, some, arith, ok, ◌&&◌, inl, inr,
  Returns, Bool-cases, Option-cases, ap, sym, ◌∙◌,
}
use netter.Resource.{pos, init, get_io_resource, get_io_resource-init}
use netter.Socket.{BaseSocket, SocketState, listening, connecting}
use netter.Socket.Address.{Resolver}
use netter.Socket.Opening.{
  Descriptor, Answers, ErrorNumber, in_progress, would_block, other, is_block, Opened, set_nonblock,
  set_reuse_addr, set_no_delay, listen, connect, opened, goes_on, bind_local,
}

abbrev pub Closed : Option Descriptor → Type 0
Closed none = Unit
Closed (some d) = d.is_open ≡ false

-- If `works`, the socket has its new state and a loop that was given its open descriptor, and the
-- caller gets its handle. If not, nothing is left open, no loop was told and the state is as before.
abbrev pub WorksIf : Bool → BaseSocket → SocketState → ℕ → Opened → Type 0
WorksIf true s state socket_event o =
    (d : Descriptor) × (l : ℕ) × (o.descriptor ≡ some d)
    × (d.is_open ≡ true)
    × (o.event
        ≡ some (record { fd = d.number; socket_event = socket_event; base_socket = some s.handle }))
    × (o.socket.socket ≡ some d.number)
    × (o.socket.state ≡ state)
    × (o.socket.event_loop ≡ some l)
    × (o.answer ≡ some s.handle)
WorksIf false s state socket_event o =
    (o.answer ≡ none) × (o.event ≡ none) × (o.socket.state ≡ s.state) × Closed o.descriptor

-- The calls of the system that `Listen` needs have succeeded, and those that `Connect` needs.
abbrev made_socket : Option Descriptor → Bool
made_socket none = false
made_socket (some d) = true

unfoldable pub can_listen : Answers → Bool
can_listen answers = made_socket answers.socket && answers.bind_done && answers.listen_done

abbrev can_bind : Answers → Option (List ℕ × ℕ) → Bool
can_bind answers none = true
can_bind answers (some local) = answers.bind_done

abbrev is_under_way : Option ErrorNumber → Bool
is_under_way (some other) = false
is_under_way _ = true

unfoldable pub can_connect : Answers → Option (List ℕ × ℕ) → Bool
can_connect answers local =
    made_socket answers.socket && can_bind answers local && is_under_way answers.connect

module _ (ok_flag : Bool) (d : Descriptor) where
  set_nonblock-keeps :
      ((set_nonblock ok_flag d true).is_open ≡ d.is_open)
      × ((set_nonblock ok_flag d true).number ≡ d.number)
  unfolding set_nonblock
  set_nonblock-keeps = ground arith

  set_reuse_addr-keeps :
      ((set_reuse_addr ok_flag d).is_open ≡ d.is_open)
      × ((set_reuse_addr ok_flag d).number ≡ d.number)
  unfolding set_reuse_addr
  set_reuse_addr-keeps = ground arith

  set_no_delay-keeps :
      ((set_no_delay ok_flag d).is_open ≡ d.is_open) × ((set_no_delay ok_flag d).number ≡ d.number)
  unfolding set_no_delay
  set_no_delay-keeps = ground arith

-- The new descriptor of an answer is open.
abbrev pub IsFresh : Answers → Type 0
IsFresh answers = (d : Descriptor) → answers.socket ≡ some d → d.is_open ≡ true

opened-Works :
    (s s' : BaseSocket) (d : Descriptor) (name : ℕ × ℕ) (state : SocketState) (l socket_event : ℕ)
    → s'.handle ≡ s.handle
    → s'.socket ≡ some d.number
    → d.is_open ≡ true
    → WorksIf true s state socket_event (opened s' d name state l socket_event)
unfolding opened
opened-Works s s' d name state l socket_event same made open_now = (
  d,
  l,
  refl,
  open_now,
  ap (λ h. some (record { fd = d.number; socket_event = socket_event; base_socket = some h })) same,
  made,
  refl,
  refl,
  ap some same,
)

listen-Works :
    (net : Resolver) (answers : Answers) (main_loop : ℕ) (s : BaseSocket) (server_ip : List ℕ)
    (port callback callback_data : ℕ)
    → IsFresh answers
    → WorksIf
        (can_listen answers)
        s
        listening
        21
        (listen net answers main_loop s server_ip port callback callback_data)
unfolding listen can_listen
listen-Works net answers main_loop s server_ip port callback callback_data fresh =
    elim (Option-cases answers.socket) [
      | inl e ↦ rw (e, listen) (refl, refl, refl, tt)
      | inr (d, e) ↦ elim (Bool-cases answers.bind_done) [
        | inr unbound ↦ rw (e, listen, unbound) (refl, refl, refl, refl)
        | inl is_bound ↦ elim (Bool-cases answers.listen_done) [
          | inr deaf ↦ rw (e, listen, is_bound, deaf) (refl, refl, refl, refl)
          | inl hears ↦
              let (o1, n1) = set_reuse_addr-keeps answers.reuse_done d in
              let (o2, n2) =
                set_nonblock-keeps answers.nonblock_done (set_reuse_addr answers.reuse_done d) in
              rw (e, listen, is_bound, hears)
                (opened-Works s _ _ answers.name listening main_loop 21 refl
                  (ap some (sym (n2 ∙ n1))) (o2 ∙ o1 ∙ fresh d e))
        ]
      ]
    ]

get_io_resource-loop :
    (n handle : ℕ) → (l : ℕ) × (get_io_resource (init 0 (λ i. i + 1) n) (pos handle) ≡ ok (some l))
get_io_resource-loop n handle = (_, get_io_resource-init 0 (λ i. i + 1) n handle)

bind_local-keeps :
    (net : Resolver) (answers : Answers) (local : Option (List ℕ × ℕ)) (d ready : Descriptor)
    → bind_local net answers local d ≡ some ready
    → (ready.is_open ≡ d.is_open) × (ready.number ≡ d.number)
unfolding bind_local
bind_local-keeps net answers none d ready e = ground arith
bind_local-keeps net answers (some local) d ready e = ground arith

bind_local-none :
    (net : Resolver) (answers : Answers) (local : Option (List ℕ × ℕ)) (d : Descriptor)
    → bind_local net answers local d ≡ none
    → can_bind answers local ≡ false
unfolding bind_local
bind_local-none net answers none d e = cc
bind_local-none net answers (some local) d e = ground arith

bind_local-some :
    (net : Resolver) (answers : Answers) (local : Option (List ℕ × ℕ)) (d : Descriptor)
    {ready : Descriptor}
    → bind_local net answers local d ≡ some ready
    → can_bind answers local ≡ true
unfolding bind_local
bind_local-some net answers none d e = refl
bind_local-some net answers (some local) d e = ground arith

goes_on-eq : (reply : Option ErrorNumber) → goes_on reply ≡ is_under_way reply
unfolding goes_on is_block
goes_on-eq none = refl
goes_on-eq (some in_progress) = refl
goes_on-eq (some would_block) = refl
goes_on-eq (some other) = refl

connect-Works :
    (net : Resolver) (answers : Answers) (n : ℕ) (s : BaseSocket) (server_ip : List ℕ)
    (port callback callback_data : ℕ) (local : Option (List ℕ × ℕ))
    → IsFresh answers
    → Returns
        (connect net answers (init 0 (λ i. i + 1) n) s server_ip port callback callback_data local)
        (WorksIf (can_connect answers local) s connecting 23)
unfolding connect can_connect
connect-Works net answers n s server_ip port callback callback_data local fresh =
    elim (Option-cases answers.socket) [
      | inl e ↦ rw (e, connect) (refl, refl, refl, tt)
      | inr (d, e) ↦
          let nonblocking = set_nonblock answers.nonblock_done d true in
          let quick = set_no_delay answers.no_delay_done nonblocking in
          elim (Option-cases (bind_local net answers local quick)) [
            | inl unbound ↦
                rw (e, connect, unbound, bind_local-none net answers local quick unbound)
                  (refl, refl, refl, refl)
            | inr (ready, is_bound) ↦ elim (Bool-cases (goes_on answers.connect)) [
              | inr stops ↦
                  rw
                    (
                      e,
                      connect,
                      is_bound,
                      stops,
                      bind_local-some net answers local quick is_bound,
                      sym (goes_on-eq answers.connect) ∙ stops,
                    )
                    (refl, refl, refl, refl)
              | inl goes ↦
                  let (o1, n1) = set_nonblock-keeps answers.nonblock_done d in
                  let (o2, n2) = set_no_delay-keeps answers.no_delay_done nonblocking in
                  let (o3, n3) = bind_local-keeps net answers local quick ready is_bound in
                  let (l, found) = get_io_resource-loop n s.handle in
                  rw
                    (
                      e,
                      connect,
                      is_bound,
                      goes,
                      found,
                      bind_local-some net answers local quick is_bound,
                      sym (goes_on-eq answers.connect) ∙ goes,
                    )
                    (opened-Works s _ _ answers.name connecting l 23 refl
                      (ap some (sym (n3 ∙ n2 ∙ n1))) (o3 ∙ o2 ∙ o1 ∙ fresh d e))
            ]
          ]
    ]

-- Whatever the system answers, with descriptors that are open when it makes them, and for any number
-- of I/O threads after `Init`: where every call of the system that `Listen` (`Connect`) needs
-- succeeds, a `connect` that is under way included, the socket is listening (connecting), its open
-- descriptor was given to its loop and its handle is returned. Else the answer is the invalid handle,
-- a descriptor that was made is closed again, no loop was told and the state is as it was.
pub open-WorksIf :
    (net : Resolver) (answers : Answers) (n : ℕ) (s : BaseSocket) (server_ip : List ℕ)
    (port callback callback_data : ℕ) (local : Option (List ℕ × ℕ))
    → IsFresh answers
    → WorksIf
        (can_listen answers)
        s
        listening
        21
        (listen net answers 0 s server_ip port callback callback_data)
      × Returns
          (connect net answers
            (init 0 (λ i. i + 1) n)
            s
            server_ip
            port
            callback
            callback_data
            local)
          (WorksIf (can_connect answers local) s connecting 23)
open-WorksIf net answers n s server_ip port callback callback_data local fresh = (
  listen-Works net answers 0 s server_ip port callback callback_data fresh,
  connect-Works net answers n s server_ip port callback callback_data local fresh,
)

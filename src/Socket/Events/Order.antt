-- ===== src/Socket/Events/Order.antt =====
-- The order of the messages that a socket of src/netter/base_socket.cpp gives its callback.
use netter.Common.{
  ℕ, Bool, true, false, not, ◌&&◌, List, [], ◌∷◌, ◌++◌, Option, none, some, if◌then◌else◌, ◌==◌,
  ◌≡◌, refl, ◌⊎◌, inl, inr, subst, Bool-cases, Option-cases, sym, ◌∙◌, arith,
}
use netter.Socket.{
  SocketState, idle, listening, connecting, connected, peer_closing, closing, BaseSocket,
}
use netter.Socket.Events.{
  NetMsg, connect, confirm, read, write, close, timer, EpollEvent, WriteAnswers, Told, tell,
  then_do, is_listening, is_closing, is_peer_closing, is_loop, on_connect, on_read, on_close,
  write_at, on_write, on_timer, on_event, at_input, at_output, at_failure, after_input, after_read,
  Notice, added, event, tick, on_notice, on_notices,
}

-- No second CONFIRM, no WRITE before the first, for a connection that is confirmed or not.
unfoldable pub orderly : Bool → List NetMsg → Bool
orderly confirmed [] = true
orderly confirmed (confirm ∷ rest) = not confirmed && orderly true rest
orderly confirmed (write ∷ rest) = confirmed && orderly confirmed rest
orderly confirmed (_ ∷ rest) = orderly confirmed rest

unfoldable pub confirmed_after : Bool → List NetMsg → Bool
confirmed_after confirmed [] = confirmed
confirmed_after confirmed (confirm ∷ rest) = confirmed_after true rest
confirmed_after confirmed (_ ∷ rest) = confirmed_after confirmed rest

-- Whether a state is that of a confirmed connection, where the state decides it.
abbrev pub Knows : Bool → SocketState → Type 0
Knows confirmed connecting = confirmed ≡ false
Knows confirmed connected = confirmed ≡ true
Knows confirmed _ = Unit

-- A callback may see the peer's end in `Recv`, or close the socket; it does not change the state else.
abbrev pub Later : SocketState → SocketState → Type 0
Later s t = (t ≡ s) ⊎ (t ≡ peer_closing) ⊎ (t ≡ closing)

Later-Knows : (b : Bool) (s t : SocketState) → Later s t → Knows b s → Knows b t
Later-Knows b s t (inl e) k = subst (Knows b) (sym e) k
Later-Knows b s t (inr (inl e)) k = subst (Knows b) (sym e) tt
Later-Knows b s t (inr (inr e)) k = subst (Knows b) (sym e) tt

orderly-append :
    (b : Bool) (xs ys : List NetMsg)
    → (orderly b (xs ++ ys) ≡ (orderly b xs && orderly (confirmed_after b xs) ys))
      × (confirmed_after b (xs ++ ys) ≡ confirmed_after (confirmed_after b xs) ys)
unfolding orderly confirmed_after
orderly-append b [] ys = (refl, refl)
orderly-append b (confirm ∷ xs) ys = ground (arith, orderly-append true xs ys)
orderly-append b (write ∷ xs) ys = ground (arith, orderly-append b xs ys)
orderly-append b (connect ∷ xs) ys = orderly-append b xs ys
orderly-append b (read ∷ xs) ys = orderly-append b xs ys
orderly-append b (close ∷ xs) ys = orderly-append b xs ys
orderly-append b (timer t ∷ xs) ys = orderly-append b xs ys

module _ {App : Type 0} (callback : NetMsg → BaseSocket × App → BaseSocket × App)
    (accept_new_socket : BaseSocket × App → BaseSocket × App)
    (forward : (msg : NetMsg) (w : BaseSocket × App) → Later w.0.state (callback msg w).0.state)
    (accepts : (w : BaseSocket × App) → (accept_new_socket w).0.state ≡ w.0.state) where
  abbrev KeepsOrder : Bool → Told callback accept_new_socket → Type 0
  KeepsOrder b r = (orderly b r.1 ≡ true) × Knows (confirmed_after b r.1) r.0.0.state

  then_do-KeepsOrder :
      (b : Bool) (r : Told callback accept_new_socket)
      (f : BaseSocket × App → Told callback accept_new_socket)
      → KeepsOrder b r
      → ((c : Bool) (w : BaseSocket × App) → Knows c w.0.state → KeepsOrder c (f w))
      → KeepsOrder b (then_do callback accept_new_socket r f)
  then_do-KeepsOrder b (w, told) f (o, k) next =
      let c = confirmed_after b told in
      let (o', k') = next c w k in
      let (oa, ca) = orderly-append b told (f w).1 in
      (oa ∙ ground (arith), subst (λ q. Knows q (f w).0.0.state) (sym ca) k')

  tell-KeepsOrder :
      (b : Bool) (msg : NetMsg) (w : BaseSocket × App)
      → orderly b (msg ∷ []) ≡ true
      → Knows (confirmed_after b (msg ∷ [])) w.0.state
      → KeepsOrder b (tell callback accept_new_socket msg w)
  tell-KeepsOrder b msg w o k = (
    o,
    Later-Knows (confirmed_after b (msg ∷ [])) w.0.state (callback msg w).0.state (forward msg w) k,
  )

  silent-KeepsOrder : (b : Bool) (w : BaseSocket × App) → Knows b w.0.state → KeepsOrder b (w, [])
  unfolding orderly confirmed_after
  silent-KeepsOrder b w k = (refl, k)

  after_read-KeepsOrder :
      (b : Bool) (w : BaseSocket × App)
      → Knows b w.0.state
      → KeepsOrder b (after_read callback accept_new_socket w)
  unfolding after_read orderly confirmed_after
  after_read-KeepsOrder b w k = elim (Bool-cases (is_peer_closing w.0.state)) [
    | inl ends ↦ rw (ends, after_read) (tell-KeepsOrder b close w refl k)
    | inr goes ↦ rw (goes, after_read) (silent-KeepsOrder b w k)
  ]

  on_close-KeepsOrder :
      (b : Bool) (w : BaseSocket × App)
      → Knows b w.0.state
      → KeepsOrder b (on_close callback accept_new_socket w)
  unfolding on_close orderly confirmed_after
  on_close-KeepsOrder b w k = elim (Bool-cases (is_closing w.0.state)) [
    | inl done ↦ rw (done, on_close) (silent-KeepsOrder b w k)
    | inr begins ↦ rw (begins, on_close) (tell-KeepsOrder b close _ refl tt)
  ]

  on_read-KeepsOrder :
      (avail : Option ℕ) (b : Bool) (w : BaseSocket × App)
      → Knows b w.0.state
      → KeepsOrder b (on_read callback accept_new_socket avail w)
  unfolding on_read orderly confirmed_after
  on_read-KeepsOrder avail b w k = elim (Bool-cases (is_listening w.0.state)) [
    | inl listens ↦
        rw (listens, on_read)
          (silent-KeepsOrder b (accept_new_socket w) (subst (Knows b) (sym (accepts w)) k))
    | inr open_now ↦ elim (Option-cases avail) [
      | inl e ↦ rw (open_now, e, on_read) (tell-KeepsOrder b close w refl k)
      | inr (n, e) ↦ elim (Bool-cases (n == 0)) [
        | inl ended ↦ rw (open_now, e, ended, on_read) (tell-KeepsOrder b close w refl k)
        | inr more ↦
            rw (open_now, e, more, on_read)
              (then_do-KeepsOrder b (tell callback accept_new_socket read w)
                (after_read callback accept_new_socket) (tell-KeepsOrder b read w refl k)
                after_read-KeepsOrder)
      ]
    ]
  ]

  write_at-KeepsOrder :
      (s : SocketState) (a : WriteAnswers) (b : Bool) (w : BaseSocket × App)
      → w.0.state ≡ s
      → Knows b s
      → KeepsOrder b (write_at callback accept_new_socket s a w)
  unfolding write_at orderly confirmed_after
  write_at-KeepsOrder connecting a b w e k = elim (Bool-cases (a.error == 0)) [
    | inr broken ↦
        rw (broken, write_at) (tell-KeepsOrder b close w refl (subst (Knows b) (sym e) k))
    | inl fine ↦ elim (Bool-cases (is_loop a)) [
      | inl loops ↦ rw (fine, loops, write_at) (on_close-KeepsOrder b w (subst (Knows b) (sym e) k))
      | inr good ↦ rw (fine, good, write_at) (tell-KeepsOrder b confirm _ (rw k refl) refl)
    ]
  ]
  write_at-KeepsOrder connected a b w e k =
      tell-KeepsOrder b write w (rw k refl) (subst (Knows b) (sym e) k)
  write_at-KeepsOrder idle a b w e k = silent-KeepsOrder b w (subst (Knows b) (sym e) k)
  write_at-KeepsOrder listening a b w e k = silent-KeepsOrder b w (subst (Knows b) (sym e) k)
  write_at-KeepsOrder peer_closing a b w e k = silent-KeepsOrder b w (subst (Knows b) (sym e) k)
  write_at-KeepsOrder closing a b w e k = silent-KeepsOrder b w (subst (Knows b) (sym e) k)

  on_write-KeepsOrder :
      (a : WriteAnswers) (b : Bool) (w : BaseSocket × App)
      → Knows b w.0.state
      → KeepsOrder b (on_write callback accept_new_socket a w)
  unfolding on_write
  on_write-KeepsOrder a b w k = write_at-KeepsOrder w.0.state a b w refl k

  on_timer-KeepsOrder :
      (curr_tick : ℕ) (b : Bool) (w : BaseSocket × App)
      → Knows b w.0.state
      → KeepsOrder b (on_timer callback accept_new_socket curr_tick w)
  unfolding on_timer orderly confirmed_after
  on_timer-KeepsOrder curr_tick b w k = elim (Bool-cases (is_listening w.0.state)) [
    | inl listens ↦ rw (listens, on_timer) (silent-KeepsOrder b w k)
    | inr open_now ↦ rw (open_now, on_timer) (tell-KeepsOrder b (timer curr_tick) w refl k)
  ]

  on_event-KeepsOrder :
      (e : EpollEvent) (b : Bool) (w : BaseSocket × App)
      → Knows b w.0.state
      → KeepsOrder b (on_event callback accept_new_socket e w)
  unfolding on_event after_input at_input at_output at_failure
  on_event-KeepsOrder e b w k =
      then_do-KeepsOrder b (at_input callback accept_new_socket e.epollin w)
        (after_input callback accept_new_socket e) (input e.epollin b w k)
        (λ c w' k'.
          then_do-KeepsOrder c (at_output callback accept_new_socket e.epollout w')
            (at_failure callback accept_new_socket e.failure) (output e.epollout c w' k')
            (failed e.failure))
    where
      input :
          (i : Option (Option ℕ)) (b : Bool) (w : BaseSocket × App)
          → Knows b w.0.state
          → KeepsOrder b (at_input callback accept_new_socket i w)
      input none b w k = silent-KeepsOrder b w k
      input (some avail) b w k = on_read-KeepsOrder avail b w k

      output :
          (o : Option WriteAnswers) (b : Bool) (w : BaseSocket × App)
          → Knows b w.0.state
          → KeepsOrder b (at_output callback accept_new_socket o w)
      output none b w k = silent-KeepsOrder b w k
      output (some a) b w k = on_write-KeepsOrder a b w k

      failed :
          (f b : Bool) (w : BaseSocket × App)
          → Knows b w.0.state
          → KeepsOrder b (at_failure callback accept_new_socket f w)
      failed true b w k = on_close-KeepsOrder b w k
      failed false b w k = silent-KeepsOrder b w k

  on_notice-KeepsOrder :
      (n : Notice) (b : Bool) (w : BaseSocket × App)
      → Knows b w.0.state
      → KeepsOrder b (on_notice callback accept_new_socket n w)
  unfolding on_notice on_connect orderly confirmed_after
  on_notice-KeepsOrder added b w k = tell-KeepsOrder b connect w refl k
  on_notice-KeepsOrder (event e) b w k = on_event-KeepsOrder e b w k
  on_notice-KeepsOrder (tick t) b w k = on_timer-KeepsOrder t b w k

  on_notices-KeepsOrder :
      (notices : List Notice) (b : Bool) (w : BaseSocket × App)
      → Knows b w.0.state
      → KeepsOrder b (on_notices callback accept_new_socket notices w)
  unfolding on_notices
  on_notices-KeepsOrder [] b w k = silent-KeepsOrder b w k
  on_notices-KeepsOrder (n ∷ rest) b w k =
      then_do-KeepsOrder b (on_notice callback accept_new_socket n w)
        (on_notices callback accept_new_socket rest) (on_notice-KeepsOrder n b w k)
        (on_notices-KeepsOrder rest)

  -- For a callback that leaves the state as it is but for the peer's end and the closing of the
  -- socket, and an accepting that leaves it alone: however a socket is called, a connection that was
  -- accepted is told of no CONFIRM, one that is being made at most once, and of no WRITE before it.
  pub messages-orderly :
      (notices : List Notice) (confirmed : Bool) (w : BaseSocket × App)
      → w.0.state ≡ (if confirmed then connected else connecting)
      → orderly confirmed (on_notices callback accept_new_socket notices w).1 ≡ true
  messages-orderly notices true w e =
      (on_notices-KeepsOrder notices true w (subst (Knows true) (sym e) refl)).0
  messages-orderly notices false w e =
      (on_notices-KeepsOrder notices false w (subst (Knows false) (sym e) refl)).0

-- ===== src/Socket/Events/Closing.antt =====
-- The last message of a socket of src/netter/base_socket.cpp.
use netter.Common.{
  ℕ, Bool, true, false, List, [], ◌∷◌, ◌++◌, Option, none, some, ◌==◌, ◌≡◌, refl, ◌⊎◌, inl, inr,
  Bool-cases, Option-cases, ap, ◌∙◌, append-nil,
}
use netter.Socket.{
  SocketState, idle, listening, connecting, connected, peer_closing, closing, BaseSocket,
}
use netter.Socket.Events.{
  NetMsg, connect, confirm, read, write, close, timer, EpollEvent, WriteAnswers, Told, tell,
  then_do, is_listening, is_closing, is_peer_closing, is_loop, on_connect, on_read, on_close,
  write_at, on_write, on_timer, on_event, at_input, at_output, at_failure, after_input, after_read,
  Notice, added, event, tick, on_notice, attended,
}

-- Nothing follows a CLOSE.
unfoldable pub close_last : List NetMsg → Bool
close_last [] = true
close_last (close ∷ []) = true
close_last (close ∷ (_ ∷ _)) = false
close_last (_ ∷ rest) = close_last rest

unfoldable pub has_close : List NetMsg → Bool
has_close [] = false
has_close (close ∷ rest) = true
has_close (_ ∷ rest) = has_close rest

close_last-append :
    (xs ys : List NetMsg)
    → has_close xs ≡ false
    → (close_last (xs ++ ys) ≡ close_last ys) × (has_close (xs ++ ys) ≡ has_close ys)
unfolding close_last has_close
close_last-append [] ys h = (refl, refl)
close_last-append (close ∷ xs) ys h = absurd cc
close_last-append (connect ∷ xs) ys h = close_last-append xs ys h
close_last-append (confirm ∷ xs) ys h = close_last-append xs ys h
close_last-append (read ∷ xs) ys h = close_last-append xs ys h
close_last-append (write ∷ xs) ys h = close_last-append xs ys h
close_last-append (timer t ∷ xs) ys h = close_last-append xs ys h

-- Either no CLOSE was told, or it was the last message and the socket is closed.
abbrev pub Ends : {App : Type 0} → (BaseSocket × App) × List NetMsg → Type 0
Ends r =
    (has_close r.1 ≡ false)
    ⊎ ((has_close r.1 ≡ true) × (close_last r.1 ≡ true) × (r.0.0.state ≡ closing))

module _ {App : Type 0} (callback : NetMsg → BaseSocket × App → BaseSocket × App)
    (accept_new_socket : BaseSocket × App → BaseSocket × App)
    (closes : (w : BaseSocket × App) → (callback close w).0.state ≡ closing) where
  -- A closed socket is left alone.
  abbrev Quiet : (BaseSocket × App → Told callback accept_new_socket) → Type 0
  Quiet f = (w : BaseSocket × App) → w.0.state ≡ closing → f w ≡ (w, [])

  then_do-Ends :
      (r : Told callback accept_new_socket) (f : BaseSocket × App → Told callback accept_new_socket)
      → Ends r
      → Quiet f
      → ((w : BaseSocket × App) → Ends (f w))
      → Ends (then_do callback accept_new_socket r f)
  then_do-Ends (w, told) f (inl none_yet) quiet next =
      let (l, h) = close_last-append told (f w).1 none_yet in
      elim (next w) [
        | inl still ↦ inl (h ∙ still)
        | inr (has, last, shut) ↦ inr (h ∙ has, l ∙ last, shut)
      ]
  then_do-Ends (w, told) f (inr (has, last, shut)) quiet next =
      rw (quiet w shut, append-nil told) (inr (has, last, shut))

  then_do-Quiet :
      (f g : BaseSocket × App → Told callback accept_new_socket)
      → Quiet f
      → Quiet g
      → Quiet (λ w. then_do callback accept_new_socket (f w) g)
  then_do-Quiet f g qf qg w shut = rw (qf w shut, qg w shut) refl

  silent-Ends : (w : BaseSocket × App) → Ends (w, [])
  unfolding has_close
  silent-Ends w = inl refl

  close-Ends : (w : BaseSocket × App) → Ends (tell callback accept_new_socket close w)
  unfolding has_close close_last
  close-Ends w = inr (refl, refl, closes w)

  -- A message that is no CLOSE.
  other-Ends :
      (msg : NetMsg) (w : BaseSocket × App)
      → has_close (msg ∷ []) ≡ false
      → Ends (tell callback accept_new_socket msg w)
  other-Ends msg w e = inl e

  after_read-Quiet : Quiet (after_read callback accept_new_socket)
  unfolding after_read
  after_read-Quiet w shut =
      rw (after_read, let e : is_peer_closing w.0.state ≡ false = ap is_peer_closing shut in e) refl

  after_read-Ends : (w : BaseSocket × App) → Ends (after_read callback accept_new_socket w)
  unfolding after_read
  after_read-Ends w = elim (Bool-cases (is_peer_closing w.0.state)) [
    | inl ends ↦ rw (ends, after_read) (close-Ends w)
    | inr goes ↦ rw (goes, after_read) (silent-Ends w)
  ]

  on_close-Quiet : Quiet (on_close callback accept_new_socket)
  unfolding on_close
  on_close-Quiet w shut =
      rw (on_close, let e : is_closing w.0.state ≡ true = ap is_closing shut in e) refl

  on_close-Ends : (w : BaseSocket × App) → Ends (on_close callback accept_new_socket w)
  unfolding on_close
  on_close-Ends w = elim (Bool-cases (is_closing w.0.state)) [
    | inl done ↦ rw (done, on_close) (silent-Ends w)
    | inr begins ↦ rw (begins, on_close) (close-Ends _)
  ]

  on_read-Ends :
      (avail : Option ℕ) (w : BaseSocket × App) → Ends (on_read callback accept_new_socket avail w)
  unfolding on_read has_close
  on_read-Ends avail w = elim (Bool-cases (is_listening w.0.state)) [
    | inl listens ↦ rw (listens, on_read) (silent-Ends (accept_new_socket w))
    | inr open_now ↦ elim (Option-cases avail) [
      | inl e ↦ rw (open_now, e, on_read) (close-Ends w)
      | inr (n, e) ↦ elim (Bool-cases (n == 0)) [
        | inl ended ↦ rw (open_now, e, ended, on_read) (close-Ends w)
        | inr more ↦
            rw (open_now, e, more, on_read)
              (then_do-Ends (tell callback accept_new_socket read w)
                (after_read callback accept_new_socket) (other-Ends read w refl) after_read-Quiet
                after_read-Ends)
      ]
    ]
  ]

  write_at-Ends :
      (s : SocketState) (a : WriteAnswers) (w : BaseSocket × App)
      → Ends (write_at callback accept_new_socket s a w)
  unfolding write_at has_close
  write_at-Ends connecting a w = elim (Bool-cases (a.error == 0)) [
    | inr broken ↦ rw (broken, write_at) (close-Ends w)
    | inl fine ↦ elim (Bool-cases (is_loop a)) [
      | inl loops ↦ rw (fine, loops, write_at) (on_close-Ends w)
      | inr good ↦ rw (fine, good, write_at) (inl refl)
    ]
  ]
  write_at-Ends connected a w = other-Ends write w refl
  write_at-Ends idle a w = silent-Ends w
  write_at-Ends listening a w = silent-Ends w
  write_at-Ends peer_closing a w = silent-Ends w
  write_at-Ends closing a w = silent-Ends w

  at_output-Ends :
      (o : Option WriteAnswers) (w : BaseSocket × App)
      → Ends (at_output callback accept_new_socket o w)
  unfolding at_output on_write
  at_output-Ends none w = silent-Ends w
  at_output-Ends (some a) w = write_at-Ends w.0.state a w

  at_output-Quiet : (o : Option WriteAnswers) → Quiet (at_output callback accept_new_socket o)
  unfolding at_output on_write write_at
  at_output-Quiet none w shut = refl
  at_output-Quiet (some a) w shut = ap (λ s. write_at callback accept_new_socket s a w) shut

  at_failure-Ends :
      (f : Bool) (w : BaseSocket × App) → Ends (at_failure callback accept_new_socket f w)
  unfolding at_failure
  at_failure-Ends true w = on_close-Ends w
  at_failure-Ends false w = silent-Ends w

  at_failure-Quiet : (f : Bool) → Quiet (at_failure callback accept_new_socket f)
  unfolding at_failure
  at_failure-Quiet true w shut = on_close-Quiet w shut
  at_failure-Quiet false w shut = refl

  at_input-Ends :
      (i : Option (Option ℕ)) (w : BaseSocket × App)
      → Ends (at_input callback accept_new_socket i w)
  unfolding at_input
  at_input-Ends none w = silent-Ends w
  at_input-Ends (some avail) w = on_read-Ends avail w

  on_event-Ends :
      (e : EpollEvent) (w : BaseSocket × App) → Ends (on_event callback accept_new_socket e w)
  unfolding on_event after_input
  on_event-Ends e w =
      let output = at_output callback accept_new_socket e.epollout in
      let failed = at_failure callback accept_new_socket e.failure in
      then_do-Ends (at_input callback accept_new_socket e.epollin w)
        (after_input callback accept_new_socket e) (at_input-Ends e.epollin w)
        (then_do-Quiet output failed (at_output-Quiet e.epollout) (at_failure-Quiet e.failure))
        (λ w'.
          then_do-Ends (output w') failed (at_output-Ends e.epollout w')
            (at_failure-Quiet e.failure) (at_failure-Ends e.failure))

  on_notice-Ends :
      (n : Notice) (w : BaseSocket × App) → Ends (on_notice callback accept_new_socket n w)
  unfolding on_notice on_connect on_timer has_close
  on_notice-Ends added w = inl refl
  on_notice-Ends (event e) w = on_event-Ends e w
  on_notice-Ends (tick t) w = elim (Bool-cases (is_listening w.0.state)) [
    | inl listens ↦ rw (listens, on_timer) (silent-Ends w)
    | inr open_now ↦ rw (open_now, on_timer) (inl refl)
  ]

  attended-Quiet : (notices : List Notice) → Quiet (attended callback accept_new_socket notices)
  unfolding attended
  attended-Quiet [] w shut = refl
  attended-Quiet (n ∷ rest) w shut =
      rw (attended, let e : is_closing w.0.state ≡ true = ap is_closing shut in e) refl

  -- For a callback that closes the socket when it is told of CLOSE, however its loop calls a socket
  -- before it is closed, and whichever bits an event of epoll has: either no CLOSE is told, or exactly
  -- one, nothing is told after it, and the socket is closed then.
  pub attended-Ends :
      (notices : List Notice) (w : BaseSocket × App)
      → Ends (attended callback accept_new_socket notices w)
  unfolding attended
  attended-Ends [] w = silent-Ends w
  attended-Ends (n ∷ rest) w = elim (Bool-cases (is_closing w.0.state)) [
    | inl shut ↦ rw (shut, attended) (silent-Ends w)
    | inr open_now ↦
        rw (open_now, attended)
          (then_do-Ends (on_notice callback accept_new_socket n w)
            (attended callback accept_new_socket rest) (on_notice-Ends n w) (attended-Quiet rest)
            (attended-Ends rest))
  ]

-- ===== src/BlockSocket/Connects.antt =====
-- Connecting, and the timeouts, of src/netter/block_socket.cpp.
use netter.Common.{
  ℕ, ◌+◌, ◌-◌, ◌*◌, ◌∙◌, ◌↔◌, ltb→lt, ltb→le, ==_iff, ◌/◌, ◌%◌, ◌<◌, ◌^◌, Bool, true, false, List,
  Option, none, some, ok, ◌≡◌, refl, ltb, ◌==◌, arith, Returns, Bool-cases, inl, inr, ◌&&◌, lt→ltb,
}
use netter.Loop.{has_bit}
use netter.Resource.{ℤ, pos, negsuc}
use netter.Socket.Address.{Resolver, set_addr}
use netter.Socket.Opening.{
  Descriptor, ErrorNumber, in_progress, would_block, other, o_nonblock, set_nonblock, set_no_delay,
}
use netter.BlockSocket.{
  Dialing, Dialed, fd_setsize, fd_set, wait_connect_complete, is_made, connect_with_timeout,
  timeout_value, int_rem, times_thousand,
}

-- The connection is made: at once, or it is under way and `select` and SO_ERROR say that it is made.
unfoldable pub succeeds : Option ErrorNumber → Bool → ℕ → Bool
succeeds none writable error = true
succeeds (some in_progress) writable error = writable && (error == 0)
succeeds (some would_block) writable error = false
succeeds (some other) writable error = false

-- A descriptor that blocks and is open, for a connection that is made; else it is closed.
abbrev pub DialedTo : Bool → Descriptor → Dialed → Type 0
DialedTo true fresh (d, answer) =
    (answer ≡ some fresh.number)
    × ((d' : Descriptor) × (d ≡ some d')
        × (d'.is_open ≡ true)
        × (has_bit d'.flags o_nonblock ≡ false))
DialedTo false fresh (d, answer) =
    (answer ≡ none) × ((d' : Descriptor) × (d ≡ some d') × (d'.is_open ≡ false))

is_made-succeeds :
    (a : Dialing) (fd : ℕ) (reply : Option ErrorNumber)
    → fd < fd_setsize
    → is_made a fd reply ≡ ok (succeeds reply a.writable a.error)
unfolding is_made succeeds wait_connect_complete fd_set
is_made-succeeds a fd none low = refl
is_made-succeeds a fd (some in_progress) low =
    rw (lt→ltb fd fd_setsize low)
      (elim (Bool-cases a.writable) [ inl ready ↦ rw ready refl | inr late ↦ rw late refl ])
is_made-succeeds a fd (some would_block) low = refl
is_made-succeeds a fd (some other) low = refl

blocks_again : (d : Descriptor) → has_bit (set_nonblock true d false).flags o_nonblock ≡ false
unfolding set_nonblock
blocks_again d = elim (Bool-cases (has_bit d.flags o_nonblock)) [
  | inl set ↦ rw set (ground (arith, set))
  | inr clear ↦ rw clear clear
]

set_nonblock-open :
    (done : Bool) (d : Descriptor) (b : Bool) → (set_nonblock done d b).is_open ≡ d.is_open
unfolding set_nonblock
set_nonblock-open done d b = ground arith

set_no_delay-open : (done : Bool) (d : Descriptor) → (set_no_delay done d).is_open ≡ d.is_open
unfolding set_no_delay
set_no_delay-open done d = ground arith

-- `connect_with_timeout` with a new descriptor that is open and below FD_SETSIZE, where the last
-- `fcntl` succeeds: it gives the descriptor, open and blocking, exactly where the connection is made at
-- once, or is under way and then found writable without an error; else it closes the descriptor and
-- gives the invalid handle.
pub connect_with_timeout-DialedTo :
    (net : Resolver) (a : Dialing) (server_ip : List ℕ) (port : ℕ) (fresh : Descriptor)
    → a.socket ≡ some fresh
    → fresh.is_open ≡ true
    → fresh.number < fd_setsize
    → a.block_done ≡ true
    → Returns
        (connect_with_timeout net a server_ip port)
        (DialedTo (succeeds a.connect a.writable a.error) fresh)
unfolding connect_with_timeout
connect_with_timeout-DialedTo net a server_ip port fresh e opened_now low blocks =
    let d1 = set_no_delay a.no_delay_done fresh in
    let d2 = set_nonblock a.nonblock_done d1 true in
    let towards = record d2 { peer = some (set_addr net server_ip port) } in
    rw (connect_with_timeout, e, is_made-succeeds a fresh.number a.connect low)
      (elim (Bool-cases (succeeds a.connect a.writable a.error)) [
        | inl made ↦
            rw (made, blocks)
              (
                refl,
                (
                  _,
                  refl,
                  set_nonblock-open true towards false
                      ∙ set_nonblock-open a.nonblock_done d1 true
                      ∙ set_no_delay-open a.no_delay_done fresh
                      ∙ opened_now,
                  blocks_again towards,
                ),
              )
        | inr lost ↦ rw lost (refl, (_, refl, refl))
      ])

-- The milliseconds of a `timeval` that the kernel accepts: its microseconds are not negative and make
-- less than a second.
abbrev pub Accepted : ℕ → ℕ × ℤ → Type 0
Accepted timeout (seconds, pos micros) =
    (micros < 1000000) × (seconds * 1000 + micros / 1000 ≡ timeout) × (micros % 1000 ≡ 0)
Accepted timeout (seconds, negsuc k) = ⊥

-- The `timeval` of `block_set_timeout` is one that the kernel accepts, and the timeout in milliseconds,
-- exactly for the timeouts below 2^31 ms. From there on the conversion to `int` makes its microseconds
-- negative or 0.
pub timeout_value-Accepted :
    (timeout : ℕ) → timeout < 2 ^ 32 → Accepted timeout (timeout_value timeout) ↔ (timeout < 2 ^ 31)
unfolding timeout_value int_rem times_thousand
timeout_value-Accepted timeout low = elim (Bool-cases (ltb timeout (2 ^ 31))) [
  | inl small ↦ rw small ((λ h. ltb→lt timeout (2 ^ 31) small), (λ h. omega arith))
  | inr large ↦ rw large (elim (Bool-cases ((2 ^ 32 - timeout) % 1000 == 0)) [
    | inl even ↦ rw even (
      (λ h. absurd (omega (arith, h, low, (==_iff ((2 ^ 32 - timeout) % 1000) 0).0 even))),
      (λ h. absurd (omega (arith, h, ltb→le timeout (2 ^ 31) large))),
    )
    | inr odd ↦
        rw odd ((λ h. absurd h), (λ h. absurd (omega (arith, h, ltb→le timeout (2 ^ 31) large))))
  ])
]

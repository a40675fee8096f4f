-- ===== src/Conn/Fuel.antt =====
-- The loop of `Send` ends by itself: fuel beyond the number of bytes changes nothing.
use netter.Common.{
  ℕ, zero, suc, ◌+◌, ◌-◌, ◌≤◌, ◌<◌, ◌==◌, ◌≡◌, refl, List, Option, none, some, Result, ok, throw,
  fault, ◌>>=◌, true, arith, Bool-cases, inl, inr,
}
use netter.Socket.{BaseSocket}
use netter.Socket
use netter.Conn.{send_size, sent_some, send_loop}

bind-cong :
    {A B : Type 0} (m : Result A) (f g : A → Result B)
    → ((a : A) → f a ≡ g a)
    → (m >>= f) ≡ (m >>= g)
bind-cong (ok a) f g h = h a
bind-cong (throw e) f g h = refl
bind-cong fault f g h = refl

sent_some-cong :
    (answer : BaseSocket × Option ℕ) (offset remain : ℕ)
    (f g : BaseSocket → ℕ → ℕ → Result (BaseSocket × ℕ × ℕ))
    → ((s : BaseSocket) (n : ℕ)
        → 0 < n
        → f s (offset + n) (remain - n) ≡ g s (offset + n) (remain - n))
    → sent_some answer offset remain f ≡ sent_some answer offset remain g
unfolding sent_some
sent_some-cong (s, none) offset remain f g h = refl
sent_some-cong (s, some n) offset remain f g h = elim (Bool-cases (n == 0)) [
  | inl z ↦ rw z refl
  | inr more ↦ rw more (h s n (ground arith))
]

-- The loop of `Send` does the same with any two amounts of fuel that are no less than the bytes that
-- remain: it has ended by then, on every socket and every block of bytes, faults included.
pub send_loop_enough :
    (fuel fuel' : ℕ) (s : BaseSocket) (bytes : List ℕ) (offset remain : ℕ)
    → remain ≤ fuel
    → remain ≤ fuel'
    → send_loop fuel s bytes offset remain ≡ send_loop fuel' s bytes offset remain
unfolding send_loop
send_loop_enough zero zero s bytes offset remain h h' = refl
send_loop_enough zero (suc fuel') s bytes offset remain h h' =
    rw (let z : (remain == 0) ≡ true = ground arith in z) refl
send_loop_enough (suc fuel) zero s bytes offset remain h h' =
    rw (let z : (remain == 0) ≡ true = ground arith in z) refl
send_loop_enough (suc fuel) (suc fuel') s bytes offset remain h h' =
    elim (Bool-cases (remain == 0)) [
      | inl done ↦ rw done refl
      | inr more ↦ rw more (
          bind-cong (Socket.send s bytes offset (send_size remain)) _ _ λ answer.
            sent_some-cong answer offset remain _ _ λ s' n pos.
              send_loop_enough fuel fuel' s' bytes (offset + n) (remain - n) (ground arith)
                (ground arith))
    ]

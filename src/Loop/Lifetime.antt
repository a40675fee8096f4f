-- ===== src/Loop/Lifetime.antt =====
-- The reference counts of src/netter/util.h, and the batch of events that `Start` of
-- src/netter/event_loop.cpp works off: a socket is known by a number, which stands for its address.
pub mod Batch
use netter.Common.{
  ℕ, zero, suc, ◌+◌, ◌-◌, ◌≤◌, ◌<◌, Bool, true, false, List, [], ◌∷◌, Option, none, some, Result,
  ok, fault, ◌>>=◌, if◌then◌else◌, ◌==◌, ==_iff, ne→==, All, ◌≡◌, ◌≢◌, refl, ap, sym, subst, ◌∙◌,
  Bool-cases, inl, inr, arith, Returns, Returns-bind, Returns-mono,
}

-- `RefCount`. The count is not negative, since an object is deleted when it is 0.
pub record RefCount : Type 0 where
  pub ref_count : ℕ
  pub deleted : Bool

unfoldable pub ref_count_new : RefCount
ref_count_new = record { ref_count = 1; deleted = false }

-- `AddRef` and `ReleaseRef`; an object that was deleted cannot be used.
unfoldable pub add_ref : RefCount → Result RefCount
add_ref r = if r.deleted then fault else ok (record r { ref_count = r.ref_count + 1 })

unfoldable pub release_ref : RefCount → Result RefCount
release_ref r =
    if r.deleted
    then fault
    else ok (record { ref_count = r.ref_count - 1; deleted = r.ref_count - 1 == 0 })

unfoldable pub at_socket : (RefCount → Result RefCount) → ℕ → (ℕ → RefCount) → Result (ℕ → RefCount)
at_socket act p sockets = do r ← act (sockets p); ok (λ q. if q == p then r else sockets q)

-- An event of epoll with its pointer, NULL for the wake-up, and the sockets that the callbacks close
-- while it is handled: each `Close` releases its socket once.
pub record Handled : Type 0 where
  pub pointer : Option ℕ
  pub closes : List ℕ

unfoldable pub close_sockets : List ℕ → (ℕ → RefCount) → Result (ℕ → RefCount)
unfolding at_socket release_ref
close_sockets [] sockets = ok sockets
close_sockets (p ∷ rest) sockets = do
  sockets' ← at_socket release_ref p sockets
  close_sockets rest sockets'

-- The body of the loop over the events.
unfoldable pub handle_event : Option ℕ → List ℕ → (ℕ → RefCount) → Result (ℕ → RefCount)
unfolding at_socket add_ref release_ref close_sockets
handle_event none closes sockets = ok sockets
handle_event (some p) closes sockets = do
  held ← at_socket add_ref p sockets
  closed ← close_sockets closes held
  at_socket release_ref p closed

unfoldable pub handle_events : List Handled → (ℕ → RefCount) → Result (ℕ → RefCount)
handle_events [] sockets = ok sockets
handle_events (e ∷ rest) sockets = do
  sockets' ← handle_event e.pointer e.closes sockets
  handle_events rest sockets'

-- ===== src/Setup/Handles.antt =====
-- Which thread serves a handle, after the set-up of src/netter/event_loop.cpp, src/netter/base_conn.cpp and
-- src/netter/http_conn.cpp.
use netter.Common.{
  ℕ, zero, suc, ◌+◌, ◌%◌, ◌≤◌, ◌<◌, ◌≡◌, refl, ap, sym, subst, ◌∙◌, Bool, true, false, ◌&&◌, [],
  ◌∷◌, some, Result, ok, ◌>>=◌, if◌then◌else◌, leb, ◌==◌, ==_iff, Bool-cases, inl, inr, arith, none,
  Returns, Returns-bind, Returns-mono, lt→ltb, u64,
}
use native.Mathlib.Nat.{mod-lt, mod-eq_of_lt}
use netter.Loop.{add_timer}
use netter.Resource.{pos, io_thread_resource, init, get_io_resource, get_io_resource-init}
use netter.Setup.{
  LoopSetup, check_loop, add_loop, timer_callback, loop_callback, init_numbered, Globals, at_start,
  deref, change_loop, set_thread, add_manager, for_threads, event_loop_thread,
  init_thread_event_loops, attach, init_thread_base_conn, init_thread_http_conn,
}

-- The loop of thread `i`, for the threads from `i` on of which there are `k`.
abbrev is_among : ℕ → ℕ → ℕ → Bool
is_among i k q = leb (i + 1) q && leb q (i + k)

none_among : (i q : ℕ) → is_among i 0 q ≡ false
none_among i q = ground arith

-- One loop changed, and then the rest of them.
change_loop-rest :
    (f : ℕ → LoopSetup → LoopSetup) (loops : ℕ → LoopSetup) (i k q : ℕ)
    → (let s = change_loop loops (suc i) (f (suc i)) q in if is_among (i + 1) k q then f q s else s)
      ≡ (if is_among i (suc k) q then f q (loops q) else loops q)
change_loop-rest f loops i k q = elim (Bool-cases (q == suc i)) [
  | inl here ↦
      let e : q ≡ suc i = (==_iff q (suc i)).0 here in
      rw
        (
          here,
          (let a : is_among (i + 1) k q ≡ false = ground (arith, e) in a),
          (let b : is_among i (suc k) q ≡ true = ground (arith, e) in b),
        )
        (ap (λ j. f j (loops q)) (sym e))
  | inr elsewhere ↦
      rw (elsewhere, (let a : is_among (i + 1) k q ≡ is_among i (suc k) q = ground arith in a)) refl
]

module _ (act : ℕ → (ℕ → LoopSetup) → Result (ℕ → LoopSetup)) (f : ℕ → LoopSetup → LoopSetup)
    (n : ℕ)
    (acts : (i : ℕ) (loops : ℕ → LoopSetup)
      → i < n
      → act i loops ≡ ok (change_loop loops (suc i) (f (suc i)))) where
  for_threads_lem :
      (k i : ℕ) (loops : ℕ → LoopSetup)
      → i + k ≤ n
      → Returns
          (for_threads act k i loops)
          (λ after. (q : ℕ) → after q ≡ (if is_among i k q then f q (loops q) else loops q))
  unfolding for_threads
  for_threads_lem zero i loops h = λ q. rw (none_among i q) refl
  for_threads_lem (suc k) i loops h =
      rw (for_threads, acts i loops (omega (arith, h)))
        (Returns-mono
          (λ after.
            (q : ℕ)
            → after q ≡ (
                let s = change_loop loops (suc i) (f (suc i)) q in
                if is_among (i + 1) k q then f q s else s))
          (λ after. (q : ℕ) → after q ≡ (if is_among i (suc k) q then f q (loops q) else loops q)) _
          (λ after h' q. h' q ∙ change_loop-rest f loops i k q)
          (for_threads_lem k (i + 1) (change_loop loops (suc i) (f (suc i))) (omega (arith, h))))

-- The number of the resource for a handle, of `n` threads.
abbrev pub thread_of : ℕ → ℕ → ℕ
thread_of n handle = if n == 0 then 0 else suc (handle % n)

numbered : (n i : ℕ) → i < n → get_io_resource (init_numbered n) (pos i) ≡ ok (some (suc i))
numbered n i h =
    get_io_resource-init 0 suc n i
    ∙ (rw ((let z : (n == 0) ≡ false = ground arith in z), mod-eq_of_lt h) refl)

event_loop_thread_lem :
    (now n i : ℕ) (loops : ℕ → LoopSetup)
    → i < n
    → event_loop_thread now (init_numbered n) i loops
      ≡ ok (change_loop loops (suc i) (set_thread now (suc i)))
unfolding event_loop_thread deref init
event_loop_thread_lem now n i loops h = rw (event_loop_thread, numbered n i h, lt→ltb i n h) refl

attach_lem :
    (n i : ℕ) (loops : ℕ → LoopSetup)
    → i < n
    → attach (init_numbered n) (init_numbered n) i loops
      ≡ ok (change_loop loops (suc i) (add_manager (suc i)))
unfolding attach deref
attach_lem n i loops h = rw (attach, numbered n i h) refl

-- The set-up, as a program calls it.
unfoldable pub set_up : ℕ → ℕ → Result Globals
set_up now io_thread_num = do
  g ← init_thread_event_loops now io_thread_num at_start
  g' ← init_thread_base_conn io_thread_num g
  ok (init_thread_http_conn io_thread_num g')

-- What the thread of a handle has to run for it: on its own loop, the timer that finds connections that
-- are too old, and the work on the packets that were left for the connections of that thread.
-- `call` is what a callback does with its data.
pub record Serves {S : Type 0} (call : ℕ → ℕ → S → S) (now n handle : ℕ) (g : Globals)
    : Type 0 where
  pub loop_of : get_io_resource g.g_event_loops (pos handle) ≡ ok (some (thread_of n handle))
  pub manager_of :
      get_io_resource g.g_pending_event_mgr (pos handle) ≡ ok (some (thread_of n handle))
  pub wrapper_of :
      get_io_resource g.g_http_parser_wrappers (pos handle) ≡ ok (some (thread_of n handle))
  pub own_thread : (g.loops (thread_of n handle)).thread_id ≡ some (thread_of n handle)
  pub timer :
      (g.loops (thread_of n handle)).timer_list
      ≡ record {
        callback = timer_callback;
        user_data = thread_of n handle;
        interval = 1000;
        next_tick = u64 (now + 1000);
      }
        ∷ []
  pub work :
      (s : S)
      → check_loop call (g.loops (thread_of n handle)).loop_list s
        ≡ call loop_callback (thread_of n handle) s

thread_of_le : (n handle : ℕ) → thread_of n handle ≤ n
thread_of_le zero handle = omega arith
thread_of_le (suc n) handle =
    rw (let z : (suc n == 0) ≡ false = ground arith in z)
      (omega (arith, mod-lt handle (let h : 0 < suc n = omega arith in h)))

thread_of-among : (n handle : ℕ) → is_among 0 (suc n) (thread_of (suc n) handle) ≡ true
thread_of-among n handle =
    rw (let z : (suc n == 0) ≡ false = ground arith in z)
      (ground (arith, mod-lt handle (let h : 0 < suc n = omega arith in h)))

abbrev blank : LoopSetup
blank = record { thread_id = none; timer_list = []; loop_list = [] }

-- After `init_thread_event_loops`, with these loops.
abbrev threaded : ℕ → (ℕ → LoopSetup) → Globals
threaded n loops = record at_start { g_event_loops = init_numbered n; loops = loops }

-- The loops 0 to n have their threads.
abbrev HasThreads : ℕ → ℕ → Globals → Type 0
HasThreads now n g =
    (loops : ℕ → LoopSetup) × (threaded n loops ≡ g)
    × ((q : ℕ) → q ≤ n → loops q ≡ set_thread now q blank)

main_then :
    (now n q : ℕ)
    → q ≤ n
    → (let s = change_loop (λ l. blank) 0 (set_thread now 0) q in
        if is_among 0 n q then set_thread now q s else s)
      ≡ set_thread now q blank
main_then now n q h = elim (Bool-cases (q == 0)) [
  | inl main ↦
      let e : q ≡ 0 = (==_iff q 0).0 main in
      rw (main, (let a : is_among 0 n q ≡ false = ground (arith, e) in a))
        (ap (λ j. set_thread now j blank) (sym e))
  | inr io ↦ rw (io, (let a : is_among 0 n q ≡ true = ground arith in a)) refl
]

init_thread_event_loops-HasThreads :
    (now n : ℕ) → Returns (init_thread_event_loops now n at_start) (HasThreads now n)
unfolding init_thread_event_loops at_start deref init io_thread_resource
init_thread_event_loops-HasThreads now n =
    Returns-bind
      (λ after.
        (q : ℕ)
        → after q ≡ (
            let s = change_loop (λ l. blank) 0 (set_thread now 0) q in
            if is_among 0 n q then set_thread now q s else s))
      (HasThreads now n) _ _
      (for_threads_lem (event_loop_thread now (init_numbered n)) (set_thread now) n
        (λ i loops h. event_loop_thread_lem now n i loops h) n 0
        (change_loop (λ l. blank) 0 (set_thread now 0)) (omega arith))
      λ after h. (after, refl, λ q le. h q ∙ main_then now n q le)

-- After `init_thread_base_conn` too.
abbrev managed : ℕ → (ℕ → LoopSetup) → Globals
managed n loops = record (threaded n loops) { g_pending_event_mgr = init_numbered n }

-- The loops of all handles have their manager.
abbrev HasManagers : ℕ → (ℕ → LoopSetup) → Globals → Type 0
HasManagers n before g =
    (loops : ℕ → LoopSetup) × (managed n loops ≡ g)
    × ((handle : ℕ)
        → loops (thread_of n handle)
          ≡ add_manager (thread_of n handle) (before (thread_of n handle)))

init_thread_base_conn-HasManagers :
    (n : ℕ) (loops : ℕ → LoopSetup)
    → Returns (init_thread_base_conn n (threaded n loops)) (HasManagers n loops)
unfolding init_thread_base_conn at_start deref init io_thread_resource
init_thread_base_conn-HasManagers zero loops =
    (change_loop loops 0 (add_manager 0), refl, λ handle. refl)
init_thread_base_conn-HasManagers (suc n) loops =
    rw (init_thread_base_conn, lt→ltb 0 (suc n) (omega arith))
      (Returns-bind
        (λ after.
          (q : ℕ) → after q ≡ (if is_among 0 (suc n) q then add_manager q (loops q) else loops q))
        (HasManagers (suc n) loops) _ _
        (for_threads_lem (attach (init_numbered (suc n)) (init_numbered (suc n))) add_manager
          (suc n) (λ i loops' h. attach_lem (suc n) i loops' h) (suc n) 0 loops (omega arith))
        λ after h. (
          after,
          refl,
          λ handle. h (thread_of (suc n) handle) ∙ (rw (thread_of-among n handle) refl),
        ))

served_lem :
    {S : Type 0} (call : ℕ → ℕ → S → S) (now n handle : ℕ) (loops : ℕ → LoopSetup)
    → loops (thread_of n handle)
      ≡ add_manager (thread_of n handle) (set_thread now (thread_of n handle) blank)
    → Serves call now n handle (init_thread_http_conn n (managed n loops))
unfolding init_thread_http_conn at_start io_thread_resource add_manager set_thread add_timer
    add_loop check_loop
served_lem call now n handle loops e = record {
  loop_of = get_io_resource-init 0 suc n handle;
  manager_of = get_io_resource-init 0 suc n handle;
  wrapper_of = get_io_resource-init 0 suc n handle;
  own_thread = ap (λ x. x.thread_id) e;
  timer = ap (λ x. x.timer_list) e;
  work = λ s. ap (λ x. check_loop call x.loop_list s) e;
}

-- After the set-up with any number of threads, each handle that is not negative belongs to one thread,
-- and that thread's loop, pending event manager and parser wrapper are the ones that are looked up for
-- it: this loop runs on its own thread, has its one timer, and works off this manager once in every
-- round, whatever the callback does.
pub set_up-Serves :
    {S : Type 0} (call : ℕ → ℕ → S → S) (now n handle : ℕ)
    → Returns (set_up now n) (Serves call now n handle)
unfolding set_up
set_up-Serves call now n handle =
    Returns-bind (HasThreads now n) (Serves call now n handle) _ _
      (init_thread_event_loops-HasThreads now n)
      λ g (loops, e, threads).
        Returns-bind (HasManagers n loops) (Serves call now n handle) _ _
          (subst (λ x. Returns (init_thread_base_conn n x) (HasManagers n loops)) e
            (init_thread_base_conn-HasManagers n loops))
          λ g' (loops', e', managers).
            subst (λ x. Serves call now n handle (init_thread_http_conn n x)) e'
              (served_lem call now n handle loops' (
                managers handle
                ∙ ap (add_manager (thread_of n handle))
                    (threads (thread_of n handle) (thread_of_le n handle))))

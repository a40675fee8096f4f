-- ===== src/Setup.antt =====
-- The set-up of the threads' resources: `init_thread_event_loops` and what it needs of
-- src/netter/event_loop.cpp, `init_thread_base_conn` of src/netter/base_conn.cpp, and
-- `init_thread_http_conn` of src/netter/http_conn.cpp. A loop, a pending event manager and a parser
-- wrapper are known by numbers: 0 is the main thread's, and i + 1 that of I/O thread `i`.
pub mod Handles
mod Tests
use netter.Common.{
  ℕ, zero, suc, ◌+◌, Bool, List, [], ◌∷◌, ◌++◌, Option, none, some, Result, ok, fault, ◌>>=◌,
  if◌then◌else◌, ltb, ◌==◌,
}
use netter.Loop.{TimerItem, add_timer}
use netter.Resource.{IoThreadResource, pos, io_thread_resource, init, get_io_resource}

-- A `TimerItem` of `loop_list_`, of which only these are set.
pub record LoopItem : Type 0 where
  pub callback : ℕ
  pub user_data : ℕ

-- What the set-up changes of a loop. A thread has the number of its loop.
pub record LoopSetup : Type 0 where
  pub thread_id : Option ℕ
  pub timer_list : List TimerItem
  pub loop_list : List LoopItem

-- `AddLoop`.
unfoldable pub add_loop : ℕ → ℕ → List LoopItem → List LoopItem
add_loop callback user_data items =
    items ++ (record { callback = callback; user_data = user_data } ∷ [])

-- `_CheckLoop`, where `call` is what a callback does with its data.
unfoldable pub check_loop : {S : Type 0} → (ℕ → ℕ → S → S) → List LoopItem → S → S
check_loop call [] s = s
check_loop call (item ∷ items) s = check_loop call items (call item.callback item.user_data s)

abbrev pub timer_callback : ℕ
timer_callback = 1

abbrev pub loop_callback : ℕ
loop_callback = 2

-- `new T` and `new T[io_thread_num]`.
abbrev pub init_numbered : ℕ → IoThreadResource ℕ
init_numbered io_thread_num = init 0 suc io_thread_num

-- The global resources, and the loops.
pub record Globals : Type 0 where
  pub g_event_loops : IoThreadResource ℕ
  pub g_pending_event_mgr : IoThreadResource ℕ
  pub g_http_parser_wrappers : IoThreadResource ℕ
  pub loops : ℕ → LoopSetup

unfoldable pub at_start : Globals
at_start = record {
  g_event_loops = io_thread_resource;
  g_pending_event_mgr = io_thread_resource;
  g_http_parser_wrappers = io_thread_resource;
  loops = λ l. record { thread_id = none; timer_list = []; loop_list = [] };
}

-- A pointer that is followed: NULL is a fault.
unfoldable pub deref : Result (Option ℕ) → Result ℕ
deref found = found >>= λ pointer. elim pointer [ none ↦ fault | some p ↦ ok p ]

abbrev pub change_loop : (ℕ → LoopSetup) → ℕ → (LoopSetup → LoopSetup) → ℕ → LoopSetup
change_loop loops l f q = if q == l then f (loops q) else loops q

-- `SetThreadId(pthread_self())` and `AddTimer(timer_callback, el, 1000)`, at a tick.
unfoldable pub set_thread : ℕ → ℕ → LoopSetup → LoopSetup
set_thread now l s = record s {
  thread_id = some l;
  timer_list = add_timer timer_callback l 1000 now s.timer_list;
}

unfoldable pub add_manager : ℕ → LoopSetup → LoopSetup
add_manager mgr s = record s { loop_list = add_loop loop_callback mgr s.loop_list }

-- A loop over the threads from `i` on, of which `k` are left.
unfoldable pub for_threads :
    (ℕ → (ℕ → LoopSetup) → Result (ℕ → LoopSetup))
    → ℕ
    → ℕ
    → (ℕ → LoopSetup)
    → Result (ℕ → LoopSetup)
for_threads act zero i loops = ok loops
for_threads act (suc k) i loops = do loops' ← act i loops; for_threads act k (i + 1) loops'

-- `event_loop_thread`, up to `Start`. The threads change different loops, and
-- `init_thread_event_loops` waits until all have.
unfoldable pub event_loop_thread :
    ℕ → IoThreadResource ℕ → ℕ → (ℕ → LoopSetup) → Result (ℕ → LoopSetup)
event_loop_thread now g_event_loops event_loop_idx loops =
    if ltb event_loop_idx g_event_loops.io_thread_num
    then (do
      el ← deref (get_io_resource g_event_loops (pos event_loop_idx))
      ok (change_loop loops el (set_thread now el)))
    else fault

unfoldable pub init_thread_event_loops : ℕ → ℕ → Globals → Result Globals
init_thread_event_loops now io_thread_num g = if g.g_event_loops.inited then ok g else do
  let made = init_numbered io_thread_num
  main ← deref (ok made.main_thread_resource)
  loops' ←
      for_threads (event_loop_thread now made) io_thread_num 0
        (change_loop g.loops main (set_thread now main))
  ok (record g { g_event_loops = made; loops = loops' })

-- The body of the loop of `init_thread_base_conn`.
unfoldable pub attach :
    IoThreadResource ℕ → IoThreadResource ℕ → ℕ → (ℕ → LoopSetup) → Result (ℕ → LoopSetup)
attach g_event_loops g_pending_event_mgr i loops = do
  el ← deref (get_io_resource g_event_loops (pos i))
  mgr ← deref (get_io_resource g_pending_event_mgr (pos i))
  ok (change_loop loops el (add_manager mgr))

unfoldable pub init_thread_base_conn : ℕ → Globals → Result Globals
init_thread_base_conn io_thread_num g = if g.g_pending_event_mgr.inited then ok g else do
  let made = init_numbered io_thread_num
  loops' ←
      if ltb 0 io_thread_num
      then for_threads (attach g.g_event_loops made) io_thread_num 0 g.loops
      else (do
        main ← deref (ok g.g_event_loops.main_thread_resource)
        mgr ← deref (ok made.main_thread_resource)
        ok (change_loop g.loops main (add_manager mgr)))
  ok (record g { g_pending_event_mgr = made; loops = loops' })

unfoldable pub init_thread_http_conn : ℕ → Globals → Globals
init_thread_http_conn io_thread_num g =
    if g.g_http_parser_wrappers.inited
    then g
    else record g { g_http_parser_wrappers = init_numbered io_thread_num }

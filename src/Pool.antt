-- ===== src/Pool.antt =====
-- src/netter/thread_pool.h and src/netter/thread_pool.cpp: worker threads with a task list each. A
-- worker is a machine whose steps are those of `Execute` between which other threads can act.
pub mod Fifo
pub mod Stop
mod Tests
use netter.Common.{
  ℕ, zero, suc, ◌+◌, ◌%◌, ◌<◌, ◌≡◌, ◌≢◌, Bool, true, false, not, ◌&&◌, List, [], ◌∷◌, ◌++◌, map,
  Option, none, some, Result, ok, fault, ◌>>=◌, if◌then◌else◌, ltb, leb, ◌==◌,
}

-- Where a worker stands in `Execute`: before the test of `m_stop`; with the lock, before the test
-- of the inner loop; with the lock, past that test and before the wait; asleep in `Wait`, which
-- has released the lock; running the tasks of its own list; returned.
pub data Pc : Type 0 where
  at_test at_inner_test before_wait asleep ended : Pc
  running : List ℕ → Pc

-- Tasks are numbers. `ran` is the tasks that have run, in order, and `pushed` those that `PushTask`
-- took: both are only for the theorems.
pub record Worker : Type 0 where
  pub stop : Bool
  pub thread_idx : ℕ
  pub task_list : List ℕ
  pub pc : Pc
  pub ran : List ℕ
  pub pushed : List ℕ

-- `WorkerThread()`, `SetThreadIdx(idx)` and `Start()`.
unfoldable pub start : ℕ → Worker
start idx = record {
  stop = false;
  thread_idx = idx;
  task_list = [];
  pc = at_test;
  ran = [];
  pushed = [];
}

abbrev is_empty : List ℕ → Bool
is_empty [] = true
is_empty (t ∷ ts) = false

-- One step of the worker's own, from where it stands; asleep and returned it has none.
unfoldable pub step_at : Pc → Worker → Worker
step_at at_test w = record w { pc = if w.stop then ended else at_inner_test }
step_at at_inner_test w =
    if is_empty w.task_list && not w.stop
    then record w { pc = before_wait }
    else record w { pc = running w.task_list; task_list = [] }
step_at before_wait w = record w { pc = asleep }
step_at asleep w = w
step_at ended w = w
step_at (running []) w = record w { pc = at_test }
step_at (running (t ∷ ts)) w = record w { pc = running ts; ran = w.ran ++ (t ∷ []) }

unfoldable pub worker_step : Worker → Worker
worker_step w = step_at w.pc w

-- `Signal()`, or a spurious wake-up: a worker that sleeps takes the lock again.
unfoldable pub signal : Worker → Worker
signal w = elim w.pc [
  | at_test ↦ w
  | at_inner_test ↦ w
  | before_wait ↦ w
  | asleep ↦ record w { pc = at_inner_test }
  | ended ↦ w
  | running tasks ↦ w
]

-- Whether the worker holds the lock.
unfoldable pub holds_lock : Pc → Bool
holds_lock at_test = false
holds_lock at_inner_test = true
holds_lock before_wait = true
holds_lock asleep = false
holds_lock ended = false
holds_lock (running tasks) = false

-- `PushTask`, which runs while no other thread holds the lock.
unfoldable pub push_task : Worker → ℕ → Worker
unfolding signal
push_task w task =
    signal (record w { task_list = w.task_list ++ (task ∷ []); pushed = w.pushed ++ (task ∷ []) })

-- `Stop`, which takes no lock.
unfoldable pub stop_worker : Worker → Worker
unfolding signal
stop_worker w = signal (record w { stop = true })

-- One step of the worker or of another thread.
pub data Step : Worker → Worker → Type 0 where
  own : (w : Worker) → Step w (worker_step w)
  push : (w : Worker) (task : ℕ) → holds_lock w.pc ≡ false → Step w (push_task w task)
  stops : (w : Worker) → Step w (stop_worker w)
  wakes : (w : Worker) → Step w (signal w)

pub data Steps : Worker → Worker → Type 0 where
  done : (w : Worker) → Steps w w
  then_step : {w v u : Worker} → Steps w v → Step v u → Steps w u

pub record ThreadPool : Type 0 where
  pub thread_num : ℕ
  pub worker_threads : List Worker

-- The workers of `Init`, from the index `i` on.
unfoldable pub start_from : ℕ → ℕ → List Worker
start_from i zero = []
start_from i (suc n) = start i ∷ start_from (i + 1) n

unfoldable pub init : ℕ → ThreadPool
init thread_num = record { thread_num = thread_num; worker_threads = start_from 0 thread_num }

-- The list with `f` of the element at `i`; past its end the access is undefined.
unfoldable pub at_index : (Worker → Worker) → ℕ → List Worker → Result (List Worker)
at_index f i [] = fault
at_index f zero (w ∷ ws) = ok (f w ∷ ws)
at_index f (suc i) (w ∷ ws) = do vs ← at_index f i ws; ok (w ∷ vs)

-- `AddTask(pTask, thread_idx)`, and `AddTask(pTask)` where `random()` gives `number`.
unfoldable pub add_task_at : ThreadPool → ℕ → ℕ → Result ThreadPool
add_task_at p task thread_idx = if leb p.thread_num thread_idx then ok p else do
  ws ← at_index (λ w. push_task w task) thread_idx p.worker_threads
  ok (record p { worker_threads = ws })

unfoldable pub add_task : ThreadPool → ℕ → ℕ → Result ThreadPool
add_task p task number = if p.thread_num == 0 then fault else do
  ws ← at_index (λ w. push_task w task) (number % p.thread_num) p.worker_threads
  ok (record p { worker_threads = ws })

-- The two rounds of `Stop` in `Destory`, which then joins each worker.
unfoldable pub destory_stops : ThreadPool → ThreadPool
destory_stops p = record p {
  worker_threads = map (λ w. stop_worker (stop_worker w)) p.worker_threads;
}

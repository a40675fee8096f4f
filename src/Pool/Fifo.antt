-- ===== src/Pool/Fifo.antt =====
-- A worker runs its tasks once each, in the order in which they were pushed, and does not sleep
-- while a task waits.
use netter.Common.{
  ℕ, ◌≡◌, refl, ap, subst, sym, ◌∙◌, Bool, true, false, List, [], ◌∷◌, ◌++◌, append-nil,
  append_assoc, Bool-cases, inl, inr, not, ◌&&◌,
}
use netter.Pool.{
  Pc, at_test, at_inner_test, before_wait, asleep, ended, running, Worker, start, is_empty, step_at,
  worker_step, signal, holds_lock, push_task, stop_worker, Step, own, push, stops, wakes, Steps,
  done, then_step,
}

-- The tasks that a running worker still has in hand.
abbrev pub in_hand : Pc → List ℕ
in_hand at_test = []
in_hand at_inner_test = []
in_hand before_wait = []
in_hand asleep = []
in_hand ended = []
in_hand (running tasks) = tasks

-- Before and during the wait the list is empty.
abbrev pub EmptyAt : Pc → List ℕ → Type 0
EmptyAt at_test tasks = Unit {0}
EmptyAt at_inner_test tasks = Unit {0}
EmptyAt before_wait tasks = tasks ≡ []
EmptyAt asleep tasks = tasks ≡ []
EmptyAt ended tasks = Unit {0}
EmptyAt (running now) tasks = Unit {0}

-- Every task that was pushed has run, is in hand or is in the list, in that order.
pub record IsOrderly (w : Worker) : Type 0 where
  pub in_order : w.ran ++ (in_hand w.pc ++ w.task_list) ≡ w.pushed
  pub wakeful : EmptyAt w.pc w.task_list

start-IsOrderly : (idx : ℕ) → IsOrderly (start idx)
unfolding start
start-IsOrderly idx = record { in_order = refl; wakeful = tt }

-- What is known at a given place.
order_at :
    {w : Worker} {pc : Pc}
    → w.pc ≡ pc
    → IsOrderly w
    → w.ran ++ (in_hand pc ++ w.task_list) ≡ w.pushed
order_at {w} e v = subst (λ pc. w.ran ++ (in_hand pc ++ w.task_list) ≡ w.pushed) e v.in_order

is_empty-and : (tasks : List ℕ) (b : Bool) → (is_empty tasks && b) ≡ true → tasks ≡ []
is_empty-and [] b e = refl
is_empty-and (t ∷ ts) b e = absurd cc

step_at-IsOrderly : (w : Worker) (pc : Pc) → w.pc ≡ pc → IsOrderly w → IsOrderly (step_at pc w)
unfolding step_at
step_at-IsOrderly w at_test e v = elim (Bool-cases w.stop) [
  | inl stopped ↦ rw stopped (record { in_order = order_at e v; wakeful = tt })
  | inr on ↦ rw on (record { in_order = order_at e v; wakeful = tt })
]
step_at-IsOrderly w at_inner_test e v = elim (Bool-cases (is_empty w.task_list && not w.stop)) [
  | inl empty ↦
      rw empty
        (record { in_order = order_at e v; wakeful = is_empty-and w.task_list (not w.stop) empty })
  | inr more ↦ rw more (record {
    in_order = ap (λ q. w.ran ++ q) (append-nil w.task_list) ∙ order_at e v;
    wakeful = tt;
  })
]
step_at-IsOrderly w before_wait e v = record {
  in_order = order_at e v;
  wakeful = subst (λ pc. EmptyAt pc w.task_list) e v.wakeful;
}
step_at-IsOrderly w asleep e v = v
step_at-IsOrderly w ended e v = v
step_at-IsOrderly w (running []) e v = record { in_order = order_at e v; wakeful = tt }
step_at-IsOrderly w (running (t ∷ ts)) e v = record {
  in_order = append_assoc w.ran (t ∷ []) (ts ++ w.task_list) ∙ order_at e v;
  wakeful = tt;
}

-- A task that is pushed comes behind all the others.
pushed_behind :
    {w : Worker} {pc : Pc} (task : ℕ)
    → w.pc ≡ pc
    → IsOrderly w
    → w.ran ++ (in_hand pc ++ (w.task_list ++ (task ∷ []))) ≡ w.pushed ++ (task ∷ [])
pushed_behind {w} {pc} task e v =
    ap (λ q. w.ran ++ q) (sym (append_assoc (in_hand pc) w.task_list (task ∷ [])))
    ∙ sym (append_assoc w.ran (in_hand pc ++ w.task_list) (task ∷ []))
    ∙ ap (λ q. q ++ (task ∷ [])) (order_at e v)

push_task_of :
    (w : Worker) (pc : Pc) (task : ℕ)
    → w.pc ≡ pc
    → holds_lock pc ≡ false
    → IsOrderly w
    → IsOrderly (push_task w task)
unfolding push_task signal holds_lock
push_task_of w at_test task e free v =
    rw (e, signal)
      (record {
        in_order = pushed_behind task refl v;
        wakeful = subst (λ pc. EmptyAt pc (w.task_list ++ (task ∷ []))) (sym e) tt;
      })
push_task_of w at_inner_test task e free v = absurd cc
push_task_of w before_wait task e free v = absurd cc
push_task_of w asleep task e free v =
    rw (e, signal) (record { in_order = pushed_behind task e v; wakeful = tt })
push_task_of w ended task e free v =
    rw (e, signal)
      (record {
        in_order = pushed_behind task refl v;
        wakeful = subst (λ pc. EmptyAt pc (w.task_list ++ (task ∷ []))) (sym e) tt;
      })
push_task_of w (running ts) task e free v =
    rw (e, signal)
      (record {
        in_order = pushed_behind task refl v;
        wakeful = subst (λ pc. EmptyAt pc (w.task_list ++ (task ∷ []))) (sym e) tt;
      })

signal_of : (w : Worker) (pc : Pc) → w.pc ≡ pc → IsOrderly w → IsOrderly (signal w)
unfolding signal
signal_of w at_test e v = rw (e, signal) v
signal_of w at_inner_test e v = rw (e, signal) v
signal_of w before_wait e v = rw (e, signal) v
signal_of w asleep e v = rw (e, signal) (record { in_order = order_at e v; wakeful = tt })
signal_of w ended e v = rw (e, signal) v
signal_of w (running ts) e v = rw (e, signal) v

Step-IsOrderly : {w v : Worker} → Step w v → IsOrderly w → IsOrderly v
unfolding stop_worker worker_step
Step-IsOrderly (own w) o = step_at-IsOrderly w w.pc refl o
Step-IsOrderly (push w task free) o = push_task_of w w.pc task refl free o
Step-IsOrderly (stops w) o =
    signal_of (record w { stop = true }) w.pc refl
      (record { in_order = o.in_order; wakeful = o.wakeful })
Step-IsOrderly (wakes w) o = signal_of w w.pc refl o

-- In every state that a worker can reach, with any number of pushes, stops and wake-ups of other
-- threads between its steps: what has run, then what is in its hand, then what is in its list is
-- what was pushed, in order, so no task is lost, repeated or overtaken; and where it sleeps or is
-- about to, its list is empty.
pub Steps-IsOrderly : (idx : ℕ) {w : Worker} → Steps (start idx) w → IsOrderly w
Steps-IsOrderly idx steps = from steps (start-IsOrderly idx)
  where
    from : {v u : Worker} → Steps v u → IsOrderly v → IsOrderly u
    from (done w) o = o
    from (then_step steps step) o = Step-IsOrderly step (from steps o)

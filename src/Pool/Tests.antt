-- ===== src/Pool/Tests.antt =====
-- Runs of a worker of src/netter/thread_pool.cpp.
use netter.Common.{suc, ◌≡◌, refl, true, false, [], ◌∷◌}
use netter.Pool.{
  Worker, start, before_wait, asleep, running, step_at, worker_step, push_task, signal, holds_lock,
  own, push, Steps, done, then_step,
}
use netter.Pool.Fifo.{IsOrderly, Steps-IsOrderly}
use netter.Pool.Stop.{own_steps, stop_times, stop_lost, EndsWith, stop_ends}

-- Two tasks are pushed before the worker has tested its list, and it runs the first.
abbrev two_pushed : Worker
two_pushed = push_task (push_task (start 0) 5) 6

abbrev first_run : Worker
first_run = worker_step (worker_step (worker_step two_pushed))

first_run_ran : first_run.ran ≡ 5 ∷ []
unfolding worker_step step_at push_task signal start
first_run_ran = refl

first_run-Steps : Steps (start 0) first_run
unfolding push_task signal start holds_lock
first_run-Steps =
    then_step
      (then_step
        (then_step (then_step (then_step (done _) (push _ 5 refl)) (push _ 6 refl)) (own _))
        (own _))
      (own _)

Steps-IsOrderly_example : IsOrderly first_run
Steps-IsOrderly_example = Steps-IsOrderly 0 first_run-Steps

abbrev about_to_wait : Worker
about_to_wait = record {
  stop = false;
  thread_idx = 0;
  task_list = [];
  pc = before_wait;
  ran = [];
  pushed = [];
}

stop_lost_example :
    ((own_steps (suc 7) (stop_times (suc 1) about_to_wait)).pc ≡ asleep)
    × ((own_steps (suc 7) (stop_times (suc 1) about_to_wait)).stop ≡ true)
stop_lost_example = stop_lost 1 7 about_to_wait refl

abbrev stopped_busy : Worker
stopped_busy = record {
  stop = true;
  thread_idx = 0;
  task_list = 9 ∷ [];
  pc = running (7 ∷ 8 ∷ []);
  ran = [];
  pushed = 7 ∷ 8 ∷ 9 ∷ [];
}

stop_ends_example : EndsWith (7 ∷ 8 ∷ []) (own_steps 5 stopped_busy)
stop_ends_example = stop_ends stopped_busy refl (λ e. cc) (λ e. cc)

-- ===== src/Pool/Stop.antt =====
-- `Stop`: where it ends a worker, and where its signal is lost.
use netter.Common.{
  ℕ, zero, suc, ◌+◌, ◌≤◌, ◌≡◌, ◌≢◌, refl, ap, subst, sym, ◌∙◌, Bool, true, false, List, [], ◌∷◌,
  ◌++◌, append-nil, append_assoc, not, ◌&&◌, arith, length, if◌then◌else◌,
}
use netter.Pool.{
  Pc, at_test, at_inner_test, before_wait, asleep, ended, running, Worker, step_at, worker_step,
  signal, stop_worker, is_empty,
}

-- A worker's own steps, and repeated calls of `Stop`.
unfoldable pub own_steps : ℕ → Worker → Worker
own_steps zero w = w
own_steps (suc n) w = own_steps n (worker_step w)

unfoldable pub stop_times : ℕ → Worker → Worker
stop_times zero w = w
stop_times (suc n) w = stop_worker (stop_times n w)

-- A worker that stands between the test of the inner loop and the wait keeps what it saw.
stop_times_of :
    (n : ℕ) (w : Worker)
    → w.pc ≡ before_wait
    → ((stop_times n w).pc ≡ before_wait) × ((stop_times n w).task_list ≡ w.task_list)
unfolding stop_times stop_worker signal
stop_times_of zero w e = (e, refl)
stop_times_of (suc n) w e = let (pc, same) = stop_times_of n w e in rw (pc, signal) (pc, same)

worker_step-at : (w : Worker) {pc : Pc} → w.pc ≡ pc → worker_step w ≡ step_at pc w
unfolding worker_step
worker_step-at w e = ap (λ pc. step_at pc w) e

own_steps-asleep : (n : ℕ) (w : Worker) → w.pc ≡ asleep → own_steps n w ≡ w
unfolding own_steps step_at
own_steps-asleep zero w e = refl
own_steps-asleep (suc n) w e = ap (own_steps n) (worker_step-at w e) ∙ own_steps-asleep n w e

stopped : (w : Worker) → w.pc ≡ before_wait → (stop_worker w).stop ≡ true
unfolding stop_worker signal
stopped w e = rw (e, signal) refl

-- A worker that has found its list empty and is about to wait goes to sleep, however often `Stop` is
-- called before it does, and although it is stopped then: it has no step of its own, so that only a
-- signal, by a push or another `Stop`, or a spurious wake-up can make it return.
pub stop_lost :
    (calls steps : ℕ) (w : Worker)
    → w.pc ≡ before_wait
    → ((own_steps (suc steps) (stop_times (suc calls) w)).pc ≡ asleep)
      × ((own_steps (suc steps) (stop_times (suc calls) w)).stop ≡ true)
unfolding own_steps stop_times step_at
stop_lost calls steps w e =
    let v = stop_times (suc calls) w in
    let sleeps : own_steps (suc steps) v ≡ record v { pc = asleep } =
      ap (own_steps steps) (worker_step-at v (stop_times_of (suc calls) w e).0)
      ∙ own_steps-asleep steps (record v { pc = asleep }) refl in
    (
      ap (λ u. u.pc) sleeps,
      ap (λ u. u.stop) sleeps ∙ stopped (stop_times calls w) (stop_times_of calls w e).0,
    )

own_steps-ended : (n : ℕ) (w : Worker) → w.pc ≡ ended → own_steps n w ≡ w
unfolding own_steps step_at
own_steps-ended zero w e = refl
own_steps-ended (suc n) w e = ap (own_steps n) (worker_step-at w e) ∙ own_steps-ended n w e

-- The tasks that a worker runs before it tests `m_stop` again.
abbrev pub batch : Pc → List ℕ → List ℕ
batch at_test tasks = []
batch at_inner_test tasks = tasks
batch before_wait tasks = []
batch asleep tasks = []
batch ended tasks = []
batch (running now) tasks = now

abbrev pub EndsWith : List ℕ → Worker → Type 0
EndsWith ran w = (w.pc ≡ ended) × (w.ran ≡ ran)

own_step :
    (w : Worker) {u : Worker} {ran : List ℕ} (n : ℕ)
    → worker_step w ≡ u
    → EndsWith ran (own_steps n u)
    → EndsWith ran (own_steps (suc n) w)
unfolding own_steps
own_step w {ran} n e h = subst (λ u. EndsWith ran (own_steps n u)) (sym e) h

test_ends :
    (n : ℕ) (w : Worker) → w.stop ≡ true → w.pc ≡ at_test → EndsWith w.ran (own_steps (suc n) w)
unfolding step_at
test_ends n w on e =
    own_step w {u = record w { pc = ended }} n
      (worker_step-at w e ∙ ap (λ b. record w { pc = if b then ended else at_inner_test }) on)
      (let same = own_steps-ended n (record w { pc = ended }) refl in
        (ap (λ u. u.pc) same, ap (λ u. u.ran) same))

running_ends :
    (ts : List ℕ) (n : ℕ) (w : Worker)
    → w.stop ≡ true
    → w.pc ≡ running ts
    → length ts + 2 ≤ n
    → EndsWith (w.ran ++ ts) (own_steps n w)
unfolding step_at
running_ends ts zero w on e h = absurd (omega (arith, h))
running_ends [] (suc zero) w on e h = absurd (omega (arith, h))
running_ends [] (suc (suc n)) w on e h = own_step w (suc n) (worker_step-at w e) (
    let (over, ran) = test_ends n (record w { pc = at_test }) on refl in
    (over, ran ∙ sym (append-nil w.ran)))
running_ends (t ∷ ts) (suc n) w on e h = own_step w n (worker_step-at w e) (
    let (over, ran) =
      running_ends ts n (record w { pc = running ts; ran = w.ran ++ (t ∷ []) }) on refl
        (omega (arith, h)) in
    (over, ran ∙ append_assoc w.ran (t ∷ []) ts))

and_false : (b : Bool) → (b && false) ≡ false
and_false true = refl
and_false false = refl

stop_ends_at :
    (w : Worker) (pc : Pc) (n : ℕ)
    → w.pc ≡ pc
    → w.stop ≡ true
    → pc ≢ before_wait
    → pc ≢ asleep
    → length (batch pc w.task_list) + 3 ≤ n
    → EndsWith (w.ran ++ batch pc w.task_list) (own_steps n w)
unfolding step_at
stop_ends_at w pc zero e on awake up h = absurd (omega (arith, h))
stop_ends_at w at_test (suc n) e on awake up h =
    let (over, ran) = test_ends n w on e in (over, ran ∙ sym (append-nil w.ran))
stop_ends_at w at_inner_test (suc n) e on awake up h =
    own_step w n
      (worker_step-at w e
        ∙ ap
            (λ b.
              if b
              then record w { pc = before_wait }
              else record w { pc = running w.task_list; task_list = [] })
            (ap (λ b. is_empty w.task_list && not b) on ∙ and_false (is_empty w.task_list)))
      (running_ends w.task_list n (record w { pc = running w.task_list; task_list = [] }) on refl
        (omega (arith, h)))
stop_ends_at w before_wait (suc n) e on awake up h = absurd (awake refl)
stop_ends_at w asleep (suc n) e on awake up h = absurd (up refl)
stop_ends_at w ended (suc n) e on awake up h =
    let same = own_steps-ended (suc n) w e in
    (ap (λ u. u.pc) same ∙ e, ap (λ u. u.ran) same ∙ sym (append-nil w.ran))
stop_ends_at w (running ts) (suc n) e on awake up h =
    running_ends ts (suc n) w on e (omega (arith, h))

-- A worker that is stopped at any other place returns by its own steps, after the tasks of the batch
-- that it has, and of no other: at most three steps more than there are tasks.
pub stop_ends :
    (w : Worker)
    → w.stop ≡ true
    → w.pc ≢ before_wait
    → w.pc ≢ asleep
    → EndsWith (w.ran ++ batch w.pc w.task_list) (own_steps (length (batch w.pc w.task_list) + 3) w)
stop_ends w on awake up = stop_ends_at w w.pc _ refl on awake up (omega arith)

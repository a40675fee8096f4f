-- ===== src/Loop/Tests.antt =====
-- The timers and events of src/netter/event_loop.cpp at concrete values.
use netter.Common.{ℕ, fault, Returns, ◌≡◌, ◌++◌, refl, List, [], ◌∷◌, some, map, All, arith}
use netter.Loop.{
  TimerItem, add_timer, remove_timer, check_timer, check_item, RegisterEvent, EventLoop,
  apply_event, apply_events, register_events, insert_new,
}
use netter.Loop.Timers.{find_timer, Unique, Added, Removed, timers_map}
use netter.Loop.Ticks.{checks, check_ticks, OnTime, due_items, checks-OnTime}
use netter.Loop.Events
use netter.Loop.Events.{register, acts, posted, called_all, due, acts-due}
use netter.Loop.Wakeup.{
  handling, fresh, test_stop, read_wakeup_data, register_list, post, wakeup, Steps, here, then_step,
  tests, returns, reads, registers, posts, wakes, NoneLost, Steps-NoneLost,
}
use netter.Loop.Lifetime.{RefCount, handle_events}
use netter.Loop.Lifetime.Batch.{
  with_refs, handled, Separate, after_batch, handle_events-after_batch,
  handle_events_use_after_free,
}

abbrev second_timer : TimerItem
second_timer = record { callback = 2; user_data = 9; interval = 1000; next_tick = 1500 }

abbrev timers : List TimerItem
timers =
    record { callback = 1; user_data = 9; interval = 100; next_tick = 1100 } ∷ second_timer ∷ []

timers-Unique : Unique timers
unfolding find_timer
timers-Unique = (refl, (refl, tt))

timers_map_example :
    Unique (add_timer 2 9 50 1200 timers)
    × Added 2 9 50 1200 timers (add_timer 2 9 50 1200 timers)
    × Unique (remove_timer 2 9 timers)
    × Removed 2 9 timers (remove_timer 2 9 timers)
timers_map_example = timers_map 2 9 50 1200 timers timers-Unique

checks-OnTime_example :
    ((check_timer 1450 timers).1 ≡ due_items 1450 timers)
    × (checks (1450 ∷ 1451 ∷ []) timers
        ≡ map (λ item. (check_ticks (1450 ∷ 1451 ∷ []) item).0) timers)
    × All (λ item. OnTime (1450 ∷ 1451 ∷ []) 1451 item (check_ticks (1450 ∷ 1451 ∷ []) item)) timers
checks-OnTime_example =
    checks-OnTime (1450 ∷ 1451 ∷ []) 1450 1451 timers (omega arith, (omega arith, tt))
      (omega arith, (omega arith, tt))

abbrev accepted : RegisterEvent
accepted = record { fd = 5; socket_event = 29; base_socket = some 3 }

abbrev idle_loop : EventLoop
idle_loop = record { watched = 4 ∷ []; socket_map = []; register_event_list = []; connects = [] }

register_accepted :
    register_events (record idle_loop { register_event_list = accepted ∷ [] }) ≡ record {
      watched = 4 ∷ 5 ∷ [];
      socket_map = 3 ∷ [];
      register_event_list = [];
      connects = 3 ∷ [];
    }
unfolding register_events apply_events apply_event insert_new netter.Loop.member
register_accepted = refl

acts-due_example :
    (due (acts idle_loop (Events.post accepted ∷ register ∷ []))
      ≡ due idle_loop ++ called_all (posted (Events.post accepted ∷ register ∷ [])))
    × ((register_events (acts idle_loop (Events.post accepted ∷ register ∷ []))).connects
        ≡ due idle_loop ++ called_all (posted (Events.post accepted ∷ register ∷ [])))
acts-due_example = acts-due idle_loop (Events.post accepted ∷ register ∷ [])

-- Another thread posts an event and wakes the loop up, which registers it in its next round.
run : Steps fresh (
    register_list
      (read_wakeup_data (record (test_stop (wakeup (post fresh 7))) { place = handling })))
unfolding fresh post wakeup test_stop read_wakeup_data
run =
    then_step
      (then_step
        (then_step
          (then_step (then_step (then_step here (posts 7)) (wakes (omega arith))) (tests refl))
          (returns refl))
        (reads refl))
      (registers refl)

Steps-NoneLost_example : NoneLost (
    register_list
      (read_wakeup_data (record (test_stop (wakeup (post fresh 7))) { place = handling })))
Steps-NoneLost_example = Steps-NoneLost run

abbrev all_used : ℕ → RefCount
all_used p = with_refs 1

-- The callbacks of one event close its own socket and one that has no event.
abbrev batch : List (ℕ × List ℕ)
batch = (3, 3 ∷ 9 ∷ []) ∷ (4, []) ∷ []

batch-Separate : Separate batch
batch-Separate = omega arith

handle_events-after_batch_example :
    Returns
      (handle_events (handled batch) all_used)
      (λ after. (q : ℕ) → after q ≡ after_batch batch all_used q)
handle_events-after_batch_example =
    handle_events-after_batch batch all_used batch-Separate
      ((refl, (refl, (refl, tt))), ((refl, tt), tt))

handle_events_use_after_free_example :
    handle_events
      (record { pointer = some 3; closes = 4 ∷ [] } ∷ record { pointer = some 4; closes = [] } ∷ [])
      all_used
    ≡ fault
handle_events_use_after_free_example =
    handle_events_use_after_free 3 4 all_used [] [] (λ e. absurd (omega (arith, e))) refl refl

-- ===== src/Loop/Wakeup.antt =====
-- How other threads wake a loop up: `AddEvent`, `Stop` and `Wakeup`, and the rounds of `Start` with
-- `_ReadWakeupData` and `_RegiterEventList`, of src/netter/event_loop.h and event_loop.cpp. Posted
-- events are numbers.
use netter.Common.{
  ℕ, ◌+◌, ◌-◌, ◌<◌, Bool, true, false, List, [], ◌∷◌, ◌++◌, append_assoc, append-nil, if◌then◌else◌,
  ◌≡◌, refl, ap, sym, ◌∙◌, ◌⊎◌, inl, inr, arith,
}

-- Where the loop's thread stands: before the test of `stop_`, in `epoll_wait`, in the rest of the
-- round, or returned.
pub data Place : Type 0 where
  at_test polling handling ended : Place

-- `wakeup_bytes` is how many bytes wait in the pair of sockets, `waking` how many threads have made
-- their change and have not come to the `send` of `Wakeup`. `registered` and `posted` are only for the
-- theorems.
pub record LoopThread : Type 0 where
  pub stop : Bool
  pub place : Place
  pub wakeup_bytes : ℕ
  pub waking : ℕ
  pub register_event_list : List ℕ
  pub registered : List ℕ
  pub posted : List ℕ

unfoldable pub fresh : LoopThread
fresh = record {
  stop = false;
  place = at_test;
  wakeup_bytes = 0;
  waking = 0;
  register_event_list = [];
  registered = [];
  posted = [];
}

-- `while (!stop_)`.
unfoldable pub test_stop : LoopThread → LoopThread
test_stop w = record w { place = if w.stop then ended else polling }

-- `_ReadWakeupData`, which reads until nothing is left.
unfoldable pub read_wakeup_data : LoopThread → LoopThread
read_wakeup_data w = record w { wakeup_bytes = 0 }

-- `_RegiterEventList`, the end of a round.
unfoldable pub register_list : LoopThread → LoopThread
register_list w = record w {
  place = at_test;
  registered = w.registered ++ w.register_event_list;
  register_event_list = [];
}

-- `AddEvent` on another thread, up to its `Wakeup`.
unfoldable pub post : LoopThread → ℕ → LoopThread
post w e = record w {
  register_event_list = w.register_event_list ++ (e ∷ []);
  posted = w.posted ++ (e ∷ []);
  waking = w.waking + 1;
}

-- `Stop`, up to its `Wakeup`.
unfoldable pub stop_loop : LoopThread → LoopThread
stop_loop w = record w { stop = true; waking = w.waking + 1 }

-- `Wakeup`.
unfoldable pub wakeup : LoopThread → LoopThread
wakeup w = record w { wakeup_bytes = w.wakeup_bytes + 1; waking = w.waking - 1 }

-- `epoll_wait` may return at any time, by a timeout or for other sockets too.
pub data Step (w : LoopThread) : LoopThread → Type 0 where
  tests : w.place ≡ at_test → Step w (test_stop w)
  returns : w.place ≡ polling → Step w (record w { place = handling })
  reads : w.place ≡ handling → Step w (read_wakeup_data w)
  registers : w.place ≡ handling → Step w (register_list w)
  posts : (e : ℕ) → Step w (post w e)
  stops : Step w (stop_loop w)
  wakes : 0 < w.waking → Step w (wakeup w)

pub data Steps (w : LoopThread) : LoopThread → Type 0 where
  here : Steps w w
  then_step : {u v : LoopThread} → Steps w u → Step u v → Steps w v

-- A byte waits, or a thread is about to send one.
abbrev pub IsWoken : LoopThread → Type 0
IsWoken w = (0 < w.wakeup_bytes) ⊎ (0 < w.waking)

-- The loop does not sleep over what it was told.
pub record NoneLost (w : LoopThread) : Type 0 where
  pub in_order : w.registered ++ w.register_event_list ≡ w.posted
  pub list_seen : (w.register_event_list ≡ []) ⊎ (w.place ≡ handling) ⊎ IsWoken w
  pub stop_seen :
      (w.stop ≡ false) ⊎ (w.place ≡ at_test) ⊎ (w.place ≡ handling) ⊎ (w.place ≡ ended) ⊎ IsWoken w

fresh-NoneLost : NoneLost fresh
unfolding fresh
fresh-NoneLost = record { in_order = refl; list_seen = inl refl; stop_seen = inl refl }

Step-NoneLost : {w v : LoopThread} → Step w v → NoneLost w → NoneLost v
unfolding test_stop read_wakeup_data register_list post stop_loop wakeup
Step-NoneLost (tests e) n = ground arith
Step-NoneLost (returns e) n = ground arith
Step-NoneLost (reads e) n = ground arith
Step-NoneLost {w} (registers e) n = record {
  in_order = append-nil _ ∙ n.in_order;
  list_seen = inl refl;
  stop_seen = inr (inl refl);
}
Step-NoneLost {w} (posts e) n = record {
  in_order =
      sym (append_assoc w.registered w.register_event_list (e ∷ []))
      ∙ ap (λ q. q ++ (e ∷ [])) n.in_order;
  list_seen = inr (inr (inr (omega arith)));
  stop_seen = ground arith;
}
Step-NoneLost stops n = ground arith
Step-NoneLost (wakes h) n = ground arith

-- However the loop's thread and threads that post events, stop the loop and wake it up interleave:
-- every posted event is registered once, in order, or still in the list. Where the list is not empty
-- or the loop was stopped, the loop does not sleep in `epoll_wait` unless a byte waits there or a
-- thread is about to send one.
pub Steps-NoneLost : {w : LoopThread} → Steps fresh w → NoneLost w
Steps-NoneLost here = fresh-NoneLost
Steps-NoneLost (then_step run step) = Step-NoneLost step (Steps-NoneLost run)

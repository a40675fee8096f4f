-- ===== src/Loop.antt =====
-- src/netter/event_loop.h and src/netter/event_loop.cpp: the timers of an event loop, and the events
-- that other threads leave for it. A callback is a number, as is its data, and a socket is its
-- handle; a call of a callback is an entry in a list.
pub mod Timers
pub mod Ticks
pub mod Events
pub mod Wakeup
pub mod Lifetime
mod Tests
use netter.Common.{
  ℕ, ◌+◌, ◌/◌, ◌%◌, Bool, true, false, ◌&&◌, List, [], ◌∷◌, ◌++◌, Option, none, some, if◌then◌else◌,
  leb, ◌==◌, u64,
}

-- `TimerItem`.
pub record TimerItem : Type 0 where
  pub callback : ℕ
  pub user_data : ℕ
  pub interval : ℕ
  pub next_tick : ℕ

abbrev pub matches : ℕ → ℕ → TimerItem → Bool
matches callback user_data item = (item.callback == callback) && (item.user_data == user_data)

-- `AddTimer`, where `get_tick_count()` gives `now`.
unfoldable pub add_timer : ℕ → ℕ → ℕ → ℕ → List TimerItem → List TimerItem
add_timer callback user_data interval now [] =
    record {
      callback = callback;
      user_data = user_data;
      interval = interval;
      next_tick = u64 (now + interval);
    }
    ∷ []
add_timer callback user_data interval now (item ∷ items) =
    let later = add_timer callback user_data interval now items in
    if matches callback user_data item
    then record item { interval = interval; next_tick = u64 (now + interval) } ∷ items
    else item ∷ later

-- `RemoveTimer`.
unfoldable pub remove_timer : ℕ → ℕ → List TimerItem → List TimerItem
remove_timer callback user_data [] = []
remove_timer callback user_data (item ∷ items) =
    let later = remove_timer callback user_data items in
    if matches callback user_data item then items else item ∷ later

-- What `_CheckTimer` does for one item: the item afterwards, and whether its callback is called.
unfoldable pub check_item : ℕ → TimerItem → TimerItem × Bool
check_item curr_tick item =
    if leb item.next_tick curr_tick
    then (record item { next_tick = u64 (item.next_tick + item.interval) }, true)
    else (item, false)

-- `_CheckTimer`, for callbacks that leave the timers alone: the timers, and the items whose callbacks
-- are called, in order.
unfoldable pub check_timer : ℕ → List TimerItem → List TimerItem × List TimerItem
check_timer curr_tick [] = ([], [])
check_timer curr_tick (item ∷ items) =
    let rest = check_timer curr_tick items in
    let checked = check_item curr_tick item in
    (checked.0 ∷ rest.0, if checked.1 then item ∷ rest.1 else rest.1)

-- `RegisterEvent`; a socket that is NULL is `none`.
pub record RegisterEvent : Type 0 where
  pub fd : ℕ
  pub socket_event : ℕ
  pub base_socket : Option ℕ

-- The loop's tables: the descriptors that epoll watches, the sockets by handle, and the events that
-- other threads left. `connects` is the sockets whose `OnConnect` was called, in order.
pub record EventLoop : Type 0 where
  pub watched : List ℕ
  pub socket_map : List ℕ
  pub register_event_list : List RegisterEvent
  pub connects : List ℕ

-- `socket_event & bit` for a bit of the value `bit`.
abbrev pub has_bit : ℕ → ℕ → Bool
has_bit socket_event bit = socket_event / bit % 2 == 1

abbrev pub socket_connect_cb : ℕ
socket_connect_cb = 8

abbrev pub socket_add_conn : ℕ
socket_add_conn = 16

abbrev pub socket_del_conn : ℕ
socket_del_conn = 32

unfoldable pub member : ℕ → List ℕ → Bool
member x [] = false
member x (y ∷ ys) = let later = member x ys in if y == x then true else later

unfoldable pub erase_first : ℕ → List ℕ → List ℕ
erase_first x [] = []
erase_first x (y ∷ ys) = let later = erase_first x ys in if y == x then ys else y ∷ later

-- `insert` into a map, and into the set of epoll, which refuses a descriptor that it has.
unfoldable pub insert_new : ℕ → List ℕ → List ℕ
insert_new x xs = if member x xs then xs else xs ++ (x ∷ [])

-- The part of `AddEvent` that runs on the loop's thread.
unfoldable pub apply_event : EventLoop → RegisterEvent → EventLoop
apply_event el e =
    let watching = record el { watched = insert_new e.fd el.watched } in
    elim e.base_socket [
      | none ↦ watching
      | some handle ↦ record watching {
        socket_map =
            if has_bit e.socket_event socket_add_conn
            then insert_new handle el.socket_map
            else el.socket_map;
        connects =
            if has_bit e.socket_event socket_connect_cb
            then el.connects ++ (handle ∷ [])
            else el.connects;
      }
    ]

-- `AddEvent`; on another thread it also wakes the loop up.
unfoldable pub add_event : EventLoop → Bool → RegisterEvent → EventLoop
add_event el true e = apply_event el e
add_event el false e = record el { register_event_list = el.register_event_list ++ (e ∷ []) }

unfoldable pub apply_events : EventLoop → List RegisterEvent → EventLoop
apply_events el [] = el
apply_events el (e ∷ events) = apply_events (apply_event el e) events

-- `_RegiterEventList`: the list is swapped for an empty one under the lock, then added.
unfoldable pub register_events : EventLoop → EventLoop
register_events el = apply_events (record el { register_event_list = [] }) el.register_event_list

-- `RemoveEvent`, for a socket that is not NULL, and `FindBaseSocket`.
unfoldable pub remove_event : EventLoop → ℕ → ℕ → ℕ → EventLoop
remove_event el fd socket_event handle = record el {
  watched = erase_first fd el.watched;
  socket_map =
      if has_bit socket_event socket_del_conn
      then erase_first handle el.socket_map
      else el.socket_map;
}

abbrev pub find_base_socket : EventLoop → ℕ → Option ℕ
find_base_socket el handle = if member handle el.socket_map then some handle else none

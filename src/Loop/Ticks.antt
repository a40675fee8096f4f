-- ===== src/Loop/Ticks.antt =====
-- The ticks at which the callbacks of timers are called, over several calls of `_CheckTimer`.
use netter.Common.{
  ℕ, ◌+◌, ◌*◌, ◌≤◌, ◌<◌, ◌^◌, ◌≡◌, refl, ap, ◌∙◌, ◌⊎◌, inl, inr, List, [], ◌∷◌, map, All, length,
  arith, Bool-cases, if◌then◌else◌, leb, leb→le, u64,
}
use netter.Loop.{TimerItem, check_item, check_timer}

-- The timers after calls at the given ticks.
unfoldable pub checks : List ℕ → List TimerItem → List TimerItem
checks [] items = items
checks (t ∷ ts) items = checks ts (check_timer t items).0

-- One timer alone: it afterwards, and how often its callback was called.
unfoldable pub check_ticks : List ℕ → TimerItem → TimerItem × ℕ
check_ticks [] item = (item, 0)
check_ticks (t ∷ ts) item =
    let checked = check_item t item in
    let rest = check_ticks ts checked.0 in (rest.0, if checked.1 then rest.1 + 1 else rest.1)

-- The next tick is the first one and an interval for each call, whenever the calls came; there is at
-- most one call for each check, and none before its tick: the last call's tick, one interval before
-- the next, is not after the last check.
abbrev pub OnTime : List ℕ → ℕ → TimerItem → TimerItem × ℕ → Type 0
OnTime ticks last item (item', calls) =
    (item'.next_tick ≡ item.next_tick + calls * item.interval)
    × (item'.interval ≡ item.interval)
    × (calls ≤ length ticks)
    × ((calls ≡ 0) ⊎ (item.next_tick + calls * item.interval ≤ last + item.interval))

check_ticks-OnTime :
    (ticks : List ℕ) (last : ℕ) (item : TimerItem)
    → All (λ t. t ≤ last) ticks
    → item.next_tick + length ticks * item.interval < 2 ^ 64
    → OnTime ticks last item (check_ticks ticks item)
unfolding check_ticks check_item
check_ticks-OnTime [] last item before small = (omega arith, refl, omega arith, inl refl)
check_ticks-OnTime (t ∷ ts) last item before small = elim (Bool-cases (leb item.next_tick t)) [
  | inl due ↦ rw due (
      let (next, same, few, late) =
        check_ticks-OnTime ts last
          (record item { next_tick = u64 (item.next_tick + item.interval) }) before.1
          (omega (arith, small)) in
      (
        omega (arith, next, small),
        same,
        omega (arith, few),
        inr (elim late [
          | inl none_yet ↦
              omega
                (arith, ap (λ k. k * item.interval) none_yet, leb→le item.next_tick t due, before.0)
          | inr past ↦ omega (arith, past, small)
        ]),
      ))
  | inr early ↦ rw early (
      let (next, same, few, late) =
        check_ticks-OnTime ts last item before.1 (omega (arith, small)) in
      (next, same, omega (arith, few), late))
]

check_timer-map :
    (t : ℕ) (items : List TimerItem)
    → (check_timer t items).0 ≡ map (λ item. (check_item t item).0) items
unfolding check_timer
check_timer-map t [] = refl
check_timer-map t (item ∷ items) =
    ap (λ rest. (check_item t item).0 ∷ rest) (check_timer-map t items)

-- The timers that one check calls: those whose tick has come.
unfoldable pub due_items : ℕ → List TimerItem → List TimerItem
due_items t [] = []
due_items t (item ∷ items) =
    let later = due_items t items in if leb item.next_tick t then item ∷ later else later

check_timer-due : (t : ℕ) (items : List TimerItem) → (check_timer t items).1 ≡ due_items t items
unfolding check_timer check_item due_items
check_timer-due t [] = refl
check_timer-due t (item ∷ items) = elim (Bool-cases (leb item.next_tick t)) [
  | inl due ↦ rw due (ap (λ rest. item ∷ rest) (check_timer-due t items))
  | inr early ↦ rw early (check_timer-due t items)
]

map-map :
    (f g : TimerItem → TimerItem) (items : List TimerItem)
    → map g (map f items) ≡ map (λ item. g (f item)) items
map-map f g [] = refl
map-map f g (item ∷ items) = ap (λ rest. g (f item) ∷ rest) (map-map f g items)

checks-map :
    (ts : List ℕ) (items : List TimerItem)
    → checks ts items ≡ map (λ item. (check_ticks ts item).0) items
unfolding checks check_ticks
checks-map [] items = go items
  where
    go : (items : List TimerItem) → items ≡ map (λ item. item) items
    go [] = refl
    go (item ∷ rest) = ap (λ q. item ∷ q) (go rest)
checks-map (t ∷ ts) items =
    checks-map ts (check_timer t items).0
    ∙ ap (map (λ item. (check_ticks ts item).0)) (check_timer-map t items)
    ∙ map-map (λ item. (check_item t item).0) (λ item. (check_ticks ts item).0) items

-- `_CheckTimer` calls the callbacks of the timers whose tick has come, in their order, and over any
-- number of checks treats each timer by itself, without drift: its next tick is the first one and an
-- interval for each call, with at most one call for each check and none early. For callbacks that
-- leave the timers alone and ticks that stay below 2 ^ 64.
pub checks-OnTime :
    (ticks : List ℕ) (t last : ℕ) (items : List TimerItem)
    → All (λ t'. t' ≤ last) ticks
    → All (λ item. item.next_tick + length ticks * item.interval < 2 ^ 64) items
    → ((check_timer t items).1 ≡ due_items t items)
      × (checks ticks items ≡ map (λ item. (check_ticks ticks item).0) items)
      × All (λ item. OnTime ticks last item (check_ticks ticks item)) items
checks-OnTime ticks t last items before small =
    (check_timer-due t items, checks-map ticks items, each items small)
  where
    each :
        (items : List TimerItem)
        → All (λ item. item.next_tick + length ticks * item.interval < 2 ^ 64) items
        → All (λ item. OnTime ticks last item (check_ticks ticks item)) items
    each [] small = small
    each (item ∷ rest) (one, more) = (check_ticks-OnTime ticks last item before one, each rest more)

-- ===== src/Loop/Timers.antt =====
-- The timers of a loop are a map from a callback and its data to an interval and a tick.
use netter.Common.{
  ℕ, ◌+◌, ◌≡◌, refl, ap, ap₂, sym, ◌∙◌, Bool, true, false, ◌&&◌, List, [], ◌∷◌, Option, none, some,
  if◌then◌else◌, ◌==◌, ==_iff, Bool-cases, inl, inr, u64,
}
use netter.Loop.{TimerItem, matches, add_timer, remove_timer}

-- The first timer of a callback and its data.
unfoldable pub find_timer : ℕ → ℕ → List TimerItem → Option TimerItem
find_timer callback user_data [] = none
find_timer callback user_data (item ∷ items) =
    let later = find_timer callback user_data items in
    if matches callback user_data item then some item else later

-- No callback with its data has two timers.
abbrev pub Unique : List TimerItem → Type 0
Unique [] = Unit {0}
Unique (item ∷ items) = (find_timer item.callback item.user_data items ≡ none) × Unique items

abbrev pub same_key : ℕ → ℕ → ℕ → ℕ → Bool
same_key callback user_data c d = (callback == c) && (user_data == d)

-- Adding or resetting a timer sets it, and leaves every other one alone.
abbrev pub Added : ℕ → ℕ → ℕ → ℕ → List TimerItem → List TimerItem → Type 0
Added callback user_data interval now items items' =
    (find_timer callback user_data items'
      ≡ some (record {
        callback = callback;
        user_data = user_data;
        interval = interval;
        next_tick = u64 (now + interval);
      }))
    × ((c d : ℕ)
        → same_key callback user_data c d ≡ false
        → find_timer c d items' ≡ find_timer c d items)

-- Removing one takes it away, and leaves every other one alone.
abbrev pub Removed : ℕ → ℕ → List TimerItem → List TimerItem → Type 0
Removed callback user_data items items' =
    (find_timer callback user_data items' ≡ none)
    × ((c d : ℕ)
        → same_key callback user_data c d ≡ false
        → find_timer c d items' ≡ find_timer c d items)

same_key-eq : (a b c d : ℕ) → same_key a b c d ≡ true → (a ≡ c) × (b ≡ d)
same_key-eq a b c d e = go (a == c) (b == d) refl refl e
  where
    go : (x y : Bool) → (a == c) ≡ x → (b == d) ≡ y → (x && y) ≡ true → (a ≡ c) × (b ≡ d)
    go true true l r h = ((==_iff a c).0 l, (==_iff b d).0 r)
    go true false l r h = absurd cc
    go false y l r h = absurd cc

same_key-flip : (a b c d : ℕ) → same_key a b c d ≡ false → same_key c d a b ≡ false
same_key-flip a b c d e = elim (Bool-cases (same_key c d a b)) [
  | inl same ↦
      let (l, r) = same_key-eq c d a b same in
      let both : same_key a b c d ≡ true =
        ap₂ (λ x y. same_key a b x y) l r
        ∙ ap₂ (◌&&◌) ((==_iff a a).1 refl) ((==_iff b b).1 refl) in
      absurd cc
  | inr other ↦ other
]

find-hit :
    (c d : ℕ) (item : TimerItem) (items : List TimerItem)
    → matches c d item ≡ true
    → find_timer c d (item ∷ items) ≡ some item
unfolding find_timer
find-hit c d item items e = rw e refl

find-miss :
    (c d : ℕ) (item : TimerItem) (items : List TimerItem)
    → matches c d item ≡ false
    → find_timer c d (item ∷ items) ≡ find_timer c d items
unfolding find_timer
find-miss c d item items e = rw e refl

find-tail :
    (c d : ℕ) (item : TimerItem) (items items' : List TimerItem)
    → find_timer c d items' ≡ find_timer c d items
    → find_timer c d (item ∷ items') ≡ find_timer c d (item ∷ items)
unfolding find_timer
find-tail c d item items items' e = ap (λ q. if matches c d item then some item else q) e

-- An item with the key that changes is no other key's.
misses :
    (callback user_data c d : ℕ) (item : TimerItem)
    → matches callback user_data item ≡ true
    → same_key callback user_data c d ≡ false
    → matches c d item ≡ false
misses callback user_data c d item here other =
    let (l, r) = same_key-eq item.callback item.user_data callback user_data here in
    ap₂ (λ x y. same_key x y c d) l r ∙ other

add_timer-Added :
    (callback user_data interval now : ℕ) (items : List TimerItem)
    → Added callback user_data interval now items (add_timer callback user_data interval now items)
unfolding add_timer
add_timer-Added callback user_data interval now [] = (
  find-hit callback user_data _ []
      (ap₂ (◌&&◌) ((==_iff callback callback).1 refl) ((==_iff user_data user_data).1 refl)),
  λ c d other. find-miss c d _ [] other,
)
add_timer-Added callback user_data interval now (item ∷ items) =
    elim (Bool-cases (matches callback user_data item)) [
      | inl here ↦
          let (l, r) = same_key-eq item.callback item.user_data callback user_data here in
          rw here (
            find-hit callback user_data _ items here
                ∙ ap₂
                    (λ x y. some (record {
                      callback = x;
                      user_data = y;
                      interval = interval;
                      next_tick = u64 (now + interval);
                    }))
                    l r,
            λ c d other.
                let miss = misses callback user_data c d item here other in
                find-miss c d _ items miss ∙ sym (find-miss c d item items miss),
          )
      | inr there ↦
          let (set, others) = add_timer-Added callback user_data interval now items in
          rw there (
            find-miss callback user_data item _ there ∙ set,
            λ c d other. find-tail c d item items _ (others c d other),
          )
    ]

remove_timer-Removed :
    (callback user_data : ℕ) (items : List TimerItem)
    → Unique items
    → Removed callback user_data items (remove_timer callback user_data items)
unfolding remove_timer
remove_timer-Removed callback user_data [] u = (unfold find_timer in refl, λ c d other. refl)
remove_timer-Removed callback user_data (item ∷ items) u =
    elim (Bool-cases (matches callback user_data item)) [
      | inl here ↦
          let (l, r) = same_key-eq item.callback item.user_data callback user_data here in
          rw here (
            sym (ap₂ (λ x y. find_timer x y items) l r) ∙ u.0,
            λ c d other.
                sym (find-miss c d item items (misses callback user_data c d item here other)),
          )
      | inr there ↦
          let (gone, others) = remove_timer-Removed callback user_data items u.1 in
          rw there (
            find-miss callback user_data item _ there ∙ gone,
            λ c d other. find-tail c d item items _ (others c d other),
          )
    ]

add_timer-Unique :
    (callback user_data interval now : ℕ) (items : List TimerItem)
    → Unique items
    → Unique (add_timer callback user_data interval now items)
unfolding add_timer
add_timer-Unique callback user_data interval now [] u = (unfold find_timer in refl, tt)
add_timer-Unique callback user_data interval now (item ∷ items) u =
    elim (Bool-cases (matches callback user_data item)) [
      | inl here ↦ rw here u
      | inr there ↦ rw there (
        (add_timer-Added callback user_data interval now items).1 item.callback item.user_data
              (same_key-flip item.callback item.user_data callback user_data there)
            ∙ u.0,
        add_timer-Unique callback user_data interval now items u.1,
      )
    ]

remove_timer-Unique :
    (callback user_data : ℕ) (items : List TimerItem)
    → Unique items
    → Unique (remove_timer callback user_data items)
unfolding remove_timer
remove_timer-Unique callback user_data [] u = u
remove_timer-Unique callback user_data (item ∷ items) u =
    elim (Bool-cases (matches callback user_data item)) [
      | inl here ↦ rw here u.1
      | inr there ↦ rw there (
        (remove_timer-Removed callback user_data items u.1).1 item.callback item.user_data
              (same_key-flip item.callback item.user_data callback user_data there)
            ∙ u.0,
        remove_timer-Unique callback user_data items u.1,
      )
    ]

-- On timers of which no two have the same callback and data, as both keep them: `AddTimer` sets the
-- timer of its callback and data, new or not, to the interval and the tick from now; `RemoveTimer`
-- takes it away; and both leave every other timer as it was.
pub timers_map :
    (callback user_data interval now : ℕ) (items : List TimerItem)
    → Unique items
    → Unique (add_timer callback user_data interval now items)
      × Added callback user_data interval now items
          (add_timer callback user_data interval now items)
      × Unique (remove_timer callback user_data items)
      × Removed callback user_data items (remove_timer callback user_data items)
timers_map callback user_data interval now items u = (
  add_timer-Unique callback user_data interval now items u,
  add_timer-Added callback user_data interval now items,
  remove_timer-Unique callback user_data items u,
  remove_timer-Removed callback user_data items u,
)

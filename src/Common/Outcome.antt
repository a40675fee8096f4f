-- ===== src/Common/Outcome.antt =====
-- The outcome of a C++ call: a value, a `PktException` with its code (util.h), or undefined
-- behaviour, which here is an access outside the memory block that a pointer points into.
use mathlib.Core.Path.{◌≡◌, refl}

-- The unnamed enum of util.h.
pub data ErrorCode : Type 0 where
  wrong_pkt_len parse_failed unknown_pkt_id : ErrorCode

pub data Result {ℓ} (A : Type ℓ) : Type ℓ where
  ok : A → Result A
  throw : ErrorCode → Result A
  fault : Result A

infixl 5 ◌>>=◌
abbrev pub ◌>>=◌ {ℓ κ} : {A : Type ℓ} {B : Type κ} → Result A → (A → Result B) → Result B
ok a >>= f = f a
throw e >>= f = throw e
fault >>= f = fault

-- The call returns, and its value satisfies `P`.
abbrev pub Returns {ℓ} : {A : Type ℓ} → Result A → (A → Type 0) → Type 0
Returns (ok a) P = P a
Returns (throw e) P = ⊥
Returns fault P = ⊥

pub Returns-mono {ℓ} :
    {A : Type ℓ} (P Q : A → Type 0) (m : Result A)
    → ((a : A) → P a → Q a)
    → Returns m P
    → Returns m Q
Returns-mono P Q (ok a) h p = h a p
Returns-mono P Q (throw e) h p = p
Returns-mono P Q fault h p = p

-- A bind returns if its parts do, the second on every value that the first can return.
pub Returns-bind {ℓ κ} :
    {A : Type ℓ} {B : Type κ} (P : A → Type 0) (Q : B → Type 0) (m : Result A) (f : A → Result B)
    → Returns m P
    → ((a : A) → P a → Returns (f a) Q)
    → Returns (m >>= f) Q
Returns-bind P Q (ok a) f p h = h a p
Returns-bind P Q (throw e) f p h = p
Returns-bind P Q fault f p h = p

-- The value that a call returns.
pub Returns-value {ℓ} :
    {A : Type ℓ} (P : A → Type 0) (m : Result A) → Returns m P → (a : A) × (m ≡ ok a) × P a
Returns-value P (ok a) p = (a, refl, p)
Returns-value P (throw e) p = absurd p
Returns-value P fault p = absurd p

-- ===== src/Resource/Handles.antt =====
-- The allocator of handles of src/netter/base_socket.cpp, an `atomic<int>` as its 32-bit pattern.
use netter.Common.{
  ℕ, zero, suc, ◌+◌, ◌≤◌, ◌<◌, ◌^◌, ◌≡◌, refl, ap, ◌∙◌, Bool, false, List, [], ◌∷◌, Option, none,
  some, arith, if◌then◌else◌, leb, u32, le→leb,
}

-- The loop of the constructor `BaseSocket()`: the handle, and the allocator afterwards. `in_main`
-- says whether the main event loop has a socket with a handle.
unfoldable pub allocate : ℕ → (ℕ → Bool) → ℕ → Option (ℕ × ℕ)
allocate zero in_main allocator = none
allocate (suc fuel) in_main allocator =
    let next = u32 (allocator + 1) in
    let again = allocate fuel in_main next in
    let handle = if leb (2 ^ 31) allocator then 1 else allocator in
    if in_main handle then again else some (handle, next)

-- The handles of `n` sockets that are made one after the other.
unfoldable pub allocate_many : ℕ → ℕ → (ℕ → Bool) → ℕ → List (Option ℕ)
allocate_many zero fuel in_main allocator = []
allocate_many (suc n) fuel in_main allocator = elim (allocate fuel in_main allocator) [
  | none ↦ none ∷ []
  | some made ↦ some (made.0) ∷ allocate_many n fuel in_main made.1
]

-- `n` handles from `i` on, and `n` times the handle 1.
unfoldable pub count_up : ℕ → ℕ → List (Option ℕ)
count_up i zero = []
count_up i (suc n) = some i ∷ count_up (i + 1) n

unfoldable pub ones : ℕ → List (Option ℕ)
ones zero = []
ones (suc n) = some 1 ∷ ones n

-- A handle that the main loop does not have is taken as it is.
pub allocate-positive :
    (fuel a : ℕ) (in_main : ℕ → Bool)
    → in_main a ≡ false
    → a < 2 ^ 31
    → allocate (suc fuel) in_main a ≡ some (a, a + 1)
unfolding allocate
allocate-positive fuel a in_main free h =
    rw (let z : leb (2 ^ 31) a ≡ false = ground arith in z, free)
      (ap (λ k. some (a, k)) (let w : u32 (a + 1) ≡ a + 1 = omega arith in w))

allocate-negative :
    (fuel a : ℕ) (in_main : ℕ → Bool)
    → ((handle : ℕ) → in_main handle ≡ false)
    → 2 ^ 31 ≤ a
    → allocate (suc fuel) in_main a ≡ some (1, u32 (a + 1))
unfolding allocate
allocate-negative fuel a in_main free h = rw (le→leb (2 ^ 31) a h, free 1) refl

increasing :
    (n fuel a : ℕ) (in_main : ℕ → Bool)
    → ((handle : ℕ) → in_main handle ≡ false)
    → a + n ≤ 2 ^ 31
    → allocate_many n (suc fuel) in_main a ≡ count_up a n
unfolding allocate_many count_up
increasing zero fuel a in_main free h = refl
increasing (suc n) fuel a in_main free h =
    rw (allocate-positive fuel a in_main (free a) (omega (arith, h)), allocate_many)
      (ap (λ q. some a ∷ q) (increasing n fuel (a + 1) in_main free (omega (arith, h))))

stuck_at_one :
    (n fuel a : ℕ) (in_main : ℕ → Bool)
    → ((handle : ℕ) → in_main handle ≡ false)
    → 2 ^ 31 ≤ a
    → a + n ≤ 2 ^ 32
    → allocate_many n (suc fuel) in_main a ≡ ones n
unfolding allocate_many ones
stuck_at_one zero fuel a in_main free low h = refl
stuck_at_one (suc zero) fuel a in_main free low h =
    rw (allocate-negative fuel a in_main free low, allocate_many) refl
stuck_at_one (suc (suc n)) fuel a in_main free low h =
    rw (allocate-negative fuel a in_main free low, allocate_many)
      (ap (λ q. some 1 ∷ q)
        (ap (allocate_many (suc n) (suc fuel) in_main)
            (let w : u32 (a + 1) ≡ a + 1 = omega (arith, h) in w)
          ∙ stuck_at_one (suc n) fuel (a + 1) in_main free (omega (arith, low)) (omega (arith, h))))

-- While the main loop holds no sockets, the handles of `n` sockets count up from the allocator's value
-- as long as it does not leave `int`; but after it has, each of `n` sockets gets the same handle, 1.
pub allocate_many-count_up :
    (n fuel a : ℕ) (in_main : ℕ → Bool)
    → ((handle : ℕ) → in_main handle ≡ false)
    → a + n ≤ 2 ^ 31
    → (allocate_many n (suc fuel) in_main a ≡ count_up a n)
      × (allocate_many n (suc fuel) in_main (2 ^ 31) ≡ ones n)
allocate_many-count_up n fuel a in_main free h = (
  increasing n fuel a in_main free h,
  stuck_at_one n fuel (2 ^ 31) in_main free (omega arith) (omega (arith, h)),
)

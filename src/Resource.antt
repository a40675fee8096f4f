-- ===== src/Resource.antt =====
-- src/netter/io_thread_resource.h, a resource for each I/O thread, and the allocator of handles of
-- src/netter/base_socket.cpp.
pub mod Handles
mod Tests
use netter.Common.{
  ℕ, zero, suc, ◌+◌, ◌*◌, ◌%◌, ◌≤◌, ◌<◌, ◌^◌, ◌≡◌, refl, ap, sym, ◌∙◌, ◌⊎◌, inl, inr, Bool, true,
  false, List, [], ◌∷◌, Option, none, some, Result, ok, fault, Returns, length, arith,
  if◌then◌else◌, ltb, leb, ◌==◌, ==_iff, ne→==, Bool-cases, u32, lt→ltb,
}
use native.Mathlib.Nat.{mod-lt}

-- An `int`: `negsuc n` is -(n + 1).
pub data ℤ : Type 0 where
  pos negsuc : ℕ → ℤ

-- A pointer that is NULL is `none`.
pub record IoThreadResource (A : Type 0) : Type 0 where
  pub main_thread_resource : Option A
  pub io_thread_resources : List A
  pub io_thread_num : ℕ
  pub inited : Bool

module _ {A : Type 0} where
  unfoldable pub io_thread_resource : IoThreadResource A
  io_thread_resource = record {
    main_thread_resource = none;
    io_thread_resources = [];
    io_thread_num = 0;
    inited = false;
  }

  -- `new T[n]`, where `make i` is the resource with the index `i`.
  unfoldable pub make_from : (ℕ → A) → ℕ → ℕ → List A
  make_from make i zero = []
  make_from make i (suc n) = make i ∷ make_from make (i + 1) n

  -- `Init(io_thread_num)` for a number that is not negative.
  unfoldable pub init : A → (ℕ → A) → ℕ → IoThreadResource A
  init main make io_thread_num = record {
    main_thread_resource = some main;
    io_thread_resources = make_from make 0 io_thread_num;
    io_thread_num = io_thread_num;
    inited = true;
  }

  unfoldable pub element : List A → ℕ → Result (Option A)
  element [] i = fault
  element (x ∷ xs) zero = ok (some x)
  element (x ∷ xs) (suc i) = element xs i

  -- `&io_thread_resources_[handle % n]`: the remainder has the sign of the handle, and an index that
  -- is negative is outside the array.
  unfoldable pub get_io_resource : IoThreadResource A → ℤ → Result (Option A)
  get_io_resource r (pos handle) =
      if ltb 0 r.io_thread_num
      then element r.io_thread_resources (handle % r.io_thread_num)
      else ok r.main_thread_resource
  get_io_resource r (negsuc k) =
      if ltb 0 r.io_thread_num
      then if (k + 1) % r.io_thread_num == 0 then element r.io_thread_resources 0 else fault
      else ok r.main_thread_resource

  element-make_from :
      (make : ℕ → A) (i n k : ℕ) → k < n → element (make_from make i n) k ≡ ok (some (make (i + k)))
  unfolding element make_from
  element-make_from make i zero k h = absurd (omega (arith, h))
  element-make_from make i (suc n) zero h = ap (λ j. ok (some (make j))) (omega arith)
  element-make_from make i (suc n) (suc k) h =
      element-make_from make (i + 1) n k (omega (arith, h))
      ∙ ap (λ j. ok (some (make j))) (omega arith)

  named : (main : A) (make : ℕ → A) (n k : ℕ) → make (0 + k) ≡ (if suc n == 0 then main else make k)
  named main make n k =
      rw (let z : (suc n == 0) ≡ false = ground arith in z) (ap make (omega arith))

  -- After `Init` with `n` threads, every handle that is not negative has a resource: without threads
  -- the main one, else the one of thread `handle % n`.
  pub get_io_resource-init :
      (main : A) (make : ℕ → A) (n handle : ℕ)
      → get_io_resource (init main make n) (pos handle)
        ≡ ok (some (if n == 0 then main else make (handle % n)))
  unfolding get_io_resource init
  get_io_resource-init main make zero handle = refl
  get_io_resource-init main make (suc n) handle = rw (lt→ltb 0 (suc n) (omega arith)) (
      element-make_from make 0 (suc n) (handle % suc n) (mod-lt handle (omega arith))
      ∙ ap (λ j. ok (some j)) (named main make n (handle % suc n)))

  -- A negative handle, such as NETLIB_INVALID_HANDLE, has none, whatever resources there are: for any
  -- number of threads that does not divide it, the access is outside the array.
  pub get_io_resource_negative :
      (r : IoThreadResource A) (k : ℕ)
      → 0 < r.io_thread_num
      → 0 < (k + 1) % r.io_thread_num
      → get_io_resource r (negsuc k) ≡ fault
  unfolding get_io_resource
  get_io_resource_negative r k threads left =
      rw
        (
          lt→ltb 0 r.io_thread_num threads,
          (let z : ((k + 1) % r.io_thread_num == 0) ≡ false = ground arith in z),
        )
        refl

-- ===== src/Common/Memory.antt =====
-- Memory blocks as lists of bytes, with the C library's calls on them. The null pointer is the
-- empty block. An access outside a block is a fault.
use netter.Common.Tests.{leb, le→leb, if◌then◌else◌}
use netter.Common.Lists.{
  length, take, drop, length-append, length-take, length-drop, take-append, take-append_le,
  drop-append_le, take-take, drop-take, drop-all,
}
use netter.Common.Outcome.{Result, ok, fault}
use Prim.Native.Nat.{ℕ, zero, suc, ◌+◌, ◌-◌, ◌≤◌, ◌<◌}
use mathlib.Core.Path.{◌≡◌, refl, ap, ◌∙◌}
use mathlib.Core.Bool.{◌&&◌}
use mathlib.Core.List.{List, [], ◌∷◌, ◌++◌, append_assoc, append-nil}
use native.Mathlib.Omega.{arith}

-- The byte at offset `i` of memory that nothing has written yet. It stays shut: no proof knows
-- its value.
unfoldable pub indeterminate : ℕ → ℕ
indeterminate i = 0

-- `n` bytes nothing has written, from offset `i` on.
unfoldable pub unwritten : ℕ → ℕ → List ℕ
unwritten zero i = []
unwritten (suc n) i = indeterminate i ∷ unwritten n (suc i)

-- `realloc(block, n)`: the old bytes that still fit, then unwritten ones. It is taken to succeed.
unfoldable pub realloc : List ℕ → ℕ → List ℕ
realloc block n = take n block ++ unwritten (n - length block) (length block)

-- `memcpy(dst + at, src, n)`; also `memmove`, since `src` is a copy of the bytes pointed to.
unfoldable pub memcpy : List ℕ → ℕ → List ℕ → ℕ → Result (List ℕ)
memcpy dst at src n =
    if leb n (length src) && leb (at + n) (length dst)
    then ok (take at dst ++ (take n src ++ drop (at + n) dst))
    else fault

pub length-unwritten : (n i : ℕ) → length (unwritten n i) ≡ n
unfolding unwritten
length-unwritten zero i = refl
length-unwritten (suc n) i = ap suc (length-unwritten n (suc i))

pub length-realloc : (block : List ℕ) (n : ℕ) → length (realloc block n) ≡ n
unfolding realloc
length-realloc block n = omega (
  arith,
  length-append (take n block) (unwritten (n - length block) (length block)),
  length-take n block,
  length-unwritten (n - length block) (length block),
)

-- A larger block keeps every byte that lies below `k`.
pub take-realloc :
    (k : ℕ) (block : List ℕ) (n : ℕ)
    → k ≤ length block
    → k ≤ n
    → take k (realloc block n) ≡ take k block
unfolding realloc
take-realloc k block n h g =
    take-append_le k (take n block) _ (omega (arith, length-take n block)) ∙ take-take k n block g

module _ (dst : List ℕ) (at : ℕ) (src : List ℕ) (n : ℕ) where
  -- Where both ranges lie in their blocks the copy succeeds.
  pub memcpy-ok :
      n ≤ length src
      → at + n ≤ length dst
      → memcpy dst at src n ≡ ok (take at dst ++ (take n src ++ drop (at + n) dst))
  unfolding memcpy
  memcpy-ok h g = rw (le→leb n (length src) h, le→leb (at + n) (length dst) g)

  -- Past the end of the destination it does not.
  pub memcpy-fault : length dst < at + n → memcpy dst at src n ≡ fault
  unfolding memcpy
  memcpy-fault h = ground arith

  pub length-memcpy :
      n ≤ length src
      → at + n ≤ length dst
      → length (take at dst ++ (take n src ++ drop (at + n) dst)) ≡ length dst
  length-memcpy h g = omega (
    arith,
    length-append (take at dst) (take n src ++ drop (at + n) dst),
    length-append (take n src) (drop (at + n) dst),
    length-take at dst,
    length-take n src,
    length-drop (at + n) dst,
  )

  -- The bytes from `r` up to the end of the copy: those that stood before `at`, then the copy.
  pub window-memcpy :
      (r : ℕ)
      → r ≤ at
      → n ≤ length src
      → at + n ≤ length dst
      → take (at + n - r) (drop r (take at dst ++ (take n src ++ drop (at + n) dst)))
        ≡ take (at - r) (drop r dst) ++ take n src
  window-memcpy r le h g =
      rw (drop-append_le r (take at dst) (take n src ++ drop (at + n) dst) r-le, drop-take r at dst)
        (rw (← append_assoc window (take n src) (drop (at + n) dst)) (
          take-append (at + n - r) (window ++ take n src) (drop (at + n) dst) (
            omega (
              arith,
              length-append window (take n src),
              length-take (at - r) (drop r dst),
              length-drop r dst,
              length-take n src,
            ))))
    where
      window : List ℕ
      window = take (at - r) (drop r dst)

      r-le : r ≤ length (take at dst)
      r-le = omega (arith, length-take at dst)

-- A copy over the whole destination.
pub memcpy_whole :
    (dst src : List ℕ) (n : ℕ)
    → length dst ≡ n
    → n ≤ length src
    → memcpy dst 0 src n ≡ ok (take n src)
memcpy_whole dst src n e h =
    memcpy-ok dst 0 src n h (omega arith)
    ∙ ap ok (ap (λ tail. take n src ++ tail) (drop-all (0 + n) dst (omega arith)) ∙ append-nil _)

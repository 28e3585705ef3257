-- ===== src/Base/Counts.antt =====
-- How often a number is in a list, and the list with one of it taken out.
use Prim.Native.Nat.{ℕ, ◌+◌, ◌<◌}
use mathlib.Core.Path.{◌≡◌}
use mathlib.Core.Logic.{inl, inr}
use mathlib.Core.List.{List, [], ◌∷◌}
use native.Mathlib.Omega.{arith}
use os_lab.Base.Tests.{◌==◌, if◌then◌else◌, ==→eq, Bool-cases}
use os_lab.Base.Lists.{length}

-- How often `l` is in the list.
unfoldable pub times : ℕ → List ℕ → ℕ
times l [] = 0
times l (m ∷ ms) = (if m == l then 1 else 0) + times l ms

-- The list without the first `l`.
unfoldable pub without : ℕ → List ℕ → List ℕ
without l [] = []
without l (m ∷ ms) = let rest = without l ms in if m == l then ms else m ∷ rest

pub times-without :
    (k l : ℕ) (ms : List ℕ)
    → 0 < times l ms
    → times k (without l ms) + (if l == k then 1 else 0) ≡ times k ms
unfolding times without
times-without k l [] h = absurd (omega arith)
times-without k l (m ∷ ms) h = elim (Bool-cases (m == l)) [
  | inl y ↦ rw (y, ==→eq m l y) (omega arith)
  | inr n ↦
      let more : 0 < times l ms = omega (arith, rw n at h) in
      rw n (omega (arith, times-without k l ms more))
]

pub length-without : (l : ℕ) (ms : List ℕ) → 0 < times l ms → length (without l ms) + 1 ≡ length ms
unfolding times without
length-without l [] h = absurd (omega arith)
length-without l (m ∷ ms) h = elim (Bool-cases (m == l)) [
  | inl y ↦ rw y (omega arith)
  | inr n ↦
      let more : 0 < times l ms = omega (arith, rw n at h) in
      rw n (omega (arith, length-without l ms more))
]

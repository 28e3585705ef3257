-- ===== src/Sort.antt =====
-- sort.c: the bubble sort of its arguments, with the order in which they are printed.
pub mod Passes
mod Tests
use os_lab.Base.{
  ℕ, zero, suc, ◌+◌, ◌-◌, Bool, true, false, ltb, if◌then◌else◌, update, ℤ, pos, negsuc,
}

-- `>` on ints.
unfoldable pub exceeds : ℤ → ℤ → Bool
exceeds (pos a) (pos b) = ltb b a
exceeds (pos a) (negsuc b) = true
exceeds (negsuc a) (pos b) = false
exceeds (negsuc a) (negsuc b) = ltb a b

pub record Arrays : Type 0 where
  pub arr : ℕ → ℤ
  pub indices : ℕ → ℕ

unfoldable pub swap {ℓ} : {A : Type ℓ} → (ℕ → A) → ℕ → ℕ → ℕ → A
swap f x y = update (update f x (f y)) y (f x)

-- The body of the inner loop.
unfoldable pub bubble_step : Arrays → ℕ → Arrays
bubble_step s j =
    if exceeds (s.arr j) (s.arr (j + 1))
    then record { arr = swap s.arr j (j + 1); indices = swap s.indices j (j + 1) }
    else s

-- The inner and the outer loop, by the number of their rounds.
unfoldable pub bubble_pass : ℕ → Arrays → ℕ → Arrays
bubble_pass zero s j = s
bubble_pass (suc left) s j = bubble_pass left (bubble_step s j) (j + 1)

unfoldable pub bubble_rounds : ℕ → Arrays → ℕ → ℕ → Arrays
bubble_rounds zero s n i = s
bubble_rounds (suc left) s n i = bubble_rounds left (bubble_pass (n - i - 1) s 0) n (i + 1)

unfoldable pub bubble_sort : Arrays → ℕ → Arrays
bubble_sort s n = bubble_rounds (n - 1) s n 0

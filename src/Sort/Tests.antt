-- ===== src/Sort/Tests.antt =====
-- sort.c with four numbers.
use os_lab.Base.{ℕ, ◌<◌, ◌≡◌, refl, false, [], ◌∷◌, map, get_or, ℤ, pos, negsuc}
use os_lab.Sort.{exceeds, Arrays, swap, bubble_step, bubble_pass, bubble_rounds, bubble_sort}
use os_lab.Sort.Passes.{Tracks, bubble_sort_lem}

abbrev four : ℕ → ℤ
four i = get_or (pos 3 ∷ negsuc 4 ∷ pos 3 ∷ pos 0 ∷ []) i (pos 9)

abbrev sorted : Arrays
sorted = bubble_sort (record { arr = four; indices = λ i. i }) 4

sorted_four :
    (map sorted.arr (0 ∷ 1 ∷ 2 ∷ 3 ∷ 4 ∷ []) ≡ negsuc 4 ∷ pos 0 ∷ pos 3 ∷ pos 3 ∷ pos 9 ∷ [])
    × (map sorted.indices (0 ∷ 1 ∷ 2 ∷ 3 ∷ []) ≡ 1 ∷ 3 ∷ 0 ∷ 2 ∷ [])
unfolding bubble_sort bubble_rounds bubble_pass bubble_step swap exceeds
sorted_four = (refl, refl)

bubble_sort_lem_example :
    ((a b : ℕ) → a < b → b < 4 → exceeds (sorted.arr a) (sorted.arr b) ≡ false)
    × Tracks four 4 sorted
bubble_sort_lem_example = bubble_sort_lem four 4

-- ===== src/KString/Tests.antt =====
-- The routines of string.c at concrete memories.
use os_lab.Base.{ℕ, ◌≡◌, refl, List, [], ◌∷◌, map, get_or, pos, negsuc}
use os_lab.KString.{Memory, memmove, memset, strncmp, strncpy, safestrcpy}

-- "abc" at 0 and "ab" at 8
abbrev two_strings : Memory
two_strings a = get_or (97 ∷ 98 ∷ 99 ∷ 0 ∷ 9 ∷ 9 ∷ 9 ∷ 9 ∷ 97 ∷ 98 ∷ 0 ∷ []) a 0

abbrev bytes : Memory → List ℕ
bytes m = map m (0 ∷ 1 ∷ 2 ∷ 3 ∷ 4 ∷ 5 ∷ 6 ∷ 7 ∷ [])

overlapping_right : bytes (memmove 1 0 3 two_strings) ≡ 97 ∷ 97 ∷ 98 ∷ 99 ∷ 9 ∷ 9 ∷ 9 ∷ 9 ∷ []
unfolding memmove
overlapping_right = refl

overlapping_left : bytes (memmove 0 1 3 two_strings) ≡ 98 ∷ 99 ∷ 0 ∷ 0 ∷ 9 ∷ 9 ∷ 9 ∷ 9 ∷ []
unfolding memmove
overlapping_left = refl

fill_words : bytes (memset 0 0x1ff 4 two_strings) ≡ 255 ∷ 255 ∷ 255 ∷ 255 ∷ 9 ∷ 9 ∷ 9 ∷ 9 ∷ []
unfolding memset
fill_words = refl

prefix_is_less : strncmp 8 0 14 two_strings ≡ negsuc 98
unfolding strncmp
prefix_is_less = refl

prefix_is_same : strncmp 8 0 2 two_strings ≡ pos 0
unfolding strncmp
prefix_is_same = refl

truncated : bytes (safestrcpy 4 0 3 two_strings) ≡ 97 ∷ 98 ∷ 99 ∷ 0 ∷ 97 ∷ 98 ∷ 0 ∷ 9 ∷ []
unfolding safestrcpy
truncated = refl

not_terminated : bytes (strncpy 4 0 3 two_strings) ≡ 97 ∷ 98 ∷ 99 ∷ 0 ∷ 97 ∷ 98 ∷ 99 ∷ 9 ∷ []
unfolding strncpy
not_terminated = refl

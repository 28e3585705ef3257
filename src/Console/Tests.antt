-- ===== src/Console/Tests.antt =====
-- console.c at concrete inputs.
use os_lab.Base.{ℕ, ◌-◌, ◌≤◌, ◌≡◌, refl, ◌↔◌, true, false, List, [], ◌∷◌, arith, update}
use os_lab.Console.{Input, input_buf, minus, ctrl_u, return, left_key, key, consoleintr}
use os_lab.Console.Keys.{IsValid, editing_confined}
use os_lab.Console.Editing.{full_forever, kill_line_cursor}

abbrev fresh : Input
fresh = record { buf = λ _. 0; r = 0; w = 0; e = 0; max = 0 }

-- a, b, and two steps to the left.
abbrev two_back : Input
two_back = record { buf = update (update (λ _. 0) 0 97) 1 98; r = 0; w = 0; e = 0; max = 2 }

-- a, b, one step to the left, and return.
abbrev some_keys : List ℕ
some_keys = 97 ∷ 98 ∷ left_key ∷ return ∷ []

line_is_handed_over : (consoleintr some_keys fresh).1 ≡ true
unfolding consoleintr key
line_is_handed_over = refl

fresh-IsValid : IsValid fresh
fresh-IsValid = record { committed = omega arith; cursor = omega arith; bounded = omega arith }

two_back-IsValid : IsValid two_back
two_back-IsValid = record { committed = omega arith; cursor = omega arith; bounded = omega arith }

editing_confined_example :
    IsValid (consoleintr some_keys fresh).0
    × ((a : ℕ) → input_buf ≤ a → (consoleintr some_keys fresh).0.buf a ≡ fresh.buf a)
editing_confined_example =
    editing_confined some_keys fresh
      ((omega arith, (omega arith, (omega arith, (omega arith, tt))))) fresh-IsValid

abbrev used_up : Input
used_up = record fresh { w = 128; e = 128; max = 128 }

full_forever_example : consoleintr some_keys used_up ≡ (used_up, false)
full_forever_example = full_forever some_keys used_up refl refl refl

kill_line_cursor_example :
    let j = (key two_back ctrl_u).0 in
    (j.max ≡ two_back.w)
    × (j.e ≡ minus two_back.e (two_back.max - two_back.w))
    × (j.e ≡ two_back.w ↔ two_back.e ≡ two_back.max)
kill_line_cursor_example = kill_line_cursor two_back two_back-IsValid (λ a l h. ground arith)

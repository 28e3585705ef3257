-- ===== src/Console.antt =====
-- console.c: the line editor behind the keyboard interrupt.
-- Memory is counted from `input.buf`, so that its first INPUT_BUF bytes are the buffer. What is drawn
-- on the screen is left out. The keys are the answers of `getc`, each a byte.
pub mod Keys
pub mod Editing
mod Tests
use os_lab.Base.{
  ℕ, zero, suc, ◌+◌, ◌-◌, ◌%◌, ◌^◌, Bool, true, false, not, ◌&&◌, ◌||◌, List, [], ◌∷◌, ltb, ◌==◌,
  if◌then◌else◌, update,
}
use os_lab.KString.{Memory, memmove}

abbrev pub input_buf : ℕ
input_buf = 128

-- uints wrap around.
abbrev pub up : ℕ → ℕ
up x = (x + 1) % 2 ^ 32

abbrev pub down : ℕ → ℕ
down x = (x + 2 ^ 32 - 1) % 2 ^ 32

abbrev pub minus : ℕ → ℕ → ℕ
minus x y = (x + 2 ^ 32 - y) % 2 ^ 32

pub record Input : Type 0 where
  pub buf : Memory
  pub r : ℕ
  pub w : ℕ
  pub e : ℕ
  pub max : ℕ

-- The keys with a meaning: Control-D, -H, -P and -U, delete, return and newline, and the arrows.
abbrev pub ctrl_d : ℕ
ctrl_d = 4

abbrev pub ctrl_h : ℕ
ctrl_h = 8

abbrev pub newline : ℕ
newline = 10

abbrev pub return : ℕ
return = 13

abbrev pub ctrl_p : ℕ
ctrl_p = 16

abbrev pub ctrl_u : ℕ
ctrl_u = 21

abbrev pub delete : ℕ
delete = 127

abbrev pub up_key : ℕ
up_key = 226

abbrev pub down_key : ℕ
down_key = 227

abbrev pub left_key : ℕ
left_key = 228

abbrev pub right_key : ℕ
right_key = 229

-- The loop of Control-U; it takes `max - w` rounds at most.
unfoldable pub kill_line : ℕ → Input → Input
kill_line zero i = i
kill_line (suc rounds) i =
    let rest = kill_line rounds (record i { max = down i.max; e = down i.e }) in
    if i.max == i.w || (i.buf (down i.max % input_buf) == newline) then i else rest

abbrev pub backspace : Input → Input
backspace i = if i.e == i.w then i else record i {
  max = down i.max;
  e = down i.e;
  buf = memmove (down i.e) (up (down i.e)) (minus (down i.max) (down i.e)) i.buf;
}

-- A character is put in at the cursor, a newline at the end.
abbrev pub insert : Input → ℕ → Input
insert i c =
    if c == newline
    then record i { buf = update i.buf (i.max % input_buf) c; max = up i.max }
    else record i {
      buf = update (memmove (up i.e) i.e (minus i.max i.e) i.buf) (i.e % input_buf) c;
      e = up i.e;
      max = up i.max;
    }

-- Whether the line is handed to the readers, which are woken then.
abbrev pub ends_line : Input → ℕ → Bool
ends_line i c = (c == newline) || (c == ctrl_d) || (i.max == i.r + input_buf)

abbrev pub typed : Input → ℕ → Input × Bool
typed i c =
    if ends_line (insert i c) c
    then (record (insert i c) { w = (insert i c).max; e = (insert i c).max }, true)
    else (insert i c, false)

-- One round of the loop of `consoleintr`, and whether it wakes the readers.
unfoldable pub key : Input → ℕ → Input × Bool
unfolding kill_line
key i c =
    if c == ctrl_p
    then (i, false)
    else if c == ctrl_u
    then (kill_line i.max i, false)
    else if c == ctrl_h || c == delete
    then (backspace i, false)
    else if c == up_key || c == down_key
    then (i, false)
    else if c == left_key
    then ((if i.e == i.w then i else record i { e = down i.e }), false)
    else if c == right_key
    then ((if ltb i.e i.max then record i { e = up i.e } else i), false)
    else if not (c == 0) && ltb i.max input_buf
    then typed i (if c == return then newline else c)
    else (i, false)

unfoldable pub consoleintr : List ℕ → Input → Input × Bool
unfolding key
consoleintr [] i = (i, false)
consoleintr (c ∷ keys) i =
    let now = key i c in let later = consoleintr keys now.0 in (later.0, now.1 || later.1)

-- ===== src/Console/Editing.antt =====
-- Keys that undo each other, and states from which typing does not recover.
use os_lab.Base.{
  ℕ, zero, suc, ◌+◌, ◌-◌, ◌%◌, ◌^◌, ◌≤◌, ◌<◌, ◌≡◌, refl, sym, ap, ap₂, ◌∙◌, ◌≢◌, ◌↔◌, Bool, true,
  false, not, ◌||◌, List, [], ◌∷◌, arith, dec_lt, ltb, ◌==◌, if◌then◌else◌, eq→==, ne→==, update,
}
use os_lab.KString.{Memory, memmove}
use os_lab.KString.Move.{memmove_lem}
use os_lab.Console.{
  Input, input_buf, up, down, minus, ctrl_u, ctrl_d, ctrl_h, ctrl_p, delete, return, newline,
  up_key, down_key, left_key, right_key, backspace, insert, typed, key, kill_line, consoleintr,
}
use os_lab.Console.Keys.{IsValid}

-- A key that puts itself into the line.
abbrev pub is_plain : ℕ → Bool
is_plain c = not (
    (c == 0)
    || (c == ctrl_d)
    || (c == ctrl_h)
    || (c == newline)
    || (c == return)
    || (c == ctrl_p)
    || (c == ctrl_u)
    || (c == delete)
    || (c == up_key)
    || (c == down_key)
    || (c == left_key)
    || (c == right_key))

typed-insert :
    (i : Input) (c : ℕ)
    → c == newline ≡ false
    → c == ctrl_d ≡ false
    → up i.max ≢ i.r + input_buf
    → typed i c ≡ (insert i c, false)
typed-insert i c n d f = rw (n, d, ne→== (up i.max) (i.r + input_buf) f) refl

key-insert :
    (i : Input) (c : ℕ)
    → is_plain c ≡ true
    → i.max < input_buf
    → up i.max ≢ i.r + input_buf
    → key i c ≡ (insert i c, false)
unfolding key
key-insert i c p l f =
    let room : ltb i.max input_buf ≡ true = ground arith in
    let as_is : (if c == return then newline else c) ≡ c = ground arith in
    rw (room, as_is, typed-insert i c (ground arith) (ground arith) f) (ground arith)

key-backspace : (i : Input) → key i ctrl_h ≡ (backspace i, false)
unfolding key
key-backspace i = refl

kill_line_empty : (rounds : ℕ) (i : Input) → i.max ≡ i.w → kill_line rounds i ≡ i
unfolding kill_line
kill_line_empty zero i q = refl
kill_line_empty (suc rounds) i q = rw (eq→== i.max i.w q) refl

key_full :
    (i : Input) (c : ℕ)
    → i.w ≡ input_buf
    → i.e ≡ input_buf
    → i.max ≡ input_buf
    → key i c ≡ (i, false)
unfolding key
key_full i c w e m =
    let start : i.e == i.w ≡ true = ground arith in
    let end : ltb i.e i.max ≡ false = ground arith in
    let full : ltb i.max input_buf ≡ false = ground arith in
    rw (kill_line_empty i.max i (m ∙ sym w), start, end, full) (ground arith)

kill_line-suc :
    (rounds : ℕ) (i : Input)
    → i.max ≢ i.w
    → i.buf (down i.max % input_buf) ≢ newline
    → kill_line (suc rounds) i ≡ kill_line rounds (record i { max = down i.max; e = down i.e })
unfolding kill_line
kill_line-suc rounds i n c =
    rw (ne→== i.max i.w n, ne→== (i.buf (down i.max % input_buf)) newline c) refl

-- Once the line that is handed over ends at the end of the buffer, no key has any effect and none
-- wakes a reader: the input stays as it is for ever.
pub full_forever :
    (keys : List ℕ) (i : Input)
    → i.w ≡ input_buf
    → i.e ≡ input_buf
    → i.max ≡ input_buf
    → consoleintr keys i ≡ (i, false)
unfolding consoleintr
full_forever [] i w e m = refl
full_forever (c ∷ keys) i w e m = rw (key_full i c w e m, full_forever keys i w e m) refl

minus-down : (e n : ℕ) → e < 2 ^ 32 → n < input_buf → minus (down e) n ≡ minus e (suc n)
minus-down e n l h = omega arith

-- Control-U on a line of `n` characters, none of them a newline.
kill_line-rounds :
    (n rounds : ℕ) (i : Input)
    → i.w + n ≡ i.max
    → i.max ≤ input_buf
    → i.e < 2 ^ 32
    → ((a : ℕ) → i.w ≤ a → a < i.max → i.buf a ≢ newline)
    → n ≤ rounds
    → kill_line rounds i ≡ record i { max = i.w; e = minus i.e n }
kill_line-rounds zero rounds i q b l c h =
    kill_line_empty rounds i (omega arith)
    ∙ ap₂ (λ m e. record i { max = m; e = e }) (omega arith) (omega arith)
kill_line-rounds (suc n) zero i q b l c h = absurd (omega arith)
kill_line-rounds (suc n) (suc rounds) i q b l c h =
    kill_line-suc rounds i (omega arith) (c (down i.max % input_buf) (omega arith) (omega arith))
    ∙ kill_line-rounds n rounds (record i { max = down i.max; e = down i.e }) (omega arith)
        (omega arith) (omega arith) (λ a g k. c a g (omega arith)) (omega arith)
    ∙ ap (λ e. record i { max = i.w; e = e }) (minus-down i.e n l (omega arith))

-- Control-U on a line without a newline takes every character away, and moves the cursor back by
-- as many places as the line had characters: it is at the start of the line afterwards exactly if
-- it was at the end before, and otherwise it is before the start, or wraps around.
pub kill_line_cursor :
    (i : Input)
    → IsValid i
    → ((a : ℕ) → i.w ≤ a → a < i.max → i.buf a ≢ newline)
    → let j = (key i ctrl_u).0 in
      (j.max ≡ i.w) × (j.e ≡ minus i.e (i.max - i.w)) × (j.e ≡ i.w ↔ i.e ≡ i.max)
unfolding key
kill_line_cursor i v c =
    let n = i.max - i.w in
    rw
      (kill_line-rounds n i.max i (omega (arith, v.committed, v.cursor)) v.bounded
        (omega (arith, v.cursor, v.bounded)) c (omega arith))
      (
        refl,
        refl,
        (
          λ q. omega (arith, v.committed, v.cursor, v.bounded),
          λ q. omega (arith, v.committed, v.cursor, v.bounded),
        ),
      )

memmove-undone :
    (m : Memory) (e max c a : ℕ)
    → e ≤ max
    → max < input_buf
    → a < max
    → memmove
        (down (up e))
        (up (down (up e)))
        (minus (down (up max)) (down (up e)))
        (update (memmove (up e) e (minus max e) m) (e % input_buf) c)
        a
      ≡ m a
memmove-undone m e max c a l b h =
    memmove_lem (down (up e)) (up (down (up e))) (minus (down (up max)) (down (up e)))
      (update (memmove (up e) e (minus max e) m) (e % input_buf) c) a
    ∙ elim (dec_lt a e) [
      | yes y ↦ ground (arith, memmove_lem (up e) e (minus max e) m a)
      | no n ↦ ground (arith, memmove_lem (up e) e (minus max e) m (a + 1))
    ]

-- A character typed anywhere in a line that has room, and then a backspace, leave the line, the
-- cursor and the end of the line as they were.
pub backspace_undoes :
    (i : Input) (c : ℕ)
    → IsValid i
    → is_plain c ≡ true
    → i.max < input_buf
    → up i.max ≢ i.r + input_buf
    → let j = (key (key i c).0 ctrl_h).0 in
      (j.w ≡ i.w) × (j.e ≡ i.e) × (j.max ≡ i.max) × ((a : ℕ) → a < i.max → j.buf a ≡ i.buf a)
unfolding key
backspace_undoes i c v p l f =
    let line : c == newline ≡ false = ground arith in
    let behind : up i.e == i.w ≡ false =
      ne→== (up i.e) i.w (omega (arith, v.committed, v.cursor)) in
    rw (key-insert i c p l f, line, behind)
      (
        refl,
        omega (arith, v.cursor),
        omega arith,
        λ a h. memmove-undone i.buf i.e i.max c a v.cursor l h,
      )

-- ===== src/Console/Keys.antt =====
-- What the keys leave in order.
use os_lab.Base.{
  ℕ, ◌%◌, ◌≤◌, ◌<◌, ◌≡◌, refl, ◌∙◌, ◌≢◌, inl, inr, Bool, true, false, not, ◌&&◌, ◌||◌, List, [],
  ◌∷◌, arith, ltb, ◌==◌, if◌then◌else◌, ne→==, ltb→lt, Bool-cases, All, update_ne,
}
use os_lab.KString.{memmove}
use os_lab.KString.Move.{memmove_lem}
use os_lab.Console.{
  Input, input_buf, up, down, minus, ctrl_u, ctrl_h, ctrl_p, delete, return, newline, up_key,
  down_key, left_key, right_key, backspace, insert, ends_line, typed, key, consoleintr,
}

-- The indices in their order, and within the buffer.
pub record IsValid (i : Input) : Type 0 where
  pub committed : i.w ≤ i.e
  pub cursor : i.e ≤ i.max
  pub bounded : i.max ≤ input_buf

-- `i` is as `j` behind the buffer.
abbrev pub Same : Input → Input → Type 0
Same i j = (a : ℕ) → input_buf ≤ a → j.buf a ≡ i.buf a

abbrev Keeps : Input → Input → Type 0
Keeps i j = IsValid j × Same i j

still : {i : Input} → IsValid i → Keeps i i
still v = (v, λ a h. refl)

backspace-Keeps : (i : Input) → IsValid i → Keeps i (backspace i)
backspace-Keeps i v = elim (Bool-cases (i.e == i.w)) [
  | inl y ↦ rw y (still v)
  | inr n ↦ rw n (
    record {
      committed = ground (arith, v.committed, v.cursor, v.bounded);
      cursor = ground (arith, v.committed, v.cursor, v.bounded);
      bounded = ground (arith, v.committed, v.cursor, v.bounded);
    },
    λ a h.
        memmove_lem (down i.e) (up (down i.e)) (minus (down i.max) (down i.e)) i.buf a
        ∙ ground (arith, v.committed, v.cursor, v.bounded),
  )
]

-- What insert makes of a state with room.
insert-Keeps :
    (i : Input) (c : ℕ)
    → IsValid i
    → i.max < input_buf
    → Keeps i (insert i c) × ((insert i c).max ≤ input_buf) × (i.w ≤ (insert i c).max)
insert-Keeps i c v l = elim (Bool-cases (c == newline)) [
  | inl y ↦ rw y (
    (
      record { committed = v.committed; cursor = omega (arith, v.cursor); bounded = omega (arith) },
      λ a h. ground arith,
    ),
    omega arith,
    omega (arith, v.committed, v.cursor),
  )
  | inr n ↦ rw n (
    (
      record {
        committed = omega (arith, v.committed, v.cursor);
        cursor = omega (arith, v.cursor);
        bounded = omega (arith);
      },
      λ a h.
          update_ne (memmove (up i.e) i.e (minus i.max i.e) i.buf) (i.e % input_buf) c a
            (λ q. absurd (omega (arith, v.cursor)))
          ∙ memmove_lem (up i.e) i.e (minus i.max i.e) i.buf a
          ∙ ground (arith, v.cursor),
    ),
    omega arith,
    omega (arith, v.committed, v.cursor),
  )
]

typed-Keeps : (i : Input) (c : ℕ) → IsValid i → i.max < input_buf → Keeps i (typed i c).0
typed-Keeps i c v l =
    let k = insert-Keeps i c v l in
    elim (Bool-cases (ends_line (insert i c) c)) [
      | inl y ↦
          rw y (record { committed = omega arith; cursor = omega arith; bounded = k.1 }, k.0.1)
      | inr n ↦ rw n k.0
    ]

key-Keeps : (i : Input) (c : ℕ) → c ≢ ctrl_u → IsValid i → Keeps i (key i c).0
unfolding key
key-Keeps i c u v = elim (Bool-cases (c == ctrl_p)) [
  | inl p ↦ rw p (still v)
  | inr p ↦
      rw (p, ne→== c ctrl_u u)
        (elim (Bool-cases ((c == ctrl_h) || (c == delete))) [
          | inl h ↦ rw h (backspace-Keeps i v)
          | inr h ↦ rw h (elim (Bool-cases ((c == up_key) || (c == down_key))) [
            | inl d ↦ rw d (still v)
            | inr d ↦ rw d (elim (Bool-cases (c == left_key)) [
              | inl l ↦ rw l (left_Keeps (i.e == i.w) refl)
              | inr l ↦ rw l (elim (Bool-cases (c == right_key)) [
                | inl r ↦ rw r (right_Keeps (ltb i.e i.max) refl)
                | inr r ↦ rw r (elim (Bool-cases (not (c == 0) && ltb i.max input_buf)) [
                  | inl t ↦
                      rw t (typed-Keeps i (if c == return then newline else c) v (ground arith))
                  | inr t ↦ rw t (still v)
                ])
              ])
            ])
          ])
        ])
]
  where
    left_Keeps : (b : Bool) → i.e == i.w ≡ b → Keeps i (if b then i else record i { e = down i.e })
    left_Keeps true q = still v
    left_Keeps false q = (
      record {
        committed = ground (arith, v.committed, v.cursor, v.bounded);
        cursor = ground (arith, v.committed, v.cursor, v.bounded);
        bounded = v.bounded;
      },
      λ a h. refl,
    )

    right_Keeps :
        (b : Bool) → ltb i.e i.max ≡ b → Keeps i (if b then record i { e = up i.e } else i)
    right_Keeps false q = still v
    right_Keeps true q =
        let l = ltb→lt i.e i.max q in
        (
          record {
            committed = omega (arith, v.committed, v.bounded);
            cursor = omega (arith, v.bounded);
            bounded = v.bounded;
          },
          λ a h. refl,
        )

-- As long as Control-U is not typed, the start of the line, the cursor and the end of the line
-- stay in this order and within the buffer, and no byte behind the buffer is written.
pub editing_confined :
    (keys : List ℕ) (i : Input)
    → All (λ c. c ≢ ctrl_u) keys
    → IsValid i
    → IsValid (consoleintr keys i).0
      × ((a : ℕ) → input_buf ≤ a → (consoleintr keys i).0.buf a ≡ i.buf a)
unfolding consoleintr
editing_confined [] i u v = still v
editing_confined (c ∷ keys) i (u, us) v =
    let (now, same) = key-Keeps i c u v in
    let (later, rest) = editing_confined keys (key i c).0 us now in
    (later, λ a h. rest a h ∙ same a h)

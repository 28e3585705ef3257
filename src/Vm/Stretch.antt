-- ===== src/Vm/Stretch.antt =====
-- The pages of a stretch, and what they are mapped to.
use os_lab.Base.{
  ℕ, zero, suc, ◌+◌, ◌-◌, ◌*◌, ◌/◌, ◌%◌, ◌^◌, ◌≤◌, ◌<◌, ◌≡◌, refl, Bool, true, false, ◌&&◌, arith,
  dec_lt, ℕ_discrete, ltb, leb, ◌==◌, if◌then◌else◌, eq→==, ne→==,
}
use os_lab.Vm.{with_present}

-- Whether `x` is in the `n` pages from `a` on.
abbrev pub in_pages : ℕ → ℕ → ℕ → Bool
in_pages a n x = leb a x && ltb x (a + 4096 * n)

pub in_pages-yes : (a n x : ℕ) → a ≤ x → x < a + 4096 * n → in_pages a n x ≡ true
in_pages-yes a n x h k = ground arith

pub in_pages-inv : (a n x : ℕ) → in_pages a n x ≡ true → (a ≤ x) × (x < a + 4096 * n)
in_pages-inv a n x h = ground arith

pub in_pages-below : (a n x : ℕ) → x < a → in_pages a n x ≡ false
in_pages-below a n x h = ground arith

pub in_pages-above : (a n x : ℕ) → a + 4096 * n ≤ x → in_pages a n x ≡ false
in_pages-above a n x h = ground arith

-- The entry for `x` when `n` pages from `a` on are mapped to the pages from `pa` on, and what it was
-- is `old`.
abbrev pub mapped_to : ℕ → ℕ → ℕ → ℕ → ℕ → ℕ → ℕ
mapped_to a n pa perm x old =
    if in_pages a n x then pa + 4096 * (x / 4096 - a / 4096) + with_present perm else old

pub one_more :
    (a n pa perm x old : ℕ)
    → a % 4096 ≡ 0
    → a + 4096 * (n + 1) ≤ 2 ^ 32
    → pa + 4096 * (n + 1) ≤ 2 ^ 32
    → mapped_to
        ((a + 4096) % 2 ^ 32)
        n
        ((pa + 4096) % 2 ^ 32)
        perm
        x
        (if a / 4096 == x / 4096 then pa + with_present perm else old)
      ≡ mapped_to a (n + 1) pa perm x old
one_more a zero pa perm x old l h k = rw none_there (elim (ℕ_discrete (a / 4096) (x / 4096)) [
  | yes e ↦
      rw (eq→== (a / 4096) (x / 4096) e, in_pages-yes a 1 x (omega arith) (omega arith))
        (omega (arith, e))
  | no e ↦ rw (ne→== (a / 4096) (x / 4096) e) (elim (dec_lt x a) [
    | yes f ↦ rw (in_pages-below a 1 x f) refl
    | no f ↦ rw (in_pages-above a 1 x (omega (arith, e, f))) refl
  ])
])
  where
    none_there : in_pages ((a + 4096) % 2 ^ 32) 0 x ≡ false
    none_there = ground arith
one_more a (suc n) pa perm x old l h k =
    let back : (a + 4096) % 2 ^ 32 ≡ a + 4096 = omega arith in
    let pa_back : (pa + 4096) % 2 ^ 32 ≡ pa + 4096 = omega arith in
    rw (back, pa_back)
      (elim (dec_lt x a) [
        | yes f ↦
            rw
              (
                in_pages-below (a + 4096) (suc n) x (omega arith),
                in_pages-below a (suc n + 1) x f,
                ne→== (a / 4096) (x / 4096) (omega arith),
              )
              refl
        | no f ↦ elim (dec_lt x (a + 4096)) [
          | yes g ↦
              rw
                (
                  in_pages-below (a + 4096) (suc n) x g,
                  in_pages-yes a (suc n + 1) x (omega arith) (omega arith),
                  eq→== (a / 4096) (x / 4096) (omega arith),
                )
                (omega arith)
          | no g ↦ elim (dec_lt x (a + 4096 * (suc n + 1))) [
            | yes e ↦
                rw
                  (
                    in_pages-yes (a + 4096) (suc n) x (omega arith) (omega arith),
                    in_pages-yes a (suc n + 1) x (omega arith) e,
                  )
                  (omega arith)
            | no e ↦
                rw
                  (
                    in_pages-above (a + 4096) (suc n) x (omega arith),
                    in_pages-above a (suc n + 1) x (omega arith),
                    ne→== (a / 4096) (x / 4096) (omega arith),
                  )
                  refl
          ]
        ]
      ])

pub nothing_in : (a x : ℕ) → in_pages a 0 x ≡ false
nothing_in a x = ground arith

pub in_pages-rest : (a n x : ℕ) → in_pages a (n + 1) x ≡ false → in_pages (a + 4096) n x ≡ false
in_pages-rest a n x h = ground arith

pub in_pages-head : (a n x : ℕ) → in_pages a (n + 1) x ≡ false → in_pages a 1 x ≡ false
in_pages-head a n x h = ground arith

pub in_pages-more : (a n x : ℕ) → in_pages a 1 x ≡ true → in_pages a (suc n) x ≡ true
in_pages-more a n x h =
    let (b, c) = in_pages-inv a 1 x h in in_pages-yes a (suc n) x b (omega arith)

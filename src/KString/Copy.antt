-- ===== src/KString/Copy.antt =====
-- safestrcpy and strncpy stay within the n bytes of the destination; what they leave there.
use os_lab.Base.{
  ℕ, zero, suc, ◌+◌, ◌≤◌, ◌<◌, ◌≡◌, refl, ◌≢◌, ◌⊎◌, inl, inr, arith, ◌==◌, ne→==, Bool-cases,
  update,
}
use os_lab.KString.{pad, safestrcpy, strncpy, Memory, safestrcpy_loop}

-- `a` is no byte of the `n` from `s` on.
abbrev pub Outside : ℕ → ℕ → ℕ → Type 0
Outside s n a = (a < s) ⊎ (s + n ≤ a)

safestrcpy_loop-Outside :
    (s t n : ℕ) (m : Memory) (a : ℕ) → 0 < n → Outside s n a → safestrcpy_loop s t n m a ≡ m a
unfolding safestrcpy_loop
safestrcpy_loop-Outside s t zero m a h o = absurd (omega arith)
safestrcpy_loop-Outside s t (suc zero) m a h o = ground arith
safestrcpy_loop-Outside s t (suc (suc n)) m a h o = ground (
  arith,
  safestrcpy_loop-Outside (s + 1) (t + 1) (suc n) (update m s (m t)) a (omega arith) (omega arith),
)

-- The string that a copy has left at `s`: it ends at `len`, below `n`, and is the source up to
-- there; it is the whole source unless it fills the destination.
pub record Copied (s t n : ℕ) (m m' : Memory) : Type 0 where
  pub len : ℕ
  pub fits : len < n
  pub ended : m' (s + len) ≡ 0
  pub same : (j : ℕ) → j < len → (m' (s + j) ≡ m (t + j)) × (m (t + j) ≢ 0)
  pub whole : (m (t + len) ≡ 0) ⊎ (len + 1 ≡ n)

safestrcpy_loop-Copied :
    (s t n : ℕ) (m : Memory)
    → 0 < n
    → (t + n ≤ s) ⊎ (s + n ≤ t)
    → Copied s t n m (safestrcpy_loop s t n m)
unfolding safestrcpy_loop
safestrcpy_loop-Copied s t zero m h apart = absurd (omega arith)
safestrcpy_loop-Copied s t (suc zero) m h apart = record {
  len = 0;
  fits = omega arith;
  ended = ground arith;
  same = λ j lt. elim lt [ ];
  whole = inr (omega arith);
}
safestrcpy_loop-Copied s t (suc (suc n)) m h apart = elim (Bool-cases (m t == 0)) [
  | inl e ↦ record {
    len = 0;
    fits = omega arith;
    ended = ground arith;
    same = λ j lt. elim lt [ ];
    whole = inl (ground arith);
  }
  | inr e ↦ rw e (
      extend (ground arith)
        (safestrcpy_loop-Copied (s + 1) (t + 1) (suc n) copied (omega arith) (omega arith))
        (safestrcpy_loop-Outside (s + 1) (t + 1) (suc n) copied s (omega arith) (omega arith)))
]
  where
    copied : Memory
    copied = update m s (m t)

    extend :
        m t ≢ 0
        → Copied (s + 1) (t + 1) (suc n) copied (safestrcpy_loop (s + 1) (t + 1) (suc n) copied)
        → safestrcpy_loop (s + 1) (t + 1) (suc n) copied s ≡ copied s
        → Copied s t (suc (suc n)) m (safestrcpy_loop (s + 1) (t + 1) (suc n) copied)
    extend ne c first = record {
      len = suc c.len;
      fits = omega (arith, c.fits);
      ended = ground (arith, c.ended);
      same = each;
      whole = ground (arith, c.whole, c.fits);
    }
      where
        each :
            (j : ℕ)
            → j < suc c.len
            → (safestrcpy_loop (s + 1) (t + 1) (suc n) copied (s + j) ≡ m (t + j)) × (m (t + j) ≢ 0)
        each zero lt = ground (arith, first)
        each (suc j) lt = ground (arith, c.same j (omega arith), c.fits)

-- For 0 < n and disjoint ranges safestrcpy leaves a NUL-terminated string in the n bytes from s on,
-- which is the source up to its NUL or, where that does not fit, the first n - 1 bytes of it.
pub safestrcpy-Copied :
    (s t n : ℕ) (m : Memory)
    → 0 < n
    → (t + n ≤ s) ⊎ (s + n ≤ t)
    → Copied s t n m (safestrcpy s t n m)
unfolding safestrcpy
safestrcpy-Copied s t zero m h apart = elim h [ ]
safestrcpy-Copied s t (suc n) m h apart =
    rw (ne→== (suc n) 0 (omega arith)) (safestrcpy_loop-Copied s t (suc n) m h apart)

pad-Outside : (s n : ℕ) (m : Memory) (a : ℕ) → Outside s n a → pad s n m a ≡ m a
unfolding pad
pad-Outside s zero m a o = refl
pad-Outside s (suc n) m a o = ground (arith, pad-Outside (s + 1) n (update m s 0) a (omega arith))

strncpy-Outside : (s t n : ℕ) (m : Memory) (a : ℕ) → Outside s n a → strncpy s t n m a ≡ m a
unfolding strncpy
strncpy-Outside s t zero m a o = refl
strncpy-Outside s t (suc n) m a o = ground (
  arith,
  pad-Outside (s + 1) n (update m s (m t)) a (omega arith),
  strncpy-Outside (s + 1) (t + 1) n (update m s (m t)) a (omega arith),
)

-- No byte outside the n bytes of the destination is written by strncpy or safestrcpy, whatever the
-- source holds.
pub copies_confined :
    (s t n : ℕ) (m : Memory) (a : ℕ)
    → Outside s n a
    → (strncpy s t n m a ≡ m a) × (safestrcpy s t n m a ≡ m a)
unfolding safestrcpy
copies_confined s t n m a o =
    (strncpy-Outside s t n m a o, ground (arith, safestrcpy_loop-Outside s t n m a))

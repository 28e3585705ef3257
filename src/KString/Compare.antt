-- ===== src/KString/Compare.antt =====
-- memcmp and strncmp answer 0 exactly on equal contents.
use os_lab.Base.{
  ℕ, zero, suc, ◌+◌, ◌<◌, ◌≡◌, ◌≢◌, ◌↔◌, refl, arith, pos, inl, inr, Bool-cases, ◌==◌,
}
use os_lab.KString.{Memory, memcmp, strncmp}

-- The `n` bytes from `p` on are those from `q` on.
abbrev pub SameBytes : ℕ → ℕ → ℕ → Memory → Type 0
SameBytes p q n m = (i : ℕ) → i < n → m (p + i) ≡ m (q + i)

-- The strings at `p` and `q` agree up to the NUL or the first `n` bytes, whichever ends first.
abbrev pub SameString : ℕ → ℕ → ℕ → Memory → Type 0
SameString p q n m = (i : ℕ) → i < n → ((j : ℕ) → j < i → m (p + j) ≢ 0) → m (p + i) ≡ m (q + i)

SameBytes-memcmp : (p q n : ℕ) (m : Memory) → memcmp p q n m ≡ pos 0 → SameBytes p q n m
unfolding memcmp
SameBytes-memcmp p q zero m e i h = elim h [ ]
SameBytes-memcmp p q (suc n) m e zero h = ground arith
SameBytes-memcmp p q (suc n) m e (suc i) h =
    ground (arith, SameBytes-memcmp (p + 1) (q + 1) n m (ground arith) i)

memcmp-SameBytes : (p q n : ℕ) (m : Memory) → SameBytes p q n m → memcmp p q n m ≡ pos 0
unfolding memcmp
memcmp-SameBytes p q zero m h = refl
memcmp-SameBytes p q (suc n) m h =
    ground (arith, h 0 (omega arith), memcmp-SameBytes (p + 1) (q + 1) n m later)
  where
    later : SameBytes (p + 1) (q + 1) n m
    later i lt = ground (arith, h (suc i) (omega arith))

-- memcmp returns 0 exactly when the n bytes from p on are those from q on.
pub memcmp_zero_iff : (p q n : ℕ) (m : Memory) → (memcmp p q n m ≡ pos 0) ↔ SameBytes p q n m
memcmp_zero_iff p q n m = (SameBytes-memcmp p q n m, memcmp-SameBytes p q n m)

SameString-strncmp : (p q n : ℕ) (m : Memory) → strncmp p q n m ≡ pos 0 → SameString p q n m
unfolding strncmp
SameString-strncmp p q zero m e i h nz = elim h [ ]
SameString-strncmp p q (suc n) m e zero h nz = ground arith
SameString-strncmp p q (suc n) m e (suc i) h nz = ground (
  arith,
  nz 0,
  SameString-strncmp (p + 1) (q + 1) n m (ground (arith, nz 0)) i (omega arith) later,
)
  where
    later : (j : ℕ) → j < i → m (p + 1 + j) ≢ 0
    later j lt = ground (arith, nz (suc j) (omega arith))

strncmp-SameString : (p q n : ℕ) (m : Memory) → SameString p q n m → strncmp p q n m ≡ pos 0
unfolding strncmp
strncmp-SameString p q zero m h = refl
strncmp-SameString p q (suc n) m h = elim (Bool-cases (m p == 0)) [
  | inl e ↦ ground (arith, h 0 (omega arith) none_before)
  | inr e ↦ ground (
    arith,
    h 0 (omega arith) none_before,
    strncmp-SameString (p + 1) (q + 1) n m (later (ground arith)),
  )
]
  where
    none_before : (j : ℕ) → j < 0 → m (p + j) ≢ 0
    none_before j lt = elim lt [ ]

    later : m p ≢ 0 → SameString (p + 1) (q + 1) n m
    later ne i lt nz = ground (arith, h (suc i) (omega arith) nz')
      where
        nz' : (j : ℕ) → j < suc i → m (p + j) ≢ 0
        nz' zero l = ground arith
        nz' (suc j) l = ground (arith, nz j (omega arith))

-- strncmp returns 0 exactly when the strings at p and q agree up to their NUL, or in their first
-- n bytes if neither ends before.
pub strncmp_zero_iff : (p q n : ℕ) (m : Memory) → (strncmp p q n m ≡ pos 0) ↔ SameString p q n m
strncmp_zero_iff p q n m = (SameString-strncmp p q n m, strncmp-SameString p q n m)

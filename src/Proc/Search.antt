-- ===== src/Proc/Search.antt =====
-- The loops that search the table.
use os_lab.Base.{
  ℕ, zero, suc, ◌+◌, ◌≤◌, ◌<◌, ◌≡◌, refl, inl, inr, Bool, true, false, ◌&&◌, ◌||◌, none, some,
  arith, ℕ_discrete, Bool-cases,
}
use os_lab.Proc.{Proc, find, scan, found, scanned, is_child, is_zombie}

pub find-some :
    (test : ℕ → Bool) (i left : ℕ) {j : ℕ}
    → find test i left ≡ some j
    → (i ≤ j) × (j < i + left) × (test j ≡ true) × ((k : ℕ) → i ≤ k → k < j → test k ≡ false)
unfolding find
find-some test i zero e = cc
find-some test i (suc left) {j} e = elim (Bool-cases (test i)) [
  | inl h ↦
      let same : i ≡ j = ground arith in
      (omega arith, omega arith, rw (← same) h, λ k l m. absurd (omega arith))
  | inr h ↦
      let r = find-some test (i + 1) left {j = j} (ground arith) in
      (
        omega (arith, r.0),
        omega (arith, r.1),
        r.2,
        λ k l m. elim (ℕ_discrete i k) [ yes q ↦ rw (← q) h | no q ↦ r.3 k (omega arith) m ],
      )
]

pub find-none :
    (test : ℕ → Bool) (i left : ℕ)
    → find test i left ≡ none
    → (k : ℕ) → i ≤ k
    → k < i + left
    → test k ≡ false
unfolding find
find-none test i zero e k l m = absurd (omega arith)
find-none test i (suc left) e k l m = elim (ℕ_discrete i k) [
  | yes q ↦ ground arith
  | no q ↦ ground (arith, find-none test (i + 1) left (ground arith) k (omega arith) (omega arith))
]

-- A scan that finds an entry finds a zombie child.
pub scan_found :
    (cur : ℕ) (procs : ℕ → Proc) (i left : ℕ) (b : Bool) {j : ℕ}
    → scan cur procs i left b ≡ found j
    → (j < i + left) × (is_child cur (procs j).parent ≡ true) × (is_zombie (procs j).state ≡ true)
unfolding scan
scan_found cur procs i zero b e = cc
scan_found cur procs i (suc left) b {j} e =
    elim (Bool-cases (is_child cur (procs i).parent && is_zombie (procs i).state)) [
      | inl h ↦ ground arith
      | inr h ↦
          let r =
            scan_found cur procs (i + 1) left (b || is_child cur (procs i).parent) {j = j}
              (ground arith) in
          (omega (arith, r.0), r.1, r.2)
    ]

-- A scan that finds none has passed no zombie child, and answers whether there is a child.
pub scan_scanned :
    (cur : ℕ) (procs : ℕ → Proc) (i left : ℕ) (b : Bool) {c : Bool}
    → scan cur procs i left b ≡ scanned c
    → ((k : ℕ)
        → i ≤ k
        → k < i + left
        → is_child cur (procs k).parent && is_zombie (procs k).state ≡ false)
      × (c ≡ false → (k : ℕ) → i ≤ k → k < i + left → is_child cur (procs k).parent ≡ false)
      × (b ≡ true → c ≡ true)
unfolding scan
scan_scanned cur procs i zero b e =
    (λ k l m. absurd (omega arith), λ f k l m. absurd (omega arith), λ t. ground arith)
scan_scanned cur procs i (suc left) b {c} e =
    elim (Bool-cases (is_child cur (procs i).parent && is_zombie (procs i).state)) [
      | inl h ↦ absurd (ground arith)
      | inr h ↦
          let r =
            scan_scanned cur procs (i + 1) left (b || is_child cur (procs i).parent) {c = c}
              (ground arith) in
          (
            λ k l m. elim (ℕ_discrete i k) [
              | yes q ↦ rw (← q) h
              | no q ↦ r.0 k (omega arith) (omega arith)
            ],
            λ f k l m. elim (ℕ_discrete i k) [
              | yes q ↦ rw (← q) (none_here f r.2)
              | no q ↦ r.1 f k (omega arith) (omega arith)
            ],
            λ t. r.2 (rw t),
          )
    ]
  where
    none_here :
        c ≡ false
        → (b || is_child cur (procs i).parent ≡ true → c ≡ true)
        → is_child cur (procs i).parent ≡ false
    none_here f g = elim (Bool-cases (is_child cur (procs i).parent)) [
      | inl y ↦ absurd (cc (g (rw y (or_true b))))
      | inr n ↦ n
    ]
      where
        or_true : (b : Bool) → b || true ≡ true
        or_true true = refl
        or_true false = refl

-- A scan that has seen a child has passed one.
pub scan_child :
    (cur : ℕ) (procs : ℕ → Proc) (i left : ℕ) (b : Bool)
    → scan cur procs i left b ≡ scanned true
    → b ≡ false
    → (k : ℕ) × (k < i + left) × (is_child cur (procs k).parent ≡ true)
unfolding scan
scan_child cur procs i zero b e z = absurd (ground arith)
scan_child cur procs i (suc left) b e z = elim (Bool-cases (is_child cur (procs i).parent)) [
  | inl y ↦ (i, omega arith, y)
  | inr n ↦
      let (k, l, c) =
        scan_child cur procs (i + 1) left (b || false) (rw (scan, n) at e) (rw z refl) in
      (k, omega arith, c)
]

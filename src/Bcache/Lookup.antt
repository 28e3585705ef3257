-- ===== src/Bcache/Lookup.antt =====
-- What the two loops of bget find.
use os_lab.Base.{
  times, ℕ, ◌<◌, ◌≡◌, refl, ◌∙◌, subst, inl, inr, true, false, not, ◌&&◌, none, some, List, [], ◌∷◌,
  arith, ℕ_discrete, ◌==◌, eq→==, ne→==, Bool-cases, Option-cases, some-injective,
}
use os_lab.Bcache.{Buf, is_block, find_block, find_unused}

-- What find_block finds is in the list and has the block; what it does not find is not there.
pub find_block-found :
    (bufs : ℕ → Buf) (dev blockno : ℕ) (order : List ℕ) (i : ℕ)
    → find_block bufs dev blockno order ≡ some i
    → (0 < times i order) × (is_block (bufs i) dev blockno ≡ true)
unfolding find_block times
find_block-found bufs dev blockno [] i e = cc
find_block-found bufs dev blockno (j ∷ rest) i e =
    elim (Bool-cases (is_block (bufs j) dev blockno)) [
      | inl y ↦
          subst (λ i. (0 < times i (j ∷ rest)) × (is_block (bufs i) dev blockno ≡ true))
            (some-injective ((rw y at e))) (rw (eq→== j j refl) (omega arith), y)
      | inr n ↦
          let (m, b) = find_block-found bufs dev blockno rest i ((rw n at e)) in
          (omega (arith, m), b)
    ]

pub find_block-none :
    (bufs : ℕ → Buf) (dev blockno : ℕ) (order : List ℕ) (i : ℕ)
    → find_block bufs dev blockno order ≡ none
    → 0 < times i order
    → is_block (bufs i) dev blockno ≡ false
unfolding find_block times
find_block-none bufs dev blockno [] i e h = absurd (omega arith)
find_block-none bufs dev blockno (j ∷ rest) i e h =
    elim (Bool-cases (is_block (bufs j) dev blockno)) [
      | inl y ↦ cc (rw y at e)
      | inr n ↦ elim (ℕ_discrete j i) [
        | yes q ↦ subst (λ i. is_block (bufs i) dev blockno ≡ false) q n
        | no q ↦
            find_block-none bufs dev blockno rest i ((rw n at e))
              (omega (arith, rw (ne→== j i q) at h))
      ]
    ]

pub find_unused-found :
    (bufs : ℕ → Buf) (order : List ℕ) (i : ℕ)
    → find_unused bufs order ≡ some i
    → (0 < times i order) × ((bufs i).refcnt ≡ 0)
unfolding find_unused times
find_unused-found bufs [] i e = cc
find_unused-found bufs (j ∷ rest) i e = elim (Option-cases (find_unused bufs rest)) [
  | inr (k, z) ↦
      let (m, b) = find_unused-found bufs rest i (z ∙ (rw (z, find_unused) at e)) in
      (omega (arith, m), b)
  | inl z ↦ elim (Bool-cases (((bufs j).refcnt == 0) && not (bufs j).dirty)) [
    | inl y ↦
        subst (λ i. (0 < times i (j ∷ rest)) × ((bufs i).refcnt ≡ 0))
          (some-injective ((rw (z, y, find_unused) at e)))
          (rw (eq→== j j refl) (omega arith), ground arith)
    | inr n ↦ absurd (cc (rw (z, n, find_unused) at e))
  ]
]

-- ===== src/Base/Sums.antt =====
-- Functions from numbers as stores, a memory or a table of entries: a write at one index, and the
-- weight that a stretch of entries has together.
use Prim.Native.Nat.{ℕ, zero, suc, ◌+◌, ◌≤◌, ◌<◌}
use mathlib.Core.Path.{◌≡◌, refl}
use mathlib.Core.Logic.{◌≢◌}
use native.Mathlib.Omega.{arith}
use native.Mathlib.Decide.{ℕ_discrete}
use os_lab.Base.Tests.{◌==◌, if◌then◌else◌, ltb, lt→ltb}

abbrev pub update {ℓ} : {A : Type ℓ} → (ℕ → A) → ℕ → A → ℕ → A
update f i a j = if i == j then a else f j

pub update_self {ℓ} : {A : Type ℓ} (f : ℕ → A) (i : ℕ) (a : A) → update f i a i ≡ a
update_self f i a = ground arith

pub update_ne {ℓ} : {A : Type ℓ} (f : ℕ → A) (i : ℕ) (a : A) (j : ℕ) → i ≢ j → update f i a j ≡ f j
update_ne f i a j h = ground arith

-- What the entries before the `k`th weigh.
unfoldable pub weigh {ℓ} : {A : Type ℓ} → (A → ℕ) → ℕ → (ℕ → A) → ℕ
weigh of zero table = 0
weigh of (suc k) table = of (table k) + weigh of k table

module _ {ℓ} {A : Type ℓ} (of : A → ℕ) (table : ℕ → A) where
  -- A write outside the stretch counts for nothing.
  exchange :
      (k j : ℕ) (x : A)
      → weigh of k (update table j x) + (if ltb j k then of (table j) else 0)
        ≡ weigh of k table + (if ltb j k then of x else 0)
  unfolding weigh
  exchange zero j x = ground arith
  exchange (suc k) j x = ground (arith, exchange k j x)

  pub weigh-update :
      (k j : ℕ) (x : A)
      → j < k
      → weigh of k (update table j x) + of (table j) ≡ weigh of k table + of x
  weigh-update k j x inside = rw (lt→ltb j k inside) at (exchange k j x)

  pub weigh_light : ((x : A) → of x ≤ 1) → (k : ℕ) → weigh of k table ≤ k
  unfolding weigh
  weigh_light light zero = omega arith
  weigh_light light (suc k) = omega (arith, light (table k), weigh_light light k)

  pub weigh_nothing : ((j : ℕ) → of (table j) ≡ 0) → (k : ℕ) → weigh of k table ≡ 0
  unfolding weigh
  weigh_nothing empty zero = refl
  weigh_nothing empty (suc k) = omega (arith, empty k, weigh_nothing empty k)

-- Each is within the weight of all.
pub weigh_one {ℓ} :
    {A : Type ℓ} (of : A → ℕ) (table : ℕ → A) (k i : ℕ) → i < k → of (table i) ≤ weigh of k table
unfolding weigh
weigh_one of table zero i l = absurd (omega arith)
weigh_one of table (suc k) i l = elim (ℕ_discrete i k) [
  | yes q ↦ rw q (omega arith)
  | no q ↦ omega (arith, weigh_one of table k i (omega arith))
]

pub weigh_two {ℓ} :
    {A : Type ℓ} (of : A → ℕ) (table : ℕ → A) (k i j : ℕ)
    → i < k
    → j < k
    → i ≢ j
    → of (table i) + of (table j) ≤ weigh of k table
unfolding weigh
weigh_two of table zero i j l m n = absurd (omega arith)
weigh_two of table (suc k) i j l m n = elim (ℕ_discrete i k) [
  | yes q ↦ rw q (omega (arith, weigh_one of table k j (omega arith)))
  | no q ↦ elim (ℕ_discrete j k) [
    | yes p ↦ rw p (omega (arith, weigh_one of table k i (omega arith)))
    | no p ↦ omega (arith, weigh_two of table k i j (omega arith) (omega arith) n)
  ]
]

-- ===== src/Spinlock/Safety.antt =====
-- What holds of CPUs that take and release spinlocks in any order.
use os_lab.Base.{
  weigh_one, weigh_two, times, ℕ, ◌<◌, ◌≡◌, refl, ◌≢◌, ◌↔◌, inl, inr, false, arith, ℕ_discrete, ltb,
  ◌==◌, ltb→lt, Bool-cases, Outcome, ok, panic, weigh_nothing,
}
use os_lab.Spinlock.{Cpu, Spinlock, popcli, release_end, is_held, acquire_begin, release_begin}
use os_lab.Spinlock.System.{unmarking, Core, System, start, Reach, init, next}
use os_lab.Spinlock.Invariant.{Masked, claims, nesting, acquire_begin_lem, release_begin_lem}
use os_lab.Spinlock.Claims.{AllClaimed, claims_kept}
use os_lab.Spinlock.Masks.{AllMasked, masks_kept}

claims_and_masks : (n : ℕ) {s : System} → Reach n s → AllClaimed n s × AllMasked s
unfolding times
claims_and_masks n init = (
  (λ l. record {
    once = weigh_nothing (claims l) start.cores (λ j. refl) n;
    one = omega arith;
    marked = λ i h. ground arith;
  }),
  (λ i. record { depth = refl; flag = ground arith; before = λ k. absurd (omega (arith, k)) }),
)
claims_and_masks n (next {s} r e) =
    let (c, m) = claims_and_masks n r in (claims_kept n s e c, masks_kept n s e c m)

-- Of the CPUs that have swapped the word of a spinlock from 0 in acquire and have not set it back to
-- 0 in release, there is one at most, and the lock is locked.
pub spinlock_exclusion :
    (n : ℕ) {s : System}
    → Reach n s
    → (l i j : ℕ) → i < n
    → j < n
    → 0 < claims l (s.cores i)
    → 0 < claims l (s.cores j)
    → (i ≡ j) × ((s.locks l).locked ≡ 1)
spinlock_exclusion n {s} r l i j h k a b =
    let c = (claims_and_masks n r).0 l in
    (
      elim (ℕ_discrete i j) [
        | yes q ↦ q
        | no q ↦
            absurd (omega (arith, weigh_two (claims l) s.cores n i j h k q, c.once, c.one, a, b))
      ],
      omega (arith, weigh_one (claims l) s.cores n i h, c.once, c.one, a),
    )

is_held-held :
    (n : ℕ) {s : System}
    → Reach n s
    → (i l : ℕ) → i < n
    → is_held (s.locks l) i ≡ ltb 0 (times l (s.cores i).held)
is_held-held n {s} r i l h =
    let c = (claims_and_masks n r).0 l in
    elim (Bool-cases (ltb 0 (times l (s.cores i).held))) [
      | inl y ↦
          let more = ltb→lt 0 (times l (s.cores i).held) y in
          let one : (s.locks l).locked ≡ 1 =
            omega (arith, weigh_one (claims l) s.cores n i h, c.once, c.one, more) in
          rw (one, c.marked i h) refl
      | inr y ↦
          rw (c.marked i h, y)
            (elim (Bool-cases ((s.locks l).locked == 0)) [ inl z ↦ rw z refl | inr z ↦ rw z refl ])
    ]

begin_panics :
    (n : ℕ) {s : System}
    → Reach n s
    → (i l : ℕ) → i < n
    → ((acquire_begin (s.locks l) i (s.cpus i) ≡ panic) ↔ (0 < times l (s.cores i).held))
      × ((release_begin (s.locks l) i (s.cpus i) ≡ panic) ↔ (times l (s.cores i).held ≡ 0))
begin_panics n {s} r i l h = elim (Bool-cases (ltb 0 (times l (s.cores i).held))) [
  | inl y ↦
      let more = ltb→lt 0 (times l (s.cores i).held) y in
      rw
        (
          acquire_begin_lem (s.locks l) i (s.cpus i),
          release_begin_lem (s.locks l) i (s.cpus i),
          is_held-held n r i l h,
          y,
        )
        (((λ e. more), (λ e. refl)), ((λ e. cc), (λ z. absurd (omega (arith, more, z)))))
  | inr y ↦
      rw
        (
          acquire_begin_lem (s.locks l) i (s.cpus i),
          release_begin_lem (s.locks l) i (s.cpus i),
          is_held-held n r i l h,
          y,
        )
        (((λ e. cc), (λ e. absurd (ground arith))), ((λ e. ground arith), (λ z. refl)))
]

popcli-panics : (c : Cpu) (r : Core) → Masked c r → 0 < nesting r → popcli c ≢ panic
unfolding popcli
popcli-panics c r m h =
    let deep : c.ncli == 0 ≡ false = ground (arith, m.depth, h) in
    let off : c.interruptible ≡ false = rw deep at m.flag in rw (off, deep) (λ e. cc)

release_end-panics : (lk : Spinlock) (c : Cpu) → popcli c ≢ panic → release_end lk c ≢ panic
unfolding release_end
release_end-panics lk c n = go (popcli c) refl
  where
    go : (p : Outcome Cpu) → popcli c ≡ p → release_end lk c ≢ panic
    go panic q = absurd (n q)
    go (ok x) q = rw (release_end, q) (λ e. cc)

-- acquire panics exactly on a spinlock that its CPU holds already. release panics before it gives the
-- spinlock up exactly if its CPU does not hold it, and once it has begun it does not panic any more,
-- in popcli. Nor does a popcli that undoes a pushcli.
pub spinlock_panics :
    (n : ℕ) {s : System}
    → Reach n s
    → (i l : ℕ) → i < n
    → ((acquire_begin (s.locks l) i (s.cpus i) ≡ panic) ↔ (0 < times l (s.cores i).held))
      × ((release_begin (s.locks l) i (s.cpus i) ≡ panic) ↔ (times l (s.cores i).held ≡ 0))
      × ((s.cores i).pc ≡ unmarking l → release_end (s.locks l) (s.cpus i) ≢ panic)
      × (0 < (s.cores i).pushed → popcli (s.cpus i) ≢ panic)
spinlock_panics n {s} r i l h =
    let (a, b) = begin_panics n r i l h in
    let m = (claims_and_masks n r).1 i in
    (
      a,
      b,
      λ p.
          release_end-panics (s.locks l) (s.cpus i)
            (popcli-panics (s.cpus i) (s.cores i) m (rw p (omega arith))),
      λ p. popcli-panics (s.cpus i) (s.cores i) m (omega arith),
    )

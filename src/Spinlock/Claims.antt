-- ===== src/Spinlock/Claims.antt =====
-- Every step keeps the claims to each spinlock in order.
use os_lab.Base.{
  times-without, weigh_two, without, times, weigh_one, ℕ, zero, suc, ◌+◌, ◌-◌, ◌≤◌, ◌<◌, ◌≡◌, refl,
  sym, ap, ◌∙◌, subst, ◌≢◌, true, false, Option, none, some, ◌∷◌, arith, ℕ_discrete, ltb, ◌==◌,
  ne→==, ltb→lt, update_self, update_ne, update, weigh-update,
}
use os_lab.Spinlock.{Spinlock, is_cpu, swap_in, mark}
use os_lab.Spinlock.System.{
  running, spinning, marking, unmarking, Core, System, spun, Step, begins, spins, marks, unmarks,
  frees, pushes, pops, enables, interrupts, resumes,
}
use os_lab.Spinlock.Invariant.{in_flight, claims, Claimed, release_begin-ok, release_end-ok}

module _ (n : ℕ) (cores : ℕ → Core) (i : ℕ) (inside : i < n) where
  -- A CPU with a claim leaves none to the others.
  alone :
      (lk : Spinlock) (l : ℕ)
      → Claimed n lk cores l
      → 0 < claims l (cores i)
      → (j : ℕ) → j < n
      → i ≢ j
      → times l (cores j).held ≡ 0
  alone lk l c mine j h d =
      omega (arith, weigh_two (claims l) cores n i j inside h d, c.once, c.one)

  locked_by :
      (lk : Spinlock) (l : ℕ) → Claimed n lk cores l → 0 < claims l (cores i) → lk.locked ≡ 1
  locked_by lk l c mine = omega (arith, weigh_one (claims l) cores n i inside, c.once, c.one)

  -- The lock and the claims of a CPU change together.
  change :
      (lk k : Spinlock) (l : ℕ) (r : Core)
      → Claimed n lk cores l
      → claims l r + lk.locked ≡ claims l (cores i) + k.locked
      → k.locked ≤ 1
      → ((j : ℕ) → j < n → is_cpu k.cpu j ≡ ltb 0 (times l (update cores i r j).held))
      → Claimed n k (update cores i r) l
  change lk k l r c e one m = record {
    once = omega (arith, weigh-update (claims l) cores n i r inside, c.once, e);
    one = one;
    marked = m;
  }

  each :
      (cpu : Option ℕ) (l : ℕ) (r : Core)
      → is_cpu cpu i ≡ ltb 0 (times l r.held)
      → ((j : ℕ) → j < n → i ≢ j → is_cpu cpu j ≡ ltb 0 (times l (cores j).held))
      → (j : ℕ) → j < n
      → is_cpu cpu j ≡ ltb 0 (times l (update cores i r j).held)
  each cpu l r e others j h = elim (ℕ_discrete i j) [
    | yes q ↦
        subst (λ k. is_cpu cpu k ≡ ltb 0 (times l (update cores i r k).held)) q
          (rw (update_self cores i r) e)
    | no q ↦ rw (update_ne cores i r j q) (others j h q)
  ]

  same_held :
      (lk : Spinlock) (l : ℕ) (r : Core)
      → Claimed n lk cores l
      → times l r.held ≡ times l (cores i).held
      → (j : ℕ) → j < n
      → is_cpu lk.cpu j ≡ ltb 0 (times l (update cores i r j).held)
  same_held lk l r c t =
      each lk.cpu l r (c.marked i inside ∙ ap (ltb 0) (sym t)) (λ j h q. c.marked j h)

  untouched :
      (lk : Spinlock) (l : ℕ) (r : Core)
      → Claimed n lk cores l
      → in_flight l r.pc ≡ in_flight l (cores i).pc
      → times l r.held ≡ times l (cores i).held
      → Claimed n lk (update cores i r) l
  untouched lk l r c f t = change lk lk l r c (omega (arith, f, t)) c.one (same_held lk l r c t)

  spin-Claimed :
      (lk : Spinlock) (l : ℕ)
      → Claimed n lk cores l
      → (cores i).pc ≡ spinning l
      → Claimed n (swap_in lk).1 (update cores i (record (cores i) { pc = spun l lk.locked })) l
  spin-Claimed lk l c p =
      let r : Core = record (cores i) { pc = spun l lk.locked } in
      change lk (swap_in lk).1 l r c ((rw p (sums lk.locked c.one))) (omega arith)
        (same_held lk l r c refl)
    where
      sums :
          (old : ℕ)
          → old ≤ 1
          → in_flight l (spun l old) + times l (cores i).held + old ≡ 0 + times l (cores i).held + 1
      sums zero o = ground arith
      sums (suc zero) o = refl
      sums (suc (suc old)) o = absurd (omega arith)

  mark-Claimed :
      (lk : Spinlock) (l : ℕ)
      → Claimed n lk cores l
      → (cores i).pc ≡ marking l
      → Claimed n
          (mark lk i)
          (update cores i (record (cores i) { pc = running; held = l ∷ (cores i).held }))
          l
  unfolding times
  mark-Claimed lk l c p =
      let r : Core = record (cores i) { pc = running; held = l ∷ (cores i).held } in
      let own : l == l ≡ true = ground arith in
      let i_self : i == i ≡ true = ground arith in
      let mine : 0 < claims l (cores i) = rw (p, own) (omega arith) in
      change lk (mark lk i) l r c (rw (p, own) (omega arith)) c.one (
        each (some i) l r (rw (own, i_self) (ground arith))
          λ j h q. rw (alone lk l c mine j h q) (ne→== i j q))

  unmark-Claimed :
      (lk : Spinlock) (l : ℕ)
      → Claimed n lk cores l
      → (cores i).pc ≡ running
      → 0 < times l (cores i).held
      → Claimed n
          (record lk { cpu = none })
          (update cores i (record (cores i) { pc = unmarking l; held = without l (cores i).held }))
          l
  unmark-Claimed lk l c p t =
      let r : Core = record (cores i) { pc = unmarking l; held = without l (cores i).held } in
      let own : l == l ≡ true = ground arith in
      let w : times l (without l (cores i).held) + 1 ≡ times l (cores i).held =
        rw own at (times-without l l (cores i).held t) in
      let mine : 0 < claims l (cores i) = omega (arith, t) in
      let top : claims l (cores i) ≤ 1 =
        omega (arith, weigh_one (claims l) cores n i inside, c.once, c.one) in
      let last : times l (without l (cores i).held) ≡ 0 = omega (arith, w, top) in
      change lk (record lk { cpu = none }) l r c (rw (p, own) (omega (arith, w))) c.one
        (each none l r (rw last refl) λ j h q. rw (alone lk l c mine j h q) refl)

  free-Claimed :
      (lk : Spinlock) (l : ℕ)
      → Claimed n lk cores l
      → (cores i).pc ≡ unmarking l
      → Claimed n (record lk { locked = 0 }) (update cores i (record (cores i) { pc = running })) l
  free-Claimed lk l c p =
      let r : Core = record (cores i) { pc = running } in
      let own : l == l ≡ true = ground arith in
      let mine : 0 < claims l (cores i) = rw (p, own) (omega arith) in
      change lk (record lk { locked = 0 }) l r c
        (rw (p, own) (omega (arith, locked_by lk l c mine))) (omega arith) (same_held lk l r c refl)

-- A lock that changes is the only one that does.
at_lock :
    (n : ℕ) (locks : ℕ → Spinlock) (cores : ℕ → Core) (l : ℕ) (k : Spinlock)
    → Claimed n k cores l
    → ((m : ℕ) → l ≢ m → Claimed n (locks m) cores m)
    → (m : ℕ) → Claimed n (update locks l k m) cores m
at_lock n locks cores l k c others m = elim (ℕ_discrete l m) [
  | yes q ↦ subst (λ m. Claimed n (update locks l k m) cores m) q (rw (update_self locks l k) c)
  | no q ↦ rw (update_ne locks l k m q) (others m q)
]

abbrev pub AllClaimed : ℕ → System → Type 0
AllClaimed n s = (l : ℕ) → Claimed n (s.locks l) s.cores l

pub claims_kept : (n : ℕ) (s : System) {t : System} → Step n s t → AllClaimed n s → AllClaimed n t
unfolding times
claims_kept n s (begins i l h p e) a = λ m.
    untouched n s.cores i h (s.locks m) m (record (s.cores i) { pc = spinning l }) (a m) (rw p refl)
      refl
claims_kept n s (spins i l h p) a =
    at_lock n s.locks (update s.cores i (record (s.cores i) { pc = spun l (s.locks l).locked })) l
      (swap_in (s.locks l)).1 (spin-Claimed n s.cores i h (s.locks l) l (a l) p)
      λ m q.
        untouched n s.cores i h (s.locks m) m
          (record (s.cores i) { pc = spun l (s.locks l).locked }) (a m)
          (elsewhere (s.locks l).locked m q ∙ sym (ap (in_flight m) p)) refl
  where
    elsewhere : (old m : ℕ) → l ≢ m → in_flight m (spun l old) ≡ 0
    elsewhere zero m q = rw (ne→== l m q) refl
    elsewhere (suc old) m q = ground arith
claims_kept n s (marks i l h p) a =
    at_lock n s.locks
      (update s.cores i (record (s.cores i) { pc = running; held = l ∷ (s.cores i).held })) l
      (mark (s.locks l) i) (mark-Claimed n s.cores i h (s.locks l) l (a l) p)
      λ m q.
        untouched n s.cores i h (s.locks m) m
          (record (s.cores i) { pc = running; held = l ∷ (s.cores i).held }) (a m)
          (rw (p, ne→== l m q) refl) (rw (ne→== l m q) (omega arith))
claims_kept n s (unmarks i l {c} {lk} h p e) a =
    let (b, k, d) = release_begin-ok (s.locks l) i (s.cpus i) c lk e in
    let have : 0 < times l (s.cores i).held =
      ltb→lt 0 (times l (s.cores i).held) (sym ((a l).marked i h) ∙ b) in
    let r : Core = record (s.cores i) { pc = unmarking l; held = without l (s.cores i).held } in
    λ m. rw k (
      at_lock n s.locks (update s.cores i r) l (record (s.locks l) { cpu = none })
        (unmark-Claimed n s.cores i h (s.locks l) l (a l) p have)
        (λ m q.
          untouched n s.cores i h (s.locks m) m r (a m) (rw (p, ne→== l m q) refl)
            (elsewhere have m q))
        m)
  where
    elsewhere :
        0 < times l (s.cores i).held
        → (m : ℕ) → l ≢ m
        → times m (without l (s.cores i).held) ≡ times m (s.cores i).held
    elsewhere have m q =
        let w = times-without m l (s.cores i).held have in omega (arith, rw (ne→== l m q) at w)
claims_kept n s (frees i l {c} {lk} h p e) a =
    let (b, k) = release_end-ok (s.locks l) (s.cpus i) c lk e in
    let r : Core = record (s.cores i) { pc = running } in
    λ m. rw k (
      at_lock n s.locks (update s.cores i r) l (record (s.locks l) { locked = 0 })
        (free-Claimed n s.cores i h (s.locks l) l (a l) p)
        (λ m q. untouched n s.cores i h (s.locks m) m r (a m) (rw (p, ne→== l m q) refl) refl) m)
claims_kept n s (pushes i h p) a = λ m.
    untouched n s.cores i h (s.locks m) m (record (s.cores i) { pushed = (s.cores i).pushed + 1 })
      (a m) refl refl
claims_kept n s (pops i h p k e) a = λ m.
    untouched n s.cores i h (s.locks m) m (record (s.cores i) { pushed = (s.cores i).pushed - 1 })
      (a m) refl refl
claims_kept n s (enables i h p z) a = λ m.
    untouched n s.cores i h (s.locks m) m (record (s.cores i) { enabled = true }) (a m) refl refl
claims_kept n s (interrupts i h p z) a = λ m.
    untouched n s.cores i h (s.locks m) m (record (s.cores i) { enabled = false }) (a m) refl refl
claims_kept n s (resumes i b h p z) a =
    λ m. untouched n s.cores i h (s.locks m) m (record (s.cores i) { enabled = b }) (a m) refl refl

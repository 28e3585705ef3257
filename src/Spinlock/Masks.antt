-- ===== src/Spinlock/Masks.antt =====
-- Every step keeps the count of pushcli and the interrupt flag in order.
use os_lab.Base.{
  length-without, without, times, ℕ, ◌+◌, ◌-◌, ◌<◌, ◌≡◌, refl, sym, ◌∙◌, subst, ◌⊎◌, inl, inr, true,
  false, ◌∷◌, arith, ℕ_discrete, ◌==◌, ltb→lt, Bool-cases, update_self, update_ne, update,
}
use os_lab.Spinlock.{Cpu, pushcli}
use os_lab.Spinlock.System.{
  running, spinning, unmarking, Core, System, spun, Step, begins, spins, marks, unmarks, frees,
  pushes, pops, enables, interrupts, resumes,
}
use os_lab.Spinlock.Invariant.{
  nesting, Masked, acquire_begin-ok, release_begin-ok, release_end-ok, Masked-same, Masked-restored,
  Masked-pushcli, Masked-popcli,
}
use os_lab.Spinlock.Claims.{AllClaimed}

abbrev pub AllMasked : System → Type 0
AllMasked s = (i : ℕ) → Masked (s.cpus i) (s.cores i)

at_cpu :
    (s : System) (i : ℕ) (c : Cpu) (r : Core)
    → AllMasked s
    → Masked c r
    → (j : ℕ) → Masked (update s.cpus i c j) (update s.cores i r j)
at_cpu s i c r a m j = elim (ℕ_discrete i j) [
  | yes q ↦
      subst (λ k. Masked (update s.cpus i c k) (update s.cores i r k)) q
        (rw (update_self s.cpus i c, update_self s.cores i r) m)
  | no q ↦ rw (update_ne s.cpus i c j q, update_ne s.cores i r j q) (a j)
]

at_core :
    (s : System) (i : ℕ) (r : Core)
    → AllMasked s
    → Masked (s.cpus i) r
    → (j : ℕ) → Masked (s.cpus j) (update s.cores i r j)
at_core s i r a m j = elim (ℕ_discrete i j) [
  | yes q ↦ subst (λ k. Masked (s.cpus k) (update s.cores i r k)) q (rw (update_self s.cores i r) m)
  | no q ↦ rw (update_ne s.cores i r j q) (a j)
]

pub masks_kept :
    (n : ℕ) (s : System) {t : System} → Step n s t → AllClaimed n s → AllMasked s → AllMasked t
masks_kept n s (begins i l {c} h p e) claimed a =
    let r : Core = record (s.cores i) { pc = spinning l } in
    let pushed = Masked-pushcli (s.cpus i) (s.cores i) r (a i) refl (rw p (omega arith)) in
    at_cpu s i c r a (
      subst (λ c. Masked c r) (acquire_begin-ok (s.locks l) i (s.cpus i) c e)
        (Masked-restored (pushcli (s.cpus i)) r r pushed refl refl))
masks_kept n s (spins i l h p) claimed a =
    let r : Core = record (s.cores i) { pc = spun l (s.locks l).locked } in
    at_core s i r a (
      Masked-same (s.cpus i) (s.cores i) r (a i) refl
        (waits (Bool-cases ((s.locks l).locked == 0))))
  where
    waits :
        ((s.locks l).locked == 0 ≡ true) ⊎ ((s.locks l).locked == 0 ≡ false)
        → nesting (record (s.cores i) { pc = spun l (s.locks l).locked }) ≡ nesting (s.cores i)
    waits (inl y) = rw (p, y) refl
    waits (inr y) = rw (p, y) refl
masks_kept n s (marks i l h p) claimed a =
    let r : Core = record (s.cores i) { pc = running; held = l ∷ (s.cores i).held } in
    at_core s i r a (Masked-same (s.cpus i) (s.cores i) r (a i) refl (rw p (omega arith)))
masks_kept n s (unmarks i l {c} {lk} h p e) claimed a =
    let (b, k, d) = release_begin-ok (s.locks l) i (s.cpus i) c lk e in
    let have : 0 < times l (s.cores i).held =
      ltb→lt 0 (times l (s.cores i).held) (sym ((claimed l).marked i h) ∙ b) in
    let r : Core = record (s.cores i) { pc = unmarking l; held = without l (s.cores i).held } in
    at_cpu s i c r a (
      subst (λ c. Masked c r) d
        (Masked-restored (s.cpus i) (s.cores i) r (a i) refl
          (rw p (omega (arith, length-without l (s.cores i).held have)))))
masks_kept n s (frees i l {c} {lk} h p e) claimed a =
    let (b, k) = release_end-ok (s.locks l) (s.cpus i) c lk e in
    let r : Core = record (s.cores i) { pc = running } in
    at_cpu s i c r a (Masked-popcli (s.cpus i) (s.cores i) r (a i) refl c b (rw p (omega arith)))
masks_kept n s (pushes i h p) claimed a =
    let r : Core = record (s.cores i) { pushed = (s.cores i).pushed + 1 } in
    at_cpu s i (pushcli (s.cpus i)) r a
      (Masked-pushcli (s.cpus i) (s.cores i) r (a i) refl (omega arith))
masks_kept n s (pops i {c} h p k e) claimed a =
    let r : Core = record (s.cores i) { pushed = (s.cores i).pushed - 1 } in
    at_cpu s i c r a (Masked-popcli (s.cpus i) (s.cores i) r (a i) refl c e (omega (arith, k)))
masks_kept n s (enables i h p z) claimed a =
    at_cpu s i (record (s.cpus i) { interruptible = true }) (record (s.cores i) { enabled = true })
      a
      (record { depth = (a i).depth; flag = rw z refl; before = λ k. absurd (omega (arith, k, z)) })
masks_kept n s (interrupts i h p z) claimed a =
    at_cpu s i (record (s.cpus i) { interruptible = false })
      (record (s.cores i) { enabled = false }) a
      (record { depth = (a i).depth; flag = rw z refl; before = λ k. absurd (omega (arith, k, z)) })
masks_kept n s (resumes i b h p z) claimed a =
    at_cpu s i (record (s.cpus i) { intena = b }) (record (s.cores i) { enabled = b }) a
      (record {
        depth = (a i).depth;
        flag =
            let off : (s.cpus i).ncli == 0 ≡ false = ground arith in rw off (rw off at (a i).flag);
        before = λ k. refl;
      })

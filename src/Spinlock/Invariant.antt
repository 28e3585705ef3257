-- ===== src/Spinlock/Invariant.antt =====
-- Who has claimed a spinlock, and how deep its CPU's interrupts are disabled.
use os_lab.Base.{
  times, ℕ, ◌+◌, ◌-◌, ◌≤◌, ◌<◌, ◌≡◌, refl, sym, ap, ◌∙◌, subst, inl, inr, true, false, ◌&&◌, ◌||◌,
  none, arith, ltb, ◌==◌, if◌then◌else◌, Bool-cases, Outcome, ok, panic, length, ok-injective,
  weigh,
}
use os_lab.Spinlock.{
  release_end, Cpu, Spinlock, pushcli, popcli, is_cpu, is_held, holding, acquire_begin,
  release_begin,
}
use os_lab.Spinlock.System.{Pc, running, spinning, marking, unmarking, Core}

-- What a CPU does with a lock in the middle of acquire or release, after the swap.
abbrev pub in_flight : ℕ → Pc → ℕ
in_flight l running = 0
in_flight l (spinning m) = 0
in_flight l (marking m) = if m == l then 1 else 0
in_flight l (unmarking m) = if m == l then 1 else 0

abbrev pub claims : ℕ → Core → ℕ
claims l r = in_flight l r.pc + times l r.held

abbrev busy : Pc → ℕ
busy running = 0
busy (spinning m) = 1
busy (marking m) = 1
busy (unmarking m) = 1

-- The calls of pushcli that are not undone.
abbrev pub nesting : Core → ℕ
nesting r = length r.held + busy r.pc + r.pushed

-- The lock `l` is claimed once when it is locked and never else, and its `cpu` is the CPU that
-- holds it.
pub record Claimed (n : ℕ) (lk : Spinlock) (cores : ℕ → Core) (l : ℕ) : Type 0 where
  pub once : weigh (claims l) n cores ≡ lk.locked
  pub one : lk.locked ≤ 1
  pub marked : (i : ℕ) → i < n → is_cpu lk.cpu i ≡ ltb 0 (times l (cores i).held)

-- Interrupts are off while there are calls of pushcli to undo, and else as before the first of them.
pub record Masked (c : Cpu) (r : Core) : Type 0 where
  pub depth : c.ncli ≡ nesting r
  pub flag : c.interruptible ≡ ((c.ncli == 0) && r.enabled)
  pub before : 0 < c.ncli → c.intena ≡ r.enabled

abbrev pub restored : Cpu → Cpu
restored c = record {
  interruptible = (c.ncli == 0) && c.interruptible;
  ncli = c.ncli;
  intena = if c.ncli == 0 then c.interruptible else c.intena;
}

popcli-pushcli : (c : Cpu) → popcli (pushcli c) ≡ ok (restored c)
unfolding pushcli popcli
popcli-pushcli c =
    let big : c.ncli + 1 == 0 ≡ false = ground arith in
    let back : c.ncli + 1 - 1 ≡ c.ncli = omega arith in
    elim (Bool-cases (c.ncli == 0)) [
      | inl y ↦ rw (big, back, y) refl
      | inr n ↦ rw (big, back, n) refl
    ]

pub acquire_begin_lem :
    (lk : Spinlock) (i : ℕ) (c : Cpu)
    → acquire_begin lk i c ≡ (if is_held lk i then panic else ok (restored (pushcli c)))
unfolding acquire_begin holding
acquire_begin_lem lk i c = rw (popcli-pushcli (pushcli c)) refl

pub release_begin_lem :
    (lk : Spinlock) (i : ℕ) (c : Cpu)
    → release_begin lk i c
      ≡ (if is_held lk i then ok (restored c, record lk { cpu = none }) else panic)
unfolding release_begin holding
release_begin_lem lk i c = rw (popcli-pushcli c) refl

pub acquire_begin-ok :
    (lk : Spinlock) (i : ℕ) (c d : Cpu) → acquire_begin lk i c ≡ ok d → restored (pushcli c) ≡ d
acquire_begin-ok lk i c d e = elim (Bool-cases (is_held lk i)) [
  | inl y ↦ let fails : panic ≡ ok d = rw (acquire_begin_lem lk i c, y) at e in cc
  | inr n ↦ ok-injective ((rw (acquire_begin_lem lk i c, n) at e))
]

pub release_begin-ok :
    (lk : Spinlock) (i : ℕ) (c d : Cpu) (k : Spinlock)
    → release_begin lk i c ≡ ok (d, k)
    → (is_cpu lk.cpu i ≡ true) × (k ≡ record lk { cpu = none }) × (restored c ≡ d)
release_begin-ok lk i c d k e = elim (Bool-cases (is_held lk i)) [
  | inl y ↦
      let s = ok-injective ((rw (release_begin_lem lk i c, y) at e)) in
      (both y, sym (ap (λ x. x.1) s), ap (λ x. x.0) s)
  | inr n ↦ fails ((rw (release_begin_lem lk i c, n) at e))
]
  where
    fails :
        ◌≡◌ {A = Outcome (Cpu × Spinlock)} panic (ok (d, k))
        → (is_cpu lk.cpu i ≡ true) × (k ≡ record lk { cpu = none }) × (restored c ≡ d)
    fails f = cc

    both : is_held lk i ≡ true → is_cpu lk.cpu i ≡ true
    both y = elim (Bool-cases (is_cpu lk.cpu i)) [
      | inl z ↦ z
      | inr z ↦ elim (Bool-cases (lk.locked == 0)) [
        | inl w ↦ let no : false ≡ true = rw (z, w) at y in cc
        | inr w ↦ let no : false ≡ true = rw (z, w) at y in cc
      ]
    ]

pub release_end-ok :
    (lk : Spinlock) (c d : Cpu) (k : Spinlock)
    → release_end lk c ≡ ok (d, k)
    → (popcli c ≡ ok d) × (k ≡ record lk { locked = 0 })
unfolding release_end
release_end-ok lk c d k e = go (popcli c) refl
  where
    go : (p : Outcome Cpu) → popcli c ≡ p → (popcli c ≡ ok d) × (k ≡ record lk { locked = 0 })
    go panic q = let fails : ◌≡◌ {A = Outcome (Cpu × Spinlock)} panic (ok (d, k)) = rw q at e in cc
    go (ok x) q =
        let s = ok-injective ((rw q at e)) in (q ∙ ap ok (ap (λ y. y.0) s), sym (ap (λ y. y.1) s))

module _ (c : Cpu) (r q : Core) (m : Masked c r) (same : q.enabled ≡ r.enabled) where
  pub Masked-same : nesting q ≡ nesting r → Masked c q
  Masked-same e = record {
    depth = m.depth ∙ sym e;
    flag = rw same m.flag;
    before = λ h. m.before h ∙ sym same;
  }

  pub Masked-restored : nesting q ≡ nesting r → Masked (restored c) q
  Masked-restored e = record {
    depth = m.depth ∙ sym e;
    flag = elim (Bool-cases (c.ncli == 0)) [
      | inl y ↦ rw (m.flag, same, y) refl
      | inr n ↦ rw n refl
    ];
    before = λ h.
        let some_left : c.ncli == 0 ≡ false = ground arith in rw some_left (m.before h ∙ sym same);
  }

  pub Masked-pushcli : nesting q ≡ nesting r + 1 → Masked (pushcli c) q
  unfolding pushcli
  Masked-pushcli e =
      let big : c.ncli + 1 == 0 ≡ false = ground arith in
      record {
        depth = omega (arith, m.depth, e);
        flag = rw big refl;
        before = λ h. elim (Bool-cases (c.ncli == 0)) [
          | inl y ↦ rw y (m.flag ∙ ap (λ b. b && r.enabled) y ∙ sym same)
          | inr n ↦ rw n (m.before (ground arith) ∙ sym same)
        ];
      }

  pub Masked-popcli : (d : Cpu) → popcli c ≡ ok d → nesting q + 1 ≡ nesting r → Masked d q
  unfolding popcli
  Masked-popcli d p e = elim (Bool-cases (c.interruptible || (c.ncli == 0))) [
    | inl y ↦ let fails : panic ≡ ok d = rw y at p in cc
    | inr n ↦ subst (λ x. Masked x q) (ok-injective ((rw n at p))) (left (ground arith))
  ]
    where
      left :
          0 < c.ncli
          → Masked (record c { interruptible = (c.ncli - 1 == 0) && c.intena; ncli = c.ncli - 1 }) q
      left h = record {
        depth = omega (arith, m.depth, e);
        flag = rw (m.before h, same) refl;
        before = λ k. m.before h ∙ sym same;
      }

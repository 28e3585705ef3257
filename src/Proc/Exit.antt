-- ===== src/Proc/Exit.antt =====
-- What the loop of `exit` does to each entry.
use os_lab.Base.{
  ℕ, zero, suc, ◌+◌, ◌≤◌, ◌<◌, ◌≡◌, refl, sym, ap, ◌∙◌, subst, ◌≢◌, ◌⊎◌, inl, inr, true, ◌&&◌, some,
  arith, ℕ_discrete, ltb, leb, ◌==◌, if◌then◌else◌, eq→==, ==→eq, Bool-cases, update_self,
  update_ne, update,
}
use os_lab.Proc.{
  Proc, sleeping, runnable, zombie, Chan, no_chan, proc_chan, other_chan, chan_eq, is_child,
  is_zombie, woken, wakeup1, pass_children,
}

pub chan_eq→eq : (a b : Chan) → chan_eq a b ≡ true → a ≡ b
chan_eq→eq no_chan no_chan e = refl
chan_eq→eq (proc_chan a) (proc_chan b) e = ap proc_chan (==→eq a b e)
chan_eq→eq (other_chan a) (other_chan b) e = ap other_chan (==→eq a b e)
chan_eq→eq no_chan (proc_chan b) e = cc
chan_eq→eq no_chan (other_chan b) e = cc
chan_eq→eq (proc_chan a) no_chan e = cc
chan_eq→eq (proc_chan a) (other_chan b) e = cc
chan_eq→eq (other_chan a) no_chan e = cc
chan_eq→eq (other_chan a) (proc_chan b) e = cc

pub chan_eq_self : (a : Chan) → chan_eq a a ≡ true
chan_eq_self no_chan = refl
chan_eq_self (proc_chan a) = eq→== a a refl
chan_eq_self (other_chan a) = eq→== a a refl

-- `q` is `p`, but for its parent and for being woken from `c`.
pub record Kept (c : Chan) (p q : Proc) : Type 0 where
  pub same_pid : q.pid ≡ p.pid
  pub same_chan : q.chan ≡ p.chan
  pub same_killed : q.killed ≡ p.killed
  pub same_state :
      (q.state ≡ p.state) ⊎ ((p.state ≡ sleeping) × (p.chan ≡ c) × (q.state ≡ runnable))

pub Kept-refl : (c : Chan) (p : Proc) → Kept c p p
Kept-refl c p = record {
  same_pid = refl;
  same_chan = refl;
  same_killed = refl;
  same_state = inl refl;
}

Kept-trans : (c : Chan) {p q r : Proc} → Kept c p q → Kept c q r → Kept c p r
Kept-trans c k l = ground arith

pub woken-Kept : (c : Chan) (p : Proc) → Kept c p (woken c p)
woken-Kept c p = ground (arith, chan_eq→eq p.chan c)

-- Nobody that has been woken still sleeps.
pub woken-not_asleep : (c : Chan) (p : Proc) → (woken c p).state ≡ sleeping → p.chan ≢ c
woken-not_asleep c p e q = ground (arith, chan_eq_self c)

pub parent-woken : (c : Chan) (p : Proc) → (woken c p).parent ≡ p.parent
parent-woken c p = ground arith

module _ (init cur : ℕ) where
  abbrev passed_on : ℕ → (ℕ → Proc) → ℕ → Proc
  passed_on i procs =
      if is_child cur (procs i).parent
      then (if is_zombie (procs i).state
          then wakeup1 (proc_chan init) (update procs i (record (procs i) { parent = some init }))
          else update procs i (record (procs i) { parent = some init }))
      else procs

  passed_on-Kept :
      (i : ℕ) (procs : ℕ → Proc) (k : ℕ) → Kept (proc_chan init) (procs k) (passed_on i procs k)
  unfolding wakeup1
  passed_on-Kept i procs k = elim (Bool-cases (is_child cur (procs i).parent)) [
    | inl c ↦ rw c (elim (Bool-cases (is_zombie (procs i).state)) [
      | inl z ↦ rw z (Kept-trans (proc_chan init) passed (woken-Kept (proc_chan init) (handed k)))
      | inr z ↦ rw z passed
    ])
    | inr c ↦ rw c (Kept-refl (proc_chan init) (procs k))
  ]
    where
      handed : ℕ → Proc
      handed = update procs i (record (procs i) { parent = some init })

      passed : Kept (proc_chan init) (procs k) (handed k)
      passed = elim (ℕ_discrete i k) [
        | yes e ↦
            rw (e, update_self procs k (record (procs k) { parent = some init }))
              (record {
                same_pid = refl;
                same_chan = refl;
                same_killed = refl;
                same_state = inl refl;
              })
        | no n ↦
            rw (update_ne procs i (record (procs i) { parent = some init }) k n)
              (Kept-refl (proc_chan init) (procs k))
      ]

  pub pass_children-Kept :
      (i left : ℕ) (procs : ℕ → Proc) (k : ℕ)
      → Kept (proc_chan init) (procs k) (pass_children init cur i left procs k)
  unfolding pass_children
  pass_children-Kept i zero procs k = Kept-refl (proc_chan init) (procs k)
  pass_children-Kept i (suc left) procs k =
      Kept-trans (proc_chan init) (passed_on-Kept i procs k)
        (pass_children-Kept (i + 1) left (passed_on i procs) k)

  parent-passed_on :
      (i : ℕ) (procs : ℕ → Proc) (k : ℕ)
      → (passed_on i procs k).parent
        ≡ (if i == k && is_child cur (procs k).parent then some init else (procs k).parent)
  unfolding wakeup1
  parent-passed_on i procs k = elim (Bool-cases (is_child cur (procs i).parent)) [
    | inl c ↦ rw c (elim (Bool-cases (is_zombie (procs i).state)) [
      | inl z ↦ rw z (parent-woken (proc_chan init) (handed k) ∙ passed c)
      | inr z ↦ rw z (passed c)
    ])
    | inr c ↦ rw c (ground arith)
  ]
    where
      handed : ℕ → Proc
      handed = update procs i (record (procs i) { parent = some init })

      passed :
          is_child cur (procs i).parent ≡ true
          → (handed k).parent
            ≡ (if i == k && is_child cur (procs k).parent then some init else (procs k).parent)
      passed c = ground arith

  -- The children among the entries that the loop visits, and no others, are passed to init.
  pub parent-pass_children :
      (i left : ℕ) (procs : ℕ → Proc) (k : ℕ)
      → cur ≢ init
      → (pass_children init cur i left procs k).parent ≡ (
          if leb i k && ltb k (i + left) && is_child cur (procs k).parent
          then some init
          else (procs k).parent)
  unfolding pass_children
  parent-pass_children i zero procs k ne = ground arith
  parent-pass_children i (suc left) procs k ne = ground (
    arith,
    parent-pass_children (i + 1) left (passed_on i procs) k ne,
    parent-passed_on i procs k,
  )

  -- If a zombie is passed on, nobody sleeps on init any more.
  pub pass_children_wakes :
      (i left : ℕ) (procs : ℕ → Proc) (z k : ℕ)
      → i ≤ z
      → z < i + left
      → is_child cur (procs z).parent ≡ true
      → (procs z).state ≡ zombie
      → (pass_children init cur i left procs k).state ≡ sleeping
      → (pass_children init cur i left procs k).chan ≢ proc_chan init
  unfolding pass_children
  pass_children_wakes i zero procs z k l m c s e q = absurd (omega arith)
  pass_children_wakes i (suc left) procs z k l m c s e q = elim (ℕ_discrete i z) [
    | yes same ↦ by_now same
    | no other ↦
        pass_children_wakes (i + 1) left (passed_on i procs) z k (omega arith) (omega arith)
          (ground (arith, parent-passed_on i procs z)) (ground (arith, passed_on-Kept i procs z)) e
          q
  ]
    where
      kept :
          Kept
            (proc_chan init)
            (passed_on i procs k)
            (pass_children init cur (i + 1) left (passed_on i procs) k)
      kept = pass_children-Kept (i + 1) left (passed_on i procs) k

      handed : ℕ → Proc
      handed = update procs i (record (procs i) { parent = some init })

      by_now : i ≡ z → ⊥
      by_now same =
          let child : is_child cur (procs i).parent ≡ true = rw same c in
          let dead : is_zombie (procs i).state ≡ true = rw same (ground arith) in
          let woke : passed_on i procs ≡ wakeup1 (proc_chan init) handed = rw (child, dead) in
          let asleep : (passed_on i procs k).state ≡ sleeping = ground (arith, kept) in
          woken-not_asleep (proc_chan init) (handed k)
            (subst (λ f. (f k).state ≡ sleeping) woke asleep)
            (sym (woken-Kept (proc_chan init) (handed k)).same_chan
              ∙ ap (λ f. (f k).chan) (sym woke)
              ∙ sym kept.same_chan
              ∙ q)

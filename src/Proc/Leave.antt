-- ===== src/Proc/Leave.antt =====
-- exit keeps every process that stays under the care of one that can reap it.
use os_lab.Base.{
  ℕ, ◌<◌, ◌≡◌, sym, ap, ◌∙◌, ◌≢◌, inl, inr, true, some, arith, ℕ_discrete, if◌then◌else◌,
  Bool-cases, update,
}
use os_lab.Proc.{
  Proc, nproc, unused, sleeping, running, zombie, proc_chan, wakeup1, is_child, parent_chan,
  pass_children,
}
use os_lab.Proc.Exit.{
  Kept, woken-Kept, woken-not_asleep, pass_children-Kept, parent-pass_children, pass_children_wakes,
  parent-woken,
}
use os_lab.Proc.Steps.{initproc}
use os_lab.Proc.Family.{Alive, IsParent, Inv, wakeup-Inv}

module _ {procs : ℕ → Proc} (v : Inv procs) (cur : ℕ) (lt : cur < nproc) (ne : cur ≢ initproc) where
  abbrev told : ℕ → Proc
  told = wakeup1 (parent_chan (procs cur).parent) procs

  abbrev passed : ℕ → Proc
  passed = pass_children initproc cur 0 nproc told

  abbrev left : ℕ → Proc
  left = update passed cur (record (passed cur) { state = zombie })

  v' : Inv told
  v' = wakeup-Inv v (parent_chan (procs cur).parent)

  kept : (k : ℕ) → Kept (proc_chan initproc) (told k) (passed k)
  kept k = pass_children-Kept initproc cur 0 nproc told k

  parent-passed :
      (k : ℕ)
      → k < nproc
      → (passed k).parent
        ≡ (if is_child cur (told k).parent then some initproc else (told k).parent)
  parent-passed k l = ground (arith, parent-pass_children initproc cur 0 nproc told k ne)

  Alive-left : (k : ℕ) → k ≢ cur → Alive (told k) → Alive (left k)
  Alive-left k n a = ground (arith, kept k)

  told_running : (procs cur).state ≡ running → (told cur).state ≡ running
  unfolding wakeup1
  told_running r = ground arith

  IsParent-left :
      (k : ℕ)
      → k < nproc
      → (left k).state ≢ unused
      → k ≢ initproc
      → (procs cur).state ≡ running
      → (j : ℕ) × IsParent left k j
  IsParent-left k l u n r =
      let live : (told k).state ≢ unused = ground (arith, told_running r, kept k) in
      let (j, e) = v'.parents k l live n in
      elim (ℕ_discrete j cur) [
        | yes q ↦ (
          initproc,
          (
            ground (arith, parent-passed k l),
            omega arith,
            Alive-left initproc (λ z. ne (sym z)) v'.init_alive,
            λ z. n (sym z),
          ),
        )
        | no q ↦ (j, (ground (arith, parent-passed k l), e.1, Alive-left j q e.2, e.3))
      ]

  -- The parent of the process that exits does not sleep on.
  cur_told :
      (k : ℕ)
      → (told k).state ≡ sleeping
      → (told k).chan ≡ proc_chan k
      → (procs cur).parent ≢ some k
  unfolding wakeup1
  cur_told k s c p =
      let chan = parent_chan (procs cur).parent in
      woken-not_asleep chan (procs k) s
        (sym (woken-Kept chan (procs k)).same_chan ∙ c ∙ sym (ap parent_chan p))

  parent_cur :
      (k : ℕ)
      → (procs cur).state ≡ running
      → (passed cur).parent ≡ some k
      → (procs cur).parent ≡ some k
  unfolding wakeup1
  parent_cur k r p =
      let (j, e) = v'.parents cur lt (ground (arith, told_running r)) ne in
      ground
        (arith, parent-passed cur lt, parent-woken (parent_chan (procs cur).parent) (procs cur))

  -- Who is the child of one asleep in wait is no zombie.
  told_left :
      (k j : ℕ)
      → j < nproc
      → (procs cur).state ≡ running
      → (left k).state ≡ sleeping
      → (left k).chan ≡ proc_chan k
      → (left j).parent ≡ some k
      → (left j).state ≢ zombie
  told_left k j l r s c p z = elim (ℕ_discrete j cur) [
    | yes q ↦ cur_told k asleep on_own (parent_cur k r (ground arith))
    | no q ↦ elim (Bool-cases (is_child cur (told j).parent)) [
      | inl child ↦
          pass_children_wakes initproc cur 0 nproc told j k (omega arith) (omega arith) child
            (dead q) (ground arith) (to_init child q)
      | inr other ↦ v'.told k j l asleep on_own (ground (arith, parent-passed j l)) (dead q)
    ]
  ]
    where
      asleep : (told k).state ≡ sleeping
      asleep = ground (arith, kept k)

      on_own : (told k).chan ≡ proc_chan k
      on_own = ground (arith, kept k)

      dead : j ≢ cur → (told j).state ≡ zombie
      dead q = ground (arith, kept j)

      to_init : is_child cur (told j).parent ≡ true → j ≢ cur → (passed k).chan ≡ proc_chan initproc
      to_init child q = ground (arith, parent-passed j l)

  pub leaving-Inv : (procs cur).state ≡ running → Inv left
  leaving-Inv r = record {
    init_alive = Alive-left initproc (λ e. ne (sym e)) v'.init_alive;
    parents = λ k l u n. IsParent-left k l u n r;
    free = λ k l u. ground (arith, kept k, v'.free k l, parent-passed k l);
    own_chan = λ k d s e. ground (arith, kept k, v'.own_chan k d);
    told = λ k j l s e q. told_left k j l r s e q;
  }

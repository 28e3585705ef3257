-- ===== src/Proc/Outcomes.antt =====
-- What wait and kill come to, on every branch.
use os_lab.Base.{
  ℕ, ◌+◌, ◌≤◌, ◌<◌, ◌≡◌, refl, sym, ap, ◌∙◌, fun_ext, ◌≢◌, ◌⊎◌, inl, inr, Bool, true, false, not,
  ◌||◌, Option, none, some, arith, ℕ_discrete, ◌==◌, if◌then◌else◌, eq→==, ne→==, ==→eq, Bool-cases,
  update_self, update_ne, update,
}
use os_lab.Proc.{
  fork_from, Proc, fork_from, Table, nproc, Procstate, unused, embryo, runnable, zombie, proc_chan,
  fork, wait, sleep_on, kill, allocproc, find, is_unused, is_child, is_zombie, scan, found, scanned,
  Scan, WaitEnd, reaped, no_children, wait_asleep, is_sleeping,
}
use os_lab.Proc.Search.{scan_child, scan_found, scan_scanned}
use os_lab.Proc.Reaper.{not_zombie_child}

-- No entry is a zombie child of `cur`.
abbrev pub NoZombieChild : Table → ℕ → Type 0
NoZombieChild t cur =
    (i : ℕ) → i < nproc → (t.procs i).parent ≡ some cur → (t.procs i).state ≢ zombie

-- The entry with nothing left of its process.
abbrev pub freed : Proc → Proc
freed p = record p { kstack = 0; pid = 0; parent = none; killed = false; state = unused }

-- What a pass of wait may come to.
pub data WaitSpec (t : Table) (cur : ℕ) (r : Table × WaitEnd) : Type 0 where
  reaps :
      (i : ℕ)
      → i < nproc
      → (t.procs i).parent ≡ some cur
      → (t.procs i).state ≡ zombie
      → r.1 ≡ reaped (t.procs i).pid
      → r.0.procs i ≡ freed (t.procs i)
      → ((k : ℕ) → k ≢ i → r.0.procs k ≡ t.procs k)
      → r.0.nextpid ≡ t.nextpid
      → WaitSpec t cur r
  gives_up :
      NoZombieChild t cur
      → ((t.procs cur).killed ≡ true) ⊎ ((i : ℕ) → i < nproc → (t.procs i).parent ≢ some cur)
      → r ≡ (t, no_children)
      → WaitSpec t cur r
  dozes :
      NoZombieChild t cur
      → (t.procs cur).killed ≡ false
      → (i : ℕ) → i < nproc
      → (t.procs i).parent ≡ some cur
      → r ≡ (sleep_on t cur (proc_chan cur), wait_asleep)
      → WaitSpec t cur r

is_child→eq : (cur : ℕ) (p : Option ℕ) → is_child cur p ≡ true → p ≡ some cur
is_child→eq cur none e = cc
is_child→eq cur (some j) e = ap some (==→eq j cur e)

not_child : (cur : ℕ) (p : Option ℕ) → is_child cur p ≡ false → p ≢ some cur
not_child cur p e q = ground arith

is_zombie→eq : (s : Procstate) → is_zombie s ≡ true → s ≡ zombie
is_zombie→eq s e = ground arith

-- A pass of wait reaps a zombie child if there is one: it returns its pid and frees that entry, with
-- its stack, pid, parent and mark of a kill reset, and changes nothing else. With no zombie child it
-- returns -1 and changes nothing, if the caller has been killed or has no child at all; and it goes
-- to sleep on its own entry only if it has a child and has not been killed.
pub wait-WaitSpec : (t : Table) (cur : ℕ) → WaitSpec t cur (wait t cur)
unfolding wait
wait-WaitSpec t cur = go (scan cur t.procs 0 nproc false) refl
  where
    go : (sc : Scan) → scan cur t.procs 0 nproc false ≡ sc → WaitSpec t cur (wait t cur)
    go (found i) e =
        let f = scan_found cur t.procs 0 nproc false e in
        rw (e, wait)
          (reaps i (omega (arith, f.0)) (is_child→eq cur (t.procs i).parent f.1)
            (is_zombie→eq (t.procs i).state f.2) refl (update_self t.procs i (freed (t.procs i)))
            (λ k n. update_ne t.procs i (freed (t.procs i)) k (λ q. n (sym q))) refl)
    go (scanned b) e =
        let f = scan_scanned cur t.procs 0 nproc false e in
        let quiet : NoZombieChild t cur =
          λ i l p. not_zombie_child cur (t.procs i) (f.0 i (omega arith) (omega arith)) p in
        rw (e, wait)
          (elim (Bool-cases (not b || (t.procs cur).killed)) [
            | inl y ↦ rw y (gives_up quiet (reason b f.1 y) refl)
            | inr n ↦
                let some_child : b ≡ true = ground arith in
                let (i, l, c) =
                  scan_child cur t.procs 0 nproc false ((e ∙ ap scanned some_child)) refl in
                rw n (
                  dozes quiet (ground arith) i (omega arith) (is_child→eq cur (t.procs i).parent c)
                    refl)
          ])
      where
        reason :
            (b : Bool)
            → (b ≡ false
                → (k : ℕ) → 0 ≤ k
                → k < 0 + nproc
                → is_child cur (t.procs k).parent ≡ false)
            → not b || (t.procs cur).killed ≡ true
            → ((t.procs cur).killed ≡ true) ⊎ ((i : ℕ) → i < nproc → (t.procs i).parent ≢ some cur)
        reason true g y = inl y
        reason false g y =
            inr (λ i l. not_child cur (t.procs i).parent (g refl i (omega arith) (omega arith)))

is_unused-strike : (s : Procstate) → is_unused (if is_sleeping s then runnable else s) ≡ is_unused s
is_unused-strike s = ground arith

-- The entry of the child after a fork that succeeds.
fork_from-born :
    (procs : ℕ → Proc) (n i cur : ℕ) (p : Proc)
    → (fork_from cur true (record { procs = update procs i p; nextpid = n }, some i)).0.procs i
      ≡ record p { parent = some cur; state = runnable }
unfolding fork_from
fork_from-born procs n i cur p = rw (eq→== i i refl)

-- If the first entry with pid 0 is the first free one, then a kill with pid 0 succeeds, and the
-- child of the next fork that gets its stack and its memory is runnable and already killed.
pub kill_zero_poisons :
    (t : Table) (i cur kstack : ℕ)
    → find (λ i. (t.procs i).pid == 0) 0 nproc ≡ some i
    → find (λ i. is_unused (t.procs i).state) 0 nproc ≡ some i
    → kstack ≢ 0
    → (u : Table) × (kill t 0 ≡ some u)
      × (((fork u cur kstack true).0.procs i).killed ≡ true)
      × (((fork u cur kstack true).0.procs i).state ≡ runnable)
unfolding kill fork allocproc
kill_zero_poisons t i cur kstack e f k = (u, rw (e, kill) refl, forked.0, forked.1)
  where
    struck : Proc
    struck = record (t.procs i) {
      killed = true;
      state = if is_sleeping (t.procs i).state then runnable else (t.procs i).state;
    }

    u : Table
    u = record t { procs = update t.procs i struck }

    free_in : Table → ℕ → Bool
    free_in o j = is_unused (o.procs j).state

    same : free_in u ≡ free_in t
    same = fun_ext λ j. elim (ℕ_discrete i j) [
      | yes q ↦
          ap (λ p. is_unused p.state)
            (ap (update t.procs i struck) (sym q) ∙ update_self t.procs i struck)
          ∙ is_unused-strike (t.procs i).state
          ∙ ap (λ k. is_unused (t.procs k).state) q
      | no n ↦ ap (λ p. is_unused p.state) (update_ne t.procs i struck j n)
    ]

    taken : find (free_in u) 0 nproc ≡ some i
    taken = ap (λ g. find g 0 nproc) same ∙ f

    child : Proc
    child = record (u.procs i) { state = embryo; pid = u.nextpid; kstack = kstack }

    forked :
        (((fork u cur kstack true).0.procs i).killed ≡ true)
        × (((fork u cur kstack true).0.procs i).state ≡ runnable)
    forked =
        rw (taken, allocproc, ne→== kstack 0 k)
          (
            ap (λ p. p.killed) (fork_from-born u.procs (u.nextpid + 1) i cur child)
                ∙ ap (λ p. p.killed) (update_self t.procs i struck),
            ap (λ p. p.state) (fork_from-born u.procs (u.nextpid + 1) i cur child),
          )

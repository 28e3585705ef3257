-- ===== src/Proc/Reaper.antt =====
-- Every step keeps the family in order: a zombie always has a parent that will reap it.
use os_lab.Base.{
  ℕ, ◌<◌, ◌≡◌, refl, sym, ap, subst, fun_ext, ◌≢◌, inl, inr, Bool, true, false, not, ◌&&◌, ◌||◌,
  Option, none, some, arith, ◌==◌, if◌then◌else◌, Bool-cases, Option-cases, ok, some-injective,
  ok-injective, update_self, update,
}
use os_lab.Proc.{
  next_int, fork_from, Proc, Table, nproc, unused, embryo, sleeping, runnable, running, zombie,
  proc_chan, other_chan, fork, exit, wait, sleep_on, kill, set_state, allocproc, find, is_unused,
  is_child, is_zombie, scan, found, scanned, Scan, is_sleeping,
}
use os_lab.Proc.Search.{find-some, scan_found, scan_scanned}
use os_lab.Proc.Steps.{
  initproc, start, Step, forks, exits, waits, sleeps, wakes, kills, scheduled, yields, Reach, init,
  next,
}
use os_lab.Proc.Family.{
  strike-Inv, Alive, IsParent, Inv, change-Inv, free-Inv, child-Inv, reap-Inv, wakeup-Inv,
}
use os_lab.Proc.Leave.{leaving-Inv}

pub update-update {ℓ} :
    {A : Type ℓ} (f : ℕ → A) (i : ℕ) (a b : A) → update (update f i a) i b ≡ update f i b
update-update f i a b = fun_ext λ j. ground arith

-- What allocproc writes to the entry that it takes.
abbrev taken : Table → ℕ → ℕ → Proc
taken t i kstack = record (t.procs i) { state = embryo; pid = t.nextpid; kstack = kstack }

allocproc-found :
    (t : Table) (kstack i : ℕ)
    → find (λ i. is_unused (t.procs i).state) 0 nproc ≡ some i
    → allocproc t kstack ≡ (
        if kstack == 0
        then (
          record {
            procs = update t.procs i (record (taken t i kstack) { state = unused });
            nextpid = next_int t.nextpid;
          },
          none,
        )
        else (
          record { procs = update t.procs i (taken t i kstack); nextpid = next_int t.nextpid },
          some i,
        ))
unfolding allocproc
allocproc-found t kstack i e = rw (e, allocproc)

allocproc-not_found :
    (t : Table) (kstack : ℕ)
    → find (λ i. is_unused (t.procs i).state) 0 nproc ≡ none
    → allocproc t kstack ≡ (t, none)
unfolding allocproc
allocproc-not_found t kstack e = rw (e, allocproc)

fork-Inv :
    (t : Table) (cur kstack : ℕ) (copied : Bool)
    → cur < nproc
    → (t.procs cur).state ≡ running
    → Inv t.procs
    → Inv (fork t cur kstack copied).0.procs
unfolding fork
fork-Inv t cur kstack copied lt r v =
    elim (Option-cases (find (λ i. is_unused (t.procs i).state) 0 nproc)) [
      | inl e ↦ rw (ap (fork_from cur copied) (allocproc-not_found t kstack e)) v
      | inr (i, e) ↦
          rw (ap (fork_from cur copied) (allocproc-found t kstack i e))
            (at_entry i (ground (arith, find-some (λ i. is_unused (t.procs i).state) 0 nproc e)))
    ]
  where
    p : ℕ → Proc
    p i = taken t i kstack

    at_entry :
        (i : ℕ)
        → (t.procs i).state ≡ unused
        → Inv
            (fork_from cur copied (
              if kstack == 0
              then (
                record {
                  procs = update t.procs i (record (taken t i kstack) { state = unused });
                  nextpid = next_int t.nextpid;
                },
                none,
              )
              else (
                record {
                  procs = update t.procs i (taken t i kstack);
                  nextpid = next_int t.nextpid;
                },
                some i,
              ))).0.procs
    at_entry i free = elim (Bool-cases (kstack == 0)) [
      | inl z ↦ rw z (free-Inv v i (record (p i) { state = unused }) refl free refl)
      | inr z ↦ rw z (elim (Bool-cases copied) [
        | inl y ↦
            rw (y, update_self t.procs i (p i), update-update t.procs i (p i))
              (child-Inv v i cur (record (p i) { parent = some cur; state = runnable }) free lt
                (ground arith) refl refl)
        | inr n ↦
            rw (n, update_self t.procs i (p i), update-update t.procs i (p i))
              (free-Inv v i (record (p i) { kstack = 0; state = unused }) refl free refl)
      ])
    ]

exit-Inv :
    (t : Table) (cur : ℕ) {u : Table}
    → cur < nproc
    → (t.procs cur).state ≡ running
    → exit t initproc cur ≡ ok u
    → Inv t.procs
    → Inv u.procs
unfolding exit
exit-Inv t cur lt r e v = elim (Bool-cases (cur == initproc)) [
  | inl y ↦ absurd (ground arith)
  | inr n ↦
      let same = ok-injective ((rw n at e)) in
      subst (λ u. Inv u.procs) same (leaving-Inv v cur lt (ground arith) r)
]

proc_chan-injective : {a b : ℕ} → proc_chan a ≡ proc_chan b → a ≡ b
proc_chan-injective e = cc

pub not_zombie_child :
    (cur : ℕ) (p : Proc)
    → is_child cur p.parent && is_zombie p.state ≡ false
    → p.parent ≡ some cur
    → p.state ≢ zombie
not_zombie_child cur p e q = ground arith

wait-Inv :
    (t : Table) (cur : ℕ)
    → cur < nproc
    → (t.procs cur).state ≡ running
    → Inv t.procs
    → Inv (wait t cur).0.procs
unfolding wait sleep_on
wait-Inv t cur lt r v = go (scan cur t.procs 0 nproc false) refl
  where
    go : (sc : Scan) → scan cur t.procs 0 nproc false ≡ sc → Inv (wait t cur).0.procs
    go (found i) e =
        rw (e, wait)
          (reap-Inv v i _ (ground (arith, scan_found cur t.procs 0 nproc false e)) refl refl)
    go (scanned b) e =
        rw (e, wait)
          (elim (Bool-cases (not b || (t.procs cur).killed)) [
            | inl y ↦ rw y v
            | inr n ↦ rw n (
                change-Inv v cur (record (t.procs cur) { chan = proc_chan cur; state = sleeping })
                  refl (ground arith) (λ e. cc, λ e. cc) (λ k s c. sym (proc_chan-injective c))
                  (λ j s c l q.
                    not_zombie_child cur (t.procs j)
                      ((scan_scanned cur t.procs 0 nproc false e).0 j (omega arith) l) q))
          ])

kill-Inv : (t : Table) (pid : ℕ) {u : Table} → kill t pid ≡ some u → Inv t.procs → Inv u.procs
unfolding kill
kill-Inv t pid {u} e v = go (find (λ i. (t.procs i).pid == pid) 0 nproc) refl
  where
    struck : ℕ → Proc
    struck i = record (t.procs i) {
      killed = true;
      state = if is_sleeping (t.procs i).state then runnable else (t.procs i).state;
    }

    go : (o : Option ℕ) → find (λ i. (t.procs i).pid == pid) 0 nproc ≡ o → Inv u.procs
    go none q = absurd (cc (rw (q, kill) at e))
    go (some i) q =
        let same : some (record t { procs = update t.procs i (struck i) }) ≡ some u =
          rw (q, kill) at e in
        subst (λ o. Inv o.procs) (some-injective same) (strike-Inv v i)

Step-Inv : {t u : Table} → Step t u → Inv t.procs → Inv u.procs
unfolding sleep_on set_state
Step-Inv {t} (forks cur kstack copied lt r) v = fork-Inv t cur kstack copied lt r v
Step-Inv {t} (exits cur lt r e) v = exit-Inv t cur lt r e v
Step-Inv {t} (waits cur lt r) v = wait-Inv t cur lt r v
Step-Inv {t} (sleeps cur c lt r) v =
    change-Inv v cur (record (t.procs cur) { chan = other_chan c; state = sleeping }) refl
      (ground arith) (λ e. cc, λ e. cc) (λ k s e. absurd (cc e)) (λ j s e l q. absurd (cc e))
Step-Inv {t} (wakes c) v = wakeup-Inv v (other_chan c)
Step-Inv {t} (kills pid e) v = kill-Inv t pid e v
Step-Inv {t} (scheduled i lt r) v =
    change-Inv v i (record (t.procs i) { state = running }) refl (ground arith) (λ e. cc, λ e. cc)
      (λ k s e. absurd (cc s)) (λ j s e l q. absurd (cc s))
Step-Inv {t} (yields i lt r) v =
    change-Inv v i (record (t.procs i) { state = runnable }) refl (ground arith) (λ e. cc, λ e. cc)
      (λ k s e. absurd (cc s)) (λ j s e l q. absurd (cc s))

start-Inv : (kstack : ℕ) → Inv (start kstack).procs
start-Inv kstack = record {
  init_alive = (λ e. cc, λ e. cc);
  parents = λ i l u n. absurd (ground arith);
  free = λ i l u. ground arith;
  own_chan = λ i k s e. ground arith;
  told = λ i j l s e q. ground arith;
}

pub Reach-Inv : {kstack : ℕ} {t : Table} → Reach kstack t → Inv t.procs
Reach-Inv {kstack} init = start-Inv kstack
Reach-Inv (next r st) = Step-Inv st (Reach-Inv r)

-- In every state that the processes reach, every zombie has a parent in the table that is in use,
-- is no zombie itself and is not asleep in wait: no exit goes unnoticed by the process that has to
-- reap it. And init is never a zombie or a free entry.
pub zombies_have_reapers :
    {kstack : ℕ} {t : Table}
    → Reach kstack t
    → Alive (t.procs initproc)
      × ((i : ℕ)
          → i < nproc
          → (t.procs i).state ≡ zombie
          → i ≢ initproc
          → (j : ℕ) × IsParent t.procs i j
            × ((t.procs j).state ≡ sleeping → (t.procs j).chan ≢ proc_chan j))
zombies_have_reapers {t = t} r =
    let v = Reach-Inv r in
    (
      v.init_alive,
      λ i l z n.
          let (j, p) = v.parents i l (ground arith) n in (j, p, λ s e. v.told j i l s e p.0 z),
    )

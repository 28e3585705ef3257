-- ===== src/Proc/Pids.antt =====
-- Pids are given out once.
use os_lab.Base.{
  ℕ, ◌+◌, ◌^◌, ◌≤◌, ◌<◌, ◌≡◌, refl, ◌∙◌, subst, fun_ext, ◌≢◌, inl, inr, Bool, true, false, not,
  ◌||◌, Option, none, some, arith, ◌==◌, if◌then◌else◌, Bool-cases, ok, some-injective,
  ok-injective, update_self, update,
}
use os_lab.Proc.{
  next_int, Proc, Table, nproc, embryo, runnable, zombie, other_chan, fork, fork_from, exit, wait,
  sleep_on, kill, set_state, wakeup1, allocproc, find, is_unused, scan, found, scanned, parent_chan,
  pass_children, Scan, is_sleeping,
}
use os_lab.Proc.Exit.{woken-Kept, pass_children-Kept}
use os_lab.Proc.Reaper.{update-update}
use os_lab.Proc.Steps.{
  initproc, start, Step, forks, exits, waits, sleeps, wakes, kills, scheduled, yields, Reach, init,
  next,
}

-- No pid has been given out twice, and `n` not yet.
record Fresh (p : ℕ → ℕ) (n : ℕ) : Type 0 where
  some_given : 0 < n
  below : (i : ℕ) → p i < n
  distinct : (i j : ℕ) → p i ≢ 0 → p i ≡ p j → i ≡ j

abbrev pids : (ℕ → Proc) → ℕ → ℕ
pids procs i = (procs i).pid

new-Fresh : {p : ℕ → ℕ} {n : ℕ} (i : ℕ) → Fresh p n → Fresh (update p i n) (n + 1)
new-Fresh {p} {n} i v = record {
  some_given = omega arith;
  below = λ j. ground (arith, v.below j);
  distinct = λ j k a e. ground (arith, v.below j, v.below k, v.distinct j k);
}

drop-Fresh : {p : ℕ → ℕ} {n : ℕ} (i : ℕ) → Fresh p n → Fresh (update p i 0) n
drop-Fresh {p} {n} i v = record {
  some_given = v.some_given;
  below = λ j. ground (arith, v.below j, v.some_given);
  distinct = λ j k a e. ground (arith, v.distinct j k);
}

pids-update :
    (procs : ℕ → Proc) (i : ℕ) (q : Proc) → pids (update procs i q) ≡ update (pids procs) i q.pid
pids-update procs i q = fun_ext λ j. ground arith

-- A change that leaves the pids alone.
pids-update_same :
    (procs : ℕ → Proc) (i : ℕ) (q : Proc)
    → q.pid ≡ (procs i).pid
    → pids (update procs i q) ≡ pids procs
pids-update_same procs i q e = fun_ext λ j. ground arith

-- What a step does to the pids, which gives one out only if `n` is 1.
data Change (n : ℕ) (t u : Table) : Type 0 where
  stays : u.nextpid ≡ t.nextpid → pids u.procs ≡ pids t.procs → Change n t u
  gives :
      n ≡ 1
      → (i : ℕ) → u.nextpid ≡ next_int t.nextpid
      → pids u.procs ≡ update (pids t.procs) i t.nextpid
      → Change n t u
  drops : (i : ℕ) → u.nextpid ≡ t.nextpid → pids u.procs ≡ update (pids t.procs) i 0 → Change n t u

Change-Fresh :
    {n : ℕ} {t u : Table}
    → Change n t u
    → t.nextpid + 1 < 2 ^ 32
    → Fresh (pids t.procs) t.nextpid
    → Fresh (pids u.procs) u.nextpid × (u.nextpid ≤ t.nextpid + n)
Change-Fresh (stays n e) l v = (rw (n, e) v, omega arith)
Change-Fresh {t = t} {u = u} (gives one i n e) l v =
    let up : u.nextpid ≡ t.nextpid + 1 = n ∙ omega arith in
    (rw (up, e) (new-Fresh i v), omega arith)
Change-Fresh (drops i n e) l v = (rw (n, e) (drop-Fresh i v), omega arith)

fork-Change : (t : Table) (cur kstack : ℕ) (copied : Bool) → Change 1 t (fork t cur kstack copied).0
unfolding fork fork_from allocproc
fork-Change t cur kstack copied = go (find (λ i. is_unused (t.procs i).state) 0 nproc) refl
  where
    go :
        (o : Option ℕ)
        → find (λ i. is_unused (t.procs i).state) 0 nproc ≡ o
        → Change 1 t (fork t cur kstack copied).0
    go none e = rw (e, allocproc) (stays refl refl)
    go (some i) e =
        rw (e, allocproc)
          (elim (Bool-cases (kstack == 0)) [
            | inl z ↦ rw z (gives refl i refl (fun_ext λ j. ground arith))
            | inr z ↦ rw z (elim (Bool-cases copied) [
              | inl y ↦
                  rw (y, update_self t.procs i (p i), update-update t.procs i (p i))
                    (gives refl i refl (pids-update t.procs i _))
              | inr n ↦
                  rw (n, update_self t.procs i (p i), update-update t.procs i (p i))
                    (gives refl i refl (pids-update t.procs i _))
            ])
          ])
      where
        p : ℕ → Proc
        p i = record (t.procs i) { state = embryo; pid = t.nextpid; kstack = kstack }

exit-Change : (t : Table) (cur : ℕ) {u : Table} → exit t initproc cur ≡ ok u → Change 0 t u
unfolding exit wakeup1
exit-Change t cur {u} e = elim (Bool-cases (cur == initproc)) [
  | inl y ↦ absurd (ground arith)
  | inr n ↦
      subst (λ u. Change 0 t u) (ok-injective ((rw n at e)))
        (stays refl (
          pids-update_same passed cur (record (passed cur) { state = zombie }) refl
          ∙ fun_ext λ k.
            (pass_children-Kept initproc cur 0 nproc told k).same_pid
            ∙ (woken-Kept (parent_chan (t.procs cur).parent) (t.procs k)).same_pid))
]
  where
    told : ℕ → Proc
    told = wakeup1 (parent_chan (t.procs cur).parent) t.procs

    passed : ℕ → Proc
    passed = pass_children initproc cur 0 nproc told

wait-Change : (t : Table) (cur : ℕ) → Change 0 t (wait t cur).0
unfolding wait sleep_on
wait-Change t cur = go (scan cur t.procs 0 nproc false) refl
  where
    go : (sc : Scan) → scan cur t.procs 0 nproc false ≡ sc → Change 0 t (wait t cur).0
    go (found i) e = rw (e, wait) (drops i refl (pids-update t.procs i _))
    go (scanned b) e =
        rw (e, wait)
          (elim (Bool-cases (not b || (t.procs cur).killed)) [
            | inl y ↦ rw y (stays refl refl)
            | inr n ↦ rw n (stays refl (pids-update_same t.procs cur _ refl))
          ])

kill-Change : (t : Table) (pid : ℕ) {u : Table} → kill t pid ≡ some u → Change 0 t u
unfolding kill
kill-Change t pid {u} e = go (find (λ i. (t.procs i).pid == pid) 0 nproc) refl
  where
    struck : ℕ → Proc
    struck i = record (t.procs i) {
      killed = true;
      state = if is_sleeping (t.procs i).state then runnable else (t.procs i).state;
    }

    go : (o : Option ℕ) → find (λ i. (t.procs i).pid == pid) 0 nproc ≡ o → Change 0 t u
    go none q = absurd (cc (rw (q, kill) at e))
    go (some i) q =
        let same : some (record t { procs = update t.procs i (struck i) }) ≡ some u =
          rw (q, kill) at e in
        subst (λ o. Change 0 t o) (some-injective same)
          (stays refl (pids-update_same t.procs i (struck i) refl))

-- Whether a step is a call of fork.
abbrev is_fork : {t u : Table} → Step t u → ℕ
is_fork (forks cur kstack copied l r) = 1
is_fork _ = 0

Step-Change : {t u : Table} (s : Step t u) → Change (is_fork s) t u
unfolding sleep_on set_state wakeup1
Step-Change {t} (forks cur kstack copied lt r) = fork-Change t cur kstack copied
Step-Change {t} (exits cur lt r e) = exit-Change t cur e
Step-Change {t} (waits cur lt r) = wait-Change t cur
Step-Change {t} (sleeps cur c lt r) = stays refl (pids-update_same t.procs cur _ refl)
Step-Change {t} (wakes c) =
    stays refl (fun_ext λ k. (woken-Kept (other_chan c) (t.procs k)).same_pid)
Step-Change {t} (kills pid e) = kill-Change t pid e
Step-Change {t} (scheduled i lt r) = stays refl (pids-update_same t.procs i _ refl)
Step-Change {t} (yields i lt r) = stays refl (pids-update_same t.procs i _ refl)

start-Fresh : (kstack : ℕ) → Fresh (pids (start kstack).procs) 2
start-Fresh kstack = record {
  some_given = omega arith;
  below = λ i. ground arith;
  distinct = λ i j a e. ground arith;
}

-- How often fork has been called on the way to a state.
unfoldable pub forks_called : {kstack : ℕ} {t : Table} → Reach kstack t → ℕ
forks_called init = 0
forks_called (next r s) = forks_called r + is_fork s

Reach-Fresh :
    {kstack : ℕ} {t : Table} (r : Reach kstack t)
    → forks_called r + 3 < 2 ^ 31
    → Fresh (pids t.procs) t.nextpid × (t.nextpid ≤ forks_called r + 2)
unfolding forks_called
Reach-Fresh {kstack} init l = (start-Fresh kstack, omega arith)
Reach-Fresh (next r s) l =
    let (v, b) = Reach-Fresh r (omega arith) in
    let (w, c) = Change-Fresh (Step-Change s) (omega (arith, b)) v in (w, omega arith)

-- In every state that the processes reach with less than 2^31 - 3 calls of fork, which keeps nextpid
-- within an int, no two entries have the same pid, but for 0, and every pid is below nextpid, the
-- one that the next process gets.
pub pids_unique :
    {kstack : ℕ} {t : Table} (r : Reach kstack t)
    → forks_called r + 3 < 2 ^ 31
    → ((i j : ℕ) → (t.procs i).pid ≢ 0 → (t.procs i).pid ≡ (t.procs j).pid → i ≡ j)
      × ((i : ℕ) → (t.procs i).pid < t.nextpid)
      × (t.nextpid < 2 ^ 31)
pids_unique r l = let (v, b) = Reach-Fresh r l in (v.distinct, v.below, omega arith)

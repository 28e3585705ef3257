-- ===== src/Proc/Steps.antt =====
-- The processes of a running system, in any order.
-- `fork` is one step: between its two holds of the lock only `kill` may touch the new entry.
use os_lab.Base.{ℕ, ◌<◌, ◌≡◌, Bool, false, none, some, ok, update}
use os_lab.Proc.{
  Proc, Table, nproc, unused, runnable, running, no_chan, other_chan, fork, exit, wait, sleep_on,
  kill, set_state, wakeup1,
}

-- `userinit` leaves one process, runnable and with no parent; it becomes init, the entry 0.
abbrev pub initproc : ℕ
initproc = 0

abbrev pub free_entry : Proc
free_entry = record {
  state = unused;
  pid = 0;
  parent = none;
  chan = no_chan;
  killed = false;
  kstack = 0;
}

abbrev pub start : ℕ → Table
start kstack = record {
  procs =
      update (λ _. free_entry) initproc
        (record free_entry { state = runnable; pid = 1; kstack = kstack });
  nextpid = 2;
}

pub data Step (t : Table) : Table → Type 0 where
  forks :
      (cur kstack : ℕ) (copied : Bool)
      → cur < nproc
      → (t.procs cur).state ≡ running
      → Step t (fork t cur kstack copied).0
  exits :
      (cur : ℕ) {u : Table}
      → cur < nproc
      → (t.procs cur).state ≡ running
      → exit t initproc cur ≡ ok u
      → Step t u
  waits : (cur : ℕ) → cur < nproc → (t.procs cur).state ≡ running → Step t (wait t cur).0
  sleeps :
      (cur c : ℕ)
      → cur < nproc
      → (t.procs cur).state ≡ running
      → Step t (sleep_on t cur (other_chan c))
  wakes : (c : ℕ) → Step t (record t { procs = wakeup1 (other_chan c) t.procs })
  kills : (pid : ℕ) {u : Table} → kill t pid ≡ some u → Step t u
  scheduled : (i : ℕ) → i < nproc → (t.procs i).state ≡ runnable → Step t (set_state t i running)
  yields : (i : ℕ) → i < nproc → (t.procs i).state ≡ running → Step t (set_state t i runnable)

pub data Reach (kstack : ℕ) : Table → Type 0 where
  init : Reach kstack (start kstack)
  next : {t u : Table} → Reach kstack t → Step t u → Reach kstack u

-- ===== src/Spinlock/System.antt =====
-- CPUs that take and release spinlocks, in any order.
use os_lab.Base.{
  without, ℕ, ◌+◌, ◌-◌, ◌<◌, ◌≡◌, Bool, true, false, List, [], ◌∷◌, ◌==◌, if◌then◌else◌, ok, update,
}
use os_lab.Spinlock.{
  Cpu, Spinlock, initlock, pushcli, popcli, acquire_begin, swap_in, mark, release_begin,
  release_end,
}

-- Where a CPU stands: in the loop of acquire, between the loop and its end, or between the two
-- stretches of release.
pub data Pc : Type 0 where
  running : Pc
  spinning marking unmarking : ℕ → Pc

-- What a CPU has called: the locks for which acquire has returned and release has not been called,
-- the calls of pushcli without their popcli, and whether the kernel thread that it runs takes
-- interrupts without these.
pub record Core : Type 0 where
  pub pc : Pc
  pub held : List ℕ
  pub pushed : ℕ
  pub enabled : Bool

pub record System : Type 0 where
  pub cpus : ℕ → Cpu
  pub locks : ℕ → Spinlock
  pub cores : ℕ → Core

abbrev pub spun : ℕ → ℕ → Pc
spun l old = if old == 0 then marking l else spinning l

pub data Step (n : ℕ) (s : System) : System → Type 0 where
  begins :
      (i l : ℕ) {c : Cpu}
      → i < n
      → (s.cores i).pc ≡ running
      → acquire_begin (s.locks l) i (s.cpus i) ≡ ok c
      → Step n s (record {
        cpus = update s.cpus i c;
        locks = s.locks;
        cores = update s.cores i (record (s.cores i) { pc = spinning l });
      })
  spins :
      (i l : ℕ)
      → i < n
      → (s.cores i).pc ≡ spinning l
      → Step n s (record {
        cpus = s.cpus;
        locks = update s.locks l (swap_in (s.locks l)).1;
        cores = update s.cores i (record (s.cores i) { pc = spun l (swap_in (s.locks l)).0 });
      })
  marks :
      (i l : ℕ)
      → i < n
      → (s.cores i).pc ≡ marking l
      → Step n s (record {
        cpus = s.cpus;
        locks = update s.locks l (mark (s.locks l) i);
        cores = update s.cores i (record (s.cores i) { pc = running; held = l ∷ (s.cores i).held });
      })
  unmarks :
      (i l : ℕ) {c : Cpu} {lk : Spinlock}
      → i < n
      → (s.cores i).pc ≡ running
      → release_begin (s.locks l) i (s.cpus i) ≡ ok (c, lk)
      → Step n s (record {
        cpus = update s.cpus i c;
        locks = update s.locks l lk;
        cores =
            update s.cores i
              (record (s.cores i) { pc = unmarking l; held = without l (s.cores i).held });
      })
  frees :
      (i l : ℕ) {c : Cpu} {lk : Spinlock}
      → i < n
      → (s.cores i).pc ≡ unmarking l
      → release_end (s.locks l) (s.cpus i) ≡ ok (c, lk)
      → Step n s (record {
        cpus = update s.cpus i c;
        locks = update s.locks l lk;
        cores = update s.cores i (record (s.cores i) { pc = running });
      })
  pushes :
      (i : ℕ)
      → i < n
      → (s.cores i).pc ≡ running
      → Step n s (record {
        cpus = update s.cpus i (pushcli (s.cpus i));
        locks = s.locks;
        cores = update s.cores i (record (s.cores i) { pushed = (s.cores i).pushed + 1 });
      })
  pops :
      (i : ℕ) {c : Cpu}
      → i < n
      → (s.cores i).pc ≡ running
      → 0 < (s.cores i).pushed
      → popcli (s.cpus i) ≡ ok c
      → Step n s (record {
        cpus = update s.cpus i c;
        locks = s.locks;
        cores = update s.cores i (record (s.cores i) { pushed = (s.cores i).pushed - 1 });
      })
  -- `sti()` of the scheduler, and of the return to a process.
  enables :
      (i : ℕ)
      → i < n
      → (s.cores i).pc ≡ running
      → (s.cpus i).ncli ≡ 0
      → Step n s (record {
        cpus = update s.cpus i (record (s.cpus i) { interruptible = true });
        locks = s.locks;
        cores = update s.cores i (record (s.cores i) { enabled = true });
      })
  -- An interrupt is taken: its gate clears the flag. `enables` is the return from it too.
  interrupts :
      (i : ℕ)
      → i < n
      → (s.cores i).pc ≡ running
      → (s.cpus i).ncli ≡ 0
      → Step n s (record {
        cpus = update s.cpus i (record (s.cpus i) { interruptible = false });
        locks = s.locks;
        cores = update s.cores i (record (s.cores i) { enabled = false });
      })
  -- sched gives `mycpu()->intena` what the kernel thread that runs again has kept there.
  resumes :
      (i : ℕ) (b : Bool)
      → i < n
      → (s.cores i).pc ≡ running
      → (s.cpus i).ncli ≡ 1
      → Step n s (record {
        cpus = update s.cpus i (record (s.cpus i) { intena = b });
        locks = s.locks;
        cores = update s.cores i (record (s.cores i) { enabled = b });
      })

-- All locks are free, and no CPU takes interrupts.
abbrev pub start : System
start = record {
  cpus = λ _. record { interruptible = false; ncli = 0; intena = false };
  locks = λ _. initlock;
  cores = λ _. record { pc = running; held = []; pushed = 0; enabled = false };
}

pub data Reach (n : ℕ) : System → Type 0 where
  init : Reach n start
  next : {s t : System} → Reach n s → Step n s t → Reach n t

-- ===== src/TicketLock/System.antt =====
-- Processes that call ticket_acquire and ticket_release, as sys_ticketlocktest does, in any order.
-- A process is its pid, below `n`; pids of processes are positive.
use os_lab.Base.{ℕ, ◌<◌, ◌≡◌, Bool, true, ok, update}
use os_lab.TicketLock.{
  Lock, Wait, acquired, asleep, wait_turn, ticket_acquire, ticket_release, init_ticket_lock,
}

-- Where a process stands; one that waits has its ticket `me`, as SLEEPING or as RUNNABLE.
pub data Pc : Type 0 where
  outside : Pc
  sleeping : ℕ → Pc
  runnable : ℕ → Pc
  critical : Pc

pub record System : Type 0 where
  pub lock : Lock
  pub pc : ℕ → Pc

abbrev pub after : Wait → Pc
after acquired = critical
after (asleep me) = sleeping me

-- `wakeup(lk)`
abbrev pub wake : Bool → Pc → Pc
wake true (sleeping me) = runnable me
wake b p = p

pub data Step (n : ℕ) (s : System) : System → Type 0 where
  acquire :
      (i : ℕ) {l : Lock} {w : Wait}
      → 0 < i
      → i < n
      → s.pc i ≡ outside
      → ticket_acquire s.lock i ≡ ok (l, w)
      → Step n s (record { lock = l; pc = update s.pc i (after w) })
  retry :
      (i me : ℕ) {l : Lock} {w : Wait}
      → s.pc i ≡ runnable me
      → wait_turn s.lock me i ≡ (l, w)
      → Step n s (record { lock = l; pc = update s.pc i (after w) })
  release :
      (i : ℕ) {l : Lock} {b : Bool}
      → s.pc i ≡ critical
      → ticket_release s.lock i ≡ ok (l, b)
      → Step n s (record { lock = l; pc = λ j. wake b (update s.pc i outside j) })
  -- `kill` makes any sleeper runnable, whatever it sleeps on.
  kicked :
      (i me : ℕ)
      → s.pc i ≡ sleeping me
      → Step n s (record { lock = s.lock; pc = update s.pc i (runnable me) })

-- sys_ticketlockinit, with no process in either function.
abbrev pub start : System
start = record { lock = init_ticket_lock; pc = λ _. outside }

pub data Reach (n : ℕ) : System → Type 0 where
  init : Reach n start
  next : {s t : System} → Reach n s → Step n s t → Reach n t

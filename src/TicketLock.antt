-- ===== src/TicketLock.antt =====
-- ticket_lock.c: a lock whose waiters are served in the order of their tickets.
-- Its functions run under the spinlock `lk->lk` up to their end or to a `sleep`, which releases
-- it, so each stretch is one function here. The name, kept for debugging, is left out.
pub mod Turns
pub mod System
pub mod Invariant
pub mod Safety
mod Tests
use os_lab.Base.{
  ℕ, ◌+◌, ◌%◌, ◌^◌, Bool, true, false, not, ◌&&◌, ◌==◌, if◌then◌else◌, Outcome, ok, panic,
}

abbrev pub uint_mod : ℕ
uint_mod = 2 ^ 32

-- `struct ticket_lock`; `pid` is 0 while no process holds the lock.
pub record Lock : Type 0 where
  pub ticket : ℕ  -- uint
  pub turn : ℕ  -- uint
  pub pid : ℕ

unfoldable pub init_ticket_lock : Lock
init_ticket_lock = record { ticket = 0; turn = 0; pid = 0 }

-- `self` is `myproc()->pid`.
unfoldable pub ticket_holding : Lock → ℕ → Bool
ticket_holding lk self = not (lk.ticket == lk.turn) && lk.pid == self

-- How a stretch of `ticket_acquire` ends: it returns, or sleeps with its ticket.
pub data Wait : Type 0 where
  acquired : Wait
  asleep : ℕ → Wait

-- The loop's test, and what follows the loop.
unfoldable pub wait_turn : Lock → ℕ → ℕ → Lock × Wait
wait_turn lk me self =
    if lk.turn == me then (record lk { pid = self }, acquired) else (lk, asleep me)

unfoldable pub ticket_acquire : Lock → ℕ → Outcome (Lock × Wait)
unfolding ticket_holding wait_turn
ticket_acquire lk self =
    if ticket_holding lk self
    then panic
    else ok (wait_turn (record lk { ticket = (lk.ticket + 1) % uint_mod }) lk.ticket self)

-- The lock, and whether the processes that sleep on it are woken.
unfoldable pub ticket_release : Lock → ℕ → Outcome (Lock × Bool)
unfolding ticket_holding
ticket_release lk self =
    if not (ticket_holding lk self)
    then panic
    else ok (
        if lk.pid == self
        then (record lk { pid = 0; turn = (lk.turn + 1) % uint_mod }, true)
        else (lk, false))

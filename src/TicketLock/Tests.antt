-- ===== src/TicketLock/Tests.antt =====
-- The ticket lock with processes 1 and 2.
use os_lab.Base.{ℕ, ◌+◌, ◌-◌, ◌^◌, ◌≡◌, refl, ◌≢◌, ◌⊎◌, inl, true, arith, ok, panic, update}
use os_lab.TicketLock.{acquired, asleep, ticket_acquire, ticket_release, init_ticket_lock}
use os_lab.TicketLock.System.{
  outside, sleeping, runnable, critical, System, wake, Step, acquire, release, Reach, init, next,
}
use os_lab.TicketLock.Turns.{ahead}
use os_lab.TicketLock.Safety.{mutual_exclusion, panics_exactly, no_stall, no_overtaking, Waits}

-- Process 1 is inside, process 2 sleeps with ticket 1.
abbrev contended : System
contended = record {
  lock = record { ticket = 2; turn = 0; pid = 1 };
  pc = update (update (λ _. outside) 1 critical) 2 (sleeping 1);
}

Reach-contended : Reach 3 contended
unfolding ticket_acquire init_ticket_lock
Reach-contended =
    next (next init (acquire 1 {w = acquired} (omega arith) (omega arith) refl refl))
      (acquire 2 {w = asleep 1} (omega arith) (omega arith) refl refl)

-- Process 1 leaves.
abbrev handed_over : System
handed_over = record {
  lock = record { ticket = 2; turn = 1; pid = 0 };
  pc = λ j. wake true (update contended.pc 1 outside j);
}

Step-release : Step 3 contended handed_over
unfolding ticket_release
Step-release = release 1 {b = true} refl refl

-- The counters wrap.
last_ticket :
    ticket_acquire (record { ticket = 2 ^ 32 - 1; turn = 2 ^ 32 - 1; pid = 0 }) 7
    ≡ ok (record { ticket = 0; turn = 2 ^ 32 - 1; pid = 7 }, acquired)
unfolding ticket_acquire
last_ticket = refl

twice_panics : ticket_acquire (record { ticket = 1; turn = 0; pid = 7 }) 7 ≡ panic
unfolding ticket_acquire
twice_panics = refl

mutual_exclusion_example : (◌≡◌ {A = ℕ} 1 1) × (contended.lock.pid ≡ 1)
mutual_exclusion_example = mutual_exclusion (omega arith) Reach-contended 1 1 refl refl

panics_exactly_example :
    (contended.pc 2 ≡ outside → ticket_acquire contended.lock 2 ≢ panic)
    × (contended.pc 2 ≡ critical → ticket_release contended.lock 2 ≢ panic)
    × (contended.pc 2 ≢ critical → ticket_release contended.lock 2 ≡ panic)
panics_exactly_example = panics_exactly (omega arith) Reach-contended 2 (omega arith)

no_stall_example :
    (j : ℕ) × ((contended.pc j ≡ critical) ⊎ (contended.pc j ≡ runnable contended.lock.turn))
no_stall_example = no_stall (omega arith) Reach-contended 2 1 (inl refl)

no_overtaking_example :
    ((handed_over.lock.turn ≡ contended.lock.turn)
      ⊎ ((j : ℕ) × (contended.pc j ≡ critical)
          × (handed_over.pc j ≡ outside)
          × (ahead handed_over.lock.turn 1 + 1 ≡ ahead contended.lock.turn 1)))
    × ((j : ℕ)
        → contended.pc j ≢ critical
        → handed_over.pc j ≡ critical
        → contended.pc j ≡ runnable contended.lock.turn)
    × (Waits (handed_over.pc 2) 1 ⊎ ((handed_over.pc 2 ≡ critical) × (1 ≡ contended.lock.turn)))
no_overtaking_example = no_overtaking (omega arith) Reach-contended Step-release 2 1 (inl refl)

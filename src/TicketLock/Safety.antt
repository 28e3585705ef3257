-- ===== src/TicketLock/Safety.antt =====
-- What processes that use the lock can rely on.
use os_lab.Base.{
  ℕ, ◌+◌, ◌^◌, ◌≤◌, ◌<◌, ◌≡◌, refl, ◌≢◌, ◌⊎◌, inl, inr, false, arith, ◌==◌, Bool-cases, ok, panic,
}
use os_lab.TicketLock.{
  Lock, Wait, acquired, asleep, wait_turn, ticket_acquire, ticket_release, ticket_holding,
}
use os_lab.TicketLock.System.{
  Pc, outside, sleeping, runnable, critical, System, Step, acquire, retry, release, kicked, Reach,
}
use os_lab.TicketLock.Turns.{queued-le, ahead}
use os_lab.TicketLock.Invariant.{
  tickets, Reach-Inv, Inv, outside-not_holding, critical-holding, mutual_exclusion_lem,
}

-- Of the processes below n, with n at most 2 ^ 31, no two are ever between ticket_acquire and
-- ticket_release together, and the lock's pid is then that of the one that is.
pub mutual_exclusion :
    {n : ℕ} {s : System}
    → n ≤ 2 ^ 31
    → Reach n s
    → (i j : ℕ) → s.pc i ≡ critical
    → s.pc j ≡ critical
    → (i ≡ j) × (s.lock.pid ≡ i)
mutual_exclusion few r i j p q =
    let v = Reach-Inv few r in (mutual_exclusion_lem v i j p q, v.owner i p)

-- ticket_acquire by a process that is outside, and ticket_release by the one that is inside, do not
-- panic; and no process but that one can release the lock: ticket_release panics for it.
pub panics_exactly :
    {n : ℕ} {s : System}
    → n ≤ 2 ^ 31
    → Reach n s
    → (i : ℕ) → 0 < i
    → (s.pc i ≡ outside → ticket_acquire s.lock i ≢ panic)
      × (s.pc i ≡ critical → ticket_release s.lock i ≢ panic)
      × (s.pc i ≢ critical → ticket_release s.lock i ≡ panic)
unfolding ticket_acquire ticket_release
panics_exactly {s} few r i pos_i =
    let v = Reach-Inv few r in
    (
      λ o. ground (arith, outside-not_holding v i pos_i o),
      λ c. ground (arith, critical-holding v i c),
      λ nc. rw (stranger v nc),
    )
  where
    stranger : {n : ℕ} → Inv n s → s.pc i ≢ critical → ticket_holding s.lock i ≡ false
    stranger v nc = unfold ticket_holding in ground (arith, v.held)

-- While a process waits, some process is inside, or some process that is runnable has the ticket
-- being served and gets the lock at its next test: the lock is never left to sleepers alone.
pub no_stall :
    {n : ℕ} {s : System}
    → n ≤ 2 ^ 31
    → Reach n s
    → (i me : ℕ) → (s.pc i ≡ sleeping me) ⊎ (s.pc i ≡ runnable me)
    → (j : ℕ) × ((s.pc j ≡ critical) ⊎ (s.pc j ≡ runnable s.lock.turn))
no_stall {s} few r i me w =
    let v = Reach-Inv few r in
    let (j, e) = v.turns.covered 0 (ground (arith, v.turns.range i me)) in
    (j, ground (arith, v.turns.turn_fits, v.awake j s.lock.turn))

-- Whether a process waits with the ticket `me`.
abbrev pub Waits : Pc → ℕ → Type 0
Waits p me = (p ≡ sleeping me) ⊎ (p ≡ runnable me)

-- With a ticket out, the next one is not being served.
ticket-Waits :
    {n : ℕ} {s : System} → Inv n s → (i me : ℕ) → Waits (s.pc i) me → s.lock.turn ≢ s.lock.ticket
ticket-Waits {n} {s} v i me w = ground (
  arith,
  v.turns.turn_fits,
  v.turns.range i me,
  v.turns.handed,
  v.turns.few,
  queued-le n (tickets s),
)

acquire-asleep :
    (lk : Lock) (self : ℕ) {l : Lock} {w : Wait}
    → ticket_acquire lk self ≡ ok (l, w)
    → lk.turn ≢ lk.ticket
    → w ≡ asleep lk.ticket
unfolding ticket_acquire wait_turn
acquire-asleep lk self e n = ground (arith)

wait_turn-after :
    (lk : Lock) (me self : ℕ) {l : Lock} {w : Wait}
    → wait_turn lk me self ≡ (l, w)
    → ((w ≡ acquired) × (me ≡ lk.turn)) ⊎ (w ≡ asleep me)
unfolding wait_turn
wait_turn-after lk me self {w = w} e = elim (Bool-cases (lk.turn == me)) [
  | inl y ↦ inl (ground arith, ground arith)
  | inr n ↦ inr (ground arith)
]

-- While a process waits with a ticket, a step changes the turn only where the process inside leaves,
-- and then brings the waiting one exactly one turn nearer. Whoever gets in has waited and holds the
-- ticket that is being served, so no newcomer passes a process that waits. And the process keeps
-- waiting with its ticket until it gets in itself, which it does only when its ticket is served.
pub no_overtaking :
    {n : ℕ} {s t : System}
    → n ≤ 2 ^ 31
    → Reach n s
    → Step n s t
    → (i me : ℕ) → Waits (s.pc i) me
    → ((t.lock.turn ≡ s.lock.turn)
        ⊎ ((j : ℕ) × (s.pc j ≡ critical)
            × (t.pc j ≡ outside)
            × (ahead t.lock.turn me + 1 ≡ ahead s.lock.turn me)))
      × ((j : ℕ) → s.pc j ≢ critical → t.pc j ≡ critical → s.pc j ≡ runnable s.lock.turn)
      × (Waits (t.pc i) me ⊎ ((t.pc i ≡ critical) × (me ≡ s.lock.turn)))
unfolding ticket_acquire ticket_release wait_turn
no_overtaking {s = s} few r (acquire j {w = end} p l o e) i me w =
    let v = Reach-Inv few r in
    let slept = acquire-asleep s.lock j e (ticket-Waits v i me w) in
    (inl (ground arith), (λ k nc c. ground (arith, slept)), inl (ground (arith, slept)))
no_overtaking {s = s} few r (retry j m {w = end} q e) i me w =
    let ends = wait_turn-after s.lock m j e in
    (inl (ground arith), (λ k nc c. ground (arith, ends)), ground (arith, ends))
no_overtaking few r (kicked j m q) i me w = (inl refl, (λ k nc c. ground arith), inl (ground arith))
no_overtaking {s = s} few r (release j {l = l} {b = b} c e) i me w =
    let v = Reach-Inv few r in
    (
      inr (
        j,
        c,
        ground arith,
        ground (arith, v.turns.turn_fits, v.turns.range i me, v.turns.unique i j s.lock.turn),
      ),
      (λ k nc d. absurd (ground arith)),
      inl (ground arith),
    )

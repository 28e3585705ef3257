-- ===== src/TicketLock/Invariant.antt =====
-- What holds of the lock and the processes in every reachable state.
use os_lab.Base.{
  ℕ, ◌+◌, ◌%◌, ◌^◌, ◌≤◌, ◌<◌, ◌≡◌, refl, sym, ◌∙◌, subst, fun_ext, ◌≢◌, inl, inr, true, false,
  Option, none, some, arith, ◌==◌, Bool-cases, ok, weigh_nothing, ok-injective, update,
}
use os_lab.TicketLock.{
  Lock, uint_mod, wait_turn, ticket_acquire, ticket_release, ticket_holding, init_ticket_lock,
}
use os_lab.TicketLock.System.{
  Pc, outside, sleeping, runnable, critical, System, after, wake, Step, acquire, retry, release,
  kicked, start, Reach, init, next,
}
use os_lab.TicketLock.Turns.{Turns, weight, queued, take-Turns, queued-le, pass-Turns}

-- The ticket of a process; the one in the critical section has the ticket being served.
abbrev pub ticket_of : ℕ → Pc → Option ℕ
ticket_of turn outside = none
ticket_of turn (sleeping me) = some me
ticket_of turn (runnable me) = some me
ticket_of turn critical = some turn

abbrev pub tickets : System → ℕ → Option ℕ
tickets s j = ticket_of s.lock.turn (s.pc j)

pub record Inv (n : ℕ) (s : System) : Type 0 where
  pub turns : Turns n s.lock.turn s.lock.ticket (tickets s)
  pub no_zero : s.pc 0 ≡ outside
  pub owner : (i : ℕ) → s.pc i ≡ critical → s.lock.pid ≡ i
  pub held : s.lock.pid ≢ 0 → s.pc s.lock.pid ≡ critical
  pub awake : (i t : ℕ) → s.pc i ≡ sleeping t → t ≢ s.lock.turn

-- The same tickets, given by another function.
Turns-congr :
    {n turn ticket : ℕ} {f g : ℕ → Option ℕ}
    → ((j : ℕ) → g j ≡ f j)
    → Turns n turn ticket f
    → Turns n turn ticket g
Turns-congr {n} {turn} {ticket} e v = subst (Turns n turn ticket) (sym (fun_ext e)) v

module _ {n : ℕ} {s : System} (v : Inv n s) (i : ℕ) where
  open v use {turns, no_zero, owner, held, awake}

  pub mutual_exclusion_lem : (j : ℕ) → s.pc i ≡ critical → s.pc j ≡ critical → i ≡ j
  mutual_exclusion_lem j p q = turns.unique i j s.lock.turn (ground arith) (ground arith)

  -- A process outside does not find itself the holder.
  pub outside-not_holding : 0 < i → s.pc i ≡ outside → ticket_holding s.lock i ≡ false
  unfolding ticket_holding
  outside-not_holding pos_i o = ground (arith, held)

  pub critical-holding : s.pc i ≡ critical → ticket_holding s.lock i ≡ true
  unfolding ticket_holding
  critical-holding c = ground (
    arith,
    owner i c,
    turns.range i s.lock.turn,
    turns.handed,
    turns.few,
    turns.turn_fits,
    queued-le n (tickets s),
  )

  -- The process gets the lock.
  enter-Inv :
      (l : Lock)
      → 0 < i
      → l.turn ≡ s.lock.turn
      → ((j : ℕ) → s.pc j ≡ critical → i ≡ j)
      → Turns n s.lock.turn l.ticket (update (tickets s) i (some s.lock.turn))
      → Inv n (record { lock = record l { pid = i }; pc = update s.pc i critical })
  enter-Inv l pos_i same alone t = record {
    turns = rw same (Turns-congr (λ j. ground arith) t);
    no_zero = ground (arith, no_zero);
    owner = λ j e. ground (arith, alone j);
    held = λ e. ground arith;
    awake = λ j t' e. ground (arith, awake j t');
  }

  -- The process goes to sleep with its ticket.
  sleep-Inv :
      (l : Lock) (me : ℕ)
      → 0 < i
      → l.turn ≡ s.lock.turn
      → l.pid ≡ s.lock.pid
      → s.pc i ≢ critical
      → s.lock.turn ≢ me
      → Turns n s.lock.turn l.ticket (update (tickets s) i (some me))
      → Inv n (record { lock = l; pc = update s.pc i (sleeping me) })
  sleep-Inv l me pos_i same same_pid nc ne t = record {
    turns = rw same (Turns-congr (λ j. ground arith) t);
    no_zero = ground (arith, no_zero);
    owner = λ j e. ground (arith, owner j);
    held = λ e. ground (arith, held);
    awake = λ j t' e. ground (arith, awake j t');
  }

  wait-Inv :
      (l : Lock) (me : ℕ)
      → 0 < i
      → l.turn ≡ s.lock.turn
      → l.pid ≡ s.lock.pid
      → s.pc i ≢ critical
      → (s.lock.turn ≡ me → (j : ℕ) → s.pc j ≡ critical → i ≡ j)
      → Turns n s.lock.turn l.ticket (update (tickets s) i (some me))
      → let r = wait_turn l me i in Inv n (record { lock = r.0; pc = update s.pc i (after r.1) })
  unfolding wait_turn
  wait-Inv l me pos_i same same_pid nc alone t = elim (Bool-cases (l.turn == me)) [
    | inl e ↦
        let now : s.lock.turn ≡ me = ground arith in
        rw e (
          enter-Inv l pos_i same (alone now)
            (subst (λ k. Turns n s.lock.turn l.ticket (update (tickets s) i (some k))) (sym now) t))
    | inr e ↦ rw e (sleep-Inv l me pos_i same same_pid nc (ground arith) t)
  ]

  retry-Inv :
      (me : ℕ)
      → s.pc i ≡ runnable me
      → let r = wait_turn s.lock me i in
        Inv n (record { lock = r.0; pc = update s.pc i (after r.1) })
  retry-Inv me p =
      wait-Inv s.lock me (ground (arith, no_zero)) refl refl (ground arith)
        (λ now j c. turns.unique i j me (ground arith) (ground arith))
        (Turns-congr (λ j. ground arith) turns)

  acquire-Inv :
      0 < i
      → i < n
      → s.pc i ≡ outside
      → let r =
          wait_turn (record s.lock { ticket = (s.lock.ticket + 1) % uint_mod }) s.lock.ticket i in
        Inv n (record { lock = r.0; pc = update s.pc i (after r.1) })
  acquire-Inv pos_i lt p =
      wait-Inv (record s.lock { ticket = (s.lock.ticket + 1) % uint_mod }) s.lock.ticket pos_i refl
        refl (ground arith)
        (λ now j c. absurd (
          ground (
            arith,
            turns.range j s.lock.turn (ground arith),
            turns.handed,
            turns.few,
            turns.turn_fits,
            queued-le n (tickets s),
          )))
        (take-Turns turns i lt (ground arith))

  release-Inv :
      s.pc i ≡ critical
      → Inv n (record {
        lock = record s.lock { pid = 0; turn = (s.lock.turn + 1) % uint_mod };
        pc = λ j. wake true (update s.pc i outside j);
      })
  release-Inv c = record {
    turns =
        Turns-congr (λ j. ground (arith, mutual_exclusion_lem j c))
          (pass-Turns turns i (ground arith));
    no_zero = ground (arith, no_zero);
    owner = λ j e. ground (arith, mutual_exclusion_lem j c);
    held = λ e. absurd (e refl);
    awake = λ j t e. ground arith;
  }

  kicked-Inv :
      (me : ℕ)
      → s.pc i ≡ sleeping me
      → Inv n (record { lock = s.lock; pc = update s.pc i (runnable me) })
  kicked-Inv me p = record {
    turns = Turns-congr (λ j. ground arith) turns;
    no_zero = ground arith;
    owner = λ j e. ground (arith, owner j);
    held = λ e. ground (arith, held e);
    awake = λ j t e. ground (arith, awake j t);
  }

acquire_ok :
    (lk : Lock) (i : ℕ)
    → ticket_holding lk i ≡ false
    → ticket_acquire lk i
      ≡ ok (wait_turn (record lk { ticket = (lk.ticket + 1) % uint_mod }) lk.ticket i)
unfolding ticket_acquire wait_turn
acquire_ok lk i h = rw h

release_ok :
    (lk : Lock) (i : ℕ)
    → ticket_holding lk i ≡ true
    → ticket_release lk i ≡ ok (record lk { pid = 0; turn = (lk.turn + 1) % uint_mod }, true)
unfolding ticket_release
release_ok lk i h = ground arith

Step-Inv : {n : ℕ} {s t : System} → Step n s t → Inv n s → Inv n t
Step-Inv {n} {s} (acquire i pos_i lt o e) v =
    let same = ok-injective (sym (acquire_ok s.lock i (outside-not_holding v i pos_i o)) ∙ e) in
    subst (λ r. Inv n (record { lock = r.0; pc = update s.pc i (after r.1) })) same
      (acquire-Inv v i pos_i lt o)
Step-Inv {n} {s} (retry i me r e) v =
    subst (λ q. Inv n (record { lock = q.0; pc = update s.pc i (after q.1) })) e
      (retry-Inv v i me r)
Step-Inv {n} {s} (release i c e) v =
    let same = ok-injective (sym (release_ok s.lock i (critical-holding v i c)) ∙ e) in
    subst (λ q. Inv n (record { lock = q.0; pc = λ j. wake q.1 (update s.pc i outside j) })) same
      (release-Inv v i c)
Step-Inv (kicked i me z) v = kicked-Inv v i me z

start-Inv : (n : ℕ) → n ≤ 2 ^ 31 → Inv n start
unfolding init_ticket_lock
start-Inv n few = record {
  turns = record {
    few = few;
    turn_fits = omega arith;
    handed = omega (arith, nobody);
    range = λ i t e. cc;
    unique = λ i j t p q. cc;
    covered = λ d h. absurd (omega (arith, nobody));
  };
  no_zero = refl;
  owner = λ i e. cc;
  held = λ e. absurd (e refl);
  awake = λ i t e. cc;
}
  where
    nobody : queued n (tickets start) ≡ 0
    nobody = weigh_nothing weight (tickets start) (λ i. refl) n

pub Reach-Inv : {n : ℕ} {s : System} → n ≤ 2 ^ 31 → Reach n s → Inv n s
Reach-Inv {n} few init = start-Inv n few
Reach-Inv few (next r st) = Step-Inv st (Reach-Inv few r)

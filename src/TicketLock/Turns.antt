-- ===== src/TicketLock/Turns.antt =====
-- The arithmetic of tickets that wrap: the tickets in use are the `k` from `turn` on, each with one
-- process.
use os_lab.Base.{
  ℕ, ◌+◌, ◌-◌, ◌%◌, ◌^◌, ◌≤◌, ◌<◌, ◌≡◌, Option, none, some, arith, dec_lt, update, weigh,
  weigh-update, weigh_light,
}
use os_lab.TicketLock.{uint_mod}

abbrev pub weight : Option ℕ → ℕ
weight none = 0
weight (some t) = 1

-- How many processes hold a ticket.
abbrev pub queued : ℕ → (ℕ → Option ℕ) → ℕ
queued n f = weigh weight n f

-- How many turns pass before that of ticket `t`.
abbrev pub ahead : ℕ → ℕ → ℕ
ahead turn t = (t + uint_mod - turn) % uint_mod

-- `f` gives each process its ticket.
pub record Turns (n turn ticket : ℕ) (f : ℕ → Option ℕ) : Type 0 where
  pub few : n ≤ 2 ^ 31
  pub turn_fits : turn < uint_mod
  pub handed : ticket ≡ (turn + queued n f) % uint_mod
  pub range : (i t : ℕ) → f i ≡ some t → (i < n) × (t < uint_mod) × (ahead turn t < queued n f)
  pub unique : (i j t : ℕ) → f i ≡ some t → f j ≡ some t → i ≡ j
  pub covered : (d : ℕ) → d < queued n f → (i : ℕ) × (f i ≡ some ((turn + d) % uint_mod))

pub queued-le : (n : ℕ) (f : ℕ → Option ℕ) → queued n f ≤ n
queued-le n f = weigh_light weight f (λ p. ground arith) n

module _ {n turn ticket : ℕ} {f : ℕ → Option ℕ} (v : Turns n turn ticket f) (i : ℕ) where
  open v use {few, turn_fits, handed, range, unique, covered}

  -- A process without a ticket takes the next one.
  pub take-Turns :
      i < n → f i ≡ none → Turns n turn ((ticket + 1) % uint_mod) (update f i (some ticket))
  take-Turns lt free = record {
    few = few;
    turn_fits = turn_fits;
    handed = omega (arith, more);
    range = λ j t e. ground (arith, more, range j t, queued-le n f);
    unique = λ a b t p q. ground (arith, range a t, range b t, unique a b t, queued-le n f);
    covered = λ d h. elim (dec_lt d (queued n f)) [
      | yes old ↦ let (j, e) = covered d old in (j, ground arith)
      | no new ↦ (i, ground (arith, more))
    ];
  }
    where
      more : queued n (update f i (some ticket)) ≡ queued n f + 1
      more = ground (arith, weigh-update weight f n i (some ticket) lt)

  -- The process whose turn it is gives its ticket up.
  pub pass-Turns : f i ≡ some turn → Turns n ((turn + 1) % uint_mod) ticket (update f i none)
  pass-Turns mine = record {
    few = few;
    turn_fits = omega arith;
    handed = omega (arith, less);
    range =
        λ j t e. ground (arith, less, range j t, range i turn mine, unique i j t, queued-le n f);
    unique = λ a b t p q. ground (arith, unique a b t);
    covered = λ d h.
        let (j, e) = covered (d + 1) (omega (arith, less)) in
        (j, ground (arith, less, queued-le n f));
  }
    where
      less : queued n (update f i none) + 1 ≡ queued n f
      less = ground (arith, weigh-update weight f n i none (range i turn mine).0)

-- ===== src/Spinlock/Tests.antt =====
-- Two CPUs and a few locks.
use os_lab.Base.{
  times, ℕ, ◌<◌, ◌≡◌, refl, ◌≢◌, ◌↔◌, true, false, none, some, [], ◌∷◌, arith, ok, panic, update,
}
use os_lab.Spinlock.{Cpu, pushcli, popcli, holding, acquire_begin, release_begin, release_end}
use os_lab.Spinlock.System.{
  running, spinning, marking, unmarking, System, begins, spins, marks, start, Reach, init, next,
}
use os_lab.Spinlock.Invariant.{claims}
use os_lab.Spinlock.Safety.{spinlock_exclusion, spinlock_panics}

-- pushcli twice and popcli once leave the interrupts off.
nested :
    popcli (pushcli (pushcli (record { interruptible = true; ncli = 0; intena = false })))
    ≡ ok (record { interruptible = false; ncli = 1; intena = true })
unfolding popcli pushcli
nested = refl

abbrev off : Cpu
off = record { interruptible = false; ncli = 1; intena = false }

begun : acquire_begin (start.locks 5) 0 (start.cpus 0) ≡ ok off
unfolding acquire_begin holding popcli pushcli
begun = refl

-- CPU 0 has taken the lock 5.
abbrev taken : System
taken = record {
  cpus = update start.cpus 0 off;
  locks =
      update (update start.locks 5 (record { locked = 1; cpu = none })) 5
        (record { locked = 1; cpu = some 0 });
  cores =
      update
        (update
          (update start.cores 0
            (record { pc = spinning 5; held = []; pushed = 0; enabled = false }))
          0 (record { pc = marking 5; held = []; pushed = 0; enabled = false }))
        0 (record { pc = running; held = 5 ∷ []; pushed = 0; enabled = false });
}

taken-Reach : Reach 2 taken
taken-Reach =
    next (next (next init (begins 0 5 (omega arith) refl begun)) (spins 0 5 (omega arith) refl))
      (marks 0 5 (omega arith) refl)

claimed_once : 0 < claims 5 (taken.cores 0)
unfolding times
claimed_once = omega arith

spinlock_exclusion_example : (◌≡◌ {A = ℕ} 0 0) × ((taken.locks 5).locked ≡ 1)
spinlock_exclusion_example =
    spinlock_exclusion 2 taken-Reach 5 0 0 (omega arith) (omega arith) claimed_once claimed_once

spinlock_panics_example :
    ((acquire_begin (taken.locks 5) 0 (taken.cpus 0) ≡ panic) ↔ (0 < times 5 (taken.cores 0).held))
    × ((release_begin (taken.locks 5) 0 (taken.cpus 0) ≡ panic)
        ↔ (times 5 (taken.cores 0).held ≡ 0))
    × ((taken.cores 0).pc ≡ unmarking 5 → release_end (taken.locks 5) (taken.cpus 0) ≢ panic)
    × (0 < (taken.cores 0).pushed → popcli (taken.cpus 0) ≢ panic)
spinlock_panics_example = spinlock_panics 2 taken-Reach 0 5 (omega arith)

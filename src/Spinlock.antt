-- ===== src/Spinlock.antt =====
-- spinlock.c: spinlocks, and the nesting of disabled interrupts.
-- A CPU is its index in `cpus`. acquire and release are cut where another CPU can see the lock
-- change; what a CPU does with its own state goes with the stretch around it. The name and the call
-- stack of a lock are left out.
pub mod System
pub mod Invariant
pub mod Claims
pub mod Masks
pub mod Safety
mod Tests
use os_lab.Base.{
  ℕ, ◌+◌, ◌-◌, Bool, false, not, ◌&&◌, ◌||◌, Option, none, some, ◌==◌, if◌then◌else◌, Outcome, ok,
  panic, ◌>>=◌,
}

-- Of struct cpu, and FL_IF of its flags.
pub record Cpu : Type 0 where
  pub interruptible : Bool
  pub ncli : ℕ
  pub intena : Bool

pub record Spinlock : Type 0 where
  pub locked : ℕ
  pub cpu : Option ℕ

abbrev pub initlock : Spinlock
initlock = record { locked = 0; cpu = none }

unfoldable pub pushcli : Cpu → Cpu
pushcli c = record {
  interruptible = false;
  ncli = c.ncli + 1;
  intena = if c.ncli == 0 then c.interruptible else c.intena;
}

unfoldable pub popcli : Cpu → Outcome Cpu
popcli c =
    let left = c.ncli - 1 in
    if c.interruptible || (c.ncli == 0)
    then panic
    else ok (record c { interruptible = (left == 0) && c.intena; ncli = left })

abbrev pub is_cpu : Option ℕ → ℕ → Bool
is_cpu none self = false
is_cpu (some i) self = i == self

-- `lock->locked && lock->cpu == mycpu()`
abbrev pub is_held : Spinlock → ℕ → Bool
is_held lk self = not (lk.locked == 0) && is_cpu lk.cpu self

unfoldable pub holding : Spinlock → ℕ → Cpu → Outcome (Cpu × Bool)
unfolding pushcli popcli
holding lk self c = popcli (pushcli c) >>= (λ new. ok (new, is_held lk self))

-- acquire up to the loop.
unfoldable pub acquire_begin : Spinlock → ℕ → Cpu → Outcome Cpu
unfolding holding
acquire_begin lk self c =
    holding lk self (pushcli c) >>= (λ (new, held). if held then panic else ok new)

-- `xchg(&lk->locked, 1)`
abbrev pub swap_in : Spinlock → ℕ × Spinlock
swap_in lk = (lk.locked, record lk { locked = 1 })

-- The end of acquire.
abbrev pub mark : Spinlock → ℕ → Spinlock
mark lk self = record lk { cpu = some self }

-- release up to where the lock is free for others.
unfoldable pub release_begin : Spinlock → ℕ → Cpu → Outcome (Cpu × Spinlock)
unfolding holding
release_begin lk self c =
    holding lk self c
    >>= (λ (new, held). if held then ok (new, record lk { cpu = none }) else panic)

unfoldable pub release_end : Spinlock → Cpu → Outcome (Cpu × Spinlock)
unfolding popcli
release_end lk c = popcli c >>= (λ new. ok (new, record lk { locked = 0 }))

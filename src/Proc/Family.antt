-- ===== src/Proc/Family.antt =====
-- Parents and children: who waits for whom.
use os_lab.Base.{ℕ, ◌<◌, ◌≡◌, ◌≢◌, true, none, some, arith, ℕ_discrete, if◌then◌else◌, update}
use os_lab.Proc.{
  is_sleeping, Proc, nproc, unused, sleeping, runnable, zombie, Chan, proc_chan, wakeup1,
}
use os_lab.Proc.Steps.{initproc}

-- An entry that may reap children: in use, and not a zombie itself.
abbrev pub Alive : Proc → Type 0
Alive p = (p.state ≢ unused) × (p.state ≢ zombie)

-- `j` is the parent of `i` and can reap it.
abbrev pub IsParent : (ℕ → Proc) → ℕ → ℕ → Type 0
IsParent procs i j = ((procs i).parent ≡ some j) × (j < nproc) × Alive (procs j) × (j ≢ i)

pub record Inv (procs : ℕ → Proc) : Type 0 where
  pub init_alive : Alive (procs initproc)
  pub parents :
      (i : ℕ) → i < nproc → (procs i).state ≢ unused → i ≢ initproc → (j : ℕ) × IsParent procs i j
  pub free : (i : ℕ) → i < nproc → (procs i).state ≡ unused → (procs i).parent ≡ none
  pub own_chan : (i k : ℕ) → (procs i).state ≡ sleeping → (procs i).chan ≡ proc_chan k → k ≡ i
  pub told :
      (i j : ℕ)
      → j < nproc
      → (procs i).state ≡ sleeping
      → (procs i).chan ≡ proc_chan i
      → (procs j).parent ≡ some i
      → (procs j).state ≢ zombie

module _ {procs : ℕ → Proc} (v : Inv procs) where
  -- Another value for entry `i` that keeps its parent and leaves it alive; if it sleeps as in wait,
  -- then on its own entry and with no zombie child.
  pub change-Inv :
      (i : ℕ) (p : Proc)
      → p.parent ≡ (procs i).parent
      → Alive (procs i)
      → Alive p
      → ((k : ℕ) → p.state ≡ sleeping → p.chan ≡ proc_chan k → k ≡ i)
      → ((j : ℕ)
          → p.state ≡ sleeping
          → p.chan ≡ proc_chan i
          → j < nproc
          → (procs j).parent ≡ some i
          → (procs j).state ≢ zombie)
      → Inv (update procs i p)
  change-Inv i p same was is own quiet = record {
    init_alive = ground (arith, v.init_alive);
    parents = λ k l u n. let (j, e) = v.parents k l (ground arith) n in (j, ground arith);
    free = λ k l u. ground (arith, v.free k l);
    own_chan = λ k c s e. ground (arith, v.own_chan k c, own c);
    told = λ k j l s e q. ground (arith, v.told k j, quiet j);
  }

  -- A free entry stays free.
  pub free-Inv :
      (i : ℕ) (p : Proc)
      → p.parent ≡ (procs i).parent
      → (procs i).state ≡ unused
      → p.state ≡ unused
      → Inv (update procs i p)
  free-Inv i p same was is = record {
    init_alive = ground (arith, v.init_alive);
    parents = λ k l u n. let (j, e) = v.parents k l (ground arith) n in (j, ground arith);
    free = λ k l u. ground (arith, v.free k l);
    own_chan = λ k c s e. ground (arith, v.own_chan k c);
    told = λ k j l s e q. ground (arith, v.told k j);
  }

  -- A free entry becomes a runnable child.
  pub child-Inv :
      (i cur : ℕ) (p : Proc)
      → (procs i).state ≡ unused
      → cur < nproc
      → Alive (procs cur)
      → p.parent ≡ some cur
      → p.state ≡ runnable
      → Inv (update procs i p)
  child-Inv i cur p was lt alive mine is = record {
    init_alive = ground (arith, v.init_alive);
    parents = λ k l u n. elim (ℕ_discrete i k) [
      | yes e ↦ (cur, ground arith)
      | no ne ↦ let (j, e) = v.parents k l (ground arith) n in (j, ground arith)
    ];
    free = λ k l u. ground (arith, v.free k l);
    own_chan = λ k c s e. ground (arith, v.own_chan k c);
    told = λ k j l s e q. ground (arith, v.told k j);
  }

  -- A zombie's entry is freed.
  pub reap-Inv :
      (i : ℕ) (p : Proc)
      → (procs i).state ≡ zombie
      → p.parent ≡ none
      → p.state ≡ unused
      → Inv (update procs i p)
  reap-Inv i p was orphan is = record {
    init_alive = ground (arith, v.init_alive);
    parents = λ k l u n. let (j, e) = v.parents k l (ground arith) n in (j, ground arith);
    free = λ k l u. ground (arith, v.free k l);
    own_chan = λ k c s e. ground (arith, v.own_chan k c);
    told = λ k j l s e q. ground (arith, v.told k j);
  }

  pub wakeup-Inv : (c : Chan) → Inv (wakeup1 c procs)
  unfolding wakeup1
  wakeup-Inv c = record {
    init_alive = ground (arith, v.init_alive);
    parents = λ k l u n. let (j, e) = v.parents k l (ground arith) n in (j, ground arith);
    free = λ k l u. ground (arith, v.free k l);
    own_chan = λ k d s e. ground (arith, v.own_chan k d);
    told = λ k j l s e q. ground (arith, v.told k j);
  }

  -- A process is killed, and woken if it sleeps.
  pub strike-Inv :
      (i : ℕ)
      → Inv (
          update procs i (record (procs i) {
            killed = true;
            state = if is_sleeping (procs i).state then runnable else (procs i).state;
          }))
  strike-Inv i = record {
    init_alive = ground (arith, v.init_alive);
    parents = λ k l u n. let (j, e) = v.parents k l (ground arith) n in (j, ground arith);
    free = λ k l u. ground (arith, v.free k l);
    own_chan = λ k c s e. ground (arith, v.own_chan k c);
    told = λ k j l s e q. ground (arith, v.told k j);
  }

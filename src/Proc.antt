-- ===== src/Proc.antt =====
-- proc.c: the process table.
-- An entry is its index, and so is a pointer to it. Each function here runs under `ptable.lock`.
-- Memory (page tables, trap frames), open files and the recorded system calls of a process are
-- left out; what `kalloc` and `copyuvm` answer is an argument.
pub mod Search
pub mod Exit
pub mod Steps
pub mod Family
pub mod Leave
pub mod Reaper
pub mod Outcomes
pub mod Pids
mod Tests
use os_lab.Base.{
  ℕ, zero, suc, ◌+◌, ◌%◌, ◌^◌, Bool, true, false, not, ◌&&◌, ◌||◌, Option, none, some, ◌==◌,
  if◌then◌else◌, Outcome, ok, panic, update,
}

abbrev pub nproc : ℕ
nproc = 64

pub data Procstate : Type 0 where
  unused embryo sleeping runnable running zombie : Procstate

-- What a process may sleep on: another entry's address, or any other.
pub data Chan : Type 0 where
  no_chan : Chan
  proc_chan : ℕ → Chan
  other_chan : ℕ → Chan

abbrev pub chan_eq : Chan → Chan → Bool
chan_eq no_chan no_chan = true
chan_eq (proc_chan a) (proc_chan b) = a == b
chan_eq (other_chan a) (other_chan b) = a == b
chan_eq _ _ = false

pub record Proc : Type 0 where
  pub state : Procstate
  pub pid : ℕ
  pub parent : Option ℕ
  pub chan : Chan
  pub killed : Bool
  pub kstack : ℕ

-- Pids are ints, given by their bit patterns.
pub record Table : Type 0 where
  pub procs : ℕ → Proc
  pub nextpid : ℕ

abbrev pub is_unused : Procstate → Bool
is_unused unused = true
is_unused _ = false

abbrev pub is_zombie : Procstate → Bool
is_zombie zombie = true
is_zombie _ = false

abbrev pub is_sleeping : Procstate → Bool
is_sleeping sleeping = true
is_sleeping _ = false

abbrev pub is_child : ℕ → Option ℕ → Bool
is_child cur none = false
is_child cur (some j) = j == cur

-- A loop over the table that stops at the first entry with the property.
unfoldable pub find : (ℕ → Bool) → ℕ → ℕ → Option ℕ
find test i zero = none
find test i (suc left) = let rest = find test (i + 1) left in if test i then some i else rest

-- `++` on an int, by its bit pattern.
abbrev pub next_int : ℕ → ℕ
next_int n = (n + 1) % 2 ^ 32

-- The table, and the entry that is taken, if any. `kstack` is what `kalloc` returns.
unfoldable pub allocproc : Table → ℕ → Table × Option ℕ
unfolding find
allocproc t kstack = elim (find (λ i. is_unused (t.procs i).state) 0 nproc) [
  | none ↦ (t, none)
  | some i ↦
      let p = record (t.procs i) { state = embryo; pid = t.nextpid; kstack = kstack } in
      if kstack == 0
      then (
        record {
          procs = update t.procs i (record p { state = unused });
          nextpid = next_int t.nextpid;
        },
        none,
      )
      else (record { procs = update t.procs i p; nextpid = next_int t.nextpid }, some i)
]

-- What `fork` does with the answer of `allocproc`. `copied` says whether `copyuvm` gets its memory.
unfoldable pub fork_from : ℕ → Bool → Table × Option ℕ → Table × Option ℕ
fork_from cur copied (t, none) = (t, none)
fork_from cur copied (t, some i) =
    let p = t.procs i in
    if copied
    then (
      record t { procs = update t.procs i (record p { parent = some cur; state = runnable }) },
      some p.pid,
    )
    else (record t { procs = update t.procs i (record p { kstack = 0; state = unused }) }, none)

-- The child's pid, or `none` for -1.
unfoldable pub fork : Table → ℕ → ℕ → Bool → Table × Option ℕ
unfolding allocproc fork_from
fork t cur kstack copied = fork_from cur copied (allocproc t kstack)

abbrev pub woken : Chan → Proc → Proc
woken c p = if is_sleeping p.state && chan_eq p.chan c then record p { state = runnable } else p

-- The loop changes each entry by itself.
unfoldable pub wakeup1 : Chan → (ℕ → Proc) → ℕ → Proc
wakeup1 c procs i = woken c (procs i)

-- The loop of `exit` over the entries from `i` on.
unfoldable pub pass_children : ℕ → ℕ → ℕ → ℕ → (ℕ → Proc) → ℕ → Proc
unfolding wakeup1
pass_children init cur i zero procs = procs
pass_children init cur i (suc left) procs =
    let passed = update procs i (record (procs i) { parent = some init }) in
    pass_children init cur (i + 1) left (
      if is_child cur (procs i).parent
      then (if is_zombie (procs i).state then wakeup1 (proc_chan init) passed else passed)
      else procs)

-- `wakeup1(curproc->parent)`: the pointer of a process with no parent is 0.
abbrev pub parent_chan : Option ℕ → Chan
parent_chan none = no_chan
parent_chan (some j) = proc_chan j

unfoldable pub exit : Table → ℕ → ℕ → Outcome Table
unfolding pass_children
exit t init cur =
    if cur == init
    then panic
    else (let told = wakeup1 (parent_chan (t.procs cur).parent) t.procs in
        let passed = pass_children init cur 0 nproc told in
        ok (record t { procs = update passed cur (record (passed cur) { state = zombie }) }))

-- One scan of the loop of `wait`: the first zombie child, or whether there is any child.
pub data Scan : Type 0 where
  found : ℕ → Scan
  scanned : Bool → Scan

unfoldable pub scan : ℕ → (ℕ → Proc) → ℕ → ℕ → Bool → Scan
scan cur procs i zero havekids = scanned havekids
scan cur procs i (suc left) havekids =
    let child = is_child cur (procs i).parent in
    let rest = scan cur procs (i + 1) left (havekids || child) in
    if child && is_zombie (procs i).state then found i else rest

-- How a pass of `wait` ends: with a pid, with -1, or asleep.
pub data WaitEnd : Type 0 where
  reaped : ℕ → WaitEnd
  no_children : WaitEnd
  wait_asleep : WaitEnd

unfoldable pub sleep_on : Table → ℕ → Chan → Table
sleep_on t cur c = record t {
  procs = update t.procs cur (record (t.procs cur) { chan = c; state = sleeping });
}

unfoldable pub wait : Table → ℕ → Table × WaitEnd
unfolding scan sleep_on
wait t cur = elim (scan cur t.procs 0 nproc false) [
  | found i ↦ (
    record t {
      procs = update t.procs i (record (t.procs i) {
        kstack = 0;
        pid = 0;
        parent = none;
        killed = false;
        state = unused;
      });
    },
    reaped (t.procs i).pid,
  )
  | scanned havekids ↦
      (if not havekids || (t.procs cur).killed
        then (t, no_children)
        else (sleep_on t cur (proc_chan cur), wait_asleep))
]

-- 0 and the table, or -1.
unfoldable pub kill : Table → ℕ → Option Table
unfolding find
kill t pid = elim (find (λ i. (t.procs i).pid == pid) 0 nproc) [
  | none ↦ none
  | some i ↦
      let p = t.procs i in
      some (record t {
        procs =
            update t.procs i (record p {
              killed = true;
              state = if is_sleeping p.state then runnable else p.state;
            });
      })
]

-- What the scheduler does to the entry that it chooses, and `yield` to its own.
unfoldable pub set_state : Table → ℕ → Procstate → Table
set_state t i st = record t { procs = update t.procs i (record (t.procs i) { state = st }) }

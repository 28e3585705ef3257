-- ===== src/Proc/Tests.antt =====
-- proc.c at concrete tables.
use os_lab.Base.{ℕ, ◌+◌, ◌^◌, ◌<◌, ◌≡◌, refl, ◌≢◌, true, some, arith, Outcome, ok, panic}
use os_lab.Proc.{
  Table, nproc, sleeping, runnable, running, zombie, proc_chan, fork, fork_from, exit, wait, kill,
  set_state, wakeup1, allocproc, find, scan, pass_children, reaped,
}
use os_lab.Proc.Family.{Alive, IsParent}
use os_lab.Proc.Steps.{initproc, start, forks, exits, scheduled, Reach, init, next}
use os_lab.Proc.Reaper.{zombies_have_reapers}
use os_lab.Proc.Outcomes.{WaitSpec, wait-WaitSpec, kill_zero_poisons}
use os_lab.Proc.Pids.{forks_called, pids_unique}

abbrev init_runs : Table
init_runs = set_state (start 7) 0 running

abbrev born : Table
born = (fork init_runs 0 8 true).0

abbrev child_runs : Table
child_runs = set_state born 1 running

abbrev left : Outcome Table → Table
left panic = child_runs
left (ok u) = u

abbrev died : Table
died = left (exit child_runs 0 1)

child_died : (died.procs 1).state ≡ zombie
unfolding exit pass_children fork fork_from allocproc find set_state wakeup1
child_died = refl

exit_ok : exit child_runs initproc 1 ≡ ok died
unfolding exit
exit_ok = refl

init_reaps : (wait died 0).1 ≡ reaped 2
unfolding wait scan exit pass_children fork fork_from allocproc find set_state wakeup1
init_reaps = refl

reached : Reach 7 died
unfolding fork fork_from allocproc find set_state
reached =
    next
      (next (next (next init (scheduled 0 (omega arith) refl)) (forks 0 8 true (omega arith) refl))
        (scheduled 1 (omega arith) refl))
      (exits 1 (omega arith) refl exit_ok)

zombies_have_reapers_example :
    Alive (died.procs initproc)
    × ((i : ℕ)
        → i < nproc
        → (died.procs i).state ≡ zombie
        → i ≢ initproc
        → (j : ℕ) × IsParent died.procs i j
          × ((died.procs j).state ≡ sleeping → (died.procs j).chan ≢ proc_chan j))
zombies_have_reapers_example = zombies_have_reapers reached

few_forks : forks_called reached + 3 < 2 ^ 31
unfolding forks_called reached
few_forks = omega arith

pids_unique_example :
    ((i j : ℕ) → (died.procs i).pid ≢ 0 → (died.procs i).pid ≡ (died.procs j).pid → i ≡ j)
    × ((i : ℕ) → (died.procs i).pid < died.nextpid)
    × (died.nextpid < 2 ^ 31)
pids_unique_example = pids_unique reached few_forks

wait-WaitSpec_example : WaitSpec died 0 (wait died 0)
wait-WaitSpec_example = wait-WaitSpec died 0

kill_zero_poisons_example :
    (u : Table) × (kill init_runs 0 ≡ some u)
    × (((fork u 0 8 true).0.procs 1).killed ≡ true)
    × (((fork u 0 8 true).0.procs 1).state ≡ runnable)
unfolding find set_state
kill_zero_poisons_example = kill_zero_poisons init_runs 1 0 8 refl refl (omega arith)

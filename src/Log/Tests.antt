-- ===== src/Log/Tests.antt =====
-- log.c at a log at block 2 with two blocks to write.
use os_lab.Base.{
  ℕ, zero, suc, ◌≡◌, refl, sym, ap, fun_ext, ◌⊎◌, inl, inr, false, some, List, [], ◌∷◌, arith,
  ℕ_discrete, ◌==◌, if◌then◌else◌, get_elem?,
}
use os_lab.Log.{Block, Store, commit, recover_from_log, Log, absorb}
use os_lab.Log.Crash.{Home}
use os_lab.Log.Atomic.{IsPending, reboot, crashes, commit_atomic, commit_durable}

-- Every word of an old block is 5; block 40 is to become all 6, block 41 all 7.
abbrev old_disk : ℕ → Block
old_disk b w = if b == 2 then 0 else 5

abbrev changed : ℕ → Block
changed b = if b == 40 then (λ w. 6) else (if b == 41 then (λ w. 7) else old_disk b)

abbrev pending : ℕ → Store
pending power = record { disk = old_disk; cache = changed; power = power }

abbrev two_blocks : List ℕ
two_blocks = 40 ∷ 41 ∷ []

-- Word 3 of blocks 40 and 41, when power fails after `k` writes and a recovery follows.
abbrev survivors : ℕ → List ℕ
survivors k =
    let d = (recover_from_log 2 (reboot (commit 2 two_blocks (pending k)).disk 9)).disk in
    d 40 3 ∷ d 41 3 ∷ []

before_the_header : survivors 2 ≡ 5 ∷ 5 ∷ []
unfolding commit recover_from_log
before_the_header = refl

behind_the_header : survivors 3 ≡ 6 ∷ 7 ∷ []
unfolding commit recover_from_log
behind_the_header = refl

half_installed : survivors 4 ≡ 6 ∷ 7 ∷ []
unfolding commit recover_from_log
half_installed = refl

pending-IsPending : (power : ℕ) → IsPending 2 two_blocks (pending power)
pending-IsPending power = (refl, record { fits = omega arith; homes = homes; only = only })
  where
    homes : (i b : ℕ) → get_elem? two_blocks i ≡ some b → Home 2 b
    homes zero b e = ground arith
    homes (suc zero) b e = ground arith
    homes (suc (suc i)) b e = cc

    only :
        (b : ℕ)
        → Home 2 b
        → (old_disk b ≡ changed b) ⊎ ((i : ℕ) × (get_elem? two_blocks i ≡ some b))
    only b h = elim (ℕ_discrete b 40) [
      | yes e ↦ inr (0, ap some (sym e))
      | no n ↦ elim (ℕ_discrete b 41) [
        | yes e ↦ inr (1, ap some (sym e))
        | no m ↦ inl (fun_ext λ w. ground arith)
      ]
    ]

commit_atomic_example :
    let crashed = crashes 2 (commit 2 two_blocks (pending 4)).disk (1 ∷ 0 ∷ []) in
    let d = (recover_from_log 2 (reboot crashed 3)).disk in
    ((b : ℕ) → Home 2 b → d b ≡ old_disk b) ⊎ ((b : ℕ) → Home 2 b → d b ≡ changed b)
commit_atomic_example =
    commit_atomic 2 two_blocks (pending 4) (1 ∷ 0 ∷ []) 3 (pending-IsPending 4) (omega arith)

commit_durable_example : crashes 2 (commit 2 two_blocks (pending 6)).disk (1 ∷ []) 41 ≡ changed 41
commit_durable_example =
    commit_durable 2 two_blocks (pending 6) (1 ∷ []) (pending-IsPending 6) (omega arith)
      (omega arith) 41 (omega arith)

absorbed : absorb 8 (7 ∷ 8 ∷ 9 ∷ []) ≡ 7 ∷ 8 ∷ 9 ∷ []
unfolding absorb
absorbed = refl

-- One operation has begun on a log of 31 blocks, and has written one.
abbrev begun : Log
begun = record { size = 31; outstanding = 1; committing = false; lh = [] }

-- ===== src/Log/Atomic.antt =====
-- A crash at any moment leaves the old blocks or the new ones, never a mixture.
use os_lab.Base.{
  ℕ, ◌+◌, ◌-◌, ◌*◌, ◌<◌, ◌≡◌, refl, ◌∙◌, subst, ◌⊎◌, inl, inr, some, List, [], ◌∷◌, arith, ltb,
  ◌==◌, Bool-cases, length, get_elem?, update_self, update,
}
use os_lab.Log.{
  Block, Store, bwrite, modify, store_blocks, load_blocks, write_head, read_head, install_from,
  install_trans, write_log_from, write_log, commit, recover_from_log,
}
use os_lab.Log.Crash.{
  Home, Before, Committed, After, IsTransaction, Logging, Installing, Suffix-self, get_elem?-length,
}
use os_lab.Log.Steps.{log_all, commit_step, install_all}

-- A restart: the cache is lost, and power lasts for `power` writes.
abbrev pub reboot : (ℕ → Block) → ℕ → Store
reboot d power = record { disk = d; cache = d; power = power }

-- The disk after recoveries that each stop when their power does.
abbrev pub crashes : ℕ → (ℕ → Block) → List ℕ → ℕ → Block
crashes start d [] = d
crashes start d (k ∷ ks) = crashes start (recover_from_log start (reboot d k)).disk ks

-- Each write uses up power, as long as there is some.
power-write_log :
    (start tail : ℕ) (bs : List ℕ) (s : Store)
    → (write_log_from start tail bs s).power ≡ s.power - length bs
unfolding write_log_from bwrite
power-write_log start tail [] s = omega arith
power-write_log start tail (b ∷ bs) s = ground (
  arith,
  power-write_log start (tail + 1) bs
      (bwrite (start + tail + 1) (modify (start + tail + 1) (s.cache b) s)),
)

power-install :
    (start tail : ℕ) (bs : List ℕ) (s : Store)
    → (install_from start tail bs s).power ≡ s.power - length bs
unfolding install_from bwrite
power-install start tail [] s = omega arith
power-install start tail (b ∷ bs) s =
    ground (
      arith,
      power-install start (tail + 1) bs (bwrite b (modify b (s.cache (start + tail + 1)) s)),
    )

power-write_head :
    (start : ℕ) (bs : List ℕ) (s : Store) → (write_head start bs s).power ≡ s.power - 1
unfolding write_head bwrite
power-write_head start bs s = ground arith

module _ {start : ℕ} {bs : List ℕ} {old new : ℕ → Block} (t : IsTransaction start bs old new) where
  abbrev Phase : (ℕ → Block) → Type 0
  Phase d = Before start bs old new d ⊎ (Committed start bs old new d ⊎ After start bs old new d)

  abbrev Settled : (ℕ → Block) → Type 0
  Settled d = Before start bs old new d ⊎ After start bs old new d

  finish_off :
      (d : ℕ → Block) (p : ℕ)
      → (Before start bs old new d × (p ≡ 0)) ⊎ Committed start bs old new d
      → Phase d
  finish_off d p (inl (b, z)) = inl b
  finish_off d p (inr c) = inr (inl c)

  finish_on :
      (s : Store) (head : Block)
      → 0 < s.power
      → head 0 ≡ 0
      → Installing start bs old new (length bs) s
      → After start bs old new (update s.disk start head)
  finish_on s head p z v = record {
    empty = rw (update_self s.disk start head) z;
    installed = λ b h. home b h v.phase;
  }
    where
      each :
          (b : ℕ)
          → Home start b
          → (s.disk b ≡ new b) ⊎ ((i : ℕ) × (get_elem? bs i ≡ some b))
          → update s.disk start head b ≡ new b
      each b h (inl e) = ground arith
      each b h (inr (i, e)) = ground (arith, v.done i b p (get_elem?-length bs i e) e)

      home :
          (b : ℕ)
          → Home start b
          → (Before start bs old new s.disk × (s.power ≡ 0)) ⊎ Committed start bs old new s.disk
          → update s.disk start head b ≡ new b
      home b h (inl (w, q)) = absurd (omega arith)
      home b h (inr c) = each b h (c.rest b h)

  -- Behind the last block the header is emptied.
  finish :
      (s : Store)
      → Installing start bs old new (length bs) s
      → Phase (write_head start [] s).disk
        × (0 < s.power → After start bs old new (write_head start [] s).disk)
  unfolding write_head bwrite
  finish s v =
      let head = store_blocks 0 [] (update (s.cache start) 0 0) in
      elim (Bool-cases (s.power == 0)) [
        | inl e ↦ rw e (finish_off s.disk s.power v.phase, λ p. absurd (ground arith))
        | inr e ↦
            let w = finish_on s head (ground arith) (update_self (s.cache start) 0 0) v in
            rw (e, update_self s.cache start head) (inr (inr w), λ p. w)
      ]

  -- A header that is empty stays so, and no home block changes.
  clear_kept :
      (s : Store)
      → s.disk start 0 ≡ 0
      → ((write_head start [] s).disk start 0 ≡ 0)
        × ((b : ℕ) → Home start b → (write_head start [] s).disk b ≡ s.disk b)
  unfolding write_head bwrite store_blocks
  clear_kept s e = (ground arith, λ b h. ground arith)

  recover_empty :
      (d : ℕ → Block) (k : ℕ)
      → d start 0 ≡ 0
      → recover_from_log start (reboot d k) ≡ write_head start [] (reboot d k)
  unfolding recover_from_log install_trans install_from read_head load_blocks
  recover_empty d k e = rw e

  recover_Before :
      (d : ℕ → Block) (k : ℕ)
      → Before start bs old new d
      → Before start bs old new (recover_from_log start (reboot d k)).disk
  recover_Before d k v =
      let kept = clear_kept (reboot d k) v.empty in
      rw (recover_empty d k v.empty)
        (record { empty = kept.0; kept = λ b h. kept.1 b h ∙ v.kept b h })

  recover_After :
      (d : ℕ → Block) (k : ℕ)
      → After start bs old new d
      → After start bs old new (recover_from_log start (reboot d k)).disk
  recover_After d k v =
      let kept = clear_kept (reboot d k) v.empty in
      rw (recover_empty d k v.empty)
        (record { empty = kept.0; installed = λ b h. kept.1 b h ∙ v.installed b h })

  read-Committed :
      (d : ℕ → Block) (k : ℕ) → Committed start bs old new d → read_head start (reboot d k) ≡ bs
  unfolding read_head
  read-Committed d k v = rw v.counted v.named

  recover_Committed :
      (d : ℕ → Block) (k : ℕ)
      → Committed start bs old new d
      → Phase (recover_from_log start (reboot d k)).disk
        × (length bs < k → After start bs old new (recover_from_log start (reboot d k)).disk)
  unfolding recover_from_log install_trans
  recover_Committed d k v =
      let all = install_all t 0 bs (reboot d k) (Suffix-self bs) begun in
      let whole = finish (install_from start 0 bs (reboot d k)) (
        subst (λ n. Installing start bs old new n (install_from start 0 bs (reboot d k)))
          (let e : 0 + length bs ≡ length bs = omega arith in e) all) in
      rw (read-Committed d k v)
        (whole.0, λ p. whole.1 (omega (arith, power-install start 0 bs (reboot d k))))
    where
      begun : Installing start bs old new 0 (reboot d k)
      begun = record { phase = inr v; copies = v.logged; done = λ i b p l e. absurd (omega arith) }

  recover_Phase :
      (d : ℕ → Block) (k : ℕ) → Phase d → Phase (recover_from_log start (reboot d k)).disk
  recover_Phase d k (inl b) = inl (recover_Before d k b)
  recover_Phase d k (inr (inl c)) = (recover_Committed d k c).0
  recover_Phase d k (inr (inr a)) = inr (inr (recover_After d k a))

  recover_Settled :
      (d : ℕ → Block) (k : ℕ)
      → length bs < k
      → Phase d
      → Settled (recover_from_log start (reboot d k)).disk
  recover_Settled d k p (inl b) = inl (recover_Before d k b)
  recover_Settled d k p (inr (inl c)) = inr ((recover_Committed d k c).1 p)
  recover_Settled d k p (inr (inr a)) = inr (recover_After d k a)

  crashes-Phase : (d : ℕ → Block) (ks : List ℕ) → Phase d → Phase (crashes start d ks)
  crashes-Phase d [] v = v
  crashes-Phase d (k ∷ ks) v =
      crashes-Phase (recover_from_log start (reboot d k)).disk ks (recover_Phase d k v)

-- The disk and the cache before a commit.
module _ (start : ℕ) (bs : List ℕ) (s : Store) where
  abbrev pub IsPending : Type 0
  IsPending = (s.disk start 0 ≡ 0) × IsTransaction start bs s.disk s.cache

  start-Logging : s.disk start 0 ≡ 0 → Logging start bs s.disk s.cache 0 s
  start-Logging e = record {
    before = record { empty = e; kept = λ b h. refl };
    current = λ b h. refl;
    copies = λ i b l q. absurd (omega arith);
    slots = λ i b p l q. absurd (omega arith);
  }

  abbrev logged : Store
  logged = write_log_from start 0 bs s

  abbrev installed : Store
  installed = install_from start 0 bs (write_head start bs logged)

  commit_stages : IsPending → Installing start bs s.disk s.cache (length bs) installed
  commit_stages (e, t) =
      let n : 0 + length bs ≡ length bs = omega arith in
      let l = log_all t 0 bs s (Suffix-self bs) (start-Logging e) in
      let c = commit_step t logged (subst (λ k. Logging start bs s.disk s.cache k logged) n l) in
      subst (λ k. Installing start bs s.disk s.cache k installed) n
        (install_all t 0 bs (write_head start bs logged) (Suffix-self bs) c)

  commit-Phase :
      (v : IsPending)
      → Phase v.1 (commit start bs s).disk
        × (2 * length bs + 1 < s.power
            → 0 < length bs
            → After start bs s.disk s.cache (commit start bs s).disk)
  unfolding commit write_log install_trans
  commit-Phase v = elim (Bool-cases (ltb 0 (length bs))) [
    | inl some_blocks ↦
        let f = finish v.1 installed (commit_stages v) in
        rw some_blocks (
          f.0,
          λ p q. f.1 (
              omega (
                arith,
                power-install start 0 bs (write_head start bs logged),
                power-write_head start bs logged,
                power-write_log start 0 bs s,
              )),
        )
    | inr no_blocks ↦
        rw no_blocks
          (inl (record { empty = v.0; kept = λ b h. refl }), λ p q. absurd (ground arith))
  ]

-- Let the header on the disk be empty and the cache differ from the disk, outside the log, in the
-- blocks of the header only, which are at most LOGSIZE and lie outside the log. Then wherever power
-- fails in commit, and in however many recoveries after that, a recovery with power for its writes
-- leaves either every block outside the log as it was on the disk or every such block as it was in
-- the cache.
pub commit_atomic :
    (start : ℕ) (bs : List ℕ) (s : Store) (failures : List ℕ) (power : ℕ)
    → IsPending start bs s
    → length bs < power
    → let crashed = crashes start (commit start bs s).disk failures in
      let d = (recover_from_log start (reboot crashed power)).disk in
      ((b : ℕ) → Home start b → d b ≡ s.disk b) ⊎ ((b : ℕ) → Home start b → d b ≡ s.cache b)
commit_atomic start bs s failures power v p = conclude (
    recover_Settled v.1 (crashes start (commit start bs s).disk failures) power p
      (crashes-Phase v.1 (commit start bs s).disk failures (commit-Phase start bs s v).0))
  where
    conclude :
        {d : ℕ → Block}
        → Settled v.1 d
        → ((b : ℕ) → Home start b → d b ≡ s.disk b) ⊎ ((b : ℕ) → Home start b → d b ≡ s.cache b)
    conclude (inl w) = inl w.kept
    conclude (inr w) = inr w.installed

-- Where, on the same terms, power lasts for the writes of commit, and the header names a block, the
-- new contents are on the disk when commit returns, and stay there through any crashes that follow.
pub commit_durable :
    (start : ℕ) (bs : List ℕ) (s : Store) (failures : List ℕ)
    → IsPending start bs s
    → 2 * length bs + 1 < s.power
    → 0 < length bs
    → (b : ℕ) → Home start b
    → crashes start (commit start bs s).disk failures b ≡ s.cache b
commit_durable start bs s failures v p q =
    (stays (commit start bs s).disk failures ((commit-Phase start bs s v).1 p q)).installed
  where
    stays :
        (d : ℕ → Block) (ks : List ℕ)
        → After start bs s.disk s.cache d
        → After start bs s.disk s.cache (crashes start d ks)
    stays d [] w = w
    stays d (k ∷ ks) w =
        stays (recover_from_log start (reboot d k)).disk ks (recover_After v.1 d k w)

-- ===== src/Log/Steps.antt =====
-- Each write of a commit and of a recovery keeps what Log/Crash.antt states of its stage.
use os_lab.Base.{
  ℕ, ◌+◌, ◌-◌, ◌<◌, ◌≡◌, sym, ap, ◌∙◌, subst, ◌⊎◌, inl, inr, some, List, [], ◌∷◌, arith, ◌==◌,
  ==→eq, Bool-cases, length, get_elem?, update_self, update_ne, update,
}
use os_lab.Log.{
  Block, Store, bwrite, modify, store_blocks, load_blocks, write_head, install_from, write_log_from,
  logsize,
}
use os_lab.Log.Crash.{
  store_blocks-before, load-store, Home, Before, Committed, IsTransaction, Logging, Installing,
  Suffix, Suffix-head, Suffix-tail, get_elem?-length,
}

module _ {start : ℕ} {bs : List ℕ} {old new : ℕ → Block} (t : IsTransaction start bs old new) where
  log_step :
      (tail b : ℕ) (s : Store)
      → get_elem? bs tail ≡ some b
      → Logging start bs old new tail s
      → Logging start bs old new
          (tail + 1)
          (bwrite (start + tail + 1) (modify (start + tail + 1) (s.cache b) s))
  unfolding bwrite
  log_step tail b s e v = record {
    before = record {
      empty = ground (arith, v.before.empty);
      kept = λ c h. ground (arith, v.before.kept c h, lt);
    };
    current = λ c h. ground (arith, v.current c h, lt);
    copies = λ i c l q. ground (arith, v.copies i c, v.current b (t.homes tail b e), same i c q);
    slots = λ i c p l q. ground (arith, v.slots i c, v.current b (t.homes tail b e), same i c q);
  }
    where
      lt : tail < logsize
      lt = omega (arith, get_elem?-length bs tail e, t.fits)

      same : (i c : ℕ) → get_elem? bs i ≡ some c → i ≡ tail → b ≡ c
      same i c q p = some-injective' (sym e ∙ ap (get_elem? bs) (sym p) ∙ q)
        where
          some-injective' : some b ≡ some c → b ≡ c
          some-injective' z = cc

  pub log_all :
      (tail : ℕ) (rest : List ℕ) (s : Store)
      → Suffix bs tail rest
      → Logging start bs old new tail s
      → Logging start bs old new (tail + length rest) (write_log_from start tail rest s)
  unfolding write_log_from
  log_all tail [] s h v = subst (λ k. Logging start bs old new k s) (omega arith) v
  log_all tail (b ∷ rest) s h v =
      subst (λ k. Logging start bs old new k (write_log_from start tail (b ∷ rest) s)) (omega arith)
        (log_all (tail + 1) rest
          (bwrite (start + tail + 1) (modify (start + tail + 1) (s.cache b) s))
          (Suffix-tail bs tail b rest h) (log_step tail b s (Suffix-head bs tail b rest h) v))

  -- The write of the header commits, where there is power for it.
  commit_off :
      (s : Store) (head : Block)
      → s.power ≡ 0
      → Logging start bs old new (length bs) s
      → Installing start bs old new 0 (modify start head s)
  commit_off s head p v = record {
    phase = inl (v.before, p);
    copies = λ i c e. ground (arith, v.copies i c, get_elem?-length bs i e);
    done = λ i c q l e. absurd (omega arith);
  }

  commit_on :
      (s : Store) (head : Block)
      → 0 < s.power
      → head 0 ≡ length bs
      → load_blocks 0 (length bs) head ≡ bs
      → Logging start bs old new (length bs) s
      → Installing start bs old new 0
          (record (modify start head s) { disk = update s.disk start head; power = s.power - 1 })
  commit_on s head p n l v = record {
    phase = inr (record {
      counted = rw (update_self s.disk start head) n;
      named = rw (update_self s.disk start head) l;
      logged = λ i c e. ground (arith, v.slots i c p (get_elem?-length bs i e) e);
      rest = λ c h. later c h (t.only c h);
    });
    copies = λ i c e. ground (arith, v.copies i c, get_elem?-length bs i e);
    done = λ i c q z e. absurd (omega arith);
  }
    where
      later :
          (c : ℕ)
          → Home start c
          → (old c ≡ new c) ⊎ ((i : ℕ) × (get_elem? bs i ≡ some c))
          → (update s.disk start head c ≡ new c) ⊎ ((i : ℕ) × (get_elem? bs i ≡ some c))
      later c h (inl e) = inl (ground (arith, v.before.kept c h))
      later c h (inr w) = inr w

  pub commit_step :
      (s : Store)
      → Logging start bs old new (length bs) s
      → Installing start bs old new 0 (write_head start bs s)
  unfolding write_head bwrite
  commit_step s v =
      let head = store_blocks 0 bs (update (s.cache start) 0 (length bs)) in
      elim (Bool-cases (s.power == 0)) [
        | inl e ↦ rw e (commit_off s head (==→eq s.power 0 e) v)
        | inr e ↦
            rw (e, update_self s.cache start head)
              (commit_on s head (ground arith) (word_zero s)
                (load-store 0 bs (update (s.cache start) 0 (length bs))) v)
      ]
    where
      word_zero :
          (s : Store) → store_blocks 0 bs (update (s.cache start) 0 (length bs)) 0 ≡ length bs
      word_zero s =
          store_blocks-before 0 bs (update (s.cache start) 0 (length bs)) 0 (omega arith)
          ∙ update_self (s.cache start) 0 (length bs)

  -- A block goes home.
  install_off :
      (tail b : ℕ) (s : Store) (content : Block)
      → get_elem? bs tail ≡ some b
      → s.power ≡ 0
      → Installing start bs old new tail s
      → Installing start bs old new (tail + 1) (modify b content s)
  install_off tail b s content e p v = record {
    phase = v.phase;
    copies = λ i c q. ground (arith, v.copies i c q, t.homes tail b e, slot_lt i q);
    done = λ i c q l z. absurd (omega arith);
  }
    where
      slot_lt : (i : ℕ) {c : ℕ} → get_elem? bs i ≡ some c → i < logsize
      slot_lt i q = omega (arith, get_elem?-length bs i q, t.fits)

  installed_Committed :
      (b : ℕ) (d : ℕ → Block)
      → Home start b
      → Committed start bs old new d
      → Committed start bs old new (update d b (new b))
  installed_Committed b d h v = record {
    counted = rw (update_ne d b (new b) start (ground arith)) v.counted;
    named = rw (update_ne d b (new b) start (ground arith)) v.named;
    logged = λ i c e. ground (arith, v.logged i c e, get_elem?-length bs i e, t.fits);
    rest = λ c k. later c (v.rest c k);
  }
    where
      later :
          (c : ℕ)
          → (d c ≡ new c) ⊎ ((i : ℕ) × (get_elem? bs i ≡ some c))
          → (update d b (new b) c ≡ new c) ⊎ ((i : ℕ) × (get_elem? bs i ≡ some c))
      later c (inl e) = inl (ground arith)
      later c (inr w) = inr w

  install_on :
      (tail b : ℕ) (s : Store)
      → get_elem? bs tail ≡ some b
      → 0 < s.power
      → Installing start bs old new tail s
      → Installing start bs old new
          (tail + 1)
          (record (modify b (new b) s) { disk = update s.disk b (new b); power = s.power - 1 })
  install_on tail b s e p v = record {
    phase = phase v.phase;
    copies =
        λ i c q. ground (arith, v.copies i c q, t.homes tail b e, get_elem?-length bs i q, t.fits);
    done = λ i c q l z. ground (arith, v.done i c p, same i c z);
  }
    where
      phase :
          (Before start bs old new s.disk × (s.power ≡ 0)) ⊎ Committed start bs old new s.disk
          → (Before start bs old new (update s.disk b (new b)) × (s.power - 1 ≡ 0))
            ⊎ Committed start bs old new (update s.disk b (new b))
      phase (inl (w, z)) = absurd (omega arith)
      phase (inr c) = inr (installed_Committed b s.disk (t.homes tail b e) c)

      same : (i c : ℕ) → get_elem? bs i ≡ some c → i ≡ tail → b ≡ c
      same i c q w = some_inj (sym e ∙ ap (get_elem? bs) (sym w) ∙ q)
        where
          some_inj : some b ≡ some c → b ≡ c
          some_inj z = cc

  install_step :
      (tail b : ℕ) (s : Store)
      → get_elem? bs tail ≡ some b
      → Installing start bs old new tail s
      → Installing start bs old new (tail + 1) (bwrite b (modify b (s.cache (start + tail + 1)) s))
  unfolding bwrite
  install_step tail b s e v =
      let copy = s.cache (start + tail + 1) in
      elim (Bool-cases (s.power == 0)) [
        | inl z ↦ rw z (install_off tail b s copy e (==→eq s.power 0 z) v)
        | inr z ↦
            rw (z, update_self s.cache b copy, v.copies tail b e)
              (install_on tail b s e (ground arith) v)
      ]

  pub install_all :
      (tail : ℕ) (rest : List ℕ) (s : Store)
      → Suffix bs tail rest
      → Installing start bs old new tail s
      → Installing start bs old new (tail + length rest) (install_from start tail rest s)
  unfolding install_from
  install_all tail [] s h v = subst (λ k. Installing start bs old new k s) (omega arith) v
  install_all tail (b ∷ rest) s h v =
      subst (λ k. Installing start bs old new k (install_from start tail (b ∷ rest) s))
        (omega arith)
        (install_all (tail + 1) rest (bwrite b (modify b (s.cache (start + tail + 1)) s))
          (Suffix-tail bs tail b rest h) (install_step tail b s (Suffix-head bs tail b rest h) v))

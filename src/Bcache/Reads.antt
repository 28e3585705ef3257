-- ===== src/Bcache/Reads.antt =====
-- bread finds the buffer that has the block, or gives it one that no user has.
use os_lab.Base.{
  weigh_one, times, ℕ, ◌+◌, ◌<◌, ◌≡◌, refl, sym, ap, ◌∙◌, subst, ◌≢◌, ◌⊎◌, inl, inr, false, Option,
  none, some, arith, ℕ_discrete, ne→==, Bool-cases, Option-cases, Outcome, ok, panic,
  some-injective, ok-injective, update_self, update_ne, update, weigh, weigh-update,
}
use os_lab.Bcache.{Buf, Bcache, find_block, find_unused, bget, iderw, bread}
use os_lab.Bcache.Users.{Use}
use os_lab.Bcache.Lookup.{find_block-found, find_block-none, find_unused-found}
use os_lab.Bcache.Sound.{has, Fits, Sound, recount}

pub bread-bget :
    (c k : Bcache) (dev blockno i : ℕ)
    → bread c dev blockno ≡ ok (k, i)
    → (m : Bcache) × (bget c dev blockno ≡ ok (m, i)) × ((m ≡ k) ⊎ (iderw m i ≡ k))
unfolding bread
bread-bget c k dev blockno i e = go (bget c dev blockno) refl
  where
    go :
        (p : Outcome (Bcache × ℕ))
        → bget c dev blockno ≡ p
        → (m : Bcache) × (bget c dev blockno ≡ ok (m, i)) × ((m ≡ k) ⊎ (iderw m i ≡ k))
    go panic q = absurd (cc (rw q at e))
    go (ok (m, j)) q =
        let s = ok-injective ((rw q at e)) in
        let same : j ≡ i = ap (λ x. x.1) s in
        (
          m,
          q ∙ ap (λ x. ok (m, x)) same,
          elim (Bool-cases (m.bufs j).valid) [
            | inl y ↦ inl (ap (λ x. x.0) ((rw y at s)))
            | inr y ↦ inr (subst (λ x. iderw m x ≡ k) same (ap (λ x. x.0) ((rw y at s))))
          ],
        )

module _ (n : ℕ) (c : Bcache) (users : ℕ → Option Use) (v : Sound n c users) (d : ℕ)
    (inside : d < n) (unused : users d ≡ none) (dev blockno : ℕ) (some_dev : 0 < dev) where
  hit :
      (i : ℕ)
      → find_block c.bufs dev blockno c.order ≡ some i
      → Sound n
          (record c {
            bufs = update c.bufs i (record (c.bufs i) { refcnt = (c.bufs i).refcnt + 1 });
          })
          (update users d (some (record { buf = i; dev = dev; blockno = blockno })))
  hit i e =
      let (m, b) = find_block-found c.bufs dev blockno c.order i e in
      let new : Buf = record (c.bufs i) { refcnt = (c.bufs i).refcnt + 1 } in
      recount n c (record c { bufs = update c.bufs i new }) users d
        (some (record { buf = i; dev = dev; blockno = blockno })) inside v (λ j. ground arith)
        (λ j. ground arith) (λ j. refl) (λ j. rw unused (ground arith))
        (λ u q. subst (Fits c) (some-injective q) ((ground arith), (ground arith), some_dev, m))

  module _ (i : ℕ) (e : find_block c.bufs dev blockno c.order ≡ none)
      (f : find_unused c.bufs c.order ≡ some i) where
    abbrev fresh : Buf
    fresh = record { dev = dev; blockno = blockno; refcnt = 1; valid = false; dirty = false }

    abbrev user : Use
    user = record { buf = i; dev = dev; blockno = blockno }

    new_at : (j : ℕ) → i ≡ j → update c.bufs i fresh j ≡ fresh
    new_at j a = ap (update c.bufs i fresh) (sym a) ∙ update_self c.bufs i fresh

    old_at : (j : ℕ) → i ≢ j → update c.bufs i fresh j ≡ c.bufs j
    old_at j a = update_ne c.bufs i fresh j a

    refcnt_at :
        (j : ℕ) → (update c.bufs i fresh j).refcnt ≡ weigh (has j) n (update users d (some user))
    refcnt_at j = elim (ℕ_discrete i j) [
      | yes p ↦
          subst
            (λ j. (update c.bufs i fresh j).refcnt ≡ weigh (has j) n (update users d (some user))) p
            (ap (λ b. b.refcnt) (update_self c.bufs i fresh)
              ∙ omega (
                arith,
                weigh-update (has i) users n d (some user) inside,
                v.counted i,
                (find_unused-found c.bufs c.order i f).1,
                none_yet i,
                own,
              ))
      | no p ↦
          ap (λ b. b.refcnt) (update_ne c.bufs i fresh j p)
          ∙ omega (
            arith,
            weigh-update (has j) users n d (some user) inside,
            v.counted j,
            none_yet j,
            other j p,
          )
    ]
      where
        none_yet : (j : ℕ) → has j (users d) ≡ 0
        none_yet j = rw unused refl

        own : has i (some user) ≡ 1
        own = ground arith

        other : (j : ℕ) → i ≢ j → has j (some user) ≡ 0
        other j p = rw (ne→== i j p) refl

    not_cached :
        (j : ℕ) → 0 < times j c.order → (c.bufs j).dev ≡ dev → (c.bufs j).blockno ≡ blockno → j ≡ i
    not_cached j m x y =
        let n = find_block-none c.bufs dev blockno c.order j e m in absurd (ground arith)

    only :
        (j k : ℕ)
        → 0 < times j c.order
        → 0 < times k c.order
        → 0 < (update c.bufs i fresh j).dev
        → (update c.bufs i fresh j).dev ≡ (update c.bufs i fresh k).dev
        → (update c.bufs i fresh j).blockno ≡ (update c.bufs i fresh k).blockno
        → j ≡ k
    only j k m p z x y = elim (ℕ_discrete i j) [
      | yes a ↦ elim (ℕ_discrete i k) [
        | yes b ↦ sym a ∙ b
        | no b ↦
            sym a
            ∙ sym (
                not_cached k p
                  (sym (ap (λ b. b.dev) (old_at k b)) ∙ sym x ∙ ap (λ b. b.dev) (new_at j a))
                  (sym (ap (λ b. b.blockno) (old_at k b))
                    ∙ sym y
                    ∙ ap (λ b. b.blockno) (new_at j a)))
      ]
      | no a ↦ elim (ℕ_discrete i k) [
        | yes b ↦
            not_cached j m (sym (ap (λ b. b.dev) (old_at j a)) ∙ x ∙ ap (λ b. b.dev) (new_at k b))
              (sym (ap (λ b. b.blockno) (old_at j a)) ∙ y ∙ ap (λ b. b.blockno) (new_at k b))
            ∙ b
        | no b ↦
            v.single j k m p (omega (arith, z, ap (λ b. b.dev) (old_at j a)))
              (sym (ap (λ b. b.dev) (old_at j a)) ∙ x ∙ ap (λ b. b.dev) (old_at k b))
              (sym (ap (λ b. b.blockno) (old_at j a)) ∙ y ∙ ap (λ b. b.blockno) (old_at k b))
      ]
    ]

    miss : Sound n (record c { bufs = update c.bufs i fresh }) (update users d (some user))
    miss = record { counted = refcnt_at; right = fits; single = only }
      where
        apart : (e : ℕ) (u : Use) → e < n → users e ≡ some u → i ≢ u.buf
        apart e u h q w =
            let one : has i (users e) ≡ 1 = rw q (ground (arith, w)) in
            let zero_users = (find_unused-found c.bufs c.order i f).1 in
            absurd (omega (arith, weigh_one (has i) users n e h, v.counted i, zero_users, one))

        fits :
            (e : ℕ) (u : Use)
            → e < n
            → update users d (some user) e ≡ some u
            → Fits (record c { bufs = update c.bufs i fresh }) u
        fits e u h q = elim (ℕ_discrete d e) [
          | yes p ↦
              subst (Fits (record c { bufs = update c.bufs i fresh }))
                (some-injective (
                  sym (ap (update users d (some user)) (sym p) ∙ update_self users d (some user))
                  ∙ q))
                (
                  ap (λ b. b.dev) (new_at i refl),
                  ap (λ b. b.blockno) (new_at i refl),
                  some_dev,
                  (find_unused-found c.bufs c.order i f).0,
                )
          | no p ↦
              let old : users e ≡ some u = sym (update_ne users d (some user) e p) ∙ q in
              let (x, y, z, m) = v.right e u h old in
              let b = old_at u.buf (apart e u h old) in
              (ap (λ b. b.dev) b ∙ x, ap (λ b. b.blockno) b ∙ y, z, m)
        ]

  pub bget-Sound :
      (m : Bcache) (i : ℕ)
      → bget c dev blockno ≡ ok (m, i)
      → Sound n m (update users d (some (record { buf = i; dev = dev; blockno = blockno })))
  unfolding bget
  bget-Sound m i q = elim (Option-cases (find_block c.bufs dev blockno c.order)) [
    | inr (j, e) ↦ same (ok-injective ((rw (e, bget) at q))) (hit j e)
    | inl e ↦ elim (Option-cases (find_unused c.bufs c.order)) [
      | inl f ↦ absurd (cc (rw (e, f, bget) at q))
      | inr (j, f) ↦ same (ok-injective ((rw (e, f, bget) at q))) (miss j e f)
    ]
  ]
    where
      same :
          {k : Bcache} {j : ℕ}
          → ◌≡◌ {A = Bcache × ℕ} (k, j) (m, i)
          → Sound n k (update users d (some (record { buf = j; dev = dev; blockno = blockno })))
          → Sound n m (update users d (some (record { buf = i; dev = dev; blockno = blockno })))
      same s =
          subst
            (λ (x : Bcache × ℕ).
              Sound n x.0
                (update users d (some (record { buf = x.1; dev = dev; blockno = blockno }))))
            s

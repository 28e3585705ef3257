-- ===== src/Bcache/Sound.antt =====
-- When the users and the buffers agree.
use os_lab.Base.{
  times, ℕ, ◌+◌, ◌<◌, ◌≡◌, sym, ◌∙◌, Option, none, some, arith, ℕ_discrete, ◌==◌, if◌then◌else◌,
  update_self, update_ne, update, weigh, weigh-update,
}
use os_lab.Bcache.{Buf, Bcache}
use os_lab.Bcache.Users.{Use}

-- Whether a user has the buffer `i`.
abbrev pub has : ℕ → Option Use → ℕ
has i none = 0
has i (some u) = if u.buf == i then 1 else 0

abbrev pub Fits : Bcache → Use → Type 0
Fits c u =
    ((c.bufs u.buf).dev ≡ u.dev)
    × ((c.bufs u.buf).blockno ≡ u.blockno)
    × (0 < u.dev)
    × (0 < times u.buf c.order)

-- `refcnt` counts the users, each user's buffer has the block that it asked for, and no block is in
-- two buffers.
pub record Sound (n : ℕ) (c : Bcache) (users : ℕ → Option Use) : Type 0 where
  pub counted : (i : ℕ) → (c.bufs i).refcnt ≡ weigh (has i) n users
  pub right : (d : ℕ) (u : Use) → d < n → users d ≡ some u → Fits c u
  pub single :
      (i j : ℕ)
      → 0 < times i c.order
      → 0 < times j c.order
      → 0 < (c.bufs i).dev
      → (c.bufs i).dev ≡ (c.bufs j).dev
      → (c.bufs i).blockno ≡ (c.bufs j).blockno
      → i ≡ j

-- One user changes, with the counts, and blocks stay.
pub recount :
    (n : ℕ) (c k : Bcache) (users : ℕ → Option Use) (d : ℕ) (o : Option Use)
    → d < n
    → Sound n c users
    → ((j : ℕ) → (k.bufs j).dev ≡ (c.bufs j).dev)
    → ((j : ℕ) → (k.bufs j).blockno ≡ (c.bufs j).blockno)
    → ((j : ℕ) → times j k.order ≡ times j c.order)
    → ((j : ℕ) → (k.bufs j).refcnt + has j (users d) ≡ (c.bufs j).refcnt + has j o)
    → ((u : Use) → o ≡ some u → Fits c u)
    → Sound n k (update users d o)
recount n c k users d o l v a b t r w = record {
  counted = λ i. omega (arith, weigh-update (has i) users n d o l, v.counted i, r i);
  right = λ e u h q.
      let (x, y, z, m) = old e u h q in (a u.buf ∙ x, b u.buf ∙ y, z, omega (arith, m, t u.buf));
  single = λ i j h m p x y.
      v.single i j (omega (arith, t i)) (omega (arith, t j)) (omega (arith, a i))
        (sym (a i) ∙ x ∙ a j) (sym (b i) ∙ y ∙ b j);
}
  where
    old : (e : ℕ) (u : Use) → e < n → update users d o e ≡ some u → Fits c u
    old e u h q = elim (ℕ_discrete d e) [
      | yes p ↦ w u (sym (update_self users d o) ∙ (rw (← p) at q))
      | no p ↦ v.right e u h (sym (update_ne users d o e p) ∙ q)
    ]

-- Only flags change.
pub reflag :
    (n : ℕ) (c : Bcache) (users : ℕ → Option Use) (i : ℕ) (b : Buf)
    → Sound n c users
    → b.dev ≡ (c.bufs i).dev
    → b.blockno ≡ (c.bufs i).blockno
    → b.refcnt ≡ (c.bufs i).refcnt
    → Sound n (record c { bufs = update c.bufs i b }) users
reflag n c users i b v x y z = record {
  counted = λ j. cnt j ∙ v.counted j;
  right =
      λ d u h q. let (p, r, t, m) = v.right d u h q in (dev_at u.buf ∙ p, block_at u.buf ∙ r, t, m);
  single = λ j k h m p q r.
      v.single j k h m (omega (arith, dev_at j)) (sym (dev_at j) ∙ q ∙ dev_at k)
        (sym (block_at j) ∙ r ∙ block_at k);
}
  where
    cnt : (j : ℕ) → (update c.bufs i b j).refcnt ≡ (c.bufs j).refcnt
    cnt j = ground (arith, z)

    dev_at : (j : ℕ) → (update c.bufs i b j).dev ≡ (c.bufs j).dev
    dev_at j = ground (arith, x)

    block_at : (j : ℕ) → (update c.bufs i b j).blockno ≡ (c.bufs j).blockno
    block_at j = ground (arith, y)

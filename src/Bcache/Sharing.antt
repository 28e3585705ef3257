-- ===== src/Bcache/Sharing.antt =====
-- Users of one block share one buffer.
use os_lab.Base.{
  times-without, without, weigh_one, times, ℕ, ◌+◌, ◌-◌, ◌<◌, ◌≡◌, refl, sym, ap, ◌∙◌, subst, ◌↔◌,
  inl, inr, true, false, Option, none, some, ◌∷◌, arith, ℕ_discrete, ◌==◌, if◌then◌else◌, eq→==,
  ne→==, Bool-cases, weigh_nothing, update_self, update_ne, update, weigh,
}
use os_lab.Bcache.{Buf, Bcache, iderw, brelse}
use os_lab.Bcache.Users.{Use, System, pin, Step, reads, writes, pins, releases, Reach, init, next}
use os_lab.Bcache.Sound.{has, Sound, recount, reflag}
use os_lab.Bcache.Reads.{bread-bget, bget-Sound}

iderw-Sound :
    (n : ℕ) (c : Bcache) (users : ℕ → Option Use) (i : ℕ)
    → Sound n c users
    → Sound n (iderw c i) users
iderw-Sound n c users i v =
    reflag n c users i (record (c.bufs i) { valid = true; dirty = false }) v refl refl refl

pin-Sound :
    (n : ℕ) (c : Bcache) (users : ℕ → Option Use) (i : ℕ)
    → Sound n c users
    → Sound n (pin c i) users
pin-Sound n c users i v = reflag n c users i (record (c.bufs i) { dirty = true }) v refl refl refl

brelse-Sound :
    (n : ℕ) (c : Bcache) (users : ℕ → Option Use) (d : ℕ) (u : Use)
    → d < n
    → users d ≡ some u
    → Sound n c users
    → Sound n (brelse c u.buf) (update users d none)
unfolding brelse times
brelse-Sound n c users d u l e v = elim (Bool-cases ((c.bufs u.buf).refcnt - 1 == 0)) [
  | inl y ↦ rw y (
      recount n c (record { bufs = left; order = u.buf ∷ without u.buf c.order }) users d none l v
        (λ j. ground arith) (λ j. ground arith)
        (λ j. omega (arith, times-without j u.buf c.order (v.right d u l e).3)) fewer (λ w q. cc))
  | inr y ↦ rw y (
      recount n c (record { bufs = left; order = c.order }) users d none l v (λ j. ground arith)
        (λ j. ground arith) (λ j. refl) fewer (λ w q. cc))
]
  where
    left : ℕ → Buf
    left = update c.bufs u.buf (record (c.bufs u.buf) { refcnt = (c.bufs u.buf).refcnt - 1 })

    own : has u.buf (users d) ≡ 1
    own = rw e (ground arith)

    fewer : (j : ℕ) → (left j).refcnt + has j (users d) ≡ (c.bufs j).refcnt + has j none
    fewer j =
        let some_left : 0 < (c.bufs u.buf).refcnt =
          omega (arith, v.counted u.buf, weigh_one (has u.buf) users n d l, own) in
        rw e (elim (ℕ_discrete u.buf j) [
          | yes q ↦
              subst (λ k. (left k).refcnt + (if u.buf == k then 1 else 0) ≡ (c.bufs k).refcnt + 0) q
                (rw (update_self c.bufs u.buf, eq→== u.buf u.buf refl) (omega (arith, some_left)))
          | no q ↦ rw (update_ne c.bufs u.buf _ j q, ne→== u.buf j q) refl
        ])

Step-Sound : (n : ℕ) {s t : System} → Step n s t → Sound n s.cache s.users → Sound n t.cache t.users
Step-Sound n {s} (reads d dev blockno {c} {i} l e p q) v =
    let (m, b, r) = bread-bget s.cache c dev blockno i q in
    let user : Use = record { buf = i; dev = dev; blockno = blockno } in
    let got = bget-Sound n s.cache s.users v d l e dev blockno p m i b in
    elim r [
      | inl x ↦ subst (λ k. Sound n k (update s.users d (some user))) x got
      | inr x ↦
          subst (λ k. Sound n k (update s.users d (some user))) x
            (iderw-Sound n m (update s.users d (some user)) i got)
    ]
Step-Sound n {s} (writes d {u} l e) v =
    iderw-Sound n (pin s.cache u.buf) s.users u.buf (pin-Sound n s.cache s.users u.buf v)
Step-Sound n {s} (pins d {u} l e) v = pin-Sound n s.cache s.users u.buf v
Step-Sound n {s} (releases d {u} l e) v = brelse-Sound n s.cache s.users d u l e v

Reach-Sound : (n : ℕ) {s : System} → Reach n s → Sound n s.cache s.users
Reach-Sound n init = record {
  counted = λ i. sym (weigh_nothing (has i) (λ _. none) (λ j. refl) n);
  right = λ d u l e. absurd (cc e);
  single = λ i j a b p x y. absurd (omega (arith, p));
}
Reach-Sound n (next r e) = Step-Sound n e (Reach-Sound n r)

-- Two users that have not released what bread gave them have the same buffer exactly if they asked
-- for the same block; the buffer is still that of the block, and its `refcnt` counts the users that
-- have it.
pub buffers_shared :
    (n : ℕ) {s : System}
    → Reach n s
    → (d e : ℕ) {u w : Use} → d < n
    → e < n
    → s.users d ≡ some u
    → s.users e ≡ some w
    → ((u.buf ≡ w.buf) ↔ ((u.dev ≡ w.dev) × (u.blockno ≡ w.blockno)))
      × ((s.cache.bufs u.buf).dev ≡ u.dev)
      × ((s.cache.bufs u.buf).blockno ≡ u.blockno)
      × ((s.cache.bufs u.buf).refcnt ≡ weigh (has u.buf) n s.users)
buffers_shared n {s} r d e {u} {w} l m p q =
    let v = Reach-Sound n r in
    let (a, b, z, t) = v.right d u l p in
    let (x, y, _, k) = v.right e w m q in
    (
      (
        (λ o. (
          sym a ∙ ap (λ i. (s.cache.bufs i).dev) o ∙ x,
          sym b ∙ ap (λ i. (s.cache.bufs i).blockno) o ∙ y,
        )),
        (λ (o, f). v.single u.buf w.buf t k (omega (arith, a, z)) (a ∙ o ∙ sym x) (b ∙ f ∙ sym y)),
      ),
      a,
      b,
      v.counted u.buf,
    )

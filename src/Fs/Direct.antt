-- ===== src/Fs/Direct.antt =====
-- The blocks in the inode itself, and the indirect block: finding or allocating one keeps the
-- contents of the file.
use os_lab.Base.{
  ℕ, ◌+◌, ◌≤◌, ◌<◌, ◌≡◌, refl, sym, ap, ◌∙◌, ◌≢◌, inl, inr, true, false, arith, ℕ_discrete, ◌==◌,
  ne→==, ==→eq, Bool-cases, ok, update_self, update_ne, update,
}
use os_lab.Fs.{Fs, Inode, ndirect, maxfile, set_addr, map_direct}
use os_lab.Fs.Blocks.{free, balloc_lem, other_block, new_block, new_indirect}
use os_lab.Fs.Causes.{Causes, Causes-refl, grown-Causes, of_file, of_words}
use os_lab.Fs.Mapping.{
  Noted-trans, Noted-grown, ptr-low, ptr, Valid, Keeps, SameContent, grown, ptr-direct,
  ptr-indirect, old_block, Foreign-grown,
}

-- The block `a` is that at the index `c` of the file now; at most `n` blocks have been taken.
pub record Mapped (size n : ℕ) (fs : Fs) (ip : Inode) (c : ℕ) (new : Fs) (jp : Inode) (a : ℕ)
    : Type 0 where
  pub keeps : Keeps size n fs ip new jp
  pub same : SameContent fs ip new jp
  pub there : a ≢ 0
  pub at_index : ptr new jp c ≡ a
  pub causes : Causes size c (c + 1) fs ip new jp

pub Keeps-refl : (size n : ℕ) (fs : Fs) (ip : Inode) → Valid fs ip → Keeps size n fs ip fs ip
Keeps-refl size n fs ip v = record {
  valid = v;
  foreign = λ k r. (refl, r);
  same_type = refl;
  same_size = refl;
  same_dinodes = refl;
  cost = omega arith;
  noted = λ b. (inl refl, omega arith);
  still = λ c h. refl;
}

pub Keeps-weaken :
    (size : ℕ) {m n : ℕ} {fs new : Fs} {ip jp : Inode}
    → m ≤ n
    → Keeps size m fs ip new jp
    → Keeps size n fs ip new jp
Keeps-weaken size h k = record {
  valid = k.valid;
  foreign = k.foreign;
  same_type = k.same_type;
  same_size = k.same_size;
  same_dinodes = k.same_dinodes;
  cost = omega (arith, k.cost);
  noted = k.noted;
  still = k.still;
}

pub Keeps-trans :
    (size m n : ℕ) {fs new last : Fs} {ip jp kp : Inode}
    → Keeps size m fs ip new jp
    → Keeps size n new jp last kp
    → Keeps size (m + n) fs ip last kp
Keeps-trans size m n {fs = fs} {new = new} {last = last} p q = record {
  valid = q.valid;
  foreign = λ k r. let a = p.foreign k r in let b = q.foreign k a.1 in (b.0 ∙ a.0, b.1);
  same_type = q.same_type ∙ p.same_type;
  same_size = q.same_size ∙ p.same_size;
  same_dinodes = q.same_dinodes ∙ p.same_dinodes;
  cost = omega (arith, p.cost, q.cost);
  noted = λ b. Noted-trans fs new last b (p.noted b) (q.noted b);
  still = λ c h. let e = p.still c h in q.still c (λ z. h (sym e ∙ z)) ∙ e;
}

-- The bytes at every index stay where one index has got a new block, all zeros.
pub SameContent-new :
    (fs new : Fs) (ip jp : Inode) (i a : ℕ)
    → Valid fs ip
    → ptr fs ip i ≡ 0
    → ptr new jp ≡ update (ptr fs ip) i a
    → ((o : ℕ) → new.blocks a o ≡ 0)
    → ((c : ℕ) → c < maxfile → ptr fs ip c ≢ 0 → new.blocks (ptr fs ip c) ≡ fs.blocks (ptr fs ip c))
    → SameContent fs ip new jp
SameContent-new fs new ip jp i a v z p w h c o l = elim (ℕ_discrete i c) [
  | yes q ↦ rw (p, q, update_self (ptr fs ip) c a, w o, ap (ptr fs ip) (sym q) ∙ z) (ground arith)
  | no q ↦ elim (ℕ_discrete (ptr fs ip c) 0) [
    | yes e ↦ rw (p, update_ne (ptr fs ip) i a c q, e) refl
    | no e ↦ rw (p, update_ne (ptr fs ip) i a c q, ne→== (ptr fs ip c) 0 e, h c l e) refl
  ]
]

module _ (size : ℕ) (fs : Fs) (ip : Inode) (v : Valid fs ip) (room : 0 < free size fs) where
  pub direct_lem :
      (i : ℕ)
      → i < ndirect
      → (new : Fs) × (jp : Inode) × (a : ℕ) × (map_direct size fs ip i ≡ ok (new, jp, a))
        × Mapped size 1 fs ip i new jp a
  unfolding map_direct
  direct_lem i l = elim (Bool-cases (ip.addrs i == 0)) [
    | inr n ↦ (
      fs,
      ip,
      ip.addrs i,
      rw n refl,
      record {
        keeps = Keeps-refl size 1 fs ip v;
        same = λ c o l. refl;
        there = ground arith;
        at_index = ptr-low fs ip i l;
        causes = Causes-refl size i (i + 1) fs ip;
      },
    )
    | inl z ↦
        let (a, below, f, e, counted) = balloc_lem size fs room in
        (
          grown fs a,
          set_addr ip i a,
          a,
          rw (z, e) refl,
          fresh a below f counted (==→eq (ip.addrs i) 0 z),
        )
  ]
    where
      fresh :
          (a : ℕ)
          → a < size
          → (f : fs.used a ≡ false)
          → free size fs ≡ free size (record fs { used = update fs.used a true }) + 1
          → ip.addrs i ≡ 0
          → Mapped size 1 fs ip i (grown fs a) (set_addr ip i a) a
      fresh a below f counted z =
          let p = ptr-direct fs ip v a f i l in
          let zero_ptr : ptr fs ip i ≡ 0 = ptr-low fs ip i l ∙ z in
          let same_ind = update_ne ip.addrs i a ndirect (omega arith) in
          record {
            keeps = record {
              valid = rw (p, same_ind) (new_block v a f i zero_ptr);
              foreign =
                  Foreign-grown fs ip v a f (set_addr ip i a)
                    (λ c. rw p (elim (ℕ_discrete i c) [
                      | yes q ↦ inr (ground arith)
                      | no q ↦ inl (update_ne (ptr fs ip) i a c q)
                    ]))
                    (inl same_ind);
              same_type = refl;
              same_size = refl;
              same_dinodes = refl;
              cost = omega (arith, counted);
              noted = Noted-grown fs a;
              still = λ c h.
                  rw p (update_ne (ptr fs ip) i a c (λ q. h (ap (ptr fs ip) (sym q) ∙ zero_ptr)));
            };
            same =
                SameContent-new fs (grown fs a) ip (set_addr ip i a) i a v zero_ptr p
                  (λ o. ap (λ m. m o) (update_self fs.blocks a (λ _. 0)))
                  (λ c l e. old_block fs ip v a f (ptr fs ip c) (v.ptr_used c l));
            there = other_block fs.used f v.boot;
            at_index = rw p (update_self (ptr fs ip) i a);
            causes =
                grown-Causes size i (i + 1) fs ip (set_addr ip i a) a below
                  (of_file i (omega arith) (omega arith) (rw p (update_self (ptr fs ip) i a))
                    (other_block fs.used f v.boot))
                  (λ h. same_ind);
          }

  -- The indirect block is there, or it is allocated and has no words.
  pub indirect_lem :
      (new : Fs) × (jp : Inode) × (map_direct size fs ip ndirect ≡ ok (new, jp, jp.addrs ndirect))
      × Keeps size 1 fs ip new jp
      × SameContent fs ip new jp
      × (jp.addrs ndirect ≢ 0)
      × ((lo hi : ℕ) → Causes size lo hi fs ip new jp)
  unfolding map_direct
  indirect_lem = elim (Bool-cases (ip.addrs ndirect == 0)) [
    | inr n ↦ (
      fs,
      ip,
      rw n refl,
      Keeps-refl size 1 fs ip v,
      (λ c o l. refl),
      ground arith,
      λ lo hi. Causes-refl size lo hi fs ip,
    )
    | inl z ↦
        let (a, below, f, e, counted) = balloc_lem size fs room in
        let (k, s, n) = fresh a f counted (==→eq (ip.addrs ndirect) 0 z) in
        (
          grown fs a,
          set_addr ip ndirect a,
          rw (z, e, update_self ip.addrs ndirect a) refl,
          k,
          s,
          n,
          λ lo hi.
              grown-Causes size lo hi fs ip (set_addr ip ndirect a) a below
                (of_words (update_self ip.addrs ndirect a) (other_block fs.used f v.boot))
                (λ h. absurd (h (==→eq (ip.addrs ndirect) 0 z))),
        )
  ]
    where
      fresh :
          (a : ℕ) (f : fs.used a ≡ false)
          → free size fs ≡ free size (record fs { used = update fs.used a true }) + 1
          → ip.addrs ndirect ≡ 0
          → Keeps size 1 fs ip (grown fs a) (set_addr ip ndirect a)
            × SameContent fs ip (grown fs a) (set_addr ip ndirect a)
            × ((set_addr ip ndirect a).addrs ndirect ≢ 0)
      fresh a f counted z =
          let p = ptr-indirect fs ip v a f z in
          let ind = update_self ip.addrs ndirect a in
          (
            record {
              valid = rw (p, ind) (new_indirect v a f);
              foreign =
                  Foreign-grown fs ip v a f (set_addr ip ndirect a) (λ c. rw p (inl refl))
                    (inr ind);
              same_type = refl;
              same_size = refl;
              same_dinodes = refl;
              cost = omega (arith, counted);
              noted = Noted-grown fs a;
              still = λ c h. rw p refl;
            },
            (λ c o l. elim (ℕ_discrete (ptr fs ip c) 0) [
              | yes q ↦ rw (p, q) refl
              | no q ↦ rw (p, old_block fs ip v a f (ptr fs ip c) (v.ptr_used c l)) refl
            ]),
            λ q. other_block fs.used f v.boot (sym ind ∙ q),
          )

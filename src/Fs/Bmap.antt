-- ===== src/Fs/Bmap.antt =====
-- bmap finds or allocates the block at an index, and keeps the contents of the file.
use os_lab.Base.{
  ℕ, ◌+◌, ◌-◌, ◌*◌, ◌^◌, ◌≤◌, ◌<◌, ◌≡◌, refl, ◌∙◌, subst, ◌≢◌, inl, inr, true, arith, ltb, ◌==◌,
  ne→==, ltb→lt, Bool-cases, ok,
}
use os_lab.Syscall.{word}
use os_lab.Fs.{map_direct, Fs, Inode, ndirect, nindirect, maxfile, map_word, bmap}
use os_lab.Fs.Blocks.{free}
use os_lab.Fs.Causes.{Causes, Causes-trans}
use os_lab.Fs.Mapping.{ptr, Valid}
use os_lab.Fs.Direct.{Mapped, Keeps-weaken, Keeps-trans, direct_lem, indirect_lem}
use os_lab.Fs.Words.{word_lem}

pub bmap_lem :
    (size : ℕ)
    → size ≤ 2 ^ 32
    → (fs : Fs) (ip : Inode) → Valid fs ip
    → 2 ≤ free size fs
    → (c : ℕ) → c < maxfile
    → (new : Fs) × (jp : Inode) × (a : ℕ) × (bmap size fs ip c ≡ ok (new, jp, a))
      × Mapped size 2 fs ip c new jp a
unfolding bmap
bmap_lem size small fs ip v room c l = elim (Bool-cases (ltb c ndirect)) [
  | inl y ↦
      let (new, jp, a, e, m) = direct_lem size fs ip v (omega arith) c (ltb→lt c ndirect y) in
      (
        new,
        jp,
        a,
        rw y e,
        record {
          keeps = Keeps-weaken size (omega arith) m.keeps;
          same = m.same;
          there = m.there;
          at_index = m.at_index;
          causes = m.causes;
        },
      )
  | inr n ↦
      let (mid, jp, e, k, s, t, marks) = indirect_lem size fs ip v (omega arith) in
      let (new, a, d, m) =
        word_lem size small mid jp k.valid t (omega (arith, k.cost)) (c - ndirect) (ground arith) in
      let within : ltb (c - ndirect) nindirect ≡ true = ground arith in
      let back : ndirect + (c - ndirect) ≡ c = ground arith in
      (
        new,
        jp,
        a,
        rw (n, within, e, d) refl,
        record {
          keeps = Keeps-trans size 1 1 k m.keeps;
          same = λ i o l. m.same i o l ∙ s i o l;
          there = m.there;
          at_index = subst (λ i. ptr new jp i ≡ a) back m.at_index;
          causes =
              Causes-trans c (c + 1) (omega arith) (omega arith) (omega arith) (omega arith) m.keeps
                (marks c (c + 1)) (subst (λ i. Causes size i (i + 1) mid jp new jp) back m.causes);
        },
      )
]

-- Where there is a block already, bmap finds it and changes nothing.
pub bmap_there :
    (size : ℕ) (fs : Fs) (ip : Inode) (c : ℕ)
    → c < maxfile
    → ptr fs ip c ≢ 0
    → bmap size fs ip c ≡ ok (fs, ip, ptr fs ip c)
unfolding bmap map_direct map_word ptr
bmap_there size fs ip c l h = elim (Bool-cases (ltb c ndirect)) [
  | inl y ↦ let there : ip.addrs c ≢ 0 = rw y at h in rw (y, ne→== (ip.addrs c) 0 there) refl
  | inr n ↦
      let within : ltb (c - ndirect) nindirect ≡ true = ground arith in
      elim (Bool-cases (ip.addrs ndirect == 0)) [
        | inl z ↦ absurd ((rw (n, z) at h) refl)
        | inr z ↦
            let there : word (fs.blocks (ip.addrs ndirect)) (4 * (c - ndirect)) ≢ 0 =
              rw (n, z) at h in
            rw
              (
                n,
                within,
                z,
                map_word,
                ne→== (word (fs.blocks (ip.addrs ndirect)) (4 * (c - ndirect))) 0 there,
              )
              refl
      ]
]

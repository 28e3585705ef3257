-- ===== src/Fs/Words.antt =====
-- The words of the indirect block: finding or allocating the block at one of them.
use os_lab.Base.{
  ℕ, ◌+◌, ◌-◌, ◌*◌, ◌^◌, ◌≤◌, ◌<◌, ◌≡◌, refl, sym, ap, ◌∙◌, fun_ext, ◌≢◌, inl, inr, true, false,
  ◌∷◌, arith, ℕ_discrete, ltb, ◌==◌, eq→==, ne→==, ==→eq, Bool-cases, ok, update_self, update_ne,
  update,
}
use os_lab.KString.{store_word}
use os_lab.Syscall.{word}
use os_lab.Fs.{bblock, Fs, Inode, ndirect, nindirect, map_word}
use os_lab.Fs.Blocks.{free, balloc_lem, other_block, new_block, word-store_word}
use os_lab.Fs.Causes.{Causes, Causes-refl, of_file, of_words, of_map, before, times-cons}
use os_lab.Fs.Mapping.{Noted-trans, Noted-grown, Noted-write, ptr, Valid, grown, old_block}
use os_lab.Fs.Direct.{Mapped, Keeps-refl, SameContent-new}

ptr-high :
    (fs : Fs) (ip : Inode) (i : ℕ)
    → ip.addrs ndirect ≢ 0
    → ptr fs ip (ndirect + i) ≡ word (fs.blocks (ip.addrs ndirect)) (4 * i)
unfolding ptr
ptr-high fs ip i n =
    let past : ltb (ndirect + i) ndirect ≡ false = ground arith in
    let back : ndirect + i - ndirect ≡ i = omega arith in
    rw (past, ne→== (ip.addrs ndirect) 0 n, back) refl

-- What map_word makes of the blocks.
abbrev stored : Fs → ℕ → ℕ → ℕ → Fs
stored fs b i a =
    let new = grown fs a in
    record new {
      blocks = update new.blocks b (store_word (4 * i) a (new.blocks b));
      marked = b ∷ new.marked;
    }

module _ (size : ℕ) (small : size ≤ 2 ^ 32) (fs : Fs) (ip : Inode) (v : Valid fs ip)
    (there : ip.addrs ndirect ≢ 0) where
  ptr-stored :
      (a i : ℕ)
      → fs.used a ≡ false
      → a < size
      → ptr (stored fs (ip.addrs ndirect) i a) ip ≡ update (ptr fs ip) (ndirect + i) a
  unfolding ptr
  ptr-stored a i f l =
      let apart : a ≢ ip.addrs ndirect = other_block fs.used f v.ind_used in
      fun_ext λ c. elim (Bool-cases (ltb c ndirect)) [
        | inl y ↦ rw y (ground arith)
        | inr n ↦
            rw
              (
                n,
                ne→== (ip.addrs ndirect) 0 there,
                update_self (grown fs a).blocks (ip.addrs ndirect)
                    (store_word (4 * i) a ((grown fs a).blocks (ip.addrs ndirect))),
                word-store_word ((grown fs a).blocks (ip.addrs ndirect)) i a (c - ndirect)
                    (omega arith),
                update_ne fs.blocks a (λ _. 0) (ip.addrs ndirect) apart,
              )
              (ground arith)
      ]

  stored-Causes :
      (a i : ℕ)
      → a < size
      → fs.used a ≡ false
      → ptr (stored fs (ip.addrs ndirect) i a) ip (ndirect + i) ≡ a
      → Causes size (ndirect + i) (ndirect + i + 1) fs ip (stored fs (ip.addrs ndirect) i a) ip
  stored-Causes a i below f e = record {
    cause = λ b t. elim (ℕ_discrete (ip.addrs ndirect) b) [
      | yes q ↦ of_words q (λ z. there (q ∙ z))
      | no n ↦ elim (ℕ_discrete a b) [
        | yes q ↦
            of_file (ndirect + i) (omega arith) (omega arith) (e ∙ q)
              (λ z. other_block fs.used f v.boot (q ∙ z))
        | no m ↦ elim (ℕ_discrete (bblock fs a) b) [
          | yes q ↦ of_map a below q
          | no o ↦ before (
              times-cons (bblock fs a) b fs.marked o (
                times-cons a b (bblock fs a ∷ fs.marked) m
                  (times-cons (ip.addrs ndirect) b (a ∷ bblock fs a ∷ fs.marked) n t)))
        ]
      ]
    ];
    same_map = refl;
    same_words = λ h. refl;
  }

  -- The block at a word of the indirect block.
  pub word_lem :
      0 < free size fs
      → (i : ℕ) → i < nindirect
      → (new : Fs) × (a : ℕ) × (map_word size fs (ip.addrs ndirect) i ≡ ok (new, a))
        × Mapped size 1 fs ip (ndirect + i) new ip a
  unfolding map_word
  word_lem room i l = elim (Bool-cases (word (fs.blocks (ip.addrs ndirect)) (4 * i) == 0)) [
    | inr n ↦ (
      fs,
      word (fs.blocks (ip.addrs ndirect)) (4 * i),
      rw (n, map_word) refl,
      record {
        keeps = Keeps-refl size 1 fs ip v;
        same = λ c o l. refl;
        there = λ e. cc (sym n ∙ eq→== (word (fs.blocks (ip.addrs ndirect)) (4 * i)) 0 e);
        at_index = ptr-high fs ip i there;
        causes = Causes-refl size (ndirect + i) (ndirect + i + 1) fs ip;
      },
    )
    | inl z ↦
        let (a, below, f, e, counted) = balloc_lem size fs room in
        (
          stored fs (ip.addrs ndirect) i a,
          a,
          rw (z, e, map_word) refl,
          fresh a below f counted (==→eq (word (fs.blocks (ip.addrs ndirect)) (4 * i)) 0 z),
        )
  ]
    where
      b : ℕ
      b = ip.addrs ndirect

      -- The blocks but for the new one and the indirect block.
      kept :
          (a : ℕ)
          → fs.used a ≡ false
          → (k : ℕ) → fs.used k ≡ true
          → b ≢ k
          → (stored fs b i a).blocks k ≡ fs.blocks k
      kept a f k t n =
          update_ne (grown fs a).blocks b (store_word (4 * i) a ((grown fs a).blocks b)) k n
          ∙ old_block fs ip v a f k t

      fresh :
          (a : ℕ)
          → a < size
          → (f : fs.used a ≡ false)
          → free size fs ≡ free size (record fs { used = update fs.used a true }) + 1
          → word (fs.blocks b) (4 * i) ≡ 0
          → Mapped size 1 fs ip (ndirect + i) (stored fs b i a) ip a
      fresh a below f counted z =
          let p = ptr-stored a i f below in
          let zero_ptr : ptr fs ip (ndirect + i) ≡ 0 = ptr-high fs ip i there ∙ z in
          record {
            keeps = record {
              valid = rw p (new_block v a f (ndirect + i) zero_ptr);
              foreign = λ k r. (
                kept a f k r.in_use r.not_indirect,
                record {
                  in_use = update_ne fs.used a true k (other_block fs.used f r.in_use) ∙ r.in_use;
                  not_indirect = r.not_indirect;
                  not_content = λ c m. rw p (elim (ℕ_discrete (ndirect + i) c) [
                    | yes q ↦ rw (q, update_self (ptr fs ip) c a) (other_block fs.used f r.in_use)
                    | no q ↦ rw (update_ne (ptr fs ip) (ndirect + i) a c q) (r.not_content c m)
                  ]);
                },
              );
              same_type = refl;
              same_size = refl;
              same_dinodes = refl;
              cost = omega (arith, counted);
              noted = λ k.
                  Noted-trans fs (grown fs a) (stored fs b i a) k (Noted-grown fs a k)
                    (Noted-write (grown fs a) b (store_word (4 * i) a ((grown fs a).blocks b)) k);
              still = λ c h. rw p (
                  update_ne (ptr fs ip) (ndirect + i) a c
                    (λ q. h (ap (ptr fs ip) (sym q) ∙ zero_ptr)));
            };
            same =
                SameContent-new fs (stored fs b i a) ip ip (ndirect + i) a v zero_ptr p
                  (λ o.
                    ap (λ m. m o)
                      (update_ne (grown fs a).blocks b
                          (store_word (4 * i) a ((grown fs a).blocks b)) a
                          (λ q. other_block fs.used f v.ind_used (sym q))
                        ∙ update_self fs.blocks a (λ _. 0)))
                  (λ c m e. kept a f (ptr fs ip c) (v.ptr_used c m) (λ q. v.apart c m e (sym q)));
            there = other_block fs.used f v.boot;
            at_index = rw p (update_self (ptr fs ip) (ndirect + i) a);
            causes = stored-Causes a i below f (rw p (update_self (ptr fs ip) (ndirect + i) a));
          }

-- ===== src/Fs/Blocks.antt =====
-- The free map, and the blocks that belong to one file.
use os_lab.Base.{
  ℕ, zero, suc, ◌+◌, ◌*◌, ◌/◌, ◌%◌, ◌^◌, ◌≤◌, ◌<◌, ◌≡◌, refl, sym, ap, ◌∙◌, ◌≢◌, ◌⊎◌, inl, inr,
  Bool, true, false, some, ◌∷◌, arith, ℕ_discrete, ◌==◌, if◌then◌else◌, eq→==, ne→==, Bool-cases,
  ok, update_self, update_ne, update, weigh, weigh-update,
}
use os_lab.KString.{store_word}
use os_lab.Syscall.{word}
use os_lab.Fs.{bblock, Fs, maxfile, bzero, first_free, balloc}

-- A free bit counts.
abbrev is_free : Bool → ℕ
is_free true = 0
is_free false = 1

-- The free blocks below the size of the file system.
abbrev pub free : ℕ → Fs → ℕ
free size fs = weigh is_free size fs.used

weigh_some :
    (size : ℕ) (used : ℕ → Bool)
    → 0 < weigh is_free size used
    → (b : ℕ) × (b < size) × (used b ≡ false)
unfolding weigh
weigh_some zero used h = absurd (omega arith)
weigh_some (suc n) used h = elim (Bool-cases (used n)) [
  | inl y ↦ let (b, l, e) = weigh_some n used (ground arith) in (b, omega arith, e)
  | inr y ↦ (n, omega arith, y)
]

first_free-some :
    (used : ℕ → Bool) (b left k : ℕ)
    → b ≤ k
    → k < b + left
    → used k ≡ false
    → (a : ℕ) × (first_free used b left ≡ some a) × (a < b + left) × (used a ≡ false)
unfolding first_free
first_free-some used b zero k h l e = absurd (omega arith)
first_free-some used b (suc left) k h l e = elim (Bool-cases (used b)) [
  | inl y ↦
      let other : k ≢ b = λ q. cc (sym e ∙ ap used q ∙ y) in
      let (a, r, m, f) = first_free-some used (b + 1) left k (omega arith) (omega arith) e in
      (a, rw y r, omega arith, f)
  | inr y ↦ (b, rw y refl, omega arith, y)
]

-- With a free block, balloc finds one, marks it and clears it.
pub balloc_lem :
    (size : ℕ) (fs : Fs)
    → 0 < free size fs
    → (a : ℕ) × (a < size)
      × (fs.used a ≡ false)
      × (balloc size fs
          ≡ ok (
            bzero (record fs { used = update fs.used a true; marked = bblock fs a ∷ fs.marked }) a,
            a,
          ))
      × (free size fs ≡ free size (record fs { used = update fs.used a true }) + 1)
unfolding balloc
balloc_lem size fs h =
    let (k, l, e) = weigh_some size fs.used h in
    let (a, r, m, f) = first_free-some fs.used 0 size k (omega arith) (omega arith) e in
    let below : a < size = omega arith in (a, below, f, rw (r, balloc) refl, counted a below f)
  where
    counted :
        (a : ℕ)
        → a < size
        → fs.used a ≡ false
        → free size fs ≡ free size (record fs { used = update fs.used a true }) + 1
    counted a l f =
        let w = weigh-update is_free fs.used size a true l in
        let one : is_free (fs.used a) ≡ 1 = rw f refl in omega (arith, w, one)

-- The blocks of one file are in use, and no two of them are the same. `p` gives the block at each
-- index or 0, `ind` is the indirect block or 0. Block 0 is the boot block.
pub record Layout (p : ℕ → ℕ) (ind : ℕ) (used : ℕ → Bool) : Type 0 where
  pub boot : used 0 ≡ true
  pub ind_used : used ind ≡ true
  pub ptr_used : (c : ℕ) → c < maxfile → used (p c) ≡ true
  pub apart : (c : ℕ) → c < maxfile → p c ≢ 0 → p c ≢ ind
  pub distinct : (b c : ℕ) → b < maxfile → c < maxfile → p b ≢ 0 → p b ≡ p c → b ≡ c

-- A block that is free is none of those in use.
pub other_block : (used : ℕ → Bool) {a k : ℕ} → used a ≡ false → used k ≡ true → a ≢ k
other_block used f t e = cc (sym f ∙ ap used e ∙ t)

module _ {p : ℕ → ℕ} {ind : ℕ} {used : ℕ → Bool} (v : Layout p ind used) (a : ℕ)
    (f : used a ≡ false) where
  still_used : (k : ℕ) → used k ≡ true → update used a true k ≡ true
  still_used k t = ground arith

  -- A new block at an index that has none.
  pub new_block : (n : ℕ) → p n ≡ 0 → Layout (update p n a) ind (update used a true)
  new_block n z = record {
    boot = still_used 0 v.boot;
    ind_used = still_used ind v.ind_used;
    ptr_used = λ c l. elim (ℕ_discrete n c) [
      | yes q ↦ rw (q, update_self p c a) (update_self used a true)
      | no q ↦ rw (update_ne p n a c q) (still_used (p c) (v.ptr_used c l))
    ];
    apart = λ c l. elim (ℕ_discrete n c) [
      | yes q ↦ rw (q, update_self p c a) (λ m. other_block used f v.ind_used)
      | no q ↦ rw (update_ne p n a c q) (v.apart c l)
    ];
    distinct = λ b c l m. elim (ℕ_discrete n b) [
      | yes q ↦ elim (ℕ_discrete n c) [
        | yes r ↦ λ z e. sym q ∙ r
        | no r ↦
            rw (q, update_self p b a, update_ne p b a c (λ s. r (q ∙ s)))
              (λ z e. absurd (other_block used f (v.ptr_used c m) e))
      ]
      | no q ↦ elim (ℕ_discrete n c) [
        | yes r ↦
            rw (r, update_self p c a, update_ne p c a b (λ s. q (r ∙ s)))
              (λ z e. absurd (other_block used f (v.ptr_used b l) (sym e)))
        | no r ↦ rw (update_ne p n a b q, update_ne p n a c r) (v.distinct b c l m)
      ]
    ];
  }

  -- A new indirect block.
  pub new_indirect : Layout p a (update used a true)
  new_indirect = record {
    boot = still_used 0 v.boot;
    ind_used = update_self used a true;
    ptr_used = λ c l. still_used (p c) (v.ptr_used c l);
    apart = λ c l z e. other_block used f (v.ptr_used c l) (sym e);
    distinct = v.distinct;
  }

store_word-bytes :
    (a w : ℕ) (m : ℕ → ℕ)
    → (store_word a w m a ≡ w % 256)
      × (store_word a w m (a + 1) ≡ w / 2 ^ 8 % 256)
      × (store_word a w m (a + 2) ≡ w / 2 ^ 16 % 256)
      × (store_word a w m (a + 3) ≡ w / 2 ^ 24 % 256)
unfolding store_word
store_word-bytes a w m = (ground arith, ground arith, ground arith, ground arith)

store_word-outside :
    (a w : ℕ) (m : ℕ → ℕ) (k : ℕ) → (k < a) ⊎ (a + 3 < k) → store_word a w m k ≡ m k
unfolding store_word
store_word-outside a w m k h = ground arith

-- What is stored in a word is read back, and the other words are as they were.
pub word-store_word :
    (m : ℕ → ℕ) (i w j : ℕ)
    → w < 2 ^ 32
    → word (store_word (4 * i) w m) (4 * j) ≡ (if i == j then w else word m (4 * j))
word-store_word m i w j h = elim (ℕ_discrete i j) [
  | yes q ↦
      let (a, b, c, d) = store_word-bytes (4 * j) w m in
      rw (q, eq→== j j refl, a, b, c, d) (omega arith)
  | no q ↦
      rw
        (
          ne→== i j q,
          store_word-outside (4 * i) w m (4 * j) (omega arith),
          store_word-outside (4 * i) w m (4 * j + 1) (omega arith),
          store_word-outside (4 * i) w m (4 * j + 2) (omega arith),
          store_word-outside (4 * i) w m (4 * j + 3) (omega arith),
        )
        refl
]

-- ===== src/Fs/Mapping.antt =====
-- bmap: the block at an index of a file, and what allocating it leaves alone.
use os_lab.Base.{
  times, ℕ, ◌+◌, ◌-◌, ◌*◌, ◌≤◌, ◌<◌, ◌≡◌, refl, sym, ◌∙◌, fun_ext, ◌≢◌, ◌⊎◌, inl, inr, true, false,
  ◌∷◌, arith, ℕ_discrete, ltb, ◌==◌, if◌then◌else◌, eq→==, lt→ltb, Bool-cases, update_self,
  update_ne, update,
}
use os_lab.Syscall.{word}
use os_lab.Fs.{bblock, Fs, Inode, ndirect, maxfile, bzero, set_addr}
use os_lab.Fs.Blocks.{free, Layout, other_block}

-- The block at the index `c` of the file, or 0.
unfoldable pub ptr : Fs → Inode → ℕ → ℕ
ptr fs ip c =
    if ltb c ndirect
    then ip.addrs c
    else if ip.addrs ndirect == 0
    then 0
    else word (fs.blocks (ip.addrs ndirect)) (4 * (c - ndirect))

pub ptr-low : (fs : Fs) (ip : Inode) (c : ℕ) → c < ndirect → ptr fs ip c ≡ ip.addrs c
unfolding ptr
ptr-low fs ip c l = rw (lt→ltb c ndirect l) refl

abbrev pub Valid : Fs → Inode → Type 0
Valid fs ip = Layout (ptr fs ip) (ip.addrs ndirect) fs.used

-- The bytes at the index `c` of the file; a block that is not there reads as zeros.
abbrev pub content : Fs → Inode → ℕ → ℕ → ℕ
content fs ip c o = if ptr fs ip c == 0 then 0 else fs.blocks (ptr fs ip c) o

-- A block in use that is not the file's.
pub record Foreign (fs : Fs) (ip : Inode) (k : ℕ) : Type 0 where
  pub in_use : fs.used k ≡ true
  pub not_indirect : ip.addrs ndirect ≢ k
  pub not_content : (c : ℕ) → c < maxfile → ptr fs ip c ≢ k

-- The block is as it was, or log_write has been called with it; and the calls before are kept.
abbrev pub Noted : Fs → Fs → ℕ → Type 0
Noted fs new b =
    ((new.blocks b ≡ fs.blocks b) ⊎ (0 < times b new.marked))
    × (times b fs.marked ≤ times b new.marked)

pub Noted-trans : (fs new last : Fs) (b : ℕ) → Noted fs new b → Noted new last b → Noted fs last b
Noted-trans fs new last b (inl p, m) (inl q, n) = (inl (q ∙ p), omega arith)
Noted-trans fs new last b (inr p, m) (inl q, n) = (inr (omega arith), omega arith)
Noted-trans fs new last b (p, m) (inr q, n) = (inr q, omega arith)

-- A block is written and log_write is called with it.
pub Noted-write :
    (fs : Fs) (a : ℕ) (m : ℕ → ℕ) (b : ℕ)
    → Noted fs (record fs { blocks = update fs.blocks a m; marked = a ∷ fs.marked }) b
unfolding times
Noted-write fs a m b = elim (ℕ_discrete a b) [
  | yes q ↦ (inr (rw (eq→== a b q) (omega arith)), omega arith)
  | no q ↦ (inl (update_ne fs.blocks a m b q), omega arith)
]

-- What a step on a file leaves alone: every block of other files, and of the inode all but its
-- addresses. It takes at most `n` free blocks.
pub record Keeps (size n : ℕ) (fs : Fs) (ip : Inode) (new : Fs) (jp : Inode) : Type 0 where
  pub valid : Valid new jp
  pub foreign : (k : ℕ) → Foreign fs ip k → (new.blocks k ≡ fs.blocks k) × Foreign new jp k
  pub same_type : jp.type ≡ ip.type
  pub same_size : jp.size ≡ ip.size
  pub same_dinodes : new.dinodes ≡ fs.dinodes
  pub cost : free size fs ≤ free size new + n
  pub noted : (b : ℕ) → Noted fs new b
  pub still : (c : ℕ) → ptr fs ip c ≢ 0 → ptr new jp c ≡ ptr fs ip c

-- And the contents of the file.
abbrev pub SameContent : Fs → Inode → Fs → Inode → Type 0
SameContent fs ip new jp = (c o : ℕ) → c < maxfile → content new jp c o ≡ content fs ip c o

abbrev pub grown : Fs → ℕ → Fs
grown fs a = bzero (record fs { used = update fs.used a true; marked = bblock fs a ∷ fs.marked }) a

pub Noted-grown : (fs : Fs) (a b : ℕ) → Noted fs (grown fs a) b
unfolding times
Noted-grown fs a b =
    Noted-trans fs (record fs { used = update fs.used a true; marked = bblock fs a ∷ fs.marked })
      (grown fs a) b (inl refl, omega arith)
      (Noted-write (record fs { used = update fs.used a true; marked = bblock fs a ∷ fs.marked }) a
        (λ _. 0) b)

module _ (fs : Fs) (ip : Inode) (v : Valid fs ip) (a : ℕ) (f : fs.used a ≡ false) where
  pub ptr-direct :
      (i : ℕ) → i < ndirect → ptr (grown fs a) (set_addr ip i a) ≡ update (ptr fs ip) i a
  unfolding ptr
  ptr-direct i l =
      let apart : a ≢ ip.addrs ndirect = other_block fs.used f v.ind_used in
      fun_ext λ c. elim (Bool-cases (ltb c ndirect)) [
        | inl y ↦ rw y (ground arith)
        | inr n ↦
            rw
              (
                n,
                update_ne ip.addrs i a ndirect (omega arith),
                update_ne fs.blocks a (λ _. 0) (ip.addrs ndirect) apart,
              )
              (ground arith)
      ]

  pub ptr-indirect : ip.addrs ndirect ≡ 0 → ptr (grown fs a) (set_addr ip ndirect a) ≡ ptr fs ip
  unfolding ptr
  ptr-indirect z = fun_ext λ c. elim (Bool-cases (ltb c ndirect)) [
    | inl y ↦ rw y (ground arith)
    | inr n ↦
        rw (n, z, update_self ip.addrs ndirect a, update_self fs.blocks a (λ _. 0)) (ground arith)
  ]

  -- A block of the file other than the new one keeps its bytes.
  pub old_block : (k : ℕ) → fs.used k ≡ true → (grown fs a).blocks k ≡ fs.blocks k
  old_block k t = update_ne fs.blocks a (λ _. 0) k (other_block fs.used f t)

  pub Foreign-grown :
      (jp : Inode)
      → ((c : ℕ) → (ptr (grown fs a) jp c ≡ ptr fs ip c) ⊎ (ptr (grown fs a) jp c ≡ a))
      → (jp.addrs ndirect ≡ ip.addrs ndirect) ⊎ (jp.addrs ndirect ≡ a)
      → (k : ℕ) → Foreign fs ip k
      → ((grown fs a).blocks k ≡ fs.blocks k) × Foreign (grown fs a) jp k
  Foreign-grown jp p q k r =
      let apart = other_block fs.used f r.in_use in
      (
        old_block k r.in_use,
        record {
          in_use = update_ne fs.used a true k apart ∙ r.in_use;
          not_indirect = elim q [
            | inl e ↦ λ m. r.not_indirect (sym e ∙ m)
            | inr e ↦ λ m. apart (sym e ∙ m)
          ];
          not_content = λ c l. elim (p c) [
            | inl e ↦ λ m. r.not_content c l (sym e ∙ m)
            | inr e ↦ λ m. apart (sym e ∙ m)
          ];
        },
      )

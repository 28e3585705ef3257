-- ===== src/Log/Crash.antt =====
-- What is on the disk at each moment of a commit.
use os_lab.Base.{
  ℕ, zero, suc, ◌+◌, ◌≤◌, ◌<◌, ◌≡◌, refl, ap₂, ◌∙◌, subst, ◌⊎◌, some, List, [], ◌∷◌, arith, length,
  get_elem?, update,
}
use os_lab.Log.{Block, Store, store_blocks, load_blocks, logsize}

pub store_blocks-before :
    (i : ℕ) (bs : List ℕ) (hb : Block) (w : ℕ) → w ≤ i → store_blocks i bs hb w ≡ hb w
unfolding store_blocks
store_blocks-before i [] hb w h = refl
store_blocks-before i (b ∷ bs) hb w h =
    ground (arith, store_blocks-before (i + 1) bs (update hb (i + 1) b) w (omega arith))

-- What write_head stores, read_head loads.
pub load-store :
    (i : ℕ) (bs : List ℕ) (hb : Block) → load_blocks i (length bs) (store_blocks i bs hb) ≡ bs
unfolding load_blocks store_blocks
load-store i [] hb = refl
load-store i (b ∷ bs) hb =
    ap₂ ◌∷◌ (store_blocks-before (i + 1) bs (update hb (i + 1) b) (i + 1) (omega arith) ∙ here)
      (load-store (i + 1) bs (update hb (i + 1) b))
  where
    here : update hb (i + 1) b (i + 1) ≡ b
    here = ground arith

-- The blocks of the log, header included, are the `logsize + 1` from `start` on.
abbrev pub Home : ℕ → ℕ → Type 0
Home start b = (b < start) ⊎ (start + logsize < b)

-- A transaction: where the log is, its blocks, and what the disk held and is to hold.
module _ (start : ℕ) (bs : List ℕ) (old new : ℕ → Block) where
  -- The header on the disk is empty, and no home block has changed.
  pub record Before (d : ℕ → Block) : Type 0 where
    pub empty : d start 0 ≡ 0
    pub kept : (b : ℕ) → Home start b → d b ≡ old b

  -- The header names the blocks of the transaction, and the log has their contents.
  pub record Committed (d : ℕ → Block) : Type 0 where
    pub counted : d start 0 ≡ length bs
    pub named : load_blocks 0 (length bs) (d start) ≡ bs
    pub logged : (i b : ℕ) → get_elem? bs i ≡ some b → d (start + i + 1) ≡ new b
    pub rest : (b : ℕ) → Home start b → (d b ≡ new b) ⊎ ((i : ℕ) × (get_elem? bs i ≡ some b))

  -- The header is empty again, and every home block is new.
  pub record After (d : ℕ → Block) : Type 0 where
    pub empty : d start 0 ≡ 0
    pub installed : (b : ℕ) → Home start b → d b ≡ new b

  -- The transaction: it fits in the log, lies outside of it, and changes only its blocks.
  pub record IsTransaction : Type 0 where
    pub fits : length bs ≤ logsize
    pub homes : (i b : ℕ) → get_elem? bs i ≡ some b → Home start b
    pub only : (b : ℕ) → Home start b → (old b ≡ new b) ⊎ ((i : ℕ) × (get_elem? bs i ≡ some b))

  -- While the log is written: what is in the cache, and with power left on the disk.
  pub record Logging (tail : ℕ) (s : Store) : Type 0 where
    pub before : Before s.disk
    pub current : (b : ℕ) → Home start b → s.cache b ≡ new b
    pub copies : (i b : ℕ) → i < tail → get_elem? bs i ≡ some b → s.cache (start + i + 1) ≡ new b
    pub slots :
        (i b : ℕ)
        → 0 < s.power
        → i < tail
        → get_elem? bs i ≡ some b
        → s.disk (start + i + 1) ≡ new b

  -- While the blocks go home.
  pub record Installing (tail : ℕ) (s : Store) : Type 0 where
    pub phase : (Before s.disk × (s.power ≡ 0)) ⊎ Committed s.disk
    pub copies : (i b : ℕ) → get_elem? bs i ≡ some b → s.cache (start + i + 1) ≡ new b
    pub done : (i b : ℕ) → 0 < s.power → i < tail → get_elem? bs i ≡ some b → s.disk b ≡ new b

-- The rest of a list from `tail` on.
abbrev pub Suffix : List ℕ → ℕ → List ℕ → Type 0
Suffix bs tail rest = (j b : ℕ) → get_elem? rest j ≡ some b → get_elem? bs (tail + j) ≡ some b

pub Suffix-head :
    (bs : List ℕ) (tail b : ℕ) (rest : List ℕ)
    → Suffix bs tail (b ∷ rest)
    → get_elem? bs tail ≡ some b
Suffix-head bs tail b rest h =
    subst (λ k. get_elem? bs k ≡ some b) (let e : tail + 0 ≡ tail = omega arith in e) (h 0 b refl)

pub Suffix-tail :
    (bs : List ℕ) (tail b : ℕ) (rest : List ℕ)
    → Suffix bs tail (b ∷ rest)
    → Suffix bs (tail + 1) rest
Suffix-tail bs tail b rest h j c e =
    subst (λ k. get_elem? bs k ≡ some c) (let q : tail + suc j ≡ tail + 1 + j = omega arith in q)
      (h (suc j) c e)

pub Suffix-self : (bs : List ℕ) → Suffix bs 0 bs
Suffix-self bs j b e = subst (λ k. get_elem? bs k ≡ some b) (let q : j ≡ 0 + j = omega arith in q) e

pub get_elem?-length : (l : List ℕ) (i : ℕ) {b : ℕ} → get_elem? l i ≡ some b → i < length l
get_elem?-length [] i e = cc
get_elem?-length (x ∷ l) zero e = omega arith
get_elem?-length (x ∷ l) (suc i) e = omega (arith, get_elem?-length l i e)

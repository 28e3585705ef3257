-- ===== src/Bcache.antt =====
-- bio.c: the buffer cache.
-- A buffer is its index in the array, and the list through `next` and `prev` is the list of their
-- indices from the one used last. The contents of the buffers and their sleep locks are left out:
-- a count of users takes in those that wait for the lock.
pub mod Users
pub mod Lookup
pub mod Sound
pub mod Reads
pub mod Sharing
mod Tests
use os_lab.Base.{
  ℕ, ◌+◌, ◌-◌, Bool, true, false, not, ◌&&◌, Option, none, some, List, [], ◌∷◌, ◌==◌, if◌then◌else◌,
  Outcome, ok, panic, ◌>>=◌, update, without, zero, suc,
}

pub record Buf : Type 0 where
  pub dev : ℕ
  pub blockno : ℕ
  pub refcnt : ℕ
  pub valid : Bool
  pub dirty : Bool

pub record Bcache : Type 0 where
  pub bufs : ℕ → Buf
  pub order : List ℕ

abbrev pub nbuf : ℕ
nbuf = 30

-- The loop of binit: each buffer goes to the front.
abbrev pub chain : ℕ → List ℕ
chain zero = []
chain (suc i) = i ∷ chain i

abbrev pub binit : Bcache
binit = record {
  bufs = λ _. record { dev = 0; blockno = 0; refcnt = 0; valid = false; dirty = false };
  order = chain nbuf;
}

abbrev pub is_block : Buf → ℕ → ℕ → Bool
is_block b dev blockno = (b.dev == dev) && (b.blockno == blockno)

-- The first loop of bget.
unfoldable pub find_block : (ℕ → Buf) → ℕ → ℕ → List ℕ → Option ℕ
find_block bufs dev blockno [] = none
find_block bufs dev blockno (i ∷ rest) =
    let later = find_block bufs dev blockno rest in
    if is_block (bufs i) dev blockno then some i else later

-- Its second loop, from the end of the list.
unfoldable pub find_unused : (ℕ → Buf) → List ℕ → Option ℕ
find_unused bufs [] = none
find_unused bufs (i ∷ rest) = elim (find_unused bufs rest) [
  | some j ↦ some j
  | none ↦ if ((bufs i).refcnt == 0) && not (bufs i).dirty then some i else none
]

unfoldable pub bget : Bcache → ℕ → ℕ → Outcome (Bcache × ℕ)
unfolding find_block find_unused
bget c dev blockno = elim (find_block c.bufs dev blockno c.order) [
  | some i ↦
      let b : Buf = record (c.bufs i) { refcnt = (c.bufs i).refcnt + 1 } in
      ok (record c { bufs = update c.bufs i b }, i)
  | none ↦ elim (find_unused c.bufs c.order) [
    | none ↦ panic
    | some i ↦
        let b : Buf = record {
          dev = dev;
          blockno = blockno;
          refcnt = 1;
          valid = false;
          dirty = false;
        } in
        ok (record c { bufs = update c.bufs i b }, i)
  ]
]

-- The flags when the disk is done with a buffer.
abbrev pub iderw : Bcache → ℕ → Bcache
iderw c i = record c { bufs = update c.bufs i (record (c.bufs i) { valid = true; dirty = false }) }

unfoldable pub bread : Bcache → ℕ → ℕ → Outcome (Bcache × ℕ)
unfolding bget
bread c dev blockno =
    bget c dev blockno >>= (λ (new, i). ok (if (new.bufs i).valid then new else iderw new i, i))

abbrev pub bwrite : Bcache → ℕ → Bcache
bwrite c i = iderw (record c { bufs = update c.bufs i (record (c.bufs i) { dirty = true }) }) i

-- The caller counts in `refcnt`.
unfoldable pub brelse : Bcache → ℕ → Bcache
unfolding without
brelse c i =
    let left = (c.bufs i).refcnt - 1 in
    let bufs = update c.bufs i (record (c.bufs i) { refcnt = left }) in
    if left == 0
    then record { bufs = bufs; order = i ∷ without i c.order }
    else record { bufs = bufs; order = c.order }

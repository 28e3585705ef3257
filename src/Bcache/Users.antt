-- ===== src/Bcache/Users.antt =====
-- Users that read, write and release blocks, in any order.
use os_lab.Base.{ℕ, ◌<◌, ◌≡◌, true, Option, none, some, ok, update}
use os_lab.Bcache.{Bcache, binit, bread, bwrite, brelse}

-- The buffer that a user has from bread, and the block that it asked for.
pub record Use : Type 0 where
  pub buf : ℕ
  pub dev : ℕ
  pub blockno : ℕ

pub record System : Type 0 where
  pub cache : Bcache
  pub users : ℕ → Option Use

-- `b->flags |= B_DIRTY` of log_write.
abbrev pub pin : Bcache → ℕ → Bcache
pin c i = record c { bufs = update c.bufs i (record (c.bufs i) { dirty = true }) }

-- Devices are numbered from 1.
pub data Step (n : ℕ) (s : System) : System → Type 0 where
  reads :
      (d dev blockno : ℕ) {c : Bcache} {i : ℕ}
      → d < n
      → s.users d ≡ none
      → 0 < dev
      → bread s.cache dev blockno ≡ ok (c, i)
      → Step n s (record {
        cache = c;
        users = update s.users d (some (record { buf = i; dev = dev; blockno = blockno }));
      })
  writes :
      (d : ℕ) {u : Use}
      → d < n
      → s.users d ≡ some u
      → Step n s (record s { cache = bwrite s.cache u.buf })
  pins :
      (d : ℕ) {u : Use}
      → d < n
      → s.users d ≡ some u
      → Step n s (record s { cache = pin s.cache u.buf })
  releases :
      (d : ℕ) {u : Use}
      → d < n
      → s.users d ≡ some u
      → Step n s (record { cache = brelse s.cache u.buf; users = update s.users d none })

abbrev pub start : System
start = record { cache = binit; users = λ _. none }

pub data Reach (n : ℕ) : System → Type 0 where
  init : Reach n start
  next : {s t : System} → Reach n s → Step n s t → Reach n t

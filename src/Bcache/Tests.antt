-- ===== src/Bcache/Tests.antt =====
-- Two users of the buffer cache.
use os_lab.Base.{without, ℕ, ◌≡◌, refl, ◌↔◌, true, false, some, ◌∷◌, arith, ok, update, weigh}
use os_lab.Bcache.{Buf, Bcache, binit, find_block, find_unused, bget, bread, brelse}
use os_lab.Bcache.Users.{Use, System, reads, start, Reach, init, next}
use os_lab.Bcache.Sound.{has}
use os_lab.Bcache.Sharing.{buffers_shared}

abbrev read_in : ℕ → Buf
read_in count = record { dev = 1; blockno = 7; refcnt = count; valid = true; dirty = false }

-- binit leaves buffer 0 at the end of the list.
abbrev once : Bcache
once = record binit {
  bufs = update (update binit.bufs 0 (record (read_in 1) { valid = false })) 0 (read_in 1);
}

abbrev twice : Bcache
twice = record once { bufs = update once.bufs 0 (read_in 2) }

first_read : bread binit 1 7 ≡ ok (once, 0)
unfolding bread bget find_block find_unused
first_read = refl

second_read : bread once 1 7 ≡ ok (twice, 0)
unfolding bread bget find_block find_unused
second_read = refl

-- The buffer goes to the front when no user is left.
released : (brelse once 0).order ≡ 0 ∷ without 0 binit.order
unfolding brelse
released = refl

abbrev block_seven : Use
block_seven = record { buf = 0; dev = 1; blockno = 7 }

abbrev both : System
both = record {
  cache = twice;
  users = update (update start.users 0 (some block_seven)) 1 (some block_seven);
}

both-Reach : Reach 2 both
both-Reach =
    next (next init (reads 0 1 7 (omega arith) refl (omega arith) first_read))
      (reads 1 1 7 (omega arith) refl (omega arith) second_read)

buffers_shared_example :
    ((block_seven.buf ≡ block_seven.buf)
      ↔ ((block_seven.dev ≡ block_seven.dev) × (block_seven.blockno ≡ block_seven.blockno)))
    × ((both.cache.bufs 0).dev ≡ 1)
    × ((both.cache.bufs 0).blockno ≡ 7)
    × ((both.cache.bufs 0).refcnt ≡ weigh (has 0) 2 both.users)
buffers_shared_example =
    buffers_shared 2 both-Reach 0 1 {u = block_seven} {w = block_seven} (omega arith) (omega arith)
      refl refl

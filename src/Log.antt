-- ===== src/Log.antt =====
-- log.c: the file system's redo log.
-- A block is its 128 words. Of the buffer cache the log relies on this: `bread` gives a block's
-- cached copy, which is the disk's unless the block was changed since, and `bwrite` puts that copy
-- on the disk, a whole block at once. Power may fail: `power` says how many more writes reach the
-- disk, so that a statement for every `power` is one for every moment of a crash.
pub mod Reserve
pub mod Crash
pub mod Steps
pub mod Atomic
mod Tests
use os_lab.Base.{
  ℕ, zero, suc, ◌+◌, ◌-◌, ◌*◌, Bool, true, false, ◌||◌, Option, none, some, List, [], ◌∷◌, ltb, leb,
  ◌==◌, if◌then◌else◌, Outcome, ok, panic, length, update,
}

abbrev pub maxopblocks : ℕ
maxopblocks = 10

abbrev pub logsize : ℕ
logsize = maxopblocks * 3

abbrev pub Block : Type 0
Block = ℕ → ℕ

pub record Store : Type 0 where
  pub disk : ℕ → Block
  pub cache : ℕ → Block
  pub power : ℕ

unfoldable pub bwrite : ℕ → Store → Store
bwrite b s =
    if s.power == 0 then s else record s { disk = update s.disk b (s.cache b); power = s.power - 1 }

-- `memmove(buf->data, data, BSIZE)`
abbrev pub modify : ℕ → Block → Store → Store
modify b content s = record s { cache = update s.cache b content }

-- `hb->block[i] = log.lh.block[i]` from index `i` on; word 0 is `n`.
unfoldable pub store_blocks : ℕ → List ℕ → Block → Block
store_blocks i [] hb = hb
store_blocks i (b ∷ bs) hb = store_blocks (i + 1) bs (update hb (i + 1) b)

-- `log.lh.block[i] = lh->block[i]` from index `i` on, `n` times.
unfoldable pub load_blocks : ℕ → ℕ → Block → List ℕ
load_blocks i zero lh = []
load_blocks i (suc n) lh = lh (i + 1) ∷ load_blocks (i + 1) n lh

-- `log.start`, and the in-memory header as the list of its blocks.
module _ (start : ℕ) where
  unfoldable pub write_head : List ℕ → Store → Store
  unfolding bwrite store_blocks
  write_head lh s =
      bwrite start (modify start (store_blocks 0 lh (update (s.cache start) 0 (length lh))) s)

  unfoldable pub read_head : Store → List ℕ
  unfolding load_blocks
  read_head s = load_blocks 0 (s.cache start 0) (s.cache start)

  unfoldable pub install_from : ℕ → List ℕ → Store → Store
  unfolding bwrite
  install_from tail [] s = s
  install_from tail (b ∷ bs) s =
      install_from (tail + 1) bs (bwrite b (modify b (s.cache (start + tail + 1)) s))

  unfoldable pub install_trans : List ℕ → Store → Store
  unfolding install_from
  install_trans lh s = install_from 0 lh s

  unfoldable pub write_log_from : ℕ → List ℕ → Store → Store
  unfolding bwrite
  write_log_from tail [] s = s
  write_log_from tail (b ∷ bs) s =
      write_log_from (tail + 1) bs
        (bwrite (start + tail + 1) (modify (start + tail + 1) (s.cache b) s))

  unfoldable pub write_log : List ℕ → Store → Store
  unfolding write_log_from
  write_log lh s = write_log_from 0 lh s

  -- The header that is left is the empty one.
  unfoldable pub commit : List ℕ → Store → Store
  unfolding write_log write_head install_trans
  commit lh s =
      if ltb 0 (length lh)
      then write_head [] (install_trans lh (write_head lh (write_log lh s)))
      else s

  unfoldable pub recover_from_log : Store → Store
  unfolding read_head install_trans write_head
  recover_from_log s = write_head [] (install_trans (read_head s) s)

-- `struct log`, less its spinlock and device; `committing` is a flag, `lh` the blocks of the header.
pub record Log : Type 0 where
  pub size : ℕ
  pub outstanding : ℕ
  pub committing : Bool
  pub lh : List ℕ

-- One pass of the loop: `none` is a `sleep` on the log.
unfoldable pub begin_op : Log → Option Log
begin_op l =
    if l.committing
    then none
    else (if ltb logsize (length l.lh + (l.outstanding + 1) * maxopblocks)
        then none
        else some (record l { outstanding = l.outstanding + 1 }))

-- The first part of `end_op`: the log, and whether the caller has to commit. The code decrements
-- `outstanding` at once; `begin_op` has made it positive.
unfoldable pub end_op : Log → Outcome (Log × Bool)
end_op l =
    let l' = record l { outstanding = l.outstanding - 1 } in
    if l.committing
    then panic
    else ok (if l'.outstanding == 0 then (record l' { committing = true }, true) else (l', false))

-- `commit` has emptied the header; what `end_op` does behind it.
unfoldable pub end_commit : Log → Log
end_commit l = record l { committing = false; lh = [] }

-- Log absorption: a block that is there keeps its place, another is added at the end.
unfoldable pub absorb : ℕ → List ℕ → List ℕ
absorb b [] = b ∷ []
absorb b (c ∷ cs) = if c == b then b ∷ cs else c ∷ absorb b cs

unfoldable pub log_write : Log → ℕ → Outcome Log
unfolding absorb
log_write l b =
    if leb logsize (length l.lh) || leb (l.size - 1) (length l.lh)
    then panic
    else (if ltb l.outstanding 1 then panic else ok (record l { lh = absorb b l.lh }))

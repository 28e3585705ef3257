-- ===== src/Fs.antt =====
-- fs.c: blocks, and the contents of files.
-- `blocks` are the contents of the blocks as the buffer cache has them, `used` the bits of the free
-- map, and `dinodes` the inodes on the disk. `marked` are the blocks with which log_write has been
-- called, the last one first: each call is there, and logged_writei runs them, since a panic is the same
-- wherever in the call it comes.
pub mod Blocks
pub mod Mapping
pub mod Causes
pub mod Direct
pub mod Words
pub mod Bmap
pub mod Contents
pub mod Files
pub mod Pokes
pub mod Writes
pub mod Logged
pub mod Marks
pub mod Inodes
mod Tests
use os_lab.Base.{
  ℕ, zero, suc, ◌+◌, ◌-◌, ◌*◌, ◌/◌, ◌%◌, ◌^◌, Bool, true, false, ◌&&◌, ◌||◌, Option, none, some,
  List, [], ◌∷◌, ◌++◌, map, ltb, leb, ◌==◌, if◌then◌else◌, Outcome, ok, panic, ◌>>=◌, length, take,
  drop, update,
}
use os_lab.KString.{store_word}
use os_lab.Syscall.{word}
use os_lab.Log.{Log, log_write}

abbrev pub bsize : ℕ
bsize = 512

abbrev pub ndirect : ℕ
ndirect = 12

abbrev pub nindirect : ℕ
nindirect = 128

abbrev pub maxfile : ℕ
maxfile = ndirect + nindirect

abbrev pub t_dev : ℕ
t_dev = 3

pub record Inode : Type 0 where
  pub type : ℕ
  pub major : ℕ
  pub minor : ℕ
  pub nlink : ℕ
  pub size : ℕ
  pub addrs : ℕ → ℕ

pub record Fs : Type 0 where
  pub blocks : ℕ → ℕ → ℕ
  pub used : ℕ → Bool
  pub dinodes : ℕ → Inode
  pub marked : List ℕ
  pub bmapstart : ℕ
  pub inodestart : ℕ

-- The calls of log_write that are marked, the first one at the end of the list.
unfoldable pub log_calls : Log → List ℕ → Outcome Log
log_calls l [] = ok l
log_calls l (b ∷ bs) = log_calls l bs >>= (λ k. log_write k b)

-- `BBLOCK` and `IBLOCK`
abbrev pub bblock : Fs → ℕ → ℕ
bblock fs b = b / 4096 + fs.bmapstart

abbrev pub iblock : Fs → ℕ → ℕ
iblock fs inum = inum / 8 + fs.inodestart

abbrev pub bzero : Fs → ℕ → Fs
bzero fs b = record fs { blocks = update fs.blocks b (λ _. 0); marked = b ∷ fs.marked }

-- The two loops of balloc, over the blocks of the map and their bits, as one.
unfoldable pub first_free : (ℕ → Bool) → ℕ → ℕ → Option ℕ
first_free used b zero = none
first_free used b (suc left) =
    let rest = first_free used (b + 1) left in if used b then rest else some b

-- `size` is that of the superblock.
unfoldable pub balloc : ℕ → Fs → Outcome (Fs × ℕ)
unfolding first_free
balloc size fs = elim (first_free fs.used 0 size) [
  | none ↦ panic
  | some b ↦
      ok (bzero (record fs { used = update fs.used b true; marked = bblock fs b ∷ fs.marked }) b, b)
]

unfoldable pub bfree : Fs → ℕ → Outcome Fs
bfree fs b =
    if fs.used b
    then ok (record fs { used = update fs.used b false; marked = bblock fs b ∷ fs.marked })
    else panic

abbrev pub iupdate : Fs → ℕ → Inode → Fs
iupdate fs inum ip = record fs {
  dinodes = update fs.dinodes inum ip;
  marked = iblock fs inum ∷ fs.marked;
}

abbrev pub set_addr : Inode → ℕ → ℕ → Inode
set_addr ip i a = record ip { addrs = update ip.addrs i a }

-- The block at an index of `addrs`, which is allocated if there is none.
unfoldable pub map_direct : ℕ → Fs → Inode → ℕ → Outcome (Fs × Inode × ℕ)
unfolding balloc
map_direct size fs ip i =
    if ip.addrs i == 0
    then balloc size fs >>= (λ (new, a). ok (new, set_addr ip i a, a))
    else ok (fs, ip, ip.addrs i)

-- The block at a word of the indirect block `b`.
unfoldable pub map_word : ℕ → Fs → ℕ → ℕ → Outcome (Fs × ℕ)
unfolding balloc
map_word size fs b i =
    let a = word (fs.blocks b) (4 * i) in
    if a == 0
    then balloc size fs >>= (λ (new, a). ok (
      record new {
        blocks = update new.blocks b (store_word (4 * i) a (new.blocks b));
        marked = b ∷ new.marked;
      },
      a,
    ))
    else ok (fs, a)

unfoldable pub bmap : ℕ → Fs → Inode → ℕ → Outcome (Fs × Inode × ℕ)
unfolding map_direct map_word
bmap size fs ip bn =
    if ltb bn ndirect
    then map_direct size fs ip bn
    else if ltb (bn - ndirect) nindirect
    then map_direct size fs ip ndirect
      >>= (λ (fs, ip, b). map_word size fs b (bn - ndirect) >>= (λ (fs, a). ok (fs, ip, a)))
    else panic

-- `n` bytes from `o` on.
unfoldable pub slice : (ℕ → ℕ) → ℕ → ℕ → List ℕ
slice f o zero = []
slice f o (suc n) = f o ∷ slice f (o + 1) n

-- `f` with the bytes put in from `o` on.
unfoldable pub put : (ℕ → ℕ) → ℕ → List ℕ → ℕ → ℕ
put f o [] = f
put f o (x ∷ xs) = put (update f o x) (o + 1) xs

abbrev pub min_of : ℕ → ℕ → ℕ
min_of a b = if ltb a b then a else b

-- The loop of readi; each round takes one byte at least.
unfoldable pub read_from : ℕ → ℕ → Fs → Inode → ℕ → ℕ → Outcome (Fs × Inode × List ℕ)
unfolding bmap slice
read_from zero size fs ip off n = ok (fs, ip, [])
read_from (suc rounds) size fs ip off n = elim (n == 0) [
  | true ↦ ok (fs, ip, [])
  | false ↦ bmap size fs ip (off / bsize) >>= (λ (new, jp, a).
      let m = min_of n (bsize - off % bsize) in
      read_from rounds size new jp (off + m) (n - m)
      >>= (λ (last, kp, rest). ok (last, kp, slice (new.blocks a) (off % bsize) m ++ rest)))
]

-- The loop of writei.
unfoldable pub write_from : ℕ → ℕ → Fs → Inode → ℕ → List ℕ → Outcome (Fs × Inode)
unfolding bmap put
write_from zero size fs ip off src = ok (fs, ip)
write_from (suc rounds) size fs ip off src = elim (length src == 0) [
  | true ↦ ok (fs, ip)
  | false ↦ bmap size fs ip (off / bsize) >>= (λ (fs, ip, a).
      let m = min_of (length src) (bsize - off % bsize) in
      write_from rounds size
        (record fs {
          blocks = update fs.blocks a (put (fs.blocks a) (off % bsize) (take m src));
          marked = a ∷ fs.marked;
        })
        ip (off + m) (drop m src))
]

-- What a device is asked for, the failure -1, or the answer.
pub data Io (A : Type 0) : Type 0 where
  device_call io_failed : Io A
  done : A → Io A

unfoldable pub readi : ℕ → Fs → Inode → ℕ → ℕ → Outcome (Fs × Inode × Io (List ℕ))
unfolding read_from
readi size fs ip off n =
    let m = if ltb ip.size (off + n) then ip.size - off else n in
    if ip.type == t_dev
    then ok (fs, ip, device_call)
    else if ltb ip.size off || leb (2 ^ 32) (off + n)
    then ok (fs, ip, io_failed)
    else read_from m size fs ip off m >>= (λ (fs, ip, bytes). ok (fs, ip, done bytes))

-- The answer is the number of bytes.
unfoldable pub writei : ℕ → Fs → ℕ → Inode → ℕ → List ℕ → Outcome (Fs × Inode × Io ℕ)
unfolding write_from
writei size fs inum ip off src =
    let n = length src in
    if ip.type == t_dev
    then ok (fs, ip, device_call)
    else if ltb ip.size off || leb (2 ^ 32) (off + n) || ltb (maxfile * bsize) (off + n)
    then ok (fs, ip, io_failed)
    else write_from n size fs ip off src >>= (λ (fs, ip).
      let grown = record ip { size = off + n } in
      if ltb 0 n && ltb ip.size (off + n)
      then ok (iupdate fs inum grown, grown, done n)
      else ok (fs, ip, done n))

-- writei between begin_op and end_op, with the log `l`.
unfoldable pub logged_writei :
    Log → ℕ → Fs → ℕ → Inode → ℕ → List ℕ → Outcome (Log × Fs × Inode × Io ℕ)
unfolding writei log_calls
logged_writei l size fs inum ip off src =
    writei size (record fs { marked = [] }) inum ip off src
    >>= (λ (new, jp, r). log_calls l new.marked >>= (λ k. ok (k, new, jp, r)))

-- ===== src/File.antt =====
-- file.c: the file table, with the number of references to each of its entries.
pub mod References
mod Tests
use os_lab.Base.{
  ℕ, zero, suc, ◌+◌, ◌-◌, Bool, Option, none, some, ltb, ◌==◌, if◌then◌else◌, Outcome, ok, panic,
  update,
}

abbrev pub nfile : ℕ
nfile = 100

pub data FileType : Type 0 where
  fd_none fd_pipe fd_inode : FileType

-- What an entry refers to is a number.
pub record File : Type 0 where
  pub type : FileType
  pub ref : ℕ
  pub readable : Bool
  pub writable : Bool
  pub target : ℕ

-- The loop of `filealloc`: the first entry without a reference.
unfoldable pub find_free : (ℕ → File) → ℕ → ℕ → Option ℕ
find_free files i zero = none
find_free files i (suc left) =
    let rest = find_free files (i + 1) left in if (files i).ref == 0 then some i else rest

unfoldable pub filealloc : (ℕ → File) → (ℕ → File) × Option ℕ
unfolding find_free
filealloc files = elim (find_free files 0 nfile) [
  | none ↦ (files, none)
  | some i ↦ (update files i (record (files i) { ref = 1 }), some i)
]

unfoldable pub filedup : (ℕ → File) → ℕ → Outcome (ℕ → File)
filedup files i =
    if ltb (files i).ref 1
    then panic
    else ok (update files i (record (files i) { ref = (files i).ref + 1 }))

-- What fileclose goes on to release: nothing, or the last reference to a pipe's end or an inode.
unfoldable pub fileclose : (ℕ → File) → ℕ → Outcome ((ℕ → File) × Option File)
fileclose files i =
    if ltb (files i).ref 1
    then panic
    else if ltb 0 ((files i).ref - 1)
    then ok (update files i (record (files i) { ref = (files i).ref - 1 }), none)
    else ok (update files i (record (files i) { ref = 0; type = fd_none }), some (files i))

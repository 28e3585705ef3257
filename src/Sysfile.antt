-- ===== src/Sysfile.antt =====
-- sysfile.c: the descriptors of processes, and the calls that give, copy and close them.
-- The descriptors of all processes stand in one table, sixteen for each. The file that fileclose
-- releases last, to pipeclose or iput, is left out here. An argument is what argint gives for it.
pub mod Calls
pub mod History
mod Tests
use os_lab.Base.{
  ℕ, zero, suc, ◌+◌, ◌*◌, Option, none, some, leb, if◌then◌else◌, Outcome, ok, ◌>>=◌, update, ℤ,
  pos, negsuc, minus_one,
}
use os_lab.File.{File, filealloc, filedup, fileclose}
use os_lab.File.References.{System}

abbrev pub nofile : ℕ
nofile = 16

-- `ofile[fd]` of the process `p`.
abbrev pub slot : ℕ → ℕ → ℕ
slot p fd = nofile * p + fd

-- The loop of fdalloc.
unfoldable pub first_null : (ℕ → Option ℕ) → ℕ → ℕ → ℕ → Option ℕ
first_null fds p fd zero = none
first_null fds p fd (suc left) =
    let rest = first_null fds p (fd + 1) left in
    elim (fds (slot p fd)) [ none ↦ some fd | some f ↦ rest ]

unfoldable pub fdalloc : System → ℕ → ℕ → System × Option ℕ
fdalloc s p f = elim (first_null s.fds p 0 nofile) [
  | none ↦ (s, none)
  | some fd ↦ (record s { fds = update s.fds (slot p fd) (some f) }, some fd)
]

unfoldable pub argfd : System → ℕ → Option ℤ → Option (ℕ × ℕ)
argfd s p none = none
argfd s p (some (negsuc k)) = none
argfd s p (some (pos fd)) =
    if leb nofile fd then none else elim (s.fds (slot p fd)) [ none ↦ none | some f ↦ some (fd, f) ]

unfoldable pub sys_dup : System → ℕ → Option ℤ → Outcome (System × ℤ)
sys_dup s p arg = elim (argfd s p arg) [
  | none ↦ ok (s, minus_one)
  | some (fd, f) ↦
      let (new, got) = fdalloc s p f in
      elim got [
        | none ↦ ok (new, minus_one)
        | some copy ↦ filedup new.files f >>= (λ files. ok (record new { files = files }, pos copy))
      ]
]

unfoldable pub sys_close : System → ℕ → Option ℤ → Outcome (System × ℤ)
sys_close s p arg = elim (argfd s p arg) [
  | none ↦ ok (s, minus_one)
  | some (fd, f) ↦ fileclose s.files f >>= (λ (files, last).
      ok (record { files = files; fds = update s.fds (slot p fd) none }, pos 0))
]

-- The end of sys_open, when the inode is found: `opened` is how it fills the entry.
unfoldable pub open_file : System → ℕ → (File → File) → Outcome (System × ℤ)
open_file s p opened =
    let (files, got) = filealloc s.files in
    elim got [
      | none ↦ ok (s, minus_one)
      | some f ↦
          let (new, fd) = fdalloc (record s { files = files }) p f in
          elim fd [
            | none ↦
                fileclose files f >>= (λ (back, last). ok (record s { files = back }, minus_one))
            | some d ↦ ok (record new { files = update files f (opened (files f)) }, pos d)
          ]
    ]

-- The loop of fork over the descriptors of the parent `p`.
unfoldable pub copy_files : ℕ → System → ℕ → ℕ → ℕ → Outcome System
copy_files zero s p q i = ok s
copy_files (suc left) s p q i = elim (s.fds (slot p i)) [
  | none ↦ copy_files left s p q (i + 1)
  | some f ↦ filedup s.files f >>= (λ files.
      copy_files left (record { files = files; fds = update s.fds (slot q i) (some f) }) p q
        (i + 1))
]

-- The loop of exit over the descriptors of `p`.
unfoldable pub close_files : ℕ → System → ℕ → ℕ → Outcome System
close_files zero s p fd = ok s
close_files (suc left) s p fd = elim (s.fds (slot p fd)) [
  | none ↦ close_files left s p (fd + 1)
  | some f ↦ fileclose s.files f >>= (λ (files, last).
      close_files left (record { files = files; fds = update s.fds (slot p fd) none }) p (fd + 1))
]

-- ===== src/Sysfile/History.antt =====
-- What holds of the descriptors after any calls.
use os_lab.Base.{ℕ, ◌<◌, ◌≡◌, Option, none, ok, ℤ}
use os_lab.File.{File}
use os_lab.File.References.{System, start}
use os_lab.Sysfile.{nofile, slot, sys_dup, sys_close, open_file, copy_files, close_files}

-- A call that one of 64 processes makes; fork gives its child an entry whose descriptors are free.
pub data Call (s : System) : System → Type 0 where
  dup_call :
      (p : ℕ) (arg : Option ℤ) {u : System} {v : ℤ}
      → p < 64
      → sys_dup s p arg ≡ ok (u, v)
      → Call s u
  close_call :
      (p : ℕ) (arg : Option ℤ) {u : System} {v : ℤ}
      → p < 64
      → sys_close s p arg ≡ ok (u, v)
      → Call s u
  open_call :
      (p : ℕ) (opened : File → File) {u : System} {v : ℤ}
      → p < 64
      → ((f : File) → (opened f).ref ≡ f.ref)
      → open_file s p opened ≡ ok (u, v)
      → Call s u
  fork_call :
      (p q : ℕ) {u : System}
      → p < 64
      → q < 64
      → ((j : ℕ) → j < nofile → s.fds (slot q j) ≡ none)
      → copy_files nofile s p q 0 ≡ ok u
      → Call s u
  exit_call : (p : ℕ) {u : System} → p < 64 → close_files nofile s p 0 ≡ ok u → Call s u

pub data History : System → Type 0 where
  boot : History start
  and_then : {s u : System} → History s → Call s u → History u

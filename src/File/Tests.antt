-- ===== src/File/Tests.antt =====
-- file.c with two descriptors.
use os_lab.Base.{ℕ, ◌≡◌, refl, some, arith, ok, update}
use os_lab.File.{File, find_free, filealloc, fileclose}
use os_lab.File.References.{System, start, opens, Reach, here, next}

abbrev opened : System
opened = record { files = (filealloc start.files).0; fds = update start.fds 0 (some 0) }

reached : Reach 2 opened
unfolding filealloc find_free
reached = next here (opens 0 0 (omega arith) refl refl)

last_one : (files : ℕ → File) × (f : File) × (fileclose opened.files 0 ≡ ok (files, some f))
unfolding filealloc find_free fileclose
last_one = (_, _, refl)

-- ===== src/Sysfile/Tests.antt =====
-- sysfile.c: a process opens a file and forks.
use os_lab.Base.{◌+◌, ◌≡◌, refl, true, some, ok, update, pos, negsuc}
use os_lab.File.{File, fd_inode, find_free, filealloc, filedup}
use os_lab.File.References.{System, start}
use os_lab.Sysfile.{first_null, fdalloc, argfd, sys_dup, sys_close}

abbrev as_inode : File → File
as_inode f = record f { type = fd_inode; readable = true }

abbrev one_open : System
one_open = record {
  files = update (filealloc start.files).0 0 (as_inode ((filealloc start.files).0 0));
  fds = update start.fds 0 (some 0);
}

abbrev forked : System
forked = record {
  files = update one_open.files 0 (record (one_open.files 0) { ref = (one_open.files 0).ref + 1 });
  fds = update one_open.fds 16 (some 0);
}

dup_takes_next : (u : System) × (sys_dup forked 1 (some (pos 0)) ≡ ok (u, pos 1))
unfolding sys_dup argfd fdalloc first_null filedup filealloc find_free
dup_takes_next = (_, refl)

closed_is_refused : (sys_close forked 1 (some (pos 3)) ≡ ok (forked, negsuc 0))
unfolding sys_close argfd
closed_is_refused = refl

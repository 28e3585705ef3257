-- ===== src/Fs/Tests.antt =====
-- fs.c on a small file system.
use os_lab.Base.{
  ℕ, ◌≡◌, refl, sym, inl, inr, false, some, List, [], ◌∷◌, arith, ℕ_discrete, ltb, ◌==◌,
  if◌then◌else◌, ne→==, Bool-cases, ok, update_ne, update, weigh,
}
use os_lab.Log.{Log}
use os_lab.Fs.{Fs, Inode, slice, put, done, readi, first_free, logged_writei}
use os_lab.Fs.Blocks.{free}
use os_lab.Fs.Mapping.{ptr}
use os_lab.Fs.Files.{byte, NoHole}
use os_lab.Fs.Marks.{Sound}
use os_lab.Fs.Inodes.{clipped, readi_lem, readi-writei}

abbrev empty_file : Inode
empty_file = record { type = 2; major = 0; minor = 0; nlink = 1; size = 0; addrs = λ _. 0 }

-- Of 20 blocks the first 4 are in use.
abbrev small_fs : Fs
small_fs = record {
  blocks = λ _ _. 0;
  used = λ b. ltb b 4;
  dinodes = λ _. empty_file;
  marked = [];
  bmapstart = 3;
  inodestart = 2;
}

small_fs-free : free 20 small_fs ≡ 16
unfolding weigh
small_fs-free = refl

-- The fourth block is the first that is free.
takes_block_four : first_free small_fs.used 0 20 ≡ some 4
unfolding first_free
takes_block_four = refl

empty_file-Sound : Sound 20 small_fs empty_file
unfolding ptr
empty_file-Sound = record {
  small = omega arith;
  layout = record {
    boot = refl;
    ind_used = refl;
    ptr_used = λ c l. ground arith;
    apart = λ c l n e. n (ground arith);
    distinct = λ b c l m n e. absurd (n (ground arith));
  };
  no_device = omega arith;
  fits = omega arith;
}

abbrev three_bytes : List ℕ
three_bytes = 7 ∷ 8 ∷ 9 ∷ []

-- A file of three bytes in the block 4, of which 19 stand from the second one on.
abbrev short_file : Inode
short_file = record empty_file { size = 3; addrs = update (λ _. 0) 0 4 }

abbrev filled_fs : Fs
filled_fs = record small_fs {
  blocks = update (λ _ _. 0) 4 (put (λ _. 0) 0 three_bytes);
  used = λ b. ltb b 5;
}

short_file-ptr : (c : ℕ) → ptr filled_fs short_file c ≡ (if c == 0 then 4 else 0)
unfolding ptr
short_file-ptr c = elim (ℕ_discrete c 0) [
  | yes q ↦ rw q refl
  | no n ↦ elim (Bool-cases (ltb c 12)) [
    | inl y ↦ rw (y, ne→== c 0 n) (update_ne (λ _. 0) 0 4 c (λ e. n (sym e)))
    | inr m ↦ rw (m, ne→== c 0 n) refl
  ]
]

short_file-Sound : Sound 20 filled_fs short_file
short_file-Sound = record {
  small = omega arith;
  layout = record {
    boot = refl;
    ind_used = refl;
    ptr_used = λ c l. rw (short_file-ptr c) (ground arith);
    apart = λ c l n e. n (ground (arith, short_file-ptr c));
    distinct = λ b c l m n e. ground (arith, short_file-ptr b, short_file-ptr c);
  };
  no_device = omega arith;
  fits = omega arith;
}

short_file-NoHole : NoHole filled_fs short_file 1 (clipped short_file 1 8)
short_file-NoHole c h i j =
    let first : c ≡ 0 = omega arith in rw (short_file-ptr c, first) (omega arith)

-- Eight bytes are asked for, and there are two.
reads_two : slice (byte filled_fs short_file) 1 (clipped short_file 1 8) ≡ 8 ∷ 9 ∷ []
unfolding slice ptr put
reads_two = refl

readi_lem_example :
    readi 20 filled_fs short_file 1 8
    ≡ ok (filled_fs, short_file, done (slice (byte filled_fs short_file) 1 2))
readi_lem_example =
    readi_lem 20 filled_fs short_file 1 8 short_file-Sound (omega arith) (omega arith)
      short_file-NoHole

-- One operation is in progress, and has logged the block 9.
abbrev open_log : Log
open_log = record { size = 31; outstanding = 1; committing = false; lh = 9 ∷ [] }

readi-writei_example :
    (k : Log) × (new : Fs) × (jp : Inode) × (logged_writei open_log 20 small_fs 5 empty_file 0
        three_bytes
      ≡ ok (k, new, jp, done 3))
    × (readi 20 new jp 0 3 ≡ ok (new, jp, done three_bytes))
readi-writei_example =
    readi-writei open_log 20 small_fs 5 empty_file 0 three_bytes empty_file-Sound (omega arith)
      (omega arith) (omega (arith, small_fs-free)) (omega arith) (omega arith) (omega arith)
      (omega arith)

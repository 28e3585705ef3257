-- ===== src/Fs/Inodes.antt =====
-- readi and writei refine reading and writing one row of bytes. filewrite cuts what it writes into
-- pieces of three blocks, which touch four at most, and begin_op keeps ten for each operation.
use os_lab.Base.{
  ℕ, ◌+◌, ◌-◌, ◌*◌, ◌^◌, ◌≤◌, ◌<◌, ◌≡◌, refl, ap, ◌∙◌, inl, inr, false, ◌||◌, List, [], arith, ltb,
  leb, if◌then◌else◌, ne→==, ok, length,
}
use os_lab.Fs.{Fs, Inode, bsize, maxfile, slice, put, t_dev, done, readi, logged_writei, iblock}
use os_lab.Fs.Blocks.{free}
use os_lab.Fs.Mapping.{ptr}
use os_lab.Fs.Contents.{slice-shift, slice-put}
use os_lab.Fs.Files.{byte, touched, NoHole, read_from_lem}
use os_lab.Fs.Marks.{Sound, Written, Covered, writei_marks}
use os_lab.Fs.Logged.{log_calls_lem}
use os_lab.Log.{Log, logsize}

-- How many bytes readi gives of the `n` asked for.
abbrev pub clipped : Inode → ℕ → ℕ → ℕ
clipped ip off n = if ltb ip.size (off + n) then ip.size - off else n

-- readi at a place in a file that has a block wherever the stretch touches it, as files have that
-- grew by writei only, gives the bytes of the file from there on, as many as were asked for or as
-- there are up to the size. It allocates no block and has nothing to log, as fileread opens no
-- transaction: blocks, free map and inodes stay what they were.
pub readi_lem :
    (size : ℕ) (fs : Fs) (ip : Inode) (off n : ℕ)
    → Sound size fs ip
    → off ≤ ip.size
    → off + n < 2 ^ 32
    → NoHole fs ip off (clipped ip off n)
    → readi size fs ip off n ≡ ok (fs, ip, done (slice (byte fs ip) off (clipped ip off n)))
unfolding readi
readi_lem size fs ip off n v at_place no_wrap there =
    let m : ℕ = clipped ip off n in
    let e =
      read_from_lem size v.small m fs ip off m v.layout (omega arith) (ground (arith, v.fits))
        there in
    let past : ltb ip.size off || leb (2 ^ 32) (off + n) ≡ false = ground arith in
    rw (ne→== ip.type t_dev v.no_device, past, e) refl

-- With no calls of log_write yet, as at a begin_op.
abbrev unmarked : Fs → Fs
unmarked fs = record fs { marked = [] }

unmarked-Sound : {size : ℕ} {fs : Fs} {ip : Inode} → Sound size fs ip → Sound size (unmarked fs) ip
unfolding ptr
unmarked-Sound v = record {
  small = v.small;
  layout = v.layout;
  no_device = v.no_device;
  fits = v.fits;
}

unmarked-Written :
    {size : ℕ} {fs new : Fs} {inum : ℕ} {ip jp : Inode} {off : ℕ} {src : List ℕ}
    → Written size (unmarked fs) inum ip off src new jp
    → Written size fs inum ip off src new jp
unfolding ptr
unmarked-Written w = record {
  sound = w.sound;
  bytes = w.bytes;
  end_size = w.end_size;
  on_disk = w.on_disk;
  others = λ k r.
      w.others k
        (record { in_use = r.in_use; not_indirect = r.not_indirect; not_content = r.not_content });
  cost = w.cost;
  no_hole = w.no_hole;
}

pub writei_lem :
    (l : Log) (size : ℕ) (fs : Fs) (inum : ℕ) (ip : Inode) (off : ℕ) (src : List ℕ)
    → Sound size fs ip
    → off ≤ ip.size
    → off + length src ≤ maxfile * bsize
    → 2 * touched off (length src) ≤ free size fs
    → size ≤ bsize * 8
    → 0 < l.outstanding
    → length l.lh + (touched off (length src) + 3) < logsize
    → length l.lh + (touched off (length src) + 3) < l.size - 1
    → (k : Log) × (new : Fs) × (jp : Inode) × (logged_writei l size fs inum ip off src
        ≡ ok (k, new, jp, done (length src)))
      × Written size fs inum ip off src new jp
      × Covered fs inum ip off (length src) new k.lh
      × (length k.lh ≤ length l.lh + (touched off (length src) + 3))
unfolding logged_writei ptr
writei_lem l size fs inum ip off src v at_place fits room one_map inside short within =
    let (new, jp, e, w, c, (ds, long, all)) =
      writei_marks size (unmarked fs) inum ip off src (unmarked-Sound v) at_place fits room one_map
        refl in
    let (k, d, r) =
      log_calls_lem l new.marked ds all inside (omega (arith, long)) (omega (arith, long)) in
    (
      k,
      new,
      jp,
      rw (e, d) refl,
      unmarked-Written w,
      record {
        of_blocks = λ b. elim (c.of_blocks b) [ inl q ↦ inl q | inr t ↦ inr (r.logged b t) ];
        of_inode = λ y. r.logged (iblock new inum) (c.of_inode y);
      },
      omega (arith, long, r.more),
    )

-- What writei has put into a file, readi gives back, and readi changes nothing: under the
-- conditions under which writei succeeds in a transaction, both succeed one after the other.
pub readi-writei :
    (l : Log) (size : ℕ) (fs : Fs) (inum : ℕ) (ip : Inode) (off : ℕ) (src : List ℕ)
    → Sound size fs ip
    → off ≤ ip.size
    → off + length src ≤ maxfile * bsize
    → 2 * touched off (length src) ≤ free size fs
    → size ≤ bsize * 8
    → 0 < l.outstanding
    → length l.lh + (touched off (length src) + 3) < logsize
    → length l.lh + (touched off (length src) + 3) < l.size - 1
    → (k : Log) × (new : Fs) × (jp : Inode) × (logged_writei l size fs inum ip off src
        ≡ ok (k, new, jp, done (length src)))
      × (readi size new jp off (length src) ≡ ok (new, jp, done src))
readi-writei l size fs inum ip off src v at_place fits room one_map inside short within =
    let (k, new, jp, e, w, c, marks) =
      writei_lem l size fs inum ip off src v at_place fits room one_map inside short within in
    let far : off + length src ≤ jp.size = ground (arith, w.end_size) in
    let whole : clipped jp off (length src) ≡ length src = ground arith in
    let r =
      readi_lem size new jp off (length src) w.sound (omega arith) (omega arith)
        (rw whole w.no_hole) in
    let bytes : slice (byte new jp) off (clipped jp off (length src)) ≡ src = rw whole (
      slice-shift (byte new jp) (put (byte fs ip) off src) off off (length src)
        (λ j i. w.bytes (off + j) (omega arith))
      ∙ slice-put (byte fs ip) off src) in
    (k, new, jp, e, r ∙ ap (λ b. ok (new, jp, done b)) bytes)

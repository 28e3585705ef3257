-- ===== src/Fs/Marks.antt =====
-- A call of writei: what it puts into the file, and the blocks with which it calls log_write.
use os_lab.Base.{
  times, ℕ, zero, suc, ◌+◌, ◌*◌, ◌/◌, ◌^◌, ◌≤◌, ◌<◌, ◌≡◌, refl, sym, ◌∙◌, ◌≢◌, ◌⊎◌, inl, inr, true,
  false, ◌&&◌, ◌||◌, List, [], ◌∷◌, arith, ℕ_discrete, ltb, leb, if◌then◌else◌, eq→==, ne→==,
  Bool-cases, ok, length, update,
}
use os_lab.Fs.{
  ndirect, Fs, Inode, bsize, maxfile, slice, put, t_dev, done, writei, iblock, iupdate, write_from,
}
use os_lab.Fs.Blocks.{free}
use os_lab.Fs.Mapping.{ptr, Valid, Foreign}
use os_lab.Fs.Files.{byte, touched, NoHole}
use os_lab.Fs.Causes.{Cause, Causes, before, of_file, of_words, of_map, times-cons}
use os_lab.Fs.Writes.{write_from_lem}

-- A file that is no device, with a place in it.
pub record Sound (size : ℕ) (fs : Fs) (ip : Inode) : Type 0 where
  pub small : size ≤ 2 ^ 32
  pub layout : Valid fs ip
  pub no_device : ip.type ≢ t_dev
  pub fits : ip.size ≤ maxfile * bsize

-- The inode with its new size, on the disk too, has the same blocks.
ptr-iupdate :
    (fs : Fs) (inum n : ℕ) (ip : Inode)
    → ptr (iupdate fs inum (record ip { size = n })) (record ip { size = n }) ≡ ptr fs ip
unfolding ptr
ptr-iupdate fs inum n ip = refl

write_ends :
    (size : ℕ) (fs new : Fs) (inum : ℕ) (ip jp : Inode) (off : ℕ) (src : List ℕ)
    → Sound size fs ip
    → off ≤ ip.size
    → off + length src ≤ maxfile * bsize
    → write_from (length src) size fs ip off src ≡ ok (new, jp)
    → jp.size ≡ ip.size
    → writei size fs inum ip off src ≡ (
        if ltb ip.size (off + length src)
        then ok (
          iupdate new inum (record jp { size = off + length src }),
          record jp { size = off + length src },
          done (length src),
        )
        else ok (new, jp, done (length src)))
unfolding writei
write_ends size fs new inum ip jp off src v at_place fits e z =
    let past : ltb ip.size off
          || leb (2 ^ 32) (off + length src)
          || ltb (maxfile * bsize) (off + length src)
        ≡ false =
      ground (arith, v.fits) in
    let some_text : ltb 0 (length src) && ltb jp.size (off + length src)
        ≡ ltb ip.size (off + length src) =
      rw z (ground arith) in
    rw (ne→== ip.type t_dev v.no_device, past, e, some_text) refl

-- A file and the file system behind it after a write. `bytes`: the bytes are in the file and all
-- others are what they were. `end_size`: the size is the end of what is written if that is further
-- on. `on_disk`: then the inode is on the disk too. `others`: the blocks of other files are what
-- they were.
pub record Written (size : ℕ) (fs : Fs) (inum : ℕ) (ip : Inode) (off : ℕ) (src : List ℕ) (new : Fs)
    (jp : Inode) : Type 0 where
  pub sound : Sound size new jp
  pub bytes : (k : ℕ) → k < maxfile * bsize → byte new jp k ≡ put (byte fs ip) off src k
  pub end_size : jp.size ≡ (if ltb ip.size (off + length src) then off + length src else ip.size)
  pub on_disk :
      new.dinodes
      ≡ (if ltb ip.size (off + length src) then update fs.dinodes inum jp else fs.dinodes)
  pub others : (k : ℕ) → Foreign fs ip k → new.blocks k ≡ fs.blocks k
  pub cost : free size fs ≤ free size new + 2 * touched off (length src)
  pub no_hole : NoHole new jp off (length src)

-- What is on the disk differently is in `logged`, the inode's block too if it grew.
pub record Covered (fs : Fs) (inum : ℕ) (ip : Inode) (off n : ℕ) (new : Fs) (logged : List ℕ)
    : Type 0 where
  pub of_blocks : (b : ℕ) → (new.blocks b ≡ fs.blocks b) ⊎ (0 < times b logged)
  pub of_inode : ltb ip.size (off + n) ≡ true → 0 < times (iblock new inum) logged

-- The blocks that a write may have to log: that of the inode, the free map's only one, the indirect
-- block, and those of the stretch.
abbrev places : Fs → Inode → ℕ → ℕ → ℕ → List ℕ
places fs ip inum c n = iblock fs inum ∷ fs.bmapstart ∷ ip.addrs ndirect ∷ slice (ptr fs ip) c n

length-slice : (f : ℕ → ℕ) (o n : ℕ) → length (slice f o n) ≡ n
unfolding slice
length-slice f o zero = refl
length-slice f o (suc n) = omega (arith, length-slice f (o + 1) n)

length-places : (fs : Fs) (ip : Inode) (inum c n : ℕ) → length (places fs ip inum c n) ≡ n + 3
length-places fs ip inum c n = omega (arith, length-slice (ptr fs ip) c n)

times-slice : (f : ℕ → ℕ) (b o n c : ℕ) → o ≤ c → c < o + n → f c ≡ b → 0 < times b (slice f o n)
unfolding slice times
times-slice f b o zero c i j e = absurd (omega arith)
times-slice f b o (suc n) c i j e = elim (ℕ_discrete o c) [
  | yes q ↦ rw (q, e, eq→== b b refl) (omega arith)
  | no m ↦ omega (arith, times-slice f b (o + 1) n c (omega arith) (omega arith) e)
]

marked-places :
    (size : ℕ) (fs new : Fs) (ip jp : Inode) (inum lo n : ℕ)
    → size ≤ bsize * 8
    → fs.marked ≡ []
    → Causes size lo (lo + n) fs ip new jp
    → (b : ℕ) → 0 < times b new.marked
    → 0 < times b (places new jp inum lo n)
unfolding times
marked-places size fs new ip jp inum lo n one_map none_yet c b t = go (c.cause b t)
  where
    rest : List ℕ
    rest = slice (ptr new jp) lo n

    go : Cause size lo (lo + n) fs new jp b → 0 < times b (places new jp inum lo n)
    go (before h) = absurd (omega (arith, rw none_yet at h))
    go (of_file i low high e z) = omega (arith, times-slice (ptr new jp) b lo n i low high e)
    go (of_words e z) = rw (eq→== (jp.addrs ndirect) b e) (omega arith)
    go (of_map d l e) =
        let one : new.bmapstart ≡ b = omega (arith, c.same_map) in
        rw (eq→== new.bmapstart b one) (omega arith)

inode-places :
    (fs : Fs) (ip : Inode) (inum c n b : ℕ)
    → iblock fs inum ≡ b
    → 0 < times b (places fs ip inum c n)
unfolding times
inode-places fs ip inum c n b q = rw (eq→== (iblock fs inum) b q) (omega arith)

pub writei_marks :
    (size : ℕ) (fs : Fs) (inum : ℕ) (ip : Inode) (off : ℕ) (src : List ℕ)
    → Sound size fs ip
    → off ≤ ip.size
    → off + length src ≤ maxfile * bsize
    → 2 * touched off (length src) ≤ free size fs
    → size ≤ bsize * 8
    → fs.marked ≡ []
    → (new : Fs) × (jp : Inode) × (writei size fs inum ip off src ≡ ok (new, jp, done (length src)))
      × Written size fs inum ip off src new jp
      × Covered fs inum ip off (length src) new new.marked
      × ((ds : List ℕ) × (length ds ≡ touched off (length src) + 3)
          × ((b : ℕ) → 0 < times b new.marked → 0 < times b ds))
unfolding times
writei_marks size fs inum ip off src v at_place fits room one_map none_yet =
    let (new, jp, e, k, s, marks, there) =
      write_from_lem size v.small (length src) fs ip off src v.layout (omega arith) fits room in
    let ds = places new jp inum (off / bsize) (touched off (length src)) in
    let all =
      marked-places size fs new ip jp inum (off / bsize) (touched off (length src)) one_map none_yet
        marks in
    let ends = write_ends size fs new inum ip jp off src v at_place fits e k.same_size in
    elim (Bool-cases (ltb ip.size (off + length src))) [
      | inl y ↦
          let grown : Inode = record jp { size = off + length src } in
          let p = ptr-iupdate new inum (off + length src) jp in
          (
            iupdate new inum grown,
            grown,
            ends ∙ rw y refl,
            record {
              sound = record {
                small = v.small;
                layout = rw p k.valid;
                no_device = λ q. v.no_device (sym k.same_type ∙ q);
                fits = fits;
              };
              bytes = λ b l. rw p (s b l);
              end_size = rw y refl;
              on_disk = rw (y, k.same_dinodes) refl;
              others = λ b r. (k.foreign b r).0;
              cost = k.cost;
              no_hole = rw p there;
            },
            record {
              of_blocks =
                  λ b. elim ((k.noted b).0) [ inl q ↦ inl q | inr t ↦ inr (omega (arith, t)) ];
              of_inode = λ z. rw (eq→== (iblock new inum) (iblock new inum) refl) (omega arith);
            },
            (
              ds,
              length-places new jp inum (off / bsize) (touched off (length src)),
              λ b t. elim (ℕ_discrete (iblock new inum) b) [
                | yes q ↦ inode-places new jp inum (off / bsize) (touched off (length src)) b q
                | no n ↦ all b (times-cons (iblock new inum) b new.marked n t)
              ],
            ),
          )
      | inr n ↦ (
        new,
        jp,
        ends ∙ rw n refl,
        record {
          sound = record {
            small = v.small;
            layout = k.valid;
            no_device = λ q. v.no_device (sym k.same_type ∙ q);
            fits = rw k.same_size v.fits;
          };
          bytes = s;
          end_size = rw n k.same_size;
          on_disk = rw n k.same_dinodes;
          others = λ b r. (k.foreign b r).0;
          cost = k.cost;
          no_hole = there;
        },
        record { of_blocks = λ b. (k.noted b).0; of_inode = λ y. cc },
        (ds, length-places new jp inum (off / bsize) (touched off (length src)), all),
      )
    ]

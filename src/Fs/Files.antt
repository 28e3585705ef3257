-- ===== src/Fs/Files.antt =====
-- readi and writei on a file as one row of bytes.
use os_lab.Base.{
  ℕ, zero, suc, ◌+◌, ◌-◌, ◌*◌, ◌/◌, ◌%◌, ◌^◌, ◌≤◌, ◌<◌, ◌≡◌, refl, sym, ap, ap₂, ◌∙◌, ◌≢◌, inl, inr,
  List, ◌++◌, arith, ℕ_discrete, ltb, ◌==◌, if◌then◌else◌, ne→==, Bool-cases, ok,
}
use os_lab.Fs.{Fs, Inode, bsize, maxfile, bmap, slice, min_of, read_from}
use os_lab.Fs.Causes.{Causes-refl}
use os_lab.Fs.Mapping.{ptr, Valid, content}
use os_lab.Fs.Direct.{Mapped, Keeps-refl}
use os_lab.Fs.Bmap.{bmap_there}
use os_lab.Fs.Contents.{slice-shift, slice-append}

-- The byte at a place of the file.
abbrev pub byte : Fs → Inode → ℕ → ℕ
byte fs ip k = content fs ip (k / bsize) (k % bsize)

-- How many blocks a stretch of bytes touches.
abbrev pub touched : ℕ → ℕ → ℕ
touched off n = if n == 0 then 0 else (off % bsize + n - 1) / bsize + 1

-- The bytes of one round: up to the end of the block or of the stretch.
abbrev pub chunk : ℕ → ℕ → ℕ
chunk off n = min_of n (bsize - off % bsize)

-- The file has a block wherever the stretch touches it.
abbrev pub NoHole : Fs → Inode → ℕ → ℕ → Type 0
NoHole fs ip off n = (c : ℕ) → 0 < n → off / bsize ≤ c → c * bsize < off + n → ptr fs ip c ≢ 0

pub record IsChunk (off n m : ℕ) : Type 0 where
  pub some_bytes : 0 < m
  pub within : m ≤ n
  pub in_block : off % bsize + m ≤ bsize
  pub ahead : (off + m) / bsize + touched (off + m) (n - m) ≤ off / bsize + touched off n
  pub one_less : touched (off + m) (n - m) + 1 ≤ touched off n

pub chunk-IsChunk : (off n : ℕ) → n ≢ 0 → IsChunk off n (chunk off n)
chunk-IsChunk off n z = elim (Bool-cases (ltb n (bsize - off % bsize))) [
  | inl y ↦ rw y (record {
    some_bytes = omega arith;
    within = omega arith;
    in_block = ground arith;
    ahead = let nothing : n - n ≡ 0 = omega arith in rw (nothing, ne→== n 0 z) (omega arith);
    one_less = let nothing : n - n ≡ 0 = omega arith in rw (nothing, ne→== n 0 z) (omega arith);
  })
  | inr y ↦ rw y (record {
    some_bytes = omega arith;
    within = ground arith;
    in_block = omega arith;
    ahead = elim (ℕ_discrete (n - (bsize - off % bsize)) 0) [
      | yes e ↦ rw (e, ne→== n 0 z) (omega arith)
      | no e ↦ rw (ne→== (n - (bsize - off % bsize)) 0 e, ne→== n 0 z) (omega arith)
    ];
    one_less = elim (ℕ_discrete (n - (bsize - off % bsize)) 0) [
      | yes e ↦ rw (e, ne→== n 0 z) (omega arith)
      | no e ↦ rw (ne→== (n - (bsize - off % bsize)) 0 e, ne→== n 0 z) (omega arith)
    ];
  })
]

module _ (size : ℕ) (small : size ≤ 2 ^ 32) where
  block_byte :
      (fs new : Fs) (ip jp : Inode) (off a j : ℕ)
      → Mapped size 2 fs ip (off / bsize) new jp a
      → off + j < maxfile * bsize
      → off % bsize + j < bsize
      → new.blocks a (off % bsize + j) ≡ byte fs ip (off + j)
  block_byte fs new ip jp off a j m l b =
      let c : (off + j) / bsize ≡ off / bsize = omega arith in
      let o : (off + j) % bsize ≡ off % bsize + j = omega arith in
      let here : content new jp (off / bsize) (off % bsize + j) ≡ new.blocks a (off % bsize + j) =
        rw (m.at_index, ne→== a 0 m.there) refl in
      sym here
      ∙ m.same (off / bsize) (off % bsize + j) (omega arith)
      ∙ ap₂ (content fs ip) (sym c) (sym o)

  bytes_read :
      (fs new : Fs) (ip jp : Inode) (off n k a : ℕ)
      → Mapped size 2 fs ip (off / bsize) new jp a
      → k ≤ n
      → off % bsize + k ≤ bsize
      → off + n ≤ maxfile * bsize
      → slice (new.blocks a) (off % bsize) k ++ slice (byte new jp) (off + k) (n - k)
        ≡ slice (byte fs ip) off n
  bytes_read fs new ip jp off n k a m h b l =
      let first =
        slice-shift (new.blocks a) (byte fs ip) (off % bsize) off k
          (λ j i. block_byte fs new ip jp off a j m (omega arith) (omega arith)) in
      let rest =
        slice-shift (byte new jp) (byte fs ip) (off + k) (off + k) (n - k)
          (λ j i. m.same ((off + k + j) / bsize) ((off + k + j) % bsize) (omega arith)) in
      let whole : k + (n - k) ≡ n = omega arith in
      ap₂ ◌++◌ first rest
      ∙ slice-append (byte fs ip) off k (n - k)
      ∙ ap (slice (byte fs ip) off) whole

  read_step :
      (rounds : ℕ) (fs new last : Fs) (ip jp kp : Inode) (off n a : ℕ) (bytes : List ℕ)
      → n ≢ 0
      → bmap size fs ip (off / bsize) ≡ ok (new, jp, a)
      → read_from rounds size new jp (off + chunk off n) (n - chunk off n) ≡ ok (last, kp, bytes)
      → read_from (suc rounds) size fs ip off n
        ≡ ok (last, kp, slice (new.blocks a) (off % bsize) (chunk off n) ++ bytes)
  unfolding read_from
  read_step rounds fs new last ip jp kp off n a bytes z e d =
      rw (ne→== n 0 z, read_from) (rw (e, d) refl)

  -- A file with no hole in the stretch is read as it is.
  pub read_from_lem :
      (rounds : ℕ) (fs : Fs) (ip : Inode) (off n : ℕ)
      → Valid fs ip
      → n ≤ rounds
      → off + n ≤ maxfile * bsize
      → NoHole fs ip off n
      → read_from rounds size fs ip off n ≡ ok (fs, ip, slice (byte fs ip) off n)
  unfolding read_from slice
  read_from_lem zero fs ip off n v h l there =
      let none_left : n ≡ 0 = omega arith in rw none_left refl
  read_from_lem (suc rounds) fs ip off n v h l there = elim (ℕ_discrete n 0) [
    | yes z ↦ rw z refl
    | no z ↦
        let k : ℕ = chunk off n in
        let q = chunk-IsChunk off n z in
        let c = there (off / bsize) (omega arith) (omega arith) (omega arith) in
        let m : Mapped size 2 fs ip (off / bsize) fs ip (ptr fs ip (off / bsize)) = record {
          keeps = Keeps-refl size 2 fs ip v;
          same = λ c o b. refl;
          there = c;
          at_index = refl;
          causes = Causes-refl size (off / bsize) (off / bsize + 1) fs ip;
        } in
        let d =
          read_from_lem rounds fs ip (off + k) (n - k) v (omega (arith, q.some_bytes, q.within))
            (omega (arith, q.within))
            (λ c p i j. there c (omega arith) (omega arith) (omega (arith, q.within))) in
        read_step rounds fs fs fs ip ip ip off n (ptr fs ip (off / bsize))
          (slice (byte fs ip) (off + k) (n - k)) z
          (bmap_there size fs ip (off / bsize) (omega arith) c) d
        ∙ ap (λ l. ok (fs, ip, l))
            (bytes_read fs fs ip ip off n k (ptr fs ip (off / bsize)) m q.within q.in_block l)
  ]

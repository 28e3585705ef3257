-- ===== src/Fs/Pokes.antt =====
-- One round of the loop of writei: bytes put into a block of the file.
use os_lab.Base.{
  ℕ, ◌+◌, ◌*◌, ◌/◌, ◌%◌, ◌≤◌, ◌<◌, ◌≡◌, refl, sym, ◌∙◌, subst, fun_ext, ◌≢◌, List, ◌∷◌, arith,
  ℕ_discrete, ◌==◌, if◌then◌else◌, eq→==, ne→==, length, update_self, update_ne, update,
}
use os_lab.Fs.{Fs, Inode, bsize, ndirect, maxfile, put}
use os_lab.Fs.Causes.{Causes, of_file, before, times-cons}
use os_lab.Fs.Mapping.{Noted-write, ptr, Valid, content, Keeps}
use os_lab.Fs.Direct.{Mapped}
use os_lab.Fs.Contents.{put-shift, put-outside}
use os_lab.Fs.Files.{byte}

-- One round's write to the block `a`.
abbrev pub poke : Fs → ℕ → ℕ → List ℕ → Fs
poke fs a o xs = record fs {
  blocks = update fs.blocks a (put (fs.blocks a) o xs);
  marked = a ∷ fs.marked;
}

ptr-update :
    (fs : Fs) (ip : Inode) (a : ℕ) (m : ℕ → ℕ)
    → a ≢ ip.addrs ndirect
    → ptr (record fs { blocks = update fs.blocks a m; marked = a ∷ fs.marked }) ip ≡ ptr fs ip
unfolding ptr
ptr-update fs ip a m n = fun_ext λ c. rw (update_ne fs.blocks a m (ip.addrs ndirect) n) refl

module _ (fs : Fs) (ip : Inode) (v : Valid fs ip) (c : ℕ) (l : c < maxfile)
    (there : ptr fs ip c ≢ 0) (o : ℕ) (xs : List ℕ) where
  ptr-poke : ptr (poke fs (ptr fs ip c) o xs) ip ≡ ptr fs ip
  ptr-poke = ptr-update fs ip (ptr fs ip c) (put (fs.blocks (ptr fs ip c)) o xs) (v.apart c l there)

  poke-Keeps : (size : ℕ) → Keeps size 0 fs ip (poke fs (ptr fs ip c) o xs) ip
  poke-Keeps size = record {
    valid = rw ptr-poke v;
    foreign = λ k r. (
      update_ne fs.blocks (ptr fs ip c) (put (fs.blocks (ptr fs ip c)) o xs) k (r.not_content c l),
      record {
        in_use = r.in_use;
        not_indirect = r.not_indirect;
        not_content = rw ptr-poke r.not_content;
      },
    );
    same_type = refl;
    same_size = refl;
    same_dinodes = refl;
    cost = omega arith;
    noted = Noted-write fs (ptr fs ip c) (put (fs.blocks (ptr fs ip c)) o xs);
    still = λ d h. rw ptr-poke refl;
  }

  poke-Causes :
      (size lo hi : ℕ) → lo ≤ c → c < hi → Causes size lo hi fs ip (poke fs (ptr fs ip c) o xs) ip
  poke-Causes size lo hi i j = record {
    cause = λ b t. elim (ℕ_discrete (ptr fs ip c) b) [
      | yes q ↦ of_file c i j (rw ptr-poke q) (λ z. there (q ∙ z))
      | no n ↦ before (times-cons (ptr fs ip c) b fs.marked n t)
    ];
    same_map = refl;
    same_words = λ h. refl;
  }

  content-poke :
      (d i : ℕ)
      → d < maxfile
      → content (poke fs (ptr fs ip c) o xs) ip d i
        ≡ (if d == c then put (fs.blocks (ptr fs ip c)) o xs i else content fs ip d i)
  content-poke d i m = elim (ℕ_discrete d c) [
    | yes q ↦
        rw
          (
            ptr-poke,
            q,
            eq→== c c refl,
            ne→== (ptr fs ip c) 0 there,
            update_self fs.blocks (ptr fs ip c) (put (fs.blocks (ptr fs ip c)) o xs),
          )
          refl
    | no q ↦ elim (ℕ_discrete (ptr fs ip d) 0) [
      | yes z ↦ rw (ptr-poke, z, ne→== d c q) refl
      | no z ↦
          rw
            (
              ptr-poke,
              ne→== d c q,
              ne→== (ptr fs ip d) 0 z,
              update_ne fs.blocks (ptr fs ip c) (put (fs.blocks (ptr fs ip c)) o xs) (ptr fs ip d)
                  (λ e. q (v.distinct d c m l z (sym e))),
            )
            refl
    ]
  ]

-- The bytes of the file after one round.
pub byte-poke :
    (size : ℕ) (fs new : Fs) (ip jp : Inode) (off a k : ℕ) (xs : List ℕ)
    → Mapped size 2 fs ip (off / bsize) new jp a
    → off % bsize + length xs ≤ bsize
    → 0 < length xs
    → off < maxfile * bsize
    → k < maxfile * bsize
    → byte (poke new a (off % bsize) xs) jp k ≡ put (byte fs ip) off xs k
byte-poke size fs new ip jp off a k xs m b s l h =
    let c : off / bsize < maxfile = omega arith in
    let d : k / bsize < maxfile = omega arith in
    let e : ptr new jp (off / bsize) ≢ 0 = λ z. m.there (sym m.at_index ∙ z) in
    let whole =
      content-poke new jp m.keeps.valid (off / bsize) c e (off % bsize) xs (k / bsize) (k % bsize)
        d in
    subst
      (λ b. content (poke new b (off % bsize) xs) jp (k / bsize) (k % bsize) ≡ (
        if k / bsize == off / bsize
        then put (new.blocks b) (off % bsize) xs (k % bsize)
        else content new jp (k / bsize) (k % bsize)))
      m.at_index whole
    ∙ elim (ℕ_discrete (k / bsize) (off / bsize)) [
      | yes q ↦
          let same_place : off % bsize + k ≡ off + k % bsize = omega arith in
          let at_a : new.blocks a (k % bsize) ≡ byte fs ip k = old_byte q in
          rw (eq→== (k / bsize) (off / bsize) q) (
            put-shift (new.blocks a) (byte fs ip) (off % bsize) off xs (k % bsize) k same_place
              at_a)
      | no q ↦
          rw (ne→== (k / bsize) (off / bsize) q) (
            m.same (k / bsize) (k % bsize) d
            ∙ sym (put-outside (byte fs ip) off xs k (omega arith)))
    ]
  where
    old_byte : k / bsize ≡ off / bsize → new.blocks a (k % bsize) ≡ byte fs ip k
    old_byte q =
        let here : content new jp (k / bsize) (k % bsize) ≡ new.blocks a (k % bsize) =
          rw (q, m.at_index, ne→== a 0 m.there) refl in
        sym here ∙ m.same (k / bsize) (k % bsize) (omega arith)

pub poke_at :
    (size : ℕ) (fs new : Fs) (ip jp : Inode) (off a : ℕ)
    → Mapped size 2 fs ip (off / bsize) new jp a
    → (o : ℕ) (xs : List ℕ) → off < maxfile * bsize
    → Keeps size 0 new jp (poke new a o xs) jp
poke_at size fs new ip jp off a m o xs l =
    subst (λ b. Keeps size 0 new jp (poke new b o xs) jp) m.at_index
      (poke-Keeps new jp m.keeps.valid (off / bsize) (omega arith)
        (λ z. m.there (sym m.at_index ∙ z)) o xs size)

pub poke_marks :
    (size : ℕ) (fs new : Fs) (ip jp : Inode) (off a : ℕ)
    → Mapped size 2 fs ip (off / bsize) new jp a
    → (o : ℕ) (xs : List ℕ) → off < maxfile * bsize
    → Causes size (off / bsize) (off / bsize + 1) new jp (poke new a o xs) jp
poke_marks size fs new ip jp off a m o xs l =
    subst (λ b. Causes size (off / bsize) (off / bsize + 1) new jp (poke new b o xs) jp) m.at_index
      (poke-Causes new jp m.keeps.valid (off / bsize) (omega arith)
        (λ z. m.there (sym m.at_index ∙ z)) o xs size (off / bsize) (off / bsize + 1) (omega arith)
        (omega arith))

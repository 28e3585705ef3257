-- ===== src/Fs/Writes.antt =====
-- The loop of writei, on a file as one row of bytes.
use os_lab.Base.{
  ℕ, zero, suc, ◌+◌, ◌-◌, ◌*◌, ◌/◌, ◌%◌, ◌^◌, ◌≤◌, ◌<◌, ◌≡◌, refl, sym, ap, ◌∙◌, subst, ◌≢◌, List,
  arith, ℕ_discrete, eq→==, ne→==, ok, length, take, drop, take-append-drop, length-take,
  length-drop,
}
use os_lab.Fs.{Fs, Inode, bsize, maxfile, bmap, put, write_from}
use os_lab.Fs.Blocks.{free}
use os_lab.Fs.Causes.{Causes, Causes-refl, Causes-trans}
use os_lab.Fs.Mapping.{ptr, Valid, Keeps}
use os_lab.Fs.Direct.{Keeps-refl, Keeps-weaken, Keeps-trans}
use os_lab.Fs.Bmap.{bmap_lem}
use os_lab.Fs.Contents.{put-shift, put-outside, put-append}
use os_lab.Fs.Files.{NoHole, byte, touched, chunk, chunk-IsChunk}
use os_lab.Fs.Pokes.{poke, byte-poke, poke_at, poke_marks}

write_step :
    (rounds size : ℕ) (fs new last : Fs) (ip jp kp : Inode) (off a : ℕ) (src : List ℕ)
    → length src ≢ 0
    → bmap size fs ip (off / bsize) ≡ ok (new, jp, a)
    → write_from rounds size
        (poke new a (off % bsize) (take (chunk off (length src)) src))
        jp
        (off + chunk off (length src))
        (drop (chunk off (length src)) src)
      ≡ ok (last, kp)
    → write_from (suc rounds) size fs ip off src ≡ ok (last, kp)
unfolding write_from
write_step rounds size fs new last ip jp kp off a src z e d =
    rw (ne→== (length src) 0 z, write_from) (rw e d)

bytes_put :
    (fs : Fs) (off n : ℕ) (src : List ℕ) (f : ℕ → ℕ) (k : ℕ) (ip : Inode)
    → length (take n src) ≡ n
    → f k ≡ put (byte fs ip) off (take n src) k
    → put f (off + n) (drop n src) k ≡ put (byte fs ip) off src k
bytes_put fs off n src f k ip t e =
    put-shift f (put (byte fs ip) off (take n src)) (off + n) (off + n) (drop n src) k k refl e
    ∙ ap (λ z. put (put (byte fs ip) off (take n src)) (off + z) (drop n src) k) (sym t)
    ∙ ap (λ g. g k) (sym (put-append (byte fs ip) off (take n src) (drop n src)))
    ∙ ap (λ xs. put (byte fs ip) off xs k) (take-append-drop n src)

still_there :
    (size n m : ℕ) {fs new last : Fs} {ip jp kp : Inode}
    → Keeps size n fs ip new jp
    → Keeps size m new jp last kp
    → (c : ℕ) → ptr fs ip c ≢ 0
    → ptr last kp c ≢ 0
still_there size n m k g c h e =
    let after = k.still c h in h (sym after ∙ sym (g.still c (λ t. h (sym after ∙ t))) ∙ e)

module _ (size : ℕ) (small : size ≤ 2 ^ 32) where
  pub write_from_lem :
      (rounds : ℕ) (fs : Fs) (ip : Inode) (off : ℕ) (src : List ℕ)
      → Valid fs ip
      → length src ≤ rounds
      → off + length src ≤ maxfile * bsize
      → 2 * touched off (length src) ≤ free size fs
      → (new : Fs) × (jp : Inode) × (write_from rounds size fs ip off src ≡ ok (new, jp))
        × Keeps size (2 * touched off (length src)) fs ip new jp
        × ((k : ℕ) → k < maxfile * bsize → byte new jp k ≡ put (byte fs ip) off src k)
        × Causes size (off / bsize) (off / bsize + touched off (length src)) fs ip new jp
        × NoHole new jp off (length src)
  unfolding write_from
  write_from_lem zero fs ip off src v h l r = (
    fs,
    ip,
    refl,
    Keeps-refl size _ fs ip v,
    λ k b. sym (put-outside (byte fs ip) off src k (omega arith)),
    Causes-refl size _ _ fs ip,
    λ c b i j. absurd (omega arith),
  )
  write_from_lem (suc rounds) fs ip off src v h l r = elim (ℕ_discrete (length src) 0) [
    | yes z ↦ (
      fs,
      ip,
      rw (eq→== (length src) 0 z, write_from) refl,
      Keeps-refl size _ fs ip v,
      λ k b. sym (put-outside (byte fs ip) off src k (omega arith)),
      Causes-refl size _ _ fs ip,
      λ c b i j. absurd (omega arith),
    )
    | no z ↦
        let n : ℕ = chunk off (length src) in
        let q = chunk-IsChunk off (length src) z in
        let (new, jp, a, e, m) =
          bmap_lem size small fs ip v (omega (arith, q.one_less)) (off / bsize) (omega arith) in
        let taken : length (take n src) ≡ n = omega (arith, length-take n src, q.within) in
        let left : length (drop n src) ≡ length src - n = length-drop n src in
        let p = poke_at size fs new ip jp off a m (off % bsize) (take n src) (omega arith) in
        let fewer : touched (off + n) (length (drop n src)) + 1 ≤ touched off (length src) =
          subst (λ k. touched (off + n) k + 1 ≤ touched off (length src)) (sym left) q.one_less in
        let marked =
          poke_marks size fs new ip jp off a m (off % bsize) (take n src) (omega arith) in
        let further : (off + n) / bsize + touched (off + n) (length (drop n src))
            ≤ off / bsize + touched off (length src) =
          subst
            (λ k. (off + n) / bsize + touched (off + n) k ≤ off / bsize + touched off (length src))
            (sym left) q.ahead in
        let (last, kp, d, g, s, marks, there) =
          write_from_lem rounds (poke new a (off % bsize) (take n src)) jp (off + n) (drop n src)
            p.valid (omega (arith, q.some_bytes, q.within)) (omega (arith, q.within))
            (omega (arith, m.keeps.cost, p.cost, fewer)) in
        (
          last,
          kp,
          write_step rounds size fs new last ip jp kp off a src z e d,
          Keeps-weaken size (omega (arith, fewer)) (
              Keeps-trans size 2 (0 + 2 * touched (off + n) (length (drop n src))) m.keeps
                (Keeps-trans size 0 (2 * touched (off + n) (length (drop n src))) p g)),
          λ k b.
              s k b
              ∙ bytes_put fs off n src (byte (poke new a (off % bsize) (take n src)) jp) k ip taken
                  (byte-poke size fs new ip jp off a k (take n src) m (omega (arith, q.in_block))
                    (omega (arith, q.some_bytes)) (omega arith) b),
          Causes-trans (off / bsize) (off / bsize + touched off (length src)) {l2 = off / bsize}
              {h2 = off / bsize + touched off (length src)} (omega arith) (omega (arith, fewer))
              (omega arith) (omega arith)
              (Keeps-trans size 0 (2 * touched (off + n) (length (drop n src))) p g) m.causes
              (Causes-trans (off / bsize) (off / bsize + touched off (length src)) (omega arith)
                (omega (arith, fewer)) (omega (arith, q.some_bytes)) further g marked marks),
          λ c b i j. elim (ℕ_discrete c (off / bsize)) [
            | yes y ↦
                still_there size 0 _ p g c
                  (λ t. m.there (sym m.at_index ∙ ap (ptr new jp) (sym y) ∙ t))
            | no y ↦
                there c (omega (arith, taken, left, q.within, q.in_block))
                  (omega (arith, q.in_block)) (omega (arith, left, q.within))
          ],
        )
  ]

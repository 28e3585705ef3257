-- ===== src/Pipe/Refine.antt =====
-- A pipe behaves as a first-in first-out queue of at most 512 bytes.
use os_lab.Base.{
  ℕ, zero, suc, ◌+◌, ◌-◌, ◌%◌, ◌<◌, ◌≡◌, refl, sym, ap, ap₂, ◌∙◌, ◌≢◌, inl, inr, Bool, true, false,
  not, ◌&&◌, ◌||◌, List, [], ◌∷◌, ◌++◌, append-nil, append_assoc, arith, leb, ◌==◌, if◌then◌else◌,
  Bool-cases, length, get_or, take, drop, length-append, length-set, take-nil,
}
use os_lab.Pipe.{
  Pipe, pipesize, Chan, nread_chan, nwrite_chan, WriteEnd, write_failed, write_asleep, written,
  ReadEnd, read_failed, read_asleep, read_bytes, full, put, pipewrite, copy_out, piperead, uint_add,
}
use os_lab.Pipe.Window.{contents, held, IsValid, length-window, window-congr, window-set}

-- What the two ends see of a pipe.
pub record Fifo : Type 0 where
  pub bytes : List ℕ
  pub readopen : Bool
  pub writeopen : Bool

abbrev pub fifo : Pipe → Fifo
fifo p = record { bytes = contents p; readopen = p.readopen; writeopen = p.writeopen }

-- As many bytes go in as there is room for; the rest has to wait for a reader, unless it cannot.
unfoldable pub fifo_write : Fifo → List ℕ → Bool → Fifo × WriteEnd × List Chan
fifo_write q xs killed =
    let room = pipesize - length q.bytes in
    let q' = record q { bytes = q.bytes ++ take room xs } in
    if leb (length xs) room
    then (q', written, nread_chan ∷ [])
    else (if not q.readopen || killed
        then (q', write_failed, [])
        else (q', write_asleep (drop room xs), nread_chan ∷ []))

-- A reader waits only for an empty pipe that may still be written to.
unfoldable pub fifo_read : Fifo → ℕ → Bool → Fifo × ReadEnd × List Chan
fifo_read q n killed =
    if length q.bytes == 0 && q.writeopen
    then (if killed then (q, read_failed, []) else (q, read_asleep, []))
    else (record q { bytes = drop n q.bytes }, read_bytes (take n q.bytes), nwrite_chan ∷ [])

put_lem :
    (p : Pipe) (x : ℕ)
    → IsValid p
    → full p ≡ false
    → (contents (put p x) ≡ contents p ++ (x ∷ [])) × IsValid (put p x)
unfolding full put
put_lem p x v h = (
  rw (let e : held (put p x) ≡ suc (held p) = ground arith in e) (
      window-set p.buf p.nread (held p) (p.nwrite % pipesize) x v.room (ground arith)
        (omega arith)),
  ground (arith, length-set p.buf (p.nwrite % pipesize) x),
)

full-held : (p : Pipe) → IsValid p → full p ≡ true → held p ≡ pipesize
unfolding full
full-held p v h = ground arith

not_full-held : (p : Pipe) → IsValid p → full p ≡ false → held p < pipesize
unfolding full
not_full-held p v h = ground arith

fifo_write-cons :
    (q : Fifo) (x : ℕ) (xs : List ℕ) (killed : Bool)
    → length q.bytes < pipesize
    → fifo_write q (x ∷ xs) killed ≡ fifo_write (record q { bytes = q.bytes ++ (x ∷ []) }) xs killed
unfolding fifo_write
fifo_write-cons q x xs killed h =
    let e : pipesize - length q.bytes ≡ suc (pipesize - length (q.bytes ++ (x ∷ []))) =
      omega (arith, length-append q.bytes (x ∷ [])) in
    rw e (
      ground
        (arith, append_assoc q.bytes (x ∷ []) (take (pipesize - length (q.bytes ++ (x ∷ []))) xs)))

fifo_write-full :
    (q : Fifo) (x : ℕ) (xs : List ℕ) (killed : Bool)
    → length q.bytes ≡ pipesize
    → fifo_write q (x ∷ xs) killed ≡ (
        if not q.readopen || killed
        then (q, write_failed, [])
        else (q, write_asleep (x ∷ xs), nread_chan ∷ []))
unfolding fifo_write
fifo_write-full q x xs killed h = rw h (ground (arith, append-nil q.bytes))

fifo-put :
    (p : Pipe) (x : ℕ)
    → IsValid p
    → full p ≡ false
    → fifo (put p x) ≡ record (fifo p) { bytes = contents p ++ (x ∷ []) }
unfolding put
fifo-put p x v h =
    λ i. record { bytes = (put_lem p x v h).0 i; readopen = p.readopen; writeopen = p.writeopen }

fifo_write-nil : (q : Fifo) (killed : Bool) → fifo_write q [] killed ≡ (q, written, nread_chan ∷ [])
unfolding fifo_write
fifo_write-nil q killed = ground (arith, append-nil q.bytes, take-nil ℕ (pipesize - length q.bytes))

pipewrite-full :
    (p : Pipe) (x : ℕ) (xs : List ℕ) (killed : Bool)
    → full p ≡ true
    → pipewrite p (x ∷ xs) killed ≡ (
        if not p.readopen || killed
        then (p, write_failed, [])
        else (p, write_asleep (x ∷ xs), nread_chan ∷ []))
unfolding pipewrite
pipewrite-full p x xs killed f = rw f

pipewrite_room :
    (p : Pipe) (x : ℕ) (xs : List ℕ) (killed : Bool)
    → full p ≡ false
    → pipewrite p (x ∷ xs) killed ≡ pipewrite (put p x) xs killed
unfolding pipewrite
pipewrite_room p x xs killed f = rw f

-- A stretch of pipewrite on a valid pipe leaves the queue, and ends and wakes, as writing to the
-- queue does, and leaves the pipe valid.
pub pipewrite_refines :
    (p : Pipe) (xs : List ℕ) (killed : Bool)
    → IsValid p
    → ((fifo (pipewrite p xs killed).0, (pipewrite p xs killed).1, (pipewrite p xs killed).2)
        ≡ fifo_write (fifo p) xs killed)
      × IsValid (pipewrite p xs killed).0
pipewrite_refines p [] killed v = unfold pipewrite in (sym (fifo_write-nil (fifo p) killed), v)
pipewrite_refines p (x ∷ xs) killed v = elim (Bool-cases (full p)) [
  | inl f ↦
      rw (pipewrite-full p x xs killed f, fifo_write-full (fifo p) x xs killed (all_held f))
        (elim (Bool-cases (not p.readopen || killed)) [
          | inl b ↦ rw b (refl, v)
          | inr b ↦ rw b (refl, v)
        ])
  | inr f ↦
      let again = pipewrite_refines (put p x) xs killed (put_lem p x v f).1 in
      rw (pipewrite_room p x xs killed f) (
        again.0
            ∙ ap (λ q. fifo_write q xs killed) (fifo-put p x v f)
            ∙ sym (fifo_write-cons (fifo p) x xs killed (room f)),
        again.1,
      )
]
  where
    all_held : full p ≡ true → length (contents p) ≡ pipesize
    all_held f = length-window p.buf p.nread (held p) ∙ full-held p v f

    room : full p ≡ false → length (contents p) < pipesize
    room f = omega (arith, length-window p.buf p.nread (held p), not_full-held p v f)

copy_out_lem :
    (p : Pipe) (n : ℕ)
    → IsValid p
    → (contents (copy_out p n).0 ≡ drop n (contents p))
      × ((copy_out p n).1 ≡ take n (contents p))
      × IsValid (copy_out p n).0
unfolding copy_out
copy_out_lem p zero v = (refl, refl, v)
copy_out_lem p (suc n) v = elim (Bool-cases (p.nread == p.nwrite)) [
  | inl e ↦ rw e (rw (let z : held p ≡ 0 = ground arith in z) (refl, refl, v))
  | inr e ↦
      let again = copy_out_lem (advance p) n (ground arith) in
      rw e (rw (tail (ground arith)) (again.0, ap₂ ◌∷◌ refl again.1, again.2))
]
  where
    advance : Pipe → Pipe
    advance q = record q { nread = uint_add q.nread 1 }

    tail :
        p.nread ≢ p.nwrite → contents p ≡ get_or p.buf (p.nread % pipesize) 0 ∷ contents (advance p)
    tail ne = rw (let z : held p ≡ suc (held (advance p)) = omega arith in z) (
        ap₂ ◌∷◌ refl
          (window-congr p.buf (p.nread + 1) (advance p).nread (held (advance p)) (omega arith)))

flags :
    (p : Pipe) (n : ℕ)
    → ((copy_out p n).0.readopen ≡ p.readopen) × ((copy_out p n).0.writeopen ≡ p.writeopen)
unfolding copy_out
flags p zero = (refl, refl)
flags p (suc n) = ground (arith, flags (record p { nread = uint_add p.nread 1 }) n)

-- A stretch of piperead on a valid pipe returns and wakes as reading from the queue does, leaves
-- the queue that reading leaves, and leaves the pipe valid.
pub piperead_refines :
    (p : Pipe) (n : ℕ) (killed : Bool)
    → IsValid p
    → ((fifo (piperead p n killed).0, (piperead p n killed).1, (piperead p n killed).2)
        ≡ fifo_read (fifo p) n killed)
      × IsValid (piperead p n killed).0
unfolding piperead fifo_read
piperead_refines p n killed v =
    ground (arith, copy_out_lem p n v, length-window p.buf p.nread (held p), flags p n)

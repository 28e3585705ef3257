-- ===== src/Log/Reserve.antt =====
-- The space of the log: what begin_op admits fits.
use os_lab.Base.{
  ℕ, zero, suc, ◌+◌, ◌*◌, ◌≤◌, ◌<◌, ◌≡◌, refl, inl, inr, Bool, true, false, Option, none, some,
  List, [], ◌∷◌, arith, Option-cases, ok, length, weigh_nothing, update, weigh, weigh-update,
}
use os_lab.Log.{Log, logsize, maxopblocks, begin_op, end_op, end_commit, log_write, absorb}

-- The operations in progress, each with the number of calls of log_write that it has left.
abbrev pub Ops : Type 0
Ops = ℕ → Option ℕ

abbrev pub running : Option ℕ → ℕ
running none = 0
running (some r) = 1

abbrev pub left : Option ℕ → ℕ
left none = 0
left (some r) = r

-- The file system's calls as the log sees them, below `n` processes.
pub data Step (n : ℕ) (l : Log) (f : Ops) : Log → Ops → Type 0 where
  begins :
      (i : ℕ) {l' : Log}
      → i < n
      → f i ≡ none
      → begin_op l ≡ some l'
      → Step n l f l' (update f i (some maxopblocks))
  writes :
      (i b r : ℕ) {l' : Log}
      → i < n
      → f i ≡ some (suc r)
      → log_write l b ≡ ok l'
      → Step n l f l' (update f i (some r))
  ends :
      (i r : ℕ) {l' : Log} {last : Bool}
      → i < n
      → f i ≡ some r
      → end_op l ≡ ok (l', last)
      → Step n l f l' (update f i none)
  commits : l.committing ≡ true → Step n l f (end_commit l) f

pub data Reach (n size : ℕ) : Log → Ops → Type 0 where
  init :
      Reach n size
        (record { size = size; outstanding = 0; committing = false; lh = [] })
        (λ _. none)
  next : {l l' : Log} {f f' : Ops} → Reach n size l f → Step n l f l' f' → Reach n size l' f'

pub record Inv (n size : ℕ) (l : Log) (f : Ops) : Type 0 where
  pub same_size : l.size ≡ size
  pub counted : l.outstanding ≡ weigh running n f
  pub small : (i r : ℕ) → f i ≡ some r → r ≤ maxopblocks
  pub fits : length l.lh + weigh left n f ≤ logsize
  pub quiet : l.committing ≡ true → l.outstanding ≡ 0

pub length-absorb : (b : ℕ) (l : List ℕ) → length (absorb b l) ≤ length l + 1
unfolding absorb
length-absorb b [] = omega arith
length-absorb b (c ∷ cs) = ground (arith, length-absorb b cs)

left-le-running :
    (n : ℕ) (f : Ops)
    → ((i r : ℕ) → f i ≡ some r → r ≤ maxopblocks)
    → weigh left n f ≤ weigh running n f * maxopblocks
unfolding weigh
left-le-running zero f h = omega arith
left-le-running (suc n) f h = elim (Option-cases (f n)) [
  | inl e ↦ ground (arith, left-le-running n f h)
  | inr (r, e) ↦ ground (arith, left-le-running n f h, h n r e)
]

-- An operation in progress is counted.
running_pos :
    {n size : ℕ} {l : Log} {f : Ops} {i r : ℕ}
    → Inv n size l f
    → i < n
    → f i ≡ some r
    → 0 < l.outstanding
running_pos {n} {f = f} {i} {r} v lt q =
    ground (arith, weigh-update running f n i none lt, v.counted)

module _ {n size : ℕ} {l : Log} {f : Ops} (v : Inv n size l f) (i : ℕ) (lt : i < n) where
  begins-Inv :
      {l' : Log} → f i ≡ none → begin_op l ≡ some l' → Inv n size l' (update f i (some maxopblocks))
  unfolding begin_op
  begins-Inv e q = record {
    same_size = ground arith;
    counted = ground (arith, weigh-update running f n i (some maxopblocks) lt);
    small = λ j r p. ground (arith, v.small j r);
    fits =
        ground (arith, weigh-update left f n i (some maxopblocks) lt, left-le-running n f v.small);
    quiet = λ c. ground arith;
  }

  writes-Inv :
      (b r : ℕ) {l' : Log}
      → f i ≡ some (suc r)
      → log_write l b ≡ ok l'
      → Inv n size l' (update f i (some r))
  unfolding log_write
  writes-Inv b r e q = record {
    same_size = ground arith;
    counted = ground (arith, weigh-update running f n i (some r) lt);
    small = λ j k p. ground (arith, v.small j k, v.small i (suc r) e);
    fits = ground (arith, weigh-update left f n i (some r) lt, length-absorb b l.lh);
    quiet = λ c. ground (arith, v.quiet);
  }

  ends-Inv :
      (r : ℕ) {l' : Log} {last : Bool}
      → f i ≡ some r
      → end_op l ≡ ok (l', last)
      → Inv n size l' (update f i none)
  unfolding end_op
  ends-Inv r e q = record {
    same_size = ground arith;
    counted = ground (arith, weigh-update running f n i none lt, running_pos v lt e);
    small = λ j k p. ground (arith, v.small j k);
    fits = ground (arith, weigh-update left f n i none lt);
    quiet = λ c. ground (arith, v.quiet);
  }

Step-Inv :
    {n size : ℕ} {l l' : Log} {f f' : Ops} → Step n l f l' f' → Inv n size l f → Inv n size l' f'
Step-Inv (begins i lt e q) v = begins-Inv v i lt e q
Step-Inv (writes i b r lt e q) v = writes-Inv v i lt b r e q
Step-Inv (ends i r lt e q) v = ends-Inv v i lt r e q
Step-Inv (commits c) v =
    unfold end_commit in
    record {
      same_size = v.same_size;
      counted = v.counted;
      small = v.small;
      fits = omega (arith, v.fits);
      quiet = λ e. cc;
    }

init-Inv :
    (n size : ℕ)
    → Inv n size (record { size = size; outstanding = 0; committing = false; lh = [] }) (λ _. none)
init-Inv n size = record {
  same_size = refl;
  counted = omega (arith, weigh_nothing running (λ _. none) (λ i. refl) n);
  small = λ i r e. cc;
  fits = omega (arith, weigh_nothing left (λ _. none) (λ i. refl) n);
  quiet = λ e. cc;
}

pub Reach-Inv : {n size : ℕ} {l : Log} {f : Ops} → Reach n size l f → Inv n size l f
Reach-Inv {n} {size} init = init-Inv n size
Reach-Inv (next r st) = Step-Inv st (Reach-Inv r)

-- ===== src/File/References.antt =====
-- Descriptors of all processes that open, duplicate and close files, in any order.
use os_lab.Base.{
  ℕ, zero, suc, ◌+◌, ◌-◌, ◌<◌, ◌≡◌, refl, sym, ap, ◌∙◌, subst, ◌≢◌, ◌↔◌, inl, inr, false, Option,
  none, some, arith, ℕ_discrete, ltb, ◌==◌, if◌then◌else◌, eq→==, ne→==, Bool-cases, Option-cases,
  ok, panic, weigh_nothing, some-injective, ok-injective, update_self, update_ne, update, weigh,
  weigh-update,
}
use os_lab.File.{nfile, File, fd_none, find_free, filealloc, filedup, fileclose}

-- The table, and the file of each descriptor that is open.
pub record System : Type 0 where
  pub files : ℕ → File
  pub fds : ℕ → Option ℕ

-- `n` descriptors, free at first.
abbrev pub start : System
start = record {
  files = λ _. record { type = fd_none; ref = 0; readable = false; writable = false; target = 0 };
  fds = λ _. none;
}

pub data Step (n : ℕ) (s : System) : System → Type 0 where
  opens :
      (d i : ℕ)
      → d < n
      → s.fds d ≡ none
      → (filealloc s.files).1 ≡ some i
      → Step n s (record { files = (filealloc s.files).0; fds = update s.fds d (some i) })
  dups :
      (d e i : ℕ) {files : ℕ → File}
      → d < n
      → s.fds d ≡ none
      → e < n
      → s.fds e ≡ some i
      → filedup s.files i ≡ ok files
      → Step n s (record { files = files; fds = update s.fds d (some i) })
  closes :
      (d i : ℕ) {files : ℕ → File} {last : Option File}
      → d < n
      → s.fds d ≡ some i
      → fileclose s.files i ≡ ok (files, last)
      → Step n s (record { files = files; fds = update s.fds d none })
  sets :
      (i : ℕ) (f : File)
      → f.ref ≡ (s.files i).ref
      → Step n s (record s { files = update s.files i f })

pub data Reach (n : ℕ) : System → Type 0 where
  here : Reach n start
  next : {s u : System} → Reach n s → Step n s u → Reach n u

-- Whether a descriptor refers to `i`.
abbrev points : ℕ → Option ℕ → ℕ
points i none = 0
points i (some j) = if j == i then 1 else 0

-- How many of the descriptors refer to `i`.
abbrev pub holders : ℕ → (ℕ → Option ℕ) → ℕ → ℕ
holders n fds i = weigh (points i) n fds

abbrev Counted : ℕ → System → Type 0
Counted n s = (i : ℕ) → (s.files i).ref ≡ holders n s.fds i

pub find_free-free :
    (files : ℕ → File) (i left : ℕ) {j : ℕ} → find_free files i left ≡ some j → (files j).ref ≡ 0
unfolding find_free
find_free-free files i zero e = cc
find_free-free files i (suc left) e = elim (Bool-cases ((files i).ref == 0)) [
  | inl y ↦ ground arith
  | inr n ↦ find_free-free files (i + 1) left ((rw n at e))
]

-- A change of one descriptor and of the count of one file, which agree.
change-Counted :
    (n : ℕ) (s : System) (d i : ℕ) (o : Option ℕ) (f : File)
    → Counted n s
    → d < n
    → ((k : ℕ) → k ≢ i → points k o ≡ points k (s.fds d))
    → f.ref + points i (s.fds d) ≡ (s.files i).ref + points i o
    → Counted n (record { files = update s.files i f; fds = update s.fds d o })
change-Counted n s d i o f v l away agree k = elim (ℕ_discrete i k) [
  | yes q ↦ rw (← q) (
      ap (λ x. x.ref) (update_self s.files i f)
      ∙ omega (arith, weigh-update (points i) s.fds n d o l, v i, agree))
  | no q ↦
      ap (λ x. x.ref) (update_ne s.files i f k q)
      ∙ omega (arith, weigh-update (points k) s.fds n d o l, v k, away k (λ e. q (sym e)))
]

points-none : (k : ℕ) {o : Option ℕ} → o ≡ none → points k o ≡ 0
points-none k e = rw e refl

points_self : (k : ℕ) {o : Option ℕ} → o ≡ some k → points k o ≡ 1
points_self k e = rw (e, eq→== k k refl) refl

points_other : (i k : ℕ) {o : Option ℕ} → k ≢ i → o ≡ some i → points k o ≡ 0
points_other i k n e = rw (e, ne→== i k (λ q. n (sym q))) refl

Step-Counted : (n : ℕ) {s u : System} → Step n s u → Counted n s → Counted n u
unfolding filealloc filedup fileclose
Step-Counted n {s} (opens d i l e q) v = elim (Option-cases (find_free s.files 0 nfile)) [
  | inl z ↦ absurd (cc (rw (z, filealloc) at q))
  | inr (j, z) ↦
      let same : j ≡ i = some-injective ((rw (z, filealloc) at q)) in
      let free : (s.files j).ref ≡ 0 = find_free-free s.files 0 nfile z in
      rw (z, filealloc)
        (subst
          (λ x. Counted n (record {
            files = update s.files j (record (s.files j) { ref = 1 });
            fds = update s.fds d (some x);
          }))
          same
          (change-Counted n s d j (some j) (record (s.files j) { ref = 1 }) v l
            (λ k a. points_other j k a refl ∙ sym (points-none k e))
            (omega (arith, free, points-none j e, points_self j {o = some j} refl))))
]
Step-Counted n {s} (dups d e i l f m g q) v = elim (Bool-cases (ltb (s.files i).ref 1)) [
  | inl y ↦ absurd (cc (rw y at q))
  | inr y ↦
      subst (λ files. Counted n (record { files = files; fds = update s.fds d (some i) }))
        (ok-injective ((rw y at q)))
        (change-Counted n s d i (some i) (record (s.files i) { ref = (s.files i).ref + 1 }) v l
          (λ k a. points_other i k a refl ∙ sym (points-none k f))
          (omega (arith, points-none i f, points_self i {o = some i} refl)))
]
Step-Counted n {s} (closes d i l e q) v = elim (Bool-cases (ltb (s.files i).ref 1)) [
  | inl y ↦ absurd (cc (rw y at q))
  | inr y ↦ elim (Bool-cases (ltb 0 ((s.files i).ref - 1))) [
    | inl z ↦
        subst (λ files. Counted n (record { files = files; fds = update s.fds d none }))
          (ap (λ r. r.0) (ok-injective ((rw (y, z) at q))))
          (dropped (record (s.files i) { ref = (s.files i).ref - 1 }) (ground arith))
    | inr z ↦
        subst (λ files. Counted n (record { files = files; fds = update s.fds d none }))
          (ap (λ r. r.0) (ok-injective ((rw (y, z) at q))))
          (dropped (record (s.files i) { ref = 0; type = fd_none }) (ground arith))
  ]
]
  where
    dropped :
        (f : File)
        → f.ref + 1 ≡ (s.files i).ref
        → Counted n (record { files = update s.files i f; fds = update s.fds d none })
    dropped f g =
        change-Counted n s d i none f v l (λ k a. sym (points_other i k a e))
          (omega (arith, points_self i e, g))
Step-Counted n {s} (sets i f e) v = λ k. ground (arith, v k)

Reach-Counted : (n : ℕ) {s : System} → Reach n s → Counted n s
Reach-Counted n here = λ i. sym (weigh_nothing (points i) (λ _. none) (λ j. refl) n)
Reach-Counted n (next r p) = Step-Counted n p (Reach-Counted n r)

holders-pos : (n : ℕ) (fds : ℕ → Option ℕ) (d i : ℕ) → d < n → fds d ≡ some i → 0 < holders n fds i
holders-pos n fds d i l e = omega (arith, weigh-update (points i) fds n d none l, points_self i e)

fileclose_last :
    (table : ℕ → File) (i : ℕ) {files : ℕ → File} {last : Option File}
    → ltb (table i).ref 1 ≡ false
    → fileclose table i ≡ ok (files, last)
    → last ≢ none ↔ (table i).ref ≡ 1
unfolding fileclose
fileclose_last table i {last = last} y q = elim (Bool-cases (ltb 0 ((table i).ref - 1))) [
  | inl z ↦
      let kept : none ≡ last = ap (λ r. r.1) (ok-injective ((rw (y, z) at q))) in
      (λ n. absurd (n (sym kept)), λ o. absurd (ground arith))
  | inr z ↦
      let freed : some (table i) ≡ last = ap (λ r. r.1) (ok-injective ((rw (y, z) at q))) in
      (λ n. ground arith, λ o m. cc (freed ∙ m))
]

-- In every state that the descriptors reach, the count of each file is the number of descriptors
-- that refer to it. So neither filedup nor fileclose panics on the file of an open descriptor, and
-- fileclose goes on to release what the file stands for exactly if no other descriptor refers to it.
pub files_counted :
    (n : ℕ) {s : System}
    → Reach n s
    → ((i : ℕ) → (s.files i).ref ≡ holders n s.fds i)
      × ((d i : ℕ)
          → d < n
          → s.fds d ≡ some i
          → (filedup s.files i ≢ panic)
            × (fileclose s.files i ≢ panic)
            × ((files : ℕ → File) (last : Option File)
                → fileclose s.files i ≡ ok (files, last)
                → last ≢ none ↔ holders n (update s.fds d none) i ≡ 0))
unfolding filedup fileclose
files_counted n {s} r = (v, each)
  where
    v : Counted n s
    v = Reach-Counted n r

    each :
        (d i : ℕ)
        → d < n
        → s.fds d ≡ some i
        → (filedup s.files i ≢ panic)
          × (fileclose s.files i ≢ panic)
          × ((files : ℕ → File) (last : Option File)
              → fileclose s.files i ≡ ok (files, last)
              → last ≢ none ↔ holders n (update s.fds d none) i ≡ 0)
    each d i l e =
        let held : ltb (s.files i).ref 1 ≡ false =
          ground (arith, v i, holders-pos n s.fds d i l e) in
        let others : holders n (update s.fds d none) i + 1 ≡ (s.files i).ref =
          omega (arith, v i, weigh-update (points i) s.fds n d none l, points_self i e) in
        (
          λ q. cc (rw held at q),
          λ q. ground arith,
          λ files last q.
              let last_iff = fileclose_last s.files i held q in
              (
                λ n. omega (arith, others, last_iff.0 n),
                λ z. last_iff.1 (omega (arith, others, z)),
              ),
        )

-- ===== src/Fs/Logged.antt =====
-- The calls of log_write that fs.c has marked, run on a log with room for them.
use os_lab.Base.{
  times, ℕ, ◌+◌, ◌-◌, ◌≤◌, ◌<◌, ◌≡◌, refl, sym, inl, inr, false, ◌||◌, List, [], ◌∷◌, arith,
  ℕ_discrete, ltb, leb, ◌==◌, if◌then◌else◌, eq→==, ne→==, ==→eq, Bool-cases, ok, length,
}
use os_lab.Log.{Log, logsize, log_write, absorb}
use os_lab.Log.Reserve.{length-absorb}
use os_lab.Fs.{log_calls}

times-absorb : (b c : ℕ) (l : List ℕ) → times c l ≤ times c (absorb b l)
unfolding absorb times
times-absorb b c [] = omega arith
times-absorb b c (d ∷ ds) = elim (Bool-cases (d == b)) [
  | inl y ↦ rw (y, ==→eq d b y) (omega arith)
  | inr n ↦ rw n (ground (arith, times-absorb b c ds))
]

absorb-has : (b : ℕ) (l : List ℕ) → 0 < times b (absorb b l)
unfolding absorb times
absorb-has b [] = ground arith
absorb-has b (d ∷ ds) = elim (Bool-cases (d == b)) [
  | inl y ↦ rw (y, eq→== b b refl) (omega arith)
  | inr n ↦ rw n (ground (arith, absorb-has b ds))
]

-- How many entries of the list are not in the log.
unfoldable pub missing : List ℕ → List ℕ → ℕ
missing lh [] = 0
missing lh (d ∷ ds) = (if times d lh == 0 then 1 else 0) + missing lh ds

missing-length : (lh ds : List ℕ) → missing lh ds ≤ length ds
unfolding missing
missing-length lh [] = omega arith
missing-length lh (d ∷ ds) = ground (arith, missing-length lh ds)

missing-absorb : (b : ℕ) (lh ds : List ℕ) → missing (absorb b lh) ds ≤ missing lh ds
unfolding missing
missing-absorb b lh [] = omega arith
missing-absorb b lh (d ∷ ds) = ground (arith, missing-absorb b lh ds, times-absorb b d lh)

missing-one :
    (b : ℕ) (lh ds : List ℕ)
    → times b lh ≡ 0
    → 0 < times b ds
    → missing (absorb b lh) ds + 1 ≤ missing lh ds
unfolding missing times
missing-one b lh [] z t = absurd (omega (arith, t))
missing-one b lh (d ∷ ds) z t = elim (ℕ_discrete d b) [
  | yes q ↦
      rw (q, z, ne→== (times b (absorb b lh)) 0 (omega (arith, absorb-has b lh)))
        (omega (arith, missing-absorb b lh ds))
  | no n ↦
      let later : 0 < times b ds = omega (arith, rw (ne→== d b n) at t) in
      ground (arith, missing-one b lh ds z later, times-absorb b d lh)
]

length-absorb_again : (b : ℕ) (lh : List ℕ) → 0 < times b lh → length (absorb b lh) ≡ length lh
unfolding absorb times
length-absorb_again b [] t = absurd (omega (arith, t))
length-absorb_again b (d ∷ ds) t = elim (Bool-cases (d == b)) [
  | inl y ↦ rw y refl
  | inr n ↦
      let later : 0 < times b ds = omega (arith, rw n at t) in
      rw n (omega (arith, length-absorb_again b ds later))
]

-- Only a block that is not in the log yet takes room there.
room_left :
    (b : ℕ) (lh ds : List ℕ)
    → 0 < times b ds
    → length (absorb b lh) + missing (absorb b lh) ds ≤ length lh + missing lh ds
room_left b lh ds t = elim (ℕ_discrete (times b lh) 0) [
  | yes z ↦ omega (arith, missing-one b lh ds z t, length-absorb b lh)
  | no n ↦ omega (arith, missing-absorb b lh ds, length-absorb_again b lh (omega arith))
]

-- What running the calls makes of the log, where `ds` has all their blocks.
pub record Ran (l : Log) (marks ds : List ℕ) (k : Log) : Type 0 where
  pub same_size : k.size ≡ l.size
  pub same_ops : k.outstanding ≡ l.outstanding
  pub more : length k.lh + missing k.lh ds ≤ length l.lh + length ds
  pub logged : (b : ℕ) → 0 < times b marks → 0 < times b k.lh
  pub kept : (b : ℕ) → times b l.lh ≤ times b k.lh

log_write-Ran :
    (l k : Log) (b : ℕ) (bs ds : List ℕ)
    → Ran l bs ds k
    → 0 < times b ds
    → Ran l (b ∷ bs) ds (record k { lh = absorb b k.lh })
unfolding times
log_write-Ran l k b bs ds r h = record {
  same_size = r.same_size;
  same_ops = r.same_ops;
  more = omega (arith, r.more, room_left b k.lh ds h);
  logged = λ c t. elim (ℕ_discrete b c) [
    | yes q ↦ rw (sym q) (absorb-has b k.lh)
    | no n ↦
        let before : 0 < times c bs = omega (arith, rw (ne→== b c n) at t) in
        omega (arith, r.logged c before, times-absorb b c k.lh)
  ];
  kept = λ c. omega (arith, r.kept c, times-absorb b c k.lh);
}

times-after : (b c : ℕ) (bs : List ℕ) → 0 < times c bs → 0 < times c (b ∷ bs)
unfolding times
times-after b c bs t = omega (arith, t)

times-head : (b : ℕ) (bs : List ℕ) → 0 < times b (b ∷ bs)
unfolding times
times-head b bs = rw (eq→== b b refl) (omega arith)

-- In an operation, and with room in the header for the blocks of `ds`, none of the calls panics.
pub log_calls_lem :
    (l : Log) (marks ds : List ℕ)
    → ((b : ℕ) → 0 < times b marks → 0 < times b ds)
    → 0 < l.outstanding
    → length l.lh + length ds < logsize
    → length l.lh + length ds < l.size - 1
    → (k : Log) × (log_calls l marks ≡ ok k) × Ran l marks ds k
unfolding log_calls log_write times
log_calls_lem l [] ds all o h g = (
  l,
  refl,
  record {
    same_size = refl;
    same_ops = refl;
    more = omega (arith, missing-length l.lh ds);
    logged = λ b t. absurd (omega (arith, t));
    kept = λ b. omega arith;
  },
)
log_calls_lem l (b ∷ bs) ds all o h g =
    let (k, e, r) = log_calls_lem l bs ds (λ c t. all c (times-after b c bs t)) o h g in
    let room : leb logsize (length k.lh) || leb (k.size - 1) (length k.lh) ≡ false =
      rw r.same_size (ground (arith, r.more)) in
    let inside : ltb k.outstanding 1 ≡ false = rw r.same_ops (ground arith) in
    (
      record k { lh = absorb b k.lh },
      rw (e, room, inside) refl,
      log_write-Ran l k b bs ds r (all b (times-head b bs)),
    )

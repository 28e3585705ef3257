-- ===== src/Sysfile/Calls.antt =====
-- Processes that open, copy and close descriptors, fork and exit, in any order.
use os_lab.Base.{
  ℕ, zero, suc, ◌+◌, ◌≤◌, ◌<◌, ◌≡◌, refl, sym, ap, ◌∙◌, fun_ext, ◌≢◌, ◌⊎◌, inl, inr, Option, none,
  some, arith, leb, Bool-cases, Option-cases, Outcome, ok, panic, some-injective, update_self,
  update_ne, update, ℤ, pos, negsuc, minus_one,
}
use os_lab.File.{nfile, fd_none, find_free, File, filealloc, filedup, fileclose}
use os_lab.File.References.{
  find_free-free, System, opens, dups, closes, sets, Reach, next, files_counted,
}
use os_lab.Sysfile.{
  nofile, slot, first_null, fdalloc, argfd, sys_dup, sys_close, open_file, copy_files, close_files,
}

abbrev pub slots : ℕ
slots = 1024

first_null-free :
    (fds : ℕ → Option ℕ) (p fd left e : ℕ)
    → first_null fds p fd left ≡ some e
    → (fds (slot p e) ≡ none) × (e < fd + left)
unfolding first_null
first_null-free fds p fd zero e h = cc
first_null-free fds p fd (suc left) e h = elim (Option-cases (fds (slot p fd))) [
  | inl z ↦
      let same : fd ≡ e = some-injective ((rw (first_null, z) at h)) in
      (ap (λ d. fds (slot p d)) (sym same) ∙ z, omega arith)
  | inr (f, z) ↦
      let (a, b) = first_null-free fds p (fd + 1) left e ((rw (first_null, z) at h)) in
      (a, omega arith)
]

fdalloc-cases :
    (s : System) (p f : ℕ)
    → (fdalloc s p f ≡ (s, none))
      ⊎ ((d : ℕ) × (fdalloc s p f ≡ (record s { fds = update s.fds (slot p d) (some f) }, some d))
          × (s.fds (slot p d) ≡ none)
          × (d < nofile))
unfolding fdalloc
fdalloc-cases s p f = elim (Option-cases (first_null s.fds p 0 nofile)) [
  | inl y ↦ inl (rw (fdalloc, y) refl)
  | inr (d, y) ↦
      let (free, small) = first_null-free s.fds p 0 nofile d y in
      inr (d, rw (fdalloc, y) refl, free, small)
]

argfd-cases :
    (s : System) (p : ℕ) (arg : Option ℤ)
    → (argfd s p arg ≡ none)
      ⊎ ((fd : ℕ) × (f : ℕ) × (argfd s p arg ≡ some (fd, f))
          × (fd < nofile)
          × (s.fds (slot p fd) ≡ some f))
unfolding argfd
argfd-cases s p none = inl refl
argfd-cases s p (some (negsuc k)) = inl refl
argfd-cases s p (some (pos fd)) = elim (Bool-cases (leb nofile fd)) [
  | inl y ↦ inl (rw y refl)
  | inr n ↦ elim (Option-cases (s.fds (slot p fd))) [
    | inl z ↦ inl (rw (n, z) refl)
    | inr (f, z) ↦ inr (fd, f, rw (n, z) refl, ground arith, z)
  ]
]

no_panic : {A : Type 0} (o : Outcome A) → o ≢ panic → (a : A) × (o ≡ ok a)
no_panic (ok a) n = (a, refl)
no_panic panic n = absurd (n refl)

module _ (s : System) (r : Reach slots s) where
  dup_ok :
      (d i : ℕ) → d < slots → s.fds d ≡ some i → (files : ℕ → File) × (filedup s.files i ≡ ok files)
  dup_ok d i l e = no_panic (filedup s.files i) ((files_counted slots r).1 d i l e).0

  close_ok :
      (d i : ℕ)
      → d < slots
      → s.fds d ≡ some i
      → (files : ℕ → File) × (last : Option File) × (fileclose s.files i ≡ ok (files, last))
  close_ok d i l e =
      let (a, b) = no_panic (fileclose s.files i) ((files_counted slots r).1 d i l e).1 in
      (a.0, a.1, b)

  pub dup_ends :
      (p : ℕ) (arg : Option ℤ)
      → p < 64
      → (u : System) × (v : ℤ) × (sys_dup s p arg ≡ ok (u, v)) × Reach slots u
  unfolding sys_dup
  dup_ends p arg l = elim (argfd-cases s p arg) [
    | inl z ↦ (s, minus_one, rw (sys_dup, z) refl, r)
    | inr (fd, f, z, h, e) ↦ elim (fdalloc-cases s p f) [
      | inl y ↦ (s, minus_one, rw (sys_dup, z, ap (λ a. a.1) y, ap (λ a. a.0) y) refl, r)
      | inr (copy, y, free, small) ↦
          let (files, k) = dup_ok (slot p fd) f (omega arith) e in
          (
            record { files = files; fds = update s.fds (slot p copy) (some f) },
            pos copy,
            rw (sys_dup, z, ap (λ a. a.1) y, ap (λ a. a.0) y, k) refl,
            next r (dups (slot p copy) (slot p fd) f (omega arith) free (omega arith) e k),
          )
    ]
  ]

  pub close_ends :
      (p : ℕ) (arg : Option ℤ)
      → p < 64
      → (u : System) × (v : ℤ) × (sys_close s p arg ≡ ok (u, v)) × Reach slots u
  unfolding sys_close
  close_ends p arg l = elim (argfd-cases s p arg) [
    | inl z ↦ (s, minus_one, rw (sys_close, z) refl, r)
    | inr (fd, f, z, h, e) ↦
        let (files, last, k) = close_ok (slot p fd) f (omega arith) e in
        (
          record { files = files; fds = update s.fds (slot p fd) none },
          pos 0,
          rw (sys_close, z, k) refl,
          next r (closes (slot p fd) f (omega arith) e k),
        )
  ]

filealloc-cases :
    (files : ℕ → File)
    → (filealloc files ≡ (files, none))
      ⊎ ((f : ℕ) × (filealloc files ≡ (update files f (record (files f) { ref = 1 }), some f))
          × ((files f).ref ≡ 0))
unfolding filealloc
filealloc-cases files = elim (Option-cases (find_free files 0 nfile)) [
  | inl z ↦ inl (rw (filealloc, z) refl)
  | inr (f, z) ↦ inr (f, rw (filealloc, z) refl, find_free-free files 0 nfile z)
]

-- An entry that is taken and given back at once is free again.
back_again :
    (files : ℕ → File) (f : ℕ)
    → (files f).ref ≡ 0
    → fileclose (update files f (record (files f) { ref = 1 })) f
      ≡ ok (
        update files f (record (files f) { ref = 0; type = fd_none }),
        some (record (files f) { ref = 1 }),
      )
unfolding fileclose
back_again files f z =
    rw (fileclose, update_self files f (record (files f) { ref = 1 }))
      (ap (λ back. ok (back, some (record (files f) { ref = 1 }))) (fun_ext (λ j. ground arith)))

pub open_ends :
    (s : System) (p : ℕ) (opened : File → File)
    → Reach slots s
    → p < 64
    → ((f : File) → (opened f).ref ≡ f.ref)
    → (u : System) × (v : ℤ) × (open_file s p opened ≡ ok (u, v)) × Reach slots u
unfolding open_file
open_ends s p opened r l same = elim (filealloc-cases s.files) [
  | inl z ↦ (s, minus_one, rw (open_file, ap (λ a. a.1) z) refl, r)
  | inr (f, z, free) ↦
      let files = (filealloc s.files).0 in
      elim (fdalloc-cases (record s { files = files }) p f) [
        | inl y ↦ (
          record s { files = update s.files f (record (s.files f) { ref = 0; type = fd_none }) },
          minus_one,
          rw
              (
                open_file,
                ap (λ a. a.1) z,
                ap (λ a. a.1) y,
                ap (λ a. a.0) z,
                back_again s.files f free,
              )
              refl,
          next r (sets f (record (s.files f) { ref = 0; type = fd_none }) (sym free)),
        )
        | inr (d, y, empty, small) ↦ (
          record {
            files = update files f (opened (files f));
            fds = update s.fds (slot p d) (some f);
          },
          pos d,
          rw (open_file, ap (λ a. a.1) z, ap (λ a. a.1) y, ap (λ a. a.0) y) refl,
          next (next r (opens (slot p d) f (omega arith) empty (ap (λ a. a.1) z)))
              (sets f (opened (files f)) (same (files f))),
        )
      ]
]

pub copy_ends :
    (left : ℕ) (s : System) (p q i : ℕ)
    → Reach slots s
    → p < 64
    → q < 64
    → i + left ≤ nofile
    → ((j : ℕ) → i ≤ j → j < nofile → s.fds (slot q j) ≡ none)
    → (u : System) × (copy_files left s p q i ≡ ok u) × Reach slots u
unfolding copy_files
copy_ends zero s p q i r l m h free = (s, refl, r)
copy_ends (suc left) s p q i r l m h free = elim (Option-cases (s.fds (slot p i))) [
  | inl z ↦
      let (u, e, v) =
        copy_ends left s p q (i + 1) r l m (omega arith) (λ j a b. free j (omega arith) b) in
      (u, rw (z, copy_files) e, v)
  | inr (f, z) ↦
      let (files, k) = dup_ok s r (slot p i) f (omega arith) z in
      let (u, e, v) =
        copy_ends left (record { files = files; fds = update s.fds (slot q i) (some f) }) p q
          (i + 1)
          (next r (
            dups (slot q i) (slot p i) f (omega arith) (free i (omega arith) (omega arith))
              (omega arith) z k))
          l m (omega arith)
          (λ j a b.
            update_ne s.fds (slot q i) (some f) (slot q j) (omega arith)
            ∙ free j (omega arith) b) in
      (u, rw (z, k, copy_files) e, v)
]

pub close_all_ends :
    (left : ℕ) (s : System) (p fd : ℕ)
    → Reach slots s
    → p < 64
    → fd + left ≤ nofile
    → (u : System) × (close_files left s p fd ≡ ok u) × Reach slots u
unfolding close_files
close_all_ends zero s p fd r l h = (s, refl, r)
close_all_ends (suc left) s p fd r l h = elim (Option-cases (s.fds (slot p fd))) [
  | inl z ↦
      let (u, e, v) = close_all_ends left s p (fd + 1) r l (omega arith) in
      (u, rw (z, close_files) e, v)
  | inr (f, z) ↦
      let (files, last, k) = close_ok s r (slot p fd) f (omega arith) z in
      let (u, e, v) =
        close_all_ends left (record { files = files; fds = update s.fds (slot p fd) none }) p
          (fd + 1) (next r (closes (slot p fd) f (omega arith) z k)) l (omega arith) in
      (u, rw (z, k, close_files) e, v)
]

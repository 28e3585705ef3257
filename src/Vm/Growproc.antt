-- ===== src/Vm/Growproc.antt =====
-- proc.c: growproc, which the system call sbrk makes.
use os_lab.Base.{
  ℕ, zero, suc, ◌+◌, ◌-◌, ◌%◌, ◌^◌, ◌≤◌, ◌<◌, ◌≡◌, refl, ap, ◌∙◌, subst, ◌≢◌, ◌⊎◌, inl, inr, List,
  arith, dec_lt, ℕ_discrete, ltb, ◌==◌, if◌then◌else◌, eq→==, ne→==, lt→ltb, Outcome, ok, ◌>>=◌, ℤ,
  pos, negsuc, pos_part, neg_part, minus_one,
}
use os_lab.Vm.{pground_up, Vm}
use os_lab.Vm.Space.{deallocuvm, allocuvm}
use os_lab.Vm.Resize.{deallocuvm_lem, allocuvm_lem}
use os_lab.Vm.Memory.{
  Image, Resized, Resized-same, Grown-Resized, Shrunk-Resized, Undone-Resized, ltb-no,
}

module _ (kernel_end : ℕ) where
  -- What growproc makes of the answer: the memory, `curproc->sz` and the value returned.
  abbrev with_size : ℕ → Vm × ℕ → Vm × ℕ × ℤ
  with_size sz (new, size) = if size == 0 then (new, sz, minus_one) else (new, size, pos 0)

  -- `pgdir` and `sz` are those of the current process; switchuvm, which loads them anew, is left out.
  unfoldable pub growproc : Vm → ℕ → ℕ → ℤ → Outcome (Vm × ℕ × ℤ)
  growproc s pgdir sz (pos zero) = ok (s, sz, pos 0)
  growproc s pgdir sz (pos (suc n)) =
      allocuvm kernel_end s pgdir sz ((sz + suc n) % 2 ^ 32) >>= (λ a. ok (with_size sz a))
  growproc s pgdir sz (negsuc k) =
      deallocuvm kernel_end s pgdir sz ((sz + 2 ^ 32 - (k + 1)) % 2 ^ 32)
      >>= (λ a. ok (with_size sz a))

-- What growproc is asked for, the size that memory has then, `curproc->sz` then, and the answer.
unfoldable pub Answer : ℕ → ℤ → ℕ → ℕ → ℤ → Type 0
Answer sz (pos n) size kept r =
    ((size ≡ sz + n) × (kept ≡ size) × (r ≡ pos 0)) ⊎ ((size ≡ sz) × (kept ≡ sz) × (r ≡ minus_one))
Answer sz (negsuc k) size kept r =
    (size ≡ (if ltb sz (k + 1) then sz else sz - (k + 1)))
    × (((size ≢ 0) × (kept ≡ size) × (r ≡ pos 0)) ⊎ ((size ≡ 0) × (kept ≡ sz) × (r ≡ minus_one)))

-- What growproc_lem says of a call.
abbrev Answers : ℕ → Vm → ℕ → List ℕ → ℕ → ℤ → Type 0
Answers kernel_end s d fl sz n =
    (new : Vm) × (size : ℕ) × (kept : ℕ) × (r : ℤ) × (growproc kernel_end s d sz n
      ≡ ok (new, kept, r))
    × Answer sz n size kept r
    × Resized kernel_end s d fl sz new size

module _ (kernel_end : ℕ) (s : Vm) (d : ℕ) (fl : List ℕ) (sz : ℕ) (i : Image kernel_end s d fl sz)
    (h : sz < 2 ^ 31) where
  recorded :
      (n : ℕ) (new : Vm)
      → allocuvm kernel_end s d sz ((sz + suc n) % 2 ^ 32) ≡ ok (new, sz + suc n)
      → Resized kernel_end s d fl sz new (sz + suc n)
      → Answers kernel_end s d fl sz (pos (suc n))
  unfolding growproc Answer
  recorded n new e r = (
    new,
    sz + suc n,
    sz + suc n,
    pos 0,
    rw (e, ne→== (sz + suc n) 0 (omega arith)) refl,
    inl (refl, refl, refl),
    r,
  )

  refused :
      (n : ℕ) (new : Vm)
      → allocuvm kernel_end s d sz ((sz + suc n) % 2 ^ 32) ≡ ok (new, 0)
      → Resized kernel_end s d fl sz new sz
      → Answers kernel_end s d fl sz (pos (suc n))
  unfolding growproc Answer
  refused n new e r = (new, sz, sz, minus_one, rw e refl, inr (refl, refl, refl), r)

  more_lem : (n : ℕ) → suc n < 2 ^ 31 → Answers kernel_end s d fl sz (pos (suc n))
  more_lem n k =
      let sum : (sz + suc n) % 2 ^ 32 ≡ sz + suc n = omega arith in
      elim (allocuvm_lem kernel_end s d fl sz ((sz + suc n) % 2 ^ 32) i.tree i.users (omega arith)
        (omega arith) (λ x l b c. i.mapped x l ∙ ltb-no x (pground_up sz) b)) [
          | inl (b, e) ↦ refused n s e (Resized-same kernel_end s d fl sz i h)
          | inr (inl (b, e)) ↦ absurd (omega arith)
          | inr (inr (b, c, inl (new, e, g))) ↦ recorded n new (e ∙ ap (λ x. ok (new, x)) sum) (
              subst (Resized kernel_end s d fl sz new) sum (
                Grown-Resized kernel_end s d fl sz i h ((sz + suc n) % 2 ^ 32) new (omega arith) c
                  g))
          | inr (inr (b, c, inr (new, e, g))) ↦
              refused n new e (
                Undone-Resized kernel_end s d fl sz i h ((sz + suc n) % 2 ^ 32) new (omega arith) g)
        ]

  -- The size that is left is not recorded if it is 0.
  shrunk_to :
      (m size : ℕ) (new : Vm)
      → size ≡ (if ltb sz (m + 1) then sz else sz - (m + 1))
      → deallocuvm kernel_end s d sz ((sz + 2 ^ 32 - (m + 1)) % 2 ^ 32) ≡ ok (new, size)
      → Resized kernel_end s d fl sz new size
      → Answers kernel_end s d fl sz (negsuc m)
  unfolding growproc Answer
  shrunk_to m size new is e r = elim (ℕ_discrete size 0) [
    | yes z ↦ (new, size, sz, minus_one, rw (e, eq→== size 0 z) refl, (is, inr (z, refl, refl)), r)
    | no z ↦ (new, size, size, pos 0, rw (e, ne→== size 0 z) refl, (is, inl (z, refl, refl)), r)
  ]

  less_lem : (m : ℕ) → suc m ≤ 2 ^ 31 → Answers kernel_end s d fl sz (negsuc m)
  less_lem m k =
      let all =
        deallocuvm_lem kernel_end s d fl sz ((sz + 2 ^ 32 - (m + 1)) % 2 ^ 32) i.tree i.users
          (omega arith) in
      elim (dec_lt sz (m + 1)) [
        | yes b ↦ elim all [
          | inl (l, e) ↦
              shrunk_to m sz s (rw (lt→ltb sz (m + 1) b) refl) e
                (Resized-same kernel_end s d fl sz i h)
          | inr (l, v, c, r) ↦ absurd (omega arith)
        ]
        | no b ↦ elim all [
          | inl (l, e) ↦ absurd (omega arith)
          | inr (l, new, e, r) ↦
              shrunk_to m ((sz + 2 ^ 32 - (m + 1)) % 2 ^ 32) new
                (rw (ltb-no sz (m + 1) (omega arith)) (omega arith)) e
                (Shrunk-Resized kernel_end s d fl sz i h ((sz + 2 ^ 32 - (m + 1)) % 2 ^ 32) new l r)
        ]
      ]

-- For a process whose mapped pages are those below its size, growproc does not panic, and again
-- just the pages below one size are mapped, each of its own. Bytes below both sizes are as they
-- were, and what is new is zero. Asked for more, that size is the sum and is recorded, or all stays
-- and -1 is returned. Asked for less, it is the difference, or the old size where that is less than
-- what is taken; it is recorded except where it is 0: then -1 is returned and the old size kept,
-- though nothing is mapped any more.
pub growproc_lem :
    (kernel_end : ℕ) (s : Vm) (d : ℕ) (fl : List ℕ) (sz : ℕ) (n : ℤ)
    → Image kernel_end s d fl sz
    → sz < 2 ^ 31
    → pos_part n < 2 ^ 31
    → neg_part n ≤ 2 ^ 31
    → (new : Vm) × (size : ℕ) × (kept : ℕ) × (r : ℤ) × (growproc kernel_end s d sz n
        ≡ ok (new, kept, r))
      × Answer sz n size kept r
      × Resized kernel_end s d fl sz new size
unfolding growproc Answer
growproc_lem kernel_end s d fl sz (pos zero) i h k l =
    (s, sz, sz, pos 0, refl, inl (omega arith, refl, refl), Resized-same kernel_end s d fl sz i h)
growproc_lem kernel_end s d fl sz (pos (suc n)) i h k l = more_lem kernel_end s d fl sz i h n k
growproc_lem kernel_end s d fl sz (negsuc m) i h k l = less_lem kernel_end s d fl sz i h m l

-- ===== src/Vm/Grown.antt =====
-- What allocuvm's loop leaves.
use os_lab.Base.{
  ℕ, suc, ◌+◌, ◌%◌, ◌^◌, ◌≤◌, ◌<◌, ◌≡◌, refl, sym, ap, ◌∙◌, subst, ◌≢◌, ◌⊎◌, inr, true, false,
  Option, none, some, List, arith, ne→==, ok,
}
use os_lab.Kalloc.{v2p}
use os_lab.Vm.{Vm, is_present, page_of, alloc_page, zero_page, mappages}
use os_lab.Vm.Space.{pte_wu, grow}
use os_lab.Vm.Tree.{IsPage, Tree, pte}
use os_lab.Vm.Entries.{Outside, Kept}
use os_lab.Vm.Stretch.{in_pages, in_pages-inv}
use os_lab.Vm.Fresh.{Users}
use os_lab.Vm.Added.{FreshAt}

pub grow-empty :
    (n : ℕ) (s : Vm) (d a : ℕ) → alloc_page s ≡ (s, 0) → grow (suc n) s d a ≡ ok (s, some 0)
unfolding grow
grow-empty n s d a e = rw (ap (λ r. r.1) e, grow) (ap (λ v. ok (v, some 0)) (ap (λ r. r.0) e))

module _ (n : ℕ) (s : Vm) (d a : ℕ) (v : Vm) (p : ℕ) (e : alloc_page s ≡ (v, p)) (z : p ≢ 0)
    (new : Vm) where
  pub grow-fail :
      mappages (zero_page v p) d a 4096 (v2p p) pte_wu ≡ ok (new, false)
      → grow (suc n) s d a ≡ ok (new, some p)
  unfolding grow
  grow-fail m =
      rw (ap (λ r. r.1) e, ne→== p 0 z, ap (λ r. r.1) e, ap (λ r. r.0) e, m, grow)
        (ap (λ q. ok (new, some q)) (ap (λ r. r.1) e))

  pub grow-next :
      mappages (zero_page v p) d a 4096 (v2p p) pte_wu ≡ ok (new, true)
      → grow (suc n) s d a ≡ grow n new d ((a + 4096) % 2 ^ 32)
  unfolding grow
  grow-next m = rw (ap (λ r. r.1) e, ne→== p 0 z, ap (λ r. r.1) e, ap (λ r. r.0) e, m, grow) refl

-- A page that was free and is nobody's, or none.
abbrev pub Spare : ℕ → Vm → ℕ → List ℕ → Vm → List ℕ → ℕ → Type 0
Spare kernel_end s d fl new left p =
    (p ≡ 0)
    ⊎ (IsPage kernel_end p
        × Outside new d left p
        × ((x : ℕ) → x < 2 ^ 31 → is_present (pte new d x) ≡ true → page_of (pte new d x) ≢ p)
        × ((q : ℕ) → Outside s d fl q → p ≢ q))

-- The first `done` of `n` pages from `a` on have got pages.
pub record Grown (kernel_end : ℕ) (s : Vm) (d : ℕ) (fl : List ℕ) (n a : ℕ) (new : Vm) (r : Option ℕ)
    : Type 0 where
  pub left : List ℕ
  pub done : ℕ
  pub within : done ≤ n
  pub fin :
      (r ≡ none) × (done ≡ n)
      ⊎ ((p : ℕ) × (r ≡ some p) × (done < n) × Spare kernel_end s d fl new left p)
  pub tree : Tree kernel_end new d left
  pub users : Users kernel_end new d left
  pub kept : Kept s d fl new left
  pub fresh : (x : ℕ) → in_pages a done x ≡ true → FreshAt new d x
  pub was_free : (q x : ℕ) → Outside s d fl q → in_pages a done x ≡ true → page_of (pte new d x) ≢ q
  pub others : (x : ℕ) → x < 2 ^ 32 → in_pages a done x ≡ false → pte new d x ≡ pte s d x

pub nothing-Grown :
    (kernel_end : ℕ) (s : Vm) (d : ℕ) (fl : List ℕ) (n a : ℕ) (new : Vm) (left : List ℕ) (p : ℕ)
    → 0 < n
    → Spare kernel_end s d fl new left p
    → Tree kernel_end new d left
    → Users kernel_end new d left
    → Kept s d fl new left
    → ((x : ℕ) → x < 2 ^ 32 → pte new d x ≡ pte s d x)
    → Grown kernel_end s d fl n a new (some p)
nothing-Grown kernel_end s d fl n a new left p h f t u k same = record {
  left = left;
  done = 0;
  within = omega arith;
  fin = inr (p, refl, h, f);
  tree = t;
  users = u;
  kept = k;
  fresh = λ x y. let (b, c) = in_pages-inv a 0 x y in absurd (omega arith);
  was_free = λ q x o y. let (b, c) = in_pages-inv a 0 x y in absurd (omega arith);
  others = λ x l y. same x l;
}

-- Users keep their pages where nothing below KERNBASE is mapped anew.
pub Users-same :
    (kernel_end : ℕ) (s : Vm) (d : ℕ) (fl : List ℕ) (new : Vm) (left : List ℕ)
    → Users kernel_end s d fl
    → Kept s d fl new left
    → ((x : ℕ) → x < 2 ^ 32 → pte new d x ≡ pte s d x)
    → Users kernel_end new d left
Users-same kernel_end s d fl new left u k same = record {
  own = λ x l y.
      let e = same x (omega arith) in
      let (a, b) = u.own x l (sym (ap is_present e) ∙ y) in
      subst (λ w. IsPage kernel_end (page_of w) × Outside new d left (page_of w)) (sym e)
        (a, k.outside (page_of (pte s d x)) b);
  single = λ x y l m h i e.
      let f = same x (omega arith) in
      let g = same y (omega arith) in
      u.single x y l m (sym (ap is_present f) ∙ h) (sym (ap is_present g) ∙ i)
        (sym (ap page_of f) ∙ e ∙ ap page_of g);
}

-- What grow_lem says of a call.
abbrev pub GrowsFrom : ℕ → ℕ → Vm → ℕ → List ℕ → ℕ → Type 0
GrowsFrom kernel_end n s d fl a =
    (new : Vm) × (r : Option ℕ) × (grow n s d a ≡ ok (new, r)) × Grown kernel_end s d fl n a new r

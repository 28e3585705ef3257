-- ===== src/Vm/Freed.antt =====
-- A page that kfree takes back.
use os_lab.Base.{
  ℕ, ◌*◌, ◌%◌, ◌^◌, ◌<◌, ◌≡◌, refl, sym, ap, ◌∙◌, subst, ◌≢◌, inl, inr, false, not, ◌||◌, List, [],
  ◌∷◌, arith, ltb, leb, ◌==◌, Bool-cases, ok, All, update_self, update_ne, update,
}
use os_lab.KString.{store_word}
use os_lab.Syscall.{word}
use os_lab.Fs.Blocks.{word-store_word}
use os_lab.Kalloc.{kfree, v2p, pgsize, phystop}
use os_lab.Kalloc.Pages.{Chain}
use os_lab.Vm.{Vm, pdx, ptx, is_present, page_of, entry, free_page}
use os_lab.Vm.Tree.{IsPage, NotIn, first, table, Tree, pte, Chain-next, pte-there, pte-missing}
use os_lab.Vm.Walk.{agree}
use os_lab.Vm.Entries.{Outside}

-- `p` filled with ones and put in front of the list.
abbrev pub after_free : Vm → ℕ → Vm
after_free s p = record s {
  freelist = p;
  pages = update s.pages p (store_word 0 s.freelist (λ _. 1));
}

pub free_page-ok :
    (kernel_end : ℕ) (s : Vm) (p : ℕ)
    → IsPage kernel_end p
    → free_page kernel_end s p ≡ ok (after_free s p)
unfolding free_page kfree
free_page-ok kernel_end s p (a, b, c, e) = rw (guard) (
    ap (λ x. ok (record s { freelist = p; pages = update s.pages p (store_word 0 x (λ _. 1)) }))
      (update_self (λ q. word (s.pages q) 0) p s.freelist))
  where
    guard : (not (p % pgsize == 0) || ltb p kernel_end || leb phystop (v2p p)) ≡ false
    guard = ground arith

module _ (kernel_end : ℕ) (s : Vm) (d p : ℕ) (fl : List ℕ) (t : Tree kernel_end s d fl)
    (page : IsPage kernel_end p) (o : Outside s d fl p) where
  small : (f : ℕ) → (l : List ℕ) → Chain (first s) f l → All (IsPage kernel_end) l → f < 2 ^ 32
  unfolding Chain
  small f [] c g = omega arith
  small f (q ∷ l) (e, z, n, c) ((g, h, j, k), m) = omega arith

  first_new : first (after_free s p) p ≡ s.freelist
  first_new =
      ap (λ m. word m 0) (update_self s.pages p (store_word 0 s.freelist (λ _. 1)))
      ∙ word-store_word (λ _. 1) 0 s.freelist 0 (small s.freelist fl t.linked t.good)

  pages_same : (q : ℕ) → p ≢ q → (after_free s p).pages q ≡ s.pages q
  pages_same q n = update_ne s.pages p (store_word 0 s.freelist (λ _. 1)) q n

  pub after_free-entry : (j : ℕ) → entry (after_free s p) d j ≡ entry s d j
  after_free-entry j = ap (λ m. word m (4 * j)) (pages_same d (λ e. o.no_dir (sym e)))

  pub after_free-Tree : Tree kernel_end (after_free s p) d (p ∷ fl)
  unfolding Chain
  after_free-Tree = record {
    linked = (
      refl,
      omega (arith, page),
      o.taken,
      subst (λ f. Chain (first (after_free s p)) f fl) (sym first_new)
          (Chain-next (first s) (first (after_free s p)) s.freelist fl
            (agree s (after_free s p) p d (λ q a b. pages_same q a) fl o.taken t.dir) t.linked),
    );
    good = (page, t.good);
    dir = ((λ e. o.no_dir (sym e)), t.dir);
    away = λ j l y.
        let (a, b) = t.away j l (sym (ap is_present (after_free-entry j)) ∙ y) in
        subst (λ q. NotIn q (p ∷ fl) × (q ≢ d)) (sym (ap page_of (after_free-entry j)))
          (((λ e. o.no_table j l (sym (ap is_present (after_free-entry j)) ∙ y) (sym e)), a), b);
    apart = λ j k l m y z e.
        t.apart j k l m (sym (ap is_present (after_free-entry j)) ∙ y)
          (sym (ap is_present (after_free-entry k)) ∙ z)
          (sym (ap page_of (after_free-entry j)) ∙ e ∙ ap page_of (after_free-entry k));
  }

  pub after_free-pte : (x : ℕ) → pte (after_free s p) d x ≡ pte s d x
  after_free-pte x = elim (Bool-cases (is_present (entry s d (pdx x)))) [
    | inl y ↦
        pte-there (after_free s p) d x (ap is_present (after_free-entry (pdx x)) ∙ y)
        ∙ ap (λ q. entry (after_free s p) q (ptx x)) (ap page_of (after_free-entry (pdx x)))
        ∙ ap (λ m. word m (4 * ptx x))
            (pages_same (table s d (pdx x)) (λ e. o.no_table (pdx x) (omega arith) y (sym e)))
        ∙ sym (pte-there s d x y)
    | inr n ↦
        pte-missing (after_free s p) d x (ap is_present (after_free-entry (pdx x)) ∙ n)
        ∙ sym (pte-missing s d x n)
  ]

  -- The other pages that are neither free nor tables stay so, as they are.
  pub after_free-Outside :
      (q : ℕ) → Outside s d fl q → p ≢ q → Outside (after_free s p) d (p ∷ fl) q
  after_free-Outside q b n = record {
    taken = (n, b.taken);
    no_dir = b.no_dir;
    no_table = λ j l y e.
        b.no_table j l (sym (ap is_present (after_free-entry j)) ∙ y)
          (sym (ap page_of (after_free-entry j)) ∙ e);
  }

-- ===== src/Vm/Fresh.antt =====
-- A page that is taken from the list, and the pages that users have.
use os_lab.Base.{
  ℕ, ◌*◌, ◌/◌, ◌^◌, ◌<◌, ◌≡◌, sym, ap, ◌∙◌, subst, ◌≢◌, inl, inr, true, List, ◌∷◌, arith,
  Bool-cases, update_ne,
}
use os_lab.Syscall.{word}
use os_lab.Kalloc.Pages.{Chain}
use os_lab.Vm.{Vm, pdx, ptx, is_present, page_of, entry, zero_page}
use os_lab.Vm.Tree.{IsPage, NotIn, first, table, Tree, pte, Chain-next, pte-there, pte-missing}
use os_lab.Vm.Walk.{agree}
use os_lab.Vm.Entries.{Outside, Kept}

-- `p` taken from the list and filled with zeros.
abbrev pub after_take : Vm → ℕ → Vm
after_take s p = zero_page (record s { freelist = first s p }) p

module _ (kernel_end : ℕ) (s : Vm) (d p : ℕ) (rest : List ℕ) (t : Tree kernel_end s d (p ∷ rest))
    (apart_rest : NotIn p rest) (chained : Chain (first s) (first s p) rest) where
  abbrev pub taken_page : Vm
  taken_page = after_take s p

  pages_same : (q : ℕ) → p ≢ q → taken_page.pages q ≡ s.pages q
  pages_same q n = update_ne s.pages p (λ _. 0) q n

  dir_same : (j : ℕ) → entry taken_page d j ≡ entry s d j
  dir_same j = ap (λ m. word m (4 * j)) (pages_same d t.dir.0)

  pub taken_page-Tree : Tree kernel_end taken_page d rest
  taken_page-Tree = record {
    linked =
        Chain-next (first s) (first taken_page) (first s p) rest
          (agree s taken_page p d (λ q a b. pages_same q a) rest apart_rest t.dir.1) chained;
    good = t.good.1;
    dir = t.dir.1;
    away = λ j l y.
        let (a, b) = t.away j l (sym (ap is_present (dir_same j)) ∙ y) in
        subst (λ q. NotIn q rest × (q ≢ d)) (sym (ap page_of (dir_same j))) (a.1, b);
    apart = λ j k l m y z e.
        t.apart j k l m (sym (ap is_present (dir_same j)) ∙ y)
          (sym (ap is_present (dir_same k)) ∙ z)
          (sym (ap page_of (dir_same j)) ∙ e ∙ ap page_of (dir_same k));
  }

  pub taken_page-pte : (x : ℕ) → pte taken_page d x ≡ pte s d x
  taken_page-pte x = elim (Bool-cases (is_present (entry s d (pdx x)))) [
    | inl y ↦
        pte-there taken_page d x (ap is_present (dir_same (pdx x)) ∙ y)
        ∙ ap (λ q. entry taken_page q (ptx x)) (ap page_of (dir_same (pdx x)))
        ∙ ap (λ m. word m (4 * ptx x))
            (pages_same (table s d (pdx x)) (t.away (pdx x) (omega arith) y).0.0)
        ∙ sym (pte-there s d x y)
    | inr n ↦
        pte-missing taken_page d x (ap is_present (dir_same (pdx x)) ∙ n)
        ∙ sym (pte-missing s d x n)
  ]

  pub taken_page-Kept : Kept s d (p ∷ rest) taken_page rest
  taken_page-Kept = record {
    outside = λ q o. record {
      taken = o.taken.1;
      no_dir = o.no_dir;
      no_table = λ j l y e.
          o.no_table j l (sym (ap is_present (dir_same j)) ∙ y) (sym (ap page_of (dir_same j)) ∙ e);
    };
    same = λ q o. pages_same q o.taken.0;
  }

  -- The page itself is now neither free nor a table.
  pub taken_page-Outside : Outside taken_page d rest p
  taken_page-Outside = record {
    taken = apart_rest;
    no_dir = λ e. t.dir.0 (sym e);
    no_table = λ j l y e.
        (t.away j l (sym (ap is_present (dir_same j)) ∙ y)).0.0 (sym e ∙ ap page_of (dir_same j));
  }

-- Below KERNBASE each address that is mapped has a page of its user's own.
pub record Users (kernel_end : ℕ) (s : Vm) (d : ℕ) (fl : List ℕ) : Type 0 where
  pub own :
      (x : ℕ)
      → x < 2 ^ 31
      → is_present (pte s d x) ≡ true
      → IsPage kernel_end (page_of (pte s d x)) × Outside s d fl (page_of (pte s d x))
  pub single :
      (x y : ℕ)
      → x < 2 ^ 31
      → y < 2 ^ 31
      → is_present (pte s d x) ≡ true
      → is_present (pte s d y) ≡ true
      → page_of (pte s d x) ≡ page_of (pte s d y)
      → x / 4096 ≡ y / 4096

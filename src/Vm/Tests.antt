-- ===== src/Vm/Tests.antt =====
-- vm.c with three free pages and an empty page directory.
use os_lab.Base.{
  ℕ, ◌+◌, ◌*◌, ◌^◌, ◌≤◌, ◌<◌, ◌≡◌, refl, sym, ap, ◌∙◌, ◌⊎◌, Bool, false, none, List, [], ◌∷◌, arith,
  ◌==◌, if◌then◌else◌, ok, ℤ, pos,
}
use os_lab.KString.{store_word}
use os_lab.Kalloc.Pages.{Chain}
use os_lab.Vm.{Vm, pdx, is_present, entry, mappages}
use os_lab.Vm.Space.{allocuvm}
use os_lab.Vm.Tree.{Tree, pte, pte-missing}
use os_lab.Vm.Fresh.{Users}
use os_lab.Vm.Maps.{Mapped, mappages_lem}
use os_lab.Vm.Grown.{Grown}
use os_lab.Vm.Undone.{Undone}
use os_lab.Vm.Resize.{allocuvm_lem}
use os_lab.Vm.Memory.{Image, Resized}
use os_lab.Vm.Growproc.{growproc, Answer, growproc_lem}

-- The page `i` after KERNBASE.
abbrev page : ℕ → ℕ
page i = 2147483648 + 4096 * i

abbrev end : ℕ
end = page 16

abbrev free_pages : List ℕ
free_pages = page 30 ∷ page 31 ∷ page 32 ∷ []

abbrev empty : Vm
empty = record {
  freelist = page 30;
  pages = λ p.
      if p == page 30
      then store_word 0 (page 31) (λ _. 0)
      else if p == page 31
      then store_word 0 (page 32) (λ _. 0)
      else (λ _. 0);
}

no_table : (i : ℕ) → is_present (entry empty (page 20) i) ≡ false
no_table i = refl

empty-Tree : Tree end empty (page 20) free_pages
unfolding Chain store_word
empty-Tree = record {
  linked = (
    refl,
    omega arith,
    (omega arith, (omega arith, tt)),
    (refl, omega arith, (omega arith, tt), (refl, omega arith, tt, refl)),
  );
  good = (
    (omega arith, omega arith, omega arith, omega arith),
    (
      (omega arith, omega arith, omega arith, omega arith),
      ((omega arith, omega arith, omega arith, omega arith), tt),
    ),
  );
  dir = (omega arith, (omega arith, (omega arith, tt)));
  away = λ i l y. cc (sym y ∙ no_table i);
  apart = λ i j l m y z e. cc (sym y ∙ no_table i);
}

nothing_mapped : (x : ℕ) → is_present (pte empty (page 20) x) ≡ false
nothing_mapped x = ap is_present (pte-missing empty (page 20) x (no_table (pdx x)))

empty-Users : Users end empty (page 20) free_pages
empty-Users = record {
  own = λ x l y. cc (sym y ∙ nothing_mapped x);
  single = λ x y l m h i e. cc (sym h ∙ nothing_mapped x);
}

empty-Image : Image end empty (page 20) free_pages 0
empty-Image = record {
  tree = empty-Tree;
  users = empty-Users;
  mapped = λ x l. nothing_mapped x ∙ ground arith;
}

mappages_lem_example :
    (new : Vm) × (b : Bool) × (mappages empty (page 20) 8192 5000 1048576 2 ≡ ok (new, b))
    × Mapped end empty (page 20) free_pages 2 8192 1048576 2 new b
mappages_lem_example =
    mappages_lem end empty (page 20) free_pages 8192 5000 1048576 2 empty-Tree (omega arith)
      (omega arith) (omega arith) (omega arith) (omega arith) (λ x i. nothing_mapped x)

allocuvm_lem_example :
    ((2 ^ 31 ≤ 5000) × (allocuvm end empty (page 20) 0 5000 ≡ ok (empty, 0)))
    ⊎ ((5000 < 0) × (allocuvm end empty (page 20) 0 5000 ≡ ok (empty, 0)))
    ⊎ ((0 ≤ 5000)
        × (5000 < 2 ^ 31)
        × (((new : Vm) × (allocuvm end empty (page 20) 0 5000 ≡ ok (new, 5000))
              × Grown end empty (page 20) free_pages 2 0 new none)
            ⊎ ((new : Vm) × (allocuvm end empty (page 20) 0 5000 ≡ ok (new, 0))
                × Undone end empty (page 20) free_pages 0 5000 new)))
allocuvm_lem_example =
    allocuvm_lem end empty (page 20) free_pages 0 5000 empty-Tree empty-Users (omega arith)
      (omega arith) (λ x l b c. nothing_mapped x)

growproc_lem_example :
    (new : Vm) × (size : ℕ) × (kept : ℕ) × (r : ℤ) × (growproc end empty (page 20) 0 (pos 5000)
      ≡ ok (new, kept, r))
    × Answer 0 (pos 5000) size kept r
    × Resized end empty (page 20) free_pages 0 new size
growproc_lem_example =
    growproc_lem end empty (page 20) free_pages 0 (pos 5000) empty-Image (omega arith) (omega arith)
      (omega arith)

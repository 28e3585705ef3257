-- ===== src/Vm/Entries.antt =====
-- One entry for an address: walkpgdir leads to it, and a write to it maps its page alone.
use os_lab.Base.{
  ℕ, ◌*◌, ◌/◌, ◌^◌, ◌<◌, ◌≡◌, refl, sym, ap, ◌∙◌, subst, ◌≢◌, ◌⊎◌, inl, inr, true, false, ◌&&◌,
  none, some, List, [], ◌∷◌, arith, ℕ_discrete, ◌==◌, if◌then◌else◌, eq→==, ne→==, Bool-cases,
  update_ne,
}
use os_lab.KString.{store_word}
use os_lab.Vm.{Vm, pdx, ptx, is_present, page_of, entry, set_entry, walkpgdir}
use os_lab.Vm.Tree.{
  NotIn, first, table, Tree, pte, Chain-next, alloc_page-nil, alloc_page-cons, entry-set_entry,
  pte-there, pte-missing,
}
use os_lab.Vm.Walk.{
  agree, with_table, with_table-pages, present_new, with_table-Tree, with_table-pte, table_new,
  table_old, present_old,
}

-- A page that is neither free nor of the page directory.
pub record Outside (s : Vm) (d : ℕ) (fl : List ℕ) (p : ℕ) : Type 0 where
  pub taken : NotIn p fl
  pub no_dir : d ≢ p
  pub no_table : (i : ℕ) → i < 1024 → is_present (entry s d i) ≡ true → table s d i ≢ p

-- Such pages stay as they are, and are such pages still.
pub record Kept (s : Vm) (d : ℕ) (fl : List ℕ) (new : Vm) (left : List ℕ) : Type 0 where
  pub outside : (p : ℕ) → Outside s d fl p → Outside new d left p
  pub same : (p : ℕ) → Outside s d fl p → new.pages p ≡ s.pages p

pub Kept-refl : (s : Vm) (d : ℕ) (fl : List ℕ) → Kept s d fl s fl
Kept-refl s d fl = record { outside = λ p o. o; same = λ p o. refl }

pub Kept-trans :
    (a b c : Vm) (d : ℕ) (x y z : List ℕ) → Kept a d x b y → Kept b d y c z → Kept a d x c z
Kept-trans a b c d x y z k l = record {
  outside = λ p o. l.outside p (k.outside p o);
  same = λ p o. l.same p (k.outside p o) ∙ k.same p o;
}

-- With a table to be found, walkpgdir fails only for want of a free page.
pub walkpgdir-cases :
    (kernel_end : ℕ) (s : Vm) (d : ℕ) (fl : List ℕ) (va : ℕ)
    → Tree kernel_end s d fl
    → ((walkpgdir s d va true ≡ (s, none)) × (fl ≡ []))
      ⊎ ((new : Vm) × (left : List ℕ) × (walkpgdir s d va true
            ≡ (new, some (table new d (pdx va), ptx va)))
          × Tree kernel_end new d left
          × (is_present (entry new d (pdx va)) ≡ true)
          × ((x : ℕ) → pte new d x ≡ pte s d x)
          × Kept s d fl new left)
unfolding walkpgdir
walkpgdir-cases kernel_end s d fl va t = elim (Bool-cases (is_present (entry s d (pdx va)))) [
  | inl y ↦ inr (s, fl, rw y refl, t, y, (λ x. refl), Kept-refl s d fl)
  | inr n ↦ go fl t n
]
  where
    go :
        (fl : List ℕ)
        → Tree kernel_end s d fl
        → is_present (entry s d (pdx va)) ≡ false
        → ((walkpgdir s d va true ≡ (s, none)) × (fl ≡ []))
          ⊎ ((new : Vm) × (left : List ℕ) × (walkpgdir s d va true
                ≡ (new, some (table new d (pdx va), ptx va)))
              × Tree kernel_end new d left
              × (is_present (entry new d (pdx va)) ≡ true)
              × ((x : ℕ) → pte new d x ≡ pte s d x)
              × Kept s d fl new left)
    go [] t n = inl (rw (n, alloc_page-nil s t.linked) refl, refl)
    go (p ∷ rest) v n =
        let (a, z, u, c) = alloc_page-cons s p rest v.linked in
        let l : pdx va < 1024 = omega arith in
        let new = with_table kernel_end s d p rest v u c (pdx va) l n in
        inr (
          new,
          rest,
          rw (n, a, ne→== p 0 z)
              (ap (λ q. (new, some (q, ptx va)))
                (sym (table_new kernel_end s d p rest v u c (pdx va) l n))),
          with_table-Tree kernel_end s d p rest v u c (pdx va) l n,
          present_new kernel_end s d p rest v u c (pdx va) l n,
          with_table-pte kernel_end s d p rest v u c (pdx va) l n,
          record {
            outside = λ q o. record {
              taken = (o.taken).1;
              no_dir = o.no_dir;
              no_table = λ j k y. elim (ℕ_discrete (pdx va) j) [
                | yes h ↦ λ f. (o.taken).0 (
                    sym (
                      ap (table new d) (sym h) ∙ table_new kernel_end s d p rest v u c (pdx va) l n)
                    ∙ f)
                | no h ↦ λ f.
                    o.no_table j k (present_old kernel_end s d p rest v u c (pdx va) l n j h y)
                      (sym (table_old kernel_end s d p rest v u c (pdx va) l n j h) ∙ f)
              ];
            };
            same = λ q o.
                with_table-pages kernel_end s d p rest v u c (pdx va) l n q (o.taken).0 o.no_dir;
          },
        )

-- Two addresses have one entry if they are in one page.
one_entry :
    (va x : ℕ)
    → va < 2 ^ 32
    → x < 2 ^ 32
    → ((pdx va == pdx x) && (ptx va == ptx x)) ≡ (va / 4096 == x / 4096)
one_entry va x h k = elim (ℕ_discrete (va / 4096) (x / 4096)) [
  | yes e ↦
      let a : pdx va ≡ pdx x = omega arith in
      let b : ptx va ≡ ptx x = omega arith in
      rw (eq→== (pdx va) (pdx x) a, eq→== (ptx va) (ptx x) b, eq→== (va / 4096) (x / 4096) e) refl
  | no n ↦ elim (ℕ_discrete (pdx va) (pdx x)) [
    | yes a ↦ elim (ℕ_discrete (ptx va) (ptx x)) [
      | yes b ↦ absurd (n (omega arith))
      | no b ↦
          rw (eq→== (pdx va) (pdx x) a, ne→== (ptx va) (ptx x) b, ne→== (va / 4096) (x / 4096) n)
            refl
    ]
    | no a ↦ rw (ne→== (pdx va) (pdx x) a, ne→== (va / 4096) (x / 4096) n) refl
  ]
]

-- The entry for `va` set to `w`.
abbrev pub with_entry : Vm → ℕ → ℕ → ℕ → Vm
with_entry s d va w = set_entry s (table s d (pdx va)) (ptx va) w

module _ (kernel_end : ℕ) (s : Vm) (d : ℕ) (fl : List ℕ) (t : Tree kernel_end s d fl) (va : ℕ)
    (there : is_present (entry s d (pdx va)) ≡ true) (w : ℕ) (word_size : w < 2 ^ 32) where
  dir_same : (j : ℕ) → entry (with_entry s d va w) d j ≡ entry s d j
  dir_same j =
      entry-set_entry s (table s d (pdx va)) (ptx va) w d j word_size
      ∙ rw (ne→== (table s d (pdx va)) d (t.away (pdx va) (omega arith) there).1) refl

  pages_same : (q : ℕ) → table s d (pdx va) ≢ q → (with_entry s d va w).pages q ≡ s.pages q
  unfolding set_entry
  pages_same q n =
      update_ne s.pages (table s d (pdx va))
        (store_word (4 * ptx va) w (s.pages (table s d (pdx va)))) q n

  pub with_entry-Tree : Tree kernel_end (with_entry s d va w) d fl
  unfolding set_entry
  with_entry-Tree = record {
    linked =
        Chain-next (first s) (first (with_entry s d va w)) s.freelist fl
          (agree s (with_entry s d va w) (table s d (pdx va)) d (λ q a b. pages_same q a) fl
            (t.away (pdx va) (omega arith) there).0 t.dir)
          t.linked;
    good = t.good;
    dir = t.dir;
    away = λ j l y.
        subst (λ q. NotIn q fl × (q ≢ d)) (sym (ap page_of (dir_same j)))
          (t.away j l (sym (ap is_present (dir_same j)) ∙ y));
    apart = λ j k l m y z e.
        t.apart j k l m (sym (ap is_present (dir_same j)) ∙ y)
          (sym (ap is_present (dir_same k)) ∙ z)
          (sym (ap page_of (dir_same j)) ∙ e ∙ ap page_of (dir_same k));
  }

  with_entry-pte :
      (x : ℕ)
      → pte (with_entry s d va w) d x
        ≡ (if (pdx va == pdx x) && (ptx va == ptx x) then w else pte s d x)
  with_entry-pte x = elim (Bool-cases (is_present (entry s d (pdx x)))) [
    | inl y ↦
        pte-there (with_entry s d va w) d x (ap is_present (dir_same (pdx x)) ∙ y)
        ∙ ap (λ q. entry (with_entry s d va w) q (ptx x)) (ap page_of (dir_same (pdx x)))
        ∙ entry-set_entry s (table s d (pdx va)) (ptx va) w (table s d (pdx x)) (ptx x) word_size
        ∙ elim (ℕ_discrete (pdx va) (pdx x)) [
          | yes e ↦
              rw
                (
                  eq→== (table s d (pdx va)) (table s d (pdx x)) (ap (table s d) e),
                  eq→== (pdx va) (pdx x) e,
                  pte-there s d x y,
                )
                refl
          | no e ↦
              let other : table s d (pdx va) ≢ table s d (pdx x) =
                λ f. e (t.apart (pdx va) (pdx x) (omega arith) (omega arith) there y f) in
              rw (ne→== (table s d (pdx va)) (table s d (pdx x)) other, ne→== (pdx va) (pdx x) e)
                (sym (pte-there s d x y))
        ]
    | inr n ↦
        let other : pdx va ≢ pdx x =
          λ e. cc (sym there ∙ ap (λ i. is_present (entry s d i)) e ∙ n) in
        rw (ne→== (pdx va) (pdx x) other) (
          pte-missing (with_entry s d va w) d x (ap is_present (dir_same (pdx x)) ∙ n)
          ∙ sym (pte-missing s d x n))
  ]

  pub with_entry-Kept : Kept s d fl (with_entry s d va w) fl
  with_entry-Kept = record {
    outside = λ q o. record {
      taken = o.taken;
      no_dir = o.no_dir;
      no_table = λ j l y. λ e.
          o.no_table j l (sym (ap is_present (dir_same j)) ∙ y) (sym (ap page_of (dir_same j)) ∙ e);
    };
    same = λ q o. pages_same q (o.no_table (pdx va) (omega arith) there);
  }

  pub with_entry-page :
      (x : ℕ)
      → va < 2 ^ 32
      → x < 2 ^ 32
      → pte (with_entry s d va w) d x ≡ (if va / 4096 == x / 4096 then w else pte s d x)
  with_entry-page x h k = with_entry-pte x ∙ rw (one_entry va x h k) refl

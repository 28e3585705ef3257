-- ===== src/Vm/Unmap.antt =====
-- The page of an address is given back and its entry cleared.
use os_lab.Base.{
  ℕ, ◌/◌, ◌^◌, ◌<◌, ◌≡◌, refl, sym, ap, ◌∙◌, subst, ◌≢◌, inl, inr, true, List, ◌∷◌, arith,
  ℕ_discrete, ◌==◌, if◌then◌else◌, eq→==, ne→==, Bool-cases, update_ne,
}
use os_lab.Vm.{store_word, Vm, pdx, is_present, page_of, entry}
use os_lab.Vm.Tree.{IsPage, Tree, pte, pte-missing}
use os_lab.Vm.Entries.{Outside, with_entry, with_entry-Tree, with_entry-page, with_entry-Kept}
use os_lab.Vm.Fresh.{Users}
use os_lab.Vm.Freed.{
  after_free, after_free-Tree, after_free-pte, after_free-entry, after_free-Outside,
}

-- Where an address is mapped there is a table.
pub table_there :
    (s : Vm) (d x : ℕ) → is_present (pte s d x) ≡ true → is_present (entry s d (pdx x)) ≡ true
table_there s d x y = elim (Bool-cases (is_present (entry s d (pdx x)))) [
  | inl z ↦ z
  | inr n ↦ cc (sym (ap is_present (pte-missing s d x n)) ∙ y)
]

-- The page of `a` given back and the entry cleared.
abbrev pub unmapped : Vm → ℕ → ℕ → Vm
unmapped s d a = with_entry (after_free s (page_of (pte s d a))) d a 0

-- A page that is mapped is given back.
module _ (kernel_end : ℕ) (s : Vm) (d : ℕ) (fl : List ℕ) (t : Tree kernel_end s d fl)
    (u : Users kernel_end s d fl) (a : ℕ) (user : a < 2 ^ 31)
    (there : is_present (pte s d a) ≡ true) where
  page : IsPage kernel_end (page_of (pte s d a)) × Outside s d fl (page_of (pte s d a))
  page = u.own a user there

  freed_Tree : Tree kernel_end (after_free s (page_of (pte s d a))) d ((page_of (pte s d a)) ∷ fl)
  freed_Tree = after_free-Tree kernel_end s d (page_of (pte s d a)) fl t page.0 page.1

  freed_there : is_present (entry (after_free s (page_of (pte s d a))) d (pdx a)) ≡ true
  freed_there =
      ap is_present
        (after_free-entry kernel_end s d (page_of (pte s d a)) fl t page.0 page.1 (pdx a))
      ∙ table_there s d a there

  pub unmapped-Tree : Tree kernel_end (unmapped s d a) d ((page_of (pte s d a)) ∷ fl)
  unmapped-Tree =
      with_entry-Tree kernel_end (after_free s (page_of (pte s d a))) d ((page_of (pte s d a)) ∷ fl)
        freed_Tree a freed_there 0 (omega arith)

  pub unmapped-pte :
      (x : ℕ)
      → x < 2 ^ 32
      → pte (unmapped s d a) d x ≡ (if a / 4096 == x / 4096 then 0 else pte s d x)
  unmapped-pte x l =
      with_entry-page kernel_end (after_free s (page_of (pte s d a))) d ((page_of (pte s d a)) ∷ fl)
        freed_Tree a freed_there 0 (omega arith) x (omega arith) l
      ∙ ap (λ (o : ℕ). if a / 4096 == x / 4096 then 0 else o)
          (after_free-pte kernel_end s d (page_of (pte s d a)) fl t page.0 page.1 x)

  pub unmapped-stays :
      (q : ℕ)
      → Outside s d fl q
      → (page_of (pte s d a)) ≢ q
      → Outside (unmapped s d a) d ((page_of (pte s d a)) ∷ fl) q
        × ((unmapped s d a).pages q ≡ s.pages q)
  unmapped-stays q o n =
      let b = after_free-Outside kernel_end s d (page_of (pte s d a)) fl t page.0 page.1 q o n in
      let k =
        with_entry-Kept kernel_end (after_free s (page_of (pte s d a))) d
          ((page_of (pte s d a)) ∷ fl) freed_Tree a freed_there 0 (omega arith) in
      (
        k.outside q b,
        k.same q b ∙ update_ne s.pages (page_of (pte s d a)) (store_word 0 s.freelist (λ _. 1)) q n,
      )

  -- What is mapped yet was mapped, to what it is now.
  unmapped-old :
      (x : ℕ)
      → x < 2 ^ 31
      → is_present (pte (unmapped s d a) d x) ≡ true
      → (a / 4096 ≢ x / 4096) × (pte (unmapped s d a) d x ≡ pte s d x)
  unmapped-old x l y = elim (ℕ_discrete (a / 4096) (x / 4096)) [
    | yes e ↦
        let c : pte (unmapped s d a) d x ≡ 0 =
          unmapped-pte x (omega arith) ∙ rw (eq→== (a / 4096) (x / 4096) e) refl in
        cc (sym (ap is_present c) ∙ y)
    | no n ↦ (n, unmapped-pte x (omega arith) ∙ rw (ne→== (a / 4096) (x / 4096) n) refl)
  ]

  pub unmapped-Users : Users kernel_end (unmapped s d a) d ((page_of (pte s d a)) ∷ fl)
  unmapped-Users = record {
    own = λ x l y.
        let (n, e) = unmapped-old x l y in
        let z = sym (ap is_present e) ∙ y in
        let (b, o) = u.own x l z in
        subst
          (λ w.
            IsPage kernel_end (page_of w)
            × Outside (unmapped s d a) d ((page_of (pte s d a)) ∷ fl) (page_of w))
          (sym e)
          (b, (unmapped-stays (page_of (pte s d x)) o (λ f. n (u.single a x user l there z f))).0);
    single = λ x y l m h i e.
        let (n, f) = unmapped-old x l h in
        let (o, g) = unmapped-old y m i in
        u.single x y l m (sym (ap is_present f) ∙ h) (sym (ap is_present g) ∙ i)
          (sym (ap page_of f) ∙ e ∙ ap page_of g);
  }

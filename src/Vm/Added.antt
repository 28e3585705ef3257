-- ===== src/Vm/Added.antt =====
-- One page more for a user.
use os_lab.Base.{
  ℕ, ◌+◌, ◌%◌, ◌^◌, ◌≤◌, ◌<◌, ◌≡◌, refl, sym, ap, ◌∙◌, subst, inl, inr, true, false, List, ◌∷◌,
  arith, Bool-cases, update_self,
}
use os_lab.Kalloc.{v2p}
use os_lab.Kalloc.Pages.{Chain}
use os_lab.Vm.{Vm, is_present, page_of}
use os_lab.Vm.Tree.{IsPage, NotIn, first, Tree, pte, page_of-v2p}
use os_lab.Vm.Entries.{Outside, Kept, Kept-trans}
use os_lab.Vm.Stretch.{in_pages, in_pages-inv, mapped_to}
use os_lab.Vm.Maps.{Mapped}
use os_lab.Vm.Fresh.{
  after_take, taken_page, taken_page-pte, taken_page-Kept, taken_page-Outside, Users,
}

-- The address has a page that is writable, open to users, and zero.
abbrev pub FreshAt : Vm → ℕ → ℕ → Type 0
FreshAt s d x =
    (is_present (pte s d x) ≡ true)
    × (pte s d x % 4096 ≡ 7)
    × (s.pages (page_of (pte s d x)) ≡ (λ _. 0))

module _ (kernel_end : ℕ) (s : Vm) (d p : ℕ) (rest : List ℕ) (t : Tree kernel_end s d (p ∷ rest))
    (apart_rest : NotIn p rest) (chained : Chain (first s) (first s p) rest)
    (u : Users kernel_end s d (p ∷ rest)) (a : ℕ) (aligned : a % 4096 ≡ 0)
    (user : a + 4096 ≤ 2 ^ 31) (v : Vm)
    (r : Mapped kernel_end (after_take s p) d rest 1 a (v2p p) 6 v true) where
  one_done : r.done ≡ 1
  one_done = elim r.whole [ inl (b, e) ↦ e | inr (b, l, e) ↦ cc ]

  mapped : (x : ℕ) → x < 2 ^ 32 → pte v d x ≡ mapped_to a 1 (v2p p) 6 x (pte s d x)
  mapped x l =
      r.map x l
      ∙ ap
          (λ k.
            mapped_to a k (v2p p) 6 x
              (pte (taken_page kernel_end s d p rest t apart_rest chained) d x))
          one_done
      ∙ ap (mapped_to a 1 (v2p p) 6 x) (taken_page-pte kernel_end s d p rest t apart_rest chained x)

  pub new_pte : (x : ℕ) → in_pages a 1 x ≡ true → pte v d x ≡ v2p p + 7
  new_pte x y = let (b, c) = in_pages-inv a 1 x y in mapped x (omega arith) ∙ rw y (omega arith)

  pub old_pte : (x : ℕ) → x < 2 ^ 32 → in_pages a 1 x ≡ false → pte v d x ≡ pte s d x
  old_pte x l n = mapped x l ∙ rw n refl

  pub page_new : (x : ℕ) → in_pages a 1 x ≡ true → page_of (pte v d x) ≡ p
  page_new x y = ap page_of (new_pte x y) ∙ page_of-v2p kernel_end p 7 t.good.0 (omega arith)

  own_page : Outside v d r.left p
  own_page = r.kept.outside p (taken_page-Outside kernel_end s d p rest t apart_rest chained)

  one_zero : v.pages p ≡ (λ _. 0)
  one_zero =
      r.kept.same p (taken_page-Outside kernel_end s d p rest t apart_rest chained)
      ∙ update_self s.pages p (λ _. 0)

  pub one_kept : Kept s d (p ∷ rest) v r.left
  one_kept =
      Kept-trans s (taken_page kernel_end s d p rest t apart_rest chained) v d (p ∷ rest) rest
        r.left (taken_page-Kept kernel_end s d p rest t apart_rest chained) r.kept

  pub one_fresh : (x : ℕ) → in_pages a 1 x ≡ true → FreshAt v d x
  one_fresh x y =
      let (b, c, e, f) = t.good.0 in
      (
        ap is_present (new_pte x y) ∙ ground arith,
        ap (λ (w : ℕ). w % 4096) (new_pte x y) ∙ omega arith,
        ap v.pages (page_new x y) ∙ one_zero,
      )

  not_mine :
      (x : ℕ)
      → x < 2 ^ 31
      → is_present (pte v d x) ≡ true
      → in_pages a 1 x ≡ false
      → Outside s d (p ∷ rest) (page_of (pte v d x))
  not_mine x l y n =
      let e = old_pte x (omega arith) n in
      subst (λ w. Outside s d (p ∷ rest) (page_of w)) (sym e)
        (u.own x l (sym (ap is_present e) ∙ y)).1

  pub one_Users : Users kernel_end v d r.left
  one_Users = record {
    own = λ x l y. elim (Bool-cases (in_pages a 1 x)) [
      | inl i ↦
          subst (λ q. IsPage kernel_end q × Outside v d r.left q) (sym (page_new x i))
            (t.good.0, own_page)
      | inr n ↦
          let e = old_pte x (omega arith) n in
          (
            subst (λ w. IsPage kernel_end (page_of w)) (sym e)
                (u.own x l (sym (ap is_present e) ∙ y)).0,
            one_kept.outside (page_of (pte v d x)) (not_mine x l y n),
          )
    ];
    single = λ x y l m h i e. elim (Bool-cases (in_pages a 1 x)) [
      | inl f ↦ elim (Bool-cases (in_pages a 1 y)) [
        | inl g ↦
            let (b, c) = in_pages-inv a 1 x f in let (j, k) = in_pages-inv a 1 y g in omega arith
        | inr g ↦ absurd ((not_mine y m i g).taken.0 (sym (page_new x f) ∙ e))
      ]
      | inr f ↦ elim (Bool-cases (in_pages a 1 y)) [
        | inl g ↦ absurd ((not_mine x l h f).taken.0 (sym (page_new y g) ∙ sym e))
        | inr g ↦
            let b = old_pte x (omega arith) f in
            let c = old_pte y (omega arith) g in
            u.single x y l m (sym (ap is_present b) ∙ h) (sym (ap is_present c) ∙ i)
              (sym (ap page_of b) ∙ e ∙ ap page_of c)
      ]
    ];
  }

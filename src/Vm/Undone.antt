-- ===== src/Vm/Undone.antt =====
-- allocuvm takes back what it has given when memory runs out.
use os_lab.Base.{
  ℕ, ◌+◌, ◌-◌, ◌*◌, ◌/◌, ◌^◌, ◌≤◌, ◌<◌, ◌≡◌, refl, sym, ap, ◌∙◌, subst, ◌≢◌, ◌⊎◌, inl, inr, true,
  false, some, List, ◌∷◌, arith, dec_lt, ltb, leb, ne→==, Bool-cases, ok, update_ne,
}
use os_lab.Kalloc.{pgsize}
use os_lab.Vm.{store_word, Vm, is_present, page_of, pground_up}
use os_lab.Vm.Space.{grow, deallocuvm, allocuvm}
use os_lab.Vm.Tree.{IsPage, Tree, pte}
use os_lab.Vm.Entries.{Outside}
use os_lab.Vm.Stretch.{in_pages, in_pages-below, in_pages-above}
use os_lab.Vm.Fresh.{Users}
use os_lab.Vm.Freed.{after_free, free_page-ok, after_free-Tree, after_free-pte, after_free-Outside}
use os_lab.Vm.Shrunk.{Shrunk}
use os_lab.Vm.Grown.{Spare, Grown}

pub leb-yes : (a b : ℕ) → a ≤ b → leb a b ≡ true
leb-yes a b h = ground arith

pub leb-no : (a b : ℕ) → b < a → leb a b ≡ false
leb-no a b h = ground arith

pub ltb-no : (a b : ℕ) → b ≤ a → ltb a b ≡ false
ltb-no a b h = ground arith

-- A call that fails: nothing between the two sizes is mapped, and the rest is as it was.
pub record Undone (kernel_end : ℕ) (s : Vm) (d : ℕ) (fl : List ℕ) (a limit : ℕ) (new : Vm)
    : Type 0 where
  pub left : List ℕ
  pub tree : Tree kernel_end new d left
  pub users : Users kernel_end new d left
  pub gone : (x : ℕ) → a ≤ x → x / 4096 * 4096 < limit → is_present (pte new d x) ≡ false
  pub others : (x : ℕ) → x < 2 ^ 32 → (x < a) ⊎ (limit ≤ x / 4096 * 4096) → pte new d x ≡ pte s d x
  pub same : (q : ℕ) → Outside s d fl q → Outside new d left q × (new.pages q ≡ s.pages q)

-- The rounds of allocuvm's loop.
abbrev pub rounds : ℕ → ℕ → ℕ
rounds oldsz newsz = (newsz + pgsize - 1 - pground_up oldsz) / pgsize

module _ (kernel_end : ℕ) (s : Vm) (d : ℕ) (fl : List ℕ) (oldsz newsz : ℕ) (below : oldsz ≤ newsz)
    (user : newsz < 2 ^ 31)
    (free : (x : ℕ)
      → pground_up oldsz ≤ x
      → x / 4096 * 4096 < newsz
      → is_present (pte s d x) ≡ false)
    (v : Vm) (p : ℕ)
    (g : Grown kernel_end s d fl (rounds oldsz newsz) (pground_up oldsz) v (some p)) (new : Vm)
    (r : Shrunk kernel_end v d g.left (pground_up oldsz) newsz new) where
  shrunk_same : (q : ℕ) → Outside s d fl q → Outside new d r.left q × (new.pages q ≡ s.pages q)
  shrunk_same q o =
      let (b, c) = r.stays q (g.kept.outside q o) (λ x i j y.
        elim (Bool-cases (in_pages (pground_up oldsz) g.done x)) [
          | inl k ↦ g.was_free q x o k
          | inr k ↦
              let e : pte v d x ≡ pte s d x = g.others x (omega arith) k in
              cc (sym y ∙ ap is_present e ∙ free x i j)
        ]) in
      (b, c ∙ g.kept.same q o)

  shrunk_others :
      (x : ℕ)
      → x < 2 ^ 32
      → (x < pground_up oldsz) ⊎ (newsz ≤ x / 4096 * 4096)
      → pte new d x ≡ pte s d x
  shrunk_others x l k =
      r.others x l k
      ∙ g.others x l (elim k [
        | inl m ↦ in_pages-below (pground_up oldsz) g.done x m
        | inr m ↦ in_pages-above (pground_up oldsz) g.done x (omega (arith, g.within))
      ])

  no_spare : Undone kernel_end s d fl (pground_up oldsz) newsz new
  no_spare = record {
    left = r.left;
    tree = r.tree;
    users = r.users;
    gone = r.gone;
    others = shrunk_others;
    same = shrunk_same;
  }

  -- The page that found no table goes back as well.
  module _ (page : IsPage kernel_end p) (o : Outside v d g.left p)
      (nobody : (x : ℕ) → x < 2 ^ 31 → is_present (pte v d x) ≡ true → page_of (pte v d x) ≢ p)
      (not_other : (q : ℕ) → Outside s d fl q → p ≢ q) where
    spare_outside : Outside new d r.left p
    spare_outside = (r.stays p o (λ x i j y. nobody x (omega arith) y)).0

    back_pte : (x : ℕ) → pte (after_free new p) d x ≡ pte new d x
    back_pte = after_free-pte kernel_end new d p r.left r.tree page spare_outside

    mapped_yet :
        (x : ℕ)
        → x < 2 ^ 31
        → is_present (pte new d x) ≡ true
        → (x < pground_up oldsz) ⊎ (newsz ≤ x / 4096 * 4096)
        → p ≢ page_of (pte new d x)
    mapped_yet x l y b =
        let e = r.others x (omega arith) b in
        λ f. nobody x l (sym (ap is_present e) ∙ y) (sym (ap page_of e) ∙ sym f)

    not_spare : (x : ℕ) → x < 2 ^ 31 → is_present (pte new d x) ≡ true → p ≢ page_of (pte new d x)
    not_spare x l y = elim (dec_lt x (pground_up oldsz)) [
      | yes b ↦ mapped_yet x l y (inl b)
      | no b ↦ elim (dec_lt (x / 4096 * 4096) newsz) [
        | yes c ↦ cc (sym y ∙ r.gone x (omega arith) c)
        | no c ↦ mapped_yet x l y (inr (omega arith))
      ]
    ]

    spare_Undone : Undone kernel_end s d fl (pground_up oldsz) newsz (after_free new p)
    spare_Undone = record {
      left = p ∷ r.left;
      tree = after_free-Tree kernel_end new d p r.left r.tree page spare_outside;
      users = record {
        own = λ x l y.
            let z = sym (ap is_present (back_pte x)) ∙ y in
            let (b, c) = r.users.own x l z in
            subst
              (λ w.
                IsPage kernel_end (page_of w)
                × Outside (after_free new p) d (p ∷ r.left) (page_of w))
              (sym (back_pte x))
              (
                b,
                after_free-Outside kernel_end new d p r.left r.tree page spare_outside
                    (page_of (pte new d x)) c (not_spare x l z),
              );
        single = λ x y l m h i e.
            r.users.single x y l m (sym (ap is_present (back_pte x)) ∙ h)
              (sym (ap is_present (back_pte y)) ∙ i)
              (sym (ap page_of (back_pte x)) ∙ e ∙ ap page_of (back_pte y));
      };
      gone = λ x i j. ap is_present (back_pte x) ∙ r.gone x i j;
      others = λ x l k. back_pte x ∙ shrunk_others x l k;
      same = λ q b.
          let (c, e) = shrunk_same q b in
          (
            after_free-Outside kernel_end new d p r.left r.tree page spare_outside q c
                (not_other q b),
            update_ne new.pages p (store_word 0 new.freelist (λ _. 1)) q (not_other q b) ∙ e,
          );
    }

  pub undone :
      grow (rounds oldsz newsz) s d (pground_up oldsz) ≡ ok (v, some p)
      → deallocuvm kernel_end v d newsz oldsz ≡ ok (new, oldsz)
      → Spare kernel_end s d fl v g.left p
      → (last : Vm) × (allocuvm kernel_end s d oldsz newsz ≡ ok (last, 0))
        × Undone kernel_end s d fl (pground_up oldsz) newsz last
  unfolding allocuvm
  undone e f (inl z) =
      (new, rw (leb-no 2147483648 newsz user, ltb-no newsz oldsz below, e, f, z) refl, no_spare)
  undone e f (inr (page, o, nobody, not_other)) = (
    after_free new p,
    rw
        (
          leb-no 2147483648 newsz user,
          ltb-no newsz oldsz below,
          e,
          f,
          ne→== p 0 (omega (arith, page)),
          free_page-ok kernel_end new p page,
        )
        refl,
    spare_Undone page o nobody not_other,
  )

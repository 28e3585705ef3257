-- ===== src/Vm/Grow.antt =====
-- allocuvm's loop gives each page of the stretch a page of memory of its own.
use os_lab.Base.{
  ℕ, zero, suc, ◌+◌, ◌*◌, ◌%◌, ◌^◌, ◌≤◌, ◌<◌, ◌≡◌, refl, sym, ap, ◌∙◌, ◌≢◌, inl, inr, Bool, true,
  false, Option, none, some, List, [], ◌∷◌, arith, dec_lt, ok,
}
use os_lab.Kalloc.{v2p}
use os_lab.Kalloc.Pages.{Chain}
use os_lab.Vm.{Vm, is_present, page_of, alloc_page, mappages}
use os_lab.Vm.Space.{pte_wu, grow}
use os_lab.Vm.Tree.{NotIn, first, Tree, pte, alloc_page-nil, alloc_page-cons}
use os_lab.Vm.Entries.{Kept, Kept-refl, Kept-trans}
use os_lab.Vm.Stretch.{
  in_pages, in_pages-yes, in_pages-inv, in_pages-below, in_pages-above, nothing_in, in_pages-rest,
  in_pages-head, in_pages-more,
}
use os_lab.Vm.Maps.{Mapped, map_page}
use os_lab.Vm.Fresh.{
  after_take, taken_page, taken_page-Tree, taken_page-pte, taken_page-Kept, taken_page-Outside,
  Users,
}
use os_lab.Vm.Added.{page_new, FreshAt, old_pte, one_fresh, one_Users}
use os_lab.Vm.Grown.{
  Spare, grow-empty, grow-fail, grow-next, Grown, nothing-Grown, Users-same, GrowsFrom,
}

module _ (kernel_end : ℕ) (s : Vm) (d p : ℕ) (rest : List ℕ) (t : Tree kernel_end s d (p ∷ rest))
    (u : Users kernel_end s d (p ∷ rest)) (a n : ℕ) (aligned : a % 4096 ≡ 0)
    (user : a + 4096 * suc n ≤ 2 ^ 31)
    (taken : alloc_page s ≡ (record s { freelist = first s p }, p)) (z : p ≢ 0)
    (apart_rest : NotIn p rest) (chained : Chain (first s) (first s p) rest) where
  none_done :
      (v : Vm) → (r : Mapped kernel_end (after_take s p) d rest 1 a (v2p p) 6 v false) → r.done ≡ 0
  none_done v r = elim r.whole [ inl (b, e) ↦ cc | inr (b, l, e) ↦ omega arith ]

  kept :
      (v : Vm)
      → (b : Bool) → (r : Mapped kernel_end (after_take s p) d rest 1 a (v2p p) 6 v b)
      → Kept s d (p ∷ rest) v r.left
  kept v b r =
      Kept-trans s (taken_page kernel_end s d p rest t apart_rest chained) v d (p ∷ rest) rest
        r.left (taken_page-Kept kernel_end s d p rest t apart_rest chained) r.kept

  grow-stops :
      (v : Vm)
      → mappages (after_take s p) d a 4096 (v2p p) pte_wu ≡ ok (v, false)
      → Mapped kernel_end (after_take s p) d rest 1 a (v2p p) 6 v false
      → GrowsFrom kernel_end (suc n) s d (p ∷ rest) a
  grow-stops v m r =
      let same : (x : ℕ) → x < 2 ^ 32 → pte v d x ≡ pte s d x = λ x l.
        r.map x l
        ∙ rw (none_done v r, nothing_in a x)
            (taken_page-pte kernel_end s d p rest t apart_rest chained x) in
      (
        v,
        some p,
        grow-fail n s d a (record s { freelist = first s p }) p taken z v m,
        nothing-Grown kernel_end s d (p ∷ rest) (suc n) a v r.left p (omega arith)
            (inr (
              t.good.0,
              r.kept.outside p (taken_page-Outside kernel_end s d p rest t apart_rest chained),
              λ x l y e.
                  let f = same x (omega arith) in
                  (u.own x l (sym (ap is_present f) ∙ y)).1.taken.0 (sym e ∙ ap page_of f),
              λ q o. o.taken.0,
            ))
            r.tree (Users-same kernel_end s d (p ∷ rest) v r.left u (kept v false r) same)
            (kept v false r) same,
      )

  first_page :
      (v : Vm)
      → (r : Mapped kernel_end (after_take s p) d rest 1 a (v2p p) 6 v true) → (new : Vm)
      → (left : Option ℕ) → (g : Grown kernel_end v d r.left n (a + 4096) new left) → (x : ℕ)
      → a ≤ x
      → x < a + 4096
      → FreshAt new d x
  first_page v r new left g x h k =
      let (b, c, e) =
        one_fresh kernel_end s d p rest t apart_rest chained u a aligned (omega arith) v r x
          (in_pages-yes a 1 x h (omega arith)) in
      let same : pte new d x ≡ pte v d x =
        g.others x (omega arith) (in_pages-below (a + 4096) g.done x k) in
      let mine =
        (one_Users kernel_end s d p rest t apart_rest chained u a aligned (omega arith) v r).own x
          (omega arith) b in
      (
        ap is_present same ∙ b,
        ap (λ (w : ℕ). w % 4096) same ∙ c,
        ap (λ w. new.pages (page_of w)) same ∙ g.kept.same (page_of (pte v d x)) mine.1 ∙ e,
      )

  still-Spare :
      (v : Vm)
      → (r : Mapped kernel_end (after_take s p) d rest 1 a (v2p p) 6 v true) → (new : Vm)
      → (left : List ℕ) → (q : ℕ) → Spare kernel_end v d r.left new left q
      → Spare kernel_end s d (p ∷ rest) new left q
  still-Spare v r new left q (inl e) = inl e
  still-Spare v r new left q (inr (b, c, e, f)) =
      inr (b, c, e, λ x o. f x ((kept v true r).outside x o))

  grow-onwards :
      (v : Vm)
      → mappages (after_take s p) d a 4096 (v2p p) pte_wu ≡ ok (v, true)
      → (r : Mapped kernel_end (after_take s p) d rest 1 a (v2p p) 6 v true)
      → GrowsFrom kernel_end n v d r.left (a + 4096)
      → GrowsFrom kernel_end (suc n) s d (p ∷ rest) a
  grow-onwards v m r (new, left, e, g) = (
    new,
    left,
    grow-next n s d a (record s { freelist = first s p }) p taken z v m
        ∙ ap (grow n v d) (omega (arith, aligned, user))
        ∙ e,
    record {
      left = g.left;
      done = g.done + 1;
      within = omega (arith, g.within);
      fin = elim g.fin [
        | inl (h, k) ↦ inl (h, omega arith)
        | inr (q, h, k, f) ↦ inr (q, h, omega arith, still-Spare v r new g.left q f)
      ];
      tree = g.tree;
      users = g.users;
      kept = Kept-trans s v new d (p ∷ rest) r.left g.left (kept v true r) g.kept;
      fresh = λ x y. elim (dec_lt x (a + 4096)) [
        | yes k ↦ first_page v r new left g x (omega (arith, in_pages-inv a (g.done + 1) x y)) k
        | no k ↦ g.fresh x (
            in_pages-yes (a + 4096) g.done x (omega (arith, k))
              (omega (arith, in_pages-inv a (g.done + 1) x y)))
      ];
      was_free = λ q x o y. elim (dec_lt x (a + 4096)) [
        | yes k ↦ λ f. o.taken.0 (
            sym (
              page_new kernel_end s d p rest t apart_rest chained u a aligned (omega arith) v r x (
                in_pages-yes a 1 x (omega (arith, in_pages-inv a (g.done + 1) x y))
                  (omega (arith, k))))
            ∙ sym (
                ap page_of
                  (g.others x (omega (arith, k, user)) (in_pages-below (a + 4096) g.done x k)))
            ∙ f)
        | no k ↦ g.was_free q x ((kept v true r).outside q o) (
            in_pages-yes (a + 4096) g.done x (omega (arith, k))
              (omega (arith, in_pages-inv a (g.done + 1) x y)))
      ];
      others = λ x l y.
          g.others x l (in_pages-rest a g.done x y)
          ∙ old_pte kernel_end s d p rest t apart_rest chained u a aligned (omega arith) v r x l
              (in_pages-head a g.done x y);
    },
  )

  grow-taken :
      ((x : ℕ) → in_pages a (suc n) x ≡ true → is_present (pte s d x) ≡ false)
      → ((w : Vm)
          → (fl : List ℕ) → Tree kernel_end w d fl
          → Users kernel_end w d fl
          → ((x : ℕ) → in_pages (a + 4096) n x ≡ true → is_present (pte w d x) ≡ false)
          → GrowsFrom kernel_end n w d fl (a + 4096))
      → (v : Vm) → (b : Bool) → mappages (after_take s p) d a 4096 (v2p p) pte_wu ≡ ok (v, b)
      → Mapped kernel_end (after_take s p) d rest 1 a (v2p p) 6 v b
      → GrowsFrom kernel_end (suc n) s d (p ∷ rest) a
  grow-taken free ih v false m r = grow-stops v m r
  grow-taken free ih v true m r = grow-onwards v m r (
      ih v r.left r.tree
        (one_Users kernel_end s d p rest t apart_rest chained u a aligned (omega arith) v r)
        (λ x y.
          let (b, c) = in_pages-inv (a + 4096) n x y in
          ap is_present (
            old_pte kernel_end s d p rest t apart_rest chained u a aligned (omega arith) v r x
              (omega arith) (in_pages-above a 1 x b))
          ∙ free x (in_pages-yes a (suc n) x (omega arith) (omega arith))))

pub grow_lem :
    (kernel_end d n : ℕ) (s : Vm) (fl : List ℕ) (a : ℕ)
    → Tree kernel_end s d fl
    → Users kernel_end s d fl
    → a % 4096 ≡ 0
    → a + 4096 * n ≤ 2 ^ 31
    → ((x : ℕ) → in_pages a n x ≡ true → is_present (pte s d x) ≡ false)
    → GrowsFrom kernel_end n s d fl a
unfolding grow
grow_lem kernel_end d zero s fl a t u l h free = (
  s,
  none,
  refl,
  record {
    left = fl;
    done = 0;
    within = omega arith;
    fin = inl (refl, refl);
    tree = t;
    users = u;
    kept = Kept-refl s d fl;
    fresh = λ x y. let (b, c) = in_pages-inv a 0 x y in absurd (omega arith);
    was_free = λ q x o y. let (b, c) = in_pages-inv a 0 x y in absurd (omega arith);
    others = λ x m y. refl;
  },
)
grow_lem kernel_end d (suc n) s [] a t u l h free = (
  s,
  some 0,
  grow-empty n s d a (alloc_page-nil s t.linked),
  nothing-Grown kernel_end s d [] (suc n) a s [] 0 (omega arith) (inl refl) t u (Kept-refl s d [])
      (λ x l. refl),
)
grow_lem kernel_end d (suc n) s (p ∷ rest) a t u l h free =
    let (e, z, c, k) = alloc_page-cons s p rest t.linked in
    let (v, b, m, r) =
      map_page kernel_end (after_take s p) d rest a (v2p p) 6
        (taken_page-Tree kernel_end s d p rest t c k) (omega arith) (omega (arith, t.good.0)) l
        (omega arith) (omega (arith, t.good.0))
        (λ x y.
          ap is_present (taken_page-pte kernel_end s d p rest t c k x)
          ∙ free x (in_pages-more a n x y)) in
    grow-taken kernel_end s d p rest t u a n l h e z c k free
      (λ w fl y q o. grow_lem kernel_end d n w fl (a + 4096) y q (omega arith) (omega arith) o) v b
      m r

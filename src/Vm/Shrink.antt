-- ===== src/Vm/Shrink.antt =====
-- deallocuvm's loop gives back the pages of a stretch.
use os_lab.Base.{
  ℕ, zero, suc, ◌+◌, ◌*◌, ◌/◌, ◌%◌, ◌^◌, ◌≤◌, ◌<◌, ◌≡◌, refl, sym, ap, ap₂, ◌∙◌, subst, ◌≢◌, inl,
  inr, true, false, List, ◌∷◌, arith, dec_lt, ltb, if◌then◌else◌, eq→==, ne→==, lt→ltb, Bool-cases,
  ok,
}
use os_lab.Vm.{Vm, pdx, ptx, is_present, page_of, entry, set_entry, free_page, walkpgdir, pte_addr}
use os_lab.Vm.Space.{unmap_pages}
use os_lab.Vm.Tree.{table, Tree, pte, pte-there, pte-missing}
use os_lab.Vm.Fresh.{Users}
use os_lab.Vm.Freed.{after_free, free_page-ok, after_free-entry}
use os_lab.Vm.Unmap.{
  table_there, unmapped, unmapped-Tree, unmapped-Users, unmapped-pte, unmapped-stays,
}
use os_lab.Vm.Shrunk.{Shrunk, ShrinksTo, nothing_left, passed_over}

not_less : (a b : ℕ) → b ≤ a → ltb a b ≡ false
not_less a b h = ground arith

round-done :
    (kernel_end n : ℕ) (s : Vm) (d a limit : ℕ)
    → limit ≤ a
    → unmap_pages kernel_end n s d a limit ≡ ok s
unfolding unmap_pages
round-done kernel_end zero s d a limit h = refl
round-done kernel_end (suc n) s d a limit h = rw (unmap_pages, not_less a limit h) refl

module _ (kernel_end n : ℕ) (s : Vm) (d a limit : ℕ) where
  round-missing :
      a < limit
      → is_present (entry s d (pdx a)) ≡ false
      → unmap_pages kernel_end (suc n) s d a limit
        ≡ unmap_pages kernel_end n s d ((pdx a + 1) * 2 ^ 22 % 2 ^ 32) limit
  unfolding unmap_pages walkpgdir
  round-missing h m = rw (lt→ltb a limit h, m, unmap_pages) refl

  round-empty :
      a < limit
      → is_present (entry s d (pdx a)) ≡ true
      → is_present (pte s d a) ≡ false
      → unmap_pages kernel_end (suc n) s d a limit
        ≡ unmap_pages kernel_end n s d ((a + 4096) % 2 ^ 32) limit
  unfolding unmap_pages walkpgdir
  round-empty h y m =
      rw (lt→ltb a limit h, y, ap is_present (sym (pte-there s d a y)) ∙ m, unmap_pages) refl

  round-page :
      (v : Vm)
      → a < limit
      → is_present (entry s d (pdx a)) ≡ true
      → is_present (entry s (table s d (pdx a)) (ptx a)) ≡ true
      → pte_addr (entry s (table s d (pdx a)) (ptx a)) ≢ 0
      → free_page kernel_end s (page_of (entry s (table s d (pdx a)) (ptx a))) ≡ ok v
      → unmap_pages kernel_end (suc n) s d a limit
        ≡ unmap_pages kernel_end n
            (set_entry v (table s d (pdx a)) (ptx a) 0)
            d
            ((a + 4096) % 2 ^ 32)
            limit
  unfolding unmap_pages walkpgdir
  round-page v h t y z f =
      rw
        (
          lt→ltb a limit h,
          t,
          y,
          ne→== (pte_addr (entry s (table s d (pdx a)) (ptx a))) 0 z,
          f,
          unmap_pages,
        )
        refl

one_page :
    (s : Vm) (d a x : ℕ) → a / 4096 ≡ x / 4096 → a < 2 ^ 32 → x < 2 ^ 32 → pte s d x ≡ pte s d a
unfolding pte
one_page s d a x h k l =
    let e : pdx x ≡ pdx a = omega arith in
    let f : ptx x ≡ ptx a = omega arith in
    ap₂ (λ i j. if is_present (entry s d i) then entry s (table s d i) j else 0) e f

module _ (kernel_end : ℕ) (s : Vm) (d : ℕ) (fl : List ℕ) (t : Tree kernel_end s d fl)
    (u : Users kernel_end s d fl) (a limit : ℕ) (below : a < limit) (user : limit ≤ 2 ^ 31)
    (inside : a < 2 ^ 31) (aligned : a % 4096 ≡ 0) (there : is_present (pte s d a) ≡ true) where
  given_back :
      (new : Vm)
      → Shrunk kernel_end (unmapped s d a) d (page_of (pte s d a) ∷ fl) (a + 4096) limit new
      → Shrunk kernel_end s d fl a limit new
  given_back new r = record {
    left = r.left;
    tree = r.tree;
    users = r.users;
    gone = λ x l k. elim (dec_lt x (a + 4096)) [
      | yes m ↦
          let same : pte new d x ≡ 0 =
            r.others x (omega arith) (inl m)
            ∙ unmapped-pte kernel_end s d fl t u a inside there x (omega arith)
            ∙ rw (eq→== (a / 4096) (x / 4096) (omega arith)) refl in
          ap is_present same
      | no m ↦ r.gone x (omega arith) k
    ];
    others = λ x l k.
        r.others x l (elim k [ inl m ↦ inl (omega arith) | inr m ↦ inr m ])
        ∙ unmapped-pte kernel_end s d fl t u a inside there x l
        ∙ rw (ne→== (a / 4096) (x / 4096) (elim k [ inl m ↦ omega arith | inr m ↦ omega arith ]))
            refl;
    stays = λ q o n.
        let (b, c) =
          unmapped-stays kernel_end s d fl t u a inside there q o
            (n a (omega arith) (omega arith) there) in
        let (e, f) = r.stays q b (λ x l k y.
          let same : pte (unmapped s d a) d x ≡ pte s d x =
            unmapped-pte kernel_end s d fl t u a inside there x (omega arith)
            ∙ rw (ne→== (a / 4096) (x / 4096) (omega arith)) refl in
          λ g. n x (omega arith) k (sym (ap is_present same) ∙ y) (sym (ap page_of same) ∙ g)) in
        (e, f ∙ c);
  }

  round-back :
      (n : ℕ)
      → unmap_pages kernel_end (suc n) s d a limit
        ≡ unmap_pages kernel_end n (unmapped s d a) d (a + 4096) limit
  round-back n =
      let y = table_there s d a there in
      let (page, o) = u.own a inside there in
      let c = pte-there s d a y in
      let z : pte_addr (pte s d a) ≢ 0 = λ e. omega (arith, page) in
      round-page kernel_end n s d a limit (after_free s (page_of (pte s d a))) below y
        (sym (ap is_present c) ∙ there) (subst (λ w. pte_addr w ≢ 0) c z)
        (subst (λ w. free_page kernel_end s (page_of w) ≡ ok (after_free s (page_of (pte s d a)))) c
          (free_page-ok kernel_end s (page_of (pte s d a)) page))
      ∙ ap₂
          (λ q b.
            unmap_pages kernel_end n (set_entry (after_free s (page_of (pte s d a))) q (ptx a) 0) d
              b limit)
          (sym (
            ap page_of (after_free-entry kernel_end s d (page_of (pte s d a)) fl t page o (pdx a))))
          (omega arith)

-- The loop goes through the stretch, with as many rounds as it has pages.
pub shrink_lem :
    (kernel_end d limit n : ℕ) (s : Vm) (fl : List ℕ) (a : ℕ)
    → Tree kernel_end s d fl
    → Users kernel_end s d fl
    → a % 4096 ≡ 0
    → limit ≤ 2 ^ 31
    → limit ≤ a + 4096 * n
    → ShrinksTo kernel_end n s d fl a limit
shrink_lem kernel_end d limit zero s fl a t u m l h = (
  s,
  round-done kernel_end 0 s d a limit (omega arith),
  nothing_left kernel_end s d fl a limit t u m (omega arith),
)
shrink_lem kernel_end d limit (suc n) s fl a t u m l h = elim (dec_lt a limit) [
  | no b ↦ (
    s,
    round-done kernel_end (suc n) s d a limit (omega arith),
    nothing_left kernel_end s d fl a limit t u m (omega arith),
  )
  | yes b ↦ elim (Bool-cases (is_present (entry s d (pdx a)))) [
    | inr c ↦
        let (new, e, r) =
          shrink_lem kernel_end d limit n s fl ((pdx a + 1) * 2 ^ 22) t u (omega arith) l
            (omega arith) in
        (
          new,
          round-missing kernel_end n s d a limit b c
              ∙ ap (λ x. unmap_pages kernel_end n s d x limit) (omega arith)
              ∙ e,
          passed_over kernel_end s d fl a ((pdx a + 1) * 2 ^ 22) limit new (omega arith) l
              (λ x i j k.
                let same : pdx a ≡ pdx x = omega arith in
                ap is_present
                  (pte-missing s d x (ap (λ i. is_present (entry s d i)) (sym same) ∙ c)))
              r,
        )
    | inl y ↦ elim (Bool-cases (is_present (pte s d a))) [
      | inr c ↦
          let (new, e, r) =
            shrink_lem kernel_end d limit n s fl (a + 4096) t u (omega arith) l (omega arith) in
          (
            new,
            round-empty kernel_end n s d a limit b y c
                ∙ ap (λ x. unmap_pages kernel_end n s d x limit) (omega arith)
                ∙ e,
            passed_over kernel_end s d fl a (a + 4096) limit new (omega arith) l
                (λ x i j k.
                  ap is_present (one_page s d a x (omega arith) (omega arith) (omega arith)) ∙ c)
                r,
          )
      | inl z ↦
          let inside : a < 2 ^ 31 = omega arith in
          let (new, e, r) =
            shrink_lem kernel_end d limit n (unmapped s d a) (page_of (pte s d a) ∷ fl) (a + 4096)
              (unmapped-Tree kernel_end s d fl t u a inside z)
              (unmapped-Users kernel_end s d fl t u a inside z) (omega arith) l (omega arith) in
          (
            new,
            round-back kernel_end s d fl t u a limit b l inside m z n ∙ e,
            given_back kernel_end s d fl t u a limit b l inside m z new r,
          )
    ]
  ]
]

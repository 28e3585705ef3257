-- ===== src/Vm/Maps.antt =====
-- mappages maps the pages of a stretch, one after the other.
use os_lab.Base.{
  ℕ, zero, suc, ◌+◌, ◌-◌, ◌*◌, ◌/◌, ◌%◌, ◌^◌, ◌≤◌, ◌<◌, ◌≡◌, refl, sym, ap, ap₂, ◌∙◌, subst, ◌⊎◌,
  inl, inr, Bool, true, false, some, List, [], arith, ◌==◌, if◌then◌else◌, ne→==, ok,
}
use os_lab.Vm.{
  mappages, Vm, pdx, ptx, is_present, entry, set_entry, walkpgdir, with_present, map_pages,
}
use os_lab.Vm.Tree.{table, Tree, pte, pte-there}
use os_lab.Vm.Stretch.{in_pages, in_pages-yes, in_pages-inv, mapped_to, one_more, nothing_in}
use os_lab.Vm.Entries.{
  Kept, Kept-refl, Kept-trans, walkpgdir-cases, with_entry, with_entry-Tree, with_entry-page,
  with_entry-Kept,
}

pub record Mapped (kernel_end : ℕ) (s : Vm) (d : ℕ) (fl : List ℕ) (n a pa perm : ℕ) (new : Vm)
    (b : Bool) : Type 0 where
  pub left : List ℕ
  pub done : ℕ
  pub within : done ≤ n
  pub whole : (b ≡ true) × (done ≡ n) ⊎ (b ≡ false) × (done < n) × (left ≡ [])
  pub tree : Tree kernel_end new d left
  pub kept : Kept s d fl new left
  pub map : (x : ℕ) → x < 2 ^ 32 → pte new d x ≡ mapped_to a done pa perm x (pte s d x)

-- A round of the loop.
map_pages-suc :
    (n : ℕ) (s : Vm) (d a pa perm : ℕ) (v : Vm) (t i : ℕ)
    → walkpgdir s d a true ≡ (v, some (t, i))
    → is_present (entry v t i) ≡ false
    → map_pages (suc n) s d a pa perm
      ≡ map_pages n
          (set_entry v t i (pa + with_present perm))
          d
          ((a + 4096) % 2 ^ 32)
          ((pa + 4096) % 2 ^ 32)
          perm
unfolding map_pages
map_pages-suc n s d a pa perm v t i w empty =
    rw (ap (λ r. r.1) w, ap (λ r. r.0) w, empty, map_pages)
      (ap
        (λ x.
          map_pages n (set_entry x t i (pa + with_present perm)) d ((a + 4096) % 2 ^ 32)
            ((pa + 4096) % 2 ^ 32) perm)
        (ap (λ r. r.0) w))

module _ (kernel_end d perm : ℕ) (flags : perm < 4096) where
  map_pages_lem :
      (n : ℕ) (s : Vm) (fl : List ℕ) (a pa : ℕ)
      → Tree kernel_end s d fl
      → a % 4096 ≡ 0
      → pa % 4096 ≡ 0
      → a + 4096 * n ≤ 2 ^ 32
      → pa + 4096 * n ≤ 2 ^ 32
      → ((x : ℕ) → in_pages a n x ≡ true → is_present (pte s d x) ≡ false)
      → (new : Vm) × (b : Bool) × (map_pages n s d a pa perm ≡ ok (new, b))
        × Mapped kernel_end s d fl n a pa perm new b
  unfolding map_pages
  map_pages_lem zero s fl a pa t l m h k free = (
    s,
    true,
    refl,
    record {
      left = fl;
      done = 0;
      within = omega arith;
      whole = inl (refl, refl);
      tree = t;
      kept = Kept-refl s d fl;
      map = λ x lt. rw (nothing_in a x) refl;
    },
  )
  map_pages_lem (suc n) s fl a pa t l m h k free = elim (walkpgdir-cases kernel_end s d fl a t) [
    | inl (w, e) ↦ (
      s,
      false,
      rw (ap (λ r. r.1) w, ap (λ r. r.0) w, map_pages) refl,
      record {
        left = fl;
        done = 0;
        within = omega arith;
        whole = inr (refl, omega arith, e);
        tree = t;
        kept = Kept-refl s d fl;
        map = λ x lt. rw (nothing_in a x) refl;
      },
    )
    | inr (v, left, w, u, y, same, kept) ↦
        let small : pa + with_present perm < 2 ^ 32 = omega arith in
        let inside : a < 2 ^ 32 = omega arith in
        let next = with_entry v d a (pa + with_present perm) in
        let empty : is_present (entry v (table v d (pdx a)) (ptx a)) ≡ false =
          ap is_present (sym (pte-there v d a y) ∙ same a)
          ∙ free a (in_pages-yes a (suc n) a (omega arith) (omega arith)) in
        let at : (x : ℕ)
            → x < 2 ^ 32
            → pte next d x ≡ (if a / 4096 == x / 4096 then pa + with_present perm else pte s d x) =
          λ x lt.
            with_entry-page kernel_end v d left u a y (pa + with_present perm) small x inside lt
            ∙ ap (λ (o : ℕ). if a / 4096 == x / 4096 then pa + with_present perm else o) (same x) in
        let free_next : (x : ℕ)
            → in_pages ((a + 4096) % 2 ^ 32) n x ≡ true
            → is_present (pte next d x) ≡ false =
          λ x z.
            let (f, g) = in_pages-inv ((a + 4096) % 2 ^ 32) n x z in
            ap is_present (at x (omega arith) ∙ rw (ne→== (a / 4096) (x / 4096) (omega arith)) refl)
            ∙ free x (in_pages-yes a (suc n) x (omega arith) (omega arith)) in
        let (new, b, e, r) =
          map_pages_lem n next left ((a + 4096) % 2 ^ 32) ((pa + 4096) % 2 ^ 32)
            (with_entry-Tree kernel_end v d left u a y (pa + with_present perm) small) (omega arith)
            (omega arith) (omega arith) (omega arith) free_next in
        (
          new,
          b,
          map_pages-suc n s d a pa perm v (table v d (pdx a)) (ptx a) w empty ∙ e,
          record {
            left = r.left;
            done = r.done + 1;
            within = omega (arith, r.within);
            whole = elim r.whole [
              | inl (f, g) ↦ inl (f, omega arith)
              | inr (f, g, o) ↦ inr (f, omega arith, o)
            ];
            tree = r.tree;
            kept = Kept-trans s v new d fl left r.left kept (
                Kept-trans v next new d left left r.left
                  (with_entry-Kept kernel_end v d left u a y (pa + with_present perm) small)
                  r.kept);
            map = λ x lt.
                r.map x lt
                ∙ ap (mapped_to ((a + 4096) % 2 ^ 32) r.done ((pa + 4096) % 2 ^ 32) perm x)
                    (at x lt)
                ∙ one_more a r.done pa perm x (pte s d x) l (omega (arith, r.within))
                    (omega (arith, r.within));
          },
        )
  ]

-- The pages from that of `va` to that of the last of `size` bytes.
abbrev pub pages_over : ℕ → ℕ → ℕ
pages_over va size = (va + size - 1) / 4096 - va / 4096 + 1

-- Where the pages from that of `va` on, over `size` bytes, are not mapped, mappages does not panic.
-- It maps the first of them, one after the other, to the pages from `pa` on with the bits of `perm`,
-- and all of them where it succeeds; it fails only when no free page is left for a table. What other
-- addresses are mapped to stays, the tables stay apart from each other and from the free pages, and
-- pages that are neither free nor tables are not written.
pub mappages_lem :
    (kernel_end : ℕ) (s : Vm) (d : ℕ) (fl : List ℕ) (va size pa perm : ℕ)
    → Tree kernel_end s d fl
    → perm < 4096
    → pa % 4096 ≡ 0
    → 0 < size
    → va + size ≤ 2 ^ 32
    → pa + 4096 * pages_over va size ≤ 2 ^ 32
    → ((x : ℕ)
        → in_pages (va / 4096 * 4096) (pages_over va size) x ≡ true
        → is_present (pte s d x) ≡ false)
    → (new : Vm) × (b : Bool) × (mappages s d va size pa perm ≡ ok (new, b))
      × Mapped kernel_end s d fl (pages_over va size) (va / 4096 * 4096) pa perm new b
unfolding mappages
mappages_lem kernel_end s d fl va size pa perm t f m z h k free =
    let (new, b, e, r) =
      map_pages_lem kernel_end d perm f (pages_over va size) s fl (va / 4096 * 4096) pa t
        (omega arith) m (omega arith) k free in
    (new, b, ap (λ c. map_pages c s d (va / 4096 * 4096) pa perm) rounds ∙ e, r)
  where
    rounds :
        ((va + size + 2 ^ 32 - 1) % 2 ^ 32 / 4096 * 4096 + 2 ^ 32 - va / 4096 * 4096)
            % 2 ^ 32
            / 4096
          + 1
        ≡ pages_over va size
    rounds = omega arith

-- One page at an address that is a multiple of the page size.
pub map_page :
    (kernel_end : ℕ) (s : Vm) (d : ℕ) (fl : List ℕ) (a pa perm : ℕ)
    → Tree kernel_end s d fl
    → perm < 4096
    → pa % 4096 ≡ 0
    → a % 4096 ≡ 0
    → a + 4096 ≤ 2 ^ 32
    → pa + 4096 ≤ 2 ^ 32
    → ((x : ℕ) → in_pages a 1 x ≡ true → is_present (pte s d x) ≡ false)
    → (new : Vm) × (b : Bool) × (mappages s d a 4096 pa perm ≡ ok (new, b))
      × Mapped kernel_end s d fl 1 a pa perm new b
map_page kernel_end s d fl a pa perm t f m l h k free =
    let one : pages_over a 4096 ≡ 1 = omega arith in
    let at : a / 4096 * 4096 ≡ a = omega arith in
    let (new, b, e, r) =
      mappages_lem kernel_end s d fl a 4096 pa perm t f m (omega arith) h (omega arith)
        (λ x i. free x (sym (ap₂ (λ n y. in_pages y n x) one at) ∙ i)) in
    (
      new,
      b,
      e,
      subst (λ n. Mapped kernel_end s d fl n a pa perm new b) one
          (subst (λ y. Mapped kernel_end s d fl (pages_over a 4096) y pa perm new b) at r),
    )

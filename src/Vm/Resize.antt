-- ===== src/Vm/Resize.antt =====
-- allocuvm and deallocuvm change the size of a process.
use os_lab.Base.{
  ℕ, ◌+◌, ◌*◌, ◌/◌, ◌^◌, ◌≤◌, ◌<◌, ◌≡◌, refl, sym, subst, ◌⊎◌, inl, inr, false, Option, none, some,
  List, arith, dec_lt, lt→ltb, ok, some-injective,
}
use os_lab.Vm.{Vm, is_present, pground_up}
use os_lab.Vm.Space.{grow, deallocuvm, allocuvm}
use os_lab.Vm.Tree.{Tree, pte}
use os_lab.Vm.Stretch.{in_pages-inv}
use os_lab.Vm.Fresh.{Users}
use os_lab.Vm.Shrunk.{Shrunk}
use os_lab.Vm.Shrink.{shrink_lem}
use os_lab.Vm.Grown.{Spare, Grown}
use os_lab.Vm.Grow.{grow_lem}
use os_lab.Vm.Undone.{Undone, rounds, undone, leb-yes, leb-no, ltb-no}

-- For sizes up to KERNBASE, deallocuvm does not panic. Where the new size is not below the old one
-- it changes nothing and returns the old one. Else it returns the new one, no page between the two
-- sizes is mapped any more, and all other addresses are mapped as before. The pages that it unmaps
-- are free, the others that are neither free nor tables keep their bytes, and tables, free pages and
-- the pages of users stay apart from each other.
pub deallocuvm_lem :
    (kernel_end : ℕ) (s : Vm) (d : ℕ) (fl : List ℕ) (oldsz newsz : ℕ)
    → Tree kernel_end s d fl
    → Users kernel_end s d fl
    → oldsz ≤ 2 ^ 31
    → ((oldsz ≤ newsz) × (deallocuvm kernel_end s d oldsz newsz ≡ ok (s, oldsz)))
      ⊎ ((newsz < oldsz)
          × (new : Vm) × (deallocuvm kernel_end s d oldsz newsz ≡ ok (new, newsz))
          × Shrunk kernel_end s d fl (pground_up newsz) oldsz new)
unfolding deallocuvm
deallocuvm_lem kernel_end s d fl oldsz newsz t u h = elim (dec_lt newsz oldsz) [
  | no n ↦ inl (omega arith, rw (leb-yes oldsz newsz (omega arith)) refl)
  | yes l ↦
      let (new, e, r) =
        shrink_lem kernel_end d oldsz (oldsz / 4096 + 1) s fl (pground_up newsz) t u (omega arith) h
          (omega arith) in
      inr (l, new, rw (leb-no oldsz newsz l, e) refl, r)
]

-- Where no page between the two sizes is mapped, allocuvm does not panic. It returns 0 for a size
-- from KERNBASE on, and the old size for a smaller one, and changes nothing. Else it either returns
-- the new size and each address up to it has got a page that was free, is not another address's, is
-- writable, open to users and filled with zeros; or it returns 0, with no page between the sizes
-- mapped. In both cases all other addresses are mapped as before, pages that were neither free nor
-- tables keep their bytes, and tables, free pages and the pages of users stay apart.
pub allocuvm_lem :
    (kernel_end : ℕ) (s : Vm) (d : ℕ) (fl : List ℕ) (oldsz newsz : ℕ)
    → Tree kernel_end s d fl
    → Users kernel_end s d fl
    → oldsz < 2 ^ 32
    → newsz < 2 ^ 32
    → ((x : ℕ)
        → x < 2 ^ 31
        → pground_up oldsz ≤ x
        → x / 4096 * 4096 < newsz
        → is_present (pte s d x) ≡ false)
    → ((2 ^ 31 ≤ newsz) × (allocuvm kernel_end s d oldsz newsz ≡ ok (s, 0)))
      ⊎ ((newsz < oldsz) × (allocuvm kernel_end s d oldsz newsz ≡ ok (s, oldsz)))
      ⊎ ((oldsz ≤ newsz)
          × (newsz < 2 ^ 31)
          × (((new : Vm) × (allocuvm kernel_end s d oldsz newsz ≡ ok (new, newsz))
                × Grown kernel_end s d fl (rounds oldsz newsz) (pground_up oldsz) new none)
              ⊎ ((new : Vm) × (allocuvm kernel_end s d oldsz newsz ≡ ok (new, 0))
                  × Undone kernel_end s d fl (pground_up oldsz) newsz new)))
unfolding allocuvm
allocuvm_lem kernel_end s d fl oldsz newsz t u old new free = elim (dec_lt newsz (2 ^ 31)) [
  | no b ↦ inl (omega arith, rw (leb-yes 2147483648 newsz (omega arith)) refl)
  | yes b ↦ elim (dec_lt newsz oldsz) [
    | yes c ↦ inr (inl (c, rw (leb-no 2147483648 newsz b, lt→ltb newsz oldsz c) refl))
    | no c ↦
        let (v, r, e, g) =
          grow_lem kernel_end d (rounds oldsz newsz) s fl (pground_up oldsz) t u (omega arith)
            (omega arith)
            (λ x i.
              let (j, k) = in_pages-inv (pground_up oldsz) (rounds oldsz newsz) x i in
              free x (omega arith) j (omega arith)) in
        inr (inr (omega arith, b, grown v r e g c b))
  ]
]
  where
    grown :
        (v : Vm)
        → (r : Option ℕ) → grow (rounds oldsz newsz) s d (pground_up oldsz) ≡ ok (v, r)
        → Grown kernel_end s d fl (rounds oldsz newsz) (pground_up oldsz) v r
        → ¬ (newsz < oldsz)
        → newsz < 2 ^ 31
        → ((new : Vm) × (allocuvm kernel_end s d oldsz newsz ≡ ok (new, newsz))
            × Grown kernel_end s d fl (rounds oldsz newsz) (pground_up oldsz) new none)
          ⊎ ((new : Vm) × (allocuvm kernel_end s d oldsz newsz ≡ ok (new, 0))
              × Undone kernel_end s d fl (pground_up oldsz) newsz new)
    grown v none e g c b =
        inl (v, rw (leb-no 2147483648 newsz b, ltb-no newsz oldsz (omega arith), e) refl, g)
    grown v (some p) e g c b = inr (elim g.fin [
      | inl (h, k) ↦ cc
      | inr (q, h, k, f) ↦
          elim (deallocuvm_lem kernel_end v d g.left newsz oldsz g.tree g.users (omega arith)) [
            | inl (l, m) ↦ absurd (omega arith)
            | inr (l, last, m, z) ↦
                undone kernel_end s d fl oldsz newsz (omega arith) b
                  (λ x i j. free x (omega arith) i j) v p g last z e m
                  (subst (Spare kernel_end s d fl v g.left) (sym (some-injective h)) f)
          ]
    ])

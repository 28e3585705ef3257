-- ===== src/Kalloc/Tests.antt =====
-- kalloc.c with two pages.
use os_lab.Base.{ℕ, ◌+◌, ◌^◌, ◌≡◌, refl, ◌≢◌, true, false, List, arith, All, update}
use os_lab.Kalloc.{kfree, kalloc}
use os_lab.Kalloc.Pages.{Chain, System, frees, Reach, boot, and_then, pages_once}

abbrev one_page : ℕ
one_page = 2 ^ 31 + 4096

abbrev given_back : System
given_back = record {
  kmem = record { freelist = one_page; next = update (λ _. 0) one_page 0 };
  owned = update (λ _. true) one_page false;
}

reached : Reach (2 ^ 31) (λ _. 0) given_back
unfolding kfree
reached = and_then boot (frees one_page (omega arith) refl refl)

pages_once_example :
    ((pages : List ℕ) × Chain given_back.kmem.next given_back.kmem.freelist pages
      × All (λ q. given_back.owned q ≡ false) pages)
    × ((kalloc given_back.kmem).1 ≢ 0 → given_back.owned (kalloc given_back.kmem).1 ≡ false)
pages_once_example = pages_once reached

-- ===== src/Vm.antt =====
-- vm.c: page tables, and the memory of user processes.
-- A page is its kernel virtual address, and `pages` gives the bytes of each by their offset. A
-- pointer to an entry of a page table is the page of the table and the index in it.
pub mod Space
pub mod Copy
pub mod Tree
pub mod Walk
pub mod Entries
pub mod Stretch
pub mod Maps
pub mod Fresh
pub mod Added
pub mod Grown
pub mod Grow
pub mod Freed
pub mod Unmap
pub mod Shrunk
pub mod Shrink
pub mod Undone
pub mod Resize
pub mod Memory
pub mod Growproc
mod Tests
use os_lab.Base.{
  ℕ, zero, suc, ◌+◌, ◌-◌, ◌*◌, ◌/◌, ◌%◌, ◌^◌, Bool, true, false, Option, none, some, ◌==◌,
  if◌then◌else◌, Outcome, ok, panic, ◌>>=◌, update,
}
use os_lab.KString.{store_word}
use os_lab.Syscall.{word}
use os_lab.Kalloc.{Kmem, kalloc, kfree, v2p, pgsize}

pub record Vm : Type 0 where
  pub freelist : ℕ
  pub pages : ℕ → ℕ → ℕ

abbrev pub pdx : ℕ → ℕ
pdx va = va / 2 ^ 22 % 1024

abbrev pub ptx : ℕ → ℕ
ptx va = va / 2 ^ 12 % 1024

abbrev pub p2v : ℕ → ℕ
p2v a = (a + 2 ^ 31) % 2 ^ 32

abbrev pub is_present : ℕ → Bool
is_present e = e % 2 == 1

abbrev pub is_user : ℕ → Bool
is_user e = e / 4 % 2 == 1

abbrev pub pte_addr : ℕ → ℕ
pte_addr e = e / pgsize * pgsize

abbrev pub pte_flags : ℕ → ℕ
pte_flags e = e % pgsize

-- The page that an entry refers to.
abbrev pub page_of : ℕ → ℕ
page_of e = p2v (pte_addr e)

abbrev pub entry : Vm → ℕ → ℕ → ℕ
entry s p i = word (s.pages p) (4 * i)

unfoldable pub set_entry : Vm → ℕ → ℕ → ℕ → Vm
set_entry s p i w = record s { pages = update s.pages p (store_word (4 * i) w (s.pages p)) }

-- The allocator keeps its list in the first words of the free pages.
abbrev pub kmem : Vm → Kmem
kmem s = record { freelist = s.freelist; next = λ p. word (s.pages p) 0 }

unfoldable pub alloc_page : Vm → Vm × ℕ
unfolding kalloc
alloc_page s = (record s { freelist = (kalloc (kmem s)).0.freelist }, (kalloc (kmem s)).1)

-- kfree fills the page with ones before it links it.
unfoldable pub free_page : ℕ → Vm → ℕ → Outcome Vm
unfolding kfree store_word
free_page kernel_end s v = kfree kernel_end (kmem s) v >>= (λ k.
    ok (record {
      freelist = k.freelist;
      pages = update s.pages v (store_word 0 (k.next v) (λ _. 1));
    }))

abbrev pub zero_page : Vm → ℕ → Vm
zero_page s p = record s { pages = update s.pages p (λ _. 0) }

-- Present, writable and open to users; the address of a page has none of these bits.
abbrev pub pte_pwu : ℕ
pte_pwu = 7

unfoldable pub walkpgdir : Vm → ℕ → ℕ → Bool → Vm × Option (ℕ × ℕ)
walkpgdir s pgdir va alloc =
    let e = entry s pgdir (pdx va) in
    let (new, p) = alloc_page s in
    if is_present e
    then (s, some (page_of e, ptx va))
    else if alloc
    then (if p == 0
        then (new, none)
        else (set_entry (zero_page new p) pgdir (pdx va) (v2p p + pte_pwu), some (p, ptx va)))
    else (s, none)

-- `perm | PTE_P`
abbrev pub with_present : ℕ → ℕ
with_present perm = perm / 2 * 2 + 1

-- The loop of mappages, by the number of its rounds; `pa` is the address of a page, so that `|` is
-- `+`. The answer is whether it got the tables that it needs.
unfoldable pub map_pages : ℕ → Vm → ℕ → ℕ → ℕ → ℕ → Outcome (Vm × Bool)
map_pages zero s pgdir a pa perm = ok (s, true)
map_pages (suc n) s pgdir a pa perm =
    let (new, found) = walkpgdir s pgdir a true in
    elim found [
      | none ↦ ok (new, false)
      | some (t, i) ↦ elim (is_present (entry new t i)) [
        | true ↦ panic
        | false ↦
            map_pages n (set_entry new t i (pa + with_present perm)) pgdir ((a + pgsize) % 2 ^ 32)
              ((pa + pgsize) % 2 ^ 32) perm
      ]
    ]

abbrev pub pground_down : ℕ → ℕ
pground_down a = a / pgsize * pgsize

abbrev pub pground_up : ℕ → ℕ
pground_up sz = (sz + pgsize - 1) % 2 ^ 32 / pgsize * pgsize

unfoldable pub mappages : Vm → ℕ → ℕ → ℕ → ℕ → ℕ → Outcome (Vm × Bool)
mappages s pgdir va size pa perm =
    let a = pground_down va in
    let last = pground_down ((va + size + 2 ^ 32 - 1) % 2 ^ 32) in
    map_pages ((last + 2 ^ 32 - a) % 2 ^ 32 / pgsize + 1) s pgdir a pa perm

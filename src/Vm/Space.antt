-- ===== src/Vm/Space.antt =====
-- vm.c: growing, shrinking, copying and writing the memory of a process.
use os_lab.Base.{
  ℕ, zero, suc, ◌+◌, ◌-◌, ◌*◌, ◌/◌, ◌%◌, ◌^◌, true, false, Option, none, some, ltb, leb, ◌==◌,
  if◌then◌else◌, Outcome, ok, panic, ◌>>=◌,
}
use os_lab.Kalloc.{v2p, pgsize}
use os_lab.Syscall.Arguments.{kernbase}
use os_lab.Vm.{
  Vm, pdx, is_present, pte_addr, page_of, entry, set_entry, alloc_page, free_page, zero_page,
  walkpgdir, mappages, pground_up,
}

-- PTE_W|PTE_U
abbrev pub pte_wu : ℕ
pte_wu = 6

-- The loop of allocuvm, by the number of its rounds. The answer is the page that mappages left
-- without a table, or 0 where kalloc had none, if it does not end well.
unfoldable pub grow : ℕ → Vm → ℕ → ℕ → Outcome (Vm × Option ℕ)
grow zero s pgdir a = ok (s, none)
grow (suc n) s pgdir a =
    let (new, mem) = alloc_page s in
    elim (mem == 0) [
      | true ↦ ok (new, some 0)
      | false ↦ mappages (zero_page new mem) pgdir a pgsize (v2p mem) pte_wu >>= (λ (last, mapped).
          elim mapped [
            | false ↦ ok (last, some mem)
            | true ↦ grow n last pgdir ((a + pgsize) % 2 ^ 32)
          ])
    ]

module _ (kernel_end : ℕ) where
  -- The loop of deallocuvm, with a round for each page at most. Where a table is missing, `a` goes on
  -- to what the next one maps.
  unfoldable pub unmap_pages : ℕ → Vm → ℕ → ℕ → ℕ → Outcome Vm
  unmap_pages zero s pgdir a oldsz = ok s
  unmap_pages (suc n) s pgdir a oldsz = elim (ltb a oldsz) [
    | false ↦ ok s
    | true ↦ elim (walkpgdir s pgdir a false).1 [
      | none ↦ unmap_pages n s pgdir ((pdx a + 1) * 2 ^ 22 % 2 ^ 32) oldsz
      | some (t, i) ↦ elim (is_present (entry s t i)) [
        | false ↦ unmap_pages n s pgdir ((a + pgsize) % 2 ^ 32) oldsz
        | true ↦ elim (pte_addr (entry s t i) == 0) [
          | true ↦ panic
          | false ↦
              free_page kernel_end s (page_of (entry s t i))
              >>= (λ new. unmap_pages n (set_entry new t i 0) pgdir ((a + pgsize) % 2 ^ 32) oldsz)
        ]
      ]
    ]
  ]

  unfoldable pub deallocuvm : Vm → ℕ → ℕ → ℕ → Outcome (Vm × ℕ)
  deallocuvm s pgdir oldsz newsz =
      if leb oldsz newsz
      then ok (s, oldsz)
      else unmap_pages (oldsz / pgsize + 1) s pgdir (pground_up newsz) oldsz
        >>= (λ new. ok (new, newsz))

  unfoldable pub allocuvm : Vm → ℕ → ℕ → ℕ → Outcome (Vm × ℕ)
  allocuvm s pgdir oldsz newsz =
      let a = pground_up oldsz in
      if leb kernbase newsz
      then ok (s, 0)
      else if ltb newsz oldsz
      then ok (s, oldsz)
      else grow ((newsz + pgsize - 1 - a) / pgsize) s pgdir a >>= (λ (new, left). elim left [
        | none ↦ ok (new, newsz)
        | some mem ↦ deallocuvm new pgdir newsz oldsz >>= (λ (back, sz).
            if mem == 0
            then ok (back, 0)
            else free_page kernel_end back mem >>= (λ last. ok (last, 0)))
      ])

  -- The second loop of freevm, over the entries that are left.
  unfoldable pub free_tables : ℕ → Vm → ℕ → ℕ → Outcome Vm
  free_tables zero s pgdir i = ok s
  free_tables (suc n) s pgdir i = elim (is_present (entry s pgdir i)) [
    | false ↦ free_tables n s pgdir (i + 1)
    | true ↦
        free_page kernel_end s (page_of (entry s pgdir i))
        >>= (λ new. free_tables n new pgdir (i + 1))
  ]

  unfoldable pub freevm : Vm → ℕ → Outcome Vm
  freevm s pgdir =
      if pgdir == 0
      then panic
      else deallocuvm s pgdir kernbase 0 >>= (λ (new, sz).
        free_tables 1024 new pgdir 0 >>= (λ last. free_page kernel_end last pgdir))

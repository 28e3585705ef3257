-- ===== src/Vm/Copy.antt =====
-- vm.c: the kernel's part of an address space, the copy for a child, and writes to user memory.
use os_lab.Base.{
  ℕ, zero, suc, ◌+◌, ◌-◌, ◌/◌, ◌%◌, ◌^◌, Bool, true, false, not, Option, none, some, List, [], ◌∷◌,
  ltb, leb, ◌==◌, if◌then◌else◌, Outcome, ok, panic, ◌>>=◌, length, take, drop, update,
}
use os_lab.Kalloc.{v2p, pgsize, phystop}
use os_lab.Syscall.Arguments.{kernbase}
use os_lab.Fs.{put, min_of}
use os_lab.Vm.{
  Vm, p2v, is_present, is_user, pte_flags, page_of, entry, set_entry, alloc_page, free_page,
  zero_page, walkpgdir, mappages, pground_down,
}
use os_lab.Vm.Space.{pte_wu, freevm}

abbrev pub extmem : ℕ
extmem = 1048576

abbrev pub kernlink : ℕ
kernlink = 2148532224

abbrev pub devspace : ℕ
devspace = 4261412864

pub record Kmap : Type 0 where
  pub virt : ℕ
  pub phys_start : ℕ
  pub phys_end : ℕ
  pub perm : ℕ

-- `kernel_data` is the linker's `data`.
abbrev pub kmap : ℕ → List Kmap
kmap kernel_data =
    record { virt = kernbase; phys_start = 0; phys_end = extmem; perm = 2 }
    ∷ record { virt = kernlink; phys_start = v2p kernlink; phys_end = v2p kernel_data; perm = 0 }
    ∷ record { virt = kernel_data; phys_start = v2p kernel_data; phys_end = phystop; perm = 2 }
    ∷ record { virt = devspace; phys_start = devspace; phys_end = 0; perm = 2 }
    ∷ []

-- The loop of setupkvm.
unfoldable pub map_kernel : List Kmap → Vm → ℕ → Outcome (Vm × Bool)
map_kernel [] s pgdir = ok (s, true)
map_kernel (k ∷ ks) s pgdir =
    mappages s pgdir k.virt ((k.phys_end + 2 ^ 32 - k.phys_start) % 2 ^ 32) k.phys_start k.perm
    >>= (λ (new, mapped). elim mapped [ false ↦ ok (new, false) | true ↦ map_kernel ks new pgdir ])

module _ (kernel_end kernel_data : ℕ) where
  -- The page of the directory, or 0.
  unfoldable pub setupkvm : Vm → Outcome (Vm × ℕ)
  setupkvm s =
      let (new, pgdir) = alloc_page s in
      if pgdir == 0
      then ok (new, 0)
      else if ltb devspace (p2v phystop)
      then panic
      else map_kernel (kmap kernel_data) (zero_page new pgdir) pgdir >>= (λ (mapped, whole).
        if whole
        then ok (mapped, pgdir)
        else freevm kernel_end mapped pgdir >>= (λ last. ok (last, 0)))

  -- The loop of copyuvm, by the number of its rounds. The answer is the page that mappages left
  -- without a table, or 0 where kalloc had none, if it does not end well.
  unfoldable pub copy_pages : ℕ → Vm → ℕ → ℕ → ℕ → Outcome (Vm × Option ℕ)
  copy_pages zero s pgdir d i = ok (s, none)
  copy_pages (suc n) s pgdir d i = elim (walkpgdir s pgdir i false).1 [
    | none ↦ panic
    | some (t, k) ↦ elim (is_present (entry s t k)) [
      | false ↦ panic
      | true ↦
          let e = entry s t k in
          let (new, mem) = alloc_page s in
          elim (mem == 0) [
            | true ↦ ok (new, some 0)
            | false ↦
                let moved = record new { pages = update new.pages mem (new.pages (page_of e)) } in
                mappages moved d i pgsize (v2p mem) (pte_flags e) >>= (λ (last, mapped).
                  elim mapped [
                    | false ↦ ok (last, some mem)
                    | true ↦ copy_pages n last pgdir d ((i + pgsize) % 2 ^ 32)
                  ])
          ]
    ]
  ]

  unfoldable pub copyuvm : Vm → ℕ → ℕ → Outcome (Vm × ℕ)
  copyuvm s pgdir sz = setupkvm s >>= (λ (new, d).
      if d == 0
      then ok (new, 0)
      else copy_pages ((sz + pgsize - 1) / pgsize) new pgdir d 0 >>= (λ (copied, left). elim left [
        | none ↦ ok (copied, d)
        | some mem ↦
            (if mem == 0 then ok copied else free_page kernel_end copied mem)
            >>= (λ back. freevm kernel_end back d >>= (λ last. ok (last, 0)))
      ]))

-- `init` is less than a page; kalloc is taken to have a page.
unfoldable pub inituvm : Vm → ℕ → List ℕ → Outcome Vm
inituvm s pgdir init =
    let (new, mem) = alloc_page s in
    if leb pgsize (length init)
    then panic
    else mappages (zero_page new mem) pgdir 0 pgsize (v2p mem) pte_wu >>= (λ (last, mapped).
      ok (record last { pages = update last.pages mem (put (last.pages mem) 0 init) }))

unfoldable pub clearpteu : Vm → ℕ → ℕ → Outcome Vm
clearpteu s pgdir uva = elim (walkpgdir s pgdir uva false).1 [
  | none ↦ panic
  | some (t, i) ↦ let e = entry s t i in ok (if is_user e then set_entry s t i (e - 4) else s)
]

-- A null pointer to an entry is not told apart: `low` is the word that is read through it.
unfoldable pub uva2ka : ℕ → Vm → ℕ → ℕ → ℕ
uva2ka low s pgdir uva =
    let e : ℕ = elim (walkpgdir s pgdir uva false).1 [ none ↦ low | some (t, i) ↦ entry s t i ] in
    if not (is_present e) then 0 else if not (is_user e) then 0 else page_of e

-- The loop of copyout; each round takes a byte at least.
unfoldable pub copy_bytes : ℕ → ℕ → Vm → ℕ → ℕ → List ℕ → Vm × Bool
copy_bytes zero low s pgdir va buf = (s, true)
copy_bytes (suc rounds) low s pgdir va buf = elim (length buf == 0) [
  | true ↦ (s, true)
  | false ↦
      let va0 = pground_down va in
      let pa0 = uva2ka low s pgdir va0 in
      elim (pa0 == 0) [
        | true ↦ (s, false)
        | false ↦
            let n = min_of (length buf) (pgsize - (va - va0)) in
            let new = put (s.pages pa0) (va - va0) (take n buf) in
            copy_bytes rounds low (record s { pages = update s.pages pa0 new }) pgdir
              ((va0 + pgsize) % 2 ^ 32) (drop n buf)
      ]
]

unfoldable pub copyout : ℕ → Vm → ℕ → ℕ → List ℕ → Vm × Bool
copyout low s pgdir va p = copy_bytes (length p) low s pgdir va p

-- ===== src/Kalloc.antt =====
-- kalloc.c: the list of free pages. A page is its address, and `next` is the first word of each.
pub mod Pages
mod Tests
use os_lab.Base.{
  ℕ, ◌+◌, ◌-◌, ◌%◌, ◌^◌, not, ◌||◌, ltb, leb, ◌==◌, if◌then◌else◌, Outcome, ok, panic, update,
}

abbrev pub pgsize : ℕ
pgsize = 4096

abbrev pub phystop : ℕ
phystop = 234881024

-- `V2P`; a uint wraps around.
abbrev pub v2p : ℕ → ℕ
v2p v = (v + 2 ^ 32 - 2 ^ 31) % 2 ^ 32

pub record Kmem : Type 0 where
  pub freelist : ℕ
  pub next : ℕ → ℕ

-- `kernel_end` is the linker's `end`. The junk that memset leaves in the page is left out.
unfoldable pub kfree : ℕ → Kmem → ℕ → Outcome Kmem
kfree kernel_end k v =
    if not (v % pgsize == 0) || ltb v kernel_end || leb phystop (v2p v)
    then panic
    else ok (record { freelist = v; next = update k.next v k.freelist })

unfoldable pub kalloc : Kmem → Kmem × ℕ
kalloc k =
    if k.freelist == 0 then (k, 0) else (record k { freelist = k.next k.freelist }, k.freelist)

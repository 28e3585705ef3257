-- ===== src/Syscall.antt =====
-- syscall.c: fetching the arguments of a system call from the memory of the process.
-- The bytes at user addresses are a function; an int that is fetched is its bit pattern.
pub mod Arguments
mod Tests
use os_lab.Base.{
  ℕ, zero, suc, ◌+◌, ◌-◌, ◌*◌, ◌%◌, ◌^◌, ◌||◌, Option, none, some, ltb, leb, ◌==◌, if◌then◌else◌,
  length, set, ℤ, pos, negsuc,
}

-- What these functions read of a process: its size, the user stack pointer and its memory.
pub record Caller : Type 0 where
  pub sz : ℕ
  pub esp : ℕ
  pub mem : ℕ → ℕ

-- `*(int*)(addr)`, low byte first.
abbrev pub word : (ℕ → ℕ) → ℕ → ℕ
word mem a = mem a + mem (a + 1) * 2 ^ 8 + mem (a + 2) * 2 ^ 16 + mem (a + 3) * 2 ^ 24

-- The int, or `none` for -1.
unfoldable pub fetchint : Caller → ℕ → Option ℕ
fetchint c addr =
    if leb c.sz addr || ltb c.sz ((addr + 4) % 2 ^ 32) then none else some (word c.mem addr)

-- The loop of `fetchstr` over the bytes that are left below `sz`.
unfoldable pub find_nul : (ℕ → ℕ) → ℕ → ℕ → ℕ → Option ℕ
find_nul mem start s zero = none
find_nul mem start s (suc left) =
    let rest = find_nul mem start (s + 1) left in if mem s == 0 then some (s - start) else rest

-- The length of the string at `addr`, to which the caller's pointer is set.
unfoldable pub fetchstr : Caller → ℕ → Option ℕ
unfolding find_nul
fetchstr c addr = if leb c.sz addr then none else find_nul c.mem addr addr (c.sz - addr)

unfoldable pub argint : Caller → ℕ → Option ℕ
unfolding fetchint
argint c n = fetchint c ((c.esp + 4 + 4 * n) % 2 ^ 32)

-- The check of a block of `size` bytes at `i`.
unfoldable pub block_in : Caller → ℤ → ℕ → Option ℕ
block_in c (negsuc k) i = none
block_in c (pos size) i = if leb c.sz i || ltb c.sz ((i + size) % 2 ^ 32) then none else some i

-- The pointer to a block of `size` bytes.
unfoldable pub argptr : Caller → ℕ → ℤ → Option ℕ
unfolding argint block_in
argptr c n size = elim (argint c n) [ none ↦ none | some i ↦ block_in c size i ]

-- The pointer and the length of the string.
unfoldable pub argstr : Caller → ℕ → Option (ℕ × ℕ)
unfolding argint fetchstr
argstr c n = elim (argint c n) [
  | none ↦ none
  | some addr ↦ elim (fetchstr c addr) [ none ↦ none | some len ↦ some (addr, len) ]
]

-- ===== src/KString.antt =====
-- string.c: the kernel's string and memory routines.
-- A memory gives the byte at each address. A pointer that leaves its object has no meaning in C,
-- so addresses do not wrap. A length that the C declares `int` is its value, or 0 if negative:
-- the code takes the same branch for both.
pub mod Move
pub mod Fill
pub mod Compare
pub mod Copy
mod Tests
use os_lab.Base.{
  ℕ, zero, suc, ◌+◌, ◌-◌, ◌*◌, ◌/◌, ◌%◌, ◌^◌, ◌&&◌, not, ltb, ◌==◌, if◌then◌else◌, update, ℤ, pos,
  sub_ℕ,
}

abbrev pub Memory : Type 0
Memory = ℕ → ℕ

-- `while(n-- > 0) *--d = *--s;`
unfoldable pub copy_down : ℕ → ℕ → ℕ → Memory → Memory
copy_down d s zero m = m
copy_down d s (suc n) m = copy_down (d - 1) (s - 1) n (update m (d - 1) (m (s - 1)))

-- `while(n-- > 0) *d++ = *s++;`
unfoldable pub copy_up : ℕ → ℕ → ℕ → Memory → Memory
copy_up d s zero m = m
copy_up d s (suc n) m = copy_up (d + 1) (s + 1) n (update m d (m s))

unfoldable pub memmove : ℕ → ℕ → ℕ → Memory → Memory
unfolding copy_down copy_up
memmove dst src n m =
    if ltb src dst && ltb dst (src + n)
    then copy_down (dst + n) (src + n) n m
    else copy_up dst src n m

unfoldable pub memcpy : ℕ → ℕ → ℕ → Memory → Memory
unfolding memmove
memcpy dst src n m = memmove dst src n m

-- `rep stosb`: the low byte of `c`, `n` times.
unfoldable pub stosb : ℕ → ℕ → ℕ → Memory → Memory
stosb dst c zero m = m
stosb dst c (suc n) m = stosb (dst + 1) c n (update m dst (c % 256))

-- One little-endian word.
unfoldable pub store_word : ℕ → ℕ → Memory → Memory
store_word a w m =
    update
      (update (update (update m a (w % 256)) (a + 1) (w / 2 ^ 8 % 256)) (a + 2) (w / 2 ^ 16 % 256))
      (a + 3) (w / 2 ^ 24 % 256)

-- `rep stosl`: the word `w`, `n` times.
unfoldable pub stosl : ℕ → ℕ → ℕ → Memory → Memory
unfolding store_word
stosl dst w zero m = m
stosl dst w (suc n) m = stosl (dst + 4) w n (store_word dst w m)

-- `c` is the bit pattern of the int. The four bytes of the word do not overlap, so `|` is `+`.
unfoldable pub memset : ℕ → ℕ → ℕ → Memory → Memory
unfolding stosb stosl
memset dst c n m =
    let b = c % 256 in
    if dst % 4 == 0 && n % 4 == 0
    then stosl dst (b * 2 ^ 24 + b * 2 ^ 16 + b * 2 ^ 8 + b) (n / 4) m
    else stosb dst c n m

unfoldable pub memcmp : ℕ → ℕ → ℕ → Memory → ℤ
memcmp s1 s2 zero m = pos 0
memcmp s1 s2 (suc n) m =
    let rest = memcmp (s1 + 1) (s2 + 1) n m in if m s1 == m s2 then rest else sub_ℕ (m s1) (m s2)

unfoldable pub strncmp : ℕ → ℕ → ℕ → Memory → ℤ
strncmp p q zero m = pos 0
strncmp p q (suc n) m =
    let rest = strncmp (p + 1) (q + 1) n m in
    if not (m p == 0) && m p == m q then rest else sub_ℕ (m p) (m q)

-- `while(n-- > 0) *s++ = 0;`
unfoldable pub pad : ℕ → ℕ → Memory → Memory
pad s zero m = m
pad s (suc n) m = pad (s + 1) n (update m s 0)

unfoldable pub strncpy : ℕ → ℕ → ℕ → Memory → Memory
unfolding pad
strncpy s t zero m = m
strncpy s t (suc n) m =
    let copied = update m s (m t) in
    let rest = strncpy (s + 1) (t + 1) n copied in if m t == 0 then pad (s + 1) n copied else rest

-- The loop of `safestrcpy` with `n` still to be decremented, and the store behind it.
unfoldable pub safestrcpy_loop : ℕ → ℕ → ℕ → Memory → Memory
safestrcpy_loop s t zero m = update m s 0
safestrcpy_loop s t (suc zero) m = update m s 0
safestrcpy_loop s t (suc (suc n)) m =
    let copied = update m s (m t) in
    let rest = safestrcpy_loop (s + 1) (t + 1) (suc n) copied in
    if m t == 0 then update copied (s + 1) 0 else rest

unfoldable pub safestrcpy : ℕ → ℕ → ℕ → Memory → Memory
unfolding safestrcpy_loop
safestrcpy s t n m = if n == 0 then m else safestrcpy_loop s t n m

-- ===== src/KString/Move.antt =====
-- memmove copies as if through a buffer of its own.
use os_lab.Base.{
  ℕ, zero, suc, ◌+◌, ◌-◌, ◌≤◌, ◌<◌, ◌≡◌, ◌⊎◌, arith, ◌&&◌, ltb, leb, if◌then◌else◌, update,
}
use os_lab.KString.{Memory, copy_up, copy_down, memmove}

-- The byte at `a` when the `n` bytes from `src` on have been copied to `dst`.
abbrev pub moved : ℕ → ℕ → ℕ → Memory → Memory
moved dst src n m a = if leb dst a && ltb a (dst + n) then m (src + (a - dst)) else m a

copy_up-moved :
    (d s n : ℕ) (m : Memory) (a : ℕ) → (d ≤ s) ⊎ (s + n ≤ d) → copy_up d s n m a ≡ moved d s n m a
unfolding copy_up
copy_up-moved d s zero m a h = ground arith
copy_up-moved d s (suc n) m a h =
    ground (arith, copy_up-moved (d + 1) (s + 1) n (update m d (m s)) a (omega arith))

copy_down-suc :
    (d s n : ℕ) (m : Memory)
    → copy_down (d + suc n) (s + suc n) (suc n) m
      ≡ copy_down (d + n) (s + n) n (update m (d + n) (m (s + n)))
unfolding copy_down
copy_down-suc d s n m =
    let p : d + suc n - 1 ≡ d + n = omega arith in
    let q : s + suc n - 1 ≡ s + n = omega arith in rw (p, q)

copy_down-moved :
    (d s n : ℕ) (m : Memory) (a : ℕ) → s < d → copy_down (d + n) (s + n) n m a ≡ moved d s n m a
copy_down-moved d s zero m a h = unfold copy_down in ground arith
copy_down-moved d s (suc n) m a h =
    rw (copy_down-suc d s n m)
      (ground (arith, copy_down-moved d s n (update m (d + n) (m (s + n))) a h))

-- After memmove each of the n bytes from dst on is the byte that stood n-for-n from src on before
-- the call, however the two ranges overlap, and every other byte is as it was.
pub memmove_lem : (dst src n : ℕ) (m : Memory) (a : ℕ) → memmove dst src n m a ≡ moved dst src n m a
unfolding memmove
memmove_lem dst src n m a =
    ground (arith, copy_up-moved dst src n m a, copy_down-moved dst src n m a)

-- ===== src/KString/Fill.antt =====
-- memset fills exactly its range, by bytes or by words.
use os_lab.Base.{
  ℕ, zero, suc, ◌+◌, ◌*◌, ◌/◌, ◌%◌, ◌^◌, ◌<◌, ◌≡◌, arith, ◌&&◌, ltb, leb, if◌then◌else◌, update,
}
use os_lab.KString.{Memory, stosb, stosl, store_word, memset}

-- The byte at `a` when the `n` bytes from `dst` on have been set to `b`.
abbrev pub filled : ℕ → ℕ → ℕ → Memory → Memory
filled dst b n m a = if leb dst a && ltb a (dst + n) then b else m a

stosb-filled : (d c n : ℕ) (m : Memory) (a : ℕ) → stosb d c n m a ≡ filled d (c % 256) n m a
unfolding stosb
stosb-filled d c zero m a = ground arith
stosb-filled d c (suc n) m a = ground (arith, stosb-filled (d + 1) c n (update m d (c % 256)) a)

-- A word of four equal bytes.
abbrev word_of : ℕ → ℕ
word_of b = b * 2 ^ 24 + b * 2 ^ 16 + b * 2 ^ 8 + b

store_word-filled :
    (d b : ℕ) (m : Memory) (a : ℕ) → b < 256 → store_word d (word_of b) m a ≡ filled d b 4 m a
unfolding store_word
store_word-filled d b m a h = ground (
  arith,
  (let e : word_of b % 256 ≡ b = omega arith in e),
  (let e : word_of b / 2 ^ 8 % 256 ≡ b = omega arith in e),
  (let e : word_of b / 2 ^ 16 % 256 ≡ b = omega arith in e),
  (let e : word_of b / 2 ^ 24 % 256 ≡ b = omega arith in e),
)

stosl-filled :
    (d b n : ℕ) (m : Memory) (a : ℕ) → b < 256 → stosl d (word_of b) n m a ≡ filled d b (n * 4) m a
unfolding stosl
stosl-filled d b zero m a h = ground arith
stosl-filled d b (suc n) m a h =
    ground (
      arith,
      stosl-filled (d + 4) b n (store_word d (word_of b) m) a h,
      store_word-filled d b m a h,
    )

-- memset sets each of the n bytes from dst on to the low byte of c and leaves every other byte as
-- it was, on its path by words as on its path by bytes.
pub memset_lem :
    (dst c n : ℕ) (m : Memory) (a : ℕ) → memset dst c n m a ≡ filled dst (c % 256) n m a
unfolding memset
memset_lem dst c n m a =
    ground (arith, stosl-filled dst (c % 256) (n / 4) m a (omega arith), stosb-filled dst c n m a)

-- ===== src/Syscall/Arguments.antt =====
-- An argument is accepted exactly if it lies within the process.
use os_lab.Base.{
  ℕ, zero, suc, ◌+◌, ◌-◌, ◌*◌, ◌%◌, ◌^◌, ◌≤◌, ◌<◌, ◌≡◌, refl, sym, ap, ap₂, ◌∙◌, subst, ◌≢◌, ◌↔◌,
  inl, inr, ◌||◌, none, some, arith, ℕ_discrete, ltb, leb, ◌==◌, eq→==, ne→==, ==→eq, Bool-cases,
  Option-cases, some-injective, ℤ, pos, negsuc, pos_part, neg_part,
}
use os_lab.Syscall.{Caller, word, fetchint, find_nul, fetchstr, argint, block_in, argptr, argstr}

-- User memory ends below KERNBASE.
abbrev pub kernbase : ℕ
kernbase = 2 ^ 31

-- A string of `len` bytes and its NUL, within the process.
abbrev pub IsString : Caller → ℕ → ℕ → Type 0
IsString c addr len =
    (addr + len < c.sz) × (c.mem (addr + len) ≡ 0) × ((k : ℕ) → k < len → c.mem (addr + k) ≢ 0)

-- Four bytes within the process, and their word.
abbrev pub IsWord : Caller → ℕ → ℕ → Type 0
IsWord c addr v = (addr + 4 ≤ c.sz) × (v ≡ word c.mem addr)

fetchint_iff :
    (c : Caller) (addr v : ℕ) → c.sz ≤ kernbase → fetchint c addr ≡ some v ↔ IsWord c addr v
unfolding fetchint
fetchint_iff c addr v h = elim (Bool-cases (leb c.sz addr || ltb c.sz ((addr + 4) % 2 ^ 32))) [
  | inl y ↦ rw y (λ e. cc, λ (l, e). absurd (ground arith))
  | inr n ↦ rw n (λ e. (ground arith, sym (some-injective e)), λ (l, e). ap some (sym e))
]

find_nul-some :
    (mem : ℕ → ℕ) (start s left : ℕ) {len : ℕ}
    → start ≤ s
    → find_nul mem start s left ≡ some len
    → (s ≤ start + len)
      × (start + len < s + left)
      × (mem (start + len) ≡ 0)
      × ((k : ℕ) → s ≤ k → k < start + len → mem k ≢ 0)
unfolding find_nul
find_nul-some mem start s zero h e = cc
find_nul-some mem start s (suc left) {len} h e = elim (Bool-cases (mem s == 0)) [
  | inl y ↦
      let here : s - start ≡ len = some-injective ((rw y at e)) in
      let at_s : start + len ≡ s = omega arith in
      (omega arith, omega arith, ap mem at_s ∙ ==→eq (mem s) 0 y, λ k l m. absurd (omega arith))
  | inr n ↦
      let r = find_nul-some mem start (s + 1) left {len = len} (omega arith) ((rw n at e)) in
      (
        omega (arith, r.0),
        omega (arith, r.1),
        r.2,
        λ k l m. elim (ℕ_discrete s k) [ yes q ↦ ground arith | no q ↦ r.3 k (omega arith) m ],
      )
]

find_nul-finds :
    (mem : ℕ → ℕ) (start s left len : ℕ)
    → start ≤ s
    → s ≤ start + len
    → start + len < s + left
    → mem (start + len) ≡ 0
    → ((k : ℕ) → s ≤ k → k < start + len → mem k ≢ 0)
    → find_nul mem start s left ≡ some len
unfolding find_nul
find_nul-finds mem start s zero len h l m z n = absurd (omega arith)
find_nul-finds mem start s (suc left) len h l m z n = elim (ℕ_discrete s (start + len)) [
  | yes q ↦ rw (eq→== (mem s) 0 (ap mem q ∙ z)) (ap some (omega arith))
  | no q ↦ rw (ne→== (mem s) 0 (n s (omega arith) (omega arith))) (
      find_nul-finds mem start (s + 1) left len (omega arith) (omega arith) (omega arith) z
        (λ k a b. n k (omega arith) b))
]

-- fetchstr answers a length exactly if there is a string of this length at the address, with its
-- NUL, that lies within the process.
pub fetchstr_iff : (c : Caller) (addr len : ℕ) → fetchstr c addr ≡ some len ↔ IsString c addr len
unfolding fetchstr
fetchstr_iff c addr len = elim (Bool-cases (leb c.sz addr)) [
  | inl y ↦ rw y (λ e. cc, λ s. absurd (ground arith))
  | inr n ↦ rw n (
    λ e.
        let r = find_nul-some c.mem addr addr (c.sz - addr) {len = len} (omega arith) e in
        (ground arith, r.2, λ k l. r.3 (addr + k) (omega arith) (omega arith)),
    λ (l, z, s).
        find_nul-finds c.mem addr addr (c.sz - addr) len (omega arith) (omega arith) (omega arith) z
          (λ k a b. subst (λ x. c.mem x ≢ 0) (omega arith) (s (k - addr) (omega arith))),
  )
]

argint_iff :
    (c : Caller) (n v : ℕ)
    → c.sz ≤ kernbase
    → argint c n ≡ some v ↔ IsWord c ((c.esp + 4 + 4 * n) % 2 ^ 32) v
unfolding argint
argint_iff c n v h = fetchint_iff c ((c.esp + 4 + 4 * n) % 2 ^ 32) v h

block_in_iff :
    (c : Caller) (size i p : ℕ)
    → c.sz ≤ kernbase
    → size < 2 ^ 31
    → block_in c (pos size) i ≡ some p ↔ (i ≡ p) × (p < c.sz) × (p + size ≤ c.sz)
unfolding block_in
block_in_iff c size i p h s = elim (Bool-cases (leb c.sz i || ltb c.sz ((i + size) % 2 ^ 32))) [
  | inl y ↦ rw y (λ e. cc, λ (q, l, m). absurd (ground arith))
  | inr n ↦
      rw n
        (λ e. let q = some-injective e in (q, ground arith, ground arith), λ (q, l, m). ap some q)
]

-- A size below 0 is refused.
block_in-negative : (c : Caller) (k i : ℕ) → block_in c (negsuc k) i ≡ none
unfolding block_in
block_in-negative c k i = refl

-- argptr answers a pointer exactly if the argument itself lies within the process and is this
-- pointer, the size, an int, is not negative, and the block of so many bytes from the pointer on
-- starts within the process and lies within it. The process ends below KERNBASE.
pub argptr_iff :
    (c : Caller) (n : ℕ) (size : ℤ) (p : ℕ)
    → c.sz ≤ kernbase
    → pos_part size < 2 ^ 31
    → argptr c n size ≡ some p
      ↔ IsWord c ((c.esp + 4 + 4 * n) % 2 ^ 32) p
        × (neg_part size ≡ 0)
        × (p < c.sz)
        × (p + pos_part size ≤ c.sz)
unfolding argptr
argptr_iff c n (negsuc k) p h s = elim (Option-cases (argint c n)) [
  | inl e ↦ rw (e, argptr) (λ q. cc, λ (w, z, l, m). absurd (omega arith))
  | inr (v, e) ↦
      rw (e, argptr, block_in-negative c k v) (λ q. cc, λ (w, z, l, m). absurd (omega arith))
]
argptr_iff c n (pos size) p h s = elim (Option-cases (argint c n)) [
  | inl e ↦ rw (e, argptr) (λ q. cc, λ (w, z, l, m). absurd (cc (sym e ∙ (argint_iff c n p h).1 w)))
  | inr (v, e) ↦
      let block = block_in_iff c size v p h s in
      rw (e, argptr)
        (
          λ q.
              let (same, l, m) = block.0 q in
              ((argint_iff c n p h).0 (e ∙ ap some same), refl, l, m),
          λ (w, z, l, m). block.1 (some-injective (sym e ∙ (argint_iff c n p h).1 w), l, m),
        )
]

-- argstr answers a pointer and a length exactly if the argument lies within the process and is
-- this pointer, and a string of this length with its NUL stands there, within the process.
pub argstr_iff :
    (c : Caller) (n p len : ℕ)
    → c.sz ≤ kernbase
    → argstr c n ≡ some (p, len) ↔ IsWord c ((c.esp + 4 + 4 * n) % 2 ^ 32) p × IsString c p len
unfolding argstr
argstr_iff c n p len h = elim (Option-cases (argint c n)) [
  | inl e ↦ rw (e, argstr) (λ q. cc, λ (w, z). absurd (cc (sym e ∙ (argint_iff c n p h).1 w)))
  | inr (v, e) ↦ elim (Option-cases (fetchstr c v)) [
    | inl f ↦
        rw (e, argstr)
          (rw f (
            λ q. cc,
            λ (w, z).
                let same = some-injective (sym e ∙ (argint_iff c n p h).1 w) in
                absurd (cc (sym f ∙ ap (fetchstr c) same ∙ (fetchstr_iff c p len).1 z)),
          ))
    | inr (k, f) ↦
        rw (e, argstr)
          (rw f (
            λ q.
                let at_p : v ≡ p = ap (λ x. x.0) (some-injective q) in
                let long : k ≡ len = ap (λ x. x.1) (some-injective q) in
                (
                  (argint_iff c n p h).0 (e ∙ ap some at_p),
                  (fetchstr_iff c p len).0 (ap (fetchstr c) (sym at_p) ∙ f ∙ ap some long),
                ),
            λ (w, z).
                let same = some-injective (sym e ∙ (argint_iff c n p h).1 w) in
                let long =
                  some-injective (sym f ∙ ap (fetchstr c) same ∙ (fetchstr_iff c p len).1 z) in
                ap₂ (λ a b. some (a, b)) same long,
          ))
  ]
]

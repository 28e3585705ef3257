-- ===== src/Shell/Scan.antt =====
-- What gettoken and peek do to the place in the line.
use os_lab.Base.{
  ℕ, zero, suc, ◌+◌, ◌-◌, ◌≤◌, ◌<◌, ◌≡◌, refl, sym, ap, ◌∙◌, ◌≢◌, inl, inr, Bool, true, false, not,
  ◌&&◌, arith, ℕ_discrete, ltb, ◌==◌, eq→==, ne→==, Bool-cases,
}
use os_lab.Shell.{
  is_space, is_single, is_symbol, greater, word_token, Word, skip, word_end, token_at, token_end,
  skipped, gettoken, peek,
}

abbrev pub is_word_char : ℕ → Bool
is_word_char c = not (c == 0) && not (is_space c) && not (is_symbol c)

-- `es` is the first NUL of the line.
pub record IsLine (buf : ℕ → ℕ) (es : ℕ) : Type 0 where
  pub ends : buf es ≡ 0
  pub inside : (k : ℕ) → k < es → buf k ≢ 0

-- A stretch of characters of a word that ends where no such character stands.
pub record GoodWord (buf : ℕ → ℕ) (es : ℕ) (w : Word) : Type 0 where
  pub order : w.start ≤ w.finish
  pub in_line : w.finish ≤ es
  pub chars : (k : ℕ) → w.start ≤ k → k < w.finish → is_word_char (buf k) ≡ true
  pub stop : is_word_char (buf w.finish) ≡ false

module _ {buf : ℕ → ℕ} {es : ℕ} (v : IsLine buf es) where
  skip-le : (n s : ℕ) → s ≤ es → (s ≤ skip buf es n s) × (skip buf es n s ≤ es)
  unfolding skip
  skip-le zero s h = (omega arith, h)
  skip-le (suc n) s h = elim (Bool-cases (ltb s es && is_space (buf s))) [
    | inl y ↦ let r = skip-le n (s + 1) (ground arith) in rw y (omega (arith, r.0), r.1)
    | inr y ↦ rw y (omega arith, h)
  ]

  skip-stops : (n s : ℕ) → s ≤ es → es ≤ s + n → is_space (buf (skip buf es n s)) ≡ false
  unfolding skip
  skip-stops zero s h m = let at_es : s ≡ es = omega arith in ap is_space (ap buf at_es ∙ v.ends)
  skip-stops (suc n) s h m = elim (Bool-cases (ltb s es)) [
    | inl l ↦ elim (Bool-cases (is_space (buf s))) [
      | inl y ↦ rw (l, y) (skip-stops n (s + 1) (ground arith) (omega arith))
      | inr y ↦ rw (l, y) y
    ]
    | inr l ↦ let at_es : s ≡ es = ground arith in rw l (ap is_space (ap buf at_es ∙ v.ends))
  ]

  skip_here : (n s : ℕ) → is_space (buf s) ≡ false → skip buf es n s ≡ s
  unfolding skip
  skip_here zero s e = refl
  skip_here (suc n) s e = ground arith

  word_end-le : (n s : ℕ) → s ≤ es → (s ≤ word_end buf es n s) × (word_end buf es n s ≤ es)
  unfolding word_end
  word_end-le zero s h = (omega arith, h)
  word_end-le (suc n) s h =
      elim (Bool-cases (ltb s es && not (is_space (buf s)) && not (is_symbol (buf s)))) [
        | inl y ↦ let r = word_end-le n (s + 1) (ground arith) in rw y (omega (arith, r.0), r.1)
        | inr y ↦ rw y (omega arith, h)
      ]

  word_end-chars : (n s k : ℕ) → s ≤ k → k < word_end buf es n s → is_word_char (buf k) ≡ true
  unfolding word_end
  word_end-chars zero s k h l = absurd (omega arith)
  word_end-chars (suc n) s k h l =
      elim (Bool-cases (ltb s es && not (is_space (buf s)) && not (is_symbol (buf s)))) [
        | inl y ↦ elim (ℕ_discrete s k) [
          | yes q ↦ rw (← q) (ground (arith, v.inside s))
          | no q ↦ word_end-chars n (s + 1) k (omega arith) ((rw y at l))
        ]
        | inr y ↦ absurd (let l' : k < s = rw y at l in omega arith)
      ]

  word_end-stops :
      (n s : ℕ) → s ≤ es → es ≤ s + n → is_word_char (buf (word_end buf es n s)) ≡ false
  unfolding word_end
  word_end-stops zero s h m =
      let at_es : s ≡ es = omega arith in ap is_word_char (ap buf at_es ∙ v.ends)
  word_end-stops (suc n) s h m = elim (Bool-cases (ltb s es)) [
    | inl l ↦ elim (Bool-cases (not (is_space (buf s)) && not (is_symbol (buf s)))) [
      | inl y ↦ rw (l, y) (word_end-stops n (s + 1) (ground arith) (omega arith))
      | inr y ↦ rw (l, y) (ground arith)
    ]
    | inr l ↦ let at_es : s ≡ es = ground arith in rw l (ap is_word_char (ap buf at_es ∙ v.ends))
  ]

  before_nul : (q : ℕ) → q ≤ es → buf q ≢ 0 → q < es
  before_nul q h n = elim (ℕ_discrete q es) [
    | yes e ↦ absurd (n (ap buf e ∙ v.ends))
    | no e ↦ omega arith
  ]

  word_end-suc : (q : ℕ) → q ≤ es → is_word_char (buf q) ≡ true → q < word_end buf es (es - q) q
  unfolding word_end
  word_end-suc q h c = elim (ℕ_discrete (word_end buf es (es - q) q) q) [
    | yes e ↦ absurd (
        cc (
          sym c
          ∙ ap (λ x. is_word_char (buf x)) (sym e)
          ∙ word_end-stops (es - q) q h (omega arith)))
    | no e ↦ omega (arith, word_end-le (es - q) q h)
  ]

  token_end-lt :
      (q : ℕ)
      → q ≤ es
      → is_space (buf q) ≡ false
      → buf q ≢ 0
      → (q < token_end buf es q) × (token_end buf es q ≤ es)
  unfolding token_end
  token_end-lt q h s n = elim (Bool-cases (is_single (buf q))) [
    | inl y ↦ rw (ne→== (buf q) 0 n, y) (omega arith, omega (arith, before_nul q h n))
    | inr y ↦ elim (Bool-cases (buf q == greater)) [
      | inl g ↦ elim (Bool-cases (buf (q + 1) == greater)) [
        | inl k ↦
            rw (ne→== (buf q) 0 n, y, g, k)
              (
                omega arith,
                omega (arith, before_nul (q + 1) (omega (arith, before_nul q h n)) (ground arith)),
              )
        | inr k ↦ rw (ne→== (buf q) 0 n, y, g, k) (omega arith, omega (arith, before_nul q h n))
      ]
      | inr g ↦
          rw (ne→== (buf q) 0 n, y, g)
            (word_end-suc q h (ground arith), (word_end-le (es - q) q h).1)
    ]
  ]

  token_end-GoodWord :
      (q : ℕ)
      → q ≤ es
      → token_at buf es q ≡ word_token
      → GoodWord buf es (record { start = q; finish = token_end buf es q })
  unfolding token_at token_end
  token_end-GoodWord q h t = elim (Bool-cases (buf q == 0)) [
    | inl z ↦ absurd (ground arith)
    | inr z ↦ elim (Bool-cases (is_single (buf q))) [
      | inl y ↦ absurd (ground arith)
      | inr y ↦ elim (Bool-cases (buf q == greater)) [
        | inl g ↦ absurd (ground arith)
        | inr g ↦
            rw (z, y, g)
              (record {
                order = (word_end-le (es - q) q h).0;
                in_line = (word_end-le (es - q) q h).1;
                chars = λ k a b. word_end-chars (es - q) q k a b;
                stop = word_end-stops (es - q) q h (omega arith);
              })
      ]
    ]
  ]

  pub skipped-le : (s : ℕ) → s ≤ es → (s ≤ skipped buf es s) × (skipped buf es s ≤ es)
  skipped-le s h = skip-le (es - s) s h

  -- A character that is no NUL is a token, which gettoken takes.
  pub gettoken-lt :
      (s : ℕ)
      → s ≤ es
      → buf (skipped buf es s) ≢ 0
      → (s < (gettoken buf es s).2) × ((gettoken buf es s).2 ≤ es)
  gettoken-lt s h n =
      let q = skipped-le s h in
      let t = token_end-lt (skipped buf es s) q.1 (skip-stops (es - s) s h (omega arith)) n in
      let r = skipped-le (token_end buf es (skipped buf es s)) t.1 in
      (omega (arith, q.0, t.0, r.0), r.1)

  pub gettoken-GoodWord :
      (s : ℕ) → s ≤ es → (gettoken buf es s).0 ≡ word_token → GoodWord buf es (gettoken buf es s).1
  gettoken-GoodWord s h t = token_end-GoodWord (skipped buf es s) (skipped-le s h).1 t

  -- gettoken answers 0 exactly at the end of the line.
  pub gettoken-zero : (s : ℕ) → (gettoken buf es s).0 ≢ 0 → buf (skipped buf es s) ≢ 0
  unfolding token_at
  gettoken-zero s n e = n (rw (eq→== (buf (skipped buf es s)) 0 e) refl)

  pub peek-true :
      (toks : ℕ → Bool) (s : ℕ)
      → peek buf es toks s ≡ true
      → (buf (skipped buf es s) ≢ 0) × (toks (buf (skipped buf es s)) ≡ true)
  peek-true toks s e = (ground arith, ground arith)

  pub skipped_twice : (s : ℕ) → s ≤ es → skipped buf es (skipped buf es s) ≡ skipped buf es s
  skipped_twice s h =
      skip_here (es - skipped buf es s) (skipped buf es s) (skip-stops (es - s) s h (omega arith))

  token_end_nul : (q : ℕ) → buf q ≡ 0 → token_end buf es q ≡ q
  unfolding token_end
  token_end_nul q e = rw (eq→== (buf q) 0 e) refl

  pub gettoken-le : (s : ℕ) → s ≤ es → (s ≤ (gettoken buf es s).2) × ((gettoken buf es s).2 ≤ es)
  gettoken-le s h = elim (ℕ_discrete (buf (skipped buf es s)) 0) [
    | yes e ↦
        let q = skipped-le s h in
        rw (token_end_nul (skipped buf es s) e) (
          omega (arith, q.0, skipped-le (skipped buf es s) q.1),
          (skipped-le (skipped buf es s) q.1).1,
        )
    | no n ↦ let r = gettoken-lt s h n in (omega (arith, r.0), r.1)
  ]

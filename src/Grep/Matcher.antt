-- ===== src/Grep/Matcher.antt =====
-- The matcher decides what the pattern means.
use os_lab.Base.{
  ℕ, ◌≡◌, refl, sym, ap, ◌∙◌, subst, ◌↔◌, ◌⊎◌, inl, inr, Bool, true, false, ◌&&◌, ◌||◌, List, [],
  ◌∷◌, ◌++◌, append_assoc, arith, ◌==◌, Bool-cases, All,
}
use os_lab.Grep.{
  caret, dot, asterisk, dollar, fits, is_end, matchhere, matchstar, match_one, match_from, match,
}
use os_lab.Grep.Meaning.{Piece, one, star, pieces, Describes, Starts, Occurs, Meaning}

is_end→eq : (text : List ℕ) → is_end text ≡ true → text ≡ []
is_end→eq [] e = refl
is_end→eq (x ∷ text) e = cc

and-true : (a b : Bool) → a && b ≡ true → (a ≡ true) × (b ≡ true)
and-true a b e = ground arith

or-true : (a b : Bool) → a || b ≡ true → (a ≡ true) ⊎ (b ≡ true)
or-true true b e = inl refl
or-true false b e = inr e

or_true : (a : Bool) → a || true ≡ true
or_true true = refl
or_true false = refl

fits_comm : (c x : ℕ) → fits c x ≡ (x == c) || (c == dot)
fits_comm c x = ground arith

-- `rest` decides what follows the pieces `ps`.
abbrev Decides : (List ℕ → Bool) → List Piece × Bool → Type 0
Decides rest p = (text : List ℕ) → rest text ≡ true ↔ Starts p text

module _ (rest : List ℕ → Bool) (p : List Piece × Bool) (d : Decides rest p) (c : ℕ) where
  match_one→ : (text : List ℕ) → match_one c rest text ≡ true → Starts (one c ∷ p.0, p.1) text
  unfolding match_one Describes
  match_one→ [] h = cc
  match_one→ (x ∷ text) h =
      let (f, r) = and-true (fits c x) (rest text) h in
      let (w, b, q, s, t) = (d text).0 r in (x ∷ w, b, ap (λ l. x ∷ l) q, (x, w, refl, f, s), t)

  match_one← : (text : List ℕ) → Starts (one c ∷ p.0, p.1) text → match_one c rest text ≡ true
  unfolding match_one Describes
  match_one← text (w, b, q, (x, v, r, f, s), t) = rw (q, r, f) ((d (v ++ b)).1 (v, b, refl, s, t))

  matchstar→ : (text : List ℕ) → matchstar c rest text ≡ true → Starts (star c ∷ p.0, p.1) text
  unfolding matchstar Describes
  matchstar→ [] h = let (w, b, q, s, t) = (d []).0 h in (w, b, q, ([], w, refl, tt, s), t)
  matchstar→ (x ∷ text) h = elim (or-true (rest (x ∷ text)) _ h) [
    | inl r ↦ let (w, b, q, s, t) = (d (x ∷ text)).0 r in (w, b, q, ([], w, refl, tt, s), t)
    | inr r ↦
        let (f, l) = and-true ((x == c) || (c == dot)) (matchstar c rest text) r in
        let (w, b, q, (u, v, k, a, s), t) = matchstar→ text l in
        (x ∷ w, b, ap (λ l. x ∷ l) q, (x ∷ u, v, ap (λ l. x ∷ l) k, (fits_comm c x ∙ f, a), s), t)
  ]

  matchstar_run :
      (u text : List ℕ)
      → All (λ x. fits c x ≡ true) u
      → rest text ≡ true
      → matchstar c rest (u ++ text) ≡ true
  unfolding matchstar
  matchstar_run [] [] a r = r
  matchstar_run [] (x ∷ text) a r = rw r refl
  matchstar_run (x ∷ u) text (f, a) r =
      rw (matchstar_run u text a r, sym (fits_comm c x) ∙ f) (or_true (rest (x ∷ u ++ text)))

  matchstar← : (text : List ℕ) → Starts (star c ∷ p.0, p.1) text → matchstar c rest text ≡ true
  unfolding Describes
  matchstar← text (w, b, q, (u, v, r, a, s), t) =
      subst (λ l. matchstar c rest l ≡ true) (sym (q ∙ ap (λ l. l ++ b) r ∙ append_assoc u v b))
        (matchstar_run u (v ++ b) a ((d (v ++ b)).1 (v, b, refl, s, t)))

always-Decides : Decides (λ _. true) ([], false)
unfolding Describes
always-Decides text = (λ h. ([], text, refl, refl, λ f. cc), λ h. refl)

is_end-Decides : Decides is_end ([], true)
unfolding Describes
is_end-Decides text =
    (λ h. ([], [], is_end→eq text h, refl, λ f. refl), λ (w, b, q, s, t). rw (q, s, t refl) refl)

matchhere-Decides : (re : List ℕ) → Decides (matchhere re) (pieces re)
unfolding matchhere pieces
matchhere-Decides [] text = always-Decides text
matchhere-Decides (c ∷ []) text = elim (Bool-cases (c == dollar)) [
  | inl y ↦ rw y (is_end-Decides text)
  | inr n ↦ rw n (match_one→ _ _ always-Decides c text, match_one← _ _ always-Decides c text)
]
matchhere-Decides (c ∷ d ∷ re) text =
    let next = matchhere-Decides (d ∷ re) in
    let after = matchhere-Decides re in
    elim (Bool-cases (d == asterisk)) [
      | inl y ↦ rw y (matchstar→ _ _ after c text, matchstar← _ _ after c text)
      | inr n ↦ rw n (match_one→ _ _ next c text, match_one← _ _ next c text)
    ]

match_from→ : (re text : List ℕ) → match_from re text ≡ true → Occurs (pieces re) text
unfolding match_from
match_from→ re [] h = ([], [], refl, (matchhere-Decides re []).0 h)
match_from→ re (x ∷ text) h = elim (or-true (matchhere re (x ∷ text)) (match_from re text) h) [
  | inl y ↦ ([], x ∷ text, refl, (matchhere-Decides re (x ∷ text)).0 y)
  | inr r ↦ let (a, b, q, s) = match_from→ re text r in (x ∷ a, b, ap (λ l. x ∷ l) q, s)
]

match_from_run : (re a b : List ℕ) → matchhere re b ≡ true → match_from re (a ++ b) ≡ true
unfolding match_from
match_from_run re [] [] h = h
match_from_run re [] (x ∷ b) h = rw h refl
match_from_run re (x ∷ a) b h = rw (match_from_run re a b h) (or_true (matchhere re (x ∷ a ++ b)))

match_from← : (re text : List ℕ) → Occurs (pieces re) text → match_from re text ≡ true
match_from← re text (a, b, q, s) =
    subst (λ l. match_from re l ≡ true) (sym q)
      (match_from_run re a b ((matchhere-Decides re b).1 s))

-- match answers true for a pattern and a text exactly if a stretch of the text, at its start for a
-- pattern with a caret and up to its end for one with a dollar, consists of the pattern's pieces:
-- a character that fits for each single one, and any number of them for each that has a star.
pub match_iff : (re text : List ℕ) → match re text ≡ true ↔ Meaning re text
unfolding match
match_iff [] text = (match_from→ [] text, match_from← [] text)
match_iff (c ∷ re) text = elim (Bool-cases (c == caret)) [
  | inl y ↦ rw y (matchhere-Decides re text)
  | inr n ↦ rw n (match_from→ (c ∷ re) text, match_from← (c ∷ re) text)
]

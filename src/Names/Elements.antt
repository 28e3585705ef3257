-- ===== src/Names/Elements.antt =====
-- The elements of a path, as the parts between slashes.
use os_lab.Base.{
  ℕ, ◌≤◌, ◌<◌, ◌≡◌, refl, sym, ap, ◌∙◌, ◌⊎◌, inl, inr, true, false, none, some, List, [], ◌∷◌,
  arith, ◌==◌, if◌then◌else◌, Bool-cases, length, take,
}
use os_lab.Names.{slash, dirsiz, skip_slashes, element, is_empty, skipelem}

-- The part of the path before the first slash, put before the first of the parts.
abbrev pub onto : ℕ → List (List ℕ) → List (List ℕ)
onto c [] = (c ∷ []) ∷ []
onto c (part ∷ parts) = (c ∷ part) ∷ parts

-- The path cut at each slash.
unfoldable pub split : List ℕ → List (List ℕ)
split [] = [] ∷ []
split (c ∷ path) = let rest = split path in if c == slash then [] ∷ rest else onto c rest

-- The parts that have characters, cut off at DIRSIZ.
unfoldable pub names_of : List (List ℕ) → List (List ℕ)
names_of [] = []
names_of (part ∷ parts) =
    let rest = names_of parts in if is_empty part then rest else take dirsiz part ∷ rest

abbrev pub elements : List ℕ → List (List ℕ)
elements path = names_of (split path)

pub elements-skip_slashes : (path : List ℕ) → elements (skip_slashes path) ≡ elements path
unfolding skip_slashes split names_of
elements-skip_slashes [] = refl
elements-skip_slashes (c ∷ path) = elim (Bool-cases (c == slash)) [
  | inl y ↦ rw y (elements-skip_slashes path)
  | inr n ↦ ap (λ b. elements (if b then skip_slashes path else c ∷ path)) n
]

length-skip_slashes : (path : List ℕ) → length (skip_slashes path) ≤ length path
unfolding skip_slashes
length-skip_slashes [] = omega arith
length-skip_slashes (c ∷ path) = elim (Bool-cases (c == slash)) [
  | inl y ↦ rw y (omega (arith, length-skip_slashes path))
  | inr n ↦ rw n (omega arith)
]

length-element : (path : List ℕ) → length (element path).1 ≤ length path
unfolding element
length-element [] = omega arith
length-element (c ∷ path) = elim (Bool-cases (c == slash)) [
  | inl y ↦ rw y (omega arith)
  | inr n ↦ rw n (omega (arith, length-element path))
]

-- The parts behind the first slash.
abbrev behind : List ℕ → List (List ℕ)
behind [] = []
behind (c ∷ path) = split path

split-element : (path : List ℕ) → split path ≡ (element path).0 ∷ behind (element path).1
unfolding split element
split-element [] = refl
split-element (c ∷ path) = elim (Bool-cases (c == slash)) [
  | inl y ↦ rw y refl
  | inr n ↦ rw (n, split-element path) refl
]

names_of-behind :
    (path : List ℕ) → names_of (behind (element path).1) ≡ elements (skip_slashes (element path).1)
unfolding element split names_of skip_slashes
names_of-behind [] = refl
names_of-behind (c ∷ path) = elim (Bool-cases (c == slash)) [
  | inl y ↦ rw y (sym (elements-skip_slashes (c ∷ path) ∙ slash_first y))
  | inr n ↦ rw n (names_of-behind path)
]
  where
    slash_first : c == slash ≡ true → elements (c ∷ path) ≡ names_of (split path)
    slash_first y = rw y refl

skip_slashes-head :
    (path : List ℕ) (c : ℕ) (rest : List ℕ) → skip_slashes path ≡ c ∷ rest → c == slash ≡ false
unfolding skip_slashes
skip_slashes-head [] c rest e = cc
skip_slashes-head (d ∷ path) c rest e = elim (Bool-cases (d == slash)) [
  | inl y ↦ skip_slashes-head path c rest ((rw y at e))
  | inr n ↦ let same : d ∷ path ≡ c ∷ rest = rw n at e in cc
]

skip_slashes_twice : (path : List ℕ) → skip_slashes (skip_slashes path) ≡ skip_slashes path
unfolding skip_slashes
skip_slashes_twice [] = refl
skip_slashes_twice (c ∷ path) = elim (Bool-cases (c == slash)) [
  | inl y ↦ rw y (skip_slashes_twice path)
  | inr n ↦ rw n (rw n refl)
]

names_of-cons :
    (part : List ℕ) (parts : List (List ℕ))
    → is_empty part ≡ false
    → names_of (part ∷ parts) ≡ take dirsiz part ∷ names_of parts
unfolding names_of
names_of-cons part parts z = rw z refl

some_chars : (c : ℕ) (t : List ℕ) → c == slash ≡ false → is_empty (element (c ∷ t)).0 ≡ false
unfolding element
some_chars c t n = rw n refl

elements-element :
    (c : ℕ) (t : List ℕ)
    → c == slash ≡ false
    → elements (c ∷ t)
      ≡ take dirsiz (element (c ∷ t)).0 ∷ elements (skip_slashes (element (c ∷ t)).1)
elements-element c t n =
    ap names_of (split-element (c ∷ t))
    ∙ names_of-cons (element (c ∷ t)).0 (behind (element (c ∷ t)).1) (some_chars c t n)
    ∙ ap (λ l. take dirsiz (element (c ∷ t)).0 ∷ l) (names_of-behind (c ∷ t))

shorter :
    (c : ℕ) (t : List ℕ)
    → c == slash ≡ false
    → length (skip_slashes (element (c ∷ t)).1) < length (c ∷ t)
unfolding element
shorter c t n =
    let a = length-element t in rw n (omega (arith, a, length-skip_slashes (element t).1))

-- What skipelem takes is the first of the elements; the others are those of the rest.
pub skipelem-cases :
    (path : List ℕ)
    → ((skipelem path ≡ none) × (elements path ≡ []))
      ⊎ ((name : List ℕ) × (rest : List ℕ) × (skipelem path ≡ some (name, rest))
          × (elements path ≡ name ∷ elements rest)
          × (length rest < length path)
          × (skip_slashes rest ≡ rest))
unfolding skipelem names_of split
skipelem-cases path = go (skip_slashes path) refl
  where
    go :
        (s : List ℕ)
        → skip_slashes path ≡ s
        → ((skipelem path ≡ none) × (elements path ≡ []))
          ⊎ ((name : List ℕ) × (rest : List ℕ) × (skipelem path ≡ some (name, rest))
              × (elements path ≡ name ∷ elements rest)
              × (length rest < length path)
              × (skip_slashes rest ≡ rest))
    go [] e = inl (rw (e, skipelem) refl, sym (elements-skip_slashes path) ∙ ap elements e)
    go (c ∷ t) e =
        let n = skip_slashes-head path c t e in
        inr (
          take dirsiz (element (c ∷ t)).0,
          skip_slashes (element (c ∷ t)).1,
          rw (e, skipelem) refl,
          sym (elements-skip_slashes path) ∙ ap elements e ∙ elements-element c t n,
          omega (arith, shorter c t n, ap length e, length-skip_slashes path),
          skip_slashes_twice (element (c ∷ t)).1,
        )

-- A path that begins with no slash has an element unless it is empty.
pub rest-cases :
    (rest : List ℕ)
    → skip_slashes rest ≡ rest
    → ((is_empty rest ≡ true) × (elements rest ≡ []))
      ⊎ ((is_empty rest ≡ false)
          × ((name : List ℕ) × (names : List (List ℕ)) × (elements rest ≡ name ∷ names)))
unfolding split names_of
rest-cases [] t = inl (refl, refl)
rest-cases (c ∷ rest) t = inr (
  refl,
  (
    take dirsiz (element (c ∷ rest)).0,
    elements (skip_slashes (element (c ∷ rest)).1),
    elements-element c rest (skip_slashes-head (c ∷ rest) c rest t),
  ),
)

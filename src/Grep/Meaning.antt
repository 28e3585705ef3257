-- ===== src/Grep/Meaning.antt =====
-- What a pattern means, as a grammar of pieces.
use os_lab.Base.{ℕ, ◌≡◌, Bool, true, false, List, [], ◌∷◌, ◌++◌, ◌==◌, if◌then◌else◌, All}
use os_lab.Grep.{caret, asterisk, dollar, fits}

-- One character, or any number of them.
pub data Piece : Type 0 where
  one star : ℕ → Piece

-- The pieces, and whether the pattern ends with a dollar.
unfoldable pub pieces : List ℕ → List Piece × Bool
pieces [] = ([], false)
pieces (c ∷ []) = if c == dollar then ([], true) else (one c ∷ [], false)
pieces (c ∷ d ∷ re) =
    let next = pieces (d ∷ re) in
    let after = pieces re in
    if d == asterisk then (star c ∷ after.0, after.1) else (one c ∷ next.0, next.1)

-- The texts that the pieces describe, one after the other.
unfoldable pub Describes : List Piece → List ℕ → Type 0
Describes [] w = w ≡ []
Describes (one c ∷ ps) w = (x : ℕ) × (v : List ℕ) × (w ≡ x ∷ v) × (fits c x ≡ true) × Describes ps v
Describes (star c ∷ ps) w =
    (u : List ℕ) × (v : List ℕ) × (w ≡ u ++ v) × All (λ x. fits c x ≡ true) u × Describes ps v

-- A stretch from the start of the text, which a dollar makes the whole text.
abbrev pub Starts : List Piece × Bool → List ℕ → Type 0
Starts p text =
    (w : List ℕ) × (b : List ℕ) × (text ≡ w ++ b) × Describes p.0 w × (p.1 ≡ true → b ≡ [])

-- Such a stretch anywhere in the text.
abbrev pub Occurs : List Piece × Bool → List ℕ → Type 0
Occurs p text = (a : List ℕ) × (b : List ℕ) × (text ≡ a ++ b) × Starts p b

-- A caret ties the stretch to the start.
abbrev pub Meaning : List ℕ → List ℕ → Type 0
Meaning [] text = Occurs (pieces []) text
Meaning (c ∷ re) text =
    if c == caret then Starts (pieces re) text else Occurs (pieces (c ∷ re)) text

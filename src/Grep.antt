-- ===== src/Grep.antt =====
-- grep.c: matching a line against a pattern, and reading lines.
-- A C string is the list of its characters before the NUL.
mod Meaning
mod Matcher
mod Lines
mod Tests
use os_lab.Base.{
  ℕ, ◌*◌, ◌^◌, Bool, true, false, ◌&&◌, ◌||◌, Option, none, some, List, [], ◌∷◌, ◌++◌, ◌==◌,
  if◌then◌else◌,
}

-- The characters ^ . * $ and the newline.
abbrev pub caret : ℕ
caret = 94

abbrev pub dot : ℕ
dot = 46

abbrev pub asterisk : ℕ
asterisk = 42

abbrev pub dollar : ℕ
dollar = 36

abbrev pub newline : ℕ
newline = 10

abbrev pub is_end : List ℕ → Bool
is_end [] = true
is_end (x ∷ text) = false

abbrev pub fits : ℕ → ℕ → Bool
fits c x = (c == dot) || (c == x)

-- `rest` is what `matchhere` answers for the pattern after the star.
unfoldable pub matchstar : ℕ → (List ℕ → Bool) → List ℕ → Bool
matchstar c rest [] = rest []
matchstar c rest (x ∷ text) =
    let later = matchstar c rest text in rest (x ∷ text) || (((x == c) || (c == dot)) && later)

-- The last test of `matchhere`; `rest` is its answer for the rest of the pattern.
unfoldable pub match_one : ℕ → (List ℕ → Bool) → List ℕ → Bool
match_one c rest [] = false
match_one c rest (x ∷ text) = fits c x && rest text

unfoldable pub matchhere : List ℕ → List ℕ → Bool
unfolding matchstar match_one
matchhere [] text = true
matchhere (c ∷ []) text = if c == dollar then is_end text else match_one c (λ _. true) text
matchhere (c ∷ d ∷ re) text =
    let one = matchhere (d ∷ re) in
    let star = matchhere re in if d == asterisk then matchstar c star text else match_one c one text

-- The loop of `match`: some suffix of the text matches.
unfoldable pub match_from : List ℕ → List ℕ → Bool
match_from re [] = matchhere re []
match_from re (x ∷ text) = let later = match_from re text in matchhere re (x ∷ text) || later

unfoldable pub match : List ℕ → List ℕ → Bool
unfolding match_from
match [] text = match_from [] text
match (c ∷ re) text = if c == caret then matchhere re text else match_from (c ∷ re) text

abbrev pub or_else {ℓ} : {A : Type ℓ} → A → Option A → A
or_else a none = a
or_else a (some b) = b

-- The inner loop of `grep`: the lines to print, and what follows the last newline, if there is any.
-- `line` is what precedes in the line at hand. strchr finds nothing behind a NUL.
unfoldable pub take_lines : List ℕ → List ℕ → List ℕ → List (List ℕ) × Option (List ℕ)
take_lines re line [] = ([], none)
take_lines re line (x ∷ text) =
    let ended = take_lines re [] text in
    let longer = take_lines re (line ++ x ∷ []) text in
    if x == 0
    then ([], none)
    else if x == newline
    then (if match re line then line ∷ ended.0 else ended.0, some (or_else text ended.1))
    else longer

-- The loop of `grep`: `held` are the `m` characters kept in `buf`, `reads` the answers of `read`, none
-- of them longer than the room in `buf`. An answer of no characters ends it.
unfoldable pub grep : List ℕ → List ℕ → List (List ℕ) → List (List ℕ)
unfolding take_lines
grep re held [] = []
grep re held ([] ∷ reads) = []
grep re held ((x ∷ chunk) ∷ reads) =
    let found = take_lines re [] (held ++ x ∷ chunk) in
    found.0 ++ grep re (or_else [] found.1) reads

-- ===== src/Grep/Lines.antt =====
-- Which lines grep prints, by the pieces in which `read` delivers the text.
use os_lab.Base.{
  ℕ, ◌+◌, ◌<◌, ◌≡◌, refl, sym, ap, ◌∙◌, inl, inr, false, none, some, List, [], ◌∷◌, ◌++◌, map,
  append-nil, append_assoc, arith, ◌==◌, if◌then◌else◌, Bool-cases, length, All, length-append,
}
use os_lab.Grep.{newline, match, take_lines, grep, or_else}

-- No newline and no NUL.
abbrev pub Clean : List ℕ → Type 0
Clean l = All (λ x. (x == newline ≡ false) × (x == 0 ≡ false)) l

-- The lines that match.
unfoldable pub matching : List ℕ → List (List ℕ) → List (List ℕ)
matching re [] = []
matching re (l ∷ ls) = let rest = matching re ls in if match re l then l ∷ rest else rest

-- Lines with their newlines, and what follows them.
unfoldable pub terminated : List (List ℕ) → List ℕ → List ℕ
terminated [] t = t
terminated (l ∷ ls) t = l ++ newline ∷ terminated ls t

-- What one `read` delivers, a character at least: the start of a line, or the end of one, whole
-- lines, and a start.
pub data Read : Type 0 where
  partial : ℕ → List ℕ → Read
  complete : List ℕ → List (List ℕ) → List ℕ → Read

abbrev pub text_of : Read → List ℕ
text_of (partial x t) = x ∷ t
text_of (complete h ls t) = h ++ newline ∷ terminated ls t

abbrev pub CleanRead : Read → Type 0
CleanRead (partial x t) = Clean (x ∷ t)
CleanRead (complete h ls t) = Clean h × All Clean ls × Clean t

-- Each read is within the room that is left in the 1024 characters of buf, with `m` held.
unfoldable pub Fits : ℕ → List Read → Type 0
Fits m [] = m < 1024
Fits m (partial x t ∷ reads) = (m + length (x ∷ t) < 1024) × Fits 0 reads
Fits m (complete h ls t ∷ reads) =
    (m + length (text_of (complete h ls t)) < 1024) × Fits (length t) reads

-- The lines as grep sees them: a start that fills a whole read is forgotten.
unfoldable pub lines_seen : List ℕ → List Read → List (List ℕ)
lines_seen held [] = []
lines_seen held (partial x t ∷ reads) = lines_seen [] reads
lines_seen held (complete h ls t ∷ reads) = (held ++ h) ∷ ls ++ lines_seen t reads

take_lines-Clean : (re line t : List ℕ) → Clean t → take_lines re line t ≡ ([], none)
unfolding take_lines
take_lines-Clean re line [] c = refl
take_lines-Clean re line (x ∷ t) ((n, z), c) = rw (z, n) (take_lines-Clean re (line ++ x ∷ []) t c)

take_lines_one :
    (re line h text : List ℕ)
    → Clean h
    → let ended = take_lines re [] text in
      take_lines re line (h ++ newline ∷ text) ≡ (
        if match re (line ++ h) then (line ++ h) ∷ ended.0 else ended.0,
        some (or_else text ended.1),
      )
unfolding take_lines
take_lines_one re line [] text c = rw (append-nil line) refl
take_lines_one re line (x ∷ h) text ((n, z), c) =
    rw (z, n, ← append_assoc line (x ∷ []) h) (take_lines_one re (line ++ x ∷ []) h text c)

take_lines-terminated :
    (re l : List ℕ) (ls : List (List ℕ)) (t : List ℕ)
    → Clean l
    → All Clean ls
    → Clean t
    → take_lines re [] (terminated (l ∷ ls) t) ≡ (matching re (l ∷ ls), some t)
unfolding terminated matching
take_lines-terminated re l [] t c d e =
    rw (take_lines_one re [] l t c, take_lines-Clean re [] t e) refl
take_lines-terminated re l (k ∷ ls) t c (d, ds) e =
    rw (take_lines_one re [] l (terminated (k ∷ ls) t) c, take_lines-terminated re k ls t d ds e)
      refl

matching-append :
    (re : List ℕ) (ks ls : List (List ℕ))
    → matching re (ks ++ ls) ≡ matching re ks ++ matching re ls
unfolding matching
matching-append re [] ls = refl
matching-append re (k ∷ ks) ls = elim (Bool-cases (match re k)) [
  | inl y ↦ rw (y, matching-append re ks ls) refl
  | inr n ↦ rw (n, matching-append re ks ls) refl
]

Clean-append : (a b : List ℕ) → Clean a → Clean b → Clean (a ++ b)
Clean-append [] b c d = d
Clean-append (x ∷ a) b (n, c) d = (n, Clean-append a b c d)

grep-read :
    (re held text : List ℕ) (r : Read) (reads : List (List ℕ))
    → text ≡ text_of r
    → grep re held (text ∷ reads)
      ≡ (take_lines re [] (held ++ text)).0
        ++ grep re (or_else [] (take_lines re [] (held ++ text)).1) reads
unfolding grep
grep-read re held [] (partial x t) reads e = cc
grep-read re held [] (complete [] ls t) reads e = cc
grep-read re held [] (complete (x ∷ h) ls t) reads e = cc
grep-read re held (x ∷ text) r reads e = refl

-- However read cuts a text with no NUL into pieces of a character at least, each within the room in
-- buf, grep prints the lines that match, in their order, among those that it sees whole: a line that
-- arrives in several reads is put together, but what a read without any newline delivers, and what
-- was held before it, is dropped.
pub grep-matching :
    (re held : List ℕ) (reads : List Read)
    → Clean held
    → All CleanRead reads
    → Fits (length held) reads
    → grep re held (map text_of reads) ≡ matching re (lines_seen held reads)
unfolding grep lines_seen matching terminated match Fits
grep-matching re held [] c d f = refl
grep-matching re held (partial x t ∷ reads) c (d, ds) (g, f) =
    grep-read re held (x ∷ t) (partial x t) (map text_of reads) refl
    ∙ rw (take_lines-Clean re [] (held ++ x ∷ t) (Clean-append held (x ∷ t) c d))
        (grep-matching re [] reads tt ds f)
grep-matching re held (complete h ls t ∷ reads) c ((d, e, f), ds) (g, k) =
    let one = take_lines-terminated re (held ++ h) ls t (Clean-append held h c d) e f in
    grep-read re held (text_of (complete h ls t)) (complete h ls t) (map text_of reads) refl
    ∙ rw (← append_assoc held h (newline ∷ terminated ls t), one)
        (ap (λ z. matching re ((held ++ h) ∷ ls) ++ z) (grep-matching re t reads f ds k)
          ∙ sym (matching-append re ((held ++ h) ∷ ls) (lines_seen t reads)))

-- A line that arrives in two reads loses its first part: grep matches the pattern against the
-- second part alone, and prints that.
pub split_line_lost :
    (re : List ℕ) (x : ℕ) (a b : List ℕ)
    → Clean (x ∷ a)
    → Clean b
    → length (x ∷ a) < 1024
    → length b + 1 < 1024
    → grep re [] ((x ∷ a) ∷ (b ++ newline ∷ []) ∷ []) ≡ (if match re b then b ∷ [] else [])
unfolding lines_seen terminated matching Fits
split_line_lost re x a b c d h k =
    grep-matching re [] (partial x a ∷ complete b [] [] ∷ []) tt (c, ((d, tt, tt), tt))
      (omega (arith, h), (omega (arith, k, length-append b (newline ∷ [])), omega arith))

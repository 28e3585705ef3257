-- ===== src/Grep/Tests.antt =====
-- grep.c at concrete patterns and texts.
use os_lab.Base.{ℕ, ◌≡◌, refl, ◌↔◌, true, false, List, [], ◌∷◌, map, arith}
use os_lab.Grep.{
  newline, take_lines, dollar, asterisk, match, grep, matchhere, matchstar, match_one, match_from,
}
use os_lab.Grep.Meaning.{Meaning}
use os_lab.Grep.Matcher.{match_iff}
use os_lab.Grep.Lines.{
  Fits, terminated, Read, complete, matching, lines_seen, text_of, grep-matching,
}

-- ab*c$
abbrev pattern_example : List ℕ
pattern_example = 97 ∷ 98 ∷ asterisk ∷ 99 ∷ dollar ∷ []

matches_end : match pattern_example (120 ∷ 97 ∷ 98 ∷ 98 ∷ 99 ∷ []) ≡ true
unfolding match match_from matchhere matchstar match_one
matches_end = refl

not_in_the_middle : match pattern_example (97 ∷ 99 ∷ 120 ∷ []) ≡ false
unfolding match match_from matchhere matchstar match_one
not_in_the_middle = refl

match_iff_example :
    match pattern_example (120 ∷ 97 ∷ 98 ∷ 98 ∷ 99 ∷ []) ≡ true
    ↔ Meaning pattern_example (120 ∷ 97 ∷ 98 ∷ 98 ∷ 99 ∷ [])
match_iff_example = match_iff pattern_example (120 ∷ 97 ∷ 98 ∷ 98 ∷ 99 ∷ [])

-- Two lines in two reads, the second cut in two.
abbrev two_reads : List Read
two_reads = complete (97 ∷ 99 ∷ []) [] (97 ∷ []) ∷ complete (98 ∷ 99 ∷ []) [] [] ∷ []

grep-matching_example :
    grep pattern_example [] (map text_of two_reads)
    ≡ matching pattern_example (lines_seen [] two_reads)
unfolding Fits terminated
grep-matching_example =
    grep-matching pattern_example [] two_reads tt
      (
        (((refl, refl), ((refl, refl), tt)), tt, ((refl, refl), tt)),
        ((((refl, refl), ((refl, refl), tt)), tt, tt), tt),
      )
      (omega arith, (omega arith, omega arith))

-- A NUL hides the newline behind it, and an empty read ends the loop.
hidden : grep [] [] ((97 ∷ 0 ∷ 98 ∷ newline ∷ []) ∷ [] ∷ (97 ∷ newline ∷ []) ∷ []) ≡ []
unfolding grep take_lines
hidden = refl

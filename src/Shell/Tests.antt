-- ===== src/Shell/Tests.antt =====
-- sh.c at concrete lines.
use os_lab.Base.{ℕ, zero, suc, ◌<◌, ◌≡◌, refl, ◌≢◌, List, [], ◌∷◌, arith, get_or}
use os_lab.Shell.{skip, word_end, token_at, token_end}
use os_lab.Shell.Parse.{
  exec, redir, list, back, parsed, rejected, o_write, parseredirs, parse_args, parse_backs,
  parseline, parse_all, parsecmd,
}
use os_lab.Shell.Scan.{IsLine}
use os_lab.Shell.Strings.{Strings, parsecmd-Strings}

abbrev line_of : List ℕ → ℕ → ℕ
line_of text k = get_or text k 0

-- a>b
abbrev short_line : List ℕ
short_line = 97 ∷ 62 ∷ 98 ∷ []

redirected :
    parse_all (line_of short_line) 3
    ≡ parsed (
        redir
          (exec (record { start = 0; finish = 1 } ∷ []))
          (record { start = 2; finish = 3 })
          o_write
          1)
unfolding parse_all parseline parse_args parse_backs parseredirs skip word_end token_at token_end
redirected = refl

-- (a;b)&
abbrev block_line : List ℕ
block_line = 40 ∷ 97 ∷ 59 ∷ 98 ∷ 41 ∷ 38 ∷ []

grouped :
    parse_all (line_of block_line) 6
    ≡ parsed (
        back (
          list
            (exec (record { start = 1; finish = 2 } ∷ []))
            (exec (record { start = 3; finish = 4 } ∷ []))))
unfolding parse_all parseline parse_args parse_backs parseredirs skip word_end token_at token_end
grouped = refl

-- a)
unbalanced : parse_all (line_of (97 ∷ 41 ∷ [])) 2 ≡ rejected
unfolding parse_all parseline parse_args parse_backs parseredirs skip word_end token_at token_end
unbalanced = refl

short_line-inside : (k : ℕ) → k < 3 → line_of short_line k ≢ 0
short_line-inside zero h = omega arith
short_line-inside (suc zero) h = omega arith
short_line-inside (suc (suc zero)) h = omega arith
short_line-inside (suc (suc (suc k))) h = absurd (omega arith)

short_line-IsLine : IsLine (line_of short_line) 3
short_line-IsLine = record { ends = refl; inside = short_line-inside }

parsecmd-Strings_example : Strings (line_of short_line) (parsecmd (line_of short_line) 3)
parsecmd-Strings_example = parsecmd-Strings (line_of short_line) 3 short_line-IsLine

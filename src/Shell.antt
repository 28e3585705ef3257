-- ===== src/Shell.antt =====
-- sh.c: the tokens of a command line.
-- `buf` is the line and `es` the index of its NUL; a pointer into the line is an index.
pub mod Parse
pub mod Scan
pub mod Redirs
pub mod Args
pub mod Total
pub mod Strings
mod Tests
use os_lab.Base.{ℕ, zero, suc, ◌+◌, ◌-◌, ◌<◌, Bool, not, ◌&&◌, ◌||◌, ltb, ◌==◌, if◌then◌else◌}

abbrev pub is_space : ℕ → Bool
is_space c = (c == 32) || (c == 9) || (c == 13) || (c == 10) || (c == 11)

-- The symbols | ( ) ; & < that are tokens by themselves.
abbrev pub is_single : ℕ → Bool
is_single c = (c == 124) || (c == 40) || (c == 41) || (c == 59) || (c == 38) || (c == 60)

abbrev pub greater : ℕ
greater = 62

abbrev pub is_symbol : ℕ → Bool
is_symbol c = is_single c || (c == greater)

-- What gettoken answers for a word, and for >>.
abbrev pub word_token : ℕ
word_token = 97

abbrev pub append_token : ℕ
append_token = 43

-- The characters from `start` up to `finish`.
pub record Word : Type 0 where
  pub start : ℕ
  pub finish : ℕ

module _ (buf : ℕ → ℕ) (es : ℕ) where
  -- `while(s < es && strchr(whitespace, *s)) s++;`
  unfoldable pub skip : ℕ → ℕ → ℕ
  skip zero s = s
  skip (suc left) s =
      let rest = skip left (s + 1) in if ltb s es && is_space (buf s) then rest else s

  unfoldable pub word_end : ℕ → ℕ → ℕ
  word_end zero s = s
  word_end (suc left) s =
      let rest = word_end left (s + 1) in
      if ltb s es && not (is_space (buf s)) && not (is_symbol (buf s)) then rest else s

  -- The token that starts at `q`, and where it ends.
  unfoldable pub token_at : ℕ → ℕ
  token_at q =
      let c = buf q in
      if c == 0
      then 0
      else if is_single c
      then c
      else if c == greater
      then (if buf (q + 1) == greater then append_token else greater)
      else word_token

  unfoldable pub token_end : ℕ → ℕ
  unfolding word_end
  token_end q =
      let c = buf q in
      if c == 0
      then q
      else if is_single c
      then q + 1
      else if c == greater
      then (if buf (q + 1) == greater then q + 2 else q + 1)
      else word_end (es - q) q

  abbrev pub skipped : ℕ → ℕ
  skipped s = skip (es - s) s

  -- The token, its characters, and what follows it.
  abbrev pub gettoken : ℕ → ℕ × Word × ℕ
  gettoken s = (
    token_at (skipped s),
    record { start = skipped s; finish = token_end (skipped s) },
    skipped (token_end (skipped s)),
  )

  -- Whether the next character is among the tokens.
  abbrev pub peek : (ℕ → Bool) → ℕ → Bool
  peek toks s = not (buf (skipped s) == 0) && toks (buf (skipped s))

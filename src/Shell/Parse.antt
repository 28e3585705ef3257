-- ===== src/Shell/Parse.antt =====
-- sh.c: the recursive descent parser, and the strings of the command that it makes.
use os_lab.Base.{
  ℕ, zero, suc, ◌+◌, ◌*◌, Bool, true, false, ◌&&◌, ◌||◌, List, [], ◌∷◌, ◌++◌, ltb, ◌==◌,
  if◌then◌else◌, update,
}
use os_lab.Shell.{Word, gettoken, peek, skipped, word_token, append_token, greater}

-- `redir` has the mode and the descriptor of open.
pub data Cmd : Type 0 where
  exec : List Word → Cmd
  redir : Cmd → Word → ℕ → ℕ → Cmd
  pipe list : Cmd → Cmd → Cmd
  back : Cmd → Cmd

abbrev pub maxargs : ℕ
maxargs = 10

abbrev pub o_rdonly : ℕ
o_rdonly = 0

-- O_WRONLY|O_CREATE
abbrev pub o_write : ℕ
o_write = 513

-- `rejected` where the parser calls panic.
pub data Parsed (A : Type 0) : Type 0 where
  parsed : A → Parsed A
  rejected out_of_fuel : Parsed A

abbrev pub then_do : {A B : Type 0} → Parsed A → (A → Parsed B) → Parsed B
then_do (parsed a) f = f a
then_do rejected f = rejected
then_do out_of_fuel f = out_of_fuel

abbrev pub execcmd : Cmd
execcmd = exec []

abbrev pub pipecmd : Cmd → Cmd → Cmd
pipecmd left right = pipe left right

abbrev pub listcmd : Cmd → Cmd → Cmd
listcmd left right = list left right

abbrev pub backcmd : Cmd → Cmd
backcmd cmd = back cmd

abbrev pub less : ℕ
less = 60

abbrev pub is_redir : ℕ → Bool
is_redir c = (c == less) || (c == greater)

abbrev pub redircmd : Cmd → Word → ℕ → ℕ → Cmd
redircmd subcmd file mode fd = redir subcmd file mode fd

-- The switch of `parseredirs`.
abbrev pub redirect : ℕ → Word → Cmd → Cmd
redirect tok file cmd =
    if tok == less
    then redircmd cmd file o_rdonly 0
    else if tok == greater || tok == append_token
    then redircmd cmd file o_write 1
    else cmd

-- `cmd->argv[argc] = q` where `cmd` is the EXEC node below the redirections of `ret`.
abbrev pub add_arg : Word → Cmd → Cmd
add_arg w (exec words) = exec (words ++ w ∷ [])
add_arg w (redir cmd file mode fd) = redir (add_arg w cmd) file mode fd
add_arg w (pipe a b) = pipe a b
add_arg w (list a b) = list a b
add_arg w (back a) = back a

-- The characters ( ) & ; and | , and those that end the arguments of a command.
abbrev pub lparen : ℕ
lparen = 40

abbrev pub rparen : ℕ
rparen = 41

abbrev pub ampersand : ℕ
ampersand = 38

abbrev pub semicolon : ℕ
semicolon = 59

abbrev pub bar : ℕ
bar = 124

abbrev pub ends_args : ℕ → Bool
ends_args c = (c == bar) || (c == rparen) || (c == ampersand) || (c == semicolon)

module _ (buf : ℕ → ℕ) (es : ℕ) where
  -- A token that is the next character, and the rest after it.
  abbrev pub after_token : ℕ → ℕ
  after_token s = (gettoken buf es (skipped buf es s)).2

  -- Fuel for each of the loops, by the characters left.
  unfoldable pub parseredirs : ℕ → Cmd → ℕ → Parsed (Cmd × ℕ)
  parseredirs zero cmd s = out_of_fuel
  parseredirs (suc f) cmd s = elim (peek buf es is_redir s) [
    | false ↦ parsed (cmd, skipped buf es s)
    | true ↦
        let tok = gettoken buf es (skipped buf es s) in
        let file = gettoken buf es tok.2 in
        elim (file.0 == word_token) [
          | false ↦ rejected
          | true ↦ parseredirs f (redirect tok.0 file.1 cmd) file.2
        ]
  ]

  -- The loop of `parseexec`.
  unfoldable pub parse_args : ℕ → ℕ → Cmd → ℕ → Parsed (Cmd × ℕ)
  unfolding parseredirs
  parse_args zero argc ret s = out_of_fuel
  parse_args (suc f) argc ret s = elim (peek buf es ends_args s) [
    | true ↦ parsed (ret, skipped buf es s)
    | false ↦
        let tok = gettoken buf es (skipped buf es s) in
        elim (tok.0 == 0) [
          | true ↦ parsed (ret, tok.2)
          | false ↦ elim (tok.0 == word_token && ltb (argc + 1) maxargs) [
            | false ↦ rejected
            | true ↦
                then_do (parseredirs (es + 1) (add_arg tok.1 ret) tok.2)
                  λ (more, rest). parse_args f (argc + 1) more rest
          ]
        ]
  ]

  -- `while(peek(ps, es, "&"))`
  unfoldable pub parse_backs : ℕ → Cmd → ℕ → Parsed (Cmd × ℕ)
  parse_backs zero cmd s = out_of_fuel
  parse_backs (suc f) cmd s = elim (peek buf es (λ c. c == ampersand) s) [
    | false ↦ parsed (cmd, skipped buf es s)
    | true ↦ parse_backs f (backcmd cmd) (after_token s)
  ]

  -- Fuel for the nesting of the calls.
  unfoldable mutual
    unfolding parseredirs parse_args parse_backs

    pub parseline : ℕ → ℕ → Parsed (Cmd × ℕ)
    parseline zero s = out_of_fuel
    parseline (suc f) s = then_do (parsepipe f s) λ (first, at_back).
        then_do (parse_backs (es + 1) first at_back) λ (cmd, at_semi).
          elim (peek buf es (λ c. c == semicolon) at_semi) [
            | false ↦ parsed (cmd, skipped buf es at_semi)
            | true ↦
                then_do (parseline f (after_token at_semi))
                  λ (more, rest). parsed (listcmd cmd more, rest)
          ]

    pub parsepipe : ℕ → ℕ → Parsed (Cmd × ℕ)
    parsepipe zero s = out_of_fuel
    parsepipe (suc f) s = then_do (parseexec f s) λ (cmd, at_bar).
        elim (peek buf es (λ c. c == bar) at_bar) [
          | false ↦ parsed (cmd, skipped buf es at_bar)
          | true ↦
              then_do (parsepipe f (after_token at_bar))
                λ (more, rest). parsed (pipecmd cmd more, rest)
        ]

    pub parseexec : ℕ → ℕ → Parsed (Cmd × ℕ)
    parseexec zero s = out_of_fuel
    parseexec (suc f) s = elim (peek buf es (λ c. c == lparen) s) [
      | true ↦ parseblock f (skipped buf es s)
      | false ↦
          then_do (parseredirs (es + 1) execcmd (skipped buf es s))
            λ (ret, rest). parse_args (es + 1) 0 ret rest
    ]

    pub parseblock : ℕ → ℕ → Parsed (Cmd × ℕ)
    parseblock zero s = out_of_fuel
    parseblock (suc f) s = elim (peek buf es (λ c. c == lparen) s) [
      | false ↦ rejected
      | true ↦ then_do (parseline f (after_token s)) λ (cmd, at_end).
          elim (peek buf es (λ c. c == rparen) at_end) [
            | false ↦ rejected
            | true ↦ parseredirs (es + 1) cmd (after_token at_end)
          ]
    ]

  -- `parsecmd` before the call of nulterminate.
  unfoldable pub parse_all : Parsed Cmd
  unfolding parseline
  parse_all =
      then_do (parseline (4 * es + 4) 0)
        λ (cmd, s). if skipped buf es s == es then parsed cmd else rejected

unfoldable pub end_words : List Word → (ℕ → ℕ) → ℕ → ℕ
end_words [] buf = buf
end_words (w ∷ words) buf = end_words words (update buf w.finish 0)

-- A NUL behind each word of the command.
unfoldable pub nulterminate : Cmd → (ℕ → ℕ) → ℕ → ℕ
unfolding end_words
nulterminate (exec words) buf = end_words words buf
nulterminate (redir cmd file mode fd) buf = update (nulterminate cmd buf) file.finish 0
nulterminate (pipe a b) buf = nulterminate b (nulterminate a buf)
nulterminate (list a b) buf = nulterminate b (nulterminate a buf)
nulterminate (back a) buf = nulterminate a buf

-- The command, and the line as its words are left in it.
unfoldable pub parsecmd : (ℕ → ℕ) → ℕ → Parsed (Cmd × (ℕ → ℕ))
unfolding parse_all nulterminate
parsecmd buf es = then_do (parse_all buf es) λ cmd. parsed (cmd, nulterminate cmd buf)

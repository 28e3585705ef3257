-- ===== src/Shell/Strings.antt =====
-- After nulterminate each word of the command is a C string of its own.
use os_lab.Base.{
  ℕ, ◌≤◌, ◌<◌, ◌≡◌, refl, sym, ap, ◌∙◌, ◌≢◌, ◌⊎◌, inl, inr, true, false, List, [], ◌∷◌, arith,
  ℕ_discrete, All, update_self, update_ne, update,
}
use os_lab.Shell.{Word}
use os_lab.Shell.Parse.{
  Cmd, exec, redir, pipe, list, back, Parsed, parsed, rejected, out_of_fuel, then_do, end_words,
  nulterminate, parse_all, parsecmd,
}
use os_lab.Shell.Scan.{IsLine, GoodWord, is_word_char}
use os_lab.Shell.Redirs.{GoodCmd}
use os_lab.Shell.Total.{FineAll, parse_all_ends}

-- In `new`, the string at `w` is what stood in `old` from its start to its end.
abbrev pub Reads : (ℕ → ℕ) → (ℕ → ℕ) → Word → Type 0
Reads old new w =
    (new w.finish ≡ 0) × ((k : ℕ) → w.start ≤ k → k < w.finish → (new k ≡ old k) × (new k ≢ 0))

unfoldable pub AllWords : (Word → Type 0) → Cmd → Type 0
AllWords P (exec words) = All P words
AllWords P (redir cmd file mode fd) = AllWords P cmd × P file
AllWords P (pipe a b) = AllWords P a × AllWords P b
AllWords P (list a b) = AllWords P a × AllWords P b
AllWords P (back a) = AllWords P a

All-map :
    (P Q : Word → Type 0)
    → ((w : Word) → P w → Q w)
    → (words : List Word) → All P words
    → All Q words
All-map P Q f [] a = tt
All-map P Q f (w ∷ words) (p, a) = (f w p, All-map P Q f words a)

AllWords-map :
    (P Q : Word → Type 0) → ((w : Word) → P w → Q w) → (cmd : Cmd) → AllWords P cmd → AllWords Q cmd
unfolding AllWords
AllWords-map P Q f (exec words) a = All-map P Q f words a
AllWords-map P Q f (redir cmd file mode fd) (a, p) = (AllWords-map P Q f cmd a, f file p)
AllWords-map P Q f (pipe c d) (a, b) = (AllWords-map P Q f c a, AllWords-map P Q f d b)
AllWords-map P Q f (list c d) (a, b) = (AllWords-map P Q f c a, AllWords-map P Q f d b)
AllWords-map P Q f (back c) a = AllWords-map P Q f c a

All-both :
    (P Q : Word → Type 0) (words : List Word)
    → All P words
    → All Q words
    → All (λ w. P w × Q w) words
All-both P Q [] a b = tt
All-both P Q (w ∷ words) (p, a) (q, b) = ((p, q), All-both P Q words a b)

AllWords-both :
    (P Q : Word → Type 0) (cmd : Cmd)
    → AllWords P cmd
    → AllWords Q cmd
    → AllWords (λ w. P w × Q w) cmd
unfolding AllWords
AllWords-both P Q (exec words) a b = All-both P Q words a b
AllWords-both P Q (redir cmd file mode fd) (a, p) (b, q) = (AllWords-both P Q cmd a b, (p, q))
AllWords-both P Q (pipe c d) (a, p) (b, q) = (AllWords-both P Q c a b, AllWords-both P Q d p q)
AllWords-both P Q (list c d) (a, p) (b, q) = (AllWords-both P Q c a b, AllWords-both P Q d p q)
AllWords-both P Q (back c) a b = AllWords-both P Q c a b

GoodCmd-AllWords :
    (buf : ℕ → ℕ) (es : ℕ) (cmd : Cmd) → GoodCmd buf es cmd → AllWords (GoodWord buf es) cmd
unfolding GoodCmd AllWords
GoodCmd-AllWords buf es (exec words) (l, a) = a
GoodCmd-AllWords buf es (redir cmd file mode fd) (g, f) = (GoodCmd-AllWords buf es cmd g, f)
GoodCmd-AllWords buf es (pipe a b) (g, h) =
    (GoodCmd-AllWords buf es a g, GoodCmd-AllWords buf es b h)
GoodCmd-AllWords buf es (list a b) (g, h) =
    (GoodCmd-AllWords buf es a g, GoodCmd-AllWords buf es b h)
GoodCmd-AllWords buf es (back a) g = GoodCmd-AllWords buf es a g

-- `new` differs from the line in NULs, and only where no word has a character.
abbrev Kept : (ℕ → ℕ) → (ℕ → ℕ) → Type 0
Kept old new = (k : ℕ) → (new k ≡ old k) ⊎ ((new k ≡ 0) × (is_word_char (old k) ≡ false))

-- A NUL that is written stays.
nul-end_words : (words : List Word) (new : ℕ → ℕ) (k : ℕ) → new k ≡ 0 → end_words words new k ≡ 0
unfolding end_words
nul-end_words [] new k e = e
nul-end_words (w ∷ words) new k e = nul-end_words words (update new w.finish 0) k (ground arith)

nul-nulterminate : (cmd : Cmd) (new : ℕ → ℕ) (k : ℕ) → new k ≡ 0 → nulterminate cmd new k ≡ 0
unfolding nulterminate
nul-nulterminate (exec words) new k e = nul-end_words words new k e
nul-nulterminate (redir cmd file mode fd) new k e = ground (arith, nul-nulterminate cmd new k e)
nul-nulterminate (pipe a b) new k e =
    nul-nulterminate b (nulterminate a new) k (nul-nulterminate a new k e)
nul-nulterminate (list a b) new k e =
    nul-nulterminate b (nulterminate a new) k (nul-nulterminate a new k e)
nul-nulterminate (back a) new k e = nul-nulterminate a new k e

end_words-end :
    (words : List Word) (new : ℕ → ℕ) → All (λ w. end_words words new w.finish ≡ 0) words
unfolding end_words
end_words-end [] new = tt
end_words-end (w ∷ words) new = (
  nul-end_words words (update new w.finish 0) w.finish (update_self new w.finish 0),
  end_words-end words (update new w.finish 0),
)

nulterminate-end : (cmd : Cmd) (new : ℕ → ℕ) → AllWords (λ w. nulterminate cmd new w.finish ≡ 0) cmd
unfolding nulterminate AllWords
nulterminate-end (exec words) new = end_words-end words new
nulterminate-end (redir cmd file mode fd) new = (
  AllWords-map _ _ (λ w e. ground arith) cmd (nulterminate-end cmd new),
  update_self (nulterminate cmd new) file.finish 0,
)
nulterminate-end (pipe a b) new = (
  AllWords-map _ _ (λ w e. nul-nulterminate b (nulterminate a new) w.finish e) a
      (nulterminate-end a new),
  nulterminate-end b (nulterminate a new),
)
nulterminate-end (list a b) new = (
  AllWords-map _ _ (λ w e. nul-nulterminate b (nulterminate a new) w.finish e) a
      (nulterminate-end a new),
  nulterminate-end b (nulterminate a new),
)
nulterminate-end (back a) new = nulterminate-end a new

module _ (old : ℕ → ℕ) (es : ℕ) where
  Kept-end :
      (new : ℕ → ℕ) (w : Word) → GoodWord old es w → Kept old new → Kept old (update new w.finish 0)
  Kept-end new w g h k = elim (ℕ_discrete w.finish k) [
    | yes q ↦ inr (
      ap (update new w.finish 0) (sym q) ∙ update_self new w.finish 0,
      ap (λ x. is_word_char (old x)) (sym q) ∙ g.stop,
    )
    | no n ↦ rw (update_ne new w.finish 0 k n) (h k)
  ]

  Kept-end_words :
      (words : List Word) (new : ℕ → ℕ)
      → All (GoodWord old es) words
      → Kept old new
      → Kept old (end_words words new)
  unfolding end_words
  Kept-end_words [] new a h = h
  Kept-end_words (w ∷ words) new (g, a) h =
      Kept-end_words words (update new w.finish 0) a (Kept-end new w g h)

  Kept-nulterminate :
      (cmd : Cmd) (new : ℕ → ℕ)
      → AllWords (GoodWord old es) cmd
      → Kept old new
      → Kept old (nulterminate cmd new)
  unfolding nulterminate AllWords
  Kept-nulterminate (exec words) new a h = Kept-end_words words new a h
  Kept-nulterminate (redir cmd file mode fd) new (g, f) h =
      Kept-end (nulterminate cmd new) file f (Kept-nulterminate cmd new g h)
  Kept-nulterminate (pipe a b) new (g, i) h =
      Kept-nulterminate b (nulterminate a new) i (Kept-nulterminate a new g h)
  Kept-nulterminate (list a b) new (g, i) h =
      Kept-nulterminate b (nulterminate a new) i (Kept-nulterminate a new g h)
  Kept-nulterminate (back a) new g h = Kept-nulterminate a new g h

  Kept-Reads :
      (new : ℕ → ℕ) (w : Word)
      → Kept old new
      → (new w.finish ≡ 0) × GoodWord old es w
      → Reads old new w
  Kept-Reads new w h (e, g) = (e, λ k a b. go k (g.chars k a b) (h k))
    where
      go :
          (k : ℕ)
          → is_word_char (old k) ≡ true
          → (new k ≡ old k) ⊎ ((new k ≡ 0) × (is_word_char (old k) ≡ false))
          → (new k ≡ old k) × (new k ≢ 0)
      go k c (inl same) = (same, λ z. cc (sym c ∙ ap is_word_char (sym same ∙ z)))
      go k c (inr (z, n)) = absurd (cc (sym c ∙ n))

-- What parsecmd may come to on a line.
abbrev pub Strings : (ℕ → ℕ) → Parsed (Cmd × (ℕ → ℕ)) → Type 0
Strings old (parsed (cmd, new)) = AllWords (Reads old new) cmd
Strings old rejected = Unit
Strings old out_of_fuel = ⊥

-- parsecmd ends on every line, with a rejection or with a command; and in the line as nulterminate
-- leaves it, each argument and each file name of the command is a C string of its own, with the
-- characters that stood there: no NUL of one word falls into another.
pub parsecmd-Strings : (buf : ℕ → ℕ) (es : ℕ) → IsLine buf es → Strings buf (parsecmd buf es)
unfolding parsecmd
parsecmd-Strings buf es v = go (parse_all buf es) (parse_all_ends v)
  where
    go :
        (r : Parsed Cmd)
        → FineAll buf es r
        → Strings buf (then_do r λ cmd. parsed (cmd, nulterminate cmd buf))
    go (parsed cmd) g =
        let words = GoodCmd-AllWords buf es cmd g in
        let kept = Kept-nulterminate buf es cmd buf words (λ k. inl refl) in
        AllWords-map _ _ (λ w p. Kept-Reads buf es (nulterminate cmd buf) w kept p) cmd
          (AllWords-both _ _ cmd (nulterminate-end cmd buf) words)
    go rejected g = tt
    go out_of_fuel g = g

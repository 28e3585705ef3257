-- ===== src/Shell/Redirs.antt =====
-- The loops of the parser end, and leave good words.
use os_lab.Base.{
  ℕ, zero, suc, ◌+◌, ◌≤◌, ◌<◌, ◌≡◌, refl, sym, ap, ◌∙◌, subst, inl, inr, Bool, true, ◌||◌, arith,
  ◌==◌, ==→eq, Bool-cases, length, All,
}
use os_lab.Shell.{greater, word_token, append_token, Word, skipped, gettoken, peek}
use os_lab.Shell.Parse.{
  Cmd, exec, redir, pipe, list, back, maxargs, Parsed, parsed, rejected, out_of_fuel, then_do, less,
  is_redir, redirect, after_token, parseredirs,
}
use os_lab.Shell.Scan.{
  IsLine, GoodWord, gettoken-lt, gettoken-GoodWord, gettoken-zero, peek-true, skipped-le,
  skipped_twice,
}

-- Every word of the command is good, and every EXEC node has fewer than MAXARGS.
unfoldable pub GoodCmd : (ℕ → ℕ) → ℕ → Cmd → Type 0
GoodCmd buf es (exec words) = (length words < maxargs) × All (GoodWord buf es) words
GoodCmd buf es (redir cmd file mode fd) = GoodCmd buf es cmd × GoodWord buf es file
GoodCmd buf es (pipe a b) = GoodCmd buf es a × GoodCmd buf es b
GoodCmd buf es (list a b) = GoodCmd buf es a × GoodCmd buf es b
GoodCmd buf es (back a) = GoodCmd buf es a

-- How many arguments the EXEC node below the redirections has.
abbrev pub argc_of : Cmd → ℕ
argc_of (exec words) = length words
argc_of (redir cmd file mode fd) = argc_of cmd
argc_of (pipe a b) = 0
argc_of (list a b) = 0
argc_of (back a) = 0

-- What the parser may answer at `s`: a rejection, or a good command and a place further on.
abbrev pub Fine : (ℕ → ℕ) → ℕ → ℕ → Parsed (Cmd × ℕ) → Type 0
Fine buf es s (parsed (cmd, rest)) = (s ≤ rest) × (rest ≤ es) × GoodCmd buf es cmd
Fine buf es s rejected = Unit
Fine buf es s out_of_fuel = ⊥

-- With the number of arguments too.
abbrev pub FineArgs : (ℕ → ℕ) → ℕ → ℕ → ℕ → Parsed (Cmd × ℕ) → Type 0
FineArgs buf es argc s (parsed (cmd, rest)) =
    (s ≤ rest) × (rest ≤ es) × GoodCmd buf es cmd × (argc_of cmd ≤ argc)
FineArgs buf es argc s rejected = Unit
FineArgs buf es argc s out_of_fuel = ⊥

module _ {buf : ℕ → ℕ} {es : ℕ} (v : IsLine buf es) where
  pub Fine-weaken : {s t : ℕ} (r : Parsed (Cmd × ℕ)) → s ≤ t → Fine buf es t r → Fine buf es s r
  Fine-weaken (parsed (cmd, rest)) h (a, b, c) = (omega arith, b, c)
  Fine-weaken rejected h f = tt
  Fine-weaken out_of_fuel h f = f

  pub FineArgs-weaken :
      (s t n : ℕ) (r : Parsed (Cmd × ℕ)) → s ≤ t → FineArgs buf es n t r → FineArgs buf es n s r
  FineArgs-weaken s t n (parsed (cmd, rest)) h (a, b, c, d) = (omega arith, b, c, d)
  FineArgs-weaken s t n rejected h f = tt
  FineArgs-weaken s t n out_of_fuel h f = f

  pub Fine-then :
      {s : ℕ} (r : Parsed (Cmd × ℕ)) (g : Cmd × ℕ → Parsed (Cmd × ℕ))
      → Fine buf es s r
      → ((cmd : Cmd) (rest : ℕ)
          → s ≤ rest
          → rest ≤ es
          → GoodCmd buf es cmd
          → Fine buf es s (g (cmd, rest)))
      → Fine buf es s (then_do r g)
  Fine-then (parsed (cmd, rest)) g (a, b, c) k = k cmd rest a b c
  Fine-then rejected g f k = tt
  Fine-then out_of_fuel g f k = f

  pub peek-after :
      (toks : ℕ → Bool) (s : ℕ)
      → s ≤ es
      → peek buf es toks s ≡ true
      → (s < after_token buf es s) × (after_token buf es s ≤ es)
  peek-after toks s h p =
      let q = skipped-le v s h in
      let n = (peek-true v toks s p).0 in
      let r =
        gettoken-lt v (skipped buf es s) q.1 (λ e. n (sym (ap buf (skipped_twice v s h)) ∙ e)) in
      (omega (arith, q.0, r.0), r.1)

  GoodCmd-redirect :
      (tok : ℕ) (file : Word) (cmd : Cmd)
      → GoodWord buf es file
      → GoodCmd buf es cmd
      → GoodCmd buf es (redirect tok file cmd) × (argc_of (redirect tok file cmd) ≡ argc_of cmd)
  unfolding GoodCmd
  GoodCmd-redirect tok file cmd w g = elim (Bool-cases (tok == less)) [
    | inl y ↦ rw y ((g, w), refl)
    | inr y ↦ elim (Bool-cases ((tok == greater) || (tok == append_token))) [
      | inl z ↦ rw (y, z) ((g, w), refl)
      | inr z ↦ rw (y, z) (g, refl)
    ]
  ]

  pub parseredirs-FineArgs :
      (f : ℕ) (cmd : Cmd) (s : ℕ)
      → s ≤ es
      → es < s + f
      → GoodCmd buf es cmd
      → FineArgs buf es (argc_of cmd) s (parseredirs buf es f cmd s)
  unfolding parseredirs
  parseredirs-FineArgs zero cmd s h m g = absurd (omega arith)
  parseredirs-FineArgs (suc f) cmd s h m g = elim (Bool-cases (peek buf es is_redir s)) [
    | inr n ↦ let q = skipped-le v s h in rw (n, parseredirs) (q.0, q.1, g, omega arith)
    | inl p ↦
        let t = peek-after is_redir s h p in
        elim (Bool-cases ((gettoken buf es (after_token buf es s)).0 == word_token)) [
          | inr n ↦ rw (p, parseredirs) (rw (n, parseredirs) tt)
          | inl w ↦
              let is_word = ==→eq (gettoken buf es (after_token buf es s)).0 word_token w in
              let good = gettoken-GoodWord v (after_token buf es s) t.1 is_word in
              let r =
                gettoken-lt v (after_token buf es s) t.1
                  (gettoken-zero v (after_token buf es s) (λ e. cc (sym is_word ∙ e))) in
              rw (p, parseredirs)
                (rw (w, parseredirs)
                  (next (λ c r. parseredirs-FineArgs f c r) (gettoken buf es (skipped buf es s)).0
                    (gettoken buf es (after_token buf es s)).1
                    (gettoken buf es (after_token buf es s)).2 good r.1 (omega (arith, t.0, r.0))))
        ]
  ]
    where
      next :
          ((c : Cmd) (r : ℕ)
            → r ≤ es
            → es < r + f
            → GoodCmd buf es c
            → FineArgs buf es (argc_of c) r (parseredirs buf es f c r))
          → (tok : ℕ) (file : Word) (rest : ℕ) → GoodWord buf es file
          → rest ≤ es
          → s < rest
          → FineArgs buf es (argc_of cmd) s (parseredirs buf es f (redirect tok file cmd) rest)
      next ih tok file rest w l k =
          let more = GoodCmd-redirect tok file cmd w g in
          FineArgs-weaken s rest (argc_of cmd) (parseredirs buf es f (redirect tok file cmd) rest)
            (omega arith)
            (subst (λ n. FineArgs buf es n rest (parseredirs buf es f (redirect tok file cmd) rest))
              more.1 (ih (redirect tok file cmd) rest l (omega arith) more.0))

  pub FineArgs-Fine : (s n : ℕ) (r : Parsed (Cmd × ℕ)) → FineArgs buf es n s r → Fine buf es s r
  FineArgs-Fine s n (parsed (cmd, rest)) (a, b, c, d) = (a, b, c)
  FineArgs-Fine s n rejected f = tt
  FineArgs-Fine s n out_of_fuel f = f

  pub parseredirs-Fine :
      (cmd : Cmd) (s : ℕ)
      → s ≤ es
      → GoodCmd buf es cmd
      → Fine buf es s (parseredirs buf es (es + 1) cmd s)
  parseredirs-Fine cmd s h g =
      FineArgs-Fine s (argc_of cmd) (parseredirs buf es (es + 1) cmd s)
        (parseredirs-FineArgs (es + 1) cmd s h (omega arith) g)

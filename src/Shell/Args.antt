-- ===== src/Shell/Args.antt =====
-- The loop over the arguments of a command ends, with fewer than MAXARGS of them.
use os_lab.Base.{
  ℕ, zero, suc, ◌+◌, ◌≤◌, ◌<◌, ◌≡◌, sym, ◌∙◌, inl, inr, true, ◌&&◌, List, [], ◌∷◌, ◌++◌, arith, ltb,
  ◌==◌, Bool-cases, All, length-append,
}
use os_lab.Shell.{word_token, Word, skipped, gettoken, peek}
use os_lab.Shell.Parse.{
  parse_args, then_do, add_arg, ends_args, maxargs, Cmd, exec, redir, pipe, list, back, maxargs,
  Parsed, parsed, rejected, out_of_fuel, then_do, add_arg, ends_args, parseredirs, parse_args,
}
use os_lab.Shell.Scan.{
  gettoken-le, IsLine, GoodWord, gettoken-lt, gettoken-GoodWord, gettoken-zero, skipped-le,
}
use os_lab.Shell.Redirs.{GoodCmd, argc_of, Fine, FineArgs, Fine-weaken, parseredirs-FineArgs}

All-append :
    {A : Type 0} (P : A → Type 0) (xs : List A) (x : A) → All P xs → P x → All P (xs ++ x ∷ [])
All-append P [] x a p = (p, tt)
All-append P (y ∷ xs) x (q, a) p = (q, All-append P xs x a p)

module _ {buf : ℕ → ℕ} {es : ℕ} (v : IsLine buf es) where
  GoodCmd-add_arg :
      (w : Word) (cmd : Cmd)
      → GoodWord buf es w
      → GoodCmd buf es cmd
      → argc_of cmd + 1 < maxargs
      → GoodCmd buf es (add_arg w cmd)
  unfolding GoodCmd
  GoodCmd-add_arg w (exec words) g (l, all) h =
      (omega (arith, length-append {0} words (w ∷ [])), All-append (GoodWord buf es) words w all g)
  GoodCmd-add_arg w (redir cmd file mode fd) g (c, f) h = (GoodCmd-add_arg w cmd g c h, f)
  GoodCmd-add_arg w (pipe a b) g c h = c
  GoodCmd-add_arg w (list a b) g c h = c
  GoodCmd-add_arg w (back a) g c h = c

  argc_of-add_arg : (w : Word) (cmd : Cmd) → argc_of (add_arg w cmd) ≤ argc_of cmd + 1
  argc_of-add_arg w (exec words) = omega (arith, length-append {0} words (w ∷ []))
  argc_of-add_arg w (redir cmd file mode fd) = argc_of-add_arg w cmd
  argc_of-add_arg w (pipe a b) = omega arith
  argc_of-add_arg w (list a b) = omega arith
  argc_of-add_arg w (back a) = omega arith

  FineArgs-then :
      (n s : ℕ) (r : Parsed (Cmd × ℕ)) (g : Cmd × ℕ → Parsed (Cmd × ℕ))
      → FineArgs buf es n s r
      → ((cmd : Cmd) (rest : ℕ)
          → s ≤ rest
          → rest ≤ es
          → GoodCmd buf es cmd
          → argc_of cmd ≤ n
          → Fine buf es s (g (cmd, rest)))
      → Fine buf es s (then_do r g)
  FineArgs-then n s (parsed (cmd, rest)) g (a, b, c, d) k = k cmd rest a b c d
  FineArgs-then n s rejected g f k = tt
  FineArgs-then n s out_of_fuel g f k = f

  pub parse_args-Fine :
      (f argc : ℕ) (ret : Cmd) (s : ℕ)
      → s ≤ es
      → es < s + f
      → GoodCmd buf es ret
      → argc_of ret ≤ argc
      → Fine buf es s (parse_args buf es f argc ret s)
  unfolding parse_args
  parse_args-Fine zero argc ret s h m g n = absurd (omega arith)
  parse_args-Fine (suc f) argc ret s h m g n =
      let q = skipped-le v s h in
      let tok = gettoken buf es (skipped buf es s) in
      elim (Bool-cases (peek buf es ends_args s)) [
        | inl p ↦ rw (p, parse_args) (q.0, q.1, g)
        | inr p ↦ elim (Bool-cases (tok.0 == 0)) [
          | inl z ↦
              let r = gettoken-le v (skipped buf es s) q.1 in
              rw (p, parse_args) (rw (z, parse_args) (omega (arith, q.0, r.0), r.1, g))
          | inr z ↦ elim (Bool-cases (tok.0 == word_token && ltb (argc + 1) maxargs)) [
            | inr w ↦ rw (p, parse_args) (rw (z, parse_args) (rw (w, parse_args) tt))
            | inl w ↦
                rw (p, parse_args)
                  (rw (z, parse_args)
                    (rw (w, parse_args)
                      (next (λ c t a b d e. parse_args-Fine f (argc + 1) c t a b d e) tok.0 tok.1
                        tok.2 w (λ t. gettoken-GoodWord v (skipped buf es s) q.1 t)
                        (λ t. gettoken_token t))))
          ]
        ]
      ]
    where
      gettoken_token :
          (gettoken buf es (skipped buf es s)).0 ≡ word_token
          → (s < (gettoken buf es (skipped buf es s)).2)
            × ((gettoken buf es (skipped buf es s)).2 ≤ es)
      gettoken_token t =
          let q = skipped-le v s h in
          let r =
            gettoken-lt v (skipped buf es s) q.1
              (gettoken-zero v (skipped buf es s) (λ e. cc (sym t ∙ e))) in
          (omega (arith, q.0, r.0), r.1)

      next :
          ((c : Cmd) (t : ℕ)
            → t ≤ es
            → es < t + f
            → GoodCmd buf es c
            → argc_of c ≤ argc + 1
            → Fine buf es t (parse_args buf es f (argc + 1) c t))
          → (tok : ℕ) (w : Word) (rest : ℕ) → tok == word_token && ltb (argc + 1) maxargs ≡ true
          → (tok ≡ word_token → GoodWord buf es w)
          → (tok ≡ word_token → (s < rest) × (rest ≤ es))
          → Fine buf es s (
              then_do
                (parseredirs buf es (es + 1) (add_arg w ret) rest)
                λ (more, t). parse_args buf es f (argc + 1) more t)
      next ih tok w rest b good on =
          let is_word : tok ≡ word_token = ground arith in
          let few : argc + 1 < maxargs = ground arith in
          let (k, l) = on is_word in
          let full = GoodCmd-add_arg w ret (good is_word) g (omega (arith, n, few)) in
          Fine-weaken v _ (omega (arith, k)) (
            FineArgs-then (argc_of (add_arg w ret)) rest
              (parseredirs buf es (es + 1) (add_arg w ret) rest)
              (λ (more, t). parse_args buf es f (argc + 1) more t)
              (parseredirs-FineArgs v (es + 1) (add_arg w ret) rest l (omega arith) full)
              (λ c t a e d i.
                Fine-weaken v _ a
                  (ih c t e (omega (arith, a, k)) d (omega (arith, i, n, argc_of-add_arg w ret)))))

  -- `parseexec` where no parenthesis stands.
  pub exec_args-Fine :
      (s : ℕ)
      → s ≤ es
      → Fine buf es s (
          then_do
            (parseredirs buf es (es + 1) (exec []) s)
            λ (ret, rest). parse_args buf es (es + 1) 0 ret rest)
  unfolding GoodCmd
  exec_args-Fine s h =
      FineArgs-then 0 s (parseredirs buf es (es + 1) (exec []) s)
        (λ (ret, rest). parse_args buf es (es + 1) 0 ret rest)
        (parseredirs-FineArgs v (es + 1) (exec []) s h (omega arith) (omega arith, tt))
        (λ cmd rest a b g n.
          Fine-weaken v _ a (parse_args-Fine (es + 1) 0 cmd rest b (omega arith) g n))

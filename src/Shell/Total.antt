-- ===== src/Shell/Total.antt =====
-- The parser ends on every line.
use os_lab.Base.{
  ℕ, zero, suc, ◌+◌, ◌-◌, ◌*◌, ◌≤◌, ◌<◌, ◌≡◌, refl, inl, inr, Bool, true, false, arith, ◌==◌,
  if◌then◌else◌, Bool-cases,
}
use os_lab.Shell.{skipped, peek}
use os_lab.Shell.Parse.{
  Cmd, pipe, list, back, Parsed, parsed, rejected, out_of_fuel, then_do, lparen, rparen, ampersand,
  semicolon, bar, after_token, parseredirs, parse_backs, parseline, parsepipe, parseexec,
  parseblock, parse_all,
}
use os_lab.Shell.Scan.{IsLine, skipped-le}
use os_lab.Shell.Redirs.{GoodCmd, Fine, Fine-then, Fine-weaken, peek-after, parseredirs-Fine}
use os_lab.Shell.Args.{exec_args-Fine}

module _ {buf : ℕ → ℕ} {es : ℕ} (v : IsLine buf es) where
  parse_backs-Fine :
      (f : ℕ) (cmd : Cmd) (s : ℕ)
      → s ≤ es
      → es < s + f
      → GoodCmd buf es cmd
      → Fine buf es s (parse_backs buf es f cmd s)
  unfolding parse_backs GoodCmd
  parse_backs-Fine zero cmd s h m g = absurd (omega arith)
  parse_backs-Fine (suc f) cmd s h m g = elim (Bool-cases (peek buf es (λ c. c == ampersand) s)) [
    | inr n ↦ let q = skipped-le v s h in rw (n, parse_backs) (q.0, q.1, g)
    | inl p ↦
        let t = peek-after v (λ c. c == ampersand) s h p in
        rw (p, parse_backs)
          (Fine-weaken v (parse_backs buf es f (back cmd) (after_token buf es s))
            (omega (arith, t.0))
            (parse_backs-Fine f (back cmd) (after_token buf es s) t.1 (omega (arith, t.0)) g))
  ]

  -- Each parser, by the fuel that it has.
  record Total (f : ℕ) : Type 0 where
    line : (s : ℕ) → s ≤ es → 4 * (es - s) + 4 ≤ f → Fine buf es s (parseline buf es f s)
    pipes : (s : ℕ) → s ≤ es → 4 * (es - s) + 3 ≤ f → Fine buf es s (parsepipe buf es f s)
    simple : (s : ℕ) → s ≤ es → 4 * (es - s) + 2 ≤ f → Fine buf es s (parseexec buf es f s)
    block : (s : ℕ) → s ≤ es → 4 * (es - s) + 1 ≤ f → Fine buf es s (parseblock buf es f s)

  module _ {f : ℕ} (below : Total f) where
    open below use {line, pipes, simple, block}

    line-Fine :
        (s : ℕ) → s ≤ es → 4 * (es - s) + 4 ≤ suc f → Fine buf es s (parseline buf es (suc f) s)
    unfolding parseline GoodCmd
    line-Fine s h m =
        Fine-then v (parsepipe buf es f s) _ (pipes s h (omega arith)) λ first at_back a b g.
          Fine-then v (parse_backs buf es (es + 1) first at_back) _
            (Fine-weaken v _ a (parse_backs-Fine (es + 1) first at_back b (omega arith) g))
            λ cmd t a b g. at_semicolon cmd t a b g (peek buf es (λ c. c == semicolon) t) refl
      where
        at_semicolon :
            (cmd : Cmd) (t : ℕ)
            → s ≤ t
            → t ≤ es
            → GoodCmd buf es cmd
            → (b : Bool) → peek buf es (λ c. c == semicolon) t ≡ b
            → Fine buf es s (elim b [
              | false ↦ parsed (cmd, skipped buf es t)
              | true ↦
                  then_do
                    (parseline buf es f (after_token buf es t))
                    λ (more, rest). parsed (list cmd more, rest)
            ])
        at_semicolon cmd t a b g false e = let q = skipped-le v t b in (omega (arith, q.0), q.1, g)
        at_semicolon cmd t a b g true e =
            let k = peek-after v (λ c. c == semicolon) t b e in
            Fine-then v (parseline buf es f (after_token buf es t)) _
              (Fine-weaken v _ (omega (arith, k.0))
                (line (after_token buf es t) k.1 (omega (arith, k.0))))
              λ more rest c d i. (c, d, (g, i))

    pipe-Fine :
        (s : ℕ) → s ≤ es → 4 * (es - s) + 3 ≤ suc f → Fine buf es s (parsepipe buf es (suc f) s)
    unfolding parseline GoodCmd
    pipe-Fine s h m =
        Fine-then v (parseexec buf es f s) _ (simple s h (omega arith))
          λ cmd t a b g. at_bar cmd t a b g (peek buf es (λ c. c == bar) t) refl
      where
        at_bar :
            (cmd : Cmd) (t : ℕ)
            → s ≤ t
            → t ≤ es
            → GoodCmd buf es cmd
            → (b : Bool) → peek buf es (λ c. c == bar) t ≡ b
            → Fine buf es s (elim b [
              | false ↦ parsed (cmd, skipped buf es t)
              | true ↦
                  then_do
                    (parsepipe buf es f (after_token buf es t))
                    λ (more, rest). parsed (pipe cmd more, rest)
            ])
        at_bar cmd t a b g false e = let q = skipped-le v t b in (omega (arith, q.0), q.1, g)
        at_bar cmd t a b g true e =
            let k = peek-after v (λ c. c == bar) t b e in
            Fine-then v (parsepipe buf es f (after_token buf es t)) _
              (Fine-weaken v _ (omega (arith, k.0))
                (pipes (after_token buf es t) k.1 (omega (arith, k.0))))
              λ more rest c d i. (c, d, (g, i))

    simple-Fine :
        (s : ℕ) → s ≤ es → 4 * (es - s) + 2 ≤ suc f → Fine buf es s (parseexec buf es (suc f) s)
    unfolding parseline GoodCmd
    simple-Fine s h m =
        let q = skipped-le v s h in
        elim (Bool-cases (peek buf es (λ c. c == lparen) s)) [
          | inl p ↦
              rw (p, parseexec)
                (Fine-weaken v _ q.0 (block (skipped buf es s) q.1 (omega (arith, q.0))))
          | inr p ↦
              rw (p, parseexec) (Fine-weaken v _ q.0 (exec_args-Fine v (skipped buf es s) q.1))
        ]

    block-Fine :
        (s : ℕ) → s ≤ es → 4 * (es - s) + 1 ≤ suc f → Fine buf es s (parseblock buf es (suc f) s)
    unfolding parseline GoodCmd
    block-Fine s h m = elim (Bool-cases (peek buf es (λ c. c == lparen) s)) [
      | inr p ↦ rw (p, parseblock) tt
      | inl p ↦
          let k = peek-after v (λ c. c == lparen) s h p in
          rw (p, parseblock)
            (Fine-then v (parseline buf es f (after_token buf es s)) _
              (Fine-weaken v _ (omega (arith, k.0))
                (line (after_token buf es s) k.1 (omega (arith, k.0))))
              λ cmd t a b g. at_end cmd t a b g (peek buf es (λ c. c == rparen) t) refl)
    ]
      where
        at_end :
            (cmd : Cmd) (t : ℕ)
            → s ≤ t
            → t ≤ es
            → GoodCmd buf es cmd
            → (b : Bool) → peek buf es (λ c. c == rparen) t ≡ b
            → Fine buf es s (elim b [
              | false ↦ rejected
              | true ↦ parseredirs buf es (es + 1) cmd (after_token buf es t)
            ])
        at_end cmd t a b g false e = tt
        at_end cmd t a b g true e =
            let k = peek-after v (λ c. c == rparen) t b e in
            Fine-weaken v _ (omega (arith, k.0))
              (parseredirs-Fine v cmd (after_token buf es t) k.1 g)

  total : (f : ℕ) → Total f
  total zero = record {
    line = λ s h m. absurd (omega arith);
    pipes = λ s h m. absurd (omega arith);
    simple = λ s h m. absurd (omega arith);
    block = λ s h m. absurd (omega arith);
  }
  total (suc f) =
      let below = total f in
      record {
        line = line-Fine below;
        pipes = pipe-Fine below;
        simple = simple-Fine below;
        block = block-Fine below;
      }

-- What the parser may answer for a whole line.
abbrev pub FineAll : (ℕ → ℕ) → ℕ → Parsed Cmd → Type 0
FineAll buf es (parsed cmd) = GoodCmd buf es cmd
FineAll buf es rejected = Unit
FineAll buf es out_of_fuel = ⊥

pub parse_all_ends : {buf : ℕ → ℕ} {es : ℕ} → IsLine buf es → FineAll buf es (parse_all buf es)
unfolding parse_all
parse_all_ends {buf} {es} v =
    go (parseline buf es (4 * es + 4) 0) ((total v (4 * es + 4)).line 0 (omega arith) (omega arith))
  where
    go :
        (r : Parsed (Cmd × ℕ))
        → Fine buf es 0 r
        → FineAll buf es
            (then_do r λ (cmd, s). if skipped buf es s == es then parsed cmd else rejected)
    go (parsed (cmd, s)) (a, b, g) = elim (Bool-cases (skipped buf es s == es)) [
      | inl y ↦ rw y g
      | inr n ↦ rw n tt
    ]
    go rejected f = tt
    go out_of_fuel f = f

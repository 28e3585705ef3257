-- ===== src/Sort/Passes.antt =====
-- Each pass brings the greatest of what is left to its end.
use os_lab.Base.{
  ℕ, zero, suc, ◌+◌, ◌-◌, ◌≤◌, ◌<◌, ◌≡◌, refl, sym, ◌∙◌, subst, ◌⊎◌, inl, inr, true, false, arith,
  ℕ_discrete, ◌==◌, if◌then◌else◌, Bool-cases, ℤ, pos, negsuc,
}
use os_lab.Sort.{exceeds, Arrays, swap, bubble_step, bubble_pass, bubble_rounds, bubble_sort}

abbrev AtMost : ℤ → ℤ → Type 0
AtMost a b = exceeds a b ≡ false

AtMost-trans : (a b c : ℤ) → AtMost a b → AtMost b c → AtMost a c
unfolding exceeds
AtMost-trans (pos a) (pos b) (pos c) h k = ground arith
AtMost-trans (pos a) (pos b) (negsuc c) h k = k
AtMost-trans (pos a) (negsuc b) c h k = cc
AtMost-trans (negsuc a) b (pos c) h k = refl
AtMost-trans (negsuc a) (pos b) (negsuc c) h k = cc
AtMost-trans (negsuc a) (negsuc b) (negsuc c) h k = ground arith

exceeds-AtMost : (a b : ℤ) → exceeds a b ≡ true → AtMost b a
unfolding exceeds
exceeds-AtMost (pos a) (pos b) h = ground arith
exceeds-AtMost (pos a) (negsuc b) h = refl
exceeds-AtMost (negsuc a) (pos b) h = cc
exceeds-AtMost (negsuc a) (negsuc b) h = ground arith

-- Where the element at `a` was before `j` and the next one changed places.
abbrev was_at : ℕ → ℕ → ℕ
was_at j a = if a == j then j + 1 else if a == j + 1 then j else a

swap_lem : {A : Type 0} (f : ℕ → A) (j a : ℕ) → swap f j (j + 1) a ≡ f (was_at j a)
unfolding swap
swap_lem f j a = ground arith

-- The part from `k` on is in order, with nothing before it that is greater.
abbrev Top : Arrays → ℕ → ℕ → Type 0
Top s k n = (a b : ℕ) → a < b → k ≤ b → b < n → AtMost (s.arr a) (s.arr b)

abbrev Max : Arrays → ℕ → Type 0
Max s j = (a : ℕ) → a < j → AtMost (s.arr a) (s.arr j)

-- The elements are those of `nums`, each in one place, with its index beside it.
pub record Tracks (nums : ℕ → ℤ) (n : ℕ) (s : Arrays) : Type 0 where
  pub inside : (a : ℕ) → a < n → s.indices a < n
  pub of : (a : ℕ) → a < n → s.arr a ≡ nums (s.indices a)
  pub once : (a b : ℕ) → a < n → b < n → s.indices a ≡ s.indices b → a ≡ b
  pub beyond : (a : ℕ) → n ≤ a → s.arr a ≡ nums a

module _ (s : Arrays) (j : ℕ) where
  step_cases :
      ((exceeds (s.arr j) (s.arr (j + 1)) ≡ true)
        × ((a : ℕ) → (bubble_step s j).arr a ≡ s.arr (was_at j a))
        × ((a : ℕ) → (bubble_step s j).indices a ≡ s.indices (was_at j a)))
      ⊎ (AtMost (s.arr j) (s.arr (j + 1)) × (bubble_step s j ≡ s))
  unfolding bubble_step
  step_cases = elim (Bool-cases (exceeds (s.arr j) (s.arr (j + 1)))) [
    | inl y ↦ inl (y, (λ a. rw y (swap_lem s.arr j a)), (λ a. rw y (swap_lem s.indices j a)))
    | inr n ↦ inr (n, rw n refl)
  ]

  step-Top : (k n : ℕ) → j + 1 < k → Top s k n → Top (bubble_step s j) k n
  step-Top k n h t = elim step_cases [
    | inl (y, e, f) ↦ λ a b l m o.
        let same : was_at j b ≡ b = ground arith in
        rw (e a, e b, same) (t (was_at j a) b (ground arith) m o)
    | inr (y, e) ↦ subst (λ r. Top r k n) (sym e) t
  ]

  step-Max : Max s j → Max (bubble_step s j) (j + 1)
  step-Max m = elim step_cases [
    | inl (y, e, f) ↦ λ a l.
        let last : was_at j (j + 1) ≡ j = ground arith in
        elim (ℕ_discrete a j) [
          | yes q ↦
              let first : was_at j a ≡ j + 1 = ground arith in
              rw (e a, e (j + 1), last, first) (exceeds-AtMost (s.arr j) (s.arr (j + 1)) y)
          | no q ↦
              let same : was_at j a ≡ a = ground arith in
              rw (e a, e (j + 1), last, same) (m a (omega arith))
        ]
    | inr (y, e) ↦
        subst (λ r. Max r (j + 1)) (sym e)
          (λ a l. elim (ℕ_discrete a j) [
            | yes q ↦ rw q y
            | no q ↦ AtMost-trans (s.arr a) (s.arr j) (s.arr (j + 1)) (m a (omega arith)) y
          ])
  ]

  step-Tracks :
      (nums : ℕ → ℤ) (n : ℕ) → j + 1 < n → Tracks nums n s → Tracks nums n (bubble_step s j)
  step-Tracks nums n h t = elim step_cases [
    | inl (y, e, f) ↦ record {
      inside = λ a l. rw (f a) (t.inside (was_at j a) (ground arith));
      of = λ a l. rw (e a, f a) (t.of (was_at j a) (ground arith));
      once = λ a b l m q.
          let same =
            t.once (was_at j a) (was_at j b) (ground arith) (ground arith) (sym (f a) ∙ q ∙ f b) in
          ground (arith, same);
      beyond = λ a l. let same : was_at j a ≡ a = ground arith in rw (e a, same) (t.beyond a l);
    }
    | inr (y, e) ↦ subst (Tracks nums n) (sym e) t
  ]

pass_lem :
    (nums : ℕ → ℤ) (n k left : ℕ) (s : Arrays) (j : ℕ)
    → j + left + 1 ≡ k
    → k ≤ n
    → Top s k n
    → Max s j
    → Tracks nums n s
    → Top (bubble_pass left s j) k n
      × Max (bubble_pass left s j) (j + left)
      × Tracks nums n (bubble_pass left s j)
unfolding bubble_pass
pass_lem nums n k zero s j h l t m r = (t, subst (Max s) (omega arith) m, r)
pass_lem nums n k (suc left) s j h l t m r =
    let (a, b, c) =
      pass_lem nums n k left (bubble_step s j) (j + 1) (omega arith) l
        (step-Top s j k n (omega arith) t) (step-Max s j m)
        (step-Tracks s j nums n (omega arith) r) in
    (a, subst (Max (bubble_pass left (bubble_step s j) (j + 1))) (omega arith) b, c)

rounds_lem :
    (nums : ℕ → ℤ) (n left : ℕ) (s : Arrays) (i : ℕ)
    → i + left + 1 ≡ n
    → Top s (n - i) n
    → Tracks nums n s
    → Top (bubble_rounds left s n i) 1 n × Tracks nums n (bubble_rounds left s n i)
unfolding bubble_rounds
rounds_lem nums n zero s i h t r = (subst (λ k. Top s k n) (omega arith) t, r)
rounds_lem nums n (suc left) s i h t r =
    let (a, b, c) =
      pass_lem nums n (n - i) (n - i - 1) s 0 (omega arith) (omega arith) t
        (λ a l. absurd (omega arith)) r in
    rounds_lem nums n left (bubble_pass (n - i - 1) s 0) (i + 1) (omega arith)
      (λ x y l m o. elim (ℕ_discrete y (n - i - 1)) [
        | yes q ↦ rw q (subst (Max (bubble_pass (n - i - 1) s 0)) (omega arith) b x (omega arith))
        | no q ↦ a x y l (omega arith) o
      ])
      c

-- For `n` numbers whose indices count up from 0, bubble_sort leaves no element before a smaller one.
-- The elements are the numbers that were given, each of them once and with its index beside it, and
-- what is behind the `n` numbers is not touched.
pub bubble_sort_lem :
    (nums : ℕ → ℤ) (n : ℕ)
    → let r = bubble_sort (record { arr = nums; indices = λ i. i }) n in
      ((a b : ℕ) → a < b → b < n → exceeds (r.arr a) (r.arr b) ≡ false) × Tracks nums n r
unfolding bubble_sort bubble_rounds
bubble_sort_lem nums zero = (
  λ a b l m. absurd (omega arith),
  record { inside = λ a l. l; of = λ a l. refl; once = λ a b l m q. q; beyond = λ a l. refl },
)
bubble_sort_lem nums (suc n) =
    let given : Arrays = record { arr = nums; indices = λ i. i } in
    let back : n ≡ suc n - 1 = omega arith in
    let (a, b) =
      subst
        (λ k.
          Top (bubble_rounds k given (suc n) 0) 1 (suc n)
          × Tracks nums (suc n) (bubble_rounds k given (suc n) 0))
        back
        (rounds_lem nums (suc n) n given 0 (omega arith) (λ x y l m o. absurd (omega arith))
          (record {
            inside = λ a l. l;
            of = λ a l. refl;
            once = λ a b l m q. q;
            beyond = λ a l. refl;
          })) in
    (λ x y l m. a x y l (omega arith) m, b)

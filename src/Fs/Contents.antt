-- ===== src/Fs/Contents.antt =====
-- Stretches of bytes, taken out and put in.
use os_lab.Base.{
  ℕ, zero, suc, ◌+◌, ◌≤◌, ◌<◌, ◌≡◌, refl, ap, ap₂, ◌∙◌, subst, ◌⊎◌, List, [], ◌∷◌, ◌++◌, arith,
  ◌==◌, length, update_self, update_ne, update,
}
use os_lab.Fs.{slice, put}

pub slice-shift :
    (f g : ℕ → ℕ) (o p n : ℕ)
    → ((j : ℕ) → j < n → f (o + j) ≡ g (p + j))
    → slice f o n ≡ slice g p n
unfolding slice
slice-shift f g o p zero h = refl
slice-shift f g o p (suc n) h =
    ap₂ ◌∷◌
      (subst (λ k. f k ≡ g (p + 0)) (omega arith)
          (subst (λ k. f (o + 0) ≡ g k) refl (h 0 (omega arith)))
        ∙ ap g (omega arith))
      (slice-shift f g (o + 1) (p + 1) n
        λ j l. ap f (omega arith) ∙ h (j + 1) (omega arith) ∙ ap g (omega arith))

pub slice-append : (f : ℕ → ℕ) (o m n : ℕ) → slice f o m ++ slice f (o + m) n ≡ slice f o (m + n)
unfolding slice
slice-append f o zero n =
    let a : o + 0 ≡ o = omega arith in let b : 0 + n ≡ n = omega arith in rw (a, b) refl
slice-append f o (suc m) n =
    let a : o + suc m ≡ o + 1 + m = omega arith in
    let b : suc m + n ≡ suc (m + n) = omega arith in
    rw (a, b) (ap (λ l. f o ∷ l) (slice-append f (o + 1) m n))

pub put-shift :
    (f g : ℕ → ℕ) (o p : ℕ) (xs : List ℕ) (k l : ℕ)
    → o + l ≡ p + k
    → f k ≡ g l
    → put f o xs k ≡ put g p xs l
unfolding put
put-shift f g o p [] k l e h = h
put-shift f g o p (x ∷ xs) k l e h =
    put-shift (update f o x) (update g p x) (o + 1) (p + 1) xs k l (omega arith)
      (let same : (o == k) ≡ (p == l) = ground arith in ground arith)

pub put-outside :
    (f : ℕ → ℕ) (o : ℕ) (xs : List ℕ) (k : ℕ) → (k < o) ⊎ (o + length xs ≤ k) → put f o xs k ≡ f k
unfolding put
put-outside f o [] k h = refl
put-outside f o (x ∷ xs) k h =
    put-outside (update f o x) (o + 1) xs k (omega arith) ∙ update_ne f o x k (omega arith)

pub put-append :
    (f : ℕ → ℕ) (o : ℕ) (xs ys : List ℕ) → put f o (xs ++ ys) ≡ put (put f o xs) (o + length xs) ys
unfolding put
put-append f o [] ys = ap (λ k. put f k ys) (omega arith)
put-append f o (x ∷ xs) ys =
    put-append (update f o x) (o + 1) xs ys
    ∙ ap (λ k. put (put (update f o x) (o + 1) xs) k ys) (omega arith)

-- What has been put in is taken out.
pub slice-put : (f : ℕ → ℕ) (o : ℕ) (xs : List ℕ) → slice (put f o xs) o (length xs) ≡ xs
unfolding slice put
slice-put f o [] = refl
slice-put f o (x ∷ xs) =
    ap₂ ◌∷◌ (put-outside (update f o x) (o + 1) xs o (omega arith) ∙ update_self f o x)
      (slice-put (update f o x) (o + 1) xs)

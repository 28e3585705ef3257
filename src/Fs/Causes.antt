-- ===== src/Fs/Causes.antt =====
-- Why log_write is called with a block.
use os_lab.Base.{
  times, ℕ, ◌≤◌, ◌<◌, ◌≡◌, refl, sym, ◌∙◌, subst, ◌≢◌, List, ◌∷◌, arith, ℕ_discrete, ne→==,
}
use os_lab.Fs.{Fs, Inode, ndirect, bblock}
use os_lab.Fs.Mapping.{ptr, Keeps, grown}

-- The block was logged before; it is the file's at an index from `lo` up to `hi`, or its indirect
-- block; or it is one of the free map.
pub data Cause (size lo hi : ℕ) (fs new : Fs) (jp : Inode) (b : ℕ) : Type 0 where
  before : 0 < times b fs.marked → Cause size lo hi fs new jp b
  of_file : (c : ℕ) → lo ≤ c → c < hi → ptr new jp c ≡ b → b ≢ 0 → Cause size lo hi fs new jp b
  of_words : jp.addrs ndirect ≡ b → b ≢ 0 → Cause size lo hi fs new jp b
  of_map : (d : ℕ) → d < size → bblock fs d ≡ b → Cause size lo hi fs new jp b

pub record Causes (size lo hi : ℕ) (fs : Fs) (ip : Inode) (new : Fs) (jp : Inode) : Type 0 where
  pub cause : (b : ℕ) → 0 < times b new.marked → Cause size lo hi fs new jp b
  pub same_map : new.bmapstart ≡ fs.bmapstart
  pub same_words : ip.addrs ndirect ≢ 0 → jp.addrs ndirect ≡ ip.addrs ndirect

pub Causes-refl : (size lo hi : ℕ) (fs : Fs) (ip : Inode) → Causes size lo hi fs ip fs ip
Causes-refl size lo hi fs ip = record {
  cause = λ b t. before t;
  same_map = refl;
  same_words = λ h. refl;
}

-- The list of marks with one more.
pub times-cons : (a b : ℕ) (bs : List ℕ) → a ≢ b → 0 < times b (a ∷ bs) → 0 < times b bs
unfolding times
times-cons a b bs n t = omega (arith, rw (ne→== a b n) at t)

module _ {size n : ℕ} (lo hi : ℕ) {l1 h1 l2 h2 : ℕ} {fs new last : Fs} {ip jp kp : Inode}
    (low : lo ≤ l1) (high : h1 ≤ hi) (low2 : lo ≤ l2) (high2 : h2 ≤ hi)
    (k : Keeps size n new jp last kp) (p : Causes size l1 h1 fs ip new jp)
    (q : Causes size l2 h2 new jp last kp) where
  earlier : (b : ℕ) → Cause size l1 h1 fs new jp b → Cause size lo hi fs last kp b
  earlier b (before t) = before t
  earlier b (of_file c i j e z) =
      of_file c (omega arith) (omega arith) (k.still c (λ y. z (sym e ∙ y)) ∙ e) z
  earlier b (of_words e z) = of_words (q.same_words (λ y. z (sym e ∙ y)) ∙ e) z
  earlier b (of_map d l e) = of_map d l e

  later : (b : ℕ) → Cause size l2 h2 new last kp b → Cause size lo hi fs last kp b
  later b (before t) = earlier b (p.cause b t)
  later b (of_file c i j e z) = of_file c (omega arith) (omega arith) e z
  later b (of_words e z) = of_words e z
  later b (of_map d l e) = of_map d l (rw (sym p.same_map) e)

  pub Causes-trans : Causes size lo hi fs ip last kp
  Causes-trans = record {
    cause = λ b t. later b (q.cause b t);
    same_map = q.same_map ∙ p.same_map;
    same_words = λ h. let e = p.same_words h in q.same_words (λ z. h (sym e ∙ z)) ∙ e;
  }

-- What balloc marks, for a block that is the file's now at the index `i`.
pub grown-Causes :
    (size lo hi : ℕ) (fs : Fs) (ip jp : Inode) (a : ℕ)
    → a < size
    → Cause size lo hi fs (grown fs a) jp a
    → (ip.addrs ndirect ≢ 0 → jp.addrs ndirect ≡ ip.addrs ndirect)
    → Causes size lo hi fs ip (grown fs a) jp
grown-Causes size lo hi fs ip jp a l r h = record {
  cause = λ b t. elim (ℕ_discrete a b) [
    | yes q ↦ subst (Cause size lo hi fs (grown fs a) jp) q r
    | no n ↦ elim (ℕ_discrete (bblock fs a) b) [
      | yes q ↦ of_map a l q
      | no m ↦
          before
            (times-cons (bblock fs a) b fs.marked m (times-cons a b (bblock fs a ∷ fs.marked) n t))
    ]
  ];
  same_map = refl;
  same_words = h;
}

-- ===== src/Kalloc/Pages.antt =====
-- Pages that are handed out, written by their owners, and given back, in any order.
use os_lab.Base.{
  ℕ, ◌%◌, ◌≡◌, refl, sym, ap, ◌∙◌, ◌≢◌, inl, inr, Bool, true, false, not, ◌||◌, List, [], ◌∷◌, ltb,
  leb, ◌==◌, ne→==, Bool-cases, ok, All, ok-injective, update_self, update_ne, update,
}
use os_lab.Kalloc.{v2p, Kmem, kfree, kalloc, pgsize, phystop}

-- The free list from `f` on, with no page twice.
unfoldable pub Chain : (ℕ → ℕ) → ℕ → List ℕ → Type 0
Chain next f [] = f ≡ 0
Chain next f (p ∷ ps) = (f ≡ p) × (p ≢ 0) × All (λ q. q ≢ p) ps × Chain next (next p) ps

-- The allocator, and whether a page is in somebody's hands.
pub record System : Type 0 where
  pub kmem : Kmem
  pub owned : ℕ → Bool

-- At first the kernel owns all pages and gives the free ones back.
abbrev pub start : (ℕ → ℕ) → System
start next = record { kmem = record { freelist = 0; next = next }; owned = λ _. true }

pub data Step (kernel_end : ℕ) (s : System) : System → Type 0 where
  allocs :
      (kalloc s.kmem).1 ≢ 0
      → Step kernel_end s
          (record { kmem = (kalloc s.kmem).0; owned = update s.owned (kalloc s.kmem).1 true })
  frees :
      (p : ℕ) {k : Kmem}
      → p ≢ 0
      → s.owned p ≡ true
      → kfree kernel_end s.kmem p ≡ ok k
      → Step kernel_end s (record { kmem = k; owned = update s.owned p false })
  writes :
      (p x : ℕ)
      → s.owned p ≡ true
      → Step kernel_end s
          (record s { kmem = record { freelist = s.kmem.freelist; next = update s.kmem.next p x } })

pub data Reach (kernel_end : ℕ) (next : ℕ → ℕ) : System → Type 0 where
  boot : Reach kernel_end next (start next)
  and_then :
      {s u : System} → Reach kernel_end next s → Step kernel_end s u → Reach kernel_end next u

-- The pages in the list are nobody's.
abbrev pub Inv : System → Type 0
Inv s =
    (pages : List ℕ) × Chain s.kmem.next s.kmem.freelist pages × All (λ q. s.owned q ≡ false) pages

Chain-update :
    (next : ℕ → ℕ) (f p x : ℕ) (ps : List ℕ)
    → All (λ q. q ≢ p) ps
    → Chain next f ps
    → Chain (update next p x) f ps
unfolding Chain
Chain-update next f p x [] a c = c
Chain-update next f p x (q ∷ ps) (n, a) (e, z, d, c) =
    (e, z, d, rw (update_ne next p x q (λ m. n (sym m))) (Chain-update next (next q) p x ps a c))

-- A page that is owned is not among those that are not.
apart :
    (owned : ℕ → Bool) (p : ℕ) (ps : List ℕ)
    → owned p ≡ true
    → All (λ q. owned q ≡ false) ps
    → All (λ q. q ≢ p) ps
apart owned p [] o a = tt
apart owned p (q ∷ ps) o (n, a) = (λ e. cc (sym n ∙ ap owned e ∙ o), apart owned p ps o a)

All-update :
    (owned : ℕ → Bool) (p : ℕ) (b : Bool) (ps : List ℕ)
    → All (λ q. q ≢ p) ps
    → All (λ q. owned q ≡ false) ps
    → All (λ q. update owned p b q ≡ false) ps
All-update owned p b [] d a = tt
All-update owned p b (q ∷ ps) (n, d) (f, a) =
    (update_ne owned p b q (λ m. n (sym m)) ∙ f, All-update owned p b ps d a)

kfree-ok :
    (kernel_end p : ℕ) (k : Kmem) {u : Kmem}
    → kfree kernel_end k p ≡ ok u
    → u ≡ record { freelist = p; next = update k.next p k.freelist }
unfolding kfree
kfree-ok kernel_end p k e =
    elim (Bool-cases (not (p % pgsize == 0) || ltb p kernel_end || leb phystop (v2p p))) [
      | inl y ↦ absurd (cc (rw y at e))
      | inr n ↦ sym (ok-injective ((rw n at e)))
    ]

Step-Inv : {kernel_end : ℕ} {s u : System} → Step kernel_end s u → Inv s → Inv u
unfolding kalloc Chain
Step-Inv {s = s} (allocs n) ([], c, a) = absurd (n (rw (c, kalloc) refl))
Step-Inv {s = s} (allocs n) (p ∷ ps, (e, z, d, c), (o, a)) =
    rw (e, ne→== p 0 z, kalloc) (ps, c, All-update s.owned p true ps d a)
Step-Inv {s = s} (frees p z o e) (ps, c, a) =
    let d = apart s.owned p ps o a in
    rw (kfree-ok _ p s.kmem e) (
      p ∷ ps,
      (
        refl,
        z,
        d,
        rw (update_self s.kmem.next p s.kmem.freelist)
            (Chain-update s.kmem.next s.kmem.freelist p s.kmem.freelist ps d c),
      ),
      (update_self s.owned p false, All-update s.owned p false ps d a),
    )
Step-Inv {s = s} (writes p x o) (ps, c, a) =
    (ps, Chain-update s.kmem.next s.kmem.freelist p x ps (apart s.owned p ps o a) c, a)

Reach-Inv : {kernel_end : ℕ} {next : ℕ → ℕ} {s : System} → Reach kernel_end next s → Inv s
unfolding Chain
Reach-Inv boot = ([], refl, tt)
Reach-Inv (and_then r t) = Step-Inv t (Reach-Inv r)

-- In every state that allocations, frees of owned pages and writes to owned pages reach, the free
-- list runs through pages that nobody owns, none of them twice, and a page that kalloc returns is
-- nobody's: no page is handed out to two owners.
pub pages_once :
    {kernel_end : ℕ} {next : ℕ → ℕ} {s : System}
    → Reach kernel_end next s
    → ((pages : List ℕ) × Chain s.kmem.next s.kmem.freelist pages
        × All (λ q. s.owned q ≡ false) pages)
      × ((kalloc s.kmem).1 ≢ 0 → s.owned (kalloc s.kmem).1 ≡ false)
unfolding kalloc Chain
pages_once {s = s} r = (Reach-Inv r, fresh (Reach-Inv r))
  where
    fresh : Inv s → (kalloc s.kmem).1 ≢ 0 → s.owned (kalloc s.kmem).1 ≡ false
    fresh ([], c, a) n = absurd (n (rw (c, kalloc) refl))
    fresh (p ∷ ps, (e, z, d, c), (o, a)) n = rw (e, ne→== p 0 z, kalloc) o

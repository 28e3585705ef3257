-- ===== src/Pipe/Window.antt =====
-- The bytes that a pipe holds, oldest first, and its representation invariant.
use os_lab.Base.{
  ℕ, zero, suc, ◌+◌, ◌-◌, ◌%◌, ◌^◌, ◌≤◌, ◌<◌, ◌≡◌, refl, ap, ap₂, List, [], ◌∷◌, ◌++◌, arith,
  length, get_or, set, get_or-set_self, get_or-set_ne,
}
use os_lab.Pipe.{Pipe, pipesize}

-- The `n` bytes of the ring from counter `h` on.
abbrev pub window : List ℕ → ℕ → ℕ → List ℕ
window buf h zero = []
window buf h (suc n) = get_or buf (h % pipesize) 0 ∷ window buf (h + 1) n

-- How many bytes are written and not yet read; the counters wrap.
abbrev pub held : Pipe → ℕ
held p = (p.nwrite + 2 ^ 32 - p.nread) % 2 ^ 32

abbrev pub contents : Pipe → List ℕ
contents p = window p.buf p.nread (held p)

pub record IsValid (p : Pipe) : Type 0 where
  pub room : length p.buf ≡ pipesize
  pub read_fits : p.nread < 2 ^ 32
  pub write_fits : p.nwrite < 2 ^ 32
  pub bounded : held p ≤ pipesize

pub length-window : (buf : List ℕ) (h n : ℕ) → length (window buf h n) ≡ n
length-window buf h zero = refl
length-window buf h (suc n) = ap suc (length-window buf (h + 1) n)

-- Only the position in the ring counts, so a counter may wrap.
pub window-congr :
    (buf : List ℕ) (h k n : ℕ) → h % pipesize ≡ k % pipesize → window buf h n ≡ window buf k n
window-congr buf h k zero e = refl
window-congr buf h k (suc n) e =
    ap₂ ◌∷◌ (ap (λ i. get_or buf i 0) e) (window-congr buf (h + 1) (k + 1) n (omega arith))

-- A byte stored just past a window of fewer than 512 bytes extends it.
pub window-set :
    (buf : List ℕ) (h n i x : ℕ)
    → length buf ≡ pipesize
    → n < pipesize
    → i ≡ (h + n) % pipesize
    → window (set buf i x) h (suc n) ≡ window buf h n ++ (x ∷ [])
window-set buf h zero i x l lt e =
    ground
      (arith, get_or-set_self buf i x 0 (omega arith), (let q : i ≡ h % 512 = omega arith in q))
window-set buf h (suc n) i x l lt e =
    ap₂ ◌∷◌ (get_or-set_ne buf x 0 (omega arith))
      (window-set buf (h + 1) n i x l (omega arith) (omega arith))

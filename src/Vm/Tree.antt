-- ===== src/Vm/Tree.antt =====
-- A page directory with its tables, and the list of free pages beside it.
use os_lab.Base.{
  ℕ, ◌+◌, ◌*◌, ◌%◌, ◌^◌, ◌≤◌, ◌<◌, ◌≡◌, refl, sym, ap, ◌∙◌, subst, ◌≢◌, true, false, ◌&&◌, List, [],
  ◌∷◌, arith, ℕ_discrete, ◌==◌, if◌then◌else◌, eq→==, ne→==, All, update_self, update_ne,
}
use os_lab.KString.{store_word}
use os_lab.Syscall.{word}
use os_lab.Fs.Blocks.{word-store_word}
use os_lab.Kalloc.{kalloc, v2p, pgsize, phystop}
use os_lab.Kalloc.Pages.{Chain}
use os_lab.Vm.{Vm, pdx, ptx, is_present, page_of, entry, set_entry, alloc_page}

-- A page that kfree takes.
abbrev pub IsPage : ℕ → ℕ → Type 0
IsPage kernel_end p =
    (p % pgsize ≡ 0) × (kernel_end ≤ p) × (2 ^ 31 < kernel_end) × (p < 2 ^ 31 + phystop)

abbrev pub NotIn : ℕ → List ℕ → Type 0
NotIn p fl = All (λ q. q ≢ p) fl

abbrev pub first : Vm → ℕ → ℕ
first s p = word (s.pages p) 0

abbrev pub table : Vm → ℕ → ℕ → ℕ
table s d i = page_of (entry s d i)

-- The tables are pages of their own, and no free page is among them.
pub record Tree (kernel_end : ℕ) (s : Vm) (d : ℕ) (fl : List ℕ) : Type 0 where
  pub linked : Chain (first s) s.freelist fl
  pub good : All (IsPage kernel_end) fl
  pub dir : NotIn d fl
  pub away :
      (i : ℕ)
      → i < 1024
      → is_present (entry s d i) ≡ true
      → NotIn (table s d i) fl × (table s d i ≢ d)
  pub apart :
      (i j : ℕ)
      → i < 1024
      → j < 1024
      → is_present (entry s d i) ≡ true
      → is_present (entry s d j) ≡ true
      → table s d i ≡ table s d j
      → i ≡ j

-- The entry for an address, or 0 where there is no table.
unfoldable pub pte : Vm → ℕ → ℕ → ℕ
pte s d va = if is_present (entry s d (pdx va)) then entry s (table s d (pdx va)) (ptx va) else 0

pub pte-there :
    (s : Vm) (d va : ℕ)
    → is_present (entry s d (pdx va)) ≡ true
    → pte s d va ≡ entry s (table s d (pdx va)) (ptx va)
unfolding pte
pte-there s d va y = rw y refl

pub pte-missing : (s : Vm) (d va : ℕ) → is_present (entry s d (pdx va)) ≡ false → pte s d va ≡ 0
unfolding pte
pte-missing s d va n = rw n refl

pub page_of-v2p : (kernel_end p f : ℕ) → IsPage kernel_end p → f < 4096 → page_of (v2p p + f) ≡ p
page_of-v2p kernel_end p f (a, b, c, e) h = omega arith

pub Chain-next :
    (next other : ℕ → ℕ) (f : ℕ) (fl : List ℕ)
    → All (λ p. other p ≡ next p) fl
    → Chain next f fl
    → Chain other f fl
unfolding Chain
Chain-next next other f [] same c = c
Chain-next next other f (p ∷ ps) (e, same) (h, z, d, c) =
    (h, z, d, Chain-next next other (other p) ps same (rw e c))

pub alloc_page-nil : (s : Vm) → Chain (first s) s.freelist [] → alloc_page s ≡ (s, 0)
unfolding alloc_page kalloc Chain
alloc_page-nil s c = rw (eq→== s.freelist 0 c) refl

-- What alloc_page takes is the first page of the list.
pub alloc_page-cons :
    (s : Vm) (p : ℕ) (rest : List ℕ)
    → Chain (first s) s.freelist (p ∷ rest)
    → (alloc_page s ≡ (record s { freelist = first s p }, p))
      × (p ≢ 0)
      × NotIn p rest
      × Chain (first s) (first s p) rest
unfolding alloc_page kalloc Chain
alloc_page-cons s p rest (e, z, d, c) = (
  rw (ne→== s.freelist 0 (λ y. z (sym e ∙ y))) (ap (λ q. (record s { freelist = first s q }, q)) e),
  z,
  d,
  c,
)

pub entry-set_entry :
    (s : Vm) (p i w q j : ℕ)
    → w < 2 ^ 32
    → entry (set_entry s p i w) q j ≡ (if (p == q) && (i == j) then w else entry s q j)
unfolding set_entry
entry-set_entry s p i w q j h = elim (ℕ_discrete p q) [
  | yes e ↦
      subst (λ q. entry (set_entry s p i w) q j ≡ (if (p == q) && (i == j) then w else entry s q j))
        e
        (rw (update_self s.pages p (store_word (4 * i) w (s.pages p)), eq→== p p refl)
          (word-store_word (s.pages p) i w j h))
  | no e ↦ rw (update_ne s.pages p (store_word (4 * i) w (s.pages p)) q e, ne→== p q e) refl
]

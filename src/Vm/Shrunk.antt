-- ===== src/Vm/Shrunk.antt =====
-- What deallocuvm's loop leaves.
use os_lab.Base.{
  ℕ, ◌*◌, ◌/◌, ◌%◌, ◌^◌, ◌≤◌, ◌<◌, ◌≡◌, refl, ap, ◌∙◌, ◌≢◌, ◌⊎◌, inl, inr, true, false, List, arith,
  dec_lt, ok,
}
use os_lab.Vm.{Vm, is_present, page_of}
use os_lab.Vm.Space.{unmap_pages}
use os_lab.Vm.Tree.{Tree, pte}
use os_lab.Vm.Entries.{Outside}
use os_lab.Vm.Fresh.{Users}

-- What unmap_pages leaves when it goes from `a` to `limit`.
pub record Shrunk (kernel_end : ℕ) (s : Vm) (d : ℕ) (fl : List ℕ) (a limit : ℕ) (new : Vm)
    : Type 0 where
  pub left : List ℕ
  pub tree : Tree kernel_end new d left
  pub users : Users kernel_end new d left
  pub gone : (x : ℕ) → a ≤ x → x / 4096 * 4096 < limit → is_present (pte new d x) ≡ false
  pub others : (x : ℕ) → x < 2 ^ 32 → (x < a) ⊎ (limit ≤ x / 4096 * 4096) → pte new d x ≡ pte s d x
  pub stays :
      (q : ℕ)
      → Outside s d fl q
      → ((x : ℕ)
          → a ≤ x
          → x / 4096 * 4096 < limit
          → is_present (pte s d x) ≡ true
          → page_of (pte s d x) ≢ q)
      → Outside new d left q × (new.pages q ≡ s.pages q)

abbrev pub ShrinksTo : ℕ → ℕ → Vm → ℕ → List ℕ → ℕ → ℕ → Type 0
ShrinksTo kernel_end n s d fl a limit =
    (new : Vm) × (unmap_pages kernel_end n s d a limit ≡ ok new)
    × Shrunk kernel_end s d fl a limit new

pub nothing_left :
    (kernel_end : ℕ) (s : Vm) (d : ℕ) (fl : List ℕ) (a limit : ℕ)
    → Tree kernel_end s d fl
    → Users kernel_end s d fl
    → a % 4096 ≡ 0
    → limit ≤ a
    → Shrunk kernel_end s d fl a limit s
nothing_left kernel_end s d fl a limit t u m h = record {
  left = fl;
  tree = t;
  users = u;
  gone = λ x l k. absurd (omega arith);
  others = λ x l k. refl;
  stays = λ q o n. (o, refl);
}

-- What is not mapped may be passed over.
pub passed_over :
    (kernel_end : ℕ) (s : Vm) (d : ℕ) (fl : List ℕ) (a next limit : ℕ) (new : Vm)
    → a ≤ next
    → limit ≤ 2 ^ 31
    → ((x : ℕ) → a ≤ x → x < next → x / 4096 * 4096 < limit → is_present (pte s d x) ≡ false)
    → Shrunk kernel_end s d fl next limit new
    → Shrunk kernel_end s d fl a limit new
passed_over kernel_end s d fl a next limit new h b empty r = record {
  left = r.left;
  tree = r.tree;
  users = r.users;
  gone = λ x l k. elim (dec_lt x next) [
    | yes m ↦ ap is_present (r.others x (omega arith) (inl m)) ∙ empty x l m k
    | no m ↦ r.gone x (omega arith) k
  ];
  others = λ x l k. r.others x l (elim k [ inl m ↦ inl (omega arith) | inr m ↦ inr m ]);
  stays = λ q o n. r.stays q o (λ x l k y. n x (omega arith) k y);
}

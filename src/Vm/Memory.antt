-- ===== src/Vm/Memory.antt =====
-- The memory of a process as its user sees it, and what a change of its size does to it.
use os_lab.Base.{
  ℕ, ◌*◌, ◌/◌, ◌%◌, ◌^◌, ◌≤◌, ◌<◌, ◌≡◌, refl, sym, ap, ◌∙◌, inl, inr, true, false, Option, none,
  some, List, arith, dec_lt, ltb, if◌then◌else◌, lt→ltb, Bool-cases,
}
use os_lab.Vm.{Vm, is_present, page_of, pground_up}
use os_lab.Vm.Tree.{Tree, pte}
use os_lab.Vm.Entries.{Outside}
use os_lab.Vm.Stretch.{in_pages-yes, in_pages-below, in_pages-above}
use os_lab.Vm.Fresh.{Users}
use os_lab.Vm.Added.{FreshAt}
use os_lab.Vm.Shrunk.{Shrunk}
use os_lab.Vm.Grown.{Grown}
use os_lab.Vm.Undone.{Undone, rounds}

-- The byte at an address, where there is one.
abbrev pub user_memory : Vm → ℕ → ℕ → Option ℕ
user_memory s d x =
    if is_present (pte s d x) then some (s.pages (page_of (pte s d x)) (x % 4096)) else none

-- Memory `m` of the size `sz` cut or filled up with zeros to the size `size`, in whole pages.
abbrev pub resized : (ℕ → Option ℕ) → ℕ → ℕ → ℕ → Option ℕ
resized m sz size x =
    if ltb x (pground_up size) then (if ltb x (pground_up sz) then m x else some 0) else none

-- The pages of a process of the size `sz` are mapped, no others, and each is its own.
pub record Image (kernel_end : ℕ) (s : Vm) (d : ℕ) (fl : List ℕ) (sz : ℕ) : Type 0 where
  pub tree : Tree kernel_end s d fl
  pub users : Users kernel_end s d fl
  pub mapped : (x : ℕ) → x < 2 ^ 31 → is_present (pte s d x) ≡ ltb x (pground_up sz)

pub ltb-no : (a b : ℕ) → b ≤ a → ltb a b ≡ false
ltb-no a b h = ground arith

there :
    (s : Vm) (d x : ℕ)
    → is_present (pte s d x) ≡ true
    → user_memory s d x ≡ some (s.pages (page_of (pte s d x)) (x % 4096))
there s d x y = rw y refl

missing : (s : Vm) (d x : ℕ) → is_present (pte s d x) ≡ false → user_memory s d x ≡ none
missing s d x n = rw n refl

-- What is mapped as it was, to a page that is as it was.
memory_same :
    (s new : Vm) (d x : ℕ)
    → pte new d x ≡ pte s d x
    → (is_present (pte s d x) ≡ true
        → new.pages (page_of (pte s d x)) ≡ s.pages (page_of (pte s d x)))
    → user_memory new d x ≡ user_memory s d x
memory_same s new d x e same = elim (Bool-cases (is_present (pte s d x))) [
  | inl y ↦
      there new d x (ap is_present e ∙ y)
      ∙ ap (λ w. some (new.pages (page_of w) (x % 4096))) e
      ∙ ap (λ m. some (m (x % 4096))) (same y)
      ∙ sym (there s d x y)
  | inr n ↦ missing new d x (ap is_present e ∙ n) ∙ sym (missing s d x n)
]

-- What a change of the size leaves.
abbrev pub Resized : ℕ → Vm → ℕ → List ℕ → ℕ → Vm → ℕ → Type 0
Resized kernel_end s d fl sz new size =
    (left : List ℕ) × Image kernel_end new d left size
    × ((x : ℕ) → x < 2 ^ 31 → user_memory new d x ≡ resized (user_memory s d) sz size x)

module _ (kernel_end : ℕ) (s : Vm) (d : ℕ) (fl : List ℕ) (sz : ℕ)
    (image : Image kernel_end s d fl sz) (user : sz < 2 ^ 31) where
  pub Resized-same : Resized kernel_end s d fl sz s sz
  Resized-same = (
    fl,
    image,
    λ x l. elim (dec_lt x (pground_up sz)) [
      | yes h ↦ rw (lt→ltb x (pground_up sz) h) refl
      | no h ↦
          missing s d x (image.mapped x l ∙ ltb-no x (pground_up sz) (omega arith))
          ∙ rw (ltb-no x (pground_up sz) (omega arith)) refl
    ],
  )

  -- Enough for a change of the size.
  from_parts :
      (size : ℕ) (new : Vm) (left : List ℕ)
      → Tree kernel_end new d left
      → Users kernel_end new d left
      → ((x : ℕ)
          → x < 2 ^ 31
          → x < pground_up sz
          → x < pground_up size
          → (pte new d x ≡ pte s d x)
            × (new.pages (page_of (pte s d x)) ≡ s.pages (page_of (pte s d x))))
      → ((x : ℕ) → x < 2 ^ 31 → pground_up sz ≤ x → x < pground_up size → FreshAt new d x)
      → ((x : ℕ) → x < 2 ^ 31 → pground_up size ≤ x → is_present (pte new d x) ≡ false)
      → Resized kernel_end s d fl sz new size
  from_parts size new left t u keep fresh gone = (
    left,
    record {
      tree = t;
      users = u;
      mapped = λ x l. elim (dec_lt x (pground_up size)) [
        | no b ↦ gone x l (omega arith) ∙ sym (ltb-no x (pground_up size) (omega arith))
        | yes b ↦ elim (dec_lt x (pground_up sz)) [
          | yes c ↦
              ap is_present (keep x l c b).0
              ∙ image.mapped x l
              ∙ lt→ltb x (pground_up sz) c
              ∙ sym (lt→ltb x (pground_up size) b)
          | no c ↦ (fresh x l (omega arith) b).0 ∙ sym (lt→ltb x (pground_up size) b)
        ]
      ];
    },
    λ x l. elim (dec_lt x (pground_up size)) [
      | no b ↦
          missing new d x (gone x l (omega arith))
          ∙ rw (ltb-no x (pground_up size) (omega arith)) refl
      | yes b ↦ elim (dec_lt x (pground_up sz)) [
        | yes c ↦
            memory_same s new d x (keep x l c b).0 (λ y. (keep x l c b).1)
            ∙ rw (lt→ltb x (pground_up size) b, lt→ltb x (pground_up sz) c) refl
        | no c ↦
            let (e, f, g) = fresh x l (omega arith) b in
            there new d x e
            ∙ ap (λ m. some (m (x % 4096))) g
            ∙ rw (lt→ltb x (pground_up size) b, ltb-no x (pground_up sz) (omega arith)) refl
      ]
    ],
  )

  own_there : (x : ℕ) → x < 2 ^ 31 → x < pground_up sz → Outside s d fl (page_of (pte s d x))
  own_there x l h = (image.users.own x l (image.mapped x l ∙ lt→ltb x (pground_up sz) h)).1

  pub Grown-Resized :
      (size : ℕ) (new : Vm)
      → sz ≤ size
      → size < 2 ^ 31
      → Grown kernel_end s d fl (rounds sz size) (pground_up sz) new none
      → Resized kernel_end s d fl sz new size
  Grown-Resized size new h k g =
      let all : g.done ≡ rounds sz size = elim g.fin [ inl (b, c) ↦ c | inr (b, c, e, f) ↦ cc ] in
      from_parts size new g.left g.tree g.users
        (λ x l b c. (
          g.others x (omega arith) (in_pages-below (pground_up sz) g.done x b),
          g.kept.same (page_of (pte s d x)) (own_there x l b),
        ))
        (λ x l b c. g.fresh x (in_pages-yes (pground_up sz) g.done x b (omega arith)))
        (λ x l b.
          ap is_present
            (g.others x (omega arith) (in_pages-above (pground_up sz) g.done x (omega arith)))
          ∙ image.mapped x l
          ∙ ltb-no x (pground_up sz) (omega arith))

  pub Shrunk-Resized :
      (size : ℕ) (new : Vm)
      → size < sz
      → Shrunk kernel_end s d fl (pground_up size) sz new
      → Resized kernel_end s d fl sz new size
  Shrunk-Resized size new h r =
      from_parts size new r.left r.tree r.users
        (λ x l b c. (
          r.others x (omega arith) (inl c),
          (r.stays (page_of (pte s d x)) (own_there x l b) (λ y i j k e.
              let same =
                image.users.single y x (omega arith) l k
                  (image.mapped x l ∙ lt→ltb x (pground_up sz) b) e in
              omega arith)).1,
        ))
        (λ x l b c. absurd (omega arith))
        (λ x l b. elim (dec_lt x (pground_up sz)) [
          | yes c ↦ r.gone x b (omega arith)
          | no c ↦
              ap is_present (r.others x (omega arith) (inr (omega arith)))
              ∙ image.mapped x l
              ∙ ltb-no x (pground_up sz) (omega arith)
        ])

  pub Undone-Resized :
      (size : ℕ) (new : Vm)
      → sz ≤ size
      → Undone kernel_end s d fl (pground_up sz) size new
      → Resized kernel_end s d fl sz new sz
  Undone-Resized size new h r =
      from_parts sz new r.left r.tree r.users
        (λ x l b c.
          (r.others x (omega arith) (inl b), (r.same (page_of (pte s d x)) (own_there x l b)).1))
        (λ x l b c. absurd (omega arith))
        (λ x l b. elim (dec_lt (x / 4096 * 4096) size) [
          | yes c ↦ r.gone x b c
          | no c ↦
              ap is_present (r.others x (omega arith) (inr (omega arith)))
              ∙ image.mapped x l
              ∙ ltb-no x (pground_up sz) b
        ])

-- ===== src/Names/Walk.antt =====
-- namex walks along the elements of the path, and gives back every reference but that of its answer.
use os_lab.Base.{
  ℕ, zero, suc, ◌+◌, ◌<◌, ◌≡◌, refl, sym, ap, ◌∙◌, fun_ext, inl, inr, Bool, true, false, not, ◌&&◌,
  Option, none, some, List, [], ◌∷◌, arith, if◌then◌else◌, Bool-cases, Option-cases, length,
}
use os_lab.Names.{skip_slashes, is_empty, Dirs, iget, iput, namex_from, first_inode, namex}
use os_lab.Names.Elements.{elements, skipelem-cases, rest-cases}

abbrev pub none_left : List (List ℕ) → Bool
none_left [] = true
none_left (name ∷ names) = false

-- Where the elements lead from an inode: to the last one, or to the directory of the last one with
-- its name.
unfoldable pub resolve : Dirs → Bool → ℕ → List (List ℕ) → Option (ℕ × List ℕ)
resolve dirs parent ip [] = if parent then none else some (ip, [])
resolve dirs parent ip (name ∷ names) =
    let next = dirs.lookup ip name in
    if not (dirs.is_dir ip) then none else elim (parent && none_left names) [
      | true ↦ some (ip, name)
      | false ↦ elim next [ none ↦ none | some to ↦ resolve dirs parent to names ]
    ]

-- A reference to the inode of the answer.
abbrev pub held : (ℕ → ℕ) → Option (ℕ × List ℕ) → ℕ → ℕ
held refs none = refs
held refs (some (ip, name)) = iget refs ip

iput-iget : (refs : ℕ → ℕ) (ip : ℕ) → iput (iget refs ip) ip ≡ refs
iput-iget refs ip = fun_ext λ k. ground arith

-- The reference moves from one inode to the next.
move : (refs : ℕ → ℕ) (ip next : ℕ) → iput (iget (iget refs ip) next) ip ≡ iget refs next
move refs ip next = fun_ext λ k. ground arith

same_end : (rest : List ℕ) → skip_slashes rest ≡ rest → is_empty rest ≡ none_left (elements rest)
same_end rest t = elim (rest-cases rest t) [
  | inl (e, s) ↦ e ∙ ap none_left (sym s)
  | inr (e, (name, names, s)) ↦ e ∙ ap none_left (sym s)
]

module _ (dirs : Dirs) (parent : Bool) (refs : ℕ → ℕ) where
  walk :
      (rounds ip : ℕ) (path : List ℕ)
      → length path < rounds
      → namex_from rounds dirs parent (iget refs ip) ip path ≡ (
        held refs (resolve dirs parent ip (elements path)),
        resolve dirs parent ip (elements path),
      )
  unfolding namex_from resolve
  walk zero ip path h = absurd (omega arith)
  walk (suc rounds) ip path h = elim (skipelem-cases path) [
    | inl (e, s) ↦ elim (Bool-cases parent) [
      | inl y ↦ rw (e, s, y, namex_from, resolve) (ap (λ r. (r, none)) (iput-iget refs ip))
      | inr n ↦ rw (e, s, n, namex_from, resolve) refl
    ]
    | inr (name, rest, e, s, l, t) ↦ elim (Bool-cases (dirs.is_dir ip)) [
      | inr d ↦ rw (e, s, d, namex_from, resolve) (ap (λ r. (r, none)) (iput-iget refs ip))
      | inl d ↦ elim (Bool-cases (parent && is_empty rest)) [
        | inl y ↦
            rw (e, s, d, sym (ap (λ b. parent && b) (same_end rest t)) ∙ y, y, namex_from, resolve)
              refl
        | inr y ↦ elim (Option-cases (dirs.lookup ip name)) [
          | inl m ↦
              rw
                (
                  e,
                  s,
                  d,
                  sym (ap (λ b. parent && b) (same_end rest t)) ∙ y,
                  y,
                  m,
                  namex_from,
                  resolve,
                )
                (ap (λ r. (r, none)) (iput-iget refs ip))
          | inr (next, m) ↦
              rw
                (
                  e,
                  s,
                  d,
                  sym (ap (λ b. parent && b) (same_end rest t)) ∙ y,
                  y,
                  m,
                  namex_from,
                  resolve,
                )
                (ap (λ r. namex_from rounds dirs parent r next rest) (move refs ip next)
                  ∙ walk rounds next rest (omega arith))
        ]
      ]
    ]
  ]

-- A path leads where its elements lead from the root, if it begins with a slash, or from the current
-- directory, where the elements are its parts between slashes that are not empty, cut off at DIRSIZ.
-- Of the references that the walk takes, only the one to the inode of the answer is left.
pub namex_lem :
    (dirs : Dirs) (parent : Bool) (refs : ℕ → ℕ) (cwd : ℕ) (path : List ℕ)
    → namex dirs parent refs cwd path ≡ (
      held refs (resolve dirs parent (first_inode cwd path) (elements path)),
      resolve dirs parent (first_inode cwd path) (elements path),
    )
unfolding namex
namex_lem dirs parent refs cwd path =
    walk dirs parent refs (length path + 1) (first_inode cwd path) path (omega arith)

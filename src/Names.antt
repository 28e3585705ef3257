-- ===== src/Names.antt =====
-- fs.c: path names.
-- A path is the list of its characters before the NUL, and so is a name of an element, with at most
-- DIRSIZ characters. What directories hold is the parameter `dirs`, and the locks that namex takes
-- are left out; `refs` counts the references to each inode. An iput that frees an inode on the disk
-- leaves these counts alone.
pub mod Elements
pub mod Walk
mod Tests
use os_lab.Base.{
  ℕ, zero, suc, ◌+◌, ◌-◌, Bool, true, false, ◌&&◌, Option, none, some, List, [], ◌∷◌, ◌==◌,
  if◌then◌else◌, length, take, update,
}

abbrev pub slash : ℕ
slash = 47

abbrev pub dirsiz : ℕ
dirsiz = 14

abbrev pub rootino : ℕ
rootino = 1

-- `while(*path == '/') path++;`
unfoldable pub skip_slashes : List ℕ → List ℕ
skip_slashes [] = []
skip_slashes (c ∷ path) = let rest = skip_slashes path in if c == slash then rest else c ∷ path

-- The characters up to the next slash, and the rest from there.
unfoldable pub element : List ℕ → List ℕ × List ℕ
element [] = ([], [])
element (c ∷ path) =
    let rest = element path in if c == slash then ([], c ∷ path) else (c ∷ rest.0, rest.1)

abbrev pub is_empty : List ℕ → Bool
is_empty [] = true
is_empty (c ∷ path) = false

-- The name and the rest of the path, if there is an element.
unfoldable pub skipelem : List ℕ → Option (List ℕ × List ℕ)
unfolding skip_slashes element
skipelem path =
    let s = skip_slashes path in
    if is_empty s then none else some (take dirsiz (element s).0, skip_slashes (element s).1)

-- What ilock and dirlookup find in each inode.
pub record Dirs : Type 0 where
  pub is_dir : ℕ → Bool
  pub lookup : ℕ → List ℕ → Option ℕ

abbrev pub iget : (ℕ → ℕ) → ℕ → ℕ → ℕ
iget refs ip = update refs ip (refs ip + 1)

abbrev pub iput : (ℕ → ℕ) → ℕ → ℕ → ℕ
iput refs ip = update refs ip (refs ip - 1)

-- The loop of namex; each round takes a character at least. The answer has the name of the last
-- element too, where the parent is asked for.
unfoldable pub namex_from : ℕ → Dirs → Bool → (ℕ → ℕ) → ℕ → List ℕ → (ℕ → ℕ) × Option (ℕ × List ℕ)
unfolding skipelem
namex_from zero dirs nameiparent refs ip path = (refs, none)
namex_from (suc rounds) dirs nameiparent refs ip path = elim (skipelem path) [
  | none ↦ if nameiparent then (iput refs ip, none) else (refs, some (ip, []))
  | some (name, rest) ↦ elim (dirs.is_dir ip) [
    | false ↦ (iput refs ip, none)
    | true ↦ elim (nameiparent && is_empty rest) [
      | true ↦ (refs, some (ip, name))
      | false ↦ elim (dirs.lookup ip name) [
        | none ↦ (iput refs ip, none)
        | some next ↦ namex_from rounds dirs nameiparent (iput (iget refs next) ip) next rest
      ]
    ]
  ]
]

-- `cwd` is the current directory of the process.
abbrev pub first_inode : ℕ → List ℕ → ℕ
first_inode cwd [] = cwd
first_inode cwd (c ∷ path) = if c == slash then rootino else cwd

unfoldable pub namex : Dirs → Bool → (ℕ → ℕ) → ℕ → List ℕ → (ℕ → ℕ) × Option (ℕ × List ℕ)
unfolding namex_from
namex dirs nameiparent refs cwd path =
    let ip = first_inode cwd path in
    namex_from (length path + 1) dirs nameiparent (iget refs ip) ip path

-- ===== src/Names/Tests.antt =====
-- Paths of fs.c in a small tree of directories.
use os_lab.Base.{
  ℕ, ◌≡◌, refl, true, false, ◌&&◌, none, some, List, [], ◌∷◌, ltb, ◌==◌, if◌then◌else◌,
}
use os_lab.Names.{Dirs, skip_slashes, element, skipelem, first_inode, namex_from, namex}
use os_lab.Names.Elements.{split, names_of, elements}
use os_lab.Names.Walk.{held, resolve, namex_lem}

-- Inodes 1 and 2 are directories; 1 holds 2 under the name "a", and 2 holds 3 under "b".
abbrev tree : Dirs
tree = record {
  is_dir = λ ip. ltb ip 3;
  lookup = λ ip name. elim name [
    | [] ↦ none
    | c ∷ cs ↦
        if ip == 1 && (c == 97) then some 2 else if ip == 2 && (c == 98) then some 3 else none
  ];
}

-- /a//b
abbrev a_b : List ℕ
a_b = 47 ∷ 97 ∷ 47 ∷ 47 ∷ 98 ∷ []

two_elements : elements a_b ≡ (97 ∷ []) ∷ (98 ∷ []) ∷ []
unfolding split names_of
two_elements = refl

file_found : (namex tree false (λ _. 0) 2 a_b).1 ≡ some (3, [])
unfolding namex namex_from skipelem skip_slashes element
file_found = refl

parent_found : (namex tree true (λ _. 0) 1 a_b).1 ≡ some (2, 98 ∷ [])
unfolding namex namex_from skipelem skip_slashes element
parent_found = refl

-- A file has no elements below it.
through_file : (namex tree false (λ _. 0) 3 (98 ∷ [])).1 ≡ none
unfolding namex namex_from skipelem skip_slashes element
through_file = refl

namex_lem_example : namex tree false (λ _. 0) 2 a_b ≡ (
  held (λ _. 0) (resolve tree false (first_inode 2 a_b) (elements a_b)),
  resolve tree false (first_inode 2 a_b) (elements a_b),
)
namex_lem_example = namex_lem tree false (λ _. 0) 2 a_b

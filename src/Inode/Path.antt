-- ===== src/Inode/Path.antt =====
-- The walk of `namex` of kern/inode.c along a path. A directory is the list of its entries, each an
-- inode number and the name in its 14 bytes; a path is the list of its characters before the NUL. A
-- name fits into the buffer of 14 bytes with its NUL: what a longer one writes behind the buffer is not
-- modelled. The inode cache has an inode for each that the walk comes to.
pub mod Names
use wei_os.Text.{strncmp}
use wei_os.Common.{
  take, zero, drop, ◌&&◌, length, ◌-◌, [], some, ◌+◌, leb, ◌==◌, none, if◌then◌else◌, ◌∷◌, Option,
  Bool, List,
}
use Prim.Native.Nat.{suc, ℕ}

-- The entries of the directory of a number; none stands for an inode that is not a directory.
abbrev pub Dirs : Type 0
Dirs = ℕ → Option (List (ℕ × List ℕ))

-- The first entry in use with this name, with its offset in the directory.
unfoldable pub find_entry : List (ℕ × List ℕ) → List ℕ → ℕ → Option (ℕ × ℕ)
find_entry [] name at = none
find_entry (e ∷ es) name at =
    let rest = find_entry es name (at + 16) in
    if e.0 == 0 then rest else if strncmp e.1 name 14 == 0 then some (e.0, at) else rest

unfoldable pub dirlookup : Dirs → ℕ → List ℕ → Option (ℕ × ℕ)
unfolding find_entry
dirlookup dirs ino name = elim (dirs ino) [ none ↦ none | some es ↦ find_entry es name 0 ]

-- The part of a path before its next slash, and what begins at this slash.
abbrev pub split_slash : List ℕ → List ℕ × List ℕ
split_slash [] = ([], [])
split_slash (c ∷ s) =
    let rest = split_slash s in if c == b'/' then ([], c ∷ s) else (c ∷ rest.0, rest.1)

-- The name that `strncpy` puts into the buffer: it copies a character before it counts, and so the slash
-- of an empty part.
abbrev pub component : List ℕ → List ℕ
component start =
    let name = (split_slash start).0 in if leb (length name) 0 then take 1 start else name

-- The references to the inodes, by their numbers.
abbrev pub get_ref : ℕ → (ℕ → ℕ) → ℕ → ℕ
get_ref ino refs j = if ino == j then refs j + 1 else refs j

abbrev pub put_ref : ℕ → (ℕ → ℕ) → ℕ → ℕ
put_ref ino refs j = if ino == j then refs j - 1 else refs j

-- The inode that is returned with the last name, or the null pointer.
pub data Walked : Type 0 where
  found : ℕ → List ℕ → (ℕ → ℕ) → Walked
  lost : (ℕ → ℕ) → Walked
  walking : Walked

-- The loop of `namex`; the flag asks for the directory of the last name.
unfoldable pub walk : ℕ → Bool → Dirs → ℕ → List ℕ → (ℕ → ℕ) → Walked
unfolding dirlookup
walk zero parent dirs cur start refs = walking
walk (suc k) parent dirs cur start refs =
    let name = component start in
    let end = (split_slash start).1 in
    if leb (length end) 0 && parent then found cur name refs else elim (dirlookup dirs cur name) [
      | none ↦ lost (put_ref cur refs)
      | some (next, at) ↦
          let refs' = put_ref cur (get_ref next refs) in
          let rest = walk k parent dirs next (drop 1 end) refs' in
          if leb (length end) 1 then found next name refs' else rest
    ]

-- `namex` from the root directory, number 1, or from the working directory.
unfoldable pub namex : Bool → Dirs → ℕ → List ℕ → (ℕ → ℕ) → Walked
unfolding walk
namex parent dirs pwd [] refs = walk 1 parent dirs pwd [] (get_ref pwd refs)
namex parent dirs pwd (c ∷ path) refs =
    if c == b'/'
    then (if leb (length path) 0
        then found 1 [] (get_ref 1 refs)
        else walk (length path + 1) parent dirs 1 path (get_ref 1 refs))
    else walk (length path + 2) parent dirs pwd (c ∷ path) (get_ref pwd refs)

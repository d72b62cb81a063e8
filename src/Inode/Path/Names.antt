-- ===== src/Inode/Path/Names.antt =====
-- What a path resolves to, and the references that the walk holds.
use wei_os.Inode.Path.{lost, split_slash, found, dirlookup, Walked, Dirs}
use wei_os.Common.{
  ltb, true, ◌&&◌, Bool, arith, ◌≤◌, leb, ◌+◌, none, ◌==◌, if◌then◌else◌, [], ◌≡◌, length, some,
  ◌∷◌, Option, List, ℕ,
}

-- The names of a path; a slash at its end adds none.
abbrev onto_name : ℕ → List (List ℕ) → List (List ℕ)
onto_name c [] = (c ∷ []) ∷ []
onto_name c (n ∷ ns) = (c ∷ n) ∷ ns

abbrev pub names : List ℕ → List (List ℕ)
names [] = [] ∷ []
names (c ∷ s) =
    if c == b'/'
    then (if leb (length s) 0 then [] ∷ [] else [] ∷ names s)
    else onto_name c (names s)

-- A name as `strncpy` reads it: the slash behind an empty one.
abbrev pub read_name : List ℕ → List ℕ
read_name [] = b'/' ∷ []
read_name (c ∷ s) = c ∷ s

abbrev pub read_names : List (List ℕ) → List (List ℕ)
read_names [] = []
read_names (n ∷ ns) = read_name n ∷ read_names ns

-- The names that are looked up from a place in the path.
abbrev pub looked_up : List ℕ → List (List ℕ)
looked_up [] = [] ∷ []
looked_up (c ∷ s) = read_names (names (c ∷ s))

-- The inode that a list of names leads to, one directory after the other.
abbrev pub resolve : Dirs → ℕ → List (List ℕ) → Option ℕ
resolve dirs ino [] = some ino
resolve dirs ino (n ∷ ns) = elim (dirlookup dirs ino n) [
  | none ↦ none
  | some (next, at) ↦ resolve dirs next ns
]

-- The walk ended at this inode, or at none, and holds one reference to it in place of the one to `cur`.
abbrev pub Leads : Option ℕ → ℕ → (ℕ → ℕ) → Walked → Type 0
Leads (some i) cur refs (found j name refs') =
    (i ≡ j) × ((x : ℕ) → refs' x + (if cur == x then 1 else 0) ≡ refs x + (if i == x then 1 else 0))
Leads none cur refs (lost refs') = (x : ℕ) → refs' x + (if cur == x then 1 else 0) ≡ refs x
Leads _ cur refs _ = ⊥

pub split_slash-length : (s : List ℕ) → length (split_slash s).1 ≤ length s
split_slash-length [] = omega arith
split_slash-length (c ∷ s) = ground (arith, split_slash-length s)

-- Whether a walk holds the references that were there, and one more to the inode that it returns.
abbrev pub Balanced : Option ℕ → (ℕ → ℕ) → Walked → Type 0
Balanced (some i) refs (found j name refs') =
    (i ≡ j) × ((x : ℕ) → refs' x ≡ refs x + (if i == x then 1 else 0))
Balanced none refs (lost refs') = (x : ℕ) → refs' x ≡ refs x
Balanced _ refs _ = ⊥

-- Where a path begins, and its names from there; the root directory alone has none.
abbrev pub path_start : ℕ → List ℕ → ℕ
path_start pwd [] = pwd
path_start pwd (c ∷ path) = if c == b'/' then 1 else pwd

abbrev pub path_names : List ℕ → List (List ℕ)
path_names [] = looked_up []
path_names (c ∷ path) =
    if c == b'/' then (if leb (length path) 0 then [] else looked_up path) else looked_up (c ∷ path)

-- Names that leave room for their NUL in the buffer of 14 bytes.
abbrev pub fit : List (List ℕ) → Bool
fit [] = true
fit (n ∷ ns) = ltb (length n) 14 && fit ns

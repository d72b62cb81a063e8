-- ===== src/Links/Held.antt =====
-- The references that the calls on names hold: none is lost and none is kept too long.
use wei_os.Inode.Path.Names.{split_slash-length}
use wei_os.Inode.Path.{
  component, dirlookup, split_slash, put_ref, get_ref, Dirs, Walked, namex, walk, found, lost,
  walking,
}
use wei_os.Links.{is_dir, volume_dirs, Volume, Done, done, fails, panics, deadlocks, corrupts}
use wei_os.Common.{
  true, zero, length-drop, drop, Option-cases, [], ◌&&◌, inl, leb, inr, Bool-cases, suc, ◌∷◌,
  length, ◌==◌, arith, List, if◌then◌else◌, ◌≡◌, ◌<◌, ◌+◌, Bool, ℕ, refl,
}

-- A walk holds one reference to what it returns in place of the one to `cur`.
abbrev Moved : ℕ → (ℕ → ℕ) → Walked → Type 0
Moved cur refs (found i name r) =
    (x : ℕ) → r x + (if cur == x then 1 else 0) ≡ refs x + (if i == x then 1 else 0)
Moved cur refs (lost r) = (x : ℕ) → r x + (if cur == x then 1 else 0) ≡ refs x
Moved cur refs walking = ⊥

Moved-step :
    (cur next : ℕ) (refs : ℕ → ℕ) (w : Walked)
    → 0 < refs cur
    → Moved next (put_ref cur (get_ref next refs)) w
    → Moved cur refs w
Moved-step cur next refs (found i name r) p h = λ x. ground (arith, h x)
Moved-step cur next refs (lost r) p h = λ x. ground (arith, h x)
Moved-step cur next refs walking p h = h

walk-Moved :
    (k : ℕ) (parent : Bool) (dirs : Dirs) (cur : ℕ) (start : List ℕ) (refs : ℕ → ℕ)
    → length start < k
    → 0 < refs cur
    → Moved cur refs (walk k parent dirs cur start refs)
unfolding walk
walk-Moved zero parent dirs cur start refs h p = absurd (omega arith)
walk-Moved (suc k) parent dirs cur start refs h p =
    let name = component start in
    let end = (split_slash start).1 in
    elim (Bool-cases (leb (length end) 0 && parent)) [
      | inl stop ↦ rw stop (λ x. refl)
      | inr go_on ↦ elim (Option-cases (dirlookup dirs cur name)) [
        | inl e ↦ rw (go_on, e) (λ x. ground arith)
        | inr ((next, at), e) ↦
            let refs' = put_ref cur (get_ref next refs) in
            elim (Bool-cases (leb (length end) 1)) [
              | inl last ↦ rw (go_on, e, last) (λ x. ground arith)
              | inr more ↦
                  let held : 0 < refs' next = ground arith in
                  let shorter : length (drop 1 end) < k =
                    ground (arith, length-drop 1 end, split_slash-length start) in
                  rw (go_on, e, more)
                    (Moved-step cur next refs (walk k parent dirs next (drop 1 end) refs') p
                      (walk-Moved k parent dirs next (drop 1 end) refs' shorter held))
            ]
      ]
    ]

-- The references after a walk from no reference.
abbrev pub Gained : (ℕ → ℕ) → Walked → Type 0
Gained refs (found i name r) = (x : ℕ) → r x ≡ get_ref i refs x
Gained refs (lost r) = (x : ℕ) → r x ≡ refs x
Gained refs walking = ⊥

Moved-Gained :
    (cur : ℕ) (refs : ℕ → ℕ) (w : Walked) → Moved cur (get_ref cur refs) w → Gained refs w
Moved-Gained cur refs (found i name r) h = λ x. ground (arith, h x)
Moved-Gained cur refs (lost r) h = λ x. ground (arith, h x)
Moved-Gained cur refs walking h = h

pub namex-Gained :
    (parent : Bool) (dirs : Dirs) (pwd : ℕ) (path : List ℕ) (refs : ℕ → ℕ)
    → Gained refs (namex parent dirs pwd path refs)
unfolding namex
namex-Gained parent dirs pwd [] refs =
    Moved-Gained pwd refs _
      (walk-Moved 1 parent dirs pwd [] (get_ref pwd refs) (omega arith) (ground arith))
namex-Gained parent dirs pwd (c ∷ path) refs = elim (Bool-cases (c == b'/')) [
  | inr relative ↦ rw relative (
      Moved-Gained pwd refs _ (
        walk-Moved (length path + 2) parent dirs pwd (c ∷ path) (get_ref pwd refs) (omega arith)
          (ground arith)))
  | inl absolute ↦ elim (Bool-cases (leb (length path) 0)) [
    | inl root ↦ rw (absolute, root) (λ x. refl)
    | inr below ↦
        rw (absolute, below)
          (Moved-Gained 1 refs _ (
            walk-Moved (length path + 1) parent dirs 1 path (get_ref 1 refs) (omega arith)
              (ground arith)))
  ]
]

-- The references behind a call that returns, with those that its result holds besides. It does not come
-- to a `dirlink` on what is no directory.
abbrev pub Kept : {A : Type 0} → (A → ℕ → ℕ) → (ℕ → ℕ) → Done A → Type 0
Kept extra refs (done a w) = (x : ℕ) → w.refs x ≡ refs x + extra a x
Kept extra refs (fails w) = (x : ℕ) → w.refs x ≡ refs x
Kept extra refs panics = Unit
Kept extra refs deadlocks = Unit
Kept extra refs (corrupts i) = ⊥

-- The parent of a path, wherever the walk finds one, is a directory.
abbrev pub ParentIsDir : ℕ → List ℕ → Volume → Type 0
ParentIsDir pwd path v =
    (refs r : ℕ → ℕ) (i : ℕ) (name : List ℕ)
    → namex true (volume_dirs v) pwd path refs ≡ found i name r
    → is_dir i v ≡ true

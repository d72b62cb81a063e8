-- ===== src/Links/Count.antt =====
-- The link counts of the files after `link`: as many as the entries that name them.
use wei_os.Links.Held.{ParentIsDir}
use wei_os.Links.Entries.{total-with_entry, iunlockput-naming, total-same, total, iunlockput-kept}
use wei_os.Links.Balance.{with_entry}
use wei_os.Links.{
  link, link_up, undo_link, link_down, volume_dirs, and_then, set_refs, is_dir, add_link,
  iunlockput, dirlink, lookup_path, Volume, Done, done, fails, panics, deadlocks, corrupts,
}
use wei_os.Inode.Path.{put_ref, dirlookup, namex, found, lost, walking}
use wei_os.Common.{
  not, sym, none, some, ◌∙◌, ap, inl, ◌&&◌, ◌+◌, inr, arith, Bool-cases, Option-cases, ◌⊎◌, ◌<◌,
  true, false, ◌==◌, ◌≡◌, if◌then◌else◌, List, Bool, ◌≢◌, ℕ, refl,
}
use wei_os.Inode.Path.{dirlookup}

-- An inode in use that is no directory.
abbrev pub is_file : ℕ → Volume → Bool
is_file x v = not (is_dir x v) && not (v.type x == 0)

-- The link counts of the files are the entries that name it, and `extra` more.
abbrev pub CountedBy : (ℕ → ℕ) → Volume → Type 0
CountedBy extra v = (x : ℕ) → x ≢ 0 → is_file x v ≡ true → v.nlink x ≡ total x v + extra x

abbrev pub Counted : Volume → Type 0
Counted = CountedBy (λ _. 0)

-- A directory has a number of an inode and a link.
abbrev pub Live : Volume → Type 0
Live v = (d : ℕ) → is_dir d v ≡ true → (d < v.n_inodes) × ((v.nlink d == 0) ≡ false)

-- What a call that returns leaves; it does not come to a `dirlink` on what is no directory.
abbrev pub Leaves : {A : Type 0} → (Volume → Type 0) → Done A → Type 0
Leaves P (done a w) = P w
Leaves P (fails w) = P w
Leaves P panics = Unit
Leaves P deadlocks = Unit
Leaves P (corrupts i) = ⊥

pub lookup_path-then :
    {B : Type 0} (P : Volume → Type 0) (parent : Bool) (pwd : ℕ) (path : List ℕ) (v : Volume)
    (f : ℕ × List ℕ → Volume → Done B) (g : Volume → Done B)
    → ((a : ℕ × List ℕ) (r : ℕ → ℕ)
        → namex parent (volume_dirs v) pwd path v.refs ≡ found a.0 a.1 r
        → Leaves P (f a (set_refs r v)))
    → ((r : ℕ → ℕ) → Leaves P (g (set_refs r v)))
    → Leaves P (and_then (lookup_path parent pwd path v) f g)
unfolding lookup_path
lookup_path-then P parent pwd path v f g hf hg =
    elim (namex parent (volume_dirs v) pwd path v.refs)
        as (λ w.
          namex parent (volume_dirs v) pwd path v.refs ≡ w
          → Leaves P (
              and_then
                (elim w [
                  | found i name r ↦ done (i, name) (set_refs r v)
                  | lost r ↦ fails (set_refs r v)
                  | walking ↦ deadlocks
                ])
                f g)) [
                  | found i name r ↦ λ q. hf (i, name) r q
                  | lost r ↦ λ q. hg r
                  | walking ↦ λ q. tt
                ]
      refl

-- An entry is found in a directory only.
pub dirlookup-dir :
    (di : ℕ) (name : List ℕ) (v : Volume) (e : ℕ × ℕ)
    → dirlookup (volume_dirs v) di name ≡ some e
    → is_dir di v ≡ true
unfolding dirlookup
dirlookup-dir di name v e h = elim (Bool-cases (is_dir di v)) [
  | inl dir ↦ dir
  | inr file ↦
      let none_there : dirlookup (volume_dirs v) di name ≡ none = rw (file, dirlookup) refl in
      absurd (ground (arith, sym none_there ∙ h))
]

dirlink-then :
    {B : Type 0} (P : Volume → Type 0) (di ino : ℕ) (name : List ℕ) (v : Volume)
    (f : Unit {0} → Volume → Done B) (g : Volume → Done B)
    → is_dir di v ≡ true
    → Leaves P (f tt (with_entry di name ino v))
    → Leaves P (g v)
    → Leaves P (and_then (dirlink di name ino v) f g)
unfolding dirlink
dirlink-then P di ino name v f g dir hf hg =
    elim (Option-cases (dirlookup (volume_dirs v) di name)) [
      | inr (e, here) ↦ elim (Bool-cases (e.0 == di)) [
        | inl own ↦ rw (here, dirlink) (rw own tt)
        | inr other ↦ rw (here, dirlink) (rw other hg)
      ]
      | inl absent ↦ rw (absent, dirlink) (rw dir hf)
    ]

pub if-Leaves :
    {A : Type 0} (P : Volume → Type 0) (b : Bool) (p q : Done A)
    → (b ≡ true → Leaves P p)
    → (b ≡ false → Leaves P q)
    → Leaves P (if b then p else q)
if-Leaves P true p q h k = h refl
if-Leaves P false p q h k = k refl

pub iunlockput-file :
    (i x : ℕ) (v : Volume) → is_file x (iunlockput i v) ≡ true → is_file x v ≡ true
unfolding iunlockput
iunlockput-file i x v k = elim (Bool-cases (v.nlink i == 0 && v.refs i == 1)) [
  | inr e ↦ ground (arith, k)
  | inl e ↦ ground (arith, k)
]

pub iunlockput-CountedBy :
    (extra : ℕ → ℕ) (i : ℕ) (v : Volume)
    → (is_dir i v ≡ false) ⊎ ((v.nlink i == 0) ≡ false)
    → CountedBy extra v
    → CountedBy extra (iunlockput i v)
iunlockput-CountedBy extra i v h k x nz file =
    let (same, links, _) = iunlockput-kept i v in
    let all = total-same x v (iunlockput i v) same (iunlockput-naming x i v h) in
    omega (arith, k x nz (iunlockput-file i x v file), all, ap (λ f. f x) links)

abbrev one : ℕ → ℕ → ℕ
one i x = if i == x then 1 else 0

link_down-Counted :
    (i : ℕ) (v : Volume)
    → is_dir i v ≡ false
    → 0 < v.nlink i
    → v.nlink i < 65536
    → CountedBy (one i) v
    → Counted (link_down i v)
link_down-Counted i v file p small h x nz is = ground (arith, h x nz is)

undo_link-Counted :
    (i : ℕ) (v : Volume)
    → is_dir i v ≡ false
    → 0 < v.nlink i
    → v.nlink i < 65536
    → CountedBy (one i) v
    → Leaves Counted (undo_link i v)
undo_link-Counted i v file p small h =
    iunlockput-CountedBy (λ _. 0) i (link_down i v) (inl file)
      (link_down-Counted i v file p small h)

-- An inode with a link is given back without a change.
pub iunlockput-linked :
    (i : ℕ) (v : Volume) → (v.nlink i == 0) ≡ false → iunlockput i v ≡ set_refs (put_ref i v.refs) v
unfolding iunlockput
iunlockput-linked i v h = rw h refl

entry-Counted :
    (di i : ℕ) (name : List ℕ) (v : Volume)
    → is_dir di v ≡ true
    → di < v.n_inodes
    → i < 65536
    → CountedBy (one i) v
    → Counted (with_entry di name i v)
entry-Counted di i name v dir small short h x nz is =
    omega (arith, h x nz is, total-with_entry x di i name v nz dir small short)

-- The two inodes that `link` gives back at its end.
linked-Counted :
    (di i : ℕ) (v : Volume)
    → is_dir i v ≡ false
    → (v.nlink di == 0) ≡ false
    → Counted v
    → Counted (iunlockput di (iunlockput i v))
linked-Counted di i v file linked h =
    let (_, links, _) = iunlockput-kept i v in
    iunlockput-CountedBy (λ _. 0) di (iunlockput i v) (inr (ap (λ f. f di == 0) links ∙ linked))
      (iunlockput-CountedBy (λ _. 0) i v (inl file) h)

add_link-Counted :
    (pwd : ℕ) (new : List ℕ) (i : ℕ) (v : Volume)
    → Live v
    → Counted v
    → is_dir i v ≡ false
    → v.nlink i < 65535
    → i < 65536
    → ParentIsDir pwd new v
    → Leaves Counted (add_link pwd new i v)
unfolding add_link
add_link-Counted pwd new i v live h file small short dirs =
    let up : CountedBy (one i) (link_up i v) = λ x nz is. ground (arith, h x nz is) in
    lookup_path-then Counted true pwd new (link_up i v) _ (undo_link i)
      (λ a r q.
        let w = set_refs r (link_up i v) in
        let dir = dirs v.refs r a.0 a.1 q in
        let (inside, live_link) = live a.0 dir in
        let linked : (w.nlink a.0 == 0) ≡ false = ground (arith, live_link) in
        dirlink-then Counted a.0 i a.1 w _ _ dir
          (linked-Counted a.0 i (with_entry a.0 a.1 i w) file linked
            (entry-Counted a.0 i a.1 w dir inside short up))
          (rw (iunlockput-linked a.0 w linked) (
            undo_link-Counted i (set_refs (put_ref a.0 w.refs) w) file (ground arith) (ground arith)
              up)))
      (λ r. undo_link-Counted i (set_refs r (link_up i v)) file (ground arith) (ground arith) up)

-- The inode that a path leads to has a number of 16 bits.
abbrev pub IsShort : ℕ → List ℕ → Volume → Type 0
IsShort pwd path v =
    (refs r : ℕ → ℕ) (i : ℕ) (name : List ℕ)
    → namex false (volume_dirs v) pwd path refs ≡ found i name r
    → i < 65536

-- When the files' link counts are the entries that name them, every directory has a link, no count is at
-- its limit, the old name leads to a number of 16 bits and the parent of the new name is a directory,
-- `link` keeps the counts equal, by whichever branch it returns.
pub link-Counted :
    (pwd : ℕ) (old new : List ℕ) (v : Volume)
    → Live v
    → Counted v
    → ((x : ℕ) → v.nlink x < 65535)
    → IsShort pwd old v
    → ParentIsDir pwd new v
    → Leaves Counted (link pwd old new v)
unfolding link
link-Counted pwd old new v live h small short dirs =
    lookup_path-then Counted false pwd old v _ fails
      (λ a r q.
        let w = set_refs r v in
        if-Leaves Counted (is_dir a.0 w) (fails (iunlockput a.0 w)) (add_link pwd new a.0 w)
          (λ dir. iunlockput-CountedBy (λ _. 0) a.0 w (inr (live a.0 dir).1) h)
          (λ file.
            add_link-Counted pwd new a.0 w live h file (small a.0) (short v.refs r a.0 a.1 q) dirs))
      (λ r. h)

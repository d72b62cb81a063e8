-- ===== src/Links/Remove.antt =====
-- The link counts of the files after `unlink`.
use wei_os.Links.Balance.{dirlookup_dir}
use wei_os.Links.Count.{
  if-Leaves, dirlookup-dir, iunlockput-CountedBy, iunlockput-linked, lookup_path-then, Leaves, Live,
  iunlockput-file, Counted, is_file,
}
use wei_os.Text.{strncmp}
use wei_os.Links.Entries.{total-same, sum-change, iunlockput-kept, total, naming, count_in}
use wei_os.Inode.Path.{get_ref, put_ref, dirlookup, find_entry}
use wei_os.Links.{
  deadlocks, fails, volume_dirs, set_refs, unlink_entry, unlink_path, remove_entry, is_dir_empty,
  update, link_down, is_dot, is_dir, iunlockput, Volume, clear_entry,
}
use wei_os.Common.{
  not, Option-cases, false, refl, sym, ◌∙◌, ◌/◌, ◌⊎◌, ap, ◌<◌, ◌&&◌, true, [], inr, inl,
  if◌then◌else◌, ◌==◌, Bool-cases, arith, suc, some, ◌∷◌, ◌*◌, ◌≢◌, ◌+◌, ◌≡◌, List, ℕ,
}
use wei_os.Inode.Path.{find_entry}

-- The entry at place `k` is one of inode `i`, and `off` is the offset of the first entry.
abbrev Cleared : ℕ → ℕ → ℕ → ℕ → List (ℕ × List ℕ) → Type 0
Cleared x i at off es =
    (k : ℕ) × (at ≡ off + 16 * k)
    × (i ≢ 0)
    × (count_in x (clear_entry k es) + (if i == x then 1 else 0) ≡ count_in x es)

Cleared-later :
    (x i at off : ℕ) (e : ℕ × List ℕ) (es : List (ℕ × List ℕ))
    → Cleared x i at (off + 16) es
    → Cleared x i at off (e ∷ es)
Cleared-later x i at off e es (k, place, used, sum) =
    (suc k, omega (arith, place), used, ground (arith, sum))

-- What a search finds is an entry in use; clearing it takes one entry of its inode away.
find_entry-Cleared :
    (x i at off : ℕ) (name : List ℕ) (es : List (ℕ × List ℕ))
    → x ≢ 0
    → find_entry es name off ≡ some (i, at)
    → Cleared x i at off es
unfolding find_entry
find_entry-Cleared x i at off name [] nz h = absurd (ground arith)
find_entry-Cleared x i at off name (e ∷ es) nz h = elim (Bool-cases (e.0 == 0)) [
  | inl free ↦
      Cleared-later x i at off e es
        (find_entry-Cleared x i at (off + 16) name es nz (ground (arith, h)))
  | inr used ↦ elim (Bool-cases (strncmp e.1 name 14 == 0)) [
    | inl here ↦
        let at_head : (e.0 ≡ i) × (off ≡ at) = ground (arith, h) in
        (0, omega (arith, at_head.1), ground (arith, at_head.0), ground (arith, at_head.0))
    | inr other ↦
        Cleared-later x i at off e es
          (find_entry-Cleared x i at (off + 16) name es nz (ground (arith, h)))
  ]
]

-- The directory without the entry, and the link of its `..` less when the entry was a directory.
abbrev pub removed : ℕ → ℕ → ℕ → Volume → Volume
removed di i at v = record v {
  nlink = if is_dir i v then (link_down di v).nlink else v.nlink;
  entries = update v.entries di (clear_entry (at / 16) (v.entries di));
}

total-removed :
    (x di i at : ℕ) (name : List ℕ) (v : Volume)
    → x ≢ 0
    → is_dir di v ≡ true
    → di < v.n_inodes
    → find_entry (v.entries di) name 0 ≡ some (i, at)
    → total x (removed di i at v) + (if i == x then 1 else 0) ≡ total x v
total-removed x di i at name v nz dir small h =
    let w = removed di i at v in
    let (k, place, used, cleared) = find_entry-Cleared x i at 0 name (v.entries di) nz h in
    let place_is : at / 16 ≡ k = ground (arith, place) in
    let change =
      sum-change v.n_inodes di (naming x w) (naming x v)
        (λ d. elim (Bool-cases (di == d)) [ inl e ↦ inl (ground arith) | inr e ↦ inr (rw e refl) ])
        small in
    let content : count_in x (w.entries di) ≡ count_in x (clear_entry k (v.entries di)) =
      ground (arith, ap (λ j. count_in x (clear_entry j (v.entries di))) place_is) in
    let here : naming x w di + (if i == x then 1 else 0) ≡ naming x v di =
      ground (arith, content, cleared) in
    omega (arith, change, here)

-- A freed directory whose entries name no file.
iunlockput-empty-naming :
    (x i : ℕ) (v : Volume)
    → count_in x (v.entries i) ≡ 0
    → (d : ℕ) → naming x (iunlockput i v) d ≡ naming x v d
unfolding iunlockput
iunlockput-empty-naming x i v h d = elim (Bool-cases (v.nlink i == 0 && v.refs i == 1)) [
  | inr e ↦ rw e refl
  | inl e ↦ rw e (elim (Bool-cases (i == d)) [
    | inr other ↦ rw other refl
    | inl same ↦
        let at_d : count_in x (v.entries d) ≡ 0 =
          ap (λ j. count_in x (v.entries j)) (ground arith) ∙ h in
        ground (arith, at_d)
  ])
]

iunlockput-empty-Counted :
    (i : ℕ) (v : Volume)
    → ((x : ℕ) → x ≢ 0 → is_file x v ≡ true → count_in x (v.entries i) ≡ 0)
    → Counted v
    → Counted (iunlockput i v)
iunlockput-empty-Counted i v empty k x nz file =
    let (same, links, _) = iunlockput-kept i v in
    let before = iunlockput-file i x v file in
    let all =
      total-same x v (iunlockput i v) same (iunlockput-empty-naming x i v (empty x nz before)) in
    omega (arith, k x nz before, all, ap (λ f. f x) links)

-- The names `.` and `..` lead to directories.
abbrev pub DotsAreDirs : Volume → List (ℕ × List ℕ) → Type 0
DotsAreDirs v [] = Unit
DotsAreDirs v (e ∷ es) = (is_dot e.1 ≡ true → (e.0 ≡ 0) ⊎ (is_dir e.0 v ≡ true)) × DotsAreDirs v es

is_dir_empty-count_in :
    (x : ℕ) (v : Volume) (es : List (ℕ × List ℕ))
    → x ≢ 0
    → is_file x v ≡ true
    → DotsAreDirs v es
    → is_dir_empty es ≡ true
    → count_in x es ≡ 0
is_dir_empty-count_in x v [] nz file dots h = refl
is_dir_empty-count_in x v (e ∷ es) nz file (here, more) h =
    let rest = is_dir_empty-count_in x v es nz file more (ground (arith, h)) in
    elim (Bool-cases (e.0 == 0)) [
      | inl free ↦ ground (arith, rest)
      | inr used ↦ elim (here (ground (arith, h))) [
        | inl free ↦ absurd (ground arith)
        | inr dir ↦ elim (Bool-cases (e.0 == x)) [
          | inr other ↦ ground (arith, rest)
          | inl same ↦
              let found_dir : is_dir x v ≡ true = ap (λ j. is_dir j v) (sym (ground arith)) ∙ dir in
              absurd (ground arith)
        ]
      ]
    ]

remove_entry-Counted :
    (di i at : ℕ) (name : List ℕ) (v : Volume)
    → Live v
    → Counted v
    → ((x : ℕ) → v.nlink x < 65536)
    → is_dir di v ≡ true
    → find_entry (v.entries di) name 0 ≡ some (i, at)
    → i ≢ di
    → (is_dir i v ≡ true → 1 < v.nlink di)
    → (is_dir i v ≡ true → (x : ℕ) → x ≢ 0 → is_file x v ≡ true → count_in x (v.entries i) ≡ 0)
    → Leaves Counted (remove_entry di i at v)
unfolding remove_entry
remove_entry-Counted di i at name v live h small dir here apart two empty =
    let w = removed di i at v in
    let put = set_refs (put_ref di w.refs) w in
    let down = link_down i put in
    let linked : (w.nlink di == 0) ≡ false = elim (Bool-cases (is_dir i v)) [
      | inl i_dir ↦ ground (arith, two i_dir, small di)
      | inr i_file ↦ ground (arith, (live di dir).1)
    ] in
    let counted : Counted down = λ x nz file.
      let sum = total-removed x di i at name v nz dir (live di dir).0 here in
      let is : is_file x v ≡ true = file in
      elim (Bool-cases (is_dir i v)) [
        | inl i_dir ↦ ground (arith, sum, h x nz is)
        | inr i_file ↦ ground (arith, sum, h x nz is, small x)
      ] in
    rw (iunlockput-linked di w linked) (elim (Bool-cases (is_dir i v)) [
      | inr i_file ↦ iunlockput-CountedBy (λ _. 0) i down (inl i_file) counted
      | inl i_dir ↦
          iunlockput-empty-Counted i down
            (λ x nz file.
              let content : count_in x (w.entries i) ≡ count_in x (v.entries i) = ground arith in
              content ∙ empty i_dir x nz file)
            counted
    ])

-- What `Live` gives for an inode that is given back.
kept : (i : ℕ) (v : Volume) → Live v → (is_dir i v ≡ false) ⊎ ((v.nlink i == 0) ≡ false)
kept i v live = elim (Bool-cases (is_dir i v)) [
  | inl dir ↦ inr (live i dir).1
  | inr file ↦ inl file
]

unlink_entry-Counted :
    (di i at : ℕ) (name : List ℕ) (v : Volume)
    → Live v
    → Counted v
    → ((x : ℕ) → v.nlink x < 65536)
    → ((d : ℕ) → DotsAreDirs v (v.entries d))
    → dirlookup (volume_dirs v) di name ≡ some (i, at)
    → (i ≢ di → is_dir i v ≡ true → is_dir_empty (v.entries i) ≡ true → 1 < v.nlink di)
    → Leaves Counted (unlink_entry di i at v)
unfolding unlink_entry
unlink_entry-Counted di i at name v live h small dots here two =
    let w = set_refs (get_ref i v.refs) v in
    let dir = dirlookup-dir di name v (i, at) here in
    let full = is_dir i w && not (is_dir_empty (w.entries i)) in
    if-Leaves Counted (i == di) deadlocks
      (if full then fails (iunlockput di (iunlockput i w)) else remove_entry di i at w) (λ _. tt)
      (λ apart.
        if-Leaves Counted full (fails (iunlockput di (iunlockput i w))) (remove_entry di i at w)
          (λ _.
            let (_, links, _) = iunlockput-kept i w in
            iunlockput-CountedBy (λ _. 0) di (iunlockput i w)
              (inr (ap (λ f. f di == 0) links ∙ (live di dir).1))
              (iunlockput-CountedBy (λ _. 0) i w (kept i w live) h))
          (λ no.
            let empty : is_dir i v ≡ true → is_dir_empty (v.entries i) ≡ true =
              λ i_dir. ground arith in
            remove_entry-Counted di i at name w live h small dir
              (sym (dirlookup_dir di name v dir) ∙ here) (ground arith)
              (λ i_dir. two (ground arith) i_dir (empty i_dir))
              (λ i_dir x nz file.
                is_dir_empty-count_in x v (v.entries i) nz file (dots i) (empty i_dir))))

-- When the files' link counts are the entries that name them, every directory has a link, `.` and `..`
-- lead to directories and a directory with an empty one in it has a link more, `unlink` keeps the
-- counts equal, by whichever branch it returns.
pub unlink_path-Counted :
    (pwd : ℕ) (path : List ℕ) (v : Volume)
    → Live v
    → Counted v
    → ((x : ℕ) → v.nlink x < 65536)
    → ((d : ℕ) → DotsAreDirs v (v.entries d))
    → ((d i at : ℕ) (name : List ℕ)
        → i ≢ d
        → dirlookup (volume_dirs v) d name ≡ some (i, at)
        → is_dir i v ≡ true
        → is_dir_empty (v.entries i) ≡ true
        → 1 < v.nlink d)
    → Leaves Counted (unlink_path pwd path v)
unfolding unlink_path
unlink_path-Counted pwd path v live h small dots inner =
    lookup_path-then Counted true pwd path v _ fails
      (λ a r q.
        let w = set_refs r v in
        elim (Option-cases (dirlookup (volume_dirs v) a.0 a.1)) [
          | inl absent ↦ rw absent (iunlockput-CountedBy (λ _. 0) a.0 w (kept a.0 w live) h)
          | inr ((i, at), e) ↦ rw e (
              unlink_entry-Counted a.0 i at a.1 w live h small dots e
                (λ other. inner a.0 i at a.1 other e))
        ])
      (λ r. h)

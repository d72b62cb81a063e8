-- ===== src/Links/Tests.antt =====
-- Inputs of the theorems on names and links.
use wei_os.Links.Outcomes.{dirlink-dirlookup}
use wei_os.Links.Remove.{DotsAreDirs, unlink_path-Counted}
use mathlib.Core.Path.{ap, sym, subst}
use wei_os.Links.Balance.{dirlookup_dir, creat-Kept, one_more}
use wei_os.Text.{strncmp, strcmp}
use wei_os.Links.Count.{IsShort, dirlookup-dir, link-Counted, Leaves, Counted, Live}
use wei_os.Links.Held.{Kept}
use wei_os.Links.{
  is_dir_empty, is_dir, volume_dirs, t_dir, iunlockput, t_file, dirlink, unlink_path, add_link,
  creat, lookup_path, link, Volume, done,
}
use wei_os.Common.{
  ◌⊎◌, ◌∙◌, ◌<◌, ◌≢◌, false, take, some, [], ◌==◌, ◌∷◌, true, ◌≡◌, arith, if◌then◌else◌, ℕ, List,
  refl,
}
use wei_os.Inode.Path.{find_entry, dirlookup, walk, namex}
use wei_os.Links.Entries.{total}
use wei_os.Common.{◌+◌, inr, inl, Bool-cases}
use wei_os.Inode.Path.{found, lost, walking, Walked}
use wei_os.Links.Held.{ParentIsDir}

abbrev dot : List ℕ
dot = b'.' ∷ []

abbrev dots : List ℕ
dots = b'.' ∷ b'.' ∷ []

-- The root, with the directory `a` and the file `f`.
abbrev root_entries : List (ℕ × List ℕ)
root_entries = (1, dot) ∷ (1, dots) ∷ (2, b'a' ∷ []) ∷ (3, b'f' ∷ []) ∷ []

abbrev small_volume : Volume
small_volume = record {
  type = λ i. if i == 1 then t_dir else if i == 2 then t_dir else if i == 3 then t_file else 0;
  nlink = λ i. if i == 1 then 2 else if i == 2 then 1 else if i == 3 then 1 else 0;
  entries = λ i. if i == 1 then root_entries else if i == 2 then (2, dot) ∷ (1, dots) ∷ [] else [];
  refs = λ i. 0;
  n_inodes = 8;
}

abbrev path_f : List ℕ
path_f = b'/' ∷ b'f' ∷ []

abbrev path_a : List ℕ
path_a = b'/' ∷ b'a' ∷ []

abbrev path_ag : List ℕ
path_ag = b'/' ∷ b'a' ∷ b'/' ∷ b'g' ∷ []

link_runs : (w : Volume) × (link 1 path_f path_ag small_volume ≡ done tt w) × (w.nlink 3 ≡ 2)
unfolding link add_link lookup_path namex walk dirlink dirlookup find_entry strncmp iunlockput
link_runs = (_, refl, refl)

number_of : Walked → ℕ
number_of (found i name r) = i
number_of (lost r) = 0
number_of walking = 0

path_ag-ParentIsDir : ParentIsDir 1 path_ag small_volume
unfolding namex walk dirlookup find_entry strncmp number_of
path_ag-ParentIsDir refs r i name h =
    let is : 2 ≡ i = ap number_of h in subst (λ j. is_dir j small_volume ≡ true) is refl

path_f-IsShort : IsShort 1 path_f small_volume
unfolding namex walk dirlookup find_entry strncmp number_of
path_f-IsShort refs r i name h = let is : 3 ≡ i = ap number_of h in omega (arith, is)

creat-Kept_example : Kept one_more small_volume.refs (creat 1 path_ag 2 small_volume)
creat-Kept_example = creat-Kept 1 path_ag 2 small_volume path_ag-ParentIsDir

small_volume-Live : Live small_volume
small_volume-Live d h = (ground arith, ground arith)

small_volume-Counted : Counted small_volume
small_volume-Counted x nz file =
    let is : 3 ≡ x = ground arith in
    subst (λ j. small_volume.nlink j ≡ total j small_volume + 0) is refl

link-Counted_example : Leaves Counted (link 1 path_f path_ag small_volume)
link-Counted_example =
    link-Counted 1 path_f path_ag small_volume small_volume-Live small_volume-Counted
      (λ x. ground arith) path_f-IsShort path_ag-ParentIsDir

small_volume-dots : (d : ℕ) → DotsAreDirs small_volume (small_volume.entries d)
unfolding strcmp
small_volume-dots d = elim (Bool-cases (d == 1)) [
  | inl e ↦ rw e (
    (λ _. inr refl),
    ((λ _. inr refl), ((λ _. inr refl), ((λ h. absurd (ground (arith, h))), tt))),
  )
  | inr e ↦ elim (Bool-cases (d == 2)) [
    | inl e2 ↦ rw (e, e2) ((λ _. inr refl), ((λ _. inr refl), tt))
    | inr e2 ↦ rw (e, e2) tt
  ]
]

small_volume-inner :
    (d i at : ℕ) (name : List ℕ)
    → i ≢ d
    → dirlookup (volume_dirs small_volume) d name ≡ some (i, at)
    → is_dir i small_volume ≡ true
    → is_dir_empty (small_volume.entries i) ≡ true
    → 1 < small_volume.nlink d
unfolding find_entry strcmp
small_volume-inner d i at name apart h dir empty =
    let d_dir = dirlookup-dir d name small_volume (i, at) h in
    let here : find_entry (small_volume.entries d) name 0 ≡ some (i, at) =
      sym (dirlookup_dir d name small_volume d_dir) ∙ h in
    elim (Bool-cases (d == 1)) [
      | inl e ↦ ground arith
      | inr e ↦
          let is : d ≡ 2 = ground arith in
          let content : find_entry ((2, dot) ∷ (1, dots) ∷ []) name 0 ≡ some (i, at) =
            ap (λ j. find_entry (small_volume.entries j) name 0) (sym is) ∙ here in
          let entry : (i ≡ 2) ⊎ (i ≡ 1) = ground (arith, content) in
          elim entry [
            | inl same ↦ absurd (apart (same ∙ sym is))
            | inr root ↦
                let full : is_dir_empty root_entries ≡ true =
                  ap (λ j. is_dir_empty (small_volume.entries j)) (sym root) ∙ empty in
                absurd (ground (arith, full))
          ]
    ]

unlink_path-Counted_example : Leaves Counted (unlink_path 1 path_f small_volume)
unlink_path-Counted_example =
    unlink_path-Counted 1 path_f small_volume small_volume-Live small_volume-Counted
      (λ x. ground arith) small_volume-dots small_volume-inner

dirlink-dirlookup_example :
    (w : Volume) × (dirlink 2 (b'g' ∷ []) 3 small_volume ≡ done tt w)
    × ((at : ℕ) × (dirlookup (volume_dirs w) 2 (b'g' ∷ []) ≡ some (3, at)))
    × ((other : List ℕ)
        → (strncmp (take 14 (b'g' ∷ [])) other 14 == 0) ≡ false
        → dirlookup (volume_dirs w) 2 other ≡ dirlookup (volume_dirs small_volume) 2 other)
    × ((d : ℕ) (other : List ℕ)
        → (2 == d) ≡ false
        → dirlookup (volume_dirs w) d other ≡ dirlookup (volume_dirs small_volume) d other)
unfolding dirlookup find_entry strncmp
dirlink-dirlookup_example =
    dirlink-dirlookup 2 3 (b'g' ∷ []) small_volume refl (λ e. ground arith) (omega arith) refl

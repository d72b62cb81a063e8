-- ===== src/Links/Outcomes.antt =====
-- A new entry of a directory is found again.
use wei_os.Links.Balance.{dirlink_done, dirlookup_dir, with_entry}
use wei_os.Text.{strncmp}
use wei_os.Links.{volume_dirs, put_entry, is_dir, Volume, dirlink, done, corrupts}
use wei_os.Common.{
  ◌^◌, ◌%◌, ◌<◌, ap, ◌∙◌, inr, sym, inl, [], ◌+◌, Bool-cases, zero, some, arith, ◌∷◌, true, false,
  none, suc, ◌==◌, ◌≡◌, ◌≢◌, take, List, ℕ, refl,
}
use wei_os.Inode.Path.{dirlookup, find_entry}

strncmp_cut : (n : ℕ) (s : List ℕ) → strncmp (take n s) s n ≡ 0
unfolding strncmp
strncmp_cut zero s = refl
strncmp_cut (suc n) [] = refl
strncmp_cut (suc n) (c ∷ s) = ground (arith, strncmp_cut n s)

put_entry-find_entry :
    (ino off : ℕ) (name : List ℕ) (es : List (ℕ × List ℕ))
    → ino ≢ 0
    → find_entry es name off ≡ none
    → (at : ℕ) × (find_entry (put_entry (ino, take 14 name) es) name off ≡ some (ino, at))
unfolding find_entry
put_entry-find_entry ino off name [] nz h = (off, ground (arith, strncmp_cut 14 name))
put_entry-find_entry ino off name (e ∷ es) nz h = elim (Bool-cases (e.0 == 0)) [
  | inl free ↦ (off, ground (arith, strncmp_cut 14 name))
  | inr used ↦
      let (at, found) = put_entry-find_entry ino (off + 16) name es nz (ground (arith, h)) in
      (at, ground (arith, found, h))
]

put_entry-find_other :
    (ino off : ℕ) (name other : List ℕ) (es : List (ℕ × List ℕ))
    → (strncmp (take 14 name) other 14 == 0) ≡ false
    → find_entry (put_entry (ino, take 14 name) es) other off ≡ find_entry es other off
unfolding find_entry
put_entry-find_other ino off name other [] h = ground (arith, h)
put_entry-find_other ino off name other (e ∷ es) h =
    ground (arith, h, put_entry-find_other ino (off + 16) name other es h)

dirlookup_file :
    (i : ℕ) (name : List ℕ) (v : Volume)
    → is_dir i v ≡ false
    → dirlookup (volume_dirs v) i name ≡ none
unfolding dirlookup
dirlookup_file i name v h = rw (h, dirlookup) refl

dirlink_file :
    (di ino : ℕ) (name : List ℕ) (v : Volume)
    → is_dir di v ≡ false
    → dirlink di name ino v ≡ corrupts di
unfolding dirlink
dirlink_file di ino name v h = rw (dirlookup_file di name v h, dirlink) (rw h refl)

-- In a directory without the name, `dirlink` of an inode with a number above 0 and of 16 bits adds the entry: a search finds the inode under the new
-- name, and finds what it found before under every name that differs in its first 14 bytes and in
-- every other directory.
pub dirlink-dirlookup :
    (di ino : ℕ) (name : List ℕ) (v : Volume)
    → is_dir di v ≡ true
    → ino ≢ 0
    → ino < 65536
    → dirlookup (volume_dirs v) di name ≡ none
    → (w : Volume) × (dirlink di name ino v ≡ done tt w)
      × ((at : ℕ) × (dirlookup (volume_dirs w) di name ≡ some (ino, at)))
      × ((other : List ℕ)
          → (strncmp (take 14 name) other 14 == 0) ≡ false
          → dirlookup (volume_dirs w) di other ≡ dirlookup (volume_dirs v) di other)
      × ((d : ℕ) (other : List ℕ)
          → (di == d) ≡ false
          → dirlookup (volume_dirs w) d other ≡ dirlookup (volume_dirs v) d other)
dirlink-dirlookup di ino name v dir nz short absent =
    let cut : ino % 2 ^ 16 ≡ ino = omega arith in
    let w = with_entry di name ino v in
    let none_here : find_entry (v.entries di) name 0 ≡ none =
      sym (dirlookup_dir di name v dir) ∙ absent in
    let (at, found) = put_entry-find_entry ino 0 name (v.entries di) nz none_here in
    let content : w.entries di ≡ put_entry (ino, take 14 name) (v.entries di) = ground arith in
    (
      w,
      dirlink_done di ino name v dir none_here,
      (at, dirlookup_dir di name w dir ∙ ap (λ es. find_entry es name 0) content ∙ found),
      (λ other apart.
          dirlookup_dir di other w dir
          ∙ ap (λ es. find_entry es other 0) content
          ∙ put_entry-find_other ino 0 name other (v.entries di) apart
          ∙ sym (dirlookup_dir di other v dir)),
      (λ d other apart. elim (Bool-cases (is_dir d v)) [
        | inr file ↦ dirlookup_file d other w file ∙ sym (dirlookup_file d other v file)
        | inl d_dir ↦
            let same : w.entries d ≡ v.entries d = ground arith in
            dirlookup_dir d other w d_dir
            ∙ ap (λ es. find_entry es other 0) same
            ∙ sym (dirlookup_dir d other v d_dir)
      ]),
    )

-- ===== src/Links/Balance.antt =====
-- The references after `link`, `unlink`, `creat` and `chdir`.
use wei_os.Text.{strncmp}
use wei_os.Links.Held.{ParentIsDir, namex-Gained, Gained, Kept}
use wei_os.Inode.Path.{find_entry, get_ref, dirlookup, put_ref, namex, found, lost, walking}
use wei_os.Links.{
  put_entry, t_file, creat_found, t_dir, is_dir_empty, first_free, clear_entry, creat, creat_new,
  fill_dir, ialloc, unlink_path, unlink_entry, update, undo_link, remove_entry, add_link, link_up,
  link, link_down, is_dir, set_refs, volume_dirs, and_then, Volume, dirlink, iunlockput,
  lookup_path, Done, done, fails, panics, deadlocks, corrupts,
}
use wei_os.Common.{
  zero, sym, ◌^◌, suc, ◌%◌, take, none, some, ap, ◌∙◌, [], ◌-◌, not, ◌/◌, ◌∷◌, false, true, arith,
  inl, inr, ◌&&◌, Bool-cases, Option-cases, ◌+◌, ◌≡◌, ◌==◌, Bool, List, if◌then◌else◌, ℕ, refl,
}

abbrev pub none_more {ℓ} : {A : Type ℓ} → A → ℕ → ℕ
none_more a x = 0

abbrev pub one_more : ℕ → ℕ → ℕ
one_more i x = if i == x then 1 else 0

and_then-Kept :
    {A B : Type 0} (p : Done A) (f : A → Volume → Done B) (g : Volume → Done B) (e : A → ℕ → ℕ)
    (e' : B → ℕ → ℕ) (start refs : ℕ → ℕ)
    → Kept e start p
    → ((a : A) (w : Volume) → ((x : ℕ) → w.refs x ≡ start x + e a x) → Kept e' refs (f a w))
    → ((w : Volume) → ((x : ℕ) → w.refs x ≡ start x) → Kept e' refs (g w))
    → Kept e' refs (and_then p f g)
and_then-Kept (done a w) f g e e' start refs h on_done on_fail = on_done a w h
and_then-Kept (fails w) f g e e' start refs h on_done on_fail = on_fail w h
and_then-Kept panics f g e e' start refs h on_done on_fail = tt
and_then-Kept deadlocks f g e e' start refs h on_done on_fail = tt
and_then-Kept (corrupts i) f g e e' start refs h on_done on_fail = h

abbrev result_more : ℕ × List ℕ → ℕ → ℕ
result_more a x = one_more a.0 x

if-Kept :
    {A : Type 0} (b : Bool) (p q : Done A) (e : A → ℕ → ℕ) (refs : ℕ → ℕ)
    → Kept e refs p
    → Kept e refs q
    → Kept e refs (if b then p else q)
if-Kept true p q e refs h k = h
if-Kept false p q e refs h k = k

lookup_then-Kept :
    {B : Type 0} (parent : Bool) (pwd : ℕ) (path : List ℕ) (v : Volume)
    (f : ℕ × List ℕ → Volume → Done B) (g : Volume → Done B) (e : B → ℕ → ℕ) (refs : ℕ → ℕ)
    → ((a : ℕ × List ℕ) (r : ℕ → ℕ)
        → namex parent (volume_dirs v) pwd path v.refs ≡ found a.0 a.1 r
        → ((x : ℕ) → r x ≡ v.refs x + one_more a.0 x)
        → Kept e refs (f a (set_refs r v)))
    → ((r : ℕ → ℕ) → ((x : ℕ) → r x ≡ v.refs x) → Kept e refs (g (set_refs r v)))
    → Kept e refs (and_then (lookup_path parent pwd path v) f g)
unfolding lookup_path
lookup_then-Kept parent pwd path v f g e refs hf hg =
    elim (namex parent (volume_dirs v) pwd path v.refs)
        as (λ w.
          namex parent (volume_dirs v) pwd path v.refs ≡ w
          → Gained v.refs w
          → Kept e refs (
              and_then
                (elim w [
                  | found i name r ↦ done (i, name) (set_refs r v)
                  | lost r ↦ fails (set_refs r v)
                  | walking ↦ deadlocks
                ])
                f g)) [
                  | found i name r ↦ λ q h. hf (i, name) r q (λ x. ground (arith, h x))
                  | lost r ↦ λ q h. hg r h
                  | walking ↦ λ q h. tt
                ]
      refl (namex-Gained parent (volume_dirs v) pwd path v.refs)

pub iunlockput-refs : (i : ℕ) (v : Volume) (x : ℕ) → (iunlockput i v).refs x ≡ put_ref i v.refs x
unfolding iunlockput
iunlockput-refs i v x = elim (Bool-cases (v.nlink i == 0 && v.refs i == 1)) [
  | inl e ↦ rw e refl
  | inr e ↦ rw e refl
]

dirlink-Kept :
    (di ino : ℕ) (name : List ℕ) (v : Volume) (refs : ℕ → ℕ)
    → is_dir di v ≡ true
    → ((x : ℕ) → v.refs x ≡ refs x)
    → Kept none_more refs (dirlink di name ino v)
unfolding dirlink
dirlink-Kept di ino name v refs dir h = elim (Option-cases (dirlookup (volume_dirs v) di name)) [
  | inr (e, here) ↦ rw (here, dirlink) (if-Kept (e.0 == di) deadlocks (fails v) none_more refs tt h)
  | inl absent ↦ rw (absent, dirlink) (rw dir (λ x. ground (arith, h x)))
]

dropped :
    (i : ℕ) (w : Volume) (refs : ℕ → ℕ)
    → ((x : ℕ) → w.refs x ≡ refs x + one_more i x)
    → (x : ℕ) → (iunlockput i w).refs x ≡ refs x
dropped i w refs h x = ground (arith, iunlockput-refs i w x, h x)

add_link-Kept :
    (pwd : ℕ) (new : List ℕ) (i : ℕ) (v : Volume) (refs : ℕ → ℕ)
    → ParentIsDir pwd new v
    → ((x : ℕ) → v.refs x ≡ refs x + one_more i x)
    → Kept none_more refs (add_link pwd new i v)
unfolding add_link
add_link-Kept pwd new i v refs dirs h =
    lookup_then-Kept true pwd new (link_up i v) _ (undo_link i) none_more refs
      (λ a r q k.
        let w = set_refs r (link_up i v) in
        and_then-Kept (dirlink a.0 a.1 i w) _ _ none_more none_more w.refs refs
          (dirlink-Kept a.0 i a.1 w w.refs (dirs v.refs r a.0 a.1 q) (λ x. refl))
          (λ _ w' l x.
            ground (
              arith,
              iunlockput-refs a.0 (iunlockput i w') x,
              iunlockput-refs i w' x,
              l x,
              k x,
              h x,
            ))
          (λ w' l x. ground (
            arith,
            iunlockput-refs i (link_down i (iunlockput a.0 w')) x,
            iunlockput-refs a.0 w' x,
            l x,
            k x,
            h x,
          )))
      (λ r k x.
        ground (arith, iunlockput-refs i (link_down i (set_refs r (link_up i v))) x, k x, h x))

-- When the parent of the new name is a directory, `link` leaves every reference as it was, on each
-- branch by which it returns.
pub link-Kept :
    (pwd : ℕ) (old new : List ℕ) (v : Volume)
    → ParentIsDir pwd new v
    → Kept none_more v.refs (link pwd old new v)
unfolding link
link-Kept pwd old new v dirs =
    lookup_then-Kept false pwd old v _ fails none_more v.refs
      (λ a r q h.
        let w = set_refs r v in
        elim (Bool-cases (is_dir a.0 w)) [
          | inl dir ↦ rw dir (dropped a.0 w v.refs h)
          | inr file ↦ rw file (add_link-Kept pwd new a.0 w v.refs dirs h)
        ])
      (λ r h. h)

remove_entry-Kept :
    (di i at : ℕ) (v : Volume) (refs : ℕ → ℕ)
    → ((x : ℕ) → v.refs x ≡ refs x + one_more i x + one_more di x)
    → Kept none_more refs (remove_entry di i at v)
unfolding remove_entry
remove_entry-Kept di i at v refs h x =
    let w : Volume = record v {
      nlink = if is_dir i v then (link_down di v).nlink else v.nlink;
      entries = update v.entries di (clear_entry (at / 16) (v.entries di));
    } in
    let one = iunlockput-refs i (link_down i (iunlockput di w)) x in
    let two = iunlockput-refs di w x in one ∙ ground (arith, two, h x)

unlink_entry-Kept :
    (di i at : ℕ) (v : Volume) (refs : ℕ → ℕ)
    → ((x : ℕ) → v.refs x ≡ refs x + one_more di x)
    → Kept none_more refs (unlink_entry di i at v)
unfolding unlink_entry
unlink_entry-Kept di i at v refs h =
    let w = set_refs (get_ref i v.refs) v in
    let more : (x : ℕ) → w.refs x ≡ refs x + one_more i x + one_more di x =
      λ x. ground (arith, h x) in
    if-Kept (i == di) deadlocks _ none_more refs tt (
      if-Kept (is_dir i w && not (is_dir_empty (w.entries i))) _ _ none_more refs
        (λ x. ground (arith, iunlockput-refs di (iunlockput i w) x, iunlockput-refs i w x, more x))
        (remove_entry-Kept di i at w refs more))

-- `unlink` leaves every reference as it was, on each branch by which it returns.
pub unlink_path-Kept :
    (pwd : ℕ) (path : List ℕ) (v : Volume) → Kept none_more v.refs (unlink_path pwd path v)
unfolding unlink_path
unlink_path-Kept pwd path v =
    lookup_then-Kept true pwd path v _ fails none_more v.refs
      (λ a r q h.
        let w = set_refs r v in
        elim (Option-cases (dirlookup (volume_dirs v) a.0 a.1)) [
          | inl absent ↦ rw absent (dropped a.0 w v.refs h)
          | inr ((i, at), e) ↦ rw e (unlink_entry-Kept a.0 i at w v.refs h)
        ])
      (λ r h. h)

abbrev pub with_entry : ℕ → List ℕ → ℕ → Volume → Volume
with_entry di name ino v = record v {
  entries = update v.entries di (put_entry (ino % 2 ^ 16, take 14 name) (v.entries di));
}

pub dirlookup_dir :
    (i : ℕ) (name : List ℕ) (v : Volume)
    → is_dir i v ≡ true
    → dirlookup (volume_dirs v) i name ≡ find_entry (v.entries i) name 0
unfolding dirlookup
dirlookup_dir i name v h = rw (h, dirlookup) refl

pub dirlink_done :
    (di ino : ℕ) (name : List ℕ) (v : Volume)
    → is_dir di v ≡ true
    → find_entry (v.entries di) name 0 ≡ none
    → dirlink di name ino v ≡ done tt (with_entry di name ino v)
unfolding dirlink
dirlink_done di ino name v dir absent =
    rw (dirlookup_dir di name v dir ∙ absent, dirlink) (rw dir refl)

empty_entry : (name : List ℕ) → find_entry [] name 0 ≡ none
unfolding find_entry
empty_entry name = refl

one_dot : (ino : ℕ) → find_entry ((ino, b'.' ∷ []) ∷ []) (b'.' ∷ b'.' ∷ []) 0 ≡ none
unfolding find_entry strncmp
one_dot ino = ground arith

-- A new directory takes its two entries.
fill_dir_made :
    (i di : ℕ) (v : Volume)
    → v.type i ≡ t_dir
    → v.entries i ≡ []
    → (w : Volume) × (fill_dir i di v ≡ done tt w)
      × ((x : ℕ) → w.refs x ≡ v.refs x)
      × ((x : ℕ) → is_dir x w ≡ is_dir x v)
unfolding fill_dir
fill_dir_made i di v dir fresh =
    let dot : List ℕ = b'.' ∷ [] in
    let dots : List ℕ = b'.' ∷ b'.' ∷ [] in
    let v1 = with_entry i dot i v in
    let is : is_dir i v ≡ true = ground arith in
    let one : dirlink i dot i v ≡ done tt v1 =
      dirlink_done i i dot v is (ap (λ es. find_entry es dot 0) fresh ∙ empty_entry dot) in
    let content : v1.entries i ≡ (i % 2 ^ 16, dot) ∷ [] =
      ground (arith, ap (put_entry (i % 2 ^ 16, dot)) fresh) in
    let two : dirlink i dots di v1 ≡ done tt (with_entry i dots di v1) =
      dirlink_done i di dots v1 is
        (ap (λ es. find_entry es dots 0) content ∙ one_dot (i % 2 ^ 16)) in
    (link_up di (with_entry i dots di v1), rw one (rw two refl), λ x. refl, λ x. refl)

creat_found-Kept :
    (di i t : ℕ) (v : Volume) (refs : ℕ → ℕ)
    → ((x : ℕ) → v.refs x ≡ refs x + one_more di x)
    → Kept one_more refs (creat_found di i t v)
unfolding creat_found
creat_found-Kept di i t v refs h =
    let w = iunlockput di (set_refs (get_ref i v.refs) v) in
    let held : (x : ℕ) → w.refs x ≡ refs x + one_more i x =
      λ x. ground (arith, iunlockput-refs di (set_refs (get_ref i v.refs) v) x, h x) in
    if-Kept (w.type i == t && w.type i == t_file) (done i w) (fails (iunlockput i w)) one_more refs
      held (dropped i w refs held)

abbrev pub allocated : ℕ → ℕ → Volume → Volume
allocated i t v = record v {
  type = update v.type i t;
  nlink = update v.nlink i 1;
  entries = update v.entries i [];
  refs = get_ref i v.refs;
}

pub ialloc_taken :
    (i t : ℕ) (v : Volume)
    → first_free (v.n_inodes - 1) 1 v.type ≡ some i
    → ialloc t v ≡ done i (allocated i t v)
unfolding ialloc
ialloc_taken i t v e = rw (e, ialloc) refl

pub ialloc_full :
    (t : ℕ) (v : Volume) → first_free (v.n_inodes - 1) 1 v.type ≡ none → ialloc t v ≡ panics
unfolding ialloc
ialloc_full t v e = rw (e, ialloc) refl

creat_link-Kept :
    (i di : ℕ) (name : List ℕ) (v : Volume) (refs : ℕ → ℕ)
    → is_dir di v ≡ true
    → ((x : ℕ) → v.refs x ≡ refs x + one_more i x + one_more di x)
    → Kept one_more refs
        (and_then (dirlink di name i v) (λ _ w. done i (iunlockput di w)) (λ w. panics))
creat_link-Kept i di name v refs dir h =
    and_then-Kept (dirlink di name i v) _ _ none_more one_more v.refs refs
      (dirlink-Kept di i name v v.refs dir (λ x. refl))
      (λ _ w k x. ground (arith, iunlockput-refs di w x, k x, h x)) (λ w k. tt)

first_free-free : (k i j : ℕ) (type : ℕ → ℕ) → first_free k i type ≡ some j → type j ≡ 0
first_free-free zero i j type h = absurd (ground arith)
first_free-free (suc k) i j type h = elim (Bool-cases (type i == 0)) [
  | inl e ↦ let same : i ≡ j = ground arith in ap type (sym same) ∙ ground arith
  | inr e ↦ first_free-free k (i + 1) j type (ground (arith, h))
]

creat_new-Kept :
    (di t : ℕ) (name : List ℕ) (v : Volume) (refs : ℕ → ℕ)
    → is_dir di v ≡ true
    → ((x : ℕ) → v.refs x ≡ refs x + one_more di x)
    → Kept one_more refs (creat_new di name t v)
unfolding creat_new
creat_new-Kept di t name v refs di_dir h =
    elim (Option-cases (first_free (v.n_inodes - 1) 1 v.type)) [
      | inl e ↦ rw (ialloc_full t v e) tt
      | inr (i, e) ↦
          let v1 = allocated i t v in
          let free = first_free-free (v.n_inodes - 1) 1 i v.type e in
          let apart : (i == di) ≡ false = elim (Bool-cases (i == di)) [
            | inr other ↦ other
            | inl same ↦
                let is : i ≡ di = ground arith in absurd (ground (arith, ap v.type is, free))
          ] in
          let still : is_dir di v1 ≡ true = ground arith in
          rw (ialloc_taken i t v e) (elim (Bool-cases (t == t_dir)) [
            | inr file ↦
                rw file (creat_link-Kept i di name v1 refs still (λ x. ground (arith, h x)))
            | inl dir ↦
                let (w, made, same, types) = fill_dir_made i di v1 (ground arith) (ground arith) in
                rw dir (
                  rw made (
                    creat_link-Kept i di name w refs (types di ∙ still)
                      (λ x. ground (arith, same x, h x))))
          ])
    ]

-- When the parent of the path is a directory, `creat` holds, on each branch by which it returns, one
-- reference more to the inode that it returns, or none when it fails, and leaves every other as it was.
pub creat-Kept :
    (pwd : ℕ) (path : List ℕ) (t : ℕ) (v : Volume)
    → ParentIsDir pwd path v
    → Kept one_more v.refs (creat pwd path t v)
unfolding creat
creat-Kept pwd path t v dirs =
    lookup_then-Kept true pwd path v _ fails one_more v.refs
      (λ a r q h.
        let w = set_refs r v in
        elim (Option-cases (dirlookup (volume_dirs v) a.0 a.1)) [
          | inl absent ↦ rw absent (creat_new-Kept a.0 t a.1 w v.refs (dirs v.refs r a.0 a.1 q) h)
          | inr ((i, at), e) ↦ rw e (creat_found-Kept a.0 i t w v.refs h)
        ])
      (λ r h. h)

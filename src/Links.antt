-- ===== src/Links.antt =====
-- The calls of kern/sysfile.c on names, with `dirlink` of kern/inode.c: the directories, the types and
-- the link counts of the inodes, and the references that the calls hold. There is one device, and its
-- blocks and inodes do not run out of space; a name buffer that nothing was written to is empty.
pub mod Held
pub mod Balance
pub mod Entries
pub mod Count
pub mod Remove
pub mod Outcomes
mod Tests
use wei_os.Text.{strcmp}
use wei_os.Common.{
  not, zero, none, ◌/◌, ◌||◌, take, [], ◌&&◌, ◌^◌, ◌%◌, ◌-◌, Option, true, false, some, ◌∷◌, ◌+◌,
  ◌==◌, if◌then◌else◌, Bool, List,
}
use Prim.Native.Nat.{suc, ℕ}
use wei_os.Inode.Path.{get_ref, put_ref, namex, dirlookup, Dirs, found, lost, walking}

-- The inodes by their numbers. A directory is the list of its entries, those with number 0 free;
-- a type is 0 (free), T_DIR, T_FILE or T_DEV.
pub record Volume : Type 0 where
  pub type : ℕ → ℕ
  pub nlink : ℕ → ℕ
  pub entries : ℕ → List (ℕ × List ℕ)
  pub refs : ℕ → ℕ
  pub n_inodes : ℕ

abbrev pub t_dir : ℕ
t_dir = 1

abbrev pub t_file : ℕ
t_file = 2

abbrev pub t_dev : ℕ
t_dev = 3

-- The outcome of a call: its result, -1, a panic, a wait for a lock that the caller holds itself, or
-- `dirlink` on an inode that is no directory: it goes on to read and write the content of that inode,
-- which this model does not have, so what the call does then is left open.
pub data Done (A : Type 0) : Type 0 where
  done : A → Volume → Done A
  fails : Volume → Done A
  panics : Done A
  deadlocks : Done A
  corrupts : ℕ → Done A

abbrev pub update {ℓ} : {A : Type ℓ} → (ℕ → A) → ℕ → A → ℕ → A
update f i a j = if i == j then a else f j

abbrev pub is_dir : ℕ → Volume → Bool
is_dir i v = v.type i == t_dir

abbrev pub volume_dirs : Volume → Dirs
volume_dirs v i = if is_dir i v then some (v.entries i) else none

abbrev pub link_up : ℕ → Volume → Volume
link_up i v = record v { nlink = update v.nlink i ((v.nlink i + 1) % 2 ^ 16) }

abbrev pub link_down : ℕ → Volume → Volume
link_down i v = record v { nlink = update v.nlink i ((v.nlink i + 2 ^ 16 - 1) % 2 ^ 16) }

abbrev pub set_refs : (ℕ → ℕ) → Volume → Volume
set_refs r v = record v { refs = r }

-- `iunlockput` of an inode that was read: the last reference without a link frees it.
unfoldable pub iunlockput : ℕ → Volume → Volume
iunlockput i v =
    let v' = set_refs (put_ref i v.refs) v in
    if v.nlink i == 0 && v.refs i == 1
    then record v' { type = update v.type i 0; entries = update v.entries i [] }
    else v'

-- The first free entry, or the end of the directory, takes the new entry.
abbrev pub put_entry : ℕ × List ℕ → List (ℕ × List ℕ) → List (ℕ × List ℕ)
put_entry e [] = e ∷ []
put_entry e (x ∷ es) = let rest = put_entry e es in if x.0 == 0 then e ∷ es else x ∷ rest

abbrev pub clear_entry : ℕ → List (ℕ × List ℕ) → List (ℕ × List ℕ)
clear_entry k [] = []
clear_entry zero (x ∷ es) = (0, []) ∷ es
clear_entry (suc k) (x ∷ es) = x ∷ clear_entry k es

-- Whether `dirlink` adds an entry. Its `iput` of an inode of the name that is there waits for the lock of
-- the directory when it is that directory; the number is cut to 16 bits. The size of a directory is a
-- multiple of that of an entry.
unfoldable pub dirlink : ℕ → List ℕ → ℕ → Volume → Done (Unit {0})
unfolding dirlookup
dirlink di name ino v = elim (dirlookup (volume_dirs v) di name) [
  | some (i, at) ↦ if i == di then deadlocks else fails v
  | none ↦
      if is_dir di v
      then done tt (record v {
        entries = update v.entries di (put_entry (ino % 2 ^ 16, take 14 name) (v.entries di));
      })
      else corrupts di
]

abbrev pub and_then : {A B : Type 0} → Done A → (A → Volume → Done B) → (Volume → Done B) → Done B
and_then (done a v) f g = f a v
and_then (fails v) f g = g v
and_then panics f g = panics
and_then deadlocks f g = deadlocks
and_then (corrupts i) f g = corrupts i

-- `namei` and `namep` from the working directory.
unfoldable pub lookup_path : Bool → ℕ → List ℕ → Volume → Done (ℕ × List ℕ)
unfolding namex
lookup_path parent pwd path v = elim (namex parent (volume_dirs v) pwd path v.refs) [
  | found i name r ↦ done (i, name) (set_refs r v)
  | lost r ↦ fails (set_refs r v)
  | walking ↦ deadlocks
]

-- The failure of `link` behind the new link count.
abbrev pub undo_link : ℕ → Volume → Done (Unit {0})
undo_link i v = fails (iunlockput i (link_down i v))

-- `link` of the inode that the old name led to.
unfoldable pub add_link : ℕ → List ℕ → ℕ → Volume → Done (Unit {0})
unfolding lookup_path dirlink iunlockput
add_link pwd new i v =
    and_then (lookup_path true pwd new (link_up i v))
      (λ (di, name) w.
        and_then (dirlink di name i w) (λ _ w'. done tt (iunlockput di (iunlockput i w')))
          (λ w'. undo_link i (iunlockput di w')))
      (undo_link i)

unfoldable pub link : ℕ → List ℕ → List ℕ → Volume → Done (Unit {0})
unfolding lookup_path add_link
link pwd old new v =
    and_then (lookup_path false pwd old v)
      (λ (i, _) w. if is_dir i w then fails (iunlockput i w) else add_link pwd new i w) fails

-- A directory whose entries in use are named `.` and `..`.
abbrev pub is_dot : List ℕ → Bool
is_dot name = strcmp name (b'.' ∷ []) == 0 || strcmp name (b'.' ∷ b'.' ∷ []) == 0

abbrev pub is_dir_empty : List (ℕ × List ℕ) → Bool
is_dir_empty [] = true
is_dir_empty (e ∷ es) = (e.0 == 0 || is_dot e.1) && is_dir_empty es

-- The part of `unlink` that takes the entry away; `i` is the inode and `at` the offset of the entry.
unfoldable pub remove_entry : ℕ → ℕ → ℕ → Volume → Done (Unit {0})
unfolding iunlockput
remove_entry di i at v =
    let w : Volume = record v {
      nlink = if is_dir i v then (link_down di v).nlink else v.nlink;
      entries = update v.entries di (clear_entry (at / 16) (v.entries di));
    } in
    done tt (iunlockput i (link_down i (iunlockput di w)))

-- `unlink` of an entry that was found.
unfoldable pub unlink_entry : ℕ → ℕ → ℕ → Volume → Done (Unit {0})
unfolding remove_entry iunlockput
unlink_entry di i at v =
    let w = set_refs (get_ref i v.refs) v in
    if i == di
    then deadlocks
    else if is_dir i w && not (is_dir_empty (w.entries i))
    then fails (iunlockput di (iunlockput i w))
    else remove_entry di i at w

unfoldable pub unlink_path : ℕ → List ℕ → Volume → Done (Unit {0})
unfolding lookup_path dirlookup unlink_entry iunlockput
unlink_path pwd path v =
    and_then (lookup_path true pwd path v)
      (λ (di, name) w. elim (dirlookup (volume_dirs w) di name) [
        | none ↦ fails (iunlockput di w)
        | some (i, at) ↦ unlink_entry di i at w
      ])
      fails

-- The first free inode from number `i` on, among the `k` that follow.
abbrev pub first_free : ℕ → ℕ → (ℕ → ℕ) → Option ℕ
first_free zero i type = none
first_free (suc k) i type =
    let rest = first_free k (i + 1) type in if type i == 0 then some i else rest

-- `ialloc` and the `ilock` and `iupdate` behind it: a new inode with one link and no content.
unfoldable pub ialloc : ℕ → Volume → Done ℕ
ialloc t v = elim (first_free (v.n_inodes - 1) 1 v.type) [
  | none ↦ panics
  | some i ↦ done i (record v {
    type = update v.type i t;
    nlink = update v.nlink i 1;
    entries = update v.entries i [];
    refs = get_ref i v.refs;
  })
]

-- The entries of a new directory, and the link that its `..` is to the parent.
unfoldable pub fill_dir : ℕ → ℕ → Volume → Done (Unit {0})
unfolding dirlink
fill_dir i di v =
    and_then (dirlink i (b'.' ∷ []) i v)
      (λ _ v1.
        and_then (dirlink i (b'.' ∷ b'.' ∷ []) di v1) (λ _ v2. done tt (link_up di v2)) fails)
      fails

-- `creat` of a name that is there, and of a new one; the result is locked and has a reference.
unfoldable pub creat_found : ℕ → ℕ → ℕ → Volume → Done ℕ
unfolding iunlockput
creat_found di i t v =
    let w = iunlockput di (set_refs (get_ref i v.refs) v) in
    if w.type i == t && w.type i == t_file then done i w else fails (iunlockput i w)

unfoldable pub creat_new : ℕ → List ℕ → ℕ → Volume → Done ℕ
unfolding ialloc fill_dir dirlink iunlockput
creat_new di name t v =
    and_then (ialloc t v)
      (λ i v1.
        and_then (if t == t_dir then fill_dir i di v1 else done tt v1)
          (λ _ v2.
            and_then (dirlink di name i v2) (λ _ v3. done i (iunlockput di v3)) (λ w. panics))
          (λ w. fails (iunlockput i w)))
      fails

unfoldable pub creat : ℕ → List ℕ → ℕ → Volume → Done ℕ
unfolding lookup_path dirlookup creat_found creat_new
creat pwd path t v =
    and_then (lookup_path true pwd path v)
      (λ (di, name) w. elim (dirlookup (volume_dirs w) di name) [
        | some (i, at) ↦ creat_found di i t w
        | none ↦ creat_new di name t w
      ])
      fails

-- `mknod` and `mkdir`.
unfoldable pub make : ℕ → List ℕ → ℕ → Volume → Done (Unit {0})
unfolding creat iunlockput
make pwd path t v = and_then (creat pwd path t v) (λ i w. done tt (iunlockput i w)) fails

-- `chdir`, with the new working directory.
unfoldable pub chdir : ℕ → List ℕ → Volume → Done ℕ
unfolding lookup_path iunlockput
chdir pwd path v =
    and_then (lookup_path false pwd path v)
      (λ (i, _) w. if is_dir i w then done i (iunlockput pwd w) else fails (iunlockput i w)) fails

-- The inode part of `open`, with the flag O_CREAT and whether O_RDONLY is set.
unfoldable pub open_inode : Bool → Bool → ℕ → List ℕ → Volume → Done ℕ
unfolding creat lookup_path iunlockput
open_inode create read_only pwd path v =
    if create
    then creat pwd path t_file v
    else and_then (lookup_path false pwd path v)
        (λ (i, _) w. if is_dir i w && not read_only then fails (iunlockput i w) else done i w) fails

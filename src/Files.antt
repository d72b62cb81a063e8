-- ===== src/Files.antt =====
-- kern/file.c: the table of open files and its reference counts, and the descriptor functions of
-- kern/sysfile.c over it. A `struct file` is named by its address, a number; 0 is the null pointer.
-- What the end of an inode or of a pipe does (`iput`, `pipe_close`) is recorded as an event.
pub mod Table
pub mod Descriptors
pub mod Flags
mod Tests
use wei_os.Common.{
  ℕ, zero, suc, ◌+◌, ◌-◌, ◌*◌, ◌/◌, ◌%◌, ◌^◌, Bool, true, false, not, ◌&&◌, ◌||◌, Option, none,
  some, List, [], ◌∷◌, ◌==◌, ltb, leb, if◌then◌else◌, get_or, set, drop, test_bit,
}

-- FS_NONE, FS_PIPE; any other type has an inode.
pub data Kind : Type 0 where
  fs_none fs_inode fs_pipe : Kind

-- `struct file`; `object` is the pipe or the inode.
pub record File : Type 0 where
  pub kind : Kind
  pub ref : ℕ
  pub offset : ℕ
  pub flag : ℕ
  pub object : ℕ

-- What `file_close` hands on when the last reference goes: the transaction around `iput`, or
-- `pipe_close` with its `writend`.
pub data Event : Type 0 where
  put_inode : ℕ → Event
  close_pipe : ℕ → Bool → Event

-- `struct ftable`, with the files and the events so far.
pub record Ftable : Type 0 where
  pub n_openfiles : ℕ
  pub flist : List ℕ
  pub file : ℕ → File
  pub events : List Event

abbrev pub nfile : ℕ
nfile = 200

abbrev pub update {ℓ} : {A : Type ℓ} → (ℕ → A) → ℕ → A → ℕ → A
update f i a j = if i == j then a else f j

abbrev pub blank_file : File
blank_file = record { kind = fs_none; ref = 1; offset = 0; flag = 0; object = 0 }

-- The loop of `ftable_init` over the addresses that `kmalloc` returns.
pub ftable_list : List ℕ → List ℕ → List ℕ
ftable_list [] acc = acc
ftable_list (f ∷ fs) acc = ftable_list fs (f ∷ acc)

pub ftable_init : List ℕ → Ftable
unfolding ftable_list
ftable_init addresses = record {
  n_openfiles = 0;
  flist = ftable_list addresses [];
  file = λ f. record blank_file { ref = 0 };
  events = [];
}

-- `none` is a panic; a result of 0 is the null pointer. With the count below NFILE the list is
-- taken to hold a file (`Table.IsValid`); the code would take its head for one.
pub file_alloc : Ftable → Option (ℕ × Ftable)
file_alloc t = if t.n_openfiles == nfile then some (0, t) else elim t.flist [
  | [] ↦ none
  | f ∷ rest ↦ some (
    f,
    record t { flist = rest; file = update t.file f blank_file; n_openfiles = t.n_openfiles + 1 },
  )
]

pub file_dup : ℕ → Ftable → Option Ftable
file_dup f t =
    if f == 0 || (t.file f).ref == 0
    then none
    else some (record t { file = update t.file f (referenced (t.file f)) })
  where
    referenced : File → File
    referenced r = record r { ref = r.ref + 1 }

-- The second half of `file_close`, on a copy of the file.
pub finish_close : File → List Event → List Event
finish_close r es = elim r.kind [
  | fs_none ↦ es
  | fs_inode ↦ put_inode r.object ∷ es
  | fs_pipe ↦ close_pipe r.object (test_bit r.flag 1) ∷ es
]

pub file_close : ℕ → Ftable → Option Ftable
unfolding finish_close
file_close f t =
    let r = t.file f in
    if r.ref == 0
    then none
    else if ltb 0 (r.ref - 1)
    then some (record t { file = update t.file f (released r) })
    else some (record t {
      file = update t.file f (closed r);
      n_openfiles = t.n_openfiles - 1;
      flist = f ∷ t.flist;
      events = finish_close r t.events;
    })
  where
    released : File → File
    released r = record r { ref = r.ref - 1 }

    closed : File → File
    closed r = record r { ref = r.ref - 1; kind = fs_none }

-- A process's descriptors and their number.
pub record Fds : Type 0 where
  pub n_opfiles : ℕ
  pub open_file_table : List ℕ

abbrev pub nofile : ℕ
nofile = 16

-- The first null entry from `fd` on.
pub first_null : ℕ → List ℕ → Option ℕ
first_null fd [] = none
first_null fd (f ∷ fs) = let later = first_null (fd + 1) fs in if f == 0 then some fd else later

-- `none` is -1.
pub fd_alloc : Fds → Option ℕ
fd_alloc d = if d.n_opfiles == nofile then none else first_null 0 d.open_file_table

abbrev pub is_bad_fd : ℕ → Bool
is_bad_fd fd = leb nofile fd

pub data Result (A : Type 0) : Type 0 where
  ok : A → Fds → Ftable → Result A
  failed : Result A
  panics : Result A

pub dup : ℕ → Fds → Ftable → Result ℕ
dup fd d t =
    let f = get_or d.open_file_table fd 0 in
    if is_bad_fd fd
    then failed
    else if f == 0 || d.n_opfiles == nofile
    then failed
    else elim (fd_alloc d) [
      | none ↦ failed
      | some fd2 ↦ elim (file_dup f t) [
        | none ↦ panics
        | some t' ↦
            ok fd2
              (record {
                n_opfiles = d.n_opfiles + 1;
                open_file_table = set d.open_file_table fd2 f;
              })
              t'
      ]
    ]

pub close : ℕ → Fds → Ftable → Result ℕ
close fd d t =
    let f = get_or d.open_file_table fd 0 in
    if is_bad_fd fd
    then failed
    else if f == 0
    then ok 0 (record d { open_file_table = set d.open_file_table fd 0 }) t
    else elim (file_close f t) [
      | none ↦ panics
      | some t' ↦
          ok 0
            (record { n_opfiles = d.n_opfiles - 1; open_file_table = set d.open_file_table fd 0 })
            t'
    ]

-- The second half of `dup2`, once `newfd` is closed.
pub dup2_onto : ℕ → ℕ → Fds → Ftable → Result ℕ
dup2_onto oldfd newfd d t =
    let f = get_or d.open_file_table oldfd 0 in
    let table = set d.open_file_table newfd f in
    if f == 0 then ok 0 (record d { open_file_table = table }) t else elim (file_dup f t) [
      | none ↦ panics
      | some t' ↦ ok 0 (record { n_opfiles = d.n_opfiles + 1; open_file_table = table }) t'
    ]

pub dup2 : ℕ → ℕ → Fds → Ftable → Result ℕ
unfolding dup2_onto
dup2 oldfd newfd d t =
    let g = get_or d.open_file_table newfd 0 in
    if is_bad_fd oldfd || is_bad_fd newfd
    then failed
    else if oldfd == newfd
    then ok newfd d t
    else if g == 0
    then dup2_onto oldfd newfd d t
    else elim (file_close g t) [
      | none ↦ panics
      | some t' ↦ dup2_onto oldfd newfd (record d { n_opfiles = d.n_opfiles - 1 }) t'
    ]

-- The two searches of `pipe`: the first entry from `i` on that is not null, or the end.
pub first_used : ℕ → List ℕ → ℕ
first_used i [] = i
first_used i (f ∷ fs) = let later = first_used (i + 1) fs in if f == 0 then later else i

-- The descriptors that `pipe` chooses, before `pipe_alloc` writes the two files there; `none` is -1.
pub pipe_fds : Fds → Option (ℕ × ℕ)
pipe_fds d =
    let fd1 = first_used 0 d.open_file_table in
    let fd2 = first_used (fd1 + 1) (drop (fd1 + 1) d.open_file_table) in
    if ltb (nofile - d.n_opfiles) 2 then none else some (fd1, fd2)

abbrev pub flag_bit : ℕ → ℕ → ℕ
flag_bit flag k = if test_bit flag k then 1 else 0

-- The test of `open`: at most one of O_RDONLY (1), O_WRONLY (2) and O_RDWR (4).
pub exclusive : ℕ → Bool
exclusive flag = leb (flag_bit flag 0 + flag_bit flag 1 + flag_bit flag 2) 1

-- The guards of `file_read` and `file_write`: O_RDONLY or O_RDWR, O_WRONLY or O_RDWR.
pub may_read : ℕ → Ftable → Bool
may_read f t =
    let r = t.file f in
    not (f == 0) && elim r.kind [ fs_none ↦ false | _ ↦ test_bit r.flag 0 || test_bit r.flag 2 ]

pub may_write : ℕ → Ftable → Bool
may_write f t =
    let r = t.file f in
    not (f == 0) && elim r.kind [ fs_none ↦ false | _ ↦ test_bit r.flag 1 || test_bit r.flag 2 ]

-- ===== src/Files/Tests.antt =====
-- A table in which a process holds one file by two descriptors, and the theorems at it.
use wei_os.Common.{
  ℕ, zero, suc, ◌≡◌, refl, inl, inr, some, List, [], ◌∷◌, arith, Bool-cases, ◌==◌, if◌then◌else◌,
  replicate,
}
use wei_os.Files.{Ftable, File, Kind, Fds, blank_file, file_close, dup2}
use wei_os.Files.Table
use wei_os.Files.Table.{file_alloc_lem, file_dup_lem, file_close_lem}
use wei_os.Files.Descriptors.{IsBalanced, Keeps, dup2-IsBalanced}

abbrev countdown : ℕ → List ℕ
countdown zero = []
countdown (suc n) = suc n ∷ countdown n

abbrev shared : File
shared = record { kind = Kind.fs_pipe; ref = 3; offset = 0; flag = 2; object = 9 }

abbrev files : ℕ → File
files f = if f == 200 then shared else record blank_file { ref = 0 }

abbrev table : Ftable
table = record { n_openfiles = 1; flist = countdown 199; file = files; events = [] }

abbrev fds : Fds
fds = record { n_opfiles = 2; open_file_table = 200 ∷ 0 ∷ 200 ∷ replicate 13 0 }

-- One more reference is held by another process.
abbrev elsewhere : ℕ → ℕ
elsewhere f = if f == 200 then 1 else 0

table-IsValid : Table.IsValid table
table-IsValid = record {
  total = refl;
  unreferenced = λ f. elim (Bool-cases (f == 200)) [
    | inl same ↦ (let e : f ≡ 200 = ground arith in inl (rw e refl))
    | inr apart ↦ inr (rw apart)
  ];
  distinct = refl;
  no_null = refl;
  opened = 200 ∷ [];
  counted = refl;
  referenced = λ f. ground arith;
  opened_once = refl;
}

fds-IsBalanced : IsBalanced elsewhere fds table
fds-IsBalanced = record {
  table = table-IsValid;
  slots = refl;
  refs = λ f. ground arith;
  opened = refl;
}

-- Closing both descriptors leaves the other process's reference.
closes_both :
    (file_close 200 table)
    ≡ some (record table { file = λ f. if 200 == f then record shared { ref = 2 } else files f })
unfolding file_close
closes_both = refl

dup2-IsBalanced_example : Keeps elsewhere (dup2 2 0 fds table)
dup2-IsBalanced_example = dup2-IsBalanced elsewhere 2 0 fds table fds-IsBalanced

-- ===== src/Files/Descriptors.antt =====
-- The descriptors of a process against the reference counts of the files behind them.
use mathlib.Core.Path.{subst}
use wei_os.Common.{
  count-le-length, set-set, set-get_or, get_or-set_ne, get_or-set_self, sym, ap, ◌∙◌, ◌||◌, ◌||◌,
  ◌∙◌, ℕ, suc, ◌+◌, ◌-◌, ◌≤◌, ◌<◌, ◌≡◌, refl, ◌≢◌, ◌⊎◌, inl, inr, some, List, [], ◌∷◌, arith,
  Bool-cases, Option-cases, ◌==◌, if◌then◌else◌, length, get_or, set, count, count-set,
  count-get_or, length-set,
}
use wei_os.Files.{
  Ftable, Fds, nofile, is_bad_fd, Result, ok, failed, panics, first_null, fd_alloc, dup, close,
  dup2_onto, dup2, first_used, pipe_fds,
}
use wei_os.Files.Table
use wei_os.Files.Table.{file_dup_lem, file_close_lem}

-- `held f` references to `f` are held elsewhere: by other processes and by calls in progress.
-- Every other reference is a descriptor of this process, and `n_opfiles` counts those.
pub record IsBalanced (held : ℕ → ℕ) (d : Fds) (t : Ftable) : Type 0 where
  pub table : Table.IsValid t
  pub slots : length d.open_file_table ≡ nofile
  pub refs : (f : ℕ) → (f ≡ 0) ⊎ ((t.file f).ref ≡ count f d.open_file_table + held f)
  pub opened : d.n_opfiles + count 0 d.open_file_table ≡ nofile

first_null-lem :
    (k : ℕ) (l : List ℕ) {fd : ℕ}
    → first_null k l ≡ some fd
    → (i : ℕ) × (fd ≡ k + i) × (i < length l) × (get_or l i 0 ≡ 0)
unfolding first_null
first_null-lem k [] h = absurd (cc)
first_null-lem k (x ∷ xs) {fd} h = elim (Bool-cases (x == 0)) [
  | inl hit ↦ (0, ground arith, omega arith, ground arith)
  | inr miss ↦
      let (i, e, lt, at) = first_null-lem (k + 1) xs {fd = fd} (ground arith) in
      (suc i, omega (arith, e), omega (arith, lt), at)
]

-- What a call that succeeds leaves: the references in step, and no panic.
abbrev pub Keeps : (ℕ → ℕ) → Result ℕ → Type 0
Keeps held (ok n d t) = IsBalanced held d t
Keeps held failed = Unit {0}
Keeps held panics = ⊥

-- A free slot takes a file that has gained a reference.
assign-IsBalanced :
    (held : ℕ → ℕ) (i f : ℕ) (d : Fds) (t t' : Ftable)
    → IsBalanced held d t
    → i < nofile
    → get_or d.open_file_table i 0 ≡ 0
    → f ≢ 0
    → Table.IsValid t'
    → ((g : ℕ) → (t'.file g).ref ≡ (t.file g).ref + (if f == g then 1 else 0))
    → IsBalanced held
        (record { n_opfiles = d.n_opfiles + 1; open_file_table = set d.open_file_table i f })
        t'
assign-IsBalanced held i f d t t' b small free_slot ne v gain =
    let l = d.open_file_table in
    record {
      table = v;
      slots = length-set l i f ∙ b.slots;
      refs = λ g. ground (arith, b.refs g, gain g, count-set g l i f);
      opened = ground (arith, b.opened, count-set 0 l i f);
    }

-- A slot is cleared whose file has lost a reference.
clear-IsBalanced :
    (held : ℕ → ℕ) (i f : ℕ) (d : Fds) (t t' : Ftable)
    → IsBalanced held d t
    → i < nofile
    → get_or d.open_file_table i 0 ≡ f
    → f ≢ 0
    → Table.IsValid t'
    → ((g : ℕ) → (t'.file g).ref + (if f == g then 1 else 0) ≡ (t.file g).ref)
    → IsBalanced held
        (record { n_opfiles = d.n_opfiles - 1; open_file_table = set d.open_file_table i 0 })
        t'
clear-IsBalanced held i f d t t' b small slot ne v loss =
    let l = d.open_file_table in
    record {
      table = v;
      slots = length-set l i 0 ∙ b.slots;
      refs = λ g. ground (arith, b.refs g, loss g, count-set g l i 0);
      opened = ground (
        arith,
        b.opened,
        b.slots,
        count-set 0 l i 0,
        length-set l i 0,
        count-le-length 0 (set l i 0),
      );
    }

-- A file behind a descriptor is referenced.
slot-referenced :
    (held : ℕ → ℕ) (i : ℕ) (d : Fds) (t : Ftable)
    → IsBalanced held d t
    → i < nofile
    → get_or d.open_file_table i 0 ≢ 0
    → (t.file (get_or d.open_file_table i 0)).ref ≢ 0
slot-referenced held i d t b small ne =
    let f = get_or d.open_file_table i 0 in
    ground (arith, b.refs f, count-get_or d.open_file_table i f (omega (arith, b.slots)) refl)

-- `dup` keeps the reference counts in step with the descriptors, and never panics.
pub dup-IsBalanced :
    (held : ℕ → ℕ) (fd : ℕ) (d : Fds) (t : Ftable) → IsBalanced held d t → Keeps held (dup fd d t)
unfolding dup fd_alloc
dup-IsBalanced held fd d t b =
    let l = d.open_file_table in
    let f = get_or l fd 0 in
    elim (Bool-cases (is_bad_fd fd || (f == 0 || d.n_opfiles == nofile))) [
      | inl refused ↦
          let run : dup fd d t ≡ failed = ground arith in subst (Keeps held) (sym run) tt
      | inr allowed ↦ elim (Option-cases (first_null 0 l)) [
        | inl no_slot ↦
            let run : dup fd d t ≡ failed = ground arith in subst (Keeps held) (sym run) tt
        | inr (fd2, e) ↦
            let (i, same, lt, null_slot) = first_null-lem 0 l {fd = fd2} e in
            let ne : f ≢ 0 = ground arith in
            let small : fd < nofile = ground arith in
            let (t', dups, v, gain) =
              file_dup_lem f t b.table ne (slot-referenced held fd d t b small ne) in
            let at : i ≡ fd2 = omega (arith, same) in
            let out : Result ℕ =
              ok fd2 (record { n_opfiles = d.n_opfiles + 1; open_file_table = set l fd2 f }) t' in
            let run : dup fd d t ≡ out = ground arith in
            subst (Keeps held) (sym run) (
              assign-IsBalanced held fd2 f d t t' b (omega (arith, lt, at, b.slots))
                (rw at at null_slot) ne v gain)
      ]
    ]

-- `close` keeps the reference counts in step with the descriptors, and never panics.
pub close-IsBalanced :
    (held : ℕ → ℕ) (fd : ℕ) (d : Fds) (t : Ftable) → IsBalanced held d t → Keeps held (close fd d t)
unfolding close
close-IsBalanced held fd d t b =
    let l = d.open_file_table in
    let f = get_or l fd 0 in
    elim (Bool-cases (is_bad_fd fd)) [
      | inl bad ↦ let run : close fd d t ≡ failed = ground arith in subst (Keeps held) (sym run) tt
      | inr good ↦ elim (Bool-cases (f == 0)) [
        | inl null_slot ↦
            let e : f ≡ 0 = ground arith in
            let same : set l fd 0 ≡ l = ap (λ v. set l fd v) (sym e) ∙ set-get_or l fd 0 in
            let run : close fd d t ≡ ok 0 d t = ground arith in subst (Keeps held) (sym run) b
        | inr used ↦
            let ne : f ≢ 0 = ground arith in
            let small : fd < nofile = ground arith in
            let (t', closes, v, loss, _) =
              file_close_lem f t b.table ne (slot-referenced held fd d t b small ne) in
            let out : Result ℕ =
              ok 0 (record { n_opfiles = d.n_opfiles - 1; open_file_table = set l fd 0 }) t' in
            let run : close fd d t ≡ out = ground arith in
            subst (Keeps held) (sym run) (clear-IsBalanced held fd f d t t' b small refl ne v loss)
      ]
    ]

-- The end of `dup2`, where `newfd` is closed but its slot not yet cleared.
dup2_onto-IsBalanced :
    (held : ℕ → ℕ) (oldfd newfd : ℕ) (d : Fds) (t : Ftable)
    → oldfd ≢ newfd
    → oldfd < nofile
    → newfd < nofile
    → length d.open_file_table ≡ nofile
    → IsBalanced held (record d { open_file_table = set d.open_file_table newfd 0 }) t
    → Keeps held (dup2_onto oldfd newfd d t)
unfolding dup2_onto
dup2_onto-IsBalanced held oldfd newfd d t apart old_small new_small slots b =
    let l = d.open_file_table in
    let f = get_or l oldfd 0 in
    let d0 : Fds = record d { open_file_table = set l newfd 0 } in
    let unmoved : get_or (set l newfd 0) oldfd 0 ≡ f =
      get_or-set_ne l newfd oldfd 0 0 (λ e. apart (sym e)) in
    elim (Bool-cases (f == 0)) [
      | inl null_slot ↦
          let e : f ≡ 0 = ground arith in
          let run : dup2_onto oldfd newfd d t ≡ ok 0 d0 t = ground arith in
          subst (Keeps held) (sym run) b
      | inr used ↦
          let ne : f ≢ 0 = ground arith in
          let some_ref : (t.file f).ref ≢ 0 =
            rw unmoved at (slot-referenced held oldfd d0 t b old_small (rw unmoved ne)) in
          let (t', dups, v, gain) = file_dup_lem f t b.table ne some_ref in
          let out : Result ℕ =
            ok 0 (record { n_opfiles = d.n_opfiles + 1; open_file_table = set l newfd f }) t' in
          let run : dup2_onto oldfd newfd d t ≡ out = ground arith in
          let done =
            assign-IsBalanced held newfd f d0 t t' b new_small
              (get_or-set_self l newfd 0 0 (omega (arith, slots))) ne v gain in
          subst (Keeps held) (sym run) (rw set-set at done)
    ]

-- `dup2` keeps the reference counts in step with the descriptors, and never panics.
pub dup2-IsBalanced :
    (held : ℕ → ℕ) (oldfd newfd : ℕ) (d : Fds) (t : Ftable)
    → IsBalanced held d t
    → Keeps held (dup2 oldfd newfd d t)
unfolding dup2
dup2-IsBalanced held oldfd newfd d t b =
    let l = d.open_file_table in
    let g = get_or l newfd 0 in
    elim (Bool-cases ((is_bad_fd oldfd || is_bad_fd newfd))) [
      | inl bad ↦
          let run : dup2 oldfd newfd d t ≡ failed = ground arith in subst (Keeps held) (sym run) tt
      | inr good ↦ elim (Bool-cases (oldfd == newfd)) [
        | inl same ↦
            let run : dup2 oldfd newfd d t ≡ ok newfd d t = ground arith in
            subst (Keeps held) (sym run) b
        | inr apart ↦ elim (Bool-cases (g == 0)) [
          | inl null_slot ↦
              let e : g ≡ 0 = ground arith in
              let same : set l newfd 0 ≡ l =
                ap (λ v. set l newfd v) (sym e) ∙ set-get_or l newfd 0 in
              let run : dup2 oldfd newfd d t ≡ dup2_onto oldfd newfd d t = ground arith in
              subst (Keeps held) (sym run) (
                dup2_onto-IsBalanced held oldfd newfd d t (ground arith) (ground arith)
                  (ground arith) b.slots (rw same b))
          | inr used ↦
              let ne : g ≢ 0 = ground arith in
              let small : newfd < nofile = ground arith in
              let (t', closes, v, loss, _) =
                file_close_lem g t b.table ne (slot-referenced held newfd d t b small ne) in
              let d1 : Fds = record d { n_opfiles = d.n_opfiles - 1 } in
              let run : dup2 oldfd newfd d t ≡ dup2_onto oldfd newfd d1 t' = ground arith in
              subst (Keeps held) (sym run) (
                dup2_onto-IsBalanced held oldfd newfd d1 t' (ground arith) (ground arith) small
                  b.slots (clear-IsBalanced held newfd g d t t' b small refl ne v loss))
        ]
      ]
    ]

first_used-lem :
    (k : ℕ) (l : List ℕ)
    → (i : ℕ) × (first_used k l ≡ k + i) × (i ≤ length l) × ((i ≡ length l) ⊎ (get_or l i 0 ≢ 0))
unfolding first_used
first_used-lem k [] = (0, omega arith, omega arith, inl refl)
first_used-lem k (x ∷ xs) = elim (Bool-cases (x == 0)) [
  | inl skip ↦
      let (i, e, le, at) = first_used-lem (k + 1) xs in
      (suc i, ground (arith, e), omega (arith, le), ground (arith, at))
  | inr hit ↦ (0, ground arith, omega arith, inr (ground arith))
]

-- The first descriptor that `pipe` chooses is never a free one: it is one that is in use, or lies
-- behind the end of the table.
pub pipe_fds_in_use :
    (d : Fds) {fd1 fd2 : ℕ}
    → length d.open_file_table ≡ nofile
    → pipe_fds d ≡ some (fd1, fd2)
    → (fd1 ≡ nofile) ⊎ (get_or d.open_file_table fd1 0 ≢ 0)
unfolding pipe_fds
pipe_fds_in_use d {fd1} slots h =
    let (i, e, le, at) = first_used-lem 0 d.open_file_table in
    let same : i ≡ fd1 = ground (arith, e) in rw (← same) (ground (arith, at))

-- ===== src/Files/Table.antt =====
-- The table of open files: which are free, and how often each open one is referenced.
use wei_os.Common.{
  List, unlink, length-unlink, has-unlink, nodup-unlink, ℕ, ◌+◌, ◌-◌, ◌≡◌, refl, ◌≢◌, ◌⊎◌, inl, inr,
  true, false, some, ◌∷◌, arith, Bool-cases, List-cases, ◌==◌, ltb, if◌then◌else◌, length, has,
  nodup, unlink, length-unlink, has-unlink, nodup-unlink,
}
use wei_os.Files.{
  Ftable, File, Kind, nfile, update, blank_file, file_alloc, file_dup, file_close, finish_close,
}

-- The free list holds NFILE less the open files, each once, and none that is referenced; `opened`
-- are the referenced ones.
pub record IsValid (t : Ftable) : Type 0 where
  pub total : t.n_openfiles + length t.flist ≡ nfile
  pub unreferenced : (f : ℕ) → (has f t.flist ≡ false) ⊎ ((t.file f).ref ≡ 0)
  pub distinct : nodup t.flist ≡ true
  pub no_null : has 0 t.flist ≡ false
  pub opened : List ℕ
  pub counted : t.n_openfiles ≡ length opened
  pub referenced : (f : ℕ) → has f opened ≡ ltb 0 (t.file f).ref
  pub opened_once : nodup opened ≡ true

-- On a valid table `file_alloc` never panics and keeps it valid. With NFILE files open it returns
-- the null pointer and changes nothing; otherwise it returns a file that nothing referred to, which
-- then has one reference, and every other file is as before.
pub file_alloc_lem :
    (t : Ftable)
    → IsValid t
    → (f : ℕ) × (t' : Ftable) × (file_alloc t ≡ some (f, t'))
      × IsValid t'
      × (((t.n_openfiles ≡ nfile) × (f ≡ 0) × (t' ≡ t))
          ⊎ ((f ≢ 0)
              × ((t.file f).ref ≡ 0)
              × ((t'.file f).ref ≡ 1)
              × (t'.n_openfiles ≡ t.n_openfiles + 1)
              × ((g : ℕ) → (g ≡ f) ⊎ (t'.file g ≡ t.file g))))
unfolding file_alloc
file_alloc_lem t v = elim (Bool-cases (t.n_openfiles == nfile)) [
  | inl full ↦ (0, t, rw (full, file_alloc), v, inl (ground arith, refl, refl))
  | inr room ↦ elim (List-cases t.flist) [
    | inl nil ↦ absurd (ground (arith, v.total))
    | inr (f, rest, e) ↦
        let t' : Ftable = record t {
          flist = rest;
          file = update t.file f blank_file;
          n_openfiles = t.n_openfiles + 1;
        } in
        (
          f,
          t',
          rw (room, e, file_alloc),
          record {
            total = ground (arith, v.total);
            unreferenced = λ g. ground (arith, v.unreferenced g, v.distinct);
            distinct = ground (arith, v.distinct);
            no_null = ground (arith, v.no_null);
            opened = f ∷ v.opened;
            counted = omega (arith, v.counted);
            referenced = λ g. ground (arith, v.referenced g);
            opened_once = ground (arith, v.opened_once, v.referenced f, v.unreferenced f);
          },
          inr (
            ground (arith, v.no_null),
            ground (arith, v.unreferenced f),
            ground arith,
            refl,
            λ g. elim (Bool-cases (f == g)) [
              | inl same ↦ inl (ground arith)
              | inr apart ↦ inr (rw apart)
            ],
          ),
        )
  ]
]

-- `file_dup` adds one reference to a file that has some, and changes no other; it panics at the
-- null pointer and at a file with none.
pub file_dup_lem :
    (f : ℕ) (t : Ftable)
    → IsValid t
    → f ≢ 0
    → (t.file f).ref ≢ 0
    → (t' : Ftable) × (file_dup f t ≡ some t')
      × IsValid t'
      × ((g : ℕ) → (t'.file g).ref ≡ (t.file g).ref + (if f == g then 1 else 0))
unfolding file_dup
file_dup_lem f t v ne some_ref =
    let r : File = t.file f in
    (
      record t { file = update t.file f (record r { ref = r.ref + 1 }) },
      ground arith,
      record {
        total = v.total;
        unreferenced = λ g. ground (arith, v.unreferenced g);
        distinct = v.distinct;
        no_null = v.no_null;
        opened = v.opened;
        counted = v.counted;
        referenced = λ g. ground (arith, v.referenced g);
        opened_once = v.opened_once;
      },
      λ g. ground arith,
    )

-- `file_close` takes one reference from a file that has some, keeps the table valid, and hands on
-- the file's object exactly when that was the last reference.
pub file_close_lem :
    (f : ℕ) (t : Ftable)
    → IsValid t
    → f ≢ 0
    → (t.file f).ref ≢ 0
    → (t' : Ftable) × (file_close f t ≡ some t')
      × IsValid t'
      × ((g : ℕ) → (t'.file g).ref + (if f == g then 1 else 0) ≡ (t.file g).ref)
      × (t'.events ≡ (if (t.file f).ref == 1 then finish_close (t.file f) t.events else t.events))
unfolding file_close
file_close_lem f t v ne some_ref =
    let r : File = t.file f in
    let shorter : length (unlink f v.opened) + 1 ≡ length v.opened =
      length-unlink f v.opened v.opened_once (ground (arith, v.referenced f)) in
    elim (Bool-cases (ltb 0 (r.ref - 1))) [
      | inl more ↦ (
        record t { file = update t.file f (record r { ref = r.ref - 1 }) },
        ground arith,
        record {
          total = v.total;
          unreferenced = λ g. ground (arith, v.unreferenced g);
          distinct = v.distinct;
          no_null = v.no_null;
          opened = v.opened;
          counted = v.counted;
          referenced = λ g. ground (arith, v.referenced g);
          opened_once = v.opened_once;
        },
        λ g. ground arith,
        ground arith,
      )
      | inr last ↦ (
        record t {
          file = update t.file f (record r { ref = r.ref - 1; kind = Kind.fs_none });
          n_openfiles = t.n_openfiles - 1;
          flist = f ∷ t.flist;
          events = finish_close r t.events;
        },
        ground arith,
        record {
          total = omega (arith, v.total, v.counted, shorter);
          unreferenced = λ g. ground (arith, v.unreferenced g);
          distinct = ground (arith, v.distinct, v.unreferenced f);
          no_null = ground (arith, v.no_null);
          opened = unlink f v.opened;
          counted = omega (arith, v.counted, shorter);
          referenced = λ g. ground (arith, v.referenced g, has-unlink f g v.opened);
          opened_once = nodup-unlink f v.opened v.opened_once;
        },
        λ g. ground arith,
        ground arith,
      )
    ]

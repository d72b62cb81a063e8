-- ===== src/Proc/Table.antt =====
-- Looking a process up by its id, before and after its descriptor has been given back.
use wei_os.Common.{
  ℕ, ◌+◌, ◌-◌, ◌%◌, ◌^◌, ◌≤◌, ◌<◌, ◌≡◌, refl, ◌≢◌, ◌⊎◌, inl, inr, Bool, false, some, ◌∷◌, arith,
  Option-cases, length, get_or, set, get_or-set_self,
}
use wei_os.Proc.{
  Manager, is_free, nproc, clear_pid, proc_desc_destroy, get_proc_desc, found, fault, pid2proc,
}

-- A process that is found by a non-zero id is the one in that slot of the table, carries that id,
-- is not free, and under `check` is the caller or a child of the caller.
pub pid2proc-found :
    (curproc pid : ℕ) (check : Bool) (m : Manager) {p : ℕ}
    → pid ≢ 0
    → pid2proc curproc pid check m ≡ found p
    → (get_or m.proc_table pid 0 ≡ p)
      × (p ≢ 0)
      × ((m.desc p).pid ≡ pid)
      × (is_free (m.desc p).status ≡ false)
      × ((check ≡ false) ⊎ ((p ≡ curproc) ⊎ ((m.desc p).ppid ≡ (m.desc curproc).pid)))
unfolding pid2proc
pid2proc-found curproc pid check m {p} ne h =
    let slot : get_or m.proc_table pid 0 ≡ p = ground arith in
    (slot, ground arith, ground arith, ground arith, ground arith)

-- Once `proc_desc_destroy` has given a descriptor back, a lookup of its id reads through the null
-- pointer that it left in the table.
pub pid2proc-proc_desc_destroy :
    (curproc p : ℕ) (check : Bool) (m : Manager) {m' : Manager}
    → (m.desc p).pid ≢ 0
    → (m.desc p).pid < length m.proc_table
    → length m.proc_table ≡ nproc
    → proc_desc_destroy p m ≡ some m'
    → pid2proc curproc (m.desc p).pid check m' ≡ fault
unfolding pid2proc proc_desc_destroy
pid2proc-proc_desc_destroy curproc p check m {m'} ne lt len h =
    elim (Option-cases (clear_pid (m.desc p).pid m.id_bitmap)) [
      | inl outside ↦ absurd (ground arith)
      | inr (bitmap, e) ↦
          let cell : m'.proc_table ≡ set m.proc_table (m.desc p).pid 0 = ground arith in
          let gone : get_or m'.proc_table (m.desc p).pid 0 ≡ 0 =
            rw (cell, get_or-set_self m.proc_table (m.desc p).pid 0 0 lt) in
          ground arith
    ]

-- A descriptor that is given back is the next one that `get_proc_desc` hands out, cleared, and the
-- cache is as it was; the count of live processes is one less.
pub get_proc_desc-proc_desc_destroy :
    (fresh p : ℕ) (m : Manager) {m' : Manager}
    → 0 < m.alive
    → m.alive ≤ nproc
    → proc_desc_destroy p m ≡ some m'
    → ((get_proc_desc fresh m').0 ≡ p)
      × ((get_proc_desc fresh m').1.descs_cache ≡ m.descs_cache)
      × (((get_proc_desc fresh m').1.desc p).pid ≡ 0)
      × (m'.alive + 1 ≡ m.alive)
unfolding get_proc_desc proc_desc_destroy
get_proc_desc-proc_desc_destroy fresh p m {m'} pos few h =
    elim (Option-cases (clear_pid (m.desc p).pid m.id_bitmap)) [
      | inl outside ↦ absurd (ground arith)
      | inr (bitmap, e) ↦
          let cache : m'.descs_cache ≡ p ∷ m.descs_cache = ground arith in
          let fewer : m'.alive ≡ (m.alive + 2 ^ 32 - 1) % 2 ^ 32 = ground arith in
          rw cache (refl, refl, ground arith, omega (arith, fewer))
    ]

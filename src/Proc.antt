-- ===== src/Proc.antt =====
-- kern/proc.c: the bitmap of process ids, the process table and the cache of free descriptors.
-- A descriptor is named by its address, a number; 0 is the null pointer. `kmalloc` and the page
-- tables are not modelled here.
pub mod Pid
pub mod Table
mod Tests
use wei_os.Common.{
  ℕ, zero, suc, ◌+◌, ◌*◌, ◌-◌, ◌/◌, ◌%◌, ◌^◌, Bool, true, false, not, ◌&&◌, ◌||◌, Option, none,
  some, List, [], ◌∷◌, ◌==◌, ltb, if◌then◌else◌, length, get_or, set, test_bit, set_bit, clear_bit,
}
use Prim.Native.Nat.{min}

-- The scan of one word in `get_pid`: positions `idx`, `idx + 1`, ... with `k` of them left.
pub scan_word : ℕ → ℕ → ℕ → Option ℕ
scan_word zero idx w = none
scan_word (suc k) idx w =
    let rest = scan_word k (idx + 1) w in if test_bit w idx then some idx else rest

-- The scan of the words from `id_bitmap[i]` on: the id, and these words with its bit cleared.
pub scan_words : ℕ → List ℕ → Option (ℕ × List ℕ)
scan_words i [] = none
scan_words i (w ∷ ws) =
    let later = scan_words (i + 1) ws in
    elim (scan_word 32 0 w) [
      | some idx ↦ some (idx + i * 32, clear_bit w idx ∷ ws)
      | none ↦ elim later [ none ↦ none | some (pid, ws') ↦ some (pid, w ∷ ws') ]
    ]

pub get_pid : List ℕ → ℕ × List ℕ
get_pid bitmap = elim (scan_words 0 bitmap) [ none ↦ (0, bitmap) | some r ↦ r ]

-- The index is a quotient by `sizeof(uint32_t)`, kept in a `ushort`. `none` is a write behind the
-- end of `id_bitmap`.
pub clear_pid : ℕ → List ℕ → Option (List ℕ)
clear_pid pid bitmap =
    let t_no = pid / 4 % 2 ^ 16 in
    let idx = pid % 4 in
    if ltb t_no (length bitmap)
    then some (set bitmap t_no (set_bit (get_or bitmap t_no 0) idx))
    else none

pub data Status : Type 0 where
  runnable running ready sleeping zombie free : Status

abbrev pub is_free : Status → Bool
is_free free = true
is_free _ = false

-- The fields of `struct proc` that these functions read or write.
pub record Proc : Type 0 where
  pub pid : ℕ
  pub ppid : ℕ
  pub status : Status

-- `struct proc_manager`; `desc` is what the descriptors hold.
pub record Manager : Type 0 where
  pub alive : ℕ
  pub id_bitmap : List ℕ
  pub proc_table : List ℕ
  pub descs_cache : List ℕ
  pub desc : ℕ → Proc

abbrev pub nproc : ℕ
nproc = 1024

abbrev pub update {ℓ} : {A : Type ℓ} → (ℕ → A) → ℕ → A → ℕ → A
update f i a j = if i == j then a else f j

-- The descriptor that `get_proc_desc` returns: the first of the cache, cleared, or what `kmalloc`
-- gives (`fresh`, 0 if it fails), which is cleared too.
pub get_proc_desc : ℕ → Manager → ℕ × Manager
get_proc_desc fresh m = elim m.descs_cache [
  | p ∷ rest ↦ (p, record m { descs_cache = rest; desc = update m.desc p cleared })
  | [] ↦ (fresh, record m { desc = if fresh == 0 then m.desc else update m.desc fresh cleared })
]
  where
    cleared : Proc
    cleared = record { pid = 0; ppid = 0; status = runnable }

-- `n_procs_alive` is a `uint32_t`.
pub proc_desc_destroy : ℕ → Manager → Option Manager
proc_desc_destroy p m = elim (clear_pid (m.desc p).pid m.id_bitmap) [
  | none ↦ none
  | some bitmap ↦ some (record m {
    id_bitmap = bitmap;
    proc_table = set m.proc_table (m.desc p).pid 0;
    desc = update m.desc p (dead (m.desc p));
    alive = (m.alive + 2 ^ 32 - 1) % 2 ^ 32;
    descs_cache = p ∷ m.descs_cache;
  })
]
  where
    dead : Proc → Proc
    dead d = record d { status = free }

pub data Lookup : Type 0 where
  found : ℕ → Lookup
  bad_proc : Lookup
  fault : Lookup

-- `fault` is a read behind the end of the table or through a null pointer.
pub pid2proc : ℕ → ℕ → Bool → Manager → Lookup
pid2proc curproc pid check m =
    let p = get_or m.proc_table pid 0 in
    let d = m.desc p in
    if pid == 0
    then found curproc
    else if ltb nproc pid
    then bad_proc
    else if not (ltb pid (length m.proc_table)) || p == 0
    then fault
    else if is_free d.status || not (d.pid == pid)
    then bad_proc
    else if check && not (p == curproc) && not (d.ppid == (m.desc curproc).pid)
    then bad_proc
    else found p

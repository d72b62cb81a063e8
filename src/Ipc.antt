-- ===== src/Ipc.antt =====
-- The messages between processes: `ipc_try_send` and `ipc_recv` of kern/sysfunc.c. The frames, the
-- tables and the reference counts of the pages are shared; each process has a page directory of its
-- own. The locks are not modelled: a call runs alone.
pub mod Deliver
mod Tests
use wei_os.Paging.{Entry, page_insert, Memory, page_lookup, update}
use wei_os.Common.{
  ◌+◌, ◌-◌, true, ◌^◌, ◌==◌, ◌&&◌, ◌%◌, ltb, not, if◌then◌else◌, false, Bool, none, some,
}
use Prim.Native.Nat.{ℕ, bit_and}

pub record Ipc : Type 0 where
  pub lives : ℕ → Bool
  pub recving : ℕ → Bool
  pub dstva : ℕ → ℕ
  pub from : ℕ → ℕ
  pub value : ℕ → ℕ
  pub perm : ℕ → ℕ
  pub directory : ℕ → ℕ → Entry
  pub memory : Memory
  pub asleep : ℕ → Bool

abbrev pub utop : ℕ
utop = 4001366016

abbrev pub pte_w : ℕ
pte_w = 2

-- PTE_AVAIL, PTE_P, PTE_W and PTE_U.
abbrev pub pte_syscall : ℕ
pte_syscall = 3591

-- The outcomes; the errors stand for -E_BAD_PROC, -E_IPC_NOT_RECV, -E_INVAL and -E_NO_MEM.
pub data Sent : Type 0 where
  delivered : Sent
  bad_proc : Sent
  not_recving : Sent
  invalid : Sent
  no_memory : Sent

-- The memory as a process sees it, and a memory put back.
abbrev pub space : ℕ → Ipc → Memory
space p s = record s.memory { pgdir = s.directory p }

abbrev pub with_space : ℕ → Memory → Ipc → Ipc
with_space p m s = record s { memory = m; directory = update s.directory p m.pgdir }

-- The end of a successful call.
abbrev pub wake_receiver : ℕ → ℕ → ℕ → ℕ → Ipc → Ipc
wake_receiver cur to val perm s = record s {
  perm = update s.perm to perm;
  recving = update s.recving to false;
  from = update s.from to cur;
  value = update s.value to val;
  asleep = update s.asleep to false;
}

-- The transfer of a page, its entry and its permissions checked in the order of the code.
unfoldable pub send_page : ℕ → ℕ → ℕ → ℕ → ℕ → Ipc → Sent × Ipc
unfolding page_lookup page_insert
send_page cur to val srcva perm s =
    if not (srcva % 4096 == 0) then (invalid, s) else elim (page_lookup srcva (space cur s)) [
      | none ↦ (invalid, s)
      | some (pp, t, k) ↦
          let inserted = page_insert pp (s.dstva to) perm (space to s) in
          let s' = with_space to inserted.1 s in
          if not (bit_and perm (2 ^ 32 - 1 - pte_syscall) == 0)
          then (invalid, s)
          else if not (bit_and perm pte_w == 0) && bit_and (s.memory.table t k).perm pte_w == 0
          then (invalid, s)
          else if inserted.0 == 0
          then (delivered, wake_receiver cur to val perm s')
          else (no_memory, s')
    ]

unfoldable pub ipc_try_send : ℕ → ℕ → ℕ → ℕ → ℕ → Ipc → Sent × Ipc
unfolding send_page
ipc_try_send cur to val srcva perm s =
    if not (s.lives to)
    then (bad_proc, s)
    else if not (s.recving to)
    then (not_recving, s)
    else if ltb (s.dstva to) utop && ltb srcva utop
    then send_page cur to val srcva perm s
    else (delivered, wake_receiver cur to val 0 s)

-- Whether the process goes to sleep, up to where another one runs.
unfoldable pub ipc_recv : ℕ → ℕ → Ipc → Bool × Ipc
ipc_recv cur va s = if ltb va utop && not (va % 4096 == 0) then (false, s) else (
  true,
  record s {
    dstva = update s.dstva cur va;
    recving = update s.recving cur true;
    asleep = update s.asleep cur true;
  },
)

-- The system call `ipc_send`: it succeeds, fails, or ends the process. No page stands for an address
-- above UTOP.
pub data Answer : Type 0 where
  succeeds : Answer
  refused : Answer
  exits : Answer

unfoldable pub ipc_send : ℕ → ℕ → ℕ → ℕ → ℕ → Ipc → Answer × Ipc
unfolding ipc_try_send
ipc_send cur to val page perm s =
    let (r, s') = ipc_try_send cur to val (if page == 0 then utop + 1 else page) perm s in
    (
      elim r [
        | delivered ↦ succeeds
        | not_recving ↦ refused
        | bad_proc ↦ exits
        | invalid ↦ exits
        | no_memory ↦ exits
      ],
      s',
    )

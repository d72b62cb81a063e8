-- ===== src/Pipe.antt =====
-- kern/pipe.c: the reading, writing and closing of a pipe, a ring of PIPESIZE bytes with two
-- free-running 32-bit counters. A sleeping process sees the pipe again as the other processes
-- left it: each round of the waiting loops takes one `Wake` of a list, and a call whose list runs
-- out is still asleep. The lock and the memory of the pipe itself are not modelled.
pub mod Queue
pub mod Wait
mod Tests
use wei_os.Common.{
  ℕ, zero, suc, ◌+◌, ◌-◌, ◌%◌, ◌^◌, Bool, true, false, not, ◌||◌, List, [], ◌∷◌, ◌++◌, ◌==◌,
  if◌then◌else◌, get_or, set,
}

abbrev pub pipe_size : ℕ
pipe_size = 512

-- `struct pipe`
pub record Pipe : Type 0 where
  pub buf : List ℕ
  pub nread : ℕ
  pub nwrite : ℕ
  pub readopen : Bool
  pub writeopen : Bool
  pub wait_to_read : List ℕ
  pub wait_to_write : List ℕ

-- `uint32_t` increment and difference
abbrev pub next32 : ℕ → ℕ
next32 n = (n + 1) % 2 ^ 32

abbrev pub sub32 : ℕ → ℕ → ℕ
sub32 a b = (a + 2 ^ 32 - b) % 2 ^ 32

-- What a process finds when `sleep` returns: the pipe, and whether it was killed meanwhile.
pub record Wake : Type 0 where
  pub pipe : Pipe
  pub killed : Bool

pub data Waited : Type 0 where
  ready : Pipe → Waited
  failed : Pipe → Waited
  asleep : Pipe → Waited

pub data Outcome (A : Type 0) : Type 0 where
  returns : A → Pipe → Outcome A
  fails : Pipe → Outcome A
  sleeps : Pipe → Outcome A

-- The `while` loop at the head of `pipe_read`, run by process `pid`.
pub wait_readable : ℕ → List Wake → Pipe → Waited
wait_readable pid [] p =
    if p.nwrite == p.nread
    then asleep (record p { wait_to_read = p.wait_to_read ++ (pid ∷ []) })
    else ready p
wait_readable pid (w ∷ ws) p =
    let again = wait_readable pid ws w.pipe in
    if p.nwrite == p.nread
    then (if not w.pipe.writeopen || w.killed then failed w.pipe else again)
    else ready p

-- The copying loop of `pipe_read`, with `nbytes - total` rounds left.
pub read_loop : ℕ → Pipe → List ℕ × Pipe
read_loop zero p = ([], p)
read_loop (suc k) p =
    let rest = read_loop k (record p { nread = next32 p.nread }) in
    if p.nwrite == p.nread then ([], p) else (get_or p.buf (p.nread % pipe_size) 0 ∷ rest.0, rest.1)

-- `wakeup` takes every sleeper off the queue.
pub pipe_read : ℕ → ℕ → List Wake → Pipe → Outcome (List ℕ)
pipe_read pid nbytes ws p = elim (wait_readable pid ws p) [
  | ready q ↦ let (bytes, r) = read_loop nbytes q in returns bytes (record r { wait_to_write = [] })
  | failed q ↦ fails q
  | asleep q ↦ sleeps q
]

-- The `while` loop at the head of `pipe_write`.
pub wait_writable : ℕ → List Wake → Pipe → Waited
wait_writable pid [] p =
    if sub32 p.nwrite p.nread == pipe_size
    then asleep (record p { wait_to_write = p.wait_to_write ++ (pid ∷ []) })
    else ready p
wait_writable pid (w ∷ ws) p =
    let again = wait_writable pid ws w.pipe in
    if sub32 p.nwrite p.nread == pipe_size
    then (if not w.pipe.readopen || w.killed then failed w.pipe else again)
    else ready p

-- The copying loop of `pipe_write`; the list is `src[total .. nbytes)`.
pub write_loop : List ℕ → Pipe → ℕ × Pipe
write_loop [] p = (0, p)
write_loop (b ∷ bs) p =
    let rest =
      write_loop bs
        (record p { buf = set p.buf (p.nwrite % pipe_size) b; nwrite = next32 p.nwrite }) in
    if sub32 p.nwrite p.nread == pipe_size then (0, p) else (rest.0 + 1, rest.1)

pub pipe_write : ℕ → List ℕ → List Wake → Pipe → Outcome ℕ
pipe_write pid src ws p = elim (wait_writable pid ws p) [
  | ready q ↦ let (n, r) = write_loop src q in returns n (record r { wait_to_read = [] })
  | failed q ↦ fails q
  | asleep q ↦ sleeps q
]

-- The pipe after the close, and whether it is freed.
pub pipe_close : Bool → Pipe → Pipe × Bool
pipe_close writend p =
    let q =
      if writend
      then record p { writeopen = false; wait_to_read = [] }
      else record p { readopen = false; wait_to_write = [] } in
    (q, if q.readopen || q.writeopen then false else true)

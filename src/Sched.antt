-- ===== src/Sched.antt =====
-- kern/sched.c and include/sched.h: the two multi-level run queues, the priority and time slice
-- formulas and one round of `scheduler`. A process is named by a number. The switch of address
-- spaces and of stacks, the locks and the idle `hlt` are not modelled.
pub mod Levels
pub mod Requeue
pub mod Pick
pub mod Quantum
mod Tests
use wei_os.Common.{
  unlink, ℕ, zero, suc, ◌+◌, ◌*◌, ◌-◌, ◌/◌, ◌%◌, ◌^◌, Bool, true, false, not, ◌&&◌, ◌||◌, Option,
  none, some, List, [], ◌∷◌, ◌++◌, ◌==◌, ltb, leb, if◌then◌else◌, test_bit, set_bit, clear_bit,
}

abbrev pub n_priority : ℕ
n_priority = 40

-- `struct proc_queue`. The 64-bit bitmap is its two words, which the code addresses one by one.
pub record ProcQueue : Type 0 where
  pub n_procs : ℕ
  pub bitmap_lo : ℕ
  pub bitmap_hi : ℕ
  pub procs_in_queue : ℕ → List ℕ

abbrev pub update {ℓ} : {A : Type ℓ} → (ℕ → A) → ℕ → A → ℕ → A
update f i a j = if i == j then a else f j

abbrev pub is_empty : List ℕ → Bool
is_empty [] = true
is_empty (x ∷ xs) = false

-- `add_proc_to_queue` on the queue: process `p` of priority `prio`. The shift count of
-- `1 << p->priority` is taken modulo 32, as the processor does.
unfoldable pub enqueue : ℕ → ℕ → ProcQueue → ProcQueue
enqueue p prio q = record q {
  bitmap_lo = if leb 32 prio then q.bitmap_lo else set_bit q.bitmap_lo (prio % 32);
  bitmap_hi = if leb 32 prio then set_bit q.bitmap_hi (prio % 32) else q.bitmap_hi;
  procs_in_queue = update q.procs_in_queue prio (q.procs_in_queue prio ++ (p ∷ []));
  n_procs = (q.n_procs + 1) % 2 ^ 32;
}

-- `del_proc_fron_queue` on the queue.
pub dequeue : ℕ → ℕ → ProcQueue → ProcQueue
dequeue p prio q =
    let emptied = is_empty (unlink p (q.procs_in_queue prio)) in
    record q {
      procs_in_queue = λ i. unlink p (q.procs_in_queue i);
      bitmap_lo =
          if emptied && not (leb 32 prio) then clear_bit q.bitmap_lo (prio % 32) else q.bitmap_lo;
      bitmap_hi = if emptied && leb 32 prio then clear_bit q.bitmap_hi (prio % 32) else q.bitmap_hi;
      n_procs = (q.n_procs + 2 ^ 32 - 1) % 2 ^ 32;
    }

-- `prior & priority_bitmap` at `prior = 1 << idx`.
abbrev pub level_bit : ProcQueue → ℕ → Bool
level_bit q idx = if leb 32 idx then test_bit q.bitmap_hi (idx - 32) else test_bit q.bitmap_lo idx

-- The loop of `find_first_set` from `idx` on, with `k` rounds left.
pub first_set_from : ℕ → ℕ → ProcQueue → ℕ
first_set_from zero idx q = idx
first_set_from (suc k) idx q =
    let rest = first_set_from k (idx + 1) q in if level_bit q idx then idx else rest

pub find_first_set : ProcQueue → ℕ
find_first_set q = first_set_from n_priority 0 q

pub data Status : Type 0 where
  runnable running ready sleeping zombie free : Status

abbrev pub is_runnable : Status → Bool
is_runnable runnable = true
is_runnable _ = false

-- The fields of `struct proc` that the scheduler uses; `proc_queue` names one of the two queues.
pub record Task : Type 0 where
  pub status : Status
  pub priority : ℕ
  pub sleep_avg : ℕ
  pub timeslice : ℕ
  pub timeslice_left : ℕ
  pub proc_queue : Option Bool

-- CURRENT_BONUS, a `uint32_t` product over a `uint32_t` quotient.
abbrev pub current_bonus : ℕ → ℕ
current_bonus sleep_avg = sleep_avg * 10 % 2 ^ 32 / 1000

-- `priority - (CURRENT_BONUS - MAX_BONUS / 2)`, cut off below MIN_USER_PRIO and above
-- MAX_USER_PRIO - 1.
pub recalculate_priority : Task → ℕ
recalculate_priority p =
    let raised = p.priority + 5 in
    let bonus = current_bonus p.sleep_avg in
    if ltb raised bonus then 0 else if ltb 39 (raised - bonus) then 39 else raised - bonus

-- SCALE_PRIO for a priority up to MAX_USER_PRIO.
abbrev pub scale_prio : ℕ → ℕ → ℕ
scale_prio x prio = let t = x * (40 - prio) / 20 in if leb 5 t then t else 5

pub task_timeslice : Task → ℕ
task_timeslice p =
    if ltb p.priority 20 then scale_prio 400 p.priority else scale_prio 100 p.priority

-- The two queues, which of them is `run_queue`, and the processes.
pub record Cpu : Type 0 where
  pub queue : Bool → ProcQueue
  pub run : Bool
  pub task : ℕ → Task

abbrev pub update_queue : (Bool → ProcQueue) → Bool → ProcQueue → Bool → ProcQueue
update_queue f true q true = q
update_queue f true q false = f false
update_queue f false q true = f true
update_queue f false q false = q

unfoldable pub add_proc_to_queue : Bool → ℕ → Cpu → Cpu
unfolding enqueue
add_proc_to_queue b p c = record c {
  queue = update_queue c.queue b (enqueue p (c.task p).priority (c.queue b));
  task = update c.task p (placed (c.task p));
}
  where
    placed : Task → Task
    placed t = record t { proc_queue = some b }

pub del_proc_from_queue : ℕ → Cpu → Cpu
unfolding dequeue
del_proc_from_queue p c = elim (c.task p).proc_queue [
  | none ↦ c
  | some b ↦ record c {
    queue = update_queue c.queue b (dequeue p (c.task p).priority (c.queue b));
    task = update c.task p (removed (c.task p));
  }
]
  where
    removed : Task → Task
    removed t = record t { proc_queue = none }

-- The process that ran last, with its new priority, time slice and `sleep_avg`.
pub renewed : Task → Task
renewed t =
    let t' : Task = record t { priority = recalculate_priority t } in
    let slice = task_timeslice t' / 2 in
    record t' {
      timeslice = slice;
      sleep_avg = 0;
      timeslice_left = if t.timeslice_left == 0 then slice else t.timeslice_left;
    }

-- The first part of a round: a process that is still runnable goes back to a queue, to the
-- exhausted one if its time slice is used up.
pub requeue : ℕ → Cpu → Cpu
unfolding renewed
requeue p c =
    let c' = del_proc_from_queue p c in
    let c'' : Cpu = record c' { task = update c'.task p (renewed (c'.task p)) } in
    if is_runnable (c.task p).status
    then add_proc_to_queue (if (c.task p).timeslice_left == 0 then not c.run else c.run) p c''
    else c

-- The second part: the queues change roles if no process is left in the run queue.
pub exchange : Cpu → Cpu
exchange c = if (c.queue c.run).n_procs == 0 then record c { run = not c.run } else c

-- The third part: the process that runs next, `none` if the processor idles.
pub select : Cpu → Option ℕ × Cpu
select c =
    let prior = find_first_set (c.queue c.run) in
    if ltb prior n_priority
    then elim ((c.queue c.run).procs_in_queue prior) [
      | [] ↦ (none, c)
      | p ∷ rest ↦ (some p, started p (del_proc_from_queue p c))
    ]
    else (none, c)
  where
    dispatched : Task → Task
    dispatched t = record t { status = running }

    started : ℕ → Cpu → Cpu
    started p c = record c { task = update c.task p (dispatched (c.task p)) }

-- One round of the loop of `scheduler` up to the switch.
pub schedule : Option ℕ → Cpu → Option ℕ × Cpu
schedule none c = select (exchange c)
schedule (some p) c = select (exchange (requeue p c))

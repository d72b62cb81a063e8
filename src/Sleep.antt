-- ===== src/Sleep.antt =====
-- `sleep`, `wakeup` and `kill` of kern/sysfunc.c over the run queues of kern/sched.c. A wait list is
-- named by a number. A process that sleeps gives up the processor to a round of `Sched.schedule`.
pub mod Wake
pub mod Kill
mod Tests
use wei_os.Common.{
  some, none, unlink, false, ◌-◌, ◌/◌, true, ltb, ◌^◌, ◌%◌, ◌==◌, Option, [], ◌∷◌, ◌+◌, ◌++◌,
  if◌then◌else◌, Bool, List,
}
use Prim.Native.Nat.{ℕ}
use wei_os.Sched
use wei_os.Sched.{
  Cpu, Task, Status, runnable, sleeping, recalculate_priority, task_timeslice, add_proc_to_queue,
  n_priority,
}

-- The processor with its queues, the wait lists, `sleep_start_jiffs`, `killed` and `preempted` of the
-- processes, the clock and the current process.
pub record Kernel : Type 0 where
  pub cpu : Cpu
  pub waiting : ℕ → List ℕ
  pub sleep_start : ℕ → ℕ
  pub killed : ℕ → Bool
  pub preempted : ℕ → Bool
  pub jiffs : ℕ
  pub curproc : Option ℕ

abbrev pub update {ℓ} : {A : Type ℓ} → (ℕ → A) → ℕ → A → ℕ → A
update f i a j = if i == j then a else f j

-- A process with a new status.
abbrev pub set_status : ℕ → Status → Cpu → Cpu
set_status p st c =
    let t = c.task p in record c { task = Sched.update c.task p (record t { status = st }) }

-- `sleep` of process `p` on a list, up to `sched`.
unfoldable pub sleep : ℕ → ℕ → Kernel → Kernel
sleep p list k = record k {
  cpu = set_status p sleeping k.cpu;
  sleep_start = update k.sleep_start p k.jiffs;
  waiting = update k.waiting list (k.waiting list ++ (p ∷ []));
}

-- A process that is woken up after `slept` ticks.
unfoldable pub woken : ℕ → Task → Task
woken slept t =
    let rested : Task = record t {
      status = runnable;
      sleep_avg = (t.sleep_avg + slept) % 2 ^ 32;
    } in
    let ranked : Task = record rested { priority = recalculate_priority rested } in
    record ranked { timeslice = task_timeslice ranked / 2; sleep_avg = 0 }

-- One round of the loop of `wakeup1`, on the process that was just taken off the list.
unfoldable pub wake_one : ℕ → Kernel → Kernel
unfolding woken
wake_one p k =
    let slept = (k.jiffs + 2 ^ 32 - k.sleep_start p) % 2 ^ 32 in
    let c = k.cpu in
    let c' : Cpu = record c { task = Sched.update c.task p (woken slept (c.task p)) } in
    record k { sleep_start = update k.sleep_start p 0; cpu = add_proc_to_queue c'.run p c' }

-- The loop of `wakeup1`; the number is the least priority so far.
unfoldable pub wake_all : List ℕ → ℕ → Kernel → ℕ × Kernel
unfolding wake_one
wake_all [] priority k = (priority, k)
wake_all (p ∷ ps) priority k =
    let k' = wake_one p k in
    let rank = (k'.cpu.task p).priority in
    wake_all ps (if ltb rank priority then rank else priority) k'

unfoldable pub wakeup : ℕ → Kernel → Kernel
unfolding wake_all
wakeup list k =
    let (priority, k') =
      wake_all (k.waiting list) n_priority (record k { waiting = update k.waiting list [] }) in
    elim k'.curproc [
      | none ↦ k'
      | some p ↦
          if ltb priority (k'.cpu.task p).priority
          then record k' { preempted = update k'.preempted p true }
          else k'
    ]

abbrev pub is_sleeping : Status → Bool
is_sleeping sleeping = true
is_sleeping _ = false

-- What `kill` and `murder` do to the process that they find: a sleeper leaves its wait list.
unfoldable pub kill_proc : ℕ → Kernel → Kernel
kill_proc p k =
    let k' = record k { killed = update k.killed p true } in
    if is_sleeping (k.cpu.task p).status
    then record k' {
      waiting = λ list. unlink p (k.waiting list);
      cpu = (let c = set_status p runnable k.cpu in add_proc_to_queue c.run p c);
    }
    else k'

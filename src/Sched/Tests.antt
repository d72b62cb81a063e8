-- ===== src/Sched/Tests.antt =====
-- A processor with two waiting processes, and the theorems at it.
use wei_os.Common.{
  has, ◌==◌, if◌then◌else◌, ℕ, ◌≤◌, ◌<◌, ◌≡◌, refl, Bool, true, false, none, some, [], arith,
  test_bit-zero, ◌-◌, inl,
}
use wei_os.Sched.{
  ProcQueue, Task, Cpu, Status, n_priority, enqueue, find_first_set, first_set_from,
  add_proc_to_queue, schedule, select, exchange, renewed,
}
use wei_os.Sched.Levels.{IsConsistent}
use wei_os.Sched.Quantum.{renewed_bounds}
use wei_os.Sched.Requeue.{IsRequeued, put_back, turns_to}
use wei_os.Sched.Pick.{IsValid, Selected, add_proc_to_queue-IsValid, schedule-Selected}

abbrev no_procs : ProcQueue
no_procs = record { n_procs = 0; bitmap_lo = 0; bitmap_hi = 0; procs_in_queue = λ i. [] }

-- Process 1 has priority 35, any other 19.
abbrev tasks : ℕ → Task
tasks p = record {
  status = Status.runnable;
  priority = if p == 1 then 35 else 19;
  sleep_avg = 700;
  timeslice = 100;
  timeslice_left = 60;
  proc_queue = none;
}

abbrev idle : Cpu
idle = record { queue = λ b. no_procs; run = true; task = tasks }

no_procs-IsConsistent : (f : ℕ → ℕ) → IsConsistent f no_procs
no_procs-IsConsistent f = record {
  bits = λ i. ground (arith, test_bit-zero i, test_bit-zero (i - 32));
  placed = λ i p. inl refl;
}

idle-IsValid : IsValid idle
idle-IsValid = record {
  levels = λ b. no_procs-IsConsistent _;
  small = λ p. ground arith;
  member = λ b i p. inl refl;
}

abbrev waiting : Cpu
waiting = add_proc_to_queue true 2 (add_proc_to_queue true 1 idle)

second_is_new :
    (b : Bool) (i : ℕ) → has 2 (((add_proc_to_queue true 1 idle).queue b).procs_in_queue i) ≡ false
unfolding add_proc_to_queue enqueue
second_is_new true i = ground arith
second_is_new false i = refl

waiting-IsValid : IsValid waiting
unfolding add_proc_to_queue
waiting-IsValid =
    add_proc_to_queue-IsValid true 2 _ second_is_new
      (add_proc_to_queue-IsValid true 1 idle (λ b i. refl) idle-IsValid)

picks_better : (schedule none waiting).0 ≡ some 2
unfolding schedule select exchange find_first_set first_set_from add_proc_to_queue
picks_better = refl

-- Process 3 has run and is still runnable.
schedule-Selected_example :
    IsValid (schedule (some 3) waiting).1
    × IsRequeued (some 3) waiting
    × ((schedule (some 3) waiting).1.run ≡ turns_to (put_back (some 3) waiting))
    × Selected
        (record (put_back (some 3) waiting) { run = turns_to (put_back (some 3) waiting) })
        (schedule (some 3) waiting)
schedule-Selected_example = schedule-Selected (some 3) waiting waiting-IsValid

renewed_bounds_example :
    ((renewed (tasks 1)).priority < n_priority)
    × ((renewed (tasks 1)).priority ≤ 40)
    × (2 ≤ (renewed (tasks 1)).timeslice)
    × ((renewed (tasks 1)).timeslice ≤ 400)
    × (1 ≤ (renewed (tasks 1)).timeslice_left)
renewed_bounds_example = renewed_bounds (tasks 1)

-- ===== src/Sched/Quantum.antt =====
-- The bounds of the priority and time slice formulas.
use wei_os.Common.{◌+◌, ◌≤◌, ◌<◌, arith}
use wei_os.Sched.{Task, n_priority, recalculate_priority, task_timeslice, renewed}

pub recalculate_priority-lt : (t : Task) → recalculate_priority t < n_priority
unfolding recalculate_priority
recalculate_priority-lt t = ground arith

recalculate_priority-le : (t : Task) → recalculate_priority t ≤ t.priority + 5
unfolding recalculate_priority
recalculate_priority-le t = ground arith

pub task_timeslice_bounds : (t : Task) → (5 ≤ task_timeslice t) × (task_timeslice t ≤ 800)
unfolding task_timeslice
task_timeslice_bounds t = ground arith

-- A process that goes back to a queue has a priority below N_PRIORITY, at most 5 levels worse than
-- its old one, a fresh time slice of 2 to 400 ticks and at least one tick left.
pub renewed_bounds :
    (t : Task)
    → ((renewed t).priority < n_priority)
      × ((renewed t).priority ≤ t.priority + 5)
      × (2 ≤ (renewed t).timeslice)
      × ((renewed t).timeslice ≤ 400)
      × (1 ≤ (renewed t).timeslice_left)
unfolding renewed
renewed_bounds t =
    let t' : Task = record t { priority = recalculate_priority t } in
    ground (arith, recalculate_priority-lt t, recalculate_priority-le t, task_timeslice_bounds t')

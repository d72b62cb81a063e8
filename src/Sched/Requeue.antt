-- ===== src/Sched/Requeue.antt =====
-- What a round of the scheduler does with the process that ran last, and with the two queues.
use wei_os.Common.{
  ◌∙◌, refl, not, ◌++◌, if◌then◌else◌, ℕ, ◌≡◌, ◌⊎◌, inl, inr, Bool, true, false, Option, none, some,
  List, [], ◌∷◌, arith, Bool-cases, Option-cases, ◌==◌,
}
use mathlib.Core.Path.{ap, sym, subst}
use wei_os.Sched.{
  recalculate_priority, is_runnable, requeue, exchange, renewed, Cpu, update, enqueue,
  add_proc_to_queue, del_proc_from_queue,
}

abbrev pub priority_of : Cpu → ℕ → ℕ
priority_of c p = (c.task p).priority

-- The processor before the selection, with the process that ran last back in a queue.
abbrev pub put_back : Option ℕ → Cpu → Cpu
put_back none c = c
put_back (some p) c = requeue p c

-- The queue that is the run queue in this round: the other one if the run queue has no process left.
abbrev pub turns_to : Cpu → Bool
turns_to c = if (c.queue c.run).n_procs == 0 then not c.run else c.run

-- The process that ran last: if it is still runnable, it is at the end of a level of its new priority,
-- in the exhausted queue if its time slice is used up and in the run queue otherwise; and if not,
-- nothing changes.
abbrev pub IsRequeued : Option ℕ → Cpu → Type 0
IsRequeued none c = put_back none c ≡ c
IsRequeued (some p) c =
    let b = if (c.task p).timeslice_left == 0 then not c.run else c.run in
    let c' = put_back (some p) c in
    ((is_runnable (c.task p).status ≡ true)
      × (before : List ℕ) × ((c'.queue b).procs_in_queue (priority_of c' p) ≡ before ++ (p ∷ []))
      × ((c'.task p).proc_queue ≡ some b)
      × (priority_of c' p ≡ recalculate_priority (c.task p)))
    ⊎ ((is_runnable (c.task p).status ≡ false) × (c' ≡ c))

add_proc_to_queue-end :
    (b : Bool) (p : ℕ) (c : Cpu)
    → (((add_proc_to_queue b p c).queue b).procs_in_queue (priority_of c p)
        ≡ (c.queue b).procs_in_queue (priority_of c p) ++ (p ∷ []))
      × (((add_proc_to_queue b p c).task p).proc_queue ≡ some b)
      × (priority_of (add_proc_to_queue b p c) p ≡ priority_of c p)
unfolding add_proc_to_queue enqueue
add_proc_to_queue-end true p c = (ground arith, ground arith, ground arith)
add_proc_to_queue-end false p c = (ground arith, ground arith, ground arith)

del_proc_from_queue-priority :
    (p : ℕ) (c : Cpu)
    → recalculate_priority ((del_proc_from_queue p c).task p) ≡ recalculate_priority (c.task p)
unfolding del_proc_from_queue recalculate_priority
del_proc_from_queue-priority p c = elim (Option-cases (c.task p).proc_queue) [
  | inl e ↦ rw (e, del_proc_from_queue) refl
  | inr (b, e) ↦
      rw (e, del_proc_from_queue) (let here : (p == p) ≡ true = ground arith in rw here refl)
]

pub put_back-IsRequeued : (last : Option ℕ) (c : Cpu) → IsRequeued last c
unfolding requeue renewed
put_back-IsRequeued none c = refl
put_back-IsRequeued (some p) c = elim (Bool-cases (is_runnable (c.task p).status)) [
  | inr blocked ↦ inr (blocked, rw (blocked, requeue) refl)
  | inl ready ↦
      let b = if (c.task p).timeslice_left == 0 then not c.run else c.run in
      let c' = del_proc_from_queue p c in
      let c'' : Cpu = record c' { task = update c'.task p (renewed (c'.task p)) } in
      let (place, queue, same) = add_proc_to_queue-end b p c'' in
      let run : requeue p c ≡ add_proc_to_queue b p c'' = rw (ready, requeue) refl in
      let here : (p == p) ≡ true = ground arith in
      let new : priority_of c'' p ≡ recalculate_priority (c.task p) =
        rw (here, priority_of) (del_proc_from_queue-priority p c) in
      let level : priority_of (add_proc_to_queue b p c'') p ≡ priority_of c'' p = same in
      inl (
        subst
          (λ x.
            (is_runnable (c.task p).status ≡ true)
            × (before : List ℕ) × ((x.queue b).procs_in_queue (priority_of x p)
                ≡ before ++ (p ∷ []))
            × ((x.task p).proc_queue ≡ some b)
            × (priority_of x p ≡ recalculate_priority (c.task p)))
          (sym run)
          (
            ready,
            (c''.queue b).procs_in_queue (priority_of c'' p),
            ap ((add_proc_to_queue b p c'').queue b).procs_in_queue level ∙ place,
            queue,
            level ∙ new,
          ))
]

pub exchange_turns : (c : Cpu) → exchange c ≡ record c { run = turns_to c }
unfolding exchange
exchange_turns c = elim (Bool-cases ((c.queue c.run).n_procs == 0)) [
  | inl swap ↦ rw swap refl
  | inr keep ↦ rw keep refl
]

-- ===== src/Sched/Pick.antt =====
-- One round of the scheduler: what it keeps, and which process it picks.
use wei_os.Sched.Requeue.{
  priority_of, put_back, turns_to, IsRequeued, put_back-IsRequeued, exchange_turns,
}
use wei_os.Common.{
  ◌∙◌, refl, has-unlink, has-append_one, has, List-cases, ℕ, ◌≤◌, ◌<◌, ◌≡◌, ◌⊎◌, inl, inr, Bool,
  true, false, Option, none, some, List, [], ◌∷◌, arith, Bool-cases, Option-cases, ◌==◌, ltb,
}
use mathlib.Core.Path.{ap, subst}
use wei_os.Sched.{
  Status, is_runnable, requeue, exchange, select, renewed, ProcQueue, Task, Cpu, n_priority, update,
  update_queue, enqueue, dequeue, find_first_set, add_proc_to_queue, del_proc_from_queue, schedule,
}
use wei_os.Sched.Levels.{
  IsConsistent, enqueue-IsConsistent, dequeue-IsConsistent, find_first_set_least,
}
use wei_os.Sched.Quantum.{renewed_bounds}

-- Both queues are consistent, and each queued process knows its queue.
pub record IsValid (c : Cpu) : Type 0 where
  pub levels : (b : Bool) → IsConsistent (priority_of c) (c.queue b)
  pub small : (p : ℕ) → priority_of c p < n_priority
  pub member :
      (b : Bool) (i p : ℕ)
      → (has p ((c.queue b).procs_in_queue i) ≡ false) ⊎ ((c.task p).proc_queue ≡ some b)

-- Only the priorities of queued processes matter.
IsConsistent-ext :
    (f g : ℕ → ℕ) (q : ProcQueue)
    → ((i p : ℕ) → (has p (q.procs_in_queue i) ≡ false) ⊎ (f p ≡ g p))
    → IsConsistent f q
    → IsConsistent g q
IsConsistent-ext f g q same c = record {
  bits = c.bits;
  placed = λ i p. ground (arith, same i p, c.placed i p);
}

-- In no list of either queue.
abbrev pub Unqueued : ℕ → Cpu → Type 0
Unqueued p c = (b : Bool) (i : ℕ) → has p ((c.queue b).procs_in_queue i) ≡ false

-- What happens to one process that is in no queue concerns no queue.
pub update-IsValid :
    (p : ℕ) (t : Task) (c : Cpu)
    → Unqueued p c
    → t.priority < n_priority
    → IsValid c
    → IsValid (record c { task = update c.task p t })
update-IsValid p t c out small v = record {
  levels = λ b.
      IsConsistent-ext _ _ (c.queue b)
        (λ i j. elim (Bool-cases (p == j)) [
          | inl same ↦ (let e : p ≡ j = ground arith in inl (rw (← e) (out b i)))
          | inr apart ↦ inr (rw (apart, priority_of))
        ])
        (v.levels b);
  small = λ j. ground (arith, v.small j);
  member = λ b i j. elim (Bool-cases (p == j)) [
    | inl same ↦ (let e : p ≡ j = ground arith in inl (rw (← e) (out b i)))
    | inr apart ↦ rw apart (v.member b i j)
  ];
}

-- One queue replaced by another that holds no process that it did not hold.
queue-IsValid :
    (b : Bool) (q : ProcQueue) (c : Cpu)
    → IsConsistent (priority_of c) q
    → ((i p : ℕ) → (has p (q.procs_in_queue i) ≡ false) ⊎ ((c.task p).proc_queue ≡ some b))
    → IsValid c
    → IsValid (record c { queue = update_queue c.queue b q })
queue-IsValid b q c ok known v = record {
  levels = λ b'. levels b b' ok (v.levels b');
  small = v.small;
  member = λ b' i p. members b b' i p (known i p) (v.member b' i p);
}
  where
    levels :
        (b b' : Bool)
        → IsConsistent (priority_of c) q
        → IsConsistent (priority_of c) (c.queue b')
        → IsConsistent (priority_of c) (update_queue c.queue b q b')
    levels true true x y = x
    levels true false x y = y
    levels false true x y = y
    levels false false x y = x

    members :
        (b b' : Bool) (i p : ℕ)
        → (has p (q.procs_in_queue i) ≡ false) ⊎ ((c.task p).proc_queue ≡ some b)
        → (has p ((c.queue b').procs_in_queue i) ≡ false) ⊎ ((c.task p).proc_queue ≡ some b')
        → (has p ((update_queue c.queue b q b').procs_in_queue i) ≡ false)
          ⊎ ((c.task p).proc_queue ≡ some b')
    members true true i p x y = x
    members true false i p x y = y
    members false true i p x y = y
    members false false i p x y = x

-- The queues after `del_proc_fron_queue` has unlinked `p` from queue `b`.
abbrev unlinked : Bool → ℕ → Cpu → Cpu
unlinked b p c = record c {
  queue = update_queue c.queue b (dequeue p (c.task p).priority (c.queue b));
}

unlinked-IsValid : (b : Bool) (p : ℕ) (c : Cpu) → IsValid c → IsValid (unlinked b p c)
unfolding dequeue
unlinked-IsValid b p c v =
    queue-IsValid b _ c
      (dequeue-IsConsistent (priority_of c) p (c.queue b) (v.small p) (v.levels b))
      (λ i j. ground (arith, v.member b i j, has-unlink p j ((c.queue b).procs_in_queue i))) v

unlinked-Unqueued :
    (b : Bool) (p : ℕ) (c : Cpu)
    → IsValid c
    → (c.task p).proc_queue ≡ some b
    → Unqueued p (unlinked b p c)
unfolding dequeue
unlinked-Unqueued true p c v e true i =
    ground (arith, has-unlink p p ((c.queue true).procs_in_queue i))
unlinked-Unqueued true p c v e false i = ground (arith, v.member false i p)
unlinked-Unqueued false p c v e true i = ground (arith, v.member true i p)
unlinked-Unqueued false p c v e false i =
    ground (arith, has-unlink p p ((c.queue false).procs_in_queue i))

del_proc_from_queue-IsValid :
    (p : ℕ) (c : Cpu)
    → IsValid c
    → IsValid (del_proc_from_queue p c) × Unqueued p (del_proc_from_queue p c)
unfolding del_proc_from_queue
del_proc_from_queue-IsValid p c v = elim (Option-cases (c.task p).proc_queue) [
  | inl e ↦ rw (e, del_proc_from_queue) (v, λ b i. ground (arith, v.member b i p))
  | inr (b, e) ↦
      let out = unlinked-Unqueued b p c v e in
      rw (e, del_proc_from_queue)
        (update-IsValid p _ (unlinked b p c) out (v.small p) (unlinked-IsValid b p c v), out)
]

pub add_proc_to_queue-IsValid :
    (b : Bool) (p : ℕ) (c : Cpu) → Unqueued p c → IsValid c → IsValid (add_proc_to_queue b p c)
unfolding add_proc_to_queue enqueue
add_proc_to_queue-IsValid b p c out v =
    let t : Task = c.task p in
    let marked : Cpu = record c { task = update c.task p (record t { proc_queue = some b }) } in
    let v' : IsValid marked = update-IsValid p _ c out (v.small p) v in
    let e : priority_of marked p ≡ t.priority = ground arith in
    let ok =
      subst (λ n. IsConsistent (priority_of marked) (enqueue p n (c.queue b))) e
        (enqueue-IsConsistent (priority_of marked) p (c.queue b) (v'.small p) (v'.levels b)) in
    queue-IsValid b (enqueue p t.priority (c.queue b)) marked ok (known t marked) v'
  where
    known :
        (t : Task) (m : Cpu) (i j : ℕ)
        → (has j ((enqueue p t.priority (c.queue b)).procs_in_queue i) ≡ false)
          ⊎ ((update c.task p (record t { proc_queue = some b }) j).proc_queue ≡ some b)
    known t m i j =
        ground (arith, v.member b i j, has-append_one p j ((c.queue b).procs_in_queue t.priority))

requeue-IsValid : (p : ℕ) (c : Cpu) → IsValid c → IsValid (requeue p c)
unfolding requeue
requeue-IsValid p c v =
    let c' = del_proc_from_queue p c in
    let (v', out) = del_proc_from_queue-IsValid p c v in
    let c'' : Cpu = record c' { task = update c'.task p (renewed (c'.task p)) } in
    let v'' : IsValid c'' = update-IsValid p _ c' out (renewed_bounds (c'.task p)).0 v' in
    elim (Bool-cases (is_runnable (c.task p).status)) [
      | inl ready ↦ rw (ready, requeue) (add_proc_to_queue-IsValid _ p c'' out v'')
      | inr blocked ↦ rw (blocked, requeue) v
    ]

exchange-IsValid : (c : Cpu) → IsValid c → IsValid (exchange c)
unfolding exchange
exchange-IsValid c v = elim (Bool-cases ((c.queue c.run).n_procs == 0)) [
  | inl swap ↦
      rw (swap, exchange) (record { levels = v.levels; small = v.small; member = v.member })
  | inr keep ↦ rw (keep, exchange) v
]

-- What `select` has done with a valid processor: the process at the head of the least level that
-- holds one, which is then in no queue, or nothing if the run queue is empty.
abbrev pub Selected : Cpu → Option ℕ × Cpu → Type 0
Selected c (none, c') = (i : ℕ) → (n_priority ≤ i) ⊎ ((c.queue c.run).procs_in_queue i ≡ [])
Selected c (some p, c') =
    (rest : List ℕ) × ((c.queue c.run).procs_in_queue (priority_of c p) ≡ p ∷ rest)
    × ((i : ℕ) → (priority_of c p ≤ i) ⊎ ((c.queue c.run).procs_in_queue i ≡ []))
    × Unqueued p c'
    × ((c'.task p).status ≡ Status.running)

select-Selected : (c : Cpu) → IsValid c → IsValid (select c).1 × Selected c (select c)
unfolding select
select-Selected c v =
    let q = c.queue c.run in
    let (top, found, least) = find_first_set_least (priority_of c) q (v.levels c.run) in
    elim (Bool-cases (ltb (find_first_set q) n_priority)) [
      | inr none_left ↦ rw (none_left, select) (v, λ i. ground (arith, least i))
      | inl some_left ↦ elim (List-cases (q.procs_in_queue (find_first_set q))) [
        | inl nil ↦ absurd (ground (arith, found))
        | inr (p, rest, e) ↦
            let at : priority_of c p ≡ find_first_set q =
              ground (arith, (v.levels c.run).placed (find_first_set q) p) in
            let (v', out) = del_proc_from_queue-IsValid p c v in
            let c' = del_proc_from_queue p c in
            rw (some_left, e, select)
              (
                update-IsValid p _ c' out (v'.small p) v',
                (rest, rw at e, λ i. rw at (least i), out, ground arith),
              )
      ]
    ]

del_proc_from_queue-run : (p : ℕ) (c : Cpu) → (del_proc_from_queue p c).run ≡ c.run
unfolding del_proc_from_queue
del_proc_from_queue-run p c = elim (Option-cases (c.task p).proc_queue) [
  | inl e ↦ rw (e, del_proc_from_queue) refl
  | inr (b, e) ↦ rw (e, del_proc_from_queue) refl
]

select-run : (c : Cpu) → (select c).1.run ≡ c.run
unfolding select
select-run c =
    let q = c.queue c.run in
    elim (Bool-cases (ltb (find_first_set q) n_priority)) [
      | inr none_left ↦ rw (none_left, select) refl
      | inl some_left ↦ elim (List-cases (q.procs_in_queue (find_first_set q))) [
        | inl nil ↦ rw (some_left, nil, select) refl
        | inr (p, rest, e) ↦ rw (some_left, e, select) (del_proc_from_queue-run p c)
      ]
    ]

-- The rest of a round.
turned-Selected :
    (c : Cpu)
    → IsValid c
    → IsValid (select (exchange c)).1
      × ((select (exchange c)).1.run ≡ turns_to c)
      × Selected (record c { run = turns_to c }) (select (exchange c))
turned-Selected c v =
    let (valid, picked) = select-Selected (exchange c) (exchange-IsValid c v) in
    (
      valid,
      select-run (exchange c) ∙ ap (λ x. x.run) (exchange_turns c),
      subst (λ x. Selected x (select (exchange c))) (exchange_turns c) picked,
    )

-- A round of the scheduler keeps the processor valid. It puts the process that ran last back, when
-- that is runnable, and lets the queues change roles exactly if the counter of the run queue is then
-- 0. It picks the process at the head of the least level of the queue that is the run queue then; the
-- picked process is running and in no queue. It picks none only if no level of that queue holds a
-- process.
pub schedule-Selected :
    (last : Option ℕ) (c : Cpu)
    → IsValid c
    → IsValid (schedule last c).1
      × IsRequeued last c
      × ((schedule last c).1.run ≡ turns_to (put_back last c))
      × Selected (record (put_back last c) { run = turns_to (put_back last c) }) (schedule last c)
unfolding schedule
schedule-Selected none c v =
    let (valid, role, picked) = turned-Selected c v in (valid, refl, role, picked)
schedule-Selected (some p) c v =
    let (valid, role, picked) = turned-Selected (requeue p c) (requeue-IsValid p c v) in
    (valid, put_back-IsRequeued (some p) c, role, picked)

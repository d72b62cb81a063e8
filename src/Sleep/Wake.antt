-- ===== src/Sleep/Wake.antt =====
-- `wakeup` of kern/sysfunc.c: every sleeper of the list, and no other process, becomes runnable.
use mathlib.Core.Path.{sym, subst}
use wei_os.Sched
use wei_os.Common.{
  ltb, Option-cases, if◌then◌else◌, ◌==◌, Bool-cases, ◌∙◌, [], ◌∷◌, inl, List, refl, ◌-◌, inr,
  has-append_one, arith, ◌^◌, Bool, ◌%◌, nodup, ◌⊎◌, ◌+◌, true, false, ◌<◌, ◌≡◌, has,
}
use wei_os.Sched.Pick
use wei_os.Sched.Pick.{Unqueued, add_proc_to_queue-IsValid, update-IsValid}
use wei_os.Sched.{Cpu, Task, Status, runnable, sleeping, add_proc_to_queue, enqueue, n_priority}
use wei_os.Sched.Quantum.{recalculate_priority-lt}
use wei_os.Sleep.{ℕ, Kernel, update, wake_one, woken, wake_all, wakeup}

-- The well-formed kernel: a consistent processor; a process that waits is asleep, in no run queue, and
-- in one list at one place only.
pub record IsValid (k : Kernel) : Type 0 where
  pub cpu : Pick.IsValid k.cpu
  pub asleep : (list p : ℕ) → (has p (k.waiting list) ≡ false) ⊎ ((k.cpu.task p).status ≡ sleeping)
  pub unqueued : (list p : ℕ) → (has p (k.waiting list) ≡ false) ⊎ Unqueued p k.cpu
  pub once : (list : ℕ) → nodup (k.waiting list) ≡ true
  pub apart :
      (l1 l2 p : ℕ) → (l1 ≡ l2) ⊎ (has p (k.waiting l1) ≡ false) ⊎ (has p (k.waiting l2) ≡ false)

-- Process `p` waits in the run queue.
abbrev pub IsReady : ℕ → Cpu → Type 0
IsReady p c =
    ((c.task p).status ≡ runnable)
    × (has p ((c.queue c.run).procs_in_queue (c.task p).priority) ≡ true)

woken-priority : (n : ℕ) (t : Task) → (woken n t).priority < n_priority
unfolding woken
woken-priority n t =
    recalculate_priority-lt (record t { status = runnable; sleep_avg = (t.sleep_avg + n) % 2 ^ 32 })

-- What waking one process does to the processor.
pub record Woke (p : ℕ) (c c' : Cpu) : Type 0 where
  pub valid : Pick.IsValid c'
  pub ready : IsReady p c'
  pub run : c'.run ≡ c.run
  pub others : (j : ℕ) → (p ≡ j) ⊎ (c'.task j ≡ c.task j)
  pub queues :
      (j i : ℕ) (b : Bool)
      → (p ≡ j) ⊎ (has j ((c'.queue b).procs_in_queue i) ≡ has j ((c.queue b).procs_in_queue i))

-- A process in no queue is put into the run queue as a runnable one.
pub add_proc_to_queue-Woke :
    (p : ℕ) (t : Task) (c : Cpu)
    → Pick.IsValid c
    → Unqueued p c
    → t.status ≡ runnable
    → t.priority < n_priority
    → Woke p c (add_proc_to_queue c.run p (record c { task = Sched.update c.task p t }))
unfolding add_proc_to_queue enqueue
add_proc_to_queue-Woke p t c v out st small =
    let c' : Cpu = record c { task = Sched.update c.task p t } in
    record {
      valid = add_proc_to_queue-IsValid c'.run p c' out (update-IsValid p t c out small v);
      ready = queued c.run p t c st;
      run = refl;
      others = λ j. ground arith;
      queues = λ j i b. apart c.run b p j i t c;
    }
  where
    queued :
        (r : Bool) (p : ℕ) (t : Task) (c : Cpu)
        → t.status ≡ runnable
        → IsReady p (add_proc_to_queue r p (record c { task = Sched.update c.task p t; run = r }))
    queued true p t c e = (
      ground arith,
      ground (arith, has-append_one p p ((c.queue true).procs_in_queue t.priority)),
    )
    queued false p t c e = (
      ground arith,
      ground (arith, has-append_one p p ((c.queue false).procs_in_queue t.priority)),
    )

    apart :
        (r b : Bool) (p j i : ℕ) (t : Task) (c : Cpu)
        → (p ≡ j)
          ⊎ (has j (
                ((add_proc_to_queue r p
                      (record c { task = Sched.update c.task p t; run = r })).queue
                    b).procs_in_queue
                  i)
              ≡ has j ((c.queue b).procs_in_queue i))
    apart true true p j i t c = ground (arith, has-append_one p j ((c.queue true).procs_in_queue i))
    apart true false p j i t c = inr refl
    apart false true p j i t c = inr refl
    apart false false p j i t c =
        ground (arith, has-append_one p j ((c.queue false).procs_in_queue i))

wake_one-Woke :
    (p : ℕ) (k : Kernel) → Pick.IsValid k.cpu → Unqueued p k.cpu → Woke p k.cpu (wake_one p k).cpu
unfolding wake_one
wake_one-Woke p k v out =
    let slept = (k.jiffs + 2 ^ 32 - k.sleep_start p) % 2 ^ 32 in
    add_proc_to_queue-Woke p (woken slept (k.cpu.task p)) k.cpu v out refl
      (woken-priority slept (k.cpu.task p))

-- A ready process stays ready where its task and its places stay.
IsReady-same :
    (p : ℕ) (c c' : Cpu)
    → c'.task p ≡ c.task p
    → c'.run ≡ c.run
    → ((i : ℕ) (b : Bool)
        → has p ((c'.queue b).procs_in_queue i) ≡ has p ((c.queue b).procs_in_queue i))
    → IsReady p c
    → IsReady p c'
IsReady-same p c c' t r q (st, there) =
    let place = q (c.task p).priority c.run in rw (t, r) (st, place ∙ there)

-- What the loop of `wakeup1` does with a list of sleepers.
pub record WokeAll (ps : List ℕ) (c c' : Cpu) : Type 0 where
  pub valid : Pick.IsValid c'
  pub ready : (p : ℕ) → (has p ps ≡ false) ⊎ IsReady p c'
  pub run : c'.run ≡ c.run
  pub others : (j : ℕ) → (has j ps ≡ true) ⊎ (c'.task j ≡ c.task j)
  pub queues :
      (j i : ℕ) (b : Bool)
      → (has j ps ≡ true)
        ⊎ (has j ((c'.queue b).procs_in_queue i) ≡ has j ((c.queue b).procs_in_queue i))

wake_all-waiting :
    (ps : List ℕ) (priority : ℕ) (k : Kernel) (l : ℕ)
    → (wake_all ps priority k).1.waiting l ≡ k.waiting l
unfolding wake_all wake_one
wake_all-waiting [] priority k l = refl
wake_all-waiting (p ∷ ps) priority k l = wake_all-waiting ps _ (wake_one p k) l

Woke-WokeAll :
    (p : ℕ) (ps : List ℕ) (c c1 c2 : Cpu)
    → Woke p c c1
    → has p ps ≡ false
    → WokeAll ps c1 c2
    → WokeAll (p ∷ ps) c c2
Woke-WokeAll p ps c c1 c2 w out r = record {
  valid = r.valid;
  ready = λ j. elim (Bool-cases (p == j)) [
    | inl here ↦
        let e : p ≡ j = ground arith in
        inr (
          subst (λ x. IsReady x c2) e
            (IsReady-same p c1 c2 (let o = r.others p in ground arith) r.run
              (λ i b. let q = r.queues p i b in ground arith) w.ready))
    | inr other ↦ let rest = r.ready j in ground arith
  ];
  run = r.run ∙ w.run;
  others = λ j. let first = w.others j in let rest = r.others j in ground arith;
  queues = λ j i b. let first = w.queues j i b in let rest = r.queues j i b in ground arith;
}

wake_all-WokeAll :
    (ps : List ℕ) (priority : ℕ) (k : Kernel)
    → Pick.IsValid k.cpu
    → nodup ps ≡ true
    → ((p : ℕ) → (has p ps ≡ false) ⊎ Unqueued p k.cpu)
    → WokeAll ps k.cpu (wake_all ps priority k).1.cpu
unfolding wake_all
wake_all-WokeAll [] priority k v once out = record {
  valid = v;
  ready = λ p. inl refl;
  run = refl;
  others = λ j. inr refl;
  queues = λ j i b. inr refl;
}
wake_all-WokeAll (p ∷ ps) priority k v once out =
    let free : Unqueued p k.cpu = elim (out p) [ inl absent ↦ absurd (ground arith) | inr u ↦ u ] in
    let w = wake_one-Woke p k v free in
    let k1 = wake_one p k in
    let rest : (j : ℕ) → (has j ps ≡ false) ⊎ Unqueued j k1.cpu = λ j. elim (out j) [
      | inl absent ↦ inl (ground arith)
      | inr u ↦ elim (Bool-cases (p == j)) [
        | inl same ↦ inl (let e : p ≡ j = ground arith in ground arith)
        | inr apart ↦ inr (λ b i. let q = w.queues j i b in let was = u b i in ground arith)
      ]
    ] in
    Woke-WokeAll p ps k.cpu k1.cpu _ w (ground arith)
      (wake_all-WokeAll ps _ k1 w.valid (ground arith) rest)

-- The end of `wakeup` concerns neither the processor nor the lists.
wakeup_lem :
    (list : ℕ) (k : Kernel)
    → ((wakeup list k).cpu
        ≡ (wake_all
            (k.waiting list)
            n_priority
            (record k { waiting = update k.waiting list [] })).1.cpu)
      × ((l : ℕ) → (wakeup list k).waiting l ≡ (if list == l then [] else k.waiting l))
unfolding wakeup
wakeup_lem list k =
    let k0 : Kernel = record k { waiting = update k.waiting list [] } in
    let k1 = (wake_all (k.waiting list) n_priority k0).1 in
    let lists = λ (l : ℕ). wake_all-waiting (k.waiting list) n_priority k0 l in
    elim (Option-cases k1.curproc) [
      | inl idle ↦ let run : wakeup list k ≡ k1 = ground arith in rw run (refl, λ l. lists l)
      | inr (p, busy) ↦
          elim (Bool-cases
            (ltb (wake_all (k.waiting list) n_priority k0).0 (k1.cpu.task p).priority)) [
              | inl before ↦
                  let run : wakeup list k ≡ record k1 { preempted = update k1.preempted p true } =
                    ground arith in
                  rw run (refl, λ l. lists l)
              | inr after ↦
                  let run : wakeup list k ≡ k1 = ground arith in rw run (refl, λ l. lists l)
            ]
    ]

-- `wakeup` of kern/sysfunc.c keeps the kernel well formed and empties its wait list. Every process of
-- the list is then runnable and in the run queue at its new priority, and every other process keeps
-- its status, its priority and its place.
pub wakeup-WokeAll :
    (list : ℕ) (k : Kernel)
    → IsValid k
    → IsValid (wakeup list k)
      × WokeAll (k.waiting list) k.cpu (wakeup list k).cpu
      × ((l : ℕ) → (wakeup list k).waiting l ≡ (if list == l then [] else k.waiting l))
unfolding wakeup
wakeup-WokeAll list k v =
    let k0 : Kernel = record k { waiting = update k.waiting list [] } in
    let all =
      wake_all-WokeAll (k.waiting list) n_priority k0 v.cpu (v.once list) (v.unqueued list) in
    let (cpus, lists) = wakeup_lem list k in
    let woke = subst (WokeAll (k.waiting list) k.cpu) (sym cpus) all in
    (
      record {
        cpu = woke.valid;
        asleep = λ l p.
            let e = lists l in
            let a = v.asleep l p in
            let o = woke.others p in let s = v.apart list l p in ground arith;
        unqueued = λ l p. elim (v.unqueued l p) [
          | inl absent ↦ inl (let e = lists l in ground arith)
          | inr u ↦ elim (Bool-cases (has p (k.waiting list))) [
            | inl there ↦ inl (let e = lists l in let s = v.apart list l p in ground arith)
            | inr gone ↦ inr (λ b i. let q = woke.queues p i b in let was = u b i in ground arith)
          ]
        ];
        once = λ l. let e = lists l in let o = v.once l in ground arith;
        apart = λ l1 l2 p.
            let e1 = lists l1 in let e2 = lists l2 in let a = v.apart l1 l2 p in ground arith;
      },
      woke,
      lists,
    )

-- ===== src/Sleep/Kill.antt =====
-- `sleep` and `kill` of kern/sysfunc.c.
use wei_os.Sched.Pick
use wei_os.Sleep.Wake.{Woke, add_proc_to_queue-Woke, IsValid, IsReady, wakeup-WokeAll}
use wei_os.Sched.Pick.{update-IsValid, Unqueued, add_proc_to_queue-IsValid}
use wei_os.Sched.{sleeping, runnable, Cpu, Status, add_proc_to_queue}
use wei_os.Sleep.{update, is_sleeping, wakeup, set_status, Kernel, kill_proc, sleep}
use wei_os.Common.{
  nodup-append_one, sym, inr, inl, ◌==◌, Bool-cases, true, arith, ◌⊎◌, has-append_one, false, ◌≡◌,
  has, ℕ, refl, has-unlink, nodup-unlink, unlink,
}

-- The process that runs: it waits nowhere and is in no run queue.
pub record IsRunning (p : ℕ) (k : Kernel) : Type 0 where
  pub awake : (list : ℕ) → has p (k.waiting list) ≡ false
  pub off : Unqueued p k.cpu

set_status-IsValid :
    (p : ℕ) (st : Status) (c : Cpu)
    → Unqueued p c
    → Pick.IsValid c
    → Pick.IsValid (set_status p st c)
set_status-IsValid p st c out v =
    let t = c.task p in update-IsValid p (record t { status = st }) c out (v.small p) v

-- `sleep` keeps the kernel well formed.
pub sleep-IsValid : (p list : ℕ) (k : Kernel) → IsValid k → IsRunning p k → IsValid (sleep p list k)
unfolding sleep
sleep-IsValid p list k v r = record {
  cpu = set_status-IsValid p sleeping k.cpu r.off v.cpu;
  asleep =
      λ l q. let a = v.asleep l q in let h = has-append_one p q (k.waiting list) in ground arith;
  unqueued = λ l q. elim (Bool-cases (p == q)) [
    | inl e ↦ inr (let same : p ≡ q = ground arith in rw (sym same) r.off)
    | inr ne ↦ elim (v.unqueued l q) [
      | inl absent ↦ inl (let h = has-append_one p q (k.waiting list) in ground arith)
      | inr u ↦ inr u
    ]
  ];
  once = λ l.
      let o = v.once l in
      let h = r.awake l in let n = nodup-append_one p (k.waiting list) in ground arith;
  apart = λ l1 l2 q.
      let a = v.apart l1 l2 q in
      let h = has-append_one p q (k.waiting list) in
      let x1 = r.awake l1 in let x2 = r.awake l2 in ground arith;
}

-- A process that sleeps on a list is ready again after the next `wakeup` of that list: it is runnable
-- and in the run queue, and it waits nowhere.
pub sleep-wakeup :
    (p list : ℕ) (k : Kernel)
    → IsValid k
    → IsRunning p k
    → IsReady p (wakeup list (sleep p list k)).cpu
      × ((l : ℕ) → has p ((wakeup list (sleep p list k)).waiting l) ≡ false)
unfolding sleep
sleep-wakeup p list k v r =
    let (valid, woke, lists) = wakeup-WokeAll list (sleep p list k) (sleep-IsValid p list k v r) in
    let there = has-append_one p p (k.waiting list) in
    let ready = woke.ready p in
    (
      elim ready [ inl absent ↦ absurd (ground arith) | inr r' ↦ r' ],
      λ l. (let e = lists l in let a = r.awake l in ground arith),
    )

kill_sleeper :
    (p : ℕ) (k : Kernel)
    → IsValid k
    → Unqueued p k.cpu
    → (w : Woke p k.cpu (let c = set_status p runnable k.cpu in add_proc_to_queue c.run p c))
    → IsValid (record k {
      killed = update k.killed p true;
      waiting = λ list. unlink p (k.waiting list);
      cpu = (let c = set_status p runnable k.cpu in add_proc_to_queue c.run p c);
    })
kill_sleeper p k v out w = record {
  cpu = w.valid;
  asleep = λ l q.
      let a = v.asleep l q in
      let h = has-unlink p q (k.waiting l) in let o = w.others q in ground arith;
  unqueued = λ l q. elim (Bool-cases (p == q)) [
    | inl same ↦ inl (let h = has-unlink p q (k.waiting l) in ground arith)
    | inr other ↦ elim (v.unqueued l q) [
      | inl absent ↦ inl (let h = has-unlink p q (k.waiting l) in ground arith)
      | inr u ↦ inr (λ b i. let x = w.queues q i b in let was = u b i in ground arith)
    ]
  ];
  once = λ l. nodup-unlink p (k.waiting l) (v.once l);
  apart = λ l1 l2 q.
      let a = v.apart l1 l2 q in
      let h1 = has-unlink p q (k.waiting l1) in
      let h2 = has-unlink p q (k.waiting l2) in ground arith;
}

-- `kill` and `murder` of a process that sleeps, and so is in no run queue, take it off its wait list
-- and make it ready; of any other process they only set `killed`. The kernel stays well formed.
pub kill_proc-IsValid :
    (p : ℕ) (k : Kernel)
    → IsValid k
    → (is_sleeping (k.cpu.task p).status ≡ false) ⊎ Unqueued p k.cpu
    → IsValid (kill_proc p k)
      × ((kill_proc p k).killed p ≡ true)
      × ((is_sleeping (k.cpu.task p).status ≡ false)
          ⊎ (IsReady p (kill_proc p k).cpu × ((l : ℕ) → has p ((kill_proc p k).waiting l) ≡ false)))
unfolding kill_proc
kill_proc-IsValid p k v (inl awake) =
    let run : kill_proc p k ≡ record k { killed = update k.killed p true } = ground arith in
    rw run (
      record {
        cpu = v.cpu;
        asleep = v.asleep;
        unqueued = v.unqueued;
        once = v.once;
        apart = v.apart;
      },
      ground arith,
      inl awake,
    )
kill_proc-IsValid p k v (inr out) = elim (Bool-cases (is_sleeping (k.cpu.task p).status)) [
  | inr awake ↦
      let run : kill_proc p k ≡ record k { killed = update k.killed p true } = ground arith in
      rw run (
        record {
          cpu = v.cpu;
          asleep = v.asleep;
          unqueued = v.unqueued;
          once = v.once;
          apart = v.apart;
        },
        ground arith,
        inl awake,
      )
  | inl asleep ↦
      let t = k.cpu.task p in
      let w =
        add_proc_to_queue-Woke p (record t { status = runnable }) k.cpu v.cpu out refl
          (v.cpu.small p) in
      let run : kill_proc p k ≡ record k {
        killed = update k.killed p true;
        waiting = λ list. unlink p (k.waiting list);
        cpu = (let c = set_status p runnable k.cpu in add_proc_to_queue c.run p c);
      } =
        ground arith in
      rw run (
        kill_sleeper p k v out w,
        ground arith,
        inr (w.ready, λ l. (let h = has-unlink p p (k.waiting l) in ground arith)),
      )
]

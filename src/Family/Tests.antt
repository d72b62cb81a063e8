-- ===== src/Family/Tests.antt =====
-- Inputs of the theorems on wait and exit.
use wei_os.Family.Reap.{leave-wait_round}
use wei_os.Sched.Levels.{IsConsistent}
use wei_os.Family.{wait_round, leave, Family}
use wei_os.Common.{
  ◌∷◌, none, some, ◌==◌, ◌-◌, ◌≡◌, inr, if◌then◌else◌, test_bit-zero, inl, false, [], arith, ℕ,
  refl,
}
use wei_os.Sleep.Wake.{IsReady, IsValid}
use wei_os.Sched.{ProcQueue, zombie, sleeping, running}

abbrev no_procs : ProcQueue
no_procs = record { n_procs = 0; bitmap_lo = 0; bitmap_hi = 0; procs_in_queue = λ i. [] }

no_procs-IsConsistent : (f : ℕ → ℕ) → IsConsistent f no_procs
no_procs-IsConsistent f = record {
  bits = λ i. ground (arith, test_bit-zero i, test_bit-zero (i - 32));
  placed = λ i p. inl refl;
}

-- Process 4 waits for its child 5, which is a zombie.
abbrev dead_child : Family
dead_child = record {
  kernel = record {
    cpu = record {
      queue = λ b. no_procs;
      run = false;
      task = λ p. record {
        status = if p == 4 then sleeping else if p == 5 then zombie else running;
        priority = 20;
        sleep_avg = 7;
        timeslice = 90;
        timeslice_left = 10;
        proc_queue = none;
      };
    };
    waiting = λ l. if l == 4 then 4 ∷ [] else [];
    sleep_start = λ p. 11;
    killed = λ p. false;
    preempted = λ p. false;
    jiffs = 60;
    curproc = some 5;
  };
  ppid = λ p. if p == 5 then 4 else 1;
  children = λ p. if p == 4 then 5 ∷ [] else [];
  wait_for_child = λ p. p == 4;
  rootproc = 1;
  destroyed = [];
}

dead_child-IsValid : IsValid dead_child.kernel
dead_child-IsValid = record {
  cpu = record {
    levels = λ b. no_procs-IsConsistent _;
    small = λ p. ground arith;
    member = λ b i p. inl refl;
  };
  asleep = λ l p. ground arith;
  unqueued = λ l p. inr (λ b i. refl);
  once = λ l. ground arith;
  apart = λ l1 l2 p. ground arith;
}

leave-wait_round_example :
    IsReady 4 (leave 5 dead_child).kernel.cpu
    × (z : ℕ) × ((wait_round 4 (leave 5 dead_child)).0 ≡ some z)
    × (((leave 5 dead_child).kernel.cpu.task z).status ≡ zombie)
leave-wait_round_example =
    leave-wait_round 5 4 dead_child dead_child-IsValid refl (λ l. ground arith) refl refl refl
      (omega arith) refl

-- ===== src/Sleeplock/Tests.antt =====
-- Inputs of the theorems on sleep locks.
use wei_os.Sleeplock.Handover.{Reaches-IsSound, Reaches, IsSound}
use wei_os.Sleeplock.Handover.Reaches.{locks, unlocks, stays}
use wei_os.Sched.Levels.{IsConsistent}
use wei_os.Sleeplock.{sleep_unlock, sleep_lock, Sleeplock}
use wei_os.Common.{some, false, ◌-◌, inr, none, test_bit-zero, inl, true, [], arith, ℕ, refl}
use wei_os.Sleep.Wake.{IsValid}
use wei_os.Sched.{ProcQueue, running}

abbrev idle_queue : ProcQueue
idle_queue = record { n_procs = 0; bitmap_lo = 0; bitmap_hi = 0; procs_in_queue = λ i. [] }

idle_queue-IsConsistent : (f : ℕ → ℕ) → IsConsistent f idle_queue
idle_queue-IsConsistent f = record {
  bits = λ i. ground (arith, test_bit-zero i, test_bit-zero (i - 32));
  placed = λ i p. inl refl;
}

-- Process 6 holds the lock of list 3, process 2 runs.
abbrev held_lock : Sleeplock
held_lock = record {
  locked = true;
  sleep_procs = 3;
  kernel = record {
    cpu = record {
      queue = λ b. idle_queue;
      run = true;
      task = λ p. record {
        status = running;
        priority = 10;
        sleep_avg = 1;
        timeslice = 50;
        timeslice_left = 5;
        proc_queue = none;
      };
    };
    waiting = λ l. [];
    sleep_start = λ p. 0;
    killed = λ p. false;
    preempted = λ p. false;
    jiffs = 900;
    curproc = some 2;
  };
}

held_lock-IsValid : IsValid held_lock.kernel
held_lock-IsValid = record {
  cpu = record {
    levels = λ b. idle_queue-IsConsistent _;
    small = λ p. ground arith;
    member = λ b i p. inl refl;
  };
  asleep = λ l p. inl refl;
  unqueued = λ l p. inl refl;
  once = λ l. refl;
  apart = λ l1 l2 p. inr (inl refl);
}

two_rounds : Reaches held_lock (sleep_unlock (sleep_lock 2 held_lock).1)
two_rounds = locks 2 (record { awake = λ l. refl; off = λ b i. refl }) (unlocks stays)

Reaches-IsSound_example : IsSound (sleep_unlock (sleep_lock 2 held_lock).1)
Reaches-IsSound_example =
    Reaches-IsSound two_rounds
      (record { valid = held_lock-IsValid; none_left = λ free. absurd (cc) })

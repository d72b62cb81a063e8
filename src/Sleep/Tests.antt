-- ===== src/Sleep/Tests.antt =====
-- Runs of sleeping and waking at concrete inputs.
use wei_os.Sched.{ProcQueue, Task, sleeping, running}
use wei_os.Sched.Levels.{IsConsistent}
use wei_os.Sleep.{Kernel, sleep, wakeup}
use wei_os.Sleep.Wake.{IsValid, IsReady, WokeAll, wakeup-WokeAll}
use wei_os.Sleep.Kill.{IsRunning, sleep-wakeup}
use wei_os.Common.{
  some, none, inr, ◌==◌, false, refl, inl, ◌-◌, if◌then◌else◌, ◌≡◌, ◌∷◌, arith, true, ℕ, [],
  test_bit-zero, has,
}

abbrev empty_queue : ProcQueue
empty_queue = record { n_procs = 0; bitmap_lo = 0; bitmap_hi = 0; procs_in_queue = λ i. [] }

-- Process 4 sleeps on list 9, process 5 runs.
abbrev sleeper_tasks : ℕ → Task
sleeper_tasks p = record {
  status = if p == 4 then sleeping else running;
  priority = 19;
  sleep_avg = 0;
  timeslice = 100;
  timeslice_left = 60;
  proc_queue = none;
}

abbrev sleeper : Kernel
sleeper = record {
  cpu = record { queue = λ b. empty_queue; run = true; task = sleeper_tasks };
  waiting = λ l. if l == 9 then 4 ∷ [] else [];
  sleep_start = λ p. 100;
  killed = λ p. false;
  preempted = λ p. false;
  jiffs = 350;
  curproc = some 5;
}

empty_queue-IsConsistent : (f : ℕ → ℕ) → IsConsistent f empty_queue
empty_queue-IsConsistent f = record {
  bits = λ i. ground (arith, test_bit-zero i, test_bit-zero (i - 32));
  placed = λ i p. inl refl;
}

sleeper-IsValid : IsValid sleeper
sleeper-IsValid = record {
  cpu = record {
    levels = λ b. empty_queue-IsConsistent _;
    small = λ p. ground arith;
    member = λ b i p. inl refl;
  };
  asleep = λ l p. ground arith;
  unqueued = λ l p. inr (λ b i. refl);
  once = λ l. ground arith;
  apart = λ l1 l2 p. ground arith;
}

wakeup-WokeAll_example :
    IsValid (wakeup 9 sleeper)
    × WokeAll (4 ∷ []) sleeper.cpu (wakeup 9 sleeper).cpu
    × ((l : ℕ) → (wakeup 9 sleeper).waiting l ≡ (if 9 == l then [] else sleeper.waiting l))
wakeup-WokeAll_example = wakeup-WokeAll 9 sleeper sleeper-IsValid

five_runs : IsRunning 5 sleeper
five_runs = record { awake = λ l. ground arith; off = λ b i. refl }

sleep-wakeup_example :
    IsReady 5 (wakeup 9 (sleep 5 9 sleeper)).cpu
    × ((l : ℕ) → has 5 ((wakeup 9 (sleep 5 9 sleeper)).waiting l) ≡ false)
sleep-wakeup_example = sleep-wakeup 5 9 sleeper sleeper-IsValid five_runs

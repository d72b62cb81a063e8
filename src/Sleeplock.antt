-- ===== src/Sleeplock.antt =====
-- The sleep locks of kern/lock.c over the sleepers of Sleep. A lock has the number of its list
-- `sleep_procs`; its spin lock makes each function one step.
pub mod Handover
mod Tests
use wei_os.Common.{true, if◌then◌else◌, [], false, Bool, ℕ}
use wei_os.Sleep.{sleep, wakeup, Kernel, update}

pub record Sleeplock : Type 0 where
  pub locked : Bool
  pub sleep_procs : ℕ
  pub kernel : Kernel

-- A lock that nobody holds, with an empty list.
unfoldable pub sleeplock_init : ℕ → Kernel → Sleeplock
sleeplock_init list k = record {
  locked = false;
  sleep_procs = list;
  kernel = record k { waiting = update k.waiting list [] };
}

-- One round of the loop of `sleep_lock` of a process: it takes the lock or goes to sleep.
unfoldable pub sleep_lock : ℕ → Sleeplock → Bool × Sleeplock
unfolding sleep
sleep_lock p s =
    if s.locked
    then (false, record s { kernel = sleep p s.sleep_procs s.kernel })
    else (true, record s { locked = true })

unfoldable pub sleep_unlock : Sleeplock → Sleeplock
unfolding wakeup
sleep_unlock s = record s { locked = false; kernel = wakeup s.sleep_procs s.kernel }

unfoldable pub holding_sleeplock : Sleeplock → Bool
holding_sleeplock s = s.locked

-- ===== src/Sleeplock/Handover.antt =====
-- What the users of a sleep lock may meet: its sleepers while it is free.
use mathlib.Core.Path.{sym, subst}
use wei_os.Sleep.Kill.{sleep-IsValid, IsRunning}
use wei_os.Sleep.{Kernel, sleep}
use wei_os.Sleeplock.{sleep_unlock, Sleeplock, sleep_lock}
use wei_os.Common.{Bool-cases, inr, inl, arith, false, true, has, ◌≡◌, ℕ, refl}
use wei_os.Sleep.Wake.{wakeup-WokeAll, IsValid}

sleep_lock_refused :
    (q : ℕ) (s : Sleeplock)
    → s.locked ≡ true
    → (sleep_lock q s ≡ (false, record s { kernel = sleep q s.sleep_procs s.kernel }))
unfolding sleep_lock
sleep_lock_refused q s h = rw h refl

-- Nobody sleeps at a lock that is free.
pub record IsSound (s : Sleeplock) : Type 0 where
  pub valid : IsValid s.kernel
  pub none_left : (s.locked ≡ false) → (p : ℕ) → has p (s.kernel.waiting s.sleep_procs) ≡ false

-- What goes on at one lock: rounds of `sleep_lock` of running processes, `sleep_unlock` of anybody, and
-- steps elsewhere in the kernel, which may wake up sleepers of the lock but put none to sleep at it.
pub data Reaches : Sleeplock → Sleeplock → Type 0 where
  stays : {s : Sleeplock} → Reaches s s
  locks :
      {s t : Sleeplock} (p : ℕ) → IsRunning p s.kernel → Reaches (sleep_lock p s).1 t → Reaches s t
  unlocks : {s t : Sleeplock} → Reaches (sleep_unlock s) t → Reaches s t
  elsewhere :
      {s t : Sleeplock} (k : Kernel)
      → IsValid k
      → ((p : ℕ)
          → has p (k.waiting s.sleep_procs) ≡ true
          → has p (s.kernel.waiting s.sleep_procs) ≡ true)
      → Reaches (record s { kernel = k }) t
      → Reaches s t

sleep_lock_taken :
    (p : ℕ) (s : Sleeplock) → s.locked ≡ false → sleep_lock p s ≡ (true, record s { locked = true })
unfolding sleep_lock
sleep_lock_taken p s h = ground arith

sleep_lock-IsSound :
    (p : ℕ) (s : Sleeplock) → IsSound s → IsRunning p s.kernel → IsSound (sleep_lock p s).1
sleep_lock-IsSound p s i r = elim (Bool-cases s.locked) [
  | inl h ↦
      subst (λ x. IsSound x.1) (sym (sleep_lock_refused p s h))
        (record {
          valid = sleep-IsValid p s.sleep_procs s.kernel i.valid r;
          none_left = λ free. absurd (ground (arith, h, free));
        })
  | inr h ↦
      subst (λ x. IsSound x.1) (sym (sleep_lock_taken p s h))
        (record { valid = i.valid; none_left = λ free. absurd (ground (arith, free)) })
]

sleep_unlock-IsSound : (s : Sleeplock) → IsSound s → IsSound (sleep_unlock s)
unfolding sleep_unlock
sleep_unlock-IsSound s i =
    let (valid, woke, lists) = wakeup-WokeAll s.sleep_procs s.kernel i.valid in
    record { valid = valid; none_left = λ free p. ground (arith, lists s.sleep_procs) }

-- However rounds of `sleep_lock`, calls of `sleep_unlock` and the rest of the kernel follow each other,
-- from a state where nobody sleeps at the lock while it is free: in every later one, too, nobody does,
-- and the kernel is well formed. No wake-up is lost, whichever of the waiting processes and of new
-- callers is first to take the lock.
pub Reaches-IsSound : {s t : Sleeplock} → Reaches s t → IsSound s → IsSound t
Reaches-IsSound stays i = i
Reaches-IsSound {s} (locks p r rest) i = Reaches-IsSound rest (sleep_lock-IsSound p s i r)
Reaches-IsSound {s} (unlocks rest) i = Reaches-IsSound rest (sleep_unlock-IsSound s i)
Reaches-IsSound {s} (elsewhere k v less rest) i = Reaches-IsSound rest (record {
  valid = v;
  none_left = λ free p. elim (Bool-cases (has p (k.waiting s.sleep_procs))) [
    | inl there ↦ absurd (ground (arith, i.none_left free p, less p there))
    | inr gone ↦ gone
  ];
})

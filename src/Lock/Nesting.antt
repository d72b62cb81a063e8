-- ===== src/Lock/Nesting.antt =====
-- Nested locks of kern/lock.c and the interrupt flag.
use wei_os.Common.{
  ℕ, ◌+◌, ◌-◌, ◌≡◌, ◌⊎◌, inr, Bool, true, false, ◌&&◌, some, List, ◌∷◌, ◌==◌, if◌then◌else◌, arith,
  length, has,
}
use wei_os.Lock.{
  Machine, update, special_cli, special_sli, holding_spinlock, acquired, spin_lock_irqsave,
  spin_unlock_irqrestore,
}

-- The locks of the list are held, the last one taken first, and no other lock is locked. With a lock
-- held interrupts are off, and `int_enabled` is the flag from before the first of them.
pub record Holds (was : Bool) (held : List ℕ) (m : Machine) : Type 0 where
  pub depth : m.n_clis ≡ length held
  pub flag : m.interruptible ≡ (if length held == 0 then was else false)
  pub saved : (length held ≡ 0) ⊎ (m.int_enabled ≡ was)
  pub locks : (lk : ℕ) → m.locked lk ≡ has lk held
  pub owners : (lk : ℕ) → (has lk held ≡ false) ⊎ (m.owner lk ≡ 1)

spin_lock_irqsave-Holds :
    (was : Bool) (held : List ℕ) (lk : ℕ) (m : Machine)
    → Holds was held m
    → has lk held ≡ false
    → (m' : Machine) × (spin_lock_irqsave lk m ≡ acquired m') × Holds was (lk ∷ held) m'
unfolding spin_lock_irqsave special_cli holding_spinlock
spin_lock_irqsave-Holds was held lk m v free =
    let depth = v.depth in
    let flag = v.flag in
    let saved = v.saved in
    let open_lock = v.locks lk in
    let m' : Machine = record {
      interruptible = false;
      n_clis = m.n_clis + 1;
      int_enabled = if m.n_clis == 0 then m.interruptible else m.int_enabled;
      locked = update m.locked lk true;
      owner = update m.owner lk 1;
    } in
    (
      m',
      ground arith,
      record {
        depth = omega arith;
        flag = ground arith;
        saved = inr (ground arith);
        locks = λ k. let here = v.locks k in ground arith;
        owners = λ k. let here = v.owners k in ground arith;
      },
    )

spin_unlock_irqrestore-Holds :
    (was : Bool) (held : List ℕ) (lk : ℕ) (m : Machine)
    → Holds was (lk ∷ held) m
    → has lk held ≡ false
    → (m' : Machine) × (spin_unlock_irqrestore lk m ≡ some m') × Holds was held m'
unfolding spin_unlock_irqrestore special_sli holding_spinlock
spin_unlock_irqrestore-Holds was held lk m v once =
    let depth = v.depth in
    let flag = v.flag in
    let saved = v.saved in
    let closed = v.locks lk in
    let mine = v.owners lk in
    let m' : Machine = record {
      interruptible = m.n_clis == 1 && m.int_enabled;
      n_clis = m.n_clis - 1;
      int_enabled = m.int_enabled;
      locked = update m.locked lk false;
      owner = update m.owner lk 0;
    } in
    (
      m',
      ground arith,
      record {
        depth = omega arith;
        flag = ground arith;
        saved = ground arith;
        locks = λ k. let here = v.locks k in ground arith;
        owners = λ k. let here = v.owners k in ground arith;
      },
    )

-- When this processor holds some locks and takes one more, which is free, it gets the lock and
-- interrupts are off; when it then gives the lock back, nothing panics, it holds the locks of before,
-- and the interrupt flag is what it was, on if and only if these were none and it was on at first.
pub spin_lock_irqsave-spin_unlock_irqrestore :
    (was : Bool) (held : List ℕ) (lk : ℕ) (m : Machine)
    → Holds was held m
    → has lk held ≡ false
    → (taken : Machine) × (given : Machine) × (spin_lock_irqsave lk m ≡ acquired taken)
      × (taken.interruptible ≡ false)
      × (spin_unlock_irqrestore lk taken ≡ some given)
      × Holds was held given
      × (given.interruptible ≡ m.interruptible)
spin_lock_irqsave-spin_unlock_irqrestore was held lk m v free =
    let (taken, got, inside) = spin_lock_irqsave-Holds was held lk m v free in
    let (given, gone, after) = spin_unlock_irqrestore-Holds was held lk taken inside free in
    let off = inside.flag in
    let back = after.flag in
    let first = v.flag in (taken, given, got, ground arith, gone, after, ground arith)

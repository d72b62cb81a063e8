-- ===== src/Lock.antt =====
-- The spin locks of kern/lock.c on one processor: the interrupt flag, the depth of the nested
-- `special_cli`, and the locks, each named by a number. With one processor the `xchg` loop ends at
-- once for a free lock; for a lock that another processor holds it would wait.
pub mod Nesting
mod Tests
use wei_os.Common.{
  ℕ, zero, suc, ◌+◌, ◌-◌, Bool, true, false, not, ◌&&◌, ◌||◌, Option, none, some, List, [], ◌∷◌,
  ◌==◌, ltb, if◌then◌else◌,
}

-- `struct cpu` with the flag IF of the processor, and `locked` with `cpu` of every lock: 0 is a null
-- `cpu`, and this processor is 1.
pub record Machine : Type 0 where
  pub interruptible : Bool
  pub n_clis : ℕ
  pub int_enabled : Bool
  pub locked : ℕ → Bool
  pub owner : ℕ → ℕ

abbrev pub update {ℓ} : {A : Type ℓ} → (ℕ → A) → ℕ → A → ℕ → A
update f i a j = if i == j then a else f j

unfoldable pub special_cli : Machine → Machine
special_cli m = record m {
  interruptible = false;
  int_enabled = if m.n_clis == 0 then m.interruptible else m.int_enabled;
  n_clis = m.n_clis + 1;
}

-- `none` is a panic.
unfoldable pub special_sli : Machine → Option Machine
special_sli m =
    if m.interruptible || m.n_clis == 0
    then none
    else some (record m { n_clis = m.n_clis - 1; interruptible = m.n_clis == 1 && m.int_enabled })

unfoldable pub holding_spinlock : ℕ → Machine → Bool
holding_spinlock lk m = m.locked lk && m.owner lk == 1

-- How `spin_lock_irqsave` ends: with the lock, with a panic, or not while another processor holds it.
pub data Locking : Type 0 where
  acquired : Machine → Locking
  deadlock : Locking
  spins : Locking

unfoldable pub spin_lock_irqsave : ℕ → Machine → Locking
unfolding special_cli holding_spinlock
spin_lock_irqsave lk m =
    let m' = special_cli m in
    if holding_spinlock lk m'
    then deadlock
    else if m'.locked lk
    then spins
    else acquired (record m' { locked = update m'.locked lk true; owner = update m'.owner lk 1 })

unfoldable pub spin_unlock_irqrestore : ℕ → Machine → Option Machine
unfolding special_sli holding_spinlock
spin_unlock_irqrestore lk m =
    if not (holding_spinlock lk m)
    then none
    else special_sli (record m { locked = update m.locked lk false; owner = update m.owner lk 0 })

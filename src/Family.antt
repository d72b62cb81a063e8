-- ===== src/Family.antt =====
-- `wait` and `exit` of kern/sysfunc.c: the parents, the children and the zombies, over the sleepers of
-- Sleep. The list `sleep_alone` of a process has its number. `exit` is its two locked parts; what it does
-- between them, the files and the working directory that it gives back, and the pages that it frees in
-- the first one, are not part of this state. The process may sleep there, and is no zombie afterwards.
pub mod Reap
mod Tests
use Prim.Native.Nat.{ℕ}
use wei_os.Common.{
  ◌==◌, unlink, false, [], some, if◌then◌else◌, true, none, ◌∷◌, Option, Bool, List,
}
use wei_os.Sched
use wei_os.Sched.{Task, Status, zombie}
use wei_os.Sleep.{wakeup, sleep, Kernel, update}

pub record Family : Type 0 where
  pub kernel : Kernel
  pub ppid : ℕ → ℕ
  pub children : ℕ → List ℕ
  pub wait_for_child : ℕ → Bool
  pub rootproc : ℕ
  pub destroyed : List ℕ

abbrev pub is_zombie : Status → Bool
is_zombie zombie = true
is_zombie _ = false

-- The first zombie of a list of children.
abbrev pub first_zombie : List ℕ → (ℕ → Task) → Option ℕ
first_zombie [] task = none
first_zombie (c ∷ cs) task =
    let rest = first_zombie cs task in if is_zombie (task c).status then some c else rest

-- One round of the loop of `wait`: the child that it gives back, or the process goes to sleep.
unfoldable pub wait_round : ℕ → Family → Option ℕ × Family
unfolding sleep
wait_round p f = elim (first_zombie (f.children p) f.kernel.cpu.task) [
  | some z ↦ (
    some z,
    record f {
      children = update f.children p (unlink z (f.children p));
      destroyed = z ∷ f.destroyed;
    },
  )
  | none ↦ (
    none,
    record f { wait_for_child = update f.wait_for_child p true; kernel = sleep p p f.kernel },
  )
]

-- The loop of `exit` that gives the children to the root process.
unfoldable pub adopt : List ℕ → Family → Family
adopt [] f = f
adopt (c ∷ cs) f = adopt cs (record f {
  ppid = update f.ppid c f.rootproc;
  children = update f.children f.rootproc (c ∷ f.children f.rootproc);
})

-- The status of a process that exits.
abbrev pub become_zombie : ℕ → Kernel → Kernel
become_zombie p k =
    let c = k.cpu in
    let t = c.task p in
    record k {
      cpu = record c {
        task = Sched.update c.task p (record t { status = zombie; proc_queue = none });
      };
    }

-- The first locked part of `exit`, but for `proc_free`; no result stands for the panic of the root
-- process.
unfoldable pub die : ℕ → Family → Option Family
unfolding adopt
die p f =
    if p == f.rootproc
    then none
    else let f' = adopt (f.children p) (record f { children = update f.children p [] }) in
      some (record f' { kernel = become_zombie p f'.kernel })

-- The second locked part of `exit`, up to `sched`: the process wakes up its parent, which is the root
-- process when it has none.
unfoldable pub leave : ℕ → Family → Family
unfolding wakeup
leave p f =
    let parent = if f.ppid p == 0 then f.rootproc else f.ppid p in
    if f.wait_for_child parent then record f { kernel = wakeup parent f.kernel } else f

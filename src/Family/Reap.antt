-- ===== src/Family/Reap.antt =====
-- A parent that waits gets the child that exits.
use mathlib.Core.Path.{subst}
use wei_os.Sched.Pick.{update-IsValid}
use wei_os.Sched.{zombie, runnable, running, ready, sleeping, free}
use wei_os.Sleep.Kill.{IsRunning}
use wei_os.Family.{
  leave, die, wakeup, become_zombie, is_zombie, update, Kernel, Status, wait_round, first_zombie,
  Family, Task, adopt,
}
use wei_os.Sched.{running, zombie}
use wei_os.Common.{
  sym, ◌∙◌, ap, arith, ◌==◌, none, inr, inl, Bool-cases, [], some, ◌≢◌, ◌∷◌, ◌⊎◌, false, true, ◌≡◌,
  has, ℕ, List, refl,
}
use wei_os.Sleep.Wake.{wakeup-WokeAll, IsReady, IsValid}

is_zombie_inv : (s : Status) → is_zombie s ≡ true → s ≡ zombie
is_zombie_inv zombie h = refl
is_zombie_inv runnable h = absurd (cc)
is_zombie_inv running h = absurd (cc)
is_zombie_inv ready h = absurd (cc)
is_zombie_inv sleeping h = absurd (cc)
is_zombie_inv free h = absurd (cc)

first_zombie-found :
    (l : List ℕ) (z : ℕ) (task : ℕ → Task)
    → has z l ≡ true
    → (task z).status ≡ zombie
    → (y : ℕ) × (first_zombie l task ≡ some y) × ((task y).status ≡ zombie)
first_zombie-found [] z task h g = absurd (cc)
first_zombie-found (x ∷ l) z task h g = elim (Bool-cases (is_zombie (task x).status)) [
  | inl e ↦ (x, rw e refl, is_zombie_inv (task x).status e)
  | inr e ↦
      let elsewhere : has z l ≡ true = elim (Bool-cases (x == z)) [
        | inl same ↦
            let st : (task x).status ≡ zombie = ap (λ y. (task y).status) (ground arith) ∙ g in
            absurd (ground (arith, sym (ap is_zombie st) ∙ e))
        | inr other ↦ ground arith
      ] in
      rw e (first_zombie-found l z task elsewhere g)
]

-- What `adopt` leaves.
record Adopted (p : ℕ) (f f' : Family) : Type 0 where
  kernel : f'.kernel ≡ f.kernel
  waits : f'.wait_for_child ≡ f.wait_for_child
  ppid : f'.ppid p ≡ f.ppid p
  children : (x y : ℕ) → (has x (f.children y) ≡ false) ⊎ (has x (f'.children y) ≡ true)

adopt-Adopted : (cs : List ℕ) (p : ℕ) (f : Family) → has p cs ≡ false → Adopted p f (adopt cs f)
unfolding adopt
adopt-Adopted [] p f h = record {
  kernel = refl;
  waits = refl;
  ppid = refl;
  children = λ x y. elim (Bool-cases (has x (f.children y))) [ inl e ↦ inr e | inr e ↦ inl e ];
}
adopt-Adopted (c ∷ cs) p f h =
    let f' : Family = record f {
      ppid = update f.ppid c f.rootproc;
      children = update f.children f.rootproc (c ∷ f.children f.rootproc);
    } in
    let a = adopt-Adopted cs p f' (ground arith) in
    record {
      kernel = a.kernel;
      waits = a.waits;
      ppid = a.ppid ∙ ground arith;
      children = λ x y. ground (arith, a.children x y);
    }

become_zombie-IsValid :
    (p : ℕ) (k : Kernel) → IsValid k → IsRunning p k → IsValid (become_zombie p k)
become_zombie-IsValid p k v r =
    let t = k.cpu.task p in
    let dead : Task = record t { status = zombie; proc_queue = none } in
    record {
      cpu = update-IsValid p dead k.cpu r.off (v.cpu.small p) v.cpu;
      asleep = λ l q. ground (arith, v.asleep l q, r.awake l);
      unqueued = v.unqueued;
      once = v.once;
      apart = v.apart;
    }

leave_wakes :
    (p q : ℕ) (f : Family)
    → f.wait_for_child q ≡ true
    → f.ppid p ≡ q
    → q ≢ 0
    → leave p f ≡ record f { kernel = wakeup q f.kernel }
unfolding leave
leave_wakes p q f w parent n =
    let some_parent : (q == 0) ≡ false = ground arith in rw (parent, some_parent, w) refl

die_runs :
    (p : ℕ) (f : Family)
    → p ≢ f.rootproc
    → die p f
      ≡ some (record (adopt (f.children p) (record f { children = update f.children p [] })) {
        kernel =
            become_zombie p
              (adopt (f.children p) (record f { children = update f.children p [] })).kernel;
      })
unfolding die
die_runs p f n = let other : (p == f.rootproc) ≡ false = ground arith in rw other refl

wait_round_reaps :
    (q z : ℕ) (f : Family)
    → first_zombie (f.children q) f.kernel.cpu.task ≡ some z
    → (wait_round q f).0 ≡ some z
unfolding wait_round
wait_round_reaps q z f h = rw (h, wait_round) refl

-- What the first part of `exit` leaves: a zombie that is still its parent's child.
pub record Dead (p : ℕ) (f f' : Family) : Type 0 where
  pub valid : IsValid f'.kernel
  pub status : (f'.kernel.cpu.task p).status ≡ zombie
  pub ppid : f'.ppid p ≡ f.ppid p
  pub child : (q : ℕ) → p ≢ q → (has p (f.children q) ≡ false) ⊎ (has p (f'.children q) ≡ true)

die-Dead :
    (p : ℕ) (f : Family)
    → IsValid f.kernel
    → IsRunning p f.kernel
    → p ≢ f.rootproc
    → has p (f.children p) ≡ false
    → (f' : Family) × (die p f ≡ some f') × Dead p f f'
die-Dead p f v r n own =
    let f0 : Family = record f { children = update f.children p [] } in
    let f1 = adopt (f.children p) f0 in
    let a = adopt-Adopted (f.children p) p f0 own in
    let f' : Family = record f1 { kernel = become_zombie p f1.kernel } in
    (
      f',
      die_runs p f n,
      record {
        valid =
            subst (λ k. IsValid (become_zombie p k)) (sym a.kernel)
              (become_zombie-IsValid p f.kernel v r);
        status = ground arith;
        ppid = a.ppid;
        child = λ q other. ground (arith, a.children p q);
      },
    )

-- When a process that exits comes to the second part of `exit` as a zombie, and its parent sleeps in
-- `wait`, the parent is runnable and in the run queue afterwards, and the next round of its `wait` does
-- not sleep but gives back a child that is a zombie. The kernel is well formed and the process is one
-- of its parent's children and sleeps nowhere.
pub leave-wait_round :
    (p q : ℕ) (f : Family)
    → IsValid f.kernel
    → (f.kernel.cpu.task p).status ≡ zombie
    → ((l : ℕ) → has p (f.kernel.waiting l) ≡ false)
    → has q (f.kernel.waiting q) ≡ true
    → f.wait_for_child q ≡ true
    → f.ppid p ≡ q
    → q ≢ 0
    → has p (f.children q) ≡ true
    → IsReady q (leave p f).kernel.cpu
      × (z : ℕ) × ((wait_round q (leave p f)).0 ≡ some z)
      × (((leave p f).kernel.cpu.task z).status ≡ zombie)
leave-wait_round p q f v is_dead awake asleep waits parent n child =
    let k = f.kernel in
    let (valid, woke, lists) = wakeup-WokeAll q k v in
    let f' : Family = record f { kernel = wakeup q k } in
    let run : leave p f ≡ f' = leave_wakes p q f waits parent n in
    let dead : ((wakeup q k).cpu.task p).status ≡ zombie = elim (woke.others p) [
      | inl there ↦ absurd (ground (arith, awake q))
      | inr same ↦ ap (λ t. t.status) same ∙ is_dead
    ] in
    let (z, first, zombie_z) =
      first_zombie-found (f.children q) p (wakeup q k).cpu.task child dead in
    subst
      (λ g.
        IsReady q g.kernel.cpu
        × (y : ℕ) × ((wait_round q g).0 ≡ some y)
        × ((g.kernel.cpu.task y).status ≡ zombie))
      (sym run)
      (
        elim (woke.ready q) [ inl absent ↦ absurd (ground arith) | inr is_ready ↦ is_ready ],
        z,
        wait_round_reaps q z f' first,
        zombie_z,
      )

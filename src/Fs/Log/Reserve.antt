-- ===== src/Fs/Log/Reserve.antt =====
-- The reservation of kern/log.c: every file-system call may log MAXOPBLOCKS blocks, and
-- `begin_transaction` admits it only when the log has room for all calls that run.
use wei_os.Common.{
  ◌==◌, if◌then◌else◌, refl, ◌≢◌, ap, inl, ℕ, zero, suc, ◌+◌, ◌*◌, ◌≤◌, ◌<◌, ◌≡◌, ◌⊎◌, true, false,
  some, List, [], ◌∷◌, get_or, set, length, arith,
}
use wei_os.Fs.{LogManager, logsize, maxopblocks}
use wei_os.Fs.Log.{
  log_index, panics, log_block, begin_transaction, end_transaction, committed, others_run,
  must_commit,
}

-- A process is outside of a call (`idle`), or in one that may log so many more blocks.
pub data Caller : Type 0 where
  idle : Caller
  may_log : ℕ → Caller

abbrev pub budget : Caller → ℕ
budget idle = 0
budget (may_log k) = k

abbrev pub active : Caller → ℕ
active idle = 0
active (may_log k) = 1

abbrev pub budgets : List Caller → ℕ
budgets [] = 0
budgets (c ∷ cs) = budget c + budgets cs

abbrev pub actives : List Caller → ℕ
actives [] = 0
actives (c ∷ cs) = active c + actives cs

abbrev pub caller : List Caller → ℕ → Caller
caller cs p = get_or cs p idle

-- The steps of the processes; the commit of the last one out is one step of its own.
pub data Step : LogManager → List Caller → LogManager → List Caller → Type 0 where
  begins :
      (l l' : LogManager) (cs : List Caller) (p : ℕ)
      → p < length cs
      → caller cs p ≡ idle
      → begin_transaction l ≡ some l'
      → Step l cs l' (set cs p (may_log maxopblocks))
  logs :
      (l l' : LogManager) (cs : List Caller) (p k n : ℕ)
      → caller cs p ≡ may_log (suc k)
      → log_block n l ≡ some l'
      → Step l cs l' (set cs p (may_log k))
  ends :
      (l l' : LogManager) (cs : List Caller) (p k : ℕ)
      → caller cs p ≡ may_log k
      → end_transaction l ≡ others_run l'
      → Step l cs l' (set cs p idle)
  ends_last :
      (l l' : LogManager) (cs : List Caller) (p k : ℕ)
      → caller cs p ≡ may_log k
      → end_transaction l ≡ must_commit l'
      → Step l cs l' (set cs p idle)
  commits : (l : LogManager) (cs : List Caller) → l.committing ≡ true → Step l cs (committed l) cs

pub data Reachable (l : LogManager) (cs : List Caller) : LogManager → List Caller → Type 0 where
  start : Reachable l cs l cs
  next :
      {m n : LogManager} {ds es : List Caller}
      → Reachable l cs m ds
      → Step m ds n es
      → Reachable l cs n es

-- The log has room for whatever the calls in progress may still log.
pub record IsReserved (l : LogManager) (cs : List Caller) : Type 0 where
  pub room : l.nblks + budgets cs ≤ logsize
  pub each : (p : ℕ) → budget (caller cs p) ≤ maxopblocks
  pub counted : l.n_occupiers ≡ actives cs
  pub quiet : (l.committing ≡ false) ⊎ (l.n_occupiers ≡ 0)

-- What replacing one caller does to the sums.
replace_budget :
    (cs : List Caller) (p : ℕ) (c : Caller)
    → p < length cs
    → budgets (set cs p c) + budget (caller cs p) ≡ budgets cs + budget c
replace_budget [] p c h = absurd (omega arith)
replace_budget (x ∷ cs) zero c h = omega arith
replace_budget (x ∷ cs) (suc p) c h = omega (arith, replace_budget cs p c (omega arith))

replace_active :
    (cs : List Caller) (p : ℕ) (c : Caller)
    → p < length cs
    → actives (set cs p c) + active (caller cs p) ≡ actives cs + active c
replace_active [] p c h = absurd (omega arith)
replace_active (x ∷ cs) zero c h = omega arith
replace_active (x ∷ cs) (suc p) c h = omega (arith, replace_active cs p c (omega arith))

inside : (cs : List Caller) (p k : ℕ) → caller cs p ≡ may_log k → p < length cs
inside [] p k e = absurd (cc)
inside (x ∷ cs) zero k e = omega arith
inside (x ∷ cs) (suc p) k e = omega (arith, inside cs p k e)

budgets_bound :
    (cs : List Caller)
    → ((p : ℕ) → budget (caller cs p) ≤ maxopblocks)
    → budgets cs ≤ actives cs * maxopblocks
budgets_bound [] h = omega arith
budgets_bound (idle ∷ cs) h = omega (arith, budgets_bound cs (λ p. h (suc p)))
budgets_bound (may_log k ∷ cs) h = omega (arith, h 0, budgets_bound cs (λ p. h (suc p)))

replace_each :
    (cs : List Caller) (p : ℕ) (c : Caller)
    → budget c ≤ maxopblocks
    → ((q : ℕ) → budget (caller cs q) ≤ maxopblocks)
    → (q : ℕ) → budget (caller (set cs p c) q) ≤ maxopblocks
replace_each [] p c b h q = h q
replace_each (x ∷ cs) zero c b h zero = b
replace_each (x ∷ cs) zero c b h (suc q) = h (suc q)
replace_each (x ∷ cs) (suc p) c b h zero = h 0
replace_each (x ∷ cs) (suc p) c b h (suc q) = replace_each cs p c b (λ i. h (suc i)) q

-- The blocks that one call of `log_write` adds to the header.
log_block_grows :
    (n : ℕ) (l l' : LogManager)
    → log_block n l ≡ some l'
    → (l'.nblks ≤ l.nblks + 1) × (l'.n_occupiers ≡ l.n_occupiers) × (l'.committing ≡ l.committing)
unfolding log_block
log_block_grows n l l' e = ground arith

begins-IsReserved :
    (l l' : LogManager) (cs : List Caller) (p : ℕ)
    → p < length cs
    → caller cs p ≡ idle
    → begin_transaction l ≡ some l'
    → IsReserved l cs
    → IsReserved l' (set cs p (may_log maxopblocks))
unfolding begin_transaction
begins-IsReserved l l' cs p h i e v =
    let sum = replace_budget cs p (may_log maxopblocks) h in
    let number = replace_active cs p (may_log maxopblocks) h in
    let idle_budget : budget (caller cs p) ≡ 0 = ap budget i in
    let idle_active : active (caller cs p) ≡ 0 = ap active i in
    let bound = budgets_bound cs v.each in
    let fits : l.nblks + (l.n_occupiers + 1) * maxopblocks ≤ logsize = ground arith in
    let same : l'.nblks ≡ l.nblks = ground arith in
    let more : l'.n_occupiers ≡ l.n_occupiers + 1 = ground arith in
    let open_still : l'.committing ≡ false = ground arith in
    record {
      room = omega (arith, v.counted);
      each = replace_each cs p (may_log maxopblocks) (omega arith) v.each;
      counted = omega (arith, v.counted);
      quiet = inl open_still;
    }

logs-IsReserved :
    (l l' : LogManager) (cs : List Caller) (p k n : ℕ)
    → caller cs p ≡ may_log (suc k)
    → log_block n l ≡ some l'
    → IsReserved l cs
    → IsReserved l' (set cs p (may_log k))
logs-IsReserved l l' cs p k n c e v =
    let h = inside cs p (suc k) c in
    let sum = replace_budget cs p (may_log k) h in
    let number = replace_active cs p (may_log k) h in
    let budget_of : budget (caller cs p) ≡ suc k = ap budget c in
    let active_of : active (caller cs p) ≡ 1 = ap active c in
    let grown = log_block_grows n l l' e in
    record {
      room = omega (arith, v.room);
      each = replace_each cs p (may_log k) (omega (arith, v.each p)) v.each;
      counted = omega (arith, v.counted);
      quiet = rw (grown.1, grown.2) v.quiet;
    }

leaves-IsReserved :
    (l l' : LogManager) (cs : List Caller) (p k : ℕ)
    → caller cs p ≡ may_log k
    → l'.nblks ≡ l.nblks
    → l'.n_occupiers + 1 ≡ l.n_occupiers
    → (l'.committing ≡ false) ⊎ (l'.n_occupiers ≡ 0)
    → IsReserved l cs
    → IsReserved l' (set cs p idle)
leaves-IsReserved l l' cs p k c same fewer q v =
    let h = inside cs p k c in
    let sum = replace_budget cs p idle h in
    let number = replace_active cs p idle h in
    let active_of : active (caller cs p) ≡ 1 = ap active c in
    record {
      room = omega (arith, v.room);
      each = replace_each cs p idle (omega arith) v.each;
      counted = omega (arith, v.counted);
      quiet = q;
    }

-- A process in a call is counted among the occupiers.
occupied : (cs : List Caller) (p k : ℕ) → caller cs p ≡ may_log k → 0 < actives cs
occupied [] p k e = absurd (cc)
occupied (x ∷ cs) zero k e = let one : active x ≡ 1 = ap active e in omega arith
occupied (x ∷ cs) (suc p) k e = omega (arith, occupied cs p k e)

Step-IsReserved :
    {l l' : LogManager} {cs ds : List Caller} → Step l cs l' ds → IsReserved l cs → IsReserved l' ds
unfolding end_transaction committed
Step-IsReserved (begins l l' cs p h i e) v = begins-IsReserved l l' cs p h i e v
Step-IsReserved (logs l l' cs p k n c e) v = logs-IsReserved l l' cs p k n c e v
Step-IsReserved (ends l l' cs p k c e) v =
    let some_one = occupied cs p k c in
    let counted = v.counted in
    let same : l'.nblks ≡ l.nblks = ground arith in
    let fewer : l'.n_occupiers + 1 ≡ l.n_occupiers = ground arith in
    let quiet : (l'.committing ≡ false) ⊎ (l'.n_occupiers ≡ 0) = ground arith in
    leaves-IsReserved l l' cs p k c same fewer quiet v
Step-IsReserved (ends_last l l' cs p k c e) v =
    let some_one = occupied cs p k c in
    let counted = v.counted in
    let same : l'.nblks ≡ l.nblks = ground arith in
    let fewer : l'.n_occupiers + 1 ≡ l.n_occupiers = ground arith in
    let quiet : (l'.committing ≡ false) ⊎ (l'.n_occupiers ≡ 0) = ground arith in
    leaves-IsReserved l l' cs p k c same fewer quiet v
Step-IsReserved (commits l cs q) v = record {
  room = omega (arith, v.room);
  each = v.each;
  counted = v.counted;
  quiet = inl refl;
}

-- Whatever file-system calls begin, log, end and commit, in any order, the log keeps room for all
-- blocks that the calls in progress may still log.
pub Reachable-IsReserved :
    {l : LogManager} {cs : List Caller} {l' : LogManager} {ds : List Caller}
    → IsReserved l cs
    → Reachable l cs l' ds
    → IsReserved l' ds
Reachable-IsReserved v start = v
Reachable-IsReserved v (next r t) = Step-IsReserved t (Reachable-IsReserved v r)

-- A call that has logged fewer than MAXOPBLOCKS blocks is never refused: in a log area of more than
-- LOGSIZE blocks, `log_write` accepts every block from it, after any steps of the others. An ending
-- call never meets a commit, so `end_transaction` does not panic.
pub log_block-accepts :
    {l l' : LogManager} {cs ds : List Caller} (p k n : ℕ)
    → IsReserved l cs
    → logsize < l'.size
    → Reachable l cs l' ds
    → caller ds p ≡ may_log (suc k)
    → ((m : LogManager) × (log_block n l' ≡ some m)) × (end_transaction l' ≢ panics)
unfolding log_block end_transaction
log_block-accepts {l' = l'} {ds = ds} p k n v big r c =
    let held = Reachable-IsReserved v r in
    let some_one = occupied ds p (suc k) c in
    let spent = replace_budget ds p idle (inside ds p (suc k) c) in
    let budget_of : budget (caller ds p) ≡ suc k = ap budget c in
    let room = held.room in
    let counted = held.counted in
    let quiet = held.quiet in
    let i = log_index l'.nblks 0 n l'.blks_no in
    let runs : log_block n l'
        ≡ some (record l' {
          blks_no = set l'.blks_no i n;
          nblks = if i == l'.nblks then l'.nblks + 1 else l'.nblks;
        }) =
      ground arith in
    ((_, runs), λ e. ground arith)

-- ===== src/Sched/Levels.antt =====
-- The bitmap of a run queue against its lists.
use wei_os.Common.{
  unlink, unlink-absent, has-unlink, has-append_one, has, zero, suc, suc, ltb, ◌+◌, ◌≤◌, ◌∙◌, ℕ,
  ◌-◌, ◌%◌, ◌<◌, ◌≡◌, refl, ◌⊎◌, inl, inr, true, false, not, ◌&&◌, List, [], ◌∷◌, ◌++◌, arith,
  Bool-cases, ◌==◌, if◌then◌else◌, test_bit-set_bit_self, test_bit-set_bit_ne,
  test_bit-clear_bit_self, test_bit-clear_bit_ne,
}
use wei_os.Sched.{
  find_first_set, first_set_from, ProcQueue, n_priority, is_empty, enqueue, dequeue, level_bit,
}

-- Each bit says whether its list holds a process, and each process stands in the list of its
-- priority.
pub record IsConsistent (priority : ℕ → ℕ) (q : ProcQueue) : Type 0 where
  pub bits : (i : ℕ) → level_bit q i ≡ not (is_empty (q.procs_in_queue i))
  pub placed : (i p : ℕ) → (has p (q.procs_in_queue i) ≡ false) ⊎ (priority p ≡ i)

is_empty-append_one : (p : ℕ) (l : List ℕ) → is_empty (l ++ (p ∷ [])) ≡ false
is_empty-append_one p [] = refl
is_empty-append_one p (x ∷ xs) = refl

pub is_empty→nil : (l : List ℕ) → is_empty l ≡ true → l ≡ []
is_empty→nil [] h = refl
is_empty→nil (x ∷ xs) h = absurd (cc)

level_bit-enqueue :
    (p prio : ℕ) (q : ProcQueue) (i : ℕ)
    → prio < n_priority
    → level_bit (enqueue p prio q) i ≡ (if prio == i then true else level_bit q i)
unfolding enqueue
level_bit-enqueue p prio q i small = ground (
  arith,
  test_bit-set_bit_self q.bitmap_lo (prio % 32),
  test_bit-set_bit_self q.bitmap_hi (prio % 32),
  test_bit-set_bit_ne q.bitmap_lo (prio % 32) i,
  test_bit-set_bit_ne q.bitmap_hi (prio % 32) (i - 32),
)

level_bit-dequeue :
    (p prio : ℕ) (q : ProcQueue) (i : ℕ)
    → prio < n_priority
    → level_bit (dequeue p prio q) i
      ≡ (if is_empty (unlink p (q.procs_in_queue prio)) && prio == i then false else level_bit q i)
unfolding dequeue
level_bit-dequeue p prio q i small =
    elim (Bool-cases (is_empty (unlink p (q.procs_in_queue prio)))) [
      | inl gone ↦ rw gone (
          ground (
            arith,
            test_bit-clear_bit_self q.bitmap_lo (prio % 32),
            test_bit-clear_bit_self q.bitmap_hi (prio % 32),
            test_bit-clear_bit_ne q.bitmap_lo (prio % 32) i,
            test_bit-clear_bit_ne q.bitmap_hi (prio % 32) (i - 32),
          ))
      | inr left ↦ rw left
    ]

-- A list that is empty stays empty.
unlinked_nil : (p : ℕ) (l : List ℕ) → is_empty l ≡ true → is_empty (unlink p l) ≡ true
unlinked_nil p [] h = refl
unlinked_nil p (x ∷ xs) h = absurd (cc)

-- `add_proc_to_queue` keeps the bitmap in step with the lists.
pub enqueue-IsConsistent :
    (priority : ℕ → ℕ) (p : ℕ) (q : ProcQueue)
    → priority p < n_priority
    → IsConsistent priority q
    → IsConsistent priority (enqueue p (priority p) q)
unfolding enqueue
enqueue-IsConsistent priority p q small c = record {
  bits = λ i. level_bit-enqueue p (priority p) q i small ∙ listed i;
  placed = λ i j. elim (Bool-cases (priority p == i)) [
    | inl same ↦
        rw same (ground (arith, c.placed i j, has-append_one p j (q.procs_in_queue (priority p))))
    | inr apart ↦ rw apart (c.placed i j)
  ];
}
  where
    listed :
        (i : ℕ)
        → (if priority p == i then true else level_bit q i)
          ≡ not (is_empty ((enqueue p (priority p) q).procs_in_queue i))
    listed i = elim (Bool-cases (priority p == i)) [
      | inl same ↦ rw (same, is_empty-append_one p (q.procs_in_queue (priority p)))
      | inr apart ↦ rw apart (c.bits i)
    ]

-- `del_proc_fron_queue` keeps the bitmap in step with the lists.
pub dequeue-IsConsistent :
    (priority : ℕ → ℕ) (p : ℕ) (q : ProcQueue)
    → priority p < n_priority
    → IsConsistent priority q
    → IsConsistent priority (dequeue p (priority p) q)
unfolding dequeue
dequeue-IsConsistent priority p q small c = record {
  bits = λ i. level_bit-dequeue p (priority p) q i small ∙ listed i;
  placed = λ i j. ground (arith, c.placed i j, has-unlink p j (q.procs_in_queue i));
}
  where
    listed :
        (i : ℕ)
        → (if is_empty (unlink p (q.procs_in_queue (priority p))) && priority p == i
            then false
            else level_bit q i)
          ≡ not (is_empty (unlink p (q.procs_in_queue i)))
    listed i = elim (Bool-cases (priority p == i)) [
      | inl same ↦
          let e : priority p ≡ i = ground arith in
          rw (← e)
            (ground (arith, c.bits (priority p), unlinked_nil p (q.procs_in_queue (priority p))))
      | inr apart ↦ ground (arith, c.bits i, c.placed i p, unlink-absent p (q.procs_in_queue i))
    ]

first_set_from_lem :
    (k idx : ℕ) (q : ProcQueue)
    → (idx ≤ first_set_from k idx q)
      × (first_set_from k idx q ≤ idx + k)
      × ((first_set_from k idx q ≡ idx + k) ⊎ (level_bit q (first_set_from k idx q) ≡ true))
      × ((j : ℕ) → idx ≤ j → j < first_set_from k idx q → level_bit q j ≡ false)
unfolding first_set_from
first_set_from_lem zero idx q =
    (omega arith, omega arith, inl (omega arith), λ j a b. absurd (omega arith))
first_set_from_lem (suc k) idx q = elim (Bool-cases (level_bit q idx)) [
  | inl hit ↦ rw hit (omega arith, omega arith, inr hit, λ j a b. absurd (omega arith))
  | inr miss ↦
      let (low, high, found, below) = first_set_from_lem k (idx + 1) q in
      rw miss (
        omega (arith, low),
        omega (arith, high),
        ground (arith, found),
        λ j a b. elim (Bool-cases (idx == j)) [
          | inl same ↦ (let e : idx ≡ j = ground arith in rw (← e) miss)
          | inr apart ↦ below j (ground arith) b
        ],
      )
]

-- Of a consistent queue `find_first_set` returns the least level that holds a process, or
-- N_PRIORITY if no level below that does.
pub find_first_set_least :
    (priority : ℕ → ℕ) (q : ProcQueue)
    → IsConsistent priority q
    → (find_first_set q ≤ n_priority)
      × ((find_first_set q ≡ n_priority) ⊎ (is_empty (q.procs_in_queue (find_first_set q)) ≡ false))
      × ((j : ℕ) → (find_first_set q ≤ j) ⊎ (q.procs_in_queue j ≡ []))
unfolding find_first_set
find_first_set_least priority q c =
    let (low, high, found, below) = first_set_from_lem n_priority 0 q in
    (
      omega (arith, high),
      ground (arith, found, c.bits (first_set_from n_priority 0 q)),
      λ j. elim (Bool-cases (ltb j (first_set_from n_priority 0 q))) [
        | inr above ↦ inl (ground arith)
        | inl under ↦ inr (
            is_empty→nil (q.procs_in_queue j)
              (ground (arith, c.bits j, below j (omega arith) (ground arith))))
      ],
    )

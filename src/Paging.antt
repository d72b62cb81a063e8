-- ===== src/Paging.antt =====
-- The page tables of kern/pmap.c: one page directory, its tables, and the reference counts of the
-- pages. A page is named by its frame number. `page_alloc` gives the frames of a list, and a page
-- that is freed is recorded. The flush of the translation buffer is not modelled. The directory is kept
-- apart from the frames: the entry at PDINDEX(UVPT), by which it is a table of itself, is an entry like
-- the others here, and what the window at UVPT shows is not modelled.
pub mod Translate
mod Tests
use wei_os.Common.{
  ℕ, zero, suc, ◌+◌, ◌-◌, ◌*◌, ◌/◌, ◌%◌, ◌^◌, Bool, true, false, not, ◌&&◌, ◌||◌, Option, none,
  some, List, [], ◌∷◌, ◌==◌, ltb, if◌then◌else◌,
}
use Prim.Native.Nat.{bit_or}

-- A page table entry: its frame, PTE_P, and its other low bits.
pub record Entry : Type 0 where
  pub frame : ℕ
  pub present : Bool
  pub perm : ℕ

abbrev pub no_entry : Entry
no_entry = record { frame = 0; present = false; perm = 0 }

pub record Memory : Type 0 where
  pub pgdir : ℕ → Entry
  pub table : ℕ → ℕ → Entry
  pub p_ref : ℕ → ℕ
  pub fresh : List ℕ
  pub freed : List ℕ
  pub npages_num : ℕ

abbrev pub update {ℓ} : {A : Type ℓ} → (ℕ → A) → ℕ → A → ℕ → A
update f i a j = if i == j then a else f j

abbrev pub pdindex : ℕ → ℕ
pdindex va = va / 2 ^ 22 % 1024

abbrev pub ptindex : ℕ → ℕ
ptindex va = va / 2 ^ 12 % 1024

-- PDINDEX(UVPT)
abbrev pub uvpt_index : ℕ
uvpt_index = 956

-- The pointer that `pgdir_walk` returns, as the frame of a table and an index in it.
unfoldable pub pgdir_walk : Bool → ℕ → Memory → Option (ℕ × ℕ) × Memory
pgdir_walk create va m =
    let e = m.pgdir (pdindex va) in
    if e.present
    then (some (e.frame, ptindex va), m)
    else if not create
    then (none, m)
    else elim m.fresh [
      | [] ↦ (none, m)
      | f ∷ rest ↦ (
        some (f, ptindex va),
        record m {
          fresh = rest;
          p_ref = update m.p_ref f 1;
          table = update m.table f (λ i. no_entry);
          pgdir = update m.pgdir (pdindex va) (record { frame = f; present = true; perm = 0 });
        },
      )
    ]

unfoldable pub page_decrease_ref : ℕ → Memory → Memory
page_decrease_ref page m =
    let left = (m.p_ref page + 2 ^ 32 - 1) % 2 ^ 32 in
    record m {
      p_ref = update m.p_ref page left;
      freed = if left == 0 then page ∷ m.freed else m.freed;
    }

-- A write to an entry of a table.
abbrev pub set_entry : ℕ → ℕ → Entry → Memory → Memory
set_entry t k e m = record m { table = update m.table t (update (m.table t) k e) }

-- The page with the place of its entry.
unfoldable pub page_lookup : ℕ → Memory → Option (ℕ × ℕ × ℕ)
unfolding pgdir_walk
page_lookup va m = elim (pgdir_walk false va m).0 [
  | none ↦ none
  | some (t, k) ↦
      if ltb (m.table t k).frame m.npages_num then some ((m.table t k).frame, t, k) else none
]

unfoldable pub page_remove : ℕ → Memory → Memory
unfolding page_lookup page_decrease_ref
page_remove va m = elim (page_lookup va m) [
  | none ↦ m
  | some (page, t, k) ↦ set_entry t k no_entry (page_decrease_ref page m)
]

-- The new entry, with the permissions added to the directory's.
unfoldable pub map_page : ℕ → ℕ → ℕ → ℕ → ℕ → Memory → Memory
map_page pp va perm t k m =
    let m' = set_entry t k (record { frame = pp; present = true; perm = perm }) m in
    let d = m'.pgdir (pdindex va) in
    record m' { pgdir = update m'.pgdir (pdindex va) (record d { perm = bit_or d.perm perm }) }

abbrev pub add_ref : ℕ → Memory → Memory
add_ref pp m = record m { p_ref = update m.p_ref pp ((m.p_ref pp + 1) % 2 ^ 32) }

-- The result 1 stands for -E_NO_MEM.
unfoldable pub page_insert : ℕ → ℕ → ℕ → Memory → ℕ × Memory
unfolding pgdir_walk page_remove map_page
page_insert pp va perm m =
    let (walk, m1) = pgdir_walk true va m in
    elim walk [
      | none ↦ (1, m1)
      | some (t, k) ↦
          let e = m1.table t k in
          if e.present && e.frame == pp
          then (0, map_page pp va perm t k m1)
          else if e.present
          then (0, add_ref pp (map_page pp va perm t k (page_remove va m1)))
          else (0, add_ref pp (map_page pp va perm t k m1))
    ]

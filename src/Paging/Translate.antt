-- ===== src/Paging/Translate.antt =====
-- What the processor sees of the page tables of kern/pmap.c.
use mathlib.Core.Path.{sym, subst}
use wei_os.Paging.{
  uvpt_index, add_ref, page_insert, set_entry, page_decrease_ref, page_lookup, map_page,
  page_remove, no_entry, update, ptindex, pdindex, Memory, pgdir_walk,
}
use wei_os.Common.{
  ◌%◌, ◌-◌, ◌^◌, ◌+◌, Option-cases, ◌<◌, ltb, List-cases, inr, ◌==◌, inl, Bool-cases, refl, nodup,
  arith, has, none, ◌≢◌, ◌&&◌, ◌⊎◌, if◌then◌else◌, some, ◌∷◌, false, true, ◌≡◌, Option, List, ℕ, ℕ,
  ℕ,
}

-- The processor's translation: the frame of an address, if both entries are present.
abbrev pub translate : ℕ → Memory → Option ℕ
translate va m =
    let d = m.pgdir (pdindex va) in
    let e = m.table d.frame (ptindex va) in if d.present && e.present then some e.frame else none

-- Each present entry of the directory has a table of its own, and the fresh frames are no tables.
pub record IsValid (m : Memory) : Type 0 where
  pub own :
      (i j : ℕ)
      → ((m.pgdir i).present ≡ false)
        ⊎ ((m.pgdir j).present ≡ false)
        ⊎ (i ≡ j)
        ⊎ ((m.pgdir i).frame ≢ (m.pgdir j).frame)
  pub unused : (i : ℕ) → ((m.pgdir i).present ≡ false) ⊎ (has (m.pgdir i).frame m.fresh ≡ false)
  pub distinct : nodup m.fresh ≡ true

-- The walk with `create`, where it succeeds: it finds or makes the table of the address, and no
-- translation changes.
record WalkedTo (va t k : ℕ) (m m' : Memory) : Type 0 where
  pub valid : IsValid m'
  pub entry : k ≡ ptindex va
  pub there : (m'.pgdir (pdindex va)).present ≡ true
  pub frame : (m'.pgdir (pdindex va)).frame ≡ t
  pub keeps : (a : ℕ) → translate a m' ≡ translate a m

walk_made :
    (va f : ℕ) (rest : List ℕ) (m : Memory)
    → IsValid m
    → m.fresh ≡ f ∷ rest
    → (m.pgdir (pdindex va)).present ≡ false
    → WalkedTo va f (ptindex va) m (record m {
      fresh = rest;
      p_ref = update m.p_ref f 1;
      table = update m.table f (λ i. no_entry);
      pgdir = update m.pgdir (pdindex va) (record { frame = f; present = true; perm = 0 });
    })
walk_made va f rest m v e absent = record {
  valid = record {
    own = λ i j. let o = v.own i j in let ui = v.unused i in let uj = v.unused j in ground arith;
    unused = λ i. let ui = v.unused i in let d = v.distinct in ground arith;
    distinct = let d = v.distinct in ground arith;
  };
  entry = refl;
  there = ground arith;
  frame = ground arith;
  keeps = λ a. let u = v.unused (pdindex a) in ground arith;
}

pgdir_walk-WalkedTo :
    (va t k : ℕ) (m m' : Memory)
    → IsValid m
    → pgdir_walk true va m ≡ (some (t, k), m')
    → WalkedTo va t k m m'
unfolding pgdir_walk
pgdir_walk-WalkedTo va t k m m' v e = elim (Bool-cases (m.pgdir (pdindex va)).present) [
  | inl present ↦
      let same : m ≡ m' = ground arith in
      let at : (m.pgdir (pdindex va)).frame ≡ t = ground arith in
      let index : k ≡ ptindex va = ground arith in
      subst (WalkedTo va t k m) same
        (record { valid = v; entry = index; there = present; frame = at; keeps = λ a. refl })
  | inr absent ↦ elim (List-cases m.fresh) [
    | inl empty ↦ absurd (ground arith)
    | inr (f, rest, full) ↦
        let at : f ≡ t = ground arith in
        let index : ptindex va ≡ k = ground arith in
        let run : record m {
          fresh = rest;
          p_ref = update m.p_ref f 1;
          table = update m.table f (λ i. no_entry);
          pgdir = update m.pgdir (pdindex va) (record { frame = f; present = true; perm = 0 });
        }
            ≡ m' =
          ground arith in
        rw (sym at, sym index)
          (subst (WalkedTo va f (ptindex va) m) run (walk_made va f rest m v full absent))
  ]
]

-- `m'` differs from `m` in the entry `k` of table `t` at most, and in counts.
record Near (t k : ℕ) (m m' : Memory) : Type 0 where
  pub pgdir : (i : ℕ) → m'.pgdir i ≡ m.pgdir i
  pub table : (i j : ℕ) → ((i ≡ t) × (j ≡ k)) ⊎ (m'.table i j ≡ m.table i j)
  pub fresh : m'.fresh ≡ m.fresh

page_remove-Near :
    (va t : ℕ) (m : Memory)
    → (m.pgdir (pdindex va)).present ≡ true
    → (m.pgdir (pdindex va)).frame ≡ t
    → Near t (ptindex va) m (page_remove va m)
unfolding page_remove page_lookup pgdir_walk page_decrease_ref
page_remove-Near va t m present at =
    elim (Bool-cases (ltb (m.table t (ptindex va)).frame m.npages_num)) [
      | inl known ↦
          let run : page_remove va m
              ≡ set_entry t (ptindex va) no_entry
                  (page_decrease_ref (m.table t (ptindex va)).frame m) =
            ground arith in
          rw run (record { pgdir = λ i. refl; table = λ i j. ground arith; fresh = refl })
      | inr unknown ↦
          let run : page_remove va m ≡ m = ground arith in
          rw run (record { pgdir = λ i. refl; table = λ i j. inr refl; fresh = refl })
    ]

map_page-translate :
    (pp va perm t k : ℕ) (m m' : Memory)
    → IsValid m
    → (m.pgdir (pdindex va)).present ≡ true
    → (m.pgdir (pdindex va)).frame ≡ t
    → k ≡ ptindex va
    → Near t k m m'
    → (a : ℕ)
    → translate a (map_page pp va perm t k m')
      ≡ (if pdindex a == pdindex va && ptindex a == ptindex va then some pp else translate a m)
unfolding map_page
map_page-translate pp va perm t k m m' v present at index n a =
    let own = v.own (pdindex a) (pdindex va) in
    let da = n.pgdir (pdindex a) in
    let dv = n.pgdir (pdindex va) in
    let ta = n.table (m.pgdir (pdindex a)).frame (ptindex a) in ground arith

map_page-IsValid :
    (pp va perm t k : ℕ) (m m' : Memory)
    → IsValid m
    → Near t k m m'
    → IsValid (map_page pp va perm t k m')
unfolding map_page
map_page-IsValid pp va perm t k m m' v n = record {
  own = λ i j. let o = v.own i j in let di = n.pgdir i in let dj = n.pgdir j in ground arith;
  unused = λ i. let u = v.unused i in let di = n.pgdir i in let f = n.fresh in ground arith;
  distinct = let d = v.distinct in let f = n.fresh in ground arith;
}

-- What a successful `page_insert` leaves, outside the window of the tables at UVPT.
pub record Mapped (pp va : ℕ) (m m' : Memory) : Type 0 where
  pub valid : IsValid m'
  pub translated :
      (a : ℕ)
      → (pdindex a == uvpt_index) ≡ false
      → translate a m'
        ≡ (if pdindex a == pdindex va && ptindex a == ptindex va then some pp else translate a m)

map_page-Mapped :
    (pp va perm t k : ℕ) (m m1 m2 : Memory)
    → WalkedTo va t k m m1
    → Near t k m1 m2
    → Mapped pp va m (map_page pp va perm t k m2)
map_page-Mapped pp va perm t k m m1 m2 w n = record {
  valid = map_page-IsValid pp va perm t k m1 m2 w.valid n;
  translated = λ a outside.
      let here = map_page-translate pp va perm t k m1 m2 w.valid w.there w.frame w.entry n a in
      let same = w.keeps a in ground arith;
}

-- For separate tables and an address outside the window of the tables at UVPT, after a `page_insert`
-- that succeeds the processor translates the page of the address to the new frame, and every other
-- page outside that window as before, also where a table was made or an old page was unmapped; the
-- tables stay separate.
pub page_insert-Mapped :
    (pp va perm : ℕ) (m : Memory)
    → IsValid m
    → (pdindex va == uvpt_index) ≡ false
    → (page_insert pp va perm m).0 ≡ 0
    → Mapped pp va m (page_insert pp va perm m).1
unfolding page_insert
page_insert-Mapped pp va perm m v outside ok = elim (Option-cases (pgdir_walk true va m).0) [
  | inl failed ↦ absurd (ground arith)
  | inr ((t, k), found) ↦
      let m1 = (pgdir_walk true va m).1 in
      let w = pgdir_walk-WalkedTo va t k m m1 v (ground arith) in
      let e = m1.table t k in
      let index = w.entry in
      elim (Bool-cases (e.present && e.frame == pp)) [
        | inl again ↦
            let run : (page_insert pp va perm m).1 ≡ map_page pp va perm t k m1 = ground arith in
            rw run (
              map_page-Mapped pp va perm t k m m1 m1 w
                (record { pgdir = λ i. refl; table = λ i j. inr refl; fresh = refl }))
        | inr other ↦ elim (Bool-cases e.present) [
          | inl old ↦
              let run : (page_insert pp va perm m).1
                  ≡ add_ref pp (map_page pp va perm t k (page_remove va m1)) =
                ground arith in
              let near =
                subst (λ x. Near t x m1 (page_remove va m1)) (sym index)
                  (page_remove-Near va t m1 w.there w.frame) in
              let done = map_page-Mapped pp va perm t k m m1 (page_remove va m1) w near in
              rw run (record {
                valid = record {
                  own = done.valid.own;
                  unused = done.valid.unused;
                  distinct = done.valid.distinct;
                };
                translated = done.translated;
              })
          | inr empty ↦
              let run : (page_insert pp va perm m).1 ≡ add_ref pp (map_page pp va perm t k m1) =
                ground arith in
              let done =
                map_page-Mapped pp va perm t k m m1 m1 w
                  (record { pgdir = λ i. refl; table = λ i j. inr refl; fresh = refl }) in
              rw run (record {
                valid = record {
                  own = done.valid.own;
                  unused = done.valid.unused;
                  distinct = done.valid.distinct;
                };
                translated = done.translated;
              })
        ]
      ]
]

-- `page_remove` of an address with a table but without a page counts down the references of the page
-- with frame 0: an entry that is not present is taken for it.
pub page_remove_absent :
    (va : ℕ) (m : Memory)
    → (m.pgdir (pdindex va)).present ≡ true
    → m.table (m.pgdir (pdindex va)).frame (ptindex va) ≡ no_entry
    → 0 < m.npages_num
    → (translate va m ≡ none) × ((page_remove va m).p_ref 0 ≡ (m.p_ref 0 + 2 ^ 32 - 1) % 2 ^ 32)
unfolding page_remove page_lookup pgdir_walk page_decrease_ref
page_remove_absent va m there absent some_page = (ground arith, ground arith)

-- `page_remove` of a mapped address outside the window at UVPT unmaps its page, and no other outside
-- it, and takes one reference from the frame that the address had.
pub page_remove-translate :
    (va page : ℕ) (m : Memory)
    → IsValid m
    → translate va m ≡ some page
    → page < m.npages_num
    → (pdindex va == uvpt_index) ≡ false
    → ((a : ℕ)
        → (pdindex a == uvpt_index) ≡ false
        → translate a (page_remove va m)
          ≡ (if pdindex a == pdindex va && ptindex a == ptindex va then none else translate a m))
      × ((p : ℕ)
          → (page_remove va m).p_ref p
            ≡ (if page == p then (m.p_ref p + 2 ^ 32 - 1) % 2 ^ 32 else m.p_ref p))
unfolding page_remove page_lookup pgdir_walk page_decrease_ref
page_remove-translate va page m v mapped small outside =
    let t = (m.pgdir (pdindex va)).frame in
    let there : (m.pgdir (pdindex va)).present ≡ true = ground arith in
    let entry : (m.table t (ptindex va)).frame ≡ page = ground arith in
    let run : page_remove va m ≡ set_entry t (ptindex va) no_entry (page_decrease_ref page m) =
      ground arith in
    rw run (λ a _. (let own = v.own (pdindex a) (pdindex va) in ground arith), λ p. ground arith)

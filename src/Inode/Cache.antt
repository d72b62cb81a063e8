-- ===== src/Inode/Cache.antt =====
-- The references of the inode cache.
use mathlib.Core.Path.{ap, subst}
use wei_os.Common.{
  has-append_one, nodup-append_one, none, unlink, refl, has-unlink, nodup-unlink, ltb, Option-cases,
  if◌then◌else◌, ◌<◌, arith, ◌&&◌, inr, ◌==◌, inl, Bool-cases, List-cases, ◌∷◌, false, some, ◌⊎◌,
  has, [], ◌+◌, true, ◌≡◌, nodup,
}
use Prim.Native.Nat.{ℕ}
use wei_os.Inode.{
  file_blocks, release, icache_hash_func, ifree, truncate, iref, find_inode_in_hash, iput, iget,
  Inode, put_inode_in_hash, List, recycle, find_in_chain, Icache,
}

-- The free list holds each inode at most once, and none that is referenced; counts do not overflow.
pub record IsValid (c : Icache) : Type 0 where
  pub distinct : nodup c.free_list ≡ true
  pub unreferenced : (i : ℕ) → (has i c.free_list ≡ false) ⊎ ((c.inode i).ref ≡ 0)

-- Inode `i` got one more reference to this file; the others are as before.
pub record Got (dev ino i : ℕ) (c c' : Icache) : Type 0 where
  pub is_valid : IsValid c'
  pub same_dev : (c'.inode i).dev ≡ dev
  pub same_ino : (c'.inode i).ino ≡ ino
  pub counted : (c'.inode i).ref ≡ (c.inode i).ref + 1
  pub kept : ((c.inode i).ref ≡ 0) ⊎ (((c.inode i).dev ≡ dev) × ((c.inode i).ino ≡ ino))
  pub others : (j : ℕ) → (j ≡ i) ⊎ (c'.inode j ≡ c.inode j)

find_in_chain-same :
    (l : List ℕ) (dev ino i : ℕ) (inode : ℕ → Inode)
    → find_in_chain l dev ino inode ≡ some i
    → ((inode i).dev ≡ dev) × ((inode i).ino ≡ ino)
unfolding find_in_chain
find_in_chain-same [] dev ino i inode h = absurd (cc)
find_in_chain-same (x ∷ l) dev ino i inode h =
    elim (Bool-cases ((inode x).dev == dev && (inode x).ino == ino)) [
      | inl e ↦
          let same : x ≡ i = ground arith in
          subst (λ k. ((inode k).dev ≡ dev) × ((inode k).ino ≡ ino)) same
            (ground arith, ground arith)
      | inr e ↦ find_in_chain-same l dev ino i inode (ground arith)
    ]

recycle-Got :
    (dev ino : ℕ) (c : Icache)
    → IsValid c
    → ((recycle dev ino c ≡ (0, record c { lock_held = true })) × (c.free_list ≡ []))
      ⊎ Got dev ino (recycle dev ino c).0 c (recycle dev ino c).1
unfolding recycle put_inode_in_hash
recycle-Got dev ino c v = elim (List-cases c.free_list) [
  | inl nil ↦ inl (rw nil refl, nil)
  | inr (i, rest, e) ↦ inr (
      rw e (record {
        is_valid = record {
          distinct = ground (arith, v.distinct);
          unreferenced = λ j. ground (arith, v.unreferenced j, v.distinct);
        };
        same_dev = ground arith;
        same_ino = ground arith;
        counted = ground (arith, v.unreferenced i);
        kept = inl (ground (arith, v.unreferenced i));
        others = λ j. elim (Bool-cases (i == j)) [
          | inl same ↦ inl (ground arith)
          | inr apart ↦ inr (rw apart refl)
        ];
      }))
]

iget_hit :
    (dev ino i : ℕ) (c : Icache)
    → find_inode_in_hash dev ino c ≡ some i
    → ltb 0 (c.inode i).ref ≡ true
    → iget dev ino c ≡ (i, iref i (record c { free_list = unlink i c.free_list }))
unfolding iget
iget_hit dev ino i c e h = rw (e, iget) (rw (h) refl)

pub iget_miss :
    (dev ino : ℕ) (c : Icache)
    → (find_inode_in_hash dev ino c ≡ none)
      ⊎ ((i : ℕ) × (find_inode_in_hash dev ino c ≡ some i) × ((c.inode i).ref ≡ 0))
    → iget dev ino c ≡ recycle dev ino c
unfolding iget
iget_miss dev ino c (inl e) = rw (e, iget) refl
iget_miss dev ino c (inr (i, e, z)) =
    let none_held : ltb 0 (c.inode i).ref ≡ false = ground arith in rw (e, iget) (rw none_held refl)

iget_result :
    (dev ino : ℕ) (c : Icache)
    → IsValid c
    → ((i : ℕ) → (c.inode i).ref < 4294967295)
    → ((iget dev ino c ≡ (0, record c { lock_held = true })) × (c.free_list ≡ []))
      ⊎ Got dev ino (iget dev ino c).0 c (iget dev ino c).1
unfolding iget find_inode_in_hash iref
iget_result dev ino c v small =
    let chain = c.hash_table (icache_hash_func dev ino) in
    elim (Option-cases (find_in_chain chain dev ino c.inode)) [
      | inl e ↦ rw (iget_miss dev ino c (inl e)) (recycle-Got dev ino c v)
      | inr (i, e) ↦
          let (same_dev, same_ino) = find_in_chain-same chain dev ino i c.inode e in
          elim (Bool-cases (ltb 0 (c.inode i).ref)) [
            | inr z ↦ rw (iget_miss dev ino c (inr (i, e, ground arith))) (recycle-Got dev ino c v)
            | inl held ↦ inr (
                rw (iget_hit dev ino i c e held) (record {
                  is_valid = record {
                    distinct = nodup-unlink i c.free_list v.distinct;
                    unreferenced =
                        λ j. ground (arith, v.unreferenced j, has-unlink i j c.free_list);
                  };
                  same_dev = ground (arith, same_dev);
                  same_ino = ground (arith, same_ino);
                  counted = ground (arith, small i);
                  kept = inr (same_dev, same_ino);
                  others = λ j. elim (Bool-cases (i == j)) [
                    | inl same ↦ inl (ground arith)
                    | inr apart ↦ inr (rw apart refl)
                  ];
                }))
          ]
    ]

recycle-lock :
    (dev ino : ℕ) (c : Icache)
    → ((recycle dev ino c ≡ (0, record c { lock_held = true })) × (c.free_list ≡ []))
      ⊎ ((recycle dev ino c).1.lock_held ≡ c.lock_held)
unfolding recycle put_inode_in_hash
recycle-lock dev ino c = elim (List-cases c.free_list) [
  | inl nil ↦ inl (rw nil refl, nil)
  | inr (i, rest, e) ↦ inr (rw e refl)
]

iget-lock :
    (dev ino : ℕ) (c : Icache)
    → ((iget dev ino c ≡ (0, record c { lock_held = true })) × (c.free_list ≡ []))
      ⊎ ((iget dev ino c).1.lock_held ≡ c.lock_held)
unfolding iref
iget-lock dev ino c = elim (Option-cases (find_inode_in_hash dev ino c)) [
  | inl e ↦ rw (iget_miss dev ino c (inl e)) (recycle-lock dev ino c)
  | inr (i, e) ↦ elim (Bool-cases (ltb 0 (c.inode i).ref)) [
    | inr z ↦ rw (iget_miss dev ino c (inr (i, e, ground arith))) (recycle-lock dev ino c)
    | inl held ↦ inr (rw (iget_hit dev ino i c e held) refl)
  ]
]

-- `iget` keeps the cache valid. An inode that a chain leads to and that is referenced is returned. It
-- returns the null pointer only with an empty free list, and then changes nothing but that
-- `icache_lock` stays held; otherwise it returns an inode of the device and number it was asked for,
-- with one reference more than before. An inode that was referenced keeps its device and number, so
-- that no holder sees its inode become another file, and every other inode is as before.
pub iget-Got :
    (dev ino : ℕ) (c : Icache)
    → IsValid c
    → ((i : ℕ) → (c.inode i).ref < 4294967295)
    → ((j : ℕ)
        → find_inode_in_hash dev ino c ≡ some j
        → 0 < (c.inode j).ref
        → (iget dev ino c).0 ≡ j)
      × (((iget dev ino c ≡ (0, record c { lock_held = true })) × (c.free_list ≡ []))
          ⊎ (Got dev ino (iget dev ino c).0 c (iget dev ino c).1
              × ((iget dev ino c).1.lock_held ≡ c.lock_held)))
iget-Got dev ino c v small = (
  (λ j found used. ap (λ r. r.0) (iget_hit dev ino j c found (ground arith))),
  elim (iget-lock dev ino c) [
    | inl failed ↦ inl failed
    | inr open_again ↦ elim (iget_result dev ino c v small) [
      | inl failed ↦ inl failed
      | inr got ↦ inr (got, open_again)
    ]
  ],
)

record Same (i : ℕ) (c c' : Icache) : Type 0 where
  free_list : c'.free_list ≡ c.free_list
  refs : (j : ℕ) → (c'.inode j).ref ≡ (c.inode j).ref
  others : (j : ℕ) → (j ≡ i) ⊎ (c'.inode j ≡ c.inode j)
  freed : c'.freed ≡ (
      if (c.inode i).valid && (c.inode i).nlink == 0 && (c.inode i).ref == 1
      then release (file_blocks (c.inode i) c.entries) c.freed
      else c.freed)

truncate-Same : (i : ℕ) (c : Icache) → Same i c (truncate i c)
unfolding truncate ifree
truncate-Same i c =
    let n = c.inode i in
    elim (Bool-cases (n.valid && n.nlink == 0 && n.ref == 1)) [
      | inr e ↦
          rw e (record {
            free_list = refl;
            refs = λ j. refl;
            others = λ j. inr refl;
            freed = rw e refl;
          })
      | inl e ↦ rw e (record {
        free_list = refl;
        refs = λ j. ground arith;
        others = λ j. elim (Bool-cases (i == j)) [
          | inl same ↦ inl (ground arith)
          | inr apart ↦ inr (rw apart refl)
        ];
        freed = rw e refl;
      })
    ]

-- Dropping a reference of an inode that has one: the cache stays valid, the count is one less, the
-- last reference puts the inode on the free list, and no other count changes. The last reference to
-- an inode that was read and has no links gives back its blocks before, in the order of `ifree`.
pub iput-IsValid :
    (i : ℕ) (c : Icache)
    → IsValid c
    → 0 < (c.inode i).ref
    → (c.inode i).ref < 4294967296
    → IsValid (iput i c)
      × (((iput i c).inode i).ref + 1 ≡ (c.inode i).ref)
      × (has i (iput i c).free_list ≡ (c.inode i).ref == 1)
      × ((j : ℕ) → (j ≡ i) ⊎ ((iput i c).inode j ≡ c.inode j))
      × ((iput i c).freed ≡ (
          if (c.inode i).valid && (c.inode i).nlink == 0 && (c.inode i).ref == 1
          then release (file_blocks (c.inode i) c.entries) c.freed
          else c.freed))
unfolding iput truncate ifree
iput-IsValid i c v h l =
    let t = truncate-Same i c in
    (
      record {
        distinct =
            ground
              (arith, t.free_list, v.distinct, v.unreferenced i, nodup-append_one i c.free_list);
        unreferenced = λ j.
            ground (arith, t.free_list, t.refs j, v.unreferenced j, has-append_one i j c.free_list);
      },
      ground (arith, t.refs i),
      ground (arith, t.free_list, t.refs i, v.unreferenced i, has-append_one i i c.free_list),
      λ j. elim (Bool-cases (i == j)) [
        | inl same ↦ inl (ground arith)
        | inr apart ↦ elim (t.others j) [ inl e ↦ inl e | inr e ↦ inr (rw apart e) ]
      ],
      t.freed,
    )

-- ===== src/Inode/Map.antt =====
-- The blocks of a file: `bmap` gives the same block again, and `ifree` gives back what `bmap` gave.
use wei_os.Inode.Slots.{
  own_block_none, entry_block_none, own_block-fresh, Owned, entry_block-Listed, entry_block_held,
  own_block_held, own_block-Owned,
}
use mathlib.Core.Path.{ap, sym, subst}
use wei_os.Inode.Blocks.{entry_block, with_block, own_block, bmap}
use wei_os.Inode.{indirect_blocks, file_blocks, nonzero, nindirect, ndirect, Icache, Inode}
use wei_os.Common.{
  if◌then◌else◌, inr, inl, zero, Bool-cases, ◌-◌, [], none, ◌⊎◌, ◌∙◌, arith, ◌∷◌, ◌/◌, ◌+◌, suc,
  ◌++◌, some, take, false, true, ◌%◌, length, ltb, get_or, ◌≡◌, ◌<◌, ◌==◌, has, List, ℕ, refl,
}

has-left : (a : ℕ) (l m : List ℕ) → has a l ≡ true → has a (l ++ m) ≡ true
has-left a [] m h = absurd (cc)
has-left a (x ∷ l) m h = ground (arith, has-left a l m)

has-right : (a : ℕ) (l m : List ℕ) → has a m ≡ true → has a (l ++ m) ≡ true
has-right a [] m h = h
has-right a (x ∷ l) m h = ground (arith, has-right a l m)

has-nonzero :
    (l : List ℕ) (k a : ℕ) → (a == 0) ≡ false → get_or l k 0 ≡ a → has a (nonzero l) ≡ true
has-nonzero [] k a z h = ground arith
has-nonzero (x ∷ l) zero a z h = ground arith
has-nonzero (x ∷ l) (suc k) a z h = ground (arith, has-nonzero l k a z h)

get_or-take : (l : List ℕ) (n k : ℕ) → k < n → get_or (take n l) k 0 ≡ get_or l k 0
get_or-take [] zero k h = refl
get_or-take [] (suc n) k h = refl
get_or-take (x ∷ l) zero k h = absurd (omega arith)
get_or-take (x ∷ l) (suc n) zero h = refl
get_or-take (x ∷ l) (suc n) (suc k) h = get_or-take l n k (omega arith)

-- A block in the inode's own table, and one that its block of addresses names, are among its blocks.
own-file_blocks :
    (n : Inode) (entries : ℕ → List ℕ) (k a : ℕ)
    → k < ndirect
    → (a == 0) ≡ false
    → get_or n.blk_addrs k 0 ≡ a
    → has a (file_blocks n entries) ≡ true
own-file_blocks n entries k a h z e =
    has-left a (nonzero (take ndirect n.blk_addrs)) _
      (has-nonzero (take ndirect n.blk_addrs) k a z (get_or-take n.blk_addrs ndirect k h ∙ e))

indirect-file_blocks :
    (n : Inode) (entries : ℕ → List ℕ) (b k a : ℕ)
    → (b == 0) ≡ false
    → get_or n.blk_addrs ndirect 0 ≡ b
    → (a == 0) ≡ false
    → get_or (entries b) k 0 ≡ a
    → has a (file_blocks n entries) ≡ true
indirect-file_blocks n entries b k a y f z e =
    let there : has a (indirect_blocks entries b) ≡ true =
      rw y (has-left a (nonzero (entries b)) (b ∷ []) (has-nonzero (entries b) k a z e)) in
    has-right a (nonzero (take ndirect n.blk_addrs)) _ (
      has-left a (indirect_blocks entries (get_or n.blk_addrs ndirect 0)) _
        (subst (λ x. has a (indirect_blocks entries x) ≡ true) (sym f) there))

bmap_direct : (i l : ℕ) (c : Icache) → l < ndirect → bmap i l c ≡ some (own_block i l c)
unfolding bmap
bmap_direct i l c h = let e : ltb l ndirect ≡ true = ground arith in rw e refl

bmap_single :
    (i l : ℕ) (c : Icache)
    → ltb l ndirect ≡ false
    → l < ndirect + nindirect
    → bmap i l c
      ≡ with_block (own_block i ndirect c) (λ b c1. some (entry_block b (l - ndirect) c1))
unfolding bmap
bmap_single i l c e h = let f : ltb (l - ndirect) nindirect ≡ true = ground arith in rw (e, f) refl

-- The block that a file has at a place of the first NDIRECT + NINDIRECT, 0 for none.
abbrev pub mapped_block : ℕ → ℕ → Icache → ℕ
mapped_block i l c =
    if ltb l ndirect
    then get_or (c.inode i).blk_addrs l 0
    else if get_or (c.inode i).blk_addrs ndirect 0 == 0
    then 0
    else get_or (c.entries (get_or (c.inode i).blk_addrs ndirect 0)) (l - ndirect) 0

-- No block: the file had none at this place, and `balloc` has none left.
abbrev pub NoBlock : ℕ → ℕ → ℕ → Icache → Icache → Type 0
NoBlock a i l c c' = (a ≡ 0) × (mapped_block i l c ≡ 0) × (c'.fresh ≡ [])

single_none :
    (i lblkno : ℕ) (c : Icache)
    → length (c.inode i).blk_addrs ≡ 13
    → has 0 c.fresh ≡ false
    → ltb lblkno ndirect ≡ false
    → Owned i ndirect (own_block i ndirect c).0 c (own_block i ndirect c).1
    → (entry_block (own_block i ndirect c).0 (lblkno - ndirect) (own_block i ndirect c).1).0 ≡ 0
    → (mapped_block i lblkno c ≡ 0)
      × ((entry_block
            (own_block i ndirect c).0
            (lblkno - ndirect)
            (own_block i ndirect c).1).1.fresh
          ≡ [])
single_none i lblkno c s u e o z =
    let (b, c1) = own_block i ndirect c in
    let (none_there, out, same) =
      entry_block_none b (lblkno - ndirect) c1 (own_block-fresh i ndirect c u) z in
    (
      elim (Bool-cases (get_or (c.inode i).blk_addrs ndirect 0 == 0)) [
        | inl empty ↦ rw (e, empty) refl
        | inr there ↦
            let held =
              own_block_held i ndirect (get_or (c.inode i).blk_addrs ndirect 0) c there refl in
            rw (e, there)
              (subst (λ r. get_or (r.1.entries r.0) (lblkno - ndirect) 0 ≡ 0) held none_there)
      ],
      ap (λ x. x.fresh) same ∙ out,
    )

single-file_blocks :
    (i lblkno : ℕ) (c : Icache)
    → length (c.inode i).blk_addrs ≡ 13
    → ((b : ℕ) → length (c.entries b) ≡ nindirect)
    → has 0 c.fresh ≡ false
    → ltb lblkno ndirect ≡ false
    → lblkno < ndirect + nindirect
    → (a : ℕ) × (c' : Icache) × (bmap i lblkno c ≡ some (a, c'))
      × (NoBlock a i lblkno c c'
          ⊎ ((bmap i lblkno c' ≡ some (a, c'))
              × (has a (file_blocks (c'.inode i) c'.entries) ≡ true)))
single-file_blocks i lblkno c s t u e h =
    let l = lblkno - ndirect in
    let (b, c1) = own_block i ndirect c in
    let (a, c2) = entry_block b l c1 in
    let open_it = bmap_single i lblkno c e h in
    elim (own_block-Owned i ndirect c (omega arith)) [
      | inl z ↦
          let (empty, out, same) = own_block_none i ndirect c u z in
          (0, c1, open_it ∙ rw z refl, inl (refl, rw (e, empty) refl, ap (λ x. x.fresh) same ∙ out))
      | inr o ↦ (
        a,
        c2,
        open_it ∙ rw (o.some_block) refl,
        elim (entry_block-Listed b l c1 (omega arith) (o.full t)) [
          | inl z ↦ let (unmapped, out) = single_none i lblkno c s u e o z in inl (z, unmapped, out)
          | inr k ↦
              let same : own_block i ndirect c2 ≡ (b, c2) =
                own_block_held i ndirect b c2 o.some_block
                  (ap (λ f. get_or (f i).blk_addrs ndirect 0) k.inode_kept ∙ o.held) in
              inr (
                bmap_single i lblkno c2 e h
                    ∙ ap (λ r. with_block r (λ x y. some (entry_block x l y))) same
                    ∙ rw (o.some_block) (ap some (entry_block_held b l a c2 k.some_block k.held)),
                indirect-file_blocks (c2.inode i) c2.entries b l a o.some_block
                    (ap (λ f. get_or (f i).blk_addrs ndirect 0) k.inode_kept ∙ o.held) k.some_block
                    k.held,
              )
        ],
      )
    ]

-- For each of the first NDIRECT + NINDIRECT blocks of a file, where `balloc` gives no block 0, `bmap`
-- gives a result: either 0, and then the file had no block at this place and `balloc` has none left, or
-- a block that it gives again when it is asked again,
-- without a change, and that is among the blocks that `ifree` gives back.
pub bmap-file_blocks :
    (i lblkno : ℕ) (c : Icache)
    → length (c.inode i).blk_addrs ≡ 13
    → ((b : ℕ) → length (c.entries b) ≡ nindirect)
    → has 0 c.fresh ≡ false
    → lblkno < ndirect + nindirect
    → (a : ℕ) × (c' : Icache) × (bmap i lblkno c ≡ some (a, c'))
      × (NoBlock a i lblkno c c'
          ⊎ ((bmap i lblkno c' ≡ some (a, c'))
              × (has a (file_blocks (c'.inode i) c'.entries) ≡ true)))
bmap-file_blocks i lblkno c s t u h = elim (Bool-cases (ltb lblkno ndirect)) [
  | inl direct ↦
      let (a, c') = own_block i lblkno c in
      let small : lblkno < ndirect = ground arith in
      (
        a,
        c',
        bmap_direct i lblkno c small,
        elim (own_block-Owned i lblkno c (omega arith)) [
          | inl z ↦
              let (empty, out, same) = own_block_none i lblkno c u z in
              let direct : ltb lblkno ndirect ≡ true = ground arith in
              inl (z, rw (direct, empty) refl, ap (λ x. x.fresh) same ∙ out)
          | inr o ↦ inr (
            bmap_direct i lblkno c' small
                ∙ ap some (own_block_held i lblkno a c' o.some_block o.held),
            own-file_blocks (c'.inode i) c'.entries lblkno a small o.some_block o.held,
          )
        ],
      )
  | inr e ↦ single-file_blocks i lblkno c s t u e h
]

-- A block whose number among those behind the second table is a multiple of NINDIRECT: with both
-- blocks of addresses there `bmap` has no result, since it reads the entry in front of the first.
pub bmap_outside :
    (i d b b2 : ℕ) (c : Icache)
    → d < 1048576
    → (d % 1024) ≡ 0
    → (b == 0) ≡ false
    → get_or (c.inode i).blk_addrs 12 0 ≡ b
    → (b2 == 0) ≡ false
    → get_or (c.entries b) (d / 1024) 0 ≡ b2
    → bmap i (1035 + d) c ≡ none
unfolding bmap
bmap_outside i d b b2 c h e y f z g =
    let past : 1035 + d - 11 ≡ 1024 + d = omega arith in
    let second : 1024 + d - 1024 ≡ d = omega arith in
    let first_no : ltb (1035 + d) ndirect ≡ false = ground arith in
    let second_no : ltb (1024 + d) nindirect ≡ false = ground arith in
    let third : ltb d 1048576 ≡ true = ground arith in
    let here : (d % 1024) == 0 ≡ true = ground arith in
    rw
      (
        first_no,
        past,
        second_no,
        second,
        third,
        own_block_held i 12 b c y f,
        y,
        entry_block_held b (d / 1024) b2 c z g,
        z,
        here,
      )
      refl

-- ===== src/Inode/Slots.antt =====
-- The steps of `bmap`: an entry of a table of addresses, which `balloc` fills when it is 0.
use wei_os.Inode.{update, nindirect, Icache}
use wei_os.Inode.Blocks.{entry_block, own_block}
use wei_os.Common.{
  true, ap, [], has, length-set, get_or-set_self, arith, List-cases, length-replicate, inr, inl,
  Bool-cases, get_or, replicate, ◌⊎◌, false, ◌≡◌, ◌<◌, ◌==◌, length, List, ℕ, refl,
}

update-length :
    (x b : ℕ) (f : ℕ → List ℕ)
    → ((y : ℕ) → length (f y) ≡ nindirect)
    → length (update f x (replicate nindirect 0) b) ≡ nindirect
update-length x b f h = elim (Bool-cases (x == b)) [
  | inl e ↦ rw e (length-replicate {A = ℕ} nindirect 0)
  | inr e ↦ rw e (h b)
]

-- The table of the inode has this block, and no table changed its length.
pub record Owned (i slot a : ℕ) (c c' : Icache) : Type 0 where
  pub some_block : (a == 0) ≡ false
  pub held : get_or (c'.inode i).blk_addrs slot 0 ≡ a
  pub kept_length : length (c'.inode i).blk_addrs ≡ length (c.inode i).blk_addrs
  pub full :
      ((x : ℕ) → length (c.entries x) ≡ nindirect) → (x : ℕ) → length (c'.entries x) ≡ nindirect

pub own_block-Owned :
    (i slot : ℕ) (c : Icache)
    → slot < length (c.inode i).blk_addrs
    → ((own_block i slot c).0 ≡ 0) ⊎ Owned i slot (own_block i slot c).0 c (own_block i slot c).1
unfolding own_block
own_block-Owned i slot c h = elim (Bool-cases (get_or (c.inode i).blk_addrs slot 0 == 0)) [
  | inr e ↦ inr (rw e (record { some_block = e; held = refl; kept_length = refl; full = λ t. t }))
  | inl e ↦ elim (List-cases c.fresh) [
    | inl nil ↦ inl (rw (e, nil) refl)
    | inr (b, rest, f) ↦ elim (Bool-cases (b == 0)) [
      | inl z ↦ inl (rw (e, f, z) refl)
      | inr z ↦
          let t = (c.inode i).blk_addrs in
          inr (
            rw (e, f, z)
              (record {
                some_block = z;
                held = ground (arith, get_or-set_self t slot b 0 h);
                kept_length = ground (arith, length-set t slot b);
                full = λ u x. update-length b x c.entries u;
              }))
    ]
  ]
]

pub own_block_held :
    (i slot a : ℕ) (c : Icache)
    → (a == 0) ≡ false
    → get_or (c.inode i).blk_addrs slot 0 ≡ a
    → own_block i slot c ≡ (a, c)
unfolding own_block
own_block_held i slot a c h e = rw e (rw h refl)

pub record Listed (b k a : ℕ) (c c' : Icache) : Type 0 where
  pub some_block : (a == 0) ≡ false
  pub held : get_or (c'.entries b) k 0 ≡ a
  pub inode_kept : c'.inode ≡ c.inode

pub entry_block-Listed :
    (b k : ℕ) (c : Icache)
    → k < nindirect
    → ((x : ℕ) → length (c.entries x) ≡ nindirect)
    → ((entry_block b k c).0 ≡ 0) ⊎ Listed b k (entry_block b k c).0 c (entry_block b k c).1
unfolding entry_block
entry_block-Listed b k c h l = elim (Bool-cases (get_or (c.entries b) k 0 == 0)) [
  | inr e ↦ inr (rw e (record { some_block = e; held = refl; inode_kept = refl }))
  | inl e ↦ elim (List-cases c.fresh) [
    | inl nil ↦ inl (rw (e, nil) refl)
    | inr (x, rest, f) ↦ elim (Bool-cases (x == 0)) [
      | inl z ↦ inl (rw (e, f, z) refl)
      | inr z ↦
          let zeros : List ℕ = replicate nindirect 0 in
          let t = update c.entries x zeros b in
          let full : length t ≡ nindirect = update-length x b c.entries l in
          inr (
            rw (e, f, z)
              (record {
                some_block = z;
                held = ground (arith, get_or-set_self t k x 0 (omega arith));
                inode_kept = refl;
              }))
    ]
  ]
]

pub entry_block_held :
    (b k a : ℕ) (c : Icache)
    → (a == 0) ≡ false
    → get_or (c.entries b) k 0 ≡ a
    → entry_block b k c ≡ (a, c)
unfolding entry_block
entry_block_held b k a c h e = rw e (rw h refl)

own_block_nil :
    (i slot : ℕ) (c : Icache)
    → (get_or (c.inode i).blk_addrs slot 0 == 0) ≡ true
    → c.fresh ≡ []
    → own_block i slot c ≡ (0, c)
unfolding own_block
own_block_nil i slot c e nil = ground arith

entry_block_nil :
    (b k : ℕ) (c : Icache)
    → (get_or (c.entries b) k 0 == 0) ≡ true
    → c.fresh ≡ []
    → entry_block b k c ≡ (0, c)
unfolding entry_block
entry_block_nil b k c e nil = ground arith

-- Where no block results, the entry was empty and `balloc` had no block, and nothing changed.
pub own_block_none :
    (i slot : ℕ) (c : Icache)
    → has 0 c.fresh ≡ false
    → (own_block i slot c).0 ≡ 0
    → (get_or (c.inode i).blk_addrs slot 0 ≡ 0) × (c.fresh ≡ []) × ((own_block i slot c).1 ≡ c)
unfolding own_block
own_block_none i slot c h z = elim (Bool-cases (get_or (c.inode i).blk_addrs slot 0 == 0)) [
  | inr e ↦ absurd (ground (arith, rw e at z))
  | inl e ↦ elim (List-cases c.fresh) [
    | inl nil ↦ (ground arith, nil, ground (arith, own_block_nil i slot c e nil))
    | inr (b, rest, f) ↦ elim (Bool-cases (b == 0)) [
      | inl zero ↦ absurd (ground (arith, ap (has 0) f, h))
      | inr some_block ↦ absurd (ground (arith, rw (e, f, some_block) at z))
    ]
  ]
]

pub entry_block_none :
    (b k : ℕ) (c : Icache)
    → has 0 c.fresh ≡ false
    → (entry_block b k c).0 ≡ 0
    → (get_or (c.entries b) k 0 ≡ 0) × (c.fresh ≡ []) × ((entry_block b k c).1 ≡ c)
unfolding entry_block
entry_block_none b k c h z = elim (Bool-cases (get_or (c.entries b) k 0 == 0)) [
  | inr e ↦ absurd (ground (arith, rw e at z))
  | inl e ↦ elim (List-cases c.fresh) [
    | inl nil ↦ (ground arith, nil, ground (arith, entry_block_nil b k c e nil))
    | inr (x, rest, f) ↦ elim (Bool-cases (x == 0)) [
      | inl zero ↦ absurd (ground (arith, ap (has 0) f, h))
      | inr some_block ↦ absurd (ground (arith, rw (e, f, some_block) at z))
    ]
  ]
]

pub own_block-fresh :
    (i slot : ℕ) (c : Icache) → has 0 c.fresh ≡ false → has 0 (own_block i slot c).1.fresh ≡ false
unfolding own_block
own_block-fresh i slot c h = elim (Bool-cases (get_or (c.inode i).blk_addrs slot 0 == 0)) [
  | inr e ↦ rw e h
  | inl e ↦ elim (List-cases c.fresh) [
    | inl nil ↦ rw (e, nil) refl
    | inr (b, rest, f) ↦
        let less : has 0 rest ≡ false = ground (arith, ap (has 0) f, h) in
        elim (Bool-cases (b == 0)) [
          | inl zero ↦ rw (e, f, zero) less
          | inr some_block ↦ rw (e, f, some_block) less
        ]
  ]
]

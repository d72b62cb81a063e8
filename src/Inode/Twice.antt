-- ===== src/Inode/Twice.antt =====
-- An inode that is cached without a reference, and the second inode that `iget` sets up for its file.
use mathlib.Core.Path.{sym, subst}
use wei_os.Inode.Cache.{iget_miss}
use wei_os.Inode.{
  iget, icache_hash_func, update, Icache, find_inode_in_hash, put_inode_in_hash, Inode, recycle,
  find_in_chain,
}
use wei_os.Common.{◌∙◌, ap, inr, false, [], arith, ◌∷◌, unlink, ◌++◌, some, ◌≢◌, ◌≡◌, List, ℕ, refl}

find_in_chain-append :
    (l m : List ℕ) (dev ino i : ℕ) (inode : ℕ → Inode)
    → find_in_chain l dev ino inode ≡ some i
    → find_in_chain (l ++ m) dev ino inode ≡ some i
unfolding find_in_chain
find_in_chain-append [] m dev ino i inode h = absurd (cc)
find_in_chain-append (x ∷ l) m dev ino i inode h =
    ground (arith, find_in_chain-append l m dev ino i inode)

find_in_chain-unlink :
    (l : List ℕ) (dev ino i a : ℕ) (inode : ℕ → Inode) (n : Inode)
    → a ≢ i
    → find_in_chain l dev ino inode ≡ some i
    → find_in_chain (unlink a l) dev ino (update inode a n) ≡ some i
unfolding find_in_chain
find_in_chain-unlink [] dev ino i a inode n ne h = absurd (cc)
find_in_chain-unlink (x ∷ l) dev ino i a inode n ne h =
    ground (arith, find_in_chain-unlink l dev ino i a inode n ne)

-- One reference to this file.
abbrev pub IsHeld : ℕ → ℕ → Inode → Type 0
IsHeld dev ino n = (n.dev ≡ dev) × (n.ino ≡ ino) × (n.ref ≡ 1)

-- The inode that is found, and not taken, is found again.
recycle-find :
    (dev ino i a : ℕ) (rest : List ℕ) (c : Icache)
    → find_inode_in_hash dev ino c ≡ some i
    → c.free_list ≡ a ∷ rest
    → a ≢ i
    → ((recycle dev ino c).0 ≡ a)
      × ((recycle dev ino c).1.free_list ≡ rest)
      × IsHeld dev ino ((recycle dev ino c).1.inode a)
      × ((j : ℕ) → a ≢ j → (recycle dev ino c).1.inode j ≡ c.inode j)
      × (find_inode_in_hash dev ino (recycle dev ino c).1 ≡ some i)
unfolding recycle put_inode_in_hash find_inode_in_hash
recycle-find dev ino i a rest c h e ne =
    let slot = icache_hash_func dev ino in
    let n = c.inode a in
    let n' : Inode = record n { ref = 1; dev = dev; ino = ino; valid = false } in
    let inode' = update c.inode a n' in
    let still =
      find_in_chain-append (unlink a (c.hash_table slot)) (a ∷ []) dev ino i inode'
        (find_in_chain-unlink (c.hash_table slot) dev ino i a c.inode n' ne h) in
    rw e (
      refl,
      refl,
      (ground arith, ground arith, ground arith),
      (λ j ne. ground arith),
      ground (arith, still),
    )

-- An inode that `iput` put on the free list is found first by `iget` and not taken: two calls of
-- `iget` for its file then take the next two inodes of the free list, so that one file has two inodes
-- in use at once.
pub iget_twice :
    (dev ino i a b : ℕ) (rest : List ℕ) (c : Icache)
    → find_inode_in_hash dev ino c ≡ some i
    → (c.inode i).ref ≡ 0
    → c.free_list ≡ a ∷ b ∷ rest
    → a ≢ b
    → a ≢ i
    → b ≢ i
    → ((iget dev ino c).0 ≡ a)
      × ((iget dev ino (iget dev ino c).1).0 ≡ b)
      × IsHeld dev ino ((iget dev ino (iget dev ino c).1).1.inode a)
      × IsHeld dev ino ((iget dev ino (iget dev ino c).1).1.inode b)
iget_twice dev ino i a b rest c h z e ne ne' ne'' =
    let (first, left, held, others, found) = recycle-find dev ino i a (b ∷ rest) c h e ne' in
    let c' = (recycle dev ino c).1 in
    let (second, left', held', others', found') =
      recycle-find dev ino i b rest c' found left ne'' in
    let one = iget_miss dev ino c (inr (i, h, z)) in
    let two = iget_miss dev ino c' (inr (i, found, ap (λ n. n.ref) (others i ne') ∙ z)) in
    let both : iget dev ino (iget dev ino c).1 ≡ recycle dev ino c' =
      ap (λ r. iget dev ino r.1) one ∙ two in
    (
      ap (λ r. r.0) one ∙ first,
      ap (λ r. r.0) both ∙ second,
      rw both (subst (IsHeld dev ino) (sym (others' a (λ q. ne (sym q)))) held),
      rw both held',
    )

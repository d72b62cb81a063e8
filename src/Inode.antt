-- ===== src/Inode.antt =====
-- The inode cache of kern/inode.c and the blocks of an inode. An inode of the cache is named by a
-- number, 0 is the null pointer. The fields of the disk block of an inode are those of its copy in
-- the cache; a block of addresses is the list of its 1024 words. `balloc` gives the blocks of a list.
pub mod Cache
pub mod Twice
pub mod Blocks
pub mod Slots
pub mod Map
pub mod Read
pub mod Write
pub mod Path
mod Tests
use wei_os.Common.{
  true, ◌-◌, ltb, unlink, ◌^◌, ◌&&◌, get_or, some, false, ◌%◌, ◌==◌, replicate, take, ◌∷◌, none, [],
  ◌+◌, ◌++◌, Option, ◌*◌, if◌then◌else◌, Bool, List, ℕ,
}
use Prim.Native.Nat.{ℕ}

pub record Inode : Type 0 where
  pub dev : ℕ
  pub ino : ℕ
  pub ref : ℕ
  pub valid : Bool
  pub type : ℕ
  pub nlink : ℕ
  pub file_siz : ℕ
  pub blk_addrs : List ℕ

-- The cache, the words of the disk's blocks, the blocks that `balloc` will give, and those that were
-- given back by `bfree`, the last first. `lock_held` is whether `icache_lock` stays taken behind a call.
pub record Icache : Type 0 where
  pub inode : ℕ → Inode
  pub free_list : List ℕ
  pub hash_table : ℕ → List ℕ
  pub entries : ℕ → List ℕ
  pub fresh : List ℕ
  pub freed : List ℕ
  pub lock_held : Bool

abbrev pub update {ℓ} : {A : Type ℓ} → (ℕ → A) → ℕ → A → ℕ → A
update f i a j = if i == j then a else f j

abbrev pub icache_hash_func : ℕ → ℕ → ℕ
icache_hash_func dev ino = (dev * 5 + ino) % 2 ^ 32 % 7

-- The first inode of a chain with this device and number.
unfoldable pub find_in_chain : List ℕ → ℕ → ℕ → (ℕ → Inode) → Option ℕ
find_in_chain [] dev ino inode = none
find_in_chain (i ∷ is) dev ino inode =
    let rest = find_in_chain is dev ino inode in
    if (inode i).dev == dev && (inode i).ino == ino then some i else rest

unfoldable pub find_inode_in_hash : ℕ → ℕ → Icache → Option ℕ
unfolding find_in_chain
find_inode_in_hash dev ino c =
    find_in_chain (c.hash_table (icache_hash_func dev ino)) dev ino c.inode

unfoldable pub put_inode_in_hash : ℕ → Icache → Icache
put_inode_in_hash i c =
    let slot = icache_hash_func (c.inode i).dev (c.inode i).ino in
    record c { hash_table = update c.hash_table slot (c.hash_table slot ++ (i ∷ [])) }

abbrev pub set_inode : ℕ → Inode → Icache → Icache
set_inode i n c = record c { inode = update c.inode i n }

unfoldable pub iref : ℕ → Icache → Icache
iref i c = let n = c.inode i in set_inode i (record n { ref = (n.ref + 1) % 2 ^ 32 }) c

-- The part of `iget` that takes the head of the free list.
unfoldable pub recycle : ℕ → ℕ → Icache → ℕ × Icache
unfolding put_inode_in_hash
recycle dev ino c = elim c.free_list [
  | [] ↦ (0, record c { lock_held = true })
  | i ∷ rest ↦
      let n = c.inode i in
      let n' : Inode = record n { ref = 1; dev = dev; ino = ino; valid = false } in
      let c' : Icache = record c {
        free_list = rest;
        inode = update c.inode i n';
        hash_table = λ slot. unlink i (c.hash_table slot);
      } in
      (i, put_inode_in_hash i c')
]

unfoldable pub iget : ℕ → ℕ → Icache → ℕ × Icache
unfolding find_inode_in_hash recycle iref
iget dev ino c = elim (find_inode_in_hash dev ino c) [
  | none ↦ recycle dev ino c
  | some i ↦
      if ltb 0 (c.inode i).ref
      then (i, iref i (record c { free_list = unlink i c.free_list }))
      else recycle dev ino c
]

abbrev pub ndirect : ℕ
ndirect = 11

abbrev pub nindirect : ℕ
nindirect = 1024

abbrev pub nonzero : List ℕ → List ℕ
nonzero [] = []
nonzero (a ∷ l) = if a == 0 then nonzero l else a ∷ nonzero l

-- What `ifree` gives back for a block of addresses, in order: the blocks it names, then itself.
abbrev pub indirect_blocks : (ℕ → List ℕ) → ℕ → List ℕ
indirect_blocks entries a = if a == 0 then [] else nonzero (entries a) ++ (a ∷ [])

abbrev pub each_indirect : (ℕ → List ℕ) → List ℕ → List ℕ
each_indirect entries [] = []
each_indirect entries (a ∷ l) = indirect_blocks entries a ++ each_indirect entries l

abbrev pub dindirect_blocks : (ℕ → List ℕ) → ℕ → List ℕ
dindirect_blocks entries a = if a == 0 then [] else each_indirect entries (entries a) ++ (a ∷ [])

abbrev pub file_blocks : Inode → (ℕ → List ℕ) → List ℕ
file_blocks n entries =
    nonzero (take ndirect n.blk_addrs)
    ++ (indirect_blocks entries (get_or n.blk_addrs ndirect 0)
        ++ dindirect_blocks entries (get_or n.blk_addrs (ndirect + 1) 0))

-- A list in front of another, the last element first, as `bfree` is called on its elements in turn.
abbrev pub release : List ℕ → List ℕ → List ℕ
release [] freed = freed
release (a ∷ l) freed = release l (a ∷ freed)

unfoldable pub ifree : ℕ → Icache → Icache
ifree i c =
    let n = c.inode i in
    record c {
      freed = release (file_blocks n c.entries) c.freed;
      inode = update c.inode i (record n { blk_addrs = replicate 13 0; file_siz = 0 });
    }

-- The truncation that `iput` does with the last reference of an inode without links.
unfoldable pub truncate : ℕ → Icache → Icache
unfolding ifree
truncate i c =
    let n = c.inode i in
    if n.valid && n.nlink == 0 && n.ref == 1
    then (let c' = ifree i c in
        let n' = c'.inode i in set_inode i (record n' { type = 0; valid = false }) c')
    else c

unfoldable pub iput : ℕ → Icache → Icache
unfolding truncate
iput i c =
    let c' = truncate i c in
    let n = c'.inode i in
    let left = (n.ref + 2 ^ 32 - 1) % 2 ^ 32 in
    record c' {
      inode = update c'.inode i (record n { ref = left });
      free_list = if left == 0 then c'.free_list ++ (i ∷ []) else c'.free_list;
    }

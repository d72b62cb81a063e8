-- ===== src/Inode/Blocks.antt =====
-- `bmap`, `readi` and `writei` of kern/inode.c: the blocks that hold the bytes of a file. The bytes
-- of the disk's blocks are a function, which a write changes.
use wei_os.Common.{
  drop, take, length, leb, ◌&&◌, ◌++◌, ◌||◌, min, ◌/◌, ◌^◌, none, ◌*◌, ◌%◌, zero, some, set,
  replicate, ltb, ◌+◌, ◌==◌, not, suc, ◌-◌, if◌then◌else◌, ◌∷◌, List, Option, get_or, [], ℕ,
}
use wei_os.Inode.{nindirect, set_inode, ndirect, update, Icache}

-- A `balloc` that gives the next block of the list, cleared, or 0 at its end.
abbrev pub alloc_block : Icache → ℕ × Icache
alloc_block c = elim c.fresh [
  | [] ↦ (0, c)
  | b ∷ rest ↦ (b, record c { fresh = rest; entries = update c.entries b (replicate nindirect 0) })
]

-- The address in the inode's own table, from `balloc` when it is 0.
unfoldable pub own_block : ℕ → ℕ → Icache → ℕ × Icache
own_block i slot c =
    let addr = get_or (c.inode i).blk_addrs slot 0 in
    let (new, c') = alloc_block c in
    let n = c'.inode i in
    if not (addr == 0)
    then (addr, c)
    else if new == 0
    then (0, c')
    else (new, set_inode i (record n { blk_addrs = set n.blk_addrs slot new }) c')

-- The same for an entry of a block of addresses.
unfoldable pub entry_block : ℕ → ℕ → Icache → ℕ × Icache
entry_block b k c =
    let addr = get_or (c.entries b) k 0 in
    let (new, c') = alloc_block c in
    if not (addr == 0)
    then (addr, c)
    else if new == 0
    then (0, c')
    else (new, record c' { entries = update c'.entries b (set (c'.entries b) k new) })

-- The next step with an address, and the end of `bmap` with 0 without one.
abbrev pub with_block : ℕ × Icache → (ℕ → Icache → Option (ℕ × Icache)) → Option (ℕ × Icache)
with_block r f = if r.0 == 0 then some (0, r.1) else f r.0 r.1

-- No result stands for an access outside of the block of addresses: the entry `r - 1` for `r` 0.
unfoldable pub bmap : ℕ → ℕ → Icache → Option (ℕ × Icache)
unfolding own_block entry_block
bmap i lblkno c =
    let l = lblkno - ndirect in
    let d = l - nindirect in
    if ltb lblkno ndirect
    then some (own_block i lblkno c)
    else if ltb l nindirect
    then with_block (own_block i ndirect c) (λ b c1. some (entry_block b l c1))
    else if ltb d (nindirect * nindirect)
    then (with_block (own_block i (ndirect + 1) c) (λ b c1.
        with_block (entry_block b (d / nindirect) c1) (λ b2 c2.
          if d % nindirect == 0 then none else some (entry_block b2 (d % nindirect - 1) c2))))
    else some (0, c)

-- `memmove` out of a block, from byte `at` on.
abbrev pub block_bytes : (ℕ → ℕ) → ℕ → ℕ → List ℕ
block_bytes bytes_of at zero = []
block_bytes bytes_of at (suc n) = bytes_of at ∷ block_bytes bytes_of (at + 1) n

-- The loop of `readi`, with the bytes of the disk's blocks; it is given one round for each byte.
unfoldable pub readi_loop : ℕ → (ℕ → ℕ → ℕ) → ℕ → ℕ → ℕ → Icache → Option (List ℕ × Icache)
unfolding bmap
readi_loop zero bytes_of i offset left c = if left == 0 then some ([], c) else none
readi_loop (suc k) bytes_of i offset left c =
    let rdbytes = min left (4096 - offset % 4096) in
    if left == 0 then some ([], c) else elim (bmap i (offset / 4096) c) [
      | none ↦ none
      | some (b, c') ↦ elim (readi_loop k bytes_of i (offset + rdbytes) (left - rdbytes) c') [
        | none ↦ none
        | some (bytes, c'') ↦ some (block_bytes (bytes_of b) (offset % 4096) rdbytes ++ bytes, c'')
      ]
    ]

-- `readi` of a file that is not a device; no result is an error or an access outside of a table.
unfoldable pub readi : (ℕ → ℕ → ℕ) → ℕ → ℕ → ℕ → Icache → Option (List ℕ × Icache)
unfolding readi_loop
readi bytes_of i offset nbytes c =
    let size = (c.inode i).file_siz in
    let n = if ltb size ((offset + nbytes) % 2 ^ 32) then size - offset else nbytes in
    if ltb size offset || ltb ((offset + nbytes) % 2 ^ 32) offset
    then none
    else readi_loop n bytes_of i offset n c

-- `memmove` into a block, from byte `at` on.
abbrev pub store : (ℕ → ℕ → ℕ) → ℕ → ℕ → List ℕ → ℕ → ℕ → ℕ
store d b at [] = d
store d b at (x ∷ xs) = store (λ b' at'. if b == b' && at == at' then x else d b' at') b (at + 1) xs

-- The loop of `writei` on the bytes that are left; it is given one round for each.
unfoldable pub writei_loop :
    ℕ → (ℕ → ℕ → ℕ) → ℕ → List ℕ → ℕ → Icache → Option ((ℕ → ℕ → ℕ) × Icache)
unfolding bmap
writei_loop zero d i src offset c = if leb (length src) 0 then some (d, c) else none
writei_loop (suc k) d i src offset c =
    let wrbytes = min (length src) (4096 - offset % 4096) in
    if leb (length src) 0 then some (d, c) else elim (bmap i (offset / 4096) c) [
      | none ↦ none
      | some (b, c') ↦
          writei_loop k (store d b (offset % 4096) (take wrbytes src)) i (drop wrbytes src)
            (offset + wrbytes) c'
    ]

-- MAXFILESIZ as the 32-bit word that it is computed in.
abbrev pub maxfilesiz : ℕ
maxfilesiz = (11 + 1024 + 1048576) * 4096 % 2 ^ 32

-- `writei` of a file that is not a device, with the bytes at `src`, and no result as there. From behind
-- MAXFILESIZ the count MAXFILESIZ - offset wraps around and goes far behind the source, which has no
-- result either. The `log_write` of each block is not part of it.
unfoldable pub writei : (ℕ → ℕ → ℕ) → ℕ → List ℕ → ℕ → Icache → Option ((ℕ → ℕ → ℕ) × Icache)
unfolding writei_loop
writei d i src offset c =
    let size = (c.inode i).file_siz in
    let end = (offset + length src) % 2 ^ 32 in
    let bytes = if ltb maxfilesiz end then take (maxfilesiz - offset) src else src in
    if ltb size offset || (ltb end offset || (ltb maxfilesiz end && ltb maxfilesiz offset))
    then none
    else elim (writei_loop (length bytes) d i bytes offset c) [
      | none ↦ none
      | some (d', c') ↦
          let n = c'.inode i in
          let stop = offset + length bytes in
          some
            (d', if ltb n.file_siz stop then set_inode i (record n { file_siz = stop }) c' else c')
    ]

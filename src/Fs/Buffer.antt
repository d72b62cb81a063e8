-- ===== src/Fs/Buffer.antt =====
-- The buffer cache of kern/bio.c, over a disk that serves each request of kern/ide.c at once.
pub mod Find
use wei_os.Common.{
  ℕ, ◌+◌, ◌*◌, ◌%◌, ◌^◌, Bool, true, false, not, ◌&&◌, ◌||◌, Option, none, some, List, [], ◌∷◌,
  ◌++◌, ◌==◌, ltb, if◌then◌else◌, unlink,
}
use wei_os.Fs.{Block, Buf, State, M, ◌>>=◌, ◌>>◌, pure, update, fssize}

abbrev pub hash_func : ℕ → ℕ → ℕ
hash_func dev blockno = (dev * 5 + blockno) % 2 ^ 32 % 7

abbrev pub set_buf : ℕ → Buf → State → State
set_buf b r s = record s { buf = update s.buf b r }

-- The walk along a hash queue. Its test `(b->dev = dev) && (b->blockno == blockno)` assigns the
-- device to each buffer that it passes, and fails for device 0.
unfoldable pub find_in_queue : List ℕ → ℕ → ℕ → State → Option ℕ × State
find_in_queue [] dev blockno s = (none, s)
find_in_queue (b ∷ bs) dev blockno s =
    let r = s.buf b in
    let s' = set_buf b (record r { dev = dev }) s in
    let rest = find_in_queue bs dev blockno s' in
    if not (dev == 0) && r.blockno == blockno then (some b, s') else rest

unfoldable pub find_blk_in_hash : ℕ → ℕ → State → Option ℕ × State
unfolding find_in_queue
find_blk_in_hash dev blockno s = find_in_queue (s.hash (hash_func dev blockno)) dev blockno s

unfoldable pub put_blk_in_hash : ℕ → State → State
put_blk_in_hash b s =
    let slot = hash_func (s.buf b).dev (s.buf b).blockno in
    record s { hash = update s.hash slot (s.hash slot ++ (b ∷ [])) }

-- A buffer that the cache holds.
unfoldable pub getblk_hit : ℕ → M ℕ
getblk_hit b s =
    let r = s.buf b in
    if r.busy
    then none
    else some
        (b, record (set_buf b (record r { busy = true }) s) { free_list = unlink b s.free_list })

-- The oldest free buffer, taken over for the block.
unfoldable pub getblk_miss : ℕ → ℕ → M ℕ
unfolding put_blk_in_hash
getblk_miss dev blockno s = elim s.free_list [
  | [] ↦ none
  | b ∷ rest ↦ some (
    b,
    put_blk_in_hash b (record s {
      free_list = rest;
      hash = λ i. unlink b (s.hash i);
      buf = update s.buf b (taken (s.buf b));
    }),
  )
]
  where
    taken : Buf → Buf
    taken r = record r { busy = true; valid = false; dev = dev; blockno = blockno }

unfoldable pub getblk : ℕ → ℕ → M ℕ
unfolding find_blk_in_hash getblk_hit getblk_miss
getblk dev blockno s =
    let (found, s') = find_blk_in_hash dev blockno s in
    elim found [ some b ↦ getblk_hit b s' | none ↦ getblk_miss dev blockno s' ]

-- The transfer that `ide_start` begins and `ide_intr` ends: a dirty buffer is written, any other
-- is read, and then it is valid. `ide_start` ignores a block behind the end of the disk, and
-- nothing wakes the caller.
unfoldable pub transfer : ℕ → M ℕ
transfer b s =
    let r = s.buf b in
    let drive = r.dev % 2 in
    if ltb r.blockno fssize
    then (if r.dirty
        then some (
          0,
          record (set_buf b (record r { valid = true; dirty = false }) s) {
            disk = update s.disk drive (update (s.disk drive) r.blockno r.content);
          },
        )
        else some (0, set_buf b (record r { content = s.disk drive r.blockno; valid = true }) s))
    else none

-- The result 1 stands for -1.
unfoldable pub ide_read_write : ℕ → M ℕ
unfolding transfer
ide_read_write b s =
    let r = s.buf b in
    if r.valid && not r.dirty
    then some (0, s)
    else if not (r.dev == 0) && not s.slave
    then some (1, s)
    else transfer b s

unfoldable pub bread : ℕ → ℕ → M ℕ
unfolding getblk ide_read_write
bread dev blkno = do
  b ← getblk dev blkno
  λ s. if (s.buf b).valid then some (b, s) else (do ide_read_write b; pure b) s

abbrev pub mark_dirty : ℕ → State → State
mark_dirty b s = let r = s.buf b in set_buf b (record r { valid = false; dirty = true }) s

unfoldable pub bwrite : ℕ → M ℕ
unfolding ide_read_write
bwrite b s = ide_read_write b (mark_dirty b s)

unfoldable pub brelse : ℕ → State → State
brelse b s =
    let r = s.buf b in
    let s' = set_buf b (record r { busy = false }) s in
    if r.valid && not r.dirty then record s' { free_list = s.free_list ++ (b ∷ []) } else s'

unfoldable pub bwrite_delay : ℕ → State → State
unfolding brelse
bwrite_delay b s = brelse b (mark_dirty b s)

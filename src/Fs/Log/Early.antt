-- ===== src/Fs/Log/Early.antt =====
-- What `write_log_blk` of kern/log.c does to a logged block: its `bread` of the cached block, which
-- `log_write` has marked dirty, writes that block to its home location.
use wei_os.Common.{
  ◌∙◌, Bool, true, if◌then◌else◌, ℕ, ◌<◌, ◌≡◌, ◌≢◌, inl, inr, refl, Bool, true, false, some, List,
  ◌∷◌, ◌%◌, if◌then◌else◌, arith, unlink,
}
use wei_os.Common.{Option-cases}
use wei_os.Fs.{◌>>◌, pure, pure, ◌>>=◌, ◌>>◌, State, update, fssize}
use wei_os.Fs.Buffer.{
  find_in_queue, find_blk_in_hash, getblk_hit, getblk, set_buf, hash_func, bread, ide_read_write,
  transfer, brelse, mark_dirty,
}
use wei_os.Fs.Log.{log_write, log_block}

-- A free buffer that is dirty and not valid, first in its hash queue.
record IsPending (b dev n : ℕ) (s : State) : Type 0 where
  pub of_block : (s.buf b).blockno ≡ n
  pub free : (s.buf b).busy ≡ false
  pub dirty : (s.buf b).dirty ≡ true
  pub stale : (s.buf b).valid ≡ false
  pub queued : (rest : List ℕ) × (s.hash (hash_func dev n) ≡ b ∷ rest)

-- The state after a dirty buffer is served.
abbrev served : ℕ → State → State
served b s =
    let r = s.buf b in
    record (set_buf b (record r { valid = true; dirty = false }) s) {
      disk = update s.disk (r.dev % 2) (update (s.disk (r.dev % 2)) r.blockno r.content);
    }

ide_read_write_serves :
    (b : ℕ) (s : State)
    → (s.buf b).dirty ≡ true
    → (s.buf b).blockno < fssize
    → s.slave ≡ true
    → ide_read_write b s ≡ some (0, served b s)
unfolding ide_read_write transfer
ide_read_write_serves b s d n slave = ground arith

-- The state in which `getblk` hands out the buffer.
abbrev locked : ℕ → ℕ → State → State
locked b dev s =
    let s' = set_buf b (record (s.buf b) { dev = dev }) s in
    record (set_buf b (record (s'.buf b) { busy = true }) s') { free_list = unlink b s.free_list }

getblk_locks :
    (b dev n : ℕ) (s : State)
    → IsPending b dev n s
    → dev ≢ 0
    → getblk dev n s ≡ some (b, locked b dev s)
unfolding getblk find_blk_in_hash find_in_queue getblk_hit
getblk_locks b dev n s p d =
    let (rest, queue) = p.queued in
    let of_block = p.of_block in
    let free = p.free in
    let found : find_blk_in_hash dev n s ≡ (some b, set_buf b (record (s.buf b) { dev = dev }) s) =
      rw (find_blk_in_hash, queue) (ground arith) in
    rw (getblk, found) (ground arith)

if_false : {A : Type 0} (c : Bool) (x y : A) → c ≡ false → (if c then x else y) ≡ y
if_false true x y e = absurd (cc)
if_false false x y e = refl

bread_fetches :
    (b dev n : ℕ) (s t u : State)
    → getblk dev n s ≡ some (b, t)
    → (t.buf b).valid ≡ false
    → ide_read_write b t ≡ some (0, u)
    → bread dev n s ≡ some (b, u)
unfolding bread
bread_fetches b dev n s t u got invalid done =
    let rest : (ide_read_write b >> pure b) t ≡ some (b, u) = rw (◌>>◌, ◌>>=◌, done) refl in
    let step : bread dev n s
        ≡ (if (t.buf b).valid then some (b, t) else (ide_read_write b >> pure b) t) =
      rw (bread, ◌>>=◌, got) refl in
    step ∙ if_false (t.buf b).valid (some (b, t)) ((ide_read_write b >> pure b) t) invalid ∙ rest

bread_writes_home :
    (b dev n : ℕ) (s : State)
    → IsPending b dev n s
    → dev ≢ 0
    → n < fssize
    → s.slave ≡ true
    → bread dev n s ≡ some (b, served b (locked b dev s))
unfolding bread
bread_writes_home b dev n s p d small slave =
    let of_block = p.of_block in
    let dirty = p.dirty in
    let stale = p.stale in
    let got = getblk_locks b dev n s p d in
    let done = ide_read_write_serves b (locked b dev s) (ground arith) (ground arith) slave in
    let invalid : ((locked b dev s).buf b).valid ≡ false = ground arith in
    bread_fetches b dev n s (locked b dev s) (served b (locked b dev s)) got invalid done

-- Once `log_write` has taken a buffer and `brelse` has given it back, the next `bread` of its block,
-- which `write_log_blk` does for each block of the log, writes the new content to the home location
-- on the disk while the log manager is as `log_write` left it: no header has been written, so a
-- crash there leaves a part of the transaction on the disk. The buffer stands first in its hash
-- queue, and its device is the second disk or a later one, which exists.
pub log_write-bread :
    (b dev n : ℕ) (rest : List ℕ) (s : State)
    → (s.buf b).blockno ≡ n
    → n < fssize
    → dev ≢ 0
    → s.slave ≡ true
    → s.hash (hash_func dev n) ≡ b ∷ rest
    → (log_write b s).0 ≡ 0
    → (t : State) × (bread dev n (brelse b (log_write b s).1) ≡ some (b, t))
      × (t.disk (dev % 2) n ≡ (s.buf b).content)
      × (t.log ≡ (log_write b s).1.log)
unfolding log_write brelse
log_write-bread b dev n rest s of_block small d slave queue taken =
    elim (Option-cases (log_block (s.buf b).blockno s.log)) [
      | inl refused ↦ absurd (ground arith)
      | inr (l, accepted) ↦
          let after : (log_write b s).1 ≡ mark_dirty b (record s { log = l }) = ground arith in
          let s' = brelse b (mark_dirty b (record s { log = l })) in
          let pending : IsPending b dev n s' = record {
            of_block = ground arith;
            free = ground arith;
            dirty = ground arith;
            stale = ground arith;
            queued = (rest, ground arith);
          } in
          let served_at : bread dev n s' ≡ some (b, served b (locked b dev s')) =
            bread_writes_home b dev n s' pending d small (ground arith) in
          rw after (served b (locked b dev s'), served_at, ground arith, ground arith)
    ]

-- ===== src/Fs/Log.antt =====
-- kern/log.c: which transactions may run together, and which blocks the log takes.
pub mod Write
pub mod Reserve
pub mod Early
use wei_os.Common.{
  ℕ, zero, suc, ◌+◌, ◌-◌, ◌*◌, Bool, true, false, not, ◌&&◌, ◌||◌, Option, none, some, List, [],
  ◌∷◌, ◌==◌, ltb, leb, if◌then◌else◌, get_or, set,
}
use wei_os.Fs.{Buf, LogManager, State, M, ◌>>=◌, ◌>>◌, pure, update, logsize, maxopblocks}
use wei_os.Fs.Buffer.{mark_dirty}

-- One round of the loop of `begin_transaction`; `none` is its sleep.
unfoldable pub begin_transaction : LogManager → Option LogManager
begin_transaction l =
    if l.committing
    then none
    else if ltb logsize (l.nblks + (l.n_occupiers + 1) * maxopblocks)
    then none
    else some (record l { n_occupiers = l.n_occupiers + 1 })

pub data Ended : Type 0 where
  others_run : LogManager → Ended
  must_commit : LogManager → Ended
  panics : Ended

-- `end_transaction` up to the commit.
unfoldable pub end_transaction : LogManager → Ended
end_transaction l =
    let l' = record l { n_occupiers = l.n_occupiers - 1 } in
    if l.committing
    then panics
    else if l'.n_occupiers == 0
    then must_commit (record l' { committing = true })
    else others_run l'

-- What `commit` and the rest of `end_transaction` leave of the log manager.
unfoldable pub committed : LogManager → LogManager
committed l = record l { nblks = 0; committing = false }

-- The loop of `log_write`: the first of `k` entries from `i` on that is the block, or the end.
unfoldable pub log_index : ℕ → ℕ → ℕ → List ℕ → ℕ
log_index zero i blockno nos = i
log_index (suc k) i blockno nos =
    let later = log_index k (i + 1) blockno nos in if get_or nos i 0 == blockno then i else later

-- `log_write` on the log manager; `none` is -1.
unfoldable pub log_block : ℕ → LogManager → Option LogManager
unfolding log_index
log_block blockno l =
    let i = log_index l.nblks 0 blockno l.blks_no in
    if leb logsize l.nblks || leb (l.size - 1) l.nblks
    then none
    else if ltb l.n_occupiers 1
    then none
    else some (record l {
      blks_no = set l.blks_no i blockno;
      nblks = if i == l.nblks then l.nblks + 1 else l.nblks;
    })

-- The result 1 stands for -1.
unfoldable pub log_write : ℕ → State → ℕ × State
unfolding log_block
log_write b s = elim (log_block (s.buf b).blockno s.log) [
  | none ↦ (1, s)
  | some l ↦ (0, mark_dirty b (record s { log = l }))
]

-- ===== src/Fs/Tests.antt =====
-- Runs of the block layer at concrete inputs.
use wei_os.Fs.Recovery.Crash.{write_log_blk-recover_from_log}
use wei_os.Fs.Recovery.{write_log_blk, run_writes, header_block, recover_from_log}
use wei_os.Fs.Recovery.Writes.{IsCommit}
use wei_os.Common.{
  has, ◌⊎◌, ◌<◌, take, ◌≤◌, ℕ, zero, suc, ◌≡◌, ◌≢◌, inl, refl, true, false, some, List, [], ◌∷◌,
  ◌==◌, if◌then◌else◌, arith, replicate, set,
}
use wei_os.Fs.{Buf, State, LogManager, update, maxopblocks}
use wei_os.Fs.Buffer.{getblk, find_blk_in_hash, find_in_queue, getblk_miss, put_blk_in_hash}
use wei_os.Fs.Log.{log_block, begin_transaction, end_transaction, panics}
use wei_os.Fs.Log.Write.{Logged, log_block-Logged}
use wei_os.Fs.Log.Reserve.{
  Caller, idle, may_log, begins, logs, start, next, caller, budget, log_block-accepts,
}
use wei_os.Fs.Buffer.Find.{getblk-Locked, Locked}
use wei_os.Fs.Recovery.Order.{run_writes-recover_from_log}

abbrev empty_log : LogManager
empty_log = record {
  dev = 1;
  size = 121;
  start = 2;
  committing = false;
  n_occupiers = 0;
  nblks = 0;
  blks_no = replicate 120 0;
}

abbrev open_log : LogManager
open_log = record empty_log { n_occupiers = 1 }

abbrev one_block : LogManager
one_block = record open_log { nblks = 1; blks_no = set (replicate 120 0) 0 7 }

log_block-Logged_example : Logged 7 open_log one_block
unfolding log_block
log_block-Logged_example =
    log_block-Logged 7 open_log one_block (record { room = refl; bound = omega arith; once = refl })
      refl

abbrev callers : List Caller
callers = idle ∷ idle ∷ []

abbrev callers_later : List Caller
callers_later = may_log 39 ∷ idle ∷ []

log_block-accepts_example :
    ((m : LogManager) × (log_block 9 one_block ≡ some m)) × (end_transaction one_block ≢ panics)
unfolding log_block begin_transaction
log_block-accepts_example =
    log_block-accepts {l = empty_log} {l' = one_block} {cs = callers} {ds = callers_later} 0 38 9
      (record { room = omega arith; each = few; counted = refl; quiet = inl refl }) (omega arith)
      (next (next start (begins empty_log open_log callers 0 (omega arith) refl refl))
        (logs open_log one_block (may_log 40 ∷ idle ∷ []) 0 39 7 refl refl))
      refl
  where
    few : (p : ℕ) → budget (caller callers p) ≤ maxopblocks
    few zero = omega arith
    few (suc zero) = omega arith
    few (suc (suc p)) = omega arith

abbrev buffers : ℕ → Buf
buffers b = record {
  content = 5 ∷ [];
  busy = b == 0;
  valid = true;
  dirty = false;
  dev = 1;
  blockno = if b == 0 then 7 else 8;
}

abbrev disks : State
disks = record {
  disk = λ d n. [];
  buf = buffers;
  hash = update (λ i. []) 5 (0 ∷ []);
  free_list = 1 ∷ [];
  slave = true;
  log = open_log;
  sb_size = 5000;
  bitmap_start = 3;
}

getblk-Locked_example : (s' : State) × (((disks.buf 1).busy ≡ false) × Locked 1 1 9 s')
unfolding getblk getblk_miss find_blk_in_hash find_in_queue put_blk_in_hash
getblk-Locked_example = (_, getblk-Locked 1 1 9 disks _ (λ c h. ground (arith, h)) refl)

-- A log at block 2 for two blocks.
abbrev two_blocks : List ℕ
two_blocks = 7 ∷ 9 ∷ []

abbrev new_content : ℕ → List ℕ
new_content n = n ∷ 1 ∷ []

abbrev old_disk : ℕ → List ℕ
old_disk n = if n == 2 then replicate 8 0 else n ∷ 0 ∷ []

two_blocks-IsCommit : IsCommit 2 two_blocks
two_blocks-IsCommit = record { small = omega arith; words = refl; elsewhere = refl }

-- Header and log are written, and of the home blocks the second.
abbrev logged : ℕ → List ℕ
logged n =
    if n == 2
    then header_block two_blocks (replicate 8 0)
    else if n == 3
    then new_content 7
    else if n == 4
    then new_content 9
    else old_disk n

abbrev second_home : List (ℕ × List ℕ)
second_home = (9, new_content 9) ∷ []

run_writes-recover_from_log_example :
    ((j : ℕ)
      → (j < 2) ⊎ (4 < j)
      → recover_from_log 2 (run_writes second_home logged) j
        ≡ (if has j two_blocks then new_content j else logged j))
    × ((j : ℕ)
        → j ≢ 2
        → recover_from_log 2
            (update (run_writes second_home logged) 2 (header_block [] (logged 2)))
            j
          ≡ run_writes second_home logged j)
run_writes-recover_from_log_example =
    run_writes-recover_from_log 2 two_blocks new_content (replicate 8 0) second_home logged
      two_blocks-IsCommit refl (refl, (refl, refl)) (refl, refl, tt)

write_log_blk-recover_from_log_example :
    recover_from_log 2 (run_writes (take 1 (write_log_blk 2 two_blocks new_content)) old_disk) 7
    ≡ 7 ∷ 1 ∷ []
unfolding header_block
write_log_blk-recover_from_log_example =
    write_log_blk-recover_from_log 1 2 two_blocks new_content (replicate 8 0) old_disk 7
      two_blocks-IsCommit refl (omega arith) (λ e. omega arith)

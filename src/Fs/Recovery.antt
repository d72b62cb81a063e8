-- ===== src/Fs/Recovery.antt =====
-- The commit and the recovery of kern/log.c, as the writes that they make to the disk in order. A
-- crash keeps a prefix of them.
pub mod Header
pub mod Writes
pub mod Crash
pub mod Order
use wei_os.Common.{
  ℕ, zero, suc, ◌+◌, ◌*◌, ◌/◌, ◌%◌, ◌^◌, List, [], ◌∷◌, ◌++◌, map, drop, length, get_or,
}
use wei_os.Fs.{Block, update}
use wei_os.Fs.Bitmap.{word}

abbrev pub Disk : Type 0
Disk = ℕ → Block

abbrev pub run_writes : List (ℕ × Block) → Disk → Disk
run_writes [] d = d
run_writes (w ∷ ws) d = run_writes ws (update d w.0 w.1)

-- The four bytes of a little-endian word.
abbrev pub word_bytes : ℕ → List ℕ
word_bytes w = w % 256 ∷ w / 256 % 256 ∷ w / 65536 % 256 ∷ w / 16777216 % 256 ∷ []

abbrev pub words_bytes : List ℕ → List ℕ
words_bytes [] = []
words_bytes (w ∷ ws) = word_bytes w ++ words_bytes ws

-- The header block after `write_log_header`, from its old content: `nblks` and as many numbers.
unfoldable pub header_block : List ℕ → Block → Block
header_block nos old = words_bytes (length nos ∷ nos) ++ drop (4 * (length nos + 1)) old

-- The loop of `read_log_header` with `k` numbers left, from byte `at` on.
unfoldable pub header_words : ℕ → ℕ → Block → List ℕ
header_words zero at c = []
header_words (suc k) at c = word c at ∷ header_words k (at + 4) c

unfoldable pub read_log_header : Block → List ℕ
unfolding header_words
read_log_header c = header_words (word c 0) 4 c

-- The blocks of the log area, from its block `i` on, with the content of the blocks they stand for.
unfoldable pub log_writes : ℕ → ℕ → List ℕ → (ℕ → Block) → List (ℕ × Block)
log_writes start i [] cached = []
log_writes start i (n ∷ nos) cached =
    (start + i + 1, cached n) ∷ log_writes start (i + 1) nos cached

unfoldable pub home_writes : List ℕ → (ℕ → Block) → List (ℕ × Block)
home_writes [] cached = []
home_writes (n ∷ nos) cached = (n, cached n) ∷ home_writes nos cached

-- The writes of `write_log_blk`. Its `bread` of each logged block, whose buffer is dirty, writes that
-- block to its home location; the blocks of the log area follow.
unfoldable pub write_log_blk : ℕ → List ℕ → (ℕ → Block) → List (ℕ × Block)
unfolding home_writes log_writes
write_log_blk start nos cached = home_writes nos cached ++ log_writes start 0 nos cached

-- The writes of `commit` behind `write_log_blk` and the first `write_log_header`, with the home writes in
-- the order of the log. The queue of the disk may serve these in another order; Order is about any.
unfoldable pub install : ℕ → List ℕ → (ℕ → Block) → Block → List (ℕ × Block)
unfolding home_writes header_block
install start nos cached header = home_writes nos cached ++ ((start, header_block [] header) ∷ [])

-- The writes of `commit` for the logged blocks `nos`; it does nothing without one.
unfoldable pub commit : ℕ → List ℕ → (ℕ → Block) → Disk → List (ℕ × Block)
unfolding write_log_blk install header_block
commit start [] cached d = []
commit start (n ∷ nos) cached d =
    let header = header_block (n ∷ nos) (d start) in
    write_log_blk start (n ∷ nos) cached
    ++ ((start, header) ∷ install start (n ∷ nos) cached header)

-- The writes of `keep_consistent_on_disk(1)`: what stands in the log area goes home.
unfoldable pub reinstall : ℕ → ℕ → List ℕ → Disk → List (ℕ × Block)
reinstall start i [] d = []
reinstall start i (n ∷ nos) d = (n, d (start + i + 1)) ∷ reinstall start (i + 1) nos d

unfoldable pub recover_from_log : ℕ → Disk → Disk
unfolding read_log_header reinstall header_block
recover_from_log start d =
    let d' = run_writes (reinstall start 0 (read_log_header (d start)) d) d in
    update d' start (header_block [] (d' start))

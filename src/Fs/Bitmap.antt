-- ===== src/Fs/Bitmap.antt =====
-- The block allocator of kern/bio.c. A disk of FSSIZE blocks has one bitmap block, of 32768 bits.
pub mod Search
use wei_os.Common.{
  ℕ, zero, suc, ◌+◌, ◌*◌, ◌-◌, ◌/◌, ◌%◌, ◌^◌, Bool, true, false, not, ◌&&◌, Option, none, some,
  List, [], ◌∷◌, ◌==◌, ltb, min, if◌then◌else◌, get_or, set, replicate, test_bit, set_bit,
  clear_bit,
}
use wei_os.Fs.{Block, Buf, State, M, ◌>>=◌, ◌>>◌, pure, update}
use wei_os.Fs.Buffer.{bread, brelse, set_buf}
use wei_os.Fs.Log.{log_write}

abbrev pub bitpb : ℕ
bitpb = 32768

abbrev pub set_content : ℕ → Block → State → State
set_content b c s = let r = s.buf b in set_buf b (record r { content = c }) s

abbrev pub block_bit : Block → ℕ → Bool
block_bit c j = test_bit (get_or c (j / 8) 0) (j % 8)

-- `log_write(b); brelse(b);`
unfoldable pub log_and_release : ℕ → M ℕ
unfolding log_write brelse
log_and_release b s = some (0, brelse b (log_write b s).1)

unfoldable pub bzero : ℕ → ℕ → M ℕ
unfolding bread log_and_release
bzero dev blkno = do
  b ← bread dev blkno
  λ s. log_and_release b (set_content b (replicate 4096 0) s)

-- The search for a clear bit among the `k` from `j` on.
unfoldable pub first_clear : ℕ → ℕ → Block → Option ℕ
first_clear zero j c = none
first_clear (suc k) j c =
    let later = first_clear k (j + 1) c in if block_bit c j then later else some j

-- A little-endian word of a block.
abbrev pub word : Block → ℕ → ℕ
word c i =
    get_or c i 0
    + 2 ^ 8 * get_or c (i + 1) 0
    + 2 ^ 16 * get_or c (i + 2) 0
    + 2 ^ 24 * get_or c (i + 3) 0

unfoldable pub read_superblock : ℕ → M ℕ
unfolding bread brelse
read_superblock dev = do
  b ← bread dev 1
  λ s. some (
    0,
    brelse b
        (record s { sb_size = word (s.buf b).content 0; bitmap_start = word (s.buf b).content 24 }),
  )

abbrev pub bitblock : ℕ → State → ℕ
bitblock i s = i / bitpb + s.bitmap_start

abbrev pub mark_bit : Block → ℕ → Block
mark_bit c j = set c (j / 8) (set_bit (get_or c (j / 8) 0) (j % 8))

abbrev pub clear_mark : Block → ℕ → Block
clear_mark c j = set c (j / 8) (clear_bit (get_or c (j / 8) 0) (j % 8))

-- `balloc` from block `i` on, with `k` bitmap blocks left. The result 0 is its failure.
unfoldable pub balloc_from : ℕ → ℕ → ℕ → M ℕ
unfolding bread brelse first_clear log_and_release bzero
balloc_from zero i dev = pure 0
balloc_from (suc k) i dev =
    let later = balloc_from k (i + bitpb) dev in
    do
      b ← λ s. bread dev (bitblock i s) s
      λ s. elim (first_clear (min bitpb (s.sb_size - i)) 0 (s.buf b).content) [
        | none ↦ later (brelse b s)
        | some j ↦
            (do log_and_release b; bzero dev (i + j); pure (i + j))
              (set_content b (mark_bit (s.buf b).content j) s)
      ]

unfoldable pub balloc : ℕ → M ℕ
unfolding balloc_from
balloc dev s = balloc_from ((s.sb_size + (bitpb - 1)) / bitpb) 0 dev s

-- The bitmap block of `bfree` is in buffer `b`; 1 stands for -1.
unfoldable pub free_bit : ℕ → ℕ → M ℕ
unfolding log_and_release
free_bit b blkno s =
    let j = blkno % bitpb in
    if block_bit (s.buf b).content j
    then log_and_release b (set_content b (clear_mark (s.buf b).content j) s)
    else some (1, s)

unfoldable pub bfree : ℕ → ℕ → M ℕ
unfolding read_superblock bread free_bit
bfree dev blkno = do read_superblock dev; b ← λ s. bread dev (bitblock blkno s) s; free_bit b blkno

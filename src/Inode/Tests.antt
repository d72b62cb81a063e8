-- ===== src/Inode/Tests.antt =====
-- Inputs of the theorems on inodes.
use wei_os.Inode.Twice.{iget_twice, IsHeld}
use wei_os.Inode.Write.{writei-IsWritten, IsWritten, writei-readi}
use wei_os.Text.{strncmp}
use wei_os.Inode.Path.Names.{path_names, resolve}
use wei_os.Inode.Path.{dirlookup, Dirs}
use wei_os.Inode.Read.{readi-file_bytes, file_bytes}
use wei_os.Inode.Map.{NoBlock, bmap-file_blocks}
use wei_os.Inode.Cache.{iput-IsValid, iget-Got, Got}
use wei_os.Inode.Blocks.{writei, readi, bmap}
use wei_os.Inode.{release, file_blocks, Icache, iput, find_inode_in_hash, iget, Inode}
use wei_os.Inode.Cache
use wei_os.Common.{
  length, ltb, List, ◌-◌, min, zero, ◌&&◌, suc, true, ◌⊎◌, ◌<◌, ◌%◌, none, ◌++◌, some, has, [],
  ◌==◌, ◌*◌, ◌∷◌, replicate, ◌+◌, ◌≡◌, if◌then◌else◌, false, ℕ, arith, inr, refl,
}

abbrev blank : Inode
blank = record {
  dev = 0;
  ino = 0;
  ref = 0;
  valid = false;
  type = 0;
  nlink = 1;
  file_siz = 0;
  blk_addrs = replicate 13 0;
}

-- Inodes 1 to 3 on the free list; 3 is still in the table as number 5 of device 1.
abbrev three_free : Icache
three_free = record {
  inode = λ i. if i == 3 then record blank { dev = 1; ino = 5 } else blank;
  free_list = 1 ∷ 2 ∷ 3 ∷ [];
  hash_table = λ s. if s == 3 then 3 ∷ [] else [];
  entries = λ b. replicate 1024 0;
  fresh = 50 ∷ 51 ∷ 52 ∷ [];
  freed = [];
  lock_held = false;
}

three_free-IsValid : Cache.IsValid three_free
three_free-IsValid = record { distinct = refl; unreferenced = λ i. inr (ground arith) }

iget-Got_example :
    ((j : ℕ)
      → find_inode_in_hash 1 5 three_free ≡ some j
      → 0 < (three_free.inode j).ref
      → (iget 1 5 three_free).0 ≡ j)
    × (((iget 1 5 three_free ≡ (0, record three_free { lock_held = true }))
          × (three_free.free_list ≡ []))
        ⊎ (Got 1 5 (iget 1 5 three_free).0 three_free (iget 1 5 three_free).1
            × ((iget 1 5 three_free).1.lock_held ≡ false)))
iget-Got_example = iget-Got 1 5 three_free three_free-IsValid (λ i. ground arith)

iget_twice_example :
    ((iget 1 5 three_free).0 ≡ 1)
    × ((iget 1 5 (iget 1 5 three_free).1).0 ≡ 2)
    × IsHeld 1 5 ((iget 1 5 (iget 1 5 three_free).1).1.inode 1)
    × IsHeld 1 5 ((iget 1 5 (iget 1 5 three_free).1).1.inode 2)
unfolding find_inode_in_hash
iget_twice_example =
    iget_twice 1 5 3 1 2 (3 ∷ []) three_free refl refl refl (omega arith) (omega arith)
      (omega arith)

-- The last reference of an inode without links, with two blocks.
abbrev last_reference : Icache
last_reference = record three_free {
  inode = λ i. record blank {
    ref = if i == 4 then 1 else 0;
    valid = true;
    nlink = 0;
    blk_addrs = 40 ∷ 41 ∷ replicate 11 0;
  };
}

last_reference-IsValid : Cache.IsValid last_reference
last_reference-IsValid = record { distinct = refl; unreferenced = λ i. ground arith }

iput-IsValid_example :
    Cache.IsValid (iput 4 last_reference)
    × (((iput 4 last_reference).inode 4).ref + 1 ≡ (last_reference.inode 4).ref)
    × (has 4 (iput 4 last_reference).free_list ≡ (last_reference.inode 4).ref == 1)
    × ((j : ℕ) → (j ≡ 4) ⊎ ((iput 4 last_reference).inode j ≡ last_reference.inode j))
    × ((iput 4 last_reference).freed ≡ (
        if (last_reference.inode 4).valid
          && (last_reference.inode 4).nlink == 0
          && (last_reference.inode 4).ref == 1
        then release
            (file_blocks (last_reference.inode 4) last_reference.entries)
            last_reference.freed
        else last_reference.freed))
iput-IsValid_example =
    iput-IsValid 4 last_reference last_reference-IsValid (omega arith) (omega arith)

bmap-file_blocks_example :
    (a : ℕ) × (c' : Icache) × (bmap 4 11 three_free ≡ some (a, c'))
    × (NoBlock a 4 11 three_free c'
        ⊎ ((bmap 4 11 c' ≡ some (a, c')) × (has a (file_blocks (c'.inode 4) c'.entries) ≡ true)))
bmap-file_blocks_example = bmap-file_blocks 4 11 three_free refl (λ b. refl) refl (omega arith)

abbrev big_file : Icache
big_file = record three_free {
  inode = λ i. record blank { blk_addrs = replicate 12 0 ++ (60 ∷ []) };
  entries = λ b. 61 ∷ replicate 1023 0;
}

-- A file of 8000 bytes in blocks 70 and 71.
abbrev two_blocks : Icache
two_blocks = record three_free {
  inode = λ i. record blank { file_siz = 8000; blk_addrs = 70 ∷ 71 ∷ replicate 11 0 };
}

abbrev sample_bytes : ℕ → ℕ → ℕ
sample_bytes b at = (b + at) % 256

two_blocks_mapped : (b : ℕ) → b * 4096 < 8000 → bmap 4 b two_blocks ≡ some (70 + b, two_blocks)
unfolding bmap
two_blocks_mapped zero h = refl
two_blocks_mapped (suc zero) h = refl
two_blocks_mapped (suc (suc b)) h = absurd (omega arith)

readi-file_bytes_example :
    readi sample_bytes 4 4090 20 two_blocks
    ≡ some (file_bytes sample_bytes (λ b. 70 + b) 4090 (min 20 (8000 - 4090)), two_blocks)
readi-file_bytes_example =
    readi-file_bytes sample_bytes (λ b. 70 + b) 4 4090 20 two_blocks (omega arith) (omega arith)
      two_blocks_mapped

-- The root holds the directory `a`, number 2, which holds the file `b`, number 3.
abbrev small_dirs : Dirs
small_dirs i =
    if i == 1
    then some ((0, b'x' ∷ []) ∷ (2, b'a' ∷ []) ∷ [])
    else if i == 2
    then some ((3, b'b' ∷ []) ∷ [])
    else none

abbrev a_b : List ℕ
a_b = b'/' ∷ b'a' ∷ b'/' ∷ b'b' ∷ b'/' ∷ []

a_b_found : resolve small_dirs 1 (path_names a_b) ≡ some 3
unfolding dirlookup strncmp
a_b_found = refl

abbrev some_bytes : List ℕ
some_bytes = replicate 10 7

writei-readi_example :
    (d' : ℕ → ℕ → ℕ) × (writei sample_bytes 4 some_bytes 4090 two_blocks ≡ some (d', two_blocks))
    × (readi d' 4 4090 10 two_blocks ≡ some (some_bytes, two_blocks))
writei-readi_example =
    writei-readi sample_bytes (λ b. 70 + b) 4 some_bytes 4090 two_blocks (λ y z e. omega arith)
      two_blocks_mapped (omega arith) (omega arith)

mapped_behind : (b : ℕ) → b * 4096 < 7995 + 10 → bmap 4 b two_blocks ≡ some (70 + b, two_blocks)
mapped_behind zero h = two_blocks_mapped 0 (omega arith)
mapped_behind (suc zero) h = two_blocks_mapped 1 (omega arith)
mapped_behind (suc (suc b)) h = absurd (omega arith)

writei-IsWritten_example :
    (d' : ℕ → ℕ → ℕ) × (c' : Icache) × (writei sample_bytes 4 some_bytes 7995 two_blocks
      ≡ some (d', c'))
    × IsWritten (λ b. 70 + b) sample_bytes d' 7995 some_bytes
    × ((c'.inode 4).file_siz ≡ (
        if ltb (two_blocks.inode 4).file_siz (7995 + length some_bytes)
        then 7995 + length some_bytes
        else (two_blocks.inode 4).file_siz))
writei-IsWritten_example =
    writei-IsWritten sample_bytes (λ b. 70 + b) 4 some_bytes 7995 two_blocks (λ y z e. omega arith)
      mapped_behind (omega arith) (omega arith)

-- ===== src/Fs.antt =====
-- The block layer: kern/bio.c (`Buffer`), kern/log.c (`Log`) and the block allocator of kern/bio.c
-- (`Bitmap`). Here: the state that they share, and the commands over it. A buffer is named by its
-- address, a number. A command that would put its process to sleep until another process gives a
-- buffer back has no result, `none`.
pub mod Buffer
pub mod Log
pub mod Bitmap
pub mod Recovery
mod Tests
use wei_os.Common.{ℕ, ◌+◌, ◌*◌, ◌%◌, ◌^◌, Bool, Option, none, some, List, ◌==◌, if◌then◌else◌}

-- The bytes of a block.
abbrev pub Block : Type 0
Block = List ℕ

-- `struct buf`; the three flags are B_BUSY, B_VALID and B_DIRTY.
pub record Buf : Type 0 where
  pub content : Block
  pub busy : Bool
  pub valid : Bool
  pub dirty : Bool
  pub dev : ℕ
  pub blockno : ℕ

-- `struct log_manager` with its header.
pub record LogManager : Type 0 where
  pub dev : ℕ
  pub size : ℕ
  pub start : ℕ
  pub committing : Bool
  pub n_occupiers : ℕ
  pub nblks : ℕ
  pub blks_no : List ℕ

-- The two disks, the buffers, `bcache`'s hash queues and free list, whether the slave disk exists,
-- the log and the fields of the superblock.
pub record State : Type 0 where
  pub disk : ℕ → ℕ → Block
  pub buf : ℕ → Buf
  pub hash : ℕ → List ℕ
  pub free_list : List ℕ
  pub slave : Bool
  pub log : LogManager
  pub sb_size : ℕ
  pub bitmap_start : ℕ

abbrev pub update {ℓ} : {A : Type ℓ} → (ℕ → A) → ℕ → A → ℕ → A
update f i a j = if i == j then a else f j

abbrev pub M : Type 0 → Type 0
M A = State → Option (A × State)

infixl 5 ◌>>=◌ ◌>>◌
abbrev pub ◌>>=◌ : {A B : Type 0} → M A → (A → M B) → M B
◌>>=◌ m f s = elim (m s) [ none ↦ none | some (a, s') ↦ f a s' ]

abbrev pub ◌>>◌ : {A B : Type 0} → M A → M B → M B
m >> n = m >>= λ _. n

abbrev pub pure : {A : Type 0} → A → M A
pure a s = some (a, s)

abbrev pub fssize : ℕ
fssize = 5000

abbrev pub logsize : ℕ
logsize = 120

abbrev pub maxopblocks : ℕ
maxopblocks = 40

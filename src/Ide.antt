-- ===== src/Ide.antt =====
-- The request queue of kern/ide.c. A request is a block number with the name of its buffer; the
-- first request of the queue is the one that the disk works on.
pub mod Order
mod Tests
use wei_os.Common.{
  ℕ, zero, suc, ◌+◌, ◌-◌, Bool, true, false, ◌&&◌, ◌||◌, not, List, [], ◌∷◌, ◌++◌, ◌==◌, ltb, leb,
  if◌then◌else◌,
}

pub record Request : Type 0 where
  pub blockno : ℕ
  pub buf : ℕ

-- The requests of the queue, `n_requests`, and the buffers that `ide_start` has given to the disk,
-- the last one first.
pub record IdeManager : Type 0 where
  pub ide_queue : List Request
  pub n_requests : ℕ
  pub started : List ℕ

-- The walk up: the request goes in front of the first that is behind it on the disk.
unfoldable pub insert_up : Request → List Request → List Request
insert_up b [] = b ∷ []
insert_up b (fb ∷ rest) =
    let later = insert_up b rest in if ltb b.blockno fb.blockno then b ∷ fb ∷ rest else fb ∷ later

abbrev pub reversed : List Request → List Request → List Request
reversed [] acc = acc
reversed (x ∷ xs) acc = reversed xs (x ∷ acc)

-- The walk down from the end, on the reversed queue: the request goes in front of the last request
-- that is not before it on the disk, or, without one, behind the first request.
unfoldable pub insert_down : Request → List Request → List Request
insert_down b [] = b ∷ []
insert_down b (fb ∷ []) = if leb b.blockno fb.blockno then fb ∷ b ∷ [] else b ∷ fb ∷ []
insert_down b (fb ∷ next ∷ rest) =
    let later = insert_down b (next ∷ rest) in
    if leb b.blockno fb.blockno then fb ∷ b ∷ next ∷ rest else fb ∷ later

unfoldable pub insert_request : Request → List Request → List Request
unfolding insert_up insert_down
insert_request b [] = b ∷ []
insert_request b (tb ∷ rest) =
    if ltb tb.blockno b.blockno
    then tb ∷ insert_up b rest
    else if ltb b.blockno tb.blockno
    then reversed (insert_down b (reversed (tb ∷ rest) [])) []
    else tb ∷ b ∷ rest

unfoldable pub update_idequeue : Request → IdeManager → IdeManager
unfolding insert_request
update_idequeue b m = record m {
  n_requests = m.n_requests + 1;
  ide_queue = insert_request b m.ide_queue;
}

abbrev pub fssize : ℕ
fssize = 5000

unfoldable pub ide_start : Request → IdeManager → IdeManager
ide_start b m = if leb fssize b.blockno then m else record m { started = b.buf ∷ m.started }

-- The part of `ide_read_write` under the lock, up to its sleep.
unfoldable pub submit : Request → IdeManager → IdeManager
unfolding update_idequeue ide_start
submit b m = let m' = update_idequeue b m in if m'.n_requests == 1 then ide_start b m' else m'

-- The request that `ide_intr` takes for the finished one, and what it leaves.
pub record Served : Type 0 where
  pub finished : List Request
  pub manager : IdeManager

unfoldable pub start_next : IdeManager → IdeManager
unfolding ide_start
start_next m = elim m.ide_queue [
  | [] ↦ m
  | b ∷ rest ↦ if m.n_requests == 0 then m else ide_start b m
]

unfoldable pub ide_intr : IdeManager → Served
unfolding start_next
ide_intr m = elim m.ide_queue [
  | [] ↦ record { finished = []; manager = m }
  | b ∷ rest ↦ if m.n_requests == 0 then record { finished = []; manager = m } else record {
    finished = b ∷ [];
    manager = start_next (record m { ide_queue = rest; n_requests = m.n_requests - 1 });
  }
]

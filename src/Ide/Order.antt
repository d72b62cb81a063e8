-- ===== src/Ide/Order.antt =====
-- Which requests the queue of kern/ide.c holds, and which of them is the first.
use wei_os.Common.{
  false, ℕ, ◌+◌, ◌<◌, ◌≤◌, ◌≡◌, inl, inr, refl, false, List, [], ◌∷◌, ◌==◌, ltb, if◌then◌else◌,
  arith, Bool-cases, length,
}
use wei_os.Ide.{
  Request, IdeManager, insert_up, insert_down, insert_request, reversed, update_idequeue, submit,
  ide_start, ide_intr, start_next,
}

-- How many requests of the queue are for a buffer.
abbrev pub requests : ℕ → List Request → ℕ
requests k [] = 0
requests k (x ∷ xs) = (if x.buf == k then 1 else 0) + requests k xs

insert_up-requests :
    (k : ℕ) (b : Request) (q : List Request)
    → (requests k (insert_up b q) ≡ requests k (b ∷ q)) × (length (insert_up b q) ≡ length q + 1)
unfolding insert_up
insert_up-requests k b [] = (refl, omega arith)
insert_up-requests k b (x ∷ q) = let rest = insert_up-requests k b q in (ground arith, ground arith)

insert_down-requests :
    (k : ℕ) (b : Request) (q : List Request)
    → (requests k (insert_down b q) ≡ requests k (b ∷ q))
      × (length (insert_down b q) ≡ length q + 1)
unfolding insert_down
insert_down-requests k b [] = (refl, omega arith)
insert_down-requests k b (x ∷ []) = (ground arith, ground arith)
insert_down-requests k b (x ∷ y ∷ q) =
    let rest = insert_down-requests k b (y ∷ q) in (ground arith, ground arith)

reversed-requests :
    (k : ℕ) (q acc : List Request)
    → (requests k (reversed q acc) ≡ requests k q + requests k acc)
      × (length (reversed q acc) ≡ length q + length acc)
reversed-requests k [] acc = (omega arith, omega arith)
reversed-requests k (x ∷ q) acc =
    let rest = reversed-requests k q (x ∷ acc) in (omega arith, omega arith)

-- A request that is put into the queue is in it once more, and no request of the queue is lost.
insert_request-requests :
    (k : ℕ) (b : Request) (q : List Request)
    → (requests k (insert_request b q) ≡ requests k (b ∷ q))
      × (length (insert_request b q) ≡ length q + 1)
unfolding insert_request
insert_request-requests k b [] = (refl, omega arith)
insert_request-requests k b (tb ∷ rest) =
    let up = insert_up-requests k b rest in
    let back = reversed-requests k (tb ∷ rest) [] in
    let down = insert_down-requests k b (reversed (tb ∷ rest) []) in
    let again = reversed-requests k (insert_down b (reversed (tb ∷ rest) [])) [] in
    (ground arith, ground arith)

-- A submitted request is in the queue once more, every other request is in it as often as before, and
-- the queue stays counted.
pub submit-requests :
    (k : ℕ) (b : Request) (m : IdeManager)
    → m.n_requests ≡ length m.ide_queue
    → (requests k (submit b m).ide_queue ≡ requests k m.ide_queue + (if b.buf == k then 1 else 0))
      × ((submit b m).n_requests ≡ length (submit b m).ide_queue)
unfolding submit update_idequeue ide_start
submit-requests k b m h =
    let put = insert_request-requests k b m.ide_queue in (ground arith, ground arith)

-- A manager with these requests.
abbrev pub queued : List Request → ℕ → List ℕ → IdeManager
queued q n started = record { ide_queue = q; n_requests = n; started = started }

ide_intr-finished :
    (m : IdeManager) (b : Request) (rest : List Request)
    → m.ide_queue ≡ b ∷ rest
    → 0 < m.n_requests
    → (ide_intr m).finished ≡ b ∷ []
unfolding ide_intr
ide_intr-finished m b rest q h =
    let some_left : (m.n_requests == 0) ≡ false = ground arith in rw (ide_intr, q, some_left) refl

-- A request for a block that is not before the first request's leaves the first request in its place:
-- the next interrupt is taken for that one.
pub submit-ide_intr_first :
    (b tb : Request) (rest : List Request) (n : ℕ) (started : List ℕ)
    → tb.blockno ≤ b.blockno
    → (ide_intr (submit b (queued (tb ∷ rest) n started))).finished ≡ tb ∷ []
unfolding submit update_idequeue ide_start ide_intr insert_request
submit-ide_intr_first b tb rest n started h = elim (Bool-cases (ltb tb.blockno b.blockno)) [
  | inl behind ↦
      let put : insert_request b (tb ∷ rest) ≡ tb ∷ insert_up b rest = ground arith in
      first_after b tb (insert_up b rest) (tb ∷ rest) n started put
  | inr level ↦
      let put : insert_request b (tb ∷ rest) ≡ tb ∷ b ∷ rest = ground arith in
      first_after b tb (b ∷ rest) (tb ∷ rest) n started put
]
  where
    first_after :
        (b tb : Request) (after q : List Request) (n : ℕ) (started : List ℕ)
        → insert_request b q ≡ tb ∷ after
        → (ide_intr (submit b (queued q n started))).finished ≡ tb ∷ []
    first_after b tb after q n started e =
        let m = submit b (queued q n started) in
        let front : m.ide_queue ≡ tb ∷ after = ground arith in
        let some_left : m.n_requests ≡ n + 1 = ground arith in
        ide_intr-finished m tb after front (ground arith)

-- When the disk works on the only request of the queue and a request for an earlier block comes, the
-- next interrupt, which is for the former, is taken for the latter, and the disk is then started for
-- the former a second time.
pub submit-ide_intr_swaps :
    (b tb : Request) (started : List ℕ)
    → b.blockno < tb.blockno
    → tb.blockno < 5000
    → ((submit b (queued (tb ∷ []) 1 started)).started ≡ started)
      × ((ide_intr (submit b (queued (tb ∷ []) 1 started))).finished ≡ b ∷ [])
      × ((ide_intr (submit b (queued (tb ∷ []) 1 started))).manager.started ≡ tb.buf ∷ started)
unfolding submit update_idequeue ide_start ide_intr insert_request insert_down start_next
submit-ide_intr_swaps b tb started h g =
    let put : insert_request b (tb ∷ []) ≡ b ∷ tb ∷ [] = ground arith in
    let run : submit b (queued (tb ∷ []) 1 started) ≡ queued (b ∷ tb ∷ []) 2 started =
      rw (submit, put) refl in
    rw run (refl, refl, ground arith)

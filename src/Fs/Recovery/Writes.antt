-- ===== src/Fs/Recovery/Writes.antt =====
-- The writes of a commit of kern/log.c, and what recovery makes of a disk that holds a whole log.
use wei_os.Fs.Recovery.Header.{read_log_header-header_block, all_words, all_words}
use wei_os.Common.{
  ◌≢◌, zero, ap, inr, suc, false, take, ◌||◌, ℕ, ◌+◌, ◌<◌, ◌≤◌, ◌≡◌, ◌∙◌, ◌⊎◌, inl, refl, Bool,
  true, List, [], ◌∷◌, ◌++◌, ◌&&◌, ltb, if◌then◌else◌, arith, length, has,
}
use wei_os.Fs.{Block, update}
use wei_os.Fs.Recovery.{
  read_log_header, header_block, write_log_blk, recover_from_log, Disk, run_writes, log_writes,
  home_writes, reinstall,
}

pub run_writes-append :
    (xs ys : List (ℕ × Block)) (d : Disk)
    → run_writes (xs ++ ys) d ≡ run_writes ys (run_writes xs d)
run_writes-append [] ys d = refl
run_writes-append (x ∷ xs) ys d = run_writes-append xs ys (update d x.0 x.1)

-- Home writes of any length: each logged block has its new content, every other block its old one.
pub run_writes-home_writes :
    (nos : List ℕ) (cached : ℕ → Block) (d : Disk) (j : ℕ)
    → run_writes (home_writes nos cached) d j ≡ (if has j nos then cached j else d j)
unfolding home_writes
run_writes-home_writes [] cached d j = refl
run_writes-home_writes (n ∷ nos) cached d j =
    ground (arith, run_writes-home_writes nos cached (update d n (cached n)) j)

run_writes-log_writes :
    (start i : ℕ) (nos : List ℕ) (cached : ℕ → Block) (d : Disk) (j : ℕ)
    → (j < start + i + 1) ⊎ (start + i + length nos < j)
    → run_writes (log_writes start i nos cached) d j ≡ d j
unfolding log_writes
run_writes-log_writes start i [] cached d j h = refl
run_writes-log_writes start i (n ∷ nos) cached d j h =
    let rest =
      run_writes-log_writes start (i + 1) nos cached (update d (start + i + 1) (cached n)) j
        (ground arith) in
    ground arith

-- No block of the log and of its header is among these.
abbrev pub apart : ℕ → ℕ → List ℕ → Bool
apart start room [] = true
apart start room (n ∷ nos) = (ltb n start || ltb (start + room) n) && apart start room nos

-- The log area from its block `i` on holds the content of the blocks.
abbrev pub Logged : ℕ → ℕ → List ℕ → (ℕ → Block) → Disk → Type 0
Logged start i [] cached d = start ≡ start
Logged start i (n ∷ nos) cached d =
    (d (start + i + 1) ≡ cached n) × Logged start (i + 1) nos cached d

pub log_writes-Logged :
    (start i : ℕ) (nos : List ℕ) (cached : ℕ → Block) (d : Disk)
    → Logged start i nos cached (run_writes (log_writes start i nos cached) d)
unfolding log_writes
log_writes-Logged start i [] cached d = refl
log_writes-Logged start i (n ∷ nos) cached d =
    let kept =
      run_writes-log_writes start (i + 1) nos cached (update d (start + i + 1) (cached n))
        (start + i + 1) (inl (omega arith)) in
    (
      kept ∙ ground arith,
      log_writes-Logged start (i + 1) nos cached (update d (start + i + 1) (cached n)),
    )

-- What the log area holds goes home as the cached content.
reinstall-home_writes :
    (start i : ℕ) (nos : List ℕ) (cached : ℕ → Block) (d : Disk)
    → Logged start i nos cached d
    → reinstall start i nos d ≡ home_writes nos cached
unfolding reinstall home_writes
reinstall-home_writes start i [] cached d h = refl
reinstall-home_writes start i (n ∷ nos) cached d (here, rest) =
    rw (here, reinstall-home_writes start (i + 1) nos cached d rest) refl

-- Writes outside of the log area keep it.
pub Logged-other :
    (start i room : ℕ) (nos : List ℕ) (cached : ℕ → Block) (d d' : Disk)
    → i + length nos ≤ room
    → ((j : ℕ) → (j < start + 1) ⊎ (start + room < j) ⊎ (d' j ≡ d j))
    → Logged start i nos cached d
    → Logged start i nos cached d'
Logged-other start i room [] cached d d' h same l = refl
Logged-other start i room (n ∷ nos) cached d d' h same (here, rest) =
    let kept = same (start + i + 1) in
    (ground arith, Logged-other start (i + 1) room nos cached d d' (omega arith) same rest)

pub recover_from_log_lem :
    (start : ℕ) (nos : List ℕ) (cached : ℕ → Block) (old : Block) (d : Disk) (j : ℕ)
    → length nos < 4294967296
    → all_words nos ≡ true
    → d start ≡ header_block nos old
    → Logged start 0 nos cached d
    → j ≢ start
    → recover_from_log start d j ≡ (if has j nos then cached j else d j)
unfolding recover_from_log
recover_from_log_lem start nos cached old d j small words header l other =
    let names = ap read_log_header header ∙ read_log_header-header_block nos old small words in
    let homes = reinstall-home_writes start 0 nos cached d l in
    let result = run_writes-home_writes nos cached d j in
    let writes : reinstall start 0 (read_log_header (d start)) d ≡ home_writes nos cached =
      rw names homes in
    let installed = ap (λ ws. run_writes ws d j) writes ∙ result in ground arith

pub take-home_writes :
    (k : ℕ) (nos : List ℕ) (cached : ℕ → Block) (rest : List (ℕ × Block))
    → k ≤ length nos
    → take k (home_writes nos cached ++ rest) ≡ home_writes (take k nos) cached
unfolding home_writes
take-home_writes zero nos cached rest h = refl
take-home_writes (suc k) [] cached rest h = absurd (omega arith)
take-home_writes (suc k) (n ∷ nos) cached rest h =
    ap (λ ws. (n, cached n) ∷ ws) (take-home_writes k nos cached rest (omega arith))

pub take_all :
    (k : ℕ) (nos : List ℕ) (cached : ℕ → Block) (w : ℕ × Block)
    → length nos < k
    → take k (home_writes nos cached ++ (w ∷ [])) ≡ home_writes nos cached ++ (w ∷ [])
unfolding home_writes
take_all zero nos cached w h = absurd (omega arith)
take_all (suc zero) [] cached w h = refl
take_all (suc (suc k)) [] cached w h = refl
take_all (suc k) (n ∷ nos) cached w h =
    ap (λ ws. (n, cached n) ∷ ws) (take_all k nos cached w (omega arith))

pub has-take : (k j : ℕ) (nos : List ℕ) → has j (take k nos) ≡ true → has j nos ≡ true
has-take zero j nos h = absurd (cc)
has-take (suc k) j [] h = h
has-take (suc k) j (n ∷ nos) h = ground (arith, has-take k j nos)

pub has-apart :
    (start room j : ℕ) (nos : List ℕ)
    → apart start room nos ≡ true
    → (j < start) ⊎ (start + room < j) ⊎ (has j nos ≡ false)
has-apart start room j [] h = inr (inr refl)
has-apart start room j (n ∷ nos) h = let rest = has-apart start room j nos in ground arith

-- The transaction and the place of its log: it has some blocks, none of them in the log area, and
-- its numbers are 32-bit words.
pub record IsCommit (start : ℕ) (nos : List ℕ) : Type 0 where
  pub small : length nos < 4294967296
  pub words : all_words nos ≡ true
  pub elsewhere : apart start (length nos) nos ≡ true

-- The disk once the header is written.
abbrev pub logged_disk : ℕ → List ℕ → (ℕ → Block) → Disk → Disk
logged_disk start nos cached d =
    update (run_writes (write_log_blk start nos cached) d) start (header_block nos (d start))

pub logged_disk-Logged :
    (start : ℕ) (nos : List ℕ) (cached : ℕ → Block) (d : Disk)
    → Logged start 0 nos cached (logged_disk start nos cached d)
unfolding write_log_blk
logged_disk-Logged start nos cached d =
    let d0 = run_writes (home_writes nos cached) d in
    let d1 = run_writes (log_writes start 0 nos cached) d0 in
    let all = run_writes-append (home_writes nos cached) (log_writes start 0 nos cached) d in
    rw all (
      Logged-other start 0 (length nos) nos cached d1 (update d1 start (header_block nos (d start)))
        (omega arith) (λ j. ground arith) (log_writes-Logged start 0 nos cached d0))

-- Outside of the log the logged blocks have their new content by then, the others their old one.
pub logged_disk_lem :
    (start : ℕ) (nos : List ℕ) (cached : ℕ → Block) (d : Disk) (j : ℕ)
    → (j < start) ⊎ (start + length nos < j)
    → logged_disk start nos cached d j ≡ (if has j nos then cached j else d j)
unfolding write_log_blk
logged_disk_lem start nos cached d j h =
    let d0 = run_writes (home_writes nos cached) d in
    let all =
      ap (λ (e : Disk). e j)
        (run_writes-append (home_writes nos cached) (log_writes start 0 nos cached) d) in
    let logs = run_writes-log_writes start 0 nos cached d0 j (ground arith) in
    let homes = run_writes-home_writes nos cached d j in ground arith

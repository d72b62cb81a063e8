-- ===== src/Fs/Recovery/Crash.antt =====
-- A crash during the commit of kern/log.c, and the recovery after it.
use wei_os.Fs.Recovery.Writes.{
  run_writes-append, take_all, logged_disk_lem, recover_from_log_lem, logged_disk-Logged,
  Logged-other, Logged, has-take, has-apart, run_writes-home_writes, take-home_writes, IsCommit,
  logged_disk,
}
use wei_os.Common.{
  refl, inr, ◌∙◌, inl, ◌≢◌, leb, ◌++◌, Bool-cases, ap, arith, ◌∷◌, [], ◌≡◌, ◌+◌, ◌⊎◌, ◌<◌, length,
  ◌≤◌, has, take,
}
use wei_os.Fs.Recovery.{
  log_writes, write_log_blk, home_writes, recover_from_log, header_block, run_writes, Disk, install,
}
use wei_os.Fs.{if◌then◌else◌, List, ℕ, Block}

-- The disk when a crash keeps only `k` writes of those that follow the header.
abbrev pub crashed : ℕ → ℕ → List ℕ → (ℕ → Block) → Disk → Disk
crashed k start nos cached d =
    run_writes (take k (install start nos cached (header_block nos (d start))))
      (logged_disk start nos cached d)

-- The state of all blocks outside of the log once the transaction is complete.
abbrev pub committed_block : List ℕ → (ℕ → Block) → Disk → ℕ → Block
committed_block nos cached d j = if has j nos then cached j else d j

crash_in_homes :
    (k start : ℕ) (nos : List ℕ) (cached : ℕ → Block) (d : Disk) (j : ℕ)
    → IsCommit start nos
    → k ≤ length nos
    → (j < start) ⊎ (start + length nos < j)
    → recover_from_log start (crashed k start nos cached d) j ≡ committed_block nos cached d j
unfolding install
crash_in_homes k start nos cached d j c h out =
    let header = header_block nos (d start) in
    let d1 = logged_disk start nos cached d in
    let d2 = run_writes (home_writes (take k nos) cached) d1 in
    let writes = take-home_writes k nos cached ((start, header_block [] header) ∷ []) h in
    let value = λ (i : ℕ). run_writes-home_writes (take k nos) cached d1 i in
    let in_log : (i : ℕ) → (i < start) ⊎ (start + length nos < i) ⊎ (d2 i ≡ d1 i) = λ i.
      let v = value i in
      let a = has-apart start (length nos) i nos c.elsewhere in
      let t = has-take k i nos in ground arith in
    let here = in_log start in
    let header_kept : d2 start ≡ header = ground arith in
    let log_kept : Logged start 0 nos cached d2 =
      Logged-other start 0 (length nos) nos cached d1 d2 (omega arith)
        (λ i. let q = in_log i in ground arith) (logged_disk-Logged start nos cached d) in
    let after =
      recover_from_log_lem start nos cached (d start) d2 j c.small c.words header_kept log_kept
        (λ e. ground arith) in
    let before = logged_disk_lem start nos cached d j out in
    let v = value j in
    let t = has-take k j nos in
    let all = ap (λ ws. recover_from_log start (run_writes ws d1) j) writes in ground arith

crash_at_end :
    (k start : ℕ) (nos : List ℕ) (cached : ℕ → Block) (d : Disk) (j : ℕ)
    → length nos < k
    → (j < start) ⊎ (start + length nos < j)
    → recover_from_log start (crashed k start nos cached d) j ≡ committed_block nos cached d j
unfolding install
crash_at_end k start nos cached d j h out =
    let header = header_block nos (d start) in
    let d1 = logged_disk start nos cached d in
    let writes = take_all k nos cached (start, header_block [] header) h in
    let d2 = run_writes (home_writes nos cached ++ ((start, header_block [] header) ∷ [])) d1 in
    let split =
      run_writes-append (home_writes nos cached) ((start, header_block [] header) ∷ []) d1 in
    let cleared : d2 start ≡ header_block [] header =
      ap (λ (e : Disk). e start) split ∙ ground arith in
    let after =
      recover_from_log_lem start [] cached header d2 j (omega arith) refl cleared refl
        (λ e. ground arith) in
    let same : d2 j ≡ run_writes (home_writes nos cached) d1 j =
      ap (λ (e : Disk). e j) split ∙ ground arith in
    let homes = run_writes-home_writes nos cached d1 j in
    let before = logged_disk_lem start nos cached d j out in
    let all = ap (λ ws. recover_from_log start (run_writes ws d1) j) writes in ground arith

-- Once the commit of kern/log.c has written its header, a crash after any number of its further
-- writes loses nothing: recovery gives every logged block its new content and leaves every other
-- block outside of the log as it was before the commit.
pub crashed-recover_from_log :
    (k start : ℕ) (nos : List ℕ) (cached : ℕ → Block) (d : Disk) (j : ℕ)
    → IsCommit start nos
    → (j < start) ⊎ (start + length nos < j)
    → recover_from_log start (crashed k start nos cached d) j ≡ committed_block nos cached d j
crashed-recover_from_log k start nos cached d j c out = elim (Bool-cases (leb k (length nos))) [
  | inl early ↦ crash_in_homes k start nos cached d j c (ground arith) out
  | inr late ↦ crash_at_end k start nos cached d j (ground arith) out
]

-- A crash after `m` of the writes that `write_log_blk` makes before the header leaves a part of the
-- transaction behind, although the log on the disk is empty: after recovery the first `m` of the
-- logged blocks have their new content and all other blocks but the log's header their old one.
pub write_log_blk-recover_from_log :
    (m start : ℕ) (nos : List ℕ) (cached : ℕ → Block) (old : Block) (d : Disk) (j : ℕ)
    → IsCommit start nos
    → d start ≡ header_block [] old
    → m ≤ length nos
    → j ≢ start
    → recover_from_log start (run_writes (take m (write_log_blk start nos cached)) d) j
      ≡ (if has j (take m nos) then cached j else d j)
unfolding write_log_blk
write_log_blk-recover_from_log m start nos cached old d j c empty h other =
    let d' = run_writes (home_writes (take m nos) cached) d in
    let writes = take-home_writes m nos cached (log_writes start 0 nos cached) h in
    let first = run_writes-home_writes (take m nos) cached d start in
    let inside = has-take m start nos in
    let outside = has-apart start (length nos) start nos c.elsewhere in
    let still : d' start ≡ header_block [] old = ground arith in
    let after = recover_from_log_lem start [] cached old d' j (omega arith) refl still refl other in
    let value = run_writes-home_writes (take m nos) cached d j in
    let all = ap (λ ws. recover_from_log start (run_writes ws d) j) writes in ground arith

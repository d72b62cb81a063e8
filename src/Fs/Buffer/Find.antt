-- ===== src/Fs/Buffer/Find.antt =====
-- `getblk` of kern/bio.c: which buffer it returns, and in which state.
use wei_os.Common.{
  has, false, ◌∙◌, ap, unlink, ℕ, ◌≡◌, inl, inr, refl, sym, true, none, some, List, [], ◌∷◌, ◌==◌,
  arith, not, ◌&&◌, Bool-cases, Option-cases, List-cases,
}
use wei_os.Fs.{State}
use wei_os.Fs.Buffer.{
  find_in_queue, find_blk_in_hash, put_blk_in_hash, getblk_hit, getblk_miss, getblk, set_buf,
  hash_func,
}

-- No buffer of device 0 is ever found in a hash queue, whatever the queue holds: the test of the
-- walk assigns the device, and the value of the assignment is then 0.
pub find_blk_in_hash-zero : (n : ℕ) (s : State) → (find_blk_in_hash 0 n s).0 ≡ none
unfolding find_blk_in_hash find_in_queue
find_blk_in_hash-zero n s = walk (s.hash (hash_func 0 n)) s
  where
    walk : (bs : List ℕ) (s : State) → (find_in_queue bs 0 n s).0 ≡ none
    walk [] s = refl
    walk (b ∷ bs) s = walk bs _

-- Buffer `b` belongs to the block.
pub record Holds (b dev n : ℕ) (s : State) : Type 0 where
  pub of_dev : (s.buf b).dev ≡ dev
  pub of_block : (s.buf b).blockno ≡ n

find_in_queue-Holds :
    (bs : List ℕ) (b dev n : ℕ) (s s' : State)
    → find_in_queue bs dev n s ≡ (some b, s')
    → Holds b dev n s'
unfolding find_in_queue
find_in_queue-Holds [] b dev n s s' e = absurd (ground arith)
find_in_queue-Holds (c ∷ bs) b dev n s s' e =
    elim (Bool-cases (not (dev == 0) && (s.buf c).blockno == n)) [
      | inl hit ↦
          let same : c ≡ b = ground arith in
          let after : set_buf c (record (s.buf c) { dev = dev }) s ≡ s' = ground arith in
          rw (sym same, sym after) (record { of_dev = ground arith; of_block = ground arith })
      | inr miss ↦
          find_in_queue-Holds bs b dev n (set_buf c (record (s.buf c) { dev = dev }) s) s'
            (ground arith)
    ]

-- What the caller of `getblk` gets.
pub record Locked (b dev n : ℕ) (s : State) : Type 0 where
  pub busy : (s.buf b).busy ≡ true
  pub holds : Holds b dev n s

getblk_hit-Locked :
    (c b dev n : ℕ) (s s' : State)
    → Holds c dev n s
    → getblk_hit c s ≡ some (b, s')
    → Locked b dev n s'
unfolding getblk_hit
getblk_hit-Locked c b dev n s s' h e = elim (Bool-cases (s.buf c).busy) [
  | inl taken ↦ absurd (ground arith)
  | inr idle ↦
      let same : c ≡ b = ground arith in
      let after : record (set_buf c (record (s.buf c) { busy = true }) s) {
        free_list = unlink c s.free_list;
      }
          ≡ s' =
        ground arith in
      let of_dev = h.of_dev in
      let of_block = h.of_block in
      rw (sym same, sym after)
        (record {
          busy = ground arith;
          holds = record { of_dev = ground arith; of_block = ground arith };
        })
]

getblk_miss-Locked :
    (b dev n : ℕ) (s s' : State) → getblk_miss dev n s ≡ some (b, s') → Locked b dev n s'
unfolding getblk_miss put_blk_in_hash
getblk_miss-Locked b dev n s s' e = elim (List-cases s.free_list) [
  | inl empty ↦ absurd (ground arith)
  | inr (c, rest, full) ↦
      let got = rw full at e in
      let same : c ≡ b = ap (λ o. elim o [ none ↦ c | some x ↦ x.0 ]) got in
      let after = ap (λ o. elim o [ none ↦ s | some x ↦ x.1 ]) got in
      rw (sym same, sym after)
        (record {
          busy = ground arith;
          holds = record { of_dev = ground arith; of_block = ground arith };
        })
]

-- The walk along a hash queue locks and frees nothing.
find_in_queue-busy :
    (bs : List ℕ) (dev n c : ℕ) (s : State)
    → (((find_in_queue bs dev n s).1.buf c).busy ≡ (s.buf c).busy)
      × ((find_in_queue bs dev n s).1.free_list ≡ s.free_list)
unfolding find_in_queue
find_in_queue-busy [] dev n c s = (refl, refl)
find_in_queue-busy (b ∷ bs) dev n c s =
    let s' = set_buf b (record (s.buf b) { dev = dev }) s in
    let kept : (s'.buf c).busy ≡ (s.buf c).busy = ground arith in
    let (busy, free) = find_in_queue-busy bs dev n c s' in
    elim (Bool-cases (not (dev == 0) && (s.buf b).blockno == n)) [
      | inl hit ↦ rw hit (kept, refl)
      | inr miss ↦ rw miss (busy ∙ kept, free)
    ]

getblk_hit_idle : (c b : ℕ) (s s' : State) → getblk_hit c s ≡ some (b, s') → (s.buf b).busy ≡ false
unfolding getblk_hit
getblk_hit_idle c b s s' e = elim (Bool-cases (s.buf c).busy) [
  | inl taken ↦ absurd (ground arith)
  | inr idle ↦ let same : c ≡ b = ground arith in ap (λ i. (s.buf i).busy) (sym same) ∙ idle
]

getblk_miss_free :
    (b dev n : ℕ) (s s' : State) → getblk_miss dev n s ≡ some (b, s') → has b s.free_list ≡ true
unfolding getblk_miss
getblk_miss_free b dev n s s' e = elim (List-cases s.free_list) [
  | inl empty ↦ absurd (ground arith)
  | inr (c, rest, full) ↦
      let got = rw full at e in
      let same : c ≡ b = ap (λ o. elim o [ none ↦ c | some x ↦ x.0 ]) got in
      rw full (ground (arith, same))
]

-- A buffer that `getblk` returns was not locked (B_BUSY) before and is locked afterwards;
-- it stands for the wanted device and block, whether a hash queue led to it or the oldest free buffer
-- was taken over; the theorem assumes that no free buffer is locked.
pub getblk-Locked :
    (b dev n : ℕ) (s s' : State)
    → ((c : ℕ) → has c s.free_list ≡ true → (s.buf c).busy ≡ false)
    → getblk dev n s ≡ some (b, s')
    → ((s.buf b).busy ≡ false) × Locked b dev n s'
unfolding getblk find_blk_in_hash
getblk-Locked b dev n s s' idle e =
    let chain = s.hash (hash_func dev n) in
    let (kept, free) = find_in_queue-busy chain dev n b s in
    elim (Option-cases (find_blk_in_hash dev n s).0) [
      | inl nothing ↦
          let run : getblk_miss dev n (find_blk_in_hash dev n s).1 ≡ some (b, s') = ground arith in
          let there = getblk_miss_free b dev n (find_blk_in_hash dev n s).1 s' run in
          (
            idle b (ap (has b) (sym free) ∙ there),
            getblk_miss-Locked b dev n (find_blk_in_hash dev n s).1 s' run,
          )
      | inr (c, found) ↦
          let held =
            find_in_queue-Holds chain c dev n s (find_blk_in_hash dev n s).1 (ground arith) in
          let run : getblk_hit c (find_blk_in_hash dev n s).1 ≡ some (b, s') = ground arith in
          (
            sym kept ∙ getblk_hit_idle c b (find_blk_in_hash dev n s).1 s' run,
            getblk_hit-Locked c b dev n (find_blk_in_hash dev n s).1 s' held run,
          )
    ]

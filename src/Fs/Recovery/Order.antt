-- ===== src/Fs/Recovery/Order.antt =====
-- Recovery of a logged transaction whose blocks go home in any order.
use wei_os.Fs.Recovery.Writes.{recover_from_log_lem, Logged-other, has-apart, Logged, IsCommit}
use wei_os.Fs.Recovery.{Disk, run_writes, header_block, recover_from_log}
use wei_os.Fs.{Block, update}
use wei_os.Common.{
  sym, ap, arith, ◌≢◌, ◌∙◌, if◌then◌else◌, ◌==◌, length, Bool-cases, ◌+◌, inr, ◌<◌, inl, [], true,
  ◌⊎◌, has, ◌≡◌, ◌∷◌, ℕ, List, refl,
}

-- Each write is the home write of a logged block.
abbrev pub AreHome : List ℕ → (ℕ → Block) → List (ℕ × Block) → Type 0
AreHome nos cached [] = Unit
AreHome nos cached (w ∷ ws) = (has w.0 nos ≡ true) × (w.1 ≡ cached w.0) × AreHome nos cached ws

-- Home writes change logged blocks only, and give them their new content.
run_writes-AreHome :
    (ws : List (ℕ × Block)) (nos : List ℕ) (cached : ℕ → Block) (d : Disk) (j : ℕ)
    → AreHome nos cached ws
    → (run_writes ws d j ≡ d j) ⊎ ((has j nos ≡ true) × (run_writes ws d j ≡ cached j))
run_writes-AreHome [] nos cached d j h = inl refl
run_writes-AreHome ((n, c) ∷ ws) nos cached d j (inside, new, h) =
    elim (run_writes-AreHome ws nos cached (update d n c) j h) [
      | inr later ↦ inr later
      | inl kept ↦ elim (Bool-cases (n == j)) [
        | inr other ↦ inl (kept ∙ rw other refl)
        | inl same ↦
            let is : n ≡ j = ground arith in
            inr (ap (λ i. has i nos) (sym is) ∙ inside, kept ∙ rw same (new ∙ ap cached is))
      ]
    ]

-- A disk holds the header of a transaction and the new content of its blocks in the log area, and in
-- their home places anything. A crash after any of the home writes, in any order and as often as there
-- are, loses nothing: recovery gives every logged block its new content and leaves every other block
-- outside of the log. Once all blocks are home and the header is cleared, recovery changes no block
-- outside of the header.
pub run_writes-recover_from_log :
    (start : ℕ) (nos : List ℕ) (cached : ℕ → Block) (old : Block) (ws : List (ℕ × Block)) (d : Disk)
    → IsCommit start nos
    → d start ≡ header_block nos old
    → Logged start 0 nos cached d
    → AreHome nos cached ws
    → ((j : ℕ)
        → (j < start) ⊎ (start + length nos < j)
        → recover_from_log start (run_writes ws d) j ≡ (if has j nos then cached j else d j))
      × ((j : ℕ)
          → j ≢ start
          → recover_from_log start (update (run_writes ws d) start (header_block [] (d start))) j
            ≡ run_writes ws d j)
run_writes-recover_from_log start nos cached old ws d c header logged homes =
    let d' = run_writes ws d in
    let value = λ (i : ℕ). run_writes-AreHome ws nos cached d i homes in
    let log_kept : (i : ℕ) → (i < start) ⊎ (start + length nos < i) ⊎ (d' i ≡ d i) =
      λ i. ground (arith, value i, has-apart start (length nos) i nos c.elsewhere) in
    let header_kept : d' start ≡ d start = ground (arith, log_kept start) in
    let logged' : Logged start 0 nos cached d' =
      Logged-other start 0 (length nos) nos cached d d' (omega arith)
        (λ i. ground (arith, log_kept i)) logged in
    (
      (λ j out.
          let after =
            recover_from_log_lem start nos cached old d' j c.small c.words (header_kept ∙ header)
              logged' (λ e. ground arith) in
          ground (arith, after, value j)),
      (λ j other.
          let d'' = update d' start (header_block [] (d start)) in
          let cleared : d'' start ≡ header_block [] (d start) = ground arith in
          let kept : d'' j ≡ d' j = ground arith in
          recover_from_log_lem start [] cached (d start) d'' j (omega arith) refl cleared refl other
          ∙ kept),
    )

-- ===== src/Fs/Log/Write.antt =====
-- `log_write` of kern/log.c: the blocks that the log names.
use mathlib.Core.Path.{subst}
use wei_os.Common.{
  nodup-append_one, ◌∙◌, ℕ, zero, suc, ◌+◌, ◌≤◌, ◌<◌, ◌≡◌, ◌≢◌, ◌⊎◌, inl, inr, refl, sym, ap, true,
  false, some, List, [], ◌∷◌, ◌++◌, if◌then◌else◌, get_or, set, take, length, has, nodup, arith,
  length-set, set-get_or,
}
use wei_os.Fs.{LogManager, logsize}
use wei_os.Fs.Log.{log_index, log_block}

-- The blocks that the log names.
abbrev pub logged : LogManager → List ℕ
logged l = take l.nblks l.blks_no

pub record IsValid (l : LogManager) : Type 0 where
  pub room : length l.blks_no ≡ logsize
  pub bound : l.nblks ≤ logsize
  pub once : nodup (logged l) ≡ true

log_index_lem :
    (k i n : ℕ) (nos : List ℕ)
    → (log_index k i n nos ≡ i + k)
      ⊎ ((log_index k i n nos < i + k) × (get_or nos (log_index k i n nos) 0 ≡ n))
unfolding log_index
log_index_lem zero i n nos = inl (omega arith)
log_index_lem (suc k) i n nos = let rest = log_index_lem k (i + 1) n nos in ground arith

log_index-absent :
    (k i j n : ℕ) (nos : List ℕ)
    → log_index k i n nos ≡ i + k
    → i ≤ j
    → j < i + k
    → get_or nos j 0 ≢ n
unfolding log_index
log_index-absent zero i j n nos e h g = absurd (omega arith)
log_index-absent (suc k) i j n nos e h g =
    let rest = log_index-absent k (i + 1) j n nos in
    let bounds = log_index_lem k (i + 1) n nos in ground arith

has-take-some :
    (m r n : ℕ) (nos : List ℕ)
    → r < m
    → m ≤ length nos
    → get_or nos r 0 ≡ n
    → has n (take m nos) ≡ true
has-take-some zero r n nos h g e = absurd (omega arith)
has-take-some (suc m) r n [] h g e = absurd (omega arith)
has-take-some (suc m) zero n (x ∷ nos) h g e = ground arith
has-take-some (suc m) (suc r) n (x ∷ nos) h g e =
    ground (arith, has-take-some m r n nos (omega arith) (omega arith) e)

has-take-none :
    (m n : ℕ) (nos : List ℕ) → ((j : ℕ) → j < m → get_or nos j 0 ≢ n) → has n (take m nos) ≡ false
has-take-none zero n nos h = refl
has-take-none (suc m) n [] h = refl
has-take-none (suc m) n (x ∷ nos) h =
    let first = h 0 (omega arith) in
    ground (arith, has-take-none m n nos (λ j g. h (suc j) (omega arith)))

take-set_next :
    (m n : ℕ) (nos : List ℕ) → m < length nos → take (suc m) (set nos m n) ≡ take m nos ++ (n ∷ [])
take-set_next zero n [] h = absurd (omega arith)
take-set_next zero n (x ∷ nos) h = refl
take-set_next (suc m) n [] h = absurd (omega arith)
take-set_next (suc m) n (x ∷ nos) h = ap (λ l. x ∷ l) (take-set_next m n nos (omega arith))

-- What `log_write` makes of a log that it accepts a block for.
pub record Logged (n : ℕ) (l l' : LogManager) : Type 0 where
  pub stays : IsValid l'
  pub blocks : logged l' ≡ (if has n (logged l) then logged l else logged l ++ (n ∷ []))
  pub grows : l'.nblks ≤ l.nblks + 1

log_again :
    (n : ℕ) (l : LogManager) (i : ℕ)
    → IsValid l
    → i < l.nblks
    → get_or l.blks_no i 0 ≡ n
    → Logged n l (record l { blks_no = set l.blks_no i n })
log_again n l i v h e =
    let known = has-take-some l.nblks i n l.blks_no h (omega (arith, v.room, v.bound)) e in
    let same : set l.blks_no i n ≡ l.blks_no =
      ap (set l.blks_no i) (sym e) ∙ set-get_or l.blks_no i 0 in
    record { stays = rw same v; blocks = rw (same, known) refl; grows = omega arith }

log_new :
    (n : ℕ) (l : LogManager)
    → IsValid l
    → l.nblks < logsize
    → has n (logged l) ≡ false
    → Logged n l (record l { blks_no = set l.blks_no l.nblks n; nblks = l.nblks + 1 })
log_new n l v h e =
    let next : l.nblks + 1 ≡ suc l.nblks = omega arith in
    let grown = take-set_next l.nblks n l.blks_no (omega (arith, v.room)) in
    record {
      stays = record {
        room = length-set l.blks_no l.nblks n ∙ v.room;
        bound = omega arith;
        once = rw (next, grown) (nodup-append_one n (logged l) v.once e);
      };
      blocks = rw (next, grown, e) refl;
      grows = omega arith;
    }

-- When `log_write` takes a block, the log stays well formed: no more than LOGSIZE blocks, each of
-- them once. It names the blocks that it named before, in their order, and a block that it did not
-- name yet at the end; a block that it named already is absorbed.
pub log_block-Logged :
    (n : ℕ) (l l' : LogManager) → IsValid l → log_block n l ≡ some l' → Logged n l l'
unfolding log_block
log_block-Logged n l l' v e = elim (log_index_lem l.nblks 0 n l.blks_no) [
  | inl at_end ↦
      let absent =
        has-take-none l.nblks n l.blks_no
          (λ j h. log_index-absent l.nblks 0 j n l.blks_no at_end (omega arith) (omega arith)) in
      let small : l.nblks < logsize = ground arith in
      let run : record l { blks_no = set l.blks_no l.nblks n; nblks = l.nblks + 1 } ≡ l' =
        ground arith in
      subst (Logged n l) run (log_new n l v small absent)
  | inr (early, here) ↦
      let run : record l { blks_no = set l.blks_no (log_index l.nblks 0 n l.blks_no) n } ≡ l' =
        ground arith in
      subst (Logged n l) run (log_again n l (log_index l.nblks 0 n l.blks_no) v (omega arith) here)
]

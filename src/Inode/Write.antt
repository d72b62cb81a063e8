-- ===== src/Inode/Write.antt =====
-- What `writei` writes, and what `readi` reads after it.
use mathlib.Core.Path.{subst}
use wei_os.Inode.{set_inode, Icache}
use wei_os.Inode.Read.{readi-file_bytes, file_bytes, file_byte}
use wei_os.Inode.Blocks.{readi, bmap, store, writei, writei_loop}
use wei_os.Common.{
  length-drop, zero, [], min, ◌||◌, ◌∙◌, inr, length-take, ◌-◌, ◌/◌, arith, inl, ◌%◌, ap, true,
  drop, ◌&&◌, suc, false, Bool-cases, some, leb, take, ◌==◌, ◌∷◌, ltb, ◌*◌, length, if◌then◌else◌,
  ◌+◌, ◌<◌, ◌≤◌, get_or, ◌≡◌, List, ℕ, refl,
}

get_or-suc : (x : ℕ) (xs : List ℕ) (i j : ℕ) → i ≡ j + 1 → get_or (x ∷ xs) i 0 ≡ get_or xs j 0
get_or-suc x xs i j e = let e' : i ≡ suc j = omega arith in ap (λ k. get_or (x ∷ xs) k 0) e'

-- A write of one byte changes one byte of the file.
one_byte :
    (x : ℕ) (d : ℕ → ℕ → ℕ) (address : ℕ → ℕ) (q at o : ℕ)
    → ((y z : ℕ) → address y ≡ address z → y ≡ z)
    → at < 4096
    → file_byte (λ b' at'. if address q == b' && at == at' then x else d b' at') address o
      ≡ (if o == 4096 * q + at then x else file_byte d address o)
one_byte x d address q at o inj h = elim (Bool-cases (o == 4096 * q + at)) [
  | inl e ↦
      let quotient : o / 4096 ≡ q = ground arith in
      let remainder : o % 4096 ≡ at = ground arith in rw (e, quotient, remainder) (ground arith)
  | inr e ↦ elim (Bool-cases (address q == address (o / 4096))) [
    | inr other ↦ ground arith
    | inl same ↦
        let quotient : q ≡ o / 4096 = inj q (o / 4096) (ground arith) in
        let apart : (at == o % 4096) ≡ false = ground arith in ground arith
  ]
]

store-file_byte :
    (xs : List ℕ) (d : ℕ → ℕ → ℕ) (address : ℕ → ℕ) (q at o : ℕ)
    → ((y z : ℕ) → address y ≡ address z → y ≡ z)
    → at + length xs ≤ 4096
    → file_byte (store d (address q) at xs) address o ≡ (
        if leb (4096 * q + at) o && ltb o (4096 * q + at + length xs)
        then get_or xs (o - (4096 * q + at)) 0
        else file_byte d address o)
store-file_byte [] d address q at o inj h = ground arith
store-file_byte (x ∷ xs) d address q at o inj h =
    let d' : ℕ → ℕ → ℕ = λ b' at'. if address q == b' && at == at' then x else d b' at' in
    let rest = store-file_byte xs d' address q (at + 1) o inj (omega arith) in
    let here = one_byte x d address q at o inj (omega arith) in
    elim (Bool-cases (leb (4096 * q + at + 1) o)) [
      | inl behind ↦
          let shift =
            get_or-suc x xs (o - (4096 * q + at)) (o - (4096 * q + (at + 1))) (ground arith) in
          ground (arith, rest, here, shift)
      | inr before ↦ ground (arith, rest, here)
    ]

take-drop-get :
    (m : ℕ) (src : List ℕ) (j : ℕ)
    → get_or src j 0 ≡ (if ltb j m then get_or (take m src) j 0 else get_or (drop m src) (j - m) 0)
take-drop-get zero src j = ground arith
take-drop-get (suc m) [] j = ground arith
take-drop-get (suc m) (x ∷ src) zero = ground arith
take-drop-get (suc m) (x ∷ src) (suc j) = ground (arith, take-drop-get m src j)

-- The file after `n` of its bytes from `offset` on became those of `src`, and no other changed.
abbrev pub IsWritten : (ℕ → ℕ) → (ℕ → ℕ → ℕ) → (ℕ → ℕ → ℕ) → ℕ → List ℕ → Type 0
IsWritten address d d' offset src =
    (o : ℕ)
    → file_byte d' address o ≡ (
        if leb offset o && ltb o (offset + length src)
        then get_or src (o - offset) 0
        else file_byte d address o)

IsWritten-append :
    (address : ℕ → ℕ) (d d' d'' : ℕ → ℕ → ℕ) (offset m : ℕ) (src : List ℕ)
    → m ≤ length src
    → IsWritten address d d' offset (take m src)
    → IsWritten address d' d'' (offset + m) (drop m src)
    → IsWritten address d d'' offset src
IsWritten-append address d d' d'' offset m src h f g o =
    let length_first : length (take m src) ≡ m = omega (arith, length-take m src) in
    let length_rest : length (drop m src) ≡ length src - m = length-drop m src in
    let one = f o in
    let two = g o in
    let split = take-drop-get m src (o - offset) in
    elim (Bool-cases (leb (offset + m) o)) [
      | inl behind ↦
          let place : o - offset - m ≡ o - (offset + m) = omega arith in
          let moved = ap (λ j. get_or (drop m src) j 0) place in ground arith
      | inr before ↦ ground arith
    ]

writei_loop-IsWritten :
    (k : ℕ) (d : ℕ → ℕ → ℕ) (address : ℕ → ℕ) (i : ℕ) (src : List ℕ) (offset : ℕ) (c : Icache)
    → ((y z : ℕ) → address y ≡ address z → y ≡ z)
    → ((b : ℕ) → b * 4096 < offset + length src → bmap i b c ≡ some (address b, c))
    → length src ≤ k
    → (d' : ℕ → ℕ → ℕ) × (writei_loop k d i src offset c ≡ some (d', c))
      × IsWritten address d d' offset src
unfolding writei_loop
writei_loop-IsWritten zero d address i src offset c inj h l =
    let none_left : leb (length src) 0 ≡ true = ground arith in
    (d, rw none_left refl, λ o. ground arith)
writei_loop-IsWritten (suc k) d address i src offset c inj h l =
    elim (Bool-cases (leb (length src) 0)) [
      | inl none_left ↦ (d, rw none_left refl, λ o. ground arith)
      | inr more ↦
          let m = min (length src) (4096 - offset % 4096) in
          let d1 = store d (address (offset / 4096)) (offset % 4096) (take m src) in
          let some_left : 0 < length src = ground arith in
          let length_first : length (take m src) ≡ m = omega (arith, length-take m src) in
          let length_rest : length (drop m src) ≡ length src - m = length-drop m src in
          let here : bmap i (offset / 4096) c ≡ some (address (offset / 4096), c) =
            h (offset / 4096) (omega arith) in
          let (d', run, rest) =
            writei_loop-IsWritten k d1 address i (drop m src) (offset + m) c inj
              (λ b g. h b (omega arith)) (omega arith) in
          let start : 4096 * (offset / 4096) + offset % 4096 ≡ offset = omega arith in
          let first : IsWritten address d d1 offset (take m src) = λ o.
            subst
              (λ a. file_byte d1 address o ≡ (
                if leb a o && ltb o (a + length (take m src))
                then get_or (take m src) (o - a) 0
                else file_byte d address o))
              start
              (store-file_byte (take m src) d address (offset / 4096) (offset % 4096) o inj
                (omega arith)) in
          (
            d',
            rw (more, here) run,
            IsWritten-append address d d1 d' offset m src (omega arith) first rest,
          )
    ]

file_bytes_eq :
    (xs : List ℕ) (d : ℕ → ℕ → ℕ) (address : ℕ → ℕ) (o : ℕ)
    → ((j : ℕ) → j < length xs → file_byte d address (o + j) ≡ get_or xs j 0)
    → file_bytes d address o (length xs) ≡ xs
file_bytes_eq [] d address o h = refl
file_bytes_eq (x ∷ xs) d address o h =
    let here : file_byte d address o ≡ x =
      ap (file_byte d address) (let e : o ≡ o + 0 = omega arith in e) ∙ h 0 (omega arith) in
    let rest = file_bytes_eq xs d address (o + 1) (λ j l.
      let e : o + 1 + j ≡ o + suc j = omega arith in
      ap (file_byte d address) e ∙ h (suc j) (omega arith)) in
    (λ t. here t ∷ rest t)

resized : ℕ → ℕ → Icache → Icache
resized i stop c =
    let n = c.inode i in
    if ltb n.file_siz stop then set_inode i (record n { file_siz = stop }) c else c

writei_run :
    (d d' : ℕ → ℕ → ℕ) (i : ℕ) (src : List ℕ) (offset : ℕ) (c : Icache)
    → writei_loop (length src) d i src offset c ≡ some (d', c)
    → offset ≤ (c.inode i).file_siz
    → offset + length src ≤ 4239360
    → writei d i src offset c ≡ some (d', resized i (offset + length src) c)
unfolding writei resized
writei_run d d' i src offset c run within small =
    let n = c.inode i in
    let stop = offset + length src in
    let no_wrap : stop % 4294967296 ≡ stop = omega arith in
    let fits : ltb 4239360 stop ≡ false = ground arith in
    let no_error : (ltb n.file_siz offset || (ltb stop offset || false)) ≡ false = ground arith in
    rw (no_wrap, fits, no_error, run, no_wrap, fits) refl

resized-size :
    (i stop : ℕ) (c : Icache)
    → ((resized i stop c).inode i).file_siz
      ≡ (if ltb (c.inode i).file_siz stop then stop else (c.inode i).file_siz)
unfolding resized
resized-size i stop c = elim (Bool-cases (ltb (c.inode i).file_siz stop)) [
  | inl e ↦ rw e (ground arith)
  | inr e ↦ rw e refl
]

resized_within : (i stop : ℕ) (c : Icache) → stop ≤ (c.inode i).file_siz → resized i stop c ≡ c
unfolding resized
resized_within i stop c h =
    let e : ltb (c.inode i).file_siz stop ≡ false = ground arith in rw e refl

-- `writei` of a file whose blocks `bmap` finds, in distinct disk blocks, from a position within the
-- file and up to 4239360 bytes, to which MAXFILESIZ wraps around: it gives a result, the bytes of the
-- file from the position on are then those of the source, no other byte of the file changes, and the
-- size is the larger of the old size and the end of what was written.
pub writei-IsWritten :
    (d : ℕ → ℕ → ℕ) (address : ℕ → ℕ) (i : ℕ) (src : List ℕ) (offset : ℕ) (c : Icache)
    → ((y z : ℕ) → address y ≡ address z → y ≡ z)
    → ((b : ℕ) → b * 4096 < offset + length src → bmap i b c ≡ some (address b, c))
    → offset ≤ (c.inode i).file_siz
    → offset + length src ≤ 4239360
    → (d' : ℕ → ℕ → ℕ) × (c' : Icache) × (writei d i src offset c ≡ some (d', c'))
      × IsWritten address d d' offset src
      × ((c'.inode i).file_siz ≡ (
          if ltb (c.inode i).file_siz (offset + length src)
          then offset + length src
          else (c.inode i).file_siz))
writei-IsWritten d address i src offset c inj h within small =
    let (d', run, written) =
      writei_loop-IsWritten (length src) d address i src offset c inj h (omega arith) in
    let stop = offset + length src in
    (
      d',
      resized i stop c,
      writei_run d d' i src offset c run within small,
      written,
      resized-size i stop c,
    )

-- What `writei` wrote within a file, whose blocks `bmap` finds in distinct disk blocks, `readi` reads.
pub writei-readi :
    (d : ℕ → ℕ → ℕ) (address : ℕ → ℕ) (i : ℕ) (src : List ℕ) (offset : ℕ) (c : Icache)
    → ((y z : ℕ) → address y ≡ address z → y ≡ z)
    → ((b : ℕ) → b * 4096 < (c.inode i).file_siz → bmap i b c ≡ some (address b, c))
    → offset + length src ≤ (c.inode i).file_siz
    → offset + length src ≤ 4239360
    → (d' : ℕ → ℕ → ℕ) × (writei d i src offset c ≡ some (d', c))
      × (readi d' i offset (length src) c ≡ some (src, c))
writei-readi d address i src offset c inj h within small =
    let (d', run, written) =
      writei_loop-IsWritten (length src) d address i src offset c inj (λ b l. h b (omega arith))
        (omega arith) in
    let amount : min (length src) ((c.inode i).file_siz - offset) ≡ length src = omega arith in
    let same : file_bytes d' address offset (length src) ≡ src =
      file_bytes_eq src d' address offset (λ j l.
        let place : offset + j - offset ≡ j = omega arith in
        written (offset + j) ∙ ground (arith, ap (λ t. get_or src t 0) place)) in
    (
      d',
      writei_run d d' i src offset c run (omega arith) small
          ∙ ap (λ t. some (d', t)) (resized_within i (offset + length src) c within),
      readi-file_bytes d' address i offset (length src) c (omega arith) (omega arith) h
          ∙ ap (λ t. some (file_bytes d' address offset t, c)) amount
          ∙ ap (λ t. some (t, c)) same,
    )

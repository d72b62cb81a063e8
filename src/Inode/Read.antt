-- ===== src/Inode/Read.antt =====
-- The bytes that `readi` reads.
use wei_os.Inode.{Icache}
use wei_os.Inode.Blocks.{bmap, block_bytes, readi, readi_loop}
use wei_os.Common.{
  if◌then◌else◌, Option, ◌||◌, false, ltb, ◌==◌, ◌-◌, refl, sym, some, ◌∙◌, zero, arith, ◌∷◌, ◌<◌,
  ap, ◌≤◌, ◌*◌, ◌+◌, [], ◌%◌, ◌≡◌, ◌++◌, List, ◌/◌, ℕ,
}
use Prim.Native.Nat.{min, suc, ℕ}

-- The byte of the file at a position, when `address` gives the block of each part of the file.
abbrev pub file_byte : (ℕ → ℕ → ℕ) → (ℕ → ℕ) → ℕ → ℕ
file_byte bytes_of address o = bytes_of (address (o / 4096)) (o % 4096)

abbrev pub file_bytes : (ℕ → ℕ → ℕ) → (ℕ → ℕ) → ℕ → ℕ → List ℕ
file_bytes bytes_of address o zero = []
file_bytes bytes_of address o (suc n) =
    file_byte bytes_of address o ∷ file_bytes bytes_of address (o + 1) n

file_bytes-append :
    (bytes_of : ℕ → ℕ → ℕ) (address : ℕ → ℕ) (m n o : ℕ)
    → file_bytes bytes_of address o m ++ file_bytes bytes_of address (o + m) n
      ≡ file_bytes bytes_of address o (m + n)
file_bytes-append bytes_of address zero n o =
    ap (λ x. file_bytes bytes_of address x n) (omega arith)
    ∙ ap (file_bytes bytes_of address o) (omega arith)
file_bytes-append bytes_of address (suc m) n o =
    let e : o + suc m ≡ o + 1 + m = omega arith in
    let f : suc m + n ≡ suc (m + n) = omega arith in
    ap (λ x. file_bytes bytes_of address o (suc m) ++ file_bytes bytes_of address x n) e
    ∙ ap (λ l. file_byte bytes_of address o ∷ l) (file_bytes-append bytes_of address m n (o + 1))
    ∙ sym (ap (file_bytes bytes_of address o) f)

-- A part of one block.
block_bytes-file_bytes :
    (bytes_of : ℕ → ℕ → ℕ) (address : ℕ → ℕ) (q at n o : ℕ)
    → o ≡ 4096 * q + at
    → at + n ≤ 4096
    → block_bytes (bytes_of (address q)) at n ≡ file_bytes bytes_of address o n
block_bytes-file_bytes bytes_of address q at zero o e h = refl
block_bytes-file_bytes bytes_of address q at (suc n) o e h =
    let quotient : o / 4096 ≡ q = omega arith in
    let remainder : o % 4096 ≡ at = omega arith in
    rw (quotient, remainder)
      (ap (λ l. bytes_of (address q) at ∷ l)
        (block_bytes-file_bytes bytes_of address q (at + 1) n (o + 1) (omega arith) (omega arith)))

readi_loop-file_bytes :
    (k : ℕ) (bytes_of : ℕ → ℕ → ℕ) (address : ℕ → ℕ) (i o left : ℕ) (c : Icache)
    → ((b : ℕ) → b * 4096 < o + left → bmap i b c ≡ some (address b, c))
    → left ≤ k
    → readi_loop k bytes_of i o left c ≡ some (file_bytes bytes_of address o left, c)
unfolding readi_loop
readi_loop-file_bytes zero bytes_of address i o left c h l =
    let e : left ≡ 0 = omega arith in rw e refl
readi_loop-file_bytes (suc k) bytes_of address i o zero c h l = refl
readi_loop-file_bytes (suc k) bytes_of address i o (suc n) c h l =
    let m = min (suc n) (4096 - o % 4096) in
    let rest = suc n - m in
    let here : bmap i (o / 4096) c ≡ some (address (o / 4096), c) = h (o / 4096) (omega arith) in
    let later : readi_loop k bytes_of i (o + m) rest c
        ≡ some (file_bytes bytes_of address (o + m) rest, c) =
      readi_loop-file_bytes k bytes_of address i (o + m) rest c (λ b g. h b (omega arith))
        (omega arith) in
    let chunk : block_bytes (bytes_of (address (o / 4096))) (o % 4096) m
        ≡ file_bytes bytes_of address o m =
      block_bytes-file_bytes bytes_of address (o / 4096) (o % 4096) m o (omega arith)
        (omega arith) in
    let whole : m + rest ≡ suc n = omega arith in
    let go : (suc n == 0) ≡ false = ground arith in
    let out : List ℕ → Option (List ℕ × Icache) = λ x. some (x, c) in
    rw (go, here, later)
      (ap out (
        ap (λ x. x ++ file_bytes bytes_of address (o + m) rest) chunk
        ∙ file_bytes-append bytes_of address m rest o
        ∙ ap (file_bytes bytes_of address o) whole))

-- `readi` of a file whose blocks `bmap` finds gives the bytes of the file from the position on, as
-- many as are asked for and the file has, and changes nothing: the blocks that the loop reads piece by
-- piece are one text. It ends for each position that is within the file and does not wrap around.
pub readi-file_bytes :
    (bytes_of : ℕ → ℕ → ℕ) (address : ℕ → ℕ) (i offset nbytes : ℕ) (c : Icache)
    → offset ≤ (c.inode i).file_siz
    → offset + nbytes < 4294967296
    → ((b : ℕ) → b * 4096 < (c.inode i).file_siz → bmap i b c ≡ some (address b, c))
    → readi bytes_of i offset nbytes c
      ≡ some (file_bytes bytes_of address offset (min nbytes ((c.inode i).file_siz - offset)), c)
unfolding readi
readi-file_bytes bytes_of address i offset nbytes c h g m =
    let size = (c.inode i).file_siz in
    let no_wrap : (offset + nbytes) % 4294967296 ≡ offset + nbytes = omega arith in
    let within : (ltb size offset || ltb (offset + nbytes) offset) ≡ false = ground arith in
    let n : ℕ = if ltb size (offset + nbytes) then size - offset else nbytes in
    let amount : n ≡ min nbytes (size - offset) = ground arith in
    let mapped : (b : ℕ) → b * 4096 < offset + n → bmap i b c ≡ some (address b, c) =
      λ b l. m b (omega (arith, amount)) in
    rw (no_wrap, within)
      (readi_loop-file_bytes n bytes_of address i offset n c mapped (omega arith)
        ∙ ap (λ k. some (file_bytes bytes_of address offset k, c)) amount)

-- ===== src/Fs/Recovery/Header.antt =====
-- The header block of kern/log.c: what `write_log_header` writes, `read_log_header` reads.
use wei_os.Common.{
  ◌∙◌, ap, ap, ℕ, zero, suc, ◌+◌, ◌*◌, ◌<◌, ◌≡◌, ◌∙◌, refl, Bool, true, List, [], ◌∷◌, ◌++◌, ◌&&◌,
  ltb, arith, length, get_or, drop,
}
use wei_os.Fs.{Block}
use wei_os.Fs.Bitmap.{word}
use wei_os.Fs.Recovery.{header_block, header_words, read_log_header, word_bytes, words_bytes}

-- Every number is a 32-bit word.
abbrev pub all_words : List ℕ → Bool
all_words [] = true
all_words (n ∷ nos) = ltb n 4294967296 && all_words nos

word-word_bytes : (w : ℕ) (c : Block) → w < 4294967296 → word (word_bytes w ++ c) 0 ≡ w
word-word_bytes w c h = omega arith

get_or_behind : (w j : ℕ) (c : Block) → get_or (word_bytes w ++ c) (j + 4) 0 ≡ get_or c j 0
get_or_behind w j c =
    let four : j + 4 ≡ suc (suc (suc (suc j))) = omega arith in
    ap (λ i. get_or (word_bytes w ++ c) i 0) four

word-shift : (w at : ℕ) (c : Block) → word (word_bytes w ++ c) (at + 4) ≡ word c at
word-shift w at c =
    let one : at + 4 + 1 ≡ at + 1 + 4 = omega arith in
    let two : at + 4 + 2 ≡ at + 2 + 4 = omega arith in
    let three : at + 4 + 3 ≡ at + 3 + 4 = omega arith in
    let get = λ (i : ℕ). get_or (word_bytes w ++ c) i 0 in
    omega (
      arith,
      get_or_behind w at c,
      ap get one ∙ get_or_behind w (at + 1) c,
      ap get two ∙ get_or_behind w (at + 2) c,
      ap get three ∙ get_or_behind w (at + 3) c,
    )

header_words-shift :
    (k w at : ℕ) (c : Block) → header_words k (at + 4) (word_bytes w ++ c) ≡ header_words k at c
unfolding header_words
header_words-shift zero w at c = refl
header_words-shift (suc k) w at c = rw (word-shift w at c, header_words-shift k w (at + 4) c) refl

header_words-words_bytes :
    (nos : List ℕ) (c : Block)
    → all_words nos ≡ true
    → header_words (length nos) 0 (words_bytes nos ++ c) ≡ nos
unfolding header_words
header_words-words_bytes [] c h = refl
header_words-words_bytes (n ∷ nos) c h =
    let small : n < 4294967296 = ground arith in
    rw
      (
        word-word_bytes n (words_bytes nos ++ c) small,
        header_words-shift (length nos) n 0 (words_bytes nos ++ c),
      )
      (ap (λ l. n ∷ l) (header_words-words_bytes nos c (ground arith)))

-- The header that `write_log_header` writes over any old block is read back by `read_log_header`: the
-- same numbers in the same order, for fewer than 2 ^ 32 of them, each a 32-bit word.
pub read_log_header-header_block :
    (nos : List ℕ) (old : Block)
    → length nos < 4294967296
    → all_words nos ≡ true
    → read_log_header (header_block nos old) ≡ nos
unfolding read_log_header header_block
read_log_header-header_block nos old h g =
    let rest = words_bytes nos ++ drop (4 * (length nos + 1)) old in
    let shift = header_words-shift (length nos) (length nos) 0 rest in
    let same = header_words-words_bytes nos (drop (4 * (length nos + 1)) old) g in
    ap (λ k. header_words k 4 (word_bytes (length nos) ++ rest))
      (word-word_bytes (length nos) rest h)
    ∙ shift
    ∙ same

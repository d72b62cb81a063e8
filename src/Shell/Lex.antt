-- ===== src/Shell/Lex.antt =====
-- The tokens of the shell: what `gettoken` reads of a line, and that it reads on.
use wei_os.Shell.{peek, is_symbol, is_white, first, token, split_word, skip_white, gettoken}
use wei_os.Common.{
  ◌≢◌, ◌||◌, inr, refl, inl, [], ◌&&◌, ◌++◌, ◌<◌, arith, ◌==◌, ◌⊎◌, ◌∷◌, ◌≤◌, not, true, ◌≡◌,
  length, Bool, ℕ, List, List, List, List, List, List, List,
}

-- A word is one character or more, none of them white, a symbol or a NUL.
abbrev pub plain : List ℕ → Bool
plain [] = true
plain (c ∷ w) = not (c == 0) && not (is_white c || is_symbol c) && plain w

abbrev pub is_word : List ℕ → Bool
is_word w = not (first w == 0) && plain w

pub skip_white-length : (s : List ℕ) → length (skip_white s) ≤ length s
skip_white-length [] = omega arith
skip_white-length (c ∷ s) = ground (arith, skip_white-length s)

pub skip_white_twice : (s : List ℕ) → skip_white (skip_white s) ≡ skip_white s
skip_white_twice [] = refl
skip_white_twice (c ∷ s) = ground (arith, skip_white_twice s)

split_word-length : (s : List ℕ) → length (split_word s).1 ≤ length s
split_word-length [] = omega arith
split_word-length (c ∷ s) = ground (arith, split_word-length s)

token-length :
    (s : List ℕ) → (skip_white s ≡ s) → ((token s).0 ≡ 0) ⊎ (length (token s).2 < length s)
token-length [] h = inl refl
token-length (c ∷ s) h =
    ground (arith, skip_white-length s, skip_white-length (split_word s).1, split_word-length s)

-- Reading a token of a kind other than 0 leaves a shorter line.
pub gettoken-length : (s : List ℕ) → ((gettoken s).0 ≡ 0) ⊎ (length (gettoken s).2 < length s)
unfolding gettoken
gettoken-length s = elim (token-length (skip_white s) (skip_white_twice s)) [
  | inl e ↦ inl e
  | inr h ↦ inr (omega (arith, skip_white-length s))
]

pub split_word-plain : (w t : List ℕ) → plain w ≡ true → split_word (w ++ (32 ∷ t)) ≡ (w, 32 ∷ t)
split_word-plain [] t h = refl
split_word-plain (c ∷ w) t h = ground (arith, split_word-plain w t)

token-le : (s : List ℕ) → length (token s).2 ≤ length s
token-le [] = omega arith
token-le (c ∷ s) = ground (
  arith,
  skip_white-length s,
  skip_white-length (c ∷ s),
  skip_white-length (split_word s).1,
  split_word-length s,
)

pub gettoken-le : (s : List ℕ) → length (gettoken s).2 ≤ length s
unfolding gettoken
gettoken-le s = omega (arith, token-le (skip_white s), skip_white-length s)

token_some : (s : List ℕ) → not (first s == 0) ≡ true → (token s).0 ≢ 0
token_some [] h = absurd (cc)
token_some (c ∷ s) h = ground arith

-- A character that `peek` finds is behind the token that is read next.
pub peek-gettoken :
    (toks s : List ℕ) → (peek toks s).0 ≡ true → length (gettoken (peek toks s).1).2 < length s
unfolding gettoken peek
peek-gettoken toks s h =
    let t = skip_white s in
    let ne : (token (skip_white t)).0 ≢ 0 =
      token_some (skip_white t) (rw (skip_white_twice s) (ground arith)) in
    elim (gettoken-length t) [
      | inl e ↦ absurd (ne e)
      | inr l ↦ omega (arith, l, skip_white-length s)
    ]

pub peek-le : (toks s : List ℕ) → length (peek toks s).1 ≤ length s
unfolding peek
peek-le toks s = skip_white-length s

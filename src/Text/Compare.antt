-- ===== src/Text/Compare.antt =====
-- The comparisons of lib/string.c against equality.
use wei_os.Common.{
  ltb, ◌&&◌, Bool, true, ap, ℕ, zero, suc, ◌<◌, ◌≡◌, ◌↔◌, inl, inr, refl, Bool, true, List, [], ◌∷◌,
  ◌==◌, arith, take, Bool-cases,
}
use wei_os.Text.{strcmp, strncmp, diff}

-- The bytes of a string: none is NUL.
abbrev pub is_string : List ℕ → Bool
is_string [] = true
is_string (c ∷ s) = ltb 0 c && ltb c 256 && is_string s

diff-zero : (a b : ℕ) → a < 256 → b < 256 → diff a b ≡ 0 → a ≡ b
diff-zero a b h g e = omega arith

same_tail : (a b : ℕ) (s t : List ℕ) → a ∷ s ≡ b ∷ t → (a ≡ b) × (s ≡ t)
same_tail a b s t e = (ap head e, ap tail e)
  where
    head : List ℕ → ℕ
    head [] = 0
    head (x ∷ xs) = x

    tail : List ℕ → List ℕ
    tail [] = []
    tail (x ∷ xs) = xs

strcmp_sound : (s t : List ℕ) → is_string s ≡ true → is_string t ≡ true → strcmp s t ≡ 0 → s ≡ t
unfolding strcmp
strcmp_sound [] [] h g e = refl
strcmp_sound [] (b ∷ t) h g e = absurd (ground (arith, diff-zero 0 b))
strcmp_sound (a ∷ s) [] h g e = absurd (ground (arith, diff-zero a 0))
strcmp_sound (a ∷ s) (b ∷ t) h g e = elim (Bool-cases (a == b)) [
  | inl same ↦
      let rest = strcmp_sound s t (ground arith) (ground arith) (ground arith) in ground arith
  | inr other ↦ absurd (ground (arith, diff-zero a b))
]

strcmp_self : (s : List ℕ) → strcmp s s ≡ 0
unfolding strcmp
strcmp_self [] = refl
strcmp_self (a ∷ s) = ground (arith, strcmp_self s)

-- `strcmp` gives 0 exactly for equal strings.
pub strcmp-zero :
    (s t : List ℕ) → is_string s ≡ true → is_string t ≡ true → (strcmp s t ≡ 0) ↔ (s ≡ t)
strcmp-zero s t h g = (strcmp_sound s t h g, λ e. rw e (strcmp_self t))

-- `strncmp` looks at the first `n` bytes: it is `strcmp` of the two strings cut after them.
pub strncmp-take : (s t : List ℕ) (n : ℕ) → strncmp s t n ≡ strcmp (take n s) (take n t)
unfolding strncmp strcmp
strncmp-take s t zero = refl
strncmp-take [] [] (suc n) = refl
strncmp-take [] (b ∷ t) (suc n) = refl
strncmp-take (a ∷ s) [] (suc n) = refl
strncmp-take (a ∷ s) (b ∷ t) (suc n) = ground (arith, strncmp-take s t n)

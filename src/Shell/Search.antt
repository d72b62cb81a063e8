-- ===== src/Shell/Search.antt =====
-- The search of the shell for a command along the directories of the path.
use mathlib.Core.Path.{subst}
use wei_os.Shell.{searching, first, search_path, executed, before_colon, not_found, Tried}
use wei_os.Common.{
  inr, length-drop, inl, List-cases, ◌-◌, map, ◌++◌, ◌<◌, sym, true, false, ◌∙◌, refl, ap, zero,
  suc, ◌+◌, arith, ◌==◌, ◌≤◌, ◌≡◌, if◌then◌else◌, [], drop, length, Bool, ◌∷◌, ℕ, List,
}

-- The directories of a path, each of which ends at a colon.
abbrev onto_first : ℕ → List (List ℕ) → List (List ℕ)
onto_first c [] = (c ∷ []) ∷ []
onto_first c (d ∷ ds) = (c ∷ d) ∷ ds

abbrev pub directories : List ℕ → List (List ℕ)
directories [] = []
directories (c ∷ s) = if c == b':' then [] ∷ directories s else onto_first c (directories s)

-- The first of the names that `exec` takes.
abbrev pub first_found : (List ℕ → Bool) → List (List ℕ) → Tried
first_found exec [] = not_found
first_found exec (n ∷ ns) = let rest = first_found exec ns in if exec n then executed n else rest

drop-suc : (n c : ℕ) (s : List ℕ) → drop (n + 1) (c ∷ s) ≡ drop n s
drop-suc n c s = let e : n + 1 ≡ suc n = omega arith in ap (λ k. drop k (c ∷ s)) e

directories-before_colon :
    (c : ℕ) (s : List ℕ)
    → directories (c ∷ s)
      ≡ before_colon (c ∷ s) ∷ directories (drop (length (before_colon (c ∷ s)) + 1) (c ∷ s))
directories-before_colon c [] = ground (arith, drop-suc 0 c [], drop-suc 1 c [])
directories-before_colon c (d ∷ s) =
    let d' = before_colon (d ∷ s) in
    ground (
      arith,
      directories-before_colon d s,
      drop-suc 0 c (d ∷ s),
      drop-suc (length d' + 1) c (d ∷ s),
    )

drop_nil : (n : ℕ) → drop {A = ℕ} n [] ≡ []
drop_nil zero = refl
drop_nil (suc n) = refl

drop-drop : (m n : ℕ) (xs : List ℕ) → drop m (drop n xs) ≡ drop (n + m) xs
drop-drop m zero xs = ap (λ k. drop k xs) (omega arith)
drop-drop m (suc n) [] = drop_nil m ∙ sym (drop_nil (suc n + m))
drop-drop m (suc n) (x ∷ xs) =
    let e : suc n + m ≡ suc (n + m) = omega arith in
    drop-drop m n xs ∙ sym (ap (λ k. drop k (x ∷ xs)) e)

search_round :
    (k : ℕ) (exec : List ℕ → Bool) (cmd path rs : List ℕ) (p : ℕ)
    → (first cmd == b'/') ≡ false
    → p < length path
    → search_path (suc k) exec cmd path rs p ≡ (
        let name = before_colon (drop p path) ++ cmd in
        if exec name
        then executed name
        else search_path k exec cmd path name (p + length (before_colon (drop p path)) + 1))
unfolding search_path
search_round k exec cmd path rs p h l = ground arith

search_end :
    (k : ℕ) (exec : List ℕ → Bool) (cmd path rs : List ℕ) (p : ℕ)
    → length path ≤ p
    → search_path (suc k) exec cmd path rs p ≡ not_found
unfolding search_path
search_end k exec cmd path rs p h = ground arith

-- The loop of `runcmd` over the path comes to an end for a command that does not begin with a slash:
-- with more rounds than the path has characters left, it executes the first of the names, each a
-- directory of the path followed by the command, that `exec` takes, in the order of the path, and
-- else finds none.
pub search_path-first_found :
    (k : ℕ) (exec : List ℕ → Bool) (cmd path rs : List ℕ) (p : ℕ)
    → (first cmd == b'/') ≡ false
    → length path - p < k
    → search_path k exec cmd path rs p
      ≡ first_found exec (map (λ dir. dir ++ cmd) (directories (drop p path)))
search_path-first_found zero exec cmd path rs p h l = absurd (omega arith)
search_path-first_found (suc k) exec cmd path rs p h l = elim (List-cases (drop p path)) [
  | inl nil ↦
      let none_left : length path ≤ p = omega (arith, length-drop p path, ap length nil) in
      search_end k exec cmd path rs p none_left
      ∙ sym (ap (λ s. first_found exec (map (λ dir. dir ++ cmd) (directories s))) nil)
  | inr (c, s, e) ↦
      let d = before_colon (drop p path) in
      let some_left : p < length path = omega (arith, length-drop p path, ap length e) in
      let parts : directories (drop p path) ≡ d ∷ directories (drop (p + length d + 1) path) =
        subst
          (λ t. directories t ≡ before_colon t ∷ directories (drop (length (before_colon t) + 1) t))
          (sym e) (directories-before_colon c s)
        ∙ ap (λ t. d ∷ directories t) (drop-drop (length d + 1) p path)
        ∙ ap (λ i. d ∷ directories (drop i path)) (omega arith) in
      search_round k exec cmd path rs p h some_left
      ∙ ap (λ r. if exec (d ++ cmd) then executed (d ++ cmd) else r)
          (search_path-first_found k exec cmd path (d ++ cmd) (p + length d + 1) h (omega arith))
      ∙ sym (ap (λ ds. first_found exec (map (λ dir. dir ++ cmd) ds)) parts)
]

-- A command that begins with a slash is never executed when `exec` refuses what is in the buffer
-- `rs`, which nothing writes: the loop tries the buffer again and again.
pub search_path_absolute :
    (k : ℕ) (exec : List ℕ → Bool) (cmd path rs : List ℕ) (p : ℕ)
    → (first cmd == b'/') ≡ true
    → p < length path
    → exec rs ≡ false
    → search_path k exec cmd path rs p ≡ searching
unfolding search_path
search_path_absolute zero exec cmd path rs p h l e = refl
search_path_absolute (suc k) exec cmd path rs p h l e =
    ground (arith, search_path_absolute k exec cmd path rs p h l e)

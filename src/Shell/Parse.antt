-- ===== src/Shell/Parse.antt =====
-- The parser of the shell comes to an end on every line.
use wei_os.Shell.Lex.{gettoken-length, peek-gettoken, gettoken-le, peek-le, peek-le}
use wei_os.Common.{
  refl, ◌⊎◌, ◌≡◌, leb, ◌==◌, inl, inr, Bool-cases, ◌++◌, zero, ◌∷◌, [], ◌+◌, ◌<◌, arith,
}
use Prim.Native.Nat.{suc, ◌≤◌, ℕ}
use wei_os.Shell.{
  finished, backcmd, parsecmd, parseline, back_loop, max_args, gettoken, peek, and_then, length,
  Cmd, List, parsed, parsepipe, parseexec, exec_loop, parseredirs, Parsed, Parsed, Parsed,
}
use wei_os.Shell.{panics, out_of_fuel}

-- The parser has come to a result, with at most `n` characters left of the line.
abbrev Ends {ℓ} : {A : Type ℓ} → Parsed A → ℕ → Type 0
Ends (parsed a s) n = length s ≤ n
Ends panics n = Unit
Ends out_of_fuel n = ⊥

Ends-le {ℓ} : {A : Type ℓ} (p : Parsed A) (m n : ℕ) → Ends p m → m ≤ n → Ends p n
Ends-le (parsed a s) m n h l = omega arith
Ends-le panics m n h l = tt
Ends-le out_of_fuel m n h l = h

-- A parser that ends, followed by one that ends on a line that is no longer.
and_then-Ends {ℓ κ} :
    {A : Type ℓ} {B : Type κ} (p : Parsed A) (f : A → List ℕ → Parsed B) (n : ℕ)
    → Ends p n
    → ((a : A) (s : List ℕ) → length s ≤ n → Ends (f a s) n)
    → Ends (and_then p f) n
and_then-Ends (parsed a s) f n h g = g a s h
and_then-Ends panics f n h g = tt
and_then-Ends out_of_fuel f n h g = h

parseredirs-Ends :
    (k : ℕ) (rs : List (ℕ × List ℕ)) (s : List ℕ)
    → length s < k
    → Ends (parseredirs k rs s) (length s)
unfolding parseredirs
parseredirs-Ends zero rs s h = absurd (omega arith)
parseredirs-Ends (suc k) rs s h =
    let toks : List ℕ = b'<' ∷ b'>' ∷ [] in
    let s0 = (peek toks s).1 in
    let s1 = (gettoken s0).2 in
    let rs' = rs ++ (((gettoken s0).0, (gettoken s1).1) ∷ []) in
    elim (Bool-cases (peek toks s).0) [
      | inr no_more ↦ rw no_more (peek-le toks s)
      | inl more ↦ elim (Bool-cases ((gettoken s1).0 == b'a')) [
        | inr e ↦ rw (more, e) tt
        | inl e ↦
            let less : length (gettoken s1).2 < length s =
              ground (arith, gettoken-le s1, peek-gettoken toks s more) in
            rw (more, e)
              (Ends-le (parseredirs k rs' (gettoken s1).2) (length (gettoken s1).2) (length s)
                (parseredirs-Ends k rs' (gettoken s1).2 (omega arith)) (omega arith))
      ]
    ]

exec_loop-Ends :
    (k : ℕ) (argv : List (List ℕ)) (rs : List (ℕ × List ℕ)) (s : List ℕ)
    → length s < k
    → Ends (exec_loop k argv rs s) (length s)
unfolding exec_loop
exec_loop-Ends zero argv rs s h = absurd (omega arith)
exec_loop-Ends (suc k) argv rs s h =
    let toks : List ℕ = b'|' ∷ b'&' ∷ [] in
    let s0 = (peek toks s).1 in
    let s1 = (gettoken s0).2 in
    let argv' = argv ++ ((gettoken s0).1 ∷ []) in
    elim (Bool-cases (peek toks s).0) [
      | inl stop ↦ rw stop (peek-le toks s)
      | inr go ↦ elim (Bool-cases ((gettoken s0).0 == 0)) [
        | inl e ↦ rw (go, e) (omega (arith, gettoken-le s0, peek-le toks s))
        | inr some_token ↦ elim (Bool-cases ((gettoken s0).0 == b'a')) [
          | inr e ↦ rw (go, some_token, e) tt
          | inl e ↦ elim (Bool-cases (leb max_args (length argv'))) [
            | inl full ↦ rw (go, some_token, e, full) tt
            | inr room ↦
                let less : length s1 < length s0 = ground (arith, gettoken-length s0) in
                let less' : length s1 < length s = omega (arith, peek-le toks s) in
                rw (go, some_token, e, room)
                  (Ends-le (and_then (parseredirs (length s1 + 1) rs s1) (exec_loop k argv'))
                    (length s1) (length s)
                    (and_then-Ends (parseredirs (length s1 + 1) rs s1) (exec_loop k argv')
                      (length s1) (parseredirs-Ends (length s1 + 1) rs s1 (omega arith))
                      (λ rs' s' l.
                        Ends-le (exec_loop k argv' rs' s') (length s') (length s1)
                          (exec_loop-Ends k argv' rs' s' (omega arith)) l))
                    (omega arith))
          ]
        ]
      ]
    ]

parseexec-Ends : (s : List ℕ) → Ends (parseexec s) (length s)
unfolding parseexec
parseexec-Ends s =
    and_then-Ends (parseredirs (length s + 1) [] s) (λ rs s1. exec_loop (length s1 + 1) [] rs s1)
      (length s) (parseredirs-Ends (length s + 1) [] s (omega arith))
      (λ rs s' l.
        Ends-le (exec_loop (length s' + 1) [] rs s') (length s') (length s)
          (exec_loop-Ends (length s' + 1) [] rs s' (omega arith)) l)

parsepipe-Ends : (k : ℕ) (s : List ℕ) → length s < k → Ends (parsepipe k s) (length s)
unfolding parsepipe
parsepipe-Ends zero s h = absurd (omega arith)
parsepipe-Ends (suc k) s h =
    let bar : List ℕ = b'|' ∷ [] in
    and_then-Ends (parseexec s) _ (length s) (parseexec-Ends s) (λ left s' l.
      let s2 = (gettoken (peek bar s').1).2 in
      elim (Bool-cases (peek bar s').0) [
        | inr e ↦ rw e (omega (arith, peek-le bar s'))
        | inl e ↦
            let less : length s2 < length s' = peek-gettoken bar s' e in
            rw e (
              Ends-le _ (length s2) (length s)
                (and_then-Ends (parsepipe k s2) _ (length s2) (parsepipe-Ends k s2 (omega arith))
                  (λ right s3 l3. l3))
                (omega arith))
      ])

back_loop-Ends : (k : ℕ) (c : Cmd) (s : List ℕ) → length s < k → Ends (back_loop k c s) (length s)
unfolding back_loop
back_loop-Ends zero c s h = absurd (omega arith)
back_loop-Ends (suc k) c s h =
    let toks : List ℕ = b'&' ∷ [] in
    let s1 = (gettoken (peek toks s).1).2 in
    elim (Bool-cases (peek toks s).0) [
      | inr e ↦ rw e (peek-le toks s)
      | inl e ↦
          let less : length s1 < length s = peek-gettoken toks s e in
          rw e (
            Ends-le (back_loop k (backcmd c) s1) (length s1) (length s)
              (back_loop-Ends k (backcmd c) s1 (omega arith)) (omega arith))
    ]

parseline-Ends : (s : List ℕ) → Ends (parseline s) (length s)
unfolding parseline
parseline-Ends s =
    and_then-Ends (parsepipe (length s + 1) s) _ (length s)
      (parsepipe-Ends (length s + 1) s (omega arith))
      (λ c s' l.
        Ends-le _ (length s') (length s) (back_loop-Ends (length s' + 1) c s' (omega arith)) l)

Parsed-cases {ℓ} :
    {A : Type ℓ} (p : Parsed A) (n : ℕ)
    → Ends p n
    → ((a : A) × (s : List ℕ) × (p ≡ parsed a s)) ⊎ (p ≡ panics)
Parsed-cases (parsed a s) n h = inl (a, s, refl)
Parsed-cases panics n h = inr refl
Parsed-cases out_of_fuel n h = absurd h

finished_ends :
    (c : Cmd) (s : List ℕ) → ((d : Cmd) × (finished c s ≡ parsed d [])) ⊎ (finished c s ≡ panics)
finished_ends c [] = inl (c, refl)
finished_ends c (a ∷ rest) = inr refl

-- On every line `parsecmd` comes to an end: it gives a command or panics, and each of its loops and
-- calls has done so before the fuel of one more than the length of its line is used up.
pub parsecmd_ends : (s : List ℕ) → ((c : Cmd) × (parsecmd s ≡ parsed c [])) ⊎ (parsecmd s ≡ panics)
unfolding parsecmd
parsecmd_ends s = elim (Parsed-cases (parseline s) (length s) (parseline-Ends s)) [
  | inr e ↦ inr (rw e refl)
  | inl (c, s', e) ↦ rw e (finished_ends c (peek [] s').1)
]

-- ===== src/Console/Escape.antt =====
-- Which escapes `set_local_attr` of kern/console.c accepts, and where it goes on reading.
use wei_os.Common.{
  Bool-cases, ◌==◌, ◌-◌, ◌≤◌, ◌∙◌, ap, inl, inr, ◌⊎◌, refl, Bool, true, false, zero, ap, ℕ, zero,
  suc, ◌+◌, ◌-◌, ◌*◌, ◌≤◌, ◌≡◌, ◌⊎◌, inl, inr, refl, ◌∙◌, Bool, true, false, some, ◌==◌, arith,
  Bool-cases,
}
use wei_os.Console.{
  outcome, Status, before_second, before_end, after_zero, accepted, failed, Scan, before_bracket,
  before_first, is_color_controller, Status, before_bracket, before_first, after_zero,
  before_second, before_end, accepted, failed, Scan, step, run, begin_scan, set_local_attr,
}

run_next :
    (k : ℕ) (str : ℕ → ℕ) (x y : Scan) (c : ℕ)
    → str x.pos ≡ c
    → step c x ≡ y
    → run (suc k) str x ≡ run k str y
unfolding run
run_next k str x y c e f = ap (run k str) (ap (λ d. step d x) e ∙ f)

-- How many rounds a status is from the end at most.
abbrev rounds_left : Status → ℕ
rounds_left before_bracket = 4
rounds_left before_first = 3
rounds_left after_zero = 2
rounds_left before_second = 2
rounds_left before_end = 1
rounds_left accepted = 0
rounds_left failed = 0

abbrev scan : Status → Bool → ℕ → ℕ → ℕ → Scan
scan st c t1 t2 p = record { status = st; cancel = c; t1 = t1; t2 = t2; pos = p }

run_accepted :
    (k : ℕ) (str : ℕ → ℕ) (c : Bool) (t1 t2 p : ℕ)
    → run k str (scan accepted c t1 t2 p) ≡ scan accepted c t1 t2 p
unfolding run step
run_accepted zero str c t1 t2 p = refl
run_accepted (suc k) str c t1 t2 p = run_accepted k str c t1 t2 p

run_failed :
    (k : ℕ) (str : ℕ → ℕ) (c : Bool) (t1 t2 p : ℕ)
    → run k str (scan failed c t1 t2 p) ≡ scan failed c t1 t2 p
unfolding run step
run_failed zero str c t1 t2 p = refl
run_failed (suc k) str c t1 t2 p = run_failed k str c t1 t2 p

-- "[xym" with two hexadecimal digits, the first of them not 0, sets the attribute to these digits,
-- and reading goes on behind the `m`.
pub set_local_attr_colors :
    (str : ℕ → ℕ) (s lattr x y : ℕ)
    → str s ≡ 91
    → is_color_controller (str (s + 1)) ≡ some (suc x)
    → is_color_controller (str (s + 1 + 1)) ≡ some y
    → str (s + 1 + 1 + 1) ≡ 109
    → set_local_attr str s lattr ≡ (s + 4, (suc x * 16 + y) * 256)
unfolding set_local_attr run step outcome
set_local_attr_colors str s lattr x y a b c d =
    let nonzero : (suc x == 0) ≡ false = ground arith in
    let r1 = run_next 4 str (begin_scan s) (scan before_first false 0 0 (s + 1)) 91 a refl in
    let r2 =
      run_next 3 str (scan before_first false 0 0 (s + 1))
        (scan before_second false (suc x) 0 (s + 1 + 1)) (str (s + 1)) refl
        (rw (step, b, nonzero) refl) in
    let r3 =
      run_next 2 str (scan before_second false (suc x) 0 (s + 1 + 1))
        (scan before_end false (suc x) y (s + 1 + 1 + 1)) (str (s + 1 + 1)) refl
        (rw (step, c) refl) in
    let r4 =
      run_next 1 str (scan before_end false (suc x) y (s + 1 + 1 + 1))
        (scan accepted false (suc x) y (s + 1 + 1 + 1 + 1)) 109 d refl in
    let r5 = run_accepted 1 str false (suc x) y (s + 1 + 1 + 1 + 1) in
    let all = r1 ∙ r2 ∙ r3 ∙ r4 ∙ r5 in
    ap (outcome lattr) all ∙ (ap (λ p. (p, (suc x * 16 + y) * 256)) four)
  where
    four : s + 1 + 1 + 1 + 1 ≡ s + 4
    four = omega arith

-- "[0m" sets the attribute back to 0x07, and reading goes on behind the `m`.
pub set_local_attr_resets :
    (str : ℕ → ℕ) (s lattr : ℕ)
    → str s ≡ 91
    → str (s + 1) ≡ 48
    → str (s + 1 + 1) ≡ 109
    → set_local_attr str s lattr ≡ (s + 3, 1792)
unfolding set_local_attr run step outcome is_color_controller
set_local_attr_resets str s lattr a b c =
    let r1 = run_next 4 str (begin_scan s) (scan before_first false 0 0 (s + 1)) 91 a refl in
    let r2 =
      run_next 3 str (scan before_first false 0 0 (s + 1)) (scan after_zero false 0 0 (s + 1 + 1))
        48 b refl in
    let r3 =
      run_next 2 str (scan after_zero false 0 0 (s + 1 + 1))
        (scan accepted true 0 0 (s + 1 + 1 + 1)) 109 c refl in
    let r4 = run_accepted 2 str true 0 0 (s + 1 + 1 + 1) in
    let all = r1 ∙ r2 ∙ r3 ∙ r4 in ap (outcome lattr) all ∙ (ap (λ p. (p, 1792)) three)
  where
    three : s + 1 + 1 + 1 ≡ s + 3
    three = omega arith

-- At the end of the text, right behind the ESC, the attribute stays and reading goes on at the second
-- position behind the terminating NUL.
pub set_local_attr_overruns :
    (str : ℕ → ℕ) (s lattr : ℕ) → str s ≡ 0 → set_local_attr str s lattr ≡ (s + 2, lattr)
unfolding set_local_attr run step outcome
set_local_attr_overruns str s lattr a =
    let r1 = run_next 4 str (begin_scan s) (scan failed false 0 0 (s + 1)) 0 a refl in
    let r2 = run_failed 4 str false 0 0 (s + 1) in
    let all = r1 ∙ r2 in ap (outcome lattr) all ∙ (ap (λ p. (p, lattr)) two)
  where
    two : s + 1 + 1 ≡ s + 2
    two = omega arith

step_nears :
    (ch : ℕ) (st : Status) (c : Bool) (t1 t2 p : ℕ)
    → rounds_left (step ch (scan st c t1 t2 p)).status ≤ rounds_left st - 1
unfolding step
step_nears ch before_bracket c t1 t2 p = elim (Bool-cases (ch == 91)) [
  | inl e ↦ rw e (omega arith)
  | inr e ↦ rw e (omega arith)
]
step_nears ch before_first c t1 t2 p = ground arith
step_nears ch after_zero c t1 t2 p = ground arith
step_nears ch before_second c t1 t2 p = ground arith
step_nears ch before_end c t1 t2 p = elim (Bool-cases (ch == 109)) [
  | inl e ↦ rw e (omega arith)
  | inr e ↦ rw e (omega arith)
]
step_nears ch accepted c t1 t2 p = omega arith
step_nears ch failed c t1 t2 p = omega arith

is_over : (st : Status) → rounds_left st ≤ 0 → (st ≡ accepted) ⊎ (st ≡ failed)
is_over before_bracket h = absurd (omega arith)
is_over before_first h = absurd (omega arith)
is_over after_zero h = absurd (omega arith)
is_over before_second h = absurd (omega arith)
is_over before_end h = absurd (omega arith)
is_over accepted h = inl refl
is_over failed h = inr refl

run_over :
    (k : ℕ) (str : ℕ → ℕ) (x : Scan)
    → rounds_left x.status ≤ k
    → ((run k str x).status ≡ accepted) ⊎ ((run k str x).status ≡ failed)
unfolding run
run_over zero str x h = is_over x.status h
run_over (suc k) str x h =
    let nearer = step_nears (str x.pos) x.status x.cancel x.t1 x.t2 x.pos in
    run_over k str (step (str x.pos) x) (omega arith)

-- The loop of `set_local_attr` ends: after five characters at most the status is 6 or 7, whatever the
-- characters are.
pub run_ends :
    (str : ℕ → ℕ) (s : ℕ)
    → ((run 5 str (begin_scan s)).status ≡ accepted) ⊎ ((run 5 str (begin_scan s)).status ≡ failed)
run_ends str s = run_over 5 str (begin_scan s) (omega arith)

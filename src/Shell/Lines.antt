-- ===== src/Shell/Lines.antt =====
-- A whole command line of the shell that is written out and read back.
use wei_os.Shell.Roundtrip.{
  exec_loop-print, parseredirs-print, gettoken-symbol, args-no_redir, peek-first,
  length-print_redirs, redirs-skip, length-print_args,
}
use wei_os.Common.{
  ◌∙◌, ◌+◌, refl, zero, ap, arith, suc, false, true, ◌<◌, ◌≡◌, ◌≤◌, [], length, ◌∷◌, List, ℕ,
}
use wei_os.Shell.Written.{
  print_redirs, good_args, good_redirs, print_args, stage_cmd, backs_cmd, pipe_cmd, print_stage,
  print_pipe, good_stages, print_backs, good_stage, stops, Args, Redirs,
}
use wei_os.Shell.{
  max_args, backcmd, pipecmd, and_then, parsed, Cmd, parseline, gettoken, skip_white, parsecmd,
  back_loop, peek, parsepipe, parseexec,
}

parseexec-print :
    (c : Redirs × Args) (t : List ℕ)
    → good_stage c ≡ true
    → stops t ≡ true
    → parseexec (print_stage c t) ≡ parsed (stage_cmd c) t
unfolding parseexec
parseexec-print c t h g =
    let u = print_args c.1 t in
    let redirs : good_redirs c.0 ≡ true = ground arith in
    let args : good_args c.1 ≡ true = ground arith in
    let few : length c.1 < max_args = ground arith in
    let empty : 0 + length c.1 < max_args = omega arith in
    rw
      (parseredirs-print (length (print_redirs c.0 u) + 1) [] c.0 u redirs
        (args-no_redir c.1 t args g) (omega (arith, length-print_redirs c.0 u)))
      (exec_loop-print (length u + 1) [] c.0 c.1 t args g (omega (arith, length-print_args c.1 t))
        empty)

good_stage-skip :
    (c : Redirs × Args) (t : List ℕ)
    → good_stage c ≡ true
    → stops t ≡ true
    → skip_white (print_stage c t) ≡ print_stage c t
good_stage-skip c t h g =
    redirs-skip c.0 (print_args c.1 t) (ground arith) (args-no_redir c.1 t (ground arith) g)

parsepipe_last :
    (k : ℕ) (line t : List ℕ) (c : Cmd)
    → parseexec line ≡ parsed c t
    → peek (b'|' ∷ []) t ≡ (false, t)
    → parsepipe (suc k) line ≡ parsed c t
unfolding parsepipe
parsepipe_last k line t c e f = rw (e, ap (λ p. p.0) f, ap (λ p. p.1) f) refl

parsepipe_step :
    (k : ℕ) (line t u x : List ℕ) (c : Cmd)
    → parseexec line ≡ parsed c t
    → peek (b'|' ∷ []) t ≡ (true, t)
    → gettoken t ≡ (b'|', x, u)
    → parsepipe (suc k) line ≡ and_then (parsepipe k u) (λ right s. parsed (pipecmd c right) s)
unfolding parsepipe
parsepipe_step k line t u x c e f g = rw (e, ap (λ p. p.0) f, ap (λ p. p.1) f, ap (λ p. p.2) g) refl

print_backs-stops : (n : ℕ) → stops (print_backs n) ≡ true
print_backs-stops zero = refl
print_backs-stops (suc n) = refl

peek-print_backs : (n : ℕ) → peek (b'|' ∷ []) (print_backs n) ≡ (false, print_backs n)
unfolding peek
peek-print_backs zero = refl
peek-print_backs (suc n) = refl

pipe_skip :
    (c : Redirs × Args) (ds : List (Redirs × Args)) (n : ℕ)
    → good_stages (c ∷ ds) ≡ true
    → skip_white (print_pipe c ds (print_backs n)) ≡ print_pipe c ds (print_backs n)
pipe_skip c [] n h = good_stage-skip c (print_backs n) (ground arith) (print_backs-stops n)
pipe_skip c (d ∷ ds) n h = good_stage-skip c _ (ground arith) refl

parsepipe-print :
    (k : ℕ) (c : Redirs × Args) (ds : List (Redirs × Args)) (n : ℕ)
    → good_stages (c ∷ ds) ≡ true
    → length ds < k
    → parsepipe k (print_pipe c ds (print_backs n)) ≡ parsed (pipe_cmd c ds) (print_backs n)
parsepipe-print zero c ds n h g = absurd (omega arith)
parsepipe-print (suc k) c [] n h g =
    parsepipe_last k (print_stage c (print_backs n)) (print_backs n) (stage_cmd c)
      (parseexec-print c (print_backs n) (ground arith) (print_backs-stops n)) (peek-print_backs n)
parsepipe-print (suc k) c (d ∷ ds) n h g =
    let u = print_pipe d ds (print_backs n) in
    let t = b'|' ∷ u in
    parsepipe_step k (print_stage c t) t u (b'|' ∷ []) (stage_cmd c)
      (parseexec-print c t (ground arith) refl) (peek-first (b'|' ∷ []) b'|' u refl)
      (gettoken-symbol b'|' u refl
        ∙ ap (λ v. (b'|', b'|' ∷ [], v)) (pipe_skip d ds n (ground arith)))
    ∙ ap (λ p. and_then p (λ right s. parsed (pipecmd (stage_cmd c) right) s))
        (parsepipe-print k d ds n (ground arith) (omega arith))

print_backs-skip : (n : ℕ) → skip_white (print_backs n) ≡ print_backs n
print_backs-skip zero = refl
print_backs-skip (suc n) = refl

back_loop-print :
    (k n : ℕ) (c : Cmd) → n < k → back_loop k c (print_backs n) ≡ parsed (backs_cmd n c) []
unfolding back_loop gettoken peek
back_loop-print zero n c h = absurd (omega arith)
back_loop-print (suc k) zero c h = refl
back_loop-print (suc k) (suc n) c h =
    ap (back_loop k (backcmd c)) (print_backs-skip n)
    ∙ back_loop-print k n (backcmd c) (omega arith)

length-print_pipe :
    (c : Redirs × Args) (ds : List (Redirs × Args)) (t : List ℕ)
    → length ds ≤ length (print_pipe c ds t)
length-print_pipe c [] t = omega arith
length-print_pipe c (d ∷ ds) t =
    let u : List ℕ = b'|' ∷ print_pipe d ds t in
    omega (
      arith,
      length-print_pipe d ds t,
      length-print_args c.1 u,
      length-print_redirs c.0 (print_args c.1 u),
    )

length-print_backs : (n : ℕ) → length (print_backs n) ≡ n
length-print_backs zero = refl
length-print_backs (suc n) = omega (arith, length-print_backs n)

-- A pipeline that is written out is read back: commands of fewer than MAXARGS words with redirections
-- before and between them, piped one into the next, and behind the last any number of `&`. `parsecmd`
-- gives the tree in which each command stands inside its redirections, the first innermost, the pipes
-- lean to the right, and the `&` are outermost. Words and files hold no white character and no symbol.
pub parsecmd-print_pipe :
    (c : Redirs × Args) (ds : List (Redirs × Args)) (n : ℕ)
    → good_stages (c ∷ ds) ≡ true
    → parsecmd (print_pipe c ds (print_backs n)) ≡ parsed (backs_cmd n (pipe_cmd c ds)) []
unfolding parsecmd parseline peek
parsecmd-print_pipe c ds n h =
    let line = print_pipe c ds (print_backs n) in
    rw
      (
        parsepipe-print (length line + 1) c ds n h
            (omega (arith, length-print_pipe c ds (print_backs n))),
        back_loop-print (length (print_backs n) + 1) n (pipe_cmd c ds)
            (omega (arith, length-print_backs n)),
      )
      refl

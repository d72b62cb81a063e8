-- ===== src/Shell/Roundtrip.antt =====
-- One command of the shell that is written out and read back.
use wei_os.Shell.Lex.{split_word-plain, is_word}
use wei_os.Shell.Written.{
  args_redirs, args_words, print_redirs, print_args, good_args, stops, good_redirs, Args, Redirs,
}
use wei_os.Shell.{
  execcmd, redirected, max_args, parsed, skip_white, is_white, is_symbol, exec_loop, peek,
  parseredirs, gettoken,
}
use wei_os.Common.{
  zero, append_assoc, append-nil, leb, sym, has, length-append, refl, ap, ◌∙◌, ◌==◌, ◌&&◌, ◌≤◌, ◌<◌,
  suc, arith, ◌++◌, not, ◌+◌, [], false, true, length, ◌≡◌, ◌∷◌, Bool, ℕ, List,
}

-- What stands behind redirections: the end, a word, `|` or `&`.
abbrev no_redir : List ℕ → Bool
no_redir [] = true
no_redir (c ∷ t) = not (is_white c) && not (c == b'<') && not (c == b'>')

gettoken-word :
    (w t : List ℕ) → is_word w ≡ true → gettoken (w ++ (32 ∷ t)) ≡ (b'a', w, skip_white t)
unfolding gettoken
gettoken-word [] t h = absurd (cc)
gettoken-word (c ∷ w) t h = ground (arith, split_word-plain w t)

word-skip : (w t : List ℕ) → is_word w ≡ true → skip_white (w ++ t) ≡ w ++ t
word-skip [] t h = absurd (cc)
word-skip (c ∷ w) t h = ground arith

pub gettoken-symbol :
    (c : ℕ) (t : List ℕ) → is_symbol c ≡ true → gettoken (c ∷ t) ≡ (c, c ∷ [], skip_white t)
unfolding gettoken
gettoken-symbol c t h = ground arith

pub peek-first :
    (toks : List ℕ) (c : ℕ) (t : List ℕ)
    → is_white c ≡ false
    → peek toks (c ∷ t) ≡ (not (c == 0) && has c toks, c ∷ t)
unfolding peek
peek-first toks c t h = ground arith

abbrev redir_toks : List ℕ
redir_toks = b'<' ∷ b'>' ∷ []

peek-no_redir : (t : List ℕ) → no_redir t ≡ true → peek redir_toks t ≡ (false, t)
unfolding peek
peek-no_redir [] h = refl
peek-no_redir (c ∷ t) h = ground arith

pub redirs-skip :
    (rs : Redirs) (t : List ℕ)
    → good_redirs rs ≡ true
    → no_redir t ≡ true
    → skip_white (print_redirs rs t) ≡ print_redirs rs t
unfolding peek
redirs-skip [] t h g = ap (λ p. p.1) (peek-no_redir t g)
redirs-skip (r ∷ rs) t h g = ground arith

-- The first redirection, read as the two tokens that `parseredirs` reads.
redir_tokens :
    (r : ℕ × List ℕ) (u : List ℕ)
    → good_redirs (r ∷ []) ≡ true
    → skip_white u ≡ u
    → (peek redir_toks (r.0 ∷ (r.1 ++ (32 ∷ u))) ≡ (true, r.0 ∷ (r.1 ++ (32 ∷ u))))
      × (gettoken (r.0 ∷ (r.1 ++ (32 ∷ u))) ≡ (r.0, r.0 ∷ [], r.1 ++ (32 ∷ u)))
      × (gettoken (r.1 ++ (32 ∷ u)) ≡ (b'a', r.1, u))
redir_tokens r u h g =
    let word : is_word r.1 ≡ true = ground arith in
    (
      peek-first redir_toks r.0 (r.1 ++ (32 ∷ u)) (ground arith)
          ∙ ap (λ b. (b, r.0 ∷ (r.1 ++ (32 ∷ u)))) (ground arith),
      gettoken-symbol r.0 (r.1 ++ (32 ∷ u)) (ground arith)
          ∙ ap (λ v. (r.0, r.0 ∷ [], v)) (word-skip r.1 (32 ∷ u) word),
      gettoken-word r.1 u word ∙ ap (λ v. (b'a', r.1, v)) g,
    )

parseredirs_step :
    (k : ℕ) (acc : Redirs) (line s s1 : List ℕ) {s2 x file : List ℕ} {tok : ℕ}
    → peek redir_toks line ≡ (true, s)
    → gettoken s ≡ (tok, x, s1)
    → gettoken s1 ≡ (b'a', file, s2)
    → parseredirs (suc k) acc line ≡ parseredirs k (acc ++ ((tok, file) ∷ [])) s2
unfolding parseredirs
parseredirs_step k acc line s s1 e f g =
    rw
      (
        ap (λ p. p.0) e,
        ap (λ p. p.1) e,
        ap (λ p. p.0) f,
        ap (λ p. p.2) f,
        ap (λ p. p.0) g,
        ap (λ p. p.1) g,
        ap (λ p. p.2) g,
      )
      refl

pub parseredirs-print :
    (k : ℕ) (acc rs : Redirs) (t : List ℕ)
    → good_redirs rs ≡ true
    → no_redir t ≡ true
    → length rs < k
    → parseredirs k acc (print_redirs rs t) ≡ parsed (acc ++ rs) t
unfolding parseredirs
parseredirs-print zero acc rs t h g l = absurd (omega arith)
parseredirs-print (suc k) acc [] t h g l =
    let e = peek-no_redir t g in
    rw (ap (λ p. p.0) e, ap (λ p. p.1) e) (ap (λ a. parsed a t) (sym (append-nil acc)))
parseredirs-print (suc k) acc (r ∷ rs) t h g l =
    let u = print_redirs rs t in
    let (more, symbol, word) =
      redir_tokens r u (ground arith) (redirs-skip rs t (ground arith) g) in
    let line = print_redirs (r ∷ rs) t in
    parseredirs_step k acc line line (r.1 ++ (32 ∷ u)) more symbol word
    ∙ parseredirs-print k (acc ++ (r ∷ [])) rs t (ground arith) g (omega arith)
    ∙ ap (λ a. parsed a t) (append_assoc acc (r ∷ []) rs)

abbrev stop_toks : List ℕ
stop_toks = b'|' ∷ b'&' ∷ []

stops-no_redir : (t : List ℕ) → stops t ≡ true → no_redir t ≡ true
stops-no_redir [] h = refl
stops-no_redir (c ∷ t) h = ground arith

word-no_redir : (w t : List ℕ) → is_word w ≡ true → no_redir (w ++ t) ≡ true
word-no_redir [] t h = absurd (cc)
word-no_redir (c ∷ w) t h = ground arith

pub args-no_redir :
    (l : Args) (t : List ℕ) → good_args l ≡ true → stops t ≡ true → no_redir (print_args l t) ≡ true
args-no_redir [] t h g = stops-no_redir t g
args-no_redir (a ∷ l) t h g =
    word-no_redir a.0 (32 ∷ print_redirs a.1 (print_args l t)) (ground arith)

peek-word : (w t : List ℕ) → is_word w ≡ true → peek stop_toks (w ++ t) ≡ (false, w ++ t)
unfolding peek
peek-word [] t h = absurd (cc)
peek-word (c ∷ w) t h = ground arith

-- One round of the loop of `parseexec` that takes a word.
exec_step :
    (k : ℕ) (argv : List (List ℕ)) (rs rs' : Redirs) (line s1 s2 w : List ℕ)
    → peek stop_toks line ≡ (false, line)
    → gettoken line ≡ (b'a', w, s1)
    → parseredirs (length s1 + 1) rs s1 ≡ parsed rs' s2
    → length argv + 1 < max_args
    → exec_loop (suc k) argv rs line ≡ exec_loop k (argv ++ (w ∷ [])) rs' s2
unfolding exec_loop
exec_step k argv rs rs' line s1 s2 w e f g h =
    let room : leb max_args (length (argv ++ (w ∷ []))) ≡ false =
      ground (arith, length-append argv (w ∷ [])) in
    rw
      (ap (λ p. p.0) e, ap (λ p. p.1) e, ap (λ p. p.0) f, ap (λ p. p.1) f, ap (λ p. p.2) f, g, room)
      refl

-- The end of the loop.
exec_stop :
    (k : ℕ) (argv : List (List ℕ)) (rs : Redirs) (t : List ℕ)
    → stops t ≡ true
    → exec_loop (suc k) argv rs t ≡ parsed (redirected (execcmd argv) rs) t
unfolding exec_loop gettoken peek
exec_stop k argv rs [] h = refl
exec_stop k argv rs (c ∷ t) h = ground arith

pub length-print_redirs :
    (rs : Redirs) (t : List ℕ) → length rs + length t ≤ length (print_redirs rs t)
length-print_redirs [] t = omega arith
length-print_redirs (r ∷ rs) t =
    omega (arith, length-print_redirs rs t, length-append r.1 (32 ∷ print_redirs rs t))

pub length-print_args : (l : Args) (t : List ℕ) → length l + length t ≤ length (print_args l t)
length-print_args [] t = omega arith
length-print_args (a ∷ l) t =
    let u = print_args l t in
    omega (
      arith,
      length-print_args l t,
      length-print_redirs a.1 u,
      length-append a.0 (32 ∷ print_redirs a.1 u),
    )

pub exec_loop-print :
    (k : ℕ) (argv : List (List ℕ)) (rs : Redirs) (l : Args) (t : List ℕ)
    → good_args l ≡ true
    → stops t ≡ true
    → length l < k
    → length argv + length l < max_args
    → exec_loop k argv rs (print_args l t)
      ≡ parsed (redirected (execcmd (argv ++ args_words l)) (rs ++ args_redirs l)) t
exec_loop-print zero argv rs l t g h b m = absurd (omega arith)
exec_loop-print (suc k) argv rs [] t g h b m =
    exec_stop k argv rs t h
    ∙ (λ i. parsed (redirected (execcmd (sym (append-nil argv) i)) (sym (append-nil rs) i)) t)
exec_loop-print (suc k) argv rs (a ∷ l) t g h b m =
    let u = print_args l t in
    let s1 = print_redirs a.1 u in
    let word : is_word a.0 ≡ true = ground arith in
    let redirs : good_redirs a.1 ≡ true = ground arith in
    let behind = args-no_redir l t (ground arith) h in
    let few : length a.1 < length s1 + 1 = omega (arith, length-print_redirs a.1 u) in
    exec_step k argv rs (rs ++ a.1) (print_args (a ∷ l) t) s1 u a.0 (peek-word a.0 (32 ∷ s1) word)
      (gettoken-word a.0 s1 word ∙ ap (λ v. (b'a', a.0, v)) (redirs-skip a.1 u redirs behind))
      (parseredirs-print (length s1 + 1) rs a.1 u redirs behind few) (omega arith)
    ∙ exec_loop-print k (argv ++ (a.0 ∷ [])) (rs ++ a.1) l t (ground arith) h (omega arith)
        (omega (arith, length-append argv (a.0 ∷ [])))
    ∙ (λ i.
        parsed
          (redirected (execcmd (append_assoc argv (a.0 ∷ []) (args_words l) i))
            (append_assoc rs a.1 (args_redirs l) i))
          t)

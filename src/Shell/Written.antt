-- ===== src/Shell/Written.antt =====
-- Command lines of the shell as they are written out, and the trees that they stand for.
use wei_os.Shell.Lex.{is_word}
use wei_os.Shell.{max_args, backcmd, pipecmd, execcmd, redirected, Cmd}
use wei_os.Common.{length, ◌||◌, ltb, ◌==◌, zero, ◌++◌, ◌&&◌, true, suc, [], ◌∷◌, List, Bool, ℕ}

-- A command with its redirections: those before the first word, and the words, each with the
-- redirections behind it.
abbrev pub Redirs : Type 0
Redirs = List (ℕ × List ℕ)

abbrev pub Args : Type 0
Args = List (List ℕ × Redirs)

abbrev pub print_redirs : Redirs → List ℕ → List ℕ
print_redirs [] t = t
print_redirs (r ∷ rs) t = r.0 ∷ (r.1 ++ (32 ∷ print_redirs rs t))

abbrev pub print_args : Args → List ℕ → List ℕ
print_args [] t = t
print_args (a ∷ l) t = a.0 ++ (32 ∷ print_redirs a.1 (print_args l t))

abbrev pub print_stage : Redirs × Args → List ℕ → List ℕ
print_stage c t = print_redirs c.0 (print_args c.1 t)

-- A command and those that it is piped into.
abbrev pub print_pipe : Redirs × Args → List (Redirs × Args) → List ℕ → List ℕ
print_pipe c [] t = print_stage c t
print_pipe c (d ∷ ds) t = print_stage c (b'|' ∷ print_pipe d ds t)

abbrev pub print_backs : ℕ → List ℕ
print_backs zero = []
print_backs (suc n) = b'&' ∷ print_backs n

abbrev pub args_words : Args → List (List ℕ)
args_words [] = []
args_words (a ∷ l) = a.0 ∷ args_words l

abbrev pub args_redirs : Args → Redirs
args_redirs [] = []
args_redirs (a ∷ l) = a.1 ++ args_redirs l

abbrev pub stage_cmd : Redirs × Args → Cmd
stage_cmd c = redirected (execcmd (args_words c.1)) (c.0 ++ args_redirs c.1)

abbrev pub pipe_cmd : Redirs × Args → List (Redirs × Args) → Cmd
pipe_cmd c [] = stage_cmd c
pipe_cmd c (d ∷ ds) = pipecmd (stage_cmd c) (pipe_cmd d ds)

abbrev pub backs_cmd : ℕ → Cmd → Cmd
backs_cmd zero c = c
backs_cmd (suc n) c = backs_cmd n (backcmd c)

abbrev pub good_redirs : Redirs → Bool
good_redirs [] = true
good_redirs (r ∷ rs) = (r.0 == b'<' || r.0 == b'>') && is_word r.1 && good_redirs rs

abbrev pub good_args : Args → Bool
good_args [] = true
good_args (a ∷ l) = is_word a.0 && good_redirs a.1 && good_args l

-- Fewer than MAXARGS words, and what is written stands for itself.
abbrev pub good_stage : Redirs × Args → Bool
good_stage c = good_redirs c.0 && good_args c.1 && ltb (length c.1) max_args

abbrev pub good_stages : List (Redirs × Args) → Bool
good_stages [] = true
good_stages (c ∷ cs) = good_stage c && good_stages cs

-- What follows a command: the end, `|` or `&`.
abbrev pub stops : List ℕ → Bool
stops [] = true
stops (c ∷ t) = c == b'|' || c == b'&'

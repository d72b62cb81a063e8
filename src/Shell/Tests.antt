-- ===== src/Shell/Tests.antt =====
-- Runs of the shell's parser and of its search, and inputs of its theorems.
use wei_os.Shell.Lines.{parsecmd-print_pipe}
use wei_os.Shell.Parse.{parsecmd_ends}
use wei_os.Common.{refl, ◌==◌, ◌⊎◌, Bool, [], ◌≡◌, ℕ, ◌∷◌, List}
use wei_os.Shell.Written.{pipe_cmd, backs_cmd, print_backs, print_pipe, Args, Redirs}
use wei_os.Shell.{panics, first, parsed, Cmd, parsecmd, Parsed}

sample : Parsed Cmd
sample = parsecmd (b'l' ∷ b's' ∷ b' ' ∷ b'>' ∷ b'f' ∷ b'|' ∷ b' ' ∷ b'w' ∷ b'c' ∷ b'&' ∷ 10 ∷ [])

abbrev ls_out : Redirs × Args
ls_out = ([], ((b'l' ∷ b's' ∷ [], (b'>', b'f' ∷ []) ∷ []) ∷ []))

abbrev wc_in : Redirs × Args
wc_in = ((b'<', b'g' ∷ []) ∷ [], ((b'w' ∷ b'c' ∷ [], []) ∷ (b'x' ∷ [], []) ∷ []))

parsecmd-print_pipe_example :
    parsecmd (print_pipe ls_out (wc_in ∷ []) (print_backs 1))
    ≡ parsed (backs_cmd 1 (pipe_cmd ls_out (wc_in ∷ []))) []
parsecmd-print_pipe_example = parsecmd-print_pipe ls_out (wc_in ∷ []) 1 refl

abbrev two_pipes : List ℕ
two_pipes = b'a' ∷ b'|' ∷ b'|' ∷ b'b' ∷ []

parsecmd_ends_example :
    ((c : Cmd) × (parsecmd two_pipes ≡ parsed c [])) ⊎ (parsecmd two_pipes ≡ panics)
parsecmd_ends_example = parsecmd_ends two_pipes

abbrev two_dirs : List ℕ
two_dirs = b'a' ∷ b'/' ∷ b':' ∷ b'b' ∷ b'/' ∷ b':' ∷ []

abbrev in_b : List ℕ → Bool
in_b name = first name == b'b'

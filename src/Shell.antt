-- ===== src/Shell.antt =====
-- The shell of user/sh.c: its tokens, its parser, and the search for a command along PATH. A text is
-- the list of its characters before the NUL, and a pointer into the line is the rest of the line.
pub mod Lex
pub mod Parse
pub mod Written
pub mod Roundtrip
pub mod Lines
pub mod Search
mod Tests
use wei_os.Common.{
  drop, true, false, has, leb, zero, ◌&&◌, ◌||◌, ◌+◌, ◌++◌, not, if◌then◌else◌, ◌==◌, length, [],
  ◌∷◌, Bool, List,
}
use Prim.Native.Nat.{suc, ℕ}

abbrev is_white : ℕ → Bool
is_white c = c == b' ' || c == 9 || c == 13 || c == 10 || c == 11

abbrev pub is_symbol : ℕ → Bool
is_symbol c = c == b'<' || c == b'|' || c == b'>' || c == b'&'

-- What a pointer points at: at the end of the line it is the NUL.
abbrev pub first : List ℕ → ℕ
first [] = 0
first (c ∷ s) = c

abbrev pub skip_white : List ℕ → List ℕ
skip_white [] = []
skip_white (c ∷ s) = let rest = skip_white s in if is_white c then rest else c ∷ s

-- The word that a text begins with, and what follows it.
abbrev pub split_word : List ℕ → List ℕ × List ℕ
split_word [] = ([], [])
split_word (c ∷ s) =
    let rest = split_word s in
    if is_white c || is_symbol c then ([], c ∷ s) else (c ∷ rest.0, rest.1)

-- The token at the start of a text without white characters there.
abbrev pub token : List ℕ → ℕ × List ℕ × List ℕ
token [] = (0, [], [])
token (c ∷ s) =
    if c == 0
    then (0, [], skip_white (c ∷ s))
    else if is_symbol c
    then (c, c ∷ [], skip_white s)
    else (b'a', (split_word (c ∷ s)).0, skip_white (split_word (c ∷ s)).1)

-- The kind of a token, its text between `*q` and `*eq`, and the rest of the line.
unfoldable pub gettoken : List ℕ → ℕ × List ℕ × List ℕ
gettoken line = token (skip_white line)

unfoldable pub peek : List ℕ → List ℕ → Bool × List ℕ
peek toks line = let s = skip_white line in (not (first s == 0) && has (first s) toks, s)

-- The node of a redirection has its character, which gives the mode and the descriptor.
pub data Cmd : Type 0 where
  execcmd : List (List ℕ) → Cmd
  redircmd : Cmd → List ℕ → ℕ → Cmd
  pipecmd : Cmd → Cmd → Cmd
  backcmd : Cmd → Cmd

-- A result with the rest of the line, or the end of the process by `panic`.
pub data Parsed {ℓ} (A : Type ℓ) : Type ℓ where
  parsed : A → List ℕ → Parsed A
  panics : Parsed A
  out_of_fuel : Parsed A

abbrev pub and_then {ℓ κ} :
    {A : Type ℓ} {B : Type κ} → Parsed A → (A → List ℕ → Parsed B) → Parsed B
and_then (parsed a s) f = f a s
and_then panics f = panics
and_then out_of_fuel f = out_of_fuel

abbrev pub max_args : ℕ
max_args = 10

-- The redirections read so far, each with its character and its file.
unfoldable pub parseredirs : ℕ → List (ℕ × List ℕ) → List ℕ → Parsed (List (ℕ × List ℕ))
unfolding peek gettoken
parseredirs zero rs line = out_of_fuel
parseredirs (suc k) rs line =
    let s = (peek (b'<' ∷ b'>' ∷ []) line).1 in
    let (tok, _, s1) = gettoken s in
    let (kind, file, s2) = gettoken s1 in
    let rest = parseredirs k (rs ++ ((tok, file) ∷ [])) s2 in
    if not (peek (b'<' ∷ b'>' ∷ []) line).0
    then parsed rs s
    else if kind == b'a'
    then rest
    else panics

-- The node of the command inside those of its redirections, the first innermost. `parseexec` goes on
-- to fill the `argv` of the inner node when the others stand around it.
abbrev pub redirected : Cmd → List (ℕ × List ℕ) → Cmd
redirected c [] = c
redirected c (r ∷ rs) = redirected (redircmd c r.1 r.0) rs

-- The loop of `parseexec`.
unfoldable pub exec_loop : ℕ → List (List ℕ) → List (ℕ × List ℕ) → List ℕ → Parsed Cmd
unfolding peek gettoken parseredirs
exec_loop zero argv rs line = out_of_fuel
exec_loop (suc k) argv rs line =
    let s = (peek (b'|' ∷ b'&' ∷ []) line).1 in
    let (tok, word, s1) = gettoken s in
    let argv' = argv ++ (word ∷ []) in
    let rest = and_then (parseredirs (length s1 + 1) rs s1) (exec_loop k argv') in
    if (peek (b'|' ∷ b'&' ∷ []) line).0
    then parsed (redirected (execcmd argv) rs) s
    else if tok == 0
    then parsed (redirected (execcmd argv) rs) s1
    else if not (tok == b'a')
    then panics
    else if leb max_args (length argv')
    then panics
    else rest

unfoldable pub parseexec : List ℕ → Parsed Cmd
unfolding exec_loop
parseexec s =
    and_then (parseredirs (length s + 1) [] s) (λ rs s1. exec_loop (length s1 + 1) [] rs s1)

unfoldable pub parsepipe : ℕ → List ℕ → Parsed Cmd
unfolding parseexec
parsepipe zero line = out_of_fuel
parsepipe (suc k) line = and_then (parseexec line) (λ left s.
    let (bar, s1) = peek (b'|' ∷ []) s in
    let s2 = (gettoken s1).2 in
    let rest = and_then (parsepipe k s2) (λ right s3. parsed (pipecmd left right) s3) in
    if bar then rest else parsed left s1)

-- The loop of `parseline`.
unfoldable pub back_loop : ℕ → Cmd → List ℕ → Parsed Cmd
unfolding peek gettoken
back_loop zero c line = out_of_fuel
back_loop (suc k) c line =
    let (more, s) = peek (b'&' ∷ []) line in
    let s1 = (gettoken s).2 in
    let rest = back_loop k (backcmd c) s1 in if more then rest else parsed c s

unfoldable pub parseline : List ℕ → Parsed Cmd
unfolding parsepipe back_loop
parseline s = and_then (parsepipe (length s + 1) s) (λ c s1. back_loop (length s1 + 1) c s1)

-- The end of `parsecmd` at what is left of the line.
abbrev pub finished : Cmd → List ℕ → Parsed Cmd
finished c [] = parsed c []
finished c (a ∷ rest) = panics

unfoldable pub parsecmd : List ℕ → Parsed Cmd
unfolding parseline peek
parsecmd line = and_then (parseline line) (λ c s. finished c (peek [] s).1)

-- The characters of a path before its next colon.
abbrev pub before_colon : List ℕ → List ℕ
before_colon [] = []
before_colon (c ∷ s) = let rest = before_colon s in if c == b':' then [] else c ∷ rest

-- What `splicingcmd` does from position `*p` of the path on: whether it returns a pointer, with the
-- buffer `rs` and `*p`.
unfoldable pub splicingcmd : List ℕ → List ℕ → List ℕ → ℕ → Bool × List ℕ × ℕ
splicingcmd cmd path rs p =
    if leb (length path) p
    then (false, rs, p)
    else if first cmd == b'/'
    then (true, rs, p)
    else (let dir = before_colon (drop p path) in (true, dir ++ cmd, p + length dir + 1))

-- The outcome of the loop over the path: a successful `exec` does not return.
pub data Tried : Type 0 where
  executed : List ℕ → Tried
  not_found : Tried
  searching : Tried

-- The loop of `runcmd` over the directories, with the test that `exec` succeeds for a name.
unfoldable pub search_path : ℕ → (List ℕ → Bool) → List ℕ → List ℕ → List ℕ → ℕ → Tried
unfolding splicingcmd
search_path zero exec cmd path rs p = searching
search_path (suc k) exec cmd path rs p =
    let (found, rs', p') = splicingcmd cmd path rs p in
    let rest = search_path k exec cmd path rs' p' in
    if not found then not_found else if exec rs' then executed rs' else rest
